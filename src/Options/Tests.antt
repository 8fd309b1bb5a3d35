-- ===== src/Options/Tests.antt =====
-- Concrete options: a token of three bytes with a dash in it, two sources, a large port.
use serialmux.Prelude.{refl, Bool, true, false, Option, none, some}
use serialmux.Options.Config.{
  Name, Value, Text, parsed, first, ProgramOptions, SerialMuxOptions, new_options,
}
use serialmux.Options.Config
use serialmux.Options.Parse.{
  Ending, finished, parse_configuration, parse_values, atoi, digits_value, parse_port,
}
use serialmux.Options.Values.{Reflects}
use serialmux.Options.Precedence.{settings, config_contents, parse_configuration-Reflects}
use serialmux.Options.Port.{HasPort, digits_text, parse_values-HasPort}
use serialmux.Prelude.{◌≡◌, [], ◌∷◌, ◌++◌, arith}
use serialmux.Options.{is_digit, hex_to_bin}
use serialmux.Options.Digits.{nothing, dash, byte_text, rest_text}
use serialmux.Options.Hex.{hex_to_bin-text}

hex_to_bin-text_example :
    hex_to_bin (byte_text 48 ++ rest_text ((dash, 0xaf) ∷ (nothing, 7) ∷ [])) 8
    ≡ (48 ∷ 0xaf ∷ 7 ∷ 0 ∷ 0 ∷ 0 ∷ 0 ∷ 0 ∷ [], 3)
hex_to_bin-text_example =
    hex_to_bin-text 48 8 ((dash, 0xaf) ∷ (nothing, 7) ∷ []) (omega arith) (omega arith)

-- A command line that sets the listener's port, and a file that sets it too and sets the retries.
abbrev pub from_arguments : (n : Name) → Option (Value n)
from_arguments Config.listen = some 9901
from_arguments n = none

abbrev from_file : (n : Name) → Option (Value n)
from_file Config.listen = some 9902
from_file Config.picard_retries = some 7
from_file n = none

abbrev pub two_sources : ProgramOptions
two_sources = record {
  Source = (n : Name) → Option (Value n);
  VariablesMap = (n : Name) → Option (Value n);
  parse_command_line = λ args. parsed from_arguments;
  parse_config_file = λ text. parsed from_file;
  given = λ s n. s n;
  no_variables = λ n. none;
  store = λ s m n. first (m n) (s n);
  value = λ m n. m n;
  value-no_variables = λ n. refl;
  value-store = λ s m n. refl;
}

abbrev pub everywhere : Text → Bool
everywhere dir = true

abbrev pub empty_file : Option Text → Text → Option Text
empty_file dir path = some []

abbrev outcome : Ending
outcome = parse_configuration two_sources everywhere empty_file [] new_options

abbrev pub chosen : SerialMuxOptions
chosen = record new_options { emulator_port = 0; listener_port = 9901; picard_retries = 7 }

ends : outcome ≡ finished chosen
unfolding parse_configuration atoi digits_value new_options is_digit parse_port
ends = refl

parse_configuration-Reflects_example :
    Reflects
      (settings two_sources from_arguments
        (config_contents two_sources everywhere empty_file from_arguments))
      chosen
parse_configuration-Reflects_example =
    parse_configuration-Reflects two_sources everywhere empty_file [] from_arguments chosen refl
      ends

-- Port 70000, with a letter behind it.
abbrev far : SerialMuxOptions
far = record new_options { serial_port = 55 ∷ 48 ∷ 48 ∷ 48 ∷ 48 ∷ b'x' ∷ [] }

parse_values-HasPort_example : HasPort 4464 false (parse_values two_sources (λ n. none) far)
unfolding digits_text new_options is_digit
parse_values-HasPort_example =
    parse_values-HasPort two_sources (λ n. none) far 7 (0 ∷ 0 ∷ 0 ∷ 0 ∷ []) (b'x' ∷ [])
      (omega arith) refl (omega arith) refl refl tt

-- ===== src/Options/Config.antt =====
-- serial_mux/SerialMuxOptions.h and serial_mux/SerialMuxOptions.cpp: the options and their defaults,
-- and `parseConfiguration`. boost.program_options is the parameter `ProgramOptions`, with what is
-- documented of `store`; the file system and the current directory are arguments. An int is its
-- 32-bit pattern.
use serialmux.Prelude.{ℕ, ◌≡◌, Bool, true, false, Option, none, some, List, [], ◌∷◌}
use serialmux.Log.{log_error}

abbrev pub Text : Type 0
Text = List ℕ

-- The options by their names.
pub data Name : Type 0 where
  port log_level log_file service_name config directory auth_token : Name
  listen rts_delay picard_timeout picard_retries read_timeout log_num_backups log_max_size baud :
      Name
  accept_anyhost flow_control daemon help version : Name

-- What an option's value is: a text, a number, or nothing but that it is there.
abbrev pub Value : Name → Type 0
Value port = Text
Value log_level = Text
Value log_file = Text
Value service_name = Text
Value config = Text
Value directory = Text
Value auth_token = Text
Value listen = ℕ
Value rts_delay = ℕ
Value picard_timeout = ℕ
Value picard_retries = ℕ
Value read_timeout = ℕ
Value log_num_backups = ℕ
Value log_max_size = ℕ
Value baud = ℕ
Value accept_anyhost = Unit
Value flow_control = Unit
Value daemon = Unit
Value help = Unit
Value version = Unit

-- How a parse ends: `unknown_option` is the exception that the code catches, `invalid` any other.
pub data Outcome (A : Type 0) : Type 0 where
  parsed : A → Outcome A
  unknown_option : Outcome A
  invalid : Outcome A

abbrev pub first {ℓ} : {A : Type ℓ} → Option A → Option A → Option A
first none y = y
first (some x) y = some x

-- `Source` is what a parse gives, and `VariablesMap` what `store` fills. `given` and `value` leave
-- out the values that are defaults.
pub record ProgramOptions : Type 1 where
  pub Source : Type 0
  pub VariablesMap : Type 0
  pub parse_command_line : List Text → Outcome Source
  pub parse_config_file : Text → Outcome Source
  pub given : Source → (n : Name) → Option (Value n)
  pub no_variables : VariablesMap
  pub store : Source → VariablesMap → VariablesMap
  pub value : VariablesMap → (n : Name) → Option (Value n)
  pub value-no_variables : (n : Name) → value no_variables n ≡ none
  pub value-store :
      (s : Source) (m : VariablesMap) (n : Name)
      → value (store s m) n ≡ first (value m n) (given s n)

-- `SerialMuxOptions`.
pub record SerialMuxOptions : Type 0 where
  pub config_file : Text
  pub use_serial : Bool
  pub serial_port : Text
  pub baud_rate : ℕ
  pub use_flow_control : Bool
  pub rts_delay : ℕ
  pub emulator_port : ℕ
  pub listener_port : ℕ
  pub accept_anyhost : Bool
  pub auth_token : List ℕ
  pub picard_timeout : ℕ
  pub picard_retries : ℕ
  pub read_timeout : ℕ
  pub run_as_daemon : Bool
  pub service_name : Text
  pub log_level : ℕ
  pub log_file : Text
  pub num_log_backups : ℕ
  pub max_log_size : ℕ

-- `"COM1"`, `"serial_mux.cfg"`, `"SerialMux"` and `"serial_mux.log"`.
abbrev pub default_serial_port : Text
default_serial_port = b'C' ∷ b'O' ∷ b'M' ∷ b'1' ∷ []

abbrev pub default_config_file : Text
default_config_file =
    b's' ∷ b'e' ∷ b'r' ∷ b'i' ∷ b'a' ∷ b'l' ∷ b'_' ∷ b'm' ∷ b'u' ∷ b'x' ∷ b'.' ∷ b'c' ∷ b'f' ∷ b'g'
    ∷ []

abbrev pub default_service_name : Text
default_service_name = b'S' ∷ b'e' ∷ b'r' ∷ b'i' ∷ b'a' ∷ b'l' ∷ b'M' ∷ b'u' ∷ b'x' ∷ []

abbrev pub default_log_file : Text
default_log_file =
    b's' ∷ b'e' ∷ b'r' ∷ b'i' ∷ b'a' ∷ b'l' ∷ b'_' ∷ b'm' ∷ b'u' ∷ b'x' ∷ b'.' ∷ b'l' ∷ b'o' ∷ b'g'
    ∷ []

abbrev pub default_authentication : List ℕ
default_authentication = 48 ∷ 49 ∷ 50 ∷ 51 ∷ 52 ∷ 53 ∷ 54 ∷ 55 ∷ []

-- The constructor.
unfoldable pub new_options : SerialMuxOptions
new_options = record {
  config_file = default_config_file;
  use_serial = true;
  serial_port = default_serial_port;
  baud_rate = 115200;
  use_flow_control = false;
  rts_delay = 5;
  emulator_port = 60000;
  listener_port = 9900;
  accept_anyhost = false;
  auth_token = default_authentication;
  picard_timeout = 3000;
  picard_retries = 2;
  read_timeout = 1000;
  run_as_daemon = false;
  service_name = default_service_name;
  log_level = log_error;
  log_file = default_log_file;
  num_log_backups = 5;
  max_log_size = 1000000;
}

abbrev pub is_given {ℓ} : {A : Type ℓ} → Option A → Bool
is_given none = false
is_given (some a) = true

abbrev pub or_default {ℓ} : {A : Type ℓ} → Option A → A → A
or_default none d = d
or_default (some a) d = a

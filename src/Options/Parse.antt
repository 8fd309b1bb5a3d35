-- ===== src/Options/Parse.antt =====
-- serial_mux/SerialMuxOptions.cpp: `parseConfiguration`. `atoi` is the C library's; out of an int's
-- range its behaviour is undefined, which is `none`. The text that is printed is left out.
use serialmux.Prelude.{
  ℕ, ◌+◌, ◌-◌, ◌*◌, ◌%◌, ◌^◌, Bool, true, false, ◌&&◌, ◌||◌, Option, none, some, List, [], ◌∷◌, ltb,
  leb, ◌==◌, if◌then◌else◌,
}
use serialmux.Options.{is_digit, skip_spaces, hex_to_bin}
use serialmux.Log.{string_to_enum}
use serialmux.Options.Config.{
  Text, Name, Outcome, parsed, unknown_option, invalid, ProgramOptions, SerialMuxOptions,
  new_options, default_serial_port, default_service_name, default_log_file, is_given, or_default,
}
use serialmux.Options.Config

-- The digits that a text starts with, as a number.
unfoldable pub digits_value : ℕ → Text → ℕ
digits_value acc [] = acc
digits_value acc (c ∷ cs) =
    let rest = digits_value (acc * 10 + (c - 48)) cs in if is_digit c then rest else acc

-- `atoi` behind the sign, and `atoi`, as a 32-bit pattern.
unfoldable pub signed_value : Bool → Text → Option ℕ
signed_value negative cs =
    let n = digits_value 0 cs in
    if negative
    then if leb n (2 ^ 31) then some ((2 ^ 32 - n) % 2 ^ 32) else none
    else if ltb n (2 ^ 31)
    then some n
    else none

unfoldable pub unsigned_text : Text → Bool × Text
unsigned_text [] = (false, [])
unsigned_text (c ∷ cs) =
    if c == b'-' then (true, cs) else if c == b'+' then (false, cs) else (false, c ∷ cs)

unfoldable pub atoi : Text → Option ℕ
unfolding signed_value unsigned_text skip_spaces
atoi text = let (negative, cs) = unsigned_text (skip_spaces text) in signed_value negative cs

-- The exceptions of `parseConfiguration`.
pub data Failure : Type 0 where
  unknown_argument unknown_setting : Failure
  no_directory no_config_file : Failure
  invalid_token : Failure
  other_failure : Failure

-- How it ends: with 0, with 1, with an exception, or without a defined behaviour.
pub data Ending : Type 0 where
  finished : SerialMuxOptions → Ending
  should_exit : Ending
  throws : Failure → Ending
  undefined : Ending

-- The port is the emulator's if it is a number below 65535, in 16 bits.
unfoldable pub parse_port : ℕ → SerialMuxOptions → SerialMuxOptions
parse_port n o =
    let p = n % 2 ^ 16 in
    record o {
      emulator_port = p;
      use_serial = if ltb 0 p && ltb p 65535 then false else o.use_serial;
    }

abbrev pub authentication_len : ℕ
authentication_len = 8

module _ (lib : ProgramOptions) where
  open lib use {
    Source, VariablesMap, parse_command_line, parse_config_file, no_variables, store, value,
  }

  -- `notify`: what the options with a variable of their own write there.
  unfoldable pub notify : VariablesMap → SerialMuxOptions → SerialMuxOptions
  notify m o = record o {
    serial_port = or_default (value m Config.port) default_serial_port;
    listener_port = or_default (value m Config.listen) 9900;
    rts_delay = or_default (value m Config.rts_delay) 5;
    picard_timeout = or_default (value m Config.picard_timeout) 3000;
    picard_retries = or_default (value m Config.picard_retries) 2;
    read_timeout = or_default (value m Config.read_timeout) 1000;
    log_file = or_default (value m Config.log_file) default_log_file;
    num_log_backups = or_default (value m Config.log_num_backups) 5;
    max_log_size = or_default (value m Config.log_max_size) 1000000;
    service_name = or_default (value m Config.service_name) default_service_name;
    config_file = or_default (value m Config.config) o.config_file;
    baud_rate = or_default (value m Config.baud) o.baud_rate;
  }

  -- The end of `parseConfiguration`: flags and the log level, before them the token, first the port.
  unfoldable pub parse_flags : VariablesMap → SerialMuxOptions → SerialMuxOptions
  parse_flags m o = record o {
    accept_anyhost = is_given (value m Config.accept_anyhost) || o.accept_anyhost;
    use_flow_control = is_given (value m Config.flow_control) || o.use_flow_control;
    run_as_daemon = is_given (value m Config.daemon) || o.run_as_daemon;
    log_level = elim (value m Config.log_level) [
      | none ↦ o.log_level
      | some text ↦ string_to_enum text
    ];
  }

  unfoldable pub parse_token : VariablesMap → SerialMuxOptions → Ending
  unfolding parse_flags
  parse_token m o = elim (value m Config.auth_token) [
    | none ↦ finished (parse_flags m o)
    | some text ↦
        let (token, result) = hex_to_bin text authentication_len in
        if result == 0
        then throws invalid_token
        else finished (parse_flags m (record o { auth_token = token }))
  ]

  unfoldable pub parse_values : VariablesMap → SerialMuxOptions → Ending
  unfolding parse_token
  parse_values m o = elim (atoi o.serial_port) [
    | none ↦ undefined
    | some n ↦ parse_token m (parse_port n o)
  ]

  -- The configuration file, if it can be opened.
  unfoldable pub read_config : VariablesMap → SerialMuxOptions → Option Text → Ending
  unfolding parse_values notify
  read_config m o contents = elim contents [
    | none ↦ if is_given (value m Config.config) then throws no_config_file else parse_values m o
    | some text ↦ elim (parse_config_file text) [
      | parsed s ↦ let n = store s m in parse_values n (notify n o)
      | unknown_option ↦ throws unknown_setting
      | invalid ↦ throws other_failure
    ]
  ]

  -- `parseConfiguration`. `can_enter` says whether a directory can become the current one, and
  -- `read_file` what a file holds there, if it can be opened.
  module _ (can_enter : Text → Bool) (read_file : Option Text → Text → Option Text) where
    unfoldable pub parse_arguments : Source → SerialMuxOptions → Ending
    unfolding read_config notify
    parse_arguments s o =
        let m = store s no_variables in
        let n = notify m o in
        if is_given (value m Config.help) || is_given (value m Config.version)
        then should_exit
        else (elim (value m Config.directory) [
          | none ↦ read_config m n (read_file none n.config_file)
          | some dir ↦
              if can_enter dir
              then read_config m n (read_file (some dir) n.config_file)
              else throws no_directory
        ])

    unfoldable pub parse_configuration : List Text → SerialMuxOptions → Ending
    unfolding parse_arguments
    parse_configuration args o = elim (parse_command_line args) [
      | parsed s ↦ parse_arguments s o
      | unknown_option ↦ throws unknown_argument
      | invalid ↦ throws other_failure
    ]

-- ===== src/Options/Values.antt =====
-- `parseConfiguration`: the end of it sets each option as a map of variables says.
use serialmux.Prelude.{
  ℕ, ◌≡◌, ◌≢◌, refl, sym, subst, false, Bool-cases, Option-cases, inl, inr, Option, none, some,
  List, ◌==◌, arith, ==→ne,
}
use serialmux.Options.{hex_to_bin}
use serialmux.Log.{log_error, string_to_enum}
use serialmux.Options.Config.{
  Text, Name, Value, Outcome, parsed, unknown_option, invalid, first, ProgramOptions,
  SerialMuxOptions, new_options, default_serial_port, default_service_name, default_log_file,
  default_config_file, default_authentication, is_given, or_default,
}
use serialmux.Options.Config
use serialmux.Options.Parse.{
  atoi, Ending, finished, should_exit, throws, undefined, parse_port, authentication_len, notify,
  parse_flags, parse_token, parse_values,
}

-- The level that a text stands for, and the error level without one.
abbrev pub level_of : Option Text → ℕ
level_of none = log_error
level_of (some text) = string_to_enum text

-- The token that a text stands for, if it stands for one.
abbrev pub IsToken : Option Text → List ℕ → Type 0
IsToken none token = token ≡ default_authentication
IsToken (some text) token =
    (token ≡ (hex_to_bin text authentication_len).0) × ((hex_to_bin text authentication_len).1 ≢ 0)

-- The options that are set as `setting` says, the rest being defaults.
pub record Reflects (setting : (n : Name) → Option (Value n)) (o : SerialMuxOptions) : Type 0 where
  pub serial_port_eq : o.serial_port ≡ or_default (setting Config.port) default_serial_port
  pub listener_port_eq : o.listener_port ≡ or_default (setting Config.listen) 9900
  pub rts_delay_eq : o.rts_delay ≡ or_default (setting Config.rts_delay) 5
  pub picard_timeout_eq : o.picard_timeout ≡ or_default (setting Config.picard_timeout) 3000
  pub picard_retries_eq : o.picard_retries ≡ or_default (setting Config.picard_retries) 2
  pub read_timeout_eq : o.read_timeout ≡ or_default (setting Config.read_timeout) 1000
  pub log_file_eq : o.log_file ≡ or_default (setting Config.log_file) default_log_file
  pub num_log_backups_eq : o.num_log_backups ≡ or_default (setting Config.log_num_backups) 5
  pub max_log_size_eq : o.max_log_size ≡ or_default (setting Config.log_max_size) 1000000
  pub service_name_eq :
      o.service_name ≡ or_default (setting Config.service_name) default_service_name
  pub baud_rate_eq : o.baud_rate ≡ or_default (setting Config.baud) 115200
  pub accept_anyhost_eq : o.accept_anyhost ≡ is_given (setting Config.accept_anyhost)
  pub flow_control_eq : o.use_flow_control ≡ is_given (setting Config.flow_control)
  pub daemon_eq : o.run_as_daemon ≡ is_given (setting Config.daemon)
  pub log_level_eq : o.log_level ≡ level_of (setting Config.log_level)
  pub token : IsToken (setting Config.auth_token) o.auth_token

-- If it finishes, the options have the property.
abbrev pub Ends : (SerialMuxOptions → Type 0) → Ending → Type 0
Ends P (finished o) = P o
Ends P should_exit = Unit
Ends P (throws failure) = Unit
Ends P undefined = Unit

-- It finishes, and the options have the property.
abbrev pub Finishes : (SerialMuxOptions → Type 0) → Ending → Type 0
Finishes P (finished o) = P o
Finishes P should_exit = ⊥
Finishes P (throws failure) = ⊥
Finishes P undefined = ⊥

module _ (lib : ProgramOptions) where
  open lib use {
    Source, VariablesMap, parse_command_line, parse_config_file, given, no_variables, store, value,
    value-no_variables, value-store,
  }

  -- Options that nothing has set but `notify`; a baud rate that was set is that of `m`.
  pub record IsBlank (m : VariablesMap) (o : SerialMuxOptions) : Type 0 where
    pub baud :
        or_default (value m Config.baud) o.baud_rate ≡ or_default (value m Config.baud) 115200
    pub accept : o.accept_anyhost ≡ false
    pub flow : o.use_flow_control ≡ false
    pub daemon : o.run_as_daemon ≡ false
    pub level : o.log_level ≡ log_error
    pub authentication : o.auth_token ≡ default_authentication

  parse_flags-Reflects :
      (m : VariablesMap) (o : SerialMuxOptions) (token : List ℕ)
      → IsToken (value m Config.auth_token) token
      → IsBlank m o
      → (n : ℕ)
      → Reflects
          (value m)
          (parse_flags lib m (record (parse_port n (notify lib m o)) { auth_token = token }))
  unfolding parse_flags parse_port notify
  parse_flags-Reflects m o token t blank n = record {
    serial_port_eq = refl;
    listener_port_eq = refl;
    rts_delay_eq = refl;
    picard_timeout_eq = refl;
    picard_retries_eq = refl;
    read_timeout_eq = refl;
    log_file_eq = refl;
    num_log_backups_eq = refl;
    max_log_size_eq = refl;
    service_name_eq = refl;
    baud_rate_eq = blank.baud;
    accept_anyhost_eq = let e = blank.accept in ground arith;
    flow_control_eq = let e = blank.flow in ground arith;
    daemon_eq = let e = blank.daemon in ground arith;
    log_level_eq = let e = blank.level in ground arith;
    token = t;
  }

  parse_token-Ends :
      (m : VariablesMap) (o : SerialMuxOptions) (n : ℕ)
      → IsBlank m o
      → Ends (Reflects (value m)) (parse_token lib m (parse_port n (notify lib m o)))
  unfolding parse_token
  parse_token-Ends m o n blank = elim (Option-cases (value m Config.auth_token)) [
    | inl e ↦
        let same : IsToken (value m Config.auth_token) o.auth_token =
          subst (λ t. IsToken t o.auth_token) (sym e) blank.authentication in
        rw (e, Ends)
          (unfold parse_port notify in parse_flags-Reflects m o o.auth_token same blank n)
    | inr (text, e) ↦ elim (Bool-cases ((hex_to_bin text authentication_len).1 == 0)) [
      | inl bad ↦ rw (e, Ends) (rw (bad, Ends) tt)
      | inr good ↦
          let token : IsToken (value m Config.auth_token) (hex_to_bin text authentication_len).0 =
            subst (λ t. IsToken t (hex_to_bin text authentication_len).0) (sym e)
              (refl, ==→ne _ 0 good) in
          rw (e, Ends) (rw (good, Ends) (parse_flags-Reflects m o _ token blank n))
    ]
  ]

  pub parse_values-Ends :
      (m : VariablesMap) (o : SerialMuxOptions)
      → IsBlank m o
      → Ends (Reflects (value m)) (parse_values lib m (notify lib m o))
  unfolding parse_values
  parse_values-Ends m o blank = elim (Option-cases (atoi (notify lib m o).serial_port)) [
    | inl e ↦ rw (e, Ends) tt
    | inr (n, e) ↦ rw (e, Ends) (parse_token-Ends m o n blank)
  ]

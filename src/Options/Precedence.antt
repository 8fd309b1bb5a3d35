-- ===== src/Options/Precedence.antt =====
-- `parseConfiguration`: the command line goes before the configuration file, and that before the
-- defaults.
use serialmux.Prelude.{
  ℕ, ◌≡◌, ◌⊎◌, refl, ap, sym, subst, ◌∙◌, Bool, ◌||◌, Bool-cases, Option-cases, inl, inr, Option,
  none, some, List,
}
use serialmux.Options.Config.{
  Text, Name, Value, Outcome, parsed, unknown_option, invalid, first, ProgramOptions,
  SerialMuxOptions, new_options, default_serial_port, default_service_name, default_log_file,
  default_config_file, default_authentication, is_given, or_default,
}
use serialmux.Options.Config
use serialmux.Options.Parse.{
  finished, notify, parse_values, read_config, parse_arguments, parse_configuration,
}
use serialmux.Options.Values.{Reflects, Ends, IsBlank, parse_values-Ends}

Outcome-cases :
    {A : Type 0} (r : Outcome A)
    → ((a : A) × (r ≡ parsed a)) ⊎ ((r ≡ unknown_option) ⊎ (r ≡ invalid))
Outcome-cases (parsed a) = inl (a, refl)
Outcome-cases unknown_option = inr (inl refl)
Outcome-cases invalid = inr (inr refl)

module _ (lib : ProgramOptions) where
  open lib use {
    Source, VariablesMap, parse_command_line, parse_config_file, given, no_variables, store, value,
    value-no_variables, value-store,
  }

  -- What is set: by the command line, or else by the configuration file.
  with_file : Source → Outcome Source → (n : Name) → Option (Value n)
  with_file cmd (parsed s) n = first (given cmd n) (given s n)
  with_file cmd unknown_option n = given cmd n
  with_file cmd invalid n = given cmd n

  unfoldable pub settings : Source → Option Text → (n : Name) → Option (Value n)
  unfolding with_file
  settings cmd none = given cmd
  settings cmd (some text) = with_file cmd (parse_config_file text)

  module _ (cmd : Source) where
    abbrev stored : VariablesMap
    stored = store cmd no_variables

    stored-value : (n : Name) → value stored n ≡ given cmd n
    stored-value n =
        value-store cmd no_variables n ∙ ap (λ v. first v (given cmd n)) (value-no_variables n)

    restored-value :
        (s : Source) (n : Name) → value (store s stored) n ≡ first (given cmd n) (given s n)
    restored-value s n = value-store s stored n ∙ ap (λ v. first v (given s n)) (stored-value n)

    blank : IsBlank lib stored new_options
    unfolding new_options
    blank = record {
      baud = refl;
      accept = refl;
      flow = refl;
      daemon = refl;
      level = refl;
      authentication = refl;
    }

    -- A baud rate of the command line is kept.
    baud_kept :
        (before now : Option ℕ) (given_now : Option ℕ)
        → now ≡ first before given_now
        → or_default now (or_default before 115200) ≡ or_default now 115200
    baud_kept none now given_now e = refl
    baud_kept (some b) now given_now e = rw e refl

    IsBlank-again : (s : Source) → IsBlank lib (store s stored) (notify lib stored new_options)
    unfolding new_options notify
    IsBlank-again s = record {
      baud =
          baud_kept (value stored Config.baud) (value (store s stored) Config.baud)
            (given s Config.baud) (value-store s stored Config.baud);
      accept = refl;
      flow = refl;
      daemon = refl;
      level = refl;
      authentication = refl;
    }

    settings-parsed :
        (text : Text) (s : Source)
        → parse_config_file text ≡ parsed s
        → settings cmd (some text) ≡ λ n. first (given cmd n) (given s n)
    unfolding settings
    settings-parsed text s e = ap (with_file cmd) e

    read_config-Ends :
        (contents : Option Text)
        → Ends
            (Reflects (settings cmd contents))
            (read_config lib stored (notify lib stored new_options) contents)
    unfolding read_config settings
    read_config-Ends none = elim (Bool-cases (is_given (value stored Config.config))) [
      | inl e ↦ rw (e, Ends) tt
      | inr e ↦
          rw (e, Ends)
            (subst
              (λ f. Ends (Reflects f) (parse_values lib stored (notify lib stored new_options)))
              (λ i n. stored-value n i) (parse_values-Ends lib stored new_options blank))
    ]
    read_config-Ends (some text) = elim (Outcome-cases (parse_config_file text)) [
      | inl (s, e) ↦
          rw (e, Ends)
            (subst
              (λ f. Ends (Reflects f) (
                parse_values lib (store s stored)
                  (notify lib (store s stored) (notify lib stored new_options))))
              ((λ i n. restored-value s n i) ∙ sym (settings-parsed text s e))
              (parse_values-Ends lib (store s stored) (notify lib stored new_options)
                (IsBlank-again s)))
      | inr (inl e) ↦ rw (e, Ends) tt
      | inr (inr e) ↦ rw (e, Ends) tt
    ]

  module _ (can_enter : Text → Bool) (read_file : Option Text → Text → Option Text) where
    -- The configuration file that the command line asks for.
    pub config_contents : Source → Option Text
    config_contents cmd =
        read_file (given cmd Config.directory)
          (or_default (given cmd Config.config) default_config_file)

    parse_arguments-Ends :
        (cmd : Source)
        → Ends
            (Reflects (settings cmd (config_contents cmd)))
            (parse_arguments lib can_enter read_file cmd new_options)
    unfolding parse_arguments config_contents new_options notify
    parse_arguments-Ends cmd =
        elim (Bool-cases (
          is_given (value (stored cmd) Config.help)
          || is_given (value (stored cmd) Config.version))) [
            | inl e ↦ rw (e, Ends) tt
            | inr e ↦ elim (Option-cases (value (stored cmd) Config.directory)) [
              | inl d ↦ rw (e, Ends) (rw (d, Ends) (reads none d))
              | inr (dir, d) ↦ elim (Bool-cases (can_enter dir)) [
                | inl c ↦ rw (e, Ends) (rw (d, Ends) (rw (c, Ends) (reads (some dir) d)))
                | inr c ↦ rw (e, Ends) (rw (d, Ends) (rw (c, Ends) tt))
              ]
            ]
          ]
      where
        reads :
            (dir : Option Text)
            → value (stored cmd) Config.directory ≡ dir
            → Ends (Reflects (settings cmd (config_contents cmd))) (
                read_config lib (stored cmd) (notify lib (stored cmd) new_options) (
                  read_file dir
                    (or_default (value (stored cmd) Config.config) default_config_file)))
        reads dir d =
            subst
              (λ c.
                Ends (Reflects (settings cmd (config_contents cmd)))
                  (read_config lib (stored cmd) (notify lib (stored cmd) new_options) c))
              (λ i.
                read_file ((sym (stored-value cmd Config.directory) ∙ d) i)
                  (or_default (sym (stored-value cmd Config.config) i) default_config_file))
              (read_config-Ends cmd (config_contents cmd))

    -- If `parseConfiguration` finishes, each option is as the command line says, or else as the
    -- configuration file says that the command line names, or else its default.
    pub parse_configuration-Reflects :
        (args : List Text) (cmd : Source) (o : SerialMuxOptions)
        → parse_command_line args ≡ parsed cmd
        → parse_configuration lib can_enter read_file args new_options ≡ finished o
        → Reflects (settings cmd (config_contents cmd)) o
    unfolding parse_configuration
    parse_configuration-Reflects args cmd o e done =
        subst (Ends (Reflects (settings cmd (config_contents cmd)))) (ended ∙ done)
          (parse_arguments-Ends cmd)
      where
        ended :
            parse_arguments lib can_enter read_file cmd new_options
            ≡ parse_configuration lib can_enter read_file args new_options
        ended = rw (e, parse_configuration) refl

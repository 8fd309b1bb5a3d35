-- ===== src/Main/Start.antt =====
-- serial_mux/serial_mux.cpp: `main` from the command line to the first round of `serial_mux_loop`.
use serialmux.Prelude.{
  ℕ, ◌≡◌, refl, ap, sym, subst, ◌∙◌, Bool, true, false, not, Option, List, take, if◌then◌else◌,
}
use serialmux.Client.{authentication_len}
use serialmux.Options.Config.{
  Text, Name, Value, parsed, ProgramOptions, SerialMuxOptions, new_options, is_given, or_default,
}
use serialmux.Options.Config
use serialmux.Options.Parse.{Ending, finished, should_exit, throws, undefined, parse_configuration}
use serialmux.Options.Values.{IsToken}
use serialmux.Options.Precedence.{settings, config_contents, parse_configuration-Reflects}
use serialmux.Listener.{new_listener}
use serialmux.Manager.{new_manager}
use serialmux.Manager.Loop.{start_loop}
use serialmux.Server.{Server}
use serialmux.Server.Loop.{start_server}
use serialmux.Main.{
  Program, returns, loops, serves, unspecified, start_program, main, attempts_of, loop_options,
}

-- A round whose components are set up as `setting` says.
pub record StartsAs (setting : (n : Name) → Option (Value n)) (s : Server) : Type 0 where
  pub port_eq : s.listener.port ≡ or_default (setting Config.listen) 9900
  pub localhost_eq : s.listener.localhost_only ≡ not (is_given (setting Config.accept_anyhost))
  pub retries_eq : s.manager.retries ≡ attempts_of (or_default (setting Config.picard_retries) 2)
  pub token : List ℕ
  pub is_token : IsToken (setting Config.auth_token) token
  pub auth_eq : s.listener.expected_auth ≡ take authentication_len token

abbrev IfLoops : (SerialMuxOptions → Type 0) → Program → Type 0
IfLoops P (loops o) = P o
IfLoops P (returns code) = Unit
IfLoops P (serves o) = Unit
IfLoops P unspecified = Unit

IfLoops-map :
    {P Q : SerialMuxOptions → Type 0}
    → ((o : SerialMuxOptions) → P o → Q o)
    → (p : Program) → IfLoops P p
    → IfLoops Q p
IfLoops-map f (loops o) h = f o h
IfLoops-map f (returns code) h = tt
IfLoops-map f (serves o) h = tt
IfLoops-map f unspecified h = tt

-- The end of `main`: whether the log can be opened, the daemon is asked for, and this is Windows.
ended-IfLoops :
    (o : SerialMuxOptions) (opened daemon windows : Bool)
    → IfLoops
        (λ p. (p ≡ o) × (opened ≡ true) × (daemon ≡ false))
        (if opened
          then if daemon then if windows then serves o else returns 1 else loops o
          else returns 1)
ended-IfLoops o false daemon windows = tt
ended-IfLoops o true false windows = (refl, refl, refl)
ended-IfLoops o true true false = tt
ended-IfLoops o true true true = tt

module _ (lib : ProgramOptions) (can_enter : Text → Bool)
    (read_file : Option Text → Text → Option Text) (open_log : SerialMuxOptions → Bool)
    (on_windows : Bool) (args : List Text) where
  -- The options that `parseConfiguration` gives, the log being open and no daemon asked for.
  abbrev IsRun : SerialMuxOptions → Type 0
  IsRun o =
      (parse_configuration lib can_enter read_file args new_options ≡ finished o)
      × (open_log o ≡ true)
      × (o.run_as_daemon ≡ false)

  started :
      (o p : SerialMuxOptions)
      → parse_configuration lib can_enter read_file args new_options ≡ finished o
      → (p ≡ o) × (open_log o ≡ true) × (o.run_as_daemon ≡ false)
      → IsRun p
  started o p e (same, opened, attended) = (
    e ∙ ap finished (sym same),
    ap open_log same ∙ opened,
    ap (λ q. q.run_as_daemon) same ∙ attended,
  )

  ended_as :
      (e : Ending)
      → parse_configuration lib can_enter read_file args new_options ≡ e
      → IfLoops IsRun (main lib can_enter read_file open_log on_windows args)
  unfolding main start_program
  ended_as (finished o) e =
      rw (e, IfLoops)
        (IfLoops-map (λ p. started o p e) _
          (ended-IfLoops o (open_log o) o.run_as_daemon on_windows))
  ended_as should_exit e = rw (e, IfLoops) tt
  ended_as (throws failure) e = rw (e, IfLoops) tt
  ended_as undefined e = rw (e, IfLoops) tt

  -- `main` comes to its loop only without a daemon and with an open log. The components of the first
  -- round then are as the command line says, or else the configuration file, or else the defaults:
  -- the port that is listened to, whether other hosts may connect, the number of attempts for a
  -- command, and the token that a client must know.
  pub main-starts :
      (cmd : lib.Source) (o : SerialMuxOptions)
      → lib.parse_command_line args ≡ parsed cmd
      → main lib can_enter read_file open_log on_windows args ≡ loops o
      → (open_log o ≡ true)
        × (is_given (settings lib cmd (config_contents lib can_enter read_file cmd) Config.daemon)
            ≡ false)
        × StartsAs
            (settings lib cmd (config_contents lib can_enter read_file cmd))
            (start_server (loop_options o))
  unfolding loop_options start_server new_listener start_loop new_manager
  main-starts cmd o e looping =
      let (finishes, opened, attended) : IsRun o =
        subst (IfLoops IsRun) looping (ended_as _ refl) in
      let reflects = parse_configuration-Reflects lib can_enter read_file args cmd o e finishes in
      (
        opened,
        sym reflects.daemon_eq ∙ attended,
        record {
          port_eq = reflects.listener_port_eq;
          localhost_eq = ap not reflects.accept_anyhost_eq;
          retries_eq = ap attempts_of reflects.picard_retries_eq;
          token = o.auth_token;
          is_token = reflects.token;
          auth_eq = refl;
        },
      )

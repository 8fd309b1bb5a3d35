-- ===== src/Main.antt =====
-- serial_mux/serial_mux.cpp: `main`, the rounds of `serial_mux_loop`, and `serial_mux_stop`. A
-- connection to the serial port or the emulator is opened or refused; the log can be opened or not;
-- what is written to the console and the log is left out.
pub mod Start
pub mod Stop
pub mod Tests
use serialmux.Prelude.{ℕ, ◌^◌, ◌≡◌, Bool, true, false, Option, none, some, List, ltb, if◌then◌else◌}
use serialmux.Options.Config.{Text, ProgramOptions, SerialMuxOptions, new_options}
use serialmux.Options.Parse.{finished, should_exit, throws, undefined, parse_configuration}
use serialmux.Options.Parse
use serialmux.Server.{Server, Effect, reset_connection}
use serialmux.Server.Loop.{LoopOptions, start_server, stop_server, Input, step}

-- What the process does: it returns a code at once, runs `serial_mux_loop` and then returns 0, runs
-- as a Windows service, or does something that C++ leaves undefined.
pub data Program : Type 0 where
  returns : ℕ → Program
  loops serves : SerialMuxOptions → Program
  unspecified : Program

-- `main`. `open_log` says whether the log can be opened.
module _ (lib : ProgramOptions) (can_enter : Text → Bool)
    (read_file : Option Text → Text → Option Text) (open_log : SerialMuxOptions → Bool)
    (on_windows : Bool) where
  unfoldable pub start_program : SerialMuxOptions → Program
  start_program o =
      if open_log o
      then if o.run_as_daemon then if on_windows then serves o else returns 1 else loops o
      else returns 1

  unfoldable pub main : List Text → Program
  unfolding start_program
  main args = elim (parse_configuration lib can_enter read_file args new_options) [
    | finished o ↦ start_program o
    | should_exit ↦ returns 0
    | throws failure ↦ returns 1
    | undefined ↦ unspecified
  ]

-- The options that the loop uses. An int below 0 allows no attempts.
unfoldable pub attempts_of : ℕ → ℕ
attempts_of n = if ltb n (2 ^ 31) then n else 0

unfoldable pub loop_options : SerialMuxOptions → LoopOptions
unfolding attempts_of
loop_options o = record {
  picard_retries = attempts_of o.picard_retries;
  listener_port = o.listener_port;
  accept_anyhost = o.accept_anyhost;
  auth_token = o.auth_token;
}

-- Where `serial_mux_loop` stands: at the test of its loop, at `io_service.reset`, at the connection,
-- in a round, or behind the loop.
pub data Place : Type 0 where
  testing resetting connecting ended : Place
  running : Server → Place

-- `muxRunning`, and whether the io_service is stopped; in a round the server says that.
pub record MuxLoop : Type 0 where
  pub mux_running : Bool
  pub io_stopped : Bool
  pub place : Place

-- `serial_mux_stop`, up to its wait: `resetConnection` finds no components outside a round.
abbrev pub place_reset : Place → Place
place_reset testing = testing
place_reset resetting = resetting
place_reset connecting = connecting
place_reset ended = ended
place_reset (running s) = running (reset_connection s).0

unfoldable pub serial_mux_stop : MuxLoop → MuxLoop
serial_mux_stop m = record { mux_running = false; io_stopped = true; place = place_reset m.place }

-- A round's components, made while the io_service is stopped or not.
unfoldable pub new_round : LoopOptions → Bool → Server
new_round opts stopped = record (start_server opts) { io_stopped = stopped }

-- What happens next, in the loop's thread or others.
pub data Turn (opts : LoopOptions) (m : MuxLoop) : MuxLoop → Type 0 where
  goes_on : m.place ≡ testing → m.mux_running ≡ true → Turn opts m (record m { place = resetting })
  ends : m.place ≡ testing → m.mux_running ≡ false → Turn opts m (record m { place = ended })
  resets : m.place ≡ resetting → Turn opts m (record m { io_stopped = false; place = connecting })
  is_refused : m.place ≡ connecting → Turn opts m (record m { place = testing })
  connects :
      m.place ≡ connecting
      → Turn opts m (record m { place = running (new_round opts m.io_stopped) })
  runs :
      (s t : Server) (x : Input) (done : List Effect)
      → m.place ≡ running s
      → step x s ≡ some (t, done)
      → Turn opts m (record m { place = running t })
  finishes :
      (s : Server)
      → m.place ≡ running s
      → s.io_stopped ≡ true
      → Turn opts m (record m { io_stopped = false; place = testing })
  stops : Turn opts m (serial_mux_stop m)

pub data Turns (opts : LoopOptions) (m : MuxLoop) : MuxLoop → Type 0 where
  here : Turns opts m m
  later : {n k : MuxLoop} → Turns opts m n → Turn opts n k → Turns opts m k

-- ===== src/Server.antt =====
-- serial_mux/serial_mux.h and serial_mux/serial_mux.cpp: the parts put together, `resetConnection`,
-- and the steps of `serial_mux_loop`. The threads of the program are the steps here, in any order:
-- the io_service's (connections and clients), the serial port's, the client manager's loop and the
-- one that waits for the hello. `none` is undefined behaviour in one of the parts.
pub mod Loop
pub mod Invariant
pub mod Steps
pub mod Recipients
pub mod Idle
pub mod Taken
pub mod Turns
pub mod Runs
pub mod Progress
pub mod Stopping
pub mod Tests
use serialmux.Prelude.{
  ℕ, zero, suc, ◌+◌, Bool, true, false, not, ◌&&◌, Option, none, some, List, [], ◌∷◌, ◌++◌, ltb,
  ◌==◌, if◌then◌else◌,
}
use serialmux.Mux.{MuxMessage}
use serialmux.Client.{BoostClient, Request}
use serialmux.Client.States.{Happening, happen}
use serialmux.Manager.{ClientManager, Action, update, close_clients, new_manager}
use serialmux.Manager.Loop.{
  Phase, testing, Turn, loop_step, start_loop, command_complete, handle_notif,
}
use serialmux.Picard.{BasePicardIo, Event, frame_complete, read_bytes}
use serialmux.Picard
use serialmux.Listener.{Listener, new_listener, set_protocol_version, async_listen, handle_accept}
use serialmux.Listener
use serialmux.Manager
use serialmux.Client

-- `gPicardIO`, `gListener` and `gClientMgr`, where the manager's loop stands, the number of the next
-- client, and whether the io_service was stopped.
pub record Server : Type 0 where
  pub picard : BasePicardIo
  pub listener : Listener
  pub manager : ClientManager
  pub phase : Phase
  pub next_client : ℕ
  pub io_stopped : Bool

-- What the program does: frames for the serial port, requests of a client's socket and timer.
pub data Effect : Type 0 where
  to_port : List ℕ → Effect
  to_client : ℕ → Request → Effect

-- A part of the program that may have undefined behaviour.
abbrev pub Run : Type 0
Run = Server → Option (Server × List Effect)

abbrev pub then_run : Option (Server × List Effect) → Run → Option (Server × List Effect)
then_run none next = none
then_run (some (s, done)) next = elim (next s) [
  | none ↦ none
  | some (t, more) ↦ some (t, done ++ more)
]

-- What a client's own request is, outside the client manager.
unfoldable pub of_clients : List Action → List Effect
of_clients [] = []
of_clients (Action.of_client i r ∷ rest) = to_client i r ∷ of_clients rest
of_clients (a ∷ rest) = of_clients rest

-- `resetConnection`.
unfoldable pub reset_connection : Server → Server × List Effect
unfolding of_clients
reset_connection s =
    let (closed, actions) = close_clients s.manager in
    (
      record s {
        picard = Picard.stop s.picard;
        manager = closed;
        listener = Listener.stop s.listener;
        io_stopped = true;
      },
      of_clients actions,
    )

-- What the client manager asks for; the port writes the command with its sequence number.
unfoldable pub sends : List Picard.Event → List Effect
sends [] = []
sends (Picard.send_raw frame ∷ rest) = to_port frame ∷ sends rest
sends (e ∷ rest) = sends rest

unfoldable pub do_action : Action → Server → Server × List Effect
unfolding sends
do_action (Action.of_client i r) s = (s, to_client i r ∷ [])
do_action (Action.send_command msg retransmit) s = (s, sends (Picard.send_command s.picard msg).1)
do_action Action.notify_loop s = (s, [])
do_action Action.reset_connection s = reset_connection s

unfoldable pub do_actions : List Action → Server → Server × List Effect
unfolding do_action
do_actions [] s = (s, [])
do_actions (a ∷ rest) s =
    let (t, done) = do_action a s in let (u, more) = do_actions rest t in (u, done ++ more)

-- What the serial port's protocol does: its callback is the client manager.
unfoldable pub do_event : Event → Run
do_event (Picard.send_raw frame) s = some (s, to_port frame ∷ [])
do_event Picard.notify_connect s = some (s, [])
do_event Picard.reset_connection s = some (reset_connection s)
do_event (Picard.handle_notif notif_type payload) s =
    elim (handle_notif notif_type payload s.manager) [
      | none ↦ none
      | some actions ↦ some (do_actions actions s)
    ]
do_event (Picard.command_complete cmd_type seq_no code response) s =
    let (m, actions) = command_complete cmd_type seq_no code response s.manager in
    some (do_actions actions (record s { manager = m }))

unfoldable pub do_events : List Event → Run
unfolding do_event
do_events [] s = some (s, [])
do_events (e ∷ rest) s = then_run (do_event e s) (do_events rest)

-- What a client asks for: calls of the client manager, or of its own socket and timer.
unfoldable pub do_request : ℕ → Request → Server → Server × List Effect
do_request i Client.add_client s = (record s { manager = Manager.add_client i s.manager }, [])
do_request i Client.remove_client s =
    let (m, actions) = Manager.remove_client i s.manager in
    do_actions actions (record s { manager = m })
do_request i (Client.add_command msg) s =
    (record s { manager = Manager.add_command (some i) msg s.manager }, [])
do_request i r s = (s, to_client i r ∷ [])

unfoldable pub do_requests : ℕ → List Request → Server → Server × List Effect
unfolding do_request
do_requests i [] s = (s, [])
do_requests i (r ∷ rest) s =
    let (t, done) = do_request i r s in let (u, more) = do_requests i rest t in (u, done ++ more)

abbrev pub with_client : ℕ → BoostClient → Server → Server
with_client i c s = record s { manager = record s.manager { store = update s.manager.store i c } }

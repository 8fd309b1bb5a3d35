-- ===== src/Server/Loop.antt =====
-- serial_mux/serial_mux.cpp: the start of a round of `serial_mux_loop`, the steps of its threads, and
-- its end.
use serialmux.Prelude.{
  ℕ, suc, Bool, true, false, not, none, some, List, [], ◌∷◌, ◌++◌, ltb, if◌then◌else◌,
}
use serialmux.Client.{new_client}
use serialmux.Client.States.{Happening, happen}
use serialmux.Manager.{ClientManager, new_manager}
use serialmux.Manager
use serialmux.Manager.Loop.{testing, loop_step, start_loop}
use serialmux.Picard.{BasePicardIo, Event, read_bytes, new_picard, start_parser, register_callback}
use serialmux.Picard
use serialmux.Listener.{new_listener, set_protocol_version, async_listen, handle_accept}
use serialmux.Server.{
  Server, Effect, Run, do_actions, do_events, do_requests, reset_connection, with_client,
}

-- The options that the loop uses.
pub record LoopOptions : Type 0 where
  pub picard_retries : ℕ
  pub listener_port : ℕ
  pub accept_anyhost : Bool
  pub auth_token : List ℕ

-- A round's components, with their threads started. No client object is in use.
unfoldable pub start_server : LoopOptions → Server
start_server opts = record {
  picard = start_parser (Picard.start (register_callback true new_picard));
  listener = new_listener opts.listener_port (not opts.accept_anyhost) opts.auth_token 0;
  manager = start_loop (new_manager opts.picard_retries (λ i. new_client [] 0));
  phase = testing;
  next_client = 0;
  io_stopped = false;
}

-- What happens next: a connection, something at client `i`, bytes at the serial port, a step of the
-- client manager's loop, the end of `listen_thread`'s wait, `resetConnection` from outside.
pub data Input : Type 0 where
  accepts : Bool → Input
  client_does : ℕ → Happening → Input
  port_reads : List ℕ → Input
  loop_runs : Input
  hello_done : Input
  resets : Input

-- A connection: its client gets the next number and starts.
unfoldable pub accept_client : Bool → Server → Server × List Effect
accept_client error s =
    let (l, accepted) = handle_accept error s.listener in
    let i = s.next_client in
    elim accepted [
      | none ↦ (record s { listener = l }, [])
      | some (c, asked) ↦
          do_requests i asked (with_client i c (record s { listener = l; next_client = suc i }))
    ]

unfoldable pub client_step : ℕ → Happening → Server → Server × List Effect
client_step i h s =
    let (c, asked) = happen (s.manager.store i) h in
    if ltb i s.next_client then do_requests i asked (with_client i c s) else (s, [])

unfoldable pub manager_step : Run
manager_step s = elim (loop_step s.picard.seq_no s.phase s.manager) [
  | none ↦ none
  | some t ↦ some (do_actions t.actions (record s { manager = t.manager; phase = t.phase }))
]

-- `listen_thread` behind its wait for the hello.
unfoldable pub listen : Server → Server
listen s = record s {
  listener = async_listen (set_protocol_version s.picard.protocol_version s.listener);
}

unfoldable pub step : Input → Run
step (accepts error) s = some (accept_client error s)
step (client_does i h) s = some (client_step i h s)
step (port_reads bytes) s =
    let (p, events) = read_bytes s.picard bytes in do_events events (record s { picard = p })
step loop_runs s = manager_step s
step hello_done s = some (listen s, [])
step resets s = some (reset_connection s)

unfoldable pub steps : List Input → Run
unfolding step
steps [] s = some (s, [])
steps (x ∷ xs) s = elim (step x s) [
  | none ↦ none
  | some (t, done) ↦ elim (steps xs t) [ none ↦ none | some (u, more) ↦ some (u, done ++ more) ]
]

-- The end of a round, when the io_service has stopped.
unfoldable pub stop_server : Server → Server
stop_server s = record s {
  picard = Picard.stop (register_callback false s.picard);
  manager = Manager.stop s.manager;
}

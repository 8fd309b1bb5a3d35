-- ===== src/Server/Idle.antt =====
-- serial_mux/serial_mux.cpp: what the steps of the other threads leave of the client manager's loop
-- and queue.
use serialmux.Prelude.{
  ℕ, ◌≡◌, refl, ◌∙◌, subst, Bool, true, Bool-cases, Option-cases, inl, inr, Option, none, some,
  List, [], ◌∷◌, ltb, suc,
}
use serialmux.Client.{BoostClient, Request}
use serialmux.Client
use serialmux.Client.States.{Happening, happen}
use serialmux.Manager.{ClientManager, Action, close_clients}
use serialmux.Manager
use serialmux.Manager.Loop.{Phase, command_complete, handle_notif}
use serialmux.Manager.Leaves.{
  Leaves, Leaves-refl, Leaves-trans, Leaves-same, add_command-Leaves, close_clients-Leaves,
  add_client-Leaves, command_complete-Leaves, remove_client-Leaves,
}
use serialmux.Picard.{Event, read_bytes}
use serialmux.Picard
use serialmux.Listener.{handle_accept}
use serialmux.Server.{
  Server, Effect, Run, then_run, reset_connection, do_action, do_actions, do_event, do_events,
  do_request, do_requests, with_client,
}
use serialmux.Server.Loop.{accept_client, client_step}

-- The loop stands where it stood, the manager's queue is as it was, with more behind it, and an
-- io_service that was stopped is so still.
pub record Stays (phase : Phase) (m : ClientManager) (stopped : Bool) (t : Server) : Type 0 where
  pub phase_eq : t.phase ≡ phase
  pub leaves : Leaves m t.manager
  pub stays_stopped : stopped ≡ true → t.io_stopped ≡ true

abbrev pub Idle : Server → Server → Type 0
Idle s t = Stays s.phase s.manager s.io_stopped t

-- So is what there is after a run.
abbrev pub IdleRun : Server → Option (Server × List Effect) → Type 0
IdleRun s none = Unit
IdleRun s (some r) = Idle s r.0

pub Idle-refl : (s : Server) → Idle s s
Idle-refl s = record { phase_eq = refl; leaves = Leaves-refl s.manager; stays_stopped = λ e. e }

pub Idle-trans : (s t u : Server) → Idle s t → Idle t u → Idle s u
Idle-trans s t u g h = record {
  phase_eq = h.phase_eq ∙ g.phase_eq;
  leaves = Leaves-trans s.manager t.manager u.manager g.leaves h.leaves;
  stays_stopped = λ e. h.stays_stopped (g.stays_stopped e);
}

-- A step of the manager alone.
by_manager :
    (s : Server) (m : ClientManager) → Leaves s.manager m → Idle s (record s { manager = m })
by_manager s m h = record { phase_eq = refl; leaves = h; stays_stopped = λ e. e }

pub reset_connection-Idle : (s : Server) → Idle s (reset_connection s).0
unfolding reset_connection
reset_connection-Idle s = record {
  phase_eq = refl;
  leaves = close_clients-Leaves s.manager;
  stays_stopped = λ e. refl;
}

do_action-Idle : (a : Action) (s : Server) → Idle s (do_action a s).0
unfolding do_action
do_action-Idle (Action.of_client i r) s = Idle-refl s
do_action-Idle (Action.send_command msg retransmit) s = Idle-refl s
do_action-Idle Action.notify_loop s = Idle-refl s
do_action-Idle Action.reset_connection s = reset_connection-Idle s

pub do_actions-Idle : (actions : List Action) (s : Server) → Idle s (do_actions actions s).0
unfolding do_actions
do_actions-Idle [] s = Idle-refl s
do_actions-Idle (a ∷ actions) s =
    Idle-trans s (do_action a s).0 _ (do_action-Idle a s)
      (do_actions-Idle actions (do_action a s).0)

do_event-IdleRun : (e : Event) (s : Server) → IdleRun s (do_event e s)
unfolding do_event
do_event-IdleRun (Picard.send_raw frame) s = Idle-refl s
do_event-IdleRun Picard.notify_connect s = Idle-refl s
do_event-IdleRun Picard.reset_connection s = reset_connection-Idle s
do_event-IdleRun (Picard.handle_notif notif_type payload) s =
    elim (Option-cases (handle_notif notif_type payload s.manager)) [
      | inl e ↦ rw (e, IdleRun) tt
      | inr (actions, e) ↦ rw (e, IdleRun) (do_actions-Idle actions s)
    ]
do_event-IdleRun (Picard.command_complete cmd_type seq_no code response) s =
    let (m, actions) = command_complete cmd_type seq_no code response s.manager in
    Idle-trans s (record s { manager = m }) _
      (by_manager s m (command_complete-Leaves cmd_type seq_no code response s.manager))
      (do_actions-Idle actions (record s { manager = m }))

then_run-IdleRun :
    (s : Server) (r : Option (Server × List Effect)) (next : Run)
    → IdleRun s r
    → ((t : Server) → IdleRun t (next t))
    → IdleRun s (then_run r next)
then_run-IdleRun s none next h k = tt
then_run-IdleRun s (some (t, done)) next h k = elim (Option-cases (next t)) [
  | inl e ↦ rw (e, IdleRun) tt
  | inr (r, e) ↦ rw (e, IdleRun) (Idle-trans s t r.0 h (subst (IdleRun t) e (k t)))
]

pub do_events-IdleRun : (es : List Event) (s : Server) → IdleRun s (do_events es s)
unfolding do_events
do_events-IdleRun [] s = Idle-refl s
do_events-IdleRun (e ∷ es) s =
    then_run-IdleRun s (do_event e s) (do_events es) (do_event-IdleRun e s) (do_events-IdleRun es)

do_request-Idle : (i : ℕ) (r : Request) (s : Server) → Idle s (do_request i r s).0
unfolding do_request
do_request-Idle i Client.add_client s = by_manager s _ (add_client-Leaves i s.manager)
do_request-Idle i Client.remove_client s =
    let (m, actions) = Manager.remove_client i s.manager in
    Idle-trans s (record s { manager = m }) _ (by_manager s m (remove_client-Leaves i s.manager))
      (do_actions-Idle actions (record s { manager = m }))
do_request-Idle i (Client.add_command msg) s =
    by_manager s _ (add_command-Leaves (some i) msg s.manager)
do_request-Idle i (Client.write bytes) s = Idle-refl s
do_request-Idle i Client.start_timer s = Idle-refl s
do_request-Idle i Client.cancel_timer s = Idle-refl s
do_request-Idle i Client.async_read s = Idle-refl s
do_request-Idle i Client.shutdown_socket s = Idle-refl s
do_request-Idle i Client.close_socket s = Idle-refl s

do_requests-Idle : (i : ℕ) (rs : List Request) (s : Server) → Idle s (do_requests i rs s).0
unfolding do_requests
do_requests-Idle i [] s = Idle-refl s
do_requests-Idle i (r ∷ rs) s =
    Idle-trans s (do_request i r s).0 _ (do_request-Idle i r s)
      (do_requests-Idle i rs (do_request i r s).0)

pub accept_client-Idle : (error : Bool) (s : Server) → Idle s (accept_client error s).0
unfolding accept_client
accept_client-Idle error s =
    let (l, accepted) = handle_accept error s.listener in
    elim (Option-cases accepted) [
      | inl e ↦
          rw (e, accept_client)
            (record { phase_eq = refl; leaves = Leaves-refl s.manager; stays_stopped = λ e. e })
      | inr ((c, asked), e) ↦
          let i = s.next_client in
          let t = with_client i c (record s { listener = l; next_client = suc i }) in
          rw (e, accept_client)
            (Idle-trans s t _
              (record {
                phase_eq = refl;
                leaves = Leaves-same s.manager _ refl refl refl;
                stays_stopped = λ e. e;
              })
              (do_requests-Idle i asked t))
    ]

pub client_step-Idle : (i : ℕ) (h : Happening) (s : Server) → Idle s (client_step i h s).0
unfolding client_step
client_step-Idle i h s = elim (Bool-cases (ltb i s.next_client)) [
  | inr e ↦ rw e (Idle-refl s)
  | inl e ↦
      let (c, asked) = happen (s.manager.store i) h in
      rw e (
        Idle-trans s (with_client i c s) _
          (record {
            phase_eq = refl;
            leaves = Leaves-same s.manager _ refl refl refl;
            stays_stopped = λ e. e;
          })
          (do_requests-Idle i asked (with_client i c s)))
]

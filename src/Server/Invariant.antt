-- ===== src/Server/Invariant.antt =====
-- serial_mux/serial_mux.cpp: what the parts do to the manager's list and queue, one call at a time.
use serialmux.Prelude.{
  ℕ, ◌<◌, ◌≡◌, refl, sym, subst, Bool, true, false, Option-cases, inl, inr, Option, none, some,
  List, [], ◌∷◌, arith,
}
use serialmux.Client.{BoostClient, Request}
use serialmux.Client.States.{added, in_order}
use serialmux.Manager.{ClientManager, Action, update, close_clients, disconnect_current}
use serialmux.Manager.Loop.{command_complete, handle_notif}
use serialmux.Manager.Members.{is_greeted, IsSound, Keeps-IsSound, command_complete-Keeps}
use serialmux.Manager.Upkeep.{
  add_client-IsSound, add_command-IsSound, remove_client-IsSound, remove_client-store,
  close_clients-IsSound,
}
use serialmux.Picard.{Event}
use serialmux.Picard
use serialmux.Manager
use serialmux.Client
use serialmux.Server.{
  Server, Effect, Run, then_run, reset_connection, do_action, do_actions, do_event, do_events,
  do_request, do_requests,
}

-- The manager and its loop are sound for the clients that were accepted.
abbrev pub IsConsistent : Server → Type 0
IsConsistent s = IsSound s.next_client s.phase s.manager

-- What there is after a run is consistent.
abbrev pub SoundRun : Option (Server × List Effect) → Type 0
SoundRun none = Unit
SoundRun (some r) = IsConsistent r.0

pub reset_connection-IsConsistent :
    (s : Server) → IsConsistent s → IsConsistent (reset_connection s).0
unfolding reset_connection
reset_connection-IsConsistent s h = close_clients-IsSound s.next_client s.phase s.manager h

do_action-IsConsistent : (a : Action) (s : Server) → IsConsistent s → IsConsistent (do_action a s).0
unfolding do_action
do_action-IsConsistent (Action.of_client i r) s h = h
do_action-IsConsistent (Action.send_command msg retransmit) s h = h
do_action-IsConsistent Action.notify_loop s h = h
do_action-IsConsistent Action.reset_connection s h = reset_connection-IsConsistent s h

pub do_actions-IsConsistent :
    (actions : List Action) (s : Server) → IsConsistent s → IsConsistent (do_actions actions s).0
unfolding do_actions
do_actions-IsConsistent [] s h = h
do_actions-IsConsistent (a ∷ actions) s h =
    do_actions-IsConsistent actions (do_action a s).0 (do_action-IsConsistent a s h)

do_event-SoundRun : (e : Event) (s : Server) → IsConsistent s → SoundRun (do_event e s)
unfolding do_event
do_event-SoundRun (Picard.send_raw frame) s h = h
do_event-SoundRun Picard.notify_connect s h = h
do_event-SoundRun Picard.reset_connection s h = reset_connection-IsConsistent s h
do_event-SoundRun (Picard.handle_notif notif_type payload) s h =
    elim (Option-cases (handle_notif notif_type payload s.manager)) [
      | inl e ↦ rw (e, SoundRun) tt
      | inr (actions, e) ↦ rw (e, SoundRun) (do_actions-IsConsistent actions s h)
    ]
do_event-SoundRun (Picard.command_complete cmd_type seq_no code response) s h =
    let (m, actions) = command_complete cmd_type seq_no code response s.manager in
    do_actions-IsConsistent actions (record s { manager = m })
      (Keeps-IsSound s.next_client none s.phase s.phase s.manager m
        (command_complete-Keeps cmd_type seq_no code response s.manager) tt (inl refl) h)

then_run-SoundRun :
    (r : Option (Server × List Effect)) (next : Run)
    → SoundRun r
    → ((t : Server) → IsConsistent t → SoundRun (next t))
    → SoundRun (then_run r next)
then_run-SoundRun none next h k = tt
then_run-SoundRun (some (s, done)) next h k = elim (Option-cases (next s)) [
  | inl e ↦ rw (e, SoundRun) tt
  | inr (r, e) ↦ rw (e, SoundRun) (subst SoundRun e (k s h))
]

pub do_events-SoundRun : (es : List Event) (s : Server) → IsConsistent s → SoundRun (do_events es s)
unfolding do_events
do_events-SoundRun [] s h = h
do_events-SoundRun (e ∷ es) s h =
    then_run-SoundRun (do_event e s) (do_events es) (do_event-SoundRun e s h)
      (do_events-SoundRun es)

added-true : (rs : List Request) → added true rs ≡ true
unfolding added
added-true [] = refl
added-true (Client.add_client ∷ rs) = added-true rs
added-true (r ∷ rs) = added-true rs

pub still : (before : Bool) (rs : List Request) → before ≡ true → added before rs ≡ true
still before rs e = rw e (added-true rs)

-- What `removeClient` asks for does not touch the server.
removed :
    (i : ℕ) (m : ClientManager) (s : Server) → (do_actions (Manager.remove_client i m).1 s).0 ≡ s
unfolding Manager.remove_client disconnect_current do_actions do_action
removed i m s = elim (Option-cases m.current.client) [ inl e ↦ rw e refl | inr (k, e) ↦ rw e refl ]

-- The requests of client `i`, if they come in order.
pub do_requests-IsConsistent :
    (i : ℕ) (before : Bool) (rs : List Request) (s : Server)
    → IsConsistent s
    → i < s.next_client
    → (before ≡ false → Manager.listed i s.manager.clients ≡ false)
    → (added before rs ≡ true → is_greeted (s.manager.store i).init_state ≡ true)
    → in_order before rs ≡ true
    → IsConsistent (do_requests i rs s).0
unfolding do_requests do_request added in_order
do_requests-IsConsistent i before [] s h known new greeted order = h
do_requests-IsConsistent i before (Client.add_client ∷ rs) s h known new greeted order =
    do_requests-IsConsistent i true rs _
      (add_client-IsSound s.next_client s.phase s.manager h i (new (ground arith))
        (record { known = known; greeted = greeted (added-true rs) }))
      known (λ e. absurd (ground arith)) (λ e. unfold Manager.add_client in greeted e)
      (ground arith)
do_requests-IsConsistent i before (Client.remove_client ∷ rs) s h known new greeted order =
    let t = record s { manager = (Manager.remove_client i s.manager).0 } in
    subst (λ u. IsConsistent (do_requests i rs u).0) (sym (removed i s.manager t))
      (do_requests-IsConsistent i before rs t
        (remove_client-IsSound s.next_client i s.phase s.manager h) known
        (λ e. absurd (ground arith)) (λ e. rw (remove_client-store i s.manager) (greeted e))
        (ground arith))
do_requests-IsConsistent i before (Client.add_command msg ∷ rs) s h known new greeted order =
    do_requests-IsConsistent i before rs _
      (add_command-IsSound s.next_client s.phase s.manager h (some i) msg
        (record { known = known; greeted = greeted (still before rs (ground arith)) }))
      known (λ e. absurd (ground arith)) (λ e. unfold Manager.add_command in greeted e)
      (ground arith)
do_requests-IsConsistent i before (Client.write bytes ∷ rs) s h known new greeted order =
    do_requests-IsConsistent i before rs s h known new greeted order
do_requests-IsConsistent i before (Client.start_timer ∷ rs) s h known new greeted order =
    do_requests-IsConsistent i before rs s h known new greeted order
do_requests-IsConsistent i before (Client.cancel_timer ∷ rs) s h known new greeted order =
    do_requests-IsConsistent i before rs s h known new greeted order
do_requests-IsConsistent i before (Client.async_read ∷ rs) s h known new greeted order =
    do_requests-IsConsistent i before rs s h known new greeted order
do_requests-IsConsistent i before (Client.shutdown_socket ∷ rs) s h known new greeted order =
    do_requests-IsConsistent i before rs s h known new greeted order
do_requests-IsConsistent i before (Client.close_socket ∷ rs) s h known new greeted order =
    do_requests-IsConsistent i before rs s h known new greeted order

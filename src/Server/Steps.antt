-- ===== src/Server/Steps.antt =====
-- serial_mux/serial_mux.cpp: what holds of the manager's list and queue after any steps of a round of
-- `serial_mux_loop`.
use serialmux.Prelude.{
  ℕ, suc, ◌≡◌, ap, sym, subst, ◌∙◌, Bool, true, false, Bool-cases, Option-cases, inl, inr, some,
  List, [], ◌∷◌, All, ltb, ◌==◌, arith, ==→eq, ltb→lt, ==_self,
}
use serialmux.Client.{BoostClient, Request, start}
use serialmux.Client.States.{Happening, happen, added, Agrees, Kept, happen-Kept}
use serialmux.Manager.{update, listed, new_manager, no_command}
use serialmux.Manager.Loop.{loop_step, start_loop}
use serialmux.Manager.Members.{
  is_greeted, IsMember, Grows, IsHeld-grow, phase_client, members-grow, IsQueued-grow,
}
use serialmux.Manager.Steps.{SoundTurn, loop_step-SoundTurn}
use serialmux.Queue.{new_queue}
use serialmux.Picard.{read_bytes}
use serialmux.Listener.{handle_accept, async_listen}
use serialmux.Server.{Server, Effect, do_request, do_requests, with_client}
use serialmux.Server.Loop.{
  LoopOptions, start_server, Input, accepts, client_does, port_reads, loop_runs, hello_done, resets,
  accept_client, client_step, manager_step, listen, step, steps,
}
use serialmux.Server.Invariant.{
  IsConsistent, SoundRun, reset_connection-IsConsistent, do_actions-IsConsistent,
  do_events-SoundRun, do_requests-IsConsistent, still,
}

with_client-IsConsistent :
    (later i : ℕ) (c : BoostClient) (s : Server)
    → Grows s.next_client later s.manager.store (update s.manager.store i c)
    → IsConsistent s
    → IsConsistent (record (with_client i c s) { next_client = later })
with_client-IsConsistent later i c s g h = record {
  distinct = h.distinct;
  members = members-grow s.next_client later s.manager.store _ g s.manager.clients h.members;
  queued = IsQueued-grow s.next_client later s.manager.store _ g s.manager.commands.items h.queued;
  current = IsHeld-grow s.next_client later s.manager.store _ g s.manager.current.client h.current;
  awaited = IsHeld-grow s.next_client later s.manager.store _ g (phase_client s.phase) h.awaited;
}

accept_client-IsConsistent :
    (error : Bool) (s : Server) → IsConsistent s → IsConsistent (accept_client error s).0
unfolding accept_client handle_accept async_listen start do_requests do_request
accept_client-IsConsistent error s h = elim (Option-cases s.listener.pending) [
  | inl e ↦ rw e h
  | inr (c, e) ↦ elim (Bool-cases error) [
    | inl bad ↦ rw e (rw bad h)
    | inr ok ↦
        rw e (rw ok (with_client-IsConsistent (suc s.next_client) s.next_client c s (grows c) h))
  ]
]
  where
    grows :
        (c : BoostClient)
        → Grows s.next_client
            (suc s.next_client)
            s.manager.store
            (update s.manager.store s.next_client c)
    grows c = record {
      more = omega arith;
      still = λ j b g. elim (Bool-cases (s.next_client == j)) [
        | inl e ↦ let same = ==→eq s.next_client j e in absurd (omega arith)
        | inr e ↦ rw e g
      ];
    }

Agrees-greeted :
    (before : Bool) (c : BoostClient)
    → Agrees before c
    → before ≡ true
    → is_greeted c.init_state ≡ true
Agrees-greeted before c a e = let w = a.waiting-added in let r = a.refused-added in ground arith

listed-greeted :
    (next i : ℕ) (store : ℕ → BoostClient) (is : List ℕ)
    → All (IsMember next store) is
    → listed i is ≡ true
    → is_greeted (store i).init_state ≡ true
unfolding listed
listed-greeted next i store [] h e = absurd (ground arith)
listed-greeted next i store (j ∷ js) (h, hs) e = elim (Bool-cases (j == i)) [
  | inl here ↦ ap (λ k. is_greeted (store k).init_state) (sym (==→eq j i here)) ∙ h.greeted
  | inr there ↦ listed-greeted next i store js hs (ground arith)
]

module _ (i : ℕ) (happening : Happening) (s : Server) (h : IsConsistent s) where
  abbrev old : BoostClient
  old = s.manager.store i

  abbrev before : Bool
  before = is_greeted old.init_state

  abbrev new : BoostClient
  new = (happen old happening).0

  abbrev asked : List Request
  asked = (happen old happening).1

  kept : Kept before (happen old happening)
  kept =
      happen-Kept before old
        (record {
          waiting-added = λ e. ap is_greeted e;
          authenticated-added = λ e. ap is_greeted e;
          refused-added = λ e. ap is_greeted e;
        })
        happening

  new-greeted : added before asked ≡ true → is_greeted new.init_state ≡ true
  new-greeted e = Agrees-greeted (added before asked) new kept.agrees e

  grows : Grows s.next_client s.next_client s.manager.store (update s.manager.store i new)
  grows = record {
    more = omega arith;
    still = λ j b g. elim (Bool-cases (i == j)) [
      | inl e ↦
          let same : before ≡ true =
            ap (λ k. is_greeted (s.manager.store k).init_state) (==→eq i j e) ∙ g in
          rw e (new-greeted (still before asked same))
      | inr e ↦ rw e g
    ];
  }

  unlisted : before ≡ false → listed i s.manager.clients ≡ false
  unlisted e = elim (Bool-cases (listed i s.manager.clients)) [
    | inr n ↦ n
    | inl l ↦
        let g = listed-greeted s.next_client i s.manager.store s.manager.clients h.members l in
        absurd (ground arith)
  ]

  client_step-IsConsistent : IsConsistent (client_step i happening s).0
  unfolding client_step
  client_step-IsConsistent = elim (Bool-cases (ltb i s.next_client)) [
    | inr e ↦ rw e h
    | inl e ↦ rw e (
        do_requests-IsConsistent i before asked (with_client i new s)
          (with_client-IsConsistent s.next_client i new s grows h) (ltb→lt i s.next_client e)
          unlisted (λ a. rw (==_self i) (new-greeted a)) kept.ordered)
  ]

manager_step-SoundRun : (s : Server) → IsConsistent s → SoundRun (manager_step s)
unfolding manager_step
manager_step-SoundRun s h = elim (Option-cases (loop_step s.picard.seq_no s.phase s.manager)) [
  | inl e ↦ rw (e, SoundRun) tt
  | inr (t, e) ↦
      rw (e, SoundRun)
        (do_actions-IsConsistent t.actions (record s { manager = t.manager; phase = t.phase })
          (subst (SoundTurn s.next_client s.manager.store) e
            (loop_step-SoundTurn s.next_client s.picard.seq_no s.phase s.manager h)).sound)
]

step-SoundRun : (x : Input) (s : Server) → IsConsistent s → SoundRun (step x s)
unfolding step listen
step-SoundRun (accepts error) s h = accept_client-IsConsistent error s h
step-SoundRun (client_does i happening) s h = client_step-IsConsistent i happening s h
step-SoundRun (port_reads bytes) s h =
    let (p, events) = read_bytes s.picard bytes in
    do_events-SoundRun events (record s { picard = p }) h
step-SoundRun loop_runs s h = manager_step-SoundRun s h
step-SoundRun hello_done s h = h
step-SoundRun resets s h = reset_connection-IsConsistent s h

steps-SoundRun : (xs : List Input) (s : Server) → IsConsistent s → SoundRun (steps xs s)
unfolding steps
steps-SoundRun [] s h = h
steps-SoundRun (x ∷ xs) s h = elim (Option-cases (step x s)) [
  | inl e ↦ rw (e, SoundRun) tt
  | inr (r, e) ↦ elim (Option-cases (steps xs r.0)) [
    | inl n ↦ rw (e, SoundRun) (rw (n, SoundRun) tt)
    | inr (u, n) ↦
        rw (e, SoundRun)
          (rw (n, SoundRun)
            (subst SoundRun n (steps-SoundRun xs r.0 (subst SoundRun e (step-SoundRun x s h)))))
  ]
]

start_server-IsConsistent : (opts : LoopOptions) → IsConsistent (start_server opts)
unfolding start_server start_loop new_manager new_queue no_command
start_server-IsConsistent opts = record {
  distinct = tt;
  members = tt;
  queued = tt;
  current = tt;
  awaited = tt;
}

-- Whatever the threads do, in whatever order, after the start of a round: each client stands in the
-- manager's list at most once; the clients in the list, those whose commands are queued, and the one
-- whose command is under way have been accepted and are authenticated or closed; and a queued command
-- of no client is a `SUBSCRIBE`.
pub steps-IsConsistent :
    (opts : LoopOptions) (xs : List Input) (t : Server) (done : List Effect)
    → steps xs (start_server opts) ≡ some (t, done)
    → IsConsistent t
steps-IsConsistent opts xs t done e =
    subst SoundRun e (steps-SoundRun xs (start_server opts) (start_server-IsConsistent opts))

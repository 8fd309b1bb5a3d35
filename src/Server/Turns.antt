-- ===== src/Server/Turns.antt =====
-- serial_mux/BoostClientManager.cpp and serial_mux/serial_mux.cpp: what a step of the manager's loop
-- does for its queue.
use serialmux.Prelude.{
  ℕ, suc, ◌+◌, ◌-◌, ◌≤◌, ◌≡◌, refl, ap, sym, subst, ◌∙◌, true, Option-cases, inl, inr, some, List,
  [], ◌∷◌, ◌++◌, arith, if◌then◌else◌,
}
use serialmux.Queue.{begin_pop, finish_pop}
use serialmux.Manager.{ClientCommand, ClientManager}
use serialmux.Manager.Loop.{
  Phase, testing, popping, ended, awaiting, Turn, wake, loop_step, process,
}
use serialmux.Manager.Progress.{turns_left, is_over, GoesOn, IfAny, wake-GoesOn, process-GoesOn}
use serialmux.Server.{Server, do_actions}
use serialmux.Server.Idle.{Idle, do_actions-Idle}
use serialmux.Server.Taken.{popped, IsLive, Advance, nearer, takes, nothing}

testing_turn : ClientManager → Turn
testing_turn m = record {
  manager = record m { commands = begin_pop m.commands };
  phase = popping;
  actions = [];
}

ended_turn : ClientManager → Turn
ended_turn m = record { manager = m; phase = ended; actions = [] }

testing_turn-GoesOn : (m : ClientManager) → GoesOn 1 m (testing_turn m)
unfolding testing_turn begin_pop turns_left is_over
testing_turn-GoesOn m = record {
  running = refl;
  retries_eq = refl;
  items_eq = refl;
  left = omega arith;
  goes = refl;
}

module _ (retries : ℕ) (s : Server) (live : IsLive retries s) where
  abbrev pub turn_of : Turn → Server
  turn_of t = (do_actions t.actions (record s { manager = t.manager; phase = t.phase })).0

  turned : (t : Turn) → Idle (record s { manager = t.manager; phase = t.phase }) (turn_of t)
  turned t = do_actions-Idle t.actions (record s { manager = t.manager; phase = t.phase })

  -- Behind a turn that goes on the loop is live, and as near as the turn is.
  GoesOn-IsLive :
      (bound : ℕ) (m : ClientManager) (t : Turn)
      → m.is_running ≡ true
      → m.retries ≡ retries
      → GoesOn bound m t
      → IsLive retries (turn_of t)
  GoesOn-IsLive bound m t running retries_eq h =
      let idle = turned t in
      record {
        running = idle.leaves.running ∙ h.running ∙ running;
        retries_eq = idle.leaves.retries_eq ∙ h.retries_eq ∙ retries_eq;
        goes = ap is_over idle.phase_eq ∙ h.goes;
      }

  GoesOn-left :
      (bound : ℕ) (m : ClientManager) (t : Turn)
      → m.retries ≡ retries
      → GoesOn bound m t
      → turns_left retries (turn_of t).phase ≤ bound
  GoesOn-left bound m t retries_eq h =
      let idle = turned t in
      subst (λ p. turns_left retries p ≤ bound) (sym idle.phase_eq)
        (subst (λ r. turns_left r t.phase ≤ bound) retries_eq h.left)

  GoesOn-items :
      (bound : ℕ) (m : ClientManager) (t : Turn)
      → GoesOn bound m t
      → (turn_of t).manager.commands.items ≡ m.commands.items ++ (turned t).leaves.more
  GoesOn-items bound m t h =
      (turned t).leaves.grown ∙ ap (λ items. items ++ (turned t).leaves.more) h.items_eq

  -- What holds behind a step of the loop.
  abbrev pub GetsOn : Server → Type 0
  GetsOn t = IsLive retries t × Advance retries s t

  away :
      (b : ℕ) (t : Turn)
      → popped s.phase s.manager ≡ []
      → turns_left retries s.phase ≡ suc b
      → GoesOn b s.manager t
      → GetsOn (turn_of t)
  away b t none_popped left h =
      let few = GoesOn-left b s.manager t live.retries_eq h in
      (
        GoesOn-IsLive b s.manager t live.running live.retries_eq h,
        nearer (turned t).leaves.more none_popped (GoesOn-items b s.manager t h) (omega arith),
      )

  takes_it :
      (cmd : ClientCommand) (rest : List ClientCommand) (m : ClientManager) (t : Turn)
      → s.phase ≡ popping
      → s.manager.commands.items ≡ cmd ∷ rest
      → m.is_running ≡ s.manager.is_running
      → m.retries ≡ s.manager.retries
      → m.commands.items ≡ rest
      → GoesOn (m.retries + 2) m t
      → GetsOn (turn_of t)
  unfolding finish_pop turns_left
  takes_it cmd rest m t at items_eq running retries_eq rest_eq h =
      let attempts : m.retries ≡ retries = retries_eq ∙ live.retries_eq in
      let few = GoesOn-left (m.retries + 2) m t attempts h in
      (
        GoesOn-IsLive (m.retries + 2) m t (running ∙ live.running) attempts h,
        takes cmd rest (turned t).leaves.more items_eq (rw at (rw items_eq refl))
            (GoesOn-items (m.retries + 2) m t h
              ∙ ap (λ items. items ++ (turned t).leaves.more) rest_eq)
            (rw at (omega arith))
            (subst (λ r. turns_left retries (turn_of t).phase ≤ r + 2) attempts few),
      )

  popping_GetsOn :
      (items : List ClientCommand)
      → s.manager.commands.items ≡ items
      → s.phase ≡ popping
      → IfAny (λ t. GetsOn (turn_of t)) (loop_step s.picard.seq_no popping s.manager)
  unfolding loop_step finish_pop do_actions is_over
  popping_GetsOn [] e at =
      rw (e, IfAny)
        (record { running = live.running; retries_eq = live.retries_eq; goes = refl }, nothing e)
  popping_GetsOn (cmd ∷ rest) e at =
      let m = record s.manager { commands = (finish_pop s.manager.commands).0 } in
      elim (Option-cases (process s.picard.seq_no cmd m)) [
        | inl n ↦ rw (e, IfAny) (rw (n, IfAny) tt)
        | inr (t, n) ↦
            rw (e, IfAny)
              (rw (n, IfAny)
                (takes_it cmd rest m t at e refl refl (rw e refl) (
                  subst (IfAny (GoesOn (m.retries + 2) m)) n
                    (process-GoesOn s.picard.seq_no cmd m))))
      ]

  pub turn_GetsOn :
      (p : Phase)
      → s.phase ≡ p
      → IfAny (λ t. GetsOn (turn_of t)) (loop_step s.picard.seq_no p s.manager)
  unfolding loop_step begin_pop testing_turn ended_turn turns_left is_over
  turn_GetsOn testing at =
      subst
        (λ b.
          IfAny (λ t. GetsOn (turn_of t))
            (some (if b then testing_turn s.manager else ended_turn s.manager)))
        (sym live.running)
        (away 1 (testing_turn s.manager) (rw at refl) (rw at refl) (testing_turn-GoesOn s.manager))
  turn_GetsOn popping at = popping_GetsOn s.manager.commands.items refl at
  turn_GetsOn ended at = absurd (ground (arith, live.goes))
  turn_GetsOn (awaiting cmd i) at =
      away (retries - i - 1 + 2) (wake s.picard.seq_no cmd i s.manager) (rw at refl)
        (rw at (omega arith))
        (subst (λ r. GoesOn (r - i - 1 + 2) s.manager (wake s.picard.seq_no cmd i s.manager))
          live.retries_eq (wake-GoesOn s.manager s.picard.seq_no cmd i))

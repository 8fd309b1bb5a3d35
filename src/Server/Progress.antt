-- ===== src/Server/Progress.antt =====
-- serial_mux/serial_mux.cpp and serial_mux/BoostClientManager.cpp: the manager's loop gets to every
-- queued command, whatever the other threads do.
use serialmux.Prelude.{
  ℕ, zero, suc, ◌+◌, ◌*◌, ◌≤◌, ◌<◌, ◌≡◌, refl, ap, sym, subst, ◌∙◌, true, false, Bool-cases,
  Option-cases, inl, inr, Option, none, some, List, [], ◌∷◌, length, take, length-append, arith,
}
use serialmux.Manager.{new_manager}
use serialmux.Manager.Loop.{Phase, testing, popping, ended, awaiting, start_loop}
use serialmux.Manager.Progress.{turns_left, is_over}
use serialmux.Manager.Defined.{IsDefined}
use serialmux.Server.{Server, Effect}
use serialmux.Server.Loop.{
  LoopOptions, start_server, Input, loop_runs, accepts, client_does, port_reads, hello_done, resets,
  step, steps,
}
use serialmux.Server.Idle.{Idle, IdleRun}
use serialmux.Server.Taken.{
  turns_in, taken_by, taken, IsLive, Advance, nearer, takes, nothing, is_turn, Idle-IsLive,
  other_step-IdleRun,
}
use serialmux.Server.Turns.{GetsOn}
use serialmux.Server.Runs.{
  IfDone, manager_step-GetsOn, steps_rest, step_first, enough, some_left, few_enough, TakesFirst,
  Case, over_step, over_take,
}

module _ (retries : ℕ) where
  Case-other :
      (x : Input) (xs : List Input)
      → Case retries xs
      → is_turn x ≡ false
      → ((s : Server) → taken_by x s ≡ [])
      → turns_in (x ∷ xs) ≡ turns_in xs
      → Case retries (x ∷ xs)
  Case-other x xs ih other none_taken same s n live d le h =
      let (r, e) = step_first x xs s d in
      let idle : Idle s r.0 = subst (IdleRun s) e (other_step-IdleRun x s other) in
      let grown =
        ap length idle.leaves.grown ∙ length-append s.manager.commands.items idle.leaves.more in
      let near = subst (λ p. enough retries p n ≤ turns_in (x ∷ xs)) (sym idle.phase_eq) h in
      over_step retries x xs s r idle.leaves.more n e (none_taken s) idle.leaves.grown le (
        ih r.0 n (Idle-IsLive retries s r.0 idle live) (steps_rest x xs s r e d) (omega arith)
          (omega arith))

  Case-turn : (xs : List Input) → Case retries xs → Case retries (loop_runs ∷ xs)
  Case-turn xs ih s zero live d le h = refl
  Case-turn xs ih s (suc k) live d le h =
      let (r, e) = step_first loop_runs xs s d in
      let (later, advance) =
        subst (IfDone (GetsOn retries s live)) e
          (unfold step in manager_step-GetsOn retries s live) in
      let d_rest = steps_rest loop_runs xs s r e d in by_advance r e later d_rest advance
    where
      by_advance :
          (r : Server × List Effect)
          → step loop_runs s ≡ some r
          → IsLive retries r.0
          → IsDefined (steps xs r.0)
          → Advance retries s r.0
          → TakesFirst retries (loop_runs ∷ xs) s (suc k)
      by_advance r e later d_rest (nearer more none_popped items_eq fewer) =
          let grown = ap length items_eq ∙ length-append s.manager.commands.items more in
          over_step retries loop_runs xs s r more (suc k) e none_popped items_eq le
            (ih r.0 (suc k) later d_rest (omega arith) (omega arith))
      by_advance r e later d_rest
            (takes cmd rest more items_eq is_popped later_eq some_before few) =
          let grown = ap length later_eq ∙ length-append rest more in
          let count = ap length items_eq in
          over_take retries loop_runs xs s r cmd rest more k e is_popped items_eq later_eq
            (omega arith)
            (ih r.0 k later d_rest (omega arith)
              (few_enough retries k (turns_in xs) r.0.phase few (omega arith)))
      by_advance r e later d_rest (nothing empty) =
          let count = ap length empty in absurd (omega arith)

  Case-nil : Case retries []
  Case-nil s zero live d le h = refl
  Case-nil s (suc k) live d le h =
      let more = some_left retries s.phase live.goes in absurd (omega arith)

  first_taken : (xs : List Input) → Case retries xs
  first_taken [] = Case-nil
  first_taken (loop_runs ∷ xs) = Case-turn xs (first_taken xs)
  first_taken (accepts error ∷ xs) =
      Case-other (accepts error) xs (first_taken xs) (unfold is_turn in refl) (λ s. refl) refl
  first_taken (client_does i happening ∷ xs) =
      Case-other (client_does i happening) xs (first_taken xs) (unfold is_turn in refl) (λ s. refl)
        refl
  first_taken (port_reads bytes ∷ xs) =
      Case-other (port_reads bytes) xs (first_taken xs) (unfold is_turn in refl) (λ s. refl) refl
  first_taken (hello_done ∷ xs) =
      Case-other hello_done xs (first_taken xs) (unfold is_turn in refl) (λ s. refl) refl
  first_taken (resets ∷ xs) =
      Case-other resets xs (first_taken xs) (unfold is_turn in refl) (λ s. refl) refl

  step-IsLive : (x : Input) (s : Server) → IsLive retries s → IfDone (IsLive retries) (step x s)
  step-IsLive x s live = elim (Bool-cases (is_turn x)) [
    | inr other ↦ idle_IsLive (step x s) (other_step-IdleRun x s other)
    | inl turn ↦ turn_IsLive x turn
  ]
    where
      idle_IsLive : (o : Option (Server × List Effect)) → IdleRun s o → IfDone (IsLive retries) o
      idle_IsLive none h = tt
      idle_IsLive (some r) h = Idle-IsLive retries s r.0 h live

      gets_IsLive :
          (o : Option (Server × List Effect))
          → IfDone (GetsOn retries s live) o
          → IfDone (IsLive retries) o
      gets_IsLive none h = tt
      gets_IsLive (some r) h = h.0

      turn_IsLive : (x : Input) → is_turn x ≡ true → IfDone (IsLive retries) (step x s)
      turn_IsLive loop_runs e =
          gets_IsLive (step loop_runs s) (unfold step in manager_step-GetsOn retries s live)
      turn_IsLive (accepts error) e = absurd (unfold is_turn in ground arith)
      turn_IsLive (client_does i happening) e = absurd (unfold is_turn in ground arith)
      turn_IsLive (port_reads bytes) e = absurd (unfold is_turn in ground arith)
      turn_IsLive hello_done e = absurd (unfold is_turn in ground arith)
      turn_IsLive resets e = absurd (unfold is_turn in ground arith)

  steps-IsLive :
      (xs : List Input) (s : Server) → IsLive retries s → IfDone (IsLive retries) (steps xs s)
  unfolding steps
  steps-IsLive [] s live = live
  steps-IsLive (x ∷ xs) s live = elim (Option-cases (step x s)) [
    | inl e ↦ rw (e, IfDone) tt
    | inr (r, e) ↦ elim (Option-cases (steps xs r.0)) [
      | inl n ↦ rw (e, IfDone) (rw (n, IfDone) tt)
      | inr (u, n) ↦
          rw (e, IfDone)
            (rw (n, IfDone)
              (subst (IfDone (IsLive retries)) n
                (steps-IsLive xs r.0 (subst (IfDone (IsLive retries)) e (step-IsLive x s live)))))
    ]
  ]

start_server-IsLive : (opts : LoopOptions) → IsLive opts.picard_retries (start_server opts)
unfolding start_server start_loop new_manager is_over
start_server-IsLive opts = record { running = refl; retries_eq = refl; goes = refl }

turns_left-le : (retries : ℕ) (phase : Phase) → turns_left retries phase ≤ retries + 3
unfolding turns_left
turns_left-le retries testing = omega arith
turns_left-le retries popping = omega arith
turns_left-le retries ended = omega arith
turns_left-le retries (awaiting cmd i) = omega arith

enough-le :
    (retries n turns : ℕ) (phase : Phase)
    → n * (retries + 2) < turns
    → enough retries phase n ≤ turns
enough-le retries zero turns phase h = omega arith
enough-le retries (suc k) turns phase h = let le = turns_left-le retries phase in omega arith

-- After any steps since the start of a round, and whatever steps follow without undefined behaviour:
-- when the manager's loop has taken more than `n * (retries + 2)` of them, it has taken the first `n`
-- of the commands that were queued, in their order, if there were that many.
pub taken_in_order :
    (opts : LoopOptions) (xs ys : List Input) (t : Server) (done : List Effect) (n : ℕ)
    → steps xs (start_server opts) ≡ some (t, done)
    → IsDefined (steps ys t)
    → n ≤ length t.manager.commands.items
    → n * (opts.picard_retries + 2) < turns_in ys
    → take n (taken ys t) ≡ take n t.manager.commands.items
taken_in_order opts xs ys t done n e defined le turns =
    let live : IsLive opts.picard_retries t =
      subst (IfDone (IsLive opts.picard_retries)) e
        (steps-IsLive opts.picard_retries xs (start_server opts) (start_server-IsLive opts)) in
    first_taken opts.picard_retries ys t n live defined le
      (enough-le opts.picard_retries n (turns_in ys) t.phase turns)

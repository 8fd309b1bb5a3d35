-- ===== src/Server/Runs.antt =====
-- serial_mux/serial_mux.cpp: one step of several, and what it does for the commands that are queued.
use serialmux.Prelude.{
  ℕ, zero, suc, ◌+◌, ◌*◌, ◌≤◌, ◌<◌, ◌≡◌, refl, ap, sym, subst, ◌∙◌, false, Option-cases, inl, inr,
  Option, none, some, List, [], ◌∷◌, ◌++◌, length, take, take-append_le, arith,
}
use serialmux.Manager.{ClientCommand}
use serialmux.Manager.Loop.{Phase, testing, popping, ended, awaiting, loop_step}
use serialmux.Manager.Progress.{turns_left, is_over, IfAny}
use serialmux.Manager.Defined.{IsDefined}
use serialmux.Server.{Server, Effect}
use serialmux.Server.Loop.{Input, manager_step, step, steps}
use serialmux.Server.Taken.{turns_in, taken_by, taken, IsLive}
use serialmux.Server.Turns.{GetsOn, turn_of, turn_GetsOn}

-- Behind a step that has a result it has the property.
abbrev pub IfDone : (Server → Type 0) → Option (Server × List Effect) → Type 0
IfDone P none = Unit
IfDone P (some r) = P r.0

pub manager_step-GetsOn :
    (retries : ℕ) (s : Server) (live : IsLive retries s)
    → IfDone (GetsOn retries s live) (manager_step s)
unfolding manager_step
manager_step-GetsOn retries s live =
    elim (Option-cases (loop_step s.picard.seq_no s.phase s.manager)) [
      | inl e ↦ rw (e, IfDone) tt
      | inr (t, e) ↦
          rw (e, IfDone)
            (subst (IfAny (λ t. GetsOn retries s live (turn_of retries s live t))) e
              (turn_GetsOn retries s live s.phase refl))
    ]

pub steps_rest :
    (x : Input) (xs : List Input) (s : Server) (r : Server × List Effect)
    → step x s ≡ some r
    → IsDefined (steps (x ∷ xs) s)
    → IsDefined (steps xs r.0)
unfolding steps
steps_rest x xs s r e d = elim (Option-cases (steps xs r.0)) [
  | inl n ↦
      let never : steps (x ∷ xs) s ≡ none = rw (e, steps) (rw (n, steps) refl) in
      absurd (subst IsDefined never d)
  | inr (v, n) ↦ rw (n, IsDefined) tt
]

pub step_first :
    (x : Input) (xs : List Input) (s : Server)
    → IsDefined (steps (x ∷ xs) s)
    → (r : Server × List Effect) × (step x s ≡ some r)
unfolding steps
step_first x xs s d = elim (Option-cases (step x s)) [
  | inl n ↦
      let never : steps (x ∷ xs) s ≡ none = rw (n, steps) refl in absurd (subst IsDefined never d)
  | inr (r, n) ↦ (r, n)
]

-- How many steps of the loop are enough for the first `n` commands of the queue.
abbrev pub enough : ℕ → Phase → ℕ → ℕ
enough retries phase zero = 0
enough retries phase (suc k) = turns_left retries phase + k * (retries + 2)

pub some_left : (retries : ℕ) (phase : Phase) → is_over phase ≡ false → 0 < turns_left retries phase
unfolding is_over turns_left
some_left retries testing h = omega arith
some_left retries popping h = omega arith
some_left retries ended h = absurd (ground arith)
some_left retries (awaiting cmd i) h = omega arith

-- Behind a command that was taken there are enough steps for those behind it.
pub few_enough :
    (retries k turns : ℕ) (phase : Phase)
    → turns_left retries phase ≤ retries + 2
    → k * (retries + 2) ≤ turns
    → enough retries phase k ≤ turns
few_enough retries zero turns phase few h = omega arith
few_enough retries (suc j) turns phase few h = omega arith

module _ (retries : ℕ) where
  -- What is to be shown of the steps `xs` from `s`.
  abbrev pub TakesFirst : List Input → Server → ℕ → Type 0
  TakesFirst xs s n = take n (taken xs s) ≡ take n s.manager.commands.items

  abbrev pub Case : List Input → Type 0
  Case xs =
      (s : Server) (n : ℕ)
      → IsLive retries s
      → IsDefined (steps xs s)
      → n ≤ length s.manager.commands.items
      → enough retries s.phase n ≤ turns_in xs
      → TakesFirst xs s n

  -- A step of another thread, or one of the loop that takes nothing.
  pub over_step :
      (x : Input) (xs : List Input) (s : Server) (r : Server × List Effect)
      (more : List ClientCommand) (n : ℕ)
      → step x s ≡ some r
      → taken_by x s ≡ []
      → r.0.manager.commands.items ≡ s.manager.commands.items ++ more
      → n ≤ length s.manager.commands.items
      → TakesFirst xs r.0 n
      → TakesFirst (x ∷ xs) s n
  unfolding taken
  over_step x xs s r more n e none_taken items_eq le h =
      rw (e, taken)
        (rw none_taken
          (h ∙ ap (take n) items_eq ∙ take-append_le n s.manager.commands.items more le))

  pub over_take :
      (x : Input) (xs : List Input) (s : Server) (r : Server × List Effect) (cmd : ClientCommand)
      (rest more : List ClientCommand) (k : ℕ)
      → step x s ≡ some r
      → taken_by x s ≡ cmd ∷ []
      → s.manager.commands.items ≡ cmd ∷ rest
      → r.0.manager.commands.items ≡ rest ++ more
      → k ≤ length rest
      → TakesFirst xs r.0 k
      → TakesFirst (x ∷ xs) s (suc k)
  unfolding taken
  over_take x xs s r cmd rest more k e is_taken items_eq later_eq le h =
      rw (e, taken)
        (rw is_taken (
          ap (λ t. cmd ∷ t) (h ∙ ap (take k) later_eq ∙ take-append_le k rest more le)
          ∙ sym (ap (take (suc k)) items_eq)))

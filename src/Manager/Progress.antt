-- ===== src/Manager/Progress.antt =====
-- serial_mux/BoostClientManager.cpp: how far `commandLoop` is from taking the next command.
use serialmux.Prelude.{
  ℕ, suc, ◌+◌, ◌-◌, ◌≤◌, ◌<◌, ◌≡◌, refl, subst, ◌∙◌, Bool, true, false, not, ◌&&◌, ◌||◌, Bool-cases,
  Option-cases, inl, inr, Option, none, some, List, [], ltb, ◌==◌, arith, ltb→lt,
}
use serialmux.Common.{subscribe, mux_info, is_picard_api_command}
use serialmux.Mux.{size}
use serialmux.Manager.{
  ClientResult, client_timeout, Action, is_timeout, ClientCommand, ClientManager,
  recompute_subscribe_filter, max_serial_api_cmd_len,
}
use serialmux.Manager.Loop.{
  Phase, testing, popping, ended, awaiting, Turn, send_attempt, finish_command, give_up,
  begin_attempts, wake, subscribe_command, forward, info_command, process, answered, known_client,
}
use serialmux.Manager.Asked.{subscribe_command-cases}

-- How many steps the loop takes at most until it has taken a command, if there is one.
unfoldable pub turns_left : ℕ → Phase → ℕ
turns_left retries testing = 2
turns_left retries popping = 1
turns_left retries ended = 0
turns_left retries (awaiting cmd i) = (retries - i - 1) + 3

unfoldable pub is_over : Phase → Bool
is_over testing = false
is_over popping = false
is_over ended = true
is_over (awaiting cmd i) = false

-- A turn behind which the loop is at most `bound` steps from taking a command.
pub record GoesOn (bound : ℕ) (m : ClientManager) (t : Turn) : Type 0 where
  pub running : t.manager.is_running ≡ m.is_running
  pub retries_eq : t.manager.retries ≡ m.retries
  pub items_eq : t.manager.commands.items ≡ m.commands.items
  pub left : turns_left m.retries t.phase ≤ bound
  pub goes : is_over t.phase ≡ false

abbrev pub IfAny : (Turn → Type 0) → Option Turn → Type 0
IfAny P none = Unit
IfAny P (some t) = P t

-- The same of a manager that differs from it in other fields only, with a larger bound.
GoesOn-other :
    (b c : ℕ) (m n : ClientManager) (t : Turn)
    → n.is_running ≡ m.is_running
    → n.retries ≡ m.retries
    → n.commands.items ≡ m.commands.items
    → b ≤ c
    → GoesOn b n t
    → GoesOn c m t
GoesOn-other b c m n t running retries_eq items_eq le h = record {
  running = h.running ∙ running;
  retries_eq = h.retries_eq ∙ retries_eq;
  items_eq = h.items_eq ∙ items_eq;
  left =
      let few : turns_left m.retries t.phase ≤ b =
        subst (λ r. turns_left r t.phase ≤ b) retries_eq h.left in
      omega arith;
  goes = h.goes;
}

finish_command-GoesOn :
    (m : ClientManager) (result : ClientResult) (cmd : ClientCommand)
    → GoesOn 2 m (finish_command result cmd m)
unfolding finish_command give_up turns_left is_over
finish_command-GoesOn m result cmd = record {
  running = ground arith;
  retries_eq = ground arith;
  items_eq = ground arith;
  left = ground arith;
  goes = ground arith;
}

module _ (m : ClientManager) where
  pub wake-GoesOn :
      (seq : ℕ) (cmd : ClientCommand) (i : ℕ)
      → GoesOn ((m.retries - i - 1) + 2) m (wake seq cmd i m)
  unfolding wake send_attempt turns_left is_over
  wake-GoesOn seq cmd i = elim (Bool-cases (is_timeout m.current.result && ltb (suc i) m.retries)) [
    | inl e ↦
        let more : suc i < m.retries = ltb→lt (suc i) m.retries (ground arith) in
        rw e (record {
          running = refl;
          retries_eq = refl;
          items_eq = refl;
          left = omega arith;
          goes = refl;
        })
    | inr e ↦ rw e (
        GoesOn-other 2 _ m m _ refl refl refl (omega arith)
          (finish_command-GoesOn m m.current.result cmd))
  ]

  begin_attempts-GoesOn :
      (seq : ℕ) (cmd : ClientCommand) → GoesOn (m.retries + 2) m (begin_attempts seq cmd m)
  unfolding begin_attempts send_attempt turns_left is_over
  begin_attempts-GoesOn seq cmd = elim (Bool-cases (ltb 0 m.retries)) [
    | inl e ↦
        let more : 0 < m.retries = ltb→lt 0 m.retries e in
        rw e (record {
          running = refl;
          retries_eq = refl;
          items_eq = refl;
          left = omega arith;
          goes = refl;
        })
    | inr e ↦ rw e (
        GoesOn-other 2 _ m (record m { current = cmd }) _ refl refl refl (omega arith)
          (finish_command-GoesOn (record m { current = cmd }) client_timeout cmd))
  ]

  answered-GoesOn : (actions : List Action) → GoesOn (m.retries + 2) m (answered m actions)
  unfolding turns_left is_over
  answered-GoesOn actions = record {
    running = refl;
    retries_eq = refl;
    items_eq = refl;
    left = omega arith;
    goes = refl;
  }

module _ (seq : ℕ) (cmd : ClientCommand) (m : ClientManager) where
  subscribes-GoesOn :
      (i : ℕ)
      → IfAny (GoesOn (m.retries + 2) m) (elim (subscribe_command i cmd m) [
        | none ↦ none
        | some (rewritten, q) ↦ some (begin_attempts seq rewritten q)
      ])
  unfolding recompute_subscribe_filter
  subscribes-GoesOn i = elim (subscribe_command-cases i cmd m) [
    | inl e ↦ rw (e, IfAny) tt
    | inr asks ↦
        rw (asks.result, IfAny)
          (GoesOn-other (m.retries + 2) (m.retries + 2) m _ _ refl refl refl (omega arith)
            (begin_attempts-GoesOn _ seq _))
  ]

  forward-GoesOn : IfAny (GoesOn (m.retries + 2) m) (forward seq cmd m)
  unfolding forward
  forward-GoesOn = elim (Option-cases cmd.client) [
    | inl e ↦ rw (e, IfAny) (begin_attempts-GoesOn m seq cmd)
    | inr (i, e) ↦ elim (Bool-cases (cmd.command.type == subscribe)) [
      | inl s ↦ rw (e, IfAny) (rw (s, IfAny) (subscribes-GoesOn i))
      | inr s ↦ rw (e, IfAny) (rw (s, IfAny) (begin_attempts-GoesOn m seq cmd))
    ]
  ]

  pub process-GoesOn : IfAny (GoesOn (m.retries + 2) m) (process seq cmd m)
  unfolding process info_command
  process-GoesOn = elim (Bool-cases (known_client cmd.client m.clients)) [
    | inr e ↦ rw (e, IfAny) (answered-GoesOn m [])
    | inl e ↦ elim (Bool-cases (cmd.command.type == mux_info)) [
      | inl k ↦ elim (Option-cases cmd.client) [
        | inl n ↦ rw (e, IfAny) (rw (k, IfAny) (rw (n, IfAny) tt))
        | inr (i, n) ↦ rw (e, IfAny) (rw (k, IfAny) (rw (n, IfAny) (answered-GoesOn m _)))
      ]
      | inr k ↦
          elim (Bool-cases (
            not (is_picard_api_command cmd.command.type)
            || ltb max_serial_api_cmd_len (size cmd.command))) [
              | inl b ↦ rw (e, IfAny) (rw (k, IfAny) (rw (b, IfAny) (answered-GoesOn m _)))
              | inr b ↦ rw (e, IfAny) (rw (k, IfAny) (rw (b, IfAny) forward-GoesOn))
            ]
    ]
  ]

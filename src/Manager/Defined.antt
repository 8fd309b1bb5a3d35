-- ===== src/Manager/Defined.antt =====
-- serial_mux/BoostClientManager.cpp: `commandLoop` stays clear of undefined behaviour.
use serialmux.Prelude.{
  ℕ, ◌≤◌, ◌≡◌, subst, not, ◌||◌, Bool-cases, Option-cases, inl, inr, Option, none, some, List, All,
  length, ltb, ◌==◌, arith, ==→eq, le→ltb,
}
use serialmux.Common.{
  SubscriptionParams, subscribe, mux_info, vector_to_filter, filter_to_vector,
  is_picard_api_command,
}
use serialmux.Mux.{size}
use serialmux.Queue.{finish_pop}
use serialmux.Manager.{ClientCommand, ClientManager, max_serial_api_cmd_len}
use serialmux.Manager.Loop.{
  Phase, testing, popping, awaiting, ended, known_client, subscribe_command, forward, info_command,
  process, loop_step,
}
use serialmux.Manager.Asked.{asked}
use serialmux.Manager.Members.{IsQueued, IsFrom, IsSound}
use serialmux.Manager.Steps.{popped-All}

-- A subscribe command has the eight bytes of a subscription.
abbrev pub HasFilter : ClientCommand → Type 0
HasFilter c = c.command.type ≡ subscribe → 8 ≤ length c.command.payload

abbrev pub IsDefined {ℓ} : {A : Type ℓ} → Option A → Type 0
IsDefined none = ⊥
IsDefined (some a) = Unit

vector_to_filter-IsDefined :
    (bytes : List ℕ) → 4 ≤ length bytes → IsDefined (vector_to_filter bytes)
unfolding vector_to_filter
vector_to_filter-IsDefined bytes h = elim (Bool-cases (ltb (length bytes) 4)) [
  | inl e ↦ absurd (ground arith)
  | inr e ↦ rw (e, IsDefined) tt
]

filter_to_vector-IsDefined :
    (params : SubscriptionParams) (bytes : List ℕ)
    → 8 ≤ length bytes
    → IsDefined (filter_to_vector params bytes)
unfolding filter_to_vector
filter_to_vector-IsDefined params bytes h = rw (le→ltb (length bytes) 8 h, IsDefined) tt

subscribe_command-IsDefined :
    (i : ℕ) (cmd : ClientCommand) (m : ClientManager)
    → 8 ≤ length cmd.command.payload
    → IsDefined (subscribe_command i cmd m)
unfolding subscribe_command
subscribe_command-IsDefined i cmd m h = elim (Option-cases (vector_to_filter bytes)) [
  | inl e ↦ absurd (subst IsDefined e (vector_to_filter-IsDefined bytes (omega arith)))
  | inr (params, e) ↦
      let union = (asked i params m).filter_union in
      elim (Option-cases (filter_to_vector union bytes)) [
        | inl n ↦ absurd (subst IsDefined n (filter_to_vector-IsDefined union bytes h))
        | inr (written, n) ↦ rw (e, IsDefined) (rw (n, IsDefined) tt)
      ]
]
  where
    bytes : List ℕ
    bytes = cmd.command.payload

forward-IsDefined :
    (seq : ℕ) (cmd : ClientCommand) (m : ClientManager)
    → HasFilter cmd
    → IsDefined (forward seq cmd m)
unfolding forward
forward-IsDefined seq cmd m h = elim (Option-cases cmd.client) [
  | inl e ↦ rw (e, IsDefined) tt
  | inr (i, e) ↦ elim (Bool-cases (cmd.command.type == subscribe)) [
    | inl s ↦ elim (Option-cases (subscribe_command i cmd m)) [
      | inl n ↦ absurd (
          subst IsDefined n
            (subscribe_command-IsDefined i cmd m (h (==→eq cmd.command.type subscribe s))))
      | inr (r, n) ↦ rw (e, IsDefined) (rw (s, IsDefined) (rw (n, IsDefined) tt))
    ]
    | inr s ↦ rw (e, IsDefined) (rw (s, IsDefined) tt)
  ]
]

info_command-IsDefined :
    (next : ℕ) (cmd : ClientCommand) (m : ClientManager)
    → IsQueued next m.store cmd
    → cmd.command.type ≡ mux_info
    → IsDefined (info_command cmd m)
unfolding info_command
info_command-IsDefined next cmd m q info = elim (Option-cases cmd.client) [
  | inl e ↦
      let subscribes : cmd.command.type ≡ subscribe =
        subst (λ c. IsFrom next m.store c cmd.command.type) e q in
      absurd (omega arith)
  | inr (i, e) ↦ rw (e, IsDefined) tt
]

process-IsDefined :
    (next seq : ℕ) (cmd : ClientCommand) (m : ClientManager)
    → IsQueued next m.store cmd
    → HasFilter cmd
    → IsDefined (process seq cmd m)
unfolding process
process-IsDefined next seq cmd m q h = elim (Bool-cases (known_client cmd.client m.clients)) [
  | inr k ↦ rw (k, IsDefined) tt
  | inl k ↦ elim (Bool-cases (cmd.command.type == mux_info)) [
    | inl t ↦
        rw (k, IsDefined)
          (rw (t, IsDefined)
            (info_command-IsDefined next cmd m q (==→eq cmd.command.type mux_info t)))
    | inr t ↦
        elim (Bool-cases (
          not (is_picard_api_command cmd.command.type)
          || ltb max_serial_api_cmd_len (size cmd.command))) [
            | inl v ↦ rw (k, IsDefined) (rw (t, IsDefined) (rw (v, IsDefined) tt))
            | inr v ↦
                rw (k, IsDefined)
                  (rw (t, IsDefined) (rw (v, IsDefined) (forward-IsDefined seq cmd m h)))
          ]
  ]
]

pub loop_step-IsDefined :
    (next seq : ℕ) (phase : Phase) (m : ClientManager)
    → IsSound next phase m
    → All HasFilter m.commands.items
    → IsDefined (loop_step seq phase m)
unfolding loop_step
loop_step-IsDefined next seq testing m s h = tt
loop_step-IsDefined next seq popping m s h = elim (Option-cases (finish_pop m.commands).1) [
  | inl e ↦ rw (e, IsDefined) tt
  | inr (cmd, e) ↦
      rw (e, IsDefined)
        (process-IsDefined next seq cmd _
          (popped-All (IsQueued next m.store) m.commands.items m.commands.asleep cmd s.queued e)
          (popped-All HasFilter m.commands.items m.commands.asleep cmd h e))
]
loop_step-IsDefined next seq (awaiting cmd i) m s h = tt
loop_step-IsDefined next seq ended m s h = tt

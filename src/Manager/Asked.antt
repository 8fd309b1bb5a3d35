-- ===== src/Manager/Asked.antt =====
-- serial_mux/BoostClientManager.cpp: what `commandLoop` makes of a client's subscribe command.
use serialmux.Prelude.{ℕ, ◌≡◌, ◌⊎◌, refl, Option-cases, none, some, inl, inr, List}
use serialmux.Common.{SubscriptionParams, filter_to_vector, vector_to_filter}
use serialmux.Subscriber.{set_subscription}
use serialmux.Manager.{ClientCommand, ClientManager, recompute_subscribe_filter}
use serialmux.Manager.Loop.{with_subscriber, subscribe_command}

-- The manager once the subscription of client `i` is pending and the union is computed again.
abbrev pub asked : ℕ → SubscriptionParams → ClientManager → ClientManager
asked i params m =
    (recompute_subscribe_filter
      (with_subscriber i (set_subscription params (m.store i).subscriber) m)).0

-- The command with its payload rewritten.
abbrev pub rewritten : ClientCommand → List ℕ → ClientCommand
rewritten cmd written = record cmd { command = record cmd.command { payload = written } }

-- A subscribe command's payload is read, the client's subscription is set, and the union is written.
pub record IsAsked (i : ℕ) (cmd : ClientCommand) (m : ClientManager) : Type 0 where
  pub params : SubscriptionParams
  pub written : List ℕ
  pub reads : vector_to_filter cmd.command.payload ≡ some params
  pub writes : filter_to_vector (asked i params m).filter_union cmd.command.payload ≡ some written
  pub result : subscribe_command i cmd m ≡ some (rewritten cmd written, asked i params m)

pub subscribe_command-cases :
    (i : ℕ) (cmd : ClientCommand) (m : ClientManager)
    → (subscribe_command i cmd m ≡ none) ⊎ IsAsked i cmd m
unfolding subscribe_command
subscribe_command-cases i cmd m = elim (Option-cases (vector_to_filter cmd.command.payload)) [
  | inl e ↦ inl (rw (e, subscribe_command) refl)
  | inr (params, e) ↦
      elim (Option-cases (filter_to_vector (asked i params m).filter_union cmd.command.payload)) [
        | inl n ↦ inl (rw (e, subscribe_command) (rw (n, subscribe_command) refl))
        | inr (written, n) ↦ inr (record {
          params = params;
          written = written;
          reads = e;
          writes = n;
          result = rw (e, subscribe_command) (rw (n, subscribe_command) refl);
        })
      ]
]

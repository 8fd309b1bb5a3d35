-- ===== src/Manager/Leaves.antt =====
-- serial_mux/BoostClientManager.cpp: what the operations beside `commandLoop` leave of its queue.
use serialmux.Prelude.{
  ℕ, ◌≡◌, refl, ap, sym, ◌∙◌, Bool-cases, inl, inr, Option, none, List, [], ◌∷◌, ◌++◌, append-nil,
  append_assoc, arith, replicate,
}
use serialmux.Common.{subscribe, write_filter}
use serialmux.Mux.{MuxMessage, typed_message}
use serialmux.Queue.{push}
use serialmux.Manager.{
  ClientCommand, client_command, ClientManager, close_clients, add_client, add_command,
  recompute_subscribe_filter, disconnect_current, unlist_client, remove_client, listed, erase,
  subscribe_params_length,
}
use serialmux.Manager.Loop.{deliver_response, command_complete}

-- The loop's flag and attempts are as they were, and its queue is as it was with more behind it.
pub record Leaves (m n : ClientManager) : Type 0 where
  pub running : n.is_running ≡ m.is_running
  pub retries_eq : n.retries ≡ m.retries
  pub more : List ClientCommand
  pub grown : n.commands.items ≡ m.commands.items ++ more

pub Leaves-refl : (m : ClientManager) → Leaves m m
Leaves-refl m = record { running = refl; retries_eq = refl; more = []; grown = sym (append-nil _) }

pub Leaves-trans : (l m n : ClientManager) → Leaves l m → Leaves m n → Leaves l n
Leaves-trans l m n g h = record {
  running = h.running ∙ g.running;
  retries_eq = h.retries_eq ∙ g.retries_eq;
  more = g.more ++ h.more;
  grown = h.grown ∙ ap (λ t. t ++ h.more) g.grown ∙ append_assoc _ g.more h.more;
}

-- The queue is the same.
pub Leaves-same :
    (m n : ClientManager)
    → n.is_running ≡ m.is_running
    → n.retries ≡ m.retries
    → n.commands.items ≡ m.commands.items
    → Leaves m n
Leaves-same m n running retries_eq e = record {
  running = running;
  retries_eq = retries_eq;
  more = [];
  grown = e ∙ sym (append-nil _);
}

pub add_command-Leaves :
    (client : Option ℕ) (msg : MuxMessage) (m : ClientManager) → Leaves m (add_command client msg m)
unfolding add_command push
add_command-Leaves client msg m = record {
  running = refl;
  retries_eq = refl;
  more = client_command client msg ∷ [];
  grown = refl;
}

pub close_clients-Leaves : (m : ClientManager) → Leaves m (close_clients m).0
unfolding close_clients
close_clients-Leaves m = Leaves-same m _ refl refl refl

pub add_client-Leaves : (i : ℕ) (m : ClientManager) → Leaves m (add_client i m)
unfolding add_client
add_client-Leaves i m = Leaves-same m _ refl refl refl

pub command_complete-Leaves :
    (cmd_type seq_no code : ℕ) (response : List ℕ) (m : ClientManager)
    → Leaves m (command_complete cmd_type seq_no code response m).0
unfolding command_complete deliver_response
command_complete-Leaves cmd_type seq_no code response m =
    Leaves-same m _ (ground arith) (ground arith) (ground arith)

disconnect_current-Leaves : (m : ClientManager) → Leaves m (disconnect_current m).0
unfolding disconnect_current
disconnect_current-Leaves m = Leaves-same m _ (ground arith) (ground arith) (ground arith)

unlist_client-Leaves : (i : ℕ) (m : ClientManager) → Leaves m (unlist_client i m)
unfolding unlist_client recompute_subscribe_filter
unlist_client-Leaves i m =
    let (shrunk, changed) = recompute_subscribe_filter (record m { clients = erase i m.clients }) in
    let payload = write_filter shrunk.filter_union (replicate subscribe_params_length 0) in
    elim (Bool-cases (listed i m.clients)) [
      | inr e ↦ rw e (Leaves-refl m)
      | inl e ↦ elim (Bool-cases changed) [
        | inl c ↦ rw e (
            rw c (
              Leaves-trans m shrunk _ (Leaves-same m shrunk refl refl refl)
                (add_command-Leaves none (typed_message subscribe payload) shrunk)))
        | inr c ↦ rw e (rw c (Leaves-same m shrunk refl refl refl))
      ]
    ]

pub remove_client-Leaves : (i : ℕ) (m : ClientManager) → Leaves m (remove_client i m).0
unfolding remove_client
remove_client-Leaves i m =
    Leaves-trans m _ _ (disconnect_current-Leaves m)
      (unlist_client-Leaves i (disconnect_current m).0)

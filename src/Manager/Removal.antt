-- ===== src/Manager/Removal.antt =====
-- `removeClient`: what becomes of the command under way, and of the union of subscriptions.
use serialmux.Prelude.{
  ℕ, zero, suc, ◌/◌, ◌^◌, ◌<◌, ◌≡◌, ◌≢◌, ◌↔◌, ◌⊎◌, refl, ap, true, false, Bool-cases, inl, inr,
  none, some, List, [], ◌∷◌, ◌++◌, replicate, All, length, ◌==◌, arith, bit_or,
}
use serialmux.Common.{
  SubscriptionParams, no_subscription, subscribe, err_command_timeout, write_filter,
  vector_to_filter,
}
use serialmux.Subscriber.{get_subscription, get_unreliable}
use serialmux.Mux.{typed_message}
use serialmux.Queue.{push}
use serialmux.Client.{BoostClient}
use serialmux.Manager.{
  client_disconnect, ClientCommand, client_command, ClientManager, Action, notify_loop, add_command,
  union_filter, recompute_subscribe_filter, listed, erase, disconnect_current, unlist_client,
  remove_client, subscribe_params_length,
}
use serialmux.Manager.Loop.{Phase, testing, command_timeout, finish_command, wake}
use native.Mathlib.Nat.{pow-succ'}
use serialmux.Prelude.Bits.{bit_or_step}
use serialmux.Common.Filters.{IsParams, vector_to_filter-write_filter}
use serialmux.Manager.Filter.{Any, HasBit, recompute_subscribe_filter-HasBit}

-- If a client is removed while the command of any client is under way, that command ends at once
-- with a timeout error for its client and the connection is reset. The client removed need not be
-- the one whose command it is, nor be in the list.
pub remove_client_disconnects :
    (i j k seq : ℕ) (cmd : ClientCommand) (m : ClientManager)
    → m.current.client ≡ some i
    → cmd.client ≡ some i
    → ((remove_client j m).1 ≡ notify_loop ∷ [])
      × ((wake seq cmd k (remove_client j m).0).phase ≡ testing)
      × ((wake seq cmd k (remove_client j m).0).actions
          ≡ command_timeout (some i) cmd.command.type err_command_timeout)
remove_client_disconnects i j k seq cmd m current_eq cmd_eq =
    (notified, ap (λ t. t.0) ends, ap (λ t. t.1) ends)
  where
    notified : (remove_client j m).1 ≡ notify_loop ∷ []
    notified = unfold remove_client disconnect_current in ground arith

    result_eq : (remove_client j m).0.current.result ≡ client_disconnect
    result_eq =
        unfold remove_client disconnect_current unlist_client recompute_subscribe_filter
          add_command in
        ground arith

    finished :
        (n : ClientManager)
        → ◌≡◌ {A = Phase × List Action}
            (
              (finish_command client_disconnect cmd n).phase,
              (finish_command client_disconnect cmd n).actions,
            )
            (testing, command_timeout (some i) cmd.command.type err_command_timeout)
    finished n = unfold finish_command in ground arith

    ends :
        ◌≡◌ {A = Phase × List Action}
          (
            (wake seq cmd k (remove_client j m).0).phase,
            (wake seq cmd k (remove_client j m).0).actions,
          )
          (testing, command_timeout (some i) cmd.command.type err_command_timeout)
    ends = unfold wake in rw result_eq (finished (remove_client j m).0)

bit_or-lt : (k x y : ℕ) → x < 2 ^ k → y < 2 ^ k → bit_or x y < 2 ^ k
bit_or-lt zero zero zero hx hy = omega arith
bit_or-lt zero zero (suc y) hx hy = absurd (omega arith)
bit_or-lt zero (suc x) y hx hy = absurd (omega arith)
bit_or-lt (suc k) x y hx hy = omega (
  arith,
  pow-succ' 2 k,
  bit_or_step x y,
  bit_or-lt k (x / 2) (y / 2) (omega (arith, pow-succ' 2 k)) (omega (arith, pow-succ' 2 k)),
)

union_filter-IsParams :
    (store : ℕ → BoostClient) (is : List ℕ) (p : SubscriptionParams)
    → All (λ i. IsParams (store i).subscriber.new_params) is
    → IsParams p
    → IsParams (union_filter store is p)
unfolding union_filter get_subscription get_unreliable
union_filter-IsParams store [] p all h = h
union_filter-IsParams store (i ∷ is) p (here, all) h =
    union_filter-IsParams store is _ all (record {
      filter-lt = bit_or-lt 32 p.filter _ h.filter-lt here.filter-lt;
      unreliable-lt = bit_or-lt 32 p.unreliable _ h.unreliable-lt here.unreliable-lt;
    })

pub All-erase : (P : ℕ → Type 0) (i : ℕ) (is : List ℕ) → All P is → All P (erase i is)
unfolding erase
All-erase P i [] h = tt
All-erase P i (j ∷ js) (h, hs) = elim (Bool-cases (j == i)) [
  | inl e ↦ rw e hs
  | inr e ↦ rw e (h, All-erase P i js hs)
]

-- A subscribe command of no client, whose payload stands for `params`.
pub record IsResubscribe (params : SubscriptionParams) (c : ClientCommand) : Type 0 where
  pub client_eq : c.client ≡ none
  pub type_eq : c.command.type ≡ subscribe
  pub length_eq : length c.command.payload ≡ 8
  pub params_eq : vector_to_filter c.command.payload ≡ some params

resubscription : SubscriptionParams → ClientCommand
resubscription params =
    client_command none
      (typed_message subscribe (write_filter params (replicate subscribe_params_length 0)))

resubscription-IsResubscribe :
    (params : SubscriptionParams) → IsParams params → IsResubscribe params (resubscription params)
unfolding resubscription client_command typed_message
resubscription-IsResubscribe params h = record {
  client_eq = refl;
  type_eq = refl;
  length_eq = unfold write_filter in refl;
  params_eq = vector_to_filter-write_filter params (replicate 8 0) h (omega arith);
}

-- What the removal of a client that is in the list leaves.
pub record IsRemoved (i : ℕ) (m n : ClientManager) : Type 0 where
  pub clients_eq : n.clients ≡ erase i m.clients
  pub filter_bits :
      (k : ℕ)
      → HasBit k n.filter_union.filter
        ↔ Any (λ j. HasBit k (get_subscription (m.store j).subscriber)) (erase i m.clients)
  pub unreliable_bits :
      (k : ℕ)
      → HasBit k n.filter_union.unreliable
        ↔ Any (λ j. HasBit k (get_unreliable (m.store j).subscriber)) (erase i m.clients)
  pub told :
      ((n.filter_union ≡ m.filter_union) × (n.commands.items ≡ m.commands.items))
      ⊎ ((n.filter_union ≢ m.filter_union)
          × (c : ClientCommand) × (n.commands.items ≡ m.commands.items ++ c ∷ [])
          × IsResubscribe n.filter_union c)

module _ (i : ℕ) (m : ClientManager) where
  abbrev shrunk : ClientManager
  shrunk = record m { clients = erase i m.clients }

  abbrev recomputed : ClientManager
  recomputed = (recompute_subscribe_filter shrunk).0

  recomputed-IsParams :
      All (λ j. IsParams (m.store j).subscriber.new_params) m.clients
      → IsParams recomputed.filter_union
  unfolding recompute_subscribe_filter
  recomputed-IsParams params =
      union_filter-IsParams m.store (erase i m.clients) no_subscription
        (All-erase (λ j. IsParams (m.store j).subscriber.new_params) i m.clients params)
        (record { filter-lt = omega arith; unreliable-lt = omega arith })

  recomputed_fields : (recomputed.clients ≡ erase i m.clients) × (recomputed.commands ≡ m.commands)
  unfolding recompute_subscribe_filter
  recomputed_fields = (refl, refl)

  unlist_client_changed :
      listed i m.clients ≡ true
      → (recompute_subscribe_filter shrunk).1 ≡ true
      → unlist_client i m ≡ record recomputed {
        commands = push recomputed.commands (resubscription recomputed.filter_union);
      }
  unfolding unlist_client add_command resubscription
  unlist_client_changed here changed = rw (here, changed) refl

  unlist_client_same :
      listed i m.clients ≡ true
      → (recompute_subscribe_filter shrunk).1 ≡ false
      → unlist_client i m ≡ recomputed
  unfolding unlist_client
  unlist_client_same here same = rw (here, same) refl

-- When a client in the list is removed, it leaves the list once, and each bit of the union, of its
-- filter and of its unreliable flags, is set exactly if a client that is left asks for it. Either the
-- union is as before and nothing is queued, or it differs and one subscribe command of no client is
-- queued behind all others, which stands for the new union on the wire. The clients' subscriptions
-- are 32-bit patterns.
pub unlist_client-IsRemoved :
    (i : ℕ) (m : ClientManager)
    → listed i m.clients ≡ true
    → All (λ j. IsParams (m.store j).subscriber.new_params) m.clients
    → IsRemoved i m (unlist_client i m)
unlist_client-IsRemoved i m here params =
    elim (Bool-cases (recompute_subscribe_filter (shrunk i m)).1) [
      | inl changed ↦ rw (unlist_client_changed i m here changed) (record {
        clients_eq = (recomputed_fields i m).0;
        filter_bits = λ k. (recompute_subscribe_filter-HasBit (shrunk i m) k).0;
        unreliable_bits = λ k. (recompute_subscribe_filter-HasBit (shrunk i m) k).1;
        told = inr (
          λ same. absurd (
              ground (arith, changed, (recompute_subscribe_filter-HasBit (shrunk i m) 0).3.1 same)),
          resubscription (recomputed i m).filter_union,
          unfold push in
              ap (λ q. q.items ++ resubscription (recomputed i m).filter_union ∷ [])
                (recomputed_fields i m).1,
          resubscription-IsResubscribe (recomputed i m).filter_union
              (recomputed-IsParams i m params),
        );
      })
      | inr same ↦ rw (unlist_client_same i m here same) (record {
        clients_eq = (recomputed_fields i m).0;
        filter_bits = λ k. (recompute_subscribe_filter-HasBit (shrunk i m) k).0;
        unreliable_bits = λ k. (recompute_subscribe_filter-HasBit (shrunk i m) k).1;
        told = inl (
          (recompute_subscribe_filter-HasBit (shrunk i m) 0).3.0 same,
          ap (λ q. q.items) (recomputed_fields i m).1,
        );
      })
    ]

-- ===== src/Manager/Upkeep.antt =====
-- serial_mux/BoostClientManager.cpp: the calls of the other threads, on the list of clients and the
-- queue.
use serialmux.Prelude.{
  ℕ, ◌≡◌, refl, true, false, ◌||◌, Bool-cases, inl, inr, Option, none, List, [], ◌∷◌, ◌++◌,
  All-append, replicate, ◌==◌, arith,
}
use serialmux.Common.{subscribe, write_filter}
use serialmux.Mux.{MuxMessage, typed_message}
use serialmux.Queue.{push}
use serialmux.Client.{BoostClient, close}
use serialmux.Manager.{
  client_command, ClientManager, add_client, add_command, update, close_all, close_clients,
  recompute_subscribe_filter, listed, erase, unlist_client, remove_client, disconnect_current,
  subscribe_params_length,
}
use serialmux.Manager.Removal.{All-erase}
use serialmux.Manager.Loop.{Phase}
use serialmux.Manager.Members.{
  Grows, IsHeld-grow, phase_client, is_greeted, IsMember, IsQueued, IsFrom, IsDistinct, IsSound,
  IsQueued-grow, Keeps, Keeps-IsSound,
}

listed-append : (i j : ℕ) (is : List ℕ) → listed i (is ++ j ∷ []) ≡ (listed i is || (j == i))
unfolding listed
listed-append i j [] = ground arith
listed-append i j (k ∷ ks) = ground (arith, listed-append i j ks)

IsDistinct-append :
    (i : ℕ) (is : List ℕ) → listed i is ≡ false → IsDistinct is → IsDistinct (is ++ i ∷ [])
unfolding listed
IsDistinct-append i [] new d = (refl, tt)
IsDistinct-append i (j ∷ js) new (here, there) =
    let both = listed-append j i js in (ground arith, IsDistinct-append i js (ground arith) there)

listed-erase : (i j : ℕ) (is : List ℕ) → listed i is ≡ false → listed i (erase j is) ≡ false
unfolding listed erase
listed-erase i j [] h = refl
listed-erase i j (k ∷ ks) h = ground (arith, listed-erase i j ks)

IsDistinct-erase : (j : ℕ) (is : List ℕ) → IsDistinct is → IsDistinct (erase j is)
unfolding erase
IsDistinct-erase j [] d = tt
IsDistinct-erase j (k ∷ ks) (here, there) = elim (Bool-cases (k == j)) [
  | inl e ↦ rw e there
  | inr e ↦ rw e (listed-erase k j ks here, IsDistinct-erase j ks there)
]

module _ (next : ℕ) (phase : Phase) (m : ClientManager) (s : IsSound next phase m) where
  pub add_client-IsSound :
      (i : ℕ)
      → listed i m.clients ≡ false
      → IsMember next m.store i
      → IsSound next phase (add_client i m)
  unfolding add_client
  add_client-IsSound i new h = record {
    distinct = IsDistinct-append i m.clients new s.distinct;
    members = All-append (IsMember next m.store) m.clients (i ∷ []) s.members (h, tt);
    queued = s.queued;
    current = s.current;
    awaited = s.awaited;
  }

  pub add_command-IsSound :
      (client : Option ℕ) (msg : MuxMessage)
      → IsFrom next m.store client msg.type
      → IsSound next phase (add_command client msg m)
  unfolding add_command push client_command
  add_command-IsSound client msg h = record {
    distinct = s.distinct;
    members = s.members;
    queued =
        All-append (IsQueued next m.store) m.commands.items (client_command client msg ∷ [])
          s.queued (h, tt);
    current = s.current;
    awaited = s.awaited;
  }

shrunk : ℕ → ClientManager → ClientManager
shrunk i m = (recompute_subscribe_filter (record m { clients = erase i m.clients })).0

shrunk-IsSound :
    (next i : ℕ) (phase : Phase) (m : ClientManager)
    → IsSound next phase m
    → IsSound next phase (shrunk i m)
unfolding shrunk recompute_subscribe_filter
shrunk-IsSound next i phase m s = record {
  distinct = IsDistinct-erase i m.clients s.distinct;
  members = All-erase (IsMember next m.store) i m.clients s.members;
  queued = s.queued;
  current = s.current;
  awaited = s.awaited;
}

unlist_client-IsSound :
    (next i : ℕ) (phase : Phase) (m : ClientManager)
    → IsSound next phase m
    → IsSound next phase (unlist_client i m)
unfolding unlist_client typed_message
unlist_client-IsSound next i phase m s = elim (Bool-cases (listed i m.clients)) [
  | inr e ↦ rw e s
  | inl e ↦
      elim (Bool-cases (recompute_subscribe_filter (record m { clients = erase i m.clients })).1) [
        | inr c ↦ rw e (rw c (unfold shrunk in shrunk-IsSound next i phase m s))
        | inl c ↦ rw e (
            rw c (
              unfold shrunk in
              add_command-IsSound next phase (shrunk i m) (shrunk-IsSound next i phase m s) none
                (typed_message subscribe
                  (write_filter (shrunk i m).filter_union (replicate subscribe_params_length 0)))
                refl))
      ]
]

disconnect_current-Keeps : (m : ClientManager) → Keeps none m (disconnect_current m).0
unfolding disconnect_current
disconnect_current-Keeps m = record {
  current_cases = inl (ground arith);
  clients_eq = ground arith;
  items_eq = ground arith;
  states_eq = λ i. ground arith;
}

pub remove_client-IsSound :
    (next i : ℕ) (phase : Phase) (m : ClientManager)
    → IsSound next phase m
    → IsSound next phase (remove_client i m).0
unfolding remove_client
remove_client-IsSound next i phase m s =
    unlist_client-IsSound next i phase (disconnect_current m).0
      (Keeps-IsSound next none phase phase m _ (disconnect_current-Keeps m) tt (inl refl) s)

pub remove_client-store : (i : ℕ) (m : ClientManager) → (remove_client i m).0.store ≡ m.store
unfolding remove_client disconnect_current unlist_client add_command recompute_subscribe_filter
remove_client-store i m = ground arith

close_all-greeted :
    (is : List ℕ) (store : ℕ → BoostClient) (i : ℕ)
    → is_greeted (store i).init_state ≡ true
    → is_greeted ((close_all is store).0 i).init_state ≡ true
unfolding close_all close
close_all-greeted [] store i h = h
close_all-greeted (j ∷ js) store i h =
    close_all-greeted js (update store j (close (store j)).0) i
      (elim (Bool-cases (j == i)) [ inl e ↦ rw e refl | inr e ↦ rw e h ])

pub close_clients-IsSound :
    (next : ℕ) (phase : Phase) (m : ClientManager)
    → IsSound next phase m
    → IsSound next phase (close_clients m).0
unfolding close_clients
close_clients-IsSound next phase m s = record {
  distinct = tt;
  members = tt;
  queued = IsQueued-grow next next m.store after grows m.commands.items s.queued;
  current = IsHeld-grow next next m.store after grows m.current.client s.current;
  awaited = IsHeld-grow next next m.store after grows (phase_client phase) s.awaited;
}
  where
    after : ℕ → BoostClient
    after = (close_all m.clients m.store).0

    grows : Grows next next m.store after
    grows = record { more = omega arith; still = λ i b. close_all-greeted m.clients m.store i }

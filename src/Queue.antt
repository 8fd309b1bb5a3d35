-- ===== src/Queue.antt =====
-- ext-tools/LogUtilities/SyncQueue.h: the queue between the threads that make commands or log
-- messages and the one that takes them. Each function is what happens under the lock; the wait of
-- `timedPop` gives the lock away, so `timedPop` is two functions. That the wait ends, by a
-- notification or after the time, is up to boost.
pub mod Fifo
pub mod Tests
use serialmux.Prelude.{Bool, true, false, Option, none, some, List, [], ◌∷◌, ◌++◌, if◌then◌else◌}

abbrev pub is_empty {ℓ} : {A : Type ℓ} → List A → Bool
is_empty [] = true
is_empty (x ∷ xs) = false

-- `CSyncQueue`, for one thread that pops. `asleep` says that it waits and has not been notified.
pub record SyncQueue {ℓ} (A : Type ℓ) : Type ℓ where
  pub items : List A
  pub asleep : Bool

module _ {ℓ} {A : Type ℓ} where
  unfoldable pub new_queue : SyncQueue A
  new_queue = record { items = []; asleep = false }

  -- `clear`, which notifies all.
  unfoldable pub clear : SyncQueue A → SyncQueue A
  clear q = record { items = []; asleep = false }

  -- `push`, which notifies one if the queue was empty.
  unfoldable pub push : SyncQueue A → A → SyncQueue A
  push q el = record {
    items = q.items ++ el ∷ [];
    asleep = if is_empty q.items then false else q.asleep;
  }

  -- `empty`.
  unfoldable pub empty : SyncQueue A → Bool
  empty q = is_empty q.items

  -- `timedPop` behind its wait.
  unfoldable pub finish_pop : SyncQueue A → SyncQueue A × Option A
  finish_pop q = elim q.items [
    | [] ↦ (record { items = []; asleep = false }, none)
    | el ∷ rest ↦ (record { items = rest; asleep = false }, some el)
  ]

  -- `timedPop` up to its wait: it goes to sleep only if there is nothing to pop.
  unfoldable pub begin_pop : SyncQueue A → SyncQueue A
  begin_pop q = record { items = q.items; asleep = is_empty q.items }

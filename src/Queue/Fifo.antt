-- ===== src/Queue/Fifo.antt =====
-- `CSyncQueue` hands elements on in the order in which they came, and loses no notification.
use serialmux.Prelude.{
  ◌≡◌, refl, ap, sym, ◌∙◌, true, false, Bool-cases, inl, inr, Option, none, some, List, [], ◌∷◌,
  ◌++◌, append-nil, append_assoc, All, arith, if◌then◌else◌,
}
use serialmux.Queue.{SyncQueue, is_empty, clear, push, finish_pop, begin_pop}

-- The calls of the threads that push or clear, and the two halves of a `timedPop`.
pub data Op {ℓ} (A : Type ℓ) : Type ℓ where
  pushes : A → Op A
  clears begins_pop finishes_pop : Op A

module _ {ℓ} {A : Type ℓ} where
  abbrev pub one : Option A → List A
  one none = []
  one (some a) = a ∷ []

  -- A call, with what it takes out for the thread that pops.
  unfoldable pub op : Op A → SyncQueue A → SyncQueue A × List A
  op (pushes a) q = (push q a, [])
  op clears q = (clear q, [])
  op begins_pop q = (begin_pop q, [])
  op finishes_pop q = let (rest, popped) = finish_pop q in (rest, one popped)

  unfoldable pub ops : List (Op A) → SyncQueue A → SyncQueue A × List A
  unfolding op
  ops [] q = (q, [])
  ops (o ∷ os) q = let (r, out) = op o q in let (s, more) = ops os r in (s, out ++ more)

  -- What goes in.
  pub pushed : List (Op A) → List A
  pushed [] = []
  pushed (pushes a ∷ os) = a ∷ pushed os
  pushed (o ∷ os) = pushed os

  -- The queue is not cleared.
  abbrev pub Keeps : Op A → Type 0
  Keeps (pushes a) = Unit
  Keeps clears = ⊥
  Keeps begins_pop = Unit
  Keeps finishes_pop = Unit

  finish_pop-items : (q : SyncQueue A) → one (finish_pop q).1 ++ (finish_pop q).0.items ≡ q.items
  unfolding finish_pop
  finish_pop-items q = ground arith

  -- The thread that pops is asleep without a notification only while there is nothing to pop.
  abbrev pub IsAwake : SyncQueue A → Type ℓ
  IsAwake q = q.asleep ≡ true → q.items ≡ []

  op-IsAwake : (o : Op A) (q : SyncQueue A) → IsAwake q → IsAwake (op o q).0
  unfolding op push clear begin_pop finish_pop
  op-IsAwake (pushes a) q h = λ e. elim (Bool-cases (is_empty q.items)) [
    | inl none_yet ↦ absurd (wide_awake none_yet e)
    | inr busy ↦ absurd (asleep_busy busy e)
  ]
    where
      wide_awake :
          is_empty q.items ≡ true → (if is_empty q.items then false else q.asleep) ≡ true → ⊥
      wide_awake none_yet e = ground arith

      asleep_busy :
          is_empty q.items ≡ false → (if is_empty q.items then false else q.asleep) ≡ true → ⊥
      asleep_busy busy e = not_empty (h (ground arith)) busy
        where
          not_empty : q.items ≡ [] → is_empty q.items ≡ false → ⊥
          not_empty none_left busy = ground arith
  op-IsAwake clears q h = λ e. refl
  op-IsAwake begins_pop q h = ground arith
  op-IsAwake finishes_pop q h = ground arith

  -- Whatever the threads do, while the queue is not cleared: what was popped and then what is left
  -- is what the queue held and then what was pushed, each in order. If at the start the thread that
  -- pops was asleep without a notification only at an empty queue, it is so at the end.
  pub ops_fifo :
      (os : List (Op A)) (q : SyncQueue A)
      → All Keeps os
      → IsAwake q
      → ((ops os q).1 ++ (ops os q).0.items ≡ q.items ++ pushed os) × IsAwake (ops os q).0
  unfolding ops pushed
  ops_fifo [] q keeps h = (sym (append-nil q.items), h)
  ops_fifo (pushes a ∷ os) q (k, keeps) h =
      let rest = ops_fifo os (push q a) keeps (op-IsAwake (pushes a) q h) in
      (rest.0 ∙ unfold push in append_assoc q.items (a ∷ []) (pushed os), rest.1)
  ops_fifo (clears ∷ os) q (k, keeps) h = absurd k
  ops_fifo (begins_pop ∷ os) q (k, keeps) h =
      let rest = ops_fifo os (begin_pop q) keeps (op-IsAwake begins_pop q h) in
      (rest.0 ∙ unfold begin_pop in refl, rest.1)
  ops_fifo (finishes_pop ∷ os) q (k, keeps) h =
      let rest = ops_fifo os (finish_pop q).0 keeps (op-IsAwake finishes_pop q h) in
      (
        append_assoc (one (finish_pop q).1) (ops os (finish_pop q).0).1 _
            ∙ ap (λ t. one (finish_pop q).1 ++ t) rest.0
            ∙ sym (append_assoc (one (finish_pop q).1) (finish_pop q).0.items (pushed os))
            ∙ ap (λ t. t ++ pushed os) (finish_pop-items q),
        rest.1,
      )

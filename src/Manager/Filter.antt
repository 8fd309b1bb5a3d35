-- ===== src/Manager/Filter.antt =====
-- `recomputeSubscribeFilter`: the union of the subscriptions, bit by bit.
use serialmux.Prelude.{
  ℕ, zero, suc, ◌*◌, ◌/◌, ◌%◌, ◌^◌, ◌≡◌, ◌↔◌, ◌⊎◌, refl, ap, sym, ap₂, ◌∙◌, false, inl, inr, List,
  [], ◌∷◌, max, arith, eq→==, bit_and, bit_or,
}
use serialmux.Common.{SubscriptionParams, no_subscription}
use serialmux.Subscriber.{get_subscription, get_unreliable}
use serialmux.Client.{BoostClient}
use serialmux.Manager.{ClientManager, union_filter, recompute_subscribe_filter}
use serialmux.Prelude.Bits.{bit_or_step, bit_and_shifted, bit_and_mask}
use native.Mathlib.Nat.{zero-div, pow-succ', div-div-eq-div-mul}

-- Bit `k` of a number.
abbrev bit : ℕ → ℕ → ℕ
bit k x = x / 2 ^ k % 2

bit-suc : (k x : ℕ) → bit (suc k) x ≡ bit k (x / 2)
bit-suc k x =
    ap (λ t. t % 2) {y = x / 2 / 2 ^ k}
      (ap (λ t. x / t) (pow-succ' 2 k) ∙ sym (div-div-eq-div-mul x 2 (2 ^ k)))

bit_or-bit : (k x y : ℕ) → bit k (bit_or x y) ≡ max (bit k x) (bit k y)
bit_or-bit zero x y = omega (arith, bit_or_step x y)
bit_or-bit (suc k) x y =
    bit-suc k (bit_or x y)
    ∙ ap (bit k) {y = bit_or (x / 2) (y / 2)} (omega (arith, bit_or_step x y))
    ∙ bit_or-bit k (x / 2) (y / 2)
    ∙ sym (ap₂ max (bit-suc k x) (bit-suc k y))

bit_and-pow : (k x : ℕ) → bit_and x (2 ^ k) ≡ bit k x * 2 ^ k
bit_and-pow k x =
    ap (bit_and x) {y = 1 * 2 ^ k} (omega arith)
    ∙ bit_and_shifted k x 1
    ∙ ap (λ t. t * 2 ^ k) (bit_and_mask 1 (x / 2 ^ k))

-- Whether bit `k` is set.
abbrev pub HasBit : ℕ → ℕ → Type 0
HasBit k x = x / 2 ^ k % 2 ≡ 1

abbrev pub Any {ℓ} : {A : Type ℓ} → (A → Type 0) → List A → Type 0
Any P [] = ⊥
Any P (x ∷ xs) = P x ⊎ Any P xs

-- A bit is set in a disjunction exactly if it is set on one side.
bit_or-HasBit : (k x y : ℕ) → HasBit k (bit_or x y) ↔ (HasBit k x ⊎ HasBit k y)
bit_or-HasBit k x y =
    let same = bit_or-bit k x y in (λ h. omega (arith, same), λ h. omega (arith, same))

zero_bit : (k : ℕ) → ¬ HasBit k 0
zero_bit k h = omega (arith, zero-div (2 ^ k))

-- The loop of the union over one field of the subscriptions, and its bits.
module _ (field : BoostClient → ℕ) (store : ℕ → BoostClient) where
  fields_or : List ℕ → ℕ → ℕ
  fields_or [] x = x
  fields_or (i ∷ is) x = fields_or is (bit_or x (field (store i)))

  fields_or-HasBit :
      (k : ℕ) (is : List ℕ) (x : ℕ)
      → HasBit k (fields_or is x) ↔ (HasBit k x ⊎ Any (λ i. HasBit k (field (store i))) is)
  unfolding fields_or
  fields_or-HasBit k [] x = (inl, λ h. elim h [ inl a ↦ a | inr b ↦ absurd b ])
  fields_or-HasBit k (i ∷ is) x =
      let rest = fields_or-HasBit k is (bit_or x (field (store i))) in
      let here = bit_or-HasBit k x (field (store i)) in
      (
        λ h. elim (rest.0 h) [
          | inl now ↦ elim (here.0 now) [ inl a ↦ inl a | inr b ↦ inr (inl b) ]
          | inr later ↦ inr (inr later)
        ],
        λ h. elim h [
          | inl a ↦ rest.1 (inl (here.1 (inl a)))
          | inr (inl b) ↦ rest.1 (inl (here.1 (inr b)))
          | inr (inr later) ↦ rest.1 (inr later)
        ],
      )

union_filter-fields_or :
    (store : ℕ → BoostClient) (is : List ℕ) (p : SubscriptionParams)
    → union_filter store is p ≡ record {
      filter = fields_or (λ c. get_subscription c.subscriber) store is p.filter;
      unreliable = fields_or (λ c. get_unreliable c.subscriber) store is p.unreliable;
    }
unfolding union_filter fields_or
union_filter-fields_or store [] p = refl
union_filter-fields_or store (i ∷ is) p = union_filter-fields_or store is _

-- After the union is computed anew, a bit of its filter, and of its unreliable flags, is set exactly
-- if it is set in the latest subscription of a client in the list. The union before is kept as the
-- previous one, and the result is false exactly if the union is the same as before.
pub recompute_subscribe_filter-HasBit :
    (m : ClientManager) (k : ℕ)
    → (HasBit k (recompute_subscribe_filter m).0.filter_union.filter
        ↔ Any (λ i. HasBit k (get_subscription (m.store i).subscriber)) m.clients)
      × (HasBit k (recompute_subscribe_filter m).0.filter_union.unreliable
          ↔ Any (λ i. HasBit k (get_unreliable (m.store i).subscriber)) m.clients)
      × ((recompute_subscribe_filter m).0.prev_filter ≡ m.filter_union)
      × (((recompute_subscribe_filter m).1 ≡ false)
          ↔ ((recompute_subscribe_filter m).0.filter_union ≡ m.filter_union))
unfolding recompute_subscribe_filter
recompute_subscribe_filter-HasBit m k =
    let union = union_filter-fields_or m.store m.clients no_subscription in
    (
      rw union
          (from_zero (fields_or-HasBit (λ c. get_subscription c.subscriber) m.store k m.clients 0)),
      rw union
          (from_zero (fields_or-HasBit (λ c. get_unreliable c.subscriber) m.store k m.clients 0)),
      refl,
      (
        λ h. ground (arith, h),
        λ h.
            rw
              (
                eq→== union_now.filter m.filter_union.filter (ap (λ p. p.filter) h),
                eq→== union_now.unreliable m.filter_union.unreliable (ap (λ p. p.unreliable) h),
              )
              refl,
      ),
    )
  where
    union_now : SubscriptionParams
    union_now = union_filter m.store m.clients no_subscription

    from_zero : {P Q : Type 0} → P ↔ (HasBit k 0 ⊎ Q) → P ↔ Q
    from_zero e =
        (λ p. elim (e.0 p) [ inl z ↦ absurd (zero_bit k z) | inr q ↦ q ], λ q. e.1 (inr q))

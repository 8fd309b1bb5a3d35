-- ===== src/Subscriber/Refinement.antt =====
-- The contract of `CSubscriber`: a current subscription and at most one pending one.
use serialmux.Prelude.{
  ℕ, ◌≡◌, refl, ap, subst, arith, false, Bool-cases, inl, inr, Option, none, some, List, [], ◌∷◌,
  if◌then◌else◌,
}
use serialmux.Common.{SubscriptionParams, subscribe_filter_match}
use serialmux.Subscriber.{
  Subscriber, get_subscription, get_unreliable, is_subscribed, set_subscription, reset_filter,
  commit_filter,
}

-- The calls of a client manager.
pub data Call : Type 0 where
  set : SubscriptionParams → Call
  reset : Call
  commit : Call

pub call : Call → Subscriber → Subscriber
unfolding set_subscription reset_filter commit_filter
call (set params) s = set_subscription params s
call reset s = reset_filter s
call commit s = commit_filter s

pub calls : List Call → Subscriber → Subscriber
unfolding call
calls [] s = s
calls (c ∷ rest) s = calls rest (call c s)

-- What a subscriber promises.
pub record Contract : Type 0 where
  pub current : SubscriptionParams
  pub pending : Option SubscriptionParams

pub latest : Contract → SubscriptionParams
latest c = elim c.pending [ none ↦ c.current | some p ↦ p ]

pub promised : Call → Contract → Contract
unfolding latest
promised (set params) c = record c { pending = some params }
promised reset c = record c { pending = none }
promised commit c = record { current = latest c; pending = none }

pub all_promised : List Call → Contract → Contract
unfolding promised
all_promised [] c = c
all_promised (k ∷ rest) c = all_promised rest (promised k c)

pub view : Subscriber → Contract
view s = record {
  current = s.params;
  pending = if s.in_transaction then some s.new_params else none;
}

-- Outside a transaction the new parameters are the current ones.
abbrev pub IsSettled : Subscriber → Type 0
IsSettled s = s.in_transaction ≡ false → s.new_params ≡ s.params

call-IsSettled : (c : Call) (s : Subscriber) → IsSettled s → IsSettled (call c s)
unfolding call set_subscription reset_filter commit_filter
call-IsSettled (set params) s h = λ e. absurd (ground (arith, e))
call-IsSettled reset s h = λ e. refl
call-IsSettled commit s h = λ e. refl

-- The latest parameters, as the code and as the contract have them.
new_params-latest : (s : Subscriber) → IsSettled s → s.new_params ≡ latest (view s)
unfolding view latest
new_params-latest s h = elim (Bool-cases s.in_transaction) [
  | inl e ↦ rw e refl
  | inr e ↦ rw e (h e)
]

call-view : (c : Call) (s : Subscriber) → IsSettled s → view (call c s) ≡ promised c (view s)
unfolding view promised call set_subscription reset_filter commit_filter
call-view (set params) s h = refl
call-view reset s h = refl
call-view commit s h = λ i. record { current = new_params-latest s h i; pending = none }

-- From any settled subscriber, a sequence of calls has the effect on the contract that it
-- promises, and afterwards the subscriber is settled, `getSubscription` and `getUnreliable` return
-- the fields of the latest parameters, and `isSubscribed` looks at the current ones.
pub calls-view :
    (cs : List Call) (s : Subscriber)
    → IsSettled s
    → (view (calls cs s) ≡ all_promised cs (view s))
      × IsSettled (calls cs s)
      × (get_subscription (calls cs s) ≡ (latest (all_promised cs (view s))).filter)
      × (get_unreliable (calls cs s) ≡ (latest (all_promised cs (view s))).unreliable)
      × ((notif_type : ℕ)
          → is_subscribed (calls cs s) notif_type
            ≡ subscribe_filter_match (all_promised cs (view s)).current notif_type)
unfolding view calls all_promised get_subscription get_unreliable is_subscribed
calls-view [] s h = (
  refl,
  h,
  ap (λ p. p.filter) (new_params-latest s h),
  ap (λ p. p.unreliable) (new_params-latest s h),
  λ n. refl,
)
calls-view (c ∷ rest) s h =
    let later = calls-view rest (call c s) (call-IsSettled c s h) in
    subst
      (λ v.
        (view (calls rest (call c s)) ≡ all_promised rest v)
        × IsSettled (calls rest (call c s))
        × (get_subscription (calls rest (call c s)) ≡ (latest (all_promised rest v)).filter)
        × (get_unreliable (calls rest (call c s)) ≡ (latest (all_promised rest v)).unreliable)
        × ((notif_type : ℕ)
            → is_subscribed (calls rest (call c s)) notif_type
              ≡ subscribe_filter_match (all_promised rest v).current notif_type))
      (call-view c s h) later

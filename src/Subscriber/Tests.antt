-- ===== src/Subscriber/Tests.antt =====
-- A subscription that is set and committed, and another one that is set and reset.
use serialmux.Prelude.{ℕ, ◌≡◌, refl, List, [], ◌∷◌}
use serialmux.Common.{SubscriptionParams, subscribe_filter_match}
use serialmux.Subscriber.{new_subscriber, get_subscription, get_unreliable, is_subscribed}
use serialmux.Subscriber.Refinement.{
  Call, set, reset, commit, calls, all_promised, latest, view, IsSettled, calls-view,
}

abbrev events : SubscriptionParams
events = record { filter = 2; unreliable = 0 }

abbrev everything : SubscriptionParams
everything = record { filter = 126; unreliable = 16 }

abbrev history : List Call
history = set events ∷ commit ∷ set everything ∷ reset ∷ []

calls-view_example :
    (view (calls history new_subscriber) ≡ all_promised history (view new_subscriber))
    × IsSettled (calls history new_subscriber)
    × (get_subscription (calls history new_subscriber)
        ≡ (latest (all_promised history (view new_subscriber))).filter)
    × (get_unreliable (calls history new_subscriber)
        ≡ (latest (all_promised history (view new_subscriber))).unreliable)
    × ((notif_type : ℕ)
        → is_subscribed (calls history new_subscriber) notif_type
          ≡ subscribe_filter_match (all_promised history (view new_subscriber)).current notif_type)
calls-view_example = calls-view history new_subscriber (λ e. refl)

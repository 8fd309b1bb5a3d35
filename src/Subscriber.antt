-- ===== src/Subscriber.antt =====
-- serial_mux/Subscriber.h and serial_mux/Subscriber.cpp: `CSubscriber`, the subscription of one
-- client, with the new parameters that a transaction keeps until they are committed or reset.
pub mod Refinement
pub mod Tests
use serialmux.Prelude.{ℕ, Bool, true, false, Option}
use serialmux.Common.{SubscriptionParams, no_subscription, subscribe_filter_match}

pub record Subscriber : Type 0 where
  pub params : SubscriptionParams
  pub in_transaction : Bool
  pub new_params : SubscriptionParams

-- `CSubscriber()`.
abbrev pub new_subscriber : Subscriber
new_subscriber = record {
  params = no_subscription;
  in_transaction = false;
  new_params = no_subscription;
}

unfoldable pub get_subscription : Subscriber → ℕ
get_subscription s = s.new_params.filter

unfoldable pub get_unreliable : Subscriber → ℕ
get_unreliable s = s.new_params.unreliable

unfoldable pub is_subscribed : Subscriber → ℕ → Option Bool
is_subscribed s notif_type = subscribe_filter_match s.params notif_type

unfoldable pub set_subscription : SubscriptionParams → Subscriber → Subscriber
set_subscription params s = record s { in_transaction = true; new_params = params }

unfoldable pub reset_filter : Subscriber → Subscriber
reset_filter s = record s { in_transaction = false; new_params = s.params }

unfoldable pub commit_filter : Subscriber → Subscriber
commit_filter s = record s { params = s.new_params; in_transaction = false }

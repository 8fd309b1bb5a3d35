-- ===== src/Manager/Tests.antt =====
-- A manager with two clients: one has subscribed to events, the other to nothing.
use serialmux.Prelude.{
  ℕ, ◌≡◌, ◌↔◌, refl, true, false, some, List, [], ◌∷◌, ◌++◌, replicate, ◌==◌, arith, if◌then◌else◌,
}
use serialmux.Common.{
  SubscriptionParams, no_subscription, subscribe, filter_to_vector, vector_to_filter,
  subscribe_filter_match,
}
use serialmux.Subscriber.{
  Subscriber, new_subscriber, get_subscription, get_unreliable, is_subscribed,
}
use serialmux.Mux.{MuxMessage, new_parser, read_all}
use serialmux.Client.{BoostClient, new_client}
use serialmux.Manager.{
  client_timeout, ClientCommand, ClientManager, Action, notify_loop, send_command,
  recompute_subscribe_filter, listed, unlist_client, remove_client,
}
use serialmux.Manager.Loop.{
  Turn, testing, command_timeout, begin_attempts, wake, forward, command_complete, handle_notif,
}
use serialmux.Manager.Notifications.{written, notice, times, handle_notif_delivers}
use serialmux.Manager.Filter.{Any, HasBit, recompute_subscribe_filter-HasBit}
use serialmux.Manager.Commands.{
  completes, adds, Gap, follow, attempts, IsDone, begin_attempts-IsDone,
}
use serialmux.Manager.Answers.{unanswered_times_out, command_complete_answers}
use serialmux.Manager.Asked.{asked}
use serialmux.Manager.Refused.{refused_subscription_committed}
use serialmux.Manager.Removal.{remove_client_disconnects, IsRemoved, unlist_client-IsRemoved}

abbrev token : List ℕ
token = 48 ∷ 49 ∷ 50 ∷ 51 ∷ 52 ∷ 53 ∷ 54 ∷ 55 ∷ []

abbrev events : SubscriptionParams
events = record { filter = 2; unreliable = 0 }

abbrev wide : SubscriptionParams
wide = record { filter = 16; unreliable = 0 }

abbrev subscribed : Subscriber
subscribed = record { params = events; in_transaction = false; new_params = events }

abbrev crowd : ℕ → BoostClient
crowd i = record (new_client token 4) { subscriber = if i == 1 then subscribed else new_subscriber }

abbrev ping : MuxMessage
ping = record { payload = 9 ∷ []; type = 30; id = 0 }

abbrev subscription : MuxMessage
subscription = record { payload = 0 ∷ 0 ∷ 0 ∷ 16 ∷ 0 ∷ 0 ∷ 0 ∷ 0 ∷ []; type = 22; id = 0 }

abbrev ping_command : ClientCommand
ping_command = record { client = some 2; command = ping; seq = 0; result = client_timeout }

abbrev subscribe_of_two : ClientCommand
subscribe_of_two = record {
  client = some 2;
  command = subscription;
  seq = 5;
  result = client_timeout;
}

abbrev busy : ClientCommand → ClientManager
busy cmd = record {
  is_running = true;
  clients = 1 ∷ 2 ∷ [];
  store = crowd;
  commands = record { items = []; asleep = false };
  filter_union = events;
  prev_filter = no_subscription;
  current = cmd;
  retries = 2;
}

abbrev gaps : List Gap
gaps = record { meanwhile = adds 3 ∷ []; seq = 1 } ∷ record { meanwhile = []; seq = 1 } ∷ []

handle_notif_delivers_example :
    (actions : List Action) × (handle_notif 1 (6 ∷ []) (busy ping_command) ≡ some actions)
    × ((read_all (new_parser true) (written 1 actions)).1
        ≡ replicate (times 1 (6 ∷ []) (busy ping_command) 1) (notice 1 (6 ∷ [])))
handle_notif_delivers_example =
    handle_notif_delivers 1 (6 ∷ []) (busy ping_command) 1 (omega arith) (omega arith)

recompute_subscribe_filter-HasBit_example :
    (HasBit 1 (recompute_subscribe_filter (busy ping_command)).0.filter_union.filter
      ↔ Any (λ i. HasBit 1 (get_subscription (crowd i).subscriber)) (1 ∷ 2 ∷ []))
    × (HasBit 1 (recompute_subscribe_filter (busy ping_command)).0.filter_union.unreliable
        ↔ Any (λ i. HasBit 1 (get_unreliable (crowd i).subscriber)) (1 ∷ 2 ∷ []))
    × ((recompute_subscribe_filter (busy ping_command)).0.prev_filter ≡ events)
    × (((recompute_subscribe_filter (busy ping_command)).1 ≡ false)
        ↔ ((recompute_subscribe_filter (busy ping_command)).0.filter_union ≡ events))
recompute_subscribe_filter-HasBit_example = recompute_subscribe_filter-HasBit (busy ping_command) 1

begin_attempts-IsDone_example : IsDone 2 ping_command (
    follow
      (record { meanwhile = completes 30 1 0 [] ∷ []; seq = 1 } ∷ gaps)
      (begin_attempts 1 ping_command (busy ping_command)))
begin_attempts-IsDone_example =
    begin_attempts-IsDone 1 ping_command (busy ping_command)
      (record { meanwhile = completes 30 1 0 [] ∷ []; seq = 1 } ∷ gaps) (omega arith)

unanswered_times_out_example :
    (follow gaps (begin_attempts 1 ping_command (busy ping_command))).actions
    ≡ attempts ping 2 ++ command_timeout (some 2) 30 5
unanswered_times_out_example =
    unanswered_times_out 1 ping_command (busy ping_command) gaps refl refl (omega arith)
      ((tt, tt), (tt, tt))

command_complete_answers_example :
    ((read_all
        (new_parser true)
        (written 2 (command_complete 30 0 0 (7 ∷ []) (busy ping_command)).1)).1
      ≡ record { payload = 0 ∷ 7 ∷ []; type = 30; id = 0 } ∷ [])
    × ((wake 1 ping_command 0 (command_complete 30 0 0 (7 ∷ []) (busy ping_command)).0).phase
        ≡ testing)
    × ((wake 1 ping_command 0 (command_complete 30 0 0 (7 ∷ []) (busy ping_command)).0).actions
        ≡ [])
command_complete_answers_example =
    command_complete_answers 30 0 0 (7 ∷ []) (busy ping_command) refl refl refl 2 0 1 ping_command
      (omega arith)

refused_subscription_committed_example :
    (t : Turn) × (written : List ℕ) × (forward 5 subscribe_of_two (busy ping_command) ≡ some t)
    × (filter_to_vector (asked 2 wide (busy ping_command)).filter_union subscription.payload
        ≡ some written)
    × (t.actions ≡ send_command (record subscription { payload = written }) false ∷ [])
    × ((command_complete subscribe 5 1 (9 ∷ []) t.manager).0.filter_union ≡ events)
    × (is_subscribed ((command_complete subscribe 5 1 (9 ∷ []) t.manager).0.store 2).subscriber 4
        ≡ subscribe_filter_match wide 4)
refused_subscription_committed_example =
    refused_subscription_committed 5 2 subscribe_of_two wide (busy ping_command) 1 4 (9 ∷ []) refl
      refl (unfold vector_to_filter in refl) (omega arith) (omega arith)

remove_client_disconnects_example :
    ((remove_client 1 (busy ping_command)).1 ≡ notify_loop ∷ [])
    × ((wake 1 ping_command 0 (remove_client 1 (busy ping_command)).0).phase ≡ testing)
    × ((wake 1 ping_command 0 (remove_client 1 (busy ping_command)).0).actions
        ≡ command_timeout (some 2) 30 5)
remove_client_disconnects_example =
    remove_client_disconnects 2 1 0 1 ping_command (busy ping_command) refl refl

unlist_client-IsRemoved_example :
    IsRemoved 1 (busy ping_command) (unlist_client 1 (busy ping_command))
unlist_client-IsRemoved_example =
    unlist_client-IsRemoved 1 (busy ping_command) (unfold listed in refl) (omega arith)

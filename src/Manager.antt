-- ===== src/Manager.antt =====
-- serial_mux/BoostClientManager.h and serial_mux/BoostClientManager.cpp: the list of clients, the
-- queue of their commands, and the one command at a time that is with the manager ("Picard").
-- Threads: the client manager's own runs `commandLoop`, that of the serial port calls
-- `commandComplete` and `handleNotif`, that of the sockets calls `addClient`, `removeClient` and
-- `addCommand`. A step here is what one thread does between two waits; where the loop stands
-- between its steps is its `Phase`.
-- A client pointer is a number, and `store` holds the client objects; `none` is the null pointer.
-- An operation whose result is an `Option` returns `none` where C++ has undefined behaviour.
pub mod Loop
pub mod Notifications
pub mod Filter
pub mod Commands
pub mod Answers
pub mod Removal
pub mod Members
pub mod Asked
pub mod Serving
pub mod Steps
pub mod Upkeep
pub mod Defined
pub mod Refused
pub mod Leaves
pub mod Progress
pub mod Tests
use serialmux.Prelude.{
  ℕ, suc, ◌+◌, ◌*◌, Bool, true, false, not, ◌&&◌, ◌||◌, bit_or, Option, none, some, List, [], ◌∷◌,
  ◌++◌, replicate, ltb, ◌==◌, if◌then◌else◌,
}
use serialmux.Common.{
  SubscriptionParams, no_subscription, notification, subscribe, mux_info, ok_code, err_invalid_cmd,
  err_command_timeout, is_picard_api_command, mux_info_payload, write_filter, vector_to_filter,
}
use serialmux.Subscriber.{
  Subscriber, get_subscription, get_unreliable, is_subscribed, set_subscription, reset_filter,
  commit_filter,
}
use serialmux.Mux.{
  MuxMessage, MuxOutput, empty_message, typed_message, size, mux_output, serialize_output,
}
use serialmux.Queue.{SyncQueue, new_queue, clear, push, finish_pop, begin_pop}
use serialmux.Client.{BoostClient, Request, write, close}

-- `EClientResult`.
pub data ClientResult : Type 0 where
  client_ok client_timeout client_disconnect : ClientResult

abbrev pub is_timeout : ClientResult → Bool
is_timeout client_timeout = true
is_timeout client_ok = false
is_timeout client_disconnect = false

abbrev pub is_ok : ClientResult → Bool
is_ok client_ok = true
is_ok client_timeout = false
is_ok client_disconnect = false

-- `SClientCommand`, and its constructors.
pub record ClientCommand : Type 0 where
  pub client : Option ℕ
  pub command : MuxMessage
  pub seq : ℕ
  pub result : ClientResult

unfoldable pub no_command : ClientCommand
unfolding empty_message
no_command = record { client = none; command = empty_message; seq = 0; result = client_timeout }

unfoldable pub client_command : Option ℕ → MuxMessage → ClientCommand
client_command client command = record {
  client = client;
  command = command;
  seq = 0;
  result = client_timeout;
}

-- `MAX_SERIAL_API_CMD_LEN` and `SUBSCRIBE_PARAMS_LENGTH`.
abbrev pub max_serial_api_cmd_len : ℕ
max_serial_api_cmd_len = 128

abbrev pub subscribe_params_length : ℕ
subscribe_params_length = 8

-- `CBoostClientManager`.
pub record ClientManager : Type 0 where
  pub is_running : Bool
  pub clients : List ℕ
  pub store : ℕ → BoostClient
  pub commands : SyncQueue ClientCommand
  pub filter_union : SubscriptionParams
  pub prev_filter : SubscriptionParams
  pub current : ClientCommand
  pub retries : ℕ

-- The constructor, with the clients that there are.
unfoldable pub new_manager : ℕ → (ℕ → BoostClient) → ClientManager
new_manager retries store = record {
  is_running = false;
  clients = [];
  store = store;
  commands = new_queue;
  filter_union = no_subscription;
  prev_filter = no_subscription;
  current = no_command;
  retries = retries;
}

-- What the manager does to others: requests of a client's socket, a command for `sendCommand`
-- with the flag of a retransmission, waking the command loop, `resetConnection`.
pub data Action : Type 0 where
  of_client : ℕ → Request → Action
  send_command : MuxMessage → Bool → Action
  notify_loop : Action
  reset_connection : Action

abbrev pub update : (ℕ → BoostClient) → ℕ → BoostClient → ℕ → BoostClient
update store i c j = if i == j then c else store j

unfoldable pub of_client_all : ℕ → List Request → List Action
of_client_all i [] = []
of_client_all i (r ∷ rs) = of_client i r ∷ of_client_all i rs

-- `closeClients`.
unfoldable pub close_all : List ℕ → (ℕ → BoostClient) → (ℕ → BoostClient) × List Action
unfolding of_client_all
close_all [] store = (store, [])
close_all (i ∷ is) store =
    let (c, asked) = close (store i) in
    let (closed, more) = close_all is (update store i c) in (closed, of_client_all i asked ++ more)

unfoldable pub close_clients : ClientManager → ClientManager × List Action
close_clients m =
    let (closed, actions) = close_all m.clients m.store in
    (record m { store = closed; clients = [] }, actions)

-- `stop`, `addClient` and `addCommand`.
unfoldable pub stop : ClientManager → ClientManager
stop m = record m { is_running = false; commands = clear m.commands }

unfoldable pub add_client : ℕ → ClientManager → ClientManager
add_client i m = record m { clients = m.clients ++ i ∷ [] }

unfoldable pub add_command : Option ℕ → MuxMessage → ClientManager → ClientManager
add_command client command m = record m {
  commands = push m.commands (client_command client command);
}

-- The loop of `recomputeSubscribeFilter`.
unfoldable pub union_filter : (ℕ → BoostClient) → List ℕ → SubscriptionParams → SubscriptionParams
union_filter store [] params = params
union_filter store (i ∷ is) params = union_filter store is (record {
  filter = bit_or params.filter (get_subscription (store i).subscriber);
  unreliable = bit_or params.unreliable (get_unreliable (store i).subscriber);
})

-- `recomputeSubscribeFilter`, with whether the union changed.
unfoldable pub recompute_subscribe_filter : ClientManager → ClientManager × Bool
recompute_subscribe_filter m =
    let union = union_filter m.store m.clients no_subscription in
    (
      record m { prev_filter = m.filter_union; filter_union = union },
      not (union.filter == m.filter_union.filter)
          || not (union.unreliable == m.filter_union.unreliable),
    )

-- `std::find` in the list of clients, and the erasure of what it finds.
unfoldable pub listed : ℕ → List ℕ → Bool
listed i [] = false
listed i (j ∷ js) = j == i || listed i js

unfoldable pub erase : ℕ → List ℕ → List ℕ
erase i [] = []
erase i (j ∷ js) = if j == i then js else j ∷ erase i js

-- `removeClient`: first the command that is under way, then the list.
unfoldable pub disconnect_current : ClientManager → ClientManager × List Action
disconnect_current m = elim m.current.client [
  | none ↦ (m, [])
  | some c ↦
      (record m { current = record m.current { result = client_disconnect } }, notify_loop ∷ [])
]

-- The vector of the new union has eight bytes.
unfoldable pub unlist_client : ℕ → ClientManager → ClientManager
unlist_client i m =
    let (shrunk, changed) = recompute_subscribe_filter (record m { clients = erase i m.clients }) in
    let payload = write_filter shrunk.filter_union (replicate subscribe_params_length 0) in
    if listed i m.clients
    then if changed then add_command none (typed_message subscribe payload) shrunk else shrunk
    else m

unfoldable pub remove_client : ℕ → ClientManager → ClientManager × List Action
remove_client i m = let (q, actions) = disconnect_current m in (unlist_client i q, actions)

-- `sendResponse`.
unfoldable pub send_response : Option ℕ → MuxOutput → List Action
send_response none output = []
send_response (some i) output = of_client i (write (serialize_output output)) ∷ []

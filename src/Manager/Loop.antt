-- ===== src/Manager/Loop.antt =====
-- serial_mux/BoostClientManager.cpp: the steps of `commandLoop`, and the two callbacks of the serial
-- port's thread, `commandComplete` and `handleNotif`.
use serialmux.Prelude.{
  ℕ, suc, Bool, true, not, ◌&&◌, ◌||◌, Option, none, some, List, [], ◌∷◌, ◌++◌, ltb, ◌==◌,
  if◌then◌else◌,
}
use serialmux.Common.{
  notification, subscribe, mux_info, ok_code, err_invalid_cmd, err_command_timeout,
  is_picard_api_command, mux_info_payload, filter_to_vector, vector_to_filter,
}
use serialmux.Subscriber.{is_subscribed, set_subscription, reset_filter, commit_filter, Subscriber}
use serialmux.Mux.{size, mux_output, serialize_output}
use serialmux.Queue.{finish_pop, begin_pop}
use serialmux.Client.{BoostClient, write}
use serialmux.Manager.{
  ClientResult, client_ok, client_timeout, client_disconnect, is_ok, is_timeout, ClientCommand,
  no_command, ClientManager, Action, of_client, notify_loop, reset_connection, update,
  recompute_subscribe_filter, listed, send_response, max_serial_api_cmd_len,
}
use serialmux.Manager

-- Where `commandLoop` stands: at the test of its loop, in `timedPop`, in the wait for the answer to
-- attempt `i` of a command, or behind the loop.
pub data Phase : Type 0 where
  testing popping ended : Phase
  awaiting : ClientCommand → ℕ → Phase

-- What a step of the loop leaves and does.
pub record Turn : Type 0 where
  pub manager : ClientManager
  pub phase : Phase
  pub actions : List Action

-- `sendCommand`, which writes `seq`, the sequence number of the serial port, to the current command.
unfoldable pub send_attempt : ℕ → ClientCommand → ℕ → ClientManager → Turn
send_attempt seq cmd i m = record {
  manager = record m { current = record m.current { seq = seq } };
  phase = awaiting cmd i;
  actions = Manager.send_command cmd.command (not (i == 0)) ∷ [];
}

-- `commandTimeout`.
unfoldable pub command_timeout : Option ℕ → ℕ → ℕ → List Action
command_timeout client cmd_type resp_code =
    send_response client (mux_output cmd_type 0 resp_code []) ++ reset_connection ∷ []

abbrev pub with_subscriber : ℕ → Subscriber → ClientManager → ClientManager
with_subscriber i s m = record m {
  store = update m.store i (record (m.store i) { subscriber = s });
}

-- `commandLoop` behind the loop over the attempts.
unfoldable pub give_up : ℕ → ClientCommand → ClientManager → ClientManager
give_up i cmd m =
    if cmd.command.type == subscribe
    then with_subscriber i (reset_filter (m.store i).subscriber)
        (record m { filter_union = m.prev_filter })
    else m

abbrev pub settled : ClientManager → ClientManager
settled m = record m { current = no_command }

unfoldable pub finish_command : ClientResult → ClientCommand → ClientManager → Turn
finish_command result cmd m = elim cmd.client [
  | none ↦ record { manager = settled m; phase = testing; actions = [] }
  | some i ↦
      if is_ok result
      then record { manager = settled m; phase = testing; actions = [] }
      else record {
        manager = settled (give_up i cmd m);
        phase = testing;
        actions = command_timeout cmd.client cmd.command.type err_command_timeout;
      }
]

-- The loop over the attempts: its first test, and the one behind each wait.
unfoldable pub begin_attempts : ℕ → ClientCommand → ClientManager → Turn
begin_attempts seq cmd m =
    let n = record m { current = cmd } in
    if ltb 0 n.retries then send_attempt seq cmd 0 n else finish_command client_timeout cmd n

unfoldable pub wake : ℕ → ClientCommand → ℕ → ClientManager → Turn
wake seq cmd i m =
    let result = m.current.result in
    if is_timeout result && ltb (suc i) m.retries
    then send_attempt seq cmd (suc i) m
    else finish_command result cmd m

abbrev pub answered : ClientManager → List Action → Turn
answered m actions = record { manager = m; phase = testing; actions = actions }

-- A subscribe command of a client: its payload becomes the union of all subscriptions.
unfoldable pub subscribe_command :
    ℕ → ClientCommand → ClientManager → Option (ClientCommand × ClientManager)
subscribe_command i cmd m = elim (vector_to_filter cmd.command.payload) [
  | none ↦ none
  | some params ↦
      let asked = with_subscriber i (set_subscription params (m.store i).subscriber) m in
      let (q, changed) = recompute_subscribe_filter asked in
      elim (filter_to_vector q.filter_union cmd.command.payload) [
        | none ↦ none
        | some written ↦ some (record cmd { command = record cmd.command { payload = written } }, q)
      ]
]

-- A command that is sent to the manager.
unfoldable pub forward : ℕ → ClientCommand → ClientManager → Option Turn
forward seq cmd m = elim cmd.client [
  | none ↦ some (begin_attempts seq cmd m)
  | some i ↦
      if cmd.command.type == subscribe
      then (elim (subscribe_command i cmd m) [
        | none ↦ none
        | some (rewritten, q) ↦ some (begin_attempts seq rewritten q)
      ])
      else some (begin_attempts seq cmd m)
]

abbrev pub known_client : Option ℕ → List ℕ → Bool
known_client none clients = true
known_client (some i) clients = listed i clients

-- `MUX_INFO` asks the client object for its protocol version, so a null client is undefined.
unfoldable pub info_command : ClientCommand → ClientManager → Option Turn
info_command cmd m = elim cmd.client [
  | none ↦ none
  | some i ↦ some (
      answered m (
        send_response cmd.client
          (mux_output mux_info 0 ok_code (mux_info_payload (m.store i).protocol_version))))
]

-- The body of the loop, with the command that was popped.
unfoldable pub process : ℕ → ClientCommand → ClientManager → Option Turn
process seq cmd m =
    if not (known_client cmd.client m.clients)
    then some (answered m [])
    else if cmd.command.type == mux_info
    then info_command cmd m
    else if not (is_picard_api_command cmd.command.type)
        || ltb max_serial_api_cmd_len (size cmd.command)
    then some
        (answered m (send_response cmd.client (mux_output cmd.command.type 0 err_invalid_cmd [])))
    else forward seq cmd m

-- One step of `commandLoop`; `seq` is the sequence number of the serial port.
unfoldable pub loop_step : ℕ → Phase → ClientManager → Option Turn
loop_step seq testing m = some (
    if m.is_running
    then record {
      manager = record m { commands = begin_pop m.commands };
      phase = popping;
      actions = [];
    }
    else record { manager = m; phase = ended; actions = [] })
loop_step seq popping m =
    let (rest, popped) = finish_pop m.commands in
    let n = record m { commands = rest } in
    elim popped [ none ↦ some (answered n []) | some cmd ↦ process seq cmd n ]
loop_step seq (awaiting cmd i) m = some (wake seq cmd i m)
loop_step seq ended m = some (record { manager = m; phase = ended; actions = [] })

-- The start of `commandLoop`.
unfoldable pub start_loop : ClientManager → ClientManager
start_loop m = record m { is_running = true }

-- `commandComplete`.
unfoldable pub deliver_response : ℕ → ℕ → List ℕ → ClientManager → ClientManager × List Action
deliver_response cmd_type resp_code response m = elim m.current.client [
  | none ↦ (m, [])
  | some i ↦ (
    if cmd_type == subscribe then with_subscriber i (commit_filter (m.store i).subscriber) m else m,
    send_response m.current.client (mux_output cmd_type 0 resp_code response),
  )
]

unfoldable pub command_complete : ℕ → ℕ → ℕ → List ℕ → ClientManager → ClientManager × List Action
command_complete cmd_type seq_no resp_code response m =
    let reset =
      if (cmd_type == subscribe) && not (resp_code == ok_code)
      then record m { filter_union = m.prev_filter }
      else m in
    let done = record reset { current = record reset.current { result = client_ok } } in
    let (q, actions) = deliver_response cmd_type resp_code response done in
    if not (cmd_type == m.current.command.type) || not (seq_no == m.current.seq)
    then (m, [])
    else (q, actions ++ notify_loop ∷ [])

-- `handleNotif`.
unfoldable pub notify_clients : ℕ → List ℕ → (ℕ → BoostClient) → List ℕ → Option (List Action)
notify_clients notif_type payload store [] = some []
notify_clients notif_type payload store (i ∷ is) =
    let rest = notify_clients notif_type payload store is in
    elim (is_subscribed (store i).subscriber notif_type) [
      | none ↦ none
      | some wanted ↦ elim rest [
        | none ↦ none
        | some more ↦ some (
            if wanted
            then of_client i
                (write (serialize_output (mux_output notification 0 notif_type payload)))
              ∷ more
            else more)
      ]
    ]

unfoldable pub handle_notif : ℕ → List ℕ → ClientManager → Option (List Action)
handle_notif notif_type payload m = notify_clients notif_type payload m.store m.clients

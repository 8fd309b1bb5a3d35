-- ===== src/Manager/Refused.antt =====
-- serial_mux/BoostClientManager.cpp: a client's subscription from `commandLoop` to `commandComplete`.
use serialmux.Prelude.{
  ℕ, ◌≤◌, ◌<◌, ◌≡◌, refl, ap, ◌∙◌, false, some, List, [], ◌∷◌, length, ◌==◌, arith, if◌then◌else◌,
  le→ltb, lt→ltb, eq→==,
}
use serialmux.Common.{
  SubscriptionParams, subscribe, ok_code, write_filter, filter_to_vector, vector_to_filter,
  subscribe_filter_match,
}
use serialmux.Subscriber.{is_subscribed, set_subscription, commit_filter}
use serialmux.Manager.{ClientCommand, ClientManager, send_command, recompute_subscribe_filter}
use serialmux.Manager.Loop.{
  Turn, send_attempt, subscribe_command, begin_attempts, forward, deliver_response,
  command_complete,
}
use serialmux.Manager.Asked.{asked, rewritten}

-- The turn that sends the subscription.
abbrev sent : ℕ → ClientCommand → List ℕ → ClientManager → Turn
sent seq cmd written m =
    send_attempt seq (rewritten cmd written) 0 (record m { current = rewritten cmd written })

module _ (seq i : ℕ) (cmd : ClientCommand) (params : SubscriptionParams) (m : ClientManager)
    (of_some : cmd.client ≡ some i) (type_eq : cmd.command.type ≡ subscribe)
    (reads : vector_to_filter cmd.command.payload ≡ some params)
    (room : 8 ≤ length cmd.command.payload) (tries : 0 < m.retries) where
  abbrev union_written : List ℕ
  union_written = write_filter (asked i params m).filter_union cmd.command.payload

  subscribe_command_eq :
      subscribe_command i cmd m ≡ some (rewritten cmd union_written, asked i params m)
  unfolding subscribe_command filter_to_vector
  subscribe_command_eq =
      rw (reads, subscribe_command)
        (rw (le→ltb (length cmd.command.payload) 8 room, subscribe_command) refl)

  begin_attempts_eq :
      begin_attempts seq (rewritten cmd union_written) (asked i params m)
      ≡ sent seq cmd union_written (asked i params m)
  unfolding begin_attempts recompute_subscribe_filter
  begin_attempts_eq = rw (lt→ltb 0 m.retries tries, begin_attempts) refl

  forward-subscribe_command :
      (r : ClientCommand × ClientManager)
      → subscribe_command i cmd m ≡ some r
      → forward seq cmd m ≡ some (begin_attempts seq r.0 r.1)
  unfolding forward
  forward-subscribe_command r e =
      rw (of_some, forward)
        (rw (eq→== cmd.command.type subscribe type_eq, forward) (rw (e, forward) refl))

  forward_eq : forward seq cmd m ≡ some (sent seq cmd union_written (asked i params m))
  forward_eq =
      forward-subscribe_command (rewritten cmd union_written, asked i params m) subscribe_command_eq
      ∙ ap some begin_attempts_eq

  answered_union :
      (code : ℕ) (response : List ℕ)
      → (command_complete subscribe seq code response
          (sent seq cmd union_written (asked i params m)).manager).0.filter_union
        ≡ (if code == ok_code then (asked i params m).filter_union else m.filter_union)
  unfolding command_complete deliver_response send_attempt recompute_subscribe_filter
  answered_union code response = rw of_some (rw type_eq (ground arith))

  answered_subscriber :
      (code : ℕ) (response : List ℕ)
      → ((command_complete subscribe seq code response
            (sent seq cmd union_written (asked i params m)).manager).0.store
          i).subscriber.params
        ≡ params
  unfolding command_complete deliver_response send_attempt recompute_subscribe_filter
      set_subscription commit_filter
  answered_subscriber code response = rw of_some (rw type_eq (ground arith))

-- When a client asks for a subscription, the loop sends the command with the union of all
-- subscriptions as its payload. When the serial port's manager answers that attempt, the client's
-- notifications go by its new subscription whatever the answer's code is: also if the answer refuses
-- it. The union is the new one if the code is OK and the one before if it is not. The command has at
-- least eight bytes and there is at least one attempt.
pub refused_subscription_committed :
    (seq i : ℕ) (cmd : ClientCommand) (params : SubscriptionParams) (m : ClientManager)
    (code notif_type : ℕ) (response : List ℕ)
    → cmd.client ≡ some i
    → cmd.command.type ≡ subscribe
    → vector_to_filter cmd.command.payload ≡ some params
    → 8 ≤ length cmd.command.payload
    → 0 < m.retries
    → (t : Turn) × (written : List ℕ) × (forward seq cmd m ≡ some t)
      × (filter_to_vector (asked i params m).filter_union cmd.command.payload ≡ some written)
      × (t.actions ≡ send_command (record cmd.command { payload = written }) false ∷ [])
      × ((command_complete subscribe seq code response t.manager).0.filter_union
          ≡ (if code == ok_code then (asked i params m).filter_union else m.filter_union))
      × (is_subscribed
            ((command_complete subscribe seq code response t.manager).0.store i).subscriber
            notif_type
          ≡ subscribe_filter_match params notif_type)
refused_subscription_committed seq i cmd params m code notif_type response of type_eq reads room
      tries =
    (
      sent seq cmd (union_written seq i cmd params m of type_eq reads room tries)
          (asked i params m),
      union_written seq i cmd params m of type_eq reads room tries,
      forward_eq seq i cmd params m of type_eq reads room tries,
      unfold filter_to_vector in rw (le→ltb (length cmd.command.payload) 8 room) refl,
      unfold send_attempt in refl,
      answered_union seq i cmd params m of type_eq reads room tries code response,
      unfold is_subscribed in
          ap (λ p. subscribe_filter_match p notif_type)
            (answered_subscriber seq i cmd params m of type_eq reads room tries code response),
    )

-- ===== src/Manager/Notifications.antt =====
-- `handleNotif`: which clients get a notification, and what they make of it.
use serialmux.Prelude.{
  ℕ, zero, suc, ◌+◌, ◌^◌, ◌<◌, ◌≡◌, refl, ap, sym, ap₂, ◌∙◌, Bool, true, false, not, Bool-cases,
  inl, inr, some, List, [], ◌∷◌, ◌++◌, flatten, replicate, All, length, ◌==◌, arith, if◌then◌else◌,
  ==→eq, lt→ltb, bit_and,
}
use serialmux.Common.{notification, subscribe_filter_match}
use serialmux.Subscriber.{is_subscribed}
use serialmux.Mux.{MuxMessage, new_parser, read_all, mux_output, serialize_output, serialize}
use serialmux.Client.{BoostClient, write}
use serialmux.Manager.{ClientManager, Action, of_client}
use serialmux.Manager.Loop.{notify_clients, handle_notif}
use serialmux.Mux.Framing.{Fits, stream, read_all-stream, serialize_output-serialize}

-- How often a client stands in a list.
pub count : ℕ → List ℕ → ℕ
count i [] = 0
count i (j ∷ js) = let rest = count i js in if j == i then suc rest else rest

-- Whether the client's current subscription has the type's bit.
abbrev pub wants : BoostClient → ℕ → Bool
wants c notif_type = not (bit_and c.subscriber.params.filter (2 ^ notif_type) == 0)

-- What is written to client `i`, write by write.
unfoldable pub written : ℕ → List Action → List (List ℕ)
written i [] = []
written i (of_client j (write bytes) ∷ rs) =
    let rest = written i rs in if j == i then bytes ∷ rest else rest
written i (r ∷ rs) = written i rs

module _ (notif_type : ℕ) (payload : List ℕ) where
  -- The notification as a client reads it.
  abbrev pub notice : MuxMessage
  notice = record { payload = notif_type ∷ payload; type = notification; id = 0 }

  deliveries : (ℕ → BoostClient) → List ℕ → List Action
  deliveries store [] = []
  deliveries store (i ∷ is) =
      let rest = deliveries store is in
      if wants (store i) notif_type
      then of_client i (write (serialize_output (mux_output notification 0 notif_type payload)))
        ∷ rest
      else rest

  is_subscribed-wants :
      (c : BoostClient)
      → notif_type < 32
      → is_subscribed c.subscriber notif_type ≡ some (wants c notif_type)
  unfolding is_subscribed subscribe_filter_match
  is_subscribed-wants c h = rw (lt→ltb notif_type 32 h) refl

  notify_clients-deliveries :
      (store : ℕ → BoostClient) (is : List ℕ)
      → notif_type < 32
      → notify_clients notif_type payload store is ≡ some (deliveries store is)
  unfolding notify_clients deliveries
  notify_clients-deliveries store [] h = refl
  notify_clients-deliveries store (i ∷ is) h =
      ground (arith, is_subscribed-wants (store i) h, notify_clients-deliveries store is h)

  -- How often client `i` gets it.
  abbrev pub times : ClientManager → ℕ → ℕ
  times m i = if wants (m.store i) notif_type then count i m.clients else 0

  written-deliveries :
      (store : ℕ → BoostClient) (i : ℕ) (is : List ℕ)
      → written i (deliveries store is)
        ≡ replicate (if wants (store i) notif_type then count i is else 0) (serialize notice)
  unfolding written deliveries count
  written-deliveries store i [] = ground arith
  written-deliveries store i (j ∷ js) = elim (Bool-cases (wants (store j) notif_type)) [
    | inl w ↦ elim (Bool-cases (j == i)) [
      | inl e ↦
          let here : wants (store i) notif_type ≡ true =
            ap (λ k. wants (store k) notif_type) (sym (==→eq j i e)) ∙ w in
          simp (w, e, here)
            (ap₂ ◌∷◌ (serialize_output-serialize notification 0 notif_type payload)
              (written-deliveries store i js ∙ rw here refl))
      | inr e ↦ simp (w, e) (written-deliveries store i js)
    ]
    | inr w ↦ elim (Bool-cases (j == i)) [
      | inl e ↦
          let here : wants (store i) notif_type ≡ false =
            ap (λ k. wants (store k) notif_type) (sym (==→eq j i e)) ∙ w in
          simp (w, e, here) (written-deliveries store i js ∙ rw here refl)
      | inr e ↦ simp (w, e) (written-deliveries store i js)
    ]
  ]

  stream-replicate :
      (n : ℕ) → stream (replicate n notice) ≡ flatten (replicate n (serialize notice))
  unfolding stream
  stream-replicate zero = refl
  stream-replicate (suc n) = ap (◌++◌ (serialize notice)) (stream-replicate n)

  replicate-All : (n : ℕ) → Fits notice → All Fits (replicate n notice)
  replicate-All zero f = tt
  replicate-All (suc n) f = (f, replicate-All n f)

  -- A notification of a type below 32, with a payload that fits, reaches each client as often as it
  -- stands in the manager's list if its current subscription has the type's bit, and not at all
  -- otherwise: what is written to it parses as that many messages of type `NOTIFICATION` with the
  -- notification type before the payload, and no other.
  pub handle_notif_delivers :
      (m : ClientManager) (i : ℕ)
      → notif_type < 32
      → length payload + 4 < 65536
      → (actions : List Action) × (handle_notif notif_type payload m ≡ some actions)
        × ((read_all (new_parser true) (written i actions)).1 ≡ replicate (times m i) notice)
  unfolding handle_notif
  handle_notif_delivers m i h fits =
      let sent = written-deliveries m.store i m.clients in
      (
        deliveries m.store m.clients,
        notify_clients-deliveries m.store m.clients h,
        read_all-stream (written i (deliveries m.store m.clients)) (replicate (times m i) notice)
            (replicate-All (times m i) (record { id-lt = omega arith; short = omega arith }))
            (ap flatten sent ∙ sym (stream-replicate (times m i))),
      )

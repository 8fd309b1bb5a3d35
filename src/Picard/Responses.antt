-- ===== src/Picard/Responses.antt =====
-- The responses to commands that `frameComplete` hands to the callback.
use serialmux.Prelude.{
  ℕ, ◌<◌, bit_and, Bool, true, false, ◌&&◌, ◌≡◌, ◌↔◌, inl, inr, refl, sym, ap, subst, ◌∙◌, List, [],
  ◌∷◌, ◌==◌, arith, get_or, drop, Bool-cases,
}
use serialmux.Picard.{
  BasePicardIo, Event, send_raw, notify_connect, reset_connection, handle_notif, command_complete,
  frame_complete, hello_response_complete, mgr_hello_complete, notification_complete,
  response_complete, send_ack,
}
use serialmux.Picard.Frames.{
  api_frame, IsWhole, branch, ignored, hello_response_in, mgr_hello_in, notification_in,
  response_in, whole-api_frame, responds,
}

-- Whether the first event is a response.
begins_response : List Event → Bool
begins_response (command_complete t s r payload ∷ events) = true
begins_response (send_raw bytes ∷ events) = false
begins_response (notify_connect ∷ events) = false
begins_response (reset_connection ∷ events) = false
begins_response (handle_notif t payload ∷ events) = false
begins_response [] = false

pub api_frame-IsWhole : (c t s f : ℕ) (payload : List ℕ) → IsWhole (api_frame c t s f payload)
api_frame-IsWhole c t s f payload = record { long-lt = omega arith; whole_eq = omega arith }

-- Two events with the same response have the same fields.
module _ {t t' s s' r r' : ℕ} {payload payload' : List ℕ} where
  fields_of :
      (command_complete t s r payload ∷ []) ≡ (command_complete t' s' r' payload' ∷ [])
      → (t ≡ t') × (s ≡ s') × (r ≡ r') × (payload ≡ payload')
  fields_of e = ground arith

hello-begins_response :
    (p : BasePicardIo) (frame : List ℕ)
    → begins_response (hello_response_complete p frame).1 ≡ false
unfolding hello_response_complete begins_response
hello-begins_response p frame =
    elim (Bool-cases ((get_or frame 0 0 == 0) && (get_or frame 4 0 == 0))) [
      | inl good ↦ elim (Bool-cases p.connected) [
        | inl e ↦ rw (good, e) refl
        | inr e ↦ rw (good, e) refl
      ]
      | inr bad ↦ rw bad refl
    ]

mgr_hello-begins_response :
    (p : BasePicardIo) (frame : List ℕ) → begins_response (mgr_hello_complete p frame).1 ≡ false
unfolding mgr_hello_complete begins_response
mgr_hello-begins_response p frame = elim (Bool-cases p.connected) [
  | inl e ↦ rw e refl
  | inr e ↦ rw e refl
]

notification-begins_response :
    (p : BasePicardIo) (frame : List ℕ) → begins_response (notification_complete p frame).1 ≡ false
unfolding notification_complete send_ack begins_response
notification-begins_response p frame = elim (Bool-cases (bit_and (get_or frame 0 0) 2 == 0)) [
  | inl e ↦ elim (Bool-cases p.has_callback) [ inl c ↦ rw (e, c) refl | inr c ↦ rw (e, c) refl ]
  | inr e ↦ rw e refl
]

-- A frame whose events begin with a response is a whole one that takes the last branch.
responds_only :
    (p : BasePicardIo) (frame : List ℕ)
    → begins_response (frame_complete p frame).1 ≡ true
    → IsWhole frame × (20 < get_or frame 1 0) × (get_or frame 0 0 ≡ 3)
unfolding begins_response
responds_only p frame h = elim (branch frame) [
  | ignored e ↦ not_so (e p) refl
  | hello_response_in w t l e ↦ not_so (e p) (hello-begins_response p frame)
  | mgr_hello_in w t e ↦ not_so (e p) (mgr_hello-begins_response p frame)
  | notification_in w t e ↦ not_so (e p) (notification-begins_response p frame)
  | response_in w t c e ↦ (w, t, c)
]
  where
    not_so :
        {r : BasePicardIo × List Event}
        → frame_complete p frame ≡ r
        → begins_response r.1 ≡ false
        → IsWhole frame × (20 < get_or frame 1 0) × (get_or frame 0 0 ≡ 3)
    not_so e f =
        let clash : true ≡ false = sym h ∙ ap (λ r. begins_response r.1) e ∙ f in
        absurd (ground arith)

response_events :
    (p : BasePicardIo) (frame : List ℕ)
    → p.has_callback ≡ true
    → (response_complete p frame).1
      ≡ command_complete (get_or frame 1 0) (get_or frame 2 0) (get_or frame 4 0) (drop 5 frame)
        ∷ []
unfolding response_complete
response_events p frame c = rw c refl

without_callback :
    (p : BasePicardIo) (frame : List ℕ)
    → p.has_callback ≡ false
    → begins_response (response_complete p frame).1 ≡ false
unfolding response_complete begins_response
without_callback p frame c = rw c refl

-- A frame makes the callback's `commandComplete` with type `t`, sequence number `s`, code `r` and
-- a payload exactly if a callback is registered, the type is above `NOTIFICATION`, and the frame
-- is the Serial API frame with control byte 3 and these contents, whose length byte counts the
-- code and the payload. Nothing else happens then.
pub frame_complete_responds_iff :
    (p : BasePicardIo) (frame : List ℕ) (t s r : ℕ) (payload : List ℕ)
    → ((frame_complete p frame).1 ≡ command_complete t s r payload ∷ [])
      ↔ ((p.has_callback ≡ true) × (20 < t) × (frame ≡ api_frame 3 t s r payload))
unfolding begins_response
frame_complete_responds_iff p frame t s r payload = (only, responds_to)
  where
    only :
        (frame_complete p frame).1 ≡ command_complete t s r payload ∷ []
        → (p.has_callback ≡ true) × (20 < t) × (frame ≡ api_frame 3 t s r payload)
    only e =
        let (w, big, three) = responds_only p frame (ap begins_response e) in
        let same : (response_complete p frame).1 ≡ command_complete t s r payload ∷ [] =
          sym (ap (λ x. x.1) (responds p frame w big three)) ∙ e in
        elim (Bool-cases p.has_callback) [
          | inl c ↦
              let (te, se, re, pe) = fields_of (sym (response_events p frame c) ∙ same) in
              (
                c,
                subst (λ n. 20 < n) te big,
                whole-api_frame frame w ∙ (λ i. api_frame (three i) (te i) (se i) (re i) (pe i)),
              )
          | inr c ↦
              let none_at_all : false ≡ true =
                sym (without_callback p frame c) ∙ ap begins_response same in
              absurd (ground arith)
        ]

    responds_to :
        (p.has_callback ≡ true) × (20 < t) × (frame ≡ api_frame 3 t s r payload)
        → (frame_complete p frame).1 ≡ command_complete t s r payload ∷ []
    responds_to (c, big, e) =
        ap (λ f. (frame_complete p f).1) e
        ∙ ap (λ x. x.1)
            (responds p (api_frame 3 t s r payload) (api_frame-IsWhole 3 t s r payload) big refl)
        ∙ response_events p (api_frame 3 t s r payload) c

-- ===== src/Picard/Link.antt =====
-- `CBasePicardIO` behind its HDLC parser: bytes of the serial port in, events out.
use serialmux.Prelude.{
  ℕ, ◌<◌, true, Bool-cases, inl, inr, ◌≡◌, refl, sym, ap, ◌∙◌, List, [], ◌∷◌, ◌++◌, length, ◌==◌,
  arith, get_or, All, some, append_assoc, bit_and, ◌&&◌,
}
use serialmux.Hdlc.{Chdlc, hdlc_packet_complete, create, reset, add_byte, feed}
use serialmux.Hdlc.Fcs.{AreBytes}
use serialmux.Hdlc.RoundTrip.{packets, feed-packets}
use serialmux.Picard.{
  BasePicardIo, Event, frame_complete, frames_complete, hello_response_complete, mgr_hello_complete,
  notification_complete, response_complete, record_version, send_ack, input_buffer_len,
  start_parser, read_byte, read_bytes, check_protocol,
}
use serialmux.Picard.Frames.{
  branch, ignored, hello_response_in, mgr_hello_in, notification_in, response_in,
}

abbrev pub with_parser : Chdlc → BasePicardIo → BasePicardIo
with_parser q p = record p { hdlc = some q }

-- What `frameComplete` returns, with another parser.
abbrev pub reparsed : Chdlc → BasePicardIo × List Event → BasePicardIo × List Event
reparsed q (p, events) = (with_parser q p, events)

record_version-with_parser :
    (p : BasePicardIo) (q : Chdlc) (v : ℕ)
    → record_version (with_parser q p) v ≡ with_parser q (record_version p v)
unfolding record_version
record_version-with_parser p q v = elim (Bool-cases (check_protocol v)) [
  | inl e ↦ rw e refl
  | inr e ↦ rw e refl
]

hello-with_parser :
    (p : BasePicardIo) (q : Chdlc) (frame : List ℕ)
    → hello_response_complete (with_parser q p) frame ≡ reparsed q (hello_response_complete p frame)
unfolding hello_response_complete
hello-with_parser p q frame =
    let recorded = record_version-with_parser p q (get_or frame 5 0) in
    elim (Bool-cases ((get_or frame 0 0 == 0) && (get_or frame 4 0 == 0))) [
      | inl e ↦ rw (recorded, e) refl
      | inr e ↦ rw (recorded, e) refl
    ]

notification-with_parser :
    (p : BasePicardIo) (q : Chdlc) (frame : List ℕ)
    → notification_complete (with_parser q p) frame ≡ reparsed q (notification_complete p frame)
unfolding notification_complete send_ack
notification-with_parser p q frame = elim (Bool-cases (bit_and (get_or frame 0 0) 2 == 0)) [
  | inl e ↦ rw e refl
  | inr e ↦ rw e refl
]

-- `frameComplete` neither looks at the parser nor changes it.
frame_complete-with_parser :
    (p : BasePicardIo) (q : Chdlc) (frame : List ℕ)
    → frame_complete (with_parser q p) frame ≡ reparsed q (frame_complete p frame)
unfolding mgr_hello_complete response_complete
frame_complete-with_parser p q frame = elim (branch frame) [
  | ignored e ↦ both e refl
  | hello_response_in w t l e ↦ both e (hello-with_parser p q frame)
  | mgr_hello_in w t e ↦ both e (rw (record_version-with_parser p q (get_or frame 4 0)) refl)
  | notification_in w t e ↦ both e (notification-with_parser p q frame)
  | response_in w t c e ↦ both e refl
]
  where
    both :
        {r : BasePicardIo → BasePicardIo × List Event}
        → ((p : BasePicardIo) → frame_complete p frame ≡ r p)
        → r (with_parser q p) ≡ reparsed q (r p)
        → frame_complete (with_parser q p) frame ≡ reparsed q (frame_complete p frame)
    both e same = e (with_parser q p) ∙ same ∙ ap (reparsed q) (sym (e p))

frames_complete-with_parser :
    (p : BasePicardIo) (q : Chdlc) (frames : List (List ℕ))
    → frames_complete (with_parser q p) frames ≡ reparsed q (frames_complete p frames)
unfolding frames_complete
frames_complete-with_parser p q [] = refl
frames_complete-with_parser p q (frame ∷ frames) =
    let rest = frames_complete-with_parser (frame_complete p frame).0 q frames in
    rw (frame_complete-with_parser p q frame, rest) refl

frames_complete-append :
    (p : BasePicardIo) (xs ys : List (List ℕ))
    → frames_complete p (xs ++ ys) ≡ (
      (frames_complete (frames_complete p xs).0 ys).0,
      (frames_complete p xs).1 ++ (frames_complete (frames_complete p xs).0 ys).1,
    )
unfolding frames_complete
frames_complete-append p [] ys = refl
frames_complete-append p (x ∷ xs) ys =
    let rest = frames_complete-append (frame_complete p x).0 xs ys in
    let done = frames_complete (frame_complete p x).0 xs in
    rw rest (λ i. (
      (frames_complete done.0 ys).0,
      sym (append_assoc (frame_complete p x).1 done.1 (frames_complete done.0 ys).1) i,
    ))

-- Reading bytes while the parser is `q` has the effect of the frames that `q` makes of them, in
-- order, and leaves the parser as `q` is after them.
pub read_bytes-feed :
    (p : BasePicardIo) (q : Chdlc) (input : List ℕ)
    → read_bytes (with_parser q p) input
      ≡ reparsed (feed q input).0 (frames_complete p (feed q input).1)
unfolding read_bytes read_byte feed frames_complete
read_bytes-feed p q [] = refl
read_bytes-feed p q (b ∷ input) =
    let (q2, frames) = add_byte q b in
    let here = frames_complete-with_parser p q2 frames in
    let rest = read_bytes-feed (frames_complete p frames).0 q2 input in
    rw (here, rest, frames_complete-append p frames (feed q2 input).1) refl

-- The frames of a manager that come in as HDLC packets on a fresh parser have the effect that they
-- have as frames, one after the other.
pub read_bytes-packets :
    (p : BasePicardIo) (srcs : List (List ℕ))
    → All (λ src. AreBytes src × (0 < length src)) srcs
    → (read_bytes (start_parser p) (packets srcs)).1 ≡ (frames_complete p srcs).1
read_bytes-packets p srcs h =
    let fresh = create input_buffer_len true hdlc_packet_complete 0 in
    ap (λ r. r.1) (read_bytes-feed p fresh (packets srcs))
    ∙ ap (λ frames. (frames_complete p frames).1)
        (feed-packets fresh srcs (unfold create reset in refl) (unfold create reset in refl)
          (unfold create reset in omega arith) h)

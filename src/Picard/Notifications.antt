-- ===== src/Picard/Notifications.antt =====
-- The notifications that `frameComplete` acknowledges and hands to the callback.
use serialmux.Prelude.{
  ℕ, ◌+◌, ◌%◌, ◌≤◌, ◌<◌, bit_and, true, ◌≡◌, ◌≢◌, refl, ◌∙◌, List, [], ◌∷◌, ◌++◌, length, arith,
  ne→==,
}
use serialmux.Picard.{
  BasePicardIo, Event, send_raw, handle_notif, frame_complete, frames_complete,
  notification_complete, send_ack,
}
use serialmux.Picard.Frames.{api_frame, notifies}
use serialmux.Picard.Responses.{api_frame-IsWhole}

-- A notification is reliable if bit 1 of its control byte is set, and none if bit 0 is.
pub record IsReliable (control : ℕ) : Type 0 where
  pub request_eq : bit_and control 1 ≡ 0
  pub reliable-ne : bit_and control 2 ≢ 0

-- The state after a notification with sequence number `s`.
abbrev pub noted : BasePicardIo → ℕ → BasePicardIo
noted p s = record p { mgr_seq_no = s }

-- What a reliable notification does: the acknowledgement, then the callback.
abbrev pub acked : ℕ → ℕ → List ℕ → List Event
acked s type payload = send_raw (3 ∷ 20 ∷ s ∷ 1 ∷ 0 ∷ []) ∷ handle_notif type payload ∷ []

-- A reliable notification is acknowledged before the callback gets it, whatever sequence number
-- came last: the acknowledgement moves the expected number away from the one at hand.
pub reliable-acked :
    (p : BasePicardIo) (control s type : ℕ) (payload : List ℕ)
    → p.has_callback ≡ true
    → IsReliable control
    → s < 256
    → 1 ≤ length payload
    → frame_complete p (api_frame control 20 s type payload) ≡ (noted p s, acked s type payload)
unfolding notification_complete send_ack
reliable-acked p control s type payload c r h nonempty =
    notifies p (api_frame control 20 s type payload) (api_frame-IsWhole control 20 s type payload)
      refl r.request_eq (omega arith)
    ∙ rw (ne→== (bit_and control 2) 0 r.reliable-ne, c, ne→== ((s + 1) % 256) s (λ e. omega arith))
        refl

-- A reliable notification that comes twice with the same sequence number, with nothing in between,
-- goes to the callback twice and is acknowledged twice, whatever the state is.
pub duplicate-delivered :
    (p : BasePicardIo) (control s type : ℕ) (payload : List ℕ)
    → p.has_callback ≡ true
    → IsReliable control
    → s < 256
    → 1 ≤ length payload
    → (frames_complete p
        (api_frame control 20 s type payload ∷ api_frame control 20 s type payload ∷ [])).1
      ≡ acked s type payload ++ acked s type payload
unfolding frames_complete
duplicate-delivered p control s type payload c r h nonempty =
    rw
      (
        reliable-acked p control s type payload c r h nonempty,
        reliable-acked (noted p s) control s type payload c r h nonempty,
      )
      refl

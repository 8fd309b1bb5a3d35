-- ===== src/Picard/Frames.antt =====
-- The frames that `frameComplete` acts on, and which of its branches takes which frame.
use serialmux.Prelude.{
  ℕ, suc, ◌+◌, ◌≤◌, ◌<◌, bit_and, true, false, ◌≡◌, ◌≢◌, inl, inr, refl, List, [], ◌∷◌, length, ltb,
  leb, ◌==◌, arith, lt→ltb, le→leb, eq→==, ne→==, ◌&&◌, get_or, drop, Bool-cases, ltb→lt, ==→eq,
}
use serialmux.Picard.{
  BasePicardIo, frame_complete, hello_response_complete, mgr_hello_complete, notification_complete,
  response_complete,
}

-- A Serial API frame with a payload, its first byte apart.
abbrev pub api_frame : ℕ → ℕ → ℕ → ℕ → List ℕ → List ℕ
api_frame control type seq_no first payload =
    control ∷ type ∷ seq_no ∷ suc (length payload) ∷ first ∷ payload

-- The length byte counts what follows the header, and that is not empty.
pub record IsWhole (frame : List ℕ) : Type 0 where
  pub long-lt : 4 < length frame
  pub whole_eq : get_or frame 3 0 + 4 ≡ length frame

-- Which branch takes a frame of the right form.
pub data Branch (frame : List ℕ) : Type 0 where
  ignored : ((p : BasePicardIo) → frame_complete p frame ≡ (p, [])) → Branch frame
  hello_response_in :
      IsWhole frame
      → get_or frame 1 0 ≡ 2
      → 5 ≤ get_or frame 3 0
      → ((p : BasePicardIo) → frame_complete p frame ≡ hello_response_complete p frame)
      → Branch frame
  mgr_hello_in :
      IsWhole frame
      → get_or frame 1 0 ≡ 3
      → ((p : BasePicardIo) → frame_complete p frame ≡ mgr_hello_complete p frame)
      → Branch frame
  notification_in :
      IsWhole frame
      → get_or frame 1 0 ≡ 20
      → ((p : BasePicardIo) → frame_complete p frame ≡ notification_complete p frame)
      → Branch frame
  response_in :
      IsWhole frame
      → 20 < get_or frame 1 0
      → get_or frame 0 0 ≡ 3
      → ((p : BasePicardIo) → frame_complete p frame ≡ response_complete p frame)
      → Branch frame

pub branch : (frame : List ℕ) → Branch frame
unfolding frame_complete
branch frame = elim (Bool-cases (ltb 4 (length frame))) [
  | inr e ↦ ignored (λ p. rw e refl)
  | inl e ↦
      let long : 4 < length frame = ltb→lt 4 (length frame) e in
      elim (Bool-cases (get_or frame 3 0 + 4 == length frame)) [
        | inr w ↦ ignored (λ p. rw (e, w) refl)
        | inl w ↦
            let whole : IsWhole frame = record {
              long-lt = long;
              whole_eq = ==→eq (get_or frame 3 0 + 4) (length frame) w;
            } in
            elim (Bool-cases ((get_or frame 1 0 == 2) && leb 5 (get_or frame 3 0))) [
              | inl a ↦
                  hello_response_in whole (ground arith) (ground arith) (λ p. rw (e, w, a) refl)
              | inr a ↦ elim (Bool-cases ((get_or frame 1 0 == 3) && leb 2 (get_or frame 3 0))) [
                | inl b ↦ mgr_hello_in whole (ground arith) (λ p. rw (e, w, a, b) refl)
                | inr b ↦
                    elim (Bool-cases (
                      (get_or frame 1 0 == 20)
                      && (bit_and (get_or frame 0 0) 1 == 0)
                      && ltb 1 (get_or frame 3 0))) [
                        | inl c ↦
                            notification_in whole (ground arith) (λ p. rw (e, w, a, b, c) refl)
                        | inr c ↦
                            elim (Bool-cases (
                              ltb 20 (get_or frame 1 0)
                              && leb 1 (get_or frame 3 0)
                              && (get_or frame 0 0 == 3))) [
                                | inl d ↦
                                    response_in whole (ground arith) (ground arith)
                                      (λ p. rw (e, w, a, b, c, d) refl)
                                | inr d ↦ ignored (λ p. rw (e, w, a, b, c, d) refl)
                              ]
                      ]
              ]
            ]
      ]
]

-- Such a frame has the form above.
pub whole-api_frame :
    (frame : List ℕ)
    → IsWhole frame
    → frame
      ≡ api_frame
          (get_or frame 0 0)
          (get_or frame 1 0)
          (get_or frame 2 0)
          (get_or frame 4 0)
          (drop 5 frame)
whole-api_frame [] w = absurd (omega (arith, w.long-lt))
whole-api_frame (c ∷ []) w = absurd (omega (arith, w.long-lt))
whole-api_frame (c ∷ t ∷ []) w = absurd (omega (arith, w.long-lt))
whole-api_frame (c ∷ t ∷ s ∷ []) w = absurd (omega (arith, w.long-lt))
whole-api_frame (c ∷ t ∷ s ∷ len ∷ []) w = absurd (omega (arith, w.long-lt))
whole-api_frame (c ∷ t ∷ s ∷ len ∷ first ∷ payload) w = λ i. c ∷ t ∷ s ∷ size i ∷ first ∷ payload
  where
    size : len ≡ suc (length payload)
    size = let e : len + 4 ≡ length (c ∷ t ∷ s ∷ len ∷ first ∷ payload) = w.whole_eq in omega arith

-- What decides the branch of such a frame.
module _ (p : BasePicardIo) (frame : List ℕ) (w : IsWhole frame) where
  long : ltb 4 (length frame) ≡ true
  long = lt→ltb 4 (length frame) w.long-lt

  whole : (get_or frame 3 0 + 4 == length frame) ≡ true
  whole = eq→== (get_or frame 3 0 + 4) (length frame) w.whole_eq

  not_type : (t : ℕ) → get_or frame 1 0 ≢ t → (get_or frame 1 0 == t) ≡ false
  not_type t h = ne→== (get_or frame 1 0) t h

  pub hello_responds :
      get_or frame 1 0 ≡ 2
      → 5 ≤ get_or frame 3 0
      → frame_complete p frame ≡ hello_response_complete p frame
  unfolding frame_complete
  hello_responds e h =
      rw (long, whole, eq→== (get_or frame 1 0) 2 e, le→leb 5 (get_or frame 3 0) h) refl

  pub mgr_hello_resets :
      get_or frame 1 0 ≡ 3
      → 2 ≤ get_or frame 3 0
      → frame_complete p frame ≡ mgr_hello_complete p frame
  unfolding frame_complete
  mgr_hello_resets e h =
      rw
        (
          long,
          whole,
          not_type 2 (λ d. omega arith),
          eq→== (get_or frame 1 0) 3 e,
          le→leb 2 (get_or frame 3 0) h,
        )
        refl

  pub notifies :
      get_or frame 1 0 ≡ 20
      → bit_and (get_or frame 0 0) 1 ≡ 0
      → 2 ≤ get_or frame 3 0
      → frame_complete p frame ≡ notification_complete p frame
  unfolding frame_complete
  notifies e even h =
      rw
        (
          long,
          whole,
          not_type 2 (λ d. omega arith),
          not_type 3 (λ d. omega arith),
          eq→== (get_or frame 1 0) 20 e,
          eq→== (bit_and (get_or frame 0 0) 1) 0 even,
          lt→ltb 1 (get_or frame 3 0) (omega arith),
        )
        refl

  pub responds :
      20 < get_or frame 1 0
      → get_or frame 0 0 ≡ 3
      → frame_complete p frame ≡ response_complete p frame
  unfolding frame_complete
  responds big e =
      let nonempty : 4 < length frame = w.long-lt in
      let counted : get_or frame 3 0 + 4 ≡ length frame = w.whole_eq in
      rw
        (
          long,
          whole,
          not_type 2 (λ d. omega arith),
          not_type 3 (λ d. omega arith),
          not_type 20 (λ d. omega arith),
          lt→ltb 20 (get_or frame 1 0) big,
          le→leb 1 (get_or frame 3 0) (omega arith),
          eq→== (get_or frame 0 0) 3 e,
        )
        refl

-- ===== src/Picard/Invariant.antt =====
-- What every step of `CBasePicardIO` keeps, and when the connection comes up.
use serialmux.Prelude.{
  ℕ, zero, suc, ◌≤◌, ◌<◌, bit_and, Bool, true, ◌&&◌, ◌≡◌, ◌⊎◌, ◌↔◌, inl, inr, refl, sym, ap, ◌∙◌,
  List, [], ◌∷◌, ◌==◌, arith, All, get_or, Bool-cases, eq→==,
}
use serialmux.Picard.{
  BasePicardIo, Event, start, stop, cleanup, register_callback, start_parser, frame_complete,
  hello_response_complete, mgr_hello_complete, notification_complete, response_complete,
  check_protocol, is_known, record_version, send_ack,
}
use serialmux.Picard.Frames.{
  hello_responds, IsWhole, branch, ignored, hello_response_in, mgr_hello_in, notification_in,
  response_in,
}

-- A protocol version that was recorded is a known one, and the sequence numbers are bytes.
pub record IsSound (p : BasePicardIo) : Type 0 where
  pub version_eq : (p.protocol_version ≡ 0) ⊎ (p.protocol_version ≡ 3) ⊎ (p.protocol_version ≡ 4)
  pub seq-lt : p.seq_no < 256
  pub mgr_seq-lt : p.mgr_seq_no < 256

-- What happens to `CBasePicardIO`, one call after the other.
pub data Step : Type 0 where
  starts stops cleans_up starts_parser : Step
  registers : Bool → Step
  acks : ℕ → ℕ → Step
  completes : List ℕ → Step

pub step : Step → BasePicardIo → BasePicardIo
step starts p = start p
step stops p = stop p
step cleans_up p = cleanup p
step starts_parser p = start_parser p
step (registers handler) p = register_callback handler p
step (acks type seq_no) p = (send_ack p type seq_no).0
step (completes frame) p = (frame_complete p frame).0

pub steps : List Step → BasePicardIo → BasePicardIo
unfolding step
steps [] p = p
steps (s ∷ rest) p = steps rest (step s p)

-- The frames of a step are bytes.
abbrev pub HasBytes : Step → Type 0
HasBytes (completes frame) = All (λ b. b < 256) frame
HasBytes starts = Unit
HasBytes stops = Unit
HasBytes cleans_up = Unit
HasBytes starts_parser = Unit
HasBytes (registers handler) = Unit
HasBytes (acks type seq_no) = Unit

get_or-lt : (xs : List ℕ) (i : ℕ) → All (λ b. b < 256) xs → get_or xs i 0 < 256
get_or-lt [] i h = omega arith
get_or-lt (x ∷ xs) zero (h, hs) = h
get_or-lt (x ∷ xs) (suc i) (h, hs) = get_or-lt xs i hs

known_versions : (v : ℕ) → check_protocol v ≡ true → (v ≡ 3) ⊎ (v ≡ 4)
unfolding check_protocol is_known
known_versions v h = ground arith

record_version-IsSound : (p : BasePicardIo) (v : ℕ) → IsSound p → IsSound (record_version p v)
unfolding record_version
record_version-IsSound p v s = elim (Bool-cases (check_protocol v)) [
  | inl e ↦ rw e (record {
    version_eq = inr (known_versions v e);
    seq-lt = s.seq-lt;
    mgr_seq-lt = s.mgr_seq-lt;
  })
  | inr e ↦ rw e s
]

frame_complete-IsSound :
    (p : BasePicardIo) (frame : List ℕ)
    → All (λ b. b < 256) frame
    → IsSound p
    → IsSound (frame_complete p frame).0
unfolding hello_response_complete mgr_hello_complete notification_complete response_complete
    send_ack
frame_complete-IsSound p frame bytes s = elim (branch frame) [
  | ignored e ↦ rw (e p) s
  | hello_response_in w t h e ↦
      rw e (elim (Bool-cases ((get_or frame 0 0 == 0) && (get_or frame 4 0 == 0))) [
        | inl good ↦ rw good (record {
          version_eq = recorded.version_eq;
          seq-lt = omega arith;
          mgr_seq-lt = get_or-lt frame 6 bytes;
        })
        | inr bad ↦ rw bad recorded
      ])
  | mgr_hello_in w t e ↦ rw (e p) (record_version-IsSound p (get_or frame 4 0) s)
  | notification_in w t e ↦ rw e (elim (Bool-cases (bit_and (get_or frame 0 0) 2 == 0)) [
    | inl plain ↦ rw plain (record {
      version_eq = s.version_eq;
      seq-lt = s.seq-lt;
      mgr_seq-lt = get_or-lt frame 2 bytes;
    })
    | inr reliable ↦ rw reliable (record {
      version_eq = s.version_eq;
      seq-lt = s.seq-lt;
      mgr_seq-lt = get_or-lt frame 2 bytes;
    })
  ])
  | response_in w t c e ↦
      rw (e p)
        (record { version_eq = s.version_eq; seq-lt = omega arith; mgr_seq-lt = s.mgr_seq-lt })
]
  where
    recorded : IsSound (record_version p (get_or frame 5 0))
    recorded = record_version-IsSound p (get_or frame 5 0) s

step-IsSound : (c : Step) (p : BasePicardIo) → HasBytes c → IsSound p → IsSound (step c p)
unfolding step send_ack
step-IsSound starts p h s = record {
  version_eq = s.version_eq;
  seq-lt = s.seq-lt;
  mgr_seq-lt = s.mgr_seq-lt;
}
step-IsSound stops p h s = record {
  version_eq = s.version_eq;
  seq-lt = s.seq-lt;
  mgr_seq-lt = s.mgr_seq-lt;
}
step-IsSound cleans_up p h s = record {
  version_eq = s.version_eq;
  seq-lt = s.seq-lt;
  mgr_seq-lt = s.mgr_seq-lt;
}
step-IsSound starts_parser p h s = record {
  version_eq = s.version_eq;
  seq-lt = s.seq-lt;
  mgr_seq-lt = s.mgr_seq-lt;
}
step-IsSound (registers handler) p h s = record {
  version_eq = s.version_eq;
  seq-lt = s.seq-lt;
  mgr_seq-lt = s.mgr_seq-lt;
}
step-IsSound (acks type seq_no) p h s = record {
  version_eq = s.version_eq;
  seq-lt = s.seq-lt;
  mgr_seq-lt = omega arith;
}
step-IsSound (completes frame) p h s = frame_complete-IsSound p frame h s

-- Whatever calls and frames of bytes come in, after the constructor: the protocol version is one
-- of the known ones or the initial 0, and both sequence numbers fit their bytes.
pub steps-IsSound :
    (cs : List Step) → All HasBytes cs → (p : BasePicardIo) → IsSound p → IsSound (steps cs p)
unfolding steps
steps-IsSound [] h p s = s
steps-IsSound (c ∷ rest) (now, later) p s =
    steps-IsSound rest later (step c p) (step-IsSound c p now s)

-- A manager's good answer to a hello: control 0, at least five bytes, the first of them 0.
pub record IsGoodHello (frame : List ℕ) : Type 0 where
  pub is_whole : IsWhole frame
  pub control_eq : get_or frame 0 0 ≡ 0
  pub type_eq : get_or frame 1 0 ≡ 2
  pub len-le : 5 ≤ get_or frame 3 0
  pub success_eq : get_or frame 4 0 ≡ 0

record_version-connected : (p : BasePicardIo) (v : ℕ) → (record_version p v).connected ≡ p.connected
unfolding record_version
record_version-connected p v = elim (Bool-cases (check_protocol v)) [
  | inl e ↦ rw e refl
  | inr e ↦ rw e refl
]

notification_complete-connected :
    (p : BasePicardIo) (frame : List ℕ) → (notification_complete p frame).0.connected ≡ p.connected
unfolding notification_complete send_ack
notification_complete-connected p frame = elim (Bool-cases (bit_and (get_or frame 0 0) 2 == 0)) [
  | inl e ↦ rw e refl
  | inr e ↦ rw e refl
]

good_hello-connected :
    (p : BasePicardIo) (frame : List ℕ)
    → IsGoodHello frame
    → (hello_response_complete p frame).0.connected ≡ true
unfolding hello_response_complete
good_hello-connected p frame g =
    rw (eq→== (get_or frame 0 0) 0 g.control_eq, eq→== (get_or frame 4 0) 0 g.success_eq) refl

hello-connected :
    (p : BasePicardIo) (frame : List ℕ)
    → IsWhole frame
    → get_or frame 1 0 ≡ 2
    → 5 ≤ get_or frame 3 0
    → ((hello_response_complete p frame).0.connected ≡ p.connected) ⊎ IsGoodHello frame
unfolding hello_response_complete
hello-connected p frame w t h =
    elim (Bool-cases ((get_or frame 0 0 == 0) && (get_or frame 4 0 == 0))) [
      | inl e ↦ inr (record {
        is_whole = w;
        control_eq = ground arith;
        type_eq = t;
        len-le = h;
        success_eq = ground arith;
      })
      | inr e ↦ inl (rw e (record_version-connected p (get_or frame 5 0)))
    ]

complete-connected :
    (p : BasePicardIo) (frame : List ℕ)
    → ((frame_complete p frame).0.connected ≡ p.connected) ⊎ IsGoodHello frame
unfolding mgr_hello_complete response_complete
complete-connected p frame = elim (branch frame) [
  | ignored e ↦ inl (connected_of (e p))
  | hello_response_in w t h e ↦ elim (hello-connected p frame w t h) [
    | inl same ↦ inl (connected_of (e p) ∙ same)
    | inr g ↦ inr g
  ]
  | mgr_hello_in w t e ↦ inl (connected_of (e p) ∙ record_version-connected p (get_or frame 4 0))
  | notification_in w t e ↦ inl (connected_of (e p) ∙ notification_complete-connected p frame)
  | response_in w t c e ↦ inl (connected_of (e p))
]
  where
    connected_of :
        {r : BasePicardIo × List Event}
        → frame_complete p frame ≡ r
        → (frame_complete p frame).0.connected ≡ r.0.connected
    connected_of e = ap (λ r. r.0.connected) e

-- After a frame the connection is up exactly if it was up before, or the frame is a good answer to
-- a hello.
pub frame_complete-connected :
    (p : BasePicardIo) (frame : List ℕ)
    → ((frame_complete p frame).0.connected ≡ true) ↔ ((p.connected ≡ true) ⊎ IsGoodHello frame)
unfolding hello_response_complete mgr_hello_complete
frame_complete-connected p frame = (only, if_good)
  where
    only : (frame_complete p frame).0.connected ≡ true → (p.connected ≡ true) ⊎ IsGoodHello frame
    only up = elim (complete-connected p frame) [ inl same ↦ inl (sym same ∙ up) | inr g ↦ inr g ]

    by_hello : IsGoodHello frame → (frame_complete p frame).0.connected ≡ true
    by_hello g =
        ap (λ r. r.0.connected) (hello_responds p frame g.is_whole g.type_eq g.len-le)
        ∙ good_hello-connected p frame g

    if_good : (p.connected ≡ true) ⊎ IsGoodHello frame → (frame_complete p frame).0.connected ≡ true
    if_good (inr g) = by_hello g
    if_good (inl up) = elim (complete-connected p frame) [
      | inl same ↦ same ∙ up
      | inr g ↦ by_hello g
    ]

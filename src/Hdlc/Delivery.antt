-- ===== src/Hdlc/Delivery.antt =====
-- When the parser hands a frame on: the register it keeps, and the check at a padding byte.
use serialmux.Prelude.{
  ℕ, ◌/◌, ◌%◌, ◌≤◌, ◌<◌, bit_xor, ◌≡◌, refl, ap, sym, subst, ◌∙◌, ◌≢◌, ◌↔◌, Bool, true, false, ◌&&◌,
  inl, inr, List, [], ◌∷◌, ◌++◌, append_assoc, arith, length, length-append, ltb, lt→ltb, ltb→lt,
  le→ltb, ◌==◌, ==→eq, ==→ne, Bool-cases, if◌then◌else◌, All-append, All-left, All-right, eq→==,
}
use serialmux.Prelude.Bits.{xor_byte-lt}
use serialmux.Hdlc.Fcs.{AreBytes, step-lt, compute_loop-lt, compute_loop-append, compute_loop-snoc}
use serialmux.Hdlc.Check.{residue, residue_low, residue_high, close_iff}
use serialmux.Hdlc.Transparency.{with_fcs, add_byte_plain}
use serialmux.Hdlc.{
  Chdlc, hdlc_padding, hdlc_escchar, hdlc_xorbyte, compute_fcs16, compute_loop, init_fcs16,
  close_fcs16, add_one_byte_to_fcs16, is_escape, reset, append, pop_back, end_frame, add_plain,
  add_byte,
}

-- The register always is the FCS of the bytes held.
pub record IsValid (p : Chdlc) : Type 0 where
  pub checked : p.running_fcs ≡ compute_loop init_fcs16 p.buffer
  pub bytes : AreBytes p.buffer

pub reset-IsValid : (p : Chdlc) → IsValid (reset p)
unfolding reset compute_loop
reset-IsValid p = record { checked = refl; bytes = tt }

append-IsValid : (p : Chdlc) (b : ℕ) → b < 256 → IsValid p → IsValid (append p b)
unfolding append
append-IsValid p b hb v = record {
  checked =
      ap (λ s. add_one_byte_to_fcs16 s b) v.checked ∙ sym (compute_loop-snoc init_fcs16 b p.buffer);
  bytes = All-append _ p.buffer (b ∷ []) v.bytes (hb, tt);
}

end_frame_resets : (p : Chdlc) → (end_frame p).0 ≡ reset p
unfolding end_frame
end_frame_resets p = elim (Bool-cases (ltb 2 (length p.buffer))) [
  | inl e ↦ rw e refl
  | inr e ↦ rw e refl
]

-- Outside an escape a padding byte ends the frame, whatever was received.
pub flag_resets : (p : Chdlc) → is_escape p.state ≡ false → (add_byte p hdlc_padding).0 ≡ reset p
unfolding add_byte add_plain
flag_resets p h = rw h (end_frame_resets p)

add_plain-IsValid : (p : Chdlc) (b : ℕ) → b < 256 → IsValid p → IsValid (add_plain p b).0
unfolding add_plain
add_plain-IsValid p b hb v = elim (Bool-cases (b == hdlc_escchar)) [
  | inl e ↦ rw e (record { checked = v.checked; bytes = v.bytes })
  | inr ne ↦ elim (Bool-cases (b == hdlc_padding)) [
    | inl e ↦ rw (ne, e) (subst IsValid (sym (end_frame_resets p)) (reset-IsValid p))
    | inr other ↦ rw (ne, other) (append-IsValid p b hb v)
  ]
]

-- Every byte keeps the parser valid: what it holds are bytes, and the running register is the one
-- that these bytes give from the initial value.
pub add_byte-IsValid : (p : Chdlc) (b : ℕ) → b < 256 → IsValid p → IsValid (add_byte p b).0
unfolding add_byte
add_byte-IsValid p b hb v = elim (Bool-cases (is_escape p.state)) [
  | inl e ↦
      let w : IsValid (append p (bit_xor b hdlc_xorbyte)) =
        append-IsValid p (bit_xor b hdlc_xorbyte) (xor_byte-lt b hdlc_xorbyte hb (omega arith)) v in
      rw e (record { checked = w.checked; bytes = w.bytes })
  | inr e ↦ rw e (add_plain-IsValid p b hb v)
]

pop_back_snoc : (f : List ℕ) (y : ℕ) → pop_back (f ++ y ∷ []) ≡ f
unfolding pop_back
pop_back_snoc [] y = refl
pop_back_snoc (a ∷ []) y = refl
pop_back_snoc (a ∷ b ∷ f) y = ap (◌∷◌ a) (pop_back_snoc (b ∷ f) y)

pop_back_two : (f : List ℕ) (x y : ℕ) → pop_back (pop_back (f ++ x ∷ y ∷ [])) ≡ f
pop_back_two f x y =
    ap (λ t. pop_back (pop_back t)) (sym (append_assoc f (x ∷ []) (y ∷ [])))
    ∙ ap pop_back (pop_back_snoc (f ++ x ∷ []) y)
    ∙ pop_back_snoc f x

split_two :
    (xs : List ℕ)
    → 2 < length xs
    → (f : List ℕ) × (x : ℕ) × (y : ℕ) × (xs ≡ f ++ x ∷ y ∷ []) × (0 < length f)
split_two [] h = absurd (omega arith)
split_two (a ∷ []) h = absurd (omega arith)
split_two (a ∷ b ∷ []) h = absurd (omega arith)
split_two (a ∷ b ∷ c ∷ []) h = (a ∷ [], b, c, refl, omega arith)
split_two (a ∷ b ∷ c ∷ d ∷ xs) h =
    let (f, x, y, e, g) = split_two (b ∷ c ∷ d ∷ xs) (omega arith) in
    (a ∷ f, x, y, ap (◌∷◌ a) e, omega arith)

module _ (p : Chdlc) (f : List ℕ) (x y : ℕ) (held : p.buffer ≡ f ++ x ∷ y ∷ []) where
  abbrev good : Bool
  good = close_fcs16 p.running_fcs == 0xf47

  end_frame_full : 0 < length f → (end_frame p).1 ≡ (if good && p.handler then f ∷ [] else [])
  unfolding end_frame
  end_frame_full h = rw (longer, popped, lt→ltb 0 (length f) h) (ground arith)
    where
      longer : ltb 2 (length p.buffer) ≡ true
      longer = lt→ltb _ _ (omega (arith, ap length held, length-append f (x ∷ y ∷ [])))

      popped : pop_back (pop_back p.buffer) ≡ f
      popped = ap (λ t. pop_back (pop_back t)) held ∙ pop_back_two f x y

  module _ (v : IsValid p) where
    abbrev data_fcs : ℕ
    data_fcs = compute_loop init_fcs16 f

    held_bytes : AreBytes (f ++ x ∷ y ∷ [])
    held_bytes = subst AreBytes held v.bytes

    last_bytes : AreBytes (x ∷ y ∷ [])
    last_bytes = All-right _ f (x ∷ y ∷ []) held_bytes

    data_fcs-lt : data_fcs < 65536
    data_fcs-lt = compute_loop-lt init_fcs16 f (omega arith) (All-left _ f (x ∷ y ∷ []) held_bytes)

    register_eq : p.running_fcs ≡ add_one_byte_to_fcs16 (add_one_byte_to_fcs16 data_fcs x) y
    unfolding compute_loop add_one_byte_to_fcs16
    register_eq =
        v.checked
        ∙ ap (compute_loop init_fcs16) held
        ∙ compute_loop-append init_fcs16 f (x ∷ y ∷ [])

    register-lt : p.running_fcs < 65536
    register-lt = omega (
      arith,
      register_eq,
      step-lt _ y (step-lt data_fcs x data_fcs-lt last_bytes.0) last_bytes.1.0,
    )

    good_iff : (good ≡ true) ↔ ((x ≡ compute_fcs16 f % 256) × (y ≡ compute_fcs16 f / 256))
    unfolding compute_fcs16
    good_iff = (
      λ g.
          let e : add_one_byte_to_fcs16 (add_one_byte_to_fcs16 data_fcs x) y ≡ 0xf0b8 =
            sym register_eq ∙ (close_iff p.running_fcs register-lt).0 (==→eq _ _ g) in
          (
            residue_low data_fcs x y data_fcs-lt last_bytes.0 last_bytes.1.0 e,
            residue_high data_fcs x y data_fcs-lt last_bytes.0 last_bytes.1.0 e,
          ),
      λ h. eq→== _ _ (
          (close_iff p.running_fcs register-lt).1 (
            register_eq
            ∙ ap (λ t. add_one_byte_to_fcs16 (add_one_byte_to_fcs16 data_fcs t) y) h.0
            ∙ ap
                (add_one_byte_to_fcs16
                  (add_one_byte_to_fcs16 data_fcs (close_fcs16 data_fcs % 256)))
                h.1
            ∙ residue data_fcs data_fcs-lt)),
    )

-- What it takes for a frame to be handed on at a padding byte.
pub record Delivers (p : Chdlc) (f : List ℕ) (fs : List (List ℕ)) : Type 0 where
  pub alone : fs ≡ []
  pub wanted : p.handler ≡ true
  pub nonempty : 0 < length f
  pub held : p.buffer ≡ with_fcs f

end_frame_short : (p : Chdlc) → ltb 2 (length p.buffer) ≡ false → (end_frame p).1 ≡ []
unfolding end_frame
end_frame_short p h = rw h refl

singleton_parts :
    (b c : Bool) (f g : List ℕ) (fs : List (List ℕ))
    → (if b && c then f ∷ [] else []) ≡ g ∷ fs
    → (fs ≡ []) × (c ≡ true) × (b ≡ true) × (f ≡ g)
singleton_parts b c f g fs e = ground arith

end_frame-Delivers :
    (p : Chdlc) (f : List ℕ) (fs : List (List ℕ))
    → IsValid p
    → (end_frame p).1 ≡ f ∷ fs
    → Delivers p f fs
unfolding with_fcs
end_frame-Delivers p f fs v e = elim (Bool-cases (ltb 2 (length p.buffer))) [
  | inr short ↦ absurd (nil_cons (sym (end_frame_short p short) ∙ e))
  | inl long ↦
      let (g, x, y, held, h) = split_two p.buffer (ltb→lt _ _ long) in
      let (alone, wanted, checked, same) =
        singleton_parts (good p g x y held) p.handler g f fs
          (sym (end_frame_full p g x y held h) ∙ e) in
      let (low, high) = (good_iff p g x y held v).0 checked in
      record {
        alone = alone;
        wanted = wanted;
        nonempty = omega (arith, h, ap length same);
        held = cc (low, high, same, held);
      }
]
  where
    nil_cons : [] ≡ f ∷ fs → ⊥
    nil_cons d = cc

Delivers-end_frame :
    (p : Chdlc) (f : List ℕ) (fs : List (List ℕ))
    → IsValid p
    → Delivers p f fs
    → (end_frame p).1 ≡ f ∷ fs
unfolding with_fcs
Delivers-end_frame p f fs v d =
    end_frame_full p f _ _ d.held d.nonempty
    ∙ rw ((good_iff p f _ _ d.held v).1 (refl, refl), d.wanted, d.alone) refl

add_byte_silent : (p : Chdlc) (b : ℕ) → is_escape p.state ≡ true → (add_byte p b).1 ≡ []
unfolding add_byte
add_byte_silent p b h = rw h refl

add_plain_silent : (p : Chdlc) (b : ℕ) → b ≢ hdlc_padding → (add_plain p b).1 ≡ []
unfolding add_plain
add_plain_silent p b h = ground arith

add_plain_flag : (p : Chdlc) → add_plain p hdlc_padding ≡ end_frame p
unfolding add_plain
add_plain_flag p = refl

pub flag_silent :
    (p : Chdlc) → is_escape p.state ≡ false → length p.buffer ≤ 2 → (add_byte p hdlc_padding).1 ≡ []
flag_silent p plain short =
    ap (λ r. r.1) (add_byte_plain p hdlc_padding plain ∙ add_plain_flag p)
    ∙ end_frame_short p (le→ltb 2 _ short)

-- A byte makes a valid parser hand on the frames `f ∷ fs` exactly when it is a padding byte
-- outside an escape, there is a handler, `f` is not empty, `fs` is, and the bytes held are `f`
-- followed by its FCS, the low byte first.
pub add_byte-Delivers_iff :
    (p : Chdlc) (b : ℕ) (f : List ℕ) (fs : List (List ℕ))
    → IsValid p
    → ((add_byte p b).1 ≡ f ∷ fs)
      ↔ ((is_escape p.state ≡ false) × (b ≡ hdlc_padding) × Delivers p f fs)
add_byte-Delivers_iff p b f fs v = (
  λ e. elim (Bool-cases (is_escape p.state)) [
    | inl esc ↦ absurd (nil_cons (sym (add_byte_silent p b esc) ∙ e))
    | inr plain ↦ plain_case plain (sym (ap (λ r. r.1) (add_byte_plain p b plain)) ∙ e)
  ],
  λ (plain, flag, d).
      ap (λ r. r.1) (add_byte_plain p b plain ∙ ap (add_plain p) flag ∙ add_plain_flag p)
      ∙ Delivers-end_frame p f fs v d,
)
  where
    nil_cons : [] ≡ f ∷ fs → ⊥
    nil_cons d = cc

    plain_case :
        is_escape p.state ≡ false
        → (add_plain p b).1 ≡ f ∷ fs
        → (is_escape p.state ≡ false) × (b ≡ hdlc_padding) × Delivers p f fs
    plain_case plain e = elim (Bool-cases (b == hdlc_padding)) [
      | inl flag ↦ (
        plain,
        ==→eq _ _ flag,
        end_frame-Delivers p f fs v
            (ap (λ r. r.1) (sym (ap (add_plain p) (==→eq _ _ flag) ∙ add_plain_flag p)) ∙ e),
      )
      | inr other ↦ absurd (nil_cons (sym (add_plain_silent p b (==→ne _ _ other)) ∙ e))
    ]

-- ===== src/Hdlc/Transparency.antt =====
-- Escaping: the generator's body never shows a padding byte, and the parser undoes it.
use serialmux.Prelude.{
  ℕ, ◌/◌, ◌%◌, ◌<◌, bit_and, bit_xor, ◌≡◌, refl, ap, sym, subst, ◌∙◌, ◌≢◌, ◌⊎◌, Bool, true, false,
  ◌||◌, inl, inr, List, [], ◌∷◌, ◌++◌, append_assoc, append-nil, arith, ◌==◌, ne→==, if◌then◌else◌,
  All, All-append,
}
use serialmux.Prelude.Bits.{xor_cancel_right, mask_byte}
use serialmux.Hdlc.Fcs.{AreBytes, close-lt, compute_loop-lt, compute_loop-append}
use serialmux.Hdlc.{
  Chdlc, hdlc_data, hdlc_padding, hdlc_escchar, hdlc_xorbyte, append_hdlc, encode_hdlc,
  compute_fcs16, compute_loop, init_fcs16, is_escape, append, add_plain, add_byte, feed,
  add_one_byte_to_fcs16,
}

-- What one byte becomes on the line.
pub escape_byte : ℕ → List ℕ
escape_byte x =
    if x == hdlc_padding || x == hdlc_escchar
    then hdlc_escchar ∷ bit_xor x hdlc_xorbyte ∷ []
    else x ∷ []

pub escaped : List ℕ → List ℕ
escaped [] = []
escaped (x ∷ xs) = escape_byte x ++ escaped xs

push_eq :
    (b : Bool) (dst : List ℕ) (x y : ℕ)
    → (if b then (dst ++ hdlc_escchar ∷ []) ++ y ∷ [] else dst ++ x ∷ [])
      ≡ dst ++ (if b then hdlc_escchar ∷ y ∷ [] else x ∷ [])
push_eq true dst x y = append_assoc dst (hdlc_escchar ∷ []) (y ∷ [])
push_eq false dst x y = refl

-- The loop that pushes on a vector is a map over the source.
pub append_hdlc-escaped : (dst src : List ℕ) → append_hdlc dst src ≡ dst ++ escaped src
unfolding append_hdlc escaped escape_byte
append_hdlc-escaped dst [] = sym (append-nil dst)
append_hdlc-escaped dst (x ∷ src) =
    ap (λ d. append_hdlc d src)
      (push_eq (x == hdlc_padding || x == hdlc_escchar) dst x (bit_xor x hdlc_xorbyte))
    ∙ append_hdlc-escaped (dst ++ escape_byte x) src
    ∙ append_assoc dst (escape_byte x) (escaped src)

pub escaped-append : (xs ys : List ℕ) → escaped (xs ++ ys) ≡ escaped xs ++ escaped ys
unfolding escaped
escaped-append [] ys = refl
escaped-append (x ∷ xs) ys =
    ap (◌++◌ (escape_byte x)) (escaped-append xs ys) ∙ sym (append_assoc (escape_byte x) _ _)

-- The FCS goes out as two bytes after the data, the low one first.
unfoldable pub with_fcs : List ℕ → List ℕ
with_fcs src = src ++ compute_fcs16 src % 256 ∷ compute_fcs16 src / 256 ∷ []

pub compute_fcs16-lt : (src : List ℕ) → AreBytes src → compute_fcs16 src < 65536
unfolding compute_fcs16
compute_fcs16-lt src h = close-lt _ (compute_loop-lt init_fcs16 src (omega arith) h)

pub with_fcs-AreBytes : (src : List ℕ) → AreBytes src → AreBytes (with_fcs src)
unfolding with_fcs
with_fcs-AreBytes src h =
    All-append _ src _ h (omega arith, (omega (arith, compute_fcs16-lt src h), tt))

-- A packet is a flag, the escaped data with its FCS, and a flag.
pub encode_hdlc_eq :
    (src : List ℕ)
    → AreBytes src
    → encode_hdlc src ≡ hdlc_padding ∷ (escaped (with_fcs src) ++ hdlc_padding ∷ [])
unfolding encode_hdlc with_fcs
encode_hdlc_eq src h =
    ap (λ b. b ++ hdlc_padding ∷ [])
      (append_hdlc-escaped (append_hdlc (hdlc_padding ∷ []) src) fcsbuf
        ∙ ap (λ d. d ++ escaped fcsbuf) (append_hdlc-escaped (hdlc_padding ∷ []) src)
        ∙ append_assoc (hdlc_padding ∷ []) (escaped src) (escaped fcsbuf)
        ∙ ap (λ t. hdlc_padding ∷ (escaped src ++ escaped t)) fcsbuf_eq
        ∙ ap (◌∷◌ hdlc_padding) (sym (escaped-append src _)))
  where
    fcsbuf : List ℕ
    fcsbuf = bit_and (compute_fcs16 src) 0xff ∷ bit_and (compute_fcs16 src / 256) 0xff ∷ []

    high : bit_and (compute_fcs16 src / 256) 0xff ≡ compute_fcs16 src / 256
    high = mask_byte (compute_fcs16 src / 256) ∙ omega (arith, compute_fcs16-lt src h)

    fcsbuf_eq : fcsbuf ≡ compute_fcs16 src % 256 ∷ compute_fcs16 src / 256 ∷ []
    fcsbuf_eq = ground (arith, mask_byte (compute_fcs16 src), high)

escape_cases :
    (x : ℕ)
    → (x ≡ hdlc_padding)
      ⊎ (x ≡ hdlc_escchar)
      ⊎ (((x == hdlc_padding || x == hdlc_escchar) ≡ false)
          × (x ≢ hdlc_padding)
          × (x ≢ hdlc_escchar))
escape_cases x = ground arith

escape_byte_no_flag : (x : ℕ) → All (λ b. b ≢ hdlc_padding) (escape_byte x)
unfolding escape_byte
escape_byte_no_flag x = elim (escape_cases x) [
  | inl e ↦ subst (λ y. All (λ b. b ≢ hdlc_padding) (escape_byte y)) (sym e) (omega arith)
  | inr (inl e) ↦ subst (λ y. All (λ b. b ≢ hdlc_padding) (escape_byte y)) (sym e) (omega arith)
  | inr (inr (e, ne, _)) ↦ rw e (ne, tt)
]

-- No flag shows inside the escaped body.
pub escaped_no_flag : (xs : List ℕ) → All (λ b. b ≢ hdlc_padding) (escaped xs)
unfolding escaped
escaped_no_flag [] = tt
escaped_no_flag (x ∷ xs) =
    All-append _ (escape_byte x) (escaped xs) (escape_byte_no_flag x) (escaped_no_flag xs)

-- The packet of a byte string is a padding byte, a body with no padding byte in it, and a padding
-- byte.
pub encode_hdlc_transparent :
    (src : List ℕ)
    → AreBytes src
    → (body : List ℕ) × (encode_hdlc src ≡ hdlc_padding ∷ (body ++ hdlc_padding ∷ []))
      × All (λ b. b ≢ hdlc_padding) body
encode_hdlc_transparent src h =
    (escaped (with_fcs src), encode_hdlc_eq src h, escaped_no_flag (with_fcs src))

-- The parser `q` has taken in the bytes `xs` since `p`, and is not in an escape.
pub record Absorbed (p : Chdlc) (xs : List ℕ) (q : Chdlc) : Type 0 where
  pub plain : is_escape q.state ≡ false
  pub grown : q.buffer ≡ p.buffer ++ xs
  pub checked : q.running_fcs ≡ compute_loop p.running_fcs xs
  pub kept : q.handler ≡ p.handler

pub feed-append :
    (p : Chdlc) (xs ys : List ℕ)
    → feed p (xs ++ ys) ≡ ((feed (feed p xs).0 ys).0, (feed p xs).1 ++ (feed (feed p xs).0 ys).1)
unfolding feed
feed-append p [] ys = refl
feed-append p (x ∷ xs) ys =
    ap (λ (r : Chdlc × List (List ℕ)). (r.0, (add_byte p x).1 ++ r.1))
      (feed-append (add_byte p x).0 xs ys)
    ∙ ap (λ (t : List (List ℕ)). ((feed (feed (add_byte p x).0 xs).0 ys).0, t))
        (sym (append_assoc (add_byte p x).1 _ _))

pub add_byte_plain : (p : Chdlc) (b : ℕ) → is_escape p.state ≡ false → add_byte p b ≡ add_plain p b
unfolding add_byte
add_byte_plain p b h = rw h

-- Feeding the parser without a frame in between.
abbrev pub Takes : Chdlc → List ℕ → List ℕ → Type 0
Takes p line xs = (q : Chdlc) × (feed p line ≡ (q, [])) × Absorbed p xs q

take_escaped :
    (p : Chdlc) (x y : ℕ)
    → is_escape p.state ≡ false
    → bit_xor y hdlc_xorbyte ≡ x
    → Takes p (hdlc_escchar ∷ y ∷ []) (x ∷ [])
take_escaped p x y h e = (
  record (append p x) { state = hdlc_data },
  reads,
  record {
    plain = refl;
    grown = unfold append in refl;
    checked = unfold append compute_loop add_one_byte_to_fcs16 in refl;
    kept = unfold append in refl;
  },
)
  where
    reads : feed p (hdlc_escchar ∷ y ∷ []) ≡ (record (append p x) { state = hdlc_data }, [])
    reads = unfold feed add_byte add_plain append in rw (h, e) refl

take_plain :
    (p : Chdlc) (x : ℕ)
    → is_escape p.state ≡ false
    → x ≢ hdlc_padding
    → x ≢ hdlc_escchar
    → Takes p (x ∷ []) (x ∷ [])
take_plain p x h np ne = (
  append p x,
  reads,
  record {
    plain = unfold append in h;
    grown = unfold append in refl;
    checked = unfold append compute_loop add_one_byte_to_fcs16 in refl;
    kept = unfold append in refl;
  },
)
  where
    reads : feed p (x ∷ []) ≡ (append p x, [])
    reads =
        unfold feed add_byte add_plain append in
        rw (h, ne→== x hdlc_padding np, ne→== x hdlc_escchar ne) refl

escape_byte_special :
    (x : ℕ)
    → (x ≡ hdlc_padding) ⊎ (x ≡ hdlc_escchar)
    → escape_byte x ≡ hdlc_escchar ∷ bit_xor x hdlc_xorbyte ∷ []
unfolding escape_byte
escape_byte_special x (inl e) = rw e
escape_byte_special x (inr e) = rw e

escape_byte_plain :
    (x : ℕ) → (x == hdlc_padding || x == hdlc_escchar) ≡ false → escape_byte x ≡ x ∷ []
unfolding escape_byte
escape_byte_plain x e = rw e

-- The parser undoes the escaping of one byte.
take_byte : (p : Chdlc) (x : ℕ) → is_escape p.state ≡ false → Takes p (escape_byte x) (x ∷ [])
take_byte p x h = elim (escape_cases x) [
  | inl e ↦ rw (escape_byte_special x (inl e)) undone
  | inr (inl e) ↦ rw (escape_byte_special x (inr e)) undone
  | inr (inr (e, np, ne)) ↦ rw (escape_byte_plain x e) (take_plain p x h np ne)
]
  where
    undone : Takes p (hdlc_escchar ∷ bit_xor x hdlc_xorbyte ∷ []) (x ∷ [])
    undone = take_escaped p x (bit_xor x hdlc_xorbyte) h (xor_cancel_right x hdlc_xorbyte)

pub feed_then :
    (p q r : Chdlc) (xs ys : List ℕ) (f g : List (List ℕ))
    → feed p xs ≡ (q, f)
    → feed q ys ≡ (r, g)
    → feed p (xs ++ ys) ≡ (r, f ++ g)
feed_then p q r xs ys f g e d =
    feed-append p xs ys
    ∙ ap (λ (t : Chdlc × List (List ℕ)). ((feed t.0 ys).0, t.1 ++ (feed t.0 ys).1)) e
    ∙ ap (λ (t : Chdlc × List (List ℕ)). (t.0, f ++ t.1)) d

Absorbed-trans :
    (p q r : Chdlc) (xs ys : List ℕ) → Absorbed p xs q → Absorbed q ys r → Absorbed p (xs ++ ys) r
Absorbed-trans p q r xs ys a b = record {
  plain = b.plain;
  grown = b.grown ∙ ap (λ t. t ++ ys) a.grown ∙ append_assoc p.buffer xs ys;
  checked =
      b.checked
      ∙ ap (λ t. compute_loop t ys) a.checked
      ∙ sym (compute_loop-append p.running_fcs xs ys);
  kept = b.kept ∙ a.kept;
}

-- The parser undoes the escaping, from every state but an escape.
pub take_all : (p : Chdlc) (xs : List ℕ) → is_escape p.state ≡ false → Takes p (escaped xs) xs
unfolding escaped
take_all p [] h = (
  p,
  unfold feed in refl,
  record {
    plain = h;
    grown = sym (append-nil p.buffer);
    checked = unfold compute_loop in refl;
    kept = refl;
  },
)
take_all p (x ∷ xs) h =
    let (q, e, a) = take_byte p x h in
    let (r, d, b) = take_all q xs a.plain in
    (
      r,
      feed_then p q r (escape_byte x) (escaped xs) [] [] e d,
      Absorbed-trans p q r (x ∷ []) xs a b,
    )

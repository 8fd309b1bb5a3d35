-- ===== src/Hdlc/Detection.antt =====
-- Which damage the check sequence detects: any change within two bytes next to each other.
use serialmux.Prelude.{
  ℕ, ◌/◌, ◌%◌, ◌<◌, bit_xor, ◌≡◌, ◌≢◌, ◌⊎◌, inl, inr, ap, sym, ◌∙◌, List, [], ◌∷◌, ◌++◌, arith,
}
use serialmux.Prelude.Bits.{xor_cancel, xor_cancel_right}
use serialmux.Hdlc.Table.{fcs_entry}
use serialmux.Hdlc.Fcs.{
  AreBytes, step-high, step_eq, step-lt, index-lt, compute_loop-append, compute_loop-cons,
  compute_loop-lt, close_injective,
}
use serialmux.Hdlc.Check.{high_byte_injective}
use serialmux.Hdlc.{add_one_byte_to_fcs16, compute_loop, compute_fcs16, close_fcs16, init_fcs16}

xor_right : (c a b : ℕ) → bit_xor a c ≡ bit_xor b c → a ≡ b
xor_right c a b e = sym (xor_cancel_right a c) ∙ ap (λ t. bit_xor t c) e ∙ xor_cancel_right b c

xor_left : (c a b : ℕ) → bit_xor c a ≡ bit_xor c b → a ≡ b
xor_left c a b e = sym (xor_cancel c a) ∙ ap (bit_xor c) e ∙ xor_cancel c b

-- Equal registers after a step come from the same table entry and the same high byte.
module _ (s t b c : ℕ) (hs : s < 65536) (ht : t < 65536) (hb : b < 256) (hc : c < 256)
    (e : add_one_byte_to_fcs16 s b ≡ add_one_byte_to_fcs16 t c) where
  same_index : bit_xor (s % 256) b ≡ bit_xor (t % 256) c
  same_index =
      high_byte_injective _ _ (index-lt s b hb) (index-lt t c hc)
        (sym (step-high s b hs hb) ∙ ap (λ v. v / 256) e ∙ step-high t c ht hc)

  same_high : s / 256 ≡ t / 256
  same_high = xor_right (fcs_entry (bit_xor (t % 256) c)) (s / 256) (t / 256) (
      ap (λ i. bit_xor (s / 256) (fcs_entry i)) (sym same_index)
      ∙ sym (step_eq s b hs hb)
      ∙ e
      ∙ step_eq t c ht hc)

step_injective :
    (s t b : ℕ)
    → s < 65536
    → t < 65536
    → b < 256
    → add_one_byte_to_fcs16 s b ≡ add_one_byte_to_fcs16 t b
    → s ≡ t
step_injective s t b hs ht hb e = omega (
  arith,
  same_high s t b b hs ht hb hb e,
  xor_right b (s % 256) (t % 256) (same_index s t b b hs ht hb hb e),
)

loop_injective :
    (s t : ℕ) (xs : List ℕ)
    → s < 65536
    → t < 65536
    → AreBytes xs
    → compute_loop s xs ≡ compute_loop t xs
    → s ≡ t
loop_injective s t [] hs ht h e = unfold compute_loop in e
loop_injective s t (x ∷ xs) hs ht (hx, h) e = step_injective s t x hs ht hx (
    loop_injective (add_one_byte_to_fcs16 s x) (add_one_byte_to_fcs16 t x) xs (step-lt s x hs hx)
      (step-lt t x ht hx) h (sym (compute_loop-cons s x xs) ∙ e ∙ compute_loop-cons t x xs))

two_bytes_injective :
    (s x y x' y' : ℕ)
    → s < 65536
    → AreBytes (x ∷ y ∷ x' ∷ y' ∷ [])
    → add_one_byte_to_fcs16 (add_one_byte_to_fcs16 s x) y
      ≡ add_one_byte_to_fcs16 (add_one_byte_to_fcs16 s x') y'
    → (x ≡ x') × (y ≡ y')
two_bytes_injective s x y x' y' hs (hx, (hy, (hx', (hy', _)))) e = (first, second)
  where
    m : ℕ
    m = add_one_byte_to_fcs16 s x

    m' : ℕ
    m' = add_one_byte_to_fcs16 s x'

    high : m / 256 ≡ m' / 256
    high = same_high m m' y y' (step-lt s x hs hx) (step-lt s x' hs hx') hy hy' e

    first : x ≡ x'
    first = xor_left (s % 256) x x' (
        high_byte_injective _ _ (index-lt s x hx) (index-lt s x' hx')
          (sym (step-high s x hs hx) ∙ high ∙ step-high s x' hs hx'))

    second : y ≡ y'
    second = xor_left (m % 256) y y' (
        same_index m m' y y' (step-lt s x hs hx) (step-lt s x' hs hx') hy hy' e
        ∙ ap (λ t. bit_xor (add_one_byte_to_fcs16 s t % 256) y') (sym first))

-- The register after two bytes in the middle.
abbrev across : List ℕ → ℕ → ℕ → ℕ
across pre x y = add_one_byte_to_fcs16 (add_one_byte_to_fcs16 (compute_loop init_fcs16 pre) x) y

loop_across :
    (pre post : List ℕ) (x y : ℕ)
    → compute_loop init_fcs16 (pre ++ x ∷ y ∷ post) ≡ compute_loop (across pre x y) post
unfolding compute_loop add_one_byte_to_fcs16
loop_across pre post x y = compute_loop-append init_fcs16 pre (x ∷ y ∷ post)

pre-lt : (pre : List ℕ) → AreBytes pre → compute_loop init_fcs16 pre < 65536
pre-lt pre h = compute_loop-lt init_fcs16 pre (omega arith) h

across-lt : (pre : List ℕ) (x y : ℕ) → AreBytes pre → x < 256 → y < 256 → across pre x y < 65536
across-lt pre x y h hx hy = step-lt _ y (step-lt _ x (pre-lt pre h) hx) hy

-- Strings that differ at most in two bytes next to each other have the same FCS only if they are
-- equal.
compute_fcs16_confuses :
    (pre post : List ℕ) (x y x' y' : ℕ)
    → AreBytes pre
    → AreBytes post
    → AreBytes (x ∷ y ∷ x' ∷ y' ∷ [])
    → compute_fcs16 (pre ++ x ∷ y ∷ post) ≡ compute_fcs16 (pre ++ x' ∷ y' ∷ post)
    → (x ≡ x') × (y ≡ y')
unfolding compute_fcs16
compute_fcs16_confuses pre post x y x' y' hpre hpost (hx, (hy, (hx', (hy', _)))) e =
    two_bytes_injective (compute_loop init_fcs16 pre) x y x' y' (pre-lt pre hpre)
      (hx, (hy, (hx', (hy', tt))))
      (loop_injective (across pre x y) (across pre x' y') post left right hpost (
        close_injective _ _ (compute_loop-lt _ post left hpost) (compute_loop-lt _ post right hpost)
          (ap close_fcs16 (sym (loop_across pre post x y))
            ∙ e
            ∙ ap close_fcs16 (loop_across pre post x' y'))))
  where
    left : across pre x y < 65536
    left = across-lt pre x y hpre hx hy

    right : across pre x' y' < 65536
    right = across-lt pre x' y' hpre hx' hy'

-- Two byte strings of the same length that differ in one byte, or in two bytes next to each other,
-- and nowhere else, have different FCS.
pub compute_fcs16_detects :
    (pre post : List ℕ) (x y x' y' : ℕ)
    → AreBytes pre
    → AreBytes post
    → AreBytes (x ∷ y ∷ x' ∷ y' ∷ [])
    → (x ≢ x') ⊎ (y ≢ y')
    → compute_fcs16 (pre ++ x ∷ y ∷ post) ≢ compute_fcs16 (pre ++ x' ∷ y' ∷ post)
compute_fcs16_detects pre post x y x' y' hpre hpost h (inl ne) e =
    ne (compute_fcs16_confuses pre post x y x' y' hpre hpost h e).0
compute_fcs16_detects pre post x y x' y' hpre hpost h (inr ne) e =
    ne (compute_fcs16_confuses pre post x y x' y' hpre hpost h e).1

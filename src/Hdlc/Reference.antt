-- ===== src/Hdlc/Reference.antt =====
-- The table-driven check sequence against its definition: the CRC with the reflected polynomial
-- 0x8408, one bit at a time, as HDLC (RFC 1662, CRC-16/X-25) has it.
use serialmux.Prelude.{
  ℕ, zero, suc, ◌+◌, ◌*◌, ◌/◌, ◌%◌, ◌^◌, ◌<◌, bit_xor, ◌≡◌, refl, ap, sym, ◌∙◌, true, List, [], ◌∷◌,
  arith, ◌==◌, ==→eq, if◌then◌else◌, Bool-cases, inl, inr, all_below, all_below_sound,
}
use serialmux.Prelude.Bits.{
  xor_half, xor_parity, xor_assoc, bit_xor_fields, xor-zero, zero-xor, xor_high,
}
use native.Mathlib.Nat.{pow-suc}
use serialmux.Hdlc.Table.{fcs_entry}
use serialmux.Hdlc.Fcs.{
  AreBytes, step_eq, step-lt, index-lt, index_eq, compute_loop-cons, compute_loop-lt, close_eq,
}
use serialmux.Hdlc.{add_one_byte_to_fcs16, compute_loop, compute_fcs16, init_fcs16}

-- One bit: divide by x, and reduce by the polynomial if a one falls out.
pub crc_bit : ℕ → ℕ
crc_bit v = if v % 2 == 1 then bit_xor (v / 2) 0x8408 else v / 2

pub crc_bits : ℕ → ℕ → ℕ
crc_bits zero v = v
crc_bits (suc k) v = crc_bits k (crc_bit v)

pub crc_loop : ℕ → List ℕ → ℕ
crc_loop s [] = s
crc_loop s (x ∷ xs) = crc_loop (crc_bits 8 (bit_xor s x)) xs

pub crc16_x25 : List ℕ → ℕ
crc16_x25 bytes = bit_xor (crc_loop 0xffff bytes) 0xffff

crc_bit-xor : (a j : ℕ) → crc_bit (bit_xor (2 * a) j) ≡ bit_xor a (crc_bit j)
unfolding crc_bit
crc_bit-xor a j = elim (Bool-cases (j % 2 == 1)) [
  | inl odd ↦ rw (same, odd, halved) (xor_assoc a (j / 2) 0x8408)
  | inr even ↦ rw (same, even) halved
]
  where
    halved : bit_xor (2 * a) j / 2 ≡ bit_xor a (j / 2)
    halved = xor_half (2 * a) j ∙ ap (λ t. bit_xor t (j / 2)) {y = a} (omega arith)

    same : (bit_xor (2 * a) j % 2 == 1) ≡ (j % 2 == 1)
    same = ap (λ t. t == 1) (xor_parity (2 * a) j ∙ omega arith)

crc_bits-xor : (k h j : ℕ) → crc_bits k (bit_xor (h * 2 ^ k) j) ≡ bit_xor h (crc_bits k j)
unfolding crc_bits
crc_bits-xor zero h j = ap (λ t. bit_xor t j) {y = h} (omega arith)
crc_bits-xor (suc k) h j =
    ap (λ t. crc_bits k (crc_bit (bit_xor t j))) {y = 2 * (h * 2 ^ k)}
      (omega (arith, ap (λ (t : ℕ). h * t) (pow-suc 2 k)))
    ∙ ap (crc_bits k) (crc_bit-xor (h * 2 ^ k) j)
    ∙ crc_bits-xor k h (crc_bit j)

entries_agree : all_below 256 (λ i. crc_bits 8 i == fcs_entry i) ≡ true
unfolding crc_bits crc_bit fcs_entry
entries_agree = refl

-- Entry `i` of the table is the check sequence of the byte `i`.
fcs_entry-crc_bits : (i : ℕ) → i < 256 → crc_bits 8 i ≡ fcs_entry i
fcs_entry-crc_bits i h =
    ==→eq _ _ (all_below_sound 256 (λ j. crc_bits 8 j == fcs_entry j) i entries_agree h)

join_bytes : (h j : ℕ) → j < 256 → bit_xor (h * 256) j ≡ h * 256 + j
join_bytes h j hj =
    ap (λ t. bit_xor t j) {y = h * 256 + 0} (omega arith)
    ∙ ap (bit_xor (h * 256 + 0)) {y = 0 * 256 + j} (omega arith)
    ∙ bit_xor_fields 8 h 0 0 j (omega arith) hj
    ∙ omega (arith, xor-zero h, zero-xor j)

step-crc_bits :
    (s b : ℕ) → s < 65536 → b < 256 → add_one_byte_to_fcs16 s b ≡ crc_bits 8 (bit_xor s b)
step-crc_bits s b hs hb =
    step_eq s b hs hb
    ∙ ap (bit_xor (s / 256)) (sym (fcs_entry-crc_bits (bit_xor (s % 256) b) (index-lt s b hb)))
    ∙ sym (crc_bits-xor 8 (s / 256) (bit_xor (s % 256) b))
    ∙ ap (crc_bits 8) (join_bytes (s / 256) (bit_xor (s % 256) b) (index-lt s b hb) ∙ sym whole)
  where
    whole : bit_xor s b ≡ s / 256 * 256 + bit_xor (s % 256) b
    whole = omega (
      arith,
      index_eq s b hb,
      xor_high s b ∙ ap (bit_xor (s / 256)) {y = 0} (omega arith) ∙ xor-zero (s / 256),
    )

loop-crc_loop : (s : ℕ) (xs : List ℕ) → s < 65536 → AreBytes xs → compute_loop s xs ≡ crc_loop s xs
unfolding crc_loop
loop-crc_loop s [] hs h = unfold compute_loop in refl
loop-crc_loop s (x ∷ xs) hs (hx, h) =
    compute_loop-cons s x xs
    ∙ loop-crc_loop (add_one_byte_to_fcs16 s x) xs (step-lt s x hs hx) h
    ∙ ap (λ t. crc_loop t xs) (step-crc_bits s x hs hx)

-- On bytes the table-driven `compute_fcs16` is the CRC-16/X-25, computed bit by bit with the
-- reflected polynomial 0x8408.
pub compute_fcs16-crc16_x25 : (xs : List ℕ) → AreBytes xs → compute_fcs16 xs ≡ crc16_x25 xs
unfolding compute_fcs16 crc16_x25
compute_fcs16-crc16_x25 xs h =
    close_eq (compute_loop init_fcs16 xs) (compute_loop-lt init_fcs16 xs (omega arith) h)
    ∙ ap (λ t. bit_xor t 0xffff) (loop-crc_loop init_fcs16 xs (omega arith) h)

-- ===== src/Hdlc/Check.antt =====
-- The parser's check: a running FCS over the frame with its two last bytes is compared with a
-- constant, where the generator sends the complement of the FCS, low byte first.
use serialmux.Prelude.{
  ℕ, suc, ◌/◌, ◌%◌, ◌<◌, bit_xor, ◌≡◌, refl, ap, sym, ◌∙◌, true, List, [], ◌∷◌, arith, ◌==◌, ==→eq,
  if◌then◌else◌, all_below, all_below_sound, ◌↔◌,
}
use serialmux.Prelude.Bits.{
  xor_high, xor_low, xor_byte-lt, zero-xor, xor_cancel_right, bit_xor-lt, xor_cancel, xor_comm,
  xor_assoc,
}
use serialmux.Hdlc.Table.{fcs_entry, fcstab}
use serialmux.Hdlc.Fcs.{index-lt, step_eq, step-high, step-lt, close_eq, close-high, close-low}
use serialmux.Hdlc.{add_one_byte_to_fcs16, close_fcs16}

-- The place of the first entry with the given high byte.
position : ℕ → ℕ → List ℕ → ℕ
position h n [] = n
position h n (x ∷ xs) = if x / 256 == h then n else position h (suc n) xs

high_bytes_differ : all_below 256 (λ i. position (fcs_entry i / 256) 0 fcstab == i) ≡ true
unfolding position fcs_entry
high_bytes_differ = refl

position-entry : (i : ℕ) → i < 256 → position (fcs_entry i / 256) 0 fcstab ≡ i
position-entry i h =
    ==→eq _ _
      (all_below_sound 256 (λ j. position (fcs_entry j / 256) 0 fcstab == j) i high_bytes_differ h)

-- An entry of the table is known by its high byte.
pub high_byte_injective :
    (i j : ℕ) → i < 256 → j < 256 → fcs_entry i / 256 ≡ fcs_entry j / 256 → i ≡ j
high_byte_injective i j hi hj e =
    sym (position-entry i hi) ∙ ap (λ h. position h 0 fcstab) e ∙ position-entry j hj

entry_first : fcs_entry 0xff ≡ 0x0f78
unfolding fcs_entry
entry_first = refl

entry_second : fcs_entry 0x87 ≡ 0xf0b7
unfolding fcs_entry
entry_second = refl

-- After the complemented low byte the register holds the old high byte against 0x0f78.
step_first :
    (s : ℕ) → s < 65536 → add_one_byte_to_fcs16 s (close_fcs16 s % 256) ≡ bit_xor (s / 256) 0x0f78
step_first s hs =
    step_eq s (close_fcs16 s % 256) hs (omega arith)
    ∙ ap (λ i. bit_xor (s / 256) (fcs_entry i))
        (ap (bit_xor (s % 256)) (close-low s hs) ∙ xor_cancel (s % 256) 0xff)
    ∙ ap (bit_xor (s / 256)) entry_first

second_index : (h : ℕ) → h < 256 → bit_xor (bit_xor h 0x78) (bit_xor h 0xff) ≡ 0x87
second_index h hh =
    xor_assoc h 0x78 (bit_xor h 0xff)
    ∙ ap (bit_xor h) (
        sym (xor_assoc 0x78 h 0xff)
        ∙ ap (λ t. bit_xor t 0xff) (xor_comm 0x78 h)
        ∙ xor_assoc h 0x78 0xff)
    ∙ xor_cancel h 0x87

module _ (h : ℕ) (hh : h < 256) where
  mid-lt : bit_xor h 0x0f78 < 65536
  mid-lt = bit_xor-lt 16 h 0x0f78 (omega arith) (omega arith)

  mid_high : bit_xor h 0x0f78 / 256 ≡ 0x0f
  mid_high = xor_high h 0x0f78 ∙ ap (λ t. bit_xor t 0x0f) {y = 0} (omega arith) ∙ zero-xor 0x0f

  mid_low : bit_xor h 0x0f78 % 256 ≡ bit_xor h 0x78
  mid_low = xor_low h 0x0f78 ∙ ap (λ t. bit_xor t 0x78) {y = h} (omega arith)

  step_second : add_one_byte_to_fcs16 (bit_xor h 0x0f78) (bit_xor h 0xff) ≡ 0xf0b8
  step_second =
      step_eq (bit_xor h 0x0f78) (bit_xor h 0xff) mid-lt (xor_byte-lt h 0xff hh (omega arith))
      ∙ ap (λ t. bit_xor t (fcs_entry (bit_xor (bit_xor h 0x0f78 % 256) (bit_xor h 0xff)))) mid_high
      ∙ ap (λ t. bit_xor 0x0f (fcs_entry t))
          (ap (λ t. bit_xor t (bit_xor h 0xff)) mid_low ∙ second_index h hh)
      ∙ ap (bit_xor 0x0f) entry_second

-- The two bytes that the generator appends drive the register to the same value, whatever the
-- data.
pub residue :
    (s : ℕ)
    → s < 65536
    → add_one_byte_to_fcs16 (add_one_byte_to_fcs16 s (close_fcs16 s % 256)) (close_fcs16 s / 256)
      ≡ 0xf0b8
residue s hs =
    ap (λ t. add_one_byte_to_fcs16 t (close_fcs16 s / 256)) (step_first s hs)
    ∙ ap (add_one_byte_to_fcs16 (bit_xor (s / 256) 0x0f78)) (close-high s hs)
    ∙ step_second (s / 256) (omega arith)

module _ (s x y : ℕ) (hs : s < 65536) (hx : x < 256) (hy : y < 256)
    (e : add_one_byte_to_fcs16 (add_one_byte_to_fcs16 s x) y ≡ 0xf0b8) where
  abbrev mid : ℕ
  mid = add_one_byte_to_fcs16 s x

  index_second : bit_xor (mid % 256) y ≡ 0x87
  index_second =
      high_byte_injective (bit_xor (mid % 256) y) 0x87 (index-lt mid y hy) (omega arith) (
        sym (step-high mid y (step-lt s x hs hx) hy)
        ∙ ap (λ t. t / 256) e
        ∙ ap (λ t. t / 256) (sym entry_second))

  high_of_mid : mid / 256 ≡ 0x0f
  high_of_mid =
      sym (xor_cancel_right (mid / 256) 0xf0b7)
      ∙ ap (λ t. bit_xor t 0xf0b7)
          (ap (bit_xor (mid / 256)) (sym (ap fcs_entry index_second ∙ entry_second))
            ∙ sym (step_eq mid y (step-lt s x hs hx) hy)
            ∙ e)

  index_first : bit_xor (s % 256) x ≡ 0xff
  index_first =
      high_byte_injective (bit_xor (s % 256) x) 0xff (index-lt s x hx) (omega arith)
        (sym (step-high s x hs hx) ∙ high_of_mid ∙ ap (λ t. t / 256) (sym entry_first))

  pub residue_low : x ≡ close_fcs16 s % 256
  residue_low =
      sym (xor_cancel (s % 256) x) ∙ ap (bit_xor (s % 256)) index_first ∙ sym (close-low s hs)

  pub residue_high : y ≡ close_fcs16 s / 256
  residue_high =
      sym (xor_cancel (mid % 256) y)
      ∙ ap (bit_xor (mid % 256)) index_second
      ∙ ap (λ t. bit_xor t 0x87)
          (ap (λ t. t % 256) (ap (add_one_byte_to_fcs16 s) residue_low ∙ step_first s hs)
            ∙ mid_low (s / 256) (omega arith))
      ∙ xor_assoc (s / 256) 0x78 0x87
      ∙ sym (close-high s hs)

-- The constant of `validateChecksum` is that value, closed.
pub close_iff : (t : ℕ) → t < 65536 → (close_fcs16 t ≡ 0xf47) ↔ (t ≡ 0xf0b8)
close_iff t ht = (
  λ e. sym (xor_cancel_right t 0xffff) ∙ ap (λ v. bit_xor v 0xffff) (sym (close_eq t ht) ∙ e),
  λ e. close_eq t ht ∙ ap (λ v. bit_xor v 0xffff) e,
)

-- ===== src/Hdlc/Fcs.antt =====
-- One step of the frame check sequence, read as arithmetic on the register's two bytes.
use serialmux.Prelude.{
  ℕ, ◌/◌, ◌%◌, ◌^◌, ◌<◌, bit_and, bit_xor, ◌≡◌, refl, ap, sym, ◌∙◌, true, List, [], ◌∷◌, ◌++◌,
  arith, ltb, ltb→lt, all_below, all_below_sound, All,
}
use serialmux.Prelude.Bits.{
  xor_high, xor_low, xor_byte-lt, mask_byte, mask_word, zero-xor, xor_cancel_right, bit_xor-lt,
}
use serialmux.Hdlc.Table.{fcs_entry}
use serialmux.Hdlc.{add_one_byte_to_fcs16, close_fcs16, compute_loop}

abbrev pub AreBytes : List ℕ → Type 0
AreBytes xs = All (λ b. b < 256) xs

entries_fit : all_below 256 (λ i. ltb (fcs_entry i) 65536) ≡ true
unfolding fcs_entry
entries_fit = refl

pub fcs_entry-lt : (i : ℕ) → i < 256 → fcs_entry i < 65536
fcs_entry-lt i h = ltb→lt _ _ (all_below_sound 256 (λ j. ltb (fcs_entry j) 65536) i entries_fit h)

pub index_eq : (s b : ℕ) → b < 256 → bit_xor s b % 256 ≡ bit_xor (s % 256) b
index_eq s b h = xor_low s b ∙ ap (bit_xor (s % 256)) (omega arith)

pub index-lt : (s b : ℕ) → b < 256 → bit_xor (s % 256) b < 256
index-lt s b h = xor_byte-lt (s % 256) b (omega arith) h

-- The step on a 16-bit register.
pub step_eq :
    (s b : ℕ)
    → s < 65536
    → b < 256
    → add_one_byte_to_fcs16 s b ≡ bit_xor (s / 256) (fcs_entry (bit_xor (s % 256) b))
unfolding add_one_byte_to_fcs16
step_eq s b hs hb =
    ap (λ t. bit_xor (t / 2 ^ 8) (fcs_entry (bit_and (bit_xor s b) 0xff)))
      (mask_word s ∙ omega arith)
    ∙ ap (λ t. bit_xor (s / 256) (fcs_entry t)) (mask_byte (bit_xor s b) ∙ index_eq s b hb)

pub step-high :
    (s b : ℕ)
    → s < 65536
    → b < 256
    → add_one_byte_to_fcs16 s b / 256 ≡ fcs_entry (bit_xor (s % 256) b) / 256
step-high s b hs hb =
    ap (λ t. t / 256) (step_eq s b hs hb)
    ∙ xor_high (s / 256) (fcs_entry (bit_xor (s % 256) b))
    ∙ ap (λ t. bit_xor t (fcs_entry (bit_xor (s % 256) b) / 256)) (omega arith)
    ∙ zero-xor _

pub step-low :
    (s b : ℕ)
    → s < 65536
    → b < 256
    → add_one_byte_to_fcs16 s b % 256 ≡ bit_xor (s / 256) (fcs_entry (bit_xor (s % 256) b) % 256)
step-low s b hs hb =
    ap (λ t. t % 256) (step_eq s b hs hb)
    ∙ xor_low (s / 256) (fcs_entry (bit_xor (s % 256) b))
    ∙ ap (λ t. bit_xor t (fcs_entry (bit_xor (s % 256) b) % 256)) (omega arith)

pub step-lt : (s b : ℕ) → s < 65536 → b < 256 → add_one_byte_to_fcs16 s b < 65536
step-lt s b hs hb =
    omega (arith, step-high s b hs hb, fcs_entry-lt (bit_xor (s % 256) b) (index-lt s b hb))

pub compute_loop-append :
    (s : ℕ) (xs ys : List ℕ) → compute_loop s (xs ++ ys) ≡ compute_loop (compute_loop s xs) ys
unfolding compute_loop add_one_byte_to_fcs16
compute_loop-append s [] ys = refl
compute_loop-append s (x ∷ xs) ys = compute_loop-append (add_one_byte_to_fcs16 s x) xs ys

-- The parser's incremental step is the loop body of `compute_fcs16`.
pub compute_loop-cons :
    (s x : ℕ) (xs : List ℕ) → compute_loop s (x ∷ xs) ≡ compute_loop (add_one_byte_to_fcs16 s x) xs
unfolding compute_loop add_one_byte_to_fcs16
compute_loop-cons s x xs = refl

pub compute_loop-snoc :
    (s x : ℕ) (xs : List ℕ)
    → compute_loop s (xs ++ x ∷ []) ≡ add_one_byte_to_fcs16 (compute_loop s xs) x
unfolding compute_loop add_one_byte_to_fcs16
compute_loop-snoc s x xs = compute_loop-append s xs (x ∷ [])

pub compute_loop-lt : (s : ℕ) (xs : List ℕ) → s < 65536 → AreBytes xs → compute_loop s xs < 65536
unfolding compute_loop
compute_loop-lt s [] hs hx = hs
compute_loop-lt s (x ∷ xs) hs hx =
    subst_loop (compute_loop-lt (add_one_byte_to_fcs16 s x) xs (step-lt s x hs hx.0) hx.1)
  where
    subst_loop :
        compute_loop (add_one_byte_to_fcs16 s x) xs < 65536 → compute_loop s (x ∷ xs) < 65536
    subst_loop h = omega (arith, h, compute_loop-cons s x xs)

-- Closing complements the register.
pub close_eq : (s : ℕ) → s < 65536 → close_fcs16 s ≡ bit_xor s 0xffff
unfolding close_fcs16
close_eq s hs =
    mask_word (bit_xor s 0xffff % 2 ^ 16) ∙ omega (arith, bit_xor-lt 16 s 0xffff hs (omega arith))

pub close-high : (s : ℕ) → s < 65536 → close_fcs16 s / 256 ≡ bit_xor (s / 256) 0xff
close-high s hs = ap (λ t. t / 256) (close_eq s hs) ∙ xor_high s 0xffff

pub close-low : (s : ℕ) → s < 65536 → close_fcs16 s % 256 ≡ bit_xor (s % 256) 0xff
close-low s hs = ap (λ t. t % 256) (close_eq s hs) ∙ xor_low s 0xffff

pub close-lt : (s : ℕ) → s < 65536 → close_fcs16 s < 65536
close-lt s hs = omega (arith, close_eq s hs, bit_xor-lt 16 s 0xffff hs (omega arith))

pub close_injective : (s t : ℕ) → s < 65536 → t < 65536 → close_fcs16 s ≡ close_fcs16 t → s ≡ t
close_injective s t hs ht e =
    sym (xor_cancel_right s 0xffff)
    ∙ ap (λ v. bit_xor v 0xffff) (sym (close_eq s hs) ∙ e ∙ close_eq t ht)
    ∙ xor_cancel_right t 0xffff

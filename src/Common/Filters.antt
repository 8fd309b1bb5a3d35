-- ===== src/Common/Filters.antt =====
-- The wire format of subscriptions.
use serialmux.Prelude.{
  ℕ, zero, suc, refl, set, drop, ◌+◌, ◌*◌, ◌/◌, ◌%◌, ◌^◌, ◌≤◌, ◌<◌, bit_and, bit_or, true, false,
  ◌≡◌, ap, ◌∙◌, some, List, [], ◌∷◌, length, arith, ltb, leb, le→ltb, le→leb,
}
use serialmux.Prelude.Bits.{mask_byte, bit_or_fields, bit_and_shifted}
use native.Mathlib.Nat.{mul-div_cancel}
use serialmux.Common.{
  SubscriptionParams, write_filter, filter_to_vector, join_bytes, vector_to_filter,
}

-- The two fields are 32-bit patterns.
pub record IsParams (s : SubscriptionParams) : Type 0 where
  pub filter-lt : s.filter < 2 ^ 32
  pub unreliable-lt : s.unreliable < 2 ^ 32

keep_byte : (k d : ℕ) → d < 256 → 0 < 2 ^ k → bit_and (d * 2 ^ k) (0xff * 2 ^ k) ≡ d * 2 ^ k
keep_byte k d h pos =
    bit_and_shifted k (d * 2 ^ k) 0xff
    ∙ ap (λ t. t * 2 ^ k)
        (ap (λ t. bit_and t 0xff) (mul-div_cancel d pos) ∙ mask_byte d ∙ omega arith)

join_bytes_eq :
    (a b c d : ℕ)
    → a < 256
    → b < 256
    → c < 256
    → d < 256
    → join_bytes a b c d ≡ a * 2 ^ 24 + b * 2 ^ 16 + c * 2 ^ 8 + d
unfolding join_bytes
join_bytes_eq a b c d ha hb hc hd =
    (λ i. bit_or (bit_or (bit_or (top i) (second i)) (third i)) (mask_byte d i))
    ∙ ap (λ t. bit_or (bit_or (bit_or (a * 2 ^ 24) (b * 2 ^ 16)) (c * 2 ^ 8)) t) {y = d}
        (omega arith)
    ∙ ap (λ t. bit_or (bit_or t (c * 2 ^ 8)) d) {y = (a * 256 + b) * 2 ^ 16}
        (bit_or_fields 24 a (b * 2 ^ 16) (omega arith) ∙ omega arith)
    ∙ ap (λ t. bit_or t d) {y = ((a * 256 + b) * 256 + c) * 2 ^ 8}
        (bit_or_fields 16 (a * 256 + b) (c * 2 ^ 8) (omega arith) ∙ omega arith)
    ∙ bit_or_fields 8 ((a * 256 + b) * 256 + c) d (omega arith)
    ∙ omega arith
  where
    top : bit_and (a * 2 ^ 24 % 2 ^ 32) 0xff000000 ≡ a * 2 ^ 24
    top =
        ap (λ t. bit_and t 0xff000000) {y = a * 2 ^ 24} (omega arith)
        ∙ keep_byte 24 a ha (omega arith)

    second : bit_and (b * 2 ^ 16) 0xff0000 ≡ b * 2 ^ 16
    second = keep_byte 16 b hb (omega arith)

    third : bit_and (c * 2 ^ 8) 0xff00 ≡ c * 2 ^ 8
    third = keep_byte 8 c hc (omega arith)

-- The four bytes of a word, joined again.
join_word :
    (w : ℕ)
    → w < 2 ^ 32
    → join_bytes
        (bit_and (w / 2 ^ 24) 0xff)
        (bit_and (w / 2 ^ 16) 0xff)
        (bit_and (w / 2 ^ 8) 0xff)
        (bit_and w 0xff)
      ≡ w
join_word w h =
    (λ i.
      join_bytes (mask_byte (w / 2 ^ 24) i) (mask_byte (w / 2 ^ 16) i) (mask_byte (w / 2 ^ 8) i)
        (mask_byte w i))
    ∙ join_bytes_eq (w / 2 ^ 24 % 256) (w / 2 ^ 16 % 256) (w / 2 ^ 8 % 256) (w % 256) (omega arith)
        (omega arith) (omega arith) (omega arith)
    ∙ omega arith

-- The eight bytes of a subscription, read back.
pub vector_to_filter-write_filter :
    (s : SubscriptionParams) (bytes : List ℕ)
    → IsParams s
    → 8 ≤ length bytes
    → vector_to_filter (write_filter s bytes) ≡ some s
unfolding vector_to_filter write_filter
vector_to_filter-write_filter s [] p h = absurd (omega arith)
vector_to_filter-write_filter s (a ∷ []) p h = absurd (omega arith)
vector_to_filter-write_filter s (a ∷ b ∷ []) p h = absurd (omega arith)
vector_to_filter-write_filter s (a ∷ b ∷ c ∷ []) p h = absurd (omega arith)
vector_to_filter-write_filter s (a ∷ b ∷ c ∷ d ∷ []) p h = absurd (omega arith)
vector_to_filter-write_filter s (a ∷ b ∷ c ∷ d ∷ e ∷ []) p h = absurd (omega arith)
vector_to_filter-write_filter s (a ∷ b ∷ c ∷ d ∷ e ∷ f ∷ []) p h = absurd (omega arith)
vector_to_filter-write_filter s (a ∷ b ∷ c ∷ d ∷ e ∷ f ∷ g ∷ []) p h = absurd (omega arith)
vector_to_filter-write_filter s (a ∷ b ∷ c ∷ d ∷ e ∷ f ∷ g ∷ k ∷ rest) p h =
    rw (long, full)
      (λ i. some (record {
        filter = join_word s.filter p.filter-lt i;
        unreliable = join_word s.unreliable p.unreliable-lt i;
      }))
  where
    long : ltb (length (a ∷ b ∷ c ∷ d ∷ e ∷ f ∷ g ∷ k ∷ rest)) 4 ≡ false
    long = le→ltb (length (a ∷ b ∷ c ∷ d ∷ e ∷ f ∷ g ∷ k ∷ rest)) 4 (omega arith)

    full : leb 8 (length (a ∷ b ∷ c ∷ d ∷ e ∷ f ∷ g ∷ k ∷ rest)) ≡ true
    full = le→leb 8 (length (a ∷ b ∷ c ∷ d ∷ e ∷ f ∷ g ∷ k ∷ rest)) (omega arith)

length-set : {A : Type 0} (xs : List A) (i : ℕ) (v : A) → length (set xs i v) ≡ length xs
length-set [] i v = refl
length-set (x ∷ xs) zero v = refl
length-set (x ∷ xs) (suc i) v = ap suc (length-set xs i v)

write_filter-length :
    (s : SubscriptionParams) (bytes : List ℕ) → length (write_filter s bytes) ≡ length bytes
unfolding write_filter
write_filter-length s bytes = simp (length-set)

write_filter-drop :
    (s : SubscriptionParams) (bytes : List ℕ) → drop 8 (write_filter s bytes) ≡ drop 8 bytes
unfolding write_filter
write_filter-drop s [] = refl
write_filter-drop s (a ∷ []) = refl
write_filter-drop s (a ∷ b ∷ []) = refl
write_filter-drop s (a ∷ b ∷ c ∷ []) = refl
write_filter-drop s (a ∷ b ∷ c ∷ d ∷ []) = refl
write_filter-drop s (a ∷ b ∷ c ∷ d ∷ e ∷ []) = refl
write_filter-drop s (a ∷ b ∷ c ∷ d ∷ e ∷ f ∷ []) = refl
write_filter-drop s (a ∷ b ∷ c ∷ d ∷ e ∷ f ∷ g ∷ []) = refl
write_filter-drop s (a ∷ b ∷ c ∷ d ∷ e ∷ f ∷ g ∷ k ∷ rest) = refl

-- Writing a subscription over a vector of at least eight bytes is defined; it reads back as the same
-- subscription, and the length and all bytes behind the eighth are as they were.
pub vector_to_filter-filter_to_vector :
    (s : SubscriptionParams) (bytes : List ℕ)
    → IsParams s
    → 8 ≤ length bytes
    → (written : List ℕ) × (filter_to_vector s bytes ≡ some written)
      × (vector_to_filter written ≡ some s)
      × (length written ≡ length bytes)
      × (drop 8 written ≡ drop 8 bytes)
unfolding filter_to_vector
vector_to_filter-filter_to_vector s bytes p h = (
  write_filter s bytes,
  rw (le→ltb (length bytes) 8 h) refl,
  vector_to_filter-write_filter s bytes p h,
  write_filter-length s bytes,
  write_filter-drop s bytes,
)

-- ===== src/Options/Hex.antt =====
-- `hexToBin` reads what is written as hexadecimal digits.
use serialmux.Prelude.{
  ℕ, zero, suc, ◌+◌, ◌-◌, ◌/◌, ◌≤◌, ◌<◌, ◌≡◌, ◌⊎◌, refl, ap, sym, ap₂, ◌∙◌, Bool, true, false, inl,
  inr, List, [], ◌∷◌, ◌++◌, append_assoc, replicate, All, length, arith, if◌then◌else◌,
  length-append,
}
use serialmux.Options.{HexState, hex_loop, skip_spaces, hex_to_bin}
use serialmux.Options.Digits.{
  Gap, nothing, dash, colon, byte_text, rest_text, bytes_of, digit-is_space, going, round_gap,
  round_end, loop_round, loop_byte, loop_next_byte,
}

-- What is left when a byte has been read behind `before`.
module _ (len j k b : ℕ) (before : List ℕ) (bs : List (Gap × ℕ)) (e : length before ≡ suc j) where
  abbrev ends : ℕ → List ℕ → ℕ → HexState
  ends idx held spare =
      going (idx + length bs) 0 false (held ++ (bytes_of bs ++ replicate (spare - length bs) 0))

  after_byte :
      hex_loop len (rest_text bs) (going (suc j) 2 true ((before ++ b ∷ []) ++ replicate k 0))
        ≡ ends (suc (suc j)) (before ++ b ∷ []) k
      → hex_loop len (rest_text bs) (going (length before) 2 true (before ++ b ∷ replicate k 0))
        ≡ going
            (suc j + suc (length bs))
            0
            false
            (before ++ b ∷ (bytes_of bs ++ replicate (suc k - suc (length bs)) 0))
  after_byte rest =
      ap₂ (λ idx out. hex_loop len (rest_text bs) (going idx 2 true out)) e
        (sym (append_assoc before (b ∷ []) (replicate k 0)))
      ∙ rest
      ∙ ap₂ (λ idx out. going idx 0 false out) further
          (append_assoc before (b ∷ []) (bytes_of bs ++ replicate (k - length bs) 0)
            ∙ ap (λ n. before ++ b ∷ (bytes_of bs ++ replicate n 0)) {y = suc k - suc (length bs)}
                (omega arith))
    where
      further : suc (suc j) + length bs ≡ suc j + suc (length bs)
      further = omega arith

  grown : length (before ++ b ∷ []) ≡ suc (suc j)
  grown = omega (arith, length-append before (b ∷ []))

  behind_gap :
      (c : ℕ) (was_digit : Bool)
      → b < 256
      → suc j < len
      → (c ≡ b'-') ⊎ (c ≡ b':')
      → hex_loop len
          (c ∷ (byte_text b ++ rest_text bs))
          (going j 2 true (before ++ 0 ∷ replicate k 0))
        ≡ hex_loop len (rest_text bs) (going (length before) 2 true (before ++ b ∷ replicate k 0))
  behind_gap c was_digit is_byte lt sep =
      loop_round len c (byte_text b ++ rest_text bs) _ _
        (round_gap len c j (before ++ 0 ∷ replicate k 0) sep)
      ∙ ap
          (λ idx.
            hex_loop len (byte_text b ++ rest_text bs)
              (going idx 0 false (before ++ 0 ∷ replicate k 0)))
          {y = length before} (omega arith)
      ∙ loop_byte len b is_byte before (replicate k 0) (rest_text bs) false (omega arith)

-- The loop over the bytes behind the first, into a buffer with `k` zeros left.
loop_rest :
    (len j k : ℕ) (before : List ℕ) (bs : List (Gap × ℕ))
    → length before ≡ suc j
    → len ≡ suc j + k
    → length bs ≤ k
    → All (λ b. b < 256) (bytes_of bs)
    → hex_loop len (rest_text bs) (going j 2 true (before ++ replicate k 0))
      ≡ going (suc j + length bs) 0 false (before ++ (bytes_of bs ++ replicate (k - length bs) 0))
unfolding rest_text
loop_rest len j k before [] e size fits ok =
    unfold hex_loop in
    (ap (λ r. r.0) (round_end len j (before ++ replicate k 0))
      ∙ ap₂ (λ idx n. going idx 0 false (before ++ replicate n 0)) (omega arith) (omega arith))
loop_rest len j zero before ((g, b) ∷ bs) e size fits ok = absurd (omega arith)
loop_rest len j (suc k) before ((nothing, b) ∷ bs) e size fits (ok, oks) =
    loop_next_byte len b ok before (replicate k 0) (rest_text bs) j e (omega arith)
    ∙ after_byte len j k b before bs e (
        loop_rest len (suc j) k (before ++ b ∷ []) bs (grown len j k b before bs e) (omega arith)
          (omega arith) oks)
loop_rest len j (suc k) before ((dash, b) ∷ bs) e size fits (ok, oks) =
    behind_gap len j k b before bs e b'-' true ok (omega arith) (inl refl)
    ∙ after_byte len j k b before bs e (
        loop_rest len (suc j) k (before ++ b ∷ []) bs (grown len j k b before bs e) (omega arith)
          (omega arith) oks)
loop_rest len j (suc k) before ((colon, b) ∷ bs) e size fits (ok, oks) =
    behind_gap len j k b before bs e b':' true ok (omega arith) (inr refl)
    ∙ after_byte len j k b before bs e (
        loop_rest len (suc j) k (before ++ b ∷ []) bs (grown len j k b before bs e) (omega arith)
          (omega arith) oks)

-- Bytes that are written as two lower-case hexadecimal digits each, with nothing, a dash or a colon
-- between two of them, are read back, with their number as the result, into a buffer that has room
-- for them. What the buffer has beyond them is 0: too short a token is no error.
pub hex_to_bin-text :
    (b len : ℕ) (bs : List (Gap × ℕ))
    → length bs < len
    → All (λ d. d < 256) (b ∷ bytes_of bs)
    → hex_to_bin (byte_text b ++ rest_text bs) len
      ≡ (b ∷ (bytes_of bs ++ replicate (len - suc (length bs)) 0), suc (length bs))
hex_to_bin-text b zero bs fits oks = absurd (omega arith)
hex_to_bin-text b (suc k) bs fits (ok, oks) = unfold hex_to_bin in ap result (spaces ∙ loop)
  where
    result : HexState → List ℕ × ℕ
    result s = (s.out_buf, if s.is_ok then s.idx else 0)

    fresh : HexState
    fresh = going 0 0 false (0 ∷ replicate k 0)

    spaces :
        hex_loop (suc k) (skip_spaces (byte_text b ++ rest_text bs)) fresh
        ≡ hex_loop (suc k) (byte_text b ++ rest_text bs) fresh
    spaces =
        ap (λ cs. hex_loop (suc k) cs fresh)
          (unfold skip_spaces byte_text in rw (digit-is_space (b / 16) (omega arith)) refl)

    loop :
        hex_loop (suc k) (byte_text b ++ rest_text bs) fresh
        ≡ going
            (suc (length bs))
            0
            false
            (b ∷ (bytes_of bs ++ replicate (suc k - suc (length bs)) 0))
    loop =
        loop_byte (suc k) b ok [] (replicate k 0) (rest_text bs) false (omega arith)
        ∙ loop_rest (suc k) 0 k (b ∷ []) bs refl (omega arith) (omega arith) oks
        ∙ ap₂ (λ n spare. going n 0 false (b ∷ (bytes_of bs ++ replicate spare 0))) count left
      where
        count : 1 + length bs ≡ suc (length bs)
        count = omega arith

        left : k - length bs ≡ suc k - suc (length bs)
        left = omega arith

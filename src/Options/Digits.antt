-- ===== src/Options/Digits.antt =====
-- The rounds of `hexToBin` at the digits of a byte, at what stands between bytes, and at the end.
use serialmux.Prelude.{
  ℕ, suc, ◌+◌, ◌*◌, ◌/◌, ◌%◌, ◌<◌, ◌≡◌, ◌⊎◌, refl, ap, ◌∙◌, Bool, true, false, List, [], ◌∷◌, ◌++◌,
  set, length, get_or, ltb, arith, if◌then◌else◌,
}
use serialmux.Options.{is_space, is_xdigit, hex_value, HexState, hex_digit, hex_round, hex_loop}

-- A hexadecimal digit, and what may stand before a byte other than the first.
unfoldable pub digit : ℕ → ℕ
digit n = if ltb n 10 then n + 48 else n + 87

pub data Gap : Type 0 where
  nothing dash colon : Gap

abbrev pub gap_text : Gap → List ℕ
gap_text nothing = []
gap_text dash = b'-' ∷ []
gap_text colon = b':' ∷ []

unfoldable pub byte_text : ℕ → List ℕ
byte_text b = digit (b / 16) ∷ digit (b % 16) ∷ []

unfoldable pub rest_text : List (Gap × ℕ) → List ℕ
rest_text [] = []
rest_text ((g, b) ∷ bs) = gap_text g ++ (byte_text b ++ rest_text bs)

abbrev pub bytes_of : List (Gap × ℕ) → List ℕ
bytes_of [] = []
bytes_of ((g, b) ∷ bs) = b ∷ bytes_of bs

digit-is_xdigit : (n : ℕ) → n < 16 → is_xdigit (digit n) ≡ true
unfolding digit is_xdigit
digit-is_xdigit n h = ground arith

digit-hex_value : (n : ℕ) → n < 16 → hex_value (digit n) ≡ n
unfolding digit hex_value
digit-hex_value n h = ground arith

pub digit-is_space : (n : ℕ) → n < 16 → is_space (digit n) ≡ false
unfolding digit is_space
digit-is_space n h = ground arith

abbrev pub going : ℕ → ℕ → Bool → List ℕ → HexState
going idx nn was_digit out = record {
  idx = idx;
  nn = nn;
  is_ok = true;
  was_digit = was_digit;
  out_buf = out;
}

module _ (len c n : ℕ) (xdigit : is_xdigit c ≡ true) (value : hex_value c ≡ n) where
  -- A digit that goes on with a byte, or begins the byte at a place that was moved to before.
  round_digit :
      (j nn : ℕ) (was_digit : Bool) (out : List ℕ)
      → j < len
      → nn < 2
      → hex_round len c (going j nn was_digit out)
        ≡ (going j (nn + 1) true (set out j ((get_or out j 0 * 16 + n) % 256)), true)
  unfolding hex_round hex_digit
  round_digit j nn was_digit out lt few = ground arith

  -- A digit behind a whole byte.
  round_next :
      (j : ℕ) (out : List ℕ)
      → suc j < len
      → hex_round len c (going j 2 true out)
        ≡ (going (j + 1) 1 true (set out (j + 1) ((get_or out (j + 1) 0 * 16 + n) % 256)), true)
  unfolding hex_round hex_digit
  round_next j out lt = ground arith

pub round_gap :
    (len c j : ℕ) (out : List ℕ)
    → (c ≡ b'-') ⊎ (c ≡ b':')
    → hex_round len c (going j 2 true out) ≡ (going (j + 1) 0 false out, true)
unfolding hex_round is_xdigit is_space
round_gap len c j out h = ground arith

-- The 0 behind the text.
pub round_end :
    (len j : ℕ) (out : List ℕ)
    → hex_round len 0 (going j 2 true out) ≡ (going (j + 1) 0 false out, false)
unfolding hex_round is_xdigit is_space
round_end len j out = refl

pub loop_round :
    (len c : ℕ) (cs : List ℕ) (s next : HexState)
    → hex_round len c s ≡ (next, true)
    → hex_loop len (c ∷ cs) s ≡ hex_loop len cs next
unfolding hex_loop
loop_round len c cs s next e = rw e refl

set_at :
    (before : List ℕ) (x v : ℕ) (after : List ℕ)
    → set (before ++ x ∷ after) (length before) v ≡ before ++ v ∷ after
set_at [] x v after = refl
set_at (y ∷ before) x v after = ap (◌∷◌ y) (set_at before x v after)

get_at :
    (before : List ℕ) (x : ℕ) (after : List ℕ) → get_or (before ++ x ∷ after) (length before) 0 ≡ x
get_at [] x after = refl
get_at (y ∷ before) x after = get_at before x after

-- The two digits of a byte, at the end of what was read before.
module _ (len b : ℕ) (is_byte : b < 256) (before after cs : List ℕ) where
  abbrev pub place : ℕ
  place = length before

  abbrev pub buffer : ℕ → List ℕ
  buffer v = before ++ v ∷ after

  write_digit :
      (v n : ℕ)
      → set (buffer v) place ((get_or (buffer v) place 0 * 16 + n) % 256)
        ≡ buffer ((v * 16 + n) % 256)
  write_digit v n = rw (get_at before v after) (set_at before v ((v * 16 + n) % 256) after)

  second_digit :
      place < len
      → hex_loop len (digit (b % 16) ∷ cs) (going place 1 true (buffer (b / 16)))
        ≡ hex_loop len cs (going place 2 true (buffer b))
  second_digit lt =
      loop_round len (digit (b % 16)) cs _ _ (
        round_digit len (digit (b % 16)) (b % 16) (digit-is_xdigit (b % 16) (omega arith))
          (digit-hex_value (b % 16) (omega arith)) place 1 true (buffer (b / 16)) lt (omega arith))
      ∙ ap (λ out. hex_loop len cs (going place 2 true out))
          (write_digit (b / 16) (b % 16) ∙ ap buffer {y = b} (omega arith))

  pub loop_byte :
      (was_digit : Bool)
      → place < len
      → hex_loop len (byte_text b ++ cs) (going place 0 was_digit (buffer 0))
        ≡ hex_loop len cs (going place 2 true (buffer b))
  unfolding byte_text
  loop_byte was_digit lt =
      loop_round len (digit (b / 16)) (digit (b % 16) ∷ cs) _ _ (
        round_digit len (digit (b / 16)) (b / 16) (digit-is_xdigit (b / 16) (omega arith))
          (digit-hex_value (b / 16) (omega arith)) place 0 was_digit (buffer 0) lt (omega arith))
      ∙ ap (λ out. hex_loop len (digit (b % 16) ∷ cs) (going place 1 true out))
          (write_digit 0 (b / 16) ∙ ap buffer {y = b / 16} (omega arith))
      ∙ second_digit lt

  -- A byte behind another one, with nothing between.
  pub loop_next_byte :
      (j : ℕ)
      → place ≡ suc j
      → place < len
      → hex_loop len (byte_text b ++ cs) (going j 2 true (buffer 0))
        ≡ hex_loop len cs (going place 2 true (buffer b))
  unfolding byte_text
  loop_next_byte j e lt =
      loop_round len (digit (b / 16)) (digit (b % 16) ∷ cs) _ _ (
        round_next len (digit (b / 16)) (b / 16) (digit-is_xdigit (b / 16) (omega arith))
          (digit-hex_value (b / 16) (omega arith)) j (buffer 0) (omega arith))
      ∙ ap
          (λ k.
            hex_loop len (digit (b % 16) ∷ cs)
              (going k 1 true (set (buffer 0) k ((get_or (buffer 0) k 0 * 16 + b / 16) % 256))))
          {y = place} (omega arith)
      ∙ ap (λ out. hex_loop len (digit (b % 16) ∷ cs) (going place 1 true out))
          (write_digit 0 (b / 16) ∙ ap buffer {y = b / 16} (omega arith))
      ∙ second_digit lt

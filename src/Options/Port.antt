-- ===== src/Options/Port.antt =====
-- `parseConfiguration`: which ports stand for the emulator's UDP port, and which for a serial device.
use serialmux.Prelude.{
  ℕ, ◌+◌, ◌*◌, ◌%◌, ◌^◌, ◌<◌, ◌≡◌, refl, ap, subst, ◌∙◌, Bool, true, false, ◌&&◌, ◌||◌,
  Option-cases, inl, inr, Option, none, some, ne→==, ◌≢◌, List, [], ◌∷◌, ◌++◌, All, ltb, ◌==◌,
  arith, if◌then◌else◌, lt→ltb,
}
use serialmux.Options.{hex_to_bin, is_digit, is_space, skip_spaces}
use serialmux.Options.Config
use serialmux.Options.Values.{Finishes}
use serialmux.Options.Config.{Text, ProgramOptions, SerialMuxOptions}
use serialmux.Options.Parse.{
  Ending, authentication_len, parse_flags, digits_value, signed_value, unsigned_text, atoi,
  parse_port, parse_values, parse_token,
}

-- The number that decimal digits stand for, and their text.
abbrev pub decimal : ℕ → List ℕ → ℕ
decimal acc [] = acc
decimal acc (d ∷ ds) = decimal (acc * 10 + d) ds

unfoldable pub digits_text : List ℕ → Text
digits_text [] = []
digits_text (d ∷ ds) = (d + 48) ∷ digits_text ds

-- A text that does not start with a digit: what may stand behind the number.
abbrev pub IsOver : Text → Type 0
IsOver [] = Unit
IsOver (c ∷ cs) = is_digit c ≡ false

digits_value-digits_text :
    (acc : ℕ) (ds : List ℕ) (rest : Text)
    → All (λ d. d < 10) ds
    → IsOver rest
    → digits_value acc (digits_text ds ++ rest) ≡ decimal acc ds
unfolding digits_value digits_text is_digit
digits_value-digits_text acc [] [] h over = refl
digits_value-digits_text acc [] (c ∷ cs) h over = rw over refl
digits_value-digits_text acc (d ∷ ds) rest (first, others) over =
    let ih = digits_value-digits_text (acc * 10 + d) ds rest others over in ground arith

-- A digit is neither a space nor a sign.
starts_number :
    (d : ℕ) (cs : Text)
    → d < 10
    → unsigned_text (skip_spaces ((d + 48) ∷ cs)) ≡ (false, (d + 48) ∷ cs)
unfolding unsigned_text skip_spaces is_space
starts_number d cs h = ground arith

atoi-digits_text :
    (d : ℕ) (ds : List ℕ) (rest : Text)
    → All (λ e. e < 10) (d ∷ ds)
    → IsOver rest
    → decimal 0 (d ∷ ds) < 2 ^ 31
    → atoi (digits_text (d ∷ ds) ++ rest) ≡ some (decimal 0 (d ∷ ds))
unfolding atoi signed_value
atoi-digits_text d ds rest digits over small =
    let start : unsigned_text (skip_spaces (digits_text (d ∷ ds) ++ rest))
        ≡ (false, digits_text (d ∷ ds) ++ rest) =
      unfold digits_text in starts_number d (digits_text ds ++ rest) digits.0 in
    rw start (
      rw (digits_value-digits_text 0 (d ∷ ds) rest digits over)
        (rw (lt→ltb (decimal 0 (d ∷ ds)) (2 ^ 31) small) refl))

-- Parsing finishes, with this emulator port and for a serial device or not.
abbrev pub HasPort : ℕ → Bool → Ending → Type 0
HasPort p serial = Finishes (λ o. (o.emulator_port ≡ p) × (o.use_serial ≡ serial))

-- There is no authentication token, or one with at least one byte.
abbrev pub IsTokenText : Option Text → Type 0
IsTokenText none = Unit
IsTokenText (some text) = (hex_to_bin text authentication_len).1 ≢ 0

module _ (lib : ProgramOptions) (m : lib.VariablesMap) where
  parse_token-HasPort :
      (o : SerialMuxOptions)
      → IsTokenText (lib.value m Config.auth_token)
      → HasPort o.emulator_port o.use_serial (parse_token lib m o)
  unfolding parse_token parse_flags
  parse_token-HasPort o token = elim (Option-cases (lib.value m Config.auth_token)) [
    | inl e ↦ rw (e, Finishes) (refl, refl)
    | inr (text, e) ↦
        let valid : (hex_to_bin text authentication_len).1 ≢ 0 = subst IsTokenText e token in
        rw (e, Finishes)
          (rw (ne→== (hex_to_bin text authentication_len).1 0 valid, Finishes) (refl, refl))
  ]

  -- If a port's text starts with the digits of a number below 2^31, and there is no token or a valid
  -- one, then parsing finishes: the port is that of the emulator, in 16 bits and whatever stands
  -- behind the digits, unless those 16 bits are 0 or 65535: then it is a serial device.
  pub parse_values-HasPort :
      (o : SerialMuxOptions) (d : ℕ) (ds : List ℕ) (rest : Text)
      → All (λ e. e < 10) (d ∷ ds)
      → IsOver rest
      → decimal 0 (d ∷ ds) < 2 ^ 31
      → o.serial_port ≡ digits_text (d ∷ ds) ++ rest
      → o.use_serial ≡ true
      → IsTokenText (lib.value m Config.auth_token)
      → HasPort
          (decimal 0 (d ∷ ds) % 65536)
          ((decimal 0 (d ∷ ds) % 65536 == 0) || (decimal 0 (d ∷ ds) % 65536 == 65535))
          (parse_values lib m o)
  unfolding parse_values parse_port
  parse_values-HasPort o d ds rest digits over small text serial token =
      let number : atoi o.serial_port ≡ some (decimal 0 (d ∷ ds)) =
        ap atoi text ∙ atoi-digits_text d ds rest digits over small in
      rw (number, Finishes)
        (subst
          (λ b.
            HasPort (decimal 0 (d ∷ ds) % 65536) b
              (parse_token lib m (parse_port (decimal 0 (d ∷ ds)) o)))
          (kind (decimal 0 (d ∷ ds)))
          (parse_token-HasPort (parse_port (decimal 0 (d ∷ ds)) o) token))
    where
      kind :
          (n : ℕ)
          → (if ltb 0 (n % 2 ^ 16) && ltb (n % 2 ^ 16) 65535 then false else o.use_serial)
            ≡ ((n % 65536 == 0) || (n % 65536 == 65535))
      kind n = ground arith

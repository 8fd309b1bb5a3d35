-- ===== src/Options.antt =====
-- serial_mux/SerialMuxOptions.h and serial_mux/SerialMuxOptions.cpp: `hexToBin`;
-- the options and `parseConfiguration` are in Options/Config and Options/Parse.
-- Text is a list of character codes without the final 0. `isspace`, `isdigit`, `isxdigit` and
-- `tolower` are those of the C locale.
pub mod Digits
pub mod Hex
pub mod Config
pub mod Parse
pub mod Values
pub mod Precedence
pub mod Port
pub mod Tests
use serialmux.Prelude.{
  ℕ, suc, ◌+◌, ◌-◌, ◌*◌, ◌%◌, Bool, true, false, not, ◌&&◌, ◌||◌, Option, none, some, List, [], ◌∷◌,
  replicate, get_or, set, ltb, leb, ◌==◌, if◌then◌else◌,
}

unfoldable pub is_space : ℕ → Bool
is_space c = c == 32 || (leb 9 c && leb c 13)

unfoldable pub is_digit : ℕ → Bool
is_digit c = leb 48 c && leb c 57

unfoldable pub is_xdigit : ℕ → Bool
unfolding is_digit
is_xdigit c = is_digit c || ((leb 65 c && leb c 70) || (leb 97 c && leb c 102))

unfoldable pub to_lower : ℕ → ℕ
to_lower c = if leb 65 c && leb c 90 then c + 32 else c

-- `numb`; `tolower(c)-'a'+10` is not below 0, since `c` is a hexadecimal digit.
unfoldable pub hex_value : ℕ → ℕ
unfolding is_digit to_lower
hex_value c = if is_digit c then c - 48 else to_lower c + 10 - 97

-- The variables of the loop of `hexToBin`.
pub record HexState : Type 0 where
  pub idx : ℕ
  pub nn : ℕ
  pub is_ok : Bool
  pub was_digit : Bool
  pub out_buf : List ℕ

abbrev pub is_separator : ℕ → Bool
is_separator c = c == b'-' || c == b':'

-- What a round does with a digit, at the place that the round has moved on to.
unfoldable pub hex_digit : ℕ → ℕ → HexState → HexState
hex_digit len c s =
    if ltb s.idx len
    then record s {
      out_buf = set s.out_buf s.idx ((get_or s.out_buf s.idx 0 * 16 + hex_value c) % 256);
      nn = s.nn + 1;
      was_digit = true;
    }
    else record s { is_ok = false; was_digit = true }

-- The rest of a round behind its test, with whether the loop goes on.
unfoldable pub hex_round : ℕ → ℕ → HexState → HexState × Bool
hex_round len c s =
    let digit = is_xdigit c in
    let allowed = (s.was_digit && (c == 0 || is_space c || is_separator c)) || digit in
    let moved = if not digit || s.nn == 2 then record s { idx = s.idx + 1; nn = 0 } else s in
    let next = if digit then hex_digit len c moved else record moved { was_digit = false } in
    if allowed
    then (next, next.is_ok && (digit || is_separator c))
    else (record s { is_ok = false; was_digit = digit }, false)

-- The loop; the 0 behind the text ends it.
unfoldable pub hex_loop : ℕ → List ℕ → HexState → HexState
hex_loop len [] s = (hex_round len 0 s).0
hex_loop len (c ∷ cs) s =
    let (next, again) = hex_round len c s in
    let rest = hex_loop len cs next in if again then rest else next

-- `while (isspace(*str)) str++;`
unfoldable pub skip_spaces : List ℕ → List ℕ
unfolding is_space
skip_spaces [] = []
skip_spaces (c ∷ cs) = if is_space c then skip_spaces cs else c ∷ cs

-- `hexToBin`: the buffer, and the length or 0.
unfoldable pub hex_to_bin : List ℕ → ℕ → List ℕ × ℕ
unfolding hex_loop skip_spaces
hex_to_bin str len =
    let s =
      hex_loop len (skip_spaces str)
        (record { idx = 0; nn = 0; is_ok = true; was_digit = false; out_buf = replicate len 0 }) in
    (s.out_buf, if s.is_ok then s.idx else 0)

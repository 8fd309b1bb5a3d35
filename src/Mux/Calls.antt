-- ===== src/Mux/Calls.antt =====
-- One call of `parse`: what it has found when it returns true, and what more input changes.
use serialmux.Prelude.{
  ℕ, suc, ◌+◌, ◌-◌, ◌*◌, ◌≤◌, ◌≡◌, refl, ap, sym, ◌∙◌, true, false, ◌⊎◌, inl, inr, none, some, List,
  [], ◌∷◌, ◌++◌, arith, length, length-append, length-drop, take, drop, take-append_le,
  drop-append_le, ltb, Bool-cases, Option-cases,
}
use mathlib.Core.Option
use serialmux.Mux.Parsing.{
  grow, Found, parse_found-Found, parse_found_full, parse_found_silent, search_token-le,
  search_token-append, search_later, search_cases,
}
use serialmux.Mux.{
  magic_token, MuxParser, ParseResult, is_prefix, search_token, callback, wait, parse_found,
  parse_none, parse,
}

pub parse_at :
    (p : MuxParser) (at : ℕ)
    → search_token p.partial_input ≡ some at
    → parse p ≡ parse_found p (at + 4) (drop (at + 4) p.partial_input)
unfolding parse
parse_at p at e = rw (e, parse)

pub parse_nowhere : (p : MuxParser) → search_token p.partial_input ≡ none → parse p ≡ parse_none p
unfolding parse
parse_nowhere p e = rw (e, parse)

pub parse_none_again : (p : MuxParser) → (parse_none p).again ≡ false
unfolding parse_none
parse_none_again p = ground arith

parse_none_commands : (p : MuxParser) → (parse_none p).commands ≡ []
unfolding parse_none
parse_none_commands p = ground arith

parse_none_long :
    (p : MuxParser)
    → ltb 3 (length p.partial_input) ≡ true
    → (parse_none p).parser
      ≡ record p { partial_input = drop (length p.partial_input - 3) p.partial_input }
unfolding parse_none
parse_none_long p h = rw h refl

parse_none_short :
    (p : MuxParser) → ltb 3 (length p.partial_input) ≡ false → (parse_none p).parser ≡ p
unfolding parse_none
parse_none_short p h = rw h refl

wait_commands : (p : MuxParser) → (wait p).commands ≡ []
unfolding wait
wait_commands p = refl

wait_parser : (p : MuxParser) → (wait p).parser ≡ p
unfolding wait
wait_parser p = refl

-- What a call of `parse` that returns true has found.
record Parsed (p : MuxParser) : Type 0 where
  place : ℕ
  high : ℕ
  low : ℕ
  after : List ℕ
  seen : search_token p.partial_input ≡ some place
  shape : drop (place + 4) p.partial_input ≡ high ∷ low ∷ after
  enough : high * 256 + low ≤ length after
  fits : place + 6 + (high * 256 + low) ≤ length p.partial_input
  result : parse p ≡ record {
    again = true;
    parser = record p { partial_input = drop (place + 4 + 2 + (high * 256 + low)) p.partial_input };
    commands = callback p (take (high * 256 + low) after);
  }

parse-Parsed : (p : MuxParser) → (parse p).again ≡ true → Parsed p
parse-Parsed p h = elim (Option-cases (search_token p.partial_input)) [
  | inl e ↦ absurd (cc (ap (λ r. r.again) (parse_nowhere p e), parse_none_again p))
  | inr (at, e) ↦
      let rest : List ℕ = drop (at + 4) p.partial_input in
      let f : Found p (at + 4) rest =
        parse_found-Found p (at + 4) rest (sym (ap (λ r. r.again) (parse_at p at e)) ∙ h) in
      record {
        place = at;
        high = f.high;
        low = f.low;
        after = f.after;
        seen = e;
        shape = f.shape;
        enough = f.enough;
        fits = omega (
          arith,
          f.enough,
          search_token-le p.partial_input at e,
          length-drop (at + 4) p.partial_input,
          ap length f.shape,
        );
        result =
            parse_at p at e
            ∙ ap (parse_found p (at + 4)) f.shape
            ∙ parse_found_full p (at + 4) f.high f.low f.after f.enough;
      }
]

-- Each command takes bytes out of the buffer.
pub parse_shrinks :
    (p : MuxParser)
    → (parse p).again ≡ true
    → length (parse p).parser.partial_input + 6 ≤ length p.partial_input
parse_shrinks p h =
    let v = parse-Parsed p h in
    omega (
      arith,
      v.fits,
      ap (λ r. length r.parser.partial_input) v.result,
      length-drop (v.place + 4 + 2 + (v.high * 256 + v.low)) p.partial_input,
    )

-- More input behind a whole command changes neither the command nor what is taken out.
pub parse_grows :
    (p : MuxParser) (input : List ℕ)
    → (parse p).again ≡ true
    → parse (grow p input)
      ≡ record { again = true; parser = grow (parse p).parser input; commands = (parse p).commands }
unfolding callback
parse_grows p input h =
    parse_at (grow p input) v.place (search_token-append p.partial_input input v.place v.seen)
    ∙ ap (parse_found (grow p input) (v.place + 4)) (
        drop-append_le (v.place + 4) p.partial_input input (omega (arith, v.fits))
        ∙ ap (λ t. t ++ input) v.shape)
    ∙ parse_found_full (grow p input) (v.place + 4) v.high v.low (v.after ++ input)
        (omega (arith, v.enough, length-append v.after input))
    ∙ (λ i. record {
      again = true;
      parser = record p {
        partial_input =
            drop-append_le (v.place + 4 + 2 + wanted) p.partial_input input (omega (arith, v.fits))
              i;
      };
      commands = callback p (take-append_le wanted v.after input v.enough i);
    })
    ∙ sym (
        ap {B = ParseResult}
          (λ (r : ParseResult). record r { again = true; parser = grow r.parser input }) v.result)
  where
    v : Parsed p
    v = parse-Parsed p h

    wanted : ℕ
    wanted = v.high * 256 + v.low

-- A call that returns false passes nothing on.
pub parse_stops : (p : MuxParser) → (parse p).again ≡ false → (parse p).commands ≡ []
parse_stops p h = elim (Option-cases (search_token p.partial_input)) [
  | inl e ↦ ap (λ r. r.commands) (parse_nowhere p e) ∙ parse_none_commands p
  | inr (at, e) ↦
      ap (λ r. r.commands)
        (parse_at p at e
          ∙ parse_found_silent p (at + 4) _ (sym (ap (λ r. r.again) (parse_at p at e)) ∙ h))
      ∙ wait_commands p
]

abbrev pub last_three : List ℕ → List ℕ
last_three xs = drop (length xs - 3) xs

-- It leaves the buffer as it is, or its last three bytes where no token is in sight.
pub parse_leaves :
    (p : MuxParser)
    → (parse p).again ≡ false
    → ((parse p).parser ≡ p)
      ⊎ ((search_token p.partial_input ≡ none)
          × ((parse p).parser ≡ record p { partial_input = last_three p.partial_input }))
parse_leaves p h = elim (Option-cases (search_token p.partial_input)) [
  | inl e ↦ elim (Bool-cases (ltb 3 (length p.partial_input))) [
    | inl long ↦ inr (e, ap (λ r. r.parser) (parse_nowhere p e) ∙ parse_none_long p long)
    | inr short ↦ inl (ap (λ r. r.parser) (parse_nowhere p e) ∙ parse_none_short p short)
  ]
  | inr (at, e) ↦ inl (
      ap (λ r. r.parser)
        (parse_at p at e
          ∙ parse_found_silent p (at + 4) _ (sym (ap (λ r. r.again) (parse_at p at e)) ∙ h))
      ∙ wait_parser p)
]

abbrev pub holding : MuxParser → List ℕ → MuxParser
holding p xs = record p { partial_input = xs }

-- A byte at which no token starts changes nothing about the first command behind it.
module _ (p : MuxParser) (x : ℕ) (xs : List ℕ) (h : is_prefix magic_token (x ∷ xs) ≡ false) where
  same_found :
      (i high low : ℕ) (after : List ℕ)
      → search_token xs ≡ some i
      → drop (i + 4) xs ≡ high ∷ low ∷ after
      → high * 256 + low ≤ length after
      → parse (holding p (x ∷ xs)) ≡ parse (holding p xs)
  unfolding callback
  same_found i high low after seen shape enough =
      parse_at (holding p (x ∷ xs)) (suc i) (search_later x xs h ∙ ap (Option.map suc) seen)
      ∙ ap (parse_found (holding p (x ∷ xs)) (suc i + 4)) (drops 4 ∙ shape)
      ∙ parse_found_full (holding p (x ∷ xs)) (suc i + 4) high low after enough
      ∙ (λ t. record {
        again = true;
        parser = holding p (far t);
        commands = callback p (take (high * 256 + low) after);
      })
      ∙ sym (
          parse_at (holding p xs) i seen
          ∙ ap (parse_found (holding p xs) (i + 4)) shape
          ∙ parse_found_full (holding p xs) (i + 4) high low after enough)
    where
      drops : (k : ℕ) → drop (suc i + k) (x ∷ xs) ≡ drop (i + k) xs
      drops k = ap (λ n. drop n (x ∷ xs)) {y = suc (i + k)} (omega arith)

      far :
          drop (suc i + 4 + 2 + (high * 256 + low)) (x ∷ xs)
          ≡ drop (i + 4 + 2 + (high * 256 + low)) xs
      far = ap (λ n. drop n (x ∷ xs)) {y = suc (i + 4 + 2 + (high * 256 + low))} (omega arith)

  pub parse_behind :
      (parse (holding p xs)).again ≡ true → parse (holding p (x ∷ xs)) ≡ parse (holding p xs)
  parse_behind again =
      let v = parse-Parsed (holding p xs) again in
      same_found v.place v.high v.low v.after v.seen v.shape v.enough

  pub parse_before :
      (parse (holding p (x ∷ xs))).again ≡ true → parse (holding p (x ∷ xs)) ≡ parse (holding p xs)
  parse_before again = elim (search_cases x xs v.place v.seen) [
    | inl (here, _) ↦ absurd (cc here)
    | inr (i, _, seen, next) ↦
        same_found i v.high v.low v.after seen
          (ap (λ n. drop n (x ∷ xs)) {x = suc (i + 4)} (omega (arith, next)) ∙ v.shape) v.enough
  ]
    where
      v : Parsed (holding p (x ∷ xs))
      v = parse-Parsed (holding p (x ∷ xs)) again

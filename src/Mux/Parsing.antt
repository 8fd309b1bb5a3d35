-- ===== src/Mux/Parsing.antt =====
-- One call of `parse`, and the loop round it.
use serialmux.Prelude.{
  ℕ, suc, ◌+◌, ◌*◌, ◌≤◌, ◌<◌, ◌≡◌, refl, ap, sym, ◌∙◌, true, false, ◌⊎◌, inl, inr, some, List, [],
  ◌∷◌, ◌++◌, arith, length, take, drop, ltb, leb, dec_le, le→ltb, le→leb, lt→leb, Bool-cases,
  Option-cases,
}
use mathlib.Core.Option
use serialmux.Mux.{magic_token, MuxParser, is_prefix, search_token, callback, wait, parse_found}

-- The parser with more input behind what it has.
abbrev pub grow : MuxParser → List ℕ → MuxParser
grow p input = record p { partial_input = p.partial_input ++ input }

pub is_prefix-append :
    (xs ys zs : List ℕ) → length xs ≤ length ys → is_prefix xs (ys ++ zs) ≡ is_prefix xs ys
unfolding is_prefix
is_prefix-append [] ys zs h = refl
is_prefix-append (x ∷ xs) [] zs h = absurd (omega arith)
is_prefix-append (x ∷ xs) (y ∷ ys) zs h = ground (arith, is_prefix-append xs ys zs (omega arith))

is_prefix-le : (xs ys : List ℕ) → is_prefix xs ys ≡ true → length xs ≤ length ys
unfolding is_prefix
is_prefix-le [] ys h = omega arith
is_prefix-le (x ∷ xs) [] h = cc
is_prefix-le (x ∷ xs) (y ∷ ys) h = ground (arith, is_prefix-le xs ys)

search_here :
    (x : ℕ) (xs : List ℕ) → is_prefix magic_token (x ∷ xs) ≡ true → search_token (x ∷ xs) ≡ some 0
unfolding search_token
search_here x xs h = rw h

pub search_later :
    (x : ℕ) (xs : List ℕ)
    → is_prefix magic_token (x ∷ xs) ≡ false
    → search_token (x ∷ xs) ≡ Option.map suc (search_token xs)
unfolding search_token
search_later x xs h = rw h

-- Where the first token of a longer input stands.
pub search_cases :
    (x : ℕ) (xs : List ℕ) (at : ℕ)
    → search_token (x ∷ xs) ≡ some at
    → ((is_prefix magic_token (x ∷ xs) ≡ true) × (at ≡ 0))
      ⊎ ((i : ℕ) × (is_prefix magic_token (x ∷ xs) ≡ false)
          × (search_token xs ≡ some i)
          × (at ≡ suc i))
search_cases x xs at e = elim (Bool-cases (is_prefix magic_token (x ∷ xs))) [
  | inl here ↦ inl (here, sym (cc (search_here x xs here)))
  | inr later ↦ elim (Option-cases (search_token xs)) [
    | inl gone ↦ absurd (cc (search_later x xs later, ap (Option.map suc) gone))
    | inr (i, found) ↦
        inr (i, later, found, sym (cc (search_later x xs later, ap (Option.map suc) found)))
  ]
]

-- The token found lies inside the input.
pub search_token-le : (xs : List ℕ) (at : ℕ) → search_token xs ≡ some at → at + 4 ≤ length xs
search_token-le [] at e = unfold search_token in cc
search_token-le (x ∷ xs) at e = elim (search_cases x xs at e) [
  | inl (here, first) ↦ omega (arith, is_prefix-le magic_token (x ∷ xs) here)
  | inr (i, later, found, next) ↦ omega (arith, search_token-le xs i found)
]

-- More input does not move the first token.
pub search_token-append :
    (xs ys : List ℕ) (at : ℕ) → search_token xs ≡ some at → search_token (xs ++ ys) ≡ some at
search_token-append [] ys at e = unfold search_token in cc
search_token-append (x ∷ xs) ys at e = elim (search_cases x xs at e) [
  | inl (here, first) ↦
      search_here x (xs ++ ys)
        (is_prefix-append magic_token (x ∷ xs) ys (is_prefix-le magic_token (x ∷ xs) here) ∙ here)
      ∙ ap some (sym first)
  | inr (i, later, found, next) ↦
      search_later x (xs ++ ys) (
        is_prefix-append magic_token (x ∷ xs) ys (omega (arith, search_token-le xs i found))
        ∙ later)
      ∙ ap (Option.map suc) (search_token-append xs ys i found)
      ∙ ap some (sym next)
]

-- `parse` behind a token, on each branch.
module _ (p : MuxParser) (k a b : ℕ) (after : List ℕ) where
  abbrev pub expected : ℕ
  expected = a * 256 + b

  pub parse_found_full :
      expected ≤ length after
      → parse_found p k (a ∷ b ∷ after) ≡ record {
        again = true;
        parser = record p { partial_input = drop (k + 2 + expected) p.partial_input };
        commands = callback p (take expected after);
      }
  unfolding parse_found
  parse_found_full h = rw (long, enough) refl
    where
      long : ltb (length (a ∷ b ∷ after)) 2 ≡ false
      long = le→ltb _ _ (omega arith)

      enough : leb expected (length after) ≡ true
      enough = le→leb _ _ h

  pub parse_found_part : length after < expected → parse_found p k (a ∷ b ∷ after) ≡ wait p
  unfolding parse_found
  parse_found_part h = rw (long, few) refl
    where
      long : ltb (length (a ∷ b ∷ after)) 2 ≡ false
      long = le→ltb _ _ (omega arith)

      few : leb expected (length after) ≡ false
      few = lt→leb _ _ h

-- A call that returns true has found a whole command behind the token.
pub record Found (p : MuxParser) (k : ℕ) (rest : List ℕ) : Type 0 where
  pub high : ℕ
  pub low : ℕ
  pub after : List ℕ
  pub shape : rest ≡ high ∷ low ∷ after
  pub enough : high * 256 + low ≤ length after

wait_again : (p : MuxParser) → (wait p).again ≡ false
unfolding wait
wait_again p = refl

pub parse_found-Found :
    (p : MuxParser) (k : ℕ) (rest : List ℕ) → (parse_found p k rest).again ≡ true → Found p k rest
parse_found-Found p k [] h = unfold parse_found in cc
parse_found-Found p k (a ∷ []) h = unfold parse_found in cc
parse_found-Found p k (a ∷ b ∷ after) h = elim (dec_le (a * 256 + b) (length after)) [
  | yes d ↦ record { high = a; low = b; after = after; shape = refl; enough = d }
  | no d ↦
      absurd (cc (ap (λ r. r.again) (parse_found_part p k a b after (omega arith)), wait_again p))
]

pub parse_found_silent :
    (p : MuxParser) (k : ℕ) (rest : List ℕ)
    → (parse_found p k rest).again ≡ false
    → parse_found p k rest ≡ wait p
parse_found_silent p k [] h = unfold parse_found in refl
parse_found_silent p k (a ∷ []) h = unfold parse_found in refl
parse_found_silent p k (a ∷ b ∷ after) h = elim (dec_le (a * 256 + b) (length after)) [
  | yes d ↦ absurd (cc (ap (λ r. r.again) (parse_found_full p k a b after d)))
  | no d ↦ parse_found_part p k a b after (omega arith)
]

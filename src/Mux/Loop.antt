-- ===== src/Mux/Loop.antt =====
-- The loop of `read`: its fuel is enough, and bytes before a token make no difference.
use serialmux.Prelude.{
  ℕ, zero, suc, ◌-◌, ◌≤◌, ◌<◌, ◌≡◌, refl, ap, sym, ◌∙◌, true, false, inl, inr, none, List, [], ◌∷◌,
  ◌++◌, arith, length, drop, dec_le, Bool-cases,
}
use serialmux.Mux.Parsing.{is_prefix-append}
use serialmux.Mux.Calls.{
  parse_nowhere, parse_none_again, parse_shrinks, parse_stops, parse_leaves, last_three, holding,
  parse_before, parse_behind,
}
use serialmux.Mux.{
  magic_token, MuxMessage, MuxParser, is_prefix, search_token, parse, parse_loop, drain,
}

-- The loop has come to its end.
abbrev pub IsDrained : MuxParser → Type 0
IsDrained p = (parse p).again ≡ false

loop_stop :
    (n : ℕ) (p : MuxParser)
    → IsDrained p
    → parse_loop (suc n) p ≡ ((parse p).parser, (parse p).commands)
unfolding parse_loop
loop_stop n p h = rw h refl

loop_next :
    (n : ℕ) (p : MuxParser)
    → (parse p).again ≡ true
    → parse_loop (suc n) p
      ≡ ((parse_loop n (parse p).parser).0, (parse p).commands ++ (parse_loop n (parse p).parser).1)
unfolding parse_loop
loop_next n p h = rw h refl

-- Any two amounts of fuel above the buffer's length do the same.
loop_fuel :
    (n m : ℕ) (p : MuxParser)
    → length p.partial_input < n
    → length p.partial_input < m
    → parse_loop n p ≡ parse_loop m p
loop_fuel zero m p hn hm = absurd (omega arith)
loop_fuel (suc n) zero p hn hm = absurd (omega arith)
loop_fuel (suc n) (suc m) p hn hm = elim (Bool-cases (parse p).again) [
  | inr stop ↦ loop_stop n p stop ∙ sym (loop_stop m p stop)
  | inl next ↦
      loop_next n p next
      ∙ ap (λ (r : MuxParser × List MuxMessage). (r.0, (parse p).commands ++ r.1))
          (loop_fuel n m (parse p).parser (omega (arith, parse_shrinks p next))
            (omega (arith, parse_shrinks p next)))
      ∙ sym (loop_next m p next)
]

pub drain_stop : (p : MuxParser) → IsDrained p → drain p ≡ ((parse p).parser, [])
unfolding drain
drain_stop p h = loop_stop _ p h ∙ ap (λ c. ((parse p).parser, c)) (parse_stops p h)

pub drain_next :
    (p : MuxParser)
    → (parse p).again ≡ true
    → drain p ≡ ((drain (parse p).parser).0, (parse p).commands ++ (drain (parse p).parser).1)
unfolding drain
drain_next p h =
    loop_next _ p h
    ∙ ap (λ (r : MuxParser × List MuxMessage). (r.0, (parse p).commands ++ r.1))
        (loop_fuel _ _ (parse p).parser (omega (arith, parse_shrinks p h)) (omega arith))

search_none_parts :
    (x : ℕ) (xs : List ℕ)
    → search_token (x ∷ xs) ≡ none
    → (is_prefix magic_token (x ∷ xs) ≡ false) × (search_token xs ≡ none)
unfolding search_token
search_none_parts x xs e = ground arith

search-drop-none : (n : ℕ) (xs : List ℕ) → search_token xs ≡ none → search_token (drop n xs) ≡ none
search-drop-none zero xs e = e
search-drop-none (suc n) [] e = e
search-drop-none (suc n) (x ∷ xs) e = search-drop-none n xs (search_none_parts x xs e).1

stop-IsDrained : (p : MuxParser) → IsDrained p → IsDrained (parse p).parser
stop-IsDrained p h = elim (parse_leaves p h) [
  | inl same ↦ rw same h
  | inr (gone, left) ↦
      ap (λ q. (parse q).again) left
      ∙ ap (λ r. r.again)
          (parse_nowhere (holding p (last_three p.partial_input))
            (search-drop-none (length p.partial_input - 3) p.partial_input gone))
      ∙ parse_none_again (holding p (last_three p.partial_input))
]

-- The loop ends by its own test: what is left holds no whole command.
drain-IsDrained_fuel : (n : ℕ) (p : MuxParser) → length p.partial_input ≤ n → IsDrained (drain p).0
drain-IsDrained_fuel zero p h = elim (Bool-cases (parse p).again) [
  | inl next ↦ absurd (omega (arith, parse_shrinks p next))
  | inr stop ↦ ap (λ r. (parse r.0).again) (drain_stop p stop) ∙ stop-IsDrained p stop
]
drain-IsDrained_fuel (suc n) p h = elim (Bool-cases (parse p).again) [
  | inl next ↦
      ap (λ r. (parse r.0).again) (drain_next p next)
      ∙ drain-IsDrained_fuel n (parse p).parser (omega (arith, parse_shrinks p next))
  | inr stop ↦ ap (λ r. (parse r.0).again) (drain_stop p stop) ∙ stop-IsDrained p stop
]

pub drain-IsDrained : (p : MuxParser) → IsDrained (drain p).0
drain-IsDrained p = drain-IsDrained_fuel (length p.partial_input) p (omega arith)

-- The commands that the loop finds.
abbrev pub commands_of : MuxParser → List MuxMessage
commands_of p = (drain p).1

pub commands_stop : (p : MuxParser) → IsDrained p → commands_of p ≡ []
commands_stop p h = ap (λ r. r.1) (drain_stop p h)

pub commands_next :
    (p : MuxParser)
    → (parse p).again ≡ true
    → commands_of p ≡ (parse p).commands ++ commands_of (parse p).parser
commands_next p h = ap (λ r. r.1) (drain_next p h)

-- A byte at which no token starts can be left out.
pub skip_byte :
    (p : MuxParser) (x : ℕ) (xs : List ℕ)
    → is_prefix magic_token (x ∷ xs) ≡ false
    → commands_of (holding p (x ∷ xs)) ≡ commands_of (holding p xs)
skip_byte p x xs h = elim (Bool-cases (parse (holding p (x ∷ xs))).again) [
  | inl next ↦ same next (parse_before p x xs h next)
  | inr stop ↦ elim (Bool-cases (parse (holding p xs)).again) [
    | inl next ↦ absurd (cc (ap (λ r. r.again) (parse_behind p x xs h next)))
    | inr also ↦ commands_stop (holding p (x ∷ xs)) stop ∙ sym (commands_stop (holding p xs) also)
  ]
]
  where
    same :
        (parse (holding p (x ∷ xs))).again ≡ true
        → parse (holding p (x ∷ xs)) ≡ parse (holding p xs)
        → commands_of (holding p (x ∷ xs)) ≡ commands_of (holding p xs)
    same next e =
        commands_next (holding p (x ∷ xs)) next
        ∙ ap (λ r. r.commands ++ commands_of r.parser) e
        ∙ sym (commands_next (holding p xs) (sym (ap (λ r. r.again) e) ∙ next))

-- Where no token is in sight only the last three bytes matter.
pub skip_all :
    (p : MuxParser) (xs input : List ℕ)
    → search_token xs ≡ none
    → commands_of (holding p (xs ++ input)) ≡ commands_of (holding p (last_three xs ++ input))
skip_all p [] input e = refl
skip_all p (x ∷ xs) input e = elim (dec_le 3 (length xs)) [
  | yes long ↦
      skip_byte p x (xs ++ input)
        (is_prefix-append magic_token (x ∷ xs) input (omega arith) ∙ (search_none_parts x xs e).0)
      ∙ skip_all p xs input (search_none_parts x xs e).1
      ∙ ap (λ n. commands_of (holding p (drop n (x ∷ xs) ++ input))) {x = suc (length xs - 3)}
          (omega arith)
  | no short ↦ ap (λ n. commands_of (holding p (drop n (x ∷ xs) ++ input))) {x = 0} (omega arith)
]

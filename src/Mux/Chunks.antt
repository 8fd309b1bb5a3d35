-- ===== src/Mux/Chunks.antt =====
-- It does not matter how the client's stream is cut into reads.
use serialmux.Prelude.{
  ℕ, zero, suc, ◌≤◌, ◌≡◌, ap, sym, ◌∙◌, true, inl, inr, List, [], ◌∷◌, ◌++◌, append_assoc,
  append-nil, arith, length, flatten, Bool-cases,
}
use serialmux.Mux.Parsing.{grow}
use serialmux.Mux.Calls.{holding, parse_shrinks, parse_grows, parse_leaves}
use serialmux.Mux.Loop.{
  IsDrained, commands_of, commands_stop, commands_next, drain_stop, drain_next, drain-IsDrained,
  skip_all,
}
use serialmux.Mux.{MuxMessage, MuxParser, parse, drain, read, read_all}

commands-grow_stop :
    (p : MuxParser) (input : List ℕ)
    → IsDrained p
    → commands_of (grow p input) ≡ commands_of (grow (parse p).parser input)
commands-grow_stop p input h = elim (parse_leaves p h) [
  | inl same ↦ ap (λ q. commands_of (grow q input)) (sym same)
  | inr (gone, left) ↦
      skip_all p p.partial_input input gone ∙ ap (λ q. commands_of (grow q input)) (sym left)
]

module _ (p : MuxParser) (input : List ℕ) where
  abbrev Splits : MuxParser → Type 0
  Splits q = commands_of (grow q input) ≡ commands_of q ++ commands_of (grow (drain q).0 input)

  Splits-stop : IsDrained p → Splits p
  Splits-stop stop =
      commands-grow_stop p input stop
      ∙ ap (λ (r : MuxParser × List MuxMessage). r.1 ++ commands_of (grow r.0 input))
          (sym (drain_stop p stop))

  Splits-next : (parse p).again ≡ true → Splits (parse p).parser → Splits p
  Splits-next next rest =
      commands_next (grow p input) (ap (λ r. r.again) grown)
      ∙ ap (λ r. r.commands ++ commands_of r.parser) grown
      ∙ ap (◌++◌ (parse p).commands) rest
      ∙ sym (append_assoc (parse p).commands _ _)
      ∙ ap (λ (r : MuxParser × List MuxMessage). r.1 ++ commands_of (grow r.0 input))
          (sym (drain_next p next))
    where
      grown : parse (grow p input) ≡ record {
        again = true;
        parser = grow (parse p).parser input;
        commands = (parse p).commands;
      }
      grown = parse_grows p input next

-- The commands found with more input: those found before, then those in what was left with it.
commands-grow :
    (n : ℕ) (p : MuxParser) (input : List ℕ) → length p.partial_input ≤ n → Splits p input p
commands-grow zero p input h = elim (Bool-cases (parse p).again) [
  | inl next ↦ absurd (omega (arith, parse_shrinks p next))
  | inr stop ↦ Splits-stop p input stop
]
commands-grow (suc n) p input h = elim (Bool-cases (parse p).again) [
  | inl next ↦
      Splits-next p input next
        (commands-grow n (parse p).parser input (omega (arith, parse_shrinks p next)))
  | inr stop ↦ Splits-stop p input stop
]

-- After a read, one more call of `parse` returns false: the loop ran until no whole command was left.
pub read-IsDrained : (p : MuxParser) (input : List ℕ) → IsDrained (read p input).0
unfolding read
read-IsDrained p input = drain-IsDrained (grow p input)

-- A parser on whose buffer `parse` returns false finds the same commands, in the same order,
-- however its input is cut into reads.
pub read_all-flatten :
    (p : MuxParser) (inputs : List (List ℕ))
    → IsDrained p
    → (read_all p inputs).1 ≡ (read p (flatten inputs)).1
unfolding read_all
read_all-flatten p [] h = unfold read in sym (commands_stop (grow p []) nothing)
  where
    nothing : IsDrained (grow p [])
    nothing = ap (λ xs. (parse (holding p xs)).again) (append-nil p.partial_input) ∙ h
read_all-flatten p (input ∷ inputs) h =
    ap (◌++◌ (read p input).1) (read_all-flatten (read p input).0 inputs (read-IsDrained p input))
    ∙ unfold read in
      sym (
        commands-grow (length (p.partial_input ++ input)) (grow p input) (flatten inputs)
          (omega arith))
      ∙ unfold read in
        ap (λ xs. commands_of (holding p xs)) (append_assoc p.partial_input input (flatten inputs))

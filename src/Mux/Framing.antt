-- ===== src/Mux/Framing.antt =====
-- What is serialised is what the parser finds.
use serialmux.Prelude.{
  ℕ, zero, suc, ◌+◌, ◌*◌, ◌/◌, ◌%◌, ◌^◌, ◌<◌, bit_or, ◌≡◌, refl, ap, ◌∙◌, true, List, [], ◌∷◌, ◌++◌,
  arith, length, length-append, take, drop, take_full, drop_full, leb, le→leb, flatten, replicate,
  All,
}
use serialmux.Prelude.Bits.{mask_byte, bit_and_high, bit_or_fields}
use serialmux.Mux.Parsing.{parse_found_full}
use serialmux.Mux.Calls.{holding, parse_at}
use serialmux.Mux.Loop.{IsDrained, commands_of, commands_stop, commands_next, skip_byte}
use serialmux.Mux.Chunks.{read_all-flatten}
use serialmux.Mux.{
  magic_token, MuxMessage, MuxParser, mux_output, serialize_output, parsed_message, serialize,
  word_bytes, is_prefix, search_token, callback, new_parser, parse, read, read_all,
}

-- A message that fits its wire format.
pub record Fits (m : MuxMessage) : Type 0 where
  pub id-lt : m.id < 65536
  pub short : length m.payload + 3 < 65536

-- The header and the payload of a message, as the parser cuts them out.
abbrev body : MuxMessage → List ℕ
body m = m.id / 256 ∷ m.id % 256 ∷ m.type ∷ m.payload

word_bytes_eq : (w : ℕ) → w < 65536 → word_bytes w ≡ w / 256 ∷ w % 256 ∷ []
unfolding word_bytes
word_bytes_eq w h = ground (arith, bit_and_high w, mask_byte w)

serialize_eq :
    (m : MuxMessage)
    → Fits m
    → serialize m
      ≡ magic_token ++ (length m.payload + 3) / 256 ∷ (length m.payload + 3) % 256 ∷ body m
unfolding serialize
serialize_eq m f =
    ap (λ len. magic_token ++ word_bytes len ++ word_bytes m.id ++ m.type ∷ m.payload)
      {y = length m.payload + 3} (omega (arith, f.short))
    ∙ ap (λ t. magic_token ++ t ++ word_bytes m.id ++ m.type ∷ m.payload)
        (word_bytes_eq (length m.payload + 3) f.short)
    ∙ ap
        (λ t.
          magic_token
          ++ (length m.payload + 3) / 256
            ∷ (length m.payload + 3) % 256
            ∷ (t ++ m.type ∷ m.payload))
        (word_bytes_eq m.id f.id-lt)

-- Cutting a message's bytes out and reading its header gives the message back.
parsed_message-body : (m : MuxMessage) → Fits m → parsed_message (body m) ≡ m
unfolding parsed_message
parsed_message-body m f = rw long (λ i. record { payload = m.payload; type = m.type; id = same i })
  where
    long : leb 3 (length (body m)) ≡ true
    long = le→leb _ _ (omega arith)

    same : bit_or (m.id / 256 * 2 ^ 8) (m.id % 256) ≡ m.id
    same = omega (arith, bit_or_fields 8 (m.id / 256) (m.id % 256) (omega arith))

module _ (p : MuxParser) (wanted : p.handler ≡ true) (m : MuxMessage) (f : Fits m)
    (rest : List ℕ) where
  abbrev len : ℕ
  len = length m.payload + 3

  abbrev line : List ℕ
  line = magic_token ++ len / 256 ∷ len % 256 ∷ (body m ++ rest)

  line_len : len / 256 * 256 + len % 256 ≡ length (body m)
  line_len = omega arith

  handed : callback p (body m) ≡ m ∷ []
  unfolding callback
  handed = rw wanted (ap (λ c. c ∷ []) (parsed_message-body m f))

  parse-line :
      parse (holding p line) ≡ record { again = true; parser = holding p rest; commands = m ∷ [] }
  unfolding search_token callback
  parse-line =
      parse_at (holding p line) 0 refl
      ∙ parse_found_full (holding p line) 4 (len / 256) (len % 256) (body m ++ rest)
          (omega (arith, line_len, length-append (body m) rest))
      ∙ (λ i. record {
        again = true;
        parser = holding p (drop (6 + line_len i) line);
        commands = callback p (take (line_len i) (body m ++ rest));
      })
      ∙ (λ i. record {
        again = true;
        parser = holding p (dropped i);
        commands = callback p (take_full (body m) rest i);
      })
      ∙ (λ i. record { again = true; parser = holding p rest; commands = handed i })
    where
      dropped : drop (6 + length (body m)) line ≡ rest
      dropped =
          ap (λ n. drop n line) {y = suc (suc (suc (suc (suc (suc (length (body m)))))))}
            (omega arith)
          ∙ drop_full (body m) rest

-- The first message on the line comes out first.
commands-serialize :
    (p : MuxParser) (m : MuxMessage) (rest : List ℕ)
    → p.handler ≡ true
    → Fits m
    → commands_of (holding p (serialize m ++ rest)) ≡ m ∷ commands_of (holding p rest)
commands-serialize p m rest wanted f =
    ap (λ t. commands_of (holding p (t ++ rest))) (serialize_eq m f)
    ∙ commands_next (holding p (line p wanted m f rest))
        (ap (λ r. r.again) (parse-line p wanted m f rest))
    ∙ ap (λ r. r.commands ++ commands_of r.parser) (parse-line p wanted m f rest)

-- The messages of a client, one after the other.
unfoldable pub stream : List MuxMessage → List ℕ
stream [] = []
stream (m ∷ ms) = serialize m ++ stream ms

commands-stream :
    (p : MuxParser) (ms : List MuxMessage)
    → p.handler ≡ true
    → All Fits ms
    → commands_of (holding p (stream ms)) ≡ ms
unfolding stream
commands-stream p [] wanted f = commands_stop (holding p []) (unfold parse in refl)
commands-stream p (m ∷ ms) wanted (f, fs) =
    commands-serialize p m (stream ms) wanted f ∙ ap (◌∷◌ m) (commands-stream p ms wanted fs)

skip_zeros :
    (n : ℕ) (p : MuxParser) (xs : List ℕ)
    → commands_of (holding p (replicate n 0 ++ xs)) ≡ commands_of (holding p xs)
skip_zeros zero p xs = refl
skip_zeros (suc n) p xs =
    skip_byte p 0 (replicate n 0 ++ xs) (unfold is_prefix in refl) ∙ skip_zeros n p xs

new_parser-IsDrained : IsDrained (new_parser true)
unfolding new_parser parse
new_parser-IsDrained = refl

-- However the stream of a client's messages is cut into reads, a new parser with a handler passes
-- exactly these messages on, in order, if their fields fit: a 16-bit id, a payload whose length
-- plus 3 is a 16-bit number.
pub read_all-stream :
    (inputs : List (List ℕ)) (ms : List MuxMessage)
    → All Fits ms
    → flatten inputs ≡ stream ms
    → (read_all (new_parser true) inputs).1 ≡ ms
unfolding new_parser
read_all-stream inputs ms fits e =
    read_all-flatten (new_parser true) inputs new_parser-IsDrained
    ∙ unfold read in
      skip_zeros 128 (new_parser true) (flatten inputs)
      ∙ ap (λ t. commands_of (holding (new_parser true) t)) e
      ∙ commands-stream (new_parser true) ms refl fits

-- The bytes of a response or notification are those of the message of the same type and id whose
-- payload is the prefix byte followed by the output's payload.
pub serialize_output-serialize :
    (cmd_type id prefix : ℕ) (payload : List ℕ)
    → serialize_output (mux_output cmd_type id prefix payload)
      ≡ serialize (record { payload = prefix ∷ payload; type = cmd_type; id = id })
unfolding serialize_output mux_output serialize
serialize_output-serialize cmd_type id prefix payload =
    ap (λ n. magic_token ++ word_bytes (n % 2 ^ 16) ++ word_bytes id ++ cmd_type ∷ prefix ∷ payload)
      {x = suc (suc (suc (suc (length payload))))} {y = suc (length payload) + 3} (omega arith)

-- ===== src/Mux.antt =====
-- serial_mux/MuxMessageParser.h and serial_mux/MuxMessageParser.cpp: the messages that clients and
-- the mux exchange over TCP, their serialisation, and the parser of the client's byte stream.
-- A byte is a number below 256. What a parser passes to its handler is its output.
pub mod Parsing
pub mod Calls
pub mod Loop
pub mod Chunks
pub mod Framing
pub mod Tests
use serialmux.Prelude.{
  ℕ, zero, suc, ◌+◌, ◌-◌, ◌*◌, ◌/◌, ◌%◌, ◌^◌, bit_and, bit_or, Bool, true, false, ◌&&◌, Option,
  none, some, List, [], ◌∷◌, ◌++◌, length, get_or, take, drop, replicate, ltb, leb, ◌==◌,
  if◌then◌else◌,
}
use mathlib.Core.Option

-- `MAGIC_TOKEN`.
abbrev pub magic_token : List ℕ
magic_token = 0xa7 ∷ 0x40 ∷ 0xa0 ∷ 0xf5 ∷ []

-- `CMuxMessage`.
pub record MuxMessage : Type 0 where
  pub payload : List ℕ
  pub type : ℕ
  pub id : ℕ

-- `CMuxMessage()` and `CMuxMessage(inType, inData)`.
unfoldable pub empty_message : MuxMessage
empty_message = record { payload = []; type = 0; id = 0 }

unfoldable pub typed_message : ℕ → List ℕ → MuxMessage
typed_message in_type in_data = record { payload = in_data; type = in_type; id = 0 }

-- `CMuxMessage(data)`; a command too short for a header is the empty message.
unfoldable pub parsed_message : List ℕ → MuxMessage
unfolding empty_message
parsed_message bytes =
    if leb 3 (length bytes)
    then record {
      payload = drop 3 bytes;
      type = get_or bytes 2 0;
      id = bit_or (get_or bytes 0 0 * 2 ^ 8) (get_or bytes 1 0);
    }
    else empty_message

-- `CMuxMessage::size`, a `uint16_t`.
unfoldable pub size : MuxMessage → ℕ
size m = length m.payload % 2 ^ 16

-- The two bytes of a `uint16_t` on the wire.
unfoldable pub word_bytes : ℕ → List ℕ
word_bytes w = bit_and w 0xff00 / 2 ^ 8 ∷ bit_and w 0xff ∷ []

-- `CMuxMessage::serialize`.
unfoldable pub serialize : MuxMessage → List ℕ
unfolding word_bytes
serialize m =
    let len = (length m.payload + 3) % 2 ^ 16 in
    magic_token ++ word_bytes len ++ word_bytes m.id ++ m.type ∷ m.payload

-- `CMuxOutput`, its constructor and its `serialize`.
pub record MuxOutput : Type 0 where
  pub content : List ℕ

unfoldable pub mux_output : ℕ → ℕ → ℕ → List ℕ → MuxOutput
unfolding word_bytes
mux_output cmd_type id prefix payload = record {
  content = word_bytes id ++ cmd_type ∷ prefix ∷ payload;
}

unfoldable pub serialize_output : MuxOutput → List ℕ
unfolding word_bytes
serialize_output o = magic_token ++ word_bytes (length o.content % 2 ^ 16) ++ o.content

-- `CMuxParser`. `handler` says whether `m_handler` is set.
pub record MuxParser : Type 0 where
  pub handler : Bool
  pub partial_input : List ℕ

-- The constructor fills the input buffer with `COMMAND_SIZE` zero bytes.
unfoldable pub new_parser : Bool → MuxParser
new_parser has_handler = record { handler = has_handler; partial_input = replicate 128 0 }

-- `std::search`: the place of the first occurrence.
unfoldable pub is_prefix : List ℕ → List ℕ → Bool
is_prefix [] ys = true
is_prefix (x ∷ xs) [] = false
is_prefix (x ∷ xs) (y ∷ ys) = x == y && is_prefix xs ys

unfoldable pub search_token : List ℕ → Option ℕ
unfolding is_prefix
search_token [] = none
search_token (x ∷ xs) =
    if is_prefix magic_token (x ∷ xs) then some 0 else Option.map suc (search_token xs)

-- `CMuxParser::callback`.
unfoldable pub callback : MuxParser → List ℕ → List MuxMessage
unfolding parsed_message
callback p command = if p.handler then parsed_message command ∷ [] else []

-- What one call of `parse` returns, leaves behind and passes to the handler.
pub record ParseResult : Type 0 where
  pub again : Bool
  pub parser : MuxParser
  pub commands : List MuxMessage

unfoldable pub wait : MuxParser → ParseResult
wait p = record { again = false; parser = p; commands = [] }

-- `parse` with a token that ends before `rest`, where `skipped` bytes are before `rest`.
unfoldable pub parse_found : MuxParser → ℕ → List ℕ → ParseResult
unfolding callback wait
parse_found p skipped rest =
    let expected = get_or rest 0 0 * 256 + get_or rest 1 0 in
    let after = drop 2 rest in
    if ltb (length rest) 2
    then wait p
    else if leb expected (length after)
    then record {
      again = true;
      parser = record p { partial_input = drop (skipped + 2 + expected) p.partial_input };
      commands = callback p (take expected after);
    }
    else wait p

-- `parse` with no token in sight: all but the last three bytes go.
unfoldable pub parse_none : MuxParser → ParseResult
unfolding wait
parse_none p =
    if ltb 3 (length p.partial_input)
    then wait (record p { partial_input = drop (length p.partial_input - 3) p.partial_input })
    else wait p

unfoldable pub parse : MuxParser → ParseResult
unfolding search_token parse_found parse_none
parse p = elim (search_token p.partial_input) [
  | some at ↦ parse_found p (at + 4) (drop (at + 4) p.partial_input)
  | none ↦ parse_none p
]

-- `while (parse());` with fuel.
unfoldable pub parse_loop : ℕ → MuxParser → MuxParser × List MuxMessage
parse_loop zero p = (p, [])
parse_loop (suc fuel) p =
    let r = parse p in
    let (q, more) = parse_loop fuel r.parser in
    if r.again then (q, r.commands ++ more) else (r.parser, r.commands)

-- The fuel is enough, since a call of `parse` that returns true takes bytes out of the buffer.
unfoldable pub drain : MuxParser → MuxParser × List MuxMessage
drain p = parse_loop (suc (length p.partial_input)) p

unfoldable pub read : MuxParser → List ℕ → MuxParser × List MuxMessage
read p input = drain (record p { partial_input = p.partial_input ++ input })

-- Calls of `read`, one after the other.
unfoldable pub read_all : MuxParser → List (List ℕ) → MuxParser × List MuxMessage
read_all p [] = (p, [])
read_all p (input ∷ inputs) =
    let (q, commands) = read p input in let (r, more) = read_all q inputs in (r, commands ++ more)

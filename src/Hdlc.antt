-- ===== src/Hdlc.antt =====
-- serial_mux/HDLC.h and serial_mux/HDLC.cpp: the frame check sequence, the packet generator and
-- the byte-wise parser. A byte is a number below 256, an FCS is a 32-bit register of which the
-- code uses 16 bits. The parser's callback is its output: the frames handed to the handler.
pub mod Table
pub mod Fcs
pub mod Check
pub mod Reference
pub mod Transparency
pub mod Delivery
pub mod RoundTrip
pub mod Detection
pub mod Tests
use serialmux.Prelude.{
  ℕ, zero, suc, ◌+◌, ◌-◌, ◌*◌, ◌/◌, ◌%◌, ◌^◌, bit_and, bit_xor, Bool, true, false, ◌&&◌, ◌||◌, List,
  [], ◌∷◌, ◌++◌, length, get_or, replicate, ltb, ◌==◌, if◌then◌else◌,
}
use Table.{fcs_entry}

abbrev pub hdlc_padding : ℕ
hdlc_padding = 0x7e

abbrev pub hdlc_escchar : ℕ
hdlc_escchar = 0x7d

abbrev pub hdlc_xorbyte : ℕ
hdlc_xorbyte = 0x20

-- `initFcs16`, `addOneByteToFcs16` and `closeFcs16`.
abbrev pub init_fcs16 : ℕ
init_fcs16 = 0xffff

pub add_one_byte_to_fcs16 : ℕ → ℕ → ℕ
add_one_byte_to_fcs16 fcs byte =
    bit_xor (bit_and fcs 0xffff / 2 ^ 8) (fcs_entry (bit_and (bit_xor fcs byte) 0xff))

pub close_fcs16 : ℕ → ℕ
close_fcs16 fcs = bit_and (bit_xor fcs 0xffff % 2 ^ 16) 0xffff

-- The loop of `computeFCS16`, which writes the step of `addOneByteToFcs16` out once more.
pub compute_loop : ℕ → List ℕ → ℕ
compute_loop fcs [] = fcs
compute_loop fcs (x ∷ data_left) =
    compute_loop (bit_xor (bit_and fcs 0xffff / 2 ^ 8) (fcs_entry (bit_and (bit_xor fcs x) 0xff)))
      data_left

pub compute_fcs16 : List ℕ → ℕ
compute_fcs16 bytes = close_fcs16 (compute_loop init_fcs16 bytes)

-- `appendHDLC`: what is pushed on `dst` for each byte of `src`.
pub append_hdlc : List ℕ → List ℕ → List ℕ
append_hdlc dst [] = dst
append_hdlc dst (x ∷ src) =
    append_hdlc
      (if x == hdlc_padding || x == hdlc_escchar
        then (dst ++ hdlc_escchar ∷ []) ++ bit_xor x hdlc_xorbyte ∷ []
        else dst ++ x ∷ [])
      src

-- `encodeHDLC`, with the FCS's low byte first.
pub encode_hdlc : List ℕ → List ℕ
encode_hdlc src =
    let fcs = compute_fcs16 src in
    let fcsbuf = bit_and fcs 0xff ∷ bit_and (fcs / 2 ^ 8) 0xff ∷ [] in
    append_hdlc (append_hdlc (hdlc_padding ∷ []) src) fcsbuf ++ hdlc_padding ∷ []

-- `CHDLC::ParseState`.
pub data ParseState : Type 0 where
  hdlc_packet_complete hdlc_data hdlc_escape : ParseState

-- `CHDLC`. `handler` says whether `m_handler` is set.
pub record Chdlc : Type 0 where
  pub handler : Bool
  pub state : ParseState
  pub buffer : List ℕ
  pub running_fcs : ℕ

unfoldable pub reset : Chdlc → Chdlc
reset p = record p { state = hdlc_packet_complete; buffer = []; running_fcs = init_fcs16 }

-- The constructor allocates `input_length` bytes and resets; the other two fields start out
-- undetermined and are arguments here.
unfoldable pub create : ℕ → Bool → ParseState → ℕ → Chdlc
unfolding reset
create input_length has_handler state fcs = reset (record {
  handler = has_handler;
  state = state;
  buffer = replicate input_length 0;
  running_fcs = fcs;
})

pub append : Chdlc → ℕ → Chdlc
append p byte = record p {
  buffer = p.buffer ++ byte ∷ [];
  running_fcs = add_one_byte_to_fcs16 p.running_fcs byte;
}

-- `validateChecksum`; the code does not look at its argument.
pub validate_checksum : Chdlc → ℕ → Bool
validate_checksum p frame_fcs = close_fcs16 p.running_fcs == 0xf47

-- `callback`: the frames that the handler gets.
pub callback : Chdlc → List (List ℕ)
callback p = if p.handler && ltb 0 (length p.buffer) then p.buffer ∷ [] else []

pub pop_back : List ℕ → List ℕ
pop_back [] = []
pop_back (x ∷ []) = []
pop_back (x ∷ y ∷ xs) = x ∷ pop_back (y ∷ xs)

-- The branch of `addByte` for a padding byte.
pub end_frame : Chdlc → Chdlc × List (List ℕ)
unfolding reset validate_checksum callback pop_back
end_frame p =
    let len = length p.buffer in
    let fcs = (get_or p.buffer (len - 2) 0 * 256 + get_or p.buffer (len - 1) 0) % 2 ^ 16 in
    let popped = record p { buffer = pop_back (pop_back p.buffer) } in
    if ltb 2 len
    then (reset popped, if validate_checksum popped fcs then callback popped else [])
    else (reset p, [])

-- The branches of `addByte` outside an escape.
pub add_plain : Chdlc → ℕ → Chdlc × List (List ℕ)
unfolding append end_frame
add_plain p b =
    if b == hdlc_escchar
    then (record p { state = hdlc_escape }, [])
    else if b == hdlc_padding
    then end_frame p
    else (append p b, [])

abbrev pub is_escape : ParseState → Bool
is_escape hdlc_escape = true
is_escape hdlc_packet_complete = false
is_escape hdlc_data = false

pub add_byte : Chdlc → ℕ → Chdlc × List (List ℕ)
unfolding append add_plain
add_byte p b =
    if is_escape p.state
    then (record (append p (bit_xor b hdlc_xorbyte)) { state = hdlc_data }, [])
    else add_plain p b

-- The loop of `read_async` over the bytes read, and all the frames handed on meanwhile.
unfoldable pub feed : Chdlc → List ℕ → Chdlc × List (List ℕ)
feed p [] = (p, [])
feed p (b ∷ input) =
    let (q, frames) = add_byte p b in let (r, more) = feed q input in (r, frames ++ more)

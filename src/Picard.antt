-- ===== src/Picard.antt =====
-- serial_mux/BasePicard.h and serial_mux/BasePicard.cpp: the Serial API protocol with the manager.
-- A step returns the new state and what it does, in order: frames to `sendRaw`, calls of the
-- registered callback, `resetConnection`, and waking those that wait for the manager's hello.
pub mod Frames
pub mod Invariant
pub mod Responses
pub mod Notifications
pub mod Link
pub mod Port
pub mod Reads
pub mod Overlap
pub mod Hello
pub mod Tests
use serialmux.Prelude.{
  ℕ, ◌+◌, ◌%◌, ◌^◌, bit_and, Bool, true, false, not, ◌&&◌, ◌||◌, Option, none, some, List, [], ◌∷◌,
  ◌++◌, length, get_or, take, drop, ltb, leb, ◌==◌, if◌then◌else◌,
}
use serialmux.Hdlc.{Chdlc, hdlc_packet_complete, create, add_byte}
use serialmux.Mux.{MuxMessage, size}
use serialmux.Common.{hello, hello_response, mgr_hello, notification}

-- What `CBasePicardIO` does to its surroundings.
pub data Event : Type 0 where
  send_raw : List ℕ → Event
  notify_connect : Event
  reset_connection : Event
  handle_notif : ℕ → List ℕ → Event
  command_complete : ℕ → ℕ → ℕ → List ℕ → Event

-- `CBasePicardIO`; `has_callback` says whether `m_callback` is set, and `hdlc` is the parser behind
-- `m_hdlc`. The lock has no state of its own.
pub record BasePicardIo : Type 0 where
  pub is_running : Bool
  pub connected : Bool
  pub has_callback : Bool
  pub hdlc : Option Chdlc
  pub protocol_version : ℕ
  pub seq_no : ℕ
  pub mgr_seq_no : ℕ

-- `CBasePicardIO()`.
abbrev pub new_picard : BasePicardIo
new_picard = record {
  is_running = false;
  connected = false;
  has_callback = false;
  hdlc = none;
  protocol_version = 0;
  seq_no = 0;
  mgr_seq_no = 0;
}

abbrev pub start : BasePicardIo → BasePicardIo
start p = record p { is_running = true }

abbrev pub stop : BasePicardIo → BasePicardIo
stop p = record p { is_running = false }

abbrev pub cleanup : BasePicardIo → BasePicardIo
cleanup p = record p { connected = false; hdlc = none }

abbrev pub register_callback : Bool → BasePicardIo → BasePicardIo
register_callback handler p = record p { has_callback = handler }

-- `INPUT_BUFFER_LEN`, and the start of `threadMain`: a new HDLC parser, whose handler is set. The
-- constructor overwrites the last two values.
abbrev pub input_buffer_len : ℕ
input_buffer_len = 1024

abbrev pub start_parser : BasePicardIo → BasePicardIo
start_parser p = record p { hdlc = some (create input_buffer_len true hdlc_packet_complete 0) }

-- `SERIAL_API_HEADER_LEN` and `KNOWN_API_PROTOCOL_VERSIONS`.
abbrev pub serial_api_header_len : ℕ
serial_api_header_len = 4

abbrev pub known_api_protocol_versions : List ℕ
known_api_protocol_versions = 4 ∷ 3 ∷ []

-- The loop of `checkProtocol`.
unfoldable pub is_known : ℕ → List ℕ → Bool
is_known version [] = false
is_known version (v ∷ vs) = if version == v then true else is_known version vs

unfoldable pub check_protocol : ℕ → Bool
check_protocol version = is_known version known_api_protocol_versions

-- `sendCommand`: the new state is the old one; the number is the command's sequence number. The
-- retransmit flag is only logged.
unfoldable pub send_command : BasePicardIo → MuxMessage → ℕ × List Event
send_command p cmd =
    let cmd_len = bit_and (size cmd) 0xff in
    (p.seq_no, send_raw (2 ∷ cmd.type ∷ p.seq_no ∷ cmd_len ∷ take cmd_len cmd.payload) ∷ [])

unfoldable pub send_ack : BasePicardIo → ℕ → ℕ → BasePicardIo × List Event
send_ack p type seq_no =
    (record p { mgr_seq_no = (seq_no + 1) % 256 }, send_raw (3 ∷ type ∷ seq_no ∷ 1 ∷ 0 ∷ []) ∷ [])

-- `sendHello`; the code does not look at its argument.
unfoldable pub send_hello : BasePicardIo → ℕ → List Event
send_hello p seq_no =
    let requested_version =
      if p.protocol_version == 0
      then get_or known_api_protocol_versions 0 0
      else p.protocol_version in
    send_raw (0 ∷ hello ∷ p.seq_no ∷ 3 ∷ requested_version ∷ p.seq_no ∷ 0 ∷ []) ∷ []

-- The first step of both hellos: record a version that is known.
unfoldable pub record_version : BasePicardIo → ℕ → BasePicardIo
record_version p version =
    if check_protocol version then record p { protocol_version = version } else p

-- `frameComplete`, the branch of a hello response.
unfoldable pub hello_response_complete : BasePicardIo → List ℕ → BasePicardIo × List Event
hello_response_complete p frame =
    let q = record_version p (get_or frame 5 0) in
    if (get_or frame 0 0 == 0) && (get_or frame 4 0 == 0)
    then (
      record q {
        connected = true;
        seq_no = (get_or frame 7 0 + 1) % 256;
        mgr_seq_no = get_or frame 6 0;
      },
      if p.connected then [] else notify_connect ∷ [],
    )
    else (q, [])

-- `frameComplete`, the branch of a manager's hello.
unfoldable pub mgr_hello_complete : BasePicardIo → List ℕ → BasePicardIo × List Event
mgr_hello_complete p frame =
    (record_version p (get_or frame 4 0), if p.connected then reset_connection ∷ [] else [])

-- `frameComplete`, the branch of a notification.
unfoldable pub notification_complete : BasePicardIo → List ℕ → BasePicardIo × List Event
notification_complete p frame =
    let control = get_or frame 0 0 in
    let type = get_or frame 1 0 in
    let seq_no = get_or frame 2 0 in
    let is_reliable = not (bit_and control 2 == 0) in
    let (q, acked) = if is_reliable then send_ack p type seq_no else (p, []) in
    let wanted = q.has_callback && (not is_reliable || not (q.mgr_seq_no == seq_no)) in
    (
      record q { mgr_seq_no = seq_no },
      acked ++ (if wanted then handle_notif (get_or frame 4 0) (drop 5 frame) ∷ [] else []),
    )

-- `frameComplete`, the branch of a command's response.
unfoldable pub response_complete : BasePicardIo → List ℕ → BasePicardIo × List Event
response_complete p frame =
    let type = get_or frame 1 0 in
    let seq_no = get_or frame 2 0 in
    (
      record p { seq_no = (seq_no + 1) % 256 },
      if p.has_callback
          then command_complete type seq_no (get_or frame 4 0) (drop 5 frame) ∷ []
          else [],
    )

-- `frameComplete`.
unfoldable pub frame_complete : BasePicardIo → List ℕ → BasePicardIo × List Event
frame_complete p frame =
    let control = get_or frame 0 0 in
    let type = get_or frame 1 0 in
    let len = get_or frame 3 0 in
    if ltb serial_api_header_len (length frame)
    then if not (len + serial_api_header_len == length frame)
      then (p, [])
      else if (type == hello_response) && leb 5 len
      then hello_response_complete p frame
      else if (type == mgr_hello) && leb 2 len
      then mgr_hello_complete p frame
      else if (type == notification) && (bit_and control 1 == 0) && ltb 1 len
      then notification_complete p frame
      else if ltb notification type && leb 1 len && (control == 3)
      then response_complete p frame
      else (p, [])
    else (p, [])

-- The frames that the HDLC parser hands on, one after the other.
unfoldable pub frames_complete : BasePicardIo → List (List ℕ) → BasePicardIo × List Event
frames_complete p [] = (p, [])
frames_complete p (frame ∷ frames) =
    let (q, events) = frame_complete p frame in
    let (r, more) = frames_complete q frames in (r, events ++ more)

-- The loop of `read` over the bytes read: each goes to the HDLC parser, whose handler this is. A
-- read without a parser, which C++ leaves undefined, does nothing here.
unfoldable pub read_byte : BasePicardIo → ℕ → BasePicardIo × List Event
read_byte p b = elim p.hdlc [
  | none ↦ (p, [])
  | some parser ↦
      let (q, frames) = add_byte parser b in frames_complete (record p { hdlc = some q }) frames
]

unfoldable pub read_bytes : BasePicardIo → List ℕ → BasePicardIo × List Event
read_bytes p [] = (p, [])
read_bytes p (b ∷ input) =
    let (q, events) = read_byte p b in let (r, more) = read_bytes q input in (r, events ++ more)

-- ===== src/Picard/Port.antt =====
-- serial_mux/PicardBoost.h and serial_mux/PicardBoost.cpp, with the loop of
-- serial_mux/BasePicard.cpp around them: the serial port's read with its time limit, the UDP port of
-- the emulator, and `threadMain`. boost.asio's port and the clock are arguments: what a read brings
-- and the time in seconds.
use serialmux.Prelude.{
  ℕ, ◌+◌, ◌-◌, ◌*◌, ◌/◌, ◌%◌, Bool, true, false, not, ◌&&◌, Option, none, some, List, [], ◌∷◌, ◌++◌,
  length, take, drop, ltb, if◌then◌else◌,
}
use serialmux.Hdlc.{encode_hdlc}
use serialmux.Picard.{
  BasePicardIo, Event, reset_connection, frame_complete, read_bytes, send_hello, start_parser,
  input_buffer_len,
}

-- What the port's thread shares with the completion handler of a read: whether it has run, how many
-- bytes it brought, and whether it notified the thread.
pub record ReadState : Type 0 where
  pub read_complete : Bool
  pub read_len : ℕ
  pub notified : Bool

-- How a read ends.
pub data ReadResult : Type 0 where
  bytes_read : ℕ → ReadResult
  aborted : ReadResult
  failed : ReadResult

-- The start of `read_async`.
unfoldable pub start_read : ReadState
start_read = record { read_complete = false; read_len = 0; notified = false }

-- `handleRead`.
unfoldable pub handle_read : ReadResult → ReadState → ReadState
handle_read (bytes_read n) s = record { read_complete = true; read_len = n; notified = true }
handle_read aborted s = record s { read_complete = true }
handle_read failed s = record s { read_complete = true; notified = true }

-- The results whose handlers run in a read, that of the read itself or those of earlier ones: before
-- `m_readLen` is reset, before the test for the wait, in the wait, behind it.
pub record Handlers : Type 0 where
  pub opening : List ReadResult
  pub early : List ReadResult
  pub waited : List ReadResult
  pub behind : List ReadResult

unfoldable pub run_handlers : List ReadResult → ReadState → ReadState
run_handlers [] s = s
run_handlers (r ∷ rs) s = run_handlers rs (handle_read r s)

-- `read_async` up to the use of `m_readLen`, and whether it waits, and so cancels what the port has.
unfoldable pub read_wait : Handlers → ReadState × Bool
unfolding run_handlers start_read
read_wait h =
    let begun = run_handlers h.opening start_read in
    let s = run_handlers h.early (record begun { read_len = 0 }) in
    if s.read_complete
    then (run_handlers h.behind s, false)
    else (run_handlers h.behind (run_handlers h.waited s), true)

-- `read_async`, with its own input buffer as it is when the bytes go to the parser. `none` for the
-- buffer is an exception: the port is closed.
unfoldable pub read_async : Handlers → Option (List ℕ) → BasePicardIo → BasePicardIo × List Event
unfolding read_wait
read_async handlers buffer p = elim buffer [
  | none ↦ (p, reset_connection ∷ [])
  | some input ↦ read_bytes p (take (read_wait handlers).0.read_len input)
]

-- The options of the serial port: the baud rate, the size of a character, whether there is flow
-- control, parity, a second stop bit.
pub record PortSettings : Type 0 where
  pub baud_rate : ℕ
  pub character_size : ℕ
  pub flow_control : Bool
  pub parity : Bool
  pub two_stop_bits : Bool

-- Those that the constructor of `CPicardBoost_Serial` sets, whatever its arguments are.
abbrev pub serial_settings : PortSettings
serial_settings = record {
  baud_rate = 115200;
  character_size = 8;
  flow_control = false;
  parity = false;
  two_stop_bits = false;
}

-- The receive timeout of `CPicardBoost_UDP`, in seconds and microseconds.
unfoldable pub recv_timeout : ℕ → ℕ × ℕ
recv_timeout read_timeout = (read_timeout / 1000, read_timeout % 1000 * 1000)

-- `CPicardBoost_Serial::sendRaw`, up to the write.
unfoldable pub serial_bytes : List ℕ → List ℕ
serial_bytes frame = encode_hdlc frame

-- `CPicardBoost_UDP`: a dummy byte goes before each packet, and the first byte of what comes in is
-- dropped. An empty packet, whose first byte C++ would look for behind the buffer's start, gives
-- `none`.
unfoldable pub udp_packet : List ℕ → List ℕ
udp_packet frame = 0 ∷ frame

unfoldable pub udp_frame : List ℕ → Option (List ℕ)
udp_frame packet =
    let received = take input_buffer_len packet in
    if ltb 0 (length received) then some (drop 1 received) else none

unfoldable pub udp_read : List ℕ → BasePicardIo → Option (BasePicardIo × List Event)
unfolding udp_frame
udp_read packet p = elim (udp_frame packet) [
  | none ↦ none
  | some frame ↦ some (frame_complete p frame)
]

-- `waitForHello`: whether it waits, and its result after the wait.
unfoldable pub must_wait_for_hello : BasePicardIo → Bool
must_wait_for_hello p = not p.connected

unfoldable pub hello_result : BasePicardIo → Bool
hello_result p = p.connected

-- `PICARD_HELLO_INTERVAL`.
abbrev pub picard_hello_interval : ℕ
picard_hello_interval = 6

-- The loop of `threadMain`, and the time of its last hello.
pub record ThreadMain : Type 0 where
  pub picard : BasePicardIo
  pub last_hello : ℕ

-- The start of the loop. The clock is late enough for a time before it.
unfoldable pub start_thread : ℕ → BasePicardIo → ThreadMain
start_thread now p = record {
  picard = start_parser p;
  last_hello = now - 2 * picard_hello_interval;
}

-- The hello of a round, at time `now`; `sent` is the time behind the send.
unfoldable pub hello_round : ℕ → ℕ → ThreadMain → ThreadMain × List Event
hello_round now sent t =
    if not t.picard.connected && ltb (t.last_hello + picard_hello_interval) now
    then (record t { last_hello = sent }, send_hello t.picard 0)
    else (t, [])

-- A round of the loop: a hello, if it is time for one, and a read.
unfoldable pub thread_round :
    ℕ → ℕ → Handlers → Option (List ℕ) → ThreadMain → ThreadMain × List Event
unfolding hello_round
thread_round now sent handlers buffer t =
    let (u, hello) = hello_round now sent t in
    let (p, events) = read_async handlers buffer u.picard in
    if t.picard.is_running then (record u { picard = p }, hello ++ events) else (t, [])

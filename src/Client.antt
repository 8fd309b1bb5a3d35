-- ===== src/Client.antt =====
-- serial_mux/BoostClient.h and serial_mux/BoostClient.cpp: one TCP client, its hello exchange and
-- what it asks of the client manager (`ISimpleClientList`), of its socket and of its timer. What
-- boost.asio does with a request is not modelled: its completion handlers are the functions here,
-- and their error code is the `Bool` that says whether there was an error.
pub mod Hello
pub mod Commands
pub mod Session
pub mod States
pub mod Tests
use serialmux.Prelude.{
  ℕ, zero, suc, ◌+◌, Bool, true, false, not, ◌&&◌, List, [], ◌∷◌, ◌++◌, length, get_or, ltb, ◌==◌,
  if◌then◌else◌,
}
use serialmux.Common.{
  mux_hello, ok_code, err_invalid_cmd, err_invalid_auth, err_unsupported_version,
}
use serialmux.Subscriber.{Subscriber, new_subscriber}
use serialmux.Mux.{MuxMessage, size, MuxParser, new_parser, read, mux_output, serialize_output}

-- `InitState`.
pub data InitState : Type 0 where
  waiting authenticated bad_init closed : InitState

abbrev pub is_waiting : InitState → Bool
is_waiting waiting = true
is_waiting authenticated = false
is_waiting bad_init = false
is_waiting closed = false

abbrev pub is_authenticated : InitState → Bool
is_authenticated authenticated = true
is_authenticated waiting = false
is_authenticated bad_init = false
is_authenticated closed = false

abbrev pub is_bad_init : InitState → Bool
is_bad_init bad_init = true
is_bad_init waiting = false
is_bad_init authenticated = false
is_bad_init closed = false

-- What a client asks of its surroundings. `add_client`, `remove_client` and `add_command` are the
-- calls of the client manager, with the client itself as their first argument.
pub data Request : Type 0 where
  write : List ℕ → Request
  add_client : Request
  remove_client : Request
  add_command : MuxMessage → Request
  start_timer : Request
  cancel_timer : Request
  async_read : Request
  shutdown_socket : Request
  close_socket : Request

-- `CBoostClient`; `subscriber` is its base class. The name is for the log only.
pub record BoostClient : Type 0 where
  pub subscriber : Subscriber
  pub socket_open : Bool
  pub init_state : InitState
  pub parser : MuxParser
  pub expected_auth : List ℕ
  pub protocol_version : ℕ

-- The constructor, on a socket that the listener has accepted.
abbrev pub new_client : List ℕ → ℕ → BoostClient
new_client auth_token protocol_version = record {
  subscriber = new_subscriber;
  socket_open = true;
  init_state = waiting;
  parser = new_parser true;
  expected_auth = auth_token;
  protocol_version = protocol_version;
}

-- `AUTHENTICATION_LEN` and `EXPECTED_HELLO_LEN`.
abbrev pub authentication_len : ℕ
authentication_len = 8

abbrev pub expected_hello_len : ℕ
expected_hello_len = 9

-- `close`.
unfoldable pub close : BoostClient → BoostClient × List Request
close c = (
  record c { socket_open = false; init_state = closed },
  cancel_timer ∷ (if c.socket_open then shutdown_socket ∷ close_socket ∷ [] else []),
)

-- The loop of `parseHello` over the authentication token, with `i` bytes behind it.
unfoldable pub check_auth : ℕ → ℕ → List ℕ → List ℕ → ℕ → ℕ
check_auth zero i expected bytes result = result
check_auth (suc rounds) i expected bytes result =
    check_auth rounds (suc i) expected bytes
      (if get_or expected i 0 == get_or bytes (suc i) 0 then result else err_invalid_auth)

-- `parseHello`.
unfoldable pub parse_hello : BoostClient → List ℕ → ℕ → ℕ
unfolding check_auth
parse_hello c bytes len =
    let versioned =
      if get_or bytes 0 0 == c.protocol_version then ok_code else err_unsupported_version in
    if len == expected_hello_len
    then check_auth authentication_len 0 c.expected_auth bytes versioned
    else err_invalid_cmd

-- `buildHelloResponse`.
unfoldable pub build_hello_response : BoostClient → ℕ → List ℕ
build_hello_response c result =
    serialize_output (mux_output mux_hello 0 result (c.protocol_version ∷ []))

-- `handleCommand` in the state `WAITING`, with a hello.
unfoldable pub hello_command : BoostClient → MuxMessage → BoostClient × List Request
hello_command c command =
    let result = parse_hello c command.payload (size command) in
    let answered = write (build_hello_response c result) ∷ cancel_timer ∷ [] in
    if result == ok_code
    then (record c { init_state = authenticated }, answered ++ add_client ∷ [])
    else (record c { init_state = bad_init; socket_open = false }, answered ++ close_socket ∷ [])

-- `handleCommand`.
unfoldable pub handle_command : BoostClient → MuxMessage → BoostClient × List Request
handle_command c command =
    if is_authenticated c.init_state
    then (c, add_command command ∷ [])
    else if is_waiting c.init_state && (command.type == mux_hello)
    then hello_command c command
    else (c, [])

-- The parser's calls of `handleCommand`, one after the other.
unfoldable pub handle_commands : BoostClient → List MuxMessage → BoostClient × List Request
handle_commands c [] = (c, [])
handle_commands c (command ∷ commands) =
    let (d, asked) = handle_command c command in
    let (e, more) = handle_commands d commands in (e, asked ++ more)

-- `m_parser.read(data)`: the parser's loop does not look at the client, and the client's handler
-- does not look at the parser.
unfoldable pub parse_input : BoostClient → List ℕ → BoostClient × List Request
parse_input c input =
    let (parser, commands) = read c.parser input in
    handle_commands (record c { parser = parser }) commands

-- `handle_read`, with the bytes that were read: the branch of a read, then that of an error.
unfoldable pub handle_input : BoostClient → List ℕ → BoostClient × List Request
handle_input c input =
    let (d, asked) = parse_input c input in
    (d, asked ++ (if is_bad_init d.init_state then [] else async_read ∷ []))

unfoldable pub handle_read : BoostClient → Bool → List ℕ → BoostClient × List Request
handle_read c error input =
    let (d, asked) = if not error && ltb 0 (length input) then handle_input c input else (c, []) in
    let removed = if error && is_authenticated d.init_state then remove_client ∷ [] else [] in
    (d, asked ++ removed)

-- `handleAuthTimeout`.
unfoldable pub handle_auth_timeout : BoostClient → Bool → BoostClient × List Request
handle_auth_timeout c error = if error then (c, []) else close (record c { init_state = bad_init })

-- `start`.
unfoldable pub start : BoostClient → BoostClient × List Request
start c = (c, start_timer ∷ async_read ∷ [])

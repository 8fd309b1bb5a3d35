-- ===== src/Clr.antt =====
-- serial_mux/ClientListener.h and serial_mux/ClientListener.cpp: the listener of the .NET variant,
-- which does a client's hello itself, in one read. The sockets are .NET's; the constant
-- `SERIAL_API_PROTOCOL_VERSION`, which no file of the repository defines, is the argument `version`.
pub mod Hello
pub mod Clients
pub mod Served
pub mod Tests
use serialmux.Prelude.{
  ℕ, zero, suc, ◌+◌, Bool, true, ◌&&◌, List, [], ◌∷◌, length, take, get_or, ◌==◌, if◌then◌else◌,
}
use serialmux.Common.{
  mux_hello, ok_code, err_invalid_cmd, err_invalid_auth, err_unsupported_version,
}
use serialmux.Mux.{mux_output, serialize_output}
use serialmux.Client.{authentication_len}

abbrev pub max_auth_input_len : ℕ
max_auth_input_len = 256

abbrev pub expected_hello_len : ℕ
expected_hello_len = 18

-- The loop of `parseHello` over the token.
unfoldable pub check_auth : ℕ → ℕ → ℕ → List ℕ → List ℕ → ℕ → ℕ
check_auth zero i index expected data_bytes result = result
check_auth (suc rounds) i index expected data_bytes result =
    check_auth rounds (suc i) index expected data_bytes
      (if get_or expected i 0 == get_or data_bytes (index + i) 0 then result else err_invalid_auth)

-- `parseHello`.
unfoldable pub parse_hello : ℕ → List ℕ → List ℕ → ℕ → ℕ
unfolding check_auth
parse_hello version expected data_bytes len =
    let versioned = if get_or data_bytes 9 0 == version then ok_code else err_unsupported_version in
    if len == expected_hello_len && (get_or data_bytes 8 0 == mux_hello)
    then check_auth authentication_len 0 10 expected data_bytes versioned
    else err_invalid_cmd

-- `buildHelloResponse`; `HELLO` is the same number as `MUX_HELLO`.
unfoldable pub build_hello_response : ℕ → ℕ → List ℕ
build_hello_response version result =
    serialize_output (mux_output mux_hello 0 result (version ∷ []))

-- How the read of a client's hello ends, and what the listener does then: it answers, adds the
-- client to the list, closes the socket.
pub data Reading : Type 0 where
  brings : List ℕ → Reading
  times_out is_disposed : Reading

pub data Action : Type 0 where
  sends : List ℕ → Action
  adds_client closes : Action

-- `threadMain` with a socket that was accepted. `is_sent` says whether the answer can be sent.
unfoldable pub greet : ℕ → List ℕ → Bool → Reading → List Action
greet version expected is_sent (brings bytes) =
    let received = take max_auth_input_len bytes in
    let result = parse_hello version expected received (length received) in
    if is_sent
    then sends (build_hello_response version result)
      ∷ (if result == ok_code then adds_client ∷ [] else closes ∷ [])
    else closes ∷ []
greet version expected is_sent times_out = closes ∷ []
greet version expected is_sent is_disposed = []

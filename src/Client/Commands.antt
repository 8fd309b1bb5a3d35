-- ===== src/Client/Commands.antt =====
-- The messages of a client, one after the other, and what they make it ask for.
use serialmux.Prelude.{
  ◌≡◌, refl, sym, true, false, Bool-cases, inl, inr, List, [], ◌∷◌, ◌++◌, map, append_assoc, ◌==◌,
  arith, if◌then◌else◌,
}
use serialmux.Common.{mux_hello, ok_code}
use serialmux.Mux.{MuxMessage, MuxParser, size}
use serialmux.Client.{
  waiting, authenticated, bad_init, Request, write, add_client, add_command, cancel_timer,
  close_socket, BoostClient, parse_hello, build_hello_response, hello_command, handle_command,
  handle_commands,
}

abbrev pub with_parser : MuxParser → BoostClient → BoostClient
with_parser q c = record c { parser = q }

abbrev pub reparsed : MuxParser → BoostClient × List Request → BoostClient × List Request
reparsed q (c, asked) = (with_parser q c, asked)

-- `handleCommand` neither looks at the parser nor changes it.
handle_command-with_parser :
    (q : MuxParser) (c : BoostClient) (m : MuxMessage)
    → handle_command (with_parser q c) m ≡ reparsed q (handle_command c m)
unfolding handle_command hello_command parse_hello build_hello_response
handle_command-with_parser q c m = ground arith

pub handle_commands-with_parser :
    (q : MuxParser) (c : BoostClient) (ms : List MuxMessage)
    → handle_commands (with_parser q c) ms ≡ reparsed q (handle_commands c ms)
unfolding handle_commands
handle_commands-with_parser q c [] = refl
handle_commands-with_parser q c (m ∷ ms) =
    rw (handle_command-with_parser q c m, handle_commands-with_parser q (handle_command c m).0 ms)
      refl

pub handle_commands-append :
    (c : BoostClient) (ms ns : List MuxMessage)
    → handle_commands c (ms ++ ns) ≡ (
      (handle_commands (handle_commands c ms).0 ns).0,
      (handle_commands c ms).1 ++ (handle_commands (handle_commands c ms).0 ns).1,
    )
unfolding handle_commands
handle_commands-append c [] ns = refl
handle_commands-append c (m ∷ ms) ns =
    rw (handle_commands-append (handle_command c m).0 ms ns) (λ i. (
      (handle_commands (handle_commands (handle_command c m).0 ms).0 ns).0,
      sym
          (append_assoc (handle_command c m).1 (handle_commands (handle_command c m).0 ms).1
            (handle_commands (handle_commands (handle_command c m).0 ms).0 ns).1)
          i,
    ))

handle_command_authenticated :
    (c : BoostClient) (m : MuxMessage)
    → c.init_state ≡ authenticated
    → handle_command c m ≡ (c, add_command m ∷ [])
unfolding handle_command
handle_command_authenticated c m h = ground arith

handle_commands_authenticated :
    (c : BoostClient) (ms : List MuxMessage)
    → c.init_state ≡ authenticated
    → handle_commands c ms ≡ (c, map add_command ms)
unfolding handle_commands
handle_commands_authenticated c [] h = refl
handle_commands_authenticated c (m ∷ ms) h =
    simp (handle_command_authenticated c m h, handle_commands_authenticated c ms h)

handle_command_refused :
    (c : BoostClient) (m : MuxMessage) → c.init_state ≡ bad_init → handle_command c m ≡ (c, [])
unfolding handle_command
handle_command_refused c m h = ground arith

handle_commands_refused :
    (c : BoostClient) (ms : List MuxMessage)
    → c.init_state ≡ bad_init
    → handle_commands c ms ≡ (c, [])
unfolding handle_commands
handle_commands_refused c [] h = refl
handle_commands_refused c (m ∷ ms) h =
    simp (handle_command_refused c m h, handle_commands_refused c ms h)

-- What a new client is to ask for, given all its messages: nothing for what comes before the first
-- hello. A hello that is accepted is answered, the client is added to the manager's list, and all
-- that follows becomes commands. Any other is answered, the socket is closed, and what follows is
-- not looked at.
pub session : BoostClient → List MuxMessage → List Request
session c [] = []
session c (m ∷ ms) =
    let result = parse_hello c m.payload (size m) in
    let answer = write (build_hello_response c result) in
    let later = session c ms in
    if m.type == mux_hello
    then if result == ok_code
      then answer ∷ cancel_timer ∷ add_client ∷ map add_command ms
      else answer ∷ cancel_timer ∷ close_socket ∷ []
    else later

module _ (c : BoostClient) (m : MuxMessage) (fresh : c.init_state ≡ waiting) where
  answered : List Request
  answered = write (build_hello_response c (parse_hello c m.payload (size m))) ∷ cancel_timer ∷ []

  not_hello : (m.type == mux_hello) ≡ false → handle_command c m ≡ (c, [])
  unfolding handle_command
  not_hello e = rw (fresh, e) (ground arith)

  welcomed :
      (m.type == mux_hello) ≡ true
      → (parse_hello c m.payload (size m) == ok_code) ≡ true
      → handle_command c m ≡ (record c { init_state = authenticated }, answered ++ add_client ∷ [])
  unfolding handle_command hello_command answered
  welcomed e good = ground arith

  turned_away :
      (m.type == mux_hello) ≡ true
      → (parse_hello c m.payload (size m) == ok_code) ≡ false
      → handle_command c m
        ≡ (record c { init_state = bad_init; socket_open = false }, answered ++ close_socket ∷ [])
  unfolding handle_command hello_command answered
  turned_away e bad = ground arith

pub handle_commands-session :
    (c : BoostClient) (ms : List MuxMessage)
    → c.init_state ≡ waiting
    → (handle_commands c ms).1 ≡ session c ms
unfolding handle_commands session answered
handle_commands-session c [] h = refl
handle_commands-session c (m ∷ ms) h = elim (Bool-cases (m.type == mux_hello)) [
  | inr other ↦ simp (other, not_hello c m h other) (handle_commands-session c ms h)
  | inl hello ↦ elim (Bool-cases (parse_hello c m.payload (size m) == ok_code)) [
    | inl good ↦ simp (
      hello,
      good,
      welcomed c m h hello good,
      handle_commands_authenticated (record c { init_state = authenticated }) ms refl,
    )
    | inr bad ↦ simp (
      hello,
      bad,
      turned_away c m h hello bad,
      handle_commands_refused (record c { init_state = bad_init; socket_open = false }) ms refl,
    )
  ]
]

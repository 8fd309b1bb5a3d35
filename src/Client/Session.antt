-- ===== src/Client/Session.antt =====
-- A client's connection from its first byte: what the messages it sends make it ask for.
use serialmux.Prelude.{
  ℕ, ◌<◌, ◌≡◌, refl, ap, sym, ◌∙◌, Bool, true, false, List, [], ◌∷◌, ◌++◌, append-nil, flatten, All,
  length, arith, if◌then◌else◌, lt→ltb,
}
use serialmux.Mux.{MuxMessage, MuxParser, read, read_all}
use serialmux.Mux.Framing.{Fits, stream, read_all-stream}
use serialmux.Client.{
  is_bad_init, Request, write, add_client, remove_client, add_command, start_timer, cancel_timer,
  async_read, shutdown_socket, close_socket, BoostClient, new_client, hello_command, handle_command,
  handle_commands, parse_input, handle_input, handle_read,
}
use serialmux.Client.Commands.{
  with_parser, session, handle_commands-with_parser, handle_commands-append,
  handle_commands-session,
}

-- The reads of a client, one after the other.
unfoldable pub handle_reads : BoostClient → List (List ℕ) → BoostClient × List Request
handle_reads c [] = (c, [])
handle_reads c (input ∷ inputs) =
    let (d, asked) = handle_read c false input in
    let (e, more) = handle_reads d inputs in (e, asked ++ more)

-- All but the requests for the next read.
abbrev pub is_read : Request → Bool
is_read async_read = true
is_read (write bytes) = false
is_read add_client = false
is_read remove_client = false
is_read (add_command m) = false
is_read start_timer = false
is_read cancel_timer = false
is_read shutdown_socket = false
is_read close_socket = false

unfoldable pub without_reads : List Request → List Request
without_reads [] = []
without_reads (r ∷ rs) = if is_read r then without_reads rs else r ∷ without_reads rs

without_reads-append :
    (xs ys : List Request) → without_reads (xs ++ ys) ≡ without_reads xs ++ without_reads ys
unfolding without_reads
without_reads-append [] ys = refl
without_reads-append (x ∷ xs) ys = ground (arith, without_reads-append xs ys)

-- `handleCommand` asks for no read.
without_reads-handle_command :
    (c : BoostClient) (m : MuxMessage)
    → without_reads (handle_command c m).1 ≡ (handle_command c m).1
unfolding without_reads handle_command hello_command
without_reads-handle_command c m = ground arith

without_reads-handle_commands :
    (c : BoostClient) (ms : List MuxMessage)
    → without_reads (handle_commands c ms).1 ≡ (handle_commands c ms).1
unfolding handle_commands
without_reads-handle_commands c [] = unfold without_reads in refl
without_reads-handle_commands c (m ∷ ms) =
    without_reads-append (handle_command c m).1 (handle_commands (handle_command c m).0 ms).1
    ∙ rw (without_reads-handle_command c m, without_reads-handle_commands (handle_command c m).0 ms)
        refl

module _ (c : BoostClient) (input : List ℕ) (some_bytes : 0 < length input) where
  abbrev parsed : MuxParser × List MuxMessage
  parsed = read c.parser input

  handle_read-state :
      (handle_read c false input).0 ≡ with_parser parsed.0 (handle_commands c parsed.1).0
  unfolding handle_read handle_input parse_input
  handle_read-state =
      rw (lt→ltb 0 (length input) some_bytes)
        (ap (λ r. r.0) (handle_commands-with_parser parsed.0 c parsed.1))

  handle_read-asked : without_reads (handle_read c false input).1 ≡ (handle_commands c parsed.1).1
  unfolding handle_read handle_input parse_input
  handle_read-asked = rw (lt→ltb 0 (length input) some_bytes) (
      let d = handle_commands (with_parser parsed.0 c) parsed.1 in
      ap without_reads
        (append-nil (d.1 ++ (if is_bad_init d.0.init_state then [] else async_read ∷ [])))
      ∙ without_reads-append d.1 (if is_bad_init d.0.init_state then [] else async_read ∷ [])
      ∙ ap (λ t. without_reads d.1 ++ t) no_more
      ∙ append-nil (without_reads d.1)
      ∙ without_reads-handle_commands (with_parser parsed.0 c) parsed.1
      ∙ ap (λ r. r.1) (handle_commands-with_parser parsed.0 c parsed.1))
    where
      no_more :
          without_reads (
            if is_bad_init (handle_commands (with_parser parsed.0 c) parsed.1).0.init_state
            then []
            else async_read ∷ [])
          ≡ []
      no_more = unfold without_reads in ground arith

handle_reads-handle_commands :
    (c : BoostClient) (inputs : List (List ℕ))
    → All (λ input. 0 < length input) inputs
    → without_reads (handle_reads c inputs).1 ≡ (handle_commands c (read_all c.parser inputs).1).1
unfolding handle_reads read_all
handle_reads-handle_commands c [] h = unfold without_reads handle_commands in refl
handle_reads-handle_commands c (input ∷ inputs) (h, hs) =
    let (q, commands) = read c.parser input in
    let d = (handle_commands c commands).0 in
    without_reads-append (handle_read c false input).1
      (handle_reads (handle_read c false input).0 inputs).1
    ∙ (λ i.
        handle_read-asked c input h i
        ++ without_reads (handle_reads (handle_read-state c input h i) inputs).1)
    ∙ ap (λ t. (handle_commands c commands).1 ++ t)
        (handle_reads-handle_commands (with_parser q d) inputs hs)
    ∙ ap (λ (r : BoostClient × List Request). (handle_commands c commands).1 ++ r.1)
        (handle_commands-with_parser q d (read_all q inputs).1)
    ∙ ap (λ r. r.1) (sym (handle_commands-append c commands (read_all q inputs).1))

-- However the stream of a client's messages, whose fields fit, is cut into reads that are not
-- empty, a new client asks for exactly what its session promises, apart from the next reads:
-- nothing before the first hello; if that is accepted its answer, its place in the manager's list
-- and a command for each message behind it; else its answer and the end of the connection.
pub handle_reads-session :
    (auth_token : List ℕ) (protocol_version : ℕ) (inputs : List (List ℕ)) (ms : List MuxMessage)
    → All (λ input. 0 < length input) inputs
    → All Fits ms
    → flatten inputs ≡ stream ms
    → without_reads (handle_reads (new_client auth_token protocol_version) inputs).1
      ≡ session (new_client auth_token protocol_version) ms
handle_reads-session auth_token protocol_version inputs ms nonempty fits e =
    let c = new_client auth_token protocol_version in
    handle_reads-handle_commands c inputs nonempty
    ∙ ap (λ t. (handle_commands c t).1) (read_all-stream inputs ms fits e)
    ∙ handle_commands-session c ms refl

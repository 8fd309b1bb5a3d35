-- ===== src/Client/States.antt =====
-- What a client asks of its manager over its whole life, whatever happens to it.
use serialmux.Prelude.{
  ℕ, ◌≡◌, refl, ◌∙◌, Bool, true, false, not, ◌&&◌, Bool-cases, inl, inr, List, [], ◌∷◌, ◌++◌,
  append-nil, All, All-append, length, ltb, arith, if◌then◌else◌,
}
use serialmux.Mux.{MuxMessage, read}
use serialmux.Client.{
  bad_init, waiting, authenticated, bad_init, closed, is_bad_init, Request, write, add_client,
  remove_client, add_command, start_timer, cancel_timer, async_read, shutdown_socket, close_socket,
  BoostClient, new_client, hello_command, handle_command, handle_commands, parse_input,
  handle_input, handle_read, handle_auth_timeout, close,
}

-- What can happen to a client: a read that ends with some bytes, one that fails, its timer, and a
-- call of `close`.
pub data Happening : Type 0 where
  reads : List ℕ → Happening
  fails : Happening
  times_out : Bool → Happening
  closes : Happening

unfoldable pub happen : BoostClient → Happening → BoostClient × List Request
happen c (reads input) = handle_read c false input
happen c fails = handle_read c true []
happen c (times_out error) = handle_auth_timeout c error
happen c closes = close c

unfoldable pub happenings : BoostClient → List Happening → BoostClient × List Request
unfolding happen
happenings c [] = (c, [])
happenings c (h ∷ hs) =
    let (d, asked) = happen c h in let (e, more) = happenings d hs in (e, asked ++ more)

-- Whether the client is added to the manager's list by these requests, or was before.
unfoldable pub added : Bool → List Request → Bool
added before [] = before
added before (add_client ∷ rs) = added true rs
added before (r ∷ rs) = added before rs

-- The requests come in order: the client is added at most once, and commands and its removal come
-- only after that.
unfoldable pub in_order : Bool → List Request → Bool
in_order before [] = true
in_order before (add_client ∷ rs) = not before && in_order true rs
in_order before (remove_client ∷ rs) = before && in_order before rs
in_order before (add_command m ∷ rs) = before && in_order before rs
in_order before (r ∷ rs) = in_order before rs

added-append :
    (before : Bool) (xs ys : List Request) → added before (xs ++ ys) ≡ added (added before xs) ys
unfolding added
added-append before [] ys = refl
added-append before (add_client ∷ xs) ys = added-append true xs ys
added-append before (r ∷ xs) ys = added-append before xs ys

in_order-append :
    (before : Bool) (xs ys : List Request)
    → in_order before (xs ++ ys) ≡ (in_order before xs && in_order (added before xs) ys)
unfolding added in_order
in_order-append before [] ys = refl
in_order-append before (add_client ∷ xs) ys = ground (arith, in_order-append true xs ys)
in_order-append before (r ∷ xs) ys = ground (arith, in_order-append before xs ys)

-- A client that waits or was refused is not added, and one that is authenticated is.
pub record Agrees (before : Bool) (c : BoostClient) : Type 0 where
  pub waiting-added : c.init_state ≡ waiting → before ≡ false
  pub authenticated-added : c.init_state ≡ authenticated → before ≡ true
  pub refused-added : c.init_state ≡ bad_init → before ≡ false

pub record Kept (before : Bool) (r : BoostClient × List Request) : Type 0 where
  pub ordered : in_order before r.1 ≡ true
  pub agrees : Agrees (added before r.1) r.0

Kept-append :
    (before : Bool) (c d : BoostClient) (xs ys : List Request)
    → Kept before (c, xs)
    → Kept (added before xs) (d, ys)
    → Kept before (d, xs ++ ys)
Kept-append before c d xs ys first second = record {
  ordered = in_order-append before xs ys ∙ rw (first.ordered, second.ordered) refl;
  agrees = rw (added-append before xs ys) second.agrees;
}

handle_command-Kept :
    (before : Bool) (c : BoostClient) (m : MuxMessage)
    → Agrees before c
    → Kept before (handle_command c m)
unfolding handle_command hello_command added in_order
handle_command-Kept before c m a = ground arith

handle_commands-Kept :
    (before : Bool) (c : BoostClient) (ms : List MuxMessage)
    → Agrees before c
    → Kept before (handle_commands c ms)
unfolding handle_commands
handle_commands-Kept before c [] a = unfold in_order added in record { ordered = refl; agrees = a }
handle_commands-Kept before c (m ∷ ms) a =
    let first = handle_command-Kept before c m a in
    Kept-append before (handle_command c m).0 (handle_commands (handle_command c m).0 ms).0
      (handle_command c m).1 (handle_commands (handle_command c m).0 ms).1 first
      (handle_commands-Kept (added before (handle_command c m).1) (handle_command c m).0 ms
        first.agrees)

module _ (before : Bool) (c : BoostClient) (a : Agrees before c) where
  handle_input-Kept : (input : List ℕ) → Kept before (handle_input c input)
  unfolding handle_input
  handle_input-Kept input =
      Kept-append before (parse_input c input).0 (parse_input c input).0 (parse_input c input).1
        (if is_bad_init (parse_input c input).0.init_state then [] else async_read ∷ []) parsed
        again
    where
      parsed : Kept before (parse_input c input)
      parsed =
          unfold parse_input in
          handle_commands-Kept before _ _ (record {
            waiting-added = a.waiting-added;
            authenticated-added = a.authenticated-added;
            refused-added = a.refused-added;
          })

      again : Kept (added before (parse_input c input).1) (
        (parse_input c input).0,
        if is_bad_init (parse_input c input).0.init_state then [] else async_read ∷ [],
      )
      again = let kept = parsed.agrees in unfold added in_order in ground (arith, kept)

  pub happen-Kept : (h : Happening) → Kept before (happen c h)
  unfolding happen handle_read handle_auth_timeout close added in_order
  happen-Kept (reads input) = elim (Bool-cases (ltb 0 (length input))) [
    | inl e ↦ rw (e, append-nil (handle_input c input).1) (handle_input-Kept input)
    | inr e ↦ rw e (record { ordered = refl; agrees = a })
  ]
  happen-Kept fails = ground arith
  happen-Kept (times_out error) = ground arith
  happen-Kept closes = ground arith

happenings-Kept :
    (before : Bool) (c : BoostClient) (hs : List Happening)
    → Agrees before c
    → Kept before (happenings c hs)
unfolding happenings
happenings-Kept before c [] a = unfold in_order added in record { ordered = refl; agrees = a }
happenings-Kept before c (h ∷ hs) a =
    let first = happen-Kept before c a h in
    Kept-append before (happen c h).0 (happenings (happen c h).0 hs).0 (happen c h).1
      (happenings (happen c h).0 hs).1 first
      (happenings-Kept (added before (happen c h).1) (happen c h).0 hs first.agrees)

-- Whatever happens to a new client, it asks in order: it is added to the manager's list at most
-- once, and its commands and its removal come only after that.
pub happenings-in_order :
    (auth_token : List ℕ) (protocol_version : ℕ) (hs : List Happening)
    → in_order false (happenings (new_client auth_token protocol_version) hs).1 ≡ true
happenings-in_order auth_token protocol_version hs =
    (happenings-Kept false (new_client auth_token protocol_version) hs (record {
      waiting-added = λ e. refl;
      authenticated-added = λ e. cc;
      refused-added = λ e. cc;
    })).ordered

-- The calls of the client manager.
abbrev pub calls_manager : Request → Bool
calls_manager add_client = true
calls_manager remove_client = true
calls_manager (add_command m) = true
calls_manager (write bytes) = false
calls_manager start_timer = false
calls_manager cancel_timer = false
calls_manager async_read = false
calls_manager shutdown_socket = false
calls_manager close_socket = false

abbrev pub IsSilent : List Request → Type 0
IsSilent = All (λ r. calls_manager r ≡ false)

record StaysClosed (r : BoostClient × List Request) : Type 0 where
  state_eq : r.0.init_state ≡ closed
  silent : IsSilent r.1

module _ (c : BoostClient) (shut : c.init_state ≡ closed) where
  handle_command_closed : (m : MuxMessage) → handle_command c m ≡ (c, [])
  unfolding handle_command
  handle_command_closed m = ground arith

  handle_commands_closed : (ms : List MuxMessage) → handle_commands c ms ≡ (c, [])
  unfolding handle_commands
  handle_commands_closed [] = refl
  handle_commands_closed (m ∷ ms) = simp (handle_command_closed m, handle_commands_closed ms)

handle_input-StaysClosed :
    (c : BoostClient) (input : List ℕ) → c.init_state ≡ closed → StaysClosed (handle_input c input)
unfolding handle_input parse_input
handle_input-StaysClosed c input shut =
    simp
      (handle_commands_closed (record c { parser = (read c.parser input).0 }) shut
        (read c.parser input).1)
      (record { state_eq = shut; silent = ground arith })

close-StaysClosed : (c : BoostClient) → StaysClosed (close c)
unfolding close
close-StaysClosed c = ground arith

happen-StaysClosed :
    (c : BoostClient) (h : Happening) → c.init_state ≡ closed → StaysClosed (happen c h)
unfolding happen handle_read handle_auth_timeout close
happen-StaysClosed c (reads input) shut = elim (Bool-cases (ltb 0 (length input))) [
  | inl e ↦ rw (e, append-nil (handle_input c input).1) (handle_input-StaysClosed c input shut)
  | inr e ↦ rw e (record { state_eq = shut; silent = tt })
]
happen-StaysClosed c fails shut = ground arith
happen-StaysClosed c (times_out error) shut = ground arith
happen-StaysClosed c closes shut = ground arith

happenings-StaysClosed :
    (c : BoostClient) (hs : List Happening) → c.init_state ≡ closed → StaysClosed (happenings c hs)
unfolding happenings
happenings-StaysClosed c [] shut = record { state_eq = shut; silent = tt }
happenings-StaysClosed c (h ∷ hs) shut =
    let first = happen-StaysClosed c h shut in
    let rest = happenings-StaysClosed (happen c h).0 hs first.state_eq in
    record {
      state_eq = rest.state_eq;
      silent = All-append (λ r. calls_manager r ≡ false) (happen c h).1 _ first.silent rest.silent;
    }

-- Once its timer has gone off, whatever state it was in, a client is closed for good and calls the
-- manager no more: neither a failed read nor anything else takes it out of the manager's list.
pub timed_out-IsSilent :
    (c : BoostClient) (hs : List Happening)
    → ((happenings c (times_out false ∷ hs)).0.init_state ≡ closed)
      × IsSilent (happenings c (times_out false ∷ hs)).1
unfolding happenings happen handle_auth_timeout
timed_out-IsSilent c hs =
    let shut = close-StaysClosed (record c { init_state = bad_init }) in
    let rest =
      happenings-StaysClosed (close (record c { init_state = bad_init })).0 hs shut.state_eq in
    (
      rest.state_eq,
      All-append (λ r. calls_manager r ≡ false) (close (record c { init_state = bad_init })).1 _
          shut.silent rest.silent,
    )

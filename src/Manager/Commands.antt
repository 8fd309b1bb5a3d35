-- ===== src/Manager/Commands.antt =====
-- The loop over the attempts of one command, with what the other threads do meanwhile.
use serialmux.Prelude.{
  ℕ, zero, suc, ◌+◌, ◌≤◌, ◌<◌, ◌≡◌, ◌≢◌, ◌⊎◌, refl, ap, ◌∙◌, true, false, not, ◌&&◌, Bool-cases,
  Option-cases, inl, inr, Option, none, List, [], ◌∷◌, ◌++◌, length, ltb, ◌==◌, arith, ltb→lt,
}
use serialmux.Common.{err_command_timeout}
use serialmux.Mux.{MuxMessage}
use serialmux.Manager.{
  ClientResult, client_timeout, is_ok, is_timeout, ClientCommand, ClientManager, Action,
  send_command, close_clients, stop, add_client, add_command, recompute_subscribe_filter,
  disconnect_current, unlist_client, remove_client,
}
use serialmux.Manager.Loop.{
  testing, popping, ended, awaiting, Turn, send_attempt, command_timeout, finish_command,
  begin_attempts, wake, deliver_response, command_complete,
}

-- What the other threads do while the loop waits.
pub data Other : Type 0 where
  completes : ℕ → ℕ → ℕ → List ℕ → Other
  adds removes : ℕ → Other
  adds_command : Option ℕ → MuxMessage → Other
  closes_clients stops : Other

unfoldable pub other : Other → ClientManager → ClientManager × List Action
other (completes cmd_type seq_no code response) m = command_complete cmd_type seq_no code response m
other (adds i) m = (add_client i m, [])
other (removes i) m = remove_client i m
other (adds_command client command) m = (add_command client command m, [])
other closes_clients m = close_clients m
other stops m = (stop m, [])

unfoldable pub others : List Other → ClientManager → ClientManager
unfolding other
others [] m = m
others (o ∷ os) m = others os (other o m).0

-- A wait, in which other threads do something, and the sequence number of the serial port at its
-- end.
pub record Gap : Type 0 where
  pub meanwhile : List Other
  pub seq : ℕ

-- The loop goes on from a turn, wait by wait; its own actions are collected.
unfoldable pub follow_wait : Gap → Turn → Turn
unfolding others
follow_wait g t = elim t.phase [
  | testing ↦ t
  | popping ↦ t
  | ended ↦ t
  | awaiting cmd i ↦
      let next = wake g.seq cmd i (others g.meanwhile t.manager) in
      record next { actions = t.actions ++ next.actions }
]

unfoldable pub follow : List Gap → Turn → Turn
follow [] t = t
follow (g ∷ gs) t = follow gs (follow_wait g t)

-- The first `n` attempts of a command: all but the first are flagged as retransmissions.
unfoldable pub attempts : MuxMessage → ℕ → List Action
attempts msg zero = []
attempts msg (suc n) = attempts msg n ++ send_command msg (not (n == 0)) ∷ []

-- What a turn comes to: the command is done with, after at most `retries` attempts, and then there
-- is nothing more, or the client is told of a timeout.
pub record IsDone (retries : ℕ) (cmd : ClientCommand) (t : Turn) : Type 0 where
  pub tries : ℕ
  pub tries-le : tries ≤ retries
  pub last : List Action
  pub phase_eq : t.phase ≡ testing
  pub actions_eq : t.actions ≡ attempts cmd.command tries ++ last
  pub last_cases :
      (last ≡ [])
      ⊎ ((last ≡ command_timeout cmd.client cmd.command.type err_command_timeout)
          × (cmd.client ≢ none))

other-retries : (o : Other) (m : ClientManager) → (other o m).0.retries ≡ m.retries
unfolding other
other-retries (completes cmd_type seq_no code response) m =
    unfold command_complete deliver_response in ground arith
other-retries (adds i) m = unfold add_client in refl
other-retries (removes i) m =
    unfold remove_client disconnect_current unlist_client recompute_subscribe_filter add_command in
    ground arith
other-retries (adds_command client command) m = unfold add_command in refl
other-retries closes_clients m = unfold close_clients in refl
other-retries stops m = unfold stop in refl

pub others-retries : (os : List Other) (m : ClientManager) → (others os m).retries ≡ m.retries
unfolding others
others-retries [] m = refl
others-retries (o ∷ os) m = others-retries os (other o m).0 ∙ other-retries o m

-- What the end of a command does.
pub finish_command_cases :
    (result : ClientResult) (cmd : ClientCommand) (m : ClientManager)
    → ((finish_command result cmd m).phase ≡ testing)
      × (((finish_command result cmd m).actions ≡ [])
          ⊎ (((finish_command result cmd m).actions
                ≡ command_timeout cmd.client cmd.command.type err_command_timeout)
              × (cmd.client ≢ none)))
unfolding finish_command
finish_command_cases result cmd m = elim (Option-cases cmd.client) [
  | inl e ↦ rw (e, finish_command) (refl, inl refl)
  | inr (i, e) ↦ elim (Bool-cases (is_ok result)) [
    | inl ok ↦ rw e (rw ok (refl, inl refl))
    | inr bad ↦
        rw (e, finish_command)
          (rw bad (
            refl,
            inr (ap (λ c. command_timeout c cmd.command.type err_command_timeout) e, λ n. cc),
          ))
  ]
]

-- The end of a command, after `n` attempts.
IsDone-finish :
    (retries n : ℕ) (result : ClientResult) (cmd : ClientCommand) (m : ClientManager)
    (before : List Action)
    → n ≤ retries
    → before ≡ attempts cmd.command n
    → IsDone retries cmd (record (finish_command result cmd m) {
      actions = before ++ (finish_command result cmd m).actions;
    })
IsDone-finish retries n result cmd m before le e =
    let cases = finish_command_cases result cmd m in
    record {
      tries = n;
      tries-le = le;
      last = (finish_command result cmd m).actions;
      phase_eq = cases.0;
      actions_eq = ap (λ t. t ++ (finish_command result cmd m).actions) e;
      last_cases = cases.1;
    }

-- A turn that waits for the answer to attempt `i`.
abbrev waits : ClientCommand → ℕ → ClientManager → List Action → Turn
waits cmd i m actions = record { manager = m; phase = awaiting cmd i; actions = actions }

pub follow_testing : (gs : List Gap) (t : Turn) → t.phase ≡ testing → follow gs t ≡ t
unfolding follow follow_wait
follow_testing [] t e = refl
follow_testing (g ∷ gs) t e = ap (follow gs) stays ∙ follow_testing gs t e
  where
    stays : follow_wait g t ≡ t
    stays = ground arith

module _ (retries : ℕ) (cmd : ClientCommand) where
  follow-IsDone :
      (gs : List Gap) (i : ℕ) (m : ClientManager) (actions : List Action)
      → m.retries ≡ retries
      → i < retries
      → retries ≤ i + length gs
      → actions ≡ attempts cmd.command (suc i)
      → IsDone retries cmd (follow gs (waits cmd i m actions))
  unfolding follow follow_wait wake send_attempt
  follow-IsDone [] i m actions r lt le e = absurd (omega arith)
  follow-IsDone (g ∷ gs) i m actions r lt le e =
      let n = others g.meanwhile m in
      let same = others-retries g.meanwhile m ∙ r in
      elim (Bool-cases (is_timeout n.current.result && ltb (suc i) n.retries)) [
        | inl again ↦ rw again (
            follow-IsDone gs (suc i) (record n { current = record n.current { seq = g.seq } })
              (actions ++ send_command cmd.command (not (suc i == 0)) ∷ []) same
              (still n same again) (omega arith)
              (unfold attempts in
                ap (λ t. t ++ send_command cmd.command (not (suc i == 0)) ∷ []) e))
        | inr over ↦ rw over (
            rw
              (follow_testing gs
                (record (finish_command n.current.result cmd n) {
                  actions = actions ++ (finish_command n.current.result cmd n).actions;
                })
                (finish_command_cases n.current.result cmd n).0)
              (IsDone-finish retries (suc i) n.current.result cmd n actions lt e))
      ]
    where
      still :
          (n : ClientManager)
          → n.retries ≡ retries
          → (is_timeout n.current.result && ltb (suc i) n.retries) ≡ true
          → suc i < retries
      still n same again = ground (arith, ltb→lt (suc i) n.retries)

-- A command that goes to the manager is done with after at most as many waits as there are
-- attempts, whatever the other threads do in them: the loop is back at its test. It was sent at
-- most `retries` times, each time but the first as a retransmission; behind that the loop at most
-- tells the client, if there is one, of a timeout and resets the connection.
pub begin_attempts-IsDone :
    (seq : ℕ) (cmd : ClientCommand) (m : ClientManager) (gs : List Gap)
    → m.retries ≤ length gs
    → IsDone m.retries cmd (follow gs (begin_attempts seq cmd m))
unfolding begin_attempts send_attempt
begin_attempts-IsDone seq cmd m gs le = elim (Bool-cases (ltb 0 m.retries)) [
  | inl some_tries ↦ rw some_tries (
      follow-IsDone m.retries cmd gs 0 (record m { current = record cmd { seq = seq } })
        (send_command cmd.command false ∷ []) refl (ltb→lt 0 m.retries some_tries) (omega arith)
        (unfold attempts in refl))
  | inr no_tries ↦
      let n = record m { current = cmd } in
      rw no_tries (
        rw
          (follow_testing gs (finish_command client_timeout cmd n)
            (finish_command_cases client_timeout cmd n).0)
          (IsDone-finish m.retries 0 client_timeout cmd n [] (omega arith)
            (unfold attempts in refl)))
]

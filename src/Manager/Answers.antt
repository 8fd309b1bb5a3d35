-- ===== src/Manager/Answers.antt =====
-- How a command ends: without an answer, with one, with one that comes late, with a refusal.
use serialmux.Prelude.{
  ℕ, suc, ◌+◌, ◌≤◌, ◌<◌, ◌≡◌, refl, ap, sym, ap₂, ◌∙◌, true, false, not, ◌&&◌, Bool-cases, inl, inr,
  some, List, [], ◌∷◌, ◌++◌, flatten, All, length, ltb, ◌==◌, arith, if◌then◌else◌, ltb→lt, ltb→le,
}
use serialmux.Common.{err_command_timeout}
use serialmux.Mux.{MuxMessage, empty_message, new_parser, read_all, mux_output, serialize_output}
use serialmux.Client.{write}
use serialmux.Manager.{
  ClientResult, client_ok, client_timeout, is_timeout, ClientCommand, no_command, ClientManager,
  Action, of_client, notify_loop, send_command, close_clients, stop, add_client, add_command,
  send_response,
}
use serialmux.Manager.Loop.{
  testing, awaiting, send_attempt, command_timeout, settled, finish_command, begin_attempts, wake,
  deliver_response, command_complete,
}
use serialmux.Mux.Framing.{stream, read_all-stream, serialize_output-serialize}
use serialmux.Manager.Notifications.{written}
use serialmux.Manager.Commands.{
  Other, completes, adds, removes, adds_command, closes_clients, stops, other, others, Gap,
  follow_wait, follow, attempts, others-retries, follow_testing, finish_command_cases,
}

-- What other threads do, but for responses of the serial port and clients that go away.
abbrev pub IsQuiet : Other → Type 0
IsQuiet (completes cmd_type seq_no code response) = ⊥
IsQuiet (removes i) = ⊥
IsQuiet (adds i) = Unit
IsQuiet (adds_command client command) = Unit
IsQuiet closes_clients = Unit
IsQuiet stops = Unit

other-current : (o : Other) (m : ClientManager) → IsQuiet o → (other o m).0.current ≡ m.current
unfolding other add_client add_command close_clients stop
other-current (completes cmd_type seq_no code response) m quiet = absurd quiet
other-current (removes i) m quiet = absurd quiet
other-current (adds i) m quiet = refl
other-current (adds_command client command) m quiet = refl
other-current closes_clients m quiet = refl
other-current stops m quiet = refl

others-current :
    (os : List Other) (m : ClientManager) → All IsQuiet os → (others os m).current ≡ m.current
unfolding others
others-current [] m quiet = refl
others-current (o ∷ os) m (quiet, later) =
    others-current os (other o m).0 later ∙ other-current o m quiet

finish_command_timeout :
    (cmd : ClientCommand) (m : ClientManager) {i : ℕ}
    → cmd.client ≡ some i
    → (finish_command client_timeout cmd m).actions
      ≡ command_timeout cmd.client cmd.command.type err_command_timeout
unfolding finish_command
finish_command_timeout cmd m e = ground arith

module _ (retries : ℕ) (cmd : ClientCommand) {i : ℕ} (of_some : cmd.client ≡ some i) where
  abbrev told : List Action
  told = command_timeout cmd.client cmd.command.type err_command_timeout

  follow_quiet :
      (gs : List Gap) (k : ℕ) (m : ClientManager) (actions : List Action)
      → m.retries ≡ retries
      → m.current.result ≡ client_timeout
      → k < retries
      → retries ≤ k + length gs
      → All (λ g. All IsQuiet g.meanwhile) gs
      → actions ≡ attempts cmd.command (suc k)
      → (follow gs (record { manager = m; phase = awaiting cmd k; actions = actions })).actions
        ≡ attempts cmd.command retries ++ told
  unfolding follow follow_wait wake send_attempt
  follow_quiet [] k m actions same r lt le quiet e = absurd (omega arith)
  follow_quiet (g ∷ gs) k m actions same r lt le (quiet, later) e =
      elim (Bool-cases (is_timeout n.current.result && ltb (suc k) n.retries)) [
        | inl again ↦
            rw (again, follow)
              (follow_quiet gs (suc k) (record n { current = record n.current { seq = g.seq } })
                (actions ++ send_command cmd.command (not (suc k == 0)) ∷ []) same_retries waiting
                (more again) (omega arith) later
                (unfold attempts in
                  ap (λ t. t ++ send_command cmd.command (not (suc k == 0)) ∷ []) e))
        | inr over ↦
            rw (over, follow)
              (ap (λ t. t.actions)
                  (follow_testing gs
                    (record (finish_command n.current.result cmd n) {
                      actions = actions ++ (finish_command n.current.result cmd n).actions;
                    })
                    (finish_command_cases n.current.result cmd n).0)
                ∙ ap₂ ◌++◌ (e ∙ ap (attempts cmd.command) (last over)) (
                    ap (λ r. (finish_command r cmd n).actions) waiting
                    ∙ finish_command_timeout cmd n of_some))
      ]
    where
      n : ClientManager
      n = others g.meanwhile m

      same_retries : n.retries ≡ retries
      same_retries = others-retries g.meanwhile m ∙ same

      waiting : n.current.result ≡ client_timeout
      waiting = ap (λ c. c.result) (others-current g.meanwhile m quiet) ∙ r

      more : (is_timeout n.current.result && ltb (suc k) n.retries) ≡ true → suc k < retries
      more again = ground (arith, same_retries, again)

      last : (is_timeout n.current.result && ltb (suc k) n.retries) ≡ false → suc k ≡ retries
      last over = ground (arith, waiting, same_retries, over)

-- A client's command that gets no answer, while no client goes away, is sent exactly `retries`
-- times, whatever else the other threads do in the waits; then the client gets a timeout error and
-- the connection is reset.
pub unanswered_times_out :
    (seq : ℕ) (cmd : ClientCommand) (m : ClientManager) (gs : List Gap) {i : ℕ}
    → cmd.client ≡ some i
    → cmd.result ≡ client_timeout
    → m.retries ≤ length gs
    → All (λ g. All IsQuiet g.meanwhile) gs
    → (follow gs (begin_attempts seq cmd m)).actions
      ≡ attempts cmd.command m.retries
        ++ command_timeout cmd.client cmd.command.type err_command_timeout
unfolding begin_attempts send_attempt
unanswered_times_out seq cmd m gs of_some r le quiet = elim (Bool-cases (ltb 0 m.retries)) [
  | inl some_tries ↦ rw some_tries (
      follow_quiet m.retries cmd of_some gs 0 (record m { current = record cmd { seq = seq } })
        (send_command cmd.command false ∷ []) refl r (ltb→lt 0 m.retries some_tries) (omega arith)
        quiet (unfold attempts in refl))
  | inr no_tries ↦
      let n = record m { current = cmd } in
      rw no_tries (
        ap (λ t. t.actions)
          (follow_testing gs (finish_command client_timeout cmd n)
            (finish_command_cases client_timeout cmd n).0)
        ∙ ap₂ ◌++◌ (sym (none_sent (ltb→le 0 m.retries no_tries)))
            (finish_command_timeout cmd n of_some))
]
  where
    none_sent : m.retries ≤ 0 → attempts cmd.command m.retries ≡ []
    none_sent h = ap (attempts cmd.command) {y = 0} (omega arith) ∙ unfold attempts in refl

-- A response that comes when its command is done with, however that ended, changes nothing and
-- does nothing: the manager's commands have types above 0.
pub late_response_ignored :
    (result : ClientResult) (cmd : ClientCommand) (m : ClientManager) (cmd_type seq_no code : ℕ)
    (response : List ℕ)
    → 0 < cmd_type
    → command_complete cmd_type seq_no code response (finish_command result cmd m).manager
      ≡ ((finish_command result cmd m).manager, [])
late_response_ignored result cmd m cmd_type seq_no code response h =
    other_type (finish_command result cmd m).manager cleared
  where
    cleared : (finish_command result cmd m).manager.current.command.type ≡ 0
    cleared = unfold finish_command no_command empty_message in ground arith

    other_type :
        (n : ClientManager)
        → n.current.command.type ≡ 0
        → command_complete cmd_type seq_no code response n ≡ (n, [])
    other_type n e = unfold command_complete in ground arith

-- What `commandComplete` does at a current command of client `i`, if type and number fit.
module _ (cmd_type seq_no code : ℕ) (response : List ℕ) (m : ClientManager) {i : ℕ}
    (of_some : m.current.client ≡ some i) (type_eq : cmd_type ≡ m.current.command.type)
    (seq_eq : seq_no ≡ m.current.seq) where
  abbrev completed : ClientManager × List Action
  completed = command_complete cmd_type seq_no code response m

  -- The answer as the client reads it.
  abbrev pub answer : MuxMessage
  answer = record { payload = code ∷ response; type = cmd_type; id = 0 }

  completed-actions :
      completed.1
      ≡ of_client i (write (serialize_output (mux_output cmd_type 0 code response)))
        ∷ notify_loop
        ∷ []
  unfolding command_complete deliver_response send_response
  completed-actions = ground arith

  completed-result : completed.0.current.result ≡ client_ok
  unfolding command_complete deliver_response
  completed-result = ground arith

  -- A response whose type and sequence number fit the current command of a client is written to
  -- that client and no other, as one message of the command's type with the response code before the
  -- payload, if it fits. The loop then ends the command without a word.
  pub command_complete_answers :
      (j k seq : ℕ) (cmd : ClientCommand)
      → length response + 4 < 65536
      → ((read_all (new_parser true) (written j completed.1)).1
          ≡ (if i == j then answer ∷ [] else []))
        × ((wake seq cmd k completed.0).phase ≡ testing)
        × ((wake seq cmd k completed.0).actions ≡ [])
  command_complete_answers j k seq cmd short = (
    elim (Bool-cases (i == j)) [
      | inl e ↦ rw e (
          read_all-stream (written j completed.1) (answer ∷ [])
            (record { id-lt = omega arith; short = omega arith }, tt) (to_it e))
      | inr e ↦ rw e (read_all-stream (written j completed.1) [] tt (to_others e))
    ],
    ap (λ t. t.phase) ends,
    ap (λ t. t.actions) ends,
  )
    where
      bytes : List ℕ
      bytes = serialize_output (mux_output cmd_type 0 code response)

      to_it : (i == j) ≡ true → flatten (written j completed.1) ≡ stream (answer ∷ [])
      to_it e =
          ap (λ actions. flatten (written j actions)) completed-actions
          ∙ unfold written stream in
            rw e (ap (λ t. t ++ []) (serialize_output-serialize cmd_type 0 code response))

      to_others : (i == j) ≡ false → flatten (written j completed.1) ≡ stream []
      to_others e =
          ap (λ actions. flatten (written j actions)) completed-actions
          ∙ unfold written stream in rw e refl

      ends :
          wake seq cmd k completed.0
          ≡ record { manager = settled completed.0; phase = testing; actions = [] }
      ends = unfold wake finish_command in rw completed-result (ground arith)

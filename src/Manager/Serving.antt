-- ===== src/Manager/Serving.antt =====
-- serial_mux/BoostClientManager.cpp: a turn of `commandLoop` that is about one client's command asks
-- that client only, and leaves the list, the queue and the states alone.
use serialmux.Prelude.{
  suc, ◌∙◌, ◌≡◌, ◌⊎◌, All-append, ℕ, refl, subst, Bool, true, false, not, ◌||◌, Bool-cases,
  Option-cases, inl, inr, Option, none, some, [], ◌∷◌, All, ltb, ◌==◌, arith, if◌then◌else◌,
}
use serialmux.Common.{SubscriptionParams, subscribe, mux_info, is_picard_api_command}
use serialmux.Subscriber.{set_subscription}
use serialmux.Mux.{MuxOutput, size}
use serialmux.Manager.{
  ClientResult, client_timeout, Action, of_client, send_command, notify_loop, reset_connection,
  send_response, ClientCommand, ClientManager, recompute_subscribe_filter, max_serial_api_cmd_len,
}
use serialmux.Manager.Loop.{
  answered, Turn, send_attempt, command_timeout, finish_command, begin_attempts, wake,
  subscribe_command, forward, known_client, info_command, process,
}
use serialmux.Manager.Commands.{finish_command_cases}
use serialmux.Manager.Asked.{asked, subscribe_command-cases}
use serialmux.Manager.Members.{
  phase_client, Keeps, Keeps-trans, with_subscriber-Keeps, finish_command-Keeps,
}

-- What the manager does for a command of `c`: it asks that client only.
abbrev pub IsFor : Option ℕ → Action → Type 0
IsFor c (of_client i r) = c ≡ some i
IsFor c (send_command msg retransmit) = Unit
IsFor c notify_loop = Unit
IsFor c reset_connection = Unit

send_response-IsFor : (c : Option ℕ) (output : MuxOutput) → All (IsFor c) (send_response c output)
unfolding send_response
send_response-IsFor none output = tt
send_response-IsFor (some i) output = (refl, tt)

-- A turn that is about a command of `c`.
pub record Serves (c : Option ℕ) (m : ClientManager) (t : Turn) : Type 0 where
  pub keeps : Keeps c m t.manager
  pub phase_cases : (phase_client t.phase ≡ c) ⊎ (phase_client t.phase ≡ none)
  pub for_client : All (IsFor c) t.actions

abbrev pub ServesAll : Option ℕ → ClientManager → Option Turn → Type 0
ServesAll c m none = Unit
ServesAll c m (some t) = Serves c m t

-- Another command of the same client.
module _ (seq : ℕ) (cmd : ClientCommand) (m : ClientManager) where
  finish_command-Serves :
      (result : ClientResult) → Serves cmd.client m (finish_command result cmd m)
  finish_command-Serves result = record {
    keeps = finish_command-Keeps result cmd m;
    phase_cases = inr (unfold finish_command in ground arith);
    for_client = asked;
  }
    where
      asked : All (IsFor cmd.client) (finish_command result cmd m).actions
      asked = elim (finish_command_cases result cmd m).1 [
        | inl e ↦ rw e tt
        | inr (e, n) ↦ rw e (
            unfold command_timeout in
            All-append (IsFor cmd.client) (send_response cmd.client _) (reset_connection ∷ [])
              (send_response-IsFor cmd.client _) (tt, tt))
      ]

  send_attempt-Serves : (i : ℕ) → Serves cmd.client m (send_attempt seq cmd i m)
  unfolding send_attempt
  send_attempt-Serves i = record {
    keeps = record {
      clients_eq = refl;
      items_eq = refl;
      states_eq = λ j. refl;
      current_cases = inl refl;
    };
    phase_cases = inl refl;
    for_client = (tt, tt);
  }

Serves-after :
    (c : Option ℕ) (m n : ClientManager) (t : Turn) → Keeps c m n → Serves c n t → Serves c m t
Serves-after c m n t k h = record {
  keeps = Keeps-trans c m n t.manager k h.keeps;
  phase_cases = h.phase_cases;
  for_client = h.for_client;
}

Serves-if :
    (c : Option ℕ) (m : ClientManager) (b : Bool) (t u : Turn)
    → Serves c m t
    → Serves c m u
    → Serves c m (if b then t else u)
Serves-if c m true t u h k = h
Serves-if c m false t u h k = k

begin_attempts-Serves :
    (seq : ℕ) (cmd : ClientCommand) (m : ClientManager)
    → Serves cmd.client m (begin_attempts seq cmd m)
unfolding begin_attempts
begin_attempts-Serves seq cmd m =
    let n = record m { current = cmd } in
    let set_current : Keeps cmd.client m n = record {
      clients_eq = refl;
      items_eq = refl;
      states_eq = λ i. refl;
      current_cases = inr (inl refl);
    } in
    Serves-after cmd.client m n _ set_current (
      Serves-if cmd.client n (ltb 0 n.retries) _ _ (send_attempt-Serves seq cmd n 0)
        (finish_command-Serves seq cmd n client_timeout))

pub wake-Serves :
    (seq : ℕ) (cmd : ClientCommand) (i : ℕ) (m : ClientManager)
    → Serves cmd.client m (wake seq cmd i m)
unfolding wake
wake-Serves seq cmd i m =
    Serves-if cmd.client m _ _ _ (send_attempt-Serves seq cmd m (suc i))
      (finish_command-Serves seq cmd m m.current.result)

-- A subscribe command is rewritten for the same client.
abbrev KeepsAsked : Option ℕ → ClientManager → Option (ClientCommand × ClientManager) → Type 0
KeepsAsked c m none = Unit
KeepsAsked c m (some r) = Keeps c m r.1 × (r.0.client ≡ c)

asked-Keeps :
    (i : ℕ) (params : SubscriptionParams) (c : Option ℕ) (m : ClientManager)
    → Keeps c m (asked i params m)
unfolding recompute_subscribe_filter
asked-Keeps i params c m =
    let k = with_subscriber-Keeps i (set_subscription params (m.store i).subscriber) c m in
    record { clients_eq = refl; items_eq = refl; states_eq = k.states_eq; current_cases = inl refl }

subscribe_command-Keeps :
    (i : ℕ) (cmd : ClientCommand) (m : ClientManager)
    → KeepsAsked cmd.client m (subscribe_command i cmd m)
subscribe_command-Keeps i cmd m = elim (subscribe_command-cases i cmd m) [
  | inl e ↦ rw (e, KeepsAsked) tt
  | inr asks ↦ rw (asks.result, KeepsAsked) (asked-Keeps i asks.params cmd.client m, refl)
]

begin_attempts-ServesAll :
    (c : Option ℕ) (seq : ℕ) (cmd : ClientCommand) (m n : ClientManager)
    → cmd.client ≡ c
    → Keeps c m n
    → Serves c m (begin_attempts seq cmd n)
begin_attempts-ServesAll c seq cmd m n e k =
    Serves-after c m n _ k
      (subst (λ d. Serves d n (begin_attempts seq cmd n)) e (begin_attempts-Serves seq cmd n))

pub same : (c : Option ℕ) (m : ClientManager) → Keeps c m m
same c m = record {
  clients_eq = refl;
  items_eq = refl;
  states_eq = λ i. refl;
  current_cases = inl refl;
}

-- The branches of `process`, for a command of `c`.
module _ (c : Option ℕ) (seq : ℕ) (cmd : ClientCommand) (m : ClientManager)
    (of : cmd.client ≡ c) where
  asked-ServesAll :
      (i : ℕ) (r : ClientCommand × ClientManager)
      → subscribe_command i cmd m ≡ some r
      → Serves c m (begin_attempts seq r.0 r.1)
  asked-ServesAll i r e =
      let (k, client_eq) = subst (KeepsAsked cmd.client m) e (subscribe_command-Keeps i cmd m) in
      begin_attempts-ServesAll c seq r.0 m r.1 (client_eq ∙ of) (subst (λ d. Keeps d m r.1) of k)

  forward-ServesAll : ServesAll c m (forward seq cmd m)
  unfolding forward
  forward-ServesAll = elim (Option-cases cmd.client) [
    | inl e ↦ rw (e, ServesAll) (begin_attempts-ServesAll c seq cmd m m of (same c m))
    | inr (i, e) ↦ elim (Bool-cases (cmd.command.type == subscribe)) [
      | inl s ↦ elim (Option-cases (subscribe_command i cmd m)) [
        | inl n ↦ rw (e, ServesAll) (rw (s, ServesAll) (rw (n, ServesAll) tt))
        | inr (r, n) ↦
            rw (e, ServesAll) (rw (s, ServesAll) (rw (n, ServesAll) (asked-ServesAll i r n)))
      ]
      | inr s ↦
          rw (e, ServesAll)
            (rw (s, ServesAll) (begin_attempts-ServesAll c seq cmd m m of (same c m)))
    ]
  ]

  answered-Serves : (output : MuxOutput) → Serves c m (answered m (send_response cmd.client output))
  answered-Serves output = record {
    keeps = same c m;
    phase_cases = inr refl;
    for_client =
        subst (λ d. All (IsFor d) (send_response cmd.client output)) of
          (send_response-IsFor cmd.client output);
  }

  info_command-ServesAll : ServesAll c m (info_command cmd m)
  unfolding info_command
  info_command-ServesAll = elim (Option-cases cmd.client) [
    | inl e ↦ rw (e, ServesAll) tt
    | inr (i, e) ↦ rw (e, ServesAll) (answered-Serves _)
  ]

  pub process-ServesAll : ServesAll c m (process seq cmd m)
  unfolding process
  process-ServesAll = elim (Bool-cases (known_client cmd.client m.clients)) [
    | inr k ↦
        rw (k, ServesAll) (record { keeps = same c m; phase_cases = inr refl; for_client = tt })
    | inl k ↦ elim (Bool-cases (cmd.command.type == mux_info)) [
      | inl t ↦ rw (k, ServesAll) (rw (t, ServesAll) info_command-ServesAll)
      | inr t ↦
          elim (Bool-cases (
            not (is_picard_api_command cmd.command.type)
            || ltb max_serial_api_cmd_len (size cmd.command))) [
              | inl v ↦
                  rw (k, ServesAll) (rw (t, ServesAll) (rw (v, ServesAll) (answered-Serves _)))
              | inr v ↦ rw (k, ServesAll) (rw (t, ServesAll) (rw (v, ServesAll) forward-ServesAll))
            ]
    ]
  ]

-- ===== src/Server/Recipients.antt =====
-- serial_mux/BoostClientManager.cpp: who gets what the client manager writes.
use serialmux.Common.{subscribe, ok_code}
use serialmux.Prelude.{
  ◌||◌, ◌&&◌, ◌==◌, not, arith, ◌∙◌, if◌then◌else◌, sym, All-append, ℕ, ◌≡◌, subst, Bool-cases,
  Option-cases, inl, inr, Option, none, some, List, [], ◌∷◌, All,
}
use serialmux.Subscriber.{is_subscribed}
use serialmux.Client.{BoostClient}
use serialmux.Manager.Steps.{IsAddressed, SoundTurn, IsFor-IsAddressed, loop_step-SoundTurn}
use serialmux.Manager.Serving.{IsFor}
use serialmux.Manager.{
  client_ok, ClientManager, send_response, Action, of_client, send_command, notify_loop,
  reset_connection,
}
use serialmux.Manager.Loop.{
  Turn, loop_step, deliver_response, command_complete, notify_clients, handle_notif,
}
use serialmux.Manager.Members.{IsMember}
use serialmux.Server.{Server, Effect}
use serialmux.Server.Loop.{LoopOptions, start_server, Input, steps}
use serialmux.Server.Invariant.{IsConsistent}
use serialmux.Server.Steps.{steps-IsConsistent}

-- A request of a client that was accepted and is authenticated or closed, and nothing else.
abbrev pub IsForMember : ℕ → (ℕ → BoostClient) → Action → Type 0
IsForMember next store (of_client i r) = IsMember next store i
IsForMember next store (send_command msg retransmit) = ⊥
IsForMember next store notify_loop = ⊥
IsForMember next store reset_connection = ⊥

abbrev AllForMembers : ℕ → (ℕ → BoostClient) → Option (List Action) → Type 0
AllForMembers next store none = Unit
AllForMembers next store (some actions) = All (IsForMember next store) actions

module _ (next notif_type : ℕ) (payload : List ℕ) (store : ℕ → BoostClient) where
  notify_clients-AllForMembers :
      (is : List ℕ)
      → All (IsMember next store) is
      → AllForMembers next store (notify_clients notif_type payload store is)
  unfolding notify_clients
  notify_clients-AllForMembers [] h = tt
  notify_clients-AllForMembers (i ∷ is) (h, hs) =
      elim (Option-cases (is_subscribed (store i).subscriber notif_type)) [
        | inl e ↦ rw (e, AllForMembers) tt
        | inr (wanted, e) ↦ elim (Option-cases (notify_clients notif_type payload store is)) [
          | inl n ↦ rw (e, AllForMembers) (rw (n, AllForMembers) tt)
          | inr (more, n) ↦
              let rest : All (IsForMember next store) more =
                subst (AllForMembers next store) n (notify_clients-AllForMembers is hs) in
              rw (e, AllForMembers)
                (rw (n, AllForMembers)
                  (elim (Bool-cases wanted) [ inl w ↦ rw w (h, rest) | inr w ↦ rw w rest ]))
        ]
      ]

-- After any steps since the start of a round, what a notification makes the manager do is to ask
-- clients, and only such as have been accepted and are authenticated or closed: none that still owes
-- its hello or was refused.
pub handle_notif-AllForMembers :
    (opts : LoopOptions) (xs : List Input) (t : Server) (done : List Effect) (notif_type : ℕ)
    (payload : List ℕ) (actions : List Action)
    → steps xs (start_server opts) ≡ some (t, done)
    → handle_notif notif_type payload t.manager ≡ some actions
    → All (IsForMember t.next_client t.manager.store) actions
unfolding handle_notif
handle_notif-AllForMembers opts xs t done notif_type payload actions e sent =
    let sound = steps-IsConsistent opts xs t done e in
    subst (AllForMembers t.next_client t.manager.store) sent (
      notify_clients-AllForMembers t.next_client notif_type payload t.manager.store
        t.manager.clients sound.members)

deliver_response-IsFor :
    (c : Option ℕ) (cmd_type code : ℕ) (response : List ℕ) (m : ClientManager)
    → m.current.client ≡ c
    → All (IsFor c) (deliver_response cmd_type code response m).1
unfolding deliver_response send_response
deliver_response-IsFor c cmd_type code response m of = elim (Option-cases m.current.client) [
  | inl e ↦ rw e tt
  | inr (i, e) ↦ rw e (sym of ∙ e, tt)
]

command_complete-IsFor :
    (cmd_type seq_no code : ℕ) (response : List ℕ) (m : ClientManager)
    → All (IsFor m.current.client) (command_complete cmd_type seq_no code response m).1
unfolding command_complete
command_complete-IsFor cmd_type seq_no code response m =
    let reset =
      if (cmd_type == subscribe) && not (code == ok_code)
      then record m { filter_union = m.prev_filter }
      else m in
    let done = record reset { current = record reset.current { result = client_ok } } in
    elim (Bool-cases (not (cmd_type == m.current.command.type) || not (seq_no == m.current.seq))) [
      | inl e ↦ rw e tt
      | inr e ↦ rw e (
          All-append (IsFor m.current.client) _ (notify_loop ∷ [])
            (deliver_response-IsFor m.current.client cmd_type code response done (ground arith))
            (tt, tt))
    ]

-- What the client manager does next: a turn of its loop, or a callback of the serial port.
pub data Call : Type 0 where
  turns : Call
  notifies : ℕ → List ℕ → Call
  completes : ℕ → ℕ → ℕ → List ℕ → Call

abbrev pub actions_of : Option Turn → Option (List Action)
actions_of none = none
actions_of (some t) = some t.actions

-- What it then asks of others; `none` is undefined behaviour.
unfoldable pub asks : Server → Call → Option (List Action)
asks s turns = actions_of (loop_step s.picard.seq_no s.phase s.manager)
asks s (notifies notif_type payload) = handle_notif notif_type payload s.manager
asks s (completes cmd_type seq_no code response) =
    some (command_complete cmd_type seq_no code response s.manager).1

abbrev AllAddressed : ℕ → (ℕ → BoostClient) → Option (List Action) → Type 0
AllAddressed next store none = Unit
AllAddressed next store (some actions) = All (IsAddressed next store) actions

IsForMember-IsAddressed :
    (next : ℕ) (store : ℕ → BoostClient) (r : Option (List Action))
    → AllForMembers next store r
    → AllAddressed next store r
IsForMember-IsAddressed next store none h = tt
IsForMember-IsAddressed next store (some []) h = tt
IsForMember-IsAddressed next store (some (of_client i r ∷ rest)) (h, hs) =
    (h, IsForMember-IsAddressed next store (some rest) hs)
IsForMember-IsAddressed next store (some (a ∷ rest)) (h, hs) = absurd h

actions_of-AllAddressed :
    (next : ℕ) (store : ℕ → BoostClient) (r : Option Turn)
    → SoundTurn next store r
    → AllAddressed next store (actions_of r)
actions_of-AllAddressed next store none h = tt
actions_of-AllAddressed next store (some t) h = h.addressed

asks-AllAddressed :
    (s : Server) (call : Call)
    → IsConsistent s
    → AllAddressed s.next_client s.manager.store (asks s call)
unfolding asks
asks-AllAddressed s turns h =
    actions_of-AllAddressed s.next_client s.manager.store _
      (loop_step-SoundTurn s.next_client s.picard.seq_no s.phase s.manager h)
asks-AllAddressed s (notifies notif_type payload) h =
    IsForMember-IsAddressed s.next_client s.manager.store _ (
      unfold handle_notif in
      notify_clients-AllForMembers s.next_client notif_type payload s.manager.store
        s.manager.clients h.members)
asks-AllAddressed s (completes cmd_type seq_no code response) h =
    IsFor-IsAddressed s.next_client s.manager.store s.manager.current.client h.current _
      (command_complete-IsFor cmd_type seq_no code response s.manager)

-- After any steps since the start of a round, whatever the client manager does next, in its loop or
-- for a notification or a response: the clients that it asks for anything, and so writes to, have
-- been accepted and are authenticated or closed.
pub asks-IsAddressed :
    (opts : LoopOptions) (xs : List Input) (t : Server) (done : List Effect) (call : Call)
    (actions : List Action)
    → steps xs (start_server opts) ≡ some (t, done)
    → asks t call ≡ some actions
    → All (IsAddressed t.next_client t.manager.store) actions
asks-IsAddressed opts xs t done call actions e asked =
    subst (AllAddressed t.next_client t.manager.store) asked
      (asks-AllAddressed t call (steps-IsConsistent opts xs t done e))

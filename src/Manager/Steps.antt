-- ===== src/Manager/Steps.antt =====
-- serial_mux/BoostClientManager.cpp: what the steps of `commandLoop` do to the list of clients and
-- the queue.
use serialmux.Prelude.{
  ◌≡◌, ℕ, refl, subst, Bool, true, false, Option-cases, inl, inr, Option, none, some, List, [], ◌∷◌,
  All, if◌then◌else◌,
}
use serialmux.Queue.{finish_pop, begin_pop}
use serialmux.Manager.{
  Action, of_client, send_command, notify_loop, reset_connection, ClientCommand, ClientManager,
}
use serialmux.Manager.Loop.{Phase, testing, popping, awaiting, ended, Turn, process, loop_step}
use serialmux.Client.{BoostClient}
use mathlib.Core.Option.{some-injective}
use serialmux.Manager.Serving.{IsFor, Serves, ServesAll, wake-Serves, process-ServesAll, same}
use serialmux.Manager.Members.{
  IsMember, IsHeld, IsFrom, phase_client, IsQueued, IsSound, Keeps-IsSound,
}

-- Whoever is asked for something is such a client.
abbrev pub IsAddressed : ℕ → (ℕ → BoostClient) → Action → Type 0
IsAddressed next store (of_client i r) = IsMember next store i
IsAddressed next store (send_command msg retransmit) = Unit
IsAddressed next store notify_loop = Unit
IsAddressed next store reset_connection = Unit

pub record Behaves (next : ℕ) (store : ℕ → BoostClient) (t : Turn) : Type 0 where
  pub sound : IsSound next t.phase t.manager
  pub addressed : All (IsAddressed next store) t.actions

-- A turn that there is leaves the manager sound, and addresses such clients only.
abbrev pub SoundTurn : ℕ → (ℕ → BoostClient) → Option Turn → Type 0
SoundTurn next store none = Unit
SoundTurn next store (some t) = Behaves next store t

pub IsFor-IsAddressed :
    (next : ℕ) (store : ℕ → BoostClient) (c : Option ℕ)
    → IsHeld next store c
    → (actions : List Action) → All (IsFor c) actions
    → All (IsAddressed next store) actions
IsFor-IsAddressed next store c h [] for_client = tt
IsFor-IsAddressed next store c h (a ∷ actions) (first, rest) =
    (addressed a first, IsFor-IsAddressed next store c h actions rest)
  where
    addressed : (b : Action) → IsFor c b → IsAddressed next store b
    addressed (of_client i r) e = subst (IsHeld next store) e h
    addressed (send_command msg retransmit) e = tt
    addressed notify_loop e = tt
    addressed reset_connection e = tt

Serves-Behaves :
    (next : ℕ) (c : Option ℕ) (phase : Phase) (m : ClientManager) (t : Turn)
    → Serves c m t
    → IsHeld next m.store c
    → IsSound next phase m
    → Behaves next m.store t
Serves-Behaves next c phase m t h held s = record {
  sound = Keeps-IsSound next c phase t.phase m t.manager h.keeps held (inr h.phase_cases) s;
  addressed = IsFor-IsAddressed next m.store c held t.actions h.for_client;
}

ServesAll-SoundTurn :
    (next : ℕ) (c : Option ℕ) (phase : Phase) (m : ClientManager) (r : Option Turn)
    → ServesAll c m r
    → IsHeld next m.store c
    → IsSound next phase m
    → SoundTurn next m.store r
ServesAll-SoundTurn next c phase m none h held s = tt
ServesAll-SoundTurn next c phase m (some t) h held s = Serves-Behaves next c phase m t h held s

Behaves-if :
    (next : ℕ) (store : ℕ → BoostClient) (b : Bool) (t u : Turn)
    → Behaves next store t
    → Behaves next store u
    → Behaves next store (if b then t else u)
Behaves-if next store true t u h k = h
Behaves-if next store false t u h k = k

finish_pop-All :
    (P : ClientCommand → Type 0) (items : List ClientCommand) (asleep : Bool)
    → All P items
    → All P (finish_pop (record { items = items; asleep = asleep })).0.items
unfolding finish_pop
finish_pop-All P [] asleep h = tt
finish_pop-All P (c ∷ cs) asleep h = h.1

pub popped-All :
    (P : ClientCommand → Type 0) (items : List ClientCommand) (asleep : Bool) (cmd : ClientCommand)
    → All P items
    → (finish_pop (record { items = items; asleep = asleep })).1 ≡ some cmd
    → P cmd
unfolding finish_pop
popped-All P [] asleep cmd h e = cc
popped-All P (c ∷ cs) asleep cmd h e = subst P (some-injective c cmd e) h.0

IsFrom-IsHeld :
    (next : ℕ) (store : ℕ → BoostClient) (c : Option ℕ) (cmd_type : ℕ)
    → IsFrom next store c cmd_type
    → IsHeld next store c
IsFrom-IsHeld next store none cmd_type h = tt
IsFrom-IsHeld next store (some i) cmd_type h = h

module _ (next : ℕ) (phase : Phase) (m : ClientManager) (s : IsSound next phase m) where
  rephased : (later : Phase) → phase_client later ≡ none → IsSound next later m
  rephased later e = Keeps-IsSound next none phase later m m (same none m) tt (inr (inr e)) s

  finish_pop-IsSound : IsSound next testing (record m { commands = (finish_pop m.commands).0 })
  finish_pop-IsSound = record {
    distinct = s.distinct;
    members = s.members;
    queued = finish_pop-All (IsQueued next m.store) m.commands.items m.commands.asleep s.queued;
    current = s.current;
    awaited = tt;
  }

pub loop_step-SoundTurn :
    (next seq : ℕ) (phase : Phase) (m : ClientManager)
    → IsSound next phase m
    → SoundTurn next m.store (loop_step seq phase m)
unfolding loop_step
loop_step-SoundTurn next seq testing m s =
    Behaves-if next m.store m.is_running _ _
      (record {
        sound = record {
          distinct = s.distinct;
          members = s.members;
          queued = unfold begin_pop in s.queued;
          current = s.current;
          awaited = tt;
        };
        addressed = tt;
      })
      (record { sound = rephased next testing m s ended refl; addressed = tt })
loop_step-SoundTurn next seq popping m s = elim (Option-cases (finish_pop m.commands).1) [
  | inl e ↦
      rw (e, SoundTurn) (record { sound = finish_pop-IsSound next popping m s; addressed = tt })
  | inr (cmd, e) ↦
      let queued =
        popped-All (IsQueued next m.store) m.commands.items m.commands.asleep cmd s.queued e in
      rw (e, SoundTurn)
        (ServesAll-SoundTurn next cmd.client testing _ (process seq cmd _)
          (process-ServesAll cmd.client seq cmd _ refl)
          (IsFrom-IsHeld next m.store cmd.client cmd.command.type queued)
          (finish_pop-IsSound next popping m s))
]
loop_step-SoundTurn next seq (awaiting cmd i) m s =
    Serves-Behaves next cmd.client (awaiting cmd i) m _ (wake-Serves seq cmd i m) s.awaited s
loop_step-SoundTurn next seq ended m s = record { sound = s; addressed = tt }

-- ===== src/Server/Taken.antt =====
-- serial_mux/serial_mux.cpp: the commands that the manager's loop takes in the steps of a round; the
-- steps of other threads take none.
use serialmux.Prelude.{
  ℕ, suc, ◌+◌, ◌≤◌, ◌<◌, ◌≡◌, refl, ap, ◌∙◌, Bool, true, false, none, some, List, [], ◌∷◌, ◌++◌,
  arith,
}
use serialmux.Queue.{finish_pop}
use serialmux.Manager.{ClientCommand, ClientManager}
use serialmux.Manager.Loop.{Phase, testing, popping, ended, awaiting}
use serialmux.Manager.Leaves.{Leaves-refl}
use serialmux.Manager.Progress.{turns_left, is_over}
use serialmux.Picard.{read_bytes}
use serialmux.Server.{Server}
use serialmux.Server.Loop.{
  Input, accepts, client_does, port_reads, loop_runs, hello_done, resets, listen, step,
}
use serialmux.Server.Idle.{
  Idle, IdleRun, reset_connection-Idle, do_events-IdleRun, accept_client-Idle, client_step-Idle,
}

-- How many of the steps are the loop's.
abbrev pub turns_in : List Input → ℕ
turns_in [] = 0
turns_in (loop_runs ∷ xs) = suc (turns_in xs)
turns_in (x ∷ xs) = turns_in xs

-- The command that a step of the loop takes from the queue, if any.
abbrev pub popped : Phase → ClientManager → List ClientCommand
popped popping m = elim (finish_pop m.commands).1 [ none ↦ [] | some cmd ↦ cmd ∷ [] ]
popped testing m = []
popped ended m = []
popped (awaiting cmd i) m = []

abbrev pub taken_by : Input → Server → List ClientCommand
taken_by loop_runs s = popped s.phase s.manager
taken_by (accepts error) s = []
taken_by (client_does i h) s = []
taken_by (port_reads bytes) s = []
taken_by hello_done s = []
taken_by resets s = []

-- The commands that the loop takes in the steps, in order.
unfoldable pub taken : List Input → Server → List ClientCommand
taken [] s = []
taken (x ∷ xs) s = elim (step x s) [ none ↦ [] | some r ↦ taken_by x s ++ taken xs r.0 ]

-- A loop that is under way, with `retries` attempts for a command.
pub record IsLive (retries : ℕ) (s : Server) : Type 0 where
  pub running : s.manager.is_running ≡ true
  pub retries_eq : s.manager.retries ≡ retries
  pub goes : is_over s.phase ≡ false

-- What a step of the loop does for its queue: the loop is nearer to taking a command, or it has taken
-- one, or there was none.
pub data Advance (retries : ℕ) (s t : Server) : Type 0 where
  nearer :
      (more : List ClientCommand)
      → popped s.phase s.manager ≡ []
      → t.manager.commands.items ≡ s.manager.commands.items ++ more
      → turns_left retries t.phase < turns_left retries s.phase
      → Advance retries s t
  takes :
      (cmd : ClientCommand) (rest more : List ClientCommand)
      → s.manager.commands.items ≡ cmd ∷ rest
      → popped s.phase s.manager ≡ cmd ∷ []
      → t.manager.commands.items ≡ rest ++ more
      → 1 ≤ turns_left retries s.phase
      → turns_left retries t.phase ≤ retries + 2
      → Advance retries s t
  nothing : s.manager.commands.items ≡ [] → Advance retries s t

pub Idle-IsLive : (retries : ℕ) (s t : Server) → Idle s t → IsLive retries s → IsLive retries t
Idle-IsLive retries s t h live = record {
  running = h.leaves.running ∙ live.running;
  retries_eq = h.leaves.retries_eq ∙ live.retries_eq;
  goes = ap is_over h.phase_eq ∙ live.goes;
}

-- A step that is not the loop's.
unfoldable pub is_turn : Input → Bool
is_turn loop_runs = true
is_turn (accepts error) = false
is_turn (client_does i h) = false
is_turn (port_reads bytes) = false
is_turn hello_done = false
is_turn resets = false

pub other_step-IdleRun : (x : Input) (s : Server) → is_turn x ≡ false → IdleRun s (step x s)
unfolding is_turn step listen
other_step-IdleRun (accepts error) s h = accept_client-Idle error s
other_step-IdleRun (client_does i happening) s h = client_step-Idle i happening s
other_step-IdleRun (port_reads bytes) s h =
    let (p, events) = read_bytes s.picard bytes in
    do_events-IdleRun events (record s { picard = p })
other_step-IdleRun loop_runs s h = absurd (ground arith)
other_step-IdleRun hello_done s h = record {
  phase_eq = refl;
  leaves = Leaves-refl s.manager;
  stays_stopped = λ e. e;
}
other_step-IdleRun resets s h = reset_connection-Idle s

-- ===== src/Server/Stopping.antt =====
-- serial_mux/serial_mux.cpp: no step of a round restarts the io_service.
use serialmux.Prelude.{◌≡◌, refl, true, Option-cases, inl, inr, Option, none, some, List}
use serialmux.Manager.Loop.{loop_step}
use serialmux.Server.{Server, Effect}
use serialmux.Server.Loop.{
  Input, accepts, client_does, port_reads, loop_runs, hello_done, resets, manager_step, step,
}
use serialmux.Server.Idle.{IdleRun, do_actions-Idle}
use serialmux.Server.Taken.{is_turn, other_step-IdleRun}

abbrev pub IsStopped : Option (Server × List Effect) → Type 0
IsStopped none = Unit
IsStopped (some r) = r.0.io_stopped ≡ true

idle-IsStopped :
    (s : Server) (o : Option (Server × List Effect))
    → s.io_stopped ≡ true
    → IdleRun s o
    → IsStopped o
idle-IsStopped s none stopped h = tt
idle-IsStopped s (some r) stopped h = h.stays_stopped stopped

manager_step-IsStopped : (s : Server) → s.io_stopped ≡ true → IsStopped (manager_step s)
unfolding manager_step
manager_step-IsStopped s stopped =
    elim (Option-cases (loop_step s.picard.seq_no s.phase s.manager)) [
      | inl e ↦ rw (e, IsStopped) tt
      | inr (t, e) ↦
          let idle =
            do_actions-Idle t.actions (record s { manager = t.manager; phase = t.phase }) in
          rw (e, IsStopped) (idle.stays_stopped stopped)
    ]

pub step-IsStopped : (x : Input) (s : Server) → s.io_stopped ≡ true → IsStopped (step x s)
unfolding is_turn
step-IsStopped loop_runs s stopped = unfold step in manager_step-IsStopped s stopped
step-IsStopped (accepts error) s stopped =
    idle-IsStopped s _ stopped (other_step-IdleRun (accepts error) s refl)
step-IsStopped (client_does i h) s stopped =
    idle-IsStopped s _ stopped (other_step-IdleRun (client_does i h) s refl)
step-IsStopped (port_reads bytes) s stopped =
    idle-IsStopped s _ stopped (other_step-IdleRun (port_reads bytes) s refl)
step-IsStopped hello_done s stopped =
    idle-IsStopped s _ stopped (other_step-IdleRun hello_done s refl)
step-IsStopped resets s stopped = idle-IsStopped s _ stopped (other_step-IdleRun resets s refl)

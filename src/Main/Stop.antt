-- ===== src/Main/Stop.antt =====
-- serial_mux/serial_mux.cpp: what `serial_mux_stop` achieves, and when its stop is lost.
use serialmux.Prelude.{◌≡◌, ◌↔◌, refl, ap, subst, true, false, arith}
use serialmux.Server.{Server, reset_connection}
use serialmux.Server.Loop.{LoopOptions}
use serialmux.Server.Stopping.{IsStopped, step-IsStopped}
use serialmux.Main.{
  Place, testing, resetting, connecting, ended, running, MuxLoop, serial_mux_stop, new_round, Turn,
  goes_on, ends, resets, is_refused, connects, runs, finishes, stops, Turns, here, later,
  place_reset,
}

-- A round goes on with its io_service running, although the loop was told to stop.
abbrev pub IsLost : MuxLoop → Type 0
IsLost m = (m.mux_running ≡ false) × ((s : Server) × (m.place ≡ running s) × (s.io_stopped ≡ false))

-- What holds of a loop that was told to stop in time.
IsEnding : Place → MuxLoop → Type 0
IsEnding testing m = Unit
IsEnding resetting m = ⊥
IsEnding connecting m = m.io_stopped ≡ true
IsEnding ended m = Unit
IsEnding (running s) m = s.io_stopped ≡ true

stop-IsEnding :
    (p : Place) (m : MuxLoop) → IsEnding p m → IsEnding (place_reset p) (serial_mux_stop m)
unfolding IsEnding serial_mux_stop reset_connection
stop-IsEnding testing m h = tt
stop-IsEnding resetting m h = h
stop-IsEnding connecting m h = refl
stop-IsEnding ended m h = tt
stop-IsEnding (running s) m h = refl

-- A stop that comes anywhere but before `io_service.reset`.
stopped-IsEnding :
    (p : Place) (m : MuxLoop) → (p ≡ resetting → ⊥) → IsEnding (place_reset p) (serial_mux_stop m)
unfolding IsEnding serial_mux_stop reset_connection
stopped-IsEnding testing m other = tt
stopped-IsEnding resetting m other = absurd (other refl)
stopped-IsEnding connecting m other = refl
stopped-IsEnding ended m other = tt
stopped-IsEnding (running s) m other = refl

module _ (opts : LoopOptions) where
  Turn-IsEnding :
      (m n : MuxLoop)
      → m.mux_running ≡ false
      → IsEnding m.place m
      → Turn opts m n
      → (n.mux_running ≡ false) × IsEnding n.place n
  unfolding IsEnding serial_mux_stop
  Turn-IsEnding m n off h (goes_on at on) = absurd (ground arith)
  Turn-IsEnding m n off h (ends at off_now) = (off, tt)
  Turn-IsEnding m n off h (resets at) = absurd (subst (λ p. IsEnding p m) at h)
  Turn-IsEnding m n off h (is_refused at) = (off, tt)
  Turn-IsEnding m n off h (connects at) = (off, unfold new_round in subst (λ p. IsEnding p m) at h)
  Turn-IsEnding m n off h (runs s t x done at e) =
      (off, subst IsStopped e (step-IsStopped x s (subst (λ p. IsEnding p m) at h)))
  Turn-IsEnding m n off h (finishes s at stopped) = (off, tt)
  Turn-IsEnding m n off h stops = (refl, stop-IsEnding m.place m h)

  Turns-IsEnding :
      (m n : MuxLoop)
      → m.mux_running ≡ false
      → IsEnding m.place m
      → Turns opts m n
      → (n.mux_running ≡ false) × IsEnding n.place n
  Turns-IsEnding m n off h here = (off, h)
  Turns-IsEnding m n off h (later {n = k} before turn) =
      let (off_then, h_then) = Turns-IsEnding m k off h before in
      Turn-IsEnding k n off_then h_then turn

  not_lost :
      (m n : MuxLoop) → (m.place ≡ resetting → ⊥) → Turns opts (serial_mux_stop m) n → IsLost n → ⊥
  unfolding IsEnding serial_mux_stop
  not_lost m n other turns (off, (s, at, runs_on)) =
      let (off_now, h) =
        Turns-IsEnding (serial_mux_stop m) n refl (stopped-IsEnding m.place m other) turns in
      let stopped : s.io_stopped ≡ true = subst (λ p. IsEnding p n) at h in absurd (ground arith)

  -- `serial_mux_stop` can be lost, so that a round goes on with its io_service running although the
  -- loop was told to stop, exactly if it comes between the test of the loop and `io_service.reset`.
  pub serial_mux_stop-IsLost :
      (m : MuxLoop)
      → ((n : MuxLoop) × Turns opts (serial_mux_stop m) n × IsLost n) ↔ (m.place ≡ resetting)
  unfolding serial_mux_stop
  serial_mux_stop-IsLost m = (lost m.place refl, overtaken)
    where
      lost :
          (p : Place)
          → m.place ≡ p
          → ((n : MuxLoop) × Turns opts (serial_mux_stop m) n × IsLost n)
          → m.place ≡ resetting
      lost resetting at reached = at
      lost testing at (n, turns, h) = absurd (not_lost m n (λ e. cc) turns h)
      lost connecting at (n, turns, h) = absurd (not_lost m n (λ e. cc) turns h)
      lost ended at (n, turns, h) = absurd (not_lost m n (λ e. cc) turns h)
      lost (running s) at (n, turns, h) = absurd (not_lost m n (λ e. cc) turns h)

      overtaken : m.place ≡ resetting → (n : MuxLoop) × Turns opts (serial_mux_stop m) n × IsLost n
      overtaken at = (
        _,
        later (later here (resets (ap place_reset at))) (connects refl),
        (refl, (_, refl, unfold new_round in refl)),
      )

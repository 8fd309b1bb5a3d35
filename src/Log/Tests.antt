-- ===== src/Log/Tests.antt =====
-- A file system that is a function, and a log that gets two messages.
use serialmux.Prelude.{
  ℕ, ◌+◌, ◌≡◌, arith, refl, ap, true, Option, none, some, List, [], ◌∷◌, ◌++◌, leb, ◌==◌,
  if◌then◌else◌,
}
use serialmux.Log.{
  BoostLog, LogAction, Files, new_log, rotate_logs, Round, drain, stop, log_trace, log_info,
  log_error,
}
use serialmux.Log.Rotation.{rotated, rotate_logs-find}
use serialmux.Log.Messages.{logs, rounds, Doing, doings, lines, accepted, left_over}
use serialmux.Log.Drain.{drain-lines}
use serialmux.Queue.{new_queue}

abbrev Drive : Type 0
Drive = ℕ → Option ℕ

abbrev without : Drive → ℕ → Drive
without d i k = if k == i then none else d k

abbrev moved : Drive → ℕ → ℕ → Drive
moved d i j k = if k == j then d i else if k == i then none else d k

same_drive : (d e : Drive) → ◌≡◌ {A = Option Drive} (some d) (some e) → e ≡ d
same_drive d e h = cc

abbrev drive : Files
drive = record {
  Disk = Drive;
  Content = ℕ;
  find = λ d i. d i;
  remove = λ d i. some (without d i);
  rename = λ d i j. some (moved d i j);
  find-remove = λ d d' i k e. ap (λ f. f k) (same_drive (without d i) d' e);
  find-rename = λ d d' i j k lt e. ap (λ f. f k) (same_drive (moved d i j) d' e);
}

abbrev disk : Drive
disk k = if leb k 1 then some (k + 40) else none

abbrev after_one : Drive
after_one = moved (without disk 1) 0 1

rotated_once : rotate_logs drive 1 disk ≡ some after_one
unfolding rotate_logs
rotated_once = refl

rotate_logs-find_example : after_one 1 ≡ rotated drive 1 disk 1
rotate_logs-find_example = rotate_logs-find drive 1 disk after_one 1 rotated_once

abbrev chatter : List Doing
chatter =
    logs log_trace [] (b'x' ∷ [])
    ∷ logs log_error (b'1' ∷ []) (b'y' ∷ [])
    ∷ rounds (some 10) true true
    ∷ []

abbrev opened : BoostLog
opened = record new_log { log_level = some log_info; has_file = true; is_good = true }

-- One message was left out, and one is still queued when the log stops.
abbrev talk : List Doing
talk = chatter ++ logs log_error (b'2' ∷ []) (b'z' ∷ []) ∷ []

abbrev last_round : List Round
last_round = record { size = some 12; rotated = true; opens = true } ∷ []

drain-lines_example :
    (m n : BoostLog) × (now last : List LogAction) × (doings talk opened ≡ some (m, now))
    × (drain last_round (stop m) ≡ some (n, last))
    × (lines now ++ lines last ≡ opened.msg_queue.items ++ accepted opened.log_level talk)
    × (n.msg_queue.items ≡ [])
unfolding left_over new_log new_queue
drain-lines_example =
    drain-lines talk last_round opened (tt, (tt, ((tt, refl), (tt, tt)))) ((tt, refl), tt)
      (λ e. refl) (omega arith)

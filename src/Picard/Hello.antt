-- ===== src/Picard/Hello.antt =====
-- `threadMain`: when hellos are sent, and what reads make of the manager's bytes.
use serialmux.Prelude.{
  ℕ, ◌+◌, ◌≤◌, ◌<◌, ◌≡◌, subst, Bool, true, false, Bool-cases, inl, inr, Option, List, [], ◌∷◌,
  arith, if◌then◌else◌,
}
use serialmux.Picard.{send_hello}
use serialmux.Picard.Port.{Handlers, ThreadMain, hello_round, thread_round, picard_hello_interval}

-- A round of the loop: its time, the time behind a hello, the handlers that run in the read, and
-- the read's buffer.
pub record Round : Type 0 where
  pub now : ℕ
  pub sent : ℕ
  pub handlers : Handlers
  pub buffer : Option (List ℕ)

unfoldable pub run_round : Round → ThreadMain → ThreadMain
run_round r t = (thread_round r.now r.sent r.handlers r.buffer t).0

-- Whether a round of a running thread sends a hello.
unfoldable pub sends_hello : Round → ThreadMain → Bool
sends_hello r t = elim (hello_round r.now r.sent t).1 [ [] ↦ false | e ∷ es ↦ t.picard.is_running ]

-- The times of the rounds that send one.
pub hello_times : List Round → ThreadMain → List ℕ
hello_times [] t = []
hello_times (r ∷ rs) t =
    let later = hello_times rs (run_round r t) in if sends_hello r t then r.now ∷ later else later

-- The clock does not go back.
abbrev pub IsClock : ℕ → List Round → Type 0
IsClock past [] = Unit
IsClock past (r ∷ rs) = (past ≤ r.now) × (r.now ≤ r.sent) × IsClock r.sent rs

-- Each time is more than the hello interval after the one before it.
abbrev pub IsSpaced : ℕ → List ℕ → Type 0
IsSpaced past [] = Unit
IsSpaced past (t ∷ ts) = (past + picard_hello_interval < t) × IsSpaced t ts

IsSpaced-le : (a b : ℕ) (ts : List ℕ) → a ≤ b → IsSpaced b ts → IsSpaced a ts
IsSpaced-le a b [] h s = tt
IsSpaced-le a b (t ∷ ts) h s = (omega arith, s.1)

silent_round :
    (r : Round) (t : ThreadMain)
    → sends_hello r t ≡ false
    → (run_round r t).last_hello ≡ t.last_hello
unfolding sends_hello run_round thread_round hello_round send_hello
silent_round r t e = ground arith

hello_round-last :
    (r : Round) (t : ThreadMain)
    → sends_hello r t ≡ true
    → ((run_round r t).last_hello ≡ r.sent) × (t.last_hello + picard_hello_interval < r.now)
unfolding sends_hello run_round thread_round hello_round send_hello
hello_round-last r t e = ground arith

-- Two hellos of the thread are more than the hello interval apart, and so is the first one from the
-- time that the loop starts with, if the clock does not go back.
pub hello_times-IsSpaced :
    (rs : List Round) (t : ThreadMain) (past : ℕ)
    → IsClock past rs
    → IsSpaced t.last_hello (hello_times rs t)
unfolding hello_times
hello_times-IsSpaced [] t past c = tt
hello_times-IsSpaced (r ∷ rs) t past c = elim (Bool-cases (sends_hello r t)) [
  | inl yes_hello ↦
      let last = hello_round-last r t yes_hello in
      rw yes_hello (
        last.1,
        IsSpaced-le r.now (run_round r t).last_hello (hello_times rs (run_round r t)) (omega arith)
            (hello_times-IsSpaced rs (run_round r t) r.sent c.2),
      )
  | inr none_sent ↦ rw none_sent (
      subst (λ k. IsSpaced k (hello_times rs (run_round r t))) (silent_round r t none_sent)
        (hello_times-IsSpaced rs (run_round r t) r.sent c.2))
]

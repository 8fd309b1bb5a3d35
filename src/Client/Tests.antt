-- ===== src/Client/Tests.antt =====
-- A client that sends a command too early, then its hello, then a command; and its timer.
use serialmux.Prelude.{ℕ, ◌≡◌, refl, false, List, [], ◌∷◌, flatten, arith}
use serialmux.Mux.{MuxMessage, serialize}
use serialmux.Mux.Framing.{stream}
use serialmux.Client.{BoostClient, new_client, authenticated, closed, parse_hello}
use serialmux.Client.Hello.{Verdict, parse_hello_verdict}
use serialmux.Client.Commands.{session}
use serialmux.Client.Session.{handle_reads, without_reads, handle_reads-session}
use serialmux.Client.States.{fails, times_out, happenings, IsSilent, timed_out-IsSilent}

abbrev token : List ℕ
token = 48 ∷ 49 ∷ 50 ∷ 51 ∷ 52 ∷ 53 ∷ 54 ∷ 55 ∷ []

abbrev fresh : BoostClient
fresh = new_client token 4

abbrev early : MuxMessage
early = record { payload = []; type = 30; id = 0 }

abbrev hello : MuxMessage
hello = record { payload = 4 ∷ token; type = 1; id = 0 }

abbrev pieces : List (List ℕ)
pieces =
    (0xa7 ∷ 0x40 ∷ 0xa0 ∷ 0xf5 ∷ 0 ∷ 3 ∷ 0 ∷ 0 ∷ 30 ∷ 0xa7 ∷ [])
    ∷ (0x40 ∷ 0xa0 ∷ 0xf5 ∷ 0 ∷ 12 ∷ 0 ∷ 0 ∷ 1 ∷ 4 ∷ 48 ∷ 49 ∷ 50 ∷ 51 ∷ 52 ∷ 53 ∷ 54 ∷ 55 ∷ 0xa7
        ∷ [])
    ∷ (0x40 ∷ 0xa0 ∷ 0xf5 ∷ 0 ∷ 3 ∷ 0 ∷ 0 ∷ 30 ∷ [])
    ∷ []

pieces-stream : flatten pieces ≡ stream (early ∷ hello ∷ early ∷ [])
unfolding stream serialize
pieces-stream = refl

parse_hello_verdict_example : Verdict fresh (4 ∷ token) (parse_hello fresh (4 ∷ token) 9)
parse_hello_verdict_example = parse_hello_verdict fresh (4 ∷ token) refl

handle_reads-session_example :
    without_reads (handle_reads (new_client token 4) pieces).1
    ≡ session (new_client token 4) (early ∷ hello ∷ early ∷ [])
handle_reads-session_example =
    handle_reads-session token 4 pieces (early ∷ hello ∷ early ∷ []) (omega arith) (omega arith)
      pieces-stream

abbrev logged_in : BoostClient
logged_in = record fresh { init_state = authenticated }

timed_out-IsSilent_example :
    ((happenings logged_in (times_out false ∷ fails ∷ [])).0.init_state ≡ closed)
    × IsSilent (happenings logged_in (times_out false ∷ fails ∷ [])).1
timed_out-IsSilent_example = timed_out-IsSilent logged_in (fails ∷ [])

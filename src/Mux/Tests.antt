-- ===== src/Mux/Tests.antt =====
-- Runs of the message parser at concrete inputs, and the theorems about it at inputs that meet
-- their hypotheses.
use serialmux.Prelude.{ℕ, ◌≡◌, refl, true, List, [], ◌∷◌, arith, flatten}
use serialmux.Mux.Loop.{IsDrained}
use serialmux.Mux.Chunks.{read_all-flatten}
use serialmux.Mux.Framing.{stream, read_all-stream}
use serialmux.Mux.{MuxMessage, MuxParser, serialize, new_parser, parse, read, read_all}

abbrev greeting : MuxMessage
greeting = record { payload = 4 ∷ 48 ∷ 49 ∷ []; type = 1; id = 258 }

abbrev subscribe : MuxMessage
subscribe = record { payload = 0 ∷ 0 ∷ 0 ∷ 18 ∷ []; type = 22; id = 0 }

serialized : serialize greeting ≡ 0xa7 ∷ 0x40 ∷ 0xa0 ∷ 0xf5 ∷ 0 ∷ 6 ∷ 1 ∷ 2 ∷ 1 ∷ 4 ∷ 48 ∷ 49 ∷ []
unfolding serialize
serialized = refl

-- Half of a message, then its rest and half of the next one.
abbrev pieces : List (List ℕ)
pieces =
    (0xa7 ∷ 0x40 ∷ 0xa0 ∷ 0xf5 ∷ 0 ∷ 6 ∷ 1 ∷ [])
    ∷ (2 ∷ 1 ∷ 4 ∷ 48 ∷ 49 ∷ 0xa7 ∷ 0x40 ∷ [])
    ∷ (0xa0 ∷ 0xf5 ∷ 0 ∷ 7 ∷ 0 ∷ 0 ∷ 22 ∷ 0 ∷ 0 ∷ 0 ∷ 18 ∷ [])
    ∷ []

pieces-stream : flatten pieces ≡ stream (greeting ∷ subscribe ∷ [])
unfolding stream serialize
pieces-stream = refl

read_all-stream_example : (read_all (new_parser true) pieces).1 ≡ greeting ∷ subscribe ∷ []
read_all-stream_example =
    read_all-stream pieces (greeting ∷ subscribe ∷ []) (omega arith) pieces-stream

abbrev waiting : MuxParser
waiting = record { handler = true; partial_input = 0xa7 ∷ 0x40 ∷ 0xa0 ∷ 0xf5 ∷ 0 ∷ [] }

waiting-IsDrained : IsDrained waiting
unfolding parse
waiting-IsDrained = refl

read_all-flatten_example :
    (read_all waiting ((3 ∷ []) ∷ (0 ∷ 9 ∷ 2 ∷ []) ∷ [])).1
    ≡ (read waiting (flatten ((3 ∷ []) ∷ (0 ∷ 9 ∷ 2 ∷ []) ∷ []))).1
read_all-flatten_example =
    read_all-flatten waiting ((3 ∷ []) ∷ (0 ∷ 9 ∷ 2 ∷ []) ∷ []) waiting-IsDrained

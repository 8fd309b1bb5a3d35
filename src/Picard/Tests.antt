-- ===== src/Picard/Tests.antt =====
-- A manager that answers the hello, sends a notification twice and answers a command.
use serialmux.Prelude.{
  ℕ, none, take, drop, length, flatten, take_full, inr, append-nil, take-append-drop, ◌<◌, ◌≤◌, ◌≢◌,
  ◌≡◌, ◌⊎◌, ◌↔◌, refl, ap, ◌∙◌, true, List, [], ◌∷◌, ◌++◌, arith,
}
use serialmux.Hdlc.RoundTrip.{packets}
use serialmux.Picard.{
  BasePicardIo, command_complete, new_picard, register_callback, start_parser, frame_complete,
  frames_complete,
}
use serialmux.Picard.Frames.{api_frame}
use serialmux.Picard.Invariant.{IsGoodHello, frame_complete-connected}
use serialmux.Picard.Responses.{frame_complete_responds_iff}
use serialmux.Picard.Notifications.{acked, duplicate-delivered}
use serialmux.Picard.Port.{Handlers, bytes_read, ThreadMain}
use serialmux.Picard.Reads.{Read, AllBring, serial_reads, serial_reads-packets}
use serialmux.Picard.Port.{aborted, start_read}
use serialmux.Picard.Overlap.{
  SerialPort, between, begins, clears, issues, waits, wakes, Steps, here, later, cancelled, Dangles,
  reads_overlap,
}
use serialmux.Picard.Hello.{Round, IsSpaced, hello_times, hello_times-IsSpaced}

abbrev listening : BasePicardIo
listening = register_callback true new_picard

abbrev hello_frame : List ℕ
hello_frame = 0 ∷ 2 ∷ 0 ∷ 5 ∷ 0 ∷ 4 ∷ 9 ∷ 255 ∷ 0 ∷ []

abbrev response : List ℕ
response = api_frame 3 22 0 0 (1 ∷ 2 ∷ [])

frame_complete-connected_example :
    ((frame_complete listening hello_frame).0.connected ≡ true)
    ↔ ((listening.connected ≡ true) ⊎ IsGoodHello hello_frame)
frame_complete-connected_example = frame_complete-connected listening hello_frame

frame_complete_responds_iff_example :
    ((frame_complete listening response).1 ≡ command_complete 22 0 0 (1 ∷ 2 ∷ []) ∷ [])
    ↔ ((listening.has_callback ≡ true) × (20 < 22) × (response ≡ api_frame 3 22 0 0 (1 ∷ 2 ∷ [])))
frame_complete_responds_iff_example =
    frame_complete_responds_iff listening response 22 0 0 (1 ∷ 2 ∷ [])

duplicate-delivered_example :
    (frames_complete listening (api_frame 2 20 7 4 (1 ∷ []) ∷ api_frame 2 20 7 4 (1 ∷ []) ∷ [])).1
    ≡ acked 7 4 (1 ∷ []) ++ acked 7 4 (1 ∷ [])
duplicate-delivered_example =
    duplicate-delivered listening 2 7 4 (1 ∷ []) refl
      (record { request_eq = refl; reliable-ne = λ e. omega arith }) (omega arith) (omega arith)

-- The packet in two pieces; a read between them is cancelled, and its handler runs behind the wait.
abbrev start_piece : List ℕ
start_piece = take 3 (packets (response ∷ []))

abbrev end_piece : List ℕ
end_piece = drop 3 (packets (response ∷ []))

abbrev cut_reads : List Read
cut_reads =
    record {
      handlers = record {
        opening = [];
        early = [];
        waited = bytes_read (length start_piece) ∷ [];
        behind = [];
      };
      input = start_piece ++ 0 ∷ [];
    }
    ∷ record {
      handlers = record { opening = []; early = []; waited = []; behind = aborted ∷ [] };
      input = 0 ∷ 0 ∷ [];
    }
    ∷ record {
      handlers = record {
        opening = [];
        early = bytes_read (length end_piece) ∷ [];
        waited = [];
        behind = [];
      };
      input = end_piece ++ [];
    }
    ∷ []

cut_reads-AllBring : AllBring cut_reads (start_piece ∷ [] ∷ end_piece ∷ [])
cut_reads-AllBring = (
  record {
    opening_eq = refl;
    own = inr (bytes_read (length start_piece), refl, take_full start_piece (0 ∷ []));
  },
  (
    record { opening_eq = refl; own = inr (aborted, refl, refl) },
    (
      record {
        opening_eq = refl;
        own = inr (bytes_read (length end_piece), refl, take_full end_piece []);
      },
      tt,
    ),
  ),
)

cut_reads_flatten : flatten (start_piece ∷ [] ∷ end_piece ∷ []) ≡ packets (response ∷ [])
cut_reads_flatten =
    ap (λ t. start_piece ++ t) (append-nil end_piece) ∙ take-append-drop 3 (packets (response ∷ []))

serial_reads-packets_example :
    (serial_reads cut_reads (start_parser listening)).1
    ≡ (frames_complete listening (response ∷ [])).1
serial_reads-packets_example =
    serial_reads-packets cut_reads (start_piece ∷ [] ∷ end_piece ∷ []) listening (response ∷ [])
      (
        (
          (
            omega arith,
            (
              omega arith,
              (omega arith, (omega arith, (omega arith, (omega arith, (omega arith, tt))))),
            ),
          ),
          omega arith,
        ),
        tt,
      )
      cut_reads-AllBring cut_reads_flatten

abbrev quiet_port : ThreadMain
quiet_port = record { picard = record listening { is_running = true }; last_hello = 88 }

-- A read whose time is over.
abbrev no_handlers : Handlers
no_handlers = record { opening = []; early = []; waited = []; behind = [] }

abbrev seconds : List Round
seconds =
    record { now = 100; sent = 100; handlers = no_handlers; buffer = none }
    ∷ record { now = 101; sent = 101; handlers = no_handlers; buffer = none }
    ∷ record { now = 107; sent = 108; handlers = no_handlers; buffer = none }
    ∷ []

hello_times-IsSpaced_example : IsSpaced 88 (hello_times seconds quiet_port)
hello_times-IsSpaced_example = hello_times-IsSpaced seconds quiet_port 100 (omega arith)

-- A port whose first read timed out; the handler of that read has yet to run.
abbrev quiet : SerialPort
quiet = record { stand = between; shared = start_read; count = 0; pending = []; ready = [] }

abbrev cancelled_read : SerialPort
cancelled_read = record {
  stand = between;
  shared = start_read;
  count = 1;
  pending = [];
  ready = aborted ∷ [];
}

reached : Steps quiet cancelled_read
unfolding start_read cancelled
reached =
    later
      (later (later (later (later here (begins refl)) (clears refl)) (issues refl))
        (waits refl refl))
      (wakes refl)

reads_overlap_example :
    ((t : SerialPort) × Steps cancelled_read t × (t.count ≤ 2) × Dangles t)
    ↔ (cancelled_read.ready ≢ [])
reads_overlap_example = reads_overlap cancelled_read refl refl

-- ===== src/Log.antt =====
-- ext-tools/LogUtilities/BoostLog.h and ext-tools/LogUtilities/BoostLog.cpp: the log's levels, its
-- queue of messages, and the rotation of its files. The file system is boost's: `Files` says what
-- the code relies on. File 0 is the log, file `i` its backup `i`. Time stamps are arguments.
pub mod Rotation
pub mod Messages
pub mod Drain
pub mod Tests
use serialmux.Prelude.{
  ℕ, zero, suc, ◌<◌, ◌≡◌, Bool, true, false, not, ◌&&◌, ◌||◌, Option, none, some, List, [], ◌∷◌,
  ◌++◌, map, ltb, leb, ◌==◌, if◌then◌else◌,
}
use serialmux.Queue.{SyncQueue, new_queue, push, empty, begin_pop, finish_pop}
use serialmux.Options.{to_lower}

-- `LogLevel`.
abbrev pub log_trace : ℕ
log_trace = 0

abbrev pub log_info : ℕ
log_info = 1

abbrev pub log_warning : ℕ
log_warning = 2

abbrev pub log_error : ℕ
log_error = 3

abbrev pub log_fatal : ℕ
log_fatal = 4

abbrev pub log_always : ℕ
log_always = 5

-- `stringToEnum`.
unfoldable pub same_text : List ℕ → List ℕ → Bool
same_text [] [] = true
same_text (x ∷ xs) (y ∷ ys) = x == y && same_text xs ys
same_text _ _ = false

abbrev pub trace_text : List ℕ
trace_text = b't' ∷ b'r' ∷ b'a' ∷ b'c' ∷ b'e' ∷ []

abbrev pub info_text : List ℕ
info_text = b'i' ∷ b'n' ∷ b'f' ∷ b'o' ∷ []

abbrev pub warning_text : List ℕ
warning_text = b'w' ∷ b'a' ∷ b'r' ∷ b'n' ∷ b'i' ∷ b'n' ∷ b'g' ∷ []

unfoldable pub string_to_enum : List ℕ → ℕ
unfolding same_text to_lower
string_to_enum level_str =
    let level = map to_lower level_str in
    if same_text level trace_text
    then log_trace
    else if same_text level info_text
    then log_info
    else if same_text level warning_text
    then log_warning
    else log_error

-- What the log needs of the file system. `none` is an exception.
pub record Files : Type 1 where
  pub Disk : Type 0
  pub Content : Type 0
  pub find : Disk → ℕ → Option Content
  pub remove : Disk → ℕ → Option Disk
  pub rename : Disk → ℕ → ℕ → Option Disk
  pub find-remove :
      (d d' : Disk) (i k : ℕ)
      → remove d i ≡ some d'
      → find d' k ≡ (if k == i then none else find d k)
  pub find-rename :
      (d d' : Disk) (i j k : ℕ)
      → i < j
      → rename d i j ≡ some d'
      → find d' k ≡ (if k == j then find d i else if k == i then none else find d k)

module _ (files : Files) where
  open files use {Disk, find, remove, rename}

  -- `boost::filesystem::exists`.
  abbrev pub exists : Disk → ℕ → Bool
  exists d i = elim (find d i) [ none ↦ false | some c ↦ true ]

  -- A round of `rotateLogs`: backup `i + 1` goes, and file `i` becomes backup `i + 1`.
  unfoldable pub rotate_one : Disk → ℕ → Option Disk
  rotate_one d i = elim (if exists d (suc i) then remove d (suc i) else some d) [
    | none ↦ none
    | some cleared ↦ if exists cleared i then rename cleared i (suc i) else some cleared
  ]

  -- `rotateLogs`, whose result is false if there is an exception.
  unfoldable pub rotate_logs : ℕ → Disk → Option Disk
  unfolding rotate_one
  rotate_logs zero d = some d
  rotate_logs (suc i) d = elim (rotate_one d i) [ none ↦ none | some next ↦ rotate_logs i next ]

-- `CBoostLog`. The level is `none` before `openLog`, for -1; `has_file` says whether `m_log` is set,
-- `is_good` whether its stream could be opened, and `is_running` whether the log's thread is to run.
pub record BoostLog : Type 0 where
  pub log_level : Option ℕ
  pub num_backups : ℕ
  pub max_log_size : ℕ
  pub has_file : Bool
  pub is_good : Bool
  pub is_running : Bool
  pub msg_queue : SyncQueue (List ℕ)

-- The constructor.
unfoldable pub new_log : BoostLog
new_log = record {
  log_level = none;
  num_backups = 1;
  max_log_size = 1000000;
  has_file = false;
  is_good = false;
  is_running = false;
  msg_queue = new_queue;
}

-- What the log does to its files.
pub data LogAction : Type 0 where
  close_file : LogAction
  rotate : LogAction
  open_append open_truncate : LogAction
  note_truncated : LogAction
  line : List ℕ → LogAction

-- `openLog`, with `start`. `opens` says whether the file can be opened: if it cannot, `openFile` sets
-- `m_log` all the same.
unfoldable pub open_log : ℕ → ℕ → ℕ → Bool → BoostLog → BoostLog × List LogAction
open_log num_backups max_log_size level opens l = (
  record l {
    log_level = some level;
    num_backups = num_backups;
    max_log_size = max_log_size;
    has_file = true;
    is_good = opens;
    is_running = true;
  },
  close_file ∷ rotate ∷ open_append ∷ [],
)

-- The test of `logMsg`: all is wanted before `openLog`.
abbrev pub is_wanted : Option ℕ → ℕ → Bool
is_wanted none msg_level = true
is_wanted (some level) msg_level = leb level msg_level || msg_level == log_always

-- `logMsg`; `stamp` is the time and the separator.
unfoldable pub log_msg : ℕ → List ℕ → List ℕ → BoostLog → BoostLog
log_msg msg_level stamp msg l =
    if is_wanted l.log_level msg_level
    then record l { msg_queue = push l.msg_queue (stamp ++ msg) }
    else l

-- What `writeMsg` tests first: whether the file is too big. The size is `none` if `file_size` throws,
-- as it does if there is no file, and then so is the result.
unfoldable pub is_full : Option ℕ → BoostLog → Option Bool
is_full size l =
    if ltb 0 l.max_log_size
    then (elim size [ none ↦ none | some bytes ↦ some (ltb l.max_log_size bytes) ])
    else some false

-- `writeMsg` behind that test: a file that is too big is closed and the files are rotated. `rotated`
-- is the result of the rotation. `openFile` sets `m_log` whether or not the file can be opened, which
-- `opens` says; what is written to a stream that could not be opened is lost.
unfoldable pub write_line : Bool → Bool → Bool → List ℕ → BoostLog → BoostLog × List LogAction
write_line full rotated opens msg l =
    let kept = not full && l.has_file in
    let good = if kept then l.is_good else opens in
    let noted = if full && not rotated then note_truncated ∷ [] else [] in
    (
      record l { has_file = true; is_good = good },
      (if full then close_file ∷ rotate ∷ [] else [])
          ++ ((if kept then [] else open_truncate ∷ [])
              ++ (if good then noted ++ line msg ∷ [] else [])),
    )

-- `writeMsg`. `none` is an exception, which ends the log's thread.
unfoldable pub write_msg :
    Option ℕ → Bool → Bool → List ℕ → BoostLog → Option (BoostLog × List LogAction)
unfolding is_full write_line
write_msg size rotated opens msg l = elim (is_full size l) [
  | none ↦ none
  | some full ↦ some (write_line full rotated opens msg l)
]

-- A round of `logFromQueue`, behind the wait of `timedPop`.
unfoldable pub log_round : Option ℕ → Bool → Bool → BoostLog → Option (BoostLog × List LogAction)
log_round size rotated opens l =
    let (rest, popped) = finish_pop l.msg_queue in
    let taken = record l { msg_queue = rest } in
    elim popped [ none ↦ some (taken, []) | some msg ↦ write_msg size rotated opens msg taken ]

-- `stop`, up to its wait for the log's thread.
unfoldable pub stop : BoostLog → BoostLog
stop l = record l { is_running = false }

-- What a round meets: the file's size, and whether the files are rotated and the file is opened.
pub record Round : Type 0 where
  pub size : Option ℕ
  pub rotated : Bool
  pub opens : Bool

-- The end of `logFromQueue`, a round for each message that is left.
unfoldable pub drain : List Round → BoostLog → Option (BoostLog × List LogAction)
drain [] l = some (l, [])
drain (r ∷ rs) l =
    if empty l.msg_queue then some (l, []) else elim (log_round r.size r.rotated r.opens l) [
      | none ↦ none
      | some (m, now) ↦ elim (drain rs m) [ none ↦ none | some (n, later) ↦ some (n, now ++ later) ]
    ]

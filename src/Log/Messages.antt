-- ===== src/Log/Messages.antt =====
-- What reaches the log file of the messages of the level that is wanted.
use serialmux.Prelude.{
  ℕ, suc, ◌-◌, ◌≡◌, ◌⊎◌, refl, ap, sym, ◌∙◌, Bool, true, false, Bool-cases, inl, inr, Option, none,
  some, List, [], ◌∷◌, ◌++◌, append-nil, append_assoc, All, length, length-append, arith, ltb,
  if◌then◌else◌,
}
use serialmux.Queue.{push, finish_pop}
use serialmux.Log.{
  BoostLog, LogAction, line, is_wanted, log_msg, is_full, write_line, write_msg, log_round,
}

-- What threads do with an open log: they log a message of a level, with its time stamp, or do a
-- round of the log's thread at a file size, with the results of the rotation and of opening.
pub data Doing : Type 0 where
  logs : ℕ → List ℕ → List ℕ → Doing
  rounds : Option ℕ → Bool → Bool → Doing

unfoldable pub doing : Doing → BoostLog → Option (BoostLog × List LogAction)
doing (logs level stamp msg) l = some (log_msg level stamp msg l, [])
doing (rounds size rotated opens) l = log_round size rotated opens l

unfoldable pub doings : List Doing → BoostLog → Option (BoostLog × List LogAction)
unfolding doing
doings [] l = some (l, [])
doings (d ∷ ds) l = elim (doing d l) [
  | none ↦ none
  | some (m, now) ↦ elim (doings ds m) [ none ↦ none | some (n, later) ↦ some (n, now ++ later) ]
]

-- The messages among what is done to the file.
unfoldable pub lines : List LogAction → List (List ℕ)
lines [] = []
lines (line msg ∷ rest) = msg ∷ lines rest
lines (a ∷ rest) = lines rest

-- The messages that are wanted, in order.
unfoldable pub accepted : Option ℕ → List Doing → List (List ℕ)
accepted level [] = []
accepted level (logs msg_level stamp msg ∷ ds) =
    let rest = accepted level ds in
    if is_wanted level msg_level then (stamp ++ msg) ∷ rest else rest
accepted level (rounds size rotated opens ∷ ds) = accepted level ds

-- How many messages are queued at the end, if `n` are at the start: a round takes one.
unfoldable pub left_over : Option ℕ → List Doing → ℕ → ℕ
left_over level [] n = n
left_over level (logs msg_level stamp msg ∷ ds) n =
    left_over level ds (if is_wanted level msg_level then suc n else n)
left_over level (rounds size rotated opens ∷ ds) n = left_over level ds (n - 1)

-- There is a file whose size can be read.
abbrev pub HasSize : Option ℕ → Type 0
HasSize none = ⊥
HasSize (some bytes) = Unit

-- The file is there, and can be opened.
abbrev pub Works : Doing → Type 0
Works (logs level stamp msg) = Unit
Works (rounds size rotated opens) = HasSize size × (opens ≡ true)

-- If there is a stream, it could be opened.
abbrev pub IsOpen : BoostLog → Type 0
IsOpen l = l.has_file ≡ true → l.is_good ≡ true

pub lines-append : (xs ys : List LogAction) → lines (xs ++ ys) ≡ lines xs ++ lines ys
unfolding lines
lines-append [] ys = refl
lines-append (line msg ∷ xs) ys = ap (◌∷◌ msg) (lines-append xs ys)
lines-append (a ∷ xs) ys = lines-append xs ys

-- The log goes on: it has written these messages, and these are queued.
pub record GoesOn (l : BoostLog) (out : Option (BoostLog × List LogAction))
    (written queued : List (List ℕ)) : Type 0 where
  pub log : BoostLog
  pub actions : List LogAction
  pub out_eq : out ≡ some (log, actions)
  pub lines_eq : lines actions ≡ written
  pub items_eq : log.msg_queue.items ≡ queued
  pub level_eq : log.log_level ≡ l.log_level
  pub good : IsOpen log

write_line-lines :
    (full rotated : Bool) (msg : List ℕ) (l : BoostLog)
    → IsOpen l
    → ((write_line full rotated true msg l).0.is_good ≡ true)
      × (lines (write_line full rotated true msg l).1 ≡ msg ∷ [])
unfolding write_line lines
write_line-lines full rotated msg l good = elim (Bool-cases l.has_file) [
  | inl e ↦ let is_good : l.is_good ≡ true = good e in ground arith
  | inr e ↦ ground arith
]

is_full-HasSize :
    (size : Option ℕ) (l : BoostLog) → HasSize size → (full : Bool) × (is_full size l ≡ some full)
unfolding is_full
is_full-HasSize none l sized = absurd sized
is_full-HasSize (some bytes) l sized = elim (Bool-cases (ltb 0 l.max_log_size)) [
  | inl e ↦ (ltb l.max_log_size bytes, rw e refl)
  | inr e ↦ (false, rw e refl)
]

write_msg-GoesOn :
    (size : Option ℕ) (rotated : Bool) (msg : List ℕ) (l : BoostLog)
    → HasSize size
    → IsOpen l
    → GoesOn l (write_msg size rotated true msg l) (msg ∷ []) l.msg_queue.items
unfolding write_msg write_line
write_msg-GoesOn size rotated msg l sized good =
    let (full, full_eq) = is_full-HasSize size l sized in
    record {
      log = (write_line full rotated true msg l).0;
      actions = (write_line full rotated true msg l).1;
      out_eq = rw (full_eq, write_msg) refl;
      lines_eq = (write_line-lines full rotated msg l good).1;
      items_eq = refl;
      level_eq = refl;
      good = λ e. (write_line-lines full rotated msg l good).0;
    }

abbrev with_items : BoostLog → List (List ℕ) → BoostLog
with_items l items = record l { msg_queue = record { items = items; asleep = false } }

log_round-cons :
    (size : Option ℕ) (rotated opens : Bool) (l : BoostLog) (msg : List ℕ) (rest : List (List ℕ))
    → l.msg_queue.items ≡ msg ∷ rest
    → log_round size rotated opens l ≡ write_msg size rotated opens msg (with_items l rest)
unfolding log_round finish_pop
log_round-cons size rotated opens l msg rest e = rw e refl

-- A round with a message in the queue writes it.
pub round-GoesOn :
    (size : Option ℕ) (rotated opens : Bool) (l : BoostLog) (msg : List ℕ) (rest : List (List ℕ))
    → HasSize size
    → opens ≡ true
    → IsOpen l
    → l.msg_queue.items ≡ msg ∷ rest
    → GoesOn l (log_round size rotated opens l) (msg ∷ []) rest
round-GoesOn size rotated opens l msg rest sized can_open good e =
    let w = write_msg-GoesOn size rotated msg (with_items l rest) sized good in
    record {
      log = w.log;
      actions = w.actions;
      out_eq =
          log_round-cons size rotated opens l msg rest e
          ∙ ap (λ b. write_msg size rotated b msg (with_items l rest)) can_open
          ∙ w.out_eq;
      lines_eq = w.lines_eq;
      items_eq = w.items_eq;
      level_eq = w.level_eq;
      good = w.good;
    }

round_silent :
    (size : Option ℕ) (rotated opens : Bool) (l : BoostLog)
    → IsOpen l
    → l.msg_queue.items ≡ []
    → GoesOn l (log_round size rotated opens l) [] []
unfolding log_round finish_pop lines
round_silent size rotated opens l good e = record {
  log = with_items l [];
  actions = [];
  out_eq = rw e refl;
  lines_eq = refl;
  items_eq = refl;
  level_eq = refl;
  good = good;
}

-- The messages and the number that are left once something is done.
record Does (d : Doing) (l : BoostLog) : Type 0 where
  written : List (List ℕ)
  queued : List (List ℕ)
  goes : GoesOn l (doing d l) written queued
  messages :
      (ds : List Doing)
      → written ++ (queued ++ accepted l.log_level ds)
        ≡ l.msg_queue.items ++ accepted l.log_level (d ∷ ds)
  number :
      (ds : List Doing)
      → left_over l.log_level ds (length queued)
        ≡ left_over l.log_level (d ∷ ds) (length l.msg_queue.items)

split_items :
    (items : List (List ℕ))
    → (items ≡ []) ⊎ ((msg : List ℕ) × (rest : List (List ℕ)) × (items ≡ msg ∷ rest))
split_items [] = inl refl
split_items (msg ∷ rest) = inr (msg, rest, refl)

doing-Does : (d : Doing) (l : BoostLog) → Works d → IsOpen l → Does d l
unfolding doing accepted left_over
doing-Does (logs level stamp msg) l works good = elim (Bool-cases (is_wanted l.log_level level)) [
  | inl wanted ↦ record {
    written = [];
    queued = l.msg_queue.items ++ (stamp ++ msg) ∷ [];
    goes = record {
      log = log_msg level stamp msg l;
      actions = [];
      out_eq = refl;
      lines_eq = unfold lines in refl;
      items_eq = unfold log_msg push in rw wanted refl;
      level_eq = unfold log_msg in rw wanted refl;
      good = unfold log_msg in rw wanted good;
    };
    messages = λ ds.
        rw wanted (append_assoc l.msg_queue.items ((stamp ++ msg) ∷ []) (accepted l.log_level ds));
    number = λ ds. rw wanted (
        ap (left_over l.log_level ds)
          (length-append l.msg_queue.items ((stamp ++ msg) ∷ []) ∙ omega arith));
  }
  | inr no_need ↦ record {
    written = [];
    queued = l.msg_queue.items;
    goes = record {
      log = log_msg level stamp msg l;
      actions = [];
      out_eq = refl;
      lines_eq = unfold lines in refl;
      items_eq = unfold log_msg in rw no_need refl;
      level_eq = unfold log_msg in rw no_need refl;
      good = unfold log_msg in rw no_need good;
    };
    messages = λ ds. rw no_need refl;
    number = λ ds. rw no_need refl;
  }
]
doing-Does (rounds size rotated opens) l works good = elim (split_items l.msg_queue.items) [
  | inl e ↦ record {
    written = [];
    queued = [];
    goes = round_silent size rotated opens l good e;
    messages = λ ds. rw e refl;
    number = λ ds. rw e refl;
  }
  | inr (msg, rest, e) ↦ record {
    written = msg ∷ [];
    queued = rest;
    goes = round-GoesOn size rotated opens l msg rest works.0 works.1 good e;
    messages = λ ds. rw e refl;
    number = λ ds. rw e (ap (left_over l.log_level ds) (omega arith));
  }
]

-- How the log stands behind what threads do with it, and its messages so far.
pub record Logged (ds : List Doing) (l : BoostLog) : Type 0 where
  pub written : List (List ℕ)
  pub queued : List (List ℕ)
  pub goes : GoesOn l (doings ds l) written queued
  pub messages : written ++ queued ≡ l.msg_queue.items ++ accepted l.log_level ds
  pub number : length queued ≡ left_over l.log_level ds (length l.msg_queue.items)

doings_cons :
    (d : Doing) (ds : List Doing) (l m n : BoostLog) (now later : List LogAction)
    → doing d l ≡ some (m, now)
    → doings ds m ≡ some (n, later)
    → doings (d ∷ ds) l ≡ some (n, now ++ later)
unfolding doings
doings_cons d ds l m n now later first rest = rw (first, doings) (rw (rest, doings) refl)

-- While the file is there and can be opened: the log goes on, and what is written to it and then what
-- is still queued are the messages that were queued and then those logged at a level that is wanted,
-- each once, with its time stamp, and in order.
pub doings-Logged : (ds : List Doing) (l : BoostLog) → All Works ds → IsOpen l → Logged ds l
doings-Logged [] l works good = record {
  written = [];
  queued = l.msg_queue.items;
  goes = record {
    log = l;
    actions = [];
    out_eq = unfold doings in refl;
    lines_eq = unfold lines in refl;
    items_eq = refl;
    level_eq = refl;
    good = good;
  };
  messages = unfold accepted in sym (append-nil l.msg_queue.items);
  number = unfold left_over in refl;
}
doings-Logged (d ∷ ds) l (now, later) good =
    let first = doing-Does d l now good in
    let g = first.goes in
    let rest = doings-Logged ds g.log later g.good in
    record {
      written = first.written ++ rest.written;
      queued = rest.queued;
      goes = record {
        log = rest.goes.log;
        actions = g.actions ++ rest.goes.actions;
        out_eq =
            doings_cons d ds l g.log rest.goes.log g.actions rest.goes.actions g.out_eq
              rest.goes.out_eq;
        lines_eq =
            lines-append g.actions rest.goes.actions
            ∙ ap (λ t. t ++ lines rest.goes.actions) g.lines_eq
            ∙ ap (λ t. first.written ++ t) rest.goes.lines_eq;
        items_eq = rest.goes.items_eq;
        level_eq = rest.goes.level_eq ∙ g.level_eq;
        good = rest.goes.good;
      };
      messages =
          append_assoc first.written rest.written rest.queued
          ∙ ap (λ t. first.written ++ t) rest.messages
          ∙ ap (λ t. first.written ++ (t ++ accepted g.log.log_level ds)) g.items_eq
          ∙ ap (λ level. first.written ++ (first.queued ++ accepted level ds)) g.level_eq
          ∙ first.messages ds;
      number =
          rest.number
          ∙ ap (λ items. left_over g.log.log_level ds (length items)) g.items_eq
          ∙ ap (λ level. left_over level ds (length first.queued)) g.level_eq
          ∙ first.number ds;
    }

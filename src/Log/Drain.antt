-- ===== src/Log/Drain.antt =====
-- The log's thread ends only when all messages are written.
use serialmux.Prelude.{
  ℕ, ◌≤◌, ◌≡◌, refl, ap, subst, sym, ◌∙◌, true, false, some, List, [], ◌∷◌, ◌++◌, All, length,
  arith,
}
use serialmux.Queue.{empty, is_empty}
use serialmux.Log.{BoostLog, LogAction, Round, drain, stop, log_round}
use serialmux.Log.Messages.{
  Doing, doings, lines, lines-append, accepted, left_over, HasSize, Works, IsOpen, GoesOn,
  round-GoesOn, doings-Logged,
}

empty-nil : (l : BoostLog) → l.msg_queue.items ≡ [] → empty l.msg_queue ≡ true
unfolding empty
empty-nil l e = ap is_empty e

empty-cons :
    (l : BoostLog) (msg : List ℕ) (rest : List (List ℕ))
    → l.msg_queue.items ≡ msg ∷ rest
    → empty l.msg_queue ≡ false
unfolding empty
empty-cons l msg rest e = ap is_empty e

-- A round meets a file that is there and can be opened.
abbrev pub WorksRound : Round → Type 0
WorksRound r = HasSize r.size × (r.opens ≡ true)

drain-empty :
    (r : Round) (rs : List Round) (l : BoostLog)
    → empty l.msg_queue ≡ true
    → drain (r ∷ rs) l ≡ some (l, [])
unfolding drain
drain-empty r rs l e = rw (e, drain) refl

drain_cons :
    (r : Round) (rs : List Round) (l m n : BoostLog) (now later : List LogAction)
    → empty l.msg_queue ≡ false
    → log_round r.size r.rotated r.opens l ≡ some (m, now)
    → drain rs m ≡ some (n, later)
    → drain (r ∷ rs) l ≡ some (n, now ++ later)
unfolding drain
drain_cons r rs l m n now later e first rest =
    rw (e, drain) (rw (first, drain) (rw (rest, drain) refl))

still : (l : BoostLog) → IsOpen l → l.msg_queue.items ≡ [] → GoesOn l (some (l, [])) [] []
unfolding lines
still l good e = record {
  log = l;
  actions = [];
  out_eq = refl;
  lines_eq = refl;
  items_eq = e;
  level_eq = refl;
  good = good;
}

drain-GoesOn :
    (rs : List Round) (l : BoostLog) (items : List (List ℕ))
    → l.msg_queue.items ≡ items
    → length items ≤ length rs
    → All WorksRound rs
    → IsOpen l
    → GoesOn l (drain rs l) items []
drain-GoesOn [] l [] e le works good = unfold drain in still l good e
drain-GoesOn [] l (msg ∷ rest) e le works good = absurd (omega arith)
drain-GoesOn (r ∷ rs) l [] e le works good =
    subst (λ out. GoesOn l out [] []) (sym (drain-empty r rs l (empty-nil l e))) (still l good e)
drain-GoesOn (r ∷ rs) l (msg ∷ rest) e le (now, later) good =
    let g = round-GoesOn r.size r.rotated r.opens l msg rest now.0 now.1 good e in
    let h = drain-GoesOn rs g.log rest g.items_eq (omega arith) later g.good in
    record {
      log = h.log;
      actions = g.actions ++ h.actions;
      out_eq =
          drain_cons r rs l g.log h.log g.actions h.actions (empty-cons l msg rest e) g.out_eq
            h.out_eq;
      lines_eq =
          lines-append g.actions h.actions
          ∙ ap (λ t. t ++ lines h.actions) g.lines_eq
          ∙ ap (λ t. msg ∷ t) h.lines_eq;
      items_eq = h.items_eq;
      level_eq = h.level_eq ∙ g.level_eq;
      good = h.good;
    }

-- Messages that are logged and rounds of the log's thread come in any order; then `stop` is called,
-- and no more is logged. If the file is there and can be opened, the log's stream, if it has one at
-- the start, could be, and the thread gets a round for each message that is left, then it ends
-- without an exception: what is written in all are the messages that were queued and those logged at
-- a level that is wanted, each once, with its time stamp, and in order, and nothing is left in the
-- queue.
pub drain-lines :
    (ds : List Doing) (rs : List Round) (l : BoostLog)
    → All Works ds
    → All WorksRound rs
    → IsOpen l
    → left_over l.log_level ds (length l.msg_queue.items) ≤ length rs
    → (m n : BoostLog) × (now last : List LogAction) × (doings ds l ≡ some (m, now))
      × (drain rs (stop m) ≡ some (n, last))
      × (lines now ++ lines last ≡ l.msg_queue.items ++ accepted l.log_level ds)
      × (n.msg_queue.items ≡ [])
unfolding stop
drain-lines ds rs l works ends good le =
    let logged = doings-Logged ds l works good in
    let g = logged.goes in
    let h =
      drain-GoesOn rs (stop g.log) logged.queued g.items_eq
        (subst (λ k. k ≤ length rs) (sym logged.number) le) ends g.good in
    (
      g.log,
      h.log,
      g.actions,
      h.actions,
      g.out_eq,
      h.out_eq,
      ap (λ t. t ++ lines h.actions) g.lines_eq
          ∙ ap (λ t. logged.written ++ t) h.lines_eq
          ∙ logged.messages,
      h.items_eq,
    )

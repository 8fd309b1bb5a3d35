-- ===== src/Picard/Reads.antt =====
-- The reads of the serial port, and what they make of the manager's packets.
use serialmux.Prelude.{
  ℕ, ◌<◌, ◌≤◌, ◌≡◌, ◌⊎◌, inl, inr, subst, flatten, take, arith, refl, ap, sym, ◌∙◌, some, List, [],
  ◌∷◌, ◌++◌, append_assoc, All, length,
}
use serialmux.Hdlc.Fcs.{AreBytes}
use serialmux.Hdlc.RoundTrip.{packets}
use serialmux.Picard.{BasePicardIo, Event, frames_complete, read_byte, read_bytes, start_parser}
use serialmux.Picard.Link.{read_bytes-packets}
use serialmux.Picard.Port.{
  ReadState, ReadResult, bytes_read, aborted, failed, start_read, handle_read, Handlers,
  run_handlers, read_wait, read_async,
}

-- A read: the handlers that run in it, and its buffer.
pub record Read : Type 0 where
  pub handlers : Handlers
  pub input : List ℕ

unfoldable pub serial_reads : List Read → BasePicardIo → BasePicardIo × List Event
serial_reads [] p = (p, [])
serial_reads (r ∷ rs) p =
    let (q, now) = read_async r.handlers (some r.input) p in
    let (s, later) = serial_reads rs q in (s, now ++ later)

-- The result of a read stands for these bytes of its buffer.
abbrev pub Leaves : ReadResult → List ℕ → List ℕ → Type 0
Leaves (bytes_read n) input bytes = take n input ≡ bytes
Leaves aborted input bytes = bytes ≡ []
Leaves failed input bytes = bytes ≡ []

-- A read in which its own handler runs, in one of the three places behind its start, or none: it
-- brings these bytes.
pub record Brings (r : Read) (bytes : List ℕ) : Type 0 where
  pub opening_eq : r.handlers.opening ≡ []
  pub own :
      ((r.handlers.early ++ r.handlers.waited ++ r.handlers.behind ≡ []) × (bytes ≡ []))
      ⊎ ((result : ReadResult) × (r.handlers.early ++ r.handlers.waited ++ r.handlers.behind
            ≡ result ∷ [])
          × Leaves result r.input bytes)

-- The reads bring these pieces, one each.
abbrev pub AllBring : List Read → List (List ℕ) → Type 0
AllBring [] [] = Unit
AllBring [] (bytes ∷ pieces) = ⊥
AllBring (r ∷ rs) [] = ⊥
AllBring (r ∷ rs) (bytes ∷ pieces) = Brings r bytes × AllBring rs pieces

read_bytes-append :
    (p : BasePicardIo) (xs ys : List ℕ)
    → read_bytes p (xs ++ ys) ≡ (
      (read_bytes (read_bytes p xs).0 ys).0,
      (read_bytes p xs).1 ++ (read_bytes (read_bytes p xs).0 ys).1,
    )
unfolding read_bytes
read_bytes-append p [] ys = refl
read_bytes-append p (x ∷ xs) ys = rw (read_bytes-append (read_byte p x).0 xs ys) (λ i. (
  (read_bytes (read_bytes (read_byte p x).0 xs).0 ys).0,
  sym
      (append_assoc (read_byte p x).1 (read_bytes (read_byte p x).0 xs).1
        (read_bytes (read_bytes (read_byte p x).0 xs).0 ys).1)
      i,
))

-- The length that a result leaves in `m_readLen`.
abbrev result_len : ReadResult → ℕ
result_len (bytes_read n) = n
result_len aborted = 0
result_len failed = 0

Leaves-take :
    (result : ReadResult) (input bytes : List ℕ)
    → Leaves result input bytes
    → take (result_len result) input ≡ bytes
Leaves-take (bytes_read n) input bytes h = h
Leaves-take aborted input bytes h = sym h
Leaves-take failed input bytes h = sym h

abbrev first_len : List ReadResult → ℕ
first_len [] = 0
first_len (result ∷ results) = result_len result

one_result :
    (result : ReadResult) (s : ReadState)
    → s.read_len ≡ 0
    → (handle_read result s).read_len ≡ result_len result
unfolding handle_read
one_result (bytes_read n) s e = refl
one_result aborted s e = e
one_result failed s e = e

-- If at most one handler runs in a read behind its start, its result is what the read has.
one_handler :
    (early waited behind : List ReadResult)
    → length (early ++ waited ++ behind) ≤ 1
    → (read_wait
        (record { opening = []; early = early; waited = waited; behind = behind })).0.read_len
      ≡ first_len (early ++ waited ++ behind)
unfolding read_wait start_read run_handlers handle_read
one_handler [] [] [] h = refl
one_handler [] [] (a ∷ []) h = one_result a start_read refl
one_handler [] [] (a ∷ b ∷ rest) h = absurd (omega arith)
one_handler [] (a ∷ []) [] h = one_result a start_read refl
one_handler [] (a ∷ []) (b ∷ rest) h = absurd (omega arith)
one_handler [] (a ∷ b ∷ rest) behind h = absurd (omega arith)
one_handler (bytes_read n ∷ []) [] [] h = refl
one_handler (aborted ∷ []) [] [] h = refl
one_handler (failed ∷ []) [] [] h = refl
one_handler (a ∷ []) [] (b ∷ rest) h = absurd (omega arith)
one_handler (a ∷ []) (b ∷ rest) behind h = absurd (omega arith)
one_handler (a ∷ b ∷ rest) waited behind h = absurd (omega arith)

-- In a read that brings some bytes, those go to the parser.
read_async-Brings :
    (r : Read) (bytes : List ℕ) (p : BasePicardIo)
    → Brings r bytes
    → read_async r.handlers (some r.input) p ≡ read_bytes p bytes
unfolding read_async
read_async-Brings r bytes p h = ap (read_bytes p) (
    ap (λ n. take n r.input) len ∙ elim h.own [
      | inl (none_ran, nothing) ↦ ap (λ xs. take (first_len xs) r.input) none_ran ∙ sym nothing
      | inr (result, one_ran, leaves) ↦
          ap (λ xs. take (first_len xs) r.input) one_ran ∙ Leaves-take result r.input bytes leaves
    ])
  where
    ran : List ReadResult
    ran = r.handlers.early ++ r.handlers.waited ++ r.handlers.behind

    few : length ran ≤ 1
    few = elim h.own [
      | inl (none_ran, nothing) ↦ subst (λ xs. length xs ≤ 1) (sym none_ran) (omega arith)
      | inr (result, one_ran, leaves) ↦ subst (λ xs. length xs ≤ 1) (sym one_ran) (omega arith)
    ]

    len : (read_wait r.handlers).0.read_len ≡ first_len ran
    len =
        ap (λ xs. (read_wait (record r.handlers { opening = xs })).0.read_len) h.opening_eq
        ∙ one_handler r.handlers.early r.handlers.waited r.handlers.behind few

serial_reads-read_bytes :
    (rs : List Read) (pieces : List (List ℕ)) (p : BasePicardIo)
    → AllBring rs pieces
    → serial_reads rs p ≡ read_bytes p (flatten pieces)
unfolding serial_reads
serial_reads-read_bytes [] [] p h = unfold read_bytes in refl
serial_reads-read_bytes [] (bytes ∷ pieces) p h = absurd h
serial_reads-read_bytes (r ∷ rs) [] p h = absurd h
serial_reads-read_bytes (r ∷ rs) (bytes ∷ pieces) p h = rw (read_async-Brings r bytes p h.0) (
    rw (serial_reads-read_bytes rs pieces (read_bytes p bytes).0 h.1)
      (sym (read_bytes-append p bytes (flatten pieces))))

-- However the HDLC packets of the manager's frames, byte strings that are not empty, are cut into
-- reads, with reads between them that bring nothing: a thread that has started its parser does what
-- the frames do, one after the other. In each read at most one handler runs, its own and not before
-- `m_readLen` is reset: no handler of an earlier read runs in a later one.
pub serial_reads-packets :
    (rs : List Read) (pieces : List (List ℕ)) (p : BasePicardIo) (srcs : List (List ℕ))
    → All (λ src. AreBytes src × (0 < length src)) srcs
    → AllBring rs pieces
    → flatten pieces ≡ packets srcs
    → (serial_reads rs (start_parser p)).1 ≡ (frames_complete p srcs).1
serial_reads-packets rs pieces p srcs h own e =
    ap (λ r. r.1) (serial_reads-read_bytes rs pieces (start_parser p) own)
    ∙ ap (λ bytes. (read_bytes (start_parser p) bytes).1) e
    ∙ read_bytes-packets p srcs h

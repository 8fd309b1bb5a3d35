-- ===== src/Picard/Overlap.antt =====
-- serial_mux/PicardBoost.cpp: `read_async` of the serial port and its completion handlers, which run
-- in another thread, at any time behind the end of their read. Each read has a buffer of its own,
-- which goes away when `read_async` returns.
use serialmux.Prelude.{
  ℕ, suc, ◌<◌, ◌≤◌, ◌≡◌, ◌≢◌, ◌⊎◌, ◌↔◌, refl, ap, sym, subst, ◌∙◌, inl, inr, true, false, List, [],
  ◌∷◌, ◌++◌, length, length-append, drop, get_or, arith,
}
use serialmux.Picard.Port.{ReadState, ReadResult, bytes_read, failed, aborted, handle_read}

-- Where `read_async` stands: outside, behind its reset of `m_readComplete`, behind that of
-- `m_readLen`, behind `async_read_some`, in its wait.
pub data Stand : Type 0 where
  between begun cleared issued waiting : Stand

-- The shared state, the number of the last read, the reads that the port has, by their numbers, and
-- the results whose handlers have yet to run.
pub record SerialPort : Type 0 where
  pub stand : Stand
  pub shared : ReadState
  pub count : ℕ
  pub pending : List ℕ
  pub ready : List ReadResult

-- `cancel`.
unfoldable pub cancelled : List ℕ → List ReadResult
cancelled [] = []
cancelled (k ∷ ks) = aborted ∷ cancelled ks

-- What one thread does next; `completes` is the port's, `handles` the handler's, under the lock.
pub data Step (s : SerialPort) : SerialPort → Type 0 where
  begins :
      s.stand ≡ between
      → Step s (record s {
        stand = begun;
        count = suc s.count;
        shared = record s.shared { read_complete = false };
      })
  clears :
      s.stand ≡ begun
      → Step s (record s { stand = cleared; shared = record s.shared { read_len = 0 } })
  issues : s.stand ≡ cleared → Step s (record s { stand = issued; pending = s.count ∷ s.pending })
  skips : s.stand ≡ issued → s.shared.read_complete ≡ true → Step s (record s { stand = between })
  waits : s.stand ≡ issued → s.shared.read_complete ≡ false → Step s (record s { stand = waiting })
  wakes :
      s.stand ≡ waiting
      → Step s (record s { stand = between; pending = []; ready = s.ready ++ cancelled s.pending })
  completes :
      (before after : List ℕ) (k : ℕ) (result : ReadResult)
      → s.pending ≡ before ++ k ∷ after
      → Step s (record s { pending = before ++ after; ready = s.ready ++ result ∷ [] })
  handles :
      (before after : List ReadResult) (result : ReadResult)
      → s.ready ≡ before ++ result ∷ after
      → Step s (record s { ready = before ++ after; shared = handle_read result s.shared })

pub data Steps (s : SerialPort) : SerialPort → Type 0 where
  here : Steps s s
  later : {t u : SerialPort} → Steps s t → Step t u → Steps s u

-- The port has a read whose buffer is gone: `read_async` has returned from it.
pub record Dangles (s : SerialPort) : Type 0 where
  pub before : List ℕ
  pub after : List ℕ
  pub read : ℕ
  pub has : s.pending ≡ before ++ read ∷ after
  pub gone : (s.stand ≡ between) ⊎ (read ≢ s.count)

-- What holds up to read `c` and in it, if no handler was late when it began.
IsOrderly : ℕ → Stand → SerialPort → Type 0
IsOrderly c between s = (s.pending ≡ []) × (c ≤ suc s.count) × (s.count < c → s.ready ≡ [])
IsOrderly c begun s =
    (s.pending ≡ []) × (s.count ≡ c) × (s.ready ≡ []) × (s.shared.read_complete ≡ false)
IsOrderly c cleared s =
    (s.pending ≡ []) × (s.count ≡ c) × (s.ready ≡ []) × (s.shared.read_complete ≡ false)
IsOrderly c issued s =
    (s.count ≡ c)
    × (((s.pending ≡ s.count ∷ []) × (s.ready ≡ []) × (s.shared.read_complete ≡ false))
        ⊎ (s.pending ≡ []))
IsOrderly c waiting s =
    (s.count ≡ c) × (((s.pending ≡ s.count ∷ []) × (s.ready ≡ [])) ⊎ (s.pending ≡ []))

no_element : {A : Type 0} (before after : List A) (x : A) → [] ≡ before ++ x ∷ after → ⊥
no_element before after x e = let n = ap length e ∙ length-append before (x ∷ after) in omega arith

only_element :
    {A : Type 0} (before after : List A) (x y : A)
    → y ∷ [] ≡ before ++ x ∷ after
    → (before ++ after ≡ [])
only_element [] after x y e = sym (ap (drop 1) e)
only_element (b ∷ before) after x y e = absurd (no_element before after x (ap (drop 1) e))

-- The port is done with a read, and a handler runs.
IsOrderly-completes :
    (c : ℕ) (p : Stand) (s : SerialPort) (before after : List ℕ) (k : ℕ) (result : ReadResult)
    → s.pending ≡ before ++ k ∷ after
    → IsOrderly c p s
    → IsOrderly c p (record s { pending = before ++ after; ready = s.ready ++ result ∷ [] })
unfolding IsOrderly
IsOrderly-completes c between s before after k result has h =
    absurd (no_element before after k (sym h.0 ∙ has))
IsOrderly-completes c begun s before after k result has h =
    absurd (no_element before after k (sym h.0 ∙ has))
IsOrderly-completes c cleared s before after k result has h =
    absurd (no_element before after k (sym h.0 ∙ has))
IsOrderly-completes c issued s before after k result has (now, inl one) =
    (now, inr (only_element before after k s.count (sym one.0 ∙ has)))
IsOrderly-completes c issued s before after k result has (now, inr none_pending) =
    absurd (no_element before after k (sym none_pending ∙ has))
IsOrderly-completes c waiting s before after k result has (now, inl one) =
    (now, inr (only_element before after k s.count (sym one.0 ∙ has)))
IsOrderly-completes c waiting s before after k result has (now, inr none_pending) =
    absurd (no_element before after k (sym none_pending ∙ has))

IsOrderly-handles :
    (c : ℕ) (p : Stand) (s : SerialPort) (before after : List ReadResult) (result : ReadResult)
    → s.ready ≡ before ++ result ∷ after
    → IsOrderly c p s
    → IsOrderly c p (record s { ready = before ++ after; shared = handle_read result s.shared })
unfolding IsOrderly
IsOrderly-handles c between s before after result has (none_pending, now, none_late) =
    (none_pending, now, λ lt. absurd (no_element before after result (sym (none_late lt) ∙ has)))
IsOrderly-handles c begun s before after result has (none_pending, now, none_ready, running) =
    absurd (no_element before after result (sym none_ready ∙ has))
IsOrderly-handles c cleared s before after result has (none_pending, now, none_ready, running) =
    absurd (no_element before after result (sym none_ready ∙ has))
IsOrderly-handles c issued s before after result has (now, inl (one, none_ready, running)) =
    absurd (no_element before after result (sym none_ready ∙ has))
IsOrderly-handles c issued s before after result has (now, inr none_pending) =
    (now, inr none_pending)
IsOrderly-handles c waiting s before after result has (now, inl (one, none_ready)) =
    absurd (no_element before after result (sym none_ready ∙ has))
IsOrderly-handles c waiting s before after result has (now, inr none_pending) =
    (now, inr none_pending)

IsOrderly-step :
    (c : ℕ) (s t : SerialPort)
    → t.count ≤ c
    → IsOrderly c s.stand s
    → Step s t
    → IsOrderly c t.stand t
unfolding IsOrderly
IsOrderly-step c s t le h (begins at) =
    let (none_pending, now, none_late) = subst (λ p. IsOrderly c p s) at h in
    (none_pending, omega arith, none_late (omega arith), refl)
IsOrderly-step c s t le h (clears at) = subst (λ p. IsOrderly c p s) at h
IsOrderly-step c s t le h (issues at) =
    let (none_pending, now, none_ready, running) = subst (λ p. IsOrderly c p s) at h in
    (now, inl (ap (λ ks. s.count ∷ ks) none_pending, none_ready, running))
IsOrderly-step c s t le h (skips at complete) =
    let (now, which) = subst (λ p. IsOrderly c p s) at h in
    elim which [
      | inl (one, none_ready, running) ↦ absurd (ground arith)
      | inr none_pending ↦ (none_pending, omega arith, λ lt. absurd (omega arith))
    ]
IsOrderly-step c s t le h (waits at running) =
    let (now, which) = subst (λ p. IsOrderly c p s) at h in
    elim which [
      | inl (one, none_ready, still) ↦ (now, inl (one, none_ready))
      | inr none_pending ↦ (now, inr none_pending)
    ]
IsOrderly-step c s t le h (wakes at) =
    let (now, rest) = subst (λ p. IsOrderly c p s) at h in
    (refl, omega arith, λ lt. absurd (omega arith))
IsOrderly-step c s t le h (completes before after k result has) =
    IsOrderly-completes c s.stand s before after k result has h
IsOrderly-step c s t le h (handles before after result has) =
    IsOrderly-handles c s.stand s before after result has h

count-grows : (s t : SerialPort) → Step s t → s.count ≤ t.count
count-grows s t (begins at) = omega arith
count-grows s t (clears at) = omega arith
count-grows s t (issues at) = omega arith
count-grows s t (skips at complete) = omega arith
count-grows s t (waits at running) = omega arith
count-grows s t (wakes at) = omega arith
count-grows s t (completes before after k result has) = omega arith
count-grows s t (handles before after result has) = omega arith

IsOrderly-Steps :
    (c : ℕ) (s t : SerialPort)
    → IsOrderly c s.stand s
    → Steps s t
    → t.count ≤ c
    → IsOrderly c t.stand t
IsOrderly-Steps c s t h here le = h
IsOrderly-Steps c s t h (later {t = u} before step) le =
    let grows = count-grows u t step in
    IsOrderly-step c u t le (IsOrderly-Steps c s u h before (omega arith)) step

-- The one read under way has its buffer.
sole : {A : Type 0} (before after : List A) (x y : A) → y ∷ [] ≡ before ++ x ∷ after → x ≡ y
sole [] after x y e = ap (λ ys. get_or ys 0 x) (sym e)
sole (b ∷ before) after x y e = absurd (no_element before after x (ap (drop 1) e))

no_other : (s : SerialPort) (d : Dangles s) → s.pending ≡ s.count ∷ [] → s.stand ≢ between → ⊥
no_other s d one inside = elim d.gone [
  | inl outside ↦ inside outside
  | inr other ↦ other (sole d.before d.after d.read s.count (sym one ∙ d.has))
]

-- An orderly port has only a read whose buffer is there.
IsOrderly-Dangles :
    (c : ℕ) (p : Stand) (s : SerialPort) → s.stand ≡ p → IsOrderly c p s → Dangles s → ⊥
unfolding IsOrderly
IsOrderly-Dangles c between s at h d = no_element d.before d.after d.read (sym h.0 ∙ d.has)
IsOrderly-Dangles c begun s at h d = no_element d.before d.after d.read (sym h.0 ∙ d.has)
IsOrderly-Dangles c cleared s at h d = no_element d.before d.after d.read (sym h.0 ∙ d.has)
IsOrderly-Dangles c issued s at (now, inl one) d = no_other s d one.0 (λ e. cc)
IsOrderly-Dangles c issued s at (now, inr none_pending) d =
    no_element d.before d.after d.read (sym none_pending ∙ d.has)
IsOrderly-Dangles c waiting s at (now, inl one) d = no_other s d one.0 (λ e. cc)
IsOrderly-Dangles c waiting s at (now, inr none_pending) d =
    no_element d.before d.after d.read (sym none_pending ∙ d.has)

completed :
    (result : ReadResult) (shared : ReadState) → (handle_read result shared).read_complete ≡ true
unfolding handle_read
completed (bytes_read n) shared = refl
completed aborted shared = refl
completed failed shared = refl

-- `read_async` begins and does not wait, since the handler of an earlier read runs first.
overtaken :
    (s : SerialPort) (result : ReadResult) (rest : List ReadResult)
    → s.stand ≡ between
    → s.ready ≡ result ∷ rest
    → (t : SerialPort) × Steps s t × (t.count ≤ suc s.count) × Dangles t
overtaken s result rest at late = (
  _,
  later
      (later (later (later (later here (begins at)) (clears refl)) (issues refl))
        (handles [] rest result late))
      (skips refl (completed result _)),
  omega arith,
  record { before = []; after = s.pending; read = suc s.count; has = refl; gone = inl refl },
)

-- The next `read_async` of a port without a read under way can leave a read behind whose buffer is
-- gone, exactly if a handler of an earlier read has yet to run when it begins. Nothing in the code
-- waits for the handler of a read that was cancelled.
pub reads_overlap :
    (s : SerialPort)
    → s.stand ≡ between
    → s.pending ≡ []
    → ((t : SerialPort) × Steps s t × (t.count ≤ suc s.count) × Dangles t) ↔ (s.ready ≢ [])
unfolding IsOrderly
reads_overlap s at none_pending = (never, runs s.ready refl)
  where
    never : ((t : SerialPort) × Steps s t × (t.count ≤ suc s.count) × Dangles t) → s.ready ≢ []
    never (t, steps, one, dangling) none_late =
        IsOrderly-Dangles (suc s.count) t.stand t refl
          (IsOrderly-Steps (suc s.count) s t
            (subst (λ p. IsOrderly (suc s.count) p s) (sym at)
              (none_pending, omega arith, λ lt. none_late))
            steps one)
          dangling

    runs :
        (ready : List ReadResult)
        → s.ready ≡ ready
        → s.ready ≢ []
        → (t : SerialPort) × Steps s t × (t.count ≤ suc s.count) × Dangles t
    runs [] e late = absurd (late e)
    runs (result ∷ rest) e late = overtaken s result rest at e

-- ===== src/Log/Rotation.antt =====
-- `rotateLogs` moves every file on by one place.
use serialmux.Prelude.{
  ℕ, zero, suc, ◌-◌, ◌≡◌, refl, ap, sym, ◌∙◌, false, Bool-cases, Option-cases, inl, inr, Option,
  none, some, leb, ◌==◌, arith, if◌then◌else◌, ==_self, ne→==, ==→eq,
}
use serialmux.Log.{Files, exists, rotate_one, rotate_logs}

module _ (files : Files) where
  open files use {Disk, Content, find, remove, rename, find-remove, find-rename}

  same_disk : {x y : Disk} → ◌≡◌ {A = Option Disk} (some x) (some y) → x ≡ y
  same_disk e = cc

  missing : (d : Disk) (i : ℕ) → exists files d i ≡ false → find d i ≡ none
  missing d i e = ground arith

  clear_step :
      (d c : Disk) (i k : ℕ)
      → (if exists files d (suc i) then remove d (suc i) else some d) ≡ some c
      → find c k ≡ (if k == suc i then none else find d k)
  clear_step d c i k e = elim (Bool-cases (exists files d (suc i))) [
    | inl there ↦ find-remove d c (suc i) k (rw there at e)
    | inr gone ↦ elim (Bool-cases (k == suc i)) [
      | inl same ↦ rw same (
          ap (λ x. find x k) (sym (same_disk (rw gone at e)))
          ∙ ap (find d) (==→eq k (suc i) same)
          ∙ missing d (suc i) gone)
      | inr other ↦ rw other (ap (λ x. find x k) (sym (same_disk (rw gone at e))))
    ]
  ]

  move_step :
      (c d' : Disk) (i k : ℕ)
      → find c (suc i) ≡ none
      → (if exists files c i then rename c i (suc i) else some c) ≡ some d'
      → find d' k ≡ (if k == suc i then find c i else if k == i then none else find c k)
  move_step c d' i k free e = elim (Bool-cases (exists files c i)) [
    | inl there ↦ find-rename c d' i (suc i) k (omega arith) (rw there at e)
    | inr gone ↦ ap (λ x. find x k) (sym (same_disk (rw gone at e))) ∙ still (missing c i gone)
  ]
    where
      still :
          find c i ≡ none
          → find c k ≡ (if k == suc i then find c i else if k == i then none else find c k)
      still none_here = elim (Bool-cases (k == suc i)) [
        | inl same ↦ rw same (ap (find c) (==→eq k (suc i) same) ∙ free ∙ sym none_here)
        | inr other ↦ rw other (elim (Bool-cases (k == i)) [
          | inl at_i ↦ rw at_i (ap (find c) (==→eq k i at_i) ∙ none_here)
          | inr off ↦ rw off refl
        ])
      ]

  rotate_one-find :
      (d d' : Disk) (i k : ℕ)
      → rotate_one files d i ≡ some d'
      → find d' k ≡ (if k == suc i then find d i else if k == i then none else find d k)
  unfolding rotate_one
  rotate_one-find d d' i k e =
      elim (Option-cases (if exists files d (suc i) then remove d (suc i) else some d)) [
        | inl failed ↦ absurd (none≢some (rw (failed, rotate_one) at e))
        | inr (c, cleared) ↦
            move_step c d' i k (clear_step d c i (suc i) cleared ∙ rw (==_self (suc i)) refl)
              (rw (cleared, rotate_one) at e)
            ∙ same c cleared
      ]
    where
      none≢some : {x : Disk} → ◌≡◌ {A = Option Disk} none (some x) → ⊥
      none≢some e = cc

      same :
          (c : Disk)
          → (if exists files d (suc i) then remove d (suc i) else some d) ≡ some c
          → (if k == suc i then find c i else if k == i then none else find c k)
            ≡ (if k == suc i then find d i else if k == i then none else find d k)
      same c cleared = elim (Bool-cases (k == suc i)) [
        | inl at_next ↦
            rw at_next (clear_step d c i i cleared ∙ rw (ne→== i (suc i) (λ e. omega arith)) refl)
        | inr other ↦ rw other (elim (Bool-cases (k == i)) [
          | inl at_i ↦ rw at_i refl
          | inr off ↦ rw off (clear_step d c i k cleared ∙ rw other refl)
        ])
      ]

  -- File `k` after a rotation of `n` backups.
  abbrev pub rotated : ℕ → Disk → ℕ → Option Content
  rotated n d k =
      if k == 0
      then (if n == 0 then find d 0 else none)
      else if leb k n
      then find d (k - 1)
      else find d k

  -- If `rotateLogs` does not fail: what was file `i` is backup `i + 1`, for each `i` below the number
  -- of backups; there is no log file any more, if there are backups at all; and files with higher
  -- numbers are as before.
  pub rotate_logs-find :
      (n : ℕ) (d d' : Disk) (k : ℕ) → rotate_logs files n d ≡ some d' → find d' k ≡ rotated n d k
  unfolding rotate_logs
  rotate_logs-find zero d d' k e = ap (λ x. find x k) (sym (same_disk e)) ∙ zero_case k
    where
      zero_case : (k : ℕ) → find d k ≡ rotated 0 d k
      zero_case zero = refl
      zero_case (suc k) = ground arith
  rotate_logs-find (suc n) d d' k e = elim (Option-cases (rotate_one files d n)) [
    | inl failed ↦ absurd (none≢some (rw (failed, rotate_logs) at e))
    | inr (c, moved) ↦ rotate_logs-find n c d' k (rw (moved, rotate_logs) at e) ∙ shifted c moved
  ]
    where
      none≢some : {x : Disk} → ◌≡◌ {A = Option Disk} none (some x) → ⊥
      none≢some e = cc

      shifted : (c : Disk) → rotate_one files d n ≡ some c → rotated n c k ≡ rotated (suc n) d k
      shifted c moved =
          let at_zero = rotate_one-find d c n 0 moved in
          let before = rotate_one-find d c n (k - 1) moved in
          let here = rotate_one-find d c n k moved in ground (arith, at_zero, before, here)

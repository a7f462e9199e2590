-- ===== src/Rfs/File/Seek.antt =====
-- `rfs_lseek` of kernel/rfs.c: where the offset may go.
use cabbage_pke.Common.{
  ℕ, suc, ◌+◌, ◌≤◌, ◌≡◌, refl, ◌⊎◌, inl, inr, true, false, ◌||◌, arith, ltb, ltb→le, le→ltb, lt→ltb,
  ◌==◌, if◌then◌else◌, Bool-cases,
}
use cabbage_pke.Common.Int.{ℤ, pos, negsuc, ◌+ℤ◌, ltb_ℤ, pos_part}
use cabbage_pke.Rfs.{Vinode}
use cabbage_pke.Rfs.File.{rfs_lseek}

-- The place that a seek asks for.
abbrev pub target : ℤ → ℕ → ℕ → ℤ
target new_offset whence offset =
    if whence == 0 then new_offset else if whence == 1 then pos offset +ℤ new_offset else negsuc 0

-- A place that the file has.
abbrev pub IsPlace : Vinode → ℤ → Type 0
IsPlace v (pos n) = n ≤ v.size
IsPlace v (negsuc n) = ⊥

-- What the two cases of the switch do with the place.
abbrev move : Vinode → ℤ → ℕ → ℤ × ℕ
move v z offset =
    if ltb_ℤ z (pos 0) || ltb_ℤ (pos v.size) z then (negsuc 0, offset) else (pos 0, pos_part z)

-- The seek to `z` gives `r`.
abbrev pub Sought : Vinode → ℤ → ℕ → ℤ × ℕ → Type 0
Sought v z offset r =
    (IsPlace v z × ((n : ℕ) × (z ≡ pos n) × (r ≡ (pos 0, n))))
    ⊎ ((IsPlace v z → ⊥) × (r ≡ (negsuc 0, offset)))

move-Sought : (v : Vinode) (z : ℤ) (offset : ℕ) → Sought v z offset (move v z offset)
move-Sought v (pos n) offset = elim (Bool-cases (ltb v.size n)) [
  | inl e ↦ inr ((λ h. ground arith), rw (le→ltb (n + 0) 0 (omega arith), above e))
  | inr e ↦ inl (ltb→le v.size n e, (n, refl, rw (le→ltb (n + 0) 0 (omega arith), within e)))
]
  where
    above : ltb v.size n ≡ true → ltb (v.size + 0) (n + 0) ≡ true
    above e = ground arith

    within : ltb v.size n ≡ false → ltb (v.size + 0) (n + 0) ≡ false
    within e = ground arith
move-Sought v (negsuc n) offset = inr ((λ h. h), rw (lt→ltb (0 + 0) (0 + suc n) (omega arith)))

-- A seek succeeds exactly for a place from 0 to the file size, and the offset is that place then;
-- otherwise, also for an unknown `whence`, it gives -1 and keeps the offset.
pub rfs_lseek-target :
    (v : Vinode) (new_offset : ℤ) (whence offset : ℕ)
    → Sought v (target new_offset whence offset) offset (rfs_lseek v new_offset whence offset)
unfolding rfs_lseek
rfs_lseek-target v new_offset whence offset = elim (Bool-cases (whence == 0)) [
  | inl e ↦ rw e (move-Sought v new_offset offset)
  | inr e ↦ elim (Bool-cases (whence == 1)) [
    | inl e' ↦ rw (e, e') (move-Sought v (pos offset +ℤ new_offset) offset)
    | inr e' ↦ rw (e, e') (inr ((λ h. h), refl))
  ]
]

-- ===== src/Rfs/Blocks.antt =====
-- The free map of kernel/rfs.c: which block an allocation gives, and what a release does.
pub mod Room
use cabbage_pke.Common.{
  ℕ, zero, suc, ◌+◌, ◌-◌, ◌≤◌, ◌<◌, ◌≡◌, ◌≢◌, refl, sym, inl, ◌⊎◌, inr, true, false, arith, Run, ok,
  panic, fault, out_of_fuel, ◌>>=◌, Returns, Ends, ltb, ◌==◌, if◌then◌else◌, Bool-cases, ==_iff,
  ==_refl, ne→==, le→ltb,
}
use cabbage_pke.Rfs.{Fs, alloc_from, rfs_alloc_block, rfs_free_block, blk_offset_free}

-- Block `b` of the data area is free in the map.
abbrev pub IsFree : Fs → ℕ → Type 0
IsFree fs b = fs.freemap b ≡ 0

-- `fs'` is `fs` with data block `b` taken, which was the first free one.
abbrev pub Taken : Fs → ℕ → Fs → Type 0
Taken fs b fs' =
    (b < fs.nblocks)
    × IsFree fs b
    × ((i : ℕ) → i < b → fs.freemap i ≢ 0)
    × (fs'.freemap b ≡ 1)
    × ((i : ℕ) → i ≢ b → fs'.freemap i ≡ fs.freemap i)
    × (fs'.dev ≡ fs.dev)
    × (fs'.nblocks ≡ fs.nblocks)

alloc_from-taken :
    (k block b : ℕ) (fs : Fs)
    → block ≤ b
    → b < block + k
    → IsFree fs b
    → ((i : ℕ) → block ≤ i → i < b → fs.freemap i ≢ 0)
    → alloc_from k block fs
      ≡ ok (blk_offset_free + b, record fs { freemap = λ i. if b == i then 1 else fs.freemap i })
unfolding alloc_from
alloc_from-taken zero block b fs low high free first = absurd (omega arith)
alloc_from-taken (suc k) block b fs low high free first = elim (Bool-cases (block == b)) [
  | inl e ↦ go ((==_iff block b).0 e)
  | inr e ↦ rw (
    ne→== (fs.freemap block) 0 (first block (omega arith) (ground arith)),
    alloc_from-taken k (block + 1) b fs (ground arith) (ground arith) free
        (λ i h. first i (omega arith)),
  )
]
  where
    go :
        block ≡ b
        → alloc_from (suc k) block fs
          ≡ ok
              (blk_offset_free + b, record fs { freemap = λ i. if b == i then 1 else fs.freemap i })
    go h = rw (h, free)

alloc_from-full :
    (k block : ℕ) (fs : Fs)
    → ((i : ℕ) → block ≤ i → i < block + k → fs.freemap i ≢ 0)
    → alloc_from k block fs ≡ panic
unfolding alloc_from
alloc_from-full zero block fs full = refl
alloc_from-full (suc k) block fs full = rw (
  ne→== (fs.freemap block) 0 (full block (omega arith) (omega arith)),
  alloc_from-full k (block + 1) fs (λ i low high. full i (omega arith) (omega arith)),
)

-- There is a first free block, or none.
first-IsFree :
    (k block : ℕ) (fs : Fs)
    → ((b : ℕ) × (block ≤ b)
        × (b < block + k)
        × IsFree fs b
        × ((i : ℕ) → block ≤ i → i < b → fs.freemap i ≢ 0))
      ⊎ ((i : ℕ) → block ≤ i → i < block + k → fs.freemap i ≢ 0)
first-IsFree zero block fs = inr (λ i low high. absurd (omega arith))
first-IsFree (suc k) block fs = elim (Bool-cases (fs.freemap block == 0)) [
  | inl e ↦ inl (
    block,
    omega arith,
    omega arith,
    (==_iff (fs.freemap block) 0).0 e,
    λ i low high. absurd (omega arith),
  )
  | inr e ↦ elim (first-IsFree k (block + 1) fs) [
    | inl (b, low, high, free, first) ↦
        inl (b, omega arith, omega arith, free, λ i h h'. here_or_later e i h (λ l. first i l h'))
    | inr full ↦ inr (λ i h h'. here_or_later e i h (λ l. full i l (omega arith)))
  ]
]
  where
    here_or_later :
        (fs.freemap block == 0) ≡ false
        → (i : ℕ) → block ≤ i
        → (block + 1 ≤ i → fs.freemap i ≢ 0)
        → fs.freemap i ≢ 0
    here_or_later e i h later = elim (Bool-cases (block == i)) [
      | inl same ↦ rw (sym ((==_iff block i).0 same)) (λ z. ground arith)
      | inr other ↦ later (ground arith)
    ]

-- What an allocation may do.
abbrev pub AllocOutcome : Fs → Run (ℕ × Fs) → Type 0
AllocOutcome fs (ok (n, fs')) = (b : ℕ) × (n ≡ blk_offset_free + b) × Taken fs b fs'
AllocOutcome fs panic = (i : ℕ) → i < fs.nblocks → fs.freemap i ≢ 0
AllocOutcome fs fault = ⊥
AllocOutcome fs out_of_fuel = ⊥

-- An allocation returns the number of the first block that the free map has as free, marks that
-- block and no other, and leaves the device alone; it panics only where every block is taken, and
-- ends in no other way.
pub rfs_alloc_block-AllocOutcome : (fs : Fs) → AllocOutcome fs (rfs_alloc_block fs)
unfolding rfs_alloc_block
rfs_alloc_block-AllocOutcome fs = elim (first-IsFree fs.nblocks 0 fs) [
  | inl (b, low, high, free, first) ↦ rw (alloc_from-taken fs.nblocks 0 b fs low high free first) (
    b,
    refl,
    (
      omega arith,
      free,
      (λ i h. first i (omega arith) h),
      rw (==_refl b),
      (λ i h. rw (ne→== b i (λ e. h (sym e)))),
      refl,
      refl,
    ),
  )
  | inr full ↦ rw (alloc_from-full fs.nblocks 0 fs full) (λ i h. full i (omega arith) (omega arith))
]

-- A block that is released after it was allocated is free again, the map is the map before the
-- allocation at every block, and neither operation fails.
pub alloc-free :
    (fs : Fs) (b : ℕ)
    → b < fs.nblocks
    → IsFree fs b
    → Returns
        (do (n, fs') ← rfs_alloc_block fs; rfs_free_block fs' n)
        (λ fs''. ((i : ℕ) → fs''.freemap i ≡ fs.freemap i) × (fs''.dev ≡ fs.dev))
unfolding rfs_alloc_block rfs_free_block
alloc-free fs b h free = elim (first-IsFree fs.nblocks 0 fs) [
  | inl (a, low, high, free', first) ↦ (
    record fs {
      freemap = λ i. if 12 + a - 12 == i then 0 else (if a == i then 1 else fs.freemap i);
    },
    rw (
      alloc_from-taken fs.nblocks 0 a fs low high free' first,
      ◌>>=◌,
      le→ltb (12 + a) 12 (omega arith),
    ),
    ((λ i. restored a free' i), refl),
  )
  | inr full ↦ absurd (full b (omega arith) (omega arith) free)
]
  where
    cancel : (a : ℕ) → 12 + a - 12 ≡ a
    cancel a = omega arith

    restored :
        (a : ℕ)
        → IsFree fs a
        → (i : ℕ)
        → (if 12 + a - 12 == i then 0 else (if a == i then 1 else fs.freemap i)) ≡ fs.freemap i
    restored a free' i = elim (Bool-cases (a == i)) [
      | inl e ↦ taken (sym ((==_iff a i).0 e))
      | inr e ↦ rw (e, ne→== (12 + a - 12) i (ground arith))
    ]
      where
        taken :
            i ≡ a
            → (if 12 + a - 12 == i then 0 else (if a == i then 1 else fs.freemap i)) ≡ fs.freemap i
        taken e = rw (e, cancel a, ==_refl a, free')

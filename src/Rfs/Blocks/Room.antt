-- ===== src/Rfs/Blocks/Room.antt =====
-- How many blocks the free map of kernel/rfs.c has left.
use cabbage_pke.Common.{
  ℕ, zero, suc, ◌+◌, ◌<◌, ◌≡◌, ◌≢◌, refl, inl, inr, arith, Run, ok, panic, fault, out_of_fuel, ap,
  ◌∙◌, Ends, ◌==◌, if◌then◌else◌, Bool-cases, ==_iff, ne→==,
}
use cabbage_pke.Rfs.{Fs, rfs_alloc_block, blk_offset_free}
use cabbage_pke.Rfs.Blocks.{AllocOutcome, Taken, rfs_alloc_block-AllocOutcome}

abbrev pub free_below : (ℕ → ℕ) → ℕ → ℕ
free_below f zero = 0
free_below f (suc n) = (if f n == 0 then 1 else 0) + free_below f n

abbrev pub free_count : Fs → ℕ
free_count fs = free_below fs.freemap fs.nblocks

free_below-none : (f : ℕ → ℕ) (n : ℕ) → ((i : ℕ) → i < n → f i ≢ 0) → free_below f n ≡ 0
free_below-none f zero h = refl
free_below-none f (suc n) h =
    rw (ne→== (f n) 0 (h n (omega arith)), free_below-none f n (λ i l. h i (omega arith)))

free_below-same :
    (f g : ℕ → ℕ) (n : ℕ) → ((i : ℕ) → i < n → f i ≡ g i) → free_below f n ≡ free_below g n
free_below-same f g zero h = refl
free_below-same f g (suc n) h =
    rw (h n (omega arith), free_below-same f g n (λ i l. h i (omega arith)))

free_below-taken :
    (f g : ℕ → ℕ) (n b : ℕ)
    → b < n
    → f b ≡ 0
    → g b ≡ 1
    → ((i : ℕ) → i ≢ b → g i ≡ f i)
    → suc (free_below g n) ≡ free_below f n
free_below-taken f g zero b h free taken same = elim h [ ]
free_below-taken f g (suc n) b h free taken same = elim (Bool-cases (n == b)) [
  | inl e ↦ here ((==_iff n b).0 e)
  | inr e ↦ later (same n (ground arith)) (free_below-taken f g n b (ground arith) free taken same)
]
  where
    close :
        g n ≡ 1
        → f n ≡ 0
        → free_below g n ≡ free_below f n
        → suc (free_below g (suc n)) ≡ free_below f (suc n)
    close a b c = rw (a, b, c) (omega arith)

    here : n ≡ b → suc (free_below g (suc n)) ≡ free_below f (suc n)
    here e =
        close (ap g e ∙ taken) (ap f e ∙ free)
          (free_below-same g f n (λ i l. same i (λ z. ground arith)))

    later :
        g n ≡ f n
        → suc (free_below g n) ≡ free_below f n
        → suc (free_below g (suc n)) ≡ free_below f (suc n)
    later a c = rw a (omega arith)

-- Block `b` was taken, and one block less is left.
abbrev pub RoomTaken : Fs → ℕ × Fs → Type 0
RoomTaken fs (n, fs') =
    (b : ℕ) × (n ≡ blk_offset_free + b) × Taken fs b fs' × (suc (free_count fs') ≡ free_count fs)

room_left :
    (fs : Fs) (r : Run (ℕ × Fs)) → 0 < free_count fs → AllocOutcome fs r → Ends r (RoomTaken fs)
room_left fs (ok (n, fs')) h (b, e, (inside, free, first, taken, same, dev, nblocks)) = (
  b,
  e,
  (inside, free, first, taken, same, dev, nblocks),
  rw nblocks (free_below-taken fs.freemap fs'.freemap fs.nblocks b inside free taken same),
)
room_left fs panic h full = ground (arith, free_below-none fs.freemap fs.nblocks full)
room_left fs fault h impossible = impossible
room_left fs out_of_fuel h impossible = impossible

-- Where a block is left, an allocation takes one.
pub alloc-RoomTaken : (fs : Fs) → 0 < free_count fs → Ends (rfs_alloc_block fs) (RoomTaken fs)
alloc-RoomTaken fs h = room_left fs (rfs_alloc_block fs) h (rfs_alloc_block-AllocOutcome fs)

-- ===== src/Rfs/File/Read/Strings.antt =====
-- The copy of the buffer of `rfs_read` (kernel/rfs.c) to the caller.
use cabbage_pke.Common.{
  ℕ, zero, suc, ◌+◌, ◌≤◌, ◌<◌, ◌≡◌, ◌≢◌, ◌∙◌, inl, inr, arith, ◌==◌, if◌then◌else◌, Bool-cases,
  ==_iff, ==_refl, ne→==,
}
use cabbage_pke.Rfs.{Block}
use cabbage_pke.Rfs.File.{copy_string}

pub copy_string-below : (k : ℕ) (r b : Block) (i j : ℕ) → j < i → copy_string k r b i j ≡ r j
unfolding copy_string
copy_string-below zero r b i j h = rw (ne→== i j (omega arith))
copy_string-below (suc k) r b i j h = elim (Bool-cases (b i == 0)) [
  | inl e ↦ rw (e, ne→== i j (omega arith))
  | inr e ↦ rw (
    e,
    copy_string-below k (λ q. if i == q then b i else r q) b (i + 1) j (omega arith),
    ne→== i j (omega arith),
  )
]

-- What the copy leaves: the bytes up to the first 0, and that 0.
pub copy_string-prefix :
    (k : ℕ) (r b : Block) (i j : ℕ)
    → i ≤ j
    → j ≤ i + k
    → ((m : ℕ) → i ≤ m → m < j → b m ≢ 0)
    → copy_string k r b i j ≡ b j
unfolding copy_string
copy_string-prefix zero r b i j low high full = same (omega arith)
  where
    same : i ≡ j → (if i == j then b i else r j) ≡ b j
    same e = rw (e, ==_refl j)
copy_string-prefix (suc k) r b i j low high full = elim (Bool-cases (b i == 0)) [
  | inl e ↦ rw e (same (ground (arith, full i (omega arith))))
  | inr e ↦ elim (Bool-cases (i == j)) [
    | inl e' ↦ rw e (copy_string-below k r' b (i + 1) j (ground arith) ∙ same ((==_iff i j).0 e'))
    | inr e' ↦ rw e (
        copy_string-prefix k r' b (i + 1) j (ground arith) (omega arith)
          (λ m l l'. full m (omega arith) l'))
  ]
]
  where
    r' : Block
    r' q = if i == q then b i else r q

    same : i ≡ j → r' j ≡ b j
    same e = rw (e, ==_refl j)

-- ===== src/ProcFile/Table.antt =====
-- The file descriptors of kernel/proc_file.c.
use cabbage_pke.Common.{
  ℕ, zero, suc, ◌+◌, ◌≤◌, ◌<◌, ◌≡◌, ◌≢◌, refl, ap, ◌∙◌, inl, inr, false, List, arith, ok, ◌>>=◌,
  Returns, ◌==◌, leb, Bool-cases, ==_iff, ==_refl, ne→==, lt→leb,
}
use cabbage_pke.Common.Int.{ℤ, pos, negsuc}
use cabbage_pke.Vfs.Objects.{fd_none, VinodeOps, World, set_file}
use cabbage_pke.Vfs.Files.{vfs_open}
use cabbage_pke.ProcFile.{
  max_files, ProcFiles, file_at, browse, get_opened_file, free_fd, entry_at, do_open,
}

-- A descriptor that no entry has.
abbrev pub IsOutside : ℤ → Type 0
IsOutside (pos n) = max_files ≤ n
IsOutside (negsuc n) = Unit

browse-found :
    (k i base n last : ℕ) → i ≤ n → n < i + k → browse k i base (pos n) last ≡ file_at base n
unfolding browse
browse-found zero i base n last low high = absurd (omega arith)
browse-found (suc k) i base n last low high = elim (Bool-cases (i == n)) [
  | inl e ↦ rw e (ap (file_at base) ((==_iff i n).0 e))
  | inr e ↦ rw e (browse-found k (i + 1) base n (file_at base i) (ground arith) (omega arith))
]

browse-outside :
    (k i base : ℕ) (fd : ℤ) (last : ℕ)
    → i + k < max_files
    → IsOutside fd
    → browse (suc k) i base fd last ≡ file_at base (i + k)
unfolding browse
browse-outside zero i base (pos n) last h out =
    rw (ne→== i n (λ e. omega arith)) (ap (file_at base) (omega arith))
browse-outside zero i base (negsuc n) last h out = ap (file_at base) (omega arith)
browse-outside (suc k) i base (pos n) last h out = rw (ne→== i n (λ e. omega arith)) (
    browse-outside k (i + 1) base (pos n) (file_at base i) (omega arith) out
    ∙ ap (file_at base) (omega arith))
browse-outside (suc k) i base (negsuc n) last h out =
    browse-outside k (i + 1) base (negsuc n) (file_at base i) (omega arith) out
    ∙ ap (file_at base) (omega arith)

-- A descriptor from 0 to 127 gives its own entry; any other one, negative ones included, gives the last entry.
pub get_opened_file-entry :
    (p : ProcFiles) (fd : ℤ)
    → ((n : ℕ) → n < max_files → get_opened_file p (pos n) ≡ file_at p.base n)
      × (IsOutside fd → get_opened_file p fd ≡ file_at p.base 127)
unfolding get_opened_file
get_opened_file-entry p fd = (
  (λ n h. browse-found 128 0 p.base n 0 (omega arith) (omega arith)),
  (λ out. browse-outside 127 0 p.base fd 0 (omega arith) out),
)

clash : (s : ℕ) → s ≡ fd_none → (s == fd_none) ≡ false → ⊥
clash s e h = ground arith

apart : (i j : ℕ) → i ≤ j → (i == j) ≡ false → i + 1 ≤ j
apart i j l h = ground arith

module _ {F : Type 0} (w : World F) (base : ℕ) where
  abbrev status_of : ℕ → ℕ
  status_of i = (w.files (file_at base i)).status

  later :
      (i j : ℕ)
      → (status_of i == fd_none) ≡ false
      → i ≤ j
      → (i + 1 ≤ j → status_of j ≢ fd_none)
      → status_of j ≢ fd_none
  later i j e l h = elim (Bool-cases (i == j)) [
    | inl same ↦ (λ z. clash (status_of i) (ap status_of ((==_iff i j).0 same) ∙ z) e)
    | inr other ↦ h (apart i j l other)
  ]

  -- The entry `n` is the first one from `i` on that is not in use, or none of the `k` is.
  free_fd-first :
      (k i : ℕ)
      → (i ≤ free_fd k i base w)
        × (free_fd k i base w ≤ i + k)
        × ((free_fd k i base w < i + k) → status_of (free_fd k i base w) ≡ fd_none)
        × ((j : ℕ) → i ≤ j → j < free_fd k i base w → status_of j ≢ fd_none)
  unfolding free_fd
  free_fd-first zero i =
      (omega arith, omega arith, (λ h. absurd (omega arith)), (λ j l l'. absurd (omega arith)))
  free_fd-first (suc k) i = elim (Bool-cases (status_of i == fd_none)) [
    | inl e ↦
        rw (free_fd, e)
          (
            omega arith,
            omega arith,
            (λ h. (==_iff (status_of i) fd_none).0 e),
            (λ j l l'. absurd (omega arith)),
          )
    | inr e ↦
        let (low, high, free, used) = free_fd-first k (i + 1) in
        rw (free_fd, e)
          (
            omega arith,
            omega arith,
            (λ h. free (omega arith)),
            (λ j l l'. later i j e l (λ m. used j m l')),
          )
  ]

-- The descriptor `n` was the first one that was not in use, it stands for the file `opened` from now on, and
-- no other entry changes.
abbrev pub Installed : {F : Type 0} → World F → ProcFiles → ℕ → ℤ × ProcFiles × World F → Type 0
Installed w₁ p opened (ret, p', w') =
    (n : ℕ) × (ret ≡ pos n)
    × (n < max_files)
    × ((w₁.files (file_at p.base n)).status ≡ fd_none)
    × ((j : ℕ) → j < n → (w₁.files (file_at p.base j)).status ≢ fd_none)
    × (w'.files (get_opened_file p' (pos n)) ≡ w₁.files opened)
    × ((j : ℕ) → j ≢ n → w'.files (file_at p.base j) ≡ w₁.files (file_at p.base j))
    × (p'.nfiles ≡ p.nfiles + 1)

module _ {F : Type 0} (ops : ℕ → VinodeOps F) where
  -- Where `vfs_open` gives a file, the process has opened fewer than 128, and an entry is not in use, `do_open`
  -- ends and gives the first descriptor that is not in use, which may be 0: `get_opened_file` finds the file of
  -- `vfs_open` under it, no other entry changes, and the number of opened files goes up by one.
  pub do_open-Installed :
      (w w₁ : World F) (p : ProcFiles) (path : List ℕ) (flags opened j : ℕ)
      → vfs_open ops w path flags p.cwd ≡ ok (opened, w₁)
      → opened ≢ 0
      → p.nfiles < max_files
      → j < max_files
      → (w₁.files (file_at p.base j)).status ≡ fd_none
      → Returns (do_open ops w p path flags) (Installed w₁ p opened)
  unfolding do_open
  do_open-Installed w w₁ p path flags opened j run there room inside unused = (
    (pos n, record p { nfiles = p.nfiles + 1 }, set_file w₁ (entry_at p.base n) (w₁.files opened)),
    rw (run, ◌>>=◌, ne→== opened 0 there, lt→leb max_files p.nfiles room) refl,
    (
      n,
      refl,
      inside_n,
      free inside_n,
      (λ i l. used i (omega arith) l),
      rw
          (
            place,
            (get_opened_file-entry (record p { nfiles = p.nfiles + 1 }) (pos n)).0 n inside_n,
            ==_refl (file_at p.base n),
          )
          refl,
      (λ i ne.
          rw (place, ne→== (file_at p.base n) (file_at p.base i) (λ e. ne (omega arith))) refl),
      refl,
    ),
  )
    where
      n : ℕ
      n = free_fd 128 0 p.base w₁

      first :
          (0 ≤ n)
          × (n ≤ 0 + 128)
          × ((n < 0 + 128) → status_of w₁ p.base n ≡ fd_none)
          × ((i : ℕ) → 0 ≤ i → i < n → status_of w₁ p.base i ≢ fd_none)
      first = free_fd-first w₁ p.base 128 0

      inside_n : n < max_files
      inside_n = elim (Bool-cases (leb n j)) [
        | inl e ↦ ground arith
        | inr e ↦ absurd (first.3 j (omega arith) (ground arith) unused)
      ]

      free : (n < 0 + 128) → status_of w₁ p.base n ≡ fd_none
      free = first.2

      used : (i : ℕ) → 0 ≤ i → i < n → status_of w₁ p.base i ≢ fd_none
      used = first.3

      place : entry_at p.base n ≡ file_at p.base n
      place = rw (ne→== n 128 (λ e. omega (arith, inside_n))) refl

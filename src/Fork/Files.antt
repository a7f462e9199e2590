-- ===== src/Fork/Files.antt =====
-- The open files that a child gets from its parent.
use cabbage_pke.Common.{
  ℕ, zero, suc, ◌+◌, ◌≤◌, ◌<◌, ◌≡◌, ◌≢◌, ◌⊎◌, inl, inr, refl, sym, ◌∙◌, ap, subst, true, arith,
  ◌==◌, if◌then◌else◌, Bool-cases, ==_refl, ne→==,
}
use cabbage_pke.Common.Int.{ℤ, pos, negsuc, ◌+ℤ◌}
use cabbage_pke.Vfs.Objects.{File, Dentry, World, put_at}
use cabbage_pke.ProcFile.{max_files, file_at}
use cabbage_pke.Fork.{count_up, copy_file, copy_files}

-- How many of the `k` entries from `i` on in the page `from` name a dentry.
abbrev pub uses : ℕ → ℕ → (ℕ → File) → ℕ → ℕ → ℕ
uses zero i files from d = 0
uses (suc k) i files from d =
    (if (files (file_at from i)).f_dentry == d then 1 else 0) + uses k (i + 1) files from d

abbrev pub used_by : ℕ → Dentry → Dentry
used_by n d = record d { d_ref = d.d_ref +ℤ pos n }

-- The pages of two processes do not overlap.
abbrev pub Apart : ℕ → ℕ → Type 0
Apart from to = (from + 4096 ≤ to) ⊎ (to + 4096 ≤ from)

add_assoc : (z : ℤ) (a b : ℕ) → z +ℤ pos a +ℤ pos b ≡ z +ℤ pos (a + b)
unfolding ◌+ℤ◌
add_assoc (pos n) a b = ground arith
add_assoc (negsuc n) a b = ground arith

add_zero : (z : ℤ) → z +ℤ pos 0 ≡ z
unfolding ◌+ℤ◌
add_zero (pos n) = ground arith
add_zero (negsuc n) = ground arith

used_by_zero : (x : Dentry) → used_by 0 x ≡ x
used_by_zero x = ap (λ z. record x { d_ref = z }) (add_zero x.d_ref)

used_by_add : (x : Dentry) (a b : ℕ) → used_by b (used_by a x) ≡ used_by (a + b) x
used_by_add x a b = ap (λ z. record x { d_ref = z }) (add_assoc x.d_ref a b)

file_at-differ :
    (from to i j : ℕ)
    → Apart from to
    → i < max_files
    → j < max_files
    → file_at to i ≢ file_at from j
file_at-differ from to i j apart hi hj e = ground arith

uses_same :
    (k i : ℕ) (files files' : ℕ → File) (from d : ℕ)
    → ((j : ℕ) → i ≤ j → j < i + k → files' (file_at from j) ≡ files (file_at from j))
    → uses k i files' from d ≡ uses k i files from d
uses_same zero i files files' from d same = refl
uses_same (suc k) i files files' from d same =
    rw
      (
        same i (omega arith) (omega arith),
        uses_same k (i + 1) files files' from d (λ j low high. same j (omega arith) (omega arith)),
      )
      refl

module _ {F : Type 0} where
  -- The `k` entries from `i` on are copied.
  abbrev pub Copied : ℕ → ℕ → World F → ℕ → ℕ → World F → Type 0
  Copied k i w from to w' =
      ((j : ℕ) → i ≤ j → j < i + k → w'.files (file_at to j) ≡ w.files (file_at from j))
      × ((a : ℕ) → ((j : ℕ) → i ≤ j → j < i + k → a ≢ file_at to j) → w'.files a ≡ w.files a)
      × ((d : ℕ) → d ≢ 0 → w'.dentries d ≡ used_by (uses k i w.files from d) (w.dentries d))
      × (w'.dentries 0 ≡ w.dentries 0)
      × (w'.inodes ≡ w.inodes)
      × (w'.env ≡ w.env)

  module _ (w : World F) (from to i : ℕ) where
    copy_file-files :
        (a : ℕ)
        → (copy_file w from to i).files a
          ≡ put_at w.files (file_at to i) (w.files (file_at from i)) a
    unfolding copy_file
    copy_file-files a = elim (Bool-cases ((w.files (file_at from i)).f_dentry == 0)) [
      | inl null ↦ rw null refl
      | inr there ↦ rw there refl
    ]

    copy_file-dentries :
        (d : ℕ)
        → d ≢ 0
        → (copy_file w from to i).dentries d
          ≡ used_by (if (w.files (file_at from i)).f_dentry == d then 1 else 0) (w.dentries d)
    unfolding copy_file
    copy_file-dentries d some_d = elim (Bool-cases (f == 0)) [
      | inl null ↦
          rw (null, ne→== f d (λ e. some_d (sym e ∙ zero_of null)))
            (sym (used_by_zero (w.dentries d)))
      | inr there ↦ elim (Bool-cases (f == d)) [
        | inl same ↦ rw (there, same) (ap (λ a. count_up (w.dentries a)) (equal_of same))
        | inr other ↦ rw (there, other) (sym (used_by_zero (w.dentries d)))
      ]
    ]
      where
        f : ℕ
        f = (w.files (file_at from i)).f_dentry

        zero_of : (f == 0) ≡ true → f ≡ 0
        zero_of e = ground arith

        equal_of : (f == d) ≡ true → f ≡ d
        equal_of e = ground arith

    copy_file-rest :
        ((copy_file w from to i).dentries 0 ≡ w.dentries 0)
        × ((copy_file w from to i).inodes ≡ w.inodes)
        × ((copy_file w from to i).env ≡ w.env)
    unfolding copy_file
    copy_file-rest = elim (Bool-cases ((w.files (file_at from i)).f_dentry == 0)) [
      | inl null ↦ rw null (refl, refl, refl)
      | inr there ↦ rw there (rw there refl, refl, refl)
    ]

  -- One entry is copied, and then the others.
  Copied-suc :
      (k i : ℕ) (w w' : World F) (from to : ℕ)
      → i + suc k ≤ max_files
      → Apart from to
      → Copied k (i + 1) (copy_file w from to i) from to w'
      → Copied (suc k) i w from to w'
  Copied-suc k i w w' from to fits apart rest = (
    (λ j low high. elim (Bool-cases (j == i)) [
      | inl here ↦
          subst (λ l. w'.files (file_at to l) ≡ w.files (file_at from l)) (here_at j here)
            (rest.1 (file_at to i) (λ l low high e. omega arith)
              ∙ copy_file-files w from to i (file_at to i)
              ∙ rw (==_refl (file_at to i)) refl)
      | inr later ↦ rest.0 j (ground arith) (omega arith) ∙ mine j (omega arith)
    ]),
    (λ a outside.
        rest.1 a (λ j low high. outside j (omega arith) (omega arith))
        ∙ copy_file-files w from to i a
        ∙ rw (ne→== (file_at to i) a (λ e. outside i (omega arith) (omega arith) (sym e))) refl),
    (λ d some_d.
        rest.2 d some_d
        ∙ rw (again d, copy_file-dentries w from to i d some_d)
            (used_by_add (w.dentries d) (if (w.files (file_at from i)).f_dentry == d then 1 else 0)
              (uses k (i + 1) w.files from d))),
    rest.3 ∙ (copy_file-rest w from to i).0,
    rest.4 ∙ (copy_file-rest w from to i).1,
    rest.5 ∙ (copy_file-rest w from to i).2,
  )
    where
      mine :
          (j : ℕ)
          → j < max_files
          → (copy_file w from to i).files (file_at from j) ≡ w.files (file_at from j)
      mine j h =
          copy_file-files w from to i (file_at from j)
          ∙ rw
              (ne→== (file_at to i) (file_at from j)
                (file_at-differ from to i j apart (omega arith) h))
              refl

      here_at : (j : ℕ) → (j == i) ≡ true → i ≡ j
      here_at j e = ground arith

      again :
          (d : ℕ)
          → uses k (i + 1) (copy_file w from to i).files from d ≡ uses k (i + 1) w.files from d
      again d =
          uses_same k (i + 1) w.files (copy_file w from to i).files from d
            (λ j low high. mine j (omega arith))

  -- The copy of the entries from `i` on to the page of the child, which does not overlap the parent's: every
  -- entry of the child is the parent's, no other entry changes, the count of each dentry goes up by the number
  -- of entries that name it, and the vinodes, the pool and the disk stay as they are.
  pub copy_files-Copied :
      (k i : ℕ) (w : World F) (from to : ℕ)
      → i + k ≤ max_files
      → Apart from to
      → Copied k i w from to (copy_files k i w from to)
  unfolding copy_files
  copy_files-Copied zero i w from to fits apart = (
    (λ j low high. absurd (omega arith)),
    (λ a outside. refl),
    (λ d some_d. sym (used_by_zero (w.dentries d))),
    refl,
    refl,
    refl,
  )
  copy_files-Copied (suc k) i w from to fits apart =
      Copied-suc k i w (copy_files (suc k) i w from to) from to fits apart
        (copy_files-Copied k (i + 1) (copy_file w from to i) from to (omega arith) apart)

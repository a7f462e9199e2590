-- ===== src/Vfs/Files/Modes.antt =====
-- What the open flags of kernel/vfs.c allow afterwards.
use cabbage_pke.Common.{
  ℕ, ◌%◌, ◌≡◌, ◌≢◌, refl, sym, ap, ◌∙◌, subst, inl, inr, ◌⊎◌, Bool, false, Option, none, some, List,
  not, arith, Run, ok, panic, ◌>>=◌, Yields, Yields-bind, Yields-then, Yields-ok, ◌==◌, Bool-cases,
  ==_refl,
}
use cabbage_pke.Common.Int.{ℤ, negsuc}
use cabbage_pke.Pmm.{alloc_page}
use cabbage_pke.Rfs.{Block}
use cabbage_pke.Vfs.Objects.{
  file_i, fd_opened, Dentry, Inode, File, Env, VinodeOps, World, alloc_vfs_file,
}
use cabbage_pke.Vfs.Paths.{Found, lookup_final_dentry}
use cabbage_pke.Vfs.Files.{
  file_mode, run_hook, open_missing, open_dentry, vfs_open, vfs_read, vfs_write,
}

-- A file that was just opened with the flags.
abbrev pub HasMode : ℕ → File → Type 0
HasMode flags f =
    (file_mode flags ≡ some (f.readable, f.writable)) × (f.offset ≡ 0) × (f.status ≡ fd_opened)

read_only : (flags : ℕ) (r w : Bool) → file_mode flags ≡ some (r, w) → flags % 4 ≡ 0 → w ≡ false
unfolding file_mode
read_only flags r w h e = ground arith

write_only : (flags : ℕ) (r w : Bool) → file_mode flags ≡ some (r, w) → flags % 4 ≡ 1 → r ≡ false
unfolding file_mode
write_only flags r w h e = ground arith

module _ {F : Type 0} (ops : ℕ → VinodeOps F) where
  -- NULL, or a file with the mode of the flags.
  abbrev pub OpenedAs : ℕ → ℕ × World F → Type 0
  OpenedAs flags (file, w) = (file ≡ 0) ⊎ HasMode flags (w.files file)

  run_hook-files :
      (hook : Option (Env F → Inode → Dentry → Run (ℤ × Inode × Env F))) (w : World F) (dentry : ℕ)
      → Yields (run_hook ops hook w dentry) (λ w'. w'.files ≡ w.files)
  unfolding run_hook
  run_hook-files none w dentry = refl
  run_hook-files (some hook) w dentry =
      Yields-bind (λ w'. w'.files ≡ w.files)
        (hook w.env (w.inodes (w.dentries dentry).inode) (w.dentries dentry)) _ (λ a. refl)

  abbrev opened_file : ℕ → Bool → Bool → File
  opened_file dentry r w = record {
    status = fd_opened;
    readable = r;
    writable = w;
    offset = 0;
    f_dentry = dentry;
  }

  alloc_vfs_file-files :
      (w : World F) (dentry : ℕ) (readable writable : Bool)
      → Yields
          (alloc_vfs_file w dentry readable writable 0)
          (λ (page, w'). w'.files page ≡ opened_file dentry readable writable)
  unfolding alloc_vfs_file
  alloc_vfs_file-files w dentry readable writable =
      Yields-bind (λ (page, w'). w'.files page ≡ opened_file dentry readable writable)
        (alloc_page w.env.pmm) _
        (λ (page, s). elim (Bool-cases (page == 0)) [
          | inl e ↦ rw e tt
          | inr e ↦ rw (e, ==_refl page) refl
        ])

  mode_step :
      (w : World F) (dentry flags : ℕ) (m : Option (Bool × Bool))
      → file_mode flags ≡ m
      → Yields
          (elim m [
            | none ↦ panic
            | some (readable, writable) ↦ do
              (file, w₁) ← alloc_vfs_file w dentry readable writable 0
              w₂ ←
                  run_hook ops
                    (ops (w.inodes (w.dentries dentry).inode).i_ops).viop_hook_open
                    w₁
                    dentry
              ok (file, w₂)
          ])
          (OpenedAs flags)
  mode_step w dentry flags none e = tt
  mode_step w dentry flags (some (readable, writable)) e =
      Yields-then (OpenedAs flags) (alloc_vfs_file w dentry readable writable 0) _
        (alloc_vfs_file-files w dentry readable writable)
        (λ (file, w₁) h.
          Yields-then (OpenedAs flags)
            (run_hook ops (ops (w.inodes (w.dentries dentry).inode).i_ops).viop_hook_open w₁ dentry)
            _
            (run_hook-files (ops (w.inodes (w.dentries dentry).inode).i_ops).viop_hook_open w₁
              dentry)
            (λ w₂ kept.
              inr (subst (λ f. HasMode flags f) (sym (ap (λ f. f file) kept ∙ h)) (e, refl, refl))))

  open_dentry-OpenedAs :
      (w : World F) (dentry flags : ℕ) → Yields (open_dentry ops w dentry flags) (OpenedAs flags)
  unfolding open_dentry
  open_dentry-OpenedAs w dentry flags =
      elim (Bool-cases ((w.inodes (w.dentries dentry).inode).node.type == file_i)) [
        | inl e ↦ rw (e, not) (mode_step w dentry flags (file_mode flags) refl)
        | inr e ↦ rw (e, not) (inl refl)
      ]

  open_made :
      (made : Option ℕ) (w : World F) (flags : ℕ)
      → Yields
          (elim made [ none ↦ ok (0, w) | some dentry ↦ open_dentry ops w dentry flags ])
          (OpenedAs flags)
  open_made none w flags = inl refl
  open_made (some dentry) w flags = open_dentry-OpenedAs w dentry flags

  open_found :
      (this : Option ℕ) (f : Found F) (path : List ℕ) (flags : ℕ)
      → Yields
          (elim this [
            | some dentry ↦ open_dentry ops f.world dentry flags
            | none ↦ do
              (made, w') ← open_missing ops f path flags
              elim made [ none ↦ ok (0, w') | some dentry ↦ open_dentry ops w' dentry flags ]
          ])
          (OpenedAs flags)
  open_found (some dentry) f path flags = open_dentry-OpenedAs f.world dentry flags
  open_found none f path flags =
      Yields-bind (OpenedAs flags) (open_missing ops f path flags) _
        (λ (made, w'). open_made made w' flags)

  vfs_open-OpenedAs :
      (w : World F) (path : List ℕ) (flags parent : ℕ)
      → Yields (vfs_open ops w path flags parent) (OpenedAs flags)
  unfolding vfs_open
  vfs_open-OpenedAs w path flags parent =
      Yields-bind (OpenedAs flags) (lookup_final_dentry ops w path parent) _
        (λ f. open_found f.this f path flags)

  -- Whatever the path and the disk, a file that `vfs_open` gives for flags that do not ask for writing is
  -- refused by `vfs_write`, and one for flags that do not ask for reading by `vfs_read`; both give -1 and
  -- leave everything.
  pub open-denied :
      (w w₁ : World F) (path : List ℕ) (flags parent file : ℕ) (buf : Block) (count : ℕ)
      → vfs_open ops w path flags parent ≡ ok (file, w₁)
      → file ≢ 0
      → ((flags % 4 ≡ 0) → vfs_write ops w₁ file buf count ≡ ok (negsuc 0, w₁))
        × ((flags % 4 ≡ 1) → vfs_read ops w₁ file buf count ≡ ok (negsuc 0, buf, w₁))
  unfolding vfs_read vfs_write file_mode
  open-denied w w₁ path flags parent file buf count run there = go (
      Yields-ok (OpenedAs flags) (vfs_open ops w path flags parent) (file, w₁) run
        (vfs_open-OpenedAs w path flags parent))
    where
      go :
          OpenedAs flags (file, w₁)
          → ((flags % 4 ≡ 0) → vfs_write ops w₁ file buf count ≡ ok (negsuc 0, w₁))
            × ((flags % 4 ≡ 1) → vfs_read ops w₁ file buf count ≡ ok (negsuc 0, buf, w₁))
      go (inl e) = absurd (there e)
      go (inr (mode, at, opened)) = (
        (λ e.
            rw (read_only flags (w₁.files file).readable (w₁.files file).writable mode e, not)
              refl),
        (λ e.
            rw (write_only flags (w₁.files file).readable (w₁.files file).writable mode e, not)
              refl),
      )

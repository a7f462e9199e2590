-- ===== src/Vfs/Files/Close.antt =====
-- Opening and closing a cached file of kernel/vfs.c.
use cabbage_pke.Common.{
  ℕ, suc, ◌≡◌, ◌≢◌, refl, sym, ap, subst, inl, inr, Bool, true, none, some, List, not, arith, ok,
  ◌>>=◌, Returns, ◌==◌, Bool-cases, ==_refl, ==_iff, ne→==,
}
use cabbage_pke.Common.Int.{pos, negsuc, ◌+ℤ◌}
use cabbage_pke.Pmm.{Pmm, alloc_page}
use cabbage_pke.Vfs.Objects.{
  file_i, fd_none, fd_opened, Dentry, File, VinodeOps, World, put_at, set_file, set_dentry,
  with_pmm, alloc_vfs_file,
}
use cabbage_pke.Vfs.Paths.{lookup_final_dentry}
use cabbage_pke.Vfs.Files.{
  file_mode, run_hook, open_dentry, vfs_open, vfs_close, is_file, inode_of, dentry_of,
}

abbrev pub opened_file : ℕ → Bool → Bool → File
opened_file dentry readable writable = record {
  status = fd_opened;
  readable = readable;
  writable = writable;
  offset = 0;
  f_dentry = dentry;
}

-- One more reference.
abbrev pub held : Dentry → Dentry
held d = record d { d_ref = d.d_ref +ℤ pos 1 }

put_at-other {ℓ} : {A : Type ℓ} (f : ℕ → A) (a b : ℕ) (v : A) → b ≢ a → put_at f a v b ≡ f b
put_at-other f a b v h = rw (ne→== a b (λ e. h (sym e))) refl

put_at_self {ℓ} : {A : Type ℓ} (f : ℕ → A) (a : ℕ) (v : A) → put_at f a v a ≡ v
put_at_self f a v = rw (==_refl a) refl

put_at-twice {ℓ} :
    {A : Type ℓ} (f : ℕ → A) (a : ℕ) (v v' : A)
    → v' ≡ f a
    → (b : ℕ) → put_at (put_at f a v) a v' b ≡ f b
put_at-twice f a v v' e b = elim (Bool-cases (a == b)) [
  | inl same ↦ rw (same, e) (ap f ((==_iff a b).0 same))
  | inr other ↦ rw other refl
]

up-down : (n : ℕ) → (pos (suc n) +ℤ pos 1) +ℤ negsuc 0 ≡ pos (suc n)
unfolding ◌+ℤ◌
up-down n = ground arith

module _ {F : Type 0} (ops : ℕ → VinodeOps F) where
  -- The state after a dentry `d` was opened in the page.
  abbrev pub opened : World F → ℕ → ℕ → Pmm → Bool → Bool → World F
  opened w d page s readable writable =
      set_file (set_dentry (with_pmm w s) d (held (w.dentries d))) page
        (opened_file d readable writable)

  alloc_vfs_file-opened :
      (w : World F) (d page : ℕ) (s : Pmm) (readable writable : Bool)
      → alloc_page w.env.pmm ≡ ok (page, s)
      → page ≢ 0
      → alloc_vfs_file w d readable writable 0 ≡ ok (page, opened w d page s readable writable)
  unfolding alloc_vfs_file
  alloc_vfs_file-opened w d page s readable writable taken there =
      rw (taken, ◌>>=◌, ne→== page 0 there) refl

  pub vfs_open-opened :
      (w : World F) (path : List ℕ) (flags parent d page : ℕ) (s : Pmm) (readable writable : Bool)
      → Returns (lookup_final_dentry ops w path parent) (λ f. (f.this ≡ some d) × (f.world ≡ w))
      → ((w.inodes (w.dentries d).inode).node.type == file_i) ≡ true
      → (ops (w.inodes (w.dentries d).inode).i_ops).viop_hook_open ≡ none
      → file_mode flags ≡ some (readable, writable)
      → alloc_page w.env.pmm ≡ ok (page, s)
      → page ≢ 0
      → vfs_open ops w path flags parent ≡ ok (page, opened w d page s readable writable)
  unfolding vfs_open open_dentry run_hook
  vfs_open-opened w path flags parent d page s readable writable (f, run, (this, same)) file hook
        mode taken there =
      rw
        (
          run,
          ◌>>=◌,
          this,
          mode,
          same,
          file,
          not,
          alloc_vfs_file-opened w d page s readable writable taken there,
          hook,
          run_hook,
        )
        refl

  -- A close that leaves references to the dentry.
  vfs_close-kept :
      (v : World F) (file n : ℕ)
      → is_file v file ≡ true
      → (ops (inode_of v file).i_ops).viop_hook_close ≡ none
      → (dentry_of v file).d_ref +ℤ negsuc 0 ≡ pos (suc n)
      → vfs_close ops v file
        ≡ ok (
          pos 0,
          set_file
              (set_dentry v
                (v.files file).f_dentry
                (record (dentry_of v file) { d_ref = pos (suc n) }))
              file
              (record (v.files file) { status = fd_none }),
        )
  unfolding vfs_close run_hook
  vfs_close-kept v file n plain hook left =
      rw (plain, not, hook, run_hook, ◌>>=◌, left)
        (ap
          (λ z. ok (
            pos 0,
            set_file
                (set_dentry v (v.files file).f_dentry (record (dentry_of v file) { d_ref = z }))
                file (record (v.files file) { status = fd_none }),
          ))
          left)

  -- A cached file that is open already, which the file system opens and closes without a hook of its own, is
  -- opened once more and closed: neither fails, the new file is marked as unused, and every dentry and every
  -- vinode is what it was, the count of references to the dentry included.
  pub vfs_open-close :
      (w : World F) (path : List ℕ) (flags parent d page n : ℕ) (s : Pmm) (readable writable : Bool)
      → Returns (lookup_final_dentry ops w path parent) (λ f. (f.this ≡ some d) × (f.world ≡ w))
      → ((w.inodes (w.dentries d).inode).node.type == file_i) ≡ true
      → (ops (w.inodes (w.dentries d).inode).i_ops).viop_hook_open ≡ none
      → (ops (w.inodes (w.dentries d).inode).i_ops).viop_hook_close ≡ none
      → file_mode flags ≡ some (readable, writable)
      → alloc_page w.env.pmm ≡ ok (page, s)
      → page ≢ 0
      → (w.dentries d).d_ref ≡ pos (suc n)
      → Returns
          (do (file, w₁) ← vfs_open ops w path flags parent; vfs_close ops w₁ file)
          (λ (ret, w').
            (ret ≡ pos 0)
            × ((w'.files page).status ≡ fd_none)
            × ((a : ℕ) → a ≢ page → w'.files a ≡ w.files a)
            × ((a : ℕ) → w'.dentries a ≡ w.dentries a)
            × (w'.inodes ≡ w.inodes)
            × (w'.dentry_table ≡ w.dentry_table)
            × (w'.vinode_table ≡ w.vinode_table))
  vfs_open-close w path flags parent d page n s readable writable found plain hook hook' mode taken
        there count =
      (
        (pos 0, w'),
        rw
            (
              vfs_open-opened w path flags parent d page s readable writable found plain hook mode
                  taken there,
              ◌>>=◌,
            )
            (vfs_close-kept w₁ page n
              (at (λ x. ((w.inodes (w₁.dentries x.f_dentry).inode).node.type == file_i) ≡ true)
                (rw (==_refl d) plain))
              (at
                (λ x. (ops (w.inodes (w₁.dentries x.f_dentry).inode).i_ops).viop_hook_close ≡ none)
                (rw (==_refl d) hook'))
              (at (λ x. (w₁.dentries x.f_dentry).d_ref +ℤ negsuc 0 ≡ pos (suc n))
                (rw (==_refl d, count) (up-down n)))),
        (
          refl,
          rw (==_refl page) refl,
          (λ a ne. rw (ne→== page a (λ e. ne (sym e))) refl),
          (λ a.
              at
                (λ x.
                  put_at w₁.dentries x.f_dentry
                    (record (w₁.dentries x.f_dentry) { d_ref = pos (suc n) }) a
                  ≡ w.dentries a)
                (put_at-twice w.dentries d (held (w.dentries d))
                  (record (w₁.dentries d) { d_ref = pos (suc n) })
                  (rw (==_refl d) (ap (λ z. record (w.dentries d) { d_ref = z }) (sym count))) a)),
          refl,
          refl,
          refl,
        ),
      )
    where
      w₁ : World F
      w₁ = opened w d page s readable writable

      at : (P : File → Type 0) → P (opened_file d readable writable) → P (w₁.files page)
      at P h = subst P (sym (put_at_self w.files page (opened_file d readable writable))) h

      w' : World F
      w' =
          set_file
            (set_dentry w₁ (w₁.files page).f_dentry
              (record (w₁.dentries (w₁.files page).f_dentry) { d_ref = pos (suc n) }))
            page (record (w₁.files page) { status = fd_none })

-- ===== src/Vfs/Objects.antt =====
-- The objects of kernel/vfs.c: dentries, vinodes and open files by the address of their page, the
-- operations that a file system gives for its vinodes (`struct vinode_ops` of kernel/vfs.h), and the
-- constructors and destructors of the objects.
use cabbage_pke.Common.{
  ℕ, ◌+◌, ◌-◌, ◌%◌, ◌^◌, Bool, true, Option, Run, ok, fault, ◌>>=◌, leb, ◌==◌, if◌then◌else◌,
  length,
}
use cabbage_pke.Common.Int.{ℤ, pos, negsuc, ltb_ℤ, ◌+ℤ◌}
use cabbage_pke.Pmm.{Pmm, alloc_page, free_page}
use cabbage_pke.HashTable.{HashTable}
use cabbage_pke.Rfs.{Block, Vinode}
use cabbage_pke.Rfs.File.{Istat}
use cabbage_pke.Rfs.Dir.{Name}
use cabbage_pke.Vfs.{
  DentryKey, VinodeKey, hash_get_dentry, hash_get_vinode, hash_put_dentry, hash_put_vinode,
  hash_erase_dentry, hash_erase_vinode,
}

abbrev pub max_path_len : ℕ
max_path_len = 30

abbrev pub max_dentry_name_len : ℕ
max_dentry_name_len = 30

abbrev pub file_i : ℕ
file_i = 0

abbrev pub dir_i : ℕ
dir_i = 1

abbrev pub fd_none : ℕ
fd_none = 0

abbrev pub fd_opened : ℕ
fd_opened = 1

-- `inode` and `parent` are addresses, and 0 is NULL.
pub record Dentry : Type 0 where
  pub name : Name
  pub d_ref : ℤ
  pub inode : ℕ
  pub parent : ℕ

-- `unnumbered` says that `inum` is negative, as it is for the vinodes of kernel/hostfs.c; `sb` and
-- `i_ops` are addresses.
pub record Inode : Type 0 where
  pub node : Vinode
  pub unnumbered : Bool
  pub sb : ℕ
  pub i_ops : ℕ

pub record File : Type 0 where
  pub status : ℕ
  pub readable : Bool
  pub writable : Bool
  pub offset : ℕ
  pub f_dentry : ℕ

-- What an operation of a file system works on: the pages, and the state that is its own.
pub record Env (F : Type 0) : Type 0 where
  pub pmm : Pmm
  pub fs : F

-- `struct dir`.
pub record DirEntry : Type 0 where
  pub name : Block
  pub inum : ℕ

-- The table behind `i_ops`. An operation gets vinodes and gives them back changed; a vinode that it makes
-- comes with the address of its page. Of a dentry it gets the name.
pub record VinodeOps (F : Type 0) : Type 0 where
  pub viop_read : Env F → Inode → Block → ℕ → ℕ → Run (ℤ × Block × ℕ × Env F)
  pub viop_write : Env F → Inode → Block → ℕ → ℕ → Run (ℤ × ℕ × Inode × Env F)
  pub viop_create : Env F → Inode → Name → Run (Option (ℕ × Inode) × Inode × Env F)
  pub viop_lseek : Inode → ℤ → ℕ → ℕ → ℤ × ℕ
  pub viop_disk_stat : Env F → Inode → Run (ℤ × Istat × Env F)
  pub viop_link : Env F → Inode → Name → Inode → Run (ℤ × Inode × Inode × Env F)
  pub viop_unlink : Env F → Inode → Name → Inode → Run (ℤ × Inode × Inode × Env F)
  pub viop_lookup : Env F → Inode → Name → Run (Option (ℕ × Inode) × Env F)
  pub viop_readdir : Env F → Inode → DirEntry → ℕ → Run (ℤ × DirEntry × ℕ × Env F)
  pub viop_mkdir : Env F → Inode → Name → Run (Option (ℕ × Inode) × Inode × Env F)
  pub viop_write_back_vinode : Env F → Inode → Run (ℤ × Env F)
  pub viop_hook_open : Option (Env F → Inode → Dentry → Run (ℤ × Inode × Env F))
  pub viop_hook_close : Option (Env F → Inode → Dentry → Run (ℤ × Inode × Env F))
  pub viop_hook_opendir : Option (Env F → Inode → Dentry → Run (ℤ × Inode × Env F))
  pub viop_hook_closedir : Option (Env F → Inode → Dentry → Run (ℤ × Inode × Env F))

-- The memory of the objects, the two caches, `vfs_root_dentry`, and the state of the file systems.
pub record World (F : Type 0) : Type 0 where
  pub env : Env F
  pub dentries : ℕ → Dentry
  pub inodes : ℕ → Inode
  pub files : ℕ → File
  pub dentry_table : HashTable DentryKey
  pub vinode_table : HashTable VinodeKey
  pub root : ℕ

abbrev pub put_at {ℓ} : {A : Type ℓ} → (ℕ → A) → ℕ → A → ℕ → A
put_at f a v b = if a == b then v else f b

-- `ref++` and `ref--` of an `int`.
abbrev pub ref_up : Inode → Inode
ref_up i = record i { node = record i.node { ref = (i.node.ref + 1) % 2 ^ 32 } }

abbrev pub ref_down : Inode → Inode
ref_down i = record i { node = record i.node { ref = (i.node.ref + 2 ^ 32 - 1) % 2 ^ 32 } }

abbrev pub dentry_key : Dentry → DentryKey
dentry_key d = record { parent = d.parent; name = d.name }

abbrev pub inode_key : Inode → VinodeKey
inode_key i = record { sb = i.sb; inum = i.node.inum }

module _ {F : Type 0} where
  abbrev pub with_pmm : World F → Pmm → World F
  with_pmm w s = record w { env = record w.env { pmm = s } }

  abbrev pub set_dentry : World F → ℕ → Dentry → World F
  set_dentry w a d = record w { dentries = put_at w.dentries a d }

  abbrev pub set_inode : World F → ℕ → Inode → World F
  set_inode w a i = record w { inodes = put_at w.inodes a i }

  abbrev pub set_file : World F → ℕ → File → World F
  set_file w a f = record w { files = put_at w.files a f }

  -- `inode->ref++` where there is an inode.
  abbrev pub hold_inode : World F → ℕ → World F
  hold_inode w a = if a == 0 then w else set_inode w a (ref_up (w.inodes a))

  -- `strcpy` into a name that does not hold the bytes is undefined.
  unfoldable pub alloc_vfs_dentry : World F → Name → ℕ → ℕ → Run (ℕ × World F)
  alloc_vfs_dentry w name inode parent = do
    (page, s) ← alloc_page w.env.pmm
    if (if page == 0 then true else leb max_dentry_name_len (length name))
        then fault
        else (let fresh : Dentry = record {
          name = name;
          d_ref = pos 0;
          inode = inode;
          parent = parent;
        } in
            ok (page, set_dentry (hold_inode (with_pmm w s) inode) page fresh))

  unfoldable pub free_vfs_dentry : World F → ℕ → Run (ℤ × World F)
  free_vfs_dentry w a =
      if ltb_ℤ (pos 0) (w.dentries a).d_ref
      then ok (negsuc 0, w)
      else do s ← free_page w.env.pmm a; ok (pos 0, with_pmm w s)

  -- The offset that is asked for is not used.
  unfoldable pub alloc_vfs_file : World F → ℕ → Bool → Bool → ℕ → Run (ℕ × World F)
  alloc_vfs_file w dentry readable writable offset = do
    (page, s) ← alloc_page w.env.pmm
    if page == 0
        then fault
        else (let file : File = record {
          status = fd_opened;
          readable = readable;
          writable = writable;
          offset = 0;
          f_dentry = dentry;
        } in
            let d = w.dentries dentry in
            let held = set_dentry (with_pmm w s) dentry (record d { d_ref = d.d_ref +ℤ pos 1 }) in
            ok (page, set_file held page file))

  -- The caches of Vfs on the memory of the objects.
  abbrev pub get_dentry : World F → ℕ → Name → Run ℕ
  get_dentry w parent name = hash_get_dentry w.dentry_table parent name

  unfoldable pub put_dentry : World F → ℕ → Run (World F)
  put_dentry w a = do
    (_, s, t) ← hash_put_dentry w.env.pmm w.dentry_table a (dentry_key (w.dentries a))
    ok (record (with_pmm w s) { dentry_table = t })

  unfoldable pub erase_dentry : World F → ℕ → Run (World F)
  erase_dentry w a = do
    (_, s, t) ← hash_erase_dentry w.env.pmm w.dentry_table (dentry_key (w.dentries a))
    ok (record (with_pmm w s) { dentry_table = t })

  -- The three tests `inum < 0`.
  unfoldable pub get_inode : World F → Inode → Run ℕ
  get_inode w i = if i.unnumbered then ok 0 else hash_get_vinode w.vinode_table i.sb i.node.inum

  unfoldable pub put_inode : World F → ℕ → Run (World F)
  put_inode w a = if (w.inodes a).unnumbered then ok w else do
    (_, s, t) ← hash_put_vinode w.env.pmm w.vinode_table a (inode_key (w.inodes a))
    ok (record (with_pmm w s) { vinode_table = t })

  unfoldable pub erase_inode : World F → ℕ → Run (World F)
  erase_inode w a = if (w.inodes a).unnumbered then ok w else do
    (_, s, t) ← hash_erase_vinode w.env.pmm w.vinode_table (inode_key (w.inodes a))
    ok (record (with_pmm w s) { vinode_table = t })

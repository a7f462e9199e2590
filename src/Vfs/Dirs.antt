-- ===== src/Vfs/Dirs.antt =====
-- Directories and mounts of kernel/vfs.c: `vfs_opendir`, `vfs_readdir`, `vfs_mkdir`, `vfs_closedir`,
-- `vfs_mount` and `vfs_init`.
use cabbage_pke.Common.{
  ℕ, zero, suc, ◌+◌, Bool, true, false, Option, none, some, List, not, Run, ok, panic, fault, ◌>>=◌,
  ◌==◌, leb, length, if◌then◌else◌,
}
use cabbage_pke.Common.Int.{ℤ, pos, negsuc, ◌+ℤ◌}
use cabbage_pke.Pmm.{free_page}
use cabbage_pke.HashTable.{HashTable, hash_table_init}
use cabbage_pke.Rfs.Dir.{Name}
use cabbage_pke.Vfs.{
  DentryKey, VinodeKey, same_bytes, dentry_hash_equal, dentry_hash_func, vinode_hash_equal,
  vinode_hash_func,
}
use cabbage_pke.Vfs.Objects.{
  max_dentry_name_len, dir_i, fd_none, DirEntry, VinodeOps, World, with_pmm, set_dentry, set_inode,
  set_file, alloc_vfs_dentry, alloc_vfs_file, put_dentry, put_inode,
}
use cabbage_pke.Vfs.Paths.{lookup_final_dentry, get_base_name}
use cabbage_pke.Vfs.Files.{misses_base, inode_of, run_hook, enter}

abbrev pub is_dir : {F : Type 0} → World F → ℕ → Bool
is_dir w dentry = (w.inodes (w.dentries dentry).inode).node.type == dir_i

module _ {F : Type 0} (ops : ℕ → VinodeOps F) where
  unfoldable pub open_directory : World F → ℕ → Run (ℕ × World F)
  open_directory w dentry = if not (is_dir w dentry) then ok (0, w) else do
    let inode = w.inodes (w.dentries dentry).inode
    (file, w₁) ← alloc_vfs_file w dentry true false 0
    w₂ ← run_hook ops (ops inode.i_ops).viop_hook_opendir w₁ dentry
    ok (file, w₂)

  unfoldable pub vfs_opendir : World F → List ℕ → ℕ → Run (ℕ × World F)
  vfs_opendir w path parent = do
    f ← lookup_final_dentry ops w path parent
    elim f.this [ none ↦ ok (0, f.world) | some dentry ↦ open_directory f.world dentry ]

  unfoldable pub vfs_readdir : World F → ℕ → DirEntry → Run (ℤ × DirEntry × World F)
  vfs_readdir w file dir =
      if not (is_dir w (w.files file).f_dentry) then ok (negsuc 0, dir, w) else do
        let inode = inode_of w file
        (ret, dir', offset, env) ←
            (ops inode.i_ops).viop_readdir w.env inode dir (w.files file).offset
        ok (
          ret,
          dir',
          record (set_file w file (record (w.files file) { offset = offset })) { env = env },
        )

  unfoldable pub make_directory : World F → ℕ → Name → Run (ℤ × World F)
  make_directory w parent base = do
    (dentry, w₁) ← alloc_vfs_dentry w base 0 parent
    let dir = (w₁.dentries parent).inode
    (made, directory, env) ← (ops (w₁.inodes dir).i_ops).viop_mkdir w₁.env (w₁.inodes dir) base
    let w₂ : World F = record (set_inode w₁ dir directory) { env = env }
    elim made [
      | none ↦ do s ← free_page env.pmm dentry; ok (negsuc 0, with_pmm w₂ s)
      | some (a, new) ↦ do w₃ ← enter ops w₂ dentry a new; ok (pos 0, w₃)
    ]

  unfoldable pub vfs_mkdir : World F → List ℕ → ℕ → Run (ℤ × World F)
  vfs_mkdir w path parent = do
    f ← lookup_final_dentry ops w path parent
    elim f.this [
      | some _ ↦ ok (negsuc 0, f.world)
      | none ↦ do
        base ← get_base_name path
        misses ← misses_base f.miss_name base
        if misses then ok (negsuc 0, f.world) else make_directory f.world f.parent base
    ]

  unfoldable pub vfs_closedir : World F → ℕ → Run (ℤ × World F)
  vfs_closedir w file =
      let dentry = (w.files file).f_dentry in
      if not (is_dir w dentry) then ok (negsuc 0, w) else do
        let d = w.dentries dentry
        let w₁ = set_dentry w dentry (record d { d_ref = d.d_ref +ℤ negsuc 0 })
        let w₂ = set_file w₁ file (record (w.files file) { status = fd_none })
        w₃ ← run_hook ops (ops (w₂.inodes d.inode).i_ops).viop_hook_closedir w₂ dentry
        ok (pos 0, w₃)

abbrev pub max_vfs_dev : ℕ
max_vfs_dev = 10

abbrev pub max_mounts : ℕ
max_mounts = 10

abbrev pub mount_default : ℕ
mount_default = 0

abbrev pub mount_as_root : ℕ
mount_as_root = 1

-- A device with the `get_superblock` of its file system, which gives the super block and the root dentry.
pub record Device (F : Type 0) : Type 0 where
  pub dev_name : Name
  pub get_superblock : World F → Run (ℕ × ℕ × World F)

-- The first free place of `vfs_sb_list` from `i` on.
unfoldable pub free_mount : ℕ → ℕ → (ℕ → ℕ) → Option ℕ
free_mount zero i sbs = none
free_mount (suc k) i sbs = elim (sbs i == 0) [ true ↦ some i | false ↦ free_mount k (i + 1) sbs ]

module _ {F : Type 0} where
  -- The loop over `vfs_dev_list`: without a device of the name, the last entry is what it gives.
  unfoldable pub find_device :
      ℕ → ℕ → (ℕ → Option (Device F)) → Name → Option (Device F) → Option (Device F)
  find_device zero i devs name last = last
  find_device (suc k) i devs name last = elim (devs i) [
    | none ↦ find_device k (i + 1) devs name none
    | some d ↦ elim (same_bytes d.dev_name name) [
      | true ↦ some d
      | false ↦ find_device k (i + 1) devs name (some d)
    ]
  ]

  -- The root dentry of the device goes to its place.
  unfoldable pub place_root : World F → Device F → ℕ → ℕ → Run (World F)
  place_root w device s_root mnt_type =
      if mnt_type == mount_as_root
      then put_dentry (record w { root = s_root }) s_root
      else if mnt_type == mount_default
      then if w.root == 0
        then panic
        else if leb max_dentry_name_len (length device.dev_name)
        then fault
        else put_dentry
            (set_dentry w s_root
              (record (w.dentries s_root) { name = device.dev_name; parent = w.root }))
            s_root
      else panic

  -- The super block, `vfs_sb_list`, and the state.
  unfoldable pub vfs_mount :
      World F → (ℕ → Option (Device F)) → (ℕ → ℕ) → Name → ℕ → Run (ℕ × (ℕ → ℕ) × World F)
  vfs_mount w devs sbs dev_name mnt_type = elim (find_device max_vfs_dev 0 devs dev_name none) [
    | none ↦ panic
    | some device ↦ do
      (sb, s_root, w₁) ← device.get_superblock w
      w₂ ← put_inode w₁ (w₁.dentries s_root).inode
      elim (free_mount max_mounts 0 sbs) [
        | none ↦ panic
        | some i ↦ do
          w₃ ← place_root w₂ device s_root mnt_type
          ok (sb, (λ j. if i == j then sb else sbs j), w₃)
      ]
  ]

-- `same` and `same'` are the equality of pointers, which is not used.
unfoldable pub vfs_init :
    (DentryKey → DentryKey → Bool)
    → (VinodeKey → VinodeKey → Bool)
    → HashTable DentryKey
    → HashTable VinodeKey
    → ℤ × HashTable DentryKey × HashTable VinodeKey
vfs_init same same' t u =
    let (ret, t') = hash_table_init same (some dentry_hash_equal) (some dentry_hash_func) t in
    let (ret', u') = hash_table_init same' (some vinode_hash_equal) (some vinode_hash_func) u in
    elim ret [ pos zero ↦ (ret', t', u') | failed ↦ (failed, t', u) ]

-- ===== src/Vfs/Files.antt =====
-- Open files of kernel/vfs.c: `vfs_open`, `vfs_read`, `vfs_write`, `vfs_lseek`, `vfs_stat`,
-- `vfs_disk_stat` and `vfs_close`. The address 0 is NULL.
pub mod Modes
pub mod Close
use cabbage_pke.Common.{
  ℕ, ◌+◌, ◌/◌, ◌%◌, Bool, true, false, Option, none, some, List, zero, not, Run, ok, panic, fault,
  ◌>>=◌, ◌==◌, if◌then◌else◌,
}
use cabbage_pke.Common.Int.{ℤ, pos, negsuc, ◌+ℤ◌}
use cabbage_pke.Pmm.{free_page}
use cabbage_pke.Rfs.{Block}
use cabbage_pke.Rfs.File.{Istat}
use cabbage_pke.Rfs.Dir.{Name}
use cabbage_pke.Vfs.{same_bytes}
use cabbage_pke.Vfs.Objects.{
  file_i, fd_none, Dentry, Inode, File, Env, VinodeOps, World, ref_up, ref_down, with_pmm,
  set_dentry, set_inode, set_file, alloc_vfs_dentry, free_vfs_dentry, alloc_vfs_file, put_dentry,
  erase_dentry, put_inode, erase_inode,
}
use cabbage_pke.Vfs.Paths.{Found, lookup_final_dentry, get_base_name}

-- `flags & O_CREAT`.
abbrev pub creatable : ℕ → Bool
creatable flags = flags / 64 % 2 == 1

-- The switch over `flags & MASK_FILEMODE`: readable and writable.
unfoldable pub file_mode : ℕ → Option (Bool × Bool)
file_mode flags =
    if flags % 4 == 0
    then some (true, false)
    else if flags % 4 == 1
    then some (false, true)
    else if flags % 4 == 2
    then some (true, true)
    else none

-- `strcmp(miss_name, basename) != 0`; a `miss_name` that was not written is undefined.
abbrev pub misses_base : Option Name → Name → Run Bool
misses_base none base = fault
misses_base (some miss) base = ok (not (same_bytes miss base))

-- A file, and what it refers to.
module _ {F : Type 0} where
  abbrev pub dentry_of : World F → ℕ → Dentry
  dentry_of w file = w.dentries (w.files file).f_dentry

  abbrev pub inode_of : World F → ℕ → Inode
  inode_of w file = w.inodes (dentry_of w file).inode

  abbrev pub is_file : World F → ℕ → Bool
  is_file w file = (inode_of w file).node.type == file_i

module _ {F : Type 0} (ops : ℕ → VinodeOps F) where
  -- A hook that the table may lack; what it returns only makes a message.
  unfoldable pub run_hook :
      Option (Env F → Inode → Dentry → Run (ℤ × Inode × Env F)) → World F → ℕ → Run (World F)
  run_hook none w dentry = ok w
  run_hook (some hook) w dentry = do
    let d = w.dentries dentry
    (_, inode, env) ← hook w.env (w.inodes d.inode) d
    ok (record (set_inode w d.inode inode) { env = env })

  -- A new vinode `a` for a new dentry: both go into the caches.
  unfoldable pub enter : World F → ℕ → ℕ → Inode → Run (World F)
  enter w dentry a inode = do
    let w₁ = set_dentry w dentry (record (w.dentries dentry) { inode = a })
    w₂ ← put_dentry (set_inode w₁ a (ref_up inode)) dentry
    put_inode w₂ a

  -- The file is created in the directory where the lookup ended.
  unfoldable pub create_file : World F → Name → ℕ → Run (ℕ × World F)
  create_file w base parent = do
    (dentry, w₁) ← alloc_vfs_dentry w base 0 parent
    let dir = (w₁.dentries parent).inode
    (made, inode, env) ← (ops (w₁.inodes dir).i_ops).viop_create w₁.env (w₁.inodes dir) base
    let w₂ : World F = record (set_inode w₁ dir inode) { env = env }
    elim made [ none ↦ panic | some (a, new) ↦ do w₃ ← enter w₂ dentry a new; ok (dentry, w₃) ]

  -- `none` where the file is not there and cannot be created.
  unfoldable pub open_missing : Found F → List ℕ → ℕ → Run (Option ℕ × World F)
  open_missing f path flags = if not (creatable flags) then ok (none, f.world) else do
    base ← get_base_name path
    misses ← misses_base f.miss_name base
    if misses
        then ok (none, f.world)
        else do (dentry, w) ← create_file f.world base f.parent; ok (some dentry, w)

  -- From the test of the type on.
  unfoldable pub open_dentry : World F → ℕ → ℕ → Run (ℕ × World F)
  open_dentry w dentry flags =
      let inode = w.inodes (w.dentries dentry).inode in
      if not (inode.node.type == file_i) then ok (0, w) else elim (file_mode flags) [
        | none ↦ panic
        | some (readable, writable) ↦ do
          (file, w₁) ← alloc_vfs_file w dentry readable writable 0
          w₂ ← run_hook (ops inode.i_ops).viop_hook_open w₁ dentry
          ok (file, w₂)
      ]

  unfoldable pub vfs_open : World F → List ℕ → ℕ → ℕ → Run (ℕ × World F)
  vfs_open w path flags parent = do
    f ← lookup_final_dentry ops w path parent
    elim f.this [
      | some dentry ↦ open_dentry f.world dentry flags
      | none ↦ do
        (made, w') ← open_missing f path flags
        elim made [ none ↦ ok (0, w') | some dentry ↦ open_dentry w' dentry flags ]
    ]

  -- The result, what `buf` holds then, and the state.
  unfoldable pub vfs_read : World F → ℕ → Block → ℕ → Run (ℤ × Block × World F)
  vfs_read w file buf count =
      if not (w.files file).readable
      then ok (negsuc 0, buf, w)
      else if not (is_file w file)
      then ok (negsuc 0, buf, w)
      else do
        let inode = inode_of w file
        (n, buf', offset, env) ←
            (ops inode.i_ops).viop_read w.env inode buf count (w.files file).offset
        ok (
          n,
          buf',
          record (set_file w file (record (w.files file) { offset = offset })) { env = env },
        )

  unfoldable pub vfs_write : World F → ℕ → Block → ℕ → Run (ℤ × World F)
  vfs_write w file buf count =
      if not (w.files file).writable
      then ok (negsuc 0, w)
      else if not (is_file w file)
      then ok (negsuc 0, w)
      else do
        let inode = inode_of w file
        (n, offset, inode', env) ←
            (ops inode.i_ops).viop_write w.env inode buf count (w.files file).offset
        let moved = set_file w file (record (w.files file) { offset = offset })
        ok (n, record (set_inode moved (dentry_of w file).inode inode') { env = env })

  unfoldable pub vfs_lseek : World F → ℕ → ℤ → ℕ → Run (ℤ × World F)
  vfs_lseek w file offset whence =
      if not (is_file w file)
      then ok (negsuc 0, w)
      else let inode = inode_of w file in
        let (ret, at) = (ops inode.i_ops).viop_lseek inode offset whence (w.files file).offset in
        let moved = set_file w file (record (w.files file) { offset = at }) in
        elim ret [ pos zero ↦ ok (pos at, moved) | _ ↦ ok (negsuc 0, moved) ]

  unfoldable pub vfs_disk_stat : World F → ℕ → Run (ℤ × Istat × World F)
  vfs_disk_stat w file = do
    let inode = inode_of w file
    (ret, istat, env) ← (ops inode.i_ops).viop_disk_stat w.env inode
    ok (ret, istat, record w { env = env })

  -- The last reference to the dentry is gone: it leaves the cache, and its vinode with the last reference.
  unfoldable pub release_dentry : World F → ℕ → ℕ → Run (World F)
  release_dentry w dentry a = do
    w₁ ← erase_dentry w dentry
    (_, w₂) ← free_vfs_dentry w₁ dentry
    let inode = ref_down (w₂.inodes a)
    let w₃ = set_inode w₂ a inode
    if not (inode.node.ref == 0) then ok w₃ else do
      (ret, env) ← (ops inode.i_ops).viop_write_back_vinode w₃.env inode
      elim ret [
        | pos zero ↦ do
          w₄ ← erase_inode (record w₃ { env = env }) a
          s ← free_page w₄.env.pmm a
          ok (with_pmm w₄ s)
        | _ ↦ panic
      ]

  unfoldable pub vfs_close : World F → ℕ → Run (ℤ × World F)
  vfs_close w file = if not (is_file w file) then ok (negsuc 0, w) else do
    let dentry = (w.files file).f_dentry
    let a = (w.dentries dentry).inode
    w₁ ← run_hook (ops (w.inodes a).i_ops).viop_hook_close w dentry
    let left = (w₁.dentries dentry).d_ref +ℤ negsuc 0
    let w₂ = set_dentry w₁ dentry (record (w₁.dentries dentry) { d_ref = left })
    w₃ ← elim left [ pos zero ↦ release_dentry w₂ dentry a | _ ↦ ok w₂ ]
    ok (pos 0, set_file w₃ file (record (w₃.files file) { status = fd_none }))

unfoldable pub vfs_stat : {F : Type 0} → World F → ℕ → ℤ × Istat
vfs_stat w file =
    let v = (inode_of w file).node in
    (
      pos 0,
      record {
        st_inum = v.inum;
        st_size = v.size;
        st_type = v.type;
        st_nlinks = v.nlinks;
        st_blocks = v.blocks;
      },
    )

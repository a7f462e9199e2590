-- ===== src/Vfs/Links.antt =====
-- Hard links of kernel/vfs.c: `vfs_link` and `vfs_unlink`.
use cabbage_pke.Common.{
  ℕ, zero, none, some, List, not, Run, ok, panic, fault, ◌>>=◌, ◌==◌, if◌then◌else◌,
}
use cabbage_pke.Common.Int.{ℤ, pos, negsuc, ltb_ℤ}
use cabbage_pke.Pmm.{free_page}
use cabbage_pke.Rfs.Dir.{Name}
use cabbage_pke.Vfs.Objects.{
  file_i, VinodeOps, World, ref_down, with_pmm, set_inode, alloc_vfs_dentry, free_vfs_dentry,
  put_dentry, erase_dentry, erase_inode,
}
use cabbage_pke.Vfs.Paths.{lookup_final_dentry, get_base_name}
use cabbage_pke.Vfs.Files.{misses_base}

module _ {F : Type 0} (ops : ℕ → VinodeOps F) where
  -- The link itself: `parent` is the argument of `vfs_link`, not the directory where the lookup of the
  -- new path ended. The new dentry stays allocated where the file system refuses.
  unfoldable pub make_link : World F → ℕ → ℕ → Name → Run (ℤ × World F)
  make_link w old parent base = if parent == 0 then fault else do
    let a = (w.dentries old).inode
    (dentry, w₁) ← alloc_vfs_dentry w base a parent
    let dir = (w₁.dentries parent).inode
    (ret, directory, node, env) ←
        (ops (w₁.inodes dir).i_ops).viop_link w₁.env (w₁.inodes dir) base (w₁.inodes a)
    let w₂ : World F = record (set_inode (set_inode w₁ dir directory) a node) { env = env }
    elim ret [ pos zero ↦ do w₃ ← put_dentry w₂ dentry; ok (pos 0, w₃) | _ ↦ ok (negsuc 0, w₂) ]

  -- From the lookup of the new path on.
  unfoldable pub link_dentry : World F → ℕ → List ℕ → ℕ → Run (ℤ × World F)
  link_dentry w old newpath parent =
      if not ((w.inodes (w.dentries old).inode).node.type == file_i) then ok (negsuc 0, w) else do
        f ← lookup_final_dentry ops w newpath parent
        elim f.this [
          | some _ ↦ ok (negsuc 0, f.world)
          | none ↦ do
            base ← get_base_name newpath
            misses ← misses_base f.miss_name base
            if misses then ok (negsuc 0, f.world) else make_link f.world old parent base
        ]

  unfoldable pub vfs_link : World F → List ℕ → List ℕ → ℕ → Run (ℤ × World F)
  vfs_link w oldpath newpath parent = do
    f ← lookup_final_dentry ops w oldpath parent
    elim f.this [
      | none ↦ ok (negsuc 0, f.world)
      | some old ↦ link_dentry f.world old newpath parent
    ]

  -- After the file system has removed the entry.
  unfoldable pub forget_link : World F → ℕ → ℕ → Run (World F)
  forget_link w dentry a = do
    w₁ ← erase_dentry w dentry
    (_, w₂) ← free_vfs_dentry w₁ dentry
    let inode = ref_down (w₂.inodes a)
    let w₃ = set_inode w₂ a inode
    if not (inode.node.nlinks == 0)
        then ok w₃
        else if not (inode.node.ref == 0)
        then panic
        else do w₄ ← erase_inode w₃ a; s ← free_page w₄.env.pmm a; ok (with_pmm w₄ s)

  -- From the tests on; `parent` is the directory where the lookup ended.
  unfoldable pub unlink_dentry : World F → ℕ → ℕ → Run (ℤ × World F)
  unlink_dentry w dentry parent =
      let a = (w.dentries dentry).inode in
      if not ((w.inodes a).node.type == file_i)
      then ok (negsuc 0, w)
      else if ltb_ℤ (pos 0) (w.dentries dentry).d_ref
      then ok (negsuc 0, w)
      else do
        let dir = (w.dentries parent).inode
        (ret, directory, node, env) ←
            (ops (w.inodes dir).i_ops).viop_unlink w.env (w.inodes dir) (w.dentries dentry).name
              (w.inodes a)
        let w₁ : World F = record (set_inode (set_inode w dir directory) a node) { env = env }
        elim ret [
          | pos zero ↦ do w₂ ← forget_link w₁ dentry a; ok (pos 0, w₂)
          | _ ↦ ok (negsuc 0, w₁)
        ]

  unfoldable pub vfs_unlink : World F → List ℕ → ℕ → Run (ℤ × World F)
  vfs_unlink w path parent = do
    f ← lookup_final_dentry ops w path parent
    elim f.this [
      | none ↦ ok (negsuc 0, f.world)
      | some dentry ↦ unlink_dentry f.world dentry f.parent
    ]

-- ===== src/Rfs/Format.antt =====
-- Formatting and mounting in kernel/rfs.c: the super block, the empty inodes, the root directory and
-- the free map.
pub mod Mount
use cabbage_pke.Common.{
  ℕ, zero, suc, ◌+◌, ◌-◌, ◌*◌, ◌/◌, ◌%◌, Bool, true, false, not, Run, ok, panic, fault, ◌>>=◌, ltb,
  leb, ◌==◌, if◌then◌else◌,
}
use cabbage_pke.Common.Int.{ℤ, pos, negsuc}
use cabbage_pke.Pmm.{pgsize}
use cabbage_pke.Str.{in_range}
use cabbage_pke.Rfs.{
  Block, RfsDevice, rfs_r1block, rfs_w1block, load32, store32, rfs_magic, rfs_inodesize,
  rfs_max_inode_blknum, rfs_direct_blknum, blk_offset_super, blk_offset_inode, blk_offset_bitmap,
  blk_offset_free, r_dir, r_free, RfsDinode, rfs_write_dinode, Fs, Vinode, rfs_alloc_vinode,
  rfs_update_vinode,
}

-- The fields of the super block that go to the disk, at its start.
unfoldable pub put_superblock : Block → Block
put_superblock b =
    store32
      (store32
        (store32 (store32 b 0 rfs_magic) 4
          (1 + rfs_max_inode_blknum + 1 + rfs_max_inode_blknum * rfs_direct_blknum))
        8 (rfs_max_inode_blknum * rfs_direct_blknum))
      12 (pgsize / rfs_inodesize * rfs_max_inode_blknum)

-- The loop that empties the inodes of a block: `size`, `type`, `nlinks` and `blocks` of each.
unfoldable pub empty_inodes : ℕ → ℕ → Block → Block
empty_inodes zero o b = b
empty_inodes (suc k) o b =
    empty_inodes k (o + rfs_inodesize)
      (store32 (store32 (store32 (store32 b o 0) (o + 4) r_free) (o + 8) 0) (o + 12) 0)

-- The loop that writes the block of empty inodes.
unfoldable pub write_inodes : ℕ → ℕ → RfsDevice → Run RfsDevice
write_inodes zero i d = ok d
write_inodes (suc k) i d = do
  (ret, d') ← rfs_w1block d (blk_offset_inode + i)
  if not (ret == 0) then panic else write_inodes k (i + 1) d'

-- `root_dinode`; only `addrs[0]` is set, the others are what the stack held.
unfoldable pub root_dinode : (ℕ → ℕ) → RfsDinode
root_dinode stack = record {
  size = 0;
  type = r_dir;
  nlinks = 1;
  blocks = 1;
  addrs = λ i. if 0 == i then blk_offset_free else stack i;
}

-- `memset(freemap, 0, RFS_BLKSIZE); freemap[0] = 1`.
unfoldable pub first_taken : Block → Block
first_taken b = store32 (λ q. if in_range 0 pgsize q then 0 else b q) 0 1

unfoldable pub rfs_format_dev : RfsDevice → (ℕ → ℕ) → Run (ℤ × RfsDevice)
rfs_format_dev d stack = do
  (ret, d₁) ← rfs_w1block (record d { iobuffer = put_superblock d.iobuffer }) blk_offset_super
  if not (ret == 0) then panic else do
    d₂ ←
        write_inodes rfs_max_inode_blknum 0
          (record d₁ { iobuffer = empty_inodes (pgsize / rfs_inodesize) 0 d₁.iobuffer })
    (ret₁, d₃) ← rfs_write_dinode d₂ (root_dinode stack) 0
    if not (ret₁ == 0) then ok (negsuc 0, d₃) else do
      (ret₂, d₄) ← rfs_w1block (record d₃ { iobuffer = first_taken d₃.iobuffer }) blk_offset_bitmap
      if not (ret₂ == 0) then ok (negsuc 0, d₄) else ok (pos 0, d₄)

-- The vfs super block; `s_dev` is the device and `s_fs_info` the free map of `fs`, `s_root` the
-- dentry of `root`.
pub record SuperBlock : Type 0 where
  pub magic : ℕ
  pub size : ℕ
  pub nblocks : ℕ
  pub ninodes : ℕ
  pub root : Vinode
  pub fs : Fs

-- The free map as the `int` array in the block of the bitmap.
unfoldable pub freemap_of : Block → ℕ → ℕ
freemap_of b i = load32 b (4 * i)

-- `page` is what the page of the root vinode held.
unfoldable pub rfs_get_superblock : RfsDevice → Vinode → Run SuperBlock
rfs_get_superblock d page = do
  (ret, d₁) ← rfs_r1block d blk_offset_super
  if not (ret == 0) then panic else do
    let super = d₁.iobuffer
    let blank = rfs_alloc_vinode page
    let fs : Fs = record { dev = d₁; freemap = λ _. 0; nblocks = load32 super 8 }
    if not (load32 super 0 == rfs_magic) then panic else do
      (_, root, fs₁) ← rfs_update_vinode fs (record blank { inum = 0 })
      (ret₁, d₂) ← rfs_r1block fs₁.dev blk_offset_bitmap
      if not (ret₁ == 0)
          then panic
          else ok (record {
            magic = load32 super 0;
            size = load32 super 4;
            nblocks = load32 super 8;
            ninodes = load32 super 12;
            root = record root { ref = root.ref + 1 };
            fs = record { dev = d₂; freemap = freemap_of d₂.iobuffer; nblocks = load32 super 8 };
          })

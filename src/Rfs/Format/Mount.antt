-- ===== src/Rfs/Format/Mount.antt =====
-- What mounting finds on a device that kernel/rfs.c has formatted.
use cabbage_pke.Common.{ℕ, ◌*◌, ◌<◌, ◌≡◌, refl, arith, ◌>>=◌, Returns}
use cabbage_pke.Rfs.{
  Block, RfsDevice, ramdisk_read, ramdisk_write, rfs_r1block, rfs_w1block, load32, r_dir,
  get_dinode, rfs_read_dinode, rfs_write_dinode, Vinode, rfs_alloc_vinode, rfs_update_vinode,
}
use cabbage_pke.Rfs.Format.{
  put_superblock, empty_inodes, write_inodes, root_dinode, first_taken, rfs_format_dev, SuperBlock,
  freemap_of, rfs_get_superblock,
}

first_taken-rest : (b : Block) (i : ℕ) → 0 < i → i < 1024 → load32 (first_taken b) (4 * i) ≡ 0
unfolding first_taken
first_taken-rest b i low high = ground arith

-- What a mount gives for a fresh disk.
pub record Fresh (sb : SuperBlock) : Type 0 where
  pub magic : sb.magic ≡ 0xBEAF
  pub size : sb.size ≡ 112
  pub nblocks : sb.nblocks ≡ 100
  pub ninodes : sb.ninodes ≡ 320
  pub limit : sb.fs.nblocks ≡ 100
  pub root_inum : sb.root.inum ≡ 0
  pub root_type : sb.root.type ≡ r_dir
  pub root_size : sb.root.size ≡ 0
  pub root_nlinks : sb.root.nlinks ≡ 1
  pub root_blocks : sb.root.blocks ≡ 1
  pub root_block : sb.root.addrs 0 ≡ 12
  pub taken : sb.fs.freemap 0 ≡ 1
  pub rest : (i : ℕ) → 0 < i → i < 1024 → sb.fs.freemap i ≡ 0

-- A device that is formatted can be mounted, whatever it and the kernel's stack held before: the super
-- block has the layout of the disk, the root is an empty directory in the first data block, and the
-- free map has that block taken and every other one free.
pub format-Fresh :
    (d : RfsDevice) (stack : ℕ → ℕ) (page : Vinode)
    → Returns (do (_, d') ← rfs_format_dev d stack; rfs_get_superblock d' page) Fresh
unfolding rfs_format_dev rfs_get_superblock write_inodes rfs_w1block rfs_r1block ramdisk_read
    ramdisk_write rfs_write_dinode rfs_read_dinode rfs_update_vinode rfs_alloc_vinode put_superblock
    empty_inodes root_dinode get_dinode freemap_of first_taken
format-Fresh d stack page = (
  _,
  refl,
  record {
    magic = refl;
    size = refl;
    nblocks = refl;
    ninodes = refl;
    limit = refl;
    root_inum = refl;
    root_type = refl;
    root_size = refl;
    root_nlinks = refl;
    root_blocks = refl;
    root_block = refl;
    taken = refl;
    rest = λ i l h. search first_taken-rest;
  },
)

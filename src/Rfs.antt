-- ===== src/Rfs.antt =====
-- The RAM disk and the disk layer of the RAM-disk file system: kernel/ramdev.c (block transfers) and
-- kernel/rfs.c (disk inodes, the free map, directory entries, formatting).
pub mod File
pub mod Dir
pub mod Inodes
pub mod Blocks
pub mod Format
pub mod Readdir
use cabbage_pke.Common.{
  ℕ, zero, suc, ◌+◌, ◌-◌, ◌*◌, ◌/◌, ◌%◌, ◌^◌, Bool, true, false, ◌&&◌, List, [], ◌∷◌, Run, ok,
  panic, fault, ◌>>=◌, ltb, leb, ◌==◌, if◌then◌else◌, length,
}
use cabbage_pke.Common.Int.{ℤ, pos, negsuc}
use cabbage_pke.Pmm.{pgsize}
use cabbage_pke.Str.{in_range}

-- The bytes of a block by offset; the offsets in use lie below `RFS_BLKSIZE`.
abbrev pub Block : Type 0
Block = ℕ → ℕ

abbrev pub ramdisk_block_count : ℕ
ramdisk_block_count = 128

-- `rfs_device`: the blocks from `d_address` on, and the buffer of the transfers.
pub record RfsDevice : Type 0 where
  pub blocks : ℕ → Block
  pub iobuffer : Block

abbrev pub set_block : (ℕ → Block) → ℕ → Block → ℕ → Block
set_block f n b k = if n == k then b else f k

-- The results are the C results, with the device.
unfoldable pub ramdisk_write : RfsDevice → ℕ → Run (ℕ × RfsDevice)
ramdisk_write d n =
    if leb ramdisk_block_count n
    then panic
    else ok (0, record d { blocks = set_block d.blocks n d.iobuffer })

unfoldable pub ramdisk_read : RfsDevice → ℕ → Run (ℕ × RfsDevice)
ramdisk_read d n =
    if leb ramdisk_block_count n then panic else ok (0, record d { iobuffer = d.blocks n })

unfoldable pub rfs_r1block : RfsDevice → ℕ → Run (ℕ × RfsDevice)
unfolding ramdisk_read
rfs_r1block d n = ramdisk_read d n

unfoldable pub rfs_w1block : RfsDevice → ℕ → Run (ℕ × RfsDevice)
unfolding ramdisk_write
rfs_w1block d n = ramdisk_write d n

-- A little-endian `int` in a block; the fields of this file system are never negative.
abbrev pub load32 : Block → ℕ → ℕ
load32 b o = b o + 256 * b (o + 1) + 65536 * b (o + 2) + 16777216 * b (o + 3)

abbrev pub le_byte : ℕ → ℕ → ℕ
le_byte v zero = v % 256
le_byte v (suc j) = le_byte (v / 256) j

-- `memcpy` of `n` bytes out of `src` at `s` into `b` at `o`.
abbrev pub blit : Block → ℕ → Block → ℕ → ℕ → Block
blit b o src s n q = if in_range o n q then src (s + (q - o)) else b q

abbrev pub store32 : Block → ℕ → ℕ → Block
store32 b o v = blit b o (λ j. le_byte v j) 0 4

abbrev pub rfs_magic : ℕ
rfs_magic = 0xBEAF

abbrev pub rfs_inodesize : ℕ
rfs_inodesize = 128

abbrev pub rfs_max_inode_blknum : ℕ
rfs_max_inode_blknum = 10

abbrev pub rfs_direct_blknum : ℕ
rfs_direct_blknum = 10

abbrev pub blk_offset_super : ℕ
blk_offset_super = 0

abbrev pub blk_offset_inode : ℕ
blk_offset_inode = 1

abbrev pub blk_offset_bitmap : ℕ
blk_offset_bitmap = 11

abbrev pub blk_offset_free : ℕ
blk_offset_free = 12

-- `R_FILE`, `R_DIR` and `R_FREE`.
abbrev pub r_file : ℕ
r_file = 0

abbrev pub r_dir : ℕ
r_dir = 1

abbrev pub r_free : ℕ
r_free = 2

-- `addrs i` for `i` below `RFS_DIRECT_BLKNUM`.
pub record RfsDinode : Type 0 where
  pub size : ℕ
  pub type : ℕ
  pub nlinks : ℕ
  pub blocks : ℕ
  pub addrs : ℕ → ℕ

abbrev pub sizeof_dinode : ℕ
sizeof_dinode = 56

-- The five fields of `struct rfs_dinode` as the words of its memory.
abbrev pub dinode_word : RfsDinode → ℕ → ℕ
dinode_word d zero = d.size
dinode_word d (suc zero) = d.type
dinode_word d (suc (suc zero)) = d.nlinks
dinode_word d (suc (suc (suc zero))) = d.blocks
dinode_word d (suc (suc (suc (suc i)))) = d.addrs i

abbrev pub dinode_bytes : RfsDinode → Block
dinode_bytes d q = le_byte (dinode_word d (q / 4)) (q % 4)

unfoldable pub get_dinode : Block → ℕ → RfsDinode
get_dinode b o = record {
  size = load32 b o;
  type = load32 b (o + 4);
  nlinks = load32 b (o + 8);
  blocks = load32 b (o + 12);
  addrs = λ i. load32 b (o + 16 + 4 * i);
}

abbrev pub inode_block : ℕ → ℕ
inode_block n = n / 32 + blk_offset_inode

abbrev pub inode_offset : ℕ → ℕ
inode_offset n = n % 32 * rfs_inodesize

-- The page for the result is a value here; NULL is the failed read.
unfoldable pub rfs_read_dinode : RfsDevice → ℕ → Run (RfsDinode × RfsDevice)
rfs_read_dinode d n = do
  (ret, d') ← rfs_r1block d (inode_block n)
  if ret == 0 then ok (get_dinode d'.iobuffer (inode_offset n), d') else fault

unfoldable pub rfs_write_dinode : RfsDevice → RfsDinode → ℕ → Run (ℕ × RfsDevice)
rfs_write_dinode d x n = do
  (_, d') ← rfs_r1block d (inode_block n)
  rfs_w1block
      (record d' { iobuffer = blit d'.iobuffer (inode_offset n) (dinode_bytes x) 0 sizeof_dinode })
      (inode_block n)

-- The mounted file system: the device, and the free map that `s_fs_info` points to.
pub record Fs : Type 0 where
  pub dev : RfsDevice
  pub freemap : ℕ → ℕ
  pub nblocks : ℕ

-- The loop of `rfs_alloc_block`, with the blocks left to look at.
unfoldable pub alloc_from : ℕ → ℕ → Fs → Run (ℕ × Fs)
alloc_from zero block fs = panic
alloc_from (suc k) block fs =
    let rest = alloc_from k (block + 1) fs in
    if fs.freemap block == 0
    then ok (
      blk_offset_free + block,
      record fs { freemap = λ i. if block == i then 1 else fs.freemap i },
    )
    else rest

unfoldable pub rfs_alloc_block : Fs → Run (ℕ × Fs)
rfs_alloc_block fs = alloc_from fs.nblocks 0 fs

-- `freemap[block_num - RFS_BLK_OFFSET_FREE] = 0`; below the offset the index is negative.
unfoldable pub rfs_free_block : Fs → ℕ → Run Fs
rfs_free_block fs n =
    if ltb n blk_offset_free
    then fault
    else ok (record fs { freemap = λ i. if n - blk_offset_free == i then 0 else fs.freemap i })

-- `struct vinode`, as far as this file system uses it. The super block is `Fs`.
pub record Vinode : Type 0 where
  pub inum : ℕ
  pub ref : ℕ
  pub size : ℕ
  pub type : ℕ
  pub nlinks : ℕ
  pub blocks : ℕ
  pub addrs : ℕ → ℕ

-- `default_alloc_vinode`; `type` and `addrs` are what the page held.
unfoldable pub rfs_alloc_vinode : Vinode → Vinode
rfs_alloc_vinode page = record page { blocks = 0; inum = 0; nlinks = 0; ref = 0; size = 0 }

unfoldable pub dinode_of : Vinode → RfsDinode
dinode_of v = record {
  size = v.size;
  type = v.type;
  nlinks = v.nlinks;
  blocks = v.blocks;
  addrs = v.addrs;
}

unfoldable pub rfs_write_back_vinode : Fs → Vinode → Run (ℤ × Fs)
rfs_write_back_vinode fs v = do
  (ret, d) ← rfs_write_dinode fs.dev (dinode_of v) v.inum
  if ret == 0 then ok (pos 0, record fs { dev = d }) else ok (negsuc 0, record fs { dev = d })

unfoldable pub rfs_update_vinode : Fs → Vinode → Run (ℤ × Vinode × Fs)
rfs_update_vinode fs v = do
  (x, d) ← rfs_read_dinode fs.dev v.inum
  ok (
    pos 0,
    record v {
      size = x.size;
      type = x.type;
      nlinks = x.nlinks;
      blocks = x.blocks;
      addrs = x.addrs;
    },
    record fs { dev = d },
  )

-- ===== src/Rfs/Dir.antt =====
-- The directory operations of kernel/rfs.c: look up, add and remove entries, create files and
-- directories, link and unlink. A name is the bytes of a string without its final 0.
pub mod Create
use cabbage_pke.Common.{
  ℕ, zero, suc, ◌+◌, ◌-◌, ◌*◌, ◌/◌, ◌%◌, ◌^◌, Bool, true, false, ◌&&◌, not, Option, none, some,
  List, [], ◌∷◌, Run, ok, panic, fault, ◌>>=◌, ltb, leb, ◌==◌, if◌then◌else◌, length,
}
use cabbage_pke.Common.Int.{ℤ, pos, negsuc}
use cabbage_pke.Pmm.{pgsize}
use cabbage_pke.Str.{in_range}
use cabbage_pke.Rfs.{
  Block, RfsDevice, rfs_r1block, rfs_w1block, blit, load32, store32, Fs, rfs_alloc_block,
  rfs_free_block, Vinode, rfs_alloc_vinode, RfsDinode, rfs_read_dinode, rfs_write_dinode,
  rfs_write_back_vinode, rfs_update_vinode, r_file, r_dir, r_free, rfs_direct_blknum,
}
use cabbage_pke.Rfs.File.{read_addr, write_addr}

abbrev pub Name : Type 0
Name = List ℕ

abbrev pub sizeof_direntry : ℕ
sizeof_direntry = 32

abbrev pub one_block_direntrys : ℕ
one_block_direntrys = 128

-- The bytes of a string with its final 0.
abbrev pub byte_at : Name → Block
byte_at [] q = 0
byte_at (c ∷ cs) zero = c
byte_at (c ∷ cs) (suc q) = byte_at cs q

-- `strcmp(p_direntry->name, name) == 0` for the string at `o`.
unfoldable pub same_name : Block → ℕ → Name → Bool
same_name b o [] = b o == 0
same_name b o (c ∷ cs) = let rest = same_name b (suc o) cs in (b o == c) && rest

-- `p_direntry->inum = inum; strcpy(p_direntry->name, name)` for the entry at `o`. The string is not
-- held to `RFS_MAX_FILE_NAME_LEN`.
unfoldable pub put_direntry : Block → ℕ → ℕ → Name → Block
put_direntry b o inum name = blit (store32 b o inum) (o + 4) (byte_at name) 0 (length name + 1)

unfoldable pub rfs_add_direntry : Fs → Vinode → Name → ℕ → Run (ℤ × Vinode × Fs)
rfs_add_direntry fs dir name inum =
    if not (dir.type == r_dir)
    then ok (negsuc 0, dir, fs)
    else let i = dir.size / pgsize in
      let o = dir.size % pgsize in
      if leb rfs_direct_blknum i then fault else do
        (read, d₁) ← rfs_r1block fs.dev (dir.addrs i)
        if not (read == 0)
            then ok (negsuc 0, dir, record fs { dev = d₁ })
            else if ltb pgsize (o + 4 + length name + 1)
            then fault
            else do
              (written, d₂) ←
                  rfs_w1block (record d₁ { iobuffer = put_direntry d₁.iobuffer o inum name })
                    (dir.addrs i)
              if not (written == 0) then ok (negsuc 0, dir, record fs { dev = d₂ }) else do
                let dir' = record dir { size = dir.size + sizeof_direntry }
                (ret, fs') ← rfs_write_back_vinode (record fs { dev = d₂ }) dir'
                ok (ret, dir', fs')

-- Where a search of a directory stops: the index, the device, and `p_direntry` as an offset in the
-- buffer (NULL before the first block is read).
pub record Scan : Type 0 where
  pub index : ℕ
  pub dev : RfsDevice
  pub entry : Option ℕ

-- `if (i % one_block_direntrys == 0)`: the block of entry `i`, at a boundary.
unfoldable pub enter_block : Vinode → ℕ → RfsDevice → Option ℕ → Run (RfsDevice × Option ℕ)
enter_block dir i d p =
    if i % one_block_direntrys == 0
    then (do d' ← read_addr d dir (i / one_block_direntrys); ok (d', some 0))
    else ok (d, p)

-- The loop of `rfs_lookup` and `rfs_unlink`, with the entries left.
unfoldable pub scan_dir : ℕ → Vinode → Name → ℕ → RfsDevice → Option ℕ → Run Scan
scan_dir zero dir name i d p = ok (record { index = i; dev = d; entry = p })
scan_dir (suc k) dir name i d p = do
  (d', p') ← enter_block dir i d p
  elim p' [
    | none ↦ fault
    | some o ↦ elim (same_name d'.iobuffer (o + 4) name) [
      | true ↦ ok (record { index = i; dev = d'; entry = some o })
      | false ↦ scan_dir k dir name (i + 1) d' (some (o + sizeof_direntry))
    ]
  ]

-- `page` is what the page of the new vinode held.
unfoldable pub rfs_lookup : Fs → Vinode → Vinode → Name → Run (Option Vinode × Fs)
rfs_lookup fs page parent name =
    let total = parent.size / sizeof_direntry in
    do
      s ← scan_dir total parent name 0 fs.dev none
      if s.index == total then ok (none, record fs { dev = s.dev }) else elim s.entry [
        | none ↦ fault
        | some o ↦ do
          let blank = rfs_alloc_vinode page
          (ret, v, fs') ←
              rfs_update_vinode (record fs { dev = s.dev })
                (record blank { inum = load32 s.dev.iobuffer o })
          elim ret [ pos _ ↦ ok (some v, fs') | negsuc _ ↦ panic ]
      ]

abbrev pub max_inodes : ℕ
max_inodes = 320

-- The search for a free disk inode: the last inode that was read, and `free_inum`, which stays 0
-- when none is free. `free_dinode` is never NULL after the loop, so the test behind it never fails.
unfoldable pub find_free : ℕ → ℕ → RfsDevice → RfsDinode → Run (RfsDinode × ℕ × RfsDevice)
find_free zero i d last = ok (last, 0, d)
find_free (suc k) i d last = do
  (x, d') ← rfs_read_dinode d i
  elim (x.type == r_free) [ true ↦ ok (x, i, d') | false ↦ find_free k (i + 1) d' x ]

-- The inode that the loops of `rfs_create` and `rfs_mkdir` start from is not read.
abbrev pub no_dinode : RfsDinode
no_dinode = record { size = 0; type = 0; nlinks = 0; blocks = 0; addrs = λ _. 0 }

-- The common part of `rfs_create` and `rfs_mkdir`: a new disk inode of the type, with one block.
unfoldable pub new_dinode : Fs → ℕ → Run (ℕ × Fs)
new_dinode fs type = do
  (x, inum, d) ← find_free max_inodes 0 fs.dev no_dinode
  (n, fs₁) ← rfs_alloc_block (record fs { dev = d })
  let fresh = record x {
    size = 0;
    type = type;
    nlinks = 1;
    blocks = 1;
    addrs = λ i. if 0 == i then n else x.addrs i;
  }
  (_, d') ← rfs_write_dinode fs₁.dev fresh inum
  ok (inum, record fs₁ { dev = d' })

-- The new vinode (NULL on failure), the parent, and the file system.
unfoldable pub rfs_create : Fs → Vinode → Vinode → Name → Run (Option Vinode × Vinode × Fs)
rfs_create fs page parent name = do
  (inum, fs₁) ← new_dinode fs r_file
  let blank = rfs_alloc_vinode page
  (_, v, fs₂) ← rfs_update_vinode fs₁ (record blank { inum = inum })
  (ret, parent', fs₃) ← rfs_add_direntry fs₂ parent name inum
  elim ret [ pos _ ↦ ok (some v, parent', fs₃) | negsuc _ ↦ ok (none, parent', fs₃) ]

unfoldable pub rfs_mkdir : Fs → Vinode → Vinode → Name → Run (Option Vinode × Vinode × Fs)
rfs_mkdir fs page parent name = do
  (inum, fs₁) ← new_dinode fs r_dir
  (ret, parent', fs₂) ← rfs_add_direntry fs₁ parent name inum
  elim ret [
    | negsuc _ ↦ ok (none, parent', fs₂)
    | pos _ ↦ do
      let blank = rfs_alloc_vinode page
      (_, v, fs₃) ← rfs_update_vinode fs₂ (record blank { inum = inum })
      ok (some v, parent', fs₃)
  ]

-- The results of the two writes are not looked at.
unfoldable pub rfs_link : Fs → Vinode → Name → Vinode → Run (ℤ × Vinode × Vinode × Fs)
rfs_link fs parent name node = do
  let node' = record node { nlinks = node.nlinks + 1 }
  (_, parent', fs₁) ← rfs_add_direntry fs parent name node.inum
  (_, fs₂) ← rfs_write_back_vinode fs₁ node'
  ok (pos 0, parent', node', fs₂)

-- `for (i = 0; i < unlink_dinode->blocks; ++i) rfs_free_block(…)`.
unfoldable pub free_blocks : ℕ → ℕ → RfsDinode → Fs → Run Fs
free_blocks zero i x fs = ok fs
free_blocks (suc k) i x fs =
    if leb rfs_direct_blknum i
    then fault
    else do fs' ← rfs_free_block fs (x.addrs i); free_blocks k (i + 1) x fs'

-- The `memmove` that drops the entry at index `o` of a block.
unfoldable pub drop_entry : Block → ℕ → Block
drop_entry b o q =
    if in_range (o * sizeof_direntry) ((one_block_direntrys - o - 1) * sizeof_direntry) q
    then b (q + sizeof_direntry)
    else b q

-- The last entry of `b` becomes the first entry of `next`.
unfoldable pub pull_entry : Block → Block → Block
pull_entry b next = blit b ((one_block_direntrys - 1) * sizeof_direntry) next 0 sizeof_direntry

-- The loop over the blocks behind the one with the dropped entry; `previous` is still to be written.
unfoldable pub shift_blocks : ℕ → ℕ → Vinode → Block → RfsDevice → Run (Block × RfsDevice)
shift_blocks zero i dir previous d = ok (previous, d)
shift_blocks (suc k) i dir previous d = do
  d₁ ← read_addr d dir i
  d₂ ← write_addr (record d₁ { iobuffer = pull_entry previous d₁.iobuffer }) dir (i - 1)
  shift_blocks k (i + 1) dir (drop_entry d₁.iobuffer 0) d₂

-- The removal of entry `index` from the blocks of the directory.
unfoldable pub remove_direntry : Fs → Vinode → ℕ → Run Fs
remove_direntry fs dir index = do
  let b = index / one_block_direntrys
  d₁ ← read_addr fs.dev dir b
  let o = index % one_block_direntrys
  (last, d₂) ← shift_blocks (dir.blocks - (b + 1)) (b + 1) dir (drop_entry d₁.iobuffer o) d₁
  d₃ ← write_addr (record d₂ { iobuffer = last }) dir (dir.blocks - 1)
  ok (record fs { dev = d₃ })

-- `if the last block is empty, free it`; `total` is the number of entries left.
unfoldable pub trim : Fs → Vinode → ℕ → Run (Fs × Vinode)
trim fs dir total =
    if (total % one_block_direntrys == 0) && ltb 1 dir.blocks
    then (do
      fs' ← rfs_free_block fs (dir.addrs (dir.blocks - 1))
      ok (fs', record dir { blocks = dir.blocks - 1 }))
    else ok (fs, dir)

-- One link less on the disk inode; with the last one its blocks and the inode are freed.
unfoldable pub drop_link : Fs → Vinode → ℕ → Run (Vinode × Fs)
drop_link fs node inum = do
  (x, d) ← rfs_read_dinode fs.dev inum
  if not (node.nlinks == x.nlinks) then panic else do
    let left = (node.nlinks + 2 ^ 32 - 1) % 2 ^ 32
    let x' = record x { nlinks = left }
    fs₁ ←
        if left == 0
        then free_blocks x.blocks 0 x (record fs { dev = d })
        else ok (record fs { dev = d })
    (_, d') ← rfs_write_dinode fs₁.dev (if left == 0 then record x' { type = r_free } else x') inum
    ok (record node { nlinks = left }, record fs₁ { dev = d' })

-- The result, the parent, the vinode that lost a link, and the file system.
unfoldable pub rfs_unlink : Fs → Vinode → Name → Vinode → Run (ℤ × Vinode × Vinode × Fs)
rfs_unlink fs parent name node =
    let total = parent.size / sizeof_direntry in
    do
      s ← scan_dir total parent name 0 fs.dev none
      elim s.entry [
        | none ↦ fault
        | some o ↦
            if s.index == total then ok (negsuc 0, parent, node, record fs { dev = s.dev }) else do
              (node', fs₁) ← drop_link (record fs { dev = s.dev }) node (load32 s.dev.iobuffer o)
              fs₂ ← remove_direntry fs₁ parent s.index
              (fs₃, parent₁) ← trim fs₂ parent (total - 1)
              let parent₂ = record parent₁ { size = parent₁.size - sizeof_direntry }
              (ret, fs₄) ← rfs_write_back_vinode fs₃ parent₂
              ok (ret, parent₂, node', fs₄)
      ]

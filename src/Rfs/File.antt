-- ===== src/Rfs/File.antt =====
-- `rfs_read`, `rfs_write`, `rfs_lseek` and `rfs_disk_stat` of kernel/rfs.c.
pub mod Read
pub mod Seek
pub mod Owned
pub mod Store
pub mod Write
pub mod Whole
pub mod Fuel
use cabbage_pke.Common.{
  ℕ, zero, suc, ◌+◌, ◌-◌, ◌*◌, ◌/◌, ◌%◌, Bool, true, false, ◌||◌, Run, ok, panic, fault, ◌>>=◌, ltb,
  leb, ◌==◌, if◌then◌else◌,
}
use cabbage_pke.Common.Int.{ℤ, pos, negsuc, ◌+ℤ◌, ltb_ℤ, pos_part}
use cabbage_pke.Pmm.{pgsize}
use cabbage_pke.Str.{in_range}
use cabbage_pke.Rfs.{
  Block, RfsDevice, rfs_r1block, rfs_w1block, blit, rfs_direct_blknum, Fs, rfs_alloc_block, Vinode,
  rfs_read_dinode,
}

-- `rfs_r1block(rdev, f_inode->addrs[i])`; an index past the array is undefined.
unfoldable pub read_addr : RfsDevice → Vinode → ℕ → Run RfsDevice
read_addr d v i =
    if leb rfs_direct_blknum i then fault else do (_, d') ← rfs_r1block d (v.addrs i); ok d'

unfoldable pub write_addr : RfsDevice → Vinode → ℕ → Run RfsDevice
write_addr d v i =
    if leb rfs_direct_blknum i then fault else do (_, d') ← rfs_w1block d (v.addrs i); ok d'

-- `while (readtimes != 0)`: whole blocks into `buffer` at `at`.
unfoldable pub read_whole : ℕ → RfsDevice → Vinode → ℕ → ℕ → Block → Run (RfsDevice × Block)
read_whole zero d v i at buffer = ok (d, buffer)
read_whole (suc k) d v i at buffer = do
  d' ← read_addr d v i
  read_whole k d' v (i + 1) (at + pgsize) (blit buffer at d'.iobuffer 0 pgsize)

-- What follows the first block; `times` is `readtimes` before the decrement.
unfoldable pub read_rest : ℕ → ℕ → RfsDevice → Vinode → ℕ → ℕ → Block → Run (RfsDevice × Block)
read_rest zero remain d v i at buffer = ok (d, buffer)
read_rest (suc times) remain d v i at buffer = do
  (d₁, whole) ← read_whole times d v i at buffer
  if remain == 0 then ok (d₁, whole) else do
    d₂ ← read_addr d₁ v (i + times)
    ok (d₂, blit whole (at + times * pgsize) d₂.iobuffer 0 remain)

-- `strcpy(r_buf, buffer)` of a buffer with a 0 within `k` bytes.
unfoldable pub copy_string : ℕ → Block → Block → ℕ → Block
copy_string zero r buffer i = λ q. if i == q then buffer i else r q
copy_string (suc k) r buffer i =
    let r' : Block = λ q. if i == q then buffer i else r q in
    let rest = copy_string k r' buffer (i + 1) in if buffer i == 0 then r' else rest

unfoldable pub clamp_len : Vinode → ℕ → ℕ → ℕ
clamp_len v len offset = if ltb v.size (offset + len) then v.size - offset else len

-- The part of `rfs_read` that fills `buffer`, an array whose contents are not initialised.
unfoldable pub fill_buffer : RfsDevice → Vinode → Block → ℕ → ℕ → Run (RfsDevice × Block)
fill_buffer d v buffer len offset =
    let align = offset % pgsize in
    let times = (align + len) / pgsize in
    let first = if times == 0 then len else pgsize - align in
    do
      d₁ ← read_addr d v (offset / pgsize)
      read_rest times ((align + len) % pgsize) d₁ v (offset / pgsize + 1) first
          (blit buffer 0 d₁.iobuffer align first)

-- The result, the new offset, and the memory at `r_buf`.
unfoldable pub rfs_read : Fs → Vinode → Block → Block → ℕ → ℕ → Run (ℕ × ℕ × Block × Fs)
rfs_read fs v r_buf buffer len offset =
    if ltb v.size offset
    then panic
    else let len' = clamp_len v len offset in
      do
        (d, filled) ← fill_buffer fs.dev v buffer len' offset
        let ended : Block = λ q. if len' == q then 0 else filled q
        ok (len', offset + len', copy_string len' r_buf ended 0, record fs { dev = d })

-- `if (block_offset == f_inode->blocks)`: a new block for the file. The store into `addrs` past its
-- end is undefined.
unfoldable pub grow : Fs → Vinode → ℕ → Run (Fs × Vinode)
grow fs v i =
    if i == v.blocks
    then (if leb rfs_direct_blknum i then fault else do
      (n, fs') ← rfs_alloc_block fs
      ok (fs', record v { addrs = λ j. if i == j then n else v.addrs j; blocks = v.blocks + 1 }))
    else ok (fs, v)

-- `memcpy(rdev->iobuffer, w_buf + buf_offset, n); rfs_w1block(…)`.
unfoldable pub put_block : Fs → Vinode → ℕ → Block → ℕ → ℕ → Run Fs
put_block fs v i w at n = do
  let d = fs.dev
  d' ← write_addr (record d { iobuffer = blit d.iobuffer 0 w at n }) v i
  ok (record fs { dev = d' })

-- `while (writetimes != 0)`.
unfoldable pub write_whole : ℕ → Fs → Vinode → ℕ → Block → ℕ → Run (Fs × Vinode)
write_whole zero fs v i w at = ok (fs, v)
write_whole (suc k) fs v i w at = do
  (fs₁, v₁) ← grow fs v i
  fs₂ ← put_block fs₁ v₁ i w at pgsize
  write_whole k fs₂ v₁ (i + 1) w (at + pgsize)

-- The whole blocks, then the remaining bytes in a block that is not read first.
unfoldable pub write_rest : ℕ → ℕ → Fs → Vinode → ℕ → Block → ℕ → Run (Fs × Vinode)
write_rest times remain fs v i w at = do
  (fs₁, v₁) ← write_whole times fs v i w at
  if remain == 0 then ok (fs₁, v₁) else do
    (fs₂, v₂) ← grow fs₁ v₁ (i + times)
    fs₃ ← put_block fs₂ v₂ (i + times) w (at + times * pgsize) remain
    ok (fs₃, v₂)

-- The first block of a write that starts inside it is read, changed and written back.
unfoldable pub write_first : Fs → Vinode → ℕ → ℕ → Block → ℕ → Run Fs
write_first fs v i align w n = do
  d ← read_addr fs.dev v i
  d' ← write_addr (record d { iobuffer = blit d.iobuffer align w 0 n }) v i
  ok (record fs { dev = d' })

unfoldable pub write_blocks : Fs → Vinode → Block → ℕ → ℕ → Run (Fs × Vinode)
write_blocks fs v w len offset =
    let align = offset % pgsize in
    let times = (len + align) / pgsize in
    let remain = (len + align) % pgsize in
    let i = offset / pgsize in
    if align == 0 then write_rest times remain fs v i w 0 else do
      fs' ← write_first fs v i align w (if times == 0 then len else pgsize - align)
      if times == 0
          then ok (fs', v)
          else write_rest (times - 1) remain fs' v (i + 1) w (pgsize - align)

-- The result, the new offset, and the vinode with its new size.
unfoldable pub rfs_write : Fs → Vinode → Block → ℕ → ℕ → Run (ℕ × ℕ × Vinode × Fs)
rfs_write fs v w len offset = if ltb v.size offset then panic else do
  (fs', v') ← write_blocks fs v w len offset
  ok (
    len,
    offset + len,
    record v' { size = if ltb v'.size (offset + len) then offset + len else v'.size },
    fs',
  )

-- `LSEEK_SET` is 0 and `LSEEK_CUR` is 1. The result, and the new offset.
unfoldable pub rfs_lseek : Vinode → ℤ → ℕ → ℕ → ℤ × ℕ
rfs_lseek v new_offset whence offset =
    let size : ℤ = pos v.size in
    let moved : ℤ = pos offset +ℤ new_offset in
    if whence == 0
    then if ltb_ℤ new_offset (pos 0) || ltb_ℤ size new_offset
      then (negsuc 0, offset)
      else (pos 0, pos_part new_offset)
    else if whence == 1
    then if ltb_ℤ moved (pos 0) || ltb_ℤ size moved
      then (negsuc 0, offset)
      else (pos 0, pos_part moved)
    else (negsuc 0, offset)

pub record Istat : Type 0 where
  pub st_inum : ℕ
  pub st_size : ℕ
  pub st_type : ℕ
  pub st_nlinks : ℕ
  pub st_blocks : ℕ

unfoldable pub rfs_disk_stat : Fs → Vinode → Run (ℤ × Istat × Fs)
rfs_disk_stat fs v = do
  (x, d) ← rfs_read_dinode fs.dev v.inum
  ok (
    pos 0,
    record {
      st_inum = v.inum;
      st_size = x.size;
      st_type = x.type;
      st_nlinks = x.nlinks;
      st_blocks = x.blocks;
    },
    record fs { dev = d },
  )

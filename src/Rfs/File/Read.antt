-- ===== src/Rfs/File/Read.antt =====
-- What `rfs_read` of kernel/rfs.c reads.
pub mod Fill
pub mod Strings
use cabbage_pke.Common.{
  ℕ, zero, suc, ◌+◌, ◌-◌, ◌*◌, ◌/◌, ◌%◌, ◌≤◌, ◌<◌, ◌≡◌, ◌≢◌, refl, sym, ◌∙◌, ap, inl, inr, arith,
  min, ok, ◌>>=◌, Returns, Ends, Ends-mono, Ends-bind, Ends→Returns, ltb, ◌==◌, if◌then◌else◌,
  ltb→lt, ltb→le, le→ltb, Bool-cases, ==_iff, ==_refl, ne→==, lt→leb,
}
use cabbage_pke.Pmm.{pgsize}
use cabbage_pke.Rfs.{Block, RfsDevice, ramdisk_read, rfs_r1block, blit, Fs, Vinode}
use cabbage_pke.Rfs.Inodes.{blit-in, blit-out}
use cabbage_pke.Rfs.File.{
  copy_string, read_addr, read_whole, read_rest, clamp_len, fill_buffer, rfs_read,
}
pub use cabbage_pke.Rfs.File.Read.Fill.{IsLaid, file_byte, read_addr_lem}
use cabbage_pke.Rfs.File.Read.Fill.{Read, fill_buffer-Read}
use cabbage_pke.Rfs.File.Read.Strings.{copy_string-below, copy_string-prefix}

clamp_len_within :
    (v : Vinode) (len offset : ℕ) → offset ≤ v.size → offset + clamp_len v len offset ≤ v.size
unfolding clamp_len
clamp_len_within v len offset h = ground arith

clamp_len-min :
    (v : Vinode) (len offset : ℕ)
    → offset ≤ v.size
    → clamp_len v len offset ≡ min len (v.size - offset)
unfolding clamp_len
clamp_len-min v len offset h = ground arith

-- A C string in a buffer of `n` bytes, and its 0.
abbrev ended : Block → ℕ → Block
ended b n q = if n == q then 0 else b q

copied :
    (n : ℕ) (r b : Block) (j : ℕ)
    → j < n
    → ((m : ℕ) → m < j → b m ≢ 0)
    → copy_string n r (ended b n) 0 j ≡ b j
copied n r b j h full =
    copy_string-prefix n r (ended b n) 0 j (omega arith) (omega arith)
      (λ m l l'. rw (ne→== n m (omega arith)) (full m l'))
    ∙ rw (ne→== n j (omega arith))

copied_end :
    (n : ℕ) (r b : Block) → ((m : ℕ) → m < n → b m ≢ 0) → copy_string n r (ended b n) 0 n ≡ 0
copied_end n r b full =
    copy_string-prefix n r (ended b n) 0 n (omega arith) (omega arith)
      (λ m l l'. rw (ne→== n m (omega arith)) (full m l'))
    ∙ rw (==_refl n)

-- What a read of `len` bytes from `offset` on gives: the bytes up to the asked length or the end of
-- the file, of which the caller's memory gets those up to and with the first 0, and a 0 behind the
-- last one where there is none.
abbrev pub FileRead : Fs → Vinode → ℕ → ℕ → ℕ × ℕ × Block × Fs → Type 0
FileRead fs v len offset (n, offset', r, fs') =
    (n ≡ min len (v.size - offset))
    × (offset' ≡ offset + n)
    × (fs'.dev.blocks ≡ fs.dev.blocks)
    × ((j : ℕ)
        → j < n
        → ((m : ℕ) → m < j → file_byte fs.dev v (offset + m) ≢ 0)
        → r j ≡ file_byte fs.dev v (offset + j))
    × (((m : ℕ) → m < n → file_byte fs.dev v (offset + m) ≢ 0) → r n ≡ 0)

-- A read inside a file whose blocks are on the disk does not fail. It gives the number of bytes up to
-- the asked length or the end of the file, moves the offset by as many, and leaves the blocks. The
-- memory of the caller gets the bytes of the file up to and with the first 0 among them, and a 0
-- behind the last one where there is none.
pub rfs_read-FileRead :
    (fs : Fs) (v : Vinode) (r_buf buffer : Block) (len offset : ℕ)
    → IsLaid v
    → v.size ≤ v.blocks * pgsize
    → offset ≤ v.size
    → offset < v.blocks * pgsize
    → Returns (rfs_read fs v r_buf buffer len offset) (FileRead fs v len offset)
unfolding rfs_read
rfs_read-FileRead fs v r_buf buffer len offset laid fit inside low = go (
    Ends→Returns (fill_buffer fs.dev v buffer n offset) (
      fill_buffer-Read v laid fs.dev buffer n offset low
        (omega (arith, clamp_len_within v len offset inside, fit))))
  where
    n : ℕ
    n = clamp_len v len offset

    go :
        Returns (fill_buffer fs.dev v buffer n offset) (Read v laid fs.dev buffer 0 offset n)
        → Returns (rfs_read fs v r_buf buffer len offset) (FileRead fs v len offset)
    go ((d, b), run, (same, _, all)) = (
      (n, offset + n, copy_string n r_buf (ended b n) 0, record fs { dev = d }),
      rw (le→ltb v.size offset inside, run, ◌>>=◌),
      (
        clamp_len-min v len offset inside,
        refl,
        same,
        (λ j h full. copied n r_buf b j h (λ m l. nonzero m (omega arith) (full m l)) ∙ at j h),
        (λ full. copied_end n r_buf b (λ m l. nonzero m l (full m l))),
      ),
    )
      where
        at : (j : ℕ) → j < n → b j ≡ file_byte fs.dev v (offset + j)
        at j h = ap b (omega arith) ∙ all j h

        nonzero : (m : ℕ) → m < n → file_byte fs.dev v (offset + m) ≢ 0 → b m ≢ 0
        nonzero m h f z = f (sym (at m h) ∙ z)

-- ===== src/Rfs/File/Whole.antt =====
-- A whole `rfs_write` of kernel/rfs.c, and a read behind it.
use cabbage_pke.Common.{
  ℕ, zero, suc, ◌+◌, ◌-◌, ◌*◌, ◌/◌, ◌%◌, ◌≤◌, ◌<◌, ◌≡◌, ◌≢◌, refl, sym, ◌∙◌, ap, inl, inr, arith,
  max, subst, Run, ok, ◌>>=◌, Returns, Ends, Ends-bind, Ends-mono, Ends→Returns, ltb, le→ltb, ◌==◌,
  if◌then◌else◌, Bool-cases, ne→==, lt→leb,
}
use cabbage_pke.Pmm.{pgsize}
use cabbage_pke.Rfs.{Block, ramdisk_write, rfs_w1block, blit, Fs, Vinode}
use cabbage_pke.Rfs.Inodes.{blit-in, blit-out}
use cabbage_pke.Rfs.Blocks.Room.{free_count}
use cabbage_pke.Rfs.File.{write_addr, write_first, write_rest, write_blocks, rfs_write, rfs_read}
use cabbage_pke.Rfs.File.Read.{file_byte, read_addr_lem, FileRead, rfs_read-FileRead}
use cabbage_pke.Rfs.File.Owned.{IsOwned, IsOwned→IsLaid, Wrote, Wrote-trans}
use cabbage_pke.Rfs.File.Store.{store-Wrote}
use cabbage_pke.Rfs.File.Write.{write_rest-Wrote}

write_first-Wrote :
    (fs : Fs) (v : Vinode) (i a : ℕ) (w : Block) (n p : ℕ)
    → IsOwned fs v
    → i < v.blocks
    → a + n ≤ pgsize
    → p ≡ i * pgsize + a
    → Ends (write_first fs v i a w n) (λ fs'. Wrote fs v w 0 p n fs' v)
unfolding write_first write_addr rfs_w1block ramdisk_write
write_first-Wrote fs v i a w n p owned h fit ep =
    rw
      (
        read_addr_lem v (IsOwned→IsLaid fs v owned) fs.dev i h,
        lt→leb 10 i (omega (arith, owned.blocks)),
        lt→leb 128 (v.addrs i) (omega (arith, owned.high i h, owned.nblocks)),
        ◌>>=◌,
      )
      (store-Wrote fs v w 0 i a n p (blit old a w 0 n) owned h fit ep
        (λ j l. blit-in old w a 0 n (a + j) (omega arith) (omega arith) ∙ ap w (omega arith))
        (λ q l. blit-out old w a 0 n q (inl l)))
  where
    old : Block
    old = fs.dev.blocks (v.addrs i)

-- The part of `write_blocks` for a write that starts inside a block.
abbrev inside_block : ℕ → ℕ → ℕ → ℕ → ℕ → Fs → Vinode → Block → Run (Fs × Vinode)
inside_block times remain i a len fs v w =
    write_first fs v i a w (if times == 0 then len else pgsize - a) >>= λ fs'.
    if times == 0 then ok (fs', v) else write_rest (times - 1) remain fs' v (i + 1) w (pgsize - a)

inside_block-Wrote :
    (times remain i a len : ℕ) (fs : Fs) (v : Vinode) (w : Block)
    → IsOwned fs v
    → 0 < a
    → a < pgsize
    → remain < pgsize
    → len + a ≡ times * pgsize + remain
    → i < v.blocks
    → i * pgsize + a + len ≤ 10 * pgsize
    → i * pgsize + a + len ≤ (v.blocks + free_count fs) * pgsize
    → Ends
        (inside_block times remain i a len fs v w)
        (λ (fs', v'). Wrote fs v w 0 (i * pgsize + a) len fs' v')
inside_block-Wrote zero remain i a len fs v w owned some_a small small' sum low high room =
    Ends-bind (λ (fs', v'). Wrote fs v w 0 (i * pgsize + a) len fs' v') (write_first fs v i a w len)
      _ (write_first-Wrote fs v i a w len (i * pgsize + a) owned low (omega arith) refl)
      (λ fs' one. one)
inside_block-Wrote (suc t) remain i a len fs v w owned some_a small small' sum low high room =
    rw (ne→== (suc t) 0 (omega arith)) (
      Ends-bind (λ (fs', v'). Wrote fs v w 0 (i * pgsize + a) len fs' v')
        (write_first fs v i a w (pgsize - a)) _
        (write_first-Wrote fs v i a w (pgsize - a) (i * pgsize + a) owned low (omega arith) refl)
        (λ fs' one.
          Ends-mono (write_rest (suc t - 1) remain fs' v (i + 1) w (pgsize - a))
            (write_rest-Wrote (suc t - 1) remain fs' v (i + 1) w (pgsize - a) ((i + 1) * pgsize)
              (len - (pgsize - a)) one.owned small' (omega arith) refl (omega arith) (omega arith)
              (omega (arith, one.room)))
            (λ (fs'', v'') two.
              Wrote-trans fs fs' fs'' v v v'' w 0 (i * pgsize + a) (pgsize - a) (len - (pgsize - a))
                (pgsize - a) ((i + 1) * pgsize) len (omega arith) (omega arith) (omega arith) one
                two)))

write_blocks-Wrote :
    (fs : Fs) (v : Vinode) (w : Block) (len offset : ℕ)
    → IsOwned fs v
    → offset ≤ v.blocks * pgsize
    → offset + len ≤ 10 * pgsize
    → offset + len ≤ (v.blocks + free_count fs) * pgsize
    → Ends (write_blocks fs v w len offset) (λ (fs', v'). Wrote fs v w 0 offset len fs' v')
unfolding write_blocks
write_blocks-Wrote fs v w len offset owned low high room =
    elim (Bool-cases (offset % pgsize == 0)) [
      | inl e ↦ rw e (
          write_rest-Wrote ((len + offset % pgsize) / pgsize) ((len + offset % pgsize) % pgsize) fs
            v (offset / pgsize) w 0 offset len owned (omega arith) (ground arith) (ground arith)
            (ground arith) high room)
      | inr e ↦ rw e (
          Ends-mono (inside_block times remain i a len fs v w)
            (inside_block-Wrote times remain i a len fs v w owned (ground arith) (omega arith)
              (omega arith) (omega arith) (ground arith) (omega arith) (omega arith))
            (λ (fs', v') one. at_offset fs' v' one))
    ]
  where
    i : ℕ
    i = offset / pgsize

    a : ℕ
    a = offset % pgsize

    times : ℕ
    times = (len + offset % pgsize) / pgsize

    remain : ℕ
    remain = (len + offset % pgsize) % pgsize

    at_offset :
        (fs' : Fs) (v' : Vinode)
        → Wrote fs v w 0 (i * pgsize + a) len fs' v'
        → Wrote fs v w 0 offset len fs' v'
    at_offset fs' v' one = subst (λ p. Wrote fs v w 0 p len fs' v') (omega arith) one

-- What a write of the `len` bytes of `w` at `offset` gives.
abbrev pub FileWritten : Fs → Vinode → Block → ℕ → ℕ → ℕ × ℕ × Vinode × Fs → Type 0
FileWritten fs v w len offset (n, offset', v', fs') =
    (n ≡ len)
    × (offset' ≡ offset + len)
    × (v'.size ≡ max v.size (offset + len))
    × (v'.size ≤ v'.blocks * pgsize)
    × IsOwned fs' v'
    × ((j : ℕ) → j < len → file_byte fs'.dev v' (offset + j) ≡ w j)
    × ((q : ℕ) → q < offset → file_byte fs'.dev v' q ≡ file_byte fs.dev v q)
    × ((m : ℕ) → ((i : ℕ) → i < v'.blocks → v'.addrs i ≢ m) → fs'.dev.blocks m ≡ fs.dev.blocks m)

-- A write at an offset within the file, for which the address array and the free map have room, does
-- not fail. It moves the offset by the length, and the size to the end of the write where that is
-- behind it; the file holds the bytes written, the positions before the offset keep theirs, and so do
-- the blocks that are not the file's. The blocks of the file stay different, taken, and enough.
pub rfs_write-FileWritten :
    (fs : Fs) (v : Vinode) (w : Block) (len offset : ℕ)
    → IsOwned fs v
    → v.size ≤ v.blocks * pgsize
    → offset ≤ v.size
    → offset + len ≤ 10 * pgsize
    → offset + len ≤ (v.blocks + free_count fs) * pgsize
    → Returns (rfs_write fs v w len offset) (FileWritten fs v w len offset)
unfolding rfs_write
rfs_write-FileWritten fs v w len offset owned fit within high room = go (
    Ends→Returns (write_blocks fs v w len offset)
      (write_blocks-Wrote fs v w len offset owned (omega arith) high room))
  where
    parts :
        (fs' : Fs) (v' : Vinode)
        → Wrote fs v w 0 offset len fs' v'
        → FileWritten fs v w len offset (
          len,
          offset + len,
          record v' { size = if ltb v'.size (offset + len) then offset + len else v'.size },
          fs',
        )
    parts fs' v' done = (
      refl,
      refl,
      size done.size,
      bound done.size (omega (arith, done.more)) done.reach,
      record {
        blocks = done.owned.blocks;
        low = done.owned.low;
        high = done.owned.high;
        taken = done.owned.taken;
        distinct = done.owned.distinct;
        nblocks = done.owned.nblocks;
      },
      (λ j h. done.here j h ∙ ap w (omega arith)),
      done.before,
      done.others,
    )
      where
        size :
            v'.size ≡ v.size
            → (if ltb v'.size (offset + len) then offset + len else v'.size)
              ≡ max v.size (offset + len)
        size e = ground arith

        bound :
            v'.size ≡ v.size
            → v.size ≤ v'.blocks * pgsize
            → offset + len ≤ v'.blocks * pgsize
            → (if ltb v'.size (offset + len) then offset + len else v'.size) ≤ v'.blocks * pgsize
        bound e h h' = ground arith

    go :
        Returns (write_blocks fs v w len offset) (λ (fs', v'). Wrote fs v w 0 offset len fs' v')
        → Returns (rfs_write fs v w len offset) (FileWritten fs v w len offset)
    go ((fs', v'), run, done) = (
      (
        len,
        offset + len,
        record v' { size = if ltb v'.size (offset + len) then offset + len else v'.size },
        fs',
      ),
      rw (le→ltb v.size offset within, run, ◌>>=◌),
      parts fs' v' done,
    )

-- Bytes without a 0 that are written are what a read of as many at the same offset gives, followed by
-- a 0; neither fails, where the file and the free map have room for the write.
pub write-read :
    (fs : Fs) (v : Vinode) (w r_buf buffer : Block) (len offset : ℕ)
    → IsOwned fs v
    → v.size ≤ v.blocks * pgsize
    → offset ≤ v.size
    → 0 < len
    → offset + len ≤ 10 * pgsize
    → offset + len ≤ (v.blocks + free_count fs) * pgsize
    → ((j : ℕ) → j < len → w j ≢ 0)
    → Returns
        (do (_, _, v', fs') ← rfs_write fs v w len offset; rfs_read fs' v' r_buf buffer len offset)
        (λ (n, _, r, _). (n ≡ len) × ((j : ℕ) → j < len → r j ≡ w j) × (r len ≡ 0))
write-read fs v w r_buf buffer len offset owned fit within some_len high room text =
    go (rfs_write-FileWritten fs v w len offset owned fit within high room)
  where
    go :
        Returns (rfs_write fs v w len offset) (FileWritten fs v w len offset)
        → Returns
            (rfs_write fs v w len offset >>= λ (_, _, v', fs').
              rfs_read fs' v' r_buf buffer len offset)
            (λ (n, _, r, _). (n ≡ len) × ((j : ℕ) → j < len → r j ≡ w j) × (r len ≡ 0))
    go ((n, o, v', fs'), run, (_, _, size, fit', owned', here, _, _)) = after (
        rfs_read-FileRead fs' v' r_buf buffer len offset (IsOwned→IsLaid fs' v' owned') fit'
          (omega arith) (omega arith))
      where
        after :
            Returns (rfs_read fs' v' r_buf buffer len offset) (FileRead fs' v' len offset)
            → Returns
                (rfs_write fs v w len offset >>= λ (_, _, v', fs').
                  rfs_read fs' v' r_buf buffer len offset)
                (λ (n, _, r, _). (n ≡ len) × ((j : ℕ) → j < len → r j ≡ w j) × (r len ≡ 0))
        after ((n', o', r, fs''), run', (count, _, _, bytes, end)) = (
          (n', o', r, fs''),
          rw (run, ◌>>=◌) run',
          (
            length,
            (λ j h. bytes j (omega arith) (λ m l. nonzero m (omega arith)) ∙ here j h),
            ap r (sym length) ∙ end (λ m l. nonzero m (omega arith)),
          ),
        )
          where
            length : n' ≡ len
            length = omega arith

            nonzero : (m : ℕ) → m < len → file_byte fs'.dev v' (offset + m) ≢ 0
            nonzero m l z = text m l (sym (here m l) ∙ z)

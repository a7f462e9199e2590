-- ===== src/Rfs/File/Read/Fill.antt =====
-- The buffer that `rfs_read` of kernel/rfs.c fills from the blocks of a file.
use cabbage_pke.Common.{
  ℕ, zero, suc, ◌+◌, ◌-◌, ◌*◌, ◌/◌, ◌%◌, ◌≤◌, ◌<◌, ◌≡◌, refl, sym, ◌∙◌, ap, inl, inr, arith, ok,
  ◌>>=◌, Ends, Ends-mono, Ends-bind, ltb, ◌==◌, if◌then◌else◌, ltb→lt, ltb→le, Bool-cases, ==_iff,
  ne→==, lt→leb,
}
use cabbage_pke.Pmm.{pgsize}
use cabbage_pke.Rfs.{Block, RfsDevice, ramdisk_read, rfs_r1block, blit, Vinode}
use cabbage_pke.Rfs.Inodes.{blit-in, blit-out}
use cabbage_pke.Rfs.File.{read_addr, read_whole, read_rest, fill_buffer}

-- The blocks of the file lie in its address array and on the disk.
pub record IsLaid (v : Vinode) : Type 0 where
  pub blocks : v.blocks ≤ 10
  pub addrs : (i : ℕ) → i < v.blocks → v.addrs i < 128

-- The byte at position `p` of the file.
abbrev pub file_byte : RfsDevice → Vinode → ℕ → ℕ
file_byte d v p = d.blocks (v.addrs (p / pgsize)) (p % pgsize)

module _ (v : Vinode) (laid : IsLaid v) where
  pub read_addr_lem :
      (d : RfsDevice) (i : ℕ)
      → i < v.blocks
      → read_addr d v i ≡ ok (record d { iobuffer = d.blocks (v.addrs i) })
  unfolding read_addr rfs_r1block ramdisk_read
  read_addr_lem d i h =
      rw (lt→leb 10 i (omega (arith, laid.blocks)), lt→leb 128 (v.addrs i) (laid.addrs i h), ◌>>=◌)

  -- The block's bytes are the file's bytes.
  file_byte_lem :
      (d : RfsDevice) (i q p : ℕ)
      → q < pgsize
      → p ≡ i * pgsize + q
      → d.blocks (v.addrs i) q ≡ file_byte d v p
  file_byte_lem d i q p h e = ap2 (sym number) (sym offset)
    where
      number : p / pgsize ≡ i
      number = omega arith

      offset : p % pgsize ≡ q
      offset = omega arith

      ap2 : {i i' q q' : ℕ} → i ≡ i' → q ≡ q' → d.blocks (v.addrs i) q ≡ d.blocks (v.addrs i') q'
      ap2 {i = i} {q' = q'} e e' =
          ap (d.blocks (v.addrs i)) e' ∙ ap (λ k. d.blocks (v.addrs k) q') e

  -- `n` bytes of the file from `p` on stand in the buffer at `at`, and the rest of it below `at`
  -- and the blocks are what they were.
  abbrev pub Read : RfsDevice → Block → ℕ → ℕ → ℕ → RfsDevice × Block → Type 0
  Read d buffer at p n (d', b) =
      (d'.blocks ≡ d.blocks)
      × ((q : ℕ) → q < at → b q ≡ buffer q)
      × ((j : ℕ) → j < n → b (at + j) ≡ file_byte d v (p + j))

  -- The copy of a part, and then what follows it.
  Read-then :
      (d : RfsDevice) (buffer io part : Block) (at s p n m at' p' total : ℕ) (r : RfsDevice × Block)
      → ((j : ℕ) → j < n → part (s + j) ≡ file_byte d v (p + j))
      → at' ≡ at + n
      → p' ≡ p + n
      → total ≡ n + m
      → Read (record d { iobuffer = io }) (blit buffer at part s n) at' p' m r
      → Read d buffer at p total r
  Read-then d buffer io part at s p n m at' p' total (d', b) content ea ep et (same, below, above) =
      (same, (λ q h. below q (omega arith) ∙ blit-out buffer part at s n q (inl h)), all)
    where
      in_part : (j : ℕ) → j < n → b (at + j) ≡ file_byte d v (p + j)
      in_part j h =
          below (at + j) (omega arith)
          ∙ blit-in buffer part at s n (at + j) (omega arith) (omega arith)
          ∙ ap part (omega arith)
          ∙ content j h

      all : (j : ℕ) → j < total → b (at + j) ≡ file_byte d v (p + j)
      all j h = elim (Bool-cases (ltb j n)) [
        | inl e ↦ in_part j (ltb→lt j n e)
        | inr e ↦ behind (ltb→le j n e)
      ]
        where
          behind : n ≤ j → b (at + j) ≡ file_byte d v (p + j)
          behind le =
              ap b {x = at + j} {y = at' + (j - n)} (omega arith)
              ∙ above (j - n) (omega arith)
              ∙ ap (file_byte d v) (omega arith)

  read_whole-Read :
      (k : ℕ) (d : RfsDevice) (i at p total : ℕ) (buffer : Block)
      → p ≡ i * pgsize
      → total ≡ k * pgsize
      → i + k ≤ v.blocks
      → Ends (read_whole k d v i at buffer) (Read d buffer at p total)
  unfolding read_whole
  read_whole-Read zero d i at p total buffer ep et h =
      (refl, (λ q l. refl), (λ j l. absurd (omega arith)))
  read_whole-Read (suc k) d i at p total buffer ep et h = rw (read_addr_lem d i (omega arith)) (
      Ends-mono
        (read_whole k d₁ v (i + 1) (at + pgsize) (blit buffer at (d.blocks (v.addrs i)) 0 pgsize))
        (read_whole-Read k d₁ (i + 1) (at + pgsize) (p + pgsize) (k * pgsize)
          (blit buffer at (d.blocks (v.addrs i)) 0 pgsize) (omega arith) refl (omega arith))
        (λ r done.
          Read-then d buffer (d.blocks (v.addrs i)) (d.blocks (v.addrs i)) at 0 p pgsize
            (k * pgsize) (at + pgsize) (p + pgsize) total r
            (λ j l. file_byte_lem d i (0 + j) (p + j) (omega arith) (omega arith)) refl refl
            (omega arith) done))
    where
      d₁ : RfsDevice
      d₁ = record d { iobuffer = d.blocks (v.addrs i) }

  -- A part that is copied behind what was read.
  then-Read :
      (d d₁ d' : RfsDevice) (buffer b part : Block) (at p n m total : ℕ)
      → Read d buffer at p n (d₁, b)
      → d'.blocks ≡ d.blocks
      → ((j : ℕ) → j < m → part j ≡ file_byte d v (p + n + j))
      → total ≡ n + m
      → Read d buffer at p total (d', blit b (at + n) part 0 m)
  then-Read d d₁ d' buffer b part at p n m total (_, below, above) same content et =
      (same, (λ q h. blit-out b part (at + n) 0 m q (inl (omega arith)) ∙ below q h), all)
    where
      b' : Block
      b' = blit b (at + n) part 0 m

      in_part : (j : ℕ) → n ≤ j → j < total → b' (at + j) ≡ file_byte d v (p + j)
      in_part j h l =
          blit-in b part (at + n) 0 m (at + j) (omega arith) (omega arith)
          ∙ content (0 + (at + j - (at + n))) (omega arith)
          ∙ ap (file_byte d v) (omega arith)

      all : (j : ℕ) → j < total → b' (at + j) ≡ file_byte d v (p + j)
      all j h = elim (Bool-cases (ltb j n)) [
        | inl e ↦ before (ltb→lt j n e)
        | inr e ↦ in_part j (ltb→le j n e) h
      ]
        where
          before : j < n → b' (at + j) ≡ file_byte d v (p + j)
          before l = blit-out b part (at + n) 0 m (at + j) (inl (omega arith)) ∙ above j l

  -- What `read_rest` does in the blocks behind the first.
  read_rest-Read :
      (times remain : ℕ) (d : RfsDevice) (i at p total : ℕ) (buffer : Block)
      → p ≡ i * pgsize
      → total ≡ times * pgsize + remain
      → remain < pgsize
      → i * pgsize + total ≤ v.blocks * pgsize
      → Ends (read_rest (suc times) remain d v i at buffer) (Read d buffer at p total)
  unfolding read_rest
  read_rest-Read times remain d i at p total buffer ep et small h =
      Ends-bind (Read d buffer at p total) (read_whole times d v i at buffer) _
        (read_whole-Read times d i at p (times * pgsize) buffer ep refl (omega arith))
        (λ (d₁, b) done. elim (Bool-cases (remain == 0)) [
          | inl e ↦ rw e (none_left d₁ b done ((==_iff remain 0).0 e))
          | inr e ↦
              rw (e, read_addr_lem d₁ (i + times) (ground arith))
                (then-Read d d₁ (record d₁ { iobuffer = d₁.blocks (v.addrs (i + times)) }) buffer b
                  (d₁.blocks (v.addrs (i + times))) at p (times * pgsize) remain total done (done.0)
                  (λ j l.
                    ap (λ f. f (v.addrs (i + times)) j) done.0
                    ∙ file_byte_lem d (i + times) j (p + times * pgsize + j) (omega arith)
                        (omega arith))
                  et)
        ])
    where
      none_left :
          (d₁ : RfsDevice) (b : Block)
          → Read d buffer at p (times * pgsize) (d₁, b)
          → remain ≡ 0
          → Read d buffer at p total (d₁, b)
      none_left d₁ b (same, below, above) e = (same, below, (λ j l. above j (omega arith)))

  -- `fill_buffer` with its numbers named: `i` and `a` are the block and the place in it.
  fill-Read :
      (times remain i a len : ℕ) (d : RfsDevice) (buffer : Block)
      → a < pgsize
      → remain < pgsize
      → a + len ≡ times * pgsize + remain
      → i * pgsize + a < v.blocks * pgsize
      → i * pgsize + a + len ≤ v.blocks * pgsize
      → Ends
          (read_addr d v i >>= λ d₁.
            read_rest times remain d₁ v
              (i + 1)
              (if times == 0 then len else pgsize - a)
              (blit buffer 0 d₁.iobuffer a (if times == 0 then len else pgsize - a)))
          (Read d buffer 0 (i * pgsize + a) len)
  unfolding read_rest
  fill-Read zero remain i a len d buffer small small' sum low high =
      rw (read_addr_lem d i (omega arith)) (
        Read-then d buffer io io 0 a (i * pgsize + a) len 0 (0 + len) (i * pgsize + a + len) len
          (record d { iobuffer = io }, blit buffer 0 io a len)
          (λ j l. file_byte_lem d i (a + j) (i * pgsize + a + j) (omega arith) (omega arith)) refl
          refl (omega arith) (refl, (λ q h. refl), (λ j h. absurd (omega arith))))
    where
      io : Block
      io = d.blocks (v.addrs i)
  fill-Read (suc t) remain i a len d buffer small small' sum low high =
      rw (read_addr_lem d i (omega arith), ne→== (suc t) 0 (omega arith))
        (Ends-mono
          (read_rest (suc t) remain d₁ v (i + 1) (pgsize - a) (blit buffer 0 io a (pgsize - a)))
          (read_rest-Read t remain d₁ (i + 1) (pgsize - a) ((i + 1) * pgsize) (t * pgsize + remain)
            (blit buffer 0 io a (pgsize - a)) refl refl small' (omega arith))
          (λ r done.
            Read-then d buffer io io 0 a (i * pgsize + a) (pgsize - a) (t * pgsize + remain)
              (pgsize - a) ((i + 1) * pgsize) len r
              (λ j l. file_byte_lem d i (a + j) (i * pgsize + a + j) (omega arith) (omega arith))
              (omega arith) (omega arith) (omega arith) done))
    where
      io : Block
      io = d.blocks (v.addrs i)

      d₁ : RfsDevice
      d₁ = record d { iobuffer = io }

  pub fill_buffer-Read :
      (d : RfsDevice) (buffer : Block) (len offset : ℕ)
      → offset < v.blocks * pgsize
      → offset + len ≤ v.blocks * pgsize
      → Ends (fill_buffer d v buffer len offset) (Read d buffer 0 offset len)
  unfolding fill_buffer
  fill_buffer-Read d buffer len offset low high =
      Ends-mono (fill_buffer d v buffer len offset)
        (fill-Read ((offset % pgsize + len) / pgsize) ((offset % pgsize + len) % pgsize)
          (offset / pgsize) (offset % pgsize) len d buffer (omega arith) (omega arith) (omega arith)
          (omega arith) (omega arith))
        (λ r (same, below, all). (same, below, λ j h. all j h ∙ ap (file_byte d v) (omega arith)))

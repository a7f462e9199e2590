-- ===== src/Rfs/File/Fuel.antt =====
-- `rfs_read` and `rfs_write` of kernel/rfs.c end within the fuel of the model.
use cabbage_pke.Common.{
  ℕ, zero, suc, ◌+◌, ◌-◌, ◌*◌, ◌/◌, ◌%◌, ◌≤◌, ◌≡◌, refl, ◌∙◌, Bool, true, false, arith, Run, ok,
  panic, fault, ◌>>=◌, Stops, Stops-bind, Stops-mono, ltb, leb, ◌==◌, if◌then◌else◌,
}
use cabbage_pke.Pmm.{pgsize}
use cabbage_pke.Rfs.{
  Block, RfsDevice, ramdisk_block_count, rfs_r1block, rfs_w1block, ramdisk_read, ramdisk_write,
  blit, rfs_direct_blknum, Fs, alloc_from, rfs_alloc_block, Vinode,
}
use cabbage_pke.Rfs.File.{
  read_addr, write_addr, read_whole, read_rest, fill_buffer, clamp_len, rfs_read, grow, put_block,
  write_whole, write_rest, write_first, write_blocks, rfs_write,
}

Stops-if {ℓ} :
    {A : Type ℓ} (P : A → Type 0) (b : Bool) (x y : Run A)
    → Stops x P
    → Stops y P
    → Stops (if b then x else y) P
Stops-if P true x y hx hy = hx
Stops-if P false x y hx hy = hy

abbrev Any {ℓ} : {A : Type ℓ} → A → Type 0
Any a = Unit

rfs_r1block-Stops : (d : RfsDevice) (n : ℕ) → Stops (rfs_r1block d n) Any
unfolding rfs_r1block ramdisk_read
rfs_r1block-Stops d n = Stops-if Any (leb ramdisk_block_count n) panic _ tt tt

rfs_w1block-Stops : (d : RfsDevice) (n : ℕ) → Stops (rfs_w1block d n) Any
unfolding rfs_w1block ramdisk_write
rfs_w1block-Stops d n = Stops-if Any (leb ramdisk_block_count n) panic _ tt tt

Stops-seq {ℓ κ} :
    {A : Type ℓ} {B : Type κ} (Q : B → Type 0) (r : Run A) (f : A → Run B)
    → Stops r Any
    → ((a : A) → Stops (f a) Q)
    → Stops (r >>= f) Q
Stops-seq Q r f h next = Stops-bind Q r f h (λ a e u. next a)

read_addr-Stops : (d : RfsDevice) (v : Vinode) (i : ℕ) → Stops (read_addr d v i) Any
unfolding read_addr
read_addr-Stops d v i =
    Stops-if Any (leb rfs_direct_blknum i) fault _ tt
      (Stops-seq Any (rfs_r1block d (v.addrs i)) _ (rfs_r1block-Stops d (v.addrs i)) (λ got. tt))

write_addr-Stops : (d : RfsDevice) (v : Vinode) (i : ℕ) → Stops (write_addr d v i) Any
unfolding write_addr
write_addr-Stops d v i =
    Stops-if Any (leb rfs_direct_blknum i) fault _ tt
      (Stops-seq Any (rfs_w1block d (v.addrs i)) _ (rfs_w1block-Stops d (v.addrs i)) (λ got. tt))

read_whole-Stops :
    (k : ℕ) (d : RfsDevice) (v : Vinode) (i at : ℕ) (buffer : Block)
    → Stops (read_whole k d v i at buffer) Any
unfolding read_whole
read_whole-Stops zero d v i at buffer = tt
read_whole-Stops (suc k) d v i at buffer =
    Stops-seq Any (read_addr d v i) _ (read_addr-Stops d v i)
      (λ d'. read_whole-Stops k d' v (i + 1) (at + pgsize) (blit buffer at d'.iobuffer 0 pgsize))

read_rest-Stops :
    (times remain : ℕ) (d : RfsDevice) (v : Vinode) (i at : ℕ) (buffer : Block)
    → Stops (read_rest times remain d v i at buffer) Any
unfolding read_rest
read_rest-Stops zero remain d v i at buffer = tt
read_rest-Stops (suc times) remain d v i at buffer =
    Stops-seq Any (read_whole times d v i at buffer) _ (read_whole-Stops times d v i at buffer)
      (λ (d₁, whole). Stops-if Any (remain == 0) (ok (d₁, whole)) _ tt (
        Stops-seq Any (read_addr d₁ v (i + times)) _ (read_addr-Stops d₁ v (i + times)) (λ d₂. tt)))

fill_buffer-Stops :
    (d : RfsDevice) (v : Vinode) (buffer : Block) (len offset : ℕ)
    → Stops (fill_buffer d v buffer len offset) Any
unfolding fill_buffer
fill_buffer-Stops d v buffer len offset =
    Stops-seq Any (read_addr d v (offset / pgsize)) _ (read_addr-Stops d v (offset / pgsize)) (λ d₁.
      read_rest-Stops ((offset % pgsize + len) / pgsize) ((offset % pgsize + len) % pgsize) d₁ v
        (offset / pgsize + 1)
        (if (offset % pgsize + len) / pgsize == 0 then len else pgsize - offset % pgsize)
        (blit buffer 0 d₁.iobuffer (offset % pgsize)
          (if (offset % pgsize + len) / pgsize == 0 then len else pgsize - offset % pgsize)))

clamp_len_le : (v : Vinode) (len offset : ℕ) → clamp_len v len offset ≤ len
unfolding clamp_len
clamp_len_le v len offset = ground arith

-- A read gives no more bytes than were asked for.
pub rfs_read-Stops :
    (fs : Fs) (v : Vinode) (r_buf buffer : Block) (len offset : ℕ)
    → Stops (rfs_read fs v r_buf buffer len offset) (λ got. got.0 ≤ len)
unfolding rfs_read
rfs_read-Stops fs v r_buf buffer len offset =
    Stops-if (λ got. got.0 ≤ len) (ltb v.size offset) panic _ tt
      (Stops-seq (λ got. got.0 ≤ len) (fill_buffer fs.dev v buffer (clamp_len v len offset) offset)
        _ (fill_buffer-Stops fs.dev v buffer (clamp_len v len offset) offset)
        (λ got. clamp_len_le v len offset))

alloc_from-Stops : (k block : ℕ) (fs : Fs) → Stops (alloc_from k block fs) Any
unfolding alloc_from
alloc_from-Stops zero block fs = tt
alloc_from-Stops (suc k) block fs =
    Stops-if Any (fs.freemap block == 0) _ _ tt (alloc_from-Stops k (block + 1) fs)

-- The vinode keeps its type.
abbrev SameType : Vinode → Fs × Vinode → Type 0
SameType v (fs, v') = v'.type ≡ v.type

grow-Stops : (fs : Fs) (v : Vinode) (i : ℕ) → Stops (grow fs v i) (SameType v)
unfolding grow rfs_alloc_block
grow-Stops fs v i =
    Stops-if (SameType v) (i == v.blocks) _ (ok (fs, v))
      (Stops-if (SameType v) (leb rfs_direct_blknum i) fault _ tt (
        Stops-seq (SameType v) (alloc_from fs.nblocks 0 fs) _ (alloc_from-Stops fs.nblocks 0 fs)
          (λ got. refl)))
      refl

put_block-Stops :
    (fs : Fs) (v : Vinode) (i : ℕ) (w : Block) (at n : ℕ) → Stops (put_block fs v i w at n) Any
unfolding put_block
put_block-Stops fs v i w at n =
    Stops-seq Any (write_addr (record fs.dev { iobuffer = blit fs.dev.iobuffer 0 w at n }) v i) _
      (write_addr-Stops (record fs.dev { iobuffer = blit fs.dev.iobuffer 0 w at n }) v i) (λ d. tt)

write_whole-Stops :
    (k : ℕ) (fs : Fs) (v : Vinode) (i : ℕ) (w : Block) (at : ℕ)
    → Stops (write_whole k fs v i w at) (SameType v)
unfolding write_whole
write_whole-Stops zero fs v i w at = refl
write_whole-Stops (suc k) fs v i w at =
    Stops-bind (SameType v) (grow fs v i) _ (grow-Stops fs v i) (λ (fs₁, v₁) e same.
      Stops-seq (SameType v) (put_block fs₁ v₁ i w at pgsize) _
        (put_block-Stops fs₁ v₁ i w at pgsize)
        (λ fs₂.
          Stops-mono (write_whole k fs₂ v₁ (i + 1) w (at + pgsize))
            (write_whole-Stops k fs₂ v₁ (i + 1) w (at + pgsize)) (λ got e'. e' ∙ same)))

write_rest-Stops :
    (times remain : ℕ) (fs : Fs) (v : Vinode) (i : ℕ) (w : Block) (at : ℕ)
    → Stops (write_rest times remain fs v i w at) (SameType v)
unfolding write_rest
write_rest-Stops times remain fs v i w at =
    Stops-bind (SameType v) (write_whole times fs v i w at) _ (write_whole-Stops times fs v i w at)
      (λ (fs₁, v₁) e same. Stops-if (SameType v) (remain == 0) (ok (fs₁, v₁)) _ same (
        Stops-bind (SameType v) (grow fs₁ v₁ (i + times)) _ (grow-Stops fs₁ v₁ (i + times))
          (λ (fs₂, v₂) e' same'.
            Stops-seq (SameType v) (put_block fs₂ v₂ (i + times) w (at + times * pgsize) remain) _
              (put_block-Stops fs₂ v₂ (i + times) w (at + times * pgsize) remain)
              (λ fs₃. same' ∙ same))))

write_first-Stops :
    (fs : Fs) (v : Vinode) (i align : ℕ) (w : Block) (n : ℕ)
    → Stops (write_first fs v i align w n) Any
unfolding write_first
write_first-Stops fs v i align w n =
    Stops-seq Any (read_addr fs.dev v i) _ (read_addr-Stops fs.dev v i) (λ d.
      Stops-seq Any (write_addr (record d { iobuffer = blit d.iobuffer align w 0 n }) v i) _
        (write_addr-Stops (record d { iobuffer = blit d.iobuffer align w 0 n }) v i) (λ d'. tt))

write_blocks-Stops :
    (fs : Fs) (v : Vinode) (w : Block) (len offset : ℕ)
    → Stops (write_blocks fs v w len offset) (SameType v)
unfolding write_blocks
write_blocks-Stops fs v w len offset =
    Stops-if (SameType v) (align == 0) _ _ (write_rest-Stops times remain fs v i w 0) (
      Stops-seq (SameType v) (write_first fs v i align w first) _
        (write_first-Stops fs v i align w first)
        (λ fs'.
          Stops-if (SameType v) (times == 0) (ok (fs', v)) _ refl
            (write_rest-Stops (times - 1) remain fs' v (i + 1) w (pgsize - align))))
  where
    align : ℕ
    align = offset % pgsize

    times : ℕ
    times = (len + align) / pgsize

    remain : ℕ
    remain = (len + align) % pgsize

    i : ℕ
    i = offset / pgsize

    first : ℕ
    first = if times == 0 then len else pgsize - align

-- A write gives the length that was asked for, and the vinode keeps its type.
pub rfs_write-Stops :
    (fs : Fs) (v : Vinode) (w : Block) (len offset : ℕ)
    → Stops (rfs_write fs v w len offset) (λ got. (got.0 ≡ len) × (got.2.type ≡ v.type))
unfolding rfs_write
rfs_write-Stops fs v w len offset =
    Stops-if (λ got. (got.0 ≡ len) × (got.2.type ≡ v.type)) (ltb v.size offset) panic _ tt
      (Stops-bind (λ got. (got.0 ≡ len) × (got.2.type ≡ v.type)) (write_blocks fs v w len offset) _
        (write_blocks-Stops fs v w len offset) (λ (fs', v') e same. (refl, same)))

-- ===== src/Rfs/File/Write.antt =====
-- What `rfs_write` of kernel/rfs.c writes.
use cabbage_pke.Common.{
  ℕ, zero, suc, ◌+◌, ◌*◌, ◌≤◌, ◌<◌, ◌≡◌, refl, ◌∙◌, ap, inl, inr, arith, Run, ok, ◌>>=◌, Ends,
  Ends-bind, Ends-mono, ◌==◌, Bool-cases, ==_iff, lt→leb,
}
use cabbage_pke.Pmm.{pgsize}
use cabbage_pke.Rfs.{Block, ramdisk_write, rfs_w1block, blit, Fs, Vinode}
use cabbage_pke.Rfs.Inodes.{blit-in}
use cabbage_pke.Rfs.Blocks.Room.{free_count}
use cabbage_pke.Rfs.File.{write_addr, grow, put_block, write_whole, write_rest}
use cabbage_pke.Rfs.File.Owned.{IsOwned, Wrote, Wrote-trans}
use cabbage_pke.Rfs.File.Store.{store, Wrote-none, store-Wrote, grow-Wrote}

put_block_lem :
    (fs : Fs) (v : Vinode) (i : ℕ) (w : Block) (at n : ℕ)
    → IsOwned fs v
    → i < v.blocks
    → put_block fs v i w at n ≡ ok (store fs v i (blit fs.dev.iobuffer 0 w at n))
unfolding put_block write_addr rfs_w1block ramdisk_write
put_block_lem fs v i w at n owned h = rw (
  lt→leb 10 i (omega (arith, owned.blocks)),
  lt→leb 128 (v.addrs i) (omega (arith, owned.high i h, owned.nblocks)),
  ◌>>=◌,
)

-- The file grows by block `i` where it has to, and `n` bytes are put at the start of the block.
step-Wrote :
    (fs : Fs) (v : Vinode) (i : ℕ) (w : Block) (at n p : ℕ) (Q : Fs × Vinode → Type 0)
    (f : Fs → Vinode → Run (Fs × Vinode))
    → IsOwned fs v
    → i < 10
    → i ≤ v.blocks
    → i < v.blocks + free_count fs
    → n ≤ pgsize
    → p ≡ i * pgsize
    → ((fs' : Fs) (v' : Vinode) → Wrote fs v w at p n fs' v' → Ends (f fs' v') Q)
    → Ends (grow fs v i >>= λ (fs₁, v₁). put_block fs₁ v₁ i w at n >>= λ fs₂. f fs₂ v₁) Q
step-Wrote fs v i w at n p Q f owned hi le room fit ep next =
    Ends-bind Q (grow fs v i) _ (grow-Wrote fs v i w at p owned hi le (omega arith) room)
      (λ (fs₁, v₁) (l, one). rw (put_block_lem fs₁ v₁ i w at n one.owned l) (
        next _ v₁ (
          Wrote-trans fs fs₁ _ v v₁ v₁ w at p 0 n at p n (omega arith) (omega arith) (omega arith)
            one
            (store-Wrote fs₁ v₁ w at i 0 n p (blit fs₁.dev.iobuffer 0 w at n) one.owned l
              (omega arith) (omega arith)
              (λ j h.
                blit-in fs₁.dev.iobuffer w 0 at n (0 + j) (omega arith) (omega arith)
                ∙ ap w (omega arith))
              (λ q h. absurd (omega arith))))))

write_whole-Wrote :
    (k : ℕ) (fs : Fs) (v : Vinode) (i : ℕ) (w : Block) (at p total : ℕ)
    → IsOwned fs v
    → i + k ≤ 10
    → i ≤ v.blocks
    → i + k ≤ v.blocks + free_count fs
    → p ≡ i * pgsize
    → total ≡ k * pgsize
    → Ends (write_whole k fs v i w at) (λ (fs', v'). Wrote fs v w at p total fs' v')
unfolding write_whole
write_whole-Wrote zero fs v i w at p total owned hi le room ep et =
    rw et (Wrote-none fs v w at p owned (omega arith))
write_whole-Wrote (suc k) fs v i w at p total owned hi le room ep et =
    step-Wrote fs v i w at pgsize p (λ (fs', v'). Wrote fs v w at p total fs' v')
      (λ fs₂ v₁. write_whole k fs₂ v₁ (i + 1) w (at + pgsize)) owned (omega arith) le (omega arith)
      (omega arith) ep
      (λ fs₂ v₁ one.
        Ends-mono (write_whole k fs₂ v₁ (i + 1) w (at + pgsize))
          (write_whole-Wrote k fs₂ v₁ (i + 1) w (at + pgsize) (p + pgsize) (k * pgsize) one.owned
            (omega arith) (omega (arith, one.reach)) (omega (arith, one.room)) (omega arith) refl)
          (λ (fs', v') two.
            Wrote-trans fs fs₂ fs' v v₁ v' w at p pgsize (k * pgsize) (at + pgsize) (p + pgsize)
              total refl refl (omega arith) one two))

pub write_rest-Wrote :
    (times remain : ℕ) (fs : Fs) (v : Vinode) (i : ℕ) (w : Block) (at p total : ℕ)
    → IsOwned fs v
    → remain < pgsize
    → i ≤ v.blocks
    → p ≡ i * pgsize
    → total ≡ times * pgsize + remain
    → p + total ≤ 10 * pgsize
    → p + total ≤ (v.blocks + free_count fs) * pgsize
    → Ends (write_rest times remain fs v i w at) (λ (fs', v'). Wrote fs v w at p total fs' v')
unfolding write_rest
write_rest-Wrote times remain fs v i w at p total owned small le ep et high room =
    Ends-bind (λ (fs', v'). Wrote fs v w at p total fs' v') (write_whole times fs v i w at) _
      (write_whole-Wrote times fs v i w at p (times * pgsize) owned (omega arith) le (omega arith)
        ep refl)
      (λ (fs₁, v₁) one. elim (Bool-cases (remain == 0)) [
        | inl e ↦ rw e (whole fs₁ v₁ one ((==_iff remain 0).0 e))
        | inr e ↦ rw e (
            step-Wrote fs₁ v₁ (i + times) w (at + times * pgsize) remain (p + times * pgsize)
              (λ (fs', v'). Wrote fs v w at p total fs' v') (λ fs₃ v₂. ok (fs₃, v₂)) one.owned
              (ground arith) (omega (arith, one.reach)) (ground (arith, one.room)) (omega arith)
              (omega arith)
              (λ fs' v' two.
                Wrote-trans fs fs₁ fs' v v₁ v' w at p (times * pgsize) remain (at + times * pgsize)
                  (p + times * pgsize) total refl refl et one two))
      ])
  where
    whole :
        (fs₁ : Fs) (v₁ : Vinode)
        → Wrote fs v w at p (times * pgsize) fs₁ v₁
        → remain ≡ 0
        → Wrote fs v w at p total fs₁ v₁
    whole fs₁ v₁ one e =
        Wrote-trans fs fs₁ fs₁ v v₁ v₁ w at p (times * pgsize) 0 (at + times * pgsize)
          (p + times * pgsize) total refl refl (omega arith) one
          (Wrote-none fs₁ v₁ w (at + times * pgsize) (p + times * pgsize) one.owned one.reach)

-- ===== src/Rfs/File/Owned.antt =====
-- The blocks that a file of kernel/rfs.c owns, and what a write into them leaves alone.
use cabbage_pke.Common.{
  ℕ, ◌+◌, ◌-◌, ◌*◌, ◌≤◌, ◌<◌, ◌≡◌, ◌≢◌, ◌∙◌, ap, inl, inr, arith, ltb, ltb→lt, ltb→le, Bool-cases,
}
use cabbage_pke.Pmm.{pgsize}
use cabbage_pke.Rfs.{Block, Fs, Vinode}
use cabbage_pke.Rfs.Blocks.Room.{free_count}
use cabbage_pke.Rfs.File.Read.{IsLaid, file_byte}

-- The blocks of the file are different blocks of the data area, and taken in the free map; the free
-- map ends with the disk.
pub record IsOwned (fs : Fs) (v : Vinode) : Type 0 where
  pub blocks : v.blocks ≤ 10
  pub low : (i : ℕ) → i < v.blocks → 12 ≤ v.addrs i
  pub high : (i : ℕ) → i < v.blocks → v.addrs i < 12 + fs.nblocks
  pub taken : (i : ℕ) → i < v.blocks → fs.freemap (v.addrs i - 12) ≢ 0
  pub distinct : (i j : ℕ) → i < v.blocks → j < v.blocks → v.addrs i ≡ v.addrs j → i ≡ j
  pub nblocks : 12 + fs.nblocks ≤ 128

pub IsOwned→IsLaid : (fs : Fs) (v : Vinode) → IsOwned fs v → IsLaid v
IsOwned→IsLaid fs v owned = record {
  blocks = owned.blocks;
  addrs = λ i h. omega (arith, owned.high i h, owned.nblocks);
}

-- The step from `fs`, `v` to `fs'`, `v'` put the `n` bytes of `w` from `at` on at position `p` of the
-- file, and left the positions before, and the blocks that the file does not own.
pub record Wrote (fs : Fs) (v : Vinode) (w : Block) (at p n : ℕ) (fs' : Fs) (v' : Vinode)
    : Type 0 where
  pub owned : IsOwned fs' v'
  pub more : v.blocks ≤ v'.blocks
  pub reach : p + n ≤ v'.blocks * pgsize
  pub room : v'.blocks + free_count fs' ≡ v.blocks + free_count fs
  pub size : v'.size ≡ v.size
  pub inum : v'.inum ≡ v.inum
  pub kept : (i : ℕ) → i < v.blocks → v'.addrs i ≡ v.addrs i
  pub here : (j : ℕ) → j < n → file_byte fs'.dev v' (p + j) ≡ w (at + j)
  pub before : (q : ℕ) → q < p → file_byte fs'.dev v' q ≡ file_byte fs.dev v q
  pub others :
      (m : ℕ) → ((i : ℕ) → i < v'.blocks → v'.addrs i ≢ m) → fs'.dev.blocks m ≡ fs.dev.blocks m

-- Two writes behind each other are a write.
pub Wrote-trans :
    (fs fs₁ fs₂ : Fs) (v v₁ v₂ : Vinode) (w : Block) (at p n m at' p' total : ℕ)
    → at' ≡ at + n
    → p' ≡ p + n
    → total ≡ n + m
    → Wrote fs v w at p n fs₁ v₁
    → Wrote fs₁ v₁ w at' p' m fs₂ v₂
    → Wrote fs v w at p total fs₂ v₂
Wrote-trans fs fs₁ fs₂ v v₁ v₂ w at p n m at' p' total ea ep et one two = record {
  owned = two.owned;
  more = omega (arith, one.more, two.more);
  reach = omega (arith, two.reach);
  room = two.room ∙ one.room;
  size = two.size ∙ one.size;
  inum = two.inum ∙ one.inum;
  kept = λ i h. two.kept i (omega (arith, one.more)) ∙ one.kept i h;
  here = λ j h. elim (Bool-cases (ltb j n)) [
    | inl e ↦ two.before (p + j) (ground arith) ∙ one.here j (ltb→lt j n e)
    | inr e ↦ behind j h (ltb→le j n e)
  ];
  before = λ q h. two.before q (omega arith) ∙ one.before q h;
  others = λ m' foreign.
      two.others m' foreign
      ∙ one.others m' (λ i h e. foreign i (omega (arith, two.more)) (two.kept i h ∙ e));
}
  where
    behind : (j : ℕ) → j < total → n ≤ j → file_byte fs₂.dev v₂ (p + j) ≡ w (at + j)
    behind j h le =
        ap (file_byte fs₂.dev v₂) {x = p + j} {y = p' + (j - n)} (omega arith)
        ∙ two.here (j - n) (omega arith)
        ∙ ap w (omega arith)

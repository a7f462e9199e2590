-- ===== src/Rfs/Inodes/Bytes.antt =====
-- The bytes of a disk inode of kernel/rfs.c in its block.
use cabbage_pke.Common.{
  ℕ, suc, ◌+◌, ◌-◌, ◌*◌, ◌/◌, ◌%◌, ◌≤◌, ◌<◌, ◌^◌, ◌≡◌, inl, inr, ◌∙◌, arith, leb, Bool-cases,
  le→ltb, lt→ltb, le→leb, lt→leb, ◌⊎◌, ap,
}
use cabbage_pke.Rfs.{
  Block, load32, le_byte, blit, RfsDinode, dinode_word, dinode_bytes, sizeof_dinode, get_dinode,
}

-- The fields fit an `int`.
pub record FitsInt (x : RfsDinode) : Type 0 where
  pub size : x.size < 2 ^ 32
  pub type : x.type < 2 ^ 32
  pub nlinks : x.nlinks < 2 ^ 32
  pub blocks : x.blocks < 2 ^ 32
  pub addrs : (i : ℕ) → i < 10 → x.addrs i < 2 ^ 32

-- Equal in every field, the addresses within the array.
pub record Same (x y : RfsDinode) : Type 0 where
  pub size : x.size ≡ y.size
  pub type : x.type ≡ y.type
  pub nlinks : x.nlinks ≡ y.nlinks
  pub blocks : x.blocks ≡ y.blocks
  pub addrs : (i : ℕ) → i < 10 → x.addrs i ≡ y.addrs i

le_byte_sum :
    (v : ℕ)
    → v < 2 ^ 32
    → le_byte v 0 + 256 * le_byte v 1 + 65536 * le_byte v 2 + 16777216 * le_byte v 3 ≡ v
le_byte_sum v h = omega arith

pub blit-in :
    (b src : Block) (o s n q : ℕ) → o ≤ q → q < o + n → blit b o src s n q ≡ src (s + (q - o))
blit-in b src o s n q low high = rw (le→leb o q low, lt→ltb q (o + n) high)

pub blit-out : (b src : Block) (o s n q : ℕ) → (q < o) ⊎ (o + n ≤ q) → blit b o src s n q ≡ b q
blit-out b src o s n q (inl below) = rw (lt→leb o q below)
blit-out b src o s n q (inr above) = elim (Bool-cases (leb o q)) [
  | inl e ↦ rw (e, le→ltb q (o + n) above)
  | inr e ↦ rw e
]

-- Byte `j` of word `k` of the inode that was put at `o`.
blit-dinode :
    (b : Block) (x : RfsDinode) (o k j q : ℕ)
    → k < 14
    → j < 4
    → q ≡ o + 4 * k + j
    → blit b o (dinode_bytes x) 0 sizeof_dinode q ≡ le_byte (dinode_word x k) j
blit-dinode b x o k j q hk hj e =
    blit-in b (dinode_bytes x) o 0 sizeof_dinode q (omega arith) (omega arith)
    ∙ ap (λ n. le_byte (dinode_word x n) ((0 + (q - o)) % 4)) word
    ∙ ap (le_byte (dinode_word x k)) byte
  where
    word : (0 + (q - o)) / 4 ≡ k
    word = omega arith

    byte : (0 + (q - o)) % 4 ≡ j
    byte = omega arith

-- Word `k` of the inode that was put at `o`.
load32-dinode :
    (b : Block) (x : RfsDinode) (o k q : ℕ)
    → k < 14
    → q ≡ o + 4 * k
    → dinode_word x k < 2 ^ 32
    → load32 (blit b o (dinode_bytes x) 0 sizeof_dinode) q ≡ dinode_word x k
load32-dinode b x o k q h e small = rw (
  blit-dinode b x o k 0 q h (omega arith) (omega arith),
  blit-dinode b x o k 1 (q + 1) h (omega arith) (omega arith),
  blit-dinode b x o k 2 (q + 2) h (omega arith) (omega arith),
  blit-dinode b x o k 3 (q + 3) h (omega arith) (omega arith),
  le_byte_sum (dinode_word x k) small,
)

pub get_dinode-put :
    (b : Block) (x : RfsDinode) (o : ℕ)
    → FitsInt x
    → Same (get_dinode (blit b o (dinode_bytes x) 0 sizeof_dinode) o) x
unfolding get_dinode
get_dinode-put b x o fits = record {
  size = load32-dinode b x o 0 o (omega arith) (omega arith) fits.size;
  type = load32-dinode b x o 1 (o + 4) (omega arith) (omega arith) fits.type;
  nlinks = load32-dinode b x o 2 (o + 8) (omega arith) (omega arith) fits.nlinks;
  blocks = load32-dinode b x o 3 (o + 12) (omega arith) (omega arith) fits.blocks;
  addrs = λ i h.
      load32-dinode b x o (suc (suc (suc (suc i)))) (o + 16 + 4 * i) (omega arith) (omega arith)
        (fits.addrs i h);
}

-- A word elsewhere in the block is the word that was there.
load32-elsewhere :
    (b : Block) (x : RfsDinode) (o q : ℕ)
    → (q + 4 ≤ o) ⊎ (o + 56 ≤ q)
    → load32 (blit b o (dinode_bytes x) 0 sizeof_dinode) q ≡ load32 b q
load32-elsewhere b x o q apart = rw (
  byte q (ground arith),
  byte (q + 1) (ground arith),
  byte (q + 2) (ground arith),
  byte (q + 3) (ground arith),
)
  where
    byte : (r : ℕ) → (r < o) ⊎ (o + 56 ≤ r) → blit b o (dinode_bytes x) 0 sizeof_dinode r ≡ b r
    byte r h = blit-out b (dinode_bytes x) o 0 sizeof_dinode r h

pub get_dinode-elsewhere :
    (b : Block) (x : RfsDinode) (o q : ℕ)
    → (q + 56 ≤ o) ⊎ (o + 56 ≤ q)
    → Same (get_dinode (blit b o (dinode_bytes x) 0 sizeof_dinode) q) (get_dinode b q)
unfolding get_dinode
get_dinode-elsewhere b x o q apart = record {
  size = load32-elsewhere b x o q (ground arith);
  type = load32-elsewhere b x o (q + 4) (ground arith);
  nlinks = load32-elsewhere b x o (q + 8) (ground arith);
  blocks = load32-elsewhere b x o (q + 12) (ground arith);
  addrs = λ i h. load32-elsewhere b x o (q + 16 + 4 * i) (ground arith);
}

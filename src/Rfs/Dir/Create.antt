-- ===== src/Rfs/Dir/Create.antt =====
-- The disk inode that `rfs_create` and `rfs_mkdir` of kernel/rfs.c take for a new file.
use cabbage_pke.Common.{
  ℕ, zero, suc, ◌+◌, ◌^◌, ◌≤◌, ◌<◌, ◌≡◌, ◌≢◌, refl, ◌∙◌, ap, inl, inr, ◌⊎◌, true, false, arith, ok,
  Returns, Ends, Ends-bind, Ends→Returns, Ends-mono, subst, ◌==◌, if◌then◌else◌, Bool-cases, ==_iff,
  ==_refl,
}
use cabbage_pke.Rfs.{
  RfsDevice, RfsDinode, set_block, r_free, inode_block, inode_offset, get_dinode, rfs_write_dinode,
  Fs, rfs_alloc_block, blk_offset_free,
}
use cabbage_pke.Rfs.Inodes.{
  IsInum, FitsInt, Same, dinode_at, rfs_read_dinode_lem, rfs_write_dinode_lem, written,
  get_dinode-put, dinode_at-written,
}
use cabbage_pke.Rfs.Blocks.Room.{free_count, RoomTaken, alloc-RoomTaken}
use cabbage_pke.Rfs.Dir.{max_inodes, find_free, no_dinode, new_dinode}

-- `x` is the first free inode from `i` on, or none is free and the number is 0.
abbrev pub Picked : RfsDevice → ℕ → ℕ → RfsDinode → ℕ → Type 0
Picked d i k x inum =
    ((i ≤ inum)
      × (inum < i + k)
      × (x ≡ dinode_at d inum)
      × (x.type ≡ r_free)
      × ((j : ℕ) → i ≤ j → j < inum → (dinode_at d j).type ≢ r_free))
    ⊎ ((inum ≡ 0) × ((j : ℕ) → i ≤ j → j < i + k → (dinode_at d j).type ≢ r_free))

-- The search from `i` on leaves the blocks alone and ends with an inode of 32-bit words.
abbrev pub Found : RfsDevice → ℕ → ℕ → RfsDinode × ℕ × RfsDevice → Type 0
Found d i k (x, inum, d') = (d'.blocks ≡ d.blocks) × FitsInt x × Picked d i k x inum

find_free-Found :
    (k i : ℕ) (d : RfsDevice) (last : RfsDinode)
    → i + k ≤ 320
    → ((j : ℕ) → FitsInt (dinode_at d j))
    → FitsInt last
    → Ends (find_free k i d last) (Found d i k)
unfolding find_free
find_free-Found zero i d last h all fits =
    (refl, fits, inr (refl, (λ j l l'. absurd (omega arith))))
find_free-Found (suc k) i d last h all fits =
    rw (rfs_read_dinode_lem d i (omega arith), find_free)
      (go (Bool-cases ((dinode_at d i).type == r_free))
        (find_free-Found k (i + 1) d' (dinode_at d i) (omega arith) all (all i)))
  where
    d' : RfsDevice
    d' = record d { iobuffer = d.blocks (inode_block i) }

    ==-false→ne : {a b : ℕ} → ((a == b) ≡ false) → a ≢ b
    ==-false→ne {a} {b} e = ground arith

    strict : {j : ℕ} → i ≤ j → ((i == j) ≡ false) → i + 1 ≤ j
    strict {j} l e = ground arith

    later :
        (((dinode_at d i).type == r_free) ≡ false)
        → (m : ℕ) → ((j : ℕ) → i + 1 ≤ j → j < m → (dinode_at d j).type ≢ r_free)
        → (j : ℕ) → i ≤ j
        → j < m
        → (dinode_at d j).type ≢ r_free
    later e m f j l l' = elim (Bool-cases (i == j)) [
      | inl same ↦ subst (λ q. (dinode_at d q).type ≢ r_free) ((==_iff i j).0 same) (==-false→ne e)
      | inr other ↦ f j (strict l other) l'
    ]

    widen :
        (((dinode_at d i).type == r_free) ≡ false)
        → (a : RfsDinode × ℕ × RfsDevice) → Found d (i + 1) k a
        → Found d i (suc k) a
    widen e (x, inum, c) (same, int, inl (l, l', read, free, none_before)) =
        (same, int, inl (omega arith, omega arith, read, free, later e inum none_before))
    widen e (x, inum, c) (same, int, inr (zero_inum, none)) =
        (same, int, inr (zero_inum, (λ j l l'. later e (i + 1 + k) none j l (omega arith))))

    go :
        (((dinode_at d i).type == r_free) ≡ true) ⊎ (((dinode_at d i).type == r_free) ≡ false)
        → Ends (find_free k (i + 1) d' (dinode_at d i)) (Found d (i + 1) k)
        → Ends
            (elim ((dinode_at d i).type == r_free) [
              | true ↦ ok (dinode_at d i, i, d')
              | false ↦ find_free k (i + 1) d' (dinode_at d i)
            ])
            (Found d i (suc k))
    go (inl e) rest = rw e (
      refl,
      all i,
      inl (
        omega arith,
        omega arith,
        refl,
        (==_iff (dinode_at d i).type r_free).0 e,
        (λ j l l'. absurd (omega arith)),
      ),
    )
    go (inr e) rest = rw e (Ends-mono (find_free k (i + 1) d' (dinode_at d i)) rest (widen e))

no_dinode-FitsInt : FitsInt no_dinode
no_dinode-FitsInt = record {
  size = omega arith;
  type = omega arith;
  nlinks = omega arith;
  blocks = omega arith;
  addrs = λ i h. omega arith;
}

put_dinode :
    (d : RfsDevice) (x : RfsDinode) (n : ℕ)
    → IsInum n
    → FitsInt x
    → Ends (rfs_write_dinode d x n) (λ (ret, d').
      Same (dinode_at d' n) x × ((m : ℕ) → m ≢ n → Same (dinode_at d' m) (dinode_at d m)))
put_dinode d x n h fits =
    rw (rfs_write_dinode_lem d x n h) (here, (λ m l. dinode_at-written d x n m l))
  where
    here :
        Same
          (get_dinode
            (set_block d.blocks (inode_block n) (written d x n) (inode_block n))
            (inode_offset n))
          x
    here =
        rw (==_refl (inode_block n))
          (get_dinode-put (d.blocks (inode_block n)) x (inode_offset n) fits)

-- The inode `inum` was free, or it is the root's and no inode was free.
abbrev pub Chosen : RfsDevice → ℕ → Type 0
Chosen d inum =
    ((dinode_at d inum).type ≡ r_free)
    ⊎ ((inum ≡ 0) × ((j : ℕ) → j < max_inodes → (dinode_at d j).type ≢ r_free))

-- What a new inode of the type leaves: an empty one with one link and one block that was free, and every other inode as it was.
abbrev pub Created : Fs → ℕ → ℕ × Fs → Type 0
Created fs type (inum, fs') =
    IsInum inum
    × Chosen fs.dev inum
    × ((dinode_at fs'.dev inum).size ≡ 0)
    × ((dinode_at fs'.dev inum).type ≡ type)
    × ((dinode_at fs'.dev inum).nlinks ≡ 1)
    × ((dinode_at fs'.dev inum).blocks ≡ 1)
    × ((b : ℕ) × ((dinode_at fs'.dev inum).addrs 0 ≡ blk_offset_free + b)
        × (fs.freemap b ≡ 0)
        × (fs'.freemap b ≡ 1)
        × ((i : ℕ) → i ≢ b → fs'.freemap i ≡ fs.freemap i))
    × ((m : ℕ) → m ≢ inum → Same (dinode_at fs'.dev m) (dinode_at fs.dev m))

abbrev fresh_dinode : RfsDinode → ℕ → ℕ → RfsDinode
fresh_dinode x n type = record x {
  size = 0;
  type = type;
  nlinks = 1;
  blocks = 1;
  addrs = λ i. if 0 == i then n else x.addrs i;
}

fresh-FitsInt :
    (x : RfsDinode) (n type : ℕ)
    → FitsInt x
    → type < 2 ^ 32
    → n < 2 ^ 32
    → FitsInt (fresh_dinode x n type)
fresh-FitsInt x n type fits small h = record {
  size = omega arith;
  type = small;
  nlinks = omega arith;
  blocks = omega arith;
  addrs = λ i l. address i l;
}
  where
    address : (i : ℕ) → i < 10 → (if 0 == i then n else x.addrs i) < 2 ^ 32
    address i l = elim (Bool-cases (0 == i)) [ inl e ↦ rw e h | inr e ↦ rw e (fits.addrs i l) ]

Picked→Chosen :
    (d : RfsDevice) (x : RfsDinode) (inum : ℕ) → Picked d 0 max_inodes x inum → Chosen d inum
Picked→Chosen d x inum (inl (l, l', read, free, before)) =
    inl (subst (λ y. y.type ≡ r_free) read free)
Picked→Chosen d x inum (inr (e, none)) = inr (e, (λ j l. none j (omega arith) l))

-- On a disk whose inodes hold 32-bit words, with a free block and at most 128 of them, the common part
-- of `rfs_create` and `rfs_mkdir` ends: the inode it gives was free, or it is inode 0, the root's, and
-- no inode was free; it is now empty, of the asked type, with one link and one block, which was free and
-- is the only one that was taken; every other inode keeps its fields.
pub new_dinode-Created :
    (fs : Fs) (type : ℕ)
    → ((j : ℕ) → FitsInt (dinode_at fs.dev j))
    → type < 2 ^ 32
    → 0 < free_count fs
    → fs.nblocks ≤ 128
    → Returns (new_dinode fs type) (Created fs type)
unfolding new_dinode
new_dinode-Created fs type all small room few = Ends→Returns (new_dinode fs type) (
    Ends-bind (Created fs type) (find_free max_inodes 0 fs.dev no_dinode) _
      (find_free-Found max_inodes 0 fs.dev no_dinode (omega arith) all no_dinode-FitsInt)
      (λ (x, inum, d) (same, fits, found).
        Ends-bind (Created fs type) (rfs_alloc_block (record fs { dev = d })) _
          (alloc-RoomTaken (record fs { dev = d }) room)
          (λ (n, fs₁) t.
            Ends-bind (Created fs type) (rfs_write_dinode fs₁.dev (fresh_dinode x n type) inum) _
              (put_dinode fs₁.dev (fresh_dinode x n type) inum (inside found)
                (fresh-FitsInt x n type fits small (omega arith)))
              (λ (ret, d') put. created x inum d n fs₁ d' same found t put))))
  where
    inside : {x : RfsDinode} {inum : ℕ} → Picked fs.dev 0 max_inodes x inum → IsInum inum
    inside (inl (l, l', read, free, before)) = omega arith
    inside (inr (e, none)) = omega arith

    created :
        (x : RfsDinode) (inum : ℕ) (d : RfsDevice) (n : ℕ) (fs₁ : Fs) (d' : RfsDevice)
        → d.blocks ≡ fs.dev.blocks
        → Picked fs.dev 0 max_inodes x inum
        → RoomTaken (record fs { dev = d }) (n, fs₁)
        → Same (dinode_at d' inum) (fresh_dinode x n type)
          × ((m : ℕ) → m ≢ inum → Same (dinode_at d' m) (dinode_at fs₁.dev m))
        → Created fs type (inum, record fs₁ { dev = d' })
    created x inum d n fs₁ d' same found
          (b, e, (in_map, free, first, taken, kept, dev, count), room_lem) (new, others) =
        (
          inside found,
          Picked→Chosen fs.dev x inum found,
          new.size,
          new.type,
          new.nlinks,
          new.blocks,
          (b, new.addrs 0 (omega arith) ∙ e, free, taken, kept),
          (λ m l.
              subst (λ q. Same (dinode_at d' m) (get_dinode (q (inode_block m)) (inode_offset m)))
                (ap (λ c. c.blocks) dev ∙ same) (others m l)),
        )

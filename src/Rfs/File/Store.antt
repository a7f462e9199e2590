-- ===== src/Rfs/File/Store.antt =====
-- The two steps of a write of kernel/rfs.c: a block of the file is overwritten, and a block is added.
use cabbage_pke.Common.{
  ℕ, ◌+◌, ◌-◌, ◌*◌, ◌/◌, ◌%◌, ◌≤◌, ◌<◌, ◌≡◌, ◌≢◌, refl, sym, ◌∙◌, ap, ◌⊎◌, inl, inr, false, arith,
  ok, ◌>>=◌, Ends, Ends-bind, ◌==◌, if◌then◌else◌, Bool-cases, ==_iff, ==_refl, ne→==, lt→leb,
}
use cabbage_pke.Pmm.{pgsize}
use cabbage_pke.Rfs.{Block, set_block, Fs, Vinode, rfs_alloc_block}
use cabbage_pke.Rfs.Blocks.{Taken}
use cabbage_pke.Rfs.Blocks.Room.{free_count, alloc-RoomTaken, RoomTaken}
use cabbage_pke.Rfs.File.{grow}
use cabbage_pke.Rfs.File.Read.{file_byte}
use cabbage_pke.Rfs.File.Owned.{IsOwned, Wrote}

abbrev pub store : Fs → Vinode → ℕ → Block → Fs
store fs v i c = record fs {
  dev = record { blocks = set_block fs.dev.blocks (v.addrs i) c; iobuffer = c };
}

stored :
    (fs : Fs) (v : Vinode) (i : ℕ) (c : Block) (q : ℕ)
    → q / pgsize ≡ i
    → file_byte (store fs v i c).dev v q ≡ c (q % pgsize)
stored fs v i c q e = rw (e, ==_refl (v.addrs i))

stored_apart :
    (fs : Fs) (v : Vinode) (i : ℕ) (c : Block) (q : ℕ)
    → v.addrs i ≢ v.addrs (q / pgsize)
    → file_byte (store fs v i c).dev v q ≡ file_byte fs.dev v q
stored_apart fs v i c q h = rw (ne→== (v.addrs i) (v.addrs (q / pgsize)) h)

-- Block `i` gets the content `c`, which has the bytes of `w` from `a` on and the old ones before.
pub store-Wrote :
    (fs : Fs) (v : Vinode) (w : Block) (at i a n p : ℕ) (c : Block)
    → IsOwned fs v
    → i < v.blocks
    → a + n ≤ pgsize
    → p ≡ i * pgsize + a
    → ((j : ℕ) → j < n → c (a + j) ≡ w (at + j))
    → ((q : ℕ) → q < a → c q ≡ fs.dev.blocks (v.addrs i) q)
    → Wrote fs v w at p n (store fs v i c) v
store-Wrote fs v w at i a n p c owned hi fit ep new old = record {
  owned = record {
    blocks = owned.blocks;
    low = owned.low;
    high = owned.high;
    taken = owned.taken;
    distinct = owned.distinct;
    nblocks = owned.nblocks;
  };
  more = omega arith;
  reach = omega arith;
  room = refl;
  size = refl;
  inum = refl;
  kept = λ j h. refl;
  here = inside;
  before = λ q h. elim (Bool-cases (q / pgsize == i)) [
    | inl e ↦ same_block q h ((==_iff (q / pgsize) i).0 e)
    | inr e ↦
        stored_apart fs v i c q
          (λ z. absurd (other q h e (owned.distinct i (q / pgsize) hi (omega arith) z)))
  ];
  others = λ m foreign. rw (ne→== (v.addrs i) m (foreign i hi));
}
  where
    inside : (j : ℕ) → j < n → file_byte (store fs v i c).dev v (p + j) ≡ w (at + j)
    inside j h =
        stored fs v i c (p + j) (omega arith) ∙ ap c {x = (p + j) % pgsize} (omega arith) ∙ new j h

    same_block :
        (q : ℕ) → q < p → q / pgsize ≡ i → file_byte (store fs v i c).dev v q ≡ file_byte fs.dev v q
    same_block q h e =
        stored fs v i c q e
        ∙ old (q % pgsize) (omega arith)
        ∙ ap (λ k. fs.dev.blocks (v.addrs k) (q % pgsize)) (sym e)

    other : (q : ℕ) → q < p → (q / pgsize == i) ≡ false → i ≡ q / pgsize → ⊥
    other q h e z = ground arith

-- The address array with a new block.
abbrev pub new_addr : Vinode → ℕ → ℕ → ℕ
new_addr v n i = if v.blocks == i then n else v.addrs i

new_addr-cases :
    (v : Vinode) (n i : ℕ)
    → i < v.blocks + 1
    → ((v.blocks ≡ i) × (new_addr v n i ≡ n)) ⊎ ((i < v.blocks) × (new_addr v n i ≡ v.addrs i))
new_addr-cases v n i h = elim (Bool-cases (v.blocks == i)) [
  | inl e ↦ inl ((==_iff v.blocks i).0 e, rw e refl)
  | inr e ↦ inr (ground arith, rw e refl)
]

abbrev pub extended : Vinode → ℕ → Vinode
extended v n = record v { addrs = new_addr v n; blocks = v.blocks + 1 }

-- The file with the new block is as good as before.
extended-IsOwned :
    (fs fs' : Fs) (v : Vinode) (n b : ℕ)
    → IsOwned fs v
    → v.blocks < 10
    → n ≡ 12 + b
    → Taken fs b fs'
    → IsOwned fs' (extended v n)
extended-IsOwned fs fs' v n b owned room en (inside, free, _, taken, same, _, en') = record {
  blocks = omega arith;
  low = λ i h. elim (new_addr-cases v n i h) [
    | inl (_, e) ↦ rw e (omega arith)
    | inr (l, e) ↦ rw e (owned.low i l)
  ];
  high = λ i h. elim (new_addr-cases v n i h) [
    | inl (_, e) ↦ rw e (omega arith)
    | inr (l, e) ↦ rw (e, en') (owned.high i l)
  ];
  taken = λ i h. elim (new_addr-cases v n i h) [
    | inl (_, e) ↦
        rw e (λ z. zero_ne (fs'.freemap b) taken (ap fs'.freemap {y = n - 12} (omega arith) ∙ z))
    | inr (l, e) ↦ rw e (λ z. owned.taken i l (sym (same (v.addrs i - 12) (fresh i l)) ∙ z))
  ];
  distinct = λ i j hi hj e. elim (new_addr-cases v n i hi) [
    | inl (ei, vi) ↦ elim (new_addr-cases v n j hj) [
      | inl (ej, vj) ↦ sym ei ∙ ej
      | inr (lj, vj) ↦ absurd (not_new j lj (sym vj ∙ sym e ∙ vi))
    ]
    | inr (li, vi) ↦ elim (new_addr-cases v n j hj) [
      | inl (ej, vj) ↦ absurd (not_new i li (sym vi ∙ e ∙ vj))
      | inr (lj, vj) ↦ owned.distinct i j li lj (sym vi ∙ e ∙ vj)
    ]
  ];
  nblocks = omega (arith, owned.nblocks);
}
  where
    zero_ne : (m : ℕ) → m ≡ 1 → m ≡ 0 → ⊥
    zero_ne m e e' = omega arith

    fresh : (i : ℕ) → i < v.blocks → v.addrs i - 12 ≢ b
    fresh i l z = owned.taken i l (ap fs.freemap z ∙ free)

    not_new : (i : ℕ) → i < v.blocks → v.addrs i ≢ n
    not_new i l z = fresh i l (omega arith)

-- The file is as it was.
pub Wrote-none :
    (fs : Fs) (v : Vinode) (w : Block) (at p : ℕ)
    → IsOwned fs v
    → p ≤ v.blocks * pgsize
    → Wrote fs v w at p 0 fs v
Wrote-none fs v w at p owned h = record {
  owned = owned;
  more = omega arith;
  reach = omega arith;
  room = refl;
  size = refl;
  inum = refl;
  kept = λ i l. refl;
  here = λ j l. elim l [ ];
  before = λ q l. refl;
  others = λ m foreign. refl;
}

-- A new block at the end.
extended-Wrote :
    (fs fs' : Fs) (v : Vinode) (w : Block) (at p n : ℕ)
    → IsOwned fs v
    → v.blocks < 10
    → p ≤ v.blocks * pgsize
    → RoomTaken fs (n, fs')
    → Wrote fs v w at p 0 fs' (extended v n)
extended-Wrote fs fs' v w at p n owned room h (b, en, t, less) = record {
  owned = extended-IsOwned fs fs' v n b owned room en t;
  more = omega arith;
  reach = omega arith;
  room = omega arith;
  size = refl;
  inum = refl;
  kept = λ i l. rw (ne→== v.blocks i (omega arith));
  here = λ j l. elim l [ ];
  before = λ q l.
      rw (file_byte, ne→== v.blocks (q / pgsize) (omega arith))
        (ap (λ d. d.blocks (v.addrs (q / pgsize)) (q % pgsize)) (t.5));
  others = λ m foreign. ap (λ d. d.blocks m) (t.5);
}

-- `grow` makes block `i` a block of the file.
pub grow-Wrote :
    (fs : Fs) (v : Vinode) (i : ℕ) (w : Block) (at p : ℕ)
    → IsOwned fs v
    → i < 10
    → i ≤ v.blocks
    → p ≤ i * pgsize
    → i < v.blocks + free_count fs
    → Ends (grow fs v i) (λ (fs', v'). (i < v'.blocks) × Wrote fs v w at p 0 fs' v')
unfolding grow
grow-Wrote fs v i w at p owned hi le hp room = elim (Bool-cases (i == v.blocks)) [
  | inl e ↦ rw (e, lt→leb 10 i hi) (at_end ((==_iff i v.blocks).0 e))
  | inr e ↦ rw e (ground arith, Wrote-none fs v w at p owned (omega arith))
]
  where
    at_end :
        i ≡ v.blocks
        → Ends
            (rfs_alloc_block fs >>= λ (n, fs'). ok (
              fs',
              record v { addrs = λ j. if i == j then n else v.addrs j; blocks = v.blocks + 1 },
            ))
            (λ (fs', v'). (i < v'.blocks) × Wrote fs v w at p 0 fs' v')
    at_end e = rw e (
        Ends-bind (λ (fs', v'). (v.blocks < v'.blocks) × Wrote fs v w at p 0 fs' v')
          (rfs_alloc_block fs) _ (alloc-RoomTaken fs (omega arith))
          (λ (n, fs') t.
            (omega arith, extended-Wrote fs fs' v w at p n owned (omega arith) (omega arith) t)))

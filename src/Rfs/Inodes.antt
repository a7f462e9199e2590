-- ===== src/Rfs/Inodes.antt =====
-- Disk inodes of kernel/rfs.c: what is written to the RAM disk is what is read back.
pub mod Bytes
use cabbage_pke.Common.{
  ℕ, suc, ◌+◌, ◌-◌, ◌*◌, ◌/◌, ◌%◌, ◌≤◌, ◌<◌, ◌^◌, ◌≡◌, ◌≢◌, refl, sym, inl, inr, ◌∙◌, arith, ok,
  ◌>>=◌, Returns, leb, ◌==◌, Bool-cases, le→ltb, lt→ltb, le→leb, lt→leb, ==_refl, ==_iff, ◌⊎◌, ap,
}
use cabbage_pke.Common.Int.{pos}
use cabbage_pke.Rfs.{
  Block, set_block, RfsDevice, ramdisk_read, ramdisk_write, rfs_r1block, rfs_w1block, load32,
  le_byte, blit, RfsDinode, dinode_word, dinode_bytes, sizeof_dinode, get_dinode, inode_block,
  inode_offset, rfs_read_dinode, rfs_write_dinode, Fs, Vinode, dinode_of, rfs_write_back_vinode,
  rfs_update_vinode,
}
pub use cabbage_pke.Rfs.Inodes.Bytes.{FitsInt, Same, blit-in, blit-out, get_dinode-put}
use cabbage_pke.Rfs.Inodes.Bytes.{get_dinode-elsewhere}

-- The inode area is the ten blocks from 1 on, with 32 inodes each.
abbrev pub IsInum : ℕ → Type 0
IsInum n = n < 320

-- The inode that reading gives.
abbrev pub dinode_at : RfsDevice → ℕ → RfsDinode
dinode_at d n = get_dinode (d.blocks (inode_block n)) (inode_offset n)

pub rfs_read_dinode_lem :
    (d : RfsDevice) (n : ℕ)
    → IsInum n
    → rfs_read_dinode d n ≡ ok (dinode_at d n, record d { iobuffer = d.blocks (inode_block n) })
unfolding rfs_read_dinode rfs_r1block ramdisk_read
rfs_read_dinode_lem d n h = rw (lt→leb 128 (inode_block n) (omega arith), ◌>>=◌)

-- The inode block after a write.
abbrev pub written : RfsDevice → RfsDinode → ℕ → Block
written d x n = blit (d.blocks (inode_block n)) (inode_offset n) (dinode_bytes x) 0 sizeof_dinode

pub rfs_write_dinode_lem :
    (d : RfsDevice) (x : RfsDinode) (n : ℕ)
    → IsInum n
    → rfs_write_dinode d x n
      ≡ ok (
        0,
        record {
          blocks = set_block d.blocks (inode_block n) (written d x n);
          iobuffer = written d x n;
        },
      )
unfolding rfs_write_dinode rfs_r1block rfs_w1block ramdisk_read ramdisk_write
rfs_write_dinode_lem d x n h = rw (lt→leb 128 (inode_block n) (omega arith), ◌>>=◌)

-- Another inode lies elsewhere.
apart :
    (m n : ℕ)
    → m ≢ n
    → inode_block n ≡ inode_block m
    → (inode_offset m + 56 ≤ inode_offset n) ⊎ (inode_offset n + 56 ≤ inode_offset m)
apart m n h e = ground arith

Same-refl : (x : RfsDinode) → Same x x
Same-refl x = record { size = refl; type = refl; nlinks = refl; blocks = refl; addrs = λ i h. refl }

pub dinode_at-written :
    (d : RfsDevice) (x : RfsDinode) (n m : ℕ)
    → m ≢ n
    → Same
        (get_dinode
          (set_block d.blocks (inode_block n) (written d x n) (inode_block m))
          (inode_offset m))
        (dinode_at d m)
dinode_at-written d x n m h = elim (Bool-cases (inode_block n == inode_block m)) [
  | inl e ↦ rw e (same_block ((==_iff (inode_block n) (inode_block m)).0 e))
  | inr e ↦ rw e (Same-refl (dinode_at d m))
]
  where
    same_block :
        inode_block n ≡ inode_block m
        → Same (get_dinode (written d x n) (inode_offset m)) (dinode_at d m)
    same_block e = rw (sym e) (
        get_dinode-elsewhere (d.blocks (inode_block n)) x (inode_offset n) (inode_offset m)
          (apart m n h e))

-- The run of the two properties below.
write-read_lem :
    (d : RfsDevice) (x : RfsDinode) (n m : ℕ)
    → IsInum n
    → IsInum m
    → (do (_, d') ← rfs_write_dinode d x n; rfs_read_dinode d' m)
      ≡ ok (
        get_dinode
            (set_block d.blocks (inode_block n) (written d x n) (inode_block m))
            (inode_offset m),
        record {
          blocks = set_block d.blocks (inode_block n) (written d x n);
          iobuffer = set_block d.blocks (inode_block n) (written d x n) (inode_block m);
        },
      )
write-read_lem d x n m hn hm =
    rw (rfs_write_dinode_lem d x n hn, ◌>>=◌)
      (rfs_read_dinode_lem
        (record {
          blocks = set_block d.blocks (inode_block n) (written d x n);
          iobuffer = written d x n;
        })
        m hm)

-- An inode that fits in an `int` array is read back as it was written, at every inode number of the
-- disk, and neither the write nor the read fails.
pub write-read_dinode :
    (d : RfsDevice) (x : RfsDinode) (n : ℕ)
    → IsInum n
    → FitsInt x
    → Returns (do (_, d') ← rfs_write_dinode d x n; rfs_read_dinode d' n) (λ (y, _). Same y x)
write-read_dinode d x n h fits = (_, write-read_lem d x n n h h, same)
  where
    same :
        Same
          (get_dinode
            (set_block d.blocks (inode_block n) (written d x n) (inode_block n))
            (inode_offset n))
          x
    same =
        rw (==_refl (inode_block n))
          (get_dinode-put (d.blocks (inode_block n)) x (inode_offset n) fits)

-- Writing an inode leaves what reading any other inode gives.
pub write-read_other :
    (d : RfsDevice) (x : RfsDinode) (n m : ℕ)
    → IsInum n
    → IsInum m
    → m ≢ n
    → Returns
        (do (_, d') ← rfs_write_dinode d x n; rfs_read_dinode d' m)
        (λ (y, _). Returns (rfs_read_dinode d m) (λ (z, _). Same y z))
write-read_other d x n m hn hm h =
    (_, write-read_lem d x n m hn hm, (_, rfs_read_dinode_lem d m hm, dinode_at-written d x n m h))

rfs_write_back_vinode_lem :
    (fs : Fs) (v : Vinode)
    → IsInum v.inum
    → rfs_write_back_vinode fs v
      ≡ ok (
        pos 0,
        record fs {
          dev = record {
            blocks =
                set_block fs.dev.blocks (inode_block v.inum) (written fs.dev (dinode_of v) v.inum);
            iobuffer = written fs.dev (dinode_of v) v.inum;
          };
        },
      )
unfolding rfs_write_back_vinode
rfs_write_back_vinode_lem fs v h = rw (rfs_write_dinode_lem fs.dev (dinode_of v) v.inum h, ◌>>=◌)

-- The vnode with the fields of a disk inode.
abbrev pub filled : Vinode → RfsDinode → Vinode
filled w x = record w {
  size = x.size;
  type = x.type;
  nlinks = x.nlinks;
  blocks = x.blocks;
  addrs = x.addrs;
}

rfs_update_vinode_lem :
    (fs : Fs) (w : Vinode)
    → IsInum w.inum
    → rfs_update_vinode fs w
      ≡ ok (
        pos 0,
        filled w (dinode_at fs.dev w.inum),
        record fs { dev = record fs.dev { iobuffer = fs.dev.blocks (inode_block w.inum) } },
      )
unfolding rfs_update_vinode
rfs_update_vinode_lem fs w h = rw (rfs_read_dinode_lem fs.dev w.inum h, ◌>>=◌)

-- A vnode that is written back and read again, by `rfs_update_vinode` into any other vnode `v` of
-- the same inode number, gets the size, type, link count, block count and addresses of the first;
-- neither operation fails.
pub write_back-update :
    (fs : Fs) (v w : Vinode)
    → IsInum v.inum
    → w.inum ≡ v.inum
    → FitsInt (dinode_of v)
    → Returns
        (do
          (ret, fs') ← rfs_write_back_vinode fs v
          (ret', w', fs'') ← rfs_update_vinode fs' w
          ok (ret, ret', w'))
        (λ (ret, ret', w'). (ret ≡ pos 0) × (ret' ≡ pos 0) × Same (dinode_of w') (dinode_of v))
unfolding dinode_of
write_back-update fs v w h e fits = (
  (pos 0, pos 0, filled w (dinode_at d' w.inum)),
  rw (
    rfs_write_back_vinode_lem fs v h,
    ◌>>=◌,
    rfs_update_vinode_lem (record fs { dev = d' }) w (rw e h),
  ),
  (refl, refl, same),
)
  where
    d' : RfsDevice
    d' = record {
      blocks = set_block fs.dev.blocks (inode_block v.inum) (written fs.dev (dinode_of v) v.inum);
      iobuffer = written fs.dev (dinode_of v) v.inum;
    }

    same : Same (dinode_of (filled w (dinode_at d' w.inum))) (dinode_of v)
    same =
        rw (e, ==_refl (inode_block v.inum))
          (get_dinode-put (fs.dev.blocks (inode_block v.inum)) (dinode_of v) (inode_offset v.inum)
            fits)

-- ===== src/Examples/Disk.antt =====
-- The RAM-disk file system at a concrete disk.
use cabbage_pke.Common.{
  ℕ, zero, suc, ◌+◌, ◌-◌, ◌<◌, ◌≡◌, ◌≢◌, refl, arith, ok, Returns, ◌>>=◌, ◌==◌, if◌then◌else◌,
}
use cabbage_pke.Common.Int.{pos, negsuc}
use cabbage_pke.Rfs.{
  Block, RfsDevice, Fs, Vinode, dinode_of, rfs_read_dinode, rfs_write_dinode, rfs_write_back_vinode,
  rfs_update_vinode, rfs_alloc_block, rfs_free_block, get_dinode,
}
use cabbage_pke.Rfs.Inodes.{
  FitsInt, dinode_at, Same, write-read_dinode, write-read_other, write_back-update,
}
use cabbage_pke.Rfs.Blocks.{AllocOutcome, rfs_alloc_block-AllocOutcome, alloc-free}
use cabbage_pke.Rfs.File.{rfs_read, rfs_write, rfs_lseek}
use cabbage_pke.Rfs.File.Read.{FileRead, rfs_read-FileRead}
use cabbage_pke.Rfs.File.Owned.{IsOwned, IsOwned→IsLaid}
use cabbage_pke.Rfs.File.Whole.{FileWritten, rfs_write-FileWritten, write-read}
use cabbage_pke.Rfs.File.Seek.{target, Sought, rfs_lseek-target}
use cabbage_pke.Rfs.Dir.{new_dinode}
use cabbage_pke.Rfs.Dir.Create.{Created, new_dinode-Created}
use cabbage_pke.Rfs.Format.{rfs_format_dev, rfs_get_superblock}
use cabbage_pke.Rfs.Format.Mount.{Fresh, format-Fresh}

abbrev pub blank : Block
blank q = 0

abbrev disk : RfsDevice
disk = record { blocks = λ n. blank; iobuffer = λ q. 7 }

-- Data block 0 is taken.
abbrev pub mounted : Fs
mounted = record { dev = disk; freemap = λ i. if i == 0 then 1 else 0; nblocks = 100 }

-- A file of 10 bytes in that block.
abbrev pub file : Vinode
file = record {
  inum = 1;
  ref = 1;
  size = 10;
  type = 0;
  nlinks = 1;
  blocks = 1;
  addrs = λ i. 12 + i;
}

file_taken : (i : ℕ) → i < 1 → mounted.freemap (12 + i - 12) ≢ 0
file_taken zero h = omega arith
file_taken (suc i) h = absurd (omega arith)

file-IsOwned : IsOwned mounted file
file-IsOwned = record {
  blocks = omega arith;
  low = λ i h. omega arith;
  high = λ i h. omega arith;
  taken = file_taken;
  distinct = λ i j h k e. omega arith;
  nblocks = omega arith;
}

abbrev letter : Block
letter q = 65

write-read_example :
    Returns
      (do
        (_, _, v', fs') ← rfs_write mounted file letter 5000 10
        rfs_read fs' v' blank blank 5000 10)
      (λ (n, _, r, _). (n ≡ 5000) × ((j : ℕ) → j < 5000 → r j ≡ 65) × (r 5000 ≡ 0))
write-read_example =
    write-read mounted file letter blank blank 5000 10 file-IsOwned (omega arith) (omega arith)
      (omega arith) (omega arith) (omega arith) (λ j h. omega arith)

rfs_write-FileWritten_example :
    Returns (rfs_write mounted file letter 5000 10) (FileWritten mounted file letter 5000 10)
rfs_write-FileWritten_example =
    rfs_write-FileWritten mounted file letter 5000 10 file-IsOwned (omega arith) (omega arith)
      (omega arith) (omega arith)

rfs_read-FileRead_example :
    Returns (rfs_read mounted file letter blank 20 3) (FileRead mounted file 20 3)
rfs_read-FileRead_example =
    rfs_read-FileRead mounted file letter blank 20 3 (IsOwned→IsLaid mounted file file-IsOwned)
      (omega arith) (omega arith) (omega arith)

rfs_lseek-target_example : Sought file (target (negsuc 2) 1 9) 9 (rfs_lseek file (negsuc 2) 1 9)
rfs_lseek-target_example = rfs_lseek-target file (negsuc 2) 1 9

rfs_alloc_block-AllocOutcome_example : AllocOutcome mounted (rfs_alloc_block mounted)
rfs_alloc_block-AllocOutcome_example = rfs_alloc_block-AllocOutcome mounted

alloc-free_example :
    Returns
      (do (n, fs') ← rfs_alloc_block mounted; rfs_free_block fs' n)
      (λ fs''. ((i : ℕ) → fs''.freemap i ≡ mounted.freemap i) × (fs''.dev ≡ disk))
alloc-free_example = alloc-free mounted 5 (omega arith) refl

file-FitsInt : FitsInt (dinode_of file)
unfolding dinode_of
file-FitsInt = record {
  size = omega arith;
  type = omega arith;
  nlinks = omega arith;
  blocks = omega arith;
  addrs = λ i h. omega arith;
}

write-read_dinode_example :
    Returns
      (do (_, d') ← rfs_write_dinode disk (dinode_of file) 33; rfs_read_dinode d' 33)
      (λ (y, _). Same y (dinode_of file))
write-read_dinode_example = write-read_dinode disk (dinode_of file) 33 (omega arith) file-FitsInt

write-read_other_example :
    Returns
      (do (_, d') ← rfs_write_dinode disk (dinode_of file) 33; rfs_read_dinode d' 34)
      (λ (y, _). Returns (rfs_read_dinode disk 34) (λ (z, _). Same y z))
write-read_other_example =
    write-read_other disk (dinode_of file) 33 34 (omega arith) (omega arith) (omega arith)

write_back-update_example :
    Returns
      (do
        (ret, fs') ← rfs_write_back_vinode mounted file
        (ret', w', fs'') ← rfs_update_vinode fs' (record file { size = 3 })
        ok (ret, ret', w'))
      (λ (ret, ret', w'). (ret ≡ pos 0) × (ret' ≡ pos 0) × Same (dinode_of w') (dinode_of file))
write_back-update_example =
    write_back-update mounted file (record file { size = 3 }) (omega arith) refl file-FitsInt

format-Fresh_example :
    Returns (do (_, d') ← rfs_format_dev disk letter; rfs_get_superblock d' file) Fresh
format-Fresh_example = format-Fresh disk letter file

zero-FitsInt : (j : ℕ) → FitsInt (dinode_at disk j)
unfolding get_dinode
zero-FitsInt j = record {
  size = omega arith;
  type = omega arith;
  nlinks = omega arith;
  blocks = omega arith;
  addrs = λ i h. omega arith;
}

abbrev roomy : Fs
roomy = record mounted { nblocks = 2 }

new_dinode-Created_example : Returns (new_dinode roomy 1) (Created roomy 1)
new_dinode-Created_example =
    new_dinode-Created roomy 1 zero-FitsInt (omega arith) (omega arith) (omega arith)

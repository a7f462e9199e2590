-- ===== src/Examples/Files.antt =====
-- Paths, open files and descriptors at a concrete state: a root directory at 16384 and a file in it at 20480.
use cabbage_pke.Common.{
  ℕ, ◌%◌, ◌<◌, ◌≡◌, ◌≢◌, refl, true, false, some, [], ◌∷◌, ◌++◌, arith, ok, ◌>>=◌, Returns, ◌==◌,
  if◌then◌else◌,
}
use cabbage_pke.Common.Int.{pos, negsuc}
use cabbage_pke.Pmm.{alloc_page, ref_insert, ref_find, search, lower, insert_at}
use cabbage_pke.Vfs.{vinode_hash_equal, vinode_hash_func}
use cabbage_pke.Vfs.Objects.{Dentry, Inode, VinodeOps, World, fd_none}
use cabbage_pke.Vfs.Paths.{lookup_final_dentry, tokens, get_base_name}
use cabbage_pke.Vfs.Paths.Tokens.{path_of, tokens-path_of}
use cabbage_pke.Vfs.Paths.Resolve.{lookup_final_dentry-resolve}
use cabbage_pke.Vfs.Files.{file_mode, vfs_open, vfs_read, vfs_write, vfs_close}
use cabbage_pke.Vfs.Files.Modes.{open-denied}
use cabbage_pke.Vfs.Files.Close.{opened, vfs_open-close, vfs_open-opened}
use cabbage_pke.Vfs.Ram.{RamDisk, rfs_i_ops}
use cabbage_pke.ProcFile.{ProcFiles, file_at, get_opened_file, do_open, do_read_cwd}
use cabbage_pke.ProcFile.Table.{IsOutside, get_opened_file-entry, Installed, do_open-Installed}
use cabbage_pke.ProcFile.Cwd.{do_read_cwd-topmost}
use cabbage_pke.Examples.Caches.{cache, cache-IsValid, pool, pool₁}
use cabbage_pke.Examples.Disk.{mounted, file, blank}

abbrev pub ops : ℕ → VinodeOps RamDisk
ops a = rfs_i_ops file blank 24576 28672

abbrev dentries : ℕ → Dentry
dentries a =
    if a == 20480
    then record { name = b'f' ∷ []; d_ref = pos 1; inode = 36864; parent = 16384 }
    else record { name = b'/' ∷ []; d_ref = pos 0; inode = 32768; parent = 0 }

abbrev inodes : ℕ → Inode
inodes a =
    if a == 36864
    then record { node = file; unnumbered = false; sb = 24576; i_ops = 28672 }
    else record { node = record file { type = 1 }; unnumbered = false; sb = 24576; i_ops = 28672 }

abbrev pub world : World RamDisk
world = record {
  env = record {
    pmm = pool;
    fs = record {
      disk = mounted;
      memory = blank;
      caches = λ _. record { block_count = 0; dir_base_addr = 0 };
    };
  };
  dentries = dentries;
  inodes = inodes;
  files = λ a. record { status = 0; readable = false; writable = false; offset = 0; f_dentry = 0 };
  dentry_table = cache;
  vinode_table = record { chains = []; equal = vinode_hash_equal; func = vinode_hash_func };
  root = 16384;
}

-- The path "./.." from the file.
lookup_final_dentry-resolve_example :
    Returns
      (lookup_final_dentry ops world (b'.' ∷ b'/' ∷ b'.' ∷ b'.' ∷ []) 20480)
      (λ f. (f.this ≡ some 16384) × (f.world ≡ world))
unfolding tokens
lookup_final_dentry-resolve_example =
    lookup_final_dentry-resolve ops world cache-IsValid (b'.' ∷ b'/' ∷ b'.' ∷ b'.' ∷ []) 20480 16384
      (omega arith) (omega arith) refl

tokens-path_of_example :
    (tokens (path_of ((b'a' ∷ []) ∷ (b'b' ∷ b'c' ∷ []) ∷ []))
      ≡ (b'a' ∷ []) ∷ (b'b' ∷ b'c' ∷ []) ∷ [])
    × (get_base_name (path_of ((b'a' ∷ []) ∷ (b'b' ∷ b'c' ∷ []) ∷ [])) ≡ ok (b'b' ∷ b'c' ∷ []))
tokens-path_of_example =
    tokens-path_of ((b'a' ∷ []) ∷ []) (b'b' ∷ b'c' ∷ []) ((refl, tt), ((refl, (refl, tt)), tt))
      (omega arith)

-- The path "." from the file is the file.
here :
    Returns
      (lookup_final_dentry ops world (b'.' ∷ []) 20480)
      (λ f. (f.this ≡ some 20480) × (f.world ≡ world))
unfolding tokens
here =
    lookup_final_dentry-resolve ops world cache-IsValid (b'.' ∷ []) 20480 20480 (omega arith)
      (omega arith) refl

taken : alloc_page pool ≡ ok (8192, pool₁)
unfolding alloc_page ref_insert ref_find search lower insert_at
taken = refl

vfs_open-close_example :
    Returns
      (do (a, w₁) ← vfs_open ops world (b'.' ∷ []) 2 20480; vfs_close ops w₁ a)
      (λ (ret, w').
        (ret ≡ pos 0)
        × ((w'.files 8192).status ≡ fd_none)
        × ((a : ℕ) → a ≢ 8192 → w'.files a ≡ world.files a)
        × ((a : ℕ) → w'.dentries a ≡ dentries a)
        × (w'.inodes ≡ inodes)
        × (w'.dentry_table ≡ world.dentry_table)
        × (w'.vinode_table ≡ world.vinode_table))
unfolding file_mode
vfs_open-close_example =
    vfs_open-close ops world (b'.' ∷ []) 2 20480 20480 8192 0 pool₁ true true here refl refl refl
      refl taken (omega arith) refl

-- The file is open for reading.
after : World RamDisk
after = opened ops world 20480 8192 pool₁ true false

open_lem : vfs_open ops world (b'.' ∷ []) 0 20480 ≡ ok (8192, after)
unfolding file_mode after
open_lem =
    vfs_open-opened ops world (b'.' ∷ []) 0 20480 20480 8192 pool₁ true false here refl refl refl
      taken (omega arith)

open-denied_example :
    ((0 % 4 ≡ 0) → vfs_write ops after 8192 blank 5 ≡ ok (negsuc 0, after))
    × ((0 % 4 ≡ 1) → vfs_read ops after 8192 blank 5 ≡ ok (negsuc 0, blank, after))
open-denied_example =
    open-denied ops world after (b'.' ∷ []) 0 20480 8192 blank 5 open_lem (omega arith)

abbrev pub process : ProcFiles
process = record { base = 40960; cwd = 20480; nfiles = 3 }

get_opened_file-entry_example :
    ((n : ℕ) → n < 128 → get_opened_file process (pos n) ≡ file_at 40960 n)
    × (IsOutside (negsuc 0) → get_opened_file process (negsuc 0) ≡ file_at 40960 127)
get_opened_file-entry_example = get_opened_file-entry process (negsuc 0)

do_open-Installed_example :
    Returns (do_open ops world process (b'.' ∷ []) 0) (Installed after process 8192)
unfolding after
do_open-Installed_example =
    do_open-Installed ops world after process (b'.' ∷ []) 0 8192 0 open_lem (omega arith)
      (omega arith) (omega arith) refl

do_read_cwd-topmost_example : do_read_cwd 2 world process ≡ ok ((b'/' ∷ []) ++ b'f' ∷ [])
do_read_cwd-topmost_example =
    do_read_cwd-topmost world 2 16384 [] process (refl, omega arith, omega arith, refl)
      (omega arith)

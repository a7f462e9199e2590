-- ===== src/Rfs/Readdir.antt =====
-- The directory stream of kernel/rfs.c: the cache of an open directory in pages of the kernel, and
-- the entries read from it.
use cabbage_pke.Common.{
  ℕ, zero, suc, ◌+◌, ◌-◌, ◌*◌, ◌/◌, ◌&&◌, not, Run, ok, panic, ◌>>=◌, leb, ◌==◌, if◌then◌else◌,
}
use cabbage_pke.Common.Int.{ℤ, pos, negsuc}
use cabbage_pke.Pmm.{Pmm, pgsize, alloc_page, free_page}
use cabbage_pke.Rfs.{Block, RfsDevice, blit, load32, Vinode}
use cabbage_pke.Rfs.File.{read_addr, copy_string}
use cabbage_pke.Rfs.Dir.{sizeof_direntry}

-- The pages, the bytes of the memory by address, and the device.
pub record Machine : Type 0 where
  pub pmm : Pmm
  pub memory : Block
  pub dev : RfsDevice

pub record RfsDirCache : Type 0 where
  pub block_count : ℕ
  pub dir_base_addr : ℕ

-- The loop over the blocks of the directory from the last to the first; 0 is NULL.
unfoldable pub cache_blocks : ℕ → Vinode → ℕ → Machine → Run (ℕ × Machine)
cache_blocks zero dir pdire m = ok (pdire, m)
cache_blocks (suc i) dir pdire m = do
  (page, pmm) ← alloc_page m.pmm
  if not (pdire == 0) && not (pdire == page + pgsize) then panic else do
    d ← read_addr m.dev dir i
    cache_blocks i dir page
        (record { pmm = pmm; memory = blit m.memory page d.iobuffer 0 pgsize; dev = d })

unfoldable pub rfs_hook_opendir : Machine → Vinode → Run (ℤ × RfsDirCache × Machine)
rfs_hook_opendir m dir = do
  (pdire, m₁) ← cache_blocks dir.blocks dir 0 m
  (page, pmm) ← alloc_page m₁.pmm
  ok (pos 0, record { block_count = dir.blocks; dir_base_addr = pdire }, record m₁ { pmm = pmm })

-- The pages of the blocks are freed; the page of the cache itself is not.
unfoldable pub free_cache : ℕ → ℕ → Pmm → Run Pmm
free_cache zero base s = ok s
free_cache (suc k) base s = do s' ← free_page s base; free_cache k (base + pgsize) s'

unfoldable pub rfs_hook_closedir : Machine → RfsDirCache → Run (ℤ × Machine)
rfs_hook_closedir m cache = do
  pmm ← free_cache cache.block_count cache.dir_base_addr m.pmm
  ok (pos 0, record m { pmm = pmm })

-- The result, `dir->name`, `dir->inum` and the offset; `name` is what `dir->name` held, and a name
-- has its 0 within the entry.
unfoldable pub rfs_readdir : Machine → Vinode → RfsDirCache → Block → ℕ → ℕ → ℤ × Block × ℕ × ℕ
rfs_readdir m dir cache name inum offset =
    if leb (dir.size / sizeof_direntry) offset
    then (negsuc 0, name, inum, offset)
    else let entry = cache.dir_base_addr + offset * sizeof_direntry in
      (
        pos 0,
        copy_string (sizeof_direntry - 5) name (λ q. m.memory (entry + 4 + q)) 0,
        load32 m.memory entry,
        offset + 1,
      )

-- ===== src/Examples/Calls.antt =====
-- System calls at concrete arguments and a concrete state.
use cabbage_pke.Common.{
  ◌+◌, ◌≤◌, ◌<◌, ◌≡◌, ◌↔◌, ◌⊎◌, ◌^◌, refl, true, arith, ok, panic, Returns, Stops, ◌==◌,
  if◌then◌else◌,
}
use cabbage_pke.Common.Int.{pos, negsuc}
use cabbage_pke.Pmm.{
  free_page, alloc_page, bad_page, ref_insert, ref_find, ref_erase, search, lower, insert_at,
  modify, bump, unbump, settle,
}
use cabbage_pke.Vmm.{Vm, set_pte, lookup_pa, page_walk, walk, prot_to_type}
use cabbage_pke.Vfs.Objects.{World}
use cabbage_pke.Vfs.Ram.{RamDisk}
use cabbage_pke.ProcFile.{file_at, get_opened_file}
use cabbage_pke.Space.{Space, user_page, first_regions, cleared_regs}
use cabbage_pke.Syscall.{do_syscall, sys_user_lseek}
use cabbage_pke.Syscall.Buffers.{read_part, write_part, user_read, user_write}
use cabbage_pke.UserLib.{lseek_u, user_call, returned}
use cabbage_pke.Syscall.Agree.{do_syscall-user_call, returned_same}
use cabbage_pke.Syscall.Pages.{Reused, free_and_allocate, free_user_page-allocate_page}
use cabbage_pke.Syscall.Transfer.{Moved}
use cabbage_pke.Syscall.Files.{user_transfer-Moved, user_read-directory}
use cabbage_pke.Syscall.Disk.{rfs_i_ops-Moving}
use cabbage_pke.Examples.Disk.{file, blank}
use cabbage_pke.Examples.Files.{ops, world, process}
use cabbage_pke.Examples.Mappings.{tables}
use cabbage_pke.Examples.Spaces.{mapped, pool, pool₁, pool₂}

-- Seek back by four bytes.
do_syscall-user_call_example :
    do_syscall (user_call (lseek_u (pos 3) (negsuc 3) (pos 1)))
    ≡ ok (sys_user_lseek (pos 3) (negsuc 3) (pos 1))
do_syscall-user_call_example =
    do_syscall-user_call (lseek_u (pos 3) (negsuc 3) (pos 1))
      (omega arith, omega arith, omega arith)

returned_same_example :
    (returned 0x80000000 ≡ 0x80000000) ↔ ((0x80000000 < 2 ^ 31) ⊎ (2 ^ 64 ≤ 0x80000000 + 2 ^ 31))
returned_same_example = returned_same 0x80000000 (omega arith)

-- A process whose heap is page 3, which is mapped to the shared page 8192.
abbrev pub space : Space
space = record {
  kstack = 0;
  pagetable = 4096;
  trapframe = 0;
  regs = cleared_regs;
  mapped_info = first_regions 0 0;
  total_mapped_region = 4;
  user_heap = record {
    heap_top = 16384;
    heap_bottom = 12288;
    free_pages_address = λ k. 0;
    free_pages_count = 0;
  };
}

abbrev sharing : Vm
sharing = record { pmm = pool; ptes = set_pte tables.ptes 12312 (user_page 8192) }

free_user_page-allocate_page_example :
    ((12288 < 16384)
      × Returns
          (free_and_allocate sharing space 12288)
          (Reused sharing space 12288 12312 12288 pool₂))
    ⊎ ((16384 ≤ 12288) × (free_and_allocate sharing space 12288 ≡ panic))
unfolding free_page alloc_page bad_page ref_insert ref_find ref_erase search lower insert_at modify
    settle bump unbump
free_user_page-allocate_page_example =
    free_user_page-allocate_page sharing space 12288 12312 12288 pool₁ pool₂ (omega arith)
      (omega arith) (refl, (refl, refl)) (omega arith) refl refl

-- Descriptor 2 reads and writes the file, descriptor 4 reads the root directory.
abbrev pub opening : World RamDisk
opening = record world {
  files = λ a. record {
    status = 1;
    readable = true;
    writable = file_at 40960 2 == a;
    offset = 0;
    f_dentry = if file_at 40960 2 == a then 20480 else 16384;
  };
}

user_transfer-Moved_example :
    Stops (user_read ops 6 mapped 4096 process (pos 2) 12290 5 blank (opening, blank)) (
      Moved
        (lookup_pa mapped 4096)
        (read_part ops process (pos 2) blank)
        12290
        5
        0
        (opening, blank))
    × Stops
        (user_write ops 6 mapped 4096 process (pos 2) 12290 5 blank opening)
        (Moved (lookup_pa mapped 4096) (write_part ops process (pos 2) blank) 12290 5 0 opening)
unfolding get_opened_file
user_transfer-Moved_example =
    user_transfer-Moved ops (rfs_i_ops-Moving file blank 24576 28672) 6 mapped 4096 process (pos 2)
      12290 5 blank blank opening refl (omega arith) (omega arith)

user_read-directory_example :
    Returns
      (user_read ops 2 mapped 4096 process (pos 4) 12290 5 blank (opening, blank))
      (λ (n, s'). (n ≡ 5) × (s'.0 ≡ opening))
unfolding get_opened_file lookup_pa page_walk walk prot_to_type
user_read-directory_example =
    user_read-directory ops 0 mapped 4096 process (pos 4) 12290 5 20480 blank blank opening refl
      refl (omega arith) (omega arith) refl (omega arith)

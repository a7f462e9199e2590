-- ===== src/Examples/Forks.antt =====
-- A fork at a concrete state.
use cabbage_pke.Common.{ℕ, ◌-◌, ◌≡◌, inl, refl, false, [], ◌∷◌, arith, Run, ok, Returns}
use cabbage_pke.Pmm.{Pmm, alloc_page, ref_insert, ref_find, search, lower, insert_at}
use cabbage_pke.Vmm.{no_pte, map_pages, map_from, page_walk, walk, user_vm_map, prot_to_type}
use cabbage_pke.Space.{
  Space, Memory, region, context_segment, cleared_regs, next_page, take_page, alloc_space,
  map_segments,
}
use cabbage_pke.Space.Regions.{fork_region, fork_regions}
use cabbage_pke.Sched.{find_free}
use cabbage_pke.Vfs.Objects.{with_pmm}
use cabbage_pke.Vfs.Ram.{RamDisk}
use cabbage_pke.ProcFile.{init_proc_file_management}
use cabbage_pke.Fork.{Machine, memory_of, copy_files, alloc_process, do_fork}
use cabbage_pke.Fork.Files.{Copied, copy_files-Copied}
use cabbage_pke.Fork.Child.{Forked, do_fork-Forked}
use cabbage_pke.Examples.Disk.{blank}
use cabbage_pke.Examples.Files.{world, process}
use cabbage_pke.Examples.Turns.{kernel, kernel-IsQueue, kernel-AllReady}

-- The pages from 131072 on down are free.
abbrev pool : Pmm
pool = record {
  refs = [];
  head = 131072;
  next = λ p. p - 4096;
  free_mem_start_addr = 4096;
  free_mem_end_addr = 262144;
}

abbrev space : Space
space = record {
  kstack = 0;
  pagetable = 4096;
  trapframe = 8192;
  regs = record cleared_regs { a0 = 7; epc = 65536 };
  mapped_info = λ i. region 8192 1 context_segment;
  total_mapped_region = 1;
  user_heap = record {
    heap_top = 16384;
    heap_bottom = 12288;
    free_pages_address = λ k. 0;
    free_pages_count = 0;
  };
}

abbrev machine : Machine RamDisk
machine = record {
  kernel = kernel;
  vm = record { pmm = pool; ptes = λ a. no_pte };
  bytes = blank;
  world = record world { env = record world.env { pmm = pool } };
  spaces = λ i. space;
  pfiles = λ i. process;
}

abbrev result {ℓ} : {A : Type ℓ} → Run A → A → A
result (ok a) d = a
result _ d = d

made : ℕ × Machine RamDisk
made = result (alloc_process machine 2147500032) (0, machine)

made_lem : alloc_process machine 2147500032 ≡ ok made
unfolding made alloc_process find_free alloc_space take_page next_page map_segments alloc_page
    ref_insert ref_find search lower insert_at user_vm_map map_pages map_from page_walk walk
    prot_to_type init_proc_file_management
made_lem = refl

copied : Space × Memory
unfolding made
copied =
    result (fork_regions 1 0 (λ i. false) (memory_of made.1) space (made.1.spaces made.0))
      (space, memory_of machine)

copied_lem :
    fork_regions
      (made.1.spaces 1).total_mapped_region
      0
      (λ i. false)
      (memory_of made.1)
      (made.1.spaces 1)
      (made.1.spaces made.0)
    ≡ ok copied
unfolding made copied alloc_process find_free alloc_space take_page next_page map_segments
    alloc_page ref_insert ref_find search lower insert_at user_vm_map map_pages map_from page_walk
    walk prot_to_type init_proc_file_management fork_regions fork_region
copied_lem = refl

-- The pages of the parent's and the child's entries.
made_pages : ((made.1.pfiles 1).base ≡ 40960) × ((made.1.pfiles made.0).base ≡ 86016)
unfolding made alloc_process find_free alloc_space take_page next_page map_segments alloc_page
    ref_insert ref_find search lower insert_at user_vm_map map_pages map_from page_walk walk
    prot_to_type init_proc_file_management
made_pages = (refl, refl)

do_fork-Forked_example : Returns (do_fork (λ i. false) machine 2147500032 1) (
    Forked machine 1
      (2 ∷ 3 ∷ [])
      made.0
      (with_pmm made.1.world copied.1.vm.pmm)
      (made.1.pfiles made.0).base)
do_fork-Forked_example =
    do_fork-Forked (λ i. false) machine 2147500032 1 (2 ∷ 3 ∷ []) made.0 made.1 copied.0 copied.1
      kernel-IsQueue kernel-AllReady refl made_lem copied_lem
      (inl (rw (made_pages.0, made_pages.1) (omega arith)))

copy_files-Copied_example : Copied 2 0 world 40960 45056 (copy_files 2 0 world 40960 45056)
copy_files-Copied_example =
    copy_files-Copied 2 0 world 40960 45056 (omega arith) (inl (omega arith))

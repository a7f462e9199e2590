-- ===== src/Space.antt =====
-- The address space of a process in kernel/process.c and kernel/strap.c: its segments, their set-up in
-- `alloc_process` and `exec_clean`, the release in `proc_clean_pagetable`, and the page faults. The memory
-- is bytes by physical address, where they are copied.
pub mod Regions
pub mod Faults
use cabbage_pke.Common.{
  ℕ, zero, suc, ◌+◌, ◌-◌, ◌*◌, ◌/◌, ◌^◌, ◌%◌, Bool, true, false, ◌&&◌, not, Option, none, some, Run,
  ok, panic, fault, out_of_fuel, ◌>>=◌, ltb, leb, ◌==◌, if◌then◌else◌,
}
use cabbage_pke.Pmm.{Pmm, pgsize, alloc_page, free_page}
use cabbage_pke.Str.{in_range}
use cabbage_pke.Vmm.{
  Perm, Pte, no_pte, page_of, Vm, set_pte, page_walk, prot_to_type, map_pages, lookup_pa,
  user_vm_map, cow_vm_map,
}

pub data SegmentType : Type 0 where
  stack_segment : SegmentType
  context_segment : SegmentType
  system_segment : SegmentType
  heap_segment : SegmentType
  code_segment : SegmentType
  data_segment : SegmentType

pub record MappedRegion : Type 0 where
  pub va : ℕ
  pub npages : ℕ
  pub seg_type : SegmentType

-- The saved registers that the kernel sets, and the other ones by number.
pub record Trapframe : Type 0 where
  pub sp : ℕ
  pub a0 : ℕ
  pub epc : ℕ
  pub other : ℕ → ℕ

-- `process_heap_manager`.
pub record HeapManager : Type 0 where
  pub heap_top : ℕ
  pub heap_bottom : ℕ
  pub free_pages_address : ℕ → ℕ
  pub free_pages_count : ℕ

-- The fields of `process` for its space; `regs` is what `trapframe` points to, and `mapped_info` the
-- regions in its page.
pub record Space : Type 0 where
  pub kstack : ℕ
  pub pagetable : ℕ
  pub trapframe : ℕ
  pub regs : Trapframe
  pub mapped_info : ℕ → MappedRegion
  pub total_mapped_region : ℕ
  pub user_heap : HeapManager

pub record Memory : Type 0 where
  pub vm : Vm
  pub bytes : ℕ → ℕ

abbrev pub user_stack_top : ℕ
user_stack_top = 0x7ffff000

abbrev pub user_free_address_start : ℕ
user_free_address_start = 4096 * 1024

abbrev pub max_heap_pages : ℕ
max_heap_pages = 32

abbrev pub cleared_regs : Trapframe
cleared_regs = record { sp = user_stack_top; a0 = 0; epc = 0; other = λ _. 0 }

abbrev pub region : ℕ → ℕ → SegmentType → MappedRegion
region va npages type = record { va = va; npages = npages; seg_type = type }

-- The regions that a new space has, by their index.
abbrev pub first_regions : ℕ → ℕ → ℕ → MappedRegion
first_regions trapframe trap_sec_start i =
    if i == 0
    then region (user_stack_top - pgsize) 1 stack_segment
    else if i == 1
    then region trapframe 1 context_segment
    else if i == 2
    then region trap_sec_start 1 system_segment
    else if i == 3
    then region user_free_address_start 0 heap_segment
    else region 0 0 stack_segment

abbrev pub new_heap : (ℕ → ℕ) → HeapManager
new_heap addresses = record {
  heap_top = user_free_address_start;
  heap_bottom = user_free_address_start;
  free_pages_address = addresses;
  free_pages_count = 0;
}

unfoldable pub next_page : Vm → Run (ℕ × Vm)
next_page vm = do (page, s) ← alloc_page vm.pmm; ok (page, record vm { pmm = s })

-- A page that is written to, which is undefined for NULL.
unfoldable pub take_page : Vm → Run (ℕ × Vm)
unfolding next_page
take_page vm = do (page, vm') ← next_page vm; if page == 0 then fault else ok (page, vm')

-- `memset` of a page that holds a table.
abbrev pub clear_table : Vm → ℕ → Vm
clear_table vm page = record vm { ptes = λ a. if in_range page pgsize a then no_pte else vm.ptes a }

-- The stack, the trapframe and the trap section are mapped.
unfoldable pub map_segments : Vm → ℕ → ℕ → ℕ → ℕ → Run Vm
map_segments vm pagetable trapframe user_stack trap_sec_start = do
  vm₁ ←
      user_vm_map vm pagetable (user_stack_top - pgsize) pgsize user_stack
        (prot_to_type true true false true)
  vm₂ ← user_vm_map vm₁ pagetable trapframe pgsize trapframe (prot_to_type true true false false)
  user_vm_map vm₂ pagetable trap_sec_start pgsize trap_sec_start
      (prot_to_type true false true false)

-- The part of `alloc_process` behind the search for a free process; `old` is what the process held.
unfoldable pub alloc_space : Vm → ℕ → Space → Run (Space × Vm)
alloc_space vm trap_sec_start old = do
  (trapframe, vm₁) ← take_page vm
  (pagetable, vm₂) ← take_page vm₁
  (kstack, vm₃) ← next_page (clear_table vm₂ pagetable)
  (user_stack, vm₄) ← next_page vm₃
  (mapped_info, vm₅) ← take_page vm₄
  vm₆ ← map_segments vm₅ pagetable trapframe user_stack trap_sec_start
  ok (
    record {
      kstack = kstack + pgsize;
      pagetable = pagetable;
      trapframe = trapframe;
      regs = cleared_regs;
      mapped_info = first_regions trapframe trap_sec_start;
      total_mapped_region = 4;
      user_heap = new_heap old.user_heap.free_pages_address;
    },
    vm₆,
  )

-- The pages of the heap, from `top` down.
unfoldable pub free_heap : ℕ → Vm → ℕ → ℕ → Run Vm
free_heap zero vm pagetable top = ok vm
free_heap (suc k) vm pagetable top = do
  pa ← lookup_pa vm pagetable top
  s ← free_page vm.pmm pa
  free_heap k (record vm { pmm = s }) pagetable (top + 2 ^ 64 - pgsize)

-- The pages of a segment that are valid and writable; `*pte` of NULL is undefined.
unfoldable pub free_segment : ℕ → Vm → ℕ → ℕ → Run Vm
free_segment zero vm pagetable va = ok vm
free_segment (suc k) vm pagetable va = do
  (pte, vm₁) ← page_walk vm pagetable va false
  elim pte [
    | none ↦ fault
    | some a ↦
        let e = vm₁.ptes a in
        elim (e.perm.writable && e.valid) [
          | false ↦ free_segment k vm₁ pagetable (va + pgsize)
          | true ↦ do
            s ← free_page vm₁.pmm e.pa
            free_segment k
                (record { pmm = s; ptes = set_pte vm₁.ptes a (record e { valid = false }) })
                pagetable (va + pgsize)
        ]
  ]

unfoldable pub clean_region : Vm → Space → MappedRegion → Run Vm
clean_region vm p r = elim r.seg_type [
  | heap_segment ↦ free_heap r.npages vm p.pagetable (p.user_heap.heap_top + 2 ^ 64 - pgsize)
  | _ ↦ free_segment r.npages vm p.pagetable r.va
]

unfoldable pub clean_regions : ℕ → ℕ → Vm → Space → Run Vm
clean_regions zero i vm p = ok vm
clean_regions (suc k) i vm p = do
  vm' ← clean_region vm p (p.mapped_info i)
  clean_regions k (i + 1) vm' p

unfoldable pub proc_clean_pagetable : Vm → Space → Run Vm
proc_clean_pagetable vm p = clean_regions p.total_mapped_region 0 vm p

unfoldable pub exec_clean : Vm → ℕ → Space → Run (Space × Vm)
exec_clean vm trap_sec_start p = do
  vm₁ ← proc_clean_pagetable vm p
  (trapframe, vm₂) ← take_page vm₁
  (user_stack, vm₃) ← next_page (clear_table vm₂ p.pagetable)
  vm₄ ← map_segments vm₃ p.pagetable trapframe user_stack trap_sec_start
  ok (
    record p {
      trapframe = trapframe;
      regs = cleared_regs;
      mapped_info = first_regions trapframe trap_sec_start;
      total_mapped_region = 4;
      user_heap = new_heap p.user_heap.free_pages_address;
    },
    vm₄,
  )

-- `PA2PTE(pa) | PTE_V | prot_to_type(PROT_WRITE | PROT_READ, 1)`.
abbrev pub user_page : ℕ → Pte
user_page pa = record {
  valid = true;
  perm = prot_to_type true true false true;
  rsw = false;
  pa = page_of pa;
}

-- A store that faults: the stack grows, a shared page is given up for a new one, or the kernel panics. The
-- bytes of the memory are not an argument: no branch reads or writes them.
unfoldable pub store_fault : Vm → ℕ → ℕ → ℕ → Run Vm
store_fault vm pagetable sp stval =
    if ltb sp stval && ltb stval user_stack_top
    then (do
      (page, s) ← alloc_page vm.pmm
      if page == 0 then panic else do
        (pte, vm₁) ← page_walk (record vm { pmm = s }) pagetable stval true
        elim pte [
          | none ↦ fault
          | some a ↦ ok (record vm₁ { ptes = set_pte vm₁.ptes a (user_page page) })
        ])
    else do
      (pte, vm₁) ← page_walk vm pagetable stval false
      elim pte [
        | none ↦ fault
        | some a ↦ if not (vm₁.ptes a).rsw then panic else do
          s ← free_page vm₁.pmm (vm₁.ptes a).pa
          (page, s') ← alloc_page s
          if page == 0
              then panic
              else ok (record { pmm = s'; ptes = set_pte vm₁.ptes a (user_page page) })
      ]

-- ===== src/Space/Regions.antt =====
-- The copy of the regions of a parent for its child, in `do_fork` of kernel/process.c.
use cabbage_pke.Common.{
  ℕ, zero, suc, ◌+◌, ◌-◌, ◌*◌, ◌/◌, ◌^◌, ◌%◌, Bool, true, false, Run, ok, fault, out_of_fuel, ◌>>=◌,
  ltb, leb, ◌==◌, if◌then◌else◌,
}
use cabbage_pke.Pmm.{pgsize}
use cabbage_pke.Str.{in_range}
use cabbage_pke.Vmm.{Vm, prot_to_type, map_pages, lookup_pa, user_vm_map, cow_vm_map}
use cabbage_pke.Space.{
  SegmentType, MappedRegion, HeapManager, Space, Memory, max_heap_pages, take_page, stack_segment,
  context_segment, system_segment, heap_segment, code_segment, data_segment,
}

abbrev pub copy_page : (ℕ → ℕ) → ℕ → ℕ → ℕ → ℕ
copy_page bytes dst src a = if in_range dst pgsize a then bytes (src + (a - dst)) else bytes a

-- `free_block_filter`: `memset` clears as many bytes as there are entries, which are the first eight of
-- them; `stack` is what the array held. A mark out of the array is undefined.
unfoldable pub mark_free : ℕ → HeapManager → (ℕ → Bool) → Run (ℕ → Bool)
mark_free zero heap filter = ok filter
mark_free (suc k) heap filter = do
  marked ← mark_free k heap filter
  let index = (heap.free_pages_address k + 2 ^ 64 - heap.heap_bottom) % 2 ^ 64 / pgsize
  if leb max_heap_pages index then fault else ok (λ i. if index == i then true else marked i)

abbrev pub block_filter : (ℕ → Bool) → ℕ → Bool
block_filter stack i = if ltb i 8 then false else stack i

-- The loop over the blocks of the heap from `block` on; each one that is not free is shared.
unfoldable pub share_heap : ℕ → Vm → (ℕ → Bool) → HeapManager → ℕ → ℕ → ℕ → Run Vm
share_heap zero vm filter heap parent child block = out_of_fuel
share_heap (suc k) vm filter heap parent child block = elim (ltb block heap.heap_top) [
  | false ↦ ok vm
  | true ↦
      let index = (block - heap.heap_bottom) / pgsize in
      elim (leb max_heap_pages index) [
        | true ↦ fault
        | false ↦ elim (filter index) [
          | true ↦ share_heap k vm filter heap parent child (block + pgsize)
          | false ↦ do
            pa ← lookup_pa vm parent block
            vm' ← cow_vm_map vm child block pa
            share_heap k vm' filter heap parent child (block + pgsize)
        ]
      ]
]

-- The pages of a data segment are copied; the result of `map_pages` is not looked at.
unfoldable pub copy_data : ℕ → Memory → ℕ → ℕ → ℕ → Run Memory
copy_data zero m parent child va = ok m
copy_data (suc k) m parent child va = do
  addr ← lookup_pa m.vm parent va
  (page, vm₁) ← take_page m.vm
  (_, vm₂) ← map_pages vm₁ child va pgsize page (prot_to_type true true false true)
  copy_data k (record { vm = vm₂; bytes = copy_page m.bytes page addr }) parent child (va + pgsize)

-- The region becomes the next one of the child.
abbrev pub add_region : Space → MappedRegion → SegmentType → Space
add_region c r type = record c {
  mapped_info =
      λ i. if c.total_mapped_region == i then record r { seg_type = type } else c.mapped_info i;
  total_mapped_region = c.total_mapped_region + 1;
}

-- One round of the switch in `do_fork`. The parent is the current process.
unfoldable pub fork_region :
    (ℕ → Bool) → Memory → Space → Space → MappedRegion → Run (Space × Memory)
fork_region stack m p c r = elim r.seg_type [
  | context_segment ↦ ok (record c { regs = p.regs }, m)
  | stack_segment ↦ do
    dst ← lookup_pa m.vm c.pagetable (c.mapped_info 0).va
    src ← lookup_pa m.vm p.pagetable r.va
    ok (c, record m { bytes = copy_page m.bytes dst src })
  | heap_segment ↦ do
    filter ← mark_free p.user_heap.free_pages_count p.user_heap (block_filter stack)
    vm ←
        share_heap (suc max_heap_pages) m.vm filter p.user_heap p.pagetable c.pagetable
          p.user_heap.heap_bottom
    let heap = record (c.mapped_info 3) { npages = (p.mapped_info 3).npages }
    let infos : ℕ → MappedRegion = λ i. if 3 == i then heap else c.mapped_info i
    ok (record c { mapped_info = infos; user_heap = p.user_heap }, record m { vm = vm })
  | code_segment ↦ do
    pa ← lookup_pa m.vm p.pagetable r.va
    vm ←
        user_vm_map m.vm c.pagetable r.va (r.npages * pgsize) pa (prot_to_type true false true true)
    ok (add_region c r code_segment, record m { vm = vm })
  | data_segment ↦ do
    m' ← copy_data r.npages m p.pagetable c.pagetable r.va
    ok (add_region c r data_segment, m')
  | system_segment ↦ ok (c, m)
]

unfoldable pub fork_regions : ℕ → ℕ → (ℕ → Bool) → Memory → Space → Space → Run (Space × Memory)
fork_regions zero i stack m p c = ok (c, m)
fork_regions (suc k) i stack m p c = do
  (c', m') ← fork_region stack m p c (p.mapped_info i)
  fork_regions k (i + 1) stack m' p c'

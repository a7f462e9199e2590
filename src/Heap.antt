-- ===== src/Heap.antt =====
-- The user heap of kernel/process.c: `vm_malloc` and `vm_free` on a list of free blocks, whose heads stand
-- in the pages of the process.
pub mod Blocks
pub mod Growth
use cabbage_pke.Common.{
  ℕ, zero, suc, ◌+◌, ◌-◌, ◌%◌, ◌^◌, Bool, true, false, not, Run, ok, fault, out_of_fuel, ◌>>=◌, ltb,
  leb, ◌==◌, if◌then◌else◌,
}
use cabbage_pke.Pmm.{pgsize, write, alloc_page}
use cabbage_pke.Str.{in_range}
use cabbage_pke.Vmm.{Vm, prot_to_type, user_vm_map, user_va_to_pa}

abbrev pub sizeof_block_head : ℕ
sizeof_block_head = 16

-- The page table with its pages, the 64-bit words of the memory by physical address, and of the current
-- process the page table, the top of the heap, the pages of its heap segment and the first free block.
pub record Heap : Type 0 where
  pub vm : Vm
  pub words : ℕ → ℕ
  pub pagetable : ℕ
  pub heap_top : ℕ
  pub npages : ℕ
  pub first_free_block : ℕ

-- The head of the block at a virtual address; an address that is not mapped gives one in page 0, which is
-- no memory.
unfoldable pub head_at : Heap → ℕ → Run ℕ
head_at h va = do pa ← user_va_to_pa h.vm h.pagetable va; if ltb pa pgsize then fault else ok pa

abbrev pub set_capacity : Heap → ℕ → ℕ → Heap
set_capacity h pa v = record h { words = write h.words pa v }

abbrev pub set_next : Heap → ℕ → ℕ → Heap
set_next h pa v = record h { words = write h.words (pa + 8) v }

-- One more page at the top of the heap, which both callers of `alloc_page` clear and map.
unfoldable pub grow_page : Heap → Run Heap
grow_page h = do
  (page, s) ← alloc_page h.vm.pmm
  if page == 0 then fault else do
    vm ←
        user_vm_map (record h.vm { pmm = s }) h.pagetable h.heap_top pgsize page
          (prot_to_type true true false true)
    ok (record h {
      vm = vm;
      words = λ a. if in_range page pgsize a then 0 else h.words a;
      heap_top = (h.heap_top + pgsize) % 2 ^ 64;
      npages = h.npages + 1;
    })

unfoldable pub try_alloc_free_block : Heap → Run Heap
try_alloc_free_block h = if not (h.first_free_block == 0) then ok h else do
  h₁ ← grow_page h
  pa ← head_at h₁ h.heap_top
  ok (record (set_next (set_capacity h₁ pa pgsize) pa 0) { first_free_block = h.heap_top })

-- The size of a block for `n` bytes, and an address behind another one, as 64-bit numbers.
abbrev pub need_size : ℕ → ℕ
need_size n = (n + sizeof_block_head) % 2 ^ 64

abbrev pub after : ℕ → ℕ → ℕ
after va size = (va + size) % 2 ^ 64

-- `need_size` rounded up to a multiple of 8.
abbrev pub align : ℕ → ℕ
align n = if n % 8 == 0 then n else (n + (8 - n % 8)) % 2 ^ 64

-- The address of a block's head, `sizeof(block_head)` in front of what the process was given.
abbrev pub head_of : ℕ → ℕ
head_of va = (va + 2 ^ 64 - sizeof_block_head) % 2 ^ 64

-- `pre_head->next = va`, or `first_free_block = va` for the first block.
unfoldable pub link_after : Heap → ℕ → ℕ → Run Heap
link_after h pre va =
    if pre == 0
    then ok (record h { first_free_block = va })
    else do pa ← head_at h pre; ok (set_next h pa va)

-- The loop that looks for the block with the highest address; the result is it and the one in front of it.
unfoldable pub highest : ℕ → Heap → ℕ → ℕ → ℕ → ℕ → Run (ℕ × ℕ)
highest zero h cur pre max_va max_pre = out_of_fuel
highest (suc k) h cur pre max_va max_pre = elim (cur == 0) [
  | true ↦ ok (max_va, max_pre)
  | false ↦ do
    pa ← head_at h cur
    highest k h (h.words (pa + 8)) cur (if ltb max_va cur then cur else max_va)
        (if ltb max_va cur then pre else max_pre)
]

-- The `do … while` loop: the last page that was added, what is left of `need_size`, and the heap.
unfoldable pub grow : ℕ → Heap → ℕ → Run (ℕ × ℕ × Heap)
grow zero h need = out_of_fuel
grow (suc k) h need = do
  h' ← grow_page h
  let left = if ltb pgsize need then need - pgsize else need
  elim (ltb pgsize left) [ true ↦ grow k h' left | false ↦ ok (h.heap_top, left, h') ]

-- The rest of the last page becomes a free block.
unfoldable pub put_rest : Heap → ℕ → ℕ → ℕ → ℕ → Run Heap
put_rest h last_va left next max_pre = if left == 0 then ok h else do
  let va = after last_va (align left)
  pa ← head_at h va
  let h₁ = set_next (set_capacity h pa ((pgsize + 2 ^ 64 - align left) % 2 ^ 64)) pa next
  link_after h₁ max_pre va

-- The fuel bounds the walk of the list and the number of pages.
unfoldable pub alloc_from_new_block : ℕ → Heap → ℕ → Run (ℕ × Heap)
alloc_from_new_block fuel h n = do
  let need = need_size n
  (max_va, max_pre) ← highest fuel h h.first_free_block 0 0 0
  pa ← head_at h max_va
  let capacity = h.words pa
  let next = h.words (pa + 8)
  (last_va, left, h₁) ←
      grow fuel (set_capacity (set_next h pa 0) pa need) ((need + 2 ^ 64 - capacity) % 2 ^ 64)
  h₂ ← put_rest h₁ last_va left next max_pre
  ok (after max_va sizeof_block_head, h₂)

-- The block at `cur` with its head at `pa` has room: it leaves the list, or its rest takes its place.
unfoldable pub take_block : Heap → ℕ → ℕ → ℕ → ℕ → Run (ℕ × Heap)
take_block h cur pa pre need =
    if h.words pa == need
    then (do h' ← link_after h pre (h.words (pa + 8)); ok (after cur sizeof_block_head, h'))
    else do
      let va = after cur (align need)
      let h₁ = set_capacity h pa (align need)
      pa' ← head_at h₁ va
      let rest = (h.words pa + 2 ^ 64 - align need) % 2 ^ 64
      let h₂ = set_capacity h₁ pa' rest
      h₃ ← link_after (set_next h₂ pa' (h₂.words (pa + 8))) pre va
      ok (after cur sizeof_block_head, h₃)

-- The loop of `alloc_from_free_block`; `all` bounds the loops of `alloc_from_new_block`.
unfoldable pub first_fit : ℕ → ℕ → Heap → ℕ → ℕ → ℕ → Run (ℕ × Heap)
first_fit all zero h cur pre n = out_of_fuel
first_fit all (suc k) h cur pre n = elim (cur == 0) [
  | true ↦ alloc_from_new_block all h n
  | false ↦ do
    pa ← head_at h cur
    elim (leb (need_size n) (h.words pa)) [
      | true ↦ take_block h cur pa pre (need_size n)
      | false ↦ first_fit all k h (h.words (pa + 8)) cur n
    ]
]

unfoldable pub alloc_from_free_block : ℕ → Heap → ℕ → Run (ℕ × Heap)
alloc_from_free_block fuel h n = first_fit fuel fuel h h.first_free_block 0 n

unfoldable pub vm_malloc : ℕ → Heap → ℕ → Run (ℕ × Heap)
vm_malloc fuel h n = do h' ← try_alloc_free_block h; alloc_from_free_block fuel h' n

unfoldable pub vm_free : Heap → ℕ → Run Heap
vm_free h va = do
  pa ← head_at h (head_of va)
  ok (record (set_next h pa h.first_free_block) { first_free_block = head_of va })

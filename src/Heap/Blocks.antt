-- ===== src/Heap/Blocks.antt =====
-- What `vm_malloc` and `vm_free` of kernel/process.c do to the list of free blocks.
use cabbage_pke.Common.{
  ℕ, zero, suc, ◌+◌, ◌-◌, ◌%◌, ◌^◌, ◌≤◌, ◌<◌, ◌≡◌, ◌≢◌, refl, sym, arith, ok, ◌>>=◌, Returns,
  ==_refl, ne→==, le→ltb, le→leb,
}
use cabbage_pke.Pmm.{pgsize}
use cabbage_pke.Vmm.{user_va_to_pa}
use cabbage_pke.Heap.{
  sizeof_block_head, Heap, after, head_of, head_at, set_next, try_alloc_free_block, link_after,
  take_block, first_fit, alloc_from_free_block, vm_malloc, vm_free,
}

head_of-sub : (va : ℕ) → sizeof_block_head < va → va < 2 ^ 64 → head_of va ≡ va - sizeof_block_head
head_of-sub va low high = omega arith

after-head :
    (va : ℕ)
    → sizeof_block_head < va
    → va < 2 ^ 64
    → after (va - sizeof_block_head) sizeof_block_head ≡ va
after-head va low high = omega arith

-- A block at a 64-bit address whose capacity is exactly what `n` bytes and a head need, as a 64-bit number, and
-- whose head is mapped to a page of memory, is freed and asked for again with some fuel: the second call ends and
-- gives the same address, the list of free blocks is the one from before, and nothing changes but the link in the
-- head of the block.
pub free-malloc :
    (fuel : ℕ) (h : Heap) (va pa n : ℕ)
    → 0 < fuel
    → sizeof_block_head < va
    → va < 2 ^ 64
    → user_va_to_pa h.vm h.pagetable (va - sizeof_block_head) ≡ ok pa
    → pgsize ≤ pa
    → h.words pa ≡ (n + sizeof_block_head) % 2 ^ 64
    → Returns
        (do h₁ ← vm_free h va; vm_malloc fuel h₁ n)
        (λ (va', h').
          (va' ≡ va)
          × (h'.first_free_block ≡ h.first_free_block)
          × (h'.vm ≡ h.vm)
          × (h'.heap_top ≡ h.heap_top)
          × (h'.npages ≡ h.npages)
          × ((a : ℕ) → a ≢ pa + 8 → h'.words a ≡ h.words a))
unfolding vm_free vm_malloc try_alloc_free_block alloc_from_free_block first_fit take_block
    link_after head_at
free-malloc zero h va pa n fuel low wide mapped high capacity = absurd (omega arith)
free-malloc (suc k) h va pa n fuel low wide mapped high capacity = (
  (
    after (va - sizeof_block_head) sizeof_block_head,
    record (set_next h pa h.first_free_block) { first_free_block = h.first_free_block },
  ),
  rw
      (
        head_of-sub va low wide,
        mapped,
        ◌>>=◌,
        le→ltb pa pgsize high,
        ne→== (va - sizeof_block_head) 0 (λ e. omega arith),
        alloc_from_free_block,
        first_fit,
        ne→== (va - sizeof_block_head) 0 (λ e. omega arith),
        head_at,
        mapped,
        ◌>>=◌,
        le→ltb pa pgsize high,
        ne→== (pa + 8) pa (λ e. omega arith),
        capacity,
        le→leb ((n + sizeof_block_head) % 2 ^ 64) ((n + sizeof_block_head) % 2 ^ 64) (omega arith),
        take_block,
        ne→== (pa + 8) pa (λ e. omega arith),
        capacity,
        ==_refl ((n + sizeof_block_head) % 2 ^ 64),
        ==_refl (pa + 8),
      )
      refl,
  (
    after-head va low wide,
    refl,
    refl,
    refl,
    refl,
    (λ a ne. rw (ne→== (pa + 8) a (λ e. ne (sym e))) refl),
  ),
)

-- ===== src/Examples/Spaces.antt =====
-- The heap of a process, sharing and store faults at a concrete page table.
use cabbage_pke.Common.{
  ℕ, ◌+◌, ◌-◌, Run, ◌≡◌, ◌≢◌, refl, true, [], ◌∷◌, arith, ok, ◌>>=◌, Returns, has, ◌==◌,
  if◌then◌else◌,
}
use cabbage_pke.Pmm.{
  Pmm, unit, free_page, alloc_page, bad_page, ref_insert, ref_find, ref_erase, search, lower,
  insert_at, modify, bump, unbump, settle,
}
use cabbage_pke.Pmm.Counts.{refcount}
use cabbage_pke.Pmm.Pages.{IsPool}
use cabbage_pke.Vmm.{
  Vm, set_pte, prot_to_type, user_vm_map, map_pages, map_from, user_va_to_pa, lookup_pa, cow_vm_map,
  page_walk, walk,
}
use cabbage_pke.Heap.{Heap, vm_malloc, vm_free, grow_page, grow}
use cabbage_pke.Heap.Blocks.{free-malloc}
use cabbage_pke.Heap.Growth.{Grown, grow-Grown}
use cabbage_pke.Space.{store_fault, user_page}
use cabbage_pke.Space.Faults.{EntrySet, shared_page, store_fault-Fresh, store_fault-cow_vm_map}
use cabbage_pke.Examples.Mappings.{tables}
use cabbage_pke.Examples.Pages.{two, two-IsCounted}

-- Page 3 is mapped to 20480, and its first block takes 116 bytes.
abbrev pub mapped : Vm
mapped = record tables { ptes = set_pte tables.ptes 12312 (user_page 20480) }

abbrev heap : Heap
heap = record {
  vm = mapped;
  words = λ a. if a == 20480 then 116 else 7;
  pagetable = 4096;
  heap_top = 16384;
  npages = 1;
  first_free_block = 12800;
}

at_head : user_va_to_pa mapped 4096 12288 ≡ ok 20480
unfolding user_va_to_pa lookup_pa page_walk walk prot_to_type
at_head = refl

free-malloc_example :
    Returns
      (do h₁ ← vm_free heap 12304; vm_malloc 3 h₁ 100)
      (λ (va', h').
        (va' ≡ 12304)
        × (h'.first_free_block ≡ 12800)
        × (h'.vm ≡ mapped)
        × (h'.heap_top ≡ 16384)
        × (h'.npages ≡ 1)
        × ((a : ℕ) → a ≢ 20488 → h'.words a ≡ heap.words a))
free-malloc_example =
    free-malloc 3 heap 12304 20480 100 (omega arith) (omega arith) (omega arith) at_head
      (omega arith) refl

-- The same heap with the pages at 28672 and 24576 free.
abbrev rich : Heap
rich = record heap {
  vm = record mapped { pmm = record mapped.pmm { head = 28672; next = λ p. p - 4096 } };
}

abbrev or_rich : Run Heap → Heap
or_rich (ok h) = h
or_rich _ = rich

once : Heap
unfolding grow_page
once = or_rich (grow_page rich)

once_lem : grow_page rich ≡ ok once
unfolding once grow_page alloc_page ref_insert ref_find search lower insert_at user_vm_map map_pages
    map_from page_walk walk prot_to_type
once_lem = refl

twice : Heap
twice = or_rich (grow_page once)

twice_lem : grow_page once ≡ ok twice
unfolding once twice grow_page alloc_page ref_insert ref_find search lower insert_at user_vm_map
    map_pages map_from page_walk walk prot_to_type
twice_lem = refl

grow-Grown_example : Returns (grow 2 rich 8292) (Grown 16384 8292)
grow-Grown_example =
    grow-Grown 2 rich 8292 (omega arith) (once, once_lem, (twice, twice_lem, tt)) (omega arith)
      (omega arith)

-- Page 8192 has two references, page 12288 is free.
abbrev pub pool : Pmm
pool = record {
  refs = two;
  head = 12288;
  next = λ p. 0;
  free_mem_start_addr = 4096;
  free_mem_end_addr = 65536;
}

is_last : (x : ℕ) → has x (12288 ∷ []) ≡ true → x ≡ 12288
is_last x h = ground arith

pool-IsPool : IsPool pool (12288 ∷ [])
unfolding bad_page
pool-IsPool = record {
  counted = two-IsCounted;
  chain = (refl, omega arith, refl);
  distinct = (refl, tt);
  good = λ x h. rw (is_last x h) refl;
  unused = λ x h. rw (is_last x h) refl;
  start_pos = omega arith;
}

abbrev sharing : Vm
sharing = record { pmm = pool; ptes = set_pte tables.ptes 12312 (shared_page 8192) }

abbrev pub pool₁ : Pmm
pool₁ = record pool { refs = unit 4096 1 ∷ unit 8192 1 ∷ [] }

abbrev pub pool₂ : Pmm
pool₂ = record pool₁ { refs = unit 12288 1 ∷ unit 4096 1 ∷ unit 8192 1 ∷ []; head = 0 }

store_fault-Fresh_example : Returns (store_fault sharing 4096 2000000000 12300) (λ vm'.
    EntrySet sharing.ptes 12312 (user_page 12288) vm'.ptes
    × (◌≢◌ {A = ℕ} 12288 8192)
    × (vm'.pmm ≡ pool₂)
    × (refcount 8192 pool₁.refs + 1 ≡ refcount 8192 pool.refs))
unfolding bad_page free_page alloc_page ref_insert ref_find ref_erase search lower insert_at modify
    settle bump unbump
store_fault-Fresh_example =
    store_fault-Fresh sharing 4096 2000000000 12300 12312 12288 12288 [] pool₁ pool₂ (omega arith)
      refl (refl, (refl, refl)) refl pool-IsPool refl refl (omega arith) refl refl

-- The tables with the pool, the entry of page 3 is free; and the pool when page 12288 is taken.
abbrev apart : Vm
apart = record { pmm = pool; ptes = tables.ptes }

abbrev taken : Pmm
taken = record pool { refs = unit 12288 1 ∷ two; head = 0 }

store_fault-cow_vm_map_example :
    Returns
      (do vm₁ ← cow_vm_map apart 4096 12288 8192; store_fault vm₁ 4096 2000000000 12288)
      (λ vm'.
        EntrySet apart.ptes 12312 (user_page 12288) vm'.ptes
        × (vm'.pmm ≡ taken)
        × (◌≢◌ {A = ℕ} 12288 8192))
unfolding bad_page alloc_page ref_insert ref_find search lower insert_at
store_fault-cow_vm_map_example =
    store_fault-cow_vm_map apart 4096 2000000000 12288 12312 8192 12288 [] taken (omega arith) refl
      (refl, (refl, refl)) refl pool-IsPool refl (omega arith) (omega arith) (omega arith) refl

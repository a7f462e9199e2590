-- ===== src/Pmm/Pages/Boot.antt =====
-- `create_freepage_list` and `pmm_init` of kernel/pmm.c: the free list at boot.
use cabbage_pke.Common.{
  ℕ, zero, suc, ◌+◌, ◌-◌, ◌*◌, ◌/◌, ◌%◌, ◌≤◌, ◌<◌, ◌^◌, ◌≡◌, refl, inl, inr, Bool, true, false, min,
  ◌||◌, ◌&&◌, List, [], ◌∷◌, arith, ok, Returns, ltb, leb, ◌==◌, Bool-cases, ltb→lt, le→ltb, ap,
  length,
}
use cabbage_pke.Pmm.{
  Pmm, pgsize, bad_page, free_page, free_pages_from, create_freepage_list, round_up, pmm_init,
  kern_base, dram_base, max_allowable_ram,
}
use cabbage_pke.Pmm.Counts.{refcount}
use cabbage_pke.Pmm.Pages.{has, IsPool, free_page-IsPool}

free_page-bounds :
    (s t : Pmm) (pa : ℕ)
    → free_page s pa ≡ ok t
    → (t.free_mem_start_addr ≡ s.free_mem_start_addr) × (t.free_mem_end_addr ≡ s.free_mem_end_addr)
unfolding free_page
free_page-bounds s t pa h = ground arith

-- The pages from `p` on that the loop frees: `p + PGSIZE < end` leaves out a page that ends at `end`.
abbrev pub is_page_from : ℕ → ℕ → ℕ → Bool
is_page_from p end q = leb p q && (ltb (q + pgsize) end && (q % pgsize == 0))

-- Before page `p` is freed: the free pages lie below `p`, and no page has a reference.
record Booting (s : Pmm) (xs : List ℕ) (p end : ℕ) : Type 0 where
  pool : IsPool s xs
  below : (q : ℕ) → has q xs ≡ true → q < p
  unused : (q : ℕ) → refcount q s.refs ≡ 0
  aligned : p % pgsize ≡ 0
  start : s.free_mem_start_addr ≤ p
  finish : end ≤ s.free_mem_end_addr

Booting-step :
    (s : Pmm) (xs : List ℕ) (p end : ℕ)
    → Booting s xs p end
    → p + pgsize < end
    → Returns (free_page s p) λ t. Booting t (p ∷ xs) (p + pgsize) end
unfolding bad_page
Booting-step s xs p end b h =
    let fresh : has p xs ≡ false = ground (arith, b.below p) in
    let good : bad_page s p ≡ false = ground (arith, b.aligned, b.start, b.finish) in
    let (t, e, (pool, lost)) = free_page-IsPool s xs b.pool p good fresh in
    let (lo, hi) = free_page-bounds s t p e in
    let one : leb (refcount p s.refs) 1 ≡ true = ground (arith, b.unused p) in
    (
      t,
      e,
      record {
        pool = rw one at pool;
        below = λ q m. ground (arith, b.below q);
        unused = λ q. ground (arith, lost q, b.unused q);
        aligned = omega (arith, b.aligned);
        start = omega (arith, b.start);
        finish = omega (arith, b.finish);
      },
    )

-- The loop ends with exactly the pages that it should free, in front of those before.
free_pages_from-Booting :
    (k p end : ℕ) (s : Pmm) (xs : List ℕ)
    → Booting s xs p end
    → 0 < k
    → end ≤ p + k * pgsize
    → Returns
        (free_pages_from k p end s)
        λ t. (ys : List ℕ) × IsPool t ys × ((q : ℕ) → has q ys ≡ (is_page_from p end q || has q xs))
unfolding free_pages_from
free_pages_from-Booting zero p end s xs b pos fuel = absurd (omega arith)
free_pages_from-Booting (suc k) p end s xs b pos fuel = elim (Bool-cases (ltb (p + pgsize) end)) [
  | inr e ↦ (s, rw (e, free_pages_from), (xs, b.pool, λ q. ground (arith, b.aligned)))
  | inl e ↦
      let (t, step, next) = Booting-step s xs p end b (ltb→lt (p + pgsize) end e) in
      let (u, run, (ys, pool, all)) =
        free_pages_from-Booting k (p + pgsize) end t (p ∷ xs) next
          (omega (arith, ltb→lt (p + pgsize) end e)) (omega arith) in
      (u, rw (e, free_pages_from, step) run, (ys, pool, λ q. ground (arith, all q, b.aligned)))
]

-- Away from the wrap at 0 and at the top, `ROUNDUP` is the next multiple of the page size.
round_up_bounds :
    (a : ℕ)
    → 0 < a
    → a + pgsize < 2 ^ 64
    → (a ≤ round_up a pgsize) × (round_up a pgsize < a + pgsize) × (round_up a pgsize % pgsize ≡ 0)
unfolding round_up
round_up_bounds a pos small = omega arith

round_up_self : (a : ℕ) → 0 < a → a + pgsize < 2 ^ 64 → a % pgsize ≡ 0 → round_up a pgsize ≡ a
unfolding round_up
round_up_self a pos small aligned = omega arith

empty-Booting :
    (s : Pmm) (end : ℕ)
    → s.refs ≡ []
    → s.head ≡ 0
    → 0 < s.free_mem_start_addr
    → s.free_mem_start_addr % pgsize ≡ 0
    → end ≤ s.free_mem_end_addr
    → Booting s [] s.free_mem_start_addr end
empty-Booting s end none head pos aligned finish = record {
  pool = record {
    counted = record {
      sorted = λ i j h k. absurd (omega (arith, ap length none));
      positive = λ i h. absurd (omega (arith, ap length none));
      bounded = λ i h. absurd (omega (arith, ap length none));
    };
    chain = head;
    distinct = tt;
    good = λ x h. absurd (ground arith);
    unused = λ x h. absurd (ground arith);
    start_pos = pos;
  };
  below = λ q h. absurd (ground arith);
  unused = λ q. rw none;
  aligned = aligned;
  start = omega arith;
  finish = finish;
}

-- The end of the memory that the kernel manages.
abbrev pub memory_end : ℕ → ℕ
memory_end mem_size = min max_allowable_ram mem_size + dram_base

-- A pool of exactly the pages that the boot loop frees from `start` on.
abbrev pub BootPool : ℕ → ℕ → Pmm → Type 0
BootPool start end t = (ys : List ℕ) × IsPool t ys × ((q : ℕ) → has q ys ≡ is_page_from start end q)

create_freepage_list-BootPool :
    (s : Pmm) (end : ℕ)
    → s.refs ≡ []
    → 0 < s.free_mem_start_addr
    → s.free_mem_start_addr + pgsize < 2 ^ 64
    → s.free_mem_start_addr % pgsize ≡ 0
    → end ≤ s.free_mem_end_addr
    → Returns
        (create_freepage_list s.free_mem_start_addr end s)
        (BootPool s.free_mem_start_addr end)
unfolding create_freepage_list
create_freepage_list-BootPool s end none_yet pos small aligned finish = go (
    free_pages_from-Booting (suc (end / pgsize)) s.free_mem_start_addr end (record s { head = 0 })
      [] (empty-Booting (record s { head = 0 }) end none_yet refl pos aligned finish) (omega arith)
      (omega arith))
  where
    go :
        (Returns
          (free_pages_from (suc (end / pgsize)) s.free_mem_start_addr end (record s { head = 0 }))
          λ t.
            (ys : List ℕ) × IsPool t ys
            × ((q : ℕ) → has q ys ≡ (is_page_from s.free_mem_start_addr end q || has q [])))
        → Returns
            (create_freepage_list s.free_mem_start_addr end s)
            (BootPool s.free_mem_start_addr end)
    go (t, run, (ys, pool, all)) = (
      t,
      rw (round_up_self s.free_mem_start_addr pos small aligned) run,
      (ys, pool, λ q. ground (arith, all q)),
    )

-- At boot, with no page in use and the kernel within the memory, `pmm_init` ends, and the free list is a well-formed pool of exactly the whole pages between the end of the
-- kernel and the end of the memory, without a page that ends there.
pub pmm_init-BootPool :
    (kernel_end mem_size : ℕ) (s : Pmm)
    → s.refs ≡ []
    → kern_base ≤ kernel_end
    → kernel_end - kern_base ≤ min max_allowable_ram mem_size
    → Returns
        (pmm_init kernel_end mem_size s)
        (BootPool (round_up kernel_end pgsize) (memory_end mem_size))
unfolding pmm_init
pmm_init-BootPool kernel_end mem_size s none_yet lo fits =
    let bounds = round_up_bounds kernel_end (omega arith) (omega arith) in
    rw
      (le→ltb (min max_allowable_ram mem_size) ((kernel_end + 2 ^ 64 - kern_base) % 2 ^ 64)
        (omega arith))
      (create_freepage_list-BootPool
        (record s {
          free_mem_start_addr = round_up kernel_end pgsize;
          free_mem_end_addr = memory_end mem_size;
        })
        (memory_end mem_size) none_yet (omega arith) (omega arith) bounds.2 (omega arith))

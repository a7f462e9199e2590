-- ===== src/Examples/Pages.antt =====
-- The page allocator at concrete pools and counts.
use cabbage_pke.Common.{
  ℕ, zero, suc, ◌<◌, ◌^◌, ◌≡◌, ◌⊎◌, inl, inr, refl, [], ◌∷◌, arith, ok, ◌>>=◌, Returns, Ends, has,
  if◌then◌else◌, ◌==◌, true, false,
}
use cabbage_pke.Pmm.{
  pgsize, Refs, unit, search, lower, ref_insert, ref_erase, Pmm, free_page, alloc_page, pmm_init,
  bad_page, round_up,
}
use cabbage_pke.Pmm.Search.{IsSorted, Located, search-Located, Placed, ref_lower-Splits, AllBelow}
use cabbage_pke.Pmm.Counts.{
  refcount, IsCounted, ref_at, Gained, Lost, ref_insert-Gained, ref_insert-IsCounted,
  ref_insert_misplaced, ref_erase-Lost,
}
use cabbage_pke.Pmm.Counts.Stale.{erase-insert_stale}
use cabbage_pke.Pmm.Pages.{IsPool, free_page-IsPool, alloc_page-IsPool, Released}
use cabbage_pke.Pmm.Pages.Boot.{BootPool, memory_end, pmm_init-BootPool}

abbrev pub two : Refs
two = unit 4096 1 ∷ unit 8192 2 ∷ []

two-IsSorted : IsSorted two
two-IsSorted zero zero h k = elim h [ ]
two-IsSorted zero (suc zero) h k = omega arith
two-IsSorted zero (suc (suc j)) h k = absurd (omega arith)
two-IsSorted (suc i) j h k = absurd (omega arith)

two_positive : (i : ℕ) → i < 2 → 0 < ref_at two i
two_positive zero h = omega arith
two_positive (suc zero) h = omega arith
two_positive (suc (suc i)) h = absurd (omega arith)

two_bounded : (i : ℕ) → i < 2 → ref_at two i < 2 ^ 64
two_bounded zero h = omega arith
two_bounded (suc zero) h = omega arith
two_bounded (suc (suc i)) h = absurd (omega arith)

pub two-IsCounted : IsCounted two
two-IsCounted = record { sorted = two-IsSorted; positive = two_positive; bounded = two_bounded }

two-AllBelow : AllBelow two 12288
two-AllBelow zero h = omega arith
two-AllBelow (suc zero) h = omega arith
two-AllBelow (suc (suc i)) h = absurd (omega arith)

search-Located_example : Ends (search 3 two 8192 0 2) (Located two 8192 0 2)
search-Located_example =
    search-Located two 8192 two-IsSorted 3 0 2 (omega arith) (omega arith) (omega arith)

ref_lower-Splits_example : Returns (lower 3 two 6000 0 2 0) (Placed two 6000)
ref_lower-Splits_example = ref_lower-Splits two 6000 two-IsSorted

ref_insert-Gained_example : Returns (ref_insert two 8192) (Gained two 8192 two-IsCounted)
ref_insert-Gained_example = ref_insert-Gained two 8192 two-IsCounted (omega arith) (omega arith)

ref_insert-IsCounted_example :
    Returns (ref_insert two 6000) λ vs. Gained two 6000 two-IsCounted vs × IsCounted vs
ref_insert-IsCounted_example =
    ref_insert-IsCounted two 6000 two-IsCounted (omega arith) (omega arith)
      (inr (1, omega arith, omega arith))

ref_insert_misplaced_example :
    (ref_insert two 12288 ≡ ok (unit 12288 1 ∷ two)) × ¬ (IsSorted (unit 12288 1 ∷ two))
ref_insert_misplaced_example =
    ref_insert_misplaced two 12288 two-IsCounted (omega arith) (omega arith) (omega arith)
      two-AllBelow

ref_erase-Lost_example :
    Returns
      (ref_erase two 8192)
      λ (vs, code). Lost two 8192 two-IsCounted vs × IsCounted vs × (code ≡ 0)
ref_erase-Lost_example = ref_erase-Lost two 8192 two-IsCounted

erase-insert_stale_example :
    (ref_insert two 12288 >>= λ vs. ref_erase vs 12288) ≡ ok (unit 12288 1 ∷ two, 1)
erase-insert_stale_example =
    erase-insert_stale two 12288 two-IsCounted (omega arith) (omega arith) (omega arith)
      two-AllBelow

none-IsCounted : IsCounted []
none-IsCounted = record {
  sorted = λ i j h k. absurd (omega arith);
  positive = λ i h. absurd (omega arith);
  bounded = λ i h. absurd (omega arith);
}

-- Two free pages.
abbrev pool : Pmm
pool = record {
  refs = [];
  head = 8192;
  next = λ p. if p == 8192 then 4096 else 0;
  free_mem_start_addr = 4096;
  free_mem_end_addr = 16384;
}

pool_has : (x : ℕ) → has x (8192 ∷ 4096 ∷ []) ≡ true → (x ≡ 8192) ⊎ (x ≡ 4096)
pool_has x h = ground arith

pool-IsPool : IsPool pool (8192 ∷ 4096 ∷ [])
unfolding bad_page
pool-IsPool = record {
  counted = none-IsCounted;
  chain = (refl, omega arith, (refl, omega arith, refl));
  distinct = (refl, (refl, tt));
  good = λ x h. good x (pool_has x h);
  unused = λ x h. refl;
  start_pos = omega arith;
}
  where
    good : (x : ℕ) → (x ≡ 8192) ⊎ (x ≡ 4096) → bad_page pool x ≡ false
    good x (inl e) = rw e refl
    good x (inr e) = rw e refl

alloc_page-IsPool_example : Returns (alloc_page pool) λ (p, t).
    (p ≡ 8192) × IsPool t (4096 ∷ []) × ((q : ℕ) → refcount q t.refs ≡ (if 8192 == q then 1 else 0))
alloc_page-IsPool_example =
    alloc_page-IsPool pool 8192 (4096 ∷ []) pool-IsPool (omega arith) (inl refl)

one-IsPool : IsPool (record pool { head = 4096 }) (4096 ∷ [])
unfolding bad_page
one-IsPool = record {
  counted = none-IsCounted;
  chain = (refl, omega arith, refl);
  distinct = (refl, tt);
  good = λ x h. good x h;
  unused = λ x h. refl;
  start_pos = omega arith;
}
  where
    good : (x : ℕ) → has x (4096 ∷ []) ≡ true → bad_page (record pool { head = 4096 }) x ≡ false
    good x h = ground arith

free_page-IsPool_example : Returns (free_page (record pool { head = 4096 }) 8192) λ t.
    IsPool t (8192 ∷ 4096 ∷ [])
    × Released (record pool { head = 4096 }) (4096 ∷ []) one-IsPool 8192 t
unfolding bad_page
free_page-IsPool_example =
    free_page-IsPool (record pool { head = 4096 }) (4096 ∷ []) one-IsPool 8192 refl refl

pmm_init-BootPool_example :
    Returns
      (pmm_init 0x80005123 0x8000000 (record pool { head = 0 }))
      (BootPool (round_up 0x80005123 pgsize) (memory_end 0x8000000))
pmm_init-BootPool_example =
    pmm_init-BootPool 0x80005123 0x8000000 (record pool { head = 0 }) refl (omega arith)
      (omega arith)

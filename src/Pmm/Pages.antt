-- ===== src/Pmm/Pages.antt =====
-- `free_page`, `alloc_page` and `create_freepage_list` of kernel/pmm.c on a well-formed pool.
pub mod Boot
use cabbage_pke.Common.{
  ℕ, zero, suc, ◌+◌, ◌-◌, ◌*◌, ◌/◌, ◌%◌, ◌≤◌, ◌<◌, ◌^◌, ◌≡◌, ◌≢◌, ◌⊎◌, inl, inr, refl, Bool, true,
  false, ◌||◌, List, [], ◌∷◌, arith, Run, ok, panic, ◌>>=◌, Returns, ltb, leb, ◌==◌, if◌then◌else◌,
  length, Bool-cases, ==_refl, leb→le, has, IsDistinct,
}
use cabbage_pke.Pmm.{
  Pmm, Refs, pgsize, max_refs, write, bad_page, free_page, alloc_page, free_pages_from,
  create_freepage_list, round_up, ref_erase, ref_insert,
}
use cabbage_pke.Pmm.Search.{pa_at}
use cabbage_pke.Pmm.Counts.{refcount, IsCounted, ref_erase-Lost, ref_insert-IsCounted}

-- From `p` the links lead through `xs` to NULL.
abbrev pub IsChain : (ℕ → ℕ) → ℕ → List ℕ → Type 0
IsChain next p [] = p ≡ 0
IsChain next p (x ∷ xs) = (p ≡ x) × (x ≢ 0) × IsChain next (next x) xs

-- `xs` are the free pages in list order: good addresses, all different, none with a reference.
pub record IsPool (s : Pmm) (xs : List ℕ) : Type 0 where
  pub counted : IsCounted s.refs
  pub chain : IsChain s.next s.head xs
  pub distinct : IsDistinct xs
  pub good : (x : ℕ) → has x xs ≡ true → bad_page s x ≡ false
  pub unused : (x : ℕ) → has x xs ≡ true → refcount x s.refs ≡ 0
  pub start_pos : 0 < s.free_mem_start_addr

pub IsChain-write :
    (next : ℕ → ℕ) (a v p : ℕ) (xs : List ℕ)
    → IsChain next p xs
    → has a xs ≡ false
    → IsChain (write next a v) p xs
IsChain-write next a v p [] c h = c
IsChain-write next a v p (x ∷ xs) c h =
    let step : write next a v x ≡ next x = ground arith in
    (c.0, c.1, rw step (IsChain-write next a v (next x) xs c.2 (ground arith)))

-- The panic of `free_page` is exactly for addresses that are unaligned or out of range.
pub bad_page-eq-false :
    (s : Pmm) (pa : ℕ)
    → bad_page s pa ≡ false
    → (pa % pgsize ≡ 0) × (s.free_mem_start_addr ≤ pa) × (pa < s.free_mem_end_addr)
unfolding bad_page
bad_page-eq-false s pa h = ground arith

-- `bad_page` looks at the bounds of the memory only.
bad_page-congr :
    (s t : Pmm) (x : ℕ)
    → s.free_mem_start_addr ≡ t.free_mem_start_addr
    → s.free_mem_end_addr ≡ t.free_mem_end_addr
    → bad_page s x ≡ false
    → bad_page t x ≡ false
unfolding bad_page
bad_page-congr s t x p q h = ground arith

module _ (s : Pmm) (xs : List ℕ) (pool : IsPool s xs) (pa : ℕ) where
  abbrev with_refs : Refs → Pmm
  with_refs vs = record s { refs = vs }

  abbrev pushed : Refs → Pmm
  pushed vs = record s { refs = vs; next = write s.next pa s.head; head = pa }

  -- One reference less for `pa`, and no other change of the counts.
  abbrev pub Released : Pmm → Type 0
  Released t =
      (q : ℕ) → refcount q t.refs ≡ (if pa == q then refcount q s.refs - 1 else refcount q s.refs)

  pushed-IsPool :
      (vs : Refs)
      → IsCounted vs
      → Released (pushed vs)
      → refcount pa s.refs ≤ 1
      → bad_page s pa ≡ false
      → has pa xs ≡ false
      → IsPool (pushed vs) (pa ∷ xs)
  pushed-IsPool vs c lost one good_pa fresh = record {
    counted = c;
    chain = (
      refl,
      omega (arith, bad_page-eq-false s pa good_pa, pool.start_pos),
      rw (==_refl pa) (IsChain-write s.next pa s.head s.head xs pool.chain fresh),
    );
    distinct = (fresh, pool.distinct);
    good = λ x h. bad_page-congr s (pushed vs) x refl refl (ground (arith, pool.good x));
    unused = λ x h. ground (arith, pool.unused x, lost x);
    start_pos = pool.start_pos;
  }

  with_refs-IsPool : (vs : Refs) → IsCounted vs → Released (with_refs vs) → IsPool (with_refs vs) xs
  with_refs-IsPool vs c lost = record {
    counted = c;
    chain = pool.chain;
    distinct = pool.distinct;
    good = λ x h. bad_page-congr s (with_refs vs) x refl refl (pool.good x h);
    unused = λ x h. ground (arith, pool.unused x, lost x);
    start_pos = pool.start_pos;
  }

  -- In a well-formed pool, freeing a good page that is not free ends and takes one reference to it away; the
  -- page joins the free list with its last one, and the pool stays well-formed.
  pub free_page-IsPool :
      bad_page s pa ≡ false
      → has pa xs ≡ false
      → Returns
          (free_page s pa)
          λ t. IsPool t (if leb (refcount pa s.refs) 1 then pa ∷ xs else xs) × Released t
  unfolding free_page
  free_page-IsPool good_pa fresh =
      let ((vs, code), e, (lost, counted, last)) = ref_erase-Lost s.refs pa pool.counted in
      elim (Bool-cases (leb (refcount pa s.refs) 1)) [
        | inl one ↦
            let last_one : code ≡ 1 = ground arith in
            (
              pushed vs,
              rw (good_pa, e, last_one),
              (rw one (pushed-IsPool vs counted lost (leb→le _ 1 one) good_pa fresh), lost),
            )
        | inr more ↦
            let others : code ≡ 0 = ground arith in
            (
              with_refs vs,
              rw (good_pa, e, others),
              (rw more (with_refs-IsPool vs counted lost), lost),
            )
      ]

-- In a well-formed pool with a free page and room for a count, and with a page in use at or above that page
-- or none in use, `alloc_page` ends, takes the head of the free list, counts one reference to it and none to
-- another page, and the pool stays well-formed.
pub alloc_page-IsPool :
    (s : Pmm) (x : ℕ) (xs : List ℕ)
    → IsPool s (x ∷ xs)
    → length s.refs < max_refs
    → (length s.refs ≡ 0) ⊎ ((i : ℕ) × (i < length s.refs) × (x ≤ pa_at s.refs i))
    → Returns (alloc_page s) λ (p, t).
      (p ≡ x)
      × IsPool t xs
      × ((q : ℕ) → refcount q t.refs ≡ (if x == q then 1 else refcount q s.refs))
unfolding alloc_page
alloc_page-IsPool s x xs pool room above =
    let at : s.head ≡ x = pool.chain.0 in
    let none_yet : refcount x s.refs ≡ 0 = ground (arith, pool.unused x) in
    let (vs, e, (gained, counted)) =
      ref_insert-IsCounted s.refs x pool.counted (omega arith) room above in
    let not_null : (x == 0) ≡ false = ground (arith, pool.chain.1) in
    (
      (x, record s { refs = vs; head = s.next x }),
      rw (at, e, not_null),
      (
        refl,
        record {
          counted = counted;
          chain = pool.chain.2;
          distinct = pool.distinct.1;
          good = λ y h.
              bad_page-congr s (record s { refs = vs; head = s.next x }) y refl refl
                (ground (arith, pool.good y));
          unused = λ y h. ground (arith, pool.unused y, gained y, pool.distinct.0);
          start_pos = pool.start_pos;
        },
        λ q. ground (arith, gained q),
      ),
    )

-- ===== src/Pmm/Counts/Stale.antt =====
-- What follows when `ref_insert` of kernel/pmm.c has put an address in front of smaller ones: the
-- binary search of `ref_erase` no longer meets the entry.
use cabbage_pke.Common.{
  ℕ, zero, suc, ◌+◌, ◌≤◌, ◌<◌, ◌^◌, ◌≡◌, inl, inr, false, none, ◌∷◌, arith, ok, ◌>>=◌, ltb, ◌==◌,
  length, Bool-cases, ltb→lt, lt→ltb,
}
use cabbage_pke.Pmm.{unit, Refs, max_refs, middle, search, ref_insert, ref_erase}
use cabbage_pke.Pmm.Search.{pa_at, get-pa_at, AllBelow}
use cabbage_pke.Pmm.Counts.Edits.{refcount, IsCounted}
use cabbage_pke.Pmm.Counts.Effects.{ref_insert_misplaced}

-- Where every cell but the first lies below `pa`, the search walks off the upper end.
search-none :
    (us : Refs) (pa k lo hi : ℕ)
    → lo ≤ hi
    → 3 ≤ lo + hi
    → hi < lo + k
    → hi ≤ length us
    → ((i : ℕ) → 1 ≤ i → i < length us → pa_at us i < pa)
    → search k us pa lo hi ≡ ok none
unfolding search
search-none us pa zero lo hi le big fuel h all = absurd (omega arith)
search-none us pa (suc k) lo hi le big fuel h all = elim (Bool-cases (ltb lo hi)) [
  | inr e ↦ rw (e, search)
  | inl e ↦
      let lt : lo < hi = ltb→lt lo hi e in
      let (u, get, at) = get-pa_at us (middle lo hi) (omega arith) in
      let under : u.pa < pa = omega (arith, all (middle lo hi) (omega arith) (omega arith)) in
      let miss : (u.pa == pa) ≡ false = ground arith in
      rw (e, search, get)
        (rw (miss, lt→ltb u.pa pa under)
          (search-none us pa k (middle lo hi + 1) hi (omega arith) (omega arith) (omega arith) h
            all))
]

all_but_first :
    (us : Refs) (pa : ℕ)
    → AllBelow us pa
    → (i : ℕ) → 1 ≤ i
    → i < suc (length us)
    → pa_at (unit pa 1 ∷ us) i < pa
all_but_first us pa all zero h k = elim h [ ]
all_but_first us pa all (suc i) h k = all i (omega arith)

-- On a sorted list with positive counts and room for an entry, with two or more counted pages and all of
-- them below `pa`: taking a reference to `pa` away right after its first one was counted leaves its entry in
-- the list, and reports the last reference.
pub erase-insert_stale :
    (us : Refs) (pa : ℕ)
    → IsCounted us
    → refcount pa us + 1 < 2 ^ 64
    → length us < max_refs
    → 2 ≤ length us
    → AllBelow us pa
    → (ref_insert us pa >>= λ vs. ref_erase vs pa) ≡ ok (unit pa 1 ∷ us, 1)
unfolding ref_erase
erase-insert_stale us pa c small room two all =
    let vs : Refs = unit pa 1 ∷ us in
    rw (
      (ref_insert_misplaced us pa c small room (omega arith) all).0,
      search-none vs pa (suc (length vs)) 0 (length vs) (omega arith) (omega arith) (omega arith)
          (omega arith) (all_but_first us pa all),
    )

-- ===== src/Pmm/Counts/Effects.antt =====
-- `ref_find`, `ref_insert` and `ref_erase` of kernel/pmm.c: what they do to the counts.
use cabbage_pke.Common.{
  ℕ, suc, ◌+◌, ◌-◌, ◌≤◌, ◌<◌, ◌^◌, ◌≡◌, ◌≢◌, ◌⊎◌, inl, inr, refl, ap, ◌∙◌, none, some, ◌∷◌, arith,
  ok, ◌>>=◌, Returns, Ends→Returns, leb, ◌==◌, if◌then◌else◌, length, get_elem?, lt→ltb, Bool-cases,
}
use cabbage_pke.Pmm.{
  RefUnit, unit, Refs, max_refs, search, bump, unbump, modify, remove_at, insert_at, ref_find,
  ref_insert, settle, ref_erase,
}
use cabbage_pke.Pmm.Search.{
  pa_at, IsSorted, get-pa_at, search-Located, ref_lower-Splits, Splits, AllBelow, Placed, Located,
}
use cabbage_pke.Pmm.Counts.Edits.{
  refcount, IsCounted, get-ref_at, refcount-absent, refcount-at, length-modify, pa_at-modify,
  ref_at-modify, refcount-modify, length-remove_at, ref_at-remove_at, refcount-remove_at,
  refcount-insert_at, ref_at-insert_at, insert_at-IsSorted, remove_at-IsSorted,
}

bump-keep : (u : RefUnit) → (bump u).pa ≡ u.pa
unfolding bump
bump-keep u = refl

unbump-keep : (u : RefUnit) → (unbump u).pa ≡ u.pa
unfolding unbump
unbump-keep u = refl

-- The outcome of the search over all cells, with the entry that it found.
pub data Lookup (us : Refs) (pa : ℕ) : Type 0 where
  absent :
      search (suc (length us)) us pa 0 (length us) ≡ ok none
      → ((i : ℕ) → i < length us → pa_at us i ≢ pa)
      → Lookup us pa
  present :
      (i : ℕ) (u : RefUnit)
      → search (suc (length us)) us pa 0 (length us) ≡ ok (some i)
      → get_elem? us i ≡ some u
      → u.pa ≡ pa
      → Lookup us pa

pub lookup : (us : Refs) (pa : ℕ) → IsSorted us → Lookup us pa
lookup us pa s = go (
    Ends→Returns _ (
      search-Located us pa s (suc (length us)) 0 (length us) (omega arith) (omega arith)
        (omega arith)))
  where
    go :
        Returns (search (suc (length us)) us pa 0 (length us)) (Located us pa 0 (length us))
        → Lookup us pa
    go (none, e, h) = absent e (λ i p. h i (omega arith) p)
    go (some i, e, (h, at)) = let (u, get, same) = get-pa_at us i h in present i u e get (same ∙ at)

modify-IsCounted :
    (f : RefUnit → RefUnit) (keep : (u : RefUnit) → (f u).pa ≡ u.pa) (us : Refs) (i : ℕ)
    (u : RefUnit)
    → IsCounted us
    → get_elem? us i ≡ some u
    → 0 < (f u).ref
    → (f u).ref < 2 ^ 64
    → IsCounted (modify f us i)
modify-IsCounted f keep us i u c get pos small = record {
  sorted = λ a b h k.
      rw (pa_at-modify f keep us i a, pa_at-modify f keep us i b)
        (c.sorted a b h (rw (length-modify f keep us i) at k));
  positive = λ j h.
      ground (arith, ref_at-modify f keep us i j u get, length-modify f keep us i, c.positive j);
  bounded = λ j h.
      ground (arith, ref_at-modify f keep us i j u get, length-modify f keep us i, c.bounded j);
}

remove_at-IsCounted :
    (us : Refs) (i : ℕ) → IsCounted us → i < length us → IsCounted (remove_at us i)
remove_at-IsCounted us i c h = record {
  sorted = remove_at-IsSorted us i h c.sorted;
  positive = λ j k.
      ground
        (arith, ref_at-remove_at us i j, length-remove_at us i h, c.positive j, c.positive (suc j));
  bounded = λ j k.
      ground
        (arith, ref_at-remove_at us i j, length-remove_at us i h, c.bounded j, c.bounded (suc j));
}

insert_at-IsCounted :
    (us : Refs) (r pa : ℕ)
    → IsCounted us
    → Splits us pa r
    → ((i : ℕ) → i < length us → pa_at us i ≢ pa)
    → IsCounted (insert_at us r (unit pa 1))
insert_at-IsCounted us r pa c split fresh = record {
  sorted = insert_at-IsSorted us r (unit pa 1) c.sorted split fresh;
  positive = ref_at-insert_at (unit pa 1) (λ n. 0 < n) us r (omega arith) c.positive;
  bounded = ref_at-insert_at (unit pa 1) (λ n. n < 2 ^ 64) us r (omega arith) c.bounded;
}

module _ (us : Refs) (pa : ℕ) (c : IsCounted us) where
  -- The counts after one more reference to `pa`.
  abbrev pub Gained : Refs → Type 0
  Gained vs = (q : ℕ) → refcount q vs ≡ (if pa == q then refcount q us + 1 else refcount q us)

  module _ (small : refcount pa us + 1 < 2 ^ 64) (room : length us < max_refs) where
    insert_present :
        (i : ℕ) (u : RefUnit)
        → get_elem? us i ≡ some u
        → u.pa ≡ pa
        → Gained (modify bump us i) × IsCounted (modify bump us i)
    unfolding bump
    insert_present i u get same =
        let at : refcount pa us ≡ u.ref = rw same at (refcount-at us i u c.sorted get) in
        (
          λ q. ground (arith, refcount-modify bump bump-keep q us i u c.sorted get),
          modify-IsCounted bump bump-keep us i u c get (omega arith) (omega arith),
        )

    insert_absent :
        search (suc (length us)) us pa 0 (length us) ≡ ok none
        → ((i : ℕ) → i < length us → pa_at us i ≢ pa)
        → Returns
            (ref_insert us pa)
            λ vs. (r : ℕ) × (vs ≡ insert_at us r (unit pa 1)) × Placed us pa r
    unfolding ref_insert ref_find
    insert_absent missed fresh =
        let (r, run, split) = ref_lower-Splits us pa c.sorted in
        (
          insert_at us r (unit pa 1),
          rw (missed, run, lt→ltb (length us) max_refs room),
          (r, refl, split),
        )

    -- The outcome: the counts in every case, and the order unless `pa` is put in front wrongly.
    Inserted : Refs → Type 0
    Inserted vs =
        Gained vs × (IsCounted vs ⊎ (AllBelow us pa × (0 < length us) × (vs ≡ unit pa 1 ∷ us)))

    absent_outcome :
        ((i : ℕ) → i < length us → pa_at us i ≢ pa)
        → (r : ℕ) → Placed us pa r
        → Inserted (insert_at us r (unit pa 1))
    unfolding Inserted insert_at
    absent_outcome fresh r split =
        let none_before = refcount-absent pa us fresh in
        (λ q. ground (arith, refcount-insert_at q us r (unit pa 1) fresh), order split)
      where
        order :
            Placed us pa r
            → IsCounted (insert_at us r (unit pa 1))
              ⊎ (AllBelow us pa × (0 < length us) × (insert_at us r (unit pa 1) ≡ unit pa 1 ∷ us))
        order (inl (_, s)) = inl (insert_at-IsCounted us r pa c s fresh)
        order (inr (all, z)) = elim (Bool-cases (length us == 0)) [
          | inl e ↦
              let empty : length us ≡ 0 = ground arith in
              inl (
                insert_at-IsCounted us r pa c
                  (omega arith, all_before, λ i p q. absurd (omega arith)) fresh)
          | inr e ↦ inr (all, ground arith, rw z)
        ]
          where
            all_before : (i : ℕ) → i < r → pa_at us i < pa
            all_before i p = absurd (omega arith)

    insert_outcome : Returns (ref_insert us pa) Inserted
    unfolding Inserted ref_insert ref_find
    insert_outcome = go (lookup us pa c.sorted)
      where
        go : Lookup us pa → Returns (ref_insert us pa) Inserted
        go (present i u run get same) =
            let (g, d) = insert_present i u get same in (modify bump us i, rw run, (g, inl d))
        go (absent run fresh) =
            let (vs, e, (r, same, split)) = insert_absent run fresh in
            (vs, e, rw same (absent_outcome fresh r split))

    -- Whatever the order, the counts are right: one more for `pa`, the same for every other page.
    pub ref_insert-Gained : Returns (ref_insert us pa) Gained
    unfolding Inserted
    ref_insert-Gained = let (vs, e, h) = insert_outcome in (vs, e, h.0)

    -- On a sorted list with positive counts, with room for an entry and for one more reference: with an
    -- entry at or above `pa`, or on the empty list, the count of `pa` and no other grows by one, and the list
    -- stays sorted with positive counts.
    pub ref_insert-IsCounted :
        (length us ≡ 0) ⊎ ((i : ℕ) × (i < length us) × (pa ≤ pa_at us i))
        → Returns (ref_insert us pa) λ vs. Gained vs × IsCounted vs
    unfolding Inserted
    ref_insert-IsCounted room_above =
        let (vs, e, (g, d)) = insert_outcome in (vs, e, (g, pick vs d room_above))
      where
        pick :
            (vs : Refs)
            → IsCounted vs ⊎ (AllBelow us pa × (0 < length us) × (vs ≡ unit pa 1 ∷ us))
            → (length us ≡ 0) ⊎ ((i : ℕ) × (i < length us) × (pa ≤ pa_at us i))
            → IsCounted vs
        pick vs (inl d) h = d
        pick vs (inr (all, pos, e)) (inl z) = absurd (omega arith)
        pick vs (inr (all, pos, e)) (inr (i, h, k)) = absurd (omega (arith, all i h))

    -- On a sorted list with positive counts, with room for an entry: an address above all the others of a
    -- list that is not empty goes to the front, and the list is no longer sorted.
    pub ref_insert_misplaced :
        0 < length us
        → AllBelow us pa
        → (ref_insert us pa ≡ ok (unit pa 1 ∷ us)) × ¬ (IsSorted (unit pa 1 ∷ us))
    unfolding ref_insert ref_find insert_at
    ref_insert_misplaced pos all = (
      go (lookup us pa c.sorted),
      λ s. omega (arith, s 0 1 (omega arith) (omega arith), all 0 pos),
    )
      where
        go : Lookup us pa → ref_insert us pa ≡ ok (unit pa 1 ∷ us)
        go (present i u run get same) =
            let (h, at, _) = get-ref_at us i u get in absurd (omega (arith, all i h))
        go (absent run fresh) =
            let (vs, e, (r, same, split)) = insert_absent run fresh in
            e ∙ ap ok (same ∙ ap (λ k. insert_at us k (unit pa 1)) (front r split))
          where
            front : (r : ℕ) → Placed us pa r → r ≡ 0
            front r (inl (lt, (fits, below, above))) =
                absurd (omega (arith, all r lt, above r (omega arith) lt))
            front r (inr (_, z)) = z

  -- One reference less.
  abbrev pub Lost : Refs → Type 0
  Lost vs = (q : ℕ) → refcount q vs ≡ (if pa == q then refcount q us - 1 else refcount q us)

  settle_outcome :
      (i : ℕ) (u : RefUnit)
      → get_elem? us i ≡ some u
      → u.pa ≡ pa
      → Lost (settle us i u).0
        × IsCounted (settle us i u).0
        × ((settle us i u).1 ≡ (if leb (refcount pa us) 1 then 1 else 0))
  unfolding settle unbump
  settle_outcome i u get same =
      let at : refcount pa us ≡ u.ref = rw same at (refcount-at us i u c.sorted get) in
      let (h, _, ref) = get-ref_at us i u get in
      let pos : 0 < u.ref = omega (arith, c.positive i h) in
      let small : u.ref < 2 ^ 64 = omega (arith, c.bounded i h) in
      elim (Bool-cases ((unbump u).ref == 0)) [
        | inl e ↦ rw e (
          λ q. ground (arith, refcount-remove_at q us i u c.sorted get),
          remove_at-IsCounted us i c h,
          ground arith,
        )
        | inr e ↦ rw e (
          λ q. ground (arith, refcount-modify unbump unbump-keep q us i u c.sorted get),
          modify-IsCounted unbump unbump-keep us i u c get (ground arith) (ground arith),
          ground arith,
        )
      ]

  -- On a sorted list with positive counts, `ref_erase` ends, takes one reference to `pa` away and none to
  -- another page, keeps the list sorted with positive counts, and returns 0 exactly if others remain.
  pub ref_erase-Lost :
      Returns
        (ref_erase us pa)
        λ (vs, code). Lost vs × IsCounted vs × (code ≡ (if leb (refcount pa us) 1 then 1 else 0))
  unfolding ref_erase
  ref_erase-Lost = go (lookup us pa c.sorted)
    where
      go :
          Lookup us pa
          → Returns (ref_erase us pa) λ (vs, code).
            Lost vs × IsCounted vs × (code ≡ (if leb (refcount pa us) 1 then 1 else 0))
      go (present i u run get same) =
          (settle us i u, rw (run, ◌>>=◌, get), settle_outcome i u get same)
      go (absent run fresh) =
          let zero_count = refcount-absent pa us fresh in
          ((us, 1), rw run, (λ q. ground arith, c, ground arith))

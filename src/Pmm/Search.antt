-- ===== src/Pmm/Search.antt =====
-- The two binary searches over `ref_list` in kernel/pmm.c.
use cabbage_pke.Common.{
  ℕ, zero, suc, ◌+◌, ◌≤◌, ◌<◌, ◌≡◌, ◌≢◌, ◌⊎◌, inl, inr, refl, Option, none, some, [], ◌∷◌, arith,
  Ends, Ends-mono, Returns, Ends→Returns, ltb, ◌==◌, length, get_elem?, Bool-cases, ltb→lt, ltb→le,
}
use cabbage_pke.Pmm.{RefUnit, Refs, middle, search, lower}

abbrev pub pa_at : Refs → ℕ → ℕ
pa_at [] i = 0
pa_at (u ∷ us) zero = u.pa
pa_at (u ∷ us) (suc i) = pa_at us i

-- Strictly ascending addresses: what the searches rely on.
abbrev pub IsSorted : Refs → Type 0
IsSorted us = (i j : ℕ) → i < j → j < length us → pa_at us i < pa_at us j

pub get-pa_at :
    (us : Refs) (i : ℕ)
    → i < length us
    → (u : RefUnit) × (get_elem? us i ≡ some u) × (u.pa ≡ pa_at us i)
get-pa_at [] i h = elim h [ ]
get-pa_at (u ∷ us) zero h = (u, refl, refl)
get-pa_at (u ∷ us) (suc i) h = get-pa_at us i (omega arith)

pub IsSorted-le :
    (us : Refs) → IsSorted us → (i j : ℕ) → i ≤ j → j < length us → pa_at us i ≤ pa_at us j
IsSorted-le us sorted i j h k = ground (arith, sorted i j)

-- Where a search for `pa` among the cells [lo, hi) may end.
abbrev pub Located : Refs → ℕ → ℕ → ℕ → Option ℕ → Type 0
Located us pa lo hi (some i) = (i < length us) × (pa_at us i ≡ pa)
Located us pa lo hi none = (i : ℕ) → lo ≤ i → i < hi → pa_at us i ≢ pa

module _ (us : Refs) (pa : ℕ) (sorted : IsSorted us) where
  widen_above :
      (lo m hi : ℕ) (r : Option ℕ)
      → m < length us
      → pa_at us m < pa
      → Located us pa (m + 1) hi r
      → Located us pa lo hi r
  widen_above lo m hi (some i) h lt found = found
  widen_above lo m hi none h lt absent = λ i p q. elim (Bool-cases (ltb m i)) [
    | inl after ↦ absent i (omega (arith, ltb→lt m i)) q
    | inr before ↦
        λ e. omega (arith, ltb→le m i before, IsSorted-le us sorted i m (ltb→le m i before) h)
  ]

  widen_below :
      (lo m hi : ℕ) (r : Option ℕ)
      → hi ≤ length us
      → pa < pa_at us m
      → Located us pa lo m r
      → Located us pa lo hi r
  widen_below lo m hi (some i) h lt found = found
  widen_below lo m hi none h lt absent = λ i p q. elim (Bool-cases (ltb i m)) [
    | inl before ↦ absent i p (ltb→lt i m before)
    | inr after ↦ λ e. omega (arith, IsSorted-le us sorted m i (ltb→le i m after) (omega arith))
  ]

  -- The loop ends within the fuel, reads only live cells, and finds `pa` exactly if it is there.
  pub search-Located :
      (k lo hi : ℕ)
      → lo ≤ hi
      → hi < lo + k
      → hi ≤ length us
      → Ends (search k us pa lo hi) (Located us pa lo hi)
  unfolding search
  search-Located zero lo hi le fuel h = absurd (omega arith)
  search-Located (suc k) lo hi le fuel h = elim (Bool-cases (ltb lo hi)) [
    | inr e ↦ rw (e, search) (λ i p q _. omega (arith, ltb→le lo hi e))
    | inl e ↦
        let lt : lo < hi = ltb→lt lo hi e in
        let m = middle lo hi in
        let (u, get, at) = get-pa_at us m (omega arith) in
        rw (e, search, get)
          (elim (Bool-cases (u.pa == pa)) [
            | inl hit ↦ rw hit (omega arith, ground arith)
            | inr miss ↦ rw miss (elim (Bool-cases (ltb u.pa pa)) [
              | inl under ↦ rw under (
                  Ends-mono (search k us pa (m + 1) hi)
                    (search-Located k (m + 1) hi (omega arith) (omega arith) h)
                    (λ r. widen_above lo m hi r (omega arith) (ground arith)))
              | inr over ↦ rw over (
                  Ends-mono (search k us pa lo m)
                    (search-Located k lo m (omega arith) (omega arith) (omega arith))
                    (λ r. widen_below lo m hi r h (ground arith)))
            ])
          ])
  ]

-- `r` splits the cells into addresses below `pa` and addresses not below it.
abbrev pub Splits : Refs → ℕ → ℕ → Type 0
Splits us pa r =
    (r ≤ length us)
    × ((i : ℕ) → i < r → pa_at us i < pa)
    × ((i : ℕ) → r ≤ i → i < length us → pa ≤ pa_at us i)

abbrev pub AllBelow : Refs → ℕ → Type 0
AllBelow us pa = (i : ℕ) → i < length us → pa_at us i < pa

-- What `ref_insert` gets from its second search.
abbrev pub Placed : Refs → ℕ → ℕ → Type 0
Placed us pa r = (r < length us) × (Splits us pa r) ⊎ AllBelow us pa × (r ≡ 0)

record Inv (us : Refs) (pa lo hi idx : ℕ) : Type 0 where
  ordered : lo ≤ hi
  inside : hi ≤ length us
  under : (i : ℕ) → i < lo → pa_at us i < pa
  over : (i : ℕ) → hi ≤ i → i < length us → pa ≤ pa_at us i
  index : (idx ≡ hi) × (hi < length us) ⊎ (hi ≡ length us) × (idx ≡ 0)

module _ (us : Refs) (pa : ℕ) (sorted : IsSorted us) where
  Inv-above :
      (lo hi idx m : ℕ) → Inv us pa lo hi idx → m < hi → pa_at us m < pa → Inv us pa (m + 1) hi idx
  Inv-above lo hi idx m inv h lt = record {
    ordered = omega arith;
    inside = inv.inside;
    under =
        λ i p. omega (arith, IsSorted-le us sorted i m (omega arith) (omega (arith, inv.inside)));
    over = inv.over;
    index = inv.index;
  }

  Inv-below :
      (lo hi idx m : ℕ) → Inv us pa lo hi idx → lo ≤ m → m < hi → pa ≤ pa_at us m → Inv us pa lo m m
  Inv-below lo hi idx m inv l h le = record {
    ordered = l;
    inside = omega (arith, inv.inside);
    under = inv.under;
    over = λ i p q. omega (arith, IsSorted-le us sorted m i p q);
    index = inl (refl, omega (arith, inv.inside));
  }

  Inv-done : (lo hi idx : ℕ) → Inv us pa lo hi idx → hi ≤ lo → Placed us pa idx
  Inv-done lo hi idx inv h = elim inv.index [
    | inl (e, lt) ↦ inl (
      omega arith,
      (
        omega (arith, inv.inside),
        λ i p. inv.under i (omega (arith, inv.ordered)),
        λ i p q. inv.over i (omega arith) q,
      ),
    )
    | inr (e, z) ↦ inr (λ i p. inv.under i (omega (arith, inv.ordered)), z)
  ]

  -- The loop of `ref_insert` ends with the index that splits the cells, but with 0 where every
  -- address lies below `pa`: there `idx` keeps its initial value.
  lower-Splits :
      (k lo hi idx : ℕ)
      → hi < lo + k
      → Inv us pa lo hi idx
      → Ends (lower k us pa lo hi idx) (Placed us pa)
  unfolding lower
  lower-Splits zero lo hi idx fuel inv = absurd (omega (arith, inv.ordered))
  lower-Splits (suc k) lo hi idx fuel inv = elim (Bool-cases (ltb lo hi)) [
    | inr e ↦ rw (e, lower) (Inv-done lo hi idx inv (ltb→le lo hi e))
    | inl e ↦
        let lt : lo < hi = ltb→lt lo hi e in
        let m = middle lo hi in
        let (u, get, at) = get-pa_at us m (omega (arith, inv.inside)) in
        rw (e, lower, get)
          (elim (Bool-cases (ltb u.pa pa)) [
            | inl under ↦ rw under (
                lower-Splits k (m + 1) hi idx (omega arith)
                  (Inv-above lo hi idx m inv (omega arith) (ground arith)))
            | inr over ↦ rw over (
                lower-Splits k lo m m (omega arith)
                  (Inv-below lo hi idx m inv (omega arith) (omega arith) (ground arith)))
          ])
  ]

  -- On a sorted list the second search of `ref_insert` ends within the fuel, and gives the place that keeps
  -- the list sorted, or 0 where every entry is below the address.
  pub ref_lower-Splits : Returns (lower (suc (length us)) us pa 0 (length us) 0) (Placed us pa)
  ref_lower-Splits = Ends→Returns (lower (suc (length us)) us pa 0 (length us) 0) (
      lower-Splits (suc (length us)) 0 (length us) 0 (omega arith) (record {
        ordered = omega arith;
        inside = omega arith;
        under = λ i p. absurd (omega arith);
        over = λ i p q. absurd (omega arith);
        index = inr (refl, refl);
      }))

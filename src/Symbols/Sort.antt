-- ===== src/Symbols/Sort.antt =====
-- `quickSort` puts the symbols in the order of their addresses.
use cabbage_pke.Common.{
  ℕ, zero, suc, ◌+◌, ◌-◌, ◌≤◌, ◌<◌, ◌≡◌, ◌≢◌, ◌⊎◌, inl, inr, refl, sym, ◌∙◌, ap, subst, Bool, true,
  false, arith, Returns, Ends, Ends-bind, Ends-mono, Ends→Returns, ltb, leb, ◌==◌, Bool-cases,
  ltb→lt, ltb→le, le→ltb, lt→leb, ==_refl, ne→==,
}
use cabbage_pke.Symbols.{Entry, value, set, partition, quick_sort}
use cabbage_pke.Symbols.Tally.{
  tally, tally_same, tally_further, tally_still, tally_still_none, equal,
}
use cabbage_pke.Symbols.Partition.{IsGap, Kept, partition-IsGap}

abbrev pub IsSorted : (ℕ → Entry) → ℕ → ℕ → Type 0
IsSorted a l over = (i j : ℕ) → l ≤ i → i < j → j < over → value (a i) ≤ value (a j)

-- The entries in front of `over` are the same, in whatever order: every test holds of as many of them. Those
-- outside of the range stay in their places.
abbrev pub IsRearranged : ℕ → ℕ → (ℕ → Entry) → (ℕ → Entry) → Type 0
IsRearranged l over a a' =
    ((p : Entry → Bool) → tally p a' over ≡ tally p a over)
    × ((m : ℕ) → (m < l) ⊎ (over ≤ m) → a' m ≡ a m)

abbrev pub Sorted : ℕ → ℕ → (ℕ → Entry) → (ℕ → Entry) → Type 0
Sorted l over a a' = IsSorted a' l over × IsRearranged l over a a'

-- A test that holds of no entry of the range holds of none after a rearrangement.
none_kept :
    (p : Entry → Bool) (l over : ℕ) (a a' : ℕ → Entry)
    → l ≤ over
    → IsRearranged l over a a'
    → ((m : ℕ) → l ≤ m → m < over → p (a m) ≡ false)
    → (m : ℕ) → l ≤ m
    → m < over
    → p (a' m) ≡ false
none_kept p l over a a' le (same, outside) h = tally_still_none p a' l over (
    same p ∙ tally_still p a l over le h ∙ tally_same p a a' l (λ m low. sym (outside m (inl low))))

-- The pivot in its place, with what is below it in front and the rest behind.
abbrev Split : ℕ → ℕ → ℕ → ℕ → (ℕ → Entry) → Type 0
Split l over x i b =
    ((m : ℕ) → l ≤ m → m < i → value (b m) < x)
    × (value (b i) ≡ x)
    × ((m : ℕ) → i < m → m < over → x ≤ value (b m))

module _ (l over x i : ℕ) (b c d : ℕ → Entry) (low : l ≤ i) (high : i < over)
    (split : Split l over x i b) (front : Sorted l i b c) (back : Sorted (i + 1) over c d) where
  d-c : (m : ℕ) → m ≤ i → d m ≡ c m
  d-c m h = back.1.1 m (inl (omega arith))

  c-b : (m : ℕ) → i ≤ m → c m ≡ b m
  c-b m h = front.1.1 m (inr h)

  back-Split : Split l over x i d
  back-Split = (
    (λ m lm mi.
        subst (λ z. value z < x) (sym (d-c m (omega arith)))
          (below (value (c m)) (
            none_kept (λ z. leb x (value z)) l i b c low front.1
              (λ m' h h'. lt→leb x (value (b m')) (split.0 m' h h')) m lm mi))),
    ap value (d-c i (omega arith) ∙ c-b i (omega arith)) ∙ split.1,
    (λ m im mo. above (value (d m)) (
        none_kept (λ z. ltb (value z) x) (i + 1) over c d (omega arith) back.1
          (λ m' h h'.
            subst (λ z. ltb (value z) x ≡ false) (sym (c-b m' (omega arith)))
              (le→ltb (value (b m')) x (split.2 m' (omega arith) h')))
          m (omega arith) mo)),
  )
    where
      below : (v : ℕ) → leb x v ≡ false → v < x
      below v h = ground arith

      above : (v : ℕ) → ltb v x ≡ false → x ≤ v
      above v h = ground arith

  joined : Sorted l over b d
  joined = (
    (λ p q lp pq qo. in_order p q lp pq qo (Bool-cases (ltb q i)) (Bool-cases (ltb i p))),
    (
      (λ t.
          back.1.0 t ∙ tally_further t c b i over (omega arith) (front.1.0 t) (λ m h h'. c-b m h)),
      (λ m out. back.1.1 m (later m out) ∙ front.1.1 m (earlier m out)),
    ),
  )
    where
      later : (m : ℕ) → (m < l) ⊎ (over ≤ m) → (m < i + 1) ⊎ (over ≤ m)
      later m (inl h) = inl (omega arith)
      later m (inr h) = inr h

      earlier : (m : ℕ) → (m < l) ⊎ (over ≤ m) → (m < l) ⊎ (i ≤ m)
      earlier m (inl h) = inl h
      earlier m (inr h) = inr (omega arith)

      -- At the pivot or in front of it, and at the pivot or behind it.
      to_pivot : (m : ℕ) → l ≤ m → m ≤ i → value (d m) ≤ x
      to_pivot m lm mi = elim (Bool-cases (m == i)) [
        | inl e ↦ subst (λ z. value (d z) ≤ x) (sym (equal m i e)) (omega (arith, back-Split.1))
        | inr e ↦ omega (arith, back-Split.0 m lm (ground arith))
      ]

      from_pivot : (m : ℕ) → i ≤ m → m < over → x ≤ value (d m)
      from_pivot m im mo = elim (Bool-cases (m == i)) [
        | inl e ↦ subst (λ z. x ≤ value (d z)) (sym (equal m i e)) (omega (arith, back-Split.1))
        | inr e ↦ back-Split.2 m (ground arith) mo
      ]

      in_order :
          (p q : ℕ)
          → l ≤ p
          → p < q
          → q < over
          → (ltb q i ≡ true) ⊎ (ltb q i ≡ false)
          → (ltb i p ≡ true) ⊎ (ltb i p ≡ false)
          → value (d p) ≤ value (d q)
      in_order p q lp pq qo (inl h) side =
          subst (λ z. value z ≤ value (d q)) (sym (d-c p (omega (arith, ltb→lt q i h))))
            (subst (λ z. value (c p) ≤ value z) (sym (d-c q (omega (arith, ltb→lt q i h))))
              (front.0 p q lp pq (ltb→lt q i h)))
      in_order p q lp pq qo (inr h) (inl h') = back.0 p q (omega (arith, ltb→lt i p h')) pq qo
      in_order p q lp pq qo (inr h) (inr h') =
          omega (arith, to_pivot p lp (ltb→le i p h'), from_pivot q (ltb→le q i h) qo)

set_same : (a : ℕ → Entry) (l m : ℕ) → set a l (a l) m ≡ a m
set_same a l m = elim (Bool-cases (l == m)) [
  | inl e ↦ rw e (ap a (equal l m e))
  | inr e ↦ rw e refl
]

set_other : (a : ℕ → Entry) (i m : ℕ) (e : Entry) → m ≢ i → set a i e m ≡ a m
set_other a i m e h = rw (ne→== i m (λ q. h (sym q))) refl

-- The pivot goes into the gap.
placed :
    (l over i : ℕ) (e : Entry) (a : ℕ → Entry)
    → IsGap l over (value e) a i i
    → Split l over (value e) i (set a i e)
placed l over i e a gap = (
  (λ m lm mi.
      subst (λ z. value z < value e) (sym (set_other a i m e (λ q. omega arith))) (gap.3 m lm mi)),
  ap value {x = set a i e i} {y = e} (rw (==_refl i) refl),
  (λ m im mo.
      subst (λ z. value e ≤ value z) (sym (set_other a i m e (λ q. omega arith))) (gap.4 m im mo)),
)

quick_sort-Ends :
    (k : ℕ) (a : ℕ → Entry) (l over : ℕ)
    → l ≤ over
    → over < l + k
    → Ends (quick_sort k a l over) (Sorted l over a)
unfolding quick_sort
quick_sort-Ends zero a l over le fuel = absurd (omega arith)
quick_sort-Ends (suc k) a l over le fuel = elim (Bool-cases (ltb (l + 1) over)) [
  | inr few ↦
      rw (quick_sort, few)
        (
          (λ i j li ij jo. absurd (omega (arith, ltb→le (l + 1) over few))),
          ((λ p. refl), (λ m h. refl)),
        )
  | inl more ↦
      rw (quick_sort, more)
        (Ends-bind (Sorted l over a) (partition over (value (a l)) a l (over - 1)) _
          (partition-IsGap over l over (value (a l)) (a l) a l (over - 1)
            (start (ltb→lt (l + 1) over more)) (omega (arith, ltb→lt (l + 1) over more)))
          (λ (i, a₁) (gap, kept).
            Ends-bind (Sorted l over a) (quick_sort k (set a₁ i (a l)) l i) _
              (quick_sort-Ends k (set a₁ i (a l)) l i gap.0 (omega (arith, gap.2)))
              (λ c front.
                Ends-mono (quick_sort k c (i + 1) over)
                  (quick_sort-Ends k c (i + 1) over (omega (arith, gap.2)) (omega (arith, gap.0)))
                  (λ d back. finish i a₁ d gap kept (
                    joined l over (value (a l)) i (set a₁ i (a l)) c d gap.0 gap.2
                      (placed l over i (a l) a₁ gap) front back)))))
]
  where
    finish :
        (i : ℕ) (a₁ d : ℕ → Entry)
        → IsGap l over (value (a l)) a₁ i i
        → Kept l over (a l) a l a₁ i
        → Sorted l over (set a₁ i (a l)) d
        → Sorted l over a d
    finish i a₁ d gap kept (order, (same, outside)) = (
      order,
      (
        (λ p. same p ∙ kept.0 p ∙ tally_same p (set a l (a l)) a over (λ m h. set_same a l m)),
        (λ m out. outside m out ∙ set_other a₁ i m (a l) (apart m out gap.0 gap.2) ∙ kept.1 m out),
      ),
    )
      where
        apart : (m : ℕ) → (m < l) ⊎ (over ≤ m) → l ≤ i → i < over → m ≢ i
        apart m (inl h) low high q = omega arith
        apart m (inr h) low high q = omega arith

    start : l + 1 < over → IsGap l over (value (a l)) a l (over - 1)
    start h = (
      omega arith,
      omega arith,
      omega arith,
      (λ m lm ml. absurd (omega arith)),
      (λ m om mo. absurd (omega arith)),
    )

-- `quickSort(l, over - 1)` with more fuel than there are entries ends: the addresses of the range are in order
-- then, the entries in front of its end are the same ones, names included, and nothing outside of the range
-- moved.
pub quick_sort-Sorted :
    (k : ℕ) (a : ℕ → Entry) (l over : ℕ)
    → l ≤ over
    → over < l + k
    → Returns (quick_sort k a l over) (Sorted l over a)
quick_sort-Sorted k a l over le fuel =
    Ends→Returns (quick_sort k a l over) (quick_sort-Ends k a l over le fuel)

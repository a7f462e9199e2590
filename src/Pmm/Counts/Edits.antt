-- ===== src/Pmm/Counts/Edits.antt =====
-- The edits of `ref_list` (kernel/pmm.c: an increment or decrement in place, and the two
-- `memmove`s), by index and as changes of the counts.
use cabbage_pke.Common.{
  ℕ, zero, suc, ◌-◌, ◌≤◌, ◌<◌, ◌^◌, ◌≡◌, ◌≢◌, refl, ap, ◌∙◌, inl, inr, some, [], ◌∷◌, arith, ltb,
  ltb→lt, Bool-cases, ◌==◌, if◌then◌else◌, length, get_elem?,
}
use cabbage_pke.Pmm.{RefUnit, Refs, modify, remove_at, insert_at}
use cabbage_pke.Pmm.Search.{pa_at, IsSorted, Splits}

-- The count that the first entry for `q` holds; 0 without one.
abbrev pub refcount : ℕ → Refs → ℕ
refcount q [] = 0
refcount q (u ∷ us) = if u.pa == q then u.ref else refcount q us

abbrev pub ref_at : Refs → ℕ → ℕ
ref_at [] i = 0
ref_at (u ∷ us) zero = u.ref
ref_at (u ∷ us) (suc i) = ref_at us i

-- Sorted by address, every count positive and a `uint64`.
pub record IsCounted (us : Refs) : Type 0 where
  pub sorted : IsSorted us
  pub positive : (i : ℕ) → i < length us → 0 < ref_at us i
  pub bounded : (i : ℕ) → i < length us → ref_at us i < 2 ^ 64

pub IsSorted-tail : (u : RefUnit) (us : Refs) → IsSorted (u ∷ us) → IsSorted us
IsSorted-tail u us s i j h k = s (suc i) (suc j) (omega arith) (omega arith)

pub get-ref_at :
    (us : Refs) (i : ℕ) (u : RefUnit)
    → get_elem? us i ≡ some u
    → (i < length us) × (u.pa ≡ pa_at us i) × (u.ref ≡ ref_at us i)
get-ref_at [] i u e = absurd (ground arith)
get-ref_at (v ∷ us) zero u e = ground arith
get-ref_at (v ∷ us) (suc i) u e = ground (arith, get-ref_at us i u e)

pub refcount-absent :
    (q : ℕ) (us : Refs) → ((i : ℕ) → i < length us → pa_at us i ≢ q) → refcount q us ≡ 0
refcount-absent q [] h = refl
refcount-absent q (u ∷ us) h =
    ground (arith, h 0, refcount-absent q us (λ i p. h (suc i) (omega arith)))

pub refcount-at :
    (us : Refs) (i : ℕ) (u : RefUnit)
    → IsSorted us
    → get_elem? us i ≡ some u
    → refcount u.pa us ≡ u.ref
refcount-at [] i u s e = absurd (ground arith)
refcount-at (v ∷ us) zero u s e = ground arith
refcount-at (v ∷ us) (suc i) u s e =
    let (h, at, _) = get-ref_at us i u e in
    ground (arith, s 0 (suc i), refcount-at us i u (IsSorted-tail v us s) e)

module _ (f : RefUnit → RefUnit) (keep : (u : RefUnit) → (f u).pa ≡ u.pa) where
  pub length-modify : (us : Refs) (i : ℕ) → length (modify f us i) ≡ length us
  unfolding modify
  length-modify [] i = refl
  length-modify (u ∷ us) zero = refl
  length-modify (u ∷ us) (suc i) = ap suc (length-modify us i)

  pub pa_at-modify : (us : Refs) (i j : ℕ) → pa_at (modify f us i) j ≡ pa_at us j
  unfolding modify
  pa_at-modify [] i j = refl
  pa_at-modify (u ∷ us) zero zero = keep u
  pa_at-modify (u ∷ us) zero (suc j) = refl
  pa_at-modify (u ∷ us) (suc i) zero = refl
  pa_at-modify (u ∷ us) (suc i) (suc j) = pa_at-modify us i j

  pub ref_at-modify :
      (us : Refs) (i j : ℕ) (u : RefUnit)
      → get_elem? us i ≡ some u
      → ref_at (modify f us i) j ≡ (if i == j then (f u).ref else ref_at us j)
  unfolding modify
  ref_at-modify [] i j u e = absurd (ground arith)
  ref_at-modify (v ∷ us) zero zero u e = ground arith
  ref_at-modify (v ∷ us) zero (suc j) u e = ground arith
  ref_at-modify (v ∷ us) (suc i) zero u e = ground arith
  ref_at-modify (v ∷ us) (suc i) (suc j) u e = ground (arith, ref_at-modify us i j u e)

  pub refcount-modify :
      (q : ℕ) (us : Refs) (i : ℕ) (u : RefUnit)
      → IsSorted us
      → get_elem? us i ≡ some u
      → refcount q (modify f us i) ≡ (if u.pa == q then (f u).ref else refcount q us)
  unfolding modify
  refcount-modify q [] i u s e = absurd (ground arith)
  refcount-modify q (v ∷ us) zero u s e = ground (arith, keep v)
  refcount-modify q (v ∷ us) (suc i) u s e =
      let (h, at, _) = get-ref_at us i u e in
      ground (arith, s 0 (suc i), refcount-modify q us i u (IsSorted-tail v us s) e)

pub length-remove_at :
    (us : Refs) (i : ℕ) → i < length us → suc (length (remove_at us i)) ≡ length us
unfolding remove_at
length-remove_at [] i h = elim h [ ]
length-remove_at (u ∷ us) zero h = refl
length-remove_at (u ∷ us) (suc i) h = ap suc (length-remove_at us i (omega arith))

pub pa_at-remove_at :
    (us : Refs) (i j : ℕ)
    → pa_at (remove_at us i) j ≡ (if ltb j i then pa_at us j else pa_at us (suc j))
unfolding remove_at
pa_at-remove_at [] i j = ground arith
pa_at-remove_at (u ∷ us) zero j = ground arith
pa_at-remove_at (u ∷ us) (suc i) zero = ground arith
pa_at-remove_at (u ∷ us) (suc i) (suc j) = ground (arith, pa_at-remove_at us i j)

pub ref_at-remove_at :
    (us : Refs) (i j : ℕ)
    → ref_at (remove_at us i) j ≡ (if ltb j i then ref_at us j else ref_at us (suc j))
unfolding remove_at
ref_at-remove_at [] i j = ground arith
ref_at-remove_at (u ∷ us) zero j = ground arith
ref_at-remove_at (u ∷ us) (suc i) zero = ground arith
ref_at-remove_at (u ∷ us) (suc i) (suc j) = ground (arith, ref_at-remove_at us i j)

pub refcount-remove_at :
    (q : ℕ) (us : Refs) (i : ℕ) (u : RefUnit)
    → IsSorted us
    → get_elem? us i ≡ some u
    → refcount q (remove_at us i) ≡ (if u.pa == q then 0 else refcount q us)
unfolding remove_at
refcount-remove_at q [] i u s e = absurd (ground arith)
refcount-remove_at q (v ∷ us) zero u s e = ground (
  arith,
  refcount-absent v.pa us (λ j p same. omega (arith, s 0 (suc j) (omega arith) (omega arith))),
)
refcount-remove_at q (v ∷ us) (suc i) u s e =
    let (h, at, _) = get-ref_at us i u e in
    ground (arith, s 0 (suc i), refcount-remove_at q us i u (IsSorted-tail v us s) e)

pub length-insert_at :
    (us : Refs) (r : ℕ) (v : RefUnit) → length (insert_at us r v) ≡ suc (length us)
unfolding insert_at
length-insert_at us zero v = refl
length-insert_at [] (suc r) v = refl
length-insert_at (u ∷ us) (suc r) v = ap suc (length-insert_at us r v)

module _ (v : RefUnit) where
  pub pa_at-insert_at_before :
      (us : Refs) (r j : ℕ) → j < r → r ≤ length us → pa_at (insert_at us r v) j ≡ pa_at us j
  unfolding insert_at
  pa_at-insert_at_before us zero j h k = elim h [ ]
  pa_at-insert_at_before [] (suc r) j h k = absurd (omega arith)
  pa_at-insert_at_before (u ∷ us) (suc r) zero h k = refl
  pa_at-insert_at_before (u ∷ us) (suc r) (suc j) h k =
      pa_at-insert_at_before us r j (omega arith) (omega arith)

  pub pa_at-insert_at_self : (us : Refs) (r : ℕ) → r ≤ length us → pa_at (insert_at us r v) r ≡ v.pa
  unfolding insert_at
  pa_at-insert_at_self us zero k = refl
  pa_at-insert_at_self [] (suc r) k = absurd (omega arith)
  pa_at-insert_at_self (u ∷ us) (suc r) k = pa_at-insert_at_self us r (omega arith)

  pub pa_at-insert_at_after :
      (us : Refs) (r j : ℕ) → r ≤ j → pa_at (insert_at us r v) (suc j) ≡ pa_at us j
  unfolding insert_at
  pa_at-insert_at_after us zero j h = refl
  pa_at-insert_at_after [] (suc r) j h = refl
  pa_at-insert_at_after (u ∷ us) (suc r) zero h = absurd (omega arith)
  pa_at-insert_at_after (u ∷ us) (suc r) (suc j) h = pa_at-insert_at_after us r j (omega arith)

  pub ref_at-insert_at :
      (P : ℕ → Type 0) (us : Refs) (r : ℕ)
      → P v.ref
      → ((i : ℕ) → i < length us → P (ref_at us i))
      → (j : ℕ) → j < length (insert_at us r v)
      → P (ref_at (insert_at us r v) j)
  unfolding insert_at
  ref_at-insert_at P us zero new old zero h = new
  ref_at-insert_at P us zero new old (suc j) h = old j (omega arith)
  ref_at-insert_at P [] (suc r) new old zero h = new
  ref_at-insert_at P [] (suc r) new old (suc j) h = absurd (omega arith)
  ref_at-insert_at P (u ∷ us) (suc r) new old zero h = old 0 (omega arith)
  ref_at-insert_at P (u ∷ us) (suc r) new old (suc j) h =
      ref_at-insert_at P us r new (λ i p. old (suc i) (omega arith)) j (omega arith)

pub refcount-insert_at :
    (q : ℕ) (us : Refs) (r : ℕ) (v : RefUnit)
    → ((i : ℕ) → i < length us → pa_at us i ≢ v.pa)
    → refcount q (insert_at us r v) ≡ (if v.pa == q then v.ref else refcount q us)
unfolding insert_at
refcount-insert_at q us zero v h = ground arith
refcount-insert_at q [] (suc r) v h = ground arith
refcount-insert_at q (u ∷ us) (suc r) v h =
    ground (arith, h 0, refcount-insert_at q us r v (λ i p. h (suc i) (omega arith)))

-- Where cell `j` of the longer list comes from.
data Place (us : Refs) (r : ℕ) (v : RefUnit) (j : ℕ) : Type 0 where
  before : j < r → pa_at (insert_at us r v) j ≡ pa_at us j → Place us r v j
  here : j ≡ r → pa_at (insert_at us r v) j ≡ v.pa → Place us r v j
  after : (j' : ℕ) → j ≡ suc j' → r ≤ j' → pa_at (insert_at us r v) j ≡ pa_at us j' → Place us r v j

place : (us : Refs) (r : ℕ) (v : RefUnit) (j : ℕ) → r ≤ length us → Place us r v j
place us r v j fits = elim (Bool-cases (ltb j r)) [
  | inl e ↦ before (ltb→lt j r e) (pa_at-insert_at_before v us r j (ltb→lt j r e) fits)
  | inr e ↦ elim (Bool-cases (j == r)) [
    | inl same ↦ let q : j ≡ r = ground arith in here q (rw q (pa_at-insert_at_self v us r fits))
    | inr other ↦
        let le : r ≤ j - 1 = ground arith in
        let q : j ≡ suc (j - 1) = ground arith in
        after (j - 1) q le
          (ap (pa_at (insert_at us r v)) q ∙ pa_at-insert_at_after v us r (j - 1) le)
  ]
]

pub insert_at-IsSorted :
    (us : Refs) (r : ℕ) (v : RefUnit)
    → IsSorted us
    → Splits us v.pa r
    → ((i : ℕ) → i < length us → pa_at us i ≢ v.pa)
    → IsSorted (insert_at us r v)
insert_at-IsSorted us r v s (fits, below, above) fresh i j h k =
    go (place us r v i fits) (place us r v j fits)
  where
    len : j < suc (length us)
    len = rw (length-insert_at us r v) at k

    go : Place us r v i → Place us r v j → pa_at (insert_at us r v) i < pa_at (insert_at us r v) j
    go (before a p) (before b q) = omega (arith, s i j h (omega (arith, len)))
    go (before a p) (here b q) = omega (arith, below i a)
    go (before a p) (after j' b c q) = omega (arith, s i j' (omega arith) (omega (arith, len)))
    go (here a p) (before b q) = omega arith
    go (here a p) (here b q) = absurd (omega arith)
    go (here a p) (after j' b c q) =
        omega (arith, above j' c (omega (arith, len)), fresh j' (omega (arith, len)))
    go (after i' a b p) (before c q) = absurd (omega arith)
    go (after i' a b p) (here c q) = absurd (omega arith)
    go (after i' a b p) (after j' c d q) = omega (arith, s i' j' (omega arith) (omega (arith, len)))

pub remove_at-IsSorted :
    (us : Refs) (i : ℕ) → i < length us → IsSorted us → IsSorted (remove_at us i)
remove_at-IsSorted us i h s a b p q = ground (
  arith,
  length-remove_at us i h,
  pa_at-remove_at us i a,
  pa_at-remove_at us i b,
  s a b,
  s a (suc b),
  s (suc a) (suc b),
)

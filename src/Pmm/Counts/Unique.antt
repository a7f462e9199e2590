-- ===== src/Pmm/Counts/Unique.antt =====
-- `ref_list` of kernel/pmm.c holds nothing but the counts: a list that is in order is determined by them.
use cabbage_pke.Common.{
  ℕ, suc, ◌+◌, ◌<◌, ◌≡◌, refl, sym, ◌∙◌, ap, subst, inl, inr, [], ◌∷◌, arith, ◌==◌, Bool-cases,
  length, ==_refl, ==_iff, false, ok, Returns, ◌>>=◌, ◌^◌,
}
use cabbage_pke.Pmm.{RefUnit, unit, Refs, max_refs, Pmm, bad_page, free_page, ref_insert}
use cabbage_pke.Pmm.Search.{pa_at, IsSorted, IsSorted-le}
use cabbage_pke.Pmm.Counts.Effects.{Gained, ref_insert-IsCounted, ref_erase-Lost}
use cabbage_pke.Pmm.Counts.Edits.{refcount, IsCounted, IsSorted-tail, refcount-absent}

refcount_before :
    (q : ℕ) (v : RefUnit) (vs : Refs) → IsSorted (v ∷ vs) → q < v.pa → refcount q (v ∷ vs) ≡ 0
refcount_before q v vs s h =
    refcount-absent q (v ∷ vs) (λ i l e. omega (arith, IsSorted-le (v ∷ vs) s 0 i (omega arith) l))

refcount_past : (v : RefUnit) (vs : Refs) → IsSorted (v ∷ vs) → refcount v.pa vs ≡ 0
refcount_past v vs s =
    refcount-absent v.pa vs (λ i l e. omega (arith, s 0 (suc i) (omega arith) (omega arith)))

tail-IsCounted : (u : RefUnit) (us : Refs) → IsCounted (u ∷ us) → IsCounted us
tail-IsCounted u us c = record {
  sorted = IsSorted-tail u us c.sorted;
  positive = λ i h. c.positive (suc i) (omega arith);
  bounded = λ i h. c.bounded (suc i) (omega arith);
}

head_ref : (u : RefUnit) (us : Refs) → IsCounted (u ∷ us) → 0 < u.ref
head_ref u us c = c.positive 0 (omega arith)

head_refcount : (u : RefUnit) (us : Refs) → refcount u.pa (u ∷ us) ≡ u.ref
head_refcount u us = rw (==_refl u.pa) refl

same_unit : (u v : RefUnit) → u.pa ≡ v.pa → u.ref ≡ v.ref → u ≡ v
same_unit u v e e' = ap (λ p. unit p u.ref) e ∙ ap (unit v.pa) e'

-- Two lists that are in order and count the same references to every page are the same.
pub refcount_unique :
    (us vs : Refs)
    → IsCounted us
    → IsCounted vs
    → ((q : ℕ) → refcount q us ≡ refcount q vs)
    → us ≡ vs
refcount_unique [] [] c d same = refl
refcount_unique [] (v ∷ vs) c d same =
    absurd (omega (arith, head_ref v vs d, same v.pa ∙ head_refcount v vs))
refcount_unique (u ∷ us) [] c d same =
    absurd (omega (arith, head_ref u us c, sym (same u.pa) ∙ head_refcount u us))
refcount_unique (u ∷ us) (v ∷ vs) c d same =
    ap (λ x. x ∷ us) (same_unit u v place number)
    ∙ ap (λ xs. v ∷ xs) (refcount_unique us vs (tail-IsCounted u us c) (tail-IsCounted v vs d) rest)
  where
    not_before : u.pa < v.pa → ⊥
    not_before h = omega (
      arith,
      head_ref u us c,
      sym (head_refcount u us) ∙ same u.pa ∙ refcount_before u.pa v vs d.sorted h,
    )

    not_behind : v.pa < u.pa → ⊥
    not_behind h = omega (
      arith,
      head_ref v vs d,
      sym (head_refcount v vs) ∙ sym (same v.pa) ∙ refcount_before v.pa u us c.sorted h,
    )

    place : u.pa ≡ v.pa
    place = grind (arith, not_before, not_behind)

    number : u.ref ≡ v.ref
    number =
        sym (head_refcount u us)
        ∙ same u.pa
        ∙ subst (λ p. refcount p (v ∷ vs) ≡ v.ref) (sym place) (head_refcount v vs)

    rest : (q : ℕ) → refcount q us ≡ refcount q vs
    rest q = ground (arith, same q, refcount_past u us c.sorted, refcount_past v vs d.sorted, place)

counted_at : (q : ℕ) (us : Refs) → 0 < refcount q us → (i : ℕ) × (i < length us) × (pa_at us i ≡ q)
counted_at q [] h = absurd (omega arith)
counted_at q (u ∷ us) h = elim (Bool-cases (u.pa == q)) [
  | inl e ↦ (0, omega arith, (==_iff u.pa q).0 e)
  | inr e ↦ let (i, low, at) = counted_at q us (ground arith) in (suc i, omega arith, at)
]

module _ (s : Pmm) (pa : ℕ) (counted : IsCounted s.refs) where
  -- One more reference to a page that is counted can be counted.
  pub ref_insert_again :
      0 < refcount pa s.refs
      → refcount pa s.refs + 1 < 2 ^ 64
      → length s.refs < max_refs
      → Returns (ref_insert s.refs pa) λ vs. Gained s.refs pa counted vs × IsCounted vs
  ref_insert_again used more room =
      let (i, low, at) = counted_at pa s.refs used in
      ref_insert-IsCounted s.refs pa counted more room (inr (i, low, omega arith))

  -- A reference that is taken on top of others and given back leaves the pool as it was.
  pub free_page-ref_insert :
      (vs : Refs)
      → Gained s.refs pa counted vs
      → IsCounted vs
      → bad_page s pa ≡ false
      → 0 < refcount pa s.refs
      → free_page (record s { refs = vs }) pa ≡ ok s
  unfolding free_page bad_page
  free_page-ref_insert vs gained ordered good used =
      let ((ws, code), e, (lost, again, last)) = ref_erase-Lost vs pa ordered in
      let more : refcount pa vs ≡ refcount pa s.refs + 1 = ground (arith, gained pa) in
      let kept : code ≡ 0 = ground arith in
      let same : ws ≡ s.refs =
        refcount_unique ws s.refs again counted (λ q. ground (arith, lost q, gained q)) in
      rw (good, e, ◌>>=◌, kept) (ap (λ refs. ok (record s { refs = refs })) same)

-- ===== src/Symbols/Tally.antt =====
-- How many entries in front of an index pass a test: what a sort keeps.
use cabbage_pke.Common.{
  ℕ, zero, suc, ◌+◌, ◌≤◌, ◌<◌, ◌≡◌, inl, inr, refl, sym, ap, subst, Bool, true, false, arith, ◌==◌,
  if◌then◌else◌, Bool-cases, ==_refl, ne→==,
}
use cabbage_pke.Symbols.{Entry, set}

abbrev pub bit : Bool → ℕ
bit b = if b then 1 else 0

pub tally : (Entry → Bool) → (ℕ → Entry) → ℕ → ℕ
tally p a zero = 0
tally p a (suc n) = tally p a n + bit (p (a n))

pub equal : (i j : ℕ) → (i == j) ≡ true → i ≡ j
equal i j e = ground arith

module _ (p : Entry → Bool) where
  pub tally_same :
      (a b : ℕ → Entry) (n : ℕ) → ((m : ℕ) → m < n → a m ≡ b m) → tally p a n ≡ tally p b n
  unfolding tally
  tally_same a b zero h = refl
  tally_same a b (suc n) h =
      rw (h n (omega arith), tally_same a b n (λ m l. h m (omega arith))) refl

  -- A tally that agrees up to `n` agrees further on where the entries do.
  pub tally_further :
      (a b : ℕ → Entry) (n over : ℕ)
      → n ≤ over
      → tally p a n ≡ tally p b n
      → ((m : ℕ) → n ≤ m → m < over → a m ≡ b m)
      → tally p a over ≡ tally p b over
  unfolding tally
  tally_further a b n zero le h same = refl
  tally_further a b n (suc over) le h same = elim (Bool-cases (n == suc over)) [
    | inl e ↦ subst (λ z. tally p a z ≡ tally p b z) (equal n (suc over) e) h
    | inr e ↦
        rw
          (
            same over (ground arith) (omega arith),
            tally_further a b n over (ground arith) h (λ m l l'. same m l (omega arith)),
          )
          refl
  ]

  pub tally-set :
      (a : ℕ → Entry) (i n : ℕ) (e : Entry)
      → i < n
      → tally p (set a i e) n + bit (p (a i)) ≡ tally p a n + bit (p e)
  unfolding tally
  tally-set a i zero e h = absurd (omega arith)
  tally-set a i (suc n) e h = elim (Bool-cases (i == n)) [
    | inl same ↦
        subst
          (λ z.
            tally p (set a z e) n + bit (p (set a z e n)) + bit (p (a z))
            ≡ tally p a n + bit (p (a n)) + bit (p e))
          (sym (equal i n same))
          (rw
            (==_refl n, tally_same (set a n e) a n (λ m l. rw (ne→== n m (λ q. omega arith)) refl))
            (omega arith))
    | inr other ↦ rw other (omega (arith, tally-set a i n e (ground arith)))
  ]

  -- Where no entry from `l` on passes the test, the tally stands still, and the other way round.
  pub tally_still :
      (a : ℕ → Entry) (l n : ℕ)
      → l ≤ n
      → ((m : ℕ) → l ≤ m → m < n → p (a m) ≡ false)
      → tally p a n ≡ tally p a l
  unfolding tally
  tally_still a l zero le h = ap (tally p a) {x = 0} {y = l} (omega arith)
  tally_still a l (suc n) le h = elim (Bool-cases (l == suc n)) [
    | inl e ↦ ap (tally p a) (sym (equal l (suc n) e))
    | inr e ↦
        rw (h n (ground arith) (omega arith))
          (omega (arith, tally_still a l n (ground arith) (λ m low high. h m low (omega arith))))
  ]

  tally_mono : (a : ℕ → Entry) (l n : ℕ) → l ≤ n → tally p a l ≤ tally p a n
  unfolding tally
  tally_mono a l zero le = rw (none_left) (omega arith)
    where
      none_left : l ≡ 0
      none_left = omega arith
  tally_mono a l (suc n) le = elim (Bool-cases (l == suc n)) [
    | inl e ↦ rw (equal l (suc n) e) (omega arith)
    | inr e ↦ omega (arith, tally_mono a l n (ground arith))
  ]

  pub tally_still_none :
      (a : ℕ → Entry) (l n : ℕ)
      → tally p a n ≡ tally p a l
      → (m : ℕ) → l ≤ m
      → m < n
      → p (a m) ≡ false
  unfolding tally
  tally_still_none a l n h m low high = elim (Bool-cases (p (a m))) [
    | inl hit ↦
        absurd
          (omega (arith, tally_mono a l m low, counted hit, tally_mono a (suc m) n (omega arith)))
    | inr nothing ↦ nothing
  ]
    where
      counted : p (a m) ≡ true → tally p a (suc m) ≡ tally p a m + 1
      counted hit = rw hit refl

-- ===== src/HashTable/Chain.antt =====
-- One chain of util/hash_table.c: the loops of `defalut_get` and `default_erase`.
use cabbage_pke.Common.{
  ℕ, ◌+◌, ◌≤◌, ◌≡◌, ◌≢◌, ◌⊎◌, refl, inl, inr, Bool, true, none, some, List, [], ◌∷◌, arith,
  if◌then◌else◌, Bool-cases,
}
use cabbage_pke.HashTable.{Node, find, unlink}

-- What the table needs of its two functions: an equivalence of keys, and a hash that respects it.
pub record IsKeyed {K : Type 0} (equal : K → K → Bool) (func : K → ℕ) : Type 0 where
  pub func_congr : (x y : K) → equal x y ≡ true → func x ≡ func y
  pub equal_trans : (x y z : K) → equal x y ≡ true → equal y z ≡ true → equal x z ≡ true
  pub equal_symm : (x y : K) → equal x y ≡ equal y x
  pub equal_refl : (x : K) → equal x x ≡ true

module _ {K : Type 0} where
  abbrev pub count : (K → K → Bool) → K → List (Node K) → ℕ
  count equal q [] = 0
  count equal q (n ∷ c) = (if equal n.key q then 1 else 0) + count equal q c

  -- No node holds NULL, so a lookup that gives NULL has found nothing.
  abbrev pub IsFilled : List (Node K) → Type 0
  IsFilled [] = Unit {0}
  IsFilled (n ∷ c) = (n.value ≢ 0) × IsFilled c

  -- A node of the chain for a key, and its page.
  abbrev pub HoldsPage : (K → K → Bool) → K → List (Node K) → ℕ → Type 0
  HoldsPage equal k [] page = ⊥
  HoldsPage equal k (n ∷ c) page =
      ((equal n.key k ≡ true) × (n.page ≡ page)) ⊎ HoldsPage equal k c page

  module _ (equal : K → K → Bool) (func : K → ℕ) (keyed : IsKeyed equal func) where
    pub equal_congr : (a b c : K) → equal a b ≡ true → equal c a ≡ equal c b
    equal_congr a b c e =
        ground (arith, keyed.equal_symm a b, keyed.equal_trans c a b, keyed.equal_trans c b a)

    pub find-congr :
        (a b : K) (c : List (Node K)) → equal a b ≡ true → find equal a c ≡ find equal b c
    unfolding find
    find-congr a b [] e = refl
    find-congr a b (n ∷ c) e = ground (arith, equal_congr a b n.key e, find-congr a b c e)

    pub count-zero :
        (q : K) (c : List (Node K)) → IsFilled c → find equal q c ≡ 0 → count equal q c ≡ 0
    unfolding find
    count-zero q [] f h = refl
    count-zero q (n ∷ c) f h = ground (arith, count-zero q c)

    pub find-zero : (q : K) (c : List (Node K)) → count equal q c ≡ 0 → find equal q c ≡ 0
    unfolding find
    find-zero q [] h = refl
    find-zero q (n ∷ c) h = ground (arith, find-zero q c)

    pub count-congr :
        (a b : K) (c : List (Node K)) → equal a b ≡ true → count equal a c ≡ count equal b c
    count-congr a b [] e = refl
    count-congr a b (n ∷ c) e = ground (arith, equal_congr a b n.key e, count-congr a b c e)

    pub IsFilled-unlink : (k : K) (c : List (Node K)) → IsFilled c → IsFilled (unlink equal k c).1
    unfolding unlink
    IsFilled-unlink k [] f = tt
    IsFilled-unlink k (n ∷ c) f = elim (Bool-cases (equal n.key k)) [
      | inl e ↦ rw e f.1
      | inr e ↦ rw e (f.0, IsFilled-unlink k c f.1)
    ]

    pub count-unlink :
        (k q : K) (c : List (Node K)) → count equal q (unlink equal k c).1 ≤ count equal q c
    unfolding unlink
    count-unlink k q [] = omega arith
    count-unlink k q (n ∷ c) = ground (arith, count-unlink k q c)

    -- Without the unlinked node the key is gone, and every other key reads as before.
    pub find-unlink :
        (k q : K) (c : List (Node K))
        → count equal k c ≤ 1
        → find equal q (unlink equal k c).1 ≡ (if equal k q then 0 else find equal q c)
    unfolding find unlink
    find-unlink k q [] h = ground arith
    find-unlink k q (n ∷ c) h = ground (
      arith,
      find-unlink k q c,
      find-zero k c,
      find-congr k q c,
      equal_congr k q n.key,
      keyed.equal_symm n.key k,
      keyed.equal_trans k n.key q,
    )

    pub unlink-none :
        (k : K) (c : List (Node K)) → (unlink equal k c).0 ≡ none → count equal k c ≡ 0
    unfolding unlink
    unlink-none k [] h = refl
    unlink-none k (n ∷ c) h = ground (arith, unlink-none k c)

    pub unlink-some :
        (k : K) (c : List (Node K)) (page : ℕ)
        → IsFilled c
        → (unlink equal k c).0 ≡ some page
        → find equal k c ≢ 0
    unfolding unlink find
    unlink-some k [] page f h = absurd (ground arith)
    unlink-some k (n ∷ c) page f h = elim (Bool-cases (equal n.key k)) [
      | inl e ↦ rw e f.0
      | inr e ↦ rw e (unlink-some k c page f.1 (rw e at h))
    ]

    pub unlink-HoldsPage :
        (k : K) (c : List (Node K)) (page : ℕ)
        → (unlink equal k c).0 ≡ some page
        → HoldsPage equal k c page
    unfolding unlink
    unlink-HoldsPage k [] page h = absurd (ground arith)
    unlink-HoldsPage k (n ∷ c) page h = elim (Bool-cases (equal n.key k)) [
      | inl e ↦ inl (e, ground arith)
      | inr e ↦ inr (unlink-HoldsPage k c page (rw e at h))
    ]

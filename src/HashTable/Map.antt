-- ===== src/HashTable/Map.antt =====
-- The table of util/hash_table.c as a finite map from keys, up to `virtual_hash_equal`, to pointers.
use cabbage_pke.Common.{
  ℕ, zero, suc, ◌≤◌, ◌<◌, ◌≡◌, ◌≢◌, refl, ◌∙◌, inl, inr, Bool, false, some, List, [], ◌∷◌, arith,
  ok, ◌>>=◌, Returns, ◌==◌, if◌then◌else◌, length, get_elem?, set, replicate, length-set,
  length-replicate, Bool-cases, Option-cases, ne→==, ◌⊎◌,
}
use cabbage_pke.Common.Int.{ℤ, pos, negsuc}
use cabbage_pke.Pmm.{Pmm, alloc_page, free_page}
use cabbage_pke.HashTable.{
  hash_table_size, Node, HashTable, find, get, put, unlink, erase, hash_table_init,
}
use cabbage_pke.HashTable.Chain.{
  IsKeyed, count, IsFilled, find-congr, count-zero, find-zero, count-congr, IsFilled-unlink,
  count-unlink, find-unlink, unlink-none, unlink-some, HoldsPage, unlink-HoldsPage,
}

module _ {K : Type 0} where
  abbrev pub chain_at : List (List (Node K)) → ℕ → List (Node K)
  chain_at [] i = []
  chain_at (c ∷ cs) zero = c
  chain_at (c ∷ cs) (suc i) = chain_at cs i

  get-chain_at :
      (cs : List (List (Node K))) (i : ℕ) → i < length cs → get_elem? cs i ≡ some (chain_at cs i)
  get-chain_at [] i h = elim h [ ]
  get-chain_at (c ∷ cs) zero h = refl
  get-chain_at (c ∷ cs) (suc i) h = get-chain_at cs i (omega arith)

  chain_at-set :
      (cs : List (List (Node K))) (i j : ℕ) (c : List (Node K))
      → i < length cs
      → chain_at (set cs i c) j ≡ (if i == j then c else chain_at cs j)
  chain_at-set [] i j c h = elim h [ ]
  chain_at-set (d ∷ cs) zero zero c h = ground arith
  chain_at-set (d ∷ cs) zero (suc j) c h = ground arith
  chain_at-set (d ∷ cs) (suc i) zero c h = ground arith
  chain_at-set (d ∷ cs) (suc i) (suc j) c h = ground (arith, chain_at-set cs i j c)

  chain_at-replicate : (n i : ℕ) → chain_at (replicate n []) i ≡ []
  chain_at-replicate zero i = refl
  chain_at-replicate (suc n) zero = refl
  chain_at-replicate (suc n) (suc i) = chain_at-replicate n i

  -- The pointer that the table holds for a key; 0 without one.
  abbrev pub view : HashTable K → K → ℕ
  view t q = find t.equal q (chain_at t.chains (t.func q))

  pub record IsValid (t : HashTable K) : Type 0 where
    pub keyed : IsKeyed t.equal t.func
    pub width : length t.chains ≡ hash_table_size
    pub in_width : (k : K) → t.func k < hash_table_size
    pub filled : (i : ℕ) → IsFilled (chain_at t.chains i)
    pub single : (i : ℕ) (k : K) → count t.equal k (chain_at t.chains i) ≤ 1

  module _ (t : HashTable K) (v : IsValid t) where
    pub get-view : (k : K) → get t k ≡ ok (view t k)
    unfolding get
    get-view k = rw (get-chain_at t.chains (t.func k) (omega (arith, v.in_width k, v.width)), get)

    module _ (k : K) where
      here : List (Node K)
      here = chain_at t.chains (t.func k)

      abbrev with_chain : List (Node K) → HashTable K
      with_chain c = record t { chains = set t.chains (t.func k) c }

      replaced :
          (c : List (Node K)) (i : ℕ)
          → chain_at (with_chain c).chains i ≡ (if t.func k == i then c else chain_at t.chains i)
      replaced c i = chain_at-set t.chains (t.func k) i c (omega (arith, v.in_width k, v.width))

      with_chain-IsValid :
          (c : List (Node K))
          → IsFilled c
          → ((q : K) → count t.equal q c ≤ 1)
          → IsValid (with_chain c)
      with_chain-IsValid c full one = record {
        keyed = v.keyed;
        width = length-set t.chains (t.func k) c ∙ v.width;
        in_width = v.in_width;
        filled = λ i. rw (replaced c i) (pick i);
        single = λ i q. rw (replaced c i) (pick_single i q);
      }
        where
          pick : (i : ℕ) → IsFilled (if t.func k == i then c else chain_at t.chains i)
          pick i = elim (Bool-cases (t.func k == i)) [
            | inl e ↦ rw e full
            | inr e ↦ rw e (v.filled i)
          ]

          pick_single :
              (i : ℕ) (q : K)
              → count t.equal q (if t.func k == i then c else chain_at t.chains i) ≤ 1
          pick_single i q = elim (Bool-cases (t.func k == i)) [
            | inl e ↦ rw e (one q)
            | inr e ↦ rw e (v.single i q)
          ]

      -- A change of the chain of `k` that only touches keys equal to `k` is an update of the map.
      with_chain-view :
          (c : List (Node K)) (p : ℕ)
          → ((q : K)
              → find t.equal q c
                ≡ (if t.equal k q then p else find t.equal q (chain_at t.chains (t.func k))))
          → (q : K) → view (with_chain c) q ≡ (if t.equal k q then p else view t q)
      with_chain-view c p h q = elim (Bool-cases (t.func k == t.func q)) [
        | inl e ↦
            let same : t.func k ≡ t.func q = ground arith in
            rw (replaced c (t.func q), e) (ground (arith, h q))
        | inr e ↦ rw (replaced c (t.func q), e) (ground (arith, v.keyed.func_congr k q))
      ]

      -- In a valid table, where the pool gives a page that is not NULL, a new key is added with a pointer that is
      -- not NULL, other keys keep theirs, the table stays valid, and the page of the pool is used up.
      pub put_fresh :
          (s s' : Pmm) (page p : ℕ)
          → p ≢ 0
          → alloc_page s ≡ ok (page, s')
          → page ≢ 0
          → view t k ≡ 0
          → Returns (put s t k p) λ (r, s₁, t').
            (r ≡ pos 0)
            × (s₁ ≡ s')
            × IsValid t'
            × ((q : K) → view t' q ≡ (if t.equal k q then p else view t q))
      unfolding put find
      put_fresh s s' page p nonnull taken real absent =
          let c = chain_at t.chains (t.func k) in
          let node : Node K = record { page = page; key = k; value = p } in
          let none_yet = count-zero t.equal t.func v.keyed k c (v.filled (t.func k)) absent in
          let bound : t.func k < length t.chains = omega (arith, v.in_width k, v.width) in
          let usable : (page == 0) ≡ false = ground arith in
          (
            (pos 0, s', with_chain (node ∷ c)),
            rw (taken, ◌>>=◌, get-view k, absent, usable, get-chain_at t.chains (t.func k) bound),
            (
              refl,
              refl,
              with_chain-IsValid (node ∷ c) (nonnull, v.filled (t.func k))
                  (λ q. ground (
                    arith,
                    count-congr t.equal t.func v.keyed k q c,
                    v.single (t.func k) q,
                    none_yet,
                  )),
              with_chain-view (node ∷ c) p (λ q. refl),
            ),
          )

      -- In a valid table, where the pool gives a page, a key that is there already is refused; the page taken for
      -- its node is not given back.
      pub put_taken :
          (s s' : Pmm) (page p : ℕ)
          → alloc_page s ≡ ok (page, s')
          → view t k ≢ 0
          → put s t k p ≡ ok (negsuc 0, s', t)
      unfolding put
      put_taken s s' page p taken present =
          let old : (view t k == 0) ≡ false = ne→== (view t k) 0 present in
          rw (taken, ◌>>=◌, get-view k, old)

      -- The outcomes of `erase`: the key's node goes back to the pool, or there was none.
      abbrev pub Erased : Pmm → ℤ × Pmm × HashTable K → Type 0
      Erased s (r, s', t') =
          IsValid t'
          × ((q : K) → view t' q ≡ (if t.equal k q then 0 else view t q))
          × ((r ≡ pos 0)
                × (view t k ≢ 0)
                × ((page : ℕ) × HoldsPage t.equal k (chain_at t.chains (t.func k)) page
                    × (free_page s page ≡ ok s'))
              ⊎ (r ≡ negsuc 0) × (view t k ≡ 0) × (s' ≡ s))

      -- In a valid table, where the key's node, if there is one, stands in a page that can be freed, `erase` ends:
      -- it removes the key and frees the page in which that node stands, or reports that the key was not there and
      -- leaves the pool alone; the table stays valid and other keys keep what they had.
      pub erase-Erased :
          (s : Pmm)
          → ((page : ℕ)
              → HoldsPage t.equal k (chain_at t.chains (t.func k)) page
              → (s' : Pmm) × (free_page s page ≡ ok s'))
          → Returns (erase s t k) (Erased s)
      unfolding erase
      erase-Erased s frees = elim (Option-cases (unlink t.equal k c).0) [
        | inl e ↦
            let gone = unlink-none t.equal t.func v.keyed k c e in
            let unread = find-zero t.equal t.func v.keyed k c gone in
            (
              (negsuc 0, s, t),
              rw (get-chain_at t.chains (t.func k) bound, erase, e),
              (
                v,
                λ q.
                    ground (arith, v.keyed.func_congr k q, find-congr t.equal t.func v.keyed k q c),
                inr (refl, unread, refl),
              ),
            )
        | inr (page, e) ↦
            let held = unlink-HoldsPage t.equal t.func v.keyed k c page e in
            let (s', run) = frees page held in
            (
              (pos 0, s', with_chain (unlink t.equal k c).1),
              rw (get-chain_at t.chains (t.func k) bound, erase, e, run),
              (
                with_chain-IsValid (unlink t.equal k c).1
                    (IsFilled-unlink t.equal t.func v.keyed k c (v.filled (t.func k)))
                    (λ q.
                      omega
                        (arith, count-unlink t.equal t.func v.keyed k q c, v.single (t.func k) q)),
                with_chain-view (unlink t.equal k c).1 0
                    (λ q. find-unlink t.equal t.func v.keyed k q c (v.single (t.func k) k)),
                inl (
                  refl,
                  unlink-some t.equal t.func v.keyed k c page (v.filled (t.func k)) e,
                  (page, held, run),
                ),
              ),
            )
      ]
        where
          c : List (Node K)
          c = chain_at t.chains (t.func k)

          bound : t.func k < length t.chains
          bound = omega (arith, v.in_width k, v.width)

  -- For an equivalence of keys and a hash within the table that respects it, `hash_table_init` makes a valid
  -- empty map.
  pub hash_table_init-IsValid :
      (same equal : K → K → Bool) (func : K → ℕ) (t : HashTable K)
      → IsKeyed equal func
      → ((k : K) → func k < hash_table_size)
      → let (r, t') = hash_table_init same (some equal) (some func) t in
        (r ≡ pos 0) × IsValid t' × ((q : K) → view t' q ≡ 0)
  unfolding hash_table_init find
  hash_table_init-IsValid same equal func t keyed small = (
    refl,
    record {
      keyed = keyed;
      width = length-replicate {A = List (Node K)} hash_table_size [];
      in_width = small;
      filled = λ i. rw (chain_at-replicate hash_table_size i) tt;
      single = λ i k. rw (chain_at-replicate hash_table_size i) (omega arith);
    },
    λ q. rw (chain_at-replicate hash_table_size (func q)),
  )

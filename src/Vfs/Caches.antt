-- ===== src/Vfs/Caches.antt =====
-- The caches of kernel/vfs.c as maps: their functions on keys are what the hash table asks for.
use cabbage_pke.Common.{
  ℕ, ◌%◌, ◌≡◌, ◌≢◌, refl, sym, ◌∙◌, ap, true, false, ◌&&◌, List, [], ◌∷◌, arith, Run, ok, ◌>>=◌,
  Returns, ◌==◌, if◌then◌else◌, ne→==,
}
use cabbage_pke.Common.Int.{pos}
use cabbage_pke.Pmm.{Pmm, alloc_page}
use cabbage_pke.HashTable.{HashTable, hash_table_size, put}
use cabbage_pke.HashTable.Chain.{IsKeyed}
use cabbage_pke.HashTable.Map.{view, IsValid, get-view, put_fresh}
use cabbage_pke.Vfs.{
  DentryKey, same_bytes, dentry_hash_equal, mix, mix_all, dentry_hash_func, vinode_hash_equal,
  vinode_hash_func, hash_get_dentry, hash_put_dentry,
}

same_bytes_refl : (xs : List ℕ) → same_bytes xs xs ≡ true
same_bytes_refl [] = refl
same_bytes_refl (x ∷ xs) = ground (arith, same_bytes_refl xs)

same_bytes_comm : (xs ys : List ℕ) → same_bytes xs ys ≡ same_bytes ys xs
same_bytes_comm [] [] = refl
same_bytes_comm [] (y ∷ ys) = refl
same_bytes_comm (x ∷ xs) [] = refl
same_bytes_comm (x ∷ xs) (y ∷ ys) = ground (arith, same_bytes_comm xs ys)

same_bytes_trans :
    (xs ys zs : List ℕ)
    → same_bytes xs ys ≡ true
    → same_bytes ys zs ≡ true
    → same_bytes xs zs ≡ true
same_bytes_trans [] [] zs h h' = h'
same_bytes_trans [] (y ∷ ys) zs h h' = ground arith
same_bytes_trans (x ∷ xs) [] zs h h' = ground arith
same_bytes_trans (x ∷ xs) (y ∷ ys) [] h h' = h'
same_bytes_trans (x ∷ xs) (y ∷ ys) (z ∷ zs) h h' = ground (arith, same_bytes_trans xs ys zs)

mix_all-same_bytes :
    (hash : ℕ) (xs ys : List ℕ) → same_bytes xs ys ≡ true → mix_all hash xs ≡ mix_all hash ys
mix_all-same_bytes hash [] [] h = refl
mix_all-same_bytes hash [] (y ∷ ys) h = ground arith
mix_all-same_bytes hash (x ∷ xs) [] h = ground arith
mix_all-same_bytes hash (x ∷ xs) (y ∷ ys) h =
    ap (λ c. mix_all (mix hash c) xs) (ground arith)
    ∙ mix_all-same_bytes (mix hash y) xs ys (ground arith)

-- Two keys of dentries are the same for the table where name and parent are, which is an equivalence, and
-- their hashes are the same then.
pub dentry-IsKeyed : IsKeyed dentry_hash_equal dentry_hash_func
unfolding dentry_hash_equal dentry_hash_func
dentry-IsKeyed = record {
  equal_refl = λ a. ground (arith, same_bytes_refl a.name);
  equal_symm = λ a b. ground (arith, same_bytes_comm a.name b.name);
  equal_trans = λ a b c h h'. ground (arith, same_bytes_trans a.name b.name c.name);
  func_congr = λ a b h. congr a b h;
}
  where
    congr :
        (a b : DentryKey)
        → same_bytes a.name b.name && (a.parent == b.parent) ≡ true
        → mix (mix_all 5381 a.name) a.parent % hash_table_size
          ≡ mix (mix_all 5381 b.name) b.parent % hash_table_size
    congr a b h =
        ap (λ m. mix m a.parent % hash_table_size)
          (mix_all-same_bytes 5381 a.name b.name (ground arith))
        ∙ ap (λ p. mix (mix_all 5381 b.name) p % hash_table_size) (ground arith)

pub vinode-IsKeyed : IsKeyed vinode_hash_equal vinode_hash_func
unfolding vinode_hash_equal vinode_hash_func
vinode-IsKeyed = record {
  equal_refl = λ a. ground arith;
  equal_symm = λ a b. ground arith;
  equal_trans = λ a b c h h'. ground arith;
  func_congr = λ a b h. ground arith;
}

-- In a valid dentry cache, where the pool gives two pages that are not NULL, a dentry whose key is new is
-- put there without failure, and is what the cache gives for its parent and name; every other key keeps its
-- dentry, and the cache stays valid.
pub hash_put_dentry-get :
    (s s₁ s₂ : Pmm) (page page' dentry parent : ℕ) (name : List ℕ) (t : HashTable DentryKey)
    → IsValid t
    → t.equal ≡ dentry_hash_equal
    → dentry ≢ 0
    → page ≢ 0
    → page' ≢ 0
    → alloc_page s ≡ ok (page, s₁)
    → alloc_page s₁ ≡ ok (page', s₂)
    → hash_get_dentry t parent name ≡ ok 0
    → Returns
        (hash_put_dentry s t dentry (record { parent = parent; name = name }))
        (λ (ret, s', t').
          (ret ≡ pos 0)
          × (s' ≡ s₂)
          × IsValid t'
          × (hash_get_dentry t' parent name ≡ ok dentry)
          × ((q : DentryKey)
              → dentry_hash_equal (record { parent = parent; name = name }) q ≡ false
              → view t' q ≡ view t q))
unfolding hash_put_dentry hash_get_dentry
hash_put_dentry-get s s₁ s₂ page page' dentry parent name t valid eq hd hp hp' a₁ a₂ fresh =
    go (put_fresh t valid key s₁ s₂ page' dentry hd a₂ hp' unread)
  where
    key : DentryKey
    key = record { parent = parent; name = name }

    value_of : Run ℕ → ℕ
    value_of (ok n) = n
    value_of _ = 1

    unread : view t key ≡ 0
    unread = ap value_of (sym (get-view t valid key) ∙ fresh)

    go :
        (Returns (put s₁ t key dentry) λ (r, s', t').
          (r ≡ pos 0)
          × (s' ≡ s₂)
          × IsValid t'
          × ((q : DentryKey) → view t' q ≡ (if t.equal key q then dentry else view t q)))
        → Returns (hash_put_dentry s t dentry key) (λ (ret, s', t').
          (ret ≡ pos 0)
          × (s' ≡ s₂)
          × IsValid t'
          × (hash_get_dentry t' parent name ≡ ok dentry)
          × ((q : DentryKey) → dentry_hash_equal key q ≡ false → view t' q ≡ view t q))
    go ((r, s', t'), run, (er, es, valid', views)) = (
      (pos 0, s', t'),
      rw (a₁, ◌>>=◌, ne→== page 0 hp, run ∙ ap (λ z. ok (z, s', t')) er) refl,
      (
        refl,
        es,
        valid',
        get-view t' valid' key ∙ ap ok (views key ∙ rw (valid.keyed.equal_refl key) refl),
        (λ q h. views q ∙ rw (ap (λ f. f key q) eq ∙ h) refl),
      ),
    )

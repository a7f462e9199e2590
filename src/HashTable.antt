-- ===== src/HashTable.antt =====
-- util/hash_table.c: the chained table of the kernel, with the pages of its nodes.
pub mod Chain
pub mod Map
use cabbage_pke.Common.{
  ℕ, ◌≡◌, Bool, true, false, Option, none, some, List, [], ◌∷◌, Run, ok, fault, ◌>>=◌, ◌==◌, not,
  if◌then◌else◌, get_elem?, set, replicate,
}
use cabbage_pke.Common.Int.{ℤ, pos, negsuc}
use cabbage_pke.Pmm.{Pmm, alloc_page, free_page}

abbrev pub hash_table_size : ℕ
hash_table_size = 128

-- `page` is the node's own address; `value` is a pointer, and 0 is NULL.
pub record Node (K : Type 0) : Type 0 where
  pub page : ℕ
  pub key : K
  pub value : ℕ

-- `chains` are the lists behind `head[0]`, `head[1]`, …; the table also holds its two functions on
-- keys. `virtual_hash_put`, `_get` and `_erase` are the defaults: every caller passes NULL for them.
pub record HashTable (K : Type 0) : Type 0 where
  pub chains : List (List (Node K))
  pub equal : K → K → Bool
  pub func : K → ℕ

module _ {K : Type 0} where
  -- The loop of `defalut_get`.
  unfoldable pub find : (K → K → Bool) → K → List (Node K) → ℕ
  find equal k [] = 0
  find equal k (n ∷ c) = if equal n.key k then n.value else find equal k c

  unfoldable pub get : HashTable K → K → Run ℕ
  get t k = elim (get_elem? t.chains (t.func k)) [ none ↦ fault | some c ↦ ok (find t.equal k c) ]

  -- A page is taken for the node before the key is looked up.
  unfoldable pub put : Pmm → HashTable K → K → ℕ → Run (ℤ × Pmm × HashTable K)
  put s t k v = do
    (page, s') ← alloc_page s
    old ← get t k
    if not (old == 0)
        then ok (negsuc 0, s', t)
        else if page == 0
        then fault
        else elim (get_elem? t.chains (t.func k)) [
          | none ↦ fault
          | some c ↦
              let node : Node K = record { page = page; key = k; value = v } in
              ok (pos 0, s', record t { chains = set t.chains (t.func k) (node ∷ c) })
        ]

  -- The loop of `default_erase`: the node that is unlinked, and the chain without it.
  unfoldable pub unlink : (K → K → Bool) → K → List (Node K) → Option ℕ × List (Node K)
  unlink equal k [] = (none, [])
  unlink equal k (n ∷ c) =
      let rest = unlink equal k c in
      if equal n.key k then (some n.page, c) else (rest.0, n ∷ rest.1)

  unfoldable pub erase : Pmm → HashTable K → K → Run (ℤ × Pmm × HashTable K)
  erase s t k = elim (get_elem? t.chains (t.func k)) [
    | none ↦ fault
    | some c ↦
        let (page, c') = unlink t.equal k c in
        elim page [
          | none ↦ ok (negsuc 0, s, t)
          | some p ↦ do
            s' ← free_page s p
            ok (pos 0, s', record t { chains = set t.chains (t.func k) c' })
        ]
  ]

  -- `equal` and `func` may be NULL; `same` is `default_equal`, the equality of the two pointers.
  unfoldable pub hash_table_init :
      (K → K → Bool) → Option (K → K → Bool) → Option (K → ℕ) → HashTable K → ℤ × HashTable K
  hash_table_init same equal func t =
      let empty : HashTable K = record t { chains = replicate hash_table_size [] } in
      elim func [
        | none ↦ (negsuc 0, empty)
        | some f ↦
            (pos 0, record empty { func = f; equal = elim equal [ none ↦ same | some e ↦ e ] })
      ]

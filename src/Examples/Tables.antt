-- ===== src/Examples/Tables.antt =====
-- The hash table at concrete tables of numbers.
use cabbage_pke.Common.{
  ℕ, inl, inr, ◌%◌, ◌≡◌, refl, sym, subst, ap, Bool, [], ◌∷◌, arith, Run, ok, Returns, ◌==◌,
  if◌then◌else◌, some, set,
}
use cabbage_pke.Common.Int.{ℤ, pos, negsuc}
use cabbage_pke.Pmm.{
  Pmm, unit, ref_insert, ref_erase, ref_find, search, lower, insert_at, remove_at, settle, unbump,
  write, alloc_page, free_page, bad_page,
}
use cabbage_pke.HashTable.{HashTable, find, get, put, erase, hash_table_init}
use cabbage_pke.HashTable.Chain.{IsKeyed, HoldsPage}
use cabbage_pke.HashTable.Map.{
  view, IsValid, chain_at, get-view, put_fresh, put_taken, erase-Erased, Erased,
  hash_table_init-IsValid,
}

abbrev same_key : ℕ → ℕ → Bool
same_key a b = a == b

abbrev bucket : ℕ → ℕ
bucket k = k % 128

keyed : IsKeyed same_key bucket
keyed = record {
  equal_refl = λ a. ground arith;
  equal_symm = λ a b. ground arith;
  equal_trans = λ a b c. ground arith;
  func_congr = λ a b h. ground arith;
}

abbrev blank : HashTable ℕ
blank = record { chains = []; equal = same_key; func = bucket }

-- The table after its initialisation.
abbrev empty : HashTable ℕ
empty = (hash_table_init same_key (some same_key) (some bucket) blank).1

hash_table_init-IsValid_example :
    let (r, t') = hash_table_init same_key (some same_key) (some bucket) blank in
    (r ≡ pos 0) × IsValid t' × ((q : ℕ) → view t' q ≡ 0)
hash_table_init-IsValid_example =
    hash_table_init-IsValid same_key same_key bucket blank keyed (λ k. omega arith)

empty-IsValid : IsValid empty
empty-IsValid = (hash_table_init-IsValid same_key same_key bucket blank keyed (λ k. omega arith)).1

get-view_example : get empty 130 ≡ ok (view empty 130)
get-view_example = get-view empty empty-IsValid 130

abbrev pool : Pmm
pool = record {
  refs = [];
  head = 8192;
  next = λ p. 0;
  free_mem_start_addr = 4096;
  free_mem_end_addr = 16384;
}

abbrev pool' : Pmm
pool' = record pool { refs = unit 8192 1 ∷ []; head = 0 }

put_fresh_example : Returns (put pool empty 130 77) λ (r, s₁, t').
    (r ≡ pos 0)
    × (s₁ ≡ pool')
    × IsValid t'
    × ((q : ℕ) → view t' q ≡ (if same_key 130 q then 77 else view empty q))
unfolding alloc_page ref_insert ref_find search lower insert_at hash_table_init find
put_fresh_example =
    put_fresh empty empty-IsValid 130 pool pool' 8192 77 (omega arith) refl (omega arith) refl

-- 130 and 2 share the bucket; key 130 has the pointer 77.
abbrev full : HashTable ℕ
full = record empty {
  chains = set empty.chains 2 (record { page = 8192; key = 130; value = 77 } ∷ []);
}

abbrev table_of : Run (ℤ × Pmm × HashTable ℕ) → HashTable ℕ
table_of (ok (_, _, t)) = t
table_of _ = blank

full-IsValid : IsValid full
unfolding alloc_page ref_insert ref_find search lower insert_at hash_table_init find put get
full-IsValid =
    let (_, run, (_, _, valid, _)) =
      put_fresh empty empty-IsValid 130 pool pool' 8192 77 (omega arith) refl (omega arith) refl in
    subst IsValid (ap table_of (sym run)) valid

put_taken_example : put pool full 130 78 ≡ ok (negsuc 0, pool', full)
unfolding alloc_page ref_insert ref_find search lower insert_at hash_table_init find
put_taken_example = put_taken full full-IsValid 130 pool pool' 8192 78 refl (omega arith)

-- The pool after the node's page came back.
abbrev freed : Pmm
freed = record pool' { refs = []; next = write pool'.next 8192 0; head = 8192 }

-- The chain of 130 has one node, and it stands in the page at 8192.
held :
    (page : ℕ) → HoldsPage full.equal 130 (chain_at full.chains (full.func 130)) page → 8192 ≡ page
unfolding hash_table_init
held page (inl (_, at)) = at
held page (inr impossible) = absurd impossible

frees :
    (page : ℕ)
    → HoldsPage full.equal 130 (chain_at full.chains (full.func 130)) page
    → (s' : Pmm) × (free_page pool' page ≡ ok s')
unfolding free_page bad_page ref_erase search settle unbump remove_at
frees page h = (freed, subst (λ p. free_page pool' p ≡ ok freed) (held page h) refl)

erase-Erased_example : Returns (erase pool' full 130) (Erased full full-IsValid 130 pool')
erase-Erased_example = erase-Erased full full-IsValid 130 pool' frees

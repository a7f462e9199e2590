-- ===== src/Examples/Caches.antt =====
-- The dentry cache with one entry.
use cabbage_pke.Common.{◌≡◌, refl, false, some, [], ◌∷◌, arith, ok, Returns, ◌==◌, if◌then◌else◌}
use cabbage_pke.Common.Int.{pos}
use cabbage_pke.Pmm.{Pmm, unit, alloc_page, ref_insert, ref_find, search, lower, insert_at}
use cabbage_pke.HashTable.{HashTable, find, get, hash_table_init}
use cabbage_pke.HashTable.Map.{view, IsValid, hash_table_init-IsValid}
use cabbage_pke.Vfs.{
  DentryKey, dentry_hash_equal, dentry_hash_func, hash_get_dentry, hash_put_dentry,
}
use cabbage_pke.Vfs.Caches.{dentry-IsKeyed, hash_put_dentry-get}

abbrev blank : HashTable DentryKey
blank = record { chains = []; equal = dentry_hash_equal; func = dentry_hash_func }

abbrev pub cache : HashTable DentryKey
cache = (hash_table_init dentry_hash_equal (some dentry_hash_equal) (some dentry_hash_func) blank).1

pub cache-IsValid : IsValid cache
unfolding dentry_hash_func
cache-IsValid =
    (hash_table_init-IsValid dentry_hash_equal dentry_hash_equal dentry_hash_func blank
      dentry-IsKeyed (λ k. omega arith)).1

abbrev pub pool : Pmm
pool = record {
  refs = [];
  head = 8192;
  next = λ p. if p == 8192 then 4096 else 0;
  free_mem_start_addr = 4096;
  free_mem_end_addr = 16384;
}

abbrev pub pool₁ : Pmm
pool₁ = record pool { refs = unit 8192 1 ∷ []; head = 4096 }

abbrev pub pool₂ : Pmm
pool₂ = record pool { refs = unit 4096 1 ∷ unit 8192 1 ∷ []; head = 0 }

hash_put_dentry-get_example :
    Returns
      (hash_put_dentry pool cache 77 (record { parent = 9; name = 97 ∷ 98 ∷ [] }))
      (λ (ret, s', t').
        (ret ≡ pos 0)
        × (s' ≡ pool₂)
        × IsValid t'
        × (hash_get_dentry t' 9 (97 ∷ 98 ∷ []) ≡ ok 77)
        × ((q : DentryKey)
            → dentry_hash_equal (record { parent = 9; name = 97 ∷ 98 ∷ [] }) q ≡ false
            → view t' q ≡ view cache q))
unfolding alloc_page ref_insert ref_find search lower insert_at hash_get_dentry get find
    hash_table_init dentry_hash_func
hash_put_dentry-get_example =
    hash_put_dentry-get pool pool₁ pool₂ 8192 4096 77 9 (97 ∷ 98 ∷ []) cache cache-IsValid refl
      (omega arith) (omega arith) (omega arith) refl refl refl

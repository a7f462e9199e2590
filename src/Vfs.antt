-- ===== src/Vfs.antt =====
-- The caches of kernel/vfs.c: dentries by parent and name, and vinodes by super block and inode number,
-- in hash tables. A dentry, a vinode and a super block are pointers, and a key is the value of its page.
pub mod Caches
pub mod Objects
pub mod Paths
pub mod Files
pub mod Links
pub mod Dirs
pub mod Ram
use cabbage_pke.Common.{
  ℕ, zero, suc, ◌+◌, ◌*◌, ◌%◌, ◌^◌, Bool, true, false, ◌&&◌, List, [], ◌∷◌, Run, ok, fault, ◌>>=◌,
  ltb, ◌==◌, if◌then◌else◌,
}
use cabbage_pke.Common.Int.{ℤ, pos, negsuc}
use cabbage_pke.Pmm.{Pmm, alloc_page, free_page}
use cabbage_pke.HashTable.{HashTable, hash_table_size, get, put, erase}

pub record DentryKey : Type 0 where
  pub parent : ℕ
  pub name : List ℕ

pub record VinodeKey : Type 0 where
  pub sb : ℕ
  pub inum : ℕ

-- `strcmp` of two names gives 0.
abbrev pub same_bytes : List ℕ → List ℕ → Bool
same_bytes [] [] = true
same_bytes [] (y ∷ ys) = false
same_bytes (x ∷ xs) [] = false
same_bytes (x ∷ xs) (y ∷ ys) = (x == y) && same_bytes xs ys

unfoldable pub dentry_hash_equal : DentryKey → DentryKey → Bool
dentry_hash_equal a b = same_bytes a.name b.name && (a.parent == b.parent)

-- `hash * 33 + c`, in 64 bits.
abbrev pub mix : ℕ → ℕ → ℕ
mix hash c = (hash * 32 + hash + c) % 2 ^ 64

abbrev pub mix_all : ℕ → List ℕ → ℕ
mix_all hash [] = hash
mix_all hash (c ∷ cs) = mix_all (mix hash c) cs

unfoldable pub dentry_hash_func : DentryKey → ℕ
dentry_hash_func k = mix (mix_all 5381 k.name) k.parent % hash_table_size

unfoldable pub vinode_hash_equal : VinodeKey → VinodeKey → Bool
vinode_hash_equal a b = (a.inum == b.inum) && (a.sb == b.sb)

unfoldable pub vinode_hash_func : VinodeKey → ℕ
vinode_hash_func k = k.inum % hash_table_size

unfoldable pub hash_get_dentry : HashTable DentryKey → ℕ → List ℕ → Run ℕ
hash_get_dentry t parent name = get t (record { parent = parent; name = name })

-- `if (ret != 0) free_page(key)`.
abbrev pub settle_key : {K : Type 0} → ℕ → ℤ × Pmm × HashTable K → Run (ℤ × Pmm × HashTable K)
settle_key page (pos zero, s, t) = ok (pos zero, s, t)
settle_key page (ret, s, t) = free_page s page >>= λ s'. ok (ret, s', t)

-- The page of the key, the put, and the page back where the key is there already.
abbrev pub put_with_key : {K : Type 0} → Pmm → HashTable K → K → ℕ → Run (ℤ × Pmm × HashTable K)
put_with_key s t key value = do
  (page, s₁) ← alloc_page s
  if page == 0 then fault else do done ← put s₁ t key value; settle_key page done

unfoldable pub hash_put_dentry :
    Pmm → HashTable DentryKey → ℕ → DentryKey → Run (ℤ × Pmm × HashTable DentryKey)
hash_put_dentry s t dentry key = put_with_key s t key dentry

-- The page of the key stays taken.
unfoldable pub hash_erase_dentry :
    Pmm → HashTable DentryKey → DentryKey → Run (ℤ × Pmm × HashTable DentryKey)
hash_erase_dentry s t key = erase s t key

-- Inode numbers are not negative here.
unfoldable pub hash_get_vinode : HashTable VinodeKey → ℕ → ℕ → Run ℕ
hash_get_vinode t sb inum = get t (record { sb = sb; inum = inum })

unfoldable pub hash_put_vinode :
    Pmm → HashTable VinodeKey → ℕ → VinodeKey → Run (ℤ × Pmm × HashTable VinodeKey)
hash_put_vinode s t vinode key = put_with_key s t key vinode

unfoldable pub hash_erase_vinode :
    Pmm → HashTable VinodeKey → VinodeKey → Run (ℤ × Pmm × HashTable VinodeKey)
hash_erase_vinode s t key = erase s t key

-- ===== src/Vfs/Paths/Resolve.antt =====
-- Path lookup of kernel/vfs.c against the tree that the dentry cache holds.
use cabbage_pke.Common.{
  ℕ, ◌<◌, ◌≡◌, ◌≢◌, refl, true, false, Option, none, some, List, [], ◌∷◌, inl, inr, arith, ok,
  ◌>>=◌, Returns, lt→leb, ◌==◌, if◌then◌else◌, Bool-cases, ne→==, length,
}
use cabbage_pke.Rfs.Dir.{Name}
use cabbage_pke.HashTable.Map.{view, IsValid, get-view}
use cabbage_pke.Vfs.{same_bytes, hash_get_dentry}
use cabbage_pke.Vfs.Objects.{max_path_len, VinodeOps, World}
use cabbage_pke.Vfs.Paths.{
  dot, dot_dot, tokens, is_absolute, find_name, lookup_token, lookup_tokens, lookup_final_dentry,
}

-- The walk through a tree, where `child d n` is the entry `n` of `d` and `up d` its parent; 0 is none.
abbrev pub resolve : (ℕ → Name → ℕ) → (ℕ → ℕ) → List Name → ℕ → Option ℕ
resolve child up [] d = some d
resolve child up (t ∷ ts) d = elim (same_bytes t dot) [
  | true ↦ resolve child up ts d
  | false ↦ elim (same_bytes t dot_dot) [
    | true ↦ elim (up d == 0) [ true ↦ none | false ↦ resolve child up ts (up d) ]
    | false ↦ elim (child d t == 0) [ true ↦ none | false ↦ resolve child up ts (child d t) ]
  ]
]

none-ne-some : {d : ℕ} → ◌≡◌ {A = Option ℕ} none (some d) → ⊥
none-ne-some e = cc

==_false : (a b : ℕ) → (a == b) ≡ false → a ≢ b
==_false a b e = ground arith

-- The tree of the cached dentries.
abbrev pub cached_child : {F : Type 0} → World F → ℕ → Name → ℕ
cached_child w d n = view w.dentry_table (record { parent = d; name = n })

abbrev pub cached_up : {F : Type 0} → World F → ℕ → ℕ
cached_up w d = (w.dentries d).parent

module _ {F : Type 0} (ops : ℕ → VinodeOps F) (w : World F) (valid : IsValid w.dentry_table) where
  -- One round of the loop goes to `next` and leaves the state.
  abbrev Goes : ℕ → ℕ → Name → ℕ → Type 0
  Goes parent this t next =
      Returns (lookup_token ops w parent this t) (λ f. (f.this ≡ some next) × (f.world ≡ w))

  find_name-cached :
      (parent this : ℕ) (t : Name)
      → (cached_child w this t == 0) ≡ false
      → find_name ops w this t
        ≡ ok (record {
          this = some (cached_child w this t);
          parent = this;
          miss_name = none;
          world = w;
        })
  unfolding find_name hash_get_dentry
  find_name-cached parent this t e =
      rw (get-view w.dentry_table valid (record { parent = this; name = t }), e) refl

  lookup_token-resolve :
      (parent this d : ℕ) (t : Name) (ts : List Name)
      → this ≢ 0
      → resolve (cached_child w) (cached_up w) (t ∷ ts) this ≡ some d
      → (next : ℕ) × (next ≢ 0)
        × Goes parent this t next
        × (resolve (cached_child w) (cached_up w) ts next ≡ some d)
  unfolding lookup_token
  lookup_token-resolve parent this d t ts h e = elim (Bool-cases (same_bytes t dot)) [
    | inl a ↦ (
      this,
      h,
      (
        record { this = some this; parent = parent; miss_name = none; world = w },
        rw a refl,
        (refl, refl),
      ),
      rw (resolve, a) at e,
    )
    | inr a ↦ elim (Bool-cases (same_bytes t dot_dot)) [
      | inl b ↦ elim (Bool-cases ((w.dentries this).parent == 0)) [
        | inl c ↦ absurd (none-ne-some (rw (resolve, a, b, c) at e))
        | inr c ↦ (
          (w.dentries this).parent,
          ==_false (w.dentries this).parent 0 c,
          (
            record {
              this = some (w.dentries this).parent;
              parent = parent;
              miss_name = none;
              world = w;
            },
            rw (a, b, ne→== this 0 h, c) refl,
            (refl, refl),
          ),
          rw (resolve, a, b, c) at e,
        )
      ]
      | inr b ↦ elim (Bool-cases (cached_child w this t == 0)) [
        | inl c ↦ absurd (none-ne-some (rw (resolve, a, b, c) at e))
        | inr c ↦ (
          cached_child w this t,
          ==_false (cached_child w this t) 0 c,
          (
            record {
              this = some (cached_child w this t);
              parent = this;
              miss_name = none;
              world = w;
            },
            rw (a, b) (find_name-cached parent this t c),
            (refl, refl),
          ),
          rw (resolve, a, b, c) at e,
        )
      ]
    ]
  ]

  lookup_tokens-resolve :
      (ts : List Name) (parent this d : ℕ)
      → this ≢ 0
      → resolve (cached_child w) (cached_up w) ts this ≡ some d
      → Returns (lookup_tokens ops ts w parent this) (λ f. (f.this ≡ some d) × (f.world ≡ w))
  unfolding lookup_tokens
  lookup_tokens-resolve [] parent this d h e = (_, refl, (rw (ne→== this 0 h) e, refl))
  lookup_tokens-resolve (t ∷ ts) parent this d h e =
      let (next, h', (f, run, (to, same)), rest) = lookup_token-resolve parent this d t ts h e in
      rw (lookup_tokens, run, ◌>>=◌, to, same) (lookup_tokens-resolve ts f.parent next d h' rest)

  -- Where the tree of the cached dentries leads along the tokens of a path that fits in the array, from the
  -- root or the directory that is given, to a dentry, the lookup gives that dentry and changes nothing.
  pub lookup_final_dentry-resolve :
      (path : List ℕ) (parent d : ℕ)
      → length path < max_path_len
      → (if is_absolute path then w.root else parent) ≢ 0
      → resolve
          (cached_child w)
          (cached_up w)
          (tokens path)
          (if is_absolute path then w.root else parent)
        ≡ some d
      → Returns (lookup_final_dentry ops w path parent) (λ f. (f.this ≡ some d) × (f.world ≡ w))
  unfolding lookup_final_dentry
  lookup_final_dentry-resolve path parent d fits h e = rw (lt→leb max_path_len (length path) fits) (
      lookup_tokens-resolve (tokens path) parent (if is_absolute path then w.root else parent) d h
        e)

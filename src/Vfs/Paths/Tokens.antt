-- ===== src/Vfs/Paths/Tokens.antt =====
-- The tokens of a path of kernel/vfs.c against the names that it was made of.
use cabbage_pke.Common.{
  ℕ, ◌<◌, ◌≡◌, refl, ap, ◌∙◌, false, some, List, [], ◌∷◌, ◌++◌, ok, lt→leb, ◌==◌, length,
}
use mathlib.Core.List.{append_assoc, append-nil}
use cabbage_pke.Rfs.Dir.{Name}
use cabbage_pke.Vfs.Paths.{
  slash, max_path_len, emit, tokens_from, tokens, last_token, get_base_name,
}

abbrev pub HasNoSlash : Name → Type 0
HasNoSlash [] = Unit
HasNoSlash (c ∷ cs) = ((c == slash) ≡ false) × HasNoSlash cs

-- A name of a path: one byte at least, and no slash.
abbrev pub IsName : Name → Type 0
IsName [] = ⊥
IsName (c ∷ cs) = HasNoSlash (c ∷ cs)

abbrev pub AllNames : List Name → Type 0
AllNames [] = Unit
AllNames (n ∷ ns) = IsName n × AllNames ns

-- The absolute path through the names.
abbrev pub path_of : List Name → List ℕ
path_of [] = []
path_of (n ∷ ns) = slash ∷ (n ++ path_of ns)

tokens_from-append :
    (cur n rest : List ℕ) → HasNoSlash n → tokens_from cur (n ++ rest) ≡ tokens_from (cur ++ n) rest
unfolding tokens_from
tokens_from-append cur [] rest h = rw append-nil refl
tokens_from-append cur (c ∷ cs) rest (e, h) =
    rw (tokens_from, e)
      (tokens_from-append (cur ++ c ∷ []) cs rest h
        ∙ ap (λ l. tokens_from l rest) (append_assoc cur (c ∷ []) cs))

IsName→HasNoSlash : (n : Name) → IsName n → HasNoSlash n
IsName→HasNoSlash [] h = absurd h
IsName→HasNoSlash (c ∷ cs) h = h

emit-IsName : (n : Name) (ns : List Name) → IsName n → emit n ns ≡ n ∷ ns
emit-IsName [] ns h = absurd h
emit-IsName (c ∷ cs) ns h = refl

tokens_from-path_of :
    (cur : Name) (ns : List Name) → AllNames ns → tokens_from cur (path_of ns) ≡ emit cur ns
unfolding tokens_from
tokens_from-path_of cur [] h = refl
tokens_from-path_of cur (n ∷ ns) (name, rest) = ap (emit cur) (
    tokens_from-append [] n (path_of ns) (IsName→HasNoSlash n name)
    ∙ tokens_from-path_of n ns rest
    ∙ emit-IsName n ns name)

last_token-append : (ns : List Name) (n : Name) → last_token (ns ++ n ∷ []) ≡ some n
last_token-append [] n = refl
last_token-append (m ∷ []) n = refl
last_token-append (m ∷ o ∷ ns) n = last_token-append (o ∷ ns) n

-- The path through names without a slash is taken apart into those names, and where it fits in the array of
-- `get_base_name`, the base name is the last one.
pub tokens-path_of :
    (ns : List Name) (n : Name)
    → AllNames (ns ++ n ∷ [])
    → length (path_of (ns ++ n ∷ [])) < max_path_len
    → (tokens (path_of (ns ++ n ∷ [])) ≡ ns ++ n ∷ [])
      × (get_base_name (path_of (ns ++ n ∷ [])) ≡ ok n)
unfolding tokens get_base_name
tokens-path_of ns n names fits = (apart, base)
  where
    apart : tokens (path_of (ns ++ n ∷ [])) ≡ ns ++ n ∷ []
    apart = tokens_from-path_of [] (ns ++ n ∷ []) names

    base : get_base_name (path_of (ns ++ n ∷ [])) ≡ ok n
    base =
        rw
          (
            lt→leb max_path_len (length (path_of (ns ++ n ∷ []))) fits,
            apart,
            last_token-append ns n,
          )
          refl

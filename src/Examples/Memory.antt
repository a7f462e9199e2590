-- ===== src/Examples/Memory.antt =====
-- The functions of util/string.c at concrete memories.
use cabbage_pke.Common.{ℕ, ◌≡◌, inr, refl, [], ◌∷◌, arith, ok, Returns, ◌==◌, if◌then◌else◌}
use cabbage_pke.Str.{Mem, memcpy, memmove, memset, strlen, strcmp, strcpy}
use cabbage_pke.Str.Memory.{copied, filled, memcpy-copied, memmove-copied, memset-filled}
use cabbage_pke.Str.Strings.{
  IsStr, Compares, strlen-length, strcmp-Compares, strcpy-copied, strcpy-IsStr,
}

-- "ab" at 100 and "ac" at 200.
abbrev text : Mem
text q =
    if q == 100
    then 97
    else if q == 101
    then 98
    else if q == 200
    then 97
    else if q == 201
    then 99
    else 0

ab-IsStr : IsStr text 100 (97 ∷ 98 ∷ [])
ab-IsStr = (refl, omega arith, (refl, omega arith, refl))

ac-IsStr : IsStr text 200 (97 ∷ 99 ∷ [])
ac-IsStr = (refl, omega arith, (refl, omega arith, refl))

memmove-copied_example : memmove text 101 100 2 102 ≡ copied text 101 100 2 102
memmove-copied_example = memmove-copied text 101 100 2 102

memset-filled_example : memset text 96 300 16 100 ≡ filled text 96 16 44 100
memset-filled_example = memset-filled text 96 300 16 100

memcpy-copied_example : memcpy text 300 100 3 301 ≡ copied text 300 100 3 301
memcpy-copied_example = memcpy-copied text 300 100 3 (inr (omega arith)) 301

strlen-length_example : strlen 3 text 100 ≡ ok 2
strlen-length_example = strlen-length 3 text 100 (97 ∷ 98 ∷ []) ab-IsStr (omega arith)

strcmp-Compares_example : Returns (strcmp 3 text 100 200) (Compares (97 ∷ 98 ∷ []) (97 ∷ 99 ∷ []))
strcmp-Compares_example =
    strcmp-Compares 3 text 100 200 (97 ∷ 98 ∷ []) (97 ∷ 99 ∷ []) ab-IsStr ac-IsStr (omega arith)

strcpy-copied_example :
    Returns (strcpy 3 text 300 100) λ m'. (q : ℕ) → m' q ≡ copied text 300 100 3 q
strcpy-copied_example =
    strcpy-copied 3 text 300 100 (97 ∷ 98 ∷ []) ab-IsStr (inr (omega arith)) (omega arith)

strcpy-IsStr_example :
    Returns (strcpy 3 text 300 100) λ m'. IsStr m' 300 (97 ∷ 98 ∷ []) × IsStr m' 100 (97 ∷ 98 ∷ [])
strcpy-IsStr_example =
    strcpy-IsStr 3 text 300 100 (97 ∷ 98 ∷ []) ab-IsStr (inr (omega arith)) (omega arith)

-- ===== src/Str/Strings.antt =====
-- The string functions of util/string.c on strings that lie in memory with their final 0.
use cabbage_pke.Common.{
  ℕ, zero, suc, ◌+◌, ◌-◌, ◌≤◌, ◌<◌, ◌≡◌, ◌≢◌, ◌⊎◌, ◌↔◌, inl, inr, refl, ap, false, List, [], ◌∷◌,
  arith, ok, Returns, ◌==◌, length, Bool-cases, ◌∙◌,
}
use cabbage_pke.Common.Int.{ℤ, pos, sub_ℕ, sub_ℕ-eq-zero}
use cabbage_pke.Str.{Mem, write, in_range, strlen, strcmp, strcpy}
use cabbage_pke.Str.Memory.{copied}

-- The string `bs` lies at `p`: its bytes, none of them 0, and a 0 behind them.
abbrev pub IsStr : Mem → ℕ → List ℕ → Type 0
IsStr m p [] = m p ≡ 0
IsStr m p (b ∷ bs) = (m p ≡ b) × (b ≢ 0) × IsStr m (suc p) bs

-- With fuel above the length, `strlen` of a string in memory gives its length.
pub strlen-length :
    (fuel : ℕ) (m : Mem) (s : ℕ) (bs : List ℕ)
    → IsStr m s bs
    → length bs < fuel
    → strlen fuel m s ≡ ok (length bs)
unfolding strlen
strlen-length zero m s bs h lt = elim lt [ ]
strlen-length (suc k) m s [] h lt = rw h
strlen-length (suc k) m s (b ∷ bs) h lt =
    let more : (m s == 0) ≡ false = ground arith in
    rw (more, strlen-length k m (suc s) bs h.2 (omega arith))

module _ (k : ℕ) (m : Mem) (a b : ℕ) where
  strcmp_stop : (m a ≡ 0) ⊎ (m a ≢ m b) → strcmp (suc k) m a b ≡ ok (sub_ℕ (m a) (m b))
  unfolding strcmp
  strcmp_stop h = ground arith

  strcmp_more : m a ≢ 0 → m a ≡ m b → strcmp (suc k) m a b ≡ strcmp k m (suc a) (suc b)
  unfolding strcmp
  strcmp_more h e = ground arith

-- What a comparison of `xs` and `ys` may return.
abbrev pub Compares : List ℕ → List ℕ → ℤ → Type 0
Compares xs ys r = (r ≡ pos 0) ↔ (xs ≡ ys)

Compares-cons :
    (x y : ℕ) (xs ys : List ℕ) (r : ℤ) → x ≡ y → Compares xs ys r → Compares (x ∷ xs) (y ∷ ys) r
Compares-cons x y xs ys r e h = (λ z. cc (h.0 z), λ z. h.1 (cc))

Compares-ne : (x y : ℕ) (xs ys : List ℕ) → x ≢ y → Compares (x ∷ xs) (y ∷ ys) (sub_ℕ x y)
Compares-ne x y xs ys h = (λ z. absurd (h (sub_ℕ-eq-zero x y z)), λ z. absurd (h (cc)))

-- On two strings in memory, with fuel above the length of the first, `strcmp` ends, and gives 0 exactly
-- where they are equal.
pub strcmp-Compares :
    (fuel : ℕ) (m : Mem) (a b : ℕ) (xs ys : List ℕ)
    → IsStr m a xs
    → IsStr m b ys
    → length xs < fuel
    → Returns (strcmp fuel m a b) (Compares xs ys)
strcmp-Compares zero m a b xs ys h k lt = elim lt [ ]
strcmp-Compares (suc f) m a b [] [] h k lt =
    (sub_ℕ (m a) (m b), strcmp_stop f m a b (inl h), (λ _. refl, λ _. rw (h, k)))
strcmp-Compares (suc f) m a b [] (y ∷ ys) h k lt = (
  sub_ℕ (m a) (m b),
  strcmp_stop f m a b (inl h),
  (λ e. absurd (k.1 (omega (arith, sub_ℕ-eq-zero (m a) (m b) e))), λ e. cc),
)
strcmp-Compares (suc f) m a b (x ∷ xs) [] h k lt = (
  sub_ℕ (m a) (m b),
  strcmp_stop f m a b (inr (λ e. h.1 (omega arith))),
  (λ e. absurd (h.1 (omega (arith, sub_ℕ-eq-zero (m a) (m b) e))), λ e. cc),
)
strcmp-Compares (suc f) m a b (x ∷ xs) (y ∷ ys) h k lt = elim (Bool-cases (x == y)) [
  | inl e ↦
      let same : x ≡ y = ground arith in
      let (r, run, iff) = strcmp-Compares f m (suc a) (suc b) xs ys h.2 k.2 (omega arith) in
      (
        r,
        strcmp_more f m a b (λ z. h.1 (omega arith)) (omega arith) ∙ run,
        Compares-cons x y xs ys r same iff,
      )
  | inr e ↦
      let other : x ≢ y = ground arith in
      (
        sub_ℕ (m a) (m b),
        strcmp_stop f m a b (inr (λ z. other (omega arith))),
        rw (h.0, k.0) (Compares-ne x y xs ys other),
      )
]

IsStr-write :
    (m : Mem) (d v s : ℕ) (bs : List ℕ)
    → (d < s) ⊎ (s + length bs < d)
    → IsStr m s bs
    → IsStr (write m d v) s bs
IsStr-write m d v s [] apart h = ground arith
IsStr-write m d v s (b ∷ bs) apart h =
    (ground arith, h.1, IsStr-write m d v (suc s) bs (ground arith) h.2)

-- The first byte and then the rest.
copied-suc :
    (m : Mem) (d s n q : ℕ)
    → (d ≤ s) ⊎ (s + n < d)
    → copied (write m d (m s)) (suc d) (suc s) n q ≡ copied m d s (suc n) q
copied-suc m d s n q apart = elim (Bool-cases (d == q)) [
  | inl e ↦
      let front : s + (q - d) ≡ s = ground arith in
      let outside : in_range (suc d) n q ≡ false = ground arith in
      rw (outside, e, front) (ground arith)
  | inr e ↦ elim (Bool-cases (in_range (suc d) n q)) [
    | inl inside ↦
        let next : suc s + (q - suc d) ≡ s + (q - d) = ground arith in
        rw (inside, next) (ground arith)
    | inr outside ↦ rw (outside, e) (ground arith)
  ]
]

-- `strcpy` of a string to a place that does not overlap it copies its bytes and the final 0, and
-- writes nowhere else.
pub strcpy-copied :
    (fuel : ℕ) (m : Mem) (d s : ℕ) (bs : List ℕ)
    → IsStr m s bs
    → (d + length bs < s) ⊎ (s + length bs < d)
    → length bs < fuel
    → Returns (strcpy fuel m d s) λ m'. (q : ℕ) → m' q ≡ copied m d s (suc (length bs)) q
unfolding strcpy
strcpy-copied zero m d s bs h apart lt = elim lt [ ]
strcpy-copied (suc k) m d s [] h apart lt = (
  write m d (m s),
  rw h,
  λ q. elim (Bool-cases (d == q)) [
    | inl e ↦ let front : s + (q - d) ≡ s = ground arith in rw (e, front) (ground arith)
    | inr e ↦ rw e (ground arith)
  ],
)
strcpy-copied (suc k) m d s (b ∷ bs) h apart lt =
    let more : (m s == 0) ≡ false = ground arith in
    let (m', run, all) =
      strcpy-copied k (write m d (m s)) (suc d) (suc s) bs
        (IsStr-write m d (m s) (suc s) bs (ground arith) h.2) (ground arith) (omega arith) in
    (m', rw more run, λ q. all q ∙ copied-suc m d s (suc (length bs)) q (omega arith))

IsStr-congr :
    (m m' : Mem) (p : ℕ) (bs : List ℕ)
    → ((q : ℕ) → p ≤ q → q ≤ p + length bs → m' q ≡ m q)
    → IsStr m p bs
    → IsStr m' p bs
IsStr-congr m m' p [] same h = same p (omega arith) (omega arith) ∙ h
IsStr-congr m m' p (b ∷ bs) same h = (
  same p (omega arith) (omega arith) ∙ h.0,
  h.1,
  IsStr-congr m m' (suc p) bs (λ q l u. same q (omega arith) (omega arith)) h.2,
)

IsStr-copied :
    (m m' : Mem) (d s : ℕ) (bs : List ℕ)
    → ((q : ℕ) → d ≤ q → q ≤ d + length bs → m' q ≡ m (s + (q - d)))
    → IsStr m s bs
    → IsStr m' d bs
IsStr-copied m m' d s [] all h =
    let front : s + (d - d) ≡ s = omega arith in all d (omega arith) (omega arith) ∙ rw front h
IsStr-copied m m' d s (b ∷ bs) all h =
    let front : s + (d - d) ≡ s = omega arith in
    (
      all d (omega arith) (omega arith) ∙ rw front h.0,
      h.1,
      IsStr-copied m m' (suc d) (suc s) bs
          (λ q l u.
            let next : s + (q - d) ≡ suc s + (q - suc d) = omega arith in
            all q (omega arith) (omega arith) ∙ ap m next)
          h.2,
    )

-- With fuel above the length, after a copy to a place that does not overlap the string the destination
-- holds the string, and the source still does.
pub strcpy-IsStr :
    (fuel : ℕ) (m : Mem) (d s : ℕ) (bs : List ℕ)
    → IsStr m s bs
    → (d + length bs < s) ⊎ (s + length bs < d)
    → length bs < fuel
    → Returns (strcpy fuel m d s) λ m'. IsStr m' d bs × IsStr m' s bs
strcpy-IsStr fuel m d s bs h apart lt =
    let (m', run, all) = strcpy-copied fuel m d s bs h apart lt in
    (
      m',
      run,
      (
        IsStr-copied m m' d s bs (λ q l u. ground (arith, all q)) h,
        IsStr-congr m m' s bs (λ q l u. ground (arith, all q)) h,
      ),
    )

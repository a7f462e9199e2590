-- ===== src/Sched/Scan.antt =====
-- The loop of `do_wait` (kernel/process.c) over the children of a process.
use cabbage_pke.Common.{
  ℕ, zero, suc, ◌+◌, ◌≤◌, ◌<◌, ◌≡◌, refl, sym, subst, ap, inl, inr, ◌⊎◌, Bool, true, false, Option,
  arith, ◌==◌, Bool-cases, ==_iff,
}
use cabbage_pke.Sched.{
  is_zombie, Kernel, same_proc, Children, exited, alive, childless, scan_children,
}

-- Process `i` is a child of `me`, and has exited or not.
abbrev pub IsChild : Kernel → Option ℕ → ℕ → Type 0
IsChild k me i = same_proc (k.procs i).parent me ≡ true

abbrev pub IsExited : Kernel → ℕ → Type 0
IsExited k i = is_zombie (k.procs i).status ≡ true

-- What a scan of the processes from `i` on finds; `flag` tells of a child before them.
abbrev pub Scanned : Kernel → Option ℕ → ℕ → ℕ → Bool → Children → Type 0
Scanned k me i n flag (exited c) =
    (i ≤ c)
    × (c < i + n)
    × IsChild k me c
    × IsExited k c
    × ((j : ℕ) → i ≤ j → j < c → IsChild k me j → IsExited k j → ⊥)
Scanned k me i n flag alive =
    ((flag ≡ true) ⊎ ((c : ℕ) × (i ≤ c) × (c < i + n) × IsChild k me c))
    × ((j : ℕ) → i ≤ j → j < i + n → IsChild k me j → IsExited k j → ⊥)
Scanned k me i n flag childless =
    (flag ≡ false) × ((j : ℕ) → i ≤ j → j < i + n → IsChild k me j → ⊥)

at_or_after : (P : ℕ → Type 0) (i j : ℕ) → i ≤ j → P i → (i + 1 ≤ j → P j) → P j
at_or_after P i j h here later = elim (Bool-cases (i == j)) [
  | inl e ↦ subst P ((==_iff i j).0 e) here
  | inr e ↦ later (ground arith)
]

-- A scan from the next process on, with `i` put before it.
widen :
    (n i : ℕ) (k : Kernel) (me : Option ℕ) (flag flag' : Bool) (r : Children)
    → (IsChild k me i → IsExited k i → ⊥)
    → (flag' ≡ true → (flag ≡ true) ⊎ IsChild k me i)
    → (flag' ≡ false → (flag ≡ false) × (IsChild k me i → ⊥))
    → Scanned k me (i + 1) n flag' r
    → Scanned k me i (suc n) flag r
widen n i k me flag flag' (exited c) skip up down (low, high, child, gone, first) = (
  omega arith,
  omega arith,
  child,
  gone,
  (λ j l h. at_or_after (λ j. IsChild k me j → IsExited k j → ⊥) i j l skip (λ l'. first j l' h)),
)
widen n i k me flag flag' alive skip up down (inl e, none_gone) = (
  elim (up e) [ inl e' ↦ inl e' | inr child ↦ inr (i, omega arith, omega arith, child) ],
  (λ j l h.
      at_or_after (λ j. IsChild k me j → IsExited k j → ⊥) i j l skip
        (λ l'. none_gone j l' (omega arith))),
)
widen n i k me flag flag' alive skip up down (inr (c, low, high, child), none_gone) = (
  inr (c, omega arith, omega arith, child),
  (λ j l h.
      at_or_after (λ j. IsChild k me j → IsExited k j → ⊥) i j l skip
        (λ l'. none_gone j l' (omega arith))),
)
widen n i k me flag flag' childless skip up down (e, no_child) = (
  (down e).0,
  (λ j l h.
      at_or_after (λ j. IsChild k me j → ⊥) i j l (down e).1 (λ l'. no_child j l' (omega arith))),
)

module _ (n i : ℕ) (k : Kernel) (me : Option ℕ) (flag : Bool) where
  scan-exited :
      same_proc (k.procs i).parent me ≡ true
      → is_zombie (k.procs i).status ≡ true
      → scan_children (suc n) i k me flag ≡ exited i
  unfolding scan_children
  scan-exited e e' = rw (scan_children, e, e') refl

  scan-alive :
      same_proc (k.procs i).parent me ≡ true
      → is_zombie (k.procs i).status ≡ false
      → scan_children (suc n) i k me flag ≡ scan_children n (i + 1) k me true
  unfolding scan_children
  scan-alive e e' = rw (scan_children, e, e') (ap (scan_children n (i + 1) k me) (rw e refl))

  scan-other :
      same_proc (k.procs i).parent me ≡ false
      → scan_children (suc n) i k me flag ≡ scan_children n (i + 1) k me flag
  unfolding scan_children
  scan-other e = rw (scan_children, e) (ap (scan_children n (i + 1) k me) (rw e refl))

pub clash : (b : Bool) → b ≡ true → b ≡ false → ⊥
clash b h h' = ground arith

pub scan_children-Scanned :
    (n i : ℕ) (k : Kernel) (me : Option ℕ) (flag : Bool)
    → Scanned k me i n flag (scan_children n i k me flag)
unfolding scan_children
scan_children-Scanned zero i k me true = (inl refl, (λ j l h _ _. omega arith))
scan_children-Scanned zero i k me false = (refl, (λ j l h _. omega arith))
scan_children-Scanned (suc n) i k me flag = elim (Bool-cases (same_proc (k.procs i).parent me)) [
  | inl e ↦ elim (Bool-cases (is_zombie (k.procs i).status)) [
    | inl e' ↦
        subst (Scanned k me i (suc n) flag) (sym (scan-exited n i k me flag e e'))
          (omega arith, omega arith, e, e', (λ j l h _ _. omega arith))
    | inr e' ↦ subst (Scanned k me i (suc n) flag) (sym (scan-alive n i k me flag e e')) (
        widen n i k me flag true (scan_children n (i + 1) k me true)
          (λ _ gone. clash (is_zombie (k.procs i).status) gone e') (λ _. inr e)
          (λ h. absurd (clash true refl h)) (scan_children-Scanned n (i + 1) k me true))
  ]
  | inr e ↦ subst (Scanned k me i (suc n) flag) (sym (scan-other n i k me flag e)) (
      widen n i k me flag flag (scan_children n (i + 1) k me flag)
        (λ child _. clash (same_proc (k.procs i).parent me) child e) (λ h. inl h)
        (λ h. (h, (λ child. clash (same_proc (k.procs i).parent me) child e)))
        (scan_children-Scanned n (i + 1) k me flag))
]

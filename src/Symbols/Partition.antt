-- ===== src/Symbols/Partition.antt =====
-- One partition of `quickSort`: the gap moves to the place of the pivot.
use cabbage_pke.Common.{
  ℕ, zero, suc, ◌+◌, ◌-◌, ◌≤◌, ◌<◌, ◌≡◌, ◌≢◌, ◌⊎◌, inl, inr, refl, sym, ◌∙◌, subst, Bool, true,
  false, ◌&&◌, arith, Ends, Ends-mono, ltb, leb, ◌==◌, Bool-cases, ltb→lt, ltb→le, lt→ltb, leb→le,
  ==_refl, ne→==,
}
use cabbage_pke.Symbols.{Entry, value, set, scan_down, scan_up, move, partition}
use cabbage_pke.Symbols.Tally.{bit, tally, tally-set, equal}

-- The scan stops at or in front of `j`, not in front of `i`; what it passed is not below `x`, and it stops in
-- front of `j` or after `i` at an entry below `x`.
abbrev Down : (ℕ → Entry) → ℕ → ℕ → ℕ → ℕ → Type 0
Down a x i j j' =
    (i ≤ j')
    × (j' ≤ j)
    × ((m : ℕ) → j' < m → m ≤ j → x ≤ value (a m))
    × (ltb i j' ≡ true → value (a j') < x)

scan_down-Down : (a : ℕ → Entry) (x i j : ℕ) → i ≤ j → Down a x i j (scan_down a x i j)
unfolding scan_down
scan_down-Down a x i zero le =
    (omega arith, omega arith, (λ m l h. absurd (omega arith)), (λ h. ground arith))
scan_down-Down a x i (suc j) le = elim (Bool-cases (ltb i (suc j) && leb x (value (a (suc j))))) [
  | inr stop ↦ rw stop (le, omega arith, (λ m l h. absurd (omega arith)), (λ h. ground arith))
  | inl on ↦
      let rest = scan_down-Down a x i j (ground arith) in
      rw on (
        rest.0,
        omega (arith, rest.1),
        (λ m l h. elim (Bool-cases (m == suc j)) [
          | inl e ↦ subst (λ z. x ≤ value (a z)) (sym (equal m (suc j) e)) (ground arith)
          | inr e ↦ rest.2 m l (ground arith)
        ]),
        rest.3,
      )
]

abbrev Up : (ℕ → Entry) → ℕ → ℕ → ℕ → ℕ → Type 0
Up a x i j i' =
    (i ≤ i')
    × (i' ≤ j)
    × ((m : ℕ) → i ≤ m → m < i' → value (a m) < x)
    × (ltb i j ≡ true → value (a i) < x → i < i')

scan_up-Up : (k : ℕ) (a : ℕ → Entry) (x i j : ℕ) → i + k ≡ j → Up a x i j (scan_up k a x i j)
unfolding scan_up
scan_up-Up zero a x i j e =
    (omega arith, omega arith, (λ m l h. absurd (omega arith)), (λ h h'. ground arith))
scan_up-Up (suc k) a x i j e = elim (Bool-cases (ltb i j && ltb (value (a i)) x)) [
  | inr stop ↦
      rw stop (omega arith, omega arith, (λ m l h. absurd (omega arith)), (λ h h'. ground arith))
  | inl on ↦
      let rest = scan_up-Up k a x (i + 1) j (omega arith) in
      rw on (
        omega (arith, rest.0),
        rest.1,
        (λ m l h. elim (Bool-cases (i == m)) [
          | inl e' ↦ subst (λ z. value (a z) < x) (equal i m e') (ground arith)
          | inr e' ↦ rest.2 m (ground arith) h
        ]),
        (λ h h'. omega (arith, rest.0)),
      )
]

-- The gap moves from `to` to `from`, and the entry in the gap is `e`.
move-tally :
    (p : Entry → Bool) (a : ℕ → Entry) (to from over : ℕ) (e : Entry) (test : Bool)
    → to < over
    → from < over
    → (test ≡ false → to ≡ from)
    → (test ≡ true → to ≢ from)
    → tally p (set (move test a to from) from e) over ≡ tally p (set a to e) over
move-tally p a to from over e false ht hf same apart =
    subst (λ z. tally p (set a z e) over ≡ tally p (set a to e) over) (same refl) refl
move-tally p a to from over e true ht hf same apart =
    let first = tally-set p a to over (a from) ht in
    let second = tally-set p (set a to (a from)) from over e hf in
    let direct = tally-set p a to over e ht in
    let read : bit (p (set a to (a from) from)) ≡ bit (p (a from)) =
      rw (ne→== to from (apart refl)) refl in
    omega (arith, first, second, direct, read)

move_other : (test : Bool) (a : ℕ → Entry) (to from m : ℕ) → m ≢ to → move test a to from m ≡ a m
move_other true a to from m h = rw (ne→== to m (λ e. h (sym e))) refl
move_other false a to from m h = refl

-- The gap at `i` with the rest of the range up to `j` still to be looked at.
abbrev pub IsGap : ℕ → ℕ → ℕ → (ℕ → Entry) → ℕ → ℕ → Type 0
IsGap l over x a i j =
    (l ≤ i)
    × (i ≤ j)
    × (j < over)
    × ((m : ℕ) → l ≤ m → m < i → value (a m) < x)
    × ((m : ℕ) → j < m → m < over → x ≤ value (a m))

-- With the gap from `i` to `i'`, and with `e` in it, the entries in front of `over` are the same; those
-- outside of the range from `l` to `over` stay in their places.
abbrev pub Kept : ℕ → ℕ → Entry → (ℕ → Entry) → ℕ → (ℕ → Entry) → ℕ → Type 0
Kept l over e a i a' i' =
    ((p : Entry → Bool) → tally p (set a' i' e) over ≡ tally p (set a i e) over)
    × ((m : ℕ) → (m < l) ⊎ (over ≤ m) → a' m ≡ a m)

module _ (l over x : ℕ) (e : Entry) (a : ℕ → Entry) (i j : ℕ) where
  abbrev down : ℕ
  down = scan_down a x i j

  abbrev filled : ℕ → Entry
  filled = move (ltb i down) a i down

  abbrev up : ℕ
  up = scan_up (down - i) filled x i down

  abbrev round : ℕ → Entry
  round = move (ltb up down) filled down up

  round-Down : i ≤ j → Down a x i j down
  round-Down le = scan_down-Down a x i j le

  round-Up : i ≤ j → Up filled x i down up
  round-Up le = scan_up-Up (down - i) filled x i down (omega (arith, (round-Down le).0))

  filled_first : i < down → filled i ≡ a down
  filled_first h = rw (lt→ltb i down h, ==_refl i) refl

  filled_other : (m : ℕ) → m ≢ i → filled m ≡ a m
  filled_other m h = move_other (ltb i down) a i down m h

  round_other : (m : ℕ) → m ≢ down → round m ≡ filled m
  round_other m h = move_other (ltb up down) filled down up m h

  round-IsGap : IsGap l over x a i j → IsGap l over x round up down
  round-IsGap (low, le, high, left, right) =
      let d = round-Down le in
      let u = round-Up le in
      (
        omega (arith, u.0),
        u.1,
        omega (arith, d.1),
        (λ m lm mu.
            subst (λ z. value z < x) (sym (round_other m (λ q. omega (arith, u.1))))
              (elim (Bool-cases (ltb m i)) [
                | inl before ↦
                    subst (λ z. value z < x)
                      (sym (filled_other m (λ q. omega (arith, ltb→lt m i before))))
                      (left m lm (ltb→lt m i before))
                | inr after ↦ u.2 m (ltb→le m i after) mu
              ])),
        (λ m dm mo.
            subst (λ z. x ≤ value z)
              (sym (round_other m (λ q. omega arith) ∙ filled_other m (λ q. omega (arith, d.0))))
              (elim (Bool-cases (leb m j)) [
                | inl inside ↦ d.2 m dm (leb→le m j inside)
                | inr outside ↦ right m (ground arith) mo
              ])),
      )

  round-Kept : IsGap l over x a i j → Kept l over e a i round up
  round-Kept (low, le, high, left, right) =
      let d = round-Down le in
      let u = round-Up le in
      (
        (λ p.
            move-tally p filled down up over e (ltb up down) (omega (arith, d.1))
              (omega (arith, d.1, u.1)) (λ h. ground (arith, u.1)) (λ h q. ground arith)
            ∙ move-tally p a i down over e (ltb i down) (omega arith) (omega (arith, d.1))
                (λ h. ground (arith, d.0)) (λ h q. ground arith)),
        (λ m out. round_other m (outside m out d.1 d.0) ∙ filled_other m (λ q. ground arith)),
      )
    where
      outside : (m : ℕ) → (m < l) ⊎ (over ≤ m) → down ≤ j → i ≤ down → m ≢ down
      outside m (inl h) below above q = omega arith
      outside m (inr h) below above q = omega arith

  round-shorter : IsGap l over x a i j → i < j → down + i < j + up
  round-shorter (low, le, high, left, right) more =
      let d = round-Down le in
      let u = round-Up le in
      elim (Bool-cases (ltb down j)) [
        | inl less ↦ omega (arith, ltb→lt down j less, u.0)
        | inr same ↦
            let further = reach (ltb→le down j same) in
            omega (
              arith,
              d.1,
              u.3 (lt→ltb i down further) (
                  subst (λ z. value z < x) (sym (filled_first further))
                    (d.3 (lt→ltb i down further))),
            )
      ]
    where
      reach : j ≤ down → i < down
      reach h = omega arith

-- A gap that is partitioned: it ends where everything from `l` on in front of it is below `x` and nothing
-- behind it is.
pub partition-IsGap :
    (k l over x : ℕ) (e : Entry) (a : ℕ → Entry) (i j : ℕ)
    → IsGap l over x a i j
    → j < i + k
    → Ends (partition k x a i j) (λ (i', a'). IsGap l over x a' i' i' × Kept l over e a i a' i')
unfolding partition
partition-IsGap zero l over x e a i j gap fuel = absurd (omega (arith, gap.1))
partition-IsGap (suc k) l over x e a i j gap fuel = elim (Bool-cases (ltb i j)) [
  | inr met ↦
      rw (partition, met)
        (
          (
            gap.0,
            omega arith,
            omega (arith, gap.1, gap.2),
            gap.3,
            (λ m h. gap.4 m (omega (arith, ltb→le i j met))),
          ),
          ((λ p. refl), (λ m out. refl)),
        )
  | inl more ↦
      rw (partition, more)
        (Ends-mono
          (partition k x (round l over x e a i j) (up l over x e a i j) (down l over x e a i j))
          (partition-IsGap k l over x e (round l over x e a i j) (up l over x e a i j)
            (down l over x e a i j) (round-IsGap l over x e a i j gap)
            (omega (arith, fuel, round-shorter l over x e a i j gap (ltb→lt i j more))))
          (λ (i', a') (gap', (tally', rest')).
            let kept = round-Kept l over x e a i j gap in
            (gap', ((λ p. tally' p ∙ kept.0 p), (λ m out. rest' m out ∙ kept.1 m out)))))
]

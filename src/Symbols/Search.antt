-- ===== src/Symbols/Search.antt =====
-- The search of `func_name_printer` finds the symbol at an address.
use cabbage_pke.Common.{
  ℕ, zero, suc, ◌+◌, ◌-◌, ◌/◌, ◌≤◌, ◌<◌, ◌^◌, ◌≡◌, inl, inr, true, false, ◌&&◌, Option, some, none,
  arith, Returns, Ends, Ends→Returns, Ends-mono, ltb, leb, Bool-cases, ltb→lt, ltb→le, ◌==◌, subst,
}
use cabbage_pke.Symbols.{ElfSymbol, end_addr, find_symbol, func_name_printer}

abbrev pub Covers : ElfSymbol → ℕ → Type 0
Covers s addr = (s.st_value ≤ addr) × (addr < s.st_value + s.st_size)

-- The symbols stand in the order of their addresses and do not overlap, and none wraps.
pub record IsOrdered (symbols : ℕ → ElfSymbol) (count : ℕ) : Type 0 where
  pub apart :
      (i j : ℕ)
      → i < j
      → j < count
      → (symbols i).st_value + (symbols i).st_size ≤ (symbols j).st_value
  pub fits : (i : ℕ) → i < count → (symbols i).st_value + (symbols i).st_size < 2 ^ 64

-- The symbol of the result covers the address; without a result none from `left` up to `over` does.
abbrev pub Found : (ℕ → ElfSymbol) → ℕ → ℕ → ℕ → Option ℕ → Type 0
Found symbols addr left over none = (i : ℕ) → left ≤ i → i < over → Covers (symbols i) addr → ⊥
Found symbols addr left over (some m) = (left ≤ m) × (m < over) × Covers (symbols m) addr

module _ (symbols : ℕ → ElfSymbol) (count addr : ℕ) (ordered : IsOrdered symbols count) where
  find_symbol-Found :
      (k left over : ℕ)
      → left ≤ over
      → over ≤ count
      → over < left + k
      → Ends (find_symbol k symbols addr left over) (Found symbols addr left over)
  unfolding find_symbol
  find_symbol-Found zero left over order fits fuel = absurd (omega arith)
  find_symbol-Found (suc k) left over order fits fuel = elim (Bool-cases (ltb left over)) [
    | inr empty ↦ rw (find_symbol, empty) (λ i low high c. ground arith)
    | inl more ↦
        elim (Bool-cases (leb (symbols mid).st_value addr && ltb addr (end_addr (symbols mid)))) [
          | inl hit ↦
              rw (find_symbol, more, hit)
                (
                  (at_mid (ltb→lt left over more)).0,
                  (at_mid (ltb→lt left over more)).1,
                  covered mid hit (fits_in mid (at_mid (ltb→lt left over more)).1),
                )
          | inr miss ↦ elim (Bool-cases (ltb addr (symbols mid).st_value)) [
            | inl below ↦
                rw (find_symbol, more, miss, below)
                  (Ends-mono (find_symbol k symbols addr left mid)
                    (find_symbol-Found k left mid (at_mid (ltb→lt left over more)).0
                      (omega (arith, at_mid (ltb→lt left over more)))
                      (omega (arith, at_mid (ltb→lt left over more))))
                    (lower (at_mid (ltb→lt left over more)).1
                      (ltb→lt addr (symbols mid).st_value below)))
            | inr above ↦
                rw (find_symbol, more, miss, above)
                  (Ends-mono (find_symbol k symbols addr (mid + 1) over)
                    (find_symbol-Found k (mid + 1) over
                      (omega (arith, at_mid (ltb→lt left over more))) fits
                      (omega (arith, at_mid (ltb→lt left over more))))
                    (upper (at_mid (ltb→lt left over more)) (
                      not_covered mid miss (ltb→le addr (symbols mid).st_value above)
                        (fits_in mid (at_mid (ltb→lt left over more)).1))))
          ]
        ]
  ]
    where
      mid : ℕ
      mid = left + (over - 1 - left) / 2

      fits_in : (i : ℕ) → i < over → (symbols i).st_value + (symbols i).st_size < 2 ^ 64
      fits_in i h = ordered.fits i (omega arith)

      covered :
          (i : ℕ)
          → (leb (symbols i).st_value addr && ltb addr (end_addr (symbols i))) ≡ true
          → (symbols i).st_value + (symbols i).st_size < 2 ^ 64
          → Covers (symbols i) addr
      covered i h f = ground arith

      equal : (i j : ℕ) → (i == j) ≡ true → i ≡ j
      equal i j e = ground arith

      at_mid : left < over → (left ≤ mid) × (mid < over)
      at_mid h = (omega arith, omega arith)

      -- What the other half does not hold.
      not_covered :
          (i : ℕ)
          → (leb (symbols i).st_value addr && ltb addr (end_addr (symbols i))) ≡ false
          → (symbols i).st_value ≤ addr
          → (symbols i).st_value + (symbols i).st_size < 2 ^ 64
          → (symbols i).st_value + (symbols i).st_size ≤ addr
      not_covered i h low f = ground arith

      begins : (i j : ℕ) → i ≤ j → j < over → (symbols i).st_value ≤ (symbols j).st_value
      begins i j le h = elim (Bool-cases (i == j)) [
        | inl same ↦
            subst (λ x. (symbols i).st_value ≤ (symbols x).st_value) (equal i j same) (omega arith)
        | inr other ↦ omega (arith, ordered.apart i j (ground arith) (omega arith))
      ]

      ends :
          (i j : ℕ)
          → i ≤ j
          → j < over
          → (symbols i).st_value + (symbols i).st_size ≤ (symbols j).st_value + (symbols j).st_size
      ends i j le h = elim (Bool-cases (i == j)) [
        | inl same ↦
            subst
              (λ x.
                (symbols i).st_value + (symbols i).st_size
                ≤ (symbols x).st_value + (symbols x).st_size)
              (equal i j same) (omega arith)
        | inr other ↦ omega (arith, ordered.apart i j (ground arith) (omega arith))
      ]

      lower :
          mid < over
          → addr < (symbols mid).st_value
          → (o : Option ℕ) → Found symbols addr left mid o
          → Found symbols addr left over o
      lower inside below none h = λ i low high c. elim (Bool-cases (ltb i mid)) [
        | inl near ↦ h i low (ltb→lt i mid near) c
        | inr far ↦ omega (arith, c.0, below, begins mid i (ltb→le i mid far) high)
      ]
      lower inside below (some m) h = (h.0, omega (arith, h.1), h.2)

      upper :
          (left ≤ mid) × (mid < over)
          → (symbols mid).st_value + (symbols mid).st_size ≤ addr
          → (o : Option ℕ) → Found symbols addr (mid + 1) over o
          → Found symbols addr left over o
      upper inside below none h = λ i low high c. elim (Bool-cases (ltb mid i)) [
        | inl near ↦ h i (omega (arith, ltb→lt mid i near)) high c
        | inr far ↦ omega (arith, c.1, below, ends i mid (ltb→le mid i far) inside.1)
      ]
      upper inside below (some m) h = (omega (arith, h.0, inside), h.1, h.2)

  -- On symbols in the order of their addresses that do not overlap, the search ends: the symbol that it gives
  -- covers the address, and where it gives none, no symbol does.
  pub func_name_printer-Found :
      Returns (func_name_printer symbols count addr) (Found symbols addr 0 count)
  unfolding func_name_printer
  func_name_printer-Found =
      Ends→Returns (find_symbol (suc count) symbols addr 0 count)
        (find_symbol-Found (suc count) 0 count (omega arith) (omega arith) (omega arith))

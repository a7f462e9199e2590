-- ===== src/Symbols.antt =====
-- kernel/symbol.c: the function symbols of the image, by index, the sort by address, and the search for the
-- one at an address.
pub mod Search
pub mod Tally
pub mod Partition
pub mod Sort
use cabbage_pke.Rfs.Dir.{Name}
use cabbage_pke.Common.{
  ◌>>=◌, ◌==◌, if◌then◌else◌, ℕ, zero, suc, ◌+◌, ◌-◌, ◌/◌, ◌^◌, ◌%◌, Bool, true, false, ◌&&◌,
  Option, some, none, Run, ok, out_of_fuel, ltb, leb,
}

-- The fields of `elf_symbol` that are read.
pub record ElfSymbol : Type 0 where
  pub st_name : ℕ
  pub st_info : ℕ
  pub st_value : ℕ
  pub st_size : ℕ

abbrev pub end_addr : ElfSymbol → ℕ
end_addr s = (s.st_value + s.st_size) % 2 ^ 64

-- The loop of `func_name_printer`; `over` is `right + 1`. The result is the index of the name that is
-- printed.
unfoldable pub find_symbol : ℕ → (ℕ → ElfSymbol) → ℕ → ℕ → ℕ → Run (Option ℕ)
find_symbol zero symbols ret_addr left over = out_of_fuel
find_symbol (suc k) symbols ret_addr left over = elim (ltb left over) [
  | false ↦ ok none
  | true ↦
      let mid = left + (over - 1 - left) / 2 in
      let s = symbols mid in
      elim (leb s.st_value ret_addr && ltb ret_addr (end_addr s)) [
        | true ↦ ok (some mid)
        | false ↦ elim (ltb ret_addr s.st_value) [
          | true ↦ find_symbol k symbols ret_addr left mid
          | false ↦ find_symbol k symbols ret_addr (mid + 1) over
        ]
      ]
]

-- More rounds than there are symbols are not needed.
unfoldable pub func_name_printer : (ℕ → ElfSymbol) → ℕ → ℕ → Run (Option ℕ)
func_name_printer symbols sym_count ret_addr =
    find_symbol (suc sym_count) symbols ret_addr 0 sym_count

-- An entry of `symbols` with the one of `sym_names`.
pub record Entry : Type 0 where
  pub symbol : ElfSymbol
  pub name : Name

abbrev pub value : Entry → ℕ
value e = e.symbol.st_value

abbrev pub set : (ℕ → Entry) → ℕ → Entry → ℕ → Entry
set a i e m = if i == m then e else a m

-- `while (i < j && symbols[j].st_value >= x.st_value) j--;`
unfoldable pub scan_down : (ℕ → Entry) → ℕ → ℕ → ℕ → ℕ
scan_down a x i zero = 0
scan_down a x i (suc j) =
    let rest = scan_down a x i j in
    if ltb i (suc j) && leb x (value (a (suc j))) then rest else suc j

-- `while (i < j && symbols[i].st_value < x.st_value) i++;`, with the distance to `j`.
unfoldable pub scan_up : ℕ → (ℕ → Entry) → ℕ → ℕ → ℕ → ℕ
scan_up zero a x i j = i
scan_up (suc k) a x i j =
    let rest = scan_up k a x (i + 1) j in if ltb i j && ltb (value (a i)) x then rest else i

-- The entry at `from` moves to the gap at `to`, where `test` holds.
abbrev pub move : Bool → (ℕ → Entry) → ℕ → ℕ → ℕ → Entry
move test a to from = if test then set a to (a from) else a

-- `while (i < j)`: the gap and the array behind it.
unfoldable pub partition : ℕ → ℕ → (ℕ → Entry) → ℕ → ℕ → Run (ℕ × (ℕ → Entry))
partition zero x a i j = out_of_fuel
partition (suc k) x a i j = elim (ltb i j) [
  | false ↦ ok (i, a)
  | true ↦
      let j' = scan_down a x i j in
      let a₁ = move (ltb i j') a i j' in
      let i' = scan_up (j' - i) a₁ x i j' in partition k x (move (ltb i' j') a₁ j' i') i' j'
]

-- `over` is `r + 1`.
unfoldable pub quick_sort : ℕ → (ℕ → Entry) → ℕ → ℕ → Run (ℕ → Entry)
quick_sort zero a l over = out_of_fuel
quick_sort (suc k) a l over = elim (ltb (l + 1) over) [
  | false ↦ ok a
  | true ↦ do
    (i, a₁) ← partition over (value (a l)) a l (over - 1)
    a₂ ← quick_sort k (set a₁ i (a l)) l i
    quick_sort k a₂ (i + 1) over
]

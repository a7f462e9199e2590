-- ===== src/Pmm.antt =====
-- kernel/pmm.c: the reference counts of the physical pages in use, the list of free pages, and
-- the operations on both. Every operation runs under `page_latch_`, so each is one step.
pub mod Search
pub mod Counts
pub mod Pages
use cabbage_pke.Common.{
  ℕ, zero, suc, ◌+◌, ◌-◌, ◌*◌, ◌/◌, ◌%◌, ◌^◌, ◌≡◌, Bool, true, false, ◌||◌, Option, none, some,
  List, [], ◌∷◌, ◌++◌, Run, ok, panic, fault, out_of_fuel, ◌>>=◌, ltb, leb, ◌==◌, if◌then◌else◌,
  length, get_elem?, set, take, drop, min, not,
}

abbrev pub pgsize : ℕ
pgsize = 4096

-- `ROUNDUP` on `uint64`: the subtraction wraps at 0.
pub round_up : ℕ → ℕ → ℕ
round_up a b = ((a + 2 ^ 64 - 1) % 2 ^ 64 / b + 1) * b % 2 ^ 64

pub record RefUnit : Type 0 where
  pub pa : ℕ
  pub ref : ℕ

abbrev pub unit : ℕ → ℕ → RefUnit
unit p r = record { pa = p; ref = r }

-- The part of `ref_list` below `ref_total`; the cells above it are written before they are read.
abbrev pub Refs : Type 0
Refs = List RefUnit

abbrev pub max_refs : ℕ
max_refs = 0x4000

-- `(left + right) / 2`, where `hi` is `right + 1` (`right` can be -1).
abbrev pub middle : ℕ → ℕ → ℕ
middle lo hi = (lo + (hi - 1)) / 2

-- The loop that `ref_find` and `ref_erase` share: the index at which it stops on `pa`.
unfoldable pub search : ℕ → Refs → ℕ → ℕ → ℕ → Run (Option ℕ)
search zero refs pa lo hi = out_of_fuel
search (suc k) refs pa lo hi = elim (ltb lo hi) [
  | false ↦ ok none
  | true ↦ elim (get_elem? refs (middle lo hi)) [
    | none ↦ fault
    | some u ↦
        let above = search k refs pa (middle lo hi + 1) hi in
        let below = search k refs pa lo (middle lo hi) in
        if u.pa == pa then ok (some (middle lo hi)) else if ltb u.pa pa then above else below
  ]
]

-- The second loop of `ref_insert`: the first index whose address is not below `pa`.
unfoldable pub lower : ℕ → Refs → ℕ → ℕ → ℕ → ℕ → Run ℕ
lower zero refs pa lo hi idx = out_of_fuel
lower (suc k) refs pa lo hi idx = elim (ltb lo hi) [
  | false ↦ ok idx
  | true ↦ elim (get_elem? refs (middle lo hi)) [
    | none ↦ fault
    | some u ↦
        let above = lower k refs pa (middle lo hi + 1) hi idx in
        let below = lower k refs pa lo (middle lo hi) (middle lo hi) in
        if ltb u.pa pa then above else below
  ]
]

-- `ref_list[mid].ref++` and `--` on `uint64`.
unfoldable pub bump : RefUnit → RefUnit
bump u = record u { ref = (u.ref + 1) % 2 ^ 64 }

unfoldable pub unbump : RefUnit → RefUnit
unbump u = record u { ref = (u.ref + 2 ^ 64 - 1) % 2 ^ 64 }

unfoldable pub modify : (RefUnit → RefUnit) → Refs → ℕ → Refs
modify f [] i = []
modify f (u ∷ us) zero = f u ∷ us
modify f (u ∷ us) (suc i) = u ∷ modify f us i

-- The `memmove` that closes the gap at `i`.
unfoldable pub remove_at : Refs → ℕ → Refs
remove_at [] i = []
remove_at (u ∷ us) zero = us
remove_at (u ∷ us) (suc i) = u ∷ remove_at us i

-- The `memmove` that opens a gap at `i`, and the write into it.
unfoldable pub insert_at : Refs → ℕ → RefUnit → Refs
insert_at us zero v = v ∷ us
insert_at [] (suc i) v = v ∷ []
insert_at (u ∷ us) (suc i) v = u ∷ insert_at us i v

unfoldable pub ref_find : Refs → ℕ → Run (Refs × ℕ)
ref_find refs pa = do
  found ← search (suc (length refs)) refs pa 0 (length refs)
  elim found [ none ↦ ok (refs, 0) | some i ↦ ok (modify bump refs i, 1) ]

unfoldable pub ref_insert : Refs → ℕ → Run Refs
ref_insert refs pa = do
  (refs', found) ← ref_find refs pa
  if found == 1 then ok refs' else do
    idx ← lower (suc (length refs)) refs pa 0 (length refs) 0
    if ltb (length refs) max_refs then ok (insert_at refs idx (unit pa 1)) else fault

-- After the decrement at `i`: the entry goes when its count is 0.
unfoldable pub settle : Refs → ℕ → RefUnit → Refs × ℕ
settle refs i u = if (unbump u).ref == 0 then (remove_at refs i, 1) else (modify unbump refs i, 0)

unfoldable pub ref_erase : Refs → ℕ → Run (Refs × ℕ)
ref_erase refs pa = do
  found ← search (suc (length refs)) refs pa 0 (length refs)
  elim found [
    | none ↦ ok (refs, 1)
    | some i ↦ elim (get_elem? refs i) [ none ↦ fault | some u ↦ ok (settle refs i u) ]
  ]

-- The free list threads through the free pages: `next p` is the word at the start of page `p`,
-- `head` is `g_free_mem_list.next`, and 0 is NULL.
pub record Pmm : Type 0 where
  pub refs : Refs
  pub head : ℕ
  pub next : ℕ → ℕ
  pub free_mem_start_addr : ℕ
  pub free_mem_end_addr : ℕ

abbrev pub write : (ℕ → ℕ) → ℕ → ℕ → ℕ → ℕ
write f p v q = if p == q then v else f q

-- The three tests that make `free_page` panic.
unfoldable pub bad_page : Pmm → ℕ → Bool
bad_page s pa =
    not (pa % pgsize == 0) || (ltb pa s.free_mem_start_addr || leb s.free_mem_end_addr pa)

unfoldable pub free_page : Pmm → ℕ → Run Pmm
free_page s pa = if bad_page s pa then panic else do
  (refs', last) ← ref_erase s.refs pa
  if last == 0
      then ok (record s { refs = refs' })
      else ok (record s { refs = refs'; next = write s.next pa s.head; head = pa })

unfoldable pub alloc_page : Pmm → Run (ℕ × Pmm)
alloc_page s = do
  refs' ← ref_insert s.refs s.head
  ok (s.head, record s { refs = refs'; head = (if s.head == 0 then 0 else s.next s.head) })

-- The loop of `create_freepage_list` from page `p` on.
unfoldable pub free_pages_from : ℕ → ℕ → ℕ → Pmm → Run Pmm
free_pages_from zero p end s = out_of_fuel
free_pages_from (suc k) p end s = elim (ltb (p + pgsize) end) [
  | false ↦ ok s
  | true ↦ do s' ← free_page s p; free_pages_from k (p + pgsize) end s'
]

unfoldable pub create_freepage_list : ℕ → ℕ → Pmm → Run Pmm
create_freepage_list start end s =
    free_pages_from (suc (end / pgsize)) (round_up start pgsize) end (record s { head = 0 })

abbrev pub kern_base : ℕ
kern_base = 0x80000000

abbrev pub dram_base : ℕ
dram_base = 0x80000000

abbrev pub max_allowable_ram : ℕ
max_allowable_ram = 128 * 1024 * 1024

-- `kernel_end` is the address of `_end`, `mem_size` the emulator's `g_mem_size`.
unfoldable pub pmm_init : ℕ → ℕ → Pmm → Run Pmm
pmm_init kernel_end mem_size s =
    let start = round_up kernel_end pgsize in
    let size = min max_allowable_ram mem_size in
    if ltb size ((kernel_end + 2 ^ 64 - kern_base) % 2 ^ 64)
    then panic
    else let end = size + dram_base in
      create_freepage_list start end
        (record s { free_mem_start_addr = start; free_mem_end_addr = end })

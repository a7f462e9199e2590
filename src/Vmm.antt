-- ===== src/Vmm.antt =====
-- The page tables of kernel/vmm.c (Sv39, three levels) with the pages of the allocator. An entry is the
-- record of its bits, and a table is its entries by address.
pub mod Lookup
use cabbage_pke.Common.{
  ℕ, zero, suc, ◌+◌, ◌-◌, ◌*◌, ◌/◌, ◌%◌, ◌^◌, Bool, true, false, ◌&&◌, ◌||◌, not, Option, none,
  some, Run, ok, panic, fault, out_of_fuel, ◌>>=◌, ltb, leb, ◌==◌, if◌then◌else◌,
}
use cabbage_pke.Common.Int.{ℤ, pos, negsuc}
use cabbage_pke.Pmm.{Pmm, Refs, pgsize, alloc_page, free_page, ref_insert}
use cabbage_pke.Str.{in_range}

-- `PTE_R`, `PTE_W`, `PTE_X`, `PTE_U`, `PTE_A` and `PTE_D`.
pub record Perm : Type 0 where
  pub readable : Bool
  pub writable : Bool
  pub executable : Bool
  pub user : Bool
  pub accessed : Bool
  pub dirty : Bool

-- `pa` is the page that `PTE2PA` gives; `valid` is `PTE_V` and `rsw` is `PTE_RSW`.
pub record Pte : Type 0 where
  pub valid : Bool
  pub perm : Perm
  pub rsw : Bool
  pub pa : ℕ

abbrev pub no_perm : Perm
no_perm = record {
  readable = false;
  writable = false;
  executable = false;
  user = false;
  accessed = false;
  dirty = false;
}

-- The entry of a page that `memset` has cleared.
abbrev pub no_pte : Pte
no_pte = record { valid = false; perm = no_perm; rsw = false; pa = 0 }

-- `PTE2PA(PA2PTE(pa))`.
abbrev pub page_of : ℕ → ℕ
page_of pa = pa / pgsize * pgsize

pub record Vm : Type 0 where
  pub pmm : Pmm
  pub ptes : ℕ → Pte

abbrev pub set_pte : (ℕ → Pte) → ℕ → Pte → ℕ → Pte
set_pte f a v b = if a == b then v else f b

abbrev pub maxva : ℕ
maxva = 2 ^ 38

-- `PX(level, va)`.
abbrev pub px : ℕ → ℕ → ℕ
px level va = va / 2 ^ (12 + 9 * level) % 512

abbrev pub pte_at : ℕ → ℕ → ℕ → ℕ
pte_at pt level va = pt + 8 * px level va

-- The loop of `page_walk` from a level on; `none` is NULL.
unfoldable pub walk : ℕ → ℕ → Bool → ℕ → Vm → Run (Option ℕ × Vm)
walk zero va alloc pt vm = ok (some (pte_at pt 0 va), vm)
walk (suc l) va alloc pt vm = elim (vm.ptes (pte_at pt (suc l) va)).valid [
  | true ↦ walk l va alloc (vm.ptes (pte_at pt (suc l) va)).pa vm
  | false ↦ elim alloc [
    | false ↦ ok (none, vm)
    | true ↦ do
      (page, pmm) ← alloc_page vm.pmm
      elim (page == 0) [
        | true ↦ ok (none, record vm { pmm = pmm })
        | false ↦
            let cleared : ℕ → Pte = λ b. if in_range page pgsize b then no_pte else vm.ptes b in
            walk l va true page (record {
              pmm = pmm;
              ptes =
                  set_pte cleared (pte_at pt (suc l) va)
                    (record no_pte { valid = true; pa = page_of page });
            })
      ]
  ]
]

unfoldable pub page_walk : Vm → ℕ → ℕ → Bool → Run (Option ℕ × Vm)
page_walk vm page_dir va alloc = if leb maxva va then panic else walk 2 va alloc page_dir vm

-- `PROT_READ`, `PROT_WRITE` and `PROT_EXEC` as the bits of `prot`.
unfoldable pub prot_to_type : Bool → Bool → Bool → Bool → Perm
prot_to_type read write exec user = record {
  readable = read || not (write || exec);
  writable = write;
  executable = exec;
  user = user;
  accessed = read || exec;
  dirty = write;
}

-- The loop of `map_pages`; the results are those of the function.
unfoldable pub map_from : ℕ → Vm → ℕ → ℕ → ℕ → ℕ → Perm → Run (ℤ × Vm)
map_from zero vm page_dir first last pa perm = out_of_fuel
map_from (suc k) vm page_dir first last pa perm = elim (leb first last) [
  | false ↦ ok (pos 0, vm)
  | true ↦ do
    (pte, vm₁) ← page_walk vm page_dir first true
    elim pte [
      | none ↦ ok (negsuc 0, vm₁)
      | some a ↦ elim (vm₁.ptes a).valid [
        | true ↦ panic
        | false ↦
            let entry : Pte = record { valid = true; perm = perm; rsw = false; pa = page_of pa } in
            map_from k (record vm₁ { ptes = set_pte vm₁.ptes a entry }) page_dir (first + pgsize)
              last (pa + pgsize) perm
      ]
    ]
]

-- `va + size - 1` wraps for 0.
unfoldable pub map_pages : Vm → ℕ → ℕ → ℕ → ℕ → Perm → Run (ℤ × Vm)
map_pages vm page_dir va size pa perm =
    let last = page_of ((va + size + 2 ^ 64 - 1) % 2 ^ 64) in
    map_from (2 + (last - page_of va) / pgsize) vm page_dir (page_of va) last pa perm

unfoldable pub lookup_pa : Vm → ℕ → ℕ → Run ℕ
lookup_pa vm page_dir va = if leb maxva va then ok 0 else do
  (pte, _) ← page_walk vm page_dir va false
  elim pte [
    | none ↦ ok 0
    | some a ↦
        let e = vm.ptes a in
        if not e.valid || (not e.perm.readable && not e.perm.writable) then ok 0 else ok e.pa
  ]

-- The offset is added to 0 where `va` is not mapped.
unfoldable pub user_va_to_pa : Vm → ℕ → ℕ → Run ℕ
user_va_to_pa vm page_dir va = do pa ← lookup_pa vm page_dir va; ok (pa + va % pgsize)

-- `kern_vm_map` is the same with its arguments in another order.
unfoldable pub user_vm_map : Vm → ℕ → ℕ → ℕ → ℕ → Perm → Run Vm
user_vm_map vm page_dir va size pa perm = do
  (ret, vm₁) ← map_pages vm page_dir va size pa perm
  elim ret [ pos zero ↦ ok vm₁ | _ ↦ panic ]

unfoldable pub kern_vm_map : Vm → ℕ → ℕ → ℕ → ℕ → Perm → Run Vm
kern_vm_map vm page_dir va pa sz perm = do
  (ret, vm₁) ← map_pages vm page_dir va sz pa perm
  elim ret [ pos zero ↦ ok vm₁ | _ ↦ panic ]

-- One page is freed whatever `size` and `free` are.
unfoldable pub user_vm_unmap : Vm → ℕ → ℕ → Run Vm
user_vm_unmap vm page_dir va = do
  (pte, vm₁) ← page_walk vm page_dir va false
  elim pte [
    | none ↦ panic
    | some a ↦ do
      let e = vm₁.ptes a
      pmm ← free_page vm₁.pmm e.pa
      ok (record { pmm = pmm; ptes = set_pte vm₁.ptes a (record e { valid = false }) })
  ]

-- The entry is shared: read-only, with the bit for software, and one more reference to the page.
unfoldable pub cow_vm_map : Vm → ℕ → ℕ → ℕ → Run Vm
cow_vm_map vm page_dir va pa = do
  (pte, vm₁) ← page_walk vm page_dir va true
  elim pte [
    | none ↦ fault
    | some a ↦ do
      refs ← ref_insert vm₁.pmm.refs pa
      let perm = prot_to_type true false false true
      let entry : Pte = record { valid = true; perm = perm; rsw = true; pa = page_of pa }
      let pmm : Pmm = record vm₁.pmm { refs = refs }
      ok (record { pmm = pmm; ptes = set_pte vm₁.ptes a entry })
  ]

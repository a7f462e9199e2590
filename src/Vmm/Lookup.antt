-- ===== src/Vmm/Lookup.antt =====
-- What a mapping of kernel/vmm.c does to look-ups.
use cabbage_pke.Common.{
  ℕ, zero, suc, ◌+◌, ◌%◌, ◌<◌, ◌≡◌, ◌≢◌, refl, sym, ◌∙◌, ap, subst, Bool, true, false, ◌&&◌, ◌||◌,
  not, some, arith, Run, ok, ◌>>=◌, Returns, if◌then◌else◌, ==_refl, ne→==, lt→leb, le→leb,
}
use cabbage_pke.Common.Int.{pos}
use cabbage_pke.Pmm.{pgsize}
use cabbage_pke.Vmm.{
  Perm, Pte, page_of, Vm, set_pte, maxva, pte_at, walk, page_walk, map_from, map_pages, lookup_pa,
  user_vm_map,
}

-- The walk from a table at a level on ends at the entry `a`, over tables that are there.
abbrev pub Leads : ℕ → ℕ → ℕ → Vm → ℕ → Type 0
Leads zero va pt vm a = a ≡ pte_at pt 0 va
Leads (suc l) va pt vm a =
    ((vm.ptes (pte_at pt (suc l) va)).valid ≡ true)
    × Leads l va (vm.ptes (pte_at pt (suc l) va)).pa vm a

walk-Leads :
    (l va : ℕ) (alloc : Bool) (pt : ℕ) (vm : Vm) (a : ℕ)
    → Leads l va pt vm a
    → walk l va alloc pt vm ≡ ok (some a, vm)
unfolding walk
walk-Leads zero va alloc pt vm a e = rw e refl
walk-Leads (suc l) va alloc pt vm a (valid, rest) =
    rw (walk, valid) (walk-Leads l va alloc (vm.ptes (pte_at pt (suc l) va)).pa vm a rest)

-- An entry that is not valid is not on the way.
pub Leads-set_pte :
    (l va pt : ℕ) (vm : Vm) (a b : ℕ) (e : Pte)
    → (vm.ptes b).valid ≡ false
    → Leads l va pt vm a
    → Leads l va pt (record vm { ptes = set_pte vm.ptes b e }) a
Leads-set_pte zero va pt vm a b e free way = way
Leads-set_pte (suc l) va pt vm a b e free (valid, rest) =
    subst (λ x. (x.valid ≡ true) × Leads l va x.pa (record vm { ptes = set_pte vm.ptes b e }) a)
      (sym kept) (valid, Leads-set_pte l va (vm.ptes (pte_at pt (suc l) va)).pa vm a b e free rest)
  where
    clash : (x : Bool) → x ≡ true → x ≡ false → ⊥
    clash x h h' = ground arith

    other : b ≢ pte_at pt (suc l) va
    other z = clash (vm.ptes b).valid (subst (λ c. (vm.ptes c).valid ≡ true) (sym z) valid) free

    kept : set_pte vm.ptes b e (pte_at pt (suc l) va) ≡ vm.ptes (pte_at pt (suc l) va)
    kept = rw (ne→== b (pte_at pt (suc l) va) other) refl

pub page_walk-Leads :
    (vm : Vm) (page_dir va a : ℕ) (alloc : Bool)
    → va < maxva
    → Leads 2 va page_dir vm a
    → page_walk vm page_dir va alloc ≡ ok (some a, vm)
unfolding page_walk
page_walk-Leads vm page_dir va a alloc h way =
    rw (lt→leb maxva va h) (walk-Leads 2 va alloc page_dir vm a way)

-- What a look-up makes of an entry.
abbrev entry_pa : Pte → Run ℕ
entry_pa e = if not e.valid || (not e.perm.readable && not e.perm.writable) then ok 0 else ok e.pa

lookup_pa-Leads :
    (vm : Vm) (page_dir va a : ℕ)
    → va < maxva
    → Leads 2 va page_dir vm a
    → lookup_pa vm page_dir va ≡ entry_pa (vm.ptes a)
unfolding lookup_pa
lookup_pa-Leads vm page_dir va a h way =
    rw (lt→leb maxva va h, page_walk-Leads vm page_dir va a false h way, ◌>>=◌) refl

-- The memory with a page mapped by the entry `a`.
abbrev pub with_page : Vm → ℕ → ℕ → Perm → Vm
with_page vm a pa perm = record vm {
  ptes = set_pte vm.ptes a (record { valid = true; perm = perm; rsw = false; pa = page_of pa });
}

map_from_one :
    (vm : Vm) (page_dir va a pa : ℕ) (perm : Perm)
    → va < maxva
    → Leads 2 va page_dir vm a
    → (vm.ptes a).valid ≡ false
    → map_from 2 vm page_dir va va pa perm ≡ ok (pos 0, with_page vm a pa perm)
unfolding map_from
map_from_one vm page_dir va a pa perm h way free =
    rw
      (
        map_from,
        le→leb va va (omega arith),
        page_walk-Leads vm page_dir va a true h way,
        ◌>>=◌,
        free,
        lt→leb (va + pgsize) va (omega arith),
      )
      refl

pub map_pages_one :
    (vm : Vm) (page_dir va a pa : ℕ) (perm : Perm)
    → va < maxva
    → va % pgsize ≡ 0
    → Leads 2 va page_dir vm a
    → (vm.ptes a).valid ≡ false
    → map_pages vm page_dir va pgsize pa perm ≡ ok (pos 0, with_page vm a pa perm)
unfolding map_pages
map_pages_one vm page_dir va a pa perm h aligned way free =
    at (omega arith) (omega arith) (omega arith)
  where
    at :
        {k first last : ℕ}
        → k ≡ 2
        → first ≡ va
        → last ≡ va
        → map_from k vm page_dir first last pa perm ≡ ok (pos 0, with_page vm a pa perm)
    at ek ef el = rw (ek, ef, el) (map_from_one vm page_dir va a pa perm h way free)

-- What a page that is mapped at `va` changes in the look-ups.
abbrev pub Mapped : Vm → ℕ → ℕ → ℕ → ℕ → Perm → Vm → Type 0
Mapped vm page_dir va a pa perm vm' =
    (lookup_pa vm' page_dir va ≡ ok (if perm.readable || perm.writable then page_of pa else 0))
    × ((va' a' : ℕ)
        → va' < maxva
        → Leads 2 va' page_dir vm a'
        → a' ≢ a
        → lookup_pa vm' page_dir va' ≡ lookup_pa vm page_dir va')

-- A page is mapped at an aligned address whose tables are there and whose entry is free: the mapping does
-- not fail, the look-up of the address gives the page where the permission lets it be read or written,
-- and 0 otherwise, and every other address whose tables are there and whose entry is another is looked up
-- as before.
pub user_vm_map-Mapped :
    (vm : Vm) (page_dir va a pa : ℕ) (perm : Perm)
    → va < maxva
    → va % pgsize ≡ 0
    → Leads 2 va page_dir vm a
    → (vm.ptes a).valid ≡ false
    → Returns (user_vm_map vm page_dir va pgsize pa perm) (Mapped vm page_dir va a pa perm)
unfolding user_vm_map
user_vm_map-Mapped vm page_dir va a pa perm low aligned way free = (
  with_page vm a pa perm,
  rw (map_pages_one vm page_dir va a pa perm low aligned way free, ◌>>=◌) refl,
  (
    lookup_pa-Leads vm' page_dir va a low (Leads-set_pte 2 va page_dir vm a a entry free way) ∙ new,
    (λ va' a' h way' ne.
        lookup_pa-Leads vm' page_dir va' a' h (Leads-set_pte 2 va' page_dir vm a' a entry free way')
        ∙ ap entry_pa {x = vm'.ptes a'} {y = vm.ptes a'} (rw (ne→== a a' (λ e. ne (sym e))) refl)
        ∙ sym (lookup_pa-Leads vm page_dir va' a' h way')),
  ),
)
  where
    entry : Pte
    entry = record { valid = true; perm = perm; rsw = false; pa = page_of pa }

    vm' : Vm
    vm' = with_page vm a pa perm

    new :
        entry_pa (set_pte vm.ptes a entry a)
        ≡ ok (if perm.readable || perm.writable then page_of pa else 0)
    new = rw (==_refl a) (cases perm.readable perm.writable)
      where
        cases :
            (r w : Bool)
            → (if not true || (not r && not w) then ok 0 else ok (page_of pa))
              ≡ ok (if r || w then page_of pa else 0)
        cases true w = refl
        cases false true = refl
        cases false false = refl

-- ===== src/Syscall/Pages.antt =====
-- A page of the heap that is freed and asked for again.
use cabbage_pke.Common.{
  ℕ, zero, suc, ◌+◌, ◌%◌, ◌≤◌, ◌<◌, ◌≡◌, ◌≢◌, ◌⊎◌, inl, inr, refl, sym, ap, subst, Bool, true,
  false, arith, Run, ok, panic, ◌>>=◌, Returns, ltb, ◌==◌, if◌then◌else◌, ==_refl, ne→==, lt→leb,
  Bool-cases, ltb→lt, ltb→le,
}
use cabbage_pke.Pmm.{Pmm, pgsize, free_page, alloc_page}
use cabbage_pke.Vmm.{
  Perm, prot_to_type, Pte, Vm, set_pte, maxva, pte_at, user_vm_map, user_vm_unmap,
}
use cabbage_pke.Vmm.Lookup.{Leads, page_walk-Leads, map_pages_one, with_page}
use cabbage_pke.Space.{Space, max_heap_pages, user_page}
use cabbage_pke.Space.Faults.{EntrySet}
use cabbage_pke.Syscall.{heap_address, allocate_page, free_user_page}

-- The memory with the entry `a` not valid.
abbrev pub unmapped : Vm → ℕ → Vm
unmapped vm a = record vm { ptes = set_pte vm.ptes a (record (vm.ptes a) { valid = false }) }

picks :
    (q : Bool) (dead live : Pte)
    → dead.valid ≡ false
    → (if q then dead else live).valid ≡ true
    → (if q then dead else live) ≡ live
picks true dead live dies lives = absurd (clash dead.valid dies lives)
  where
    clash : (x : Bool) → x ≡ false → x ≡ true → ⊥
    clash x h h' = ground arith
picks false dead live dies lives = refl

-- The tables that lead to an entry without that entry are there with it.
Leads-unmapped :
    (l va pt : ℕ) (vm : Vm) (a b : ℕ) → Leads l va pt (unmapped vm b) a → Leads l va pt vm a
Leads-unmapped zero va pt vm a b e = e
Leads-unmapped (suc l) va pt vm a b (valid, rest) = (
  subst (λ e. e.valid ≡ true) same valid,
  Leads-unmapped l va (vm.ptes at).pa vm a b
      (subst (λ e. Leads l va e.pa (unmapped vm b) a) same rest),
)
  where
    at : ℕ
    at = pte_at pt (suc l) va

    same : (unmapped vm b).ptes at ≡ vm.ptes at
    same = picks (b == at) (record (vm.ptes b) { valid = false }) (vm.ptes at) refl valid

-- What the two calls leave behind: the same address, the heap as it was, and the page in the entry.
abbrev pub Reused : Vm → Space → ℕ → ℕ → ℕ → Pmm → ℕ × Space × Vm → Type 0
Reused vm p va a page s (va', p', vm') =
    (va' ≡ va)
    × (p'.user_heap.heap_top ≡ p.user_heap.heap_top)
    × (p'.user_heap.free_pages_count ≡ p.user_heap.free_pages_count)
    × ((i : ℕ) → p'.mapped_info i ≡ p.mapped_info i)
    × EntrySet vm.ptes a (user_page page) vm'.ptes
    × (vm'.pmm ≡ s)

abbrev pub free_and_allocate : Vm → Space → ℕ → Run (ℕ × Space × Vm)
free_and_allocate vm p va = do (p', vm') ← free_user_page vm p va; allocate_page vm' p'

abbrev freed : Space → ℕ → Space
freed p va = record p {
  user_heap = record p.user_heap {
    free_pages_address =
        λ k. if p.user_heap.free_pages_count == k then va else p.user_heap.free_pages_address k;
    free_pages_count = p.user_heap.free_pages_count + 1;
  };
}

free_user_page-freed :
    (vm : Vm) (p : Space) (va a : ℕ) (s : Pmm)
    → va < maxva
    → Leads 2 va p.pagetable vm a
    → p.user_heap.free_pages_count < max_heap_pages
    → free_page vm.pmm (vm.ptes a).pa ≡ ok s
    → free_user_page vm p va ≡ ok (freed p va, record (unmapped vm a) { pmm = s })
unfolding free_user_page user_vm_unmap
free_user_page-freed vm p va a s low way room free =
    rw
      (
        page_walk-Leads vm p.pagetable va a false low way,
        ◌>>=◌,
        free,
        lt→leb max_heap_pages p.user_heap.free_pages_count room,
      )
      refl

-- The last address that was freed is tested against the top of the heap.
heap_address-freed :
    (p : Space) (va : ℕ)
    → p.user_heap.free_pages_count < max_heap_pages
    → heap_address (freed p va) ≡ (
        if ltb va p.user_heap.heap_top
        then ok (
          va,
          record (freed p va) {
            user_heap = record (freed p va).user_heap {
              free_pages_count = p.user_heap.free_pages_count;
            };
          },
        )
        else panic)
unfolding heap_address
heap_address-freed p va room =
    rw
      (
        heap_address,
        one_more p.user_heap.free_pages_count,
        lt→leb max_heap_pages p.user_heap.free_pages_count room,
        ==_refl p.user_heap.free_pages_count,
      )
      refl
  where
    one_more : (n : ℕ) → n + 1 ≡ suc n
    one_more n = omega arith

module _ (vm : Vm) (p : Space) (va a page : ℕ) (s s' : Pmm) where
  pub free_user_page-allocate_page :
      va < maxva
      → va % pgsize ≡ 0
      → Leads 2 va p.pagetable (unmapped vm a) a
      → p.user_heap.free_pages_count < max_heap_pages
      → free_page vm.pmm (vm.ptes a).pa ≡ ok s
      → alloc_page s ≡ ok (page, s')
      → ((va < p.user_heap.heap_top)
          × Returns (free_and_allocate vm p va) (Reused vm p va a page s'))
        ⊎ ((p.user_heap.heap_top ≤ va) × (free_and_allocate vm p va ≡ panic))
  unfolding allocate_page user_vm_map
  free_user_page-allocate_page low aligned way room free taken =
      elim (Bool-cases (ltb va p.user_heap.heap_top)) [
        | inl under ↦ inl (
          ltb→lt va p.user_heap.heap_top under,
          (
            (va, record (freed p va) { user_heap = p'.user_heap }, with_page vm' a page perm),
            rw
                (
                  free_user_page-freed vm p va a s low (Leads-unmapped 2 va p.pagetable vm a a way)
                      room free,
                  ◌>>=◌,
                  taken,
                  heap_address-freed p va room,
                  under,
                  map_pages_one vm' p.pagetable va a page perm low aligned way
                      (ap (λ q. q.valid) gone),
                )
                refl,
            (refl, refl, refl, (λ i. refl), (rw (==_refl a) refl, others), refl),
          ),
        )
        | inr over ↦ inr (
          ltb→le va p.user_heap.heap_top over,
          rw
              (
                free_user_page-freed vm p va a s low (Leads-unmapped 2 va p.pagetable vm a a way)
                    room free,
                ◌>>=◌,
                taken,
                heap_address-freed p va room,
                over,
              )
              refl,
        )
      ]
    where
      perm : Perm
      perm = prot_to_type true true false true

      p' : Space
      p' = record (freed p va) {
        user_heap = record (freed p va).user_heap {
          free_pages_count = p.user_heap.free_pages_count;
        };
      }

      vm' : Vm
      vm' = record (unmapped vm a) { pmm = s' }

      gone : (unmapped vm a).ptes a ≡ record (vm.ptes a) { valid = false }
      gone = rw (==_refl a) refl

      others : (b : ℕ) → b ≢ a → set_pte (unmapped vm a).ptes a (user_page page) b ≡ vm.ptes b
      others b ne = rw (ne→== a b (λ e. ne (sym e))) refl

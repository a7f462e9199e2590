-- ===== src/Space/Faults.antt =====
-- Sharing a page for a child and the store faults of kernel/vmm.c and kernel/strap.c.
use cabbage_pke.Common.{
  ℕ, ◌+◌, ◌-◌, ◌≤◌, ◌<◌, ◌≡◌, ◌≢◌, refl, sym, ◌∙◌, subst, true, false, List, ◌∷◌, arith, not, ◌&&◌,
  ok, ◌>>=◌, Returns, Yields, Yields-bind, Yields-ok, ltb, leb, ◌==◌, if◌then◌else◌, ==_refl, ne→==,
  has, lt→leb, length, ◌^◌,
}
use cabbage_pke.Pmm.{max_refs, Pmm, bad_page, free_page, alloc_page, ref_insert}
use cabbage_pke.Pmm.Counts.Unique.{ref_insert_again, free_page-ref_insert}
use cabbage_pke.Pmm.Counts.{refcount}
use cabbage_pke.Pmm.Pages.{IsPool, bad_page-eq-false, free_page-IsPool}
use cabbage_pke.Vmm.{Pte, page_of, Vm, set_pte, cow_vm_map, maxva, prot_to_type}
use cabbage_pke.Vmm.Lookup.{Leads, Leads-set_pte, page_walk-Leads}
use cabbage_pke.Space.{user_stack_top, user_page, store_fault}

-- The entry at `a` is `e`, and every other entry is what it was.
abbrev pub EntrySet : (ℕ → Pte) → ℕ → Pte → (ℕ → Pte) → Type 0
EntrySet ptes a e ptes' = (ptes' a ≡ e) × ((b : ℕ) → b ≢ a → ptes' b ≡ ptes b)

set_pte-EntrySet : (ptes : ℕ → Pte) (a : ℕ) (e : Pte) → EntrySet ptes a e (set_pte ptes a e)
set_pte-EntrySet ptes a e = (rw (==_refl a) refl, (λ b ne. rw (ne→== a b (λ z. ne (sym z))) refl))

abbrev pub shared_page : ℕ → Pte
shared_page pa = record {
  valid = true;
  perm = prot_to_type true false false true;
  rsw = true;
  pa = page_of pa;
}

alloc_page-head : (s : Pmm) → Yields (alloc_page s) (λ (page, s'). page ≡ s.head)
unfolding alloc_page
alloc_page-head s =
    Yields-bind (λ (page, s'). page ≡ s.head) (ref_insert s.refs s.head) _ (λ refs. refl)

-- A store to a shared page of which another reference is left, where the next page of the pool is counted:
-- the fault ends, takes one reference to the shared page away, and puts into the entry, writable and not
-- shared, the page at the head of the free list, which is another page; every other entry is left alone.
pub store_fault-Fresh :
    (vm : Vm) (pagetable sp stval a y page : ℕ) (ys : List ℕ) (s s' : Pmm)
    → stval < maxva
    → ltb sp stval && ltb stval user_stack_top ≡ false
    → Leads 2 stval pagetable vm a
    → (vm.ptes a).rsw ≡ true
    → IsPool vm.pmm (y ∷ ys)
    → bad_page vm.pmm (vm.ptes a).pa ≡ false
    → has (vm.ptes a).pa (y ∷ ys) ≡ false
    → 2 ≤ refcount (vm.ptes a).pa vm.pmm.refs
    → free_page vm.pmm (vm.ptes a).pa ≡ ok s
    → alloc_page s ≡ ok (page, s')
    → Returns (store_fault vm pagetable sp stval) (λ vm'.
      EntrySet vm.ptes a (user_page y) vm'.ptes
      × (y ≢ (vm.ptes a).pa)
      × (vm'.pmm ≡ s')
      × (refcount (vm.ptes a).pa s.refs + 1 ≡ refcount (vm.ptes a).pa vm.pmm.refs))
unfolding store_fault
store_fault-Fresh vm pagetable sp stval a y page ys s s' low heap way shared pool good used more
      freed taken =
    (
      record { pmm = s'; ptes = set_pte vm.ptes a (user_page page) },
      rw
          (
            heap,
            page_walk-Leads vm pagetable stval a false low way,
            ◌>>=◌,
            shared,
            not,
            freed,
            taken,
            ne→== page 0 (λ e. there (sym at ∙ e)),
          )
          refl,
      (
        subst (λ p. EntrySet vm.ptes a (user_page p) (set_pte vm.ptes a (user_page page))) at
            (set_pte-EntrySet vm.ptes a (user_page page)),
        (λ e. ground arith),
        refl,
        after.1,
      ),
    )
  where
    origin : ℕ
    origin = (vm.ptes a).pa

    Left : Pmm → Type 0
    Left t =
        IsPool t (if leb (refcount origin vm.pmm.refs) 1 then origin ∷ y ∷ ys else y ∷ ys)
        × ((q : ℕ)
            → refcount q t.refs
              ≡ (if origin == q then refcount q vm.pmm.refs - 1 else refcount q vm.pmm.refs))

    of : Returns (free_page vm.pmm origin) Left → Yields (free_page vm.pmm origin) Left
    of (t, run, h) = rw run h

    one : leb (refcount origin vm.pmm.refs) 1 ≡ false
    one = lt→leb (refcount origin vm.pmm.refs) 1 (omega arith)

    settled :
        Left s → IsPool s (y ∷ ys) × (refcount origin s.refs + 1 ≡ refcount origin vm.pmm.refs)
    settled (h, counts) = (
      subst (λ b. IsPool s (if b then origin ∷ y ∷ ys else y ∷ ys)) one h,
      ground (arith, counts origin),
    )

    after :
        IsPool s (y ∷ ys)
        × (refcount (vm.ptes a).pa s.refs + 1 ≡ refcount (vm.ptes a).pa vm.pmm.refs)
    after = settled (
        Yields-ok Left (free_page vm.pmm origin) s freed
          (of (free_page-IsPool vm.pmm (y ∷ ys) pool origin good used)))

    at : page ≡ y
    at =
        Yields-ok (λ (p, t). p ≡ s.head) (alloc_page s) (page, s') taken (alloc_page-head s)
        ∙ after.0.chain.0

    there : y ≢ 0
    there = after.0.chain.1

-- A child whose tables lead to a free entry gets a page that is in use, with room for one more reference to it, as a
-- shared one, and then stores to it at an address outside of the stack, where the next page of the pool is counted:
-- both steps end, the entry ends up with the page at the head of the free list, which is not the
-- shared one, writable and not shared; every other entry is left alone; and the counts and the free list are those
-- of the pool in which that page had been allocated at once.
pub store_fault-cow_vm_map :
    (vm : Vm) (page_dir sp va a pa y : ℕ) (ys : List ℕ) (s' : Pmm)
    → va < maxva
    → ltb sp va && ltb va user_stack_top ≡ false
    → Leads 2 va page_dir vm a
    → (vm.ptes a).valid ≡ false
    → IsPool vm.pmm (y ∷ ys)
    → bad_page vm.pmm pa ≡ false
    → 0 < refcount pa vm.pmm.refs
    → refcount pa vm.pmm.refs + 1 < 2 ^ 64
    → length vm.pmm.refs < max_refs
    → alloc_page vm.pmm ≡ ok (y, s')
    → Returns
        (do vm₁ ← cow_vm_map vm page_dir va pa; store_fault vm₁ page_dir sp va)
        (λ vm'. EntrySet vm.ptes a (user_page y) vm'.ptes × (vm'.pmm ≡ s') × (y ≢ pa))
unfolding cow_vm_map store_fault
store_fault-cow_vm_map vm page_dir sp va a pa y ys s' low heap way free pool good used more room
      taken =
    let (vs, e, (gained, ordered)) = ref_insert_again vm.pmm pa pool.counted used more room in
    let s₁ : Pmm = record vm.pmm { refs = vs } in
    let vm₁ : Vm = record vm { pmm = s₁; ptes = set_pte vm.ptes a (shared_page pa) } in
    (
      record { pmm = s'; ptes = set_pte vm₁.ptes a (user_page y) },
      rw
          (
            page_walk-Leads vm page_dir va a true low way,
            ◌>>=◌,
            e,
            heap,
            page_walk-Leads vm₁ page_dir va a false low
                (Leads-set_pte 2 va page_dir vm a a (shared_page pa) free way),
            ==_refl a,
            whole,
            free_page-ref_insert vm.pmm pa pool.counted vs gained ordered good used,
            taken,
            ne→== y 0 pool.chain.1,
          )
          refl,
      (
        (rw (==_refl a) refl, (λ b ne. rw (ne→== a b (λ z. ne (sym z))) refl)),
        refl,
        (λ z. ground (arith, pool.unused y (rw (==_refl y) refl))),
      ),
    )
  where
    whole : page_of pa ≡ pa
    whole = omega (arith, (bad_page-eq-false vm.pmm pa good).0)

-- ===== src/Heap/Growth.antt =====
-- How far the `do … while` loop of `alloc_from_new_block` (kernel/process.c) grows the heap.
use cabbage_pke.Common.{
  ℕ, zero, suc, ◌+◌, ◌-◌, ◌*◌, ◌%◌, ◌^◌, ◌≤◌, ◌<◌, ◌≡◌, refl, inl, inr, true, false, arith, ok,
  ◌>>=◌, Returns, Yields, Yields-ok, Yields-bind, ◌⊎◌, ltb, ◌==◌, if◌then◌else◌, Bool-cases, ltb→lt,
  ltb→le, subst,
}
use cabbage_pke.Pmm.{pgsize, alloc_page}
use cabbage_pke.Vmm.{prot_to_type, user_vm_map}
use cabbage_pke.Heap.{Heap, grow_page, grow}

grow_page-heap_top :
    (h : Heap) → Yields (grow_page h) (λ h'. h'.heap_top ≡ (h.heap_top + pgsize) % 2 ^ 64)
unfolding grow_page
grow_page-heap_top h =
    Yields-bind (λ h'. h'.heap_top ≡ (h.heap_top + pgsize) % 2 ^ 64) (alloc_page h.vm.pmm) _
      (λ (page, s). elim (Bool-cases (page == 0)) [
        | inl e ↦ rw e tt
        | inr e ↦ rw e (
            Yields-bind (λ h'. h'.heap_top ≡ (h.heap_top + pgsize) % 2 ^ 64)
              (user_vm_map (record h.vm { pmm = s }) h.pagetable h.heap_top pgsize page
                (prot_to_type true true false true))
              _ (λ vm. refl))
      ])

grow_page-next_top :
    (h h' : Heap)
    → grow_page h ≡ ok h'
    → h.heap_top + pgsize < 2 ^ 64
    → h'.heap_top ≡ h.heap_top + pgsize
grow_page-next_top h h' e low =
    let up =
      Yields-ok (λ h'. h'.heap_top ≡ (h.heap_top + pgsize) % 2 ^ 64) (grow_page h) h' e
        (grow_page-heap_top h) in
    omega arith

-- `k` pages can be added, one behind the other.
abbrev pub HasRoom : ℕ → Heap → Type 0
HasRoom zero h = Unit {0}
HasRoom (suc k) h = (h' : Heap) × (grow_page h ≡ ok h') × HasRoom k h'

-- The last page, what is left, and the heap of a growth by `need` bytes from a top on.
abbrev pub Grown : ℕ → ℕ → ℕ × ℕ × Heap → Type 0
Grown top need (last, left, h') =
    (h'.heap_top ≡ last + pgsize)
    × (left ≤ pgsize)
    × (need ≤ pgsize → (last + left ≡ top + need) × (top + need ≤ h'.heap_top))
    × (pgsize < need
        → (last + left + pgsize ≡ top + need) × (h'.heap_top + left ≡ top + need) × (0 < left))

-- What one round leaves of `need`.
abbrev Left : ℕ → ℕ → Type 0
Left need left = ((need ≤ pgsize) × (left ≡ need)) ⊎ ((pgsize < need) × (left + pgsize ≡ need))

cut-Left : (need : ℕ) → Left need (if ltb pgsize need then need - pgsize else need)
cut-Left need = elim (Bool-cases (ltb pgsize need)) [
  | inl e ↦ rw e (inr (ltb→lt pgsize need e, omega (arith, ltb→lt pgsize need e)))
  | inr e ↦ rw e (inl (ltb→le pgsize need e, refl))
]

widen :
    (top need left : ℕ) (r : ℕ × ℕ × Heap)
    → pgsize < left
    → Left need left
    → Grown (top + pgsize) left r
    → Grown top need r
widen top need left (last, rest, h') more (inl (small, e)) g = absurd (omega arith)
widen top need left (last, rest, h') more (inr (large, e)) (at, fits, one, many) =
    let (a, b, c) = many more in
    (at, fits, (λ small. absurd (omega arith)), (λ l. (omega arith, omega arith, c)))

round :
    (k : ℕ) (h h' : Heap) (need left : ℕ)
    → h'.heap_top ≡ h.heap_top + pgsize
    → Left need left
    → (pgsize < left → Returns (grow k h' left) (Grown h'.heap_top left))
    → Returns
        (elim (ltb pgsize left) [ true ↦ grow k h' left | false ↦ ok (h.heap_top, left, h') ])
        (Grown h.heap_top need)
round k h h' need left up part rest = elim (Bool-cases (ltb pgsize left)) [
  | inl more ↦
      let (r, e, g) = rest (ltb→lt pgsize left more) in
      (
        r,
        rw more e,
        widen h.heap_top need left r (ltb→lt pgsize left more) part
            (subst (λ t. Grown t left r) up g),
      )
  | inr done ↦ ((h.heap_top, left, h'), rw done refl, last part (ltb→le pgsize left done))
]
  where
    last : Left need left → left ≤ pgsize → Grown h.heap_top need (h.heap_top, left, h')
    last (inl (small, e)) fits =
        (up, fits, (λ s. (omega arith, omega arith)), (λ l. absurd (omega arith)))
    last (inr (large, e)) fits =
        (up, fits, (λ s. absurd (omega arith)), (λ l. (omega arith, omega arith, omega arith)))

smaller :
    (k need left : ℕ)
    → Left need left
    → pgsize < left
    → need ≤ suc k * pgsize + pgsize
    → left ≤ k * pgsize + pgsize
smaller k need left (inl (small, e)) more fits = absurd (omega arith)
smaller k need left (inr (large, e)) more fits = omega arith

pub grow-Grown :
    (k : ℕ) (h : Heap) (need : ℕ)
    → 0 < k
    → HasRoom k h
    → h.heap_top + k * pgsize < 2 ^ 64
    → need ≤ k * pgsize + pgsize
    → Returns (grow k h need) (Grown h.heap_top need)
unfolding grow
grow-Grown zero h need some_k room low fits = absurd (omega arith)
grow-Grown (suc k) h need some_k (h', e, room) low fits =
    rw (e, ◌>>=◌)
      (round k h h' need left up part (λ more.
        grow-Grown k h' left (pages k left more (smaller k need left part more fits)) room
          (omega (arith, up)) (smaller k need left part more fits)))
  where
    left : ℕ
    left = if ltb pgsize need then need - pgsize else need

    part : Left need left
    part = cut-Left need

    up : h'.heap_top ≡ h.heap_top + pgsize
    up = grow_page-next_top h h' e (omega arith)

    pages : (n l : ℕ) → pgsize < l → l ≤ n * pgsize + pgsize → 0 < n
    pages n l more h = omega arith

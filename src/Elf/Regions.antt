-- ===== src/Elf/Regions.antt =====
-- What `elf_load` does to the regions of the process.
use cabbage_pke.Common.{
  ℕ, zero, suc, ◌+◌, ◌≤◌, ◌≡◌, ◌≢◌, ◌⊎◌, inl, inr, refl, sym, ◌∙◌, subst, Bool, true, false, arith,
  Run, ok, panic, fault, Yields, Yields-bind, Yields-then, Yields-mono, ◌==◌, if◌then◌else◌,
  Bool-cases, ne→==, ltb, leb, not, ◌||◌, ◌%◌, ◌^◌,
}
use cabbage_pke.Space.{Space, MappedRegion, region, code_segment, data_segment}
use cabbage_pke.Vfs.Objects.{VinodeOps}
use cabbage_pke.Rfs.{Block}
use cabbage_pke.Pmm.{pgsize, alloc_page}
use cabbage_pke.Vmm.{user_vm_map, prot_to_type}
use cabbage_pke.Syscall.{narrow}
use cabbage_pke.Syscall.Buffers.{from}
use cabbage_pke.Elf.{
  sizeof_prog_header, get_prog_header, el_ok, el_eio, el_err, el_enomem, el_notelf, ElfStatus,
  ElfProgHeader, Image, free_slot, put_region, record_segment, elf_alloc_mb, elf_fpread,
  load_segment, elf_load, max_regions,
}

free_slot-free :
    (k j : ℕ) (infos : ℕ → MappedRegion)
    → ((infos (free_slot k j infos)).va ≡ 0) ⊎ (free_slot k j infos ≡ j + k)
unfolding free_slot
free_slot-free zero j infos = inr (omega arith)
free_slot-free (suc k) j infos = elim (Bool-cases ((infos j).va == 0)) [
  | inl e ↦ rw e (inl (ground arith))
  | inr e ↦ rw e (
      subst (λ n. ((infos (free_slot k (j + 1) infos)).va ≡ 0) ⊎ (free_slot k (j + 1) infos ≡ n))
        (omega arith) (free_slot-free k (j + 1) infos))
]

-- The regions that were there stay; at most `n` are added.
abbrev pub Extended : ℕ → Space → Space → Type 0
Extended n p p' =
    ((i : ℕ) → (p.mapped_info i).va ≢ 0 → p'.mapped_info i ≡ p.mapped_info i)
    × (p.total_mapped_region ≤ p'.total_mapped_region)
    × (p'.total_mapped_region ≤ p.total_mapped_region + n)
    × (p'.pagetable ≡ p.pagetable)
    × (p'.user_heap ≡ p.user_heap)

Yields-if {ℓ} :
    {A : Type ℓ} (P : A → Type 0) (b : Bool) (x y : Run A)
    → (b ≡ true → Yields x P)
    → (b ≡ false → Yields y P)
    → Yields (if b then x else y) P
Yields-if P true x y hx hy = hx refl
Yields-if P false x y hx hy = hy refl

put_region-Extended :
    (p : Space) (j : ℕ) (r : MappedRegion)
    → (p.mapped_info j).va ≡ 0
    → Extended 1 p (put_region p j r)
put_region-Extended p j r unused = (
  (λ i used. rw (ne→== j i (λ e. used (subst (λ z. (p.mapped_info z).va ≡ 0) e unused))) refl),
  omega arith,
  omega arith,
  refl,
  refl,
)

record_segment-Extended :
    (p : Space) (h : ElfProgHeader) → Yields (record_segment p h) (Extended 1 p)
unfolding record_segment
record_segment-Extended p h =
    Yields-if (Extended 1 p) (free_slot max_regions 0 p.mapped_info == max_regions) fault _
      (λ e. tt)
      (λ room.
        Yields-if (Extended 1 p) (h.flags == 5) _ _
          (λ e.
            put_region-Extended p (free_slot max_regions 0 p.mapped_info)
              (region h.vaddr 1 code_segment) (found room))
          (λ e.
            Yields-if (Extended 1 p) (h.flags == 6) _ panic
              (λ e'.
                put_region-Extended p (free_slot max_regions 0 p.mapped_info)
                  (region h.vaddr 1 data_segment) (found room))
              (λ e'. tt)))
  where
    found :
        (free_slot max_regions 0 p.mapped_info == max_regions) ≡ false
        → (p.mapped_info (free_slot max_regions 0 p.mapped_info)).va ≡ 0
    found room = elim (free_slot-free max_regions 0 p.mapped_info) [
      | inl e ↦ e
      | inr e ↦ absurd (ground arith)
    ]

Extended-trans : (n m : ℕ) (p q r : Space) → Extended n p q → Extended m q r → Extended (n + m) p r
Extended-trans n m p q r h h' = (
  (λ i used. h'.0 i (λ e. used (subst (λ z. z.va ≡ 0) (h.0 i used) e)) ∙ h.0 i used),
  omega (arith, h.1, h'.1),
  omega (arith, h.2, h'.2),
  h'.3 ∙ h.3,
  h'.4 ∙ h.4,
)

more : (n : ℕ) (p q : Space) → Extended n p q → Extended (suc n) p q
more n p q h = (h.0, h.1, omega (arith, h.2), h.3, h.4)

loosen : (k : ℕ) (p q : Space) → Extended 1 p q → Extended (suc k) p q
loosen k p q h = (h.0, h.1, omega (arith, h.2), h.3, h.4)

together : (k : ℕ) (p q r : Space) → Extended 1 p q → Extended k q r → Extended (suc k) p r
together k p q r h h' =
    let both = Extended-trans 1 k p q r h h' in
    (both.0, both.1, omega (arith, both.2), both.3, both.4)

module _ {F : Type 0} (ops : ℕ → VinodeOps F) (file : ℕ) where
  abbrev pub After : ℕ → Space → ElfStatus × Image F → Type 0
  After n p (status, m) = Extended n p m.space

  elf_alloc_mb-space :
      (m : Image F) (va size : ℕ)
      → Yields (elf_alloc_mb ops file m va size) (λ (pa, m'). m'.space ≡ m.space)
  unfolding elf_alloc_mb
  elf_alloc_mb-space m va size =
      Yields-if Same (leb pgsize size) panic _ (λ e. tt)
        (λ e. Yields-bind Same (alloc_page m.world.env.pmm) _ (λ (pa, s).
          Yields-if Same (pa == 0) panic _ (λ e'. tt)
            (λ e'.
              Yields-bind Same
                (user_vm_map (record m.vm { pmm = s }) m.space.pagetable va pgsize pa
                  (prot_to_type true true true true))
                _ (λ vm. refl))))
    where
      Same : ℕ × Image F → Type 0
      Same (pa, m') = m'.space ≡ m.space

  load_segment-Extended :
      (m : Image F) (h : ElfProgHeader) → Yields (load_segment ops file m h) (After 1 m.space)
  unfolding load_segment
  load_segment-Extended m h =
      Yields-if (After 1 m.space)
        (ltb h.memsz h.filesz || ltb ((h.vaddr + h.memsz) % 2 ^ 64) h.vaddr) (ok (el_err, m)) _
        (λ e. kept m.space m.space refl)
        (λ e.
          Yields-then (After 1 m.space) (elf_alloc_mb ops file m h.vaddr h.memsz) _
            (elf_alloc_mb-space m h.vaddr h.memsz)
            (λ (dest, m₁) same.
              Yields-bind (After 1 m.space)
                (elf_fpread ops file m₁.world (from m₁.bytes dest) h.memsz h.off) _
                (λ (n, part, w).
                  Yields-if (After 1 m.space) (not (n == h.memsz)) _ _
                    (λ e'. kept m.space m₁.space same)
                    (λ e'.
                      Yields-then (After 1 m.space) (record_segment m₁.space h) _
                        (record_segment-Extended m₁.space h)
                        (λ p longer. subst (λ q. Extended 1 q p) same longer)))))
    where
      kept : (p q : Space) → q ≡ p → Extended 1 p q
      kept p q e =
          subst (Extended 1 p) (sym e) ((λ i used. refl), omega arith, omega arith, refl, refl)

  -- The rest of the loop behind a segment.
  onward :
      (k : ℕ) (header : Block) (off : ℕ) (p : Space) (status : ElfStatus) (m : Image F)
      → Extended 1 p m.space
      → Yields (elf_load ops file k header off m) (After k m.space)
      → Yields
          (elim status as (λ s. Run (ElfStatus × Image F)) [
            | el_ok ↦ elf_load ops file k header off m
            | other ↦ ok (other, m)
          ])
          (After (suc k) p)
  onward k header off p el_ok m first rest =
      Yields-mono (elf_load ops file k header off m) rest
        (λ got h. together k p m.space got.1.space first h)
  onward k header off p el_eio m first rest = loosen k p m.space first
  onward k header off p el_enomem m first rest = loosen k p m.space first
  onward k header off p el_notelf m first rest = loosen k p m.space first
  onward k header off p el_err m first rest = loosen k p m.space first

  -- Whatever the file holds, whenever the loading ends: no region that was in use is changed, no more regions
  -- are added than there are headers, and the page table and the heap manager of the process are the same ones.
  pub elf_load-Extended :
      (k : ℕ) (stack : Block) (off : ℕ) (m : Image F)
      → Yields (elf_load ops file k stack off m) (After k m.space)
  unfolding elf_load
  elf_load-Extended zero stack off m = ((λ i used. refl), omega arith, omega arith, refl, refl)
  elf_load-Extended (suc k) stack off m =
      Yields-bind (After (suc k) m.space) (elf_fpread ops file m.world stack sizeof_prog_header off)
        _
        (λ (n, header, w). elim (Bool-cases (n == sizeof_prog_header)) [
          | inr short ↦ rw short ((λ i used. refl), omega arith, omega arith, refl, refl)
          | inl whole ↦ elim (Bool-cases ((get_prog_header header).type == 1)) [
            | inr other ↦
                rw (whole, other)
                  (Yields-mono
                    (elf_load ops file k header (narrow (off + sizeof_prog_header))
                      (record m { world = w }))
                    (elf_load-Extended k header (narrow (off + sizeof_prog_header))
                      (record m { world = w }))
                    (λ got h. more k m.space got.1.space h))
            | inl load ↦
                rw (whole, load)
                  (Yields-then (After (suc k) m.space)
                    (load_segment ops file (record m { world = w }) (get_prog_header header)) _
                    (load_segment-Extended (record m { world = w }) (get_prog_header header))
                    (λ (status, m₂) longer.
                      onward k header (narrow (off + sizeof_prog_header)) m.space status m₂ longer
                        (elf_load-Extended k header (narrow (off + sizeof_prog_header)) m₂)))
          ]
        ])

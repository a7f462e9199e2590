-- ===== src/Fork/Child.antt =====
-- The child that `do_fork` makes.
use cabbage_pke.Common.{
  ℕ, zero, suc, ◌+◌, ◌<◌, ◌≡◌, ◌≢◌, inl, inr, refl, sym, ◌∙◌, ap, subst, Bool, true, false, some,
  List, [], ◌∷◌, ◌++◌, arith, ok, ◌>>=◌, Returns, Yields, Yields-bind, Yields-then, Yields-mono,
  Yields-ok, if◌then◌else◌, Bool-cases, has, ==_refl, ne→==,
}
use cabbage_pke.Sched.{
  nproc, ProcStatus, ready, is_free, Process, Kernel, update, find_free, insert_to_ready_queue,
}
use cabbage_pke.Sched.Queue.{IsChain, IsChain-links, IsQueue, insert-Inserted}
use cabbage_pke.Sched.Turns.{AllReady}
use cabbage_pke.Space.{Space, Memory, alloc_space}
use cabbage_pke.Space.Regions.{fork_regions}
use cabbage_pke.Vfs.Objects.{World, with_pmm}
use cabbage_pke.ProcFile.{max_files, init_proc_file_management}
use cabbage_pke.Fork.Files.{Apart, Copied, copy_files-Copied}
use cabbage_pke.Fork.{
  Machine, memory_of, copy_files, alloc_process, ready_child, returns_zero, do_fork,
}

find_free-is_free :
    (n i : ℕ) (procs : ℕ → Process)
    → Yields (find_free n i procs) (λ j. (is_free (procs j).status ≡ true) × (j < i + n))
unfolding find_free
find_free-is_free zero i procs = tt
find_free-is_free (suc n) i procs = elim (Bool-cases (is_free (procs i).status)) [
  | inl e ↦ rw (find_free, e) (e, omega arith)
  | inr e ↦
      rw (find_free, e)
        (Yields-mono (find_free n (i + 1) procs) (find_free-is_free n (i + 1) procs)
          (λ j (f, h). (f, omega arith)))
]

module _ (k : Kernel) (xs : List ℕ) (child parent : ℕ) where
  -- The table with the child made READY.
  abbrev adopted : Kernel
  adopted = record k { procs = update k.procs child (ready_child parent (k.procs child)) }

  adopted-IsQueue : IsQueue k xs → IsQueue adopted xs
  adopted-IsQueue q = record {
    chain = IsChain-links k.procs adopted.procs k.ready_queue_head xs (λ i h. ground arith) q.chain;
    distinct = q.distinct;
    bounded = q.bounded;
  }

  -- The child is at the end of the queue.
  abbrev Joined : Kernel → Type 0
  Joined k' =
      IsChain k'.procs k'.ready_queue_head (xs ++ child ∷ [])
      × ((k'.procs child).status ≡ ready)
      × ((k'.procs child).parent ≡ some parent)
      × ((i : ℕ)
          → i ≢ child
          → ((k'.procs i).status ≡ (k.procs i).status) × ((k'.procs i).parent ≡ (k.procs i).parent))

  insert-Joined :
      IsQueue k xs
      → AllReady k xs
      → is_free (k.procs child).status ≡ true
      → Returns (insert_to_ready_queue adopted child) Joined
  insert-Joined q all_ready unused =
      let (k', e, (chain, new, (others, parents, _), _, _, _)) =
        insert-Inserted adopted xs child (adopted-IsQueue q) in
      (
        k',
        e,
        (
          subst (λ b. IsChain k'.procs k'.ready_queue_head (if b then xs else xs ++ child ∷ []))
              outside chain,
          new outside,
          parents child ∙ rw (==_refl child) refl,
          (λ i ne. (
            others i ne ∙ rw (ne→== child i (λ e. ne (sym e))) refl,
            parents i ∙ rw (ne→== child i (λ e. ne (sym e))) refl,
          )),
        ),
      )
    where
      clash : (s : ProcStatus) → is_free s ≡ true → s ≡ ready → ⊥
      clash s h e = absurd (no_ready (subst (λ t. is_free t ≡ true) e h))
        where
          no_ready : is_free ready ≡ true → ⊥
          no_ready h = ground arith

      outside : has child xs ≡ false
      outside = elim (Bool-cases (has child xs)) [
        | inl h ↦ absurd (clash (k.procs child).status unused (all_ready child h))
        | inr h ↦ h
      ]

module _ {F : Type 0} where
  -- A process that was FREE is the one that is allocated; the others keep their spaces and files, and the
  -- scheduler and the memory outside of the page tables are left alone.
  abbrev pub Allocated : Machine F → ℕ × Machine F → Type 0
  Allocated m (i, m') =
      (is_free (m.kernel.procs i).status ≡ true)
      × (i < nproc)
      × (m'.kernel ≡ m.kernel)
      × (m'.bytes ≡ m.bytes)
      × ((j : ℕ) → j ≢ i → m'.spaces j ≡ m.spaces j)
      × ((j : ℕ) → j ≢ i → m'.pfiles j ≡ m.pfiles j)

  alloc_process-Allocated :
      (m : Machine F) (trap_sec_start : ℕ) → Yields (alloc_process m trap_sec_start) (Allocated m)
  unfolding alloc_process
  alloc_process-Allocated m trap_sec_start =
      Yields-then (Allocated m) (find_free nproc 0 m.kernel.procs) _
        (find_free-is_free nproc 0 m.kernel.procs)
        (λ i (f, h).
          Yields-bind (Allocated m) (alloc_space (memory_of m).vm trap_sec_start (m.spaces i)) _
            (λ (space, vm).
              Yields-bind (Allocated m) (init_proc_file_management (with_pmm m.world vm.pmm)) _
                (λ (files, w). (
                  f,
                  h,
                  refl,
                  refl,
                  (λ j ne. rw (ne→== i j (λ e. ne (sym e))) refl),
                  (λ j ne. rw (ne→== i j (λ e. ne (sym e))) refl),
                ))))

  -- The state behind a fork by `parent` of `m` that allocated `child`, for the ready queue `xs` in front of it: `w`
  -- is the world before the entries of the open files are copied, `to` is the page of the child's entries.
  abbrev pub Forked : Machine F → ℕ → List ℕ → ℕ → World F → ℕ → ℕ × Machine F → Type 0
  Forked m parent xs child w to (pid, m') =
      (is_free (m.kernel.procs child).status ≡ true)
      × (child < nproc)
      × (child ≢ parent)
      × (pid ≡ (m'.kernel.procs child).pid)
      × IsChain m'.kernel.procs m'.kernel.ready_queue_head (xs ++ child ∷ [])
      × ((m'.kernel.procs child).status ≡ ready)
      × ((m'.kernel.procs child).parent ≡ some parent)
      × ((m'.spaces child).regs.a0 ≡ 0)
      × ((m'.pfiles child).nfiles ≡ (m.pfiles parent).nfiles)
      × ((m'.pfiles child).cwd ≡ (m.pfiles parent).cwd)
      × ((m'.pfiles child).base ≡ to)
      × Copied max_files 0 w (m.pfiles parent).base to m'.world
      × ((i : ℕ)
          → i ≢ child
          → ((m'.kernel.procs i).status ≡ (m.kernel.procs i).status)
            × ((m'.kernel.procs i).parent ≡ (m.kernel.procs i).parent)
            × (m'.spaces i ≡ m.spaces i)
            × (m'.pfiles i ≡ m.pfiles i))

  -- A fork by a process that is not FREE, on a well-formed ready queue of READY processes, where a process is
  -- allocated, the regions are copied, and the page of the new process for its open files does not overlap the
  -- caller's, ends: the process that was allocated had been FREE and is READY at the end of the queue, with the
  -- caller as its parent, 0 as the result of its call and the caller's count of files and working directory; the
  -- caller gets its pid. From the allocation on, each of the 128 entries of the child becomes the caller's, every
  -- other entry, the caller's own ones too, is left alone, and the count of each dentry goes up by the number of
  -- the caller's entries that name it. Every other process, the caller included, keeps its status, its parent, the
  -- record of its space and the record of its files (their page, their count and the working directory).
  pub do_fork-Forked :
      (stack : ℕ → Bool) (m : Machine F) (trap_sec_start parent : ℕ) (xs : List ℕ)
      → (child : ℕ) (m₁ : Machine F) (c : Space) (mem : Memory) → IsQueue m.kernel xs
      → AllReady m.kernel xs
      → is_free (m.kernel.procs parent).status ≡ false
      → alloc_process m trap_sec_start ≡ ok (child, m₁)
      → fork_regions
          (m₁.spaces parent).total_mapped_region
          0
          stack
          (memory_of m₁)
          (m₁.spaces parent)
          (m₁.spaces child)
        ≡ ok (c, mem)
      → Apart (m₁.pfiles parent).base (m₁.pfiles child).base
      → Returns
          (do_fork stack m trap_sec_start parent)
          (Forked m parent xs child (with_pmm m₁.world mem.vm.pmm) (m₁.pfiles child).base)
  unfolding do_fork
  do_fork-Forked stack m trap_sec_start parent xs child m₁ c mem queue all_ready busy made copied
        disjoint =
      let (k', e, joined) =
        insert-Joined m₁.kernel xs child parent (subst (λ k. IsQueue k xs) (sym got.2) queue)
          (subst (λ k. AllReady k xs) (sym got.2) all_ready)
          (subst (λ k. is_free (k.procs child).status ≡ true) (sym got.2) got.0) in
      (
        ((k'.procs child).pid, after k'),
        rw (made, ◌>>=◌, copied, e) refl,
        (
          got.0,
          got.1,
          apart,
          refl,
          joined.0,
          joined.1,
          joined.2,
          rw (==_refl child) refl,
          rw (==_refl child) (ap (λ p. p.nfiles) (got.5 parent (λ e. apart (sym e)))),
          rw (==_refl child) (ap (λ p. p.cwd) (got.5 parent (λ e. apart (sym e)))),
          rw (==_refl child) refl,
          subst
              (λ from.
                Copied max_files 0 (with_pmm m₁.world mem.vm.pmm) from (m₁.pfiles child).base
                  (after k').world)
              (ap (λ p. p.base) (got.5 parent (λ e. apart (sym e))))
              (copy_files-Copied max_files 0 (with_pmm m₁.world mem.vm.pmm) (m₁.pfiles parent).base
                (m₁.pfiles child).base (omega arith) disjoint),
          (λ i ne. (
            (joined.3 i ne).0 ∙ ap (λ k. (k.procs i).status) got.2,
            (joined.3 i ne).1 ∙ ap (λ k. (k.procs i).parent) got.2,
            rw (ne→== child i (λ e. ne (sym e))) (got.4 i ne),
            rw (ne→== child i (λ e. ne (sym e))) (got.5 i ne),
          )),
        ),
      )
    where
      got : Allocated m (child, m₁)
      got =
          Yields-ok (Allocated m) (alloc_process m trap_sec_start) (child, m₁) made
            (alloc_process-Allocated m trap_sec_start)

      after : Kernel → Machine F
      after k' = record {
        kernel = k';
        vm = mem.vm;
        bytes = mem.bytes;
        world =
            copy_files max_files 0 (with_pmm m₁.world mem.vm.pmm) (m₁.pfiles parent).base
              (m₁.pfiles child).base;
        spaces = update m₁.spaces child (returns_zero c);
        pfiles = update m₁.pfiles child (record (m₁.pfiles child) {
          nfiles = (m₁.pfiles parent).nfiles;
          cwd = (m₁.pfiles parent).cwd;
        });
      }

      clash : (b : Bool) → b ≡ true → b ≡ false → ⊥
      clash b h h' = ground arith

      apart : child ≢ parent
      apart e =
          clash (is_free (m.kernel.procs child).status) got.0
            (subst (λ i. is_free (m.kernel.procs i).status ≡ false) (sym e) busy)

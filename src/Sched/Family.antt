-- ===== src/Sched/Family.antt =====
-- Parents and children: `free_process` and `do_wait` of kernel/process.c.
use cabbage_pke.Common.{
  ℕ, zero, suc, ◌<◌, ◌≡◌, ◌≢◌, refl, sym, subst, ap, inl, inr, true, false, Option, none, some,
  List, [], ◌∷◌, ◌∙◌, arith, Run, ok, panic, ◌>>=◌, Returns, ◌==◌, Bool-cases, ==_iff, ==_refl,
  ne→==, lt→ltb,
}
use cabbage_pke.Common.Int.{ℤ, pos, negsuc}
use cabbage_pke.Sched.{
  nproc, free, ready, running, blocked, is_free, is_ready, should_shutdown, schedule, run, Process,
  zombie, is_zombie, is_blocked, Kernel, update, modify, Next, return, Children, exited, alive,
  childless, scan_children, block_current, reap, do_wait, free_process, wakeup,
}
use cabbage_pke.Sched.Queue.{IsChain, IsChain-links}
use cabbage_pke.Sched.Turns.{AllReady, schedule-Dispatched}
use cabbage_pke.Sched.Scan.{IsChild, IsExited, Scanned, clash, scan_children-Scanned}

should_shutdown-false :
    (n i : ℕ) (procs : ℕ → Process)
    → i < n
    → is_free (procs i).status ≡ false
    → is_zombie (procs i).status ≡ false
    → should_shutdown n procs ≡ false
unfolding should_shutdown
should_shutdown-false zero i procs h used living = absurd (omega arith)
should_shutdown-false (suc n) i procs h used living = elim (Bool-cases (i == n)) [
  | inl e ↦
      let same : i ≡ n = (==_iff i n).0 e in
      rw
        (
          should_shutdown,
          subst (λ l. is_free (procs l).status ≡ false) same used,
          subst (λ l. is_zombie (procs l).status ≡ false) same living,
        )
        refl
  | inr e ↦ ground (arith, should_shutdown-false n i procs (ground arith) used living)
]

-- The caller `me` is blocked and gets no value: the process at the front of the ready queue runs on the hart, the
-- queue is the rest, and no other status changes; with an empty queue the kernel panics.
abbrev pub Blocked : ℕ → Kernel → ℕ → List ℕ → Run ((Option ℤ × Next) × Kernel) → Type 0
Blocked hart k me [] r = r ≡ panic
Blocked hart k me (z ∷ zs) r = Returns r λ ((ret, next), k').
    (ret ≡ none)
    × (next ≡ run z)
    × ((k'.procs me).status ≡ blocked)
    × (k'.current hart ≡ some z)
    × ((k'.procs z).status ≡ running)
    × IsChain k'.procs k'.ready_queue_head zs
    × ((i : ℕ) → i ≢ me → i ≢ z → (k'.procs i).status ≡ (k.procs i).status)

module _ (hart : ℕ) (k : Kernel) (me : ℕ) where
  with_blocked : Kernel
  with_blocked = record k { procs = modify k.procs me (λ x. record x { status = blocked }) }

  block_current-Blocked :
      (xs : List ℕ)
      → k.current hart ≡ some me
      → me < nproc
      → (k.procs me).status ≡ running
      → IsChain k.procs k.ready_queue_head xs
      → AllReady k xs
      → Blocked hart k me xs (block_current hart k)
  unfolding block_current schedule with_blocked
  block_current-Blocked [] now low runs chain all_ready =
      rw
        (
          block_current,
          now,
          schedule,
          chain,
          should_shutdown-false nproc me with_blocked.procs low (rw (==_refl me) refl)
              (rw (==_refl me) refl),
          ◌>>=◌,
        )
        refl
  block_current-Blocked (z ∷ zs) now low runs chain all_ready =
      let ((next, k'), e, (is, left, cur, on, others)) =
        schedule-Dispatched hart with_blocked z zs
          (IsChain-links k.procs with_blocked.procs k.ready_queue_head (z ∷ zs)
            (λ i h. ground arith) chain)
          (rw (ne→== me z other) front) in
      (
        ((none, next), k'),
        rw (block_current, now, e, ◌>>=◌) refl,
        (
          refl,
          is,
          others me other ∙ rw (==_refl me) refl,
          cur,
          on,
          left,
          (λ i ne ne'. others i ne' ∙ rw (ne→== me i (λ e. ne (sym e))) refl),
        ),
      )
    where
      front : (k.procs z).status ≡ ready
      front = all_ready z (rw (==_refl z) refl)

      other : me ≢ z
      other e = absurd (ready_runs (sym front ∙ sym (ap (λ i. (k.procs i).status) e) ∙ runs))
        where
          ready_runs : ready ≡ running → ⊥
          ready_runs h = clash (is_ready running) (subst (λ s. is_ready s ≡ true) h refl) refl

-- What `do_wait(-1)` of `me` may do in front of the ready queue `xs`: reap a child that has exited, block where all
-- the children are alive, or fail for want of a child.
abbrev pub WaitedAny :
    ℕ → Kernel → ℕ → List ℕ → Run ((Option ℤ × Next) × Kernel) → Children → Type 0
WaitedAny hart k me xs r (exited c) =
    (c < nproc)
    × IsChild k (some me) c
    × IsExited k c
    × ((j : ℕ) → j < c → IsChild k (some me) j → IsExited k j → ⊥)
    × Returns r λ ((ret, next), k').
      (ret ≡ some (pos (k.procs c).pid))
      × (next ≡ return)
      × ((k'.procs c).status ≡ free)
      × ((i : ℕ) → i ≢ c → k'.procs i ≡ k.procs i)
      × (k'.ready_queue_head ≡ k.ready_queue_head)
      × (k'.current ≡ k.current)
WaitedAny hart k me xs r alive =
    ((c : ℕ) × (c < nproc) × IsChild k (some me) c)
    × ((j : ℕ) → j < nproc → IsChild k (some me) j → IsExited k j → ⊥)
    × Blocked hart k me xs r
WaitedAny hart k me xs r childless =
    ((j : ℕ) → j < nproc → IsChild k (some me) j → ⊥) × (r ≡ ok ((some (negsuc 0), return), k))

pub do_wait-WaitedAny :
    (hart : ℕ) (k : Kernel) (me : ℕ) (xs : List ℕ)
    → k.current hart ≡ some me
    → me < nproc
    → (k.procs me).status ≡ running
    → IsChain k.procs k.ready_queue_head xs
    → AllReady k xs
    → (c : Children) × WaitedAny hart k me xs (do_wait hart k (negsuc 0)) c
unfolding do_wait
do_wait-WaitedAny hart k me xs now low runs chain all_ready = (
  scan_children nproc 0 k (some me) false,
  any (scan_children nproc 0 k (some me) false) refl
      (scan_children-Scanned nproc 0 k (some me) false),
)
  where
    any :
        (c : Children)
        → scan_children nproc 0 k (some me) false ≡ c
        → Scanned k (some me) 0 nproc false c
        → WaitedAny hart k me xs (do_wait hart k (negsuc 0)) c
    any (exited c) e (_, high, child, gone, first) = (
      omega arith,
      child,
      gone,
      (λ j h. first j (omega arith) h),
      (
        ((some (pos (k.procs c).pid), return), reap k c),
        rw (do_wait, now, e) refl,
        (
          refl,
          refl,
          rw (==_refl c) refl,
          (λ i ne. rw (ne→== c i (λ e. ne (sym e))) refl),
          refl,
          refl,
        ),
      ),
    )
    any alive e (inl impossible, none_gone) = absurd (clash false impossible refl)
    any alive e (inr (c, _, high, child), none_gone) = (
      (c, omega arith, child),
      (λ j h. none_gone j (omega arith) (omega arith)),
      subst (Blocked hart k me xs) (sym (rw (do_wait, now, e) refl))
          (block_current-Blocked hart k me xs now low runs chain all_ready),
    )
    any childless e (_, no_child) =
        ((λ j h. no_child j (omega arith) (omega arith)), rw (do_wait, now, e) refl)

free_process_awake :
    (k : Kernel) (me child : ℕ)
    → (k.procs child).parent ≡ some me
    → me ≢ child
    → is_blocked (k.procs me).status ≡ false
    → free_process k child
      ≡ ok (0, record k { procs = modify k.procs child (λ x. record x { status = zombie }) })
unfolding free_process wakeup
free_process_awake k me child parent other awake =
    rw
      (
        free_process,
        ==_refl child,
        parent,
        wakeup,
        ne→== child me (λ e. other (sym e)),
        awake,
        ◌>>=◌,
      )
      (ap
        (λ q. ok (
          0,
          record k {
            procs = update k.procs child (record (k.procs child) { status = zombie; parent = q });
          },
        ))
        parent)

-- A child below 32 that exits while its parent is not blocked is a zombie, and the parent's wait for it
-- gives its pid and frees the process; neither fails. Other processes keep their status.
pub exit-wait :
    (hart : ℕ) (k : Kernel) (me child : ℕ)
    → 0 < child
    → child < nproc
    → k.current hart ≡ some me
    → (k.procs child).parent ≡ some me
    → me ≢ child
    → is_blocked (k.procs me).status ≡ false
    → Returns
        (do (_, k') ← free_process k child; do_wait hart k' (pos child))
        (λ ((ret, next), k'').
          (ret ≡ some (pos child))
          × (next ≡ return)
          × ((k''.procs child).status ≡ free)
          × ((i : ℕ) → i ≢ child → (k''.procs i).status ≡ (k.procs i).status))
unfolding do_wait
exit-wait hart k me child low high now parent other awake = (
  ((some (pos child), return), reap k' child),
  rw
      (
        free_process_awake k me child parent other awake,
        ◌>>=◌,
        do_wait,
        lt→ltb 0 child low,
        lt→ltb child nproc high,
        now,
        ==_refl child,
        parent,
        ==_refl me,
      )
      refl,
  (refl, refl, rw (==_refl child) refl, (λ i h. ground arith)),
)
  where
    k' : Kernel
    k' = record k { procs = modify k.procs child (λ x. record x { status = zombie }) }

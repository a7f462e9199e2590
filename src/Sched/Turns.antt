-- ===== src/Sched/Turns.antt =====
-- Who runs next: `schedule` of kernel/sched.c on a queue, and the turns that `sys_user_yield`
-- (kernel/syscall.c) and `rrsched` (kernel/strap.c) give.
use cabbage_pke.Common.{
  ℕ, ◌+◌, ◌≤◌, ◌<◌, ◌≡◌, ◌≢◌, refl, sym, subst, ◌∙◌, ap, inl, inr, ◌⊎◌, true, false, some, List, [],
  ◌∷◌, ◌++◌, arith, ok, ◌>>=◌, Returns, leb, ◌==◌, if◌then◌else◌, has, Bool-cases, ==_iff, ==_refl,
  leb→le,
}
use cabbage_pke.Sched.{
  ready, running, Process, Kernel, update, modify, insert_to_ready_queue, Next, return, run,
  schedule, yield, rrsched, time_slice_len,
}
use cabbage_pke.Sched.Queue.{IsChain, IsChain-links, IsQueue, Inserted, insert-Inserted}

-- The process at the front of the queue runs on the hart, and the queue is the rest.
abbrev pub Dispatched : ℕ → Kernel → ℕ → List ℕ → Next × Kernel → Type 0
Dispatched hart k z zs (next, k') =
    (next ≡ run z)
    × IsChain k'.procs k'.ready_queue_head zs
    × (k'.current hart ≡ some z)
    × ((k'.procs z).status ≡ running)
    × ((i : ℕ) → i ≢ z → (k'.procs i).status ≡ (k.procs i).status)

-- A queue with a READY process at its front is left by that process, and it runs.
pub schedule-Dispatched :
    (hart : ℕ) (k : Kernel) (z : ℕ) (zs : List ℕ)
    → IsChain k.procs k.ready_queue_head (z ∷ zs)
    → (k.procs z).status ≡ ready
    → Returns (schedule hart k) (Dispatched hart k z zs)
unfolding schedule
schedule-Dispatched hart k z zs (head, chain) is = (
  (
    run z,
    record k {
      current = update k.current hart (some z);
      ready_queue_head = (k.procs z).queue_next;
      procs = modify k.procs z (λ x. record x { status = running });
    },
  ),
  rw (head, is) refl,
  (
    refl,
    IsChain-links k.procs (modify k.procs z (λ x. record x { status = running }))
        (k.procs z).queue_next zs (λ i h. ground arith) chain,
    rw (==_refl hart) refl,
    rw (==_refl z) refl,
    (λ i h. ground arith),
  ),
)

-- The processes of the queue are READY.
abbrev pub AllReady : Kernel → List ℕ → Type 0
AllReady k xs = (i : ℕ) → has i xs ≡ true → (k.procs i).status ≡ ready

-- `me` goes to the end of the queue `xs`, and the front of that queue runs.
abbrev pub Rotated : ℕ → List ℕ → ℕ → Next × Kernel → Type 0
Rotated hart xs me (next, k') =
    (z : ℕ) × ((zs : List ℕ) × (xs ++ me ∷ [] ≡ z ∷ zs)
      × (next ≡ run z)
      × IsChain k'.procs k'.ready_queue_head zs
      × (k'.current hart ≡ some z)
      × ((k'.procs z).status ≡ running)
      × ((z ≢ me) → (k'.procs me).status ≡ ready))

-- The insertion of `me`, and the schedule behind it.
turn :
    (hart : ℕ) (k k₁ : Kernel) (xs : List ℕ) (me z : ℕ) (zs : List ℕ)
    → insert_to_ready_queue k me ≡ ok k₁
    → Inserted k xs me k₁
    → has me xs ≡ false
    → xs ++ me ∷ [] ≡ z ∷ zs
    → (k₁.procs z).status ≡ ready
    → Returns (insert_to_ready_queue k me >>= schedule hart) (Rotated hart xs me)
turn hart k k₁ xs me z zs inserted (chain, mine, _, _, _, _) fresh split is =
    go (schedule-Dispatched hart k₁ z zs whole is)
  where
    queued : IsChain k₁.procs k₁.ready_queue_head (xs ++ me ∷ [])
    queued =
        subst (λ b. IsChain k₁.procs k₁.ready_queue_head (if b then xs else xs ++ me ∷ [])) fresh
          chain

    whole : IsChain k₁.procs k₁.ready_queue_head (z ∷ zs)
    whole = subst (λ l. IsChain k₁.procs k₁.ready_queue_head l) split queued

    go :
        Returns (schedule hart k₁) (Dispatched hart k₁ z zs)
        → Returns (insert_to_ready_queue k me >>= schedule hart) (Rotated hart xs me)
    go ((next, k'), scheduled, (runs, left, now, on, others)) = (
      (next, k'),
      rw (inserted, ◌>>=◌) scheduled,
      (z, (zs, split, runs, left, now, on, (λ ne. others me (λ e. ne (sym e)) ∙ mine fresh))),
    )

rotate :
    (hart : ℕ) (k : Kernel) (xs : List ℕ) (me : ℕ)
    → IsQueue k xs
    → AllReady k xs
    → has me xs ≡ false
    → Returns (insert_to_ready_queue k me >>= schedule hart) (Rotated hart xs me)
rotate hart k [] me q all fresh =
    let (k₁, e, done) = insert-Inserted k [] me q in
    turn hart k k₁ [] me me [] e done fresh refl (done.1 fresh)
rotate hart k (x ∷ xs) me q all fresh =
    let (k₁, e, done) = insert-Inserted k (x ∷ xs) me q in
    turn hart k k₁ (x ∷ xs) me x (xs ++ me ∷ []) e done fresh refl
      (done.2.0 x (ground arith) ∙ all x (rw (==_refl x) refl))

-- The queue does not look at the status or the ticks of `me`.
pub with_status-IsQueue :
    (k : Kernel) (xs : List ℕ) (me : ℕ) (g : Process → Process)
    → ((p : Process) → (g p).queue_next ≡ p.queue_next)
    → IsQueue k xs
    → IsQueue (record k { procs = modify k.procs me g }) xs
with_status-IsQueue k xs me g same q = record {
  chain = IsChain-links k.procs (modify k.procs me g) k.ready_queue_head xs (λ i h. link i) q.chain;
  distinct = q.distinct;
  bounded = q.bounded;
}
  where
    link : (i : ℕ) → (modify k.procs me g i).queue_next ≡ (k.procs i).queue_next
    link i = elim (Bool-cases (me == i)) [
      | inl e ↦ rw e (same (k.procs me) ∙ ap (λ n. (k.procs n).queue_next) ((==_iff me i).0 e))
      | inr e ↦ rw e refl
    ]

-- A process that yields goes to the end of the queue, and the process that is first then runs on the
-- hart; with an empty queue that is the process itself.
pub yield-Rotated :
    (hart : ℕ) (k : Kernel) (xs : List ℕ) (me : ℕ)
    → k.current hart ≡ some me
    → IsQueue k xs
    → AllReady k xs
    → has me xs ≡ false
    → Returns (yield hart k) (Rotated hart xs me)
unfolding yield
yield-Rotated hart k xs me now q all fresh =
    rw (yield, now)
      (rotate hart (record k { procs = modify k.procs me (λ p. record p { status = ready }) }) xs me
        (with_status-IsQueue k xs me (λ p. record p { status = ready }) (λ p. refl) q)
        (λ i h. ground (arith, all i h)) fresh)

-- A tick counts, and the process goes on while its time slice is not used up; then it takes its turn
-- as in a yield.
pub rrsched-Rotated :
    (hart : ℕ) (k : Kernel) (xs : List ℕ) (me : ℕ)
    → k.current hart ≡ some me
    → IsQueue k xs
    → AllReady k xs
    → has me xs ≡ false
    → (((k.procs me).tick_count + 1 < time_slice_len)
        × Returns (rrsched hart k) (λ (next, k').
          (next ≡ return) × ((k'.procs me).tick_count ≡ (k.procs me).tick_count + 1)))
      ⊎ ((time_slice_len ≤ (k.procs me).tick_count + 1)
          × Returns (rrsched hart k) (Rotated hart xs me))
unfolding rrsched
rrsched-Rotated hart k xs me now q all fresh =
    elim (Bool-cases (leb time_slice_len ((k.procs me).tick_count + 1))) [
      | inl e ↦ inr (
        leb→le time_slice_len ((k.procs me).tick_count + 1) e,
        rw (rrsched, now, e)
            (rotate hart
              (record k {
                procs = modify k.procs me (λ p. record p { tick_count = 0; status = ready });
              })
              xs me
              (with_status-IsQueue k xs me (λ p. record p { tick_count = 0; status = ready })
                (λ p. refl) q)
              (λ i h. ground (arith, all i h)) fresh),
      )
      | inr e ↦ inl (
        ground arith,
        (
          (
            return,
            record k {
              procs =
                  modify k.procs me (λ x. record x { tick_count = (k.procs me).tick_count + 1 });
            },
          ),
          rw (rrsched, now, e) refl,
          (refl, rw (==_refl me) refl),
        ),
      )
    ]

-- ===== src/Sched/Wake.antt =====
-- `__release` of kernel/sched.c: which process a release of a semaphore makes ready.
use cabbage_pke.Common.{
  ℕ, ◌<◌, ◌≡◌, ◌≢◌, refl, sym, subst, ◌∙◌, ap, inl, inr, ◌⊎◌, true, false, some, List, [], ◌∷◌,
  ◌++◌, arith, ◌>>=◌, Returns, leb, if◌then◌else◌, has, Bool-cases, ==_refl, ne→==,
}
use cabbage_pke.Common.Int.{pos, ◌+ℤ◌, ltb_ℤ}
use cabbage_pke.Sched.{sem_max, ready, Process, Kernel, update, modify, waiting_queue_pop, release}
use cabbage_pke.Sched.Queue.{IsChain, IsQueue, insert-Inserted}
use cabbage_pke.Sched.Turns.{with_status-IsQueue}

update_here {ℓ} : {A : Type ℓ} → (f : ℕ → A) (i : ℕ) (v : A) → update f i v i ≡ v
update_here f i v = rw (==_refl i) refl

update_other {ℓ} : {A : Type ℓ} → (f : ℕ → A) (i j : ℕ) (v : A) → j ≢ i → update f i v j ≡ f j
update_other f i j v h = rw (ne→== i j (λ e. h (sym e))) refl

-- `p` left the head of the waiting queue for the end of the ready queue.
abbrev pub Woken : Kernel → ℕ → ℕ → List ℕ → Kernel → Type 0
Woken k sem p xs k' =
    (k'.waiting_queue sem ≡ (k.procs p).queue_next)
    × ((s : ℕ) → s ≢ sem → k'.waiting_queue s ≡ k.waiting_queue s)
    × IsChain k'.procs k'.ready_queue_head (xs ++ p ∷ [])
    × ((k'.procs p).status ≡ ready)
    × ((i : ℕ) → i ≢ p → (k'.procs i).status ≡ (k.procs i).status)

-- The count went up, and `p` was woken where it did not become positive.
abbrev pub Released : Kernel → ℕ → ℕ → List ℕ → Kernel → Type 0
Released k sem p xs k' =
    (k'.sems sem ≡ k.sems sem +ℤ pos 1)
    × ((s : ℕ) → s ≢ sem → k'.sems s ≡ k.sems s)
    × (((ltb_ℤ (pos 0) (k'.sems sem) ≡ true)
          × (k'.procs ≡ k.procs)
          × (k'.ready_queue_head ≡ k.ready_queue_head)
          × (k'.waiting_queue ≡ k.waiting_queue))
        ⊎ ((ltb_ℤ (pos 0) (k'.sems sem) ≡ false) × Woken k sem p xs k'))

-- A release of a semaphore at whose waiting queue a process `p` is first, which is not in the ready queue,
-- ends and adds one to the count of that semaphore alone. Where the count is positive then, nothing else
-- changes; where it is not, `p` leaves the waiting queue, its successor is first there, and `p` is READY at the
-- end of the ready queue, while every other process keeps its status and every other semaphore its queue.
pub release-Woken :
    (k : Kernel) (sem p : ℕ) (xs : List ℕ)
    → sem < sem_max
    → k.waiting_queue sem ≡ some p
    → IsQueue k xs
    → has p xs ≡ false
    → Returns (release k sem) (Released k sem p xs)
unfolding release waiting_queue_pop
release-Woken k sem p xs inside waits q fresh =
    elim (Bool-cases (ltb_ℤ (pos 0) (k.sems sem +ℤ pos 1))) [
      | inl e ↦ (
        k₁,
        rw (release, low, e) refl,
        (
          counted,
          kept,
          inl (subst (λ v. ltb_ℤ (pos 0) v ≡ true) (sym counted) e, refl, refl, refl),
        ),
      )
      | inr e ↦
          let (k', inserted, (chain, mine, (others, _, _), _, sems, waiting)) =
            insert-Inserted k₂ xs p queued in
          (
            k',
            rw (release, low, e, waiting_queue_pop, waits, ◌>>=◌) inserted,
            (
              ap (λ f. f sem) sems ∙ counted,
              (λ s l. ap (λ f. f s) sems ∙ kept s l),
              inr (
                subst (λ v. ltb_ℤ (pos 0) v ≡ false) (sym (ap (λ f. f sem) sems ∙ counted)) e,
                (
                  ap (λ f. f sem) waiting ∙ update_here k.waiting_queue sem (k.procs p).queue_next,
                  (λ s l.
                      ap (λ f. f s) waiting
                      ∙ update_other k.waiting_queue sem s (k.procs p).queue_next l),
                  subst (λ b. IsChain k'.procs k'.ready_queue_head (if b then xs else xs ++ p ∷ []))
                      fresh chain,
                  mine fresh,
                  (λ i l. others i l ∙ other_status i l),
                ),
              ),
            ),
          )
    ]
  where
    low : leb sem_max sem ≡ false
    low = ground arith

    k₁ : Kernel
    k₁ = record k { sems = update k.sems sem (k.sems sem +ℤ pos 1) }

    woken : Process → Process
    woken x = record x { status = ready }

    k₂ : Kernel
    k₂ = record k₁ {
      waiting_queue = update k.waiting_queue sem (k.procs p).queue_next;
      procs = modify k.procs p woken;
    }

    queued : IsQueue k₂ xs
    queued =
        let r = with_status-IsQueue k xs p woken (λ x. refl) q in
        record { chain = r.chain; distinct = r.distinct; bounded = r.bounded }

    counted : k₁.sems sem ≡ k.sems sem +ℤ pos 1
    counted = rw (==_refl sem) refl

    kept : (s : ℕ) → s ≢ sem → k₁.sems s ≡ k.sems s
    kept s l = update_other k.sems sem s (k.sems sem +ℤ pos 1) l

    other_status : (i : ℕ) → i ≢ p → (k₂.procs i).status ≡ (k.procs i).status
    other_status i l = rw (ne→== p i (λ e. l (sym e))) refl

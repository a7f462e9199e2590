-- ===== src/Sched/Queue.antt =====
-- The process queues of kernel/sched.c as lists: who joins, who leaves, and in which order.
use cabbage_pke.Common.{
  ℕ, zero, suc, ◌≤◌, ◌<◌, ◌≡◌, ◌≢◌, refl, sym, subst, ◌∙◌, ap, inl, inr, Bool, true, false, Option,
  none, some, List, [], ◌∷◌, ◌++◌, arith, ok, ◌>>=◌, Returns, ◌==◌, if◌then◌else◌, length, has,
  IsDistinct, Bool-cases, ==_refl, ne→==,
}
use cabbage_pke.Sched.{
  nproc, ProcStatus, ready, Process, Kernel, modify, join_as, find_last, append,
  insert_to_ready_queue,
}

-- From `h` on, the links lead through the processes of `xs` to NULL.
abbrev pub IsChain : (ℕ → Process) → Option ℕ → List ℕ → Type 0
IsChain f h [] = h ≡ none
IsChain f h (x ∷ xs) = (h ≡ some x) × IsChain f (f x).queue_next xs

-- The queue after `proc` was put at its end, where it is not in it yet.
abbrev pub enqueue : List ℕ → ℕ → List ℕ
enqueue xs proc = if has proc xs then xs else xs ++ proc ∷ []

abbrev pub last_of : ℕ → List ℕ → ℕ
last_of x [] = x
last_of x (y ∷ ys) = last_of y ys

-- The links of the chain are what matters.
pub IsChain-links :
    (f g : ℕ → Process) (h : Option ℕ) (xs : List ℕ)
    → ((i : ℕ) → has i xs ≡ true → (g i).queue_next ≡ (f i).queue_next)
    → IsChain f h xs
    → IsChain g h xs
IsChain-links f g h [] same c = c
IsChain-links f g h (x ∷ xs) same (e, c) = (
  e,
  rw (same x (ground arith))
      (IsChain-links f g (f x).queue_next xs (λ i l. same i (ground arith)) c),
)

-- The walk finds the process in the queue, or the end of the queue.
pub find_last_lem :
    (k : ℕ) (f : ℕ → Process) (proc x : ℕ) (xs : List ℕ)
    → IsChain f (f x).queue_next xs
    → length xs < k
    → find_last k f proc x ≡ ok (if has proc (x ∷ xs) then none else some (last_of x xs))
unfolding find_last
find_last_lem zero f proc x xs c h = elim h [ ]
find_last_lem (suc k) f proc x [] c h = elim (Bool-cases (x == proc)) [
  | inl e ↦ rw (find_last, c, e) refl
  | inr e ↦ rw (find_last, c, e) refl
]
find_last_lem (suc k) f proc x (y ∷ ys) c h = elim (Bool-cases (x == proc)) [
  | inl e ↦ rw (find_last, c.0, e) refl
  | inr e ↦ rw (find_last, c.0, e) (find_last_lem k f proc y ys c.1 (omega arith))
]

-- A process that is neither the last one nor the new one is left alone.
append_other :
    (f : ℕ → Process) (status : ProcStatus) (proc p i : ℕ)
    → i ≢ p
    → i ≢ proc
    → append f status proc p i ≡ f i
unfolding append
append_other f status proc p i h h' =
    rw (ne→== proc i (λ e. h' (sym e)), ne→== p i (λ e. h (sym e)))

last_of-has : (x : ℕ) (xs : List ℕ) → has (last_of x xs) (x ∷ xs) ≡ true
last_of-has x [] = rw (==_refl x)
last_of-has x (y ∷ ys) = ground (arith, last_of-has y ys)

last_link :
    (f : ℕ → Process) (status : ProcStatus) (proc p : ℕ)
    → p ≢ proc
    → (append f status proc p p).queue_next ≡ some proc
unfolding append
last_link f status proc p h = rw (ne→== proc p (λ e. h (sym e)), ==_refl p)

new_link :
    (f : ℕ → Process) (status : ProcStatus) (proc p : ℕ)
    → (append f status proc p proc).queue_next ≡ none
unfolding append
new_link f status proc p = rw (==_refl proc)

pub clash : (b : Bool) → b ≡ true → b ≡ false → ⊥
clash b h h' = ground arith

pub differ : (a b : ℕ) (xs : List ℕ) → has a xs ≡ true → has b xs ≡ false → b ≢ a
differ a b xs h h' e = clash (has a xs) h (subst (λ c. has c xs ≡ false) e h')

pub append-IsChain :
    (f : ℕ → Process) (status : ProcStatus) (h : Option ℕ) (proc x : ℕ) (xs : List ℕ)
    → IsChain f h (x ∷ xs)
    → IsDistinct (x ∷ xs)
    → has proc (x ∷ xs) ≡ false
    → IsChain (append f status proc (last_of x xs)) h ((x ∷ xs) ++ proc ∷ [])
append-IsChain f status h proc x [] (e, c) d fresh =
    (e, (last_link f status proc x (ground arith), new_link f status proc x))
append-IsChain f status h proc x (y ∷ ys) (e, c) d fresh =
    let rest = append-IsChain f status (f x).queue_next proc y ys c d.1 (ground arith) in
    let kept : append f status proc (last_of y ys) x ≡ f x =
      append_other f status proc (last_of y ys) x
        (differ (last_of y ys) x (y ∷ ys) (last_of-has y ys) d.0) (ground arith) in
    (e, (ap (λ z. z.queue_next) kept ∙ rest.0, rest.1))

-- The queue of READY processes: `xs` in order, all different, no more than there are processes.
pub record IsQueue (k : Kernel) (xs : List ℕ) : Type 0 where
  pub chain : IsChain k.procs k.ready_queue_head xs
  pub distinct : IsDistinct xs
  pub bounded : length xs ≤ nproc

-- Statuses, parents and counts are what they were.
abbrev pub SameBut : ℕ → Kernel → Kernel → Type 0
SameBut proc k k' =
    ((i : ℕ) → i ≢ proc → (k'.procs i).status ≡ (k.procs i).status)
    × ((i : ℕ) → (k'.procs i).parent ≡ (k.procs i).parent)
    × ((i : ℕ) → (k'.procs i).tick_count ≡ (k.procs i).tick_count)

-- What an insertion gives.
abbrev pub Inserted : Kernel → List ℕ → ℕ → Kernel → Type 0
Inserted k xs proc k' =
    IsChain k'.procs k'.ready_queue_head (enqueue xs proc)
    × ((has proc xs ≡ false) → (k'.procs proc).status ≡ ready)
    × SameBut proc k k'
    × (k'.current ≡ k.current)
    × (k'.sems ≡ k.sems)
    × (k'.waiting_queue ≡ k.waiting_queue)

module _ (f : ℕ → Process) (status : ProcStatus) (proc p : ℕ) where
  pub append-status_new : (append f status proc p proc).status ≡ status
  unfolding append
  append-status_new = ground arith

  pub append-status_other : (i : ℕ) → i ≢ proc → (append f status proc p i).status ≡ (f i).status
  unfolding append
  append-status_other i h = ground arith

  append-parent : (i : ℕ) → (append f status proc p i).parent ≡ (f i).parent
  unfolding append
  append-parent i = ground arith

  append-tick_count : (i : ℕ) → (append f status proc p i).tick_count ≡ (f i).tick_count
  unfolding append
  append-tick_count i = ground arith

-- An insertion ends, puts the process READY at the end of the queue where it is not in the queue yet,
-- and changes nothing but links otherwise.
pub insert-Inserted :
    (k : Kernel) (xs : List ℕ) (proc : ℕ)
    → IsQueue k xs
    → Returns (insert_to_ready_queue k proc) (Inserted k xs proc)
unfolding insert_to_ready_queue
insert-Inserted k [] proc q = (
  record k { procs = modify k.procs proc (join_as ready); ready_queue_head = some proc },
  rw q.chain refl,
  (
    (refl, rw (==_refl proc) refl),
    (λ _. rw (==_refl proc) refl),
    ((λ i h. ground arith), (λ i. ground arith), (λ i. ground arith)),
    refl,
    refl,
    refl,
  ),
)
insert-Inserted k (x ∷ xs) proc q = elim (Bool-cases (has proc (x ∷ xs))) [
  | inl e ↦ (
    k,
    rw (q.chain.0, walk, ◌>>=◌, e) refl,
    (
      rw e q.chain,
      (λ h. absurd (clash (has proc (x ∷ xs)) e h)),
      ((λ i h. refl), (λ i. refl), (λ i. refl)),
      refl,
      refl,
      refl,
    ),
  )
  | inr e ↦ (
    record k { procs = append k.procs ready proc (last_of x xs) },
    rw (q.chain.0, walk, ◌>>=◌, e) refl,
    (
      rw e (append-IsChain k.procs ready k.ready_queue_head proc x xs q.chain q.distinct e),
      (λ h. append-status_new k.procs ready proc (last_of x xs)),
      (
        append-status_other k.procs ready proc (last_of x xs),
        append-parent k.procs ready proc (last_of x xs),
        append-tick_count k.procs ready proc (last_of x xs),
      ),
      refl,
      refl,
      refl,
    ),
  )
]
  where
    walk :
        find_last nproc k.procs proc x
        ≡ ok (if has proc (x ∷ xs) then none else some (last_of x xs))
    walk = find_last_lem nproc k.procs proc x xs q.chain.1 q.bounded

-- ===== src/Sched/Race.antt =====
-- `insert_to_ready_queue` of kernel/sched.c gives its lock back after the walk and before it links the
-- process in, so that another hart can do both in between.
use cabbage_pke.Common.{
  ℕ, ◌≡◌, ◌≢◌, refl, sym, ◌∙◌, ◌≤◌, Option, some, false, List, [], ◌∷◌, ◌++◌, arith, ok, length,
  has, IsDistinct,
}
use cabbage_pke.Sched.{nproc, ready, Process, find_last, append}
use cabbage_pke.Sched.Queue.{
  IsChain, IsChain-links, differ, append-IsChain, append-status_new, append-status_other,
  find_last_lem, last_of,
}

has-append : (a b : ℕ) (xs : List ℕ) → has a xs ≡ false → b ≢ a → has a (xs ++ b ∷ []) ≡ false
has-append a b [] h ne = ground arith
has-append a b (x ∷ xs) h ne = ground (arith, has-append a b xs)

-- Behind `a`'s link, `b`'s is what the last process points to.
twice :
    (f : ℕ → Process) (a b p i : ℕ)
    → i ≢ a
    → (append (append f ready a p) ready b p i).queue_next ≡ (append f ready b p i).queue_next
unfolding append
twice f a b p i h = ground arith

-- Two harts insert `a` and `b` into the ready queue: both walk it, then one links `a` in and the other `b`. Both walks
-- end at the last process of the queue, and the queue is then the old one with `b` alone behind it: `a`
-- is READY and not in that queue.
pub append-append_lost :
    (f : ℕ → Process) (h : Option ℕ) (x : ℕ) (xs : List ℕ) (a b : ℕ)
    → IsChain f h (x ∷ xs)
    → IsDistinct (x ∷ xs)
    → length (x ∷ xs) ≤ nproc
    → has a (x ∷ xs) ≡ false
    → has b (x ∷ xs) ≡ false
    → b ≢ a
    → (find_last nproc f a x ≡ ok (some (last_of x xs)))
      × (find_last nproc f b x ≡ ok (some (last_of x xs)))
      × IsChain
          (append (append f ready a (last_of x xs)) ready b (last_of x xs))
          h
          ((x ∷ xs) ++ b ∷ [])
      × ((append (append f ready a (last_of x xs)) ready b (last_of x xs) a).status ≡ ready)
      × (has a ((x ∷ xs) ++ b ∷ []) ≡ false)
append-append_lost f h x xs a b chain distinct bounded fresh fresh' ne = (
  find_last_lem nproc f a x xs chain.1 bounded ∙ rw fresh refl,
  find_last_lem nproc f b x xs chain.1 bounded ∙ rw fresh' refl,
  IsChain-links (append f ready b p) (append (append f ready a p) ready b p) h ((x ∷ xs) ++ b ∷ [])
      (λ i l.
        twice f a b p i
          (λ e. differ i a ((x ∷ xs) ++ b ∷ []) l (has-append a b (x ∷ xs) fresh ne) (sym e)))
      (append-IsChain f ready h b x xs chain distinct fresh'),
  append-status_other (append f ready a p) ready b p a (λ e. ne (sym e))
      ∙ append-status_new f ready a p,
  has-append a b (x ∷ xs) fresh ne,
)
  where
    p : ℕ
    p = last_of x xs

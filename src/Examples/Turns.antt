-- ===== src/Examples/Turns.antt =====
-- The scheduler at a concrete process table.
use cabbage_pke.Common.{
  ℕ, ◌<◌, ◌≤◌, ◌≡◌, ◌≢◌, ◌⊎◌, inl, inr, refl, false, none, some, [], ◌∷◌, arith, ok, Returns, ◌>>=◌,
  ◌==◌, if◌then◌else◌, has,
}
use cabbage_pke.Common.Int.{pos, negsuc}
use cabbage_pke.Sched.{
  nproc, free, ready, running, Process, Kernel, return, find_last, append, insert_to_ready_queue,
  schedule, yield, rrsched, release, Children, do_wait, free_process, time_slice_len,
}
use cabbage_pke.Sched.Queue.{IsChain, IsQueue, Inserted, insert-Inserted}
use cabbage_pke.Sched.Turns.{
  Dispatched, Rotated, AllReady, schedule-Dispatched, yield-Rotated, rrsched-Rotated,
}
use cabbage_pke.Sched.Wake.{Released, release-Woken}
use cabbage_pke.Sched.Family.{WaitedAny, do_wait-WaitedAny, exit-wait}
use cabbage_pke.Sched.Race.{append-append_lost}

-- Process 1 is running, 2 and 3 are its children and READY in the queue.
abbrev pub table : ℕ → Process
table i = record {
  pid = i;
  status = if i == 1 then running else if i == 2 then ready else if i == 3 then ready else free;
  parent = if i == 2 then some 1 else if i == 3 then some 1 else none;
  queue_next = if i == 2 then some 3 else none;
  tick_count = 1;
}

abbrev pub kernel : Kernel
kernel = record {
  procs = table;
  ready_queue_head = some 2;
  current = λ hart. some 1;
  sems = λ _. pos 0;
  cnt = 0;
  waiting_queue = λ _. none;
}

pub kernel-IsQueue : IsQueue kernel (2 ∷ 3 ∷ [])
kernel-IsQueue = record {
  chain = (refl, (refl, refl));
  distinct = (refl, (refl, tt));
  bounded = omega arith;
}

pub kernel-AllReady : AllReady kernel (2 ∷ 3 ∷ [])
kernel-AllReady i h = one_of i (ground arith)
  where
    one_of : (i : ℕ) → (i ≡ 2) ⊎ (i ≡ 3) → (table i).status ≡ ready
    one_of i (inl e) = rw e refl
    one_of i (inr e) = rw e refl

insert-Inserted_example : Returns (insert_to_ready_queue kernel 4) (Inserted kernel (2 ∷ 3 ∷ []) 4)
insert-Inserted_example = insert-Inserted kernel (2 ∷ 3 ∷ []) 4 kernel-IsQueue

schedule-Dispatched_example : Returns (schedule 0 kernel) (Dispatched 0 kernel 2 (3 ∷ []))
schedule-Dispatched_example = schedule-Dispatched 0 kernel 2 (3 ∷ []) (refl, (refl, refl)) refl

yield-Rotated_example : Returns (yield 0 kernel) (Rotated 0 (2 ∷ 3 ∷ []) 1)
yield-Rotated_example =
    yield-Rotated 0 kernel (2 ∷ 3 ∷ []) 1 refl kernel-IsQueue kernel-AllReady refl

rrsched-Rotated_example :
    ((2 < time_slice_len)
      × Returns (rrsched 0 kernel) (λ (next, k'). (next ≡ return) × ((k'.procs 1).tick_count ≡ 2)))
    ⊎ ((time_slice_len ≤ 2) × Returns (rrsched 0 kernel) (Rotated 0 (2 ∷ 3 ∷ []) 1))
rrsched-Rotated_example =
    rrsched-Rotated 0 kernel (2 ∷ 3 ∷ []) 1 refl kernel-IsQueue kernel-AllReady refl

do_wait-WaitedAny_example :
    (c : Children) × WaitedAny 0 kernel 1 (2 ∷ 3 ∷ []) (do_wait 0 kernel (negsuc 0)) c
do_wait-WaitedAny_example =
    do_wait-WaitedAny 0 kernel 1 (2 ∷ 3 ∷ []) refl (omega arith) refl (refl, (refl, refl))
      kernel-AllReady

exit-wait_example :
    Returns
      (do (_, k') ← free_process kernel 2; do_wait 0 k' (pos 2))
      (λ ((ret, next), k'').
        (ret ≡ some (pos 2))
        × (next ≡ return)
        × ((k''.procs 2).status ≡ free)
        × ((i : ℕ) → i ≢ 2 → (k''.procs i).status ≡ (table i).status))
exit-wait_example = exit-wait 0 kernel 1 2 (omega arith) (omega arith) refl refl (omega arith) refl

append-append_lost_example :
    (find_last nproc table 4 2 ≡ ok (some 3))
    × (find_last nproc table 5 2 ≡ ok (some 3))
    × IsChain (append (append table ready 4 3) ready 5 3) (some 2) (2 ∷ 3 ∷ 5 ∷ [])
    × ((append (append table ready 4 3) ready 5 3 4).status ≡ ready)
    × (has 4 (2 ∷ 3 ∷ 5 ∷ []) ≡ false)
append-append_lost_example =
    append-append_lost table (some 2) 2 (3 ∷ []) 4 5 (refl, (refl, refl)) (refl, (refl, tt))
      (omega arith) refl refl (omega arith)

-- Process 4 waits for semaphore 0.
abbrev held : Kernel
held = record kernel { sems = λ _. negsuc 0; waiting_queue = λ _. some 4 }

held-IsQueue : IsQueue held (2 ∷ 3 ∷ [])
held-IsQueue = record {
  chain = (refl, (refl, refl));
  distinct = (refl, (refl, tt));
  bounded = omega arith;
}

release-Woken_example : Returns (release held 0) (Released held 0 4 (2 ∷ 3 ∷ []))
release-Woken_example = release-Woken held 0 4 (2 ∷ 3 ∷ []) (omega arith) refl held-IsQueue refl

-- ===== src/Sched.antt =====
-- The process table and the scheduler: kernel/sched.c and the parts of kernel/process.c and
-- kernel/strap.c that change the status of a process. A process is named by its index in `procs`.
pub mod Queue
pub mod Turns
pub mod Wake
pub mod Scan
pub mod Family
pub mod Race
use cabbage_pke.Common.{
  ℕ, zero, suc, ◌+◌, Bool, true, false, ◌&&◌, not, Option, none, some, Run, ok, panic, fault,
  out_of_fuel, ◌>>=◌, ltb, leb, ◌==◌, if◌then◌else◌,
}
use cabbage_pke.Common.Int.{ℤ, pos, negsuc, ◌+ℤ◌, ltb_ℤ}

abbrev pub nproc : ℕ
nproc = 32

abbrev pub sem_max : ℕ
sem_max = 100

abbrev pub time_slice_len : ℕ
time_slice_len = 2

-- `enum proc_status`.
pub data ProcStatus : Type 0 where
  free : ProcStatus
  ready : ProcStatus
  running : ProcStatus
  blocked : ProcStatus
  zombie : ProcStatus

abbrev pub is_free : ProcStatus → Bool
is_free free = true
is_free _ = false

abbrev pub is_ready : ProcStatus → Bool
is_ready ready = true
is_ready _ = false

abbrev pub is_blocked : ProcStatus → Bool
is_blocked blocked = true
is_blocked _ = false

abbrev pub is_zombie : ProcStatus → Bool
is_zombie zombie = true
is_zombie _ = false

-- The fields of `process` that scheduling uses.
pub record Process : Type 0 where
  pub pid : ℕ
  pub status : ProcStatus
  pub parent : Option ℕ
  pub queue_next : Option ℕ
  pub tick_count : ℕ

-- The global variables of the scheduler; `current` by hart.
pub record Kernel : Type 0 where
  pub procs : ℕ → Process
  pub ready_queue_head : Option ℕ
  pub current : ℕ → Option ℕ
  pub sems : ℕ → ℤ
  pub cnt : ℕ
  pub waiting_queue : ℕ → Option ℕ

abbrev pub update {ℓ} : {A : Type ℓ} → (ℕ → A) → ℕ → A → ℕ → A
update f i v j = if i == j then v else f j

abbrev pub modify : (ℕ → Process) → ℕ → (Process → Process) → ℕ → Process
modify f i g = update f i (g (f i))

-- `proc->status = status; proc->queue_next = NULL`.
abbrev pub join_as : ProcStatus → Process → Process
join_as status p = record p { status = status; queue_next = none }

-- The walk of a queue from `p` on: `none` where `proc` is in it, else its last element. A walk over
-- more processes than there are does not end.
unfoldable pub find_last : ℕ → (ℕ → Process) → ℕ → ℕ → Run (Option ℕ)
find_last zero procs proc p = out_of_fuel
find_last (suc k) procs proc p = elim (procs p).queue_next [
  | none ↦ ok (if p == proc then none else some p)
  | some q ↦ elim (p == proc) [ true ↦ ok none | false ↦ find_last k procs proc q ]
]

-- `p->queue_next = proc`, then the status and the link of `proc`.
unfoldable pub append : (ℕ → Process) → ProcStatus → ℕ → ℕ → ℕ → Process
append procs status proc p =
    modify (modify procs p (λ x. record x { queue_next = some proc })) proc (join_as status)

unfoldable pub insert_to_ready_queue : Kernel → ℕ → Run Kernel
insert_to_ready_queue k proc = elim k.ready_queue_head [
  | none ↦
      ok (record k { procs = modify k.procs proc (join_as ready); ready_queue_head = some proc })
  | some head ↦ do
    last ← find_last nproc k.procs proc head
    elim last [ none ↦ ok k | some p ↦ ok (record k { procs = append k.procs ready proc p }) ]
]

-- How the kernel goes on: back to the caller, to a process that `switch_to` runs, or to the shutdown
-- of the machine.
pub data Next : Type 0 where
  return : Next
  run : ℕ → Next
  shutdown : Next

-- Every process below `n` is FREE or ZOMBIE.
unfoldable pub should_shutdown : ℕ → (ℕ → Process) → Bool
should_shutdown zero procs = true
should_shutdown (suc n) procs =
    let rest = should_shutdown n procs in
    if is_free (procs n).status then rest else if is_zombie (procs n).status then rest else false

-- `assert` shuts the kernel down as `panic` does; `switch_to` does not return.
unfoldable pub schedule : ℕ → Kernel → Run (Next × Kernel)
schedule hart k = elim k.ready_queue_head [
  | none ↦ if should_shutdown nproc k.procs then ok (shutdown, k) else panic
  | some p ↦
      if not (is_ready (k.procs p).status)
      then panic
      else ok (
        run p,
        record k {
          current = update k.current hart (some p);
          ready_queue_head = (k.procs p).queue_next;
          procs = modify k.procs p (λ x. record x { status = running });
        },
      )
]

unfoldable pub waiting_queue_push : Kernel → ℕ → ℕ → Run Kernel
waiting_queue_push k proc sem = elim (k.waiting_queue sem) [
  | none ↦ ok (record k {
    procs = modify k.procs proc (join_as blocked);
    waiting_queue = update k.waiting_queue sem (some proc);
  })
  | some head ↦ do
    last ← find_last nproc k.procs proc head
    elim last [ none ↦ ok k | some p ↦ ok (record k { procs = append k.procs blocked proc p }) ]
]

unfoldable pub waiting_queue_pop : Kernel → ℕ → Run (ℕ × Kernel)
waiting_queue_pop k sem = elim (k.waiting_queue sem) [
  | none ↦ fault
  | some p ↦ ok (p, record k { waiting_queue = update k.waiting_queue sem (k.procs p).queue_next })
]

-- `sems` has `SEM_MAX` elements, and the index is not looked at.
unfoldable pub sem_init : Kernel → ℤ → Run (ℕ × Kernel)
sem_init k val =
    if leb sem_max k.cnt
    then fault
    else ok (k.cnt, record k { sems = update k.sems k.cnt val; cnt = k.cnt + 1 })

unfoldable pub acquire : ℕ → Kernel → ℕ → Run (Next × Kernel)
acquire hart k sem =
    if leb sem_max sem
    then fault
    else let value = k.sems sem +ℤ negsuc 0 in
      let k₁ = record k { sems = update k.sems sem value } in
      if ltb_ℤ value (pos 0)
      then (elim (k.current hart) [
        | none ↦ fault
        | some proc ↦ do k₂ ← waiting_queue_push k₁ proc sem; schedule hart k₂
      ])
      else ok (return, k₁)

unfoldable pub release : Kernel → ℕ → Run Kernel
release k sem =
    if leb sem_max sem
    then fault
    else let value = k.sems sem +ℤ pos 1 in
      let k₁ = record k { sems = update k.sems sem value } in
      if ltb_ℤ (pos 0) value then ok k₁ else do
        (p, k₂) ← waiting_queue_pop k₁ sem
        insert_to_ready_queue
            (record k₂ { procs = modify k₂.procs p (λ x. record x { status = ready }) }) p

-- `init_proc_pool` on the cleared array.
unfoldable pub init_proc_pool : Kernel → Kernel
init_proc_pool k = record k {
  procs = λ i. record { pid = i; status = free; parent = none; queue_next = none; tick_count = 0 };
}

unfoldable pub wakeup : Kernel → Option ℕ → Run Kernel
wakeup k none = ok k
wakeup k (some p) =
    if is_blocked (k.procs p).status
    then insert_to_ready_queue
        (record k { procs = modify k.procs p (λ x. record x { status = ready }) }) p
    else ok k

unfoldable pub free_process : Kernel → ℕ → Run (ℕ × Kernel)
free_process k proc = do
  let procs' = modify k.procs proc (λ x. record x { status = zombie })
  k' ← wakeup (record k { procs = procs' }) (procs' proc).parent
  ok (0, k')

abbrev pub same_proc : Option ℕ → Option ℕ → Bool
same_proc none none = true
same_proc (some a) (some b) = a == b
same_proc _ _ = false

-- The loop of `do_wait(-1)` with `n` processes left: the zombie child that is found, or whether there
-- is a child.
pub data Children : Type 0 where
  exited : ℕ → Children
  alive : Children
  childless : Children

unfoldable pub scan_children : ℕ → ℕ → Kernel → Option ℕ → Bool → Children
scan_children zero i k me flag = if flag then alive else childless
scan_children (suc n) i k me flag =
    let same = same_proc (k.procs i).parent me in
    let dead = is_zombie (k.procs i).status in
    elim (same && dead) [
      | true ↦ exited i
      | false ↦ scan_children n (i + 1) k me (if same then true else flag)
    ]

-- The value that `do_wait` returns, or the schedule that takes its place: `schedule` does not return,
-- so what follows it in the source is not reached.
unfoldable pub block_current : ℕ → Kernel → Run ((Option ℤ × Next) × Kernel)
block_current hart k = elim (k.current hart) [
  | none ↦ fault
  | some me ↦ do
    (next, k') ←
        schedule hart (record k { procs = modify k.procs me (λ x. record x { status = blocked }) })
    ok ((none, next), k')
]

abbrev pub reap : Kernel → ℕ → Kernel
reap k i = record k { procs = modify k.procs i (λ x. record x { status = free }) }

unfoldable pub do_wait : ℕ → Kernel → ℤ → Run ((Option ℤ × Next) × Kernel)
do_wait hart k (negsuc (suc n)) = ok ((some (negsuc 0), return), k)
do_wait hart k (negsuc zero) = elim (scan_children nproc 0 k (k.current hart) false) [
  | exited i ↦ ok ((some (pos (k.procs i).pid), return), reap k i)
  | childless ↦ ok ((some (negsuc 0), return), k)
  | alive ↦ block_current hart k
]
do_wait hart k (pos pid) =
    if ltb 0 pid && ltb pid nproc
    then (if same_proc (k.procs pid).parent (k.current hart)
        then (if is_zombie (k.procs pid).status
            then ok ((some (pos pid), return), reap k pid)
            else block_current hart k)
        else ok ((some (negsuc 0), return), k))
    else ok ((some (negsuc 0), return), k)

-- The search of `alloc_process` for a FREE process, from `i` on.
unfoldable pub find_free : ℕ → ℕ → (ℕ → Process) → Run ℕ
find_free zero i procs = panic
find_free (suc n) i procs = elim (is_free (procs i).status) [
  | true ↦ ok i
  | false ↦ find_free n (i + 1) procs
]

unfoldable pub rrsched : ℕ → Kernel → Run (Next × Kernel)
rrsched hart k = elim (k.current hart) [
  | none ↦ fault
  | some me ↦
      let ticks = (k.procs me).tick_count + 1 in
      if leb time_slice_len ticks
      then (do
        k₁ ←
            insert_to_ready_queue
              (record k {
                procs = modify k.procs me (λ x. record x { tick_count = 0; status = ready });
              })
              me
        schedule hart k₁)
      else ok
          (return, record k { procs = modify k.procs me (λ x. record x { tick_count = ticks }) })
]

-- `sys_user_yield`.
unfoldable pub yield : ℕ → Kernel → Run (Next × Kernel)
yield hart k = elim (k.current hart) [
  | none ↦ fault
  | some me ↦ do
    k₁ ←
        insert_to_ready_queue
          (record k { procs = modify k.procs me (λ x. record x { status = ready }) }) me
    schedule hart k₁
]

-- ===== src/Syscall.antt =====
-- kernel/syscall.c: the handler that a number and the argument registers name, and the two calls for a page
-- of the heap. The numbers are those of kernel/syscall.h.
pub mod Buffers
pub mod Agree
pub mod Pages
pub mod Transfer
pub mod Files
pub mod Disk
use cabbage_pke.Common.{
  ℕ, zero, suc, ◌+◌, ◌-◌, ◌^◌, ◌%◌, Bool, true, false, not, Run, ok, panic, fault, out_of_fuel,
  ◌>>=◌, ltb, leb, ◌==◌, if◌then◌else◌,
}
use cabbage_pke.Common.Int.{ℤ, pos, negsuc}
use cabbage_pke.Pmm.{pgsize, alloc_page}
use cabbage_pke.Rfs.{Block}
use cabbage_pke.Vfs.Objects.{VinodeOps, World}
use cabbage_pke.ProcFile.{ProcFiles, do_read, do_write}
use cabbage_pke.Vmm.{Vm, lookup_pa, user_vm_map, user_vm_unmap, prot_to_type}
use cabbage_pke.Space.{Space, HeapManager, MappedRegion, max_heap_pages}

-- An `int` in a 64-bit register, and the `int` of a register.
abbrev pub to_uint64 : ℤ → ℕ
to_uint64 (pos n) = n % 2 ^ 64
to_uint64 (negsuc n) = 2 ^ 64 - 1 - n % 2 ^ 64

abbrev pub to_int : ℕ → ℤ
to_int x = if ltb (x % 2 ^ 32) (2 ^ 31) then pos (x % 2 ^ 32) else negsuc (2 ^ 32 - 1 - x % 2 ^ 32)

-- A register that is stored to an `int` and read again.
abbrev pub narrow : ℕ → ℕ
narrow x = to_uint64 (to_int x)

-- A call of a handler with its arguments.
pub data Call : Type 0 where
  sys_user_print : ℕ → ℕ → Call
  sys_user_exit : ℕ → Call
  sys_user_allocate_page : Call
  sys_user_free_page : ℕ → Call
  sys_user_fork : Call
  sys_user_yield : Call
  sys_user_open : ℕ → ℤ → Call
  sys_user_read : ℤ → ℕ → ℕ → Call
  sys_user_write : ℤ → ℕ → ℕ → Call
  sys_user_lseek : ℤ → ℤ → ℤ → Call
  sys_user_stat : ℤ → ℕ → Call
  sys_user_disk_stat : ℤ → ℕ → Call
  sys_user_close : ℤ → Call
  sys_user_opendir : ℕ → Call
  sys_user_readdir : ℤ → ℕ → Call
  sys_user_mkdir : ℕ → Call
  sys_user_closedir : ℤ → Call
  sys_user_link : ℕ → ℕ → Call
  sys_user_unlink : ℕ → Call
  sys_user_exec : ℕ → ℕ → Call
  sys_user_wait : ℤ → Call
  sys_user_gets : ℕ → ℕ → Call
  sys_user_sem_init : ℤ → Call
  sys_user_sem_acquire : ℕ → Call
  sys_user_sem_release : ℕ → Call
  sys_user_malloc : ℕ → Call
  sys_user_free : ℕ → Call
  sys_user_printpa : ℕ → Call
  sys_user_backtrace : ℕ → Call
  sys_user_rcwd : ℕ → Call
  sys_user_ccwd : ℕ → Call
  sys_user_test : ℕ → Call

-- The argument registers that calls use.
pub record Registers : Type 0 where
  pub a0 : ℕ
  pub a1 : ℕ
  pub a2 : ℕ
  pub a3 : ℕ

-- The number behind `SYS_user_base`.
abbrev pub number_is : ℕ → ℕ → Bool
number_is a0 k = a0 == 64 + k

unfoldable pub do_syscall : Registers → Run Call
do_syscall r =
    if number_is r.a0 0
    then ok (sys_user_print r.a1 r.a2)
    else if number_is r.a0 1
    then ok (sys_user_exit r.a1)
    else if number_is r.a0 2
    then ok sys_user_allocate_page
    else if number_is r.a0 3
    then ok (sys_user_free_page r.a1)
    else if number_is r.a0 4
    then ok sys_user_fork
    else if number_is r.a0 5
    then ok sys_user_yield
    else if number_is r.a0 17
    then ok (sys_user_open r.a1 (to_int r.a2))
    else if number_is r.a0 18
    then ok (sys_user_read (to_int r.a1) r.a2 r.a3)
    else if number_is r.a0 19
    then ok (sys_user_write (to_int r.a1) r.a2 r.a3)
    else if number_is r.a0 20
    then ok (sys_user_lseek (to_int r.a1) (to_int r.a2) (to_int r.a3))
    else if number_is r.a0 21
    then ok (sys_user_stat (to_int r.a1) r.a2)
    else if number_is r.a0 22
    then ok (sys_user_disk_stat (to_int r.a1) r.a2)
    else if number_is r.a0 23
    then ok (sys_user_close (to_int r.a1))
    else if number_is r.a0 24
    then ok (sys_user_opendir r.a1)
    else if number_is r.a0 25
    then ok (sys_user_readdir (to_int r.a1) r.a2)
    else if number_is r.a0 26
    then ok (sys_user_mkdir r.a1)
    else if number_is r.a0 27
    then ok (sys_user_closedir (to_int r.a1))
    else if number_is r.a0 28
    then ok (sys_user_link r.a1 r.a2)
    else if number_is r.a0 29
    then ok (sys_user_unlink r.a1)
    else if number_is r.a0 30
    then ok (sys_user_exec r.a1 r.a2)
    else if number_is r.a0 31
    then ok (sys_user_wait (to_int r.a1))
    else if number_is r.a0 32
    then ok (sys_user_gets r.a1 r.a2)
    else if number_is r.a0 33
    then ok (sys_user_sem_init (to_int r.a1))
    else if number_is r.a0 34
    then ok (sys_user_sem_acquire r.a1)
    else if number_is r.a0 35
    then ok (sys_user_sem_release r.a1)
    else if number_is r.a0 36
    then ok (sys_user_malloc r.a1)
    else if number_is r.a0 37
    then ok (sys_user_free r.a1)
    else if number_is r.a0 38
    then ok (sys_user_printpa r.a1)
    else if number_is r.a0 39
    then ok (sys_user_backtrace r.a1)
    else if number_is r.a0 40
    then ok (sys_user_rcwd r.a1)
    else if number_is r.a0 41
    then ok (sys_user_ccwd r.a1)
    else if number_is r.a0 42
    then ok (sys_user_test r.a1)
    else panic

-- One more page in the region of the heap.
abbrev pub more_heap : Space → Space
more_heap p =
    let infos : ℕ → MappedRegion = λ i.
      if 3 == i
      then record (p.mapped_info 3) { npages = (p.mapped_info 3).npages + 1 }
      else p.mapped_info i in
    record p {
      mapped_info = infos;
      user_heap = record p.user_heap { heap_top = p.user_heap.heap_top + pgsize };
    }

-- The address for a page and the heap behind it: a page that was freed, or the top of the heap. A read
-- past the array is undefined.
unfoldable pub heap_address : Space → Run (ℕ × Space)
heap_address p =
    let h = p.user_heap in
    elim h.free_pages_count [
      | zero ↦ ok (h.heap_top, more_heap p)
      | suc k ↦
          if leb max_heap_pages k
          then fault
          else if ltb (h.free_pages_address k) h.heap_top
          then ok
              (h.free_pages_address k, record p { user_heap = record h { free_pages_count = k } })
          else panic
    ]

unfoldable pub allocate_page : Vm → Space → Run (ℕ × Space × Vm)
allocate_page vm p = do
  (pa, s) ← alloc_page vm.pmm
  (va, p') ← heap_address p
  vm' ←
      user_vm_map (record vm { pmm = s }) p.pagetable va pgsize pa
        (prot_to_type true true false true)
  ok (va, p', vm')

-- A store past the array is undefined.
unfoldable pub free_user_page : Vm → Space → ℕ → Run (Space × Vm)
free_user_page vm p va = do
  vm' ← user_vm_unmap vm p.pagetable va
  let h = p.user_heap
  if leb max_heap_pages h.free_pages_count
      then fault
      else let addresses : ℕ → ℕ =
          λ k. if h.free_pages_count == k then va else h.free_pages_address k in
        ok (
          record p {
            user_heap = record h {
              free_pages_address = addresses;
              free_pages_count = h.free_pages_count + 1;
            };
          },
          vm',
        )

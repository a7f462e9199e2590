-- ===== src/Syscall/Agree.antt =====
-- The user library and the dispatch of the kernel.
use cabbage_pke.Common.{ℕ, ◌+◌, ◌≤◌, ◌<◌, ◌^◌, ◌≡◌, ◌↔◌, ◌⊎◌, refl, ap, arith, ok}
use cabbage_pke.Common.Int.{ℤ, pos, negsuc}
use cabbage_pke.Syscall.{
  Call, sys_user_print, sys_user_exit, sys_user_allocate_page, sys_user_free_page, sys_user_fork,
  sys_user_yield, sys_user_open, sys_user_read, sys_user_write, sys_user_lseek, sys_user_stat,
  sys_user_disk_stat, sys_user_close, sys_user_opendir, sys_user_readdir, sys_user_mkdir,
  sys_user_closedir, sys_user_link, sys_user_unlink, sys_user_exec, sys_user_wait, sys_user_gets,
  sys_user_sem_init, sys_user_sem_acquire, sys_user_sem_release, sys_user_malloc, sys_user_free,
  sys_user_printpa, sys_user_backtrace, sys_user_rcwd, sys_user_ccwd, sys_user_test, do_syscall,
  to_int, to_uint64,
}
use cabbage_pke.UserLib.{
  UserCall, printu, exit, naive_malloc, naive_free, fork, yield, open_u, read_u, write_u, lseek_u,
  stat_u, disk_stat_u, opendir_u, readdir_u, mkdir_u, closedir_u, link_u, unlink_u, close, exec,
  wait, gets, sem_new, sem_p, sem_v, better_malloc, better_free, printpa, print_backtrace, read_cwd,
  change_cwd, test, user_call, returned,
}

-- A number that fits an `int`.
abbrev pub IsInt : ℤ → Type 0
IsInt (pos n) = n < 2 ^ 31
IsInt (negsuc n) = n < 2 ^ 31

to_int-to_uint64 : (z : ℤ) → IsInt z → to_int (to_uint64 z) ≡ z
to_int-to_uint64 (pos n) h = ground arith
to_int-to_uint64 (negsuc n) h = ground arith

-- The handler that a library function is there for, with the arguments as the handler declares them.
abbrev pub meant : UserCall → Call
meant (printu buf n) = sys_user_print buf n
meant (exit code) = sys_user_exit (to_uint64 code)
meant naive_malloc = sys_user_allocate_page
meant (naive_free va) = sys_user_free_page va
meant fork = sys_user_fork
meant yield = sys_user_yield
meant (open_u pathname flags) = sys_user_open pathname flags
meant (read_u fd buf count) = sys_user_read fd buf count
meant (write_u fd buf count) = sys_user_write fd buf count
meant (lseek_u fd offset whence) = sys_user_lseek fd offset whence
meant (stat_u fd istat) = sys_user_stat fd istat
meant (disk_stat_u fd istat) = sys_user_disk_stat fd istat
meant (opendir_u dirname) = sys_user_opendir dirname
meant (readdir_u fd dir) = sys_user_readdir fd dir
meant (mkdir_u pathname) = sys_user_mkdir pathname
meant (closedir_u fd) = sys_user_closedir fd
meant (link_u fn1 fn2) = sys_user_link fn1 fn2
meant (unlink_u fn) = sys_user_unlink fn
meant (close fd) = sys_user_close fd
meant (exec path arg) = sys_user_exec path arg
meant (wait pid) = sys_user_wait pid
meant (gets buf len) = sys_user_gets buf (to_uint64 len)
meant (sem_new sem) = sys_user_sem_init sem
meant (sem_p sem) = sys_user_sem_acquire (to_uint64 sem)
meant (sem_v sem) = sys_user_sem_release (to_uint64 sem)
meant (better_malloc n) = sys_user_malloc (to_uint64 n)
meant (better_free va) = sys_user_free va
meant (printpa va) = sys_user_printpa va
meant (print_backtrace depth) = sys_user_backtrace (to_uint64 depth)
meant (read_cwd path) = sys_user_rcwd path
meant (change_cwd path) = sys_user_ccwd path
meant (test path) = sys_user_test path

-- The arguments that the handler takes as an `int` fit one.
abbrev pub IntsFit : UserCall → Type 0
IntsFit (open_u pathname flags) = IsInt flags
IntsFit (read_u fd buf count) = IsInt fd
IntsFit (write_u fd buf count) = IsInt fd
IntsFit (lseek_u fd offset whence) = IsInt fd × IsInt offset × IsInt whence
IntsFit (stat_u fd istat) = IsInt fd
IntsFit (disk_stat_u fd istat) = IsInt fd
IntsFit (readdir_u fd dir) = IsInt fd
IntsFit (closedir_u fd) = IsInt fd
IntsFit (close fd) = IsInt fd
IntsFit (wait pid) = IsInt pid
IntsFit (sem_new sem) = IsInt sem
IntsFit _ = Unit

-- Every function of the user library whose `int` arguments fit an `int` names the handler it is there for,
-- and the handler gets the arguments in their places with their values.
pub do_syscall-user_call : (c : UserCall) → IntsFit c → do_syscall (user_call c) ≡ ok (meant c)
unfolding do_syscall user_call
do_syscall-user_call (open_u pathname flags) h =
    ap (λ z. ok (sys_user_open pathname z)) (to_int-to_uint64 flags h)
do_syscall-user_call (read_u fd buf count) h =
    ap (λ z. ok (sys_user_read z buf count)) (to_int-to_uint64 fd h)
do_syscall-user_call (write_u fd buf count) h =
    ap (λ z. ok (sys_user_write z buf count)) (to_int-to_uint64 fd h)
do_syscall-user_call (lseek_u fd offset whence) (hf, ho, hw) =
    rw (to_int-to_uint64 fd hf, to_int-to_uint64 offset ho, to_int-to_uint64 whence hw) refl
do_syscall-user_call (stat_u fd istat) h =
    ap (λ z. ok (sys_user_stat z istat)) (to_int-to_uint64 fd h)
do_syscall-user_call (disk_stat_u fd istat) h =
    ap (λ z. ok (sys_user_disk_stat z istat)) (to_int-to_uint64 fd h)
do_syscall-user_call (readdir_u fd dir) h =
    ap (λ z. ok (sys_user_readdir z dir)) (to_int-to_uint64 fd h)
do_syscall-user_call (closedir_u fd) h = ap (λ z. ok (sys_user_closedir z)) (to_int-to_uint64 fd h)
do_syscall-user_call (close fd) h = ap (λ z. ok (sys_user_close z)) (to_int-to_uint64 fd h)
do_syscall-user_call (wait pid) h = ap (λ z. ok (sys_user_wait z)) (to_int-to_uint64 pid h)
do_syscall-user_call (sem_new sem) h = ap (λ z. ok (sys_user_sem_init z)) (to_int-to_uint64 sem h)
do_syscall-user_call (printu buf n) h = refl
do_syscall-user_call (exit code) h = refl
do_syscall-user_call naive_malloc h = refl
do_syscall-user_call (naive_free va) h = refl
do_syscall-user_call fork h = refl
do_syscall-user_call yield h = refl
do_syscall-user_call (opendir_u dirname) h = refl
do_syscall-user_call (mkdir_u pathname) h = refl
do_syscall-user_call (link_u fn1 fn2) h = refl
do_syscall-user_call (unlink_u fn) h = refl
do_syscall-user_call (exec path arg) h = refl
do_syscall-user_call (gets buf len) h = refl
do_syscall-user_call (sem_p sem) h = refl
do_syscall-user_call (sem_v sem) h = refl
do_syscall-user_call (better_malloc n) h = refl
do_syscall-user_call (better_free va) h = refl
do_syscall-user_call (printpa va) h = refl
do_syscall-user_call (print_backtrace depth) h = refl
do_syscall-user_call (read_cwd path) h = refl
do_syscall-user_call (change_cwd path) h = refl
do_syscall-user_call (test path) h = refl

-- A result of 64 bits reaches the program unchanged exactly where it is below 2^31 or at least 2^64 - 2^31:
-- an address of the heap at 2^31 or above does not.
pub returned_same :
    (a0 : ℕ) → a0 < 2 ^ 64 → (returned a0 ≡ a0) ↔ ((a0 < 2 ^ 31) ⊎ (2 ^ 64 ≤ a0 + 2 ^ 31))
unfolding returned
returned_same a0 h = ground arith

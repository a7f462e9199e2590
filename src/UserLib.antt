-- ===== src/UserLib.antt =====
-- The calls of user/deps/user_lib.c: the registers that each one loads before its `ecall`, and the result
-- that the program gets.
use cabbage_pke.Common.{ℕ, ◌+◌}
use cabbage_pke.Common.Int.{ℤ}
use cabbage_pke.Syscall.{to_uint64, narrow, Registers}

-- The functions with their arguments. Of `printu` it is the string that `vsnprintf` made and its length.
pub data UserCall : Type 0 where
  printu : ℕ → ℕ → UserCall
  exit : ℤ → UserCall
  naive_malloc : UserCall
  naive_free : ℕ → UserCall
  fork : UserCall
  yield : UserCall
  open_u : ℕ → ℤ → UserCall
  read_u : ℤ → ℕ → ℕ → UserCall
  write_u : ℤ → ℕ → ℕ → UserCall
  lseek_u : ℤ → ℤ → ℤ → UserCall
  stat_u : ℤ → ℕ → UserCall
  disk_stat_u : ℤ → ℕ → UserCall
  opendir_u : ℕ → UserCall
  readdir_u : ℤ → ℕ → UserCall
  mkdir_u : ℕ → UserCall
  closedir_u : ℤ → UserCall
  link_u : ℕ → ℕ → UserCall
  unlink_u : ℕ → UserCall
  close : ℤ → UserCall
  exec : ℕ → ℕ → UserCall
  wait : ℤ → UserCall
  gets : ℕ → ℤ → UserCall
  sem_new : ℤ → UserCall
  sem_p : ℤ → UserCall
  sem_v : ℤ → UserCall
  better_malloc : ℤ → UserCall
  better_free : ℕ → UserCall
  printpa : ℕ → UserCall
  print_backtrace : ℤ → UserCall
  read_cwd : ℕ → UserCall
  change_cwd : ℕ → UserCall
  test : ℕ → UserCall

abbrev pub registers : ℕ → ℕ → ℕ → ℕ → Registers
registers a0 a1 a2 a3 = record { a0 = a0; a1 = a1; a2 = a2; a3 = a3 }

abbrev pub sys_user : ℕ → ℕ
sys_user k = 64 + k

unfoldable pub user_call : UserCall → Registers
user_call (printu buf n) = registers (sys_user 0) buf n 0
user_call (exit code) = registers (sys_user 1) (to_uint64 code) 0 0
user_call naive_malloc = registers (sys_user 2) 0 0 0
user_call (naive_free va) = registers (sys_user 3) va 0 0
user_call fork = registers (sys_user 4) 0 0 0
user_call yield = registers (sys_user 5) 0 0 0
user_call (open_u pathname flags) = registers (sys_user 17) pathname (to_uint64 flags) 0
user_call (read_u fd buf count) = registers (sys_user 18) (to_uint64 fd) buf count
user_call (write_u fd buf count) = registers (sys_user 19) (to_uint64 fd) buf count
user_call (lseek_u fd offset whence) =
    registers (sys_user 20) (to_uint64 fd) (to_uint64 offset) (to_uint64 whence)
user_call (stat_u fd istat) = registers (sys_user 21) (to_uint64 fd) istat 0
user_call (disk_stat_u fd istat) = registers (sys_user 22) (to_uint64 fd) istat 0
user_call (opendir_u dirname) = registers (sys_user 24) dirname 0 0
user_call (readdir_u fd dir) = registers (sys_user 25) (to_uint64 fd) dir 0
user_call (mkdir_u pathname) = registers (sys_user 26) pathname 0 0
user_call (closedir_u fd) = registers (sys_user 27) (to_uint64 fd) 0 0
user_call (link_u fn1 fn2) = registers (sys_user 28) fn1 fn2 0
user_call (unlink_u fn) = registers (sys_user 29) fn 0 0
user_call (close fd) = registers (sys_user 23) (to_uint64 fd) 0 0
user_call (exec path arg) = registers (sys_user 30) path arg 0
user_call (wait pid) = registers (sys_user 31) (to_uint64 pid) 0 0
user_call (gets buf len) = registers (sys_user 32) buf (to_uint64 len) 0
user_call (sem_new sem) = registers (sys_user 33) (to_uint64 sem) 0 0
user_call (sem_p sem) = registers (sys_user 34) (to_uint64 sem) 0 0
user_call (sem_v sem) = registers (sys_user 35) (to_uint64 sem) 0 0
user_call (better_malloc n) = registers (sys_user 36) (to_uint64 n) 0 0
user_call (better_free va) = registers (sys_user 37) va 0 0
user_call (printpa va) = registers (sys_user 38) va 0 0
user_call (print_backtrace depth) = registers (sys_user 39) (to_uint64 depth) 0 0
user_call (read_cwd path) = registers (sys_user 40) path 0 0
user_call (change_cwd path) = registers (sys_user 41) path 0 0
user_call (test path) = registers (sys_user 42) path 0 0

-- The result of `do_user_call`: `ret` is an `int` that `sw` stores `a0` to, and the program gets it as a
-- `uint64`.
unfoldable pub returned : ℕ → ℕ
returned a0 = narrow a0

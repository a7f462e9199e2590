-- ===== src/Syscall/Buffers.antt =====
-- `sys_user_read` and `sys_user_write` of kernel/syscall.c: the loops over the pages of the buffer.
use cabbage_pke.Common.{
  ℕ, zero, suc, ◌+◌, ◌-◌, ◌^◌, ◌%◌, true, false, Run, ok, fault, out_of_fuel, ◌>>=◌, ltb, leb, ◌==◌,
  if◌then◌else◌,
}
use cabbage_pke.Common.Int.{ℤ}
use cabbage_pke.Pmm.{pgsize}
use cabbage_pke.Rfs.{Block}
use cabbage_pke.Vfs.Objects.{VinodeOps, World}
use cabbage_pke.ProcFile.{ProcFiles, do_read, do_write}
use cabbage_pke.Vmm.{Vm, lookup_pa}
use cabbage_pke.Syscall.{to_uint64, narrow}

-- The bytes from `i` on up to the end of the page of `addr`, and no more than `count` in all.
abbrev pub chunk : ℕ → ℕ → ℕ → ℕ
chunk count i addr =
    if ltb (count - i) (pgsize - addr % pgsize) then count - i else pgsize - addr % pgsize

-- The loop of both calls, with the look-up of a page and the call for one part of the buffer: `i` is the
-- `int` of the source as the 64-bit number that it is added and compared as. An address that is not mapped
-- gives a part of page 0, which is no memory.
unfoldable pub transfer {ℓ} :
    {S : Type ℓ} → (ℕ → Run ℕ) → (S → ℕ → ℕ → Run (ℤ × S)) → ℕ → ℕ → ℕ → ℕ → S → Run (ℕ × S)
transfer lookup io zero bufva count i s = out_of_fuel
transfer lookup io (suc k) bufva count i s = elim (ltb i count) [
  | false ↦ ok (count, s)
  | true ↦
      let addr = (bufva + i) % 2 ^ 64 in
      let len = chunk count i addr in
      do
        pa ← lookup addr
        (r, s') ← io s (pa + addr % pgsize) len
        if pa == 0
            then fault
            else let i' = narrow (i + to_uint64 r) in
              elim (ltb (to_uint64 r) len) [
                | true ↦ ok (i', s')
                | false ↦ transfer lookup io k bufva count i' s'
              ]
]

-- The memory seen from an address on, and with what was put there.
abbrev pub from : Block → ℕ → Block
from memory a q = memory (a + q)

abbrev pub put_back : Block → ℕ → Block → Block
put_back memory a part x = if leb a x then part (x - a) else memory x

module _ {F : Type 0} (ops : ℕ → VinodeOps F) where
  -- `stack` is what the array of `do_read` holds.
  unfoldable pub read_part :
      ProcFiles → ℤ → Block → World F × Block → ℕ → ℕ → Run (ℤ × (World F × Block))
  read_part p fd stack (w, memory) a len = do
    (r, part, w') ← do_read ops w p fd (from memory a) stack len
    ok (r, (w', put_back memory a part))

  unfoldable pub write_part : ProcFiles → ℤ → Block → World F → ℕ → ℕ → Run (ℤ × World F)
  write_part p fd memory w a len = do_write ops w p fd (from memory a) len

  unfoldable pub user_read :
      ℕ → Vm → ℕ → ProcFiles → ℤ → ℕ → ℕ → Block → World F × Block → Run (ℕ × (World F × Block))
  user_read fuel vm pagetable p fd bufva count stack s =
      transfer (lookup_pa vm pagetable) (read_part p fd stack) fuel bufva count 0 s

  unfoldable pub user_write :
      ℕ → Vm → ℕ → ProcFiles → ℤ → ℕ → ℕ → Block → World F → Run (ℕ × World F)
  user_write fuel vm pagetable p fd bufva count memory w =
      transfer (lookup_pa vm pagetable) (write_part p fd memory) fuel bufva count 0 w

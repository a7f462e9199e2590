-- ===== src/Fork.antt =====
-- `alloc_process` and `do_fork` of kernel/process.c over the state of the processes, of their address spaces
-- and of their open files.
pub mod Files
pub mod Child
use cabbage_pke.Common.{
  ℕ, zero, suc, ◌+◌, ◌-◌, Bool, true, false, Option, some, Run, ok, ◌>>=◌, ◌==◌, if◌then◌else◌,
}
use cabbage_pke.Common.Int.{ℤ, pos, ◌+ℤ◌}
use cabbage_pke.Pmm.{Pmm}
use cabbage_pke.Vmm.{Vm}
use cabbage_pke.Space.{Space, Memory, alloc_space}
use cabbage_pke.Space.Regions.{fork_regions}
use cabbage_pke.Sched.{nproc, ready, Process, Kernel, update, find_free, insert_to_ready_queue}
use cabbage_pke.Vfs.Objects.{Dentry, World, with_pmm, put_at, set_dentry, set_file}
use cabbage_pke.ProcFile.{ProcFiles, max_files, file_at, init_proc_file_management}

-- What the kernel keeps of its processes, by their index: the scheduler, the spaces with the page tables and
-- the bytes of the memory, and the open files with the file system. The pool of pages is the one of `world`;
-- that of `vm` is not read.
pub record Machine (F : Type 0) : Type 0 where
  pub kernel : Kernel
  pub vm : Vm
  pub bytes : ℕ → ℕ
  pub world : World F
  pub spaces : ℕ → Space
  pub pfiles : ℕ → ProcFiles

abbrev pub count_up : Dentry → Dentry
count_up d = record d { d_ref = d.d_ref +ℤ pos 1 }

-- The status, the parent and the result of the child.
abbrev pub ready_child : ℕ → Process → Process
ready_child parent x = record x { status = ready; parent = some parent }

abbrev pub returns_zero : Space → Space
returns_zero c = record c { regs = record c.regs { a0 = 0 } }

module _ {F : Type 0} where
  abbrev pub memory_of : Machine F → Memory
  memory_of m = record { vm = record m.vm { pmm = m.world.env.pmm }; bytes = m.bytes }

  -- One round of the loop over the entries of the parent, whose page is `from`, for the child's page `to`.
  unfoldable pub copy_file : World F → ℕ → ℕ → ℕ → World F
  copy_file w from to i =
      let f = w.files (file_at from i) in
      let w' = set_file w (file_at to i) f in
      if f.f_dentry == 0 then w' else set_dentry w' f.f_dentry (count_up (w.dentries f.f_dentry))

  unfoldable pub copy_files : ℕ → ℕ → World F → ℕ → ℕ → World F
  copy_files zero i w from to = w
  copy_files (suc k) i w from to = copy_files k (i + 1) (copy_file w from to i) from to

  -- The index of the new process.
  unfoldable pub alloc_process : Machine F → ℕ → Run (ℕ × Machine F)
  alloc_process m trap_sec_start = do
    i ← find_free nproc 0 m.kernel.procs
    (space, vm) ← alloc_space (memory_of m).vm trap_sec_start (m.spaces i)
    (files, w) ← init_proc_file_management (with_pmm m.world vm.pmm)
    ok (
      i,
      record m {
        vm = vm;
        world = w;
        spaces = update m.spaces i space;
        pfiles = update m.pfiles i files;
      },
    )

  -- `stack` is what the filter of the free heap blocks held. The result is the pid of the child.
  unfoldable pub do_fork : (ℕ → Bool) → Machine F → ℕ → ℕ → Run (ℕ × Machine F)
  do_fork stack m trap_sec_start parent = do
    (child, m₁) ← alloc_process m trap_sec_start
    let p = m₁.spaces parent
    (c, mem) ← fork_regions p.total_mapped_region 0 stack (memory_of m₁) p (m₁.spaces child)
    let from = m₁.pfiles parent
    let to = m₁.pfiles child
    let w = copy_files max_files 0 (with_pmm m₁.world mem.vm.pmm) from.base to.base
    let procs = update m₁.kernel.procs child (ready_child parent (m₁.kernel.procs child))
    k ← insert_to_ready_queue (record m₁.kernel { procs = procs }) child
    ok (
      (k.procs child).pid,
      record {
        kernel = k;
        vm = mem.vm;
        bytes = mem.bytes;
        world = w;
        spaces = update m₁.spaces child (returns_zero c);
        pfiles = update m₁.pfiles child (record to { nfiles = from.nfiles; cwd = from.cwd });
      },
    )

-- ===== src/ProcFile.antt =====
-- kernel/proc_file.c: the open files and the working directory of a process, over the virtual file
-- system. The files of a process stand in the page of its `proc_file_management`.
pub mod Table
pub mod Cwd
use cabbage_pke.Common.{
  ℕ, zero, suc, ◌+◌, ◌*◌, Bool, true, false, Option, none, some, List, [], ◌∷◌, ◌++◌, not, Run, ok,
  panic, fault, out_of_fuel, ◌>>=◌, ◌==◌, leb, length, if◌then◌else◌,
}
use cabbage_pke.Common.Int.{ℤ, pos, negsuc}
use cabbage_pke.Pmm.{Pmm, alloc_page, free_page}
use cabbage_pke.Rfs.{Block}
use cabbage_pke.Rfs.File.{Istat, copy_string}
use cabbage_pke.Rfs.Dir.{Name}
use cabbage_pke.Vfs.Objects.{
  max_path_len, fd_none, File, DirEntry, VinodeOps, World, with_pmm, set_file,
}
use cabbage_pke.Vfs.Paths.{Found, lookup_final_dentry}
use cabbage_pke.Vfs.Files.{
  vfs_open, vfs_read, vfs_write, vfs_lseek, vfs_stat, vfs_disk_stat, vfs_close,
}
use cabbage_pke.Vfs.Links.{vfs_link, vfs_unlink}
use cabbage_pke.Vfs.Dirs.{is_dir, vfs_opendir, vfs_readdir, vfs_mkdir, vfs_closedir}

abbrev pub max_files : ℕ
max_files = 128

-- `base` is the address of the page; the array of the files begins behind `cwd`.
pub record ProcFiles : Type 0 where
  pub base : ℕ
  pub cwd : ℕ
  pub nfiles : ℕ

-- `&opened_files[fd]`.
abbrev pub file_at : ℕ → ℕ → ℕ
file_at base fd = base + 8 + 24 * fd

-- The loop of `get_opened_file` from `i` on.
unfoldable pub browse : ℕ → ℕ → ℕ → ℤ → ℕ → ℕ
browse zero i base fd last = last
browse (suc k) i base fd last =
    let rest = browse k (i + 1) base fd (file_at base i) in
    elim fd [ pos n ↦ if i == n then file_at base i else rest | negsuc _ ↦ rest ]

-- The test for NULL behind the loop never holds.
unfoldable pub get_opened_file : ProcFiles → ℤ → ℕ
unfolding browse
get_opened_file p fd = browse max_files 0 p.base fd 0

-- The entry that the loop ended on.
abbrev pub entry_at : ℕ → ℕ → ℕ
entry_at base fd = file_at base (if fd == max_files then 127 else fd)

abbrev pub clear_files : ℕ → ℕ → (ℕ → File) → ℕ → File
clear_files zero base files = files
clear_files (suc k) base files = λ a.
    if file_at base k == a
    then record (files a) { status = fd_none }
    else clear_files k base files a

module _ {F : Type 0} where
  -- The loops that look for an entry that is not in use; `max_files` where all are.
  unfoldable pub free_fd : ℕ → ℕ → ℕ → World F → ℕ
  free_fd zero i base w = i
  free_fd (suc k) i base w = elim ((w.files (file_at base i)).status == fd_none) [
    | true ↦ i
    | false ↦ free_fd k (i + 1) base w
  ]

  unfoldable pub init_proc_file_management : World F → Run (ProcFiles × World F)
  init_proc_file_management w = do
    (page, s) ← alloc_page w.env.pmm
    if page == 0
        then fault
        else ok (
          record { base = page; cwd = w.root; nfiles = 0 },
          record (with_pmm w s) { files = clear_files max_files page w.files },
        )

  unfoldable pub reclaim_proc_file_management : World F → ProcFiles → Run (World F)
  reclaim_proc_file_management w p = do s ← free_page w.env.pmm p.base; ok (with_pmm w s)

module _ {F : Type 0} (ops : ℕ → VinodeOps F) where
  -- The page of the file that `vfs_open` gave is not freed.
  unfoldable pub do_open : World F → ProcFiles → List ℕ → ℕ → Run (ℤ × ProcFiles × World F)
  do_open w p path flags = do
    (opened, w₁) ← vfs_open ops w path flags p.cwd
    if opened == 0
        then ok (negsuc 0, p, w₁)
        else if leb max_files p.nfiles
        then panic
        else let fd = free_fd max_files 0 p.base w₁ in
          ok (
            pos fd,
            record p { nfiles = p.nfiles + 1 },
            set_file w₁ (entry_at p.base fd) (w₁.files opened),
          )

  -- `buffer` is what the array of the function held, and `buf` the caller's memory.
  unfoldable pub do_read : World F → ProcFiles → ℤ → Block → Block → ℕ → Run (ℤ × Block × World F)
  do_read w p fd buf buffer count =
      let file = get_opened_file p fd in
      if not (w.files file).readable then panic else do
        (len, buffer', w') ← vfs_read ops w file buffer count
        let ended : Block = λ q. if count == q then 0 else buffer' q
        ok (len, copy_string count buf ended 0, w')

  unfoldable pub do_write : World F → ProcFiles → ℤ → Block → ℕ → Run (ℤ × World F)
  do_write w p fd buf count =
      let file = get_opened_file p fd in
      if not (w.files file).writable then panic else vfs_write ops w file buf count

  unfoldable pub do_lseek : World F → ProcFiles → ℤ → ℤ → ℕ → Run (ℤ × World F)
  do_lseek w p fd offset whence = vfs_lseek ops w (get_opened_file p fd) offset whence

  unfoldable pub do_stat : World F → ProcFiles → ℤ → ℤ × Istat
  do_stat w p fd = vfs_stat w (get_opened_file p fd)

  unfoldable pub do_disk_stat : World F → ProcFiles → ℤ → Run (ℤ × Istat × World F)
  do_disk_stat w p fd = vfs_disk_stat ops w (get_opened_file p fd)

  -- `nfiles` stays as it is.
  unfoldable pub do_close : World F → ProcFiles → ℤ → Run (ℤ × World F)
  do_close w p fd = vfs_close ops w (get_opened_file p fd)

  unfoldable pub do_opendir : World F → ProcFiles → List ℕ → Run (ℤ × ProcFiles × World F)
  do_opendir w p path = do
    (opened, w₁) ← vfs_opendir ops w path p.cwd
    let fd = free_fd max_files 0 p.base w₁
    if opened == 0
        then ok (negsuc 0, p, w₁)
        else if fd == max_files
        then panic
        else ok (
          pos fd,
          record p { nfiles = p.nfiles + 1 },
          set_file w₁ (file_at p.base fd) (w₁.files opened),
        )

  unfoldable pub do_readdir : World F → ProcFiles → ℤ → DirEntry → Run (ℤ × DirEntry × World F)
  do_readdir w p fd dir = vfs_readdir ops w (get_opened_file p fd) dir

  unfoldable pub do_mkdir : World F → ProcFiles → List ℕ → Run (ℤ × World F)
  do_mkdir w p path = vfs_mkdir ops w path p.cwd

  unfoldable pub do_closedir : World F → ProcFiles → ℤ → Run (ℤ × World F)
  do_closedir w p fd = vfs_closedir ops w (get_opened_file p fd)

  unfoldable pub do_link : World F → ProcFiles → List ℕ → List ℕ → Run (ℤ × World F)
  do_link w p oldpath newpath = vfs_link ops w oldpath newpath p.cwd

  unfoldable pub do_unlink : World F → ProcFiles → List ℕ → Run (ℤ × World F)
  do_unlink w p path = vfs_unlink ops w path p.cwd

  unfoldable pub do_change_cwd : World F → ProcFiles → List ℕ → Run (ℤ × ProcFiles × World F)
  do_change_cwd w p path = do
    f ← lookup_final_dentry ops w path p.cwd
    elim f.this [
      | none ↦ ok (negsuc 0, p, f.world)
      | some dentry ↦
          if not (is_dir f.world dentry)
          then ok (negsuc 0, p, f.world)
          else ok (pos 0, record p { cwd = dentry }, f.world)
    ]

module _ {F : Type 0} where
  -- The loop of `do_read_cwd`: `path` stays the name of the working directory. An array that does not hold
  -- the two names is undefined.
  unfoldable pub climb : ℕ → World F → ℕ → Name → Name → Run Name
  climb zero w parent path copy = out_of_fuel
  climb (suc k) w parent path copy = elim (parent == 0) [
    | true ↦ ok copy
    | false ↦
        let name = (w.dentries parent).name in
        elim (leb max_path_len (length (name ++ path))) [
          | true ↦ fault
          | false ↦ climb k w (w.dentries parent).parent path (name ++ path)
        ]
  ]

  -- The string that is written to `path`.
  unfoldable pub do_read_cwd : ℕ → World F → ProcFiles → Run Name
  do_read_cwd fuel w p =
      let d = w.dentries p.cwd in
      if d.parent == 0 then ok d.name else climb fuel w d.parent d.name []

-- ===== src/Vfs/Ram.antt =====
-- `rfs_i_ops` of kernel/rfs.c: the operations of the RAM-disk file system as the table that the virtual
-- file system calls through.
use cabbage_pke.Common.{ℕ, false, Option, none, some, Run, ok, fault, ◌>>=◌, ◌==◌, if◌then◌else◌}
use cabbage_pke.Common.Int.{ℤ, pos}
use cabbage_pke.Pmm.{alloc_page}
use cabbage_pke.Rfs.{Block, Vinode, Fs, rfs_write_back_vinode}
use cabbage_pke.Rfs.File.{rfs_read, rfs_write, rfs_lseek, rfs_disk_stat}
use cabbage_pke.Rfs.Dir.{rfs_lookup, rfs_create, rfs_mkdir, rfs_link, rfs_unlink}
use cabbage_pke.Rfs.Readdir.{Machine, RfsDirCache, rfs_hook_opendir, rfs_hook_closedir, rfs_readdir}
use cabbage_pke.Vfs.Objects.{Inode, Dentry, Env, VinodeOps}

-- The mounted disk, the bytes of the memory, and the directory caches behind `i_fs_info`, by inode number.
pub record RamDisk : Type 0 where
  pub disk : Fs
  pub memory : Block
  pub caches : ℕ → RfsDirCache

-- `page` is what a page of the pool holds, `stack` what the buffer of `rfs_read` holds; `sb` and
-- `i_ops` are the addresses of the super block and of this table.
module _ (page : Vinode) (stack : Block) (sb i_ops : ℕ) where
  abbrev pub on_disk : Env RamDisk → Fs → Env RamDisk
  on_disk e fs = record e { fs = record e.fs { disk = fs } }

  abbrev pub inode_with : Inode → Vinode → Inode
  inode_with i v = record i { node = v }

  -- `rfs_alloc_vinode` takes the page of a vinode that was made.
  unfoldable pub in_page : Env RamDisk → Option Vinode → Run (Option (ℕ × Inode) × Env RamDisk)
  in_page e none = ok (none, e)
  in_page e (some v) = do
    (a, s) ← alloc_page e.pmm
    if a == 0
        then fault
        else ok (
          some (a, record { node = v; unnumbered = false; sb = sb; i_ops = i_ops }),
          record e { pmm = s },
        )

  abbrev pub machine_of : Env RamDisk → Machine
  machine_of e = record { pmm = e.pmm; memory = e.fs.memory; dev = e.fs.disk.dev }

  abbrev pub with_machine : Env RamDisk → Machine → Env RamDisk
  with_machine e m = record {
    pmm = m.pmm;
    fs = record e.fs { disk = record e.fs.disk { dev = m.dev }; memory = m.memory };
  }

  abbrev pub open_stream : Env RamDisk → Inode → Dentry → Run (ℤ × Inode × Env RamDisk)
  open_stream e i d = do
    (ret, cache, m) ← rfs_hook_opendir (machine_of e) i.node
    let e' = with_machine e m
    let caches : ℕ → RfsDirCache = λ n. if i.node.inum == n then cache else e.fs.caches n
    ok (ret, i, record e' { fs = record e'.fs { caches = caches } })

  abbrev pub close_stream : Env RamDisk → Inode → Dentry → Run (ℤ × Inode × Env RamDisk)
  close_stream e i d = do
    (ret, m) ← rfs_hook_closedir (machine_of e) (e.fs.caches i.node.inum)
    ok (ret, i, with_machine e m)

  abbrev pub rfs_i_ops : VinodeOps RamDisk
  rfs_i_ops = record {
    viop_read = λ e i buf len offset. do
      (n, offset', buf', fs) ← rfs_read e.fs.disk i.node buf stack len offset
      ok (pos n, buf', offset', on_disk e fs);
    viop_write = λ e i buf len offset. do
      (n, offset', v, fs) ← rfs_write e.fs.disk i.node buf len offset
      ok (pos n, offset', inode_with i v, on_disk e fs);
    viop_create = λ e i name. do
      (made, dir, fs) ← rfs_create e.fs.disk page i.node name
      (new, e') ← in_page (on_disk e fs) made
      ok (new, inode_with i dir, e');
    viop_lseek = λ i new_off whence off. rfs_lseek i.node new_off whence off;
    viop_disk_stat = λ e i. do
      (ret, istat, fs) ← rfs_disk_stat e.fs.disk i.node
      ok (ret, istat, on_disk e fs);
    viop_link = λ e i name j. do
      (ret, dir, v, fs) ← rfs_link e.fs.disk i.node name j.node
      ok (ret, inode_with i dir, inode_with j v, on_disk e fs);
    viop_unlink = λ e i name j. do
      (ret, dir, v, fs) ← rfs_unlink e.fs.disk i.node name j.node
      ok (ret, inode_with i dir, inode_with j v, on_disk e fs);
    viop_lookup = λ e i name. do
      (found, fs) ← rfs_lookup e.fs.disk page i.node name
      in_page (on_disk e fs) found;
    viop_readdir = λ e i entry offset.
        let (ret, name, inum, offset') =
          rfs_readdir (machine_of e) i.node (e.fs.caches i.node.inum) entry.name entry.inum
            offset in
        ok (ret, record { name = name; inum = inum }, offset', e);
    viop_mkdir = λ e i name. do
      (made, dir, fs) ← rfs_mkdir e.fs.disk page i.node name
      (new, e') ← in_page (on_disk e fs) made
      ok (new, inode_with i dir, e');
    viop_write_back_vinode = λ e i. do
      (ret, fs) ← rfs_write_back_vinode e.fs.disk i.node
      ok (ret, on_disk e fs);
    viop_hook_open = none;
    viop_hook_close = none;
    viop_hook_opendir = some open_stream;
    viop_hook_closedir = some close_stream;
  }

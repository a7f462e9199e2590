-- ===== src/Syscall/Files.antt =====
-- `sys_user_read` and `sys_user_write` of a file.
use cabbage_pke.Common.{
  ℕ, suc, ◌+◌, ◌-◌, ◌%◌, ◌<◌, ◌^◌, ◌≡◌, ◌≢◌, inl, inr, refl, ap, ◌∙◌, true, false, arith, Run, ok,
  ◌>>=◌, Stops, Stops-bind, Returns, ltb, ◌==◌, if◌then◌else◌, Bool-cases, ==_refl, ne→==, lt→ltb,
}
use cabbage_pke.Common.Int.{ℤ}
use cabbage_pke.Rfs.{Block}
use cabbage_pke.Rfs.File.{copy_string}
use cabbage_pke.Vfs.Objects.{World, Env, Inode, File, VinodeOps, set_file, set_inode, file_i}
use cabbage_pke.Vfs.Files.{is_file, dentry_of, inode_of, vfs_read, vfs_write}
use cabbage_pke.ProcFile.{ProcFiles, get_opened_file, do_read, do_write}
use cabbage_pke.Vmm.{Vm, lookup_pa}
use cabbage_pke.Syscall.Buffers.{
  chunk, transfer, read_part, write_part, user_read, user_write, from, put_back,
}
use cabbage_pke.Syscall.Transfer.{UpTo, Moved, transfer-Moved, lookup_pa-Stops}

module _ {F : Type 0} where
  abbrev pub IsOpenFile : ProcFiles → ℤ → World F → Type 0
  IsOpenFile p fd w = is_file w (get_opened_file p fd) ≡ true

  kept_file :
      (w : World F) (file : ℕ) (f : File) (env : Env F)
      → f.f_dentry ≡ (w.files file).f_dentry
      → is_file (record (set_file w file f) { env = env }) file ≡ is_file w file
  kept_file w file f env e = rw (==_refl file, e) refl

  written_file :
      (w : World F) (file : ℕ) (f : File) (i : Inode) (env : Env F)
      → f.f_dentry ≡ (w.files file).f_dentry
      → is_file
          (record (set_inode (set_file w file f) (dentry_of w file).inode i) { env = env })
          file
        ≡ (i.node.type == file_i)
  written_file w file f i env e = rw (==_refl file, e, ==_refl (dentry_of w file).inode) refl

module _ {F : Type 0} (ops : ℕ → VinodeOps F) where
  -- The hooks of every file system end with as many bytes as were asked for, or fewer, and a write leaves the
  -- type of the inode.
  pub record Moving : Type 0 where
    pub read :
        (t : ℕ) (e : Env F) (i : Inode) (buf : Block) (len offset : ℕ)
        → Stops ((ops t).viop_read e i buf len offset) (λ (r, _, _, _). UpTo len r)
    pub write :
        (t : ℕ) (e : Env F) (i : Inode) (buf : Block) (len offset : ℕ)
        → Stops
            ((ops t).viop_write e i buf len offset)
            (λ (r, _, i', _). UpTo len r × (i'.node.type ≡ i.node.type))

  vfs_read-UpTo :
      Moving
      → (w : World F) (file : ℕ) (buf : Block) (count : ℕ) → (w.files file).readable ≡ true
      → is_file w file ≡ true
      → Stops
          (vfs_read ops w file buf count)
          (λ (r, _, w'). UpTo count r × (is_file w' file ≡ true))
  unfolding vfs_read
  vfs_read-UpTo moving w file buf count y h =
      rw (y, h)
        (Stops-bind Done (viop w.env inode buf count (w.files file).offset)
          (λ (r, buf', offset, env).
            ok (r, buf', record (set_file w file (moved offset)) { env = env }))
          (moving.read inode.i_ops w.env inode buf count (w.files file).offset)
          (λ (r, buf', offset, env) run up. (up, kept_file w file (moved offset) env refl ∙ h)))
    where
      inode : Inode
      inode = inode_of w file

      viop : Env F → Inode → Block → ℕ → ℕ → Run (ℤ × Block × ℕ × Env F)
      viop = (ops inode.i_ops).viop_read

      moved : ℕ → File
      moved offset = record (w.files file) { readable = true; offset = offset }

      Done : ℤ × Block × World F → Type 0
      Done (r, _, w') = UpTo count r × (is_file w' file ≡ true)

  vfs_write-UpTo :
      Moving
      → (w : World F) (file : ℕ) (buf : Block) (count : ℕ) → (w.files file).writable ≡ true
      → is_file w file ≡ true
      → Stops (vfs_write ops w file buf count) (λ (r, w'). UpTo count r × (is_file w' file ≡ true))
  unfolding vfs_write
  vfs_write-UpTo moving w file buf count y h =
      rw (y, h)
        (Stops-bind Done (viop w.env inode buf count (w.files file).offset)
          (λ (r, offset, i, env). ok (
            r,
            record (set_inode (set_file w file (moved offset)) (dentry_of w file).inode i) {
              env = env;
            },
          ))
          (moving.write inode.i_ops w.env inode buf count (w.files file).offset)
          (λ (r, offset, i, env) run (up, type).
            (up, written_file w file (moved offset) i env refl ∙ ap (λ t. t == file_i) type ∙ h)))
    where
      inode : Inode
      inode = inode_of w file

      viop : Env F → Inode → Block → ℕ → ℕ → Run (ℤ × ℕ × Inode × Env F)
      viop = (ops inode.i_ops).viop_write

      moved : ℕ → File
      moved offset = record (w.files file) { writable = true; offset = offset }

      Done : ℤ × World F → Type 0
      Done (r, w') = UpTo count r × (is_file w' file ≡ true)

  read_part-UpTo :
      Moving
      → (p : ProcFiles) (fd : ℤ) (stack : Block) (s : World F × Block) (a len : ℕ)
      → IsOpenFile p fd s.0
      → Stops (read_part ops p fd stack s a len) (λ (r, s'). UpTo len r × IsOpenFile p fd s'.0)
  unfolding read_part do_read
  read_part-UpTo moving p fd stack (w, memory) a len h =
      elim (Bool-cases (w.files (get_opened_file p fd)).readable) [
        | inr closed ↦ rw closed tt
        | inl open_r ↦ rw open_r (
            Stops-bind {P = After} Out
              (do (r, buf', w') ← vfs_read ops w file stack len; ok (copied r buf' w'))
              (λ (r, buf', w'). ok (r, (w', put_back memory a buf')))
              (Stops-bind After (vfs_read ops w file stack len)
                (λ (r, buf', w'). ok (copied r buf' w'))
                (vfs_read-UpTo moving w file stack len open_r h) (λ got run done. done))
              (λ got run done. done))
      ]
    where
      file : ℕ
      file = get_opened_file p fd

      After : ℤ × Block × World F → Type 0
      After (r, _, w') = UpTo len r × IsOpenFile p fd w'

      Out : ℤ × (World F × Block) → Type 0
      Out (r, s') = UpTo len r × IsOpenFile p fd s'.0

      copied : ℤ → Block → World F → ℤ × Block × World F
      copied r buf' w' =
          (r, copy_string len (from memory a) (λ q. if len == q then 0 else buf' q) 0, w')

  write_part-UpTo :
      Moving
      → (p : ProcFiles) (fd : ℤ) (memory : Block) (w : World F) (a len : ℕ) → IsOpenFile p fd w
      → Stops (write_part ops p fd memory w a len) (λ (r, w). UpTo len r × IsOpenFile p fd w)
  unfolding write_part do_write
  write_part-UpTo moving p fd memory w a len h =
      elim (Bool-cases (w.files (get_opened_file p fd)).writable) [
        | inr closed ↦ rw closed tt
        | inl open_w ↦
            rw open_w (vfs_write-UpTo moving w (get_opened_file p fd) (from memory a) len open_w h)
      ]

  -- What the two calls do to an open file of a file system whose hooks are `Moving`, with fewer than 2^31 bytes
  -- and more fuel than bytes: they end without using up the fuel, and where they do not panic or fault, the
  -- result is at most `count` and is the sum of parts that follow one another, none of them empty, none over
  -- the end of its page or of the buffer, each of them full but the last.
  pub user_transfer-Moved :
      Moving
      → (fuel : ℕ) (vm : Vm) (pagetable : ℕ) (p : ProcFiles) (fd : ℤ) (bufva count : ℕ)
      → (stack memory : Block) (w : World F) → IsOpenFile p fd w
      → count < 2 ^ 31
      → count < fuel
      → Stops
          (user_read ops fuel vm pagetable p fd bufva count stack (w, memory))
          (Moved (lookup_pa vm pagetable) (read_part ops p fd stack) bufva count 0 (w, memory))
        × Stops
            (user_write ops fuel vm pagetable p fd bufva count memory w)
            (Moved (lookup_pa vm pagetable) (write_part ops p fd memory) bufva count 0 w)
  unfolding user_read user_write
  user_transfer-Moved moving fuel vm pagetable p fd bufva count stack memory w h small fueled = (
    transfer-Moved (lookup_pa vm pagetable) (read_part ops p fd stack) bufva count
        (λ s. IsOpenFile p fd s.0) (lookup_pa-Stops vm pagetable)
        (λ s a len good. read_part-UpTo moving p fd stack s a len good) small fuel 0 (w, memory) h
        (omega arith) (omega arith),
    transfer-Moved (lookup_pa vm pagetable) (write_part ops p fd memory) bufva count
        (IsOpenFile p fd) (lookup_pa-Stops vm pagetable)
        (λ s a len good. write_part-UpTo moving p fd memory s a len good) small fuel 0 w h
        (omega arith) (omega arith),
  )

  -- A descriptor of a directory that is open for reading: `vfs_read` fails, but `sys_user_read` gives the
  -- count that was asked for, and the file and the disk are as before.
  pub user_read-directory :
      (k : ℕ) (vm : Vm) (pagetable : ℕ) (p : ProcFiles) (fd : ℤ) (bufva count pa : ℕ)
      → (stack memory : Block) (w : World F) → (w.files (get_opened_file p fd)).readable ≡ true
      → is_file w (get_opened_file p fd) ≡ false
      → 0 < count
      → count < 2 ^ 31
      → lookup_pa vm pagetable ((bufva + 0) % 2 ^ 64) ≡ ok pa
      → pa ≢ 0
      → Returns
          (user_read ops (suc (suc k)) vm pagetable p fd bufva count stack (w, memory))
          (λ (n, s'). (n ≡ count) × (s'.0 ≡ w))
  unfolding user_read transfer read_part do_read vfs_read
  user_read-directory k vm pagetable p fd bufva count pa stack memory w open_r dir some_b small
        mapped there =
      (
        (count, (w, put_back memory at (copied (from memory at)))),
        rw
            (
              transfer,
              lt→ltb 0 count some_b,
              mapped,
              ◌>>=◌,
              open_r,
              dir,
              ne→== pa 0 there,
              unsigned,
              transfer,
              past,
            )
            refl,
        (refl, refl),
      )
    where
      at : ℕ
      at = pa + (bufva + 0) % 2 ^ 64 % 4096

      len : ℕ
      len = chunk count 0 ((bufva + 0) % 2 ^ 64)

      copied : Block → Block
      copied b = copy_string len b (λ q. if len == q then 0 else stack q) 0

      unsigned : ltb (2 ^ 64 - 1) len ≡ false
      unsigned = ground arith

      past : ltb (2 ^ 64 - 1) count ≡ false
      past = ground arith

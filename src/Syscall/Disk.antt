-- ===== src/Syscall/Disk.antt =====
-- The RAM-disk file system under `sys_user_read` and `sys_user_write`.
use cabbage_pke.Common.{ℕ, ◌≡◌, arith, Stops-bind}
use cabbage_pke.Rfs.{Block, Vinode}
use cabbage_pke.Rfs.File.{rfs_read, rfs_write}
use cabbage_pke.Rfs.File.Fuel.{rfs_read-Stops, rfs_write-Stops}
use cabbage_pke.Vfs.Ram.{rfs_i_ops}
use cabbage_pke.Syscall.Transfer.{UpTo}
use cabbage_pke.Syscall.Files.{Moving}

-- The hooks of the RAM-disk file system are `Moving`.
pub rfs_i_ops-Moving :
    (page : Vinode) (stack : Block) (sb i_ops : ℕ) → Moving (λ t. rfs_i_ops page stack sb i_ops)
rfs_i_ops-Moving page stack sb i_ops = record {
  read = λ t e i buf len offset.
      Stops-bind (λ got. UpTo len got.0) (rfs_read e.fs.disk i.node buf stack len offset) _
        (rfs_read-Stops e.fs.disk i.node buf stack len offset) (λ got run low. low);
  write = λ t e i buf len offset.
      Stops-bind (λ got. UpTo len got.0 × (got.2.node.type ≡ i.node.type))
        (rfs_write e.fs.disk i.node buf len offset) _
        (rfs_write-Stops e.fs.disk i.node buf len offset)
        (λ got run (same, type). (omega arith, type));
}

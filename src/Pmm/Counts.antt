-- ===== src/Pmm/Counts.antt =====
-- `ref_list` of kernel/pmm.c as a map from pages to reference counts.
mod Edits
mod Effects
pub mod Stale
pub mod Unique
pub use Edits.{refcount, ref_at, IsCounted, length-insert_at}
pub use Effects.*

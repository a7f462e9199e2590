-- ===== src/Examples/Images.antt =====
-- The loading of an image at a concrete state.
use cabbage_pke.Common.{ℕ, ◌+◌, ◌≡◌, refl, Run, ok, Yields, ◌==◌, if◌then◌else◌}
use cabbage_pke.Common.Int.{pos, ◌+ℤ◌}
use cabbage_pke.Pmm.{alloc_page, ref_insert, ref_find, search, lower, insert_at}
use cabbage_pke.Rfs.{Block}
use cabbage_pke.Rfs.File.{rfs_lseek}
use cabbage_pke.Vfs.Objects.{VinodeOps}
use cabbage_pke.Vfs.Files.{vfs_lseek, vfs_read}
use cabbage_pke.Vfs.Ram.{RamDisk, rfs_i_ops}
use cabbage_pke.Vmm.{user_vm_map, map_pages, map_from, page_walk, walk, prot_to_type}
use cabbage_pke.Elf.{
  Image, ElfStatus, el_ok, el_eio, elf_load, elf_fpread, get_prog_header, load_segment,
  elf_alloc_mb, record_segment, free_slot,
}
use cabbage_pke.Elf.Regions.{After, elf_load-Extended}
use cabbage_pke.Examples.Disk.{blank, file}
use cabbage_pke.Examples.Calls.{space, opening}
use cabbage_pke.Examples.Mappings.{tables}

-- The header of a segment of code with 8 bytes for the address 12288.
abbrev segment : Block
segment q =
    if q == 0
    then 1
    else if q == 4
    then 5
    else if q == 17
    then 48
    else if q == 32
    then 8
    else if q == 40
    then 8
    else 0

-- A file that holds this header wherever it is read.
abbrev ops : ℕ → VinodeOps RamDisk
ops a = record (rfs_i_ops file blank 24576 28672) {
  viop_read = λ env i dest n at. ok (pos n, segment, at + n, env);
}

abbrev image : Image RamDisk
image = record { world = opening; vm = tables; bytes = blank; space = space }

abbrev status_of : Run (ElfStatus × Image RamDisk) → ElfStatus
status_of (ok (s, _)) = s
status_of _ = el_eio

-- The segment is loaded: the run of the example below ends well.
loads : status_of (elf_load ops 41016 1 blank 64 image) ≡ el_ok
unfolding elf_load elf_fpread vfs_lseek vfs_read rfs_lseek get_prog_header load_segment elf_alloc_mb
    record_segment free_slot alloc_page ref_insert ref_find search lower insert_at user_vm_map
    map_pages map_from page_walk walk prot_to_type ◌+ℤ◌
loads = refl

elf_load-Extended_example : Yields (elf_load ops 41016 1 blank 64 image) (After ops 41016 1 space)
elf_load-Extended_example = elf_load-Extended ops 41016 1 blank 64 image

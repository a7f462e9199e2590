-- ===== src/Elf.antt =====
-- kernel/elf.c: `elf_init` and `elf_load` with their helpers, which load the segments of an open file into the space of a
-- process.
pub mod Regions
use cabbage_pke.Common.{
  ℕ, zero, suc, ◌+◌, ◌-◌, ◌*◌, ◌^◌, ◌%◌, Bool, true, false, ◌||◌, not, Run, ok, panic, fault, ◌>>=◌,
  ltb, leb, ◌==◌, if◌then◌else◌,
}
use cabbage_pke.Common.Int.{ℤ, pos, negsuc}
use cabbage_pke.Pmm.{pgsize, alloc_page}
use cabbage_pke.Str.{in_range}
use cabbage_pke.Rfs.{Block, load32}
use cabbage_pke.Vfs.Objects.{VinodeOps, World, with_pmm}
use cabbage_pke.Vfs.Files.{vfs_lseek, vfs_read}
use cabbage_pke.Vmm.{Vm, user_vm_map, prot_to_type}
use cabbage_pke.Space.{Space, MappedRegion, SegmentType, code_segment, data_segment, region}
use cabbage_pke.Syscall.{to_uint64, narrow}
use cabbage_pke.Syscall.Buffers.{from, put_back}

pub data ElfStatus : Type 0 where
  el_ok : ElfStatus
  el_eio : ElfStatus
  el_enomem : ElfStatus
  el_notelf : ElfStatus
  el_err : ElfStatus

pub record ElfProgHeader : Type 0 where
  pub type : ℕ
  pub flags : ℕ
  pub off : ℕ
  pub vaddr : ℕ
  pub filesz : ℕ
  pub memsz : ℕ

abbrev pub load64 : Block → ℕ → ℕ
load64 b o = load32 b o + 2 ^ 32 * load32 b (o + 4)

-- A 64-bit number as a signed one.
abbrev pub to_ssize : ℕ → ℤ
to_ssize x = if ltb x (2 ^ 63) then pos x else negsuc (2 ^ 64 - 1 - x)

-- `paddr` and `align` are not read.
unfoldable pub get_prog_header : Block → ElfProgHeader
get_prog_header b = record {
  type = load32 b 0;
  flags = load32 b 4;
  off = load64 b 8;
  vaddr = load64 b 16;
  filesz = load64 b 32;
  memsz = load64 b 40;
}

-- The fields of the header that the loading reads.
pub record ElfHeader : Type 0 where
  pub magic : ℕ
  pub entry : ℕ
  pub phoff : ℕ
  pub phnum : ℕ

unfoldable pub get_elf_header : Block → ElfHeader
get_elf_header b = record {
  magic = load32 b 0;
  entry = load64 b 24;
  phoff = load64 b 32;
  phnum = b 56 + 256 * b 57;
}

abbrev pub elf_magic : ℕ
elf_magic = 0x464C457F

abbrev pub sizeof_elf_header : ℕ
sizeof_elf_header = 64

abbrev pub sizeof_prog_header : ℕ
sizeof_prog_header = 56

-- The entries of `mapped_info`, a page of regions of 16 bytes.
abbrev pub max_regions : ℕ
max_regions = 256

-- The process that is loaded, with the files and the memory; the pool is the one of `world`.
pub record Image (F : Type 0) : Type 0 where
  pub world : World F
  pub vm : Vm
  pub bytes : Block
  pub space : Space

-- The first region from `j` on whose address is 0, or `max_regions`.
unfoldable pub free_slot : ℕ → ℕ → (ℕ → MappedRegion) → ℕ
free_slot zero j infos = j
free_slot (suc k) j infos =
    let rest = free_slot k (j + 1) infos in if (infos j).va == 0 then j else rest

abbrev pub put_region : Space → ℕ → MappedRegion → Space
put_region p j r = record p {
  mapped_info = λ i. if j == i then r else p.mapped_info i;
  total_mapped_region = p.total_mapped_region + 1;
}

-- A segment becomes a region: code where its flags are R and X, data where they are R and W.
unfoldable pub record_segment : Space → ElfProgHeader → Run Space
record_segment p h =
    let j = free_slot max_regions 0 p.mapped_info in
    if j == max_regions
    then fault
    else if h.flags == 5
    then ok (put_region p j (region h.vaddr 1 code_segment))
    else if h.flags == 6
    then ok (put_region p j (region h.vaddr 1 data_segment))
    else panic

module _ {F : Type 0} (ops : ℕ → VinodeOps F) (file : ℕ) where
  unfoldable pub elf_fpread : World F → Block → ℕ → ℕ → Run (ℕ × Block × World F)
  elf_fpread w dest nb offset = do
    (_, w₁) ← vfs_lseek ops w file (to_ssize offset) 0
    (r, dest', w₂) ← vfs_read ops w₁ file dest nb
    ok (to_uint64 r, dest', w₂)

  -- The status and the header; `stack` is what `ehdr` held.
  unfoldable pub elf_init : World F → Block → Run (ElfStatus × ElfHeader × World F)
  elf_init w stack = do
    (n, header, w₁) ← elf_fpread w stack sizeof_elf_header 0
    let h = get_elf_header header
    if not (n == sizeof_elf_header)
        then ok (el_eio, h, w₁)
        else if not (h.magic == elf_magic)
        then ok (el_notelf, h, w₁)
        else ok (el_ok, h, w₁)

  unfoldable pub elf_alloc_mb : Image F → ℕ → ℕ → Run (ℕ × Image F)
  elf_alloc_mb m va size = if leb pgsize size then panic else do
    (pa, s) ← alloc_page m.world.env.pmm
    if pa == 0 then panic else do
      vm ←
          user_vm_map (record m.vm { pmm = s }) m.space.pagetable va pgsize pa
            (prot_to_type true true true true)
      ok (
        pa,
        record m {
          world = with_pmm m.world vm.pmm;
          vm = vm;
          bytes = λ a. if in_range pa pgsize a then 0 else m.bytes a;
        },
      )

  -- A segment that is to be loaded: `memsz` bytes are read from the file.
  unfoldable pub load_segment : Image F → ElfProgHeader → Run (ElfStatus × Image F)
  load_segment m h =
      if ltb h.memsz h.filesz || ltb ((h.vaddr + h.memsz) % 2 ^ 64) h.vaddr
      then ok (el_err, m)
      else do
        (dest, m₁) ← elf_alloc_mb m h.vaddr h.memsz
        (n, part, w) ← elf_fpread m₁.world (from m₁.bytes dest) h.memsz h.off
        let m₂ : Image F = record m₁ { world = w; bytes = put_back m₁.bytes dest part }
        if not (n == h.memsz)
            then ok (el_eio, m₂)
            else do p ← record_segment m₂.space h; ok (el_ok, record m₂ { space = p })

  -- The loop of `elf_load` over the headers that are left, from `off` on; `stack` is what `ph_addr` held.
  unfoldable pub elf_load : ℕ → Block → ℕ → Image F → Run (ElfStatus × Image F)
  elf_load zero stack off m = ok (el_ok, m)
  elf_load (suc k) stack off m = do
    (n, header, w) ← elf_fpread m.world stack sizeof_prog_header off
    let m₁ : Image F = record m { world = w }
    elim (n == sizeof_prog_header) [
      | false ↦ ok (el_eio, m₁)
      | true ↦ elim ((get_prog_header header).type == 1) [
        | false ↦ elf_load k header (narrow (off + sizeof_prog_header)) m₁
        | true ↦ do
          (status, m₂) ← load_segment m₁ (get_prog_header header)
          elim status [
            | el_ok ↦ elf_load k header (narrow (off + sizeof_prog_header)) m₂
            | other ↦ ok (other, m₂)
          ]
      ]
    ]

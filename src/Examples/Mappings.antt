-- ===== src/Examples/Mappings.antt =====
-- A mapping in a concrete page table.
use cabbage_pke.Common.{refl, true, false, [], arith, Returns, ◌==◌, if◌then◌else◌}
use cabbage_pke.Pmm.{pgsize}
use cabbage_pke.Vmm.{no_pte, Vm, prot_to_type, user_vm_map}
use cabbage_pke.Vmm.Lookup.{Mapped, user_vm_map-Mapped}

-- The directory at 4096 leads to the tables at 8192 and 12288.
abbrev pub tables : Vm
tables = record {
  pmm = record {
    refs = [];
    head = 0;
    next = λ p. 0;
    free_mem_start_addr = 4096;
    free_mem_end_addr = 65536;
  };
  ptes = λ a.
      if a == 4096
      then record no_pte { valid = true; pa = 8192 }
      else if a == 8192
      then record no_pte { valid = true; pa = 12288 }
      else no_pte;
}

user_vm_map-Mapped_example :
    Returns
      (user_vm_map tables 4096 12288 pgsize 20480 (prot_to_type true true false true))
      (Mapped tables 4096 12288 12312 20480 (prot_to_type true true false true))
user_vm_map-Mapped_example =
    user_vm_map-Mapped tables 4096 12288 12312 20480 (prot_to_type true true false true)
      (omega arith) (omega arith) (refl, (refl, refl)) refl

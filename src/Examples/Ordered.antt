-- ===== src/Examples/Ordered.antt =====
-- The symbols of an image at concrete addresses.
use cabbage_pke.Common.{ℕ, ◌*◌, ◌-◌, [], arith, Returns}
use cabbage_pke.Symbols.{ElfSymbol, Entry, quick_sort, func_name_printer}
use cabbage_pke.Symbols.Search.{IsOrdered, Found, func_name_printer-Found}
use cabbage_pke.Symbols.Sort.{Sorted, quick_sort-Sorted}

-- Functions of 64 bytes, one at every multiple of 100.
abbrev symbols : ℕ → ElfSymbol
symbols i = record { st_name = 1; st_info = 2; st_value = 100 * i; st_size = 64 }

symbols-IsOrdered : IsOrdered symbols 5
symbols-IsOrdered = record { apart = λ i j less below. omega arith; fits = λ i below. omega arith }

func_name_printer-Found_example : Returns (func_name_printer symbols 5 310) (Found symbols 310 0 5)
func_name_printer-Found_example = func_name_printer-Found symbols 5 310 symbols-IsOrdered

abbrev backwards : ℕ → Entry
backwards i = record { symbol = record (symbols i) { st_value = 500 - i }; name = [] }

quick_sort-Sorted_example : Returns (quick_sort 5 backwards 0 4) (Sorted 0 4 backwards)
quick_sort-Sorted_example = quick_sort-Sorted 5 backwards 0 4 (omega arith) (omega arith)

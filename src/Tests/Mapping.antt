-- ===== src/Tests/Mapping.antt =====
-- The theorems on the page tables of kern/pmap.c at the small machine.
use buaa_mos_with_swap.Prelude.{◌≡◌, refl, arith, bit}
use buaa_mos_with_swap.Kernel.{ok, ◌>>◌, page2pa}
use buaa_mos_with_swap.Pmap.Table.{page_insert, va2pa}
use buaa_mos_with_swap.Pmap.Table.Walk.{HasTable}
use buaa_mos_with_swap.Pmap.Table.Mapping.{inserted, IsUnmapped, va2pa-page_insert}
use buaa_mos_with_swap.Tests.Machine.{machine}

machine-HasTable : HasTable machine 0x1000 0x401000 0x2004
unfolding bit
machine-HasTable = record { valid = refl; inside = omega arith; place = refl; apart = omega arith }

machine-IsUnmapped : IsUnmapped machine 0x2004
unfolding bit
machine-IsUnmapped = record { invalid = refl; resident = refl }

va2pa-page_insert_example :
    (page_insert 0x1000 1 6 0x401000 0x400 >> va2pa 0x1000 0x401000) machine
    ≡ ok (page2pa 6) (inserted machine 1 0x401000 6 0x400 0x2004)
va2pa-page_insert_example =
    va2pa-page_insert machine-HasTable 1 6 0x400 machine-IsUnmapped (omega arith) (omega arith)

-- ===== src/Tests/Loading.antt =====
-- A segment that starts at a page, and a small one that starts inside a page.
use buaa_mos_with_swap.Prelude.{ℕ, ◌+◌, ◌*◌, ◌/◌, ◌≤◌, ◌≡◌, refl, inl, true, List, ◌∷◌, arith}
use buaa_mos_with_swap.Mmu.{page_size}
use buaa_mos_with_swap.ElfLoader.{Phdr}
use buaa_mos_with_swap.ElfLoader.Segments.{
  pages, consecutive, seen_calls, elf_load_seg-pages, elf_load_seg-twice,
}

abbrev program : Phdr
program = record { p_vaddr = 0x400000; p_filesz = 5000; p_memsz = 9000; writable = true }

elf_load_seg-pages_example :
    (n : ℕ) × (pages (seen_calls program) ≡ consecutive (0x400000 / page_size) n)
    × (0x400000 + 9000 ≤ (0x400000 / page_size + n) * page_size)
elf_load_seg-pages_example = elf_load_seg-pages program (inl refl)

abbrev small : Phdr
small = record { p_vaddr = 0x401010; p_filesz = 16; p_memsz = 64; writable = true }

elf_load_seg-twice_example :
    (rest : List ℕ) × (pages (seen_calls small)
      ≡ 0x401010 / page_size ∷ 0x401010 / page_size ∷ rest)
elf_load_seg-twice_example = elf_load_seg-twice small refl (omega arith) (omega arith)

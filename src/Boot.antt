-- ===== src/Boot.antt =====
-- The allocator of kern/pmap.c that runs before there are pages: `alloc`, `mips_detect_memory` and
-- `mips_vm_init`.
pub mod Chunks
use buaa_mos_with_swap.Prelude.{
  ℕ, ◌+◌, ◌-◌, ◌*◌, ◌/◌, ◌%◌, Bool, true, Option, none, some, ltb, leb, ◌||◌, ◌==◌, if◌then◌else◌,
}
use buaa_mos_with_swap.Mmu.{word_mod, page_size, ulim, round, sizeof_page}
use buaa_mos_with_swap.Strings.{Bytes, memset}

-- The global variables, the address that the linker calls `end`, and memory by kernel address.
pub record Boot : Type 0 where
  pub memsize : ℕ
  pub npage : ℕ
  pub freemem : ℕ
  pub end : ℕ
  pub pages : ℕ
  pub bytes : Bytes

unfoldable pub mips_detect_memory : ℕ → Boot → Boot
mips_detect_memory size s = record s { memsize = size; npage = size / page_size }

-- The first free address, aligned.
unfoldable pub next_chunk : ℕ → Boot → ℕ
next_chunk align s = round (if s.freemem == 0 then s.end else s.freemem) align

-- `none` is the panic, of `PADDR` or for want of memory.
unfoldable pub alloc : ℕ → ℕ → Bool → Boot → Option (ℕ × Boot)
alloc n align clear s =
    let chunk = next_chunk align s in
    let next = (chunk + n) % word_mod in
    if ltb next ulim || leb s.memsize (next - ulim)
    then none
    else some (
      chunk,
      record s { freemem = next; bytes = if clear then memset chunk 0 n s.bytes else s.bytes },
    )

unfoldable pub mips_vm_init : Boot → Option Boot
mips_vm_init s = elim (alloc (s.npage * sizeof_page % word_mod) page_size true s) [
  | none ↦ none
  | some (chunk, t) ↦ some (record t { pages = chunk })
]

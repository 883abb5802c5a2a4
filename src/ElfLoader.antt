-- ===== src/ElfLoader.antt =====
-- `elf_load_seg` of lib/elfloader.c. `map_page` is the caller's; its calls are listed first, and then
-- made in order until one fails.
pub mod Segments
use buaa_mos_with_swap.Prelude.{
  ℕ, zero, suc, ◌+◌, ◌-◌, ◌*◌, ◌/◌, ◌%◌, Bool, true, false, List, [], ◌∷◌, Option, none, some, ltb,
  leb, ◌==◌, if◌then◌else◌,
}
use buaa_mos_with_swap.Mmu.{page_size}

-- `Elf32_Phdr`, the fields that are used; `writable` is `p_flags & PF_W`.
pub record Phdr : Type 0 where
  pub p_vaddr : ℕ
  pub p_filesz : ℕ
  pub p_memsz : ℕ
  pub writable : Bool

-- The arguments of `map_page`, less `data` and `perm`; `src` is the offset from `bin`, `none` for
-- `NULL`.
pub record MapCall : Type 0 where
  pub va : ℕ
  pub offset : ℕ
  pub src : Option ℕ
  pub len : ℕ

unfoldable pub least : ℕ → ℕ → ℕ
least a b = if ltb a b then a else b

-- The loop over the rest of `sgsize`, on fuel.
unfoldable pub bss_calls : ℕ → ℕ → ℕ → ℕ → List MapCall
bss_calls zero va sgsize i = []
bss_calls (suc fuel) va sgsize i =
    let rest = bss_calls fuel va sgsize (i + page_size) in
    if ltb i sgsize
    then record { va = va + i; offset = 0; src = none; len = least (sgsize - i) page_size } ∷ rest
    else []

-- The loop over the content and then the loop after it, on fuel.
unfoldable pub file_calls : ℕ → ℕ → ℕ → ℕ → ℕ → List MapCall
file_calls zero va bin_size sgsize i = bss_calls sgsize va sgsize i
file_calls (suc fuel) va bin_size sgsize i =
    let rest = file_calls fuel va bin_size sgsize (i + page_size) in
    if ltb i bin_size
    then record { va = va + i; offset = 0; src = some i; len = least (bin_size - i) page_size }
      ∷ rest
    else bss_calls sgsize va sgsize i

-- Each round takes a page, so the sizes are fuel enough.
unfoldable pub segment_calls : Phdr → List MapCall
segment_calls ph =
    let va = ph.p_vaddr in
    let bin_size = ph.p_filesz in
    let offset = va % page_size in
    let first = least bin_size (page_size - offset) in
    if offset == 0
    then file_calls bin_size va bin_size ph.p_memsz 0
    else record { va = va; offset = offset; src = some 0; len = first }
      ∷ file_calls bin_size va bin_size ph.p_memsz first

module _ {S E : Type 0} where
  -- `if ((r = map_page(...)) != 0) return r;`: the state, and the error if there is one.
  unfoldable pub run_calls : (MapCall → S → Option E × S) → List MapCall → S → Option E × S
  run_calls map_page [] s = (none, s)
  run_calls map_page (c ∷ cs) s =
      let (r, t) = map_page c s in
      let rest = run_calls map_page cs t in elim r [ none ↦ rest | some e ↦ (some e, t) ]

  -- `perm` has `PTE_D` exactly for a writable segment.
  unfoldable pub elf_load_seg : Phdr → (Bool → MapCall → S → Option E × S) → S → Option E × S
  elf_load_seg ph map_page s = run_calls (map_page ph.writable) (segment_calls ph) s

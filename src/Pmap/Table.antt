-- ===== src/Pmap/Table.antt =====
-- The page tables of kern/pmap.c and include/pmap.h: `pgdir_walk`, `page_insert`, `page_lookup`,
-- `page_remove`, `va2pa`; and the TLB handlers of kern/tlbex.c that use them.
pub mod Walk
pub mod Entry
pub mod Mapping
use buaa_mos_with_swap.Prelude.{
  ℕ, zero, suc, ◌+◌, ◌-◌, ◌*◌, ◌/◌, ◌%◌, ◌≡◌, Bool, true, false, ◌&&◌, ◌||◌, not, List, [], ◌∷◌,
  Option, none, some, arith, leb, ltb, ◌==◌, if◌then◌else◌, update, bit, set_bit, clear_bit,
  or_bits,
}
use buaa_mos_with_swap.Mmu.{
  page_size, pdx, ptx, pte_addr, pte_flags, pte_v, pte_d, pte_swapped, pte_c_cacheable, ulim, uvpt,
  upages, uenvs, ustacktop, utemp,
}
use buaa_mos_with_swap.Kernel.{
  Kernel, Outcome, M, ok, panic, hang, null_deref, pure, ◌>>=◌, ◌>>◌, get, modify, panic_on, kaddr,
  pa2page, page2pa,
}
use buaa_mos_with_swap.Pmap.Swap.{tlb_invalidate, swap_register, swap_unregister}
use buaa_mos_with_swap.Pmap.Pages.{page_alloc, page_decref}
use buaa_mos_with_swap.Pmap.SwapBack.{swap_back}

-- `*a` and `*a = v` for a word in kseg0.
abbrev pub load : ℕ → M ℕ
load a = get λ s. s.memory a

abbrev pub store : ℕ → ℕ → M (Unit {0})
store a v = modify λ s. record s { memory = update s.memory a v }

-- `pp->pp_ref++` on an `u_short`.
abbrev pub add_ref : ℕ → M (Unit {0})
add_ref pp = modify λ s. record s { pp_ref = update s.pp_ref pp ((s.pp_ref pp + 1) % 65536) }

-- The entry that `pgdir_walk` writes: the old flags, the new table's address, and
-- `PTE_C_CACHEABLE | PTE_V & ~PTE_SWAPPED`.
unfoldable pub new_pde : ℕ → ℕ → ℕ
new_pde pde pp =
    or_bits 32 (or_bits 32 (pte_flags pde) (page2pa pp)) (set_bit pte_c_cacheable pte_v)

-- Make the page table that is missing at `entry`.
unfoldable pub add_table : ℕ → M (Unit {0})
add_table entry = do pp ← page_alloc; add_ref pp; pde ← load entry; store entry (new_pde pde pp)

unfoldable pub table_slot : ℕ → ℕ → M (Option ℕ)
table_slot entry va = do
  pde ← load entry
  table ← kaddr (pte_addr pde)
  pure (some (table + 4 * ptx va))

-- The address of the entry, `none` for `NULL`.
unfoldable pub pgdir_walk : ℕ → ℕ → Bool → M (Option ℕ)
pgdir_walk pgdir va create = do
  let entry = pgdir + 4 * pdx va
  pde ← load entry
  if bit pde pte_v
      then table_slot entry va
      else if create
      then add_table entry >> table_slot entry va
      else pure none

-- `if (pte && !(*pte & PTE_V) && (*pte & PTE_SWAPPED)) swap_back(*pte);`
unfoldable pub bring_back : Option ℕ → M (Unit {0})
bring_back none = pure tt
bring_back (some slot) = do
  pte ← load slot
  if not (bit pte pte_v) && bit pte pte_swapped then swap_back pte else pure tt

-- The page behind an entry, `none` for `NULL`.
unfoldable pub mapped_page : Option ℕ → M (Option ℕ)
mapped_page none = pure none
mapped_page (some slot) = do
  pte ← load slot
  if bit pte pte_v
      then (do
        pp ← pa2page pte
        modify (λ s. record s { accessed = update s.accessed pp 1 })
        pure (some pp))
      else pure none

-- The page, and the address of the entry that goes to `*ppte`.
unfoldable pub page_lookup : ℕ → ℕ → M (Option ℕ × Option ℕ)
page_lookup pgdir va = do
  slot ← pgdir_walk pgdir va false
  bring_back slot
  pp ← mapped_page slot
  pure (pp, slot)

unfoldable pub page_remove : ℕ → ℕ → ℕ → M (Unit {0})
page_remove pgdir asid va = do
  (found, slot) ← page_lookup pgdir va
  elim found [
    | none ↦ pure tt
    | some pp ↦ do
      page_decref pp
      swap_unregister pp pgdir va asid
      elim slot [ none ↦ (λ s. null_deref) | some a ↦ store a 0 ]
      tlb_invalidate asid va
  ]

-- `page2pa(pp) | (perm & ~PTE_SWAPPED) | PTE_C_CACHEABLE | PTE_V`. `perm` is not masked.
unfoldable pub new_pte : ℕ → ℕ → ℕ
new_pte pp perm =
    or_bits 32 (or_bits 32 (page2pa pp) (clear_bit perm pte_swapped))
      (set_bit pte_c_cacheable pte_v)

-- The end of `page_insert`: flush, get or make the entry, and write it.
unfoldable pub insert_new : ℕ → ℕ → ℕ → ℕ → ℕ → M (Unit {0})
insert_new pgdir asid pp va perm = do
  tlb_invalidate asid va
  slot ← pgdir_walk pgdir va true
  elim slot [ none ↦ (λ s. null_deref) | some a ↦ store a (new_pte pp perm) ]
  add_ref pp
  modify (λ s. record s { accessed = update s.accessed pp 1 })

-- The page was already mapped here: only the permissions change.
unfoldable pub insert_same : ℕ → ℕ → ℕ → ℕ → ℕ → M (Unit {0})
insert_same asid pp va perm slot = do tlb_invalidate asid va; store slot (new_pte pp perm)

-- A page is mapped here already: the same one, or one that is unmapped first.
unfoldable pub replace_page : ℕ → ℕ → ℕ → ℕ → ℕ → ℕ → ℕ → M (Unit {0})
replace_page pgdir asid pp va perm slot pte = do
  old ← pa2page pte
  if old == pp
      then insert_same asid pp va perm slot
      else page_remove pgdir asid va >> insert_new pgdir asid pp va perm

unfoldable pub page_insert : ℕ → ℕ → ℕ → ℕ → ℕ → M (Unit {0})
page_insert pgdir asid pp va perm = do
  slot ← pgdir_walk pgdir va false
  bring_back slot
  elim slot [
    | none ↦ insert_new pgdir asid pp va perm
    | some a ↦ do
      pte ← load a
      if bit pte pte_v
          then replace_page pgdir asid pp va perm a pte
          else insert_new pgdir asid pp va perm
  ]

-- `va2pa`: all ones where the address is not mapped.
unfoldable pub va2pa : ℕ → ℕ → M ℕ
va2pa pgdir va = do
  pde ← load (pgdir + 4 * pdx va)
  if bit pde pte_v
      then (do
        table ← kaddr (pte_addr pde)
        pte ← load (table + 4 * ptx va)
        if bit pte pte_v then pure (pte_addr pte) else pure 0xffffffff)
      else pure 0xffffffff

-- The checks of `passive_alloc`.
unfoldable pub bad_address : ℕ → Bool
bad_address va =
    ltb va utemp
    || (leb ustacktop va && ltb va (ustacktop + page_size))
    || (leb uenvs va && ltb va upages)
    || (leb upages va && ltb va uvpt)
    || leb ulim va

unfoldable pub passive_alloc : ℕ → ℕ → ℕ → M (Unit {0})
passive_alloc va pgdir asid = do
  panic_on (bad_address va)
  p ← page_alloc
  page_insert pgdir asid p (pte_addr va) (if leb uvpt va && ltb va ulim then 0 else set_bit 0 pte_d)
  if ltb va (ustacktop - page_size) then swap_register p pgdir (pte_addr va) asid else pure tt

-- The loop of `_do_tlb_refill`, on fuel.
unfoldable pub refill_loop : ℕ → ℕ → ℕ → M (Option ℕ)
refill_loop zero va asid = λ s. hang
refill_loop (suc f) va asid = do
  pgdir ← get (λ s. s.cur_pgdir)
  (pp, slot) ← page_lookup pgdir va
  elim pp [ none ↦ do passive_alloc va pgdir asid; refill_loop f va asid | some _ ↦ pure slot ]

-- The two `EntryLo` words, from the pair of entries that holds the one found.
unfoldable pub do_tlb_refill : ℕ → ℕ → ℕ → M (ℕ × ℕ)
do_tlb_refill fuel va asid = do
  tlb_invalidate asid va
  slot ← refill_loop fuel va asid
  elim slot [
    | none ↦ λ s. null_deref
    | some a ↦ do even ← load (a / 8 * 8); odd ← load (a / 8 * 8 + 4); pure (even / 64, odd / 64)
  ]

-- ===== src/Pmap/Table/Mapping.antt =====
-- `page_insert`, `page_lookup` and `page_remove` of kern/pmap.c at an address with a page table.
use buaa_mos_with_swap.Prelude.{
  ℕ, ◌+◌, ◌*◌, ◌/◌, ◌%◌, ◌^◌, ◌<◌, ◌≡◌, refl, ap, ◌∙◌, true, false, some, arith, lt→ltb, update,
  bit, ◌∷◌,
}
use buaa_mos_with_swap.Mmu.{ppn, pte_v, pte_swapped, nasid}
use buaa_mos_with_swap.Kernel.{Kernel, ok, page2pa, pa2page, ◌>>◌}
use buaa_mos_with_swap.Pmap.Swap.{tlb_invalidate}
use buaa_mos_with_swap.Pmap.Table.{
  new_pte, mapped_page, page_lookup, insert_new, page_insert, va2pa,
}
use buaa_mos_with_swap.Pmap.Table.Entry.{bit-new_pte, pte_addr-new_pte}
use buaa_mos_with_swap.Pmap.Table.Walk.{HasTable, pgdir_walk-ok, bring_back-ok, va2pa-ok}

-- The state after `pp` was mapped at `slot`.
abbrev pub inserted : Kernel → ℕ → ℕ → ℕ → ℕ → ℕ → Kernel
inserted s asid va pp perm slot = record s {
  tlb_flushes = (va / 8192 * 8192 + asid % nasid) ∷ s.tlb_flushes;
  memory = update s.memory slot (new_pte pp perm);
  pp_ref = update s.pp_ref pp ((s.pp_ref pp + 1) % 65536);
  accessed = update s.accessed pp 1;
}

-- No page is mapped at the slot, and none is swapped out there.
pub record IsUnmapped (s : Kernel) (slot : ℕ) : Type 0 where
  pub invalid : bit (s.memory slot) pte_v ≡ false
  pub resident : bit (s.memory slot) pte_swapped ≡ false

module _ {s : Kernel} {pgdir va slot : ℕ} (h : HasTable s pgdir va slot) (asid pp perm : ℕ) where
  flushed : Kernel
  flushed = record s { tlb_flushes = (va / 8192 * 8192 + asid % nasid) ∷ s.tlb_flushes }

  flushed-HasTable : HasTable flushed pgdir va slot
  unfolding flushed
  flushed-HasTable = record { valid = h.valid; inside = h.inside; place = h.place; apart = h.apart }

  insert_new-ok : insert_new pgdir asid pp va perm s ≡ ok tt (inserted s asid va pp perm slot)
  unfolding insert_new tlb_invalidate flushed
  insert_new-ok = rw (pgdir_walk-ok flushed-HasTable true) refl

  -- Mapping a page at an unmapped address whose page table is there flushes the TLB entry, writes
  -- the page table entry, counts one more reference, marks the page as accessed, and does no more.
  pub page_insert-unmapped :
      IsUnmapped s slot
      → page_insert pgdir asid pp va perm s ≡ ok tt (inserted s asid va pp perm slot)
  unfolding page_insert
  page_insert-unmapped u =
      rw (pgdir_walk-ok h false, bring_back-ok h (ground (arith, u.invalid, u.resident)), u.invalid)
        insert_new-ok

  inserted-HasTable : HasTable (inserted s asid va pp perm slot) pgdir va slot
  inserted-HasTable = record {
    valid = ground (arith, h.valid, h.apart);
    inside = ground (arith, h.inside, h.apart);
    place = ground (arith, h.place, h.apart);
    apart = h.apart;
  }

  new_pte-valid : bit (new_pte pp perm) pte_v ≡ true
  new_pte-valid = ground (arith, bit-new_pte pp perm 7 (omega arith))

  ppn-new_pte : pp < 2 ^ 20 → perm < 4096 → ppn (new_pte pp perm) ≡ pp
  ppn-new_pte hp hq = omega (arith, pte_addr-new_pte pp perm hp hq)

  -- Mapping a page at an unmapped address whose page table is there, with `perm` holding flags
  -- only, returns, and then the address translates to the page.
  pub va2pa-page_insert :
      IsUnmapped s slot
      → pp < 2 ^ 20
      → perm < 4096
      → (page_insert pgdir asid pp va perm >> va2pa pgdir va) s
        ≡ ok (page2pa pp) (inserted s asid va pp perm slot)
  va2pa-page_insert u hp hq = rw (page_insert-unmapped u) (
      va2pa-ok inserted-HasTable
      ∙ ap (λ (a : ℕ). ok a (inserted s asid va pp perm slot))
          (ground (arith, new_pte-valid, pte_addr-new_pte pp perm hp hq)))

  -- Mapping a page of memory at an unmapped address whose page table is there, with `perm` holding
  -- flags only, returns, and then `page_lookup` finds the page and the slot, changes no word of
  -- memory, and marks the page as accessed.
  pub page_lookup-page_insert :
      IsUnmapped s slot
      → pp < 2 ^ 20
      → pp < s.npage
      → perm < 4096
      → (t : Kernel) × ((page_insert pgdir asid pp va perm >> page_lookup pgdir va) s
          ≡ ok (some pp, some slot) t)
        × (t.memory ≡ update s.memory slot (new_pte pp perm))
        × (t.accessed pp ≡ 1)
  unfolding page_lookup mapped_page pa2page
  page_lookup-page_insert u hp hn hq = (
    record (inserted s asid va pp perm slot) { accessed = update (update s.accessed pp 1) pp 1 },
    rw
        (
          page_insert-unmapped u,
          pgdir_walk-ok inserted-HasTable false,
          bring_back-ok inserted-HasTable (ground (arith, new_pte-valid)),
        )
        (ground (arith, new_pte-valid, ppn-new_pte hp hq, lt→ltb pp s.npage hn)),
    refl,
    ground arith,
  )

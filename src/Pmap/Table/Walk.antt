-- ===== src/Pmap/Table/Walk.antt =====
-- `pgdir_walk` of kern/pmap.c where the page table is there, and the reads through it.
use buaa_mos_with_swap.Prelude.{
  ℕ, ◌+◌, ◌*◌, ◌<◌, ◌≡◌, refl, ◌≢◌, Bool, true, false, ◌&&◌, not, some, arith, lt→ltb,
  if◌then◌else◌, bit,
}
use buaa_mos_with_swap.Mmu.{pdx, ptx, ppn, pte_addr, pte_v, pte_swapped}
use buaa_mos_with_swap.Kernel.{Kernel, ok, kaddr}
use buaa_mos_with_swap.Pmap.Table.{table_slot, pgdir_walk, bring_back, va2pa}

-- The directory entry of `va` points at a page table in memory, whose entry for `va` is at `slot`.
pub record HasTable (s : Kernel) (pgdir va slot : ℕ) : Type 0 where
  pub valid : bit (s.memory (pgdir + 4 * pdx va)) pte_v ≡ true
  pub inside : ppn (pte_addr (s.memory (pgdir + 4 * pdx va))) < s.npage
  pub place : slot ≡ pte_addr (s.memory (pgdir + 4 * pdx va)) + 4 * ptx va
  pub apart : slot ≢ pgdir + 4 * pdx va

module _ {s : Kernel} {pgdir va slot : ℕ} (h : HasTable s pgdir va slot) where
  table_slot-ok : table_slot (pgdir + 4 * pdx va) va s ≡ ok (some slot) s
  unfolding table_slot kaddr
  table_slot-ok = rw (lt→ltb _ _ h.inside, h.place) refl

  -- Where the table is there, the walk finds the slot, whether or not it may create one, and
  -- changes nothing.
  pub pgdir_walk-ok : (create : Bool) → pgdir_walk pgdir va create s ≡ ok (some slot) s
  unfolding pgdir_walk
  pgdir_walk-ok create = rw h.valid table_slot-ok

  pub bring_back-ok :
      (not (bit (s.memory slot) pte_v) && bit (s.memory slot) pte_swapped) ≡ false
      → bring_back (some slot) s ≡ ok tt s
  unfolding bring_back
  bring_back-ok e = rw e refl

  pub va2pa-ok :
      va2pa pgdir va s
      ≡ ok (if bit (s.memory slot) pte_v then pte_addr (s.memory slot) else 0xffffffff) s
  unfolding va2pa kaddr
  va2pa-ok = ground (arith, h.valid, h.inside, h.place)

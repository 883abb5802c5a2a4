-- ===== src/Tests/Swapping.antt =====
-- The theorems on the pages and the swapping of kern/pmap.c at the small machine.
use buaa_mos_with_swap.Prelude.{
  ℕ, ◌+◌, ◌<◌, ◌≡◌, ◌⊎◌, refl, true, [], ◌∷◌, some, arith, is_nil, mem, test_at, bit, find_clear,
  length,
}
use buaa_mos_with_swap.Mmu.{pte_flags}
use buaa_mos_with_swap.Kernel.{Kernel, SwapInfo, ok, panic, page2pa, kaddr}
use buaa_mos_with_swap.Pmap.Sdisk.{sd_nblk, sd_block_alloc, write_page}
use buaa_mos_with_swap.Pmap.Sdisk.Blocks.{Allocated, sd_block_alloc_cases}
use buaa_mos_with_swap.Pmap.Swap.{
  swap, clock, clock_fuel, swap_out, choose, swap_out_ptes, swap_out_pte, evict, release, pte_slot,
  tlb_invalidate, advance, next_of, start_of, swapped_pte, swap_register, swap_unregister, matches,
  drop_info,
}
use buaa_mos_with_swap.Pmap.Swap.Clock.{Chosen, clock-Chosen}
use buaa_mos_with_swap.Pmap.Swap.Register.{QueueInv, swap_unregister-QueueInv}
use buaa_mos_with_swap.Pmap.Swap.Victim.{Evicted, swap-Evicted}
use buaa_mos_with_swap.Pmap.SwapBack.{restored_pte}
use buaa_mos_with_swap.Pmap.SwapBack.Entry.{restored_pte-swapped_pte}
use buaa_mos_with_swap.Tests.Machine.{machine, full, state_of}

swap-Evicted_example :
    ((is_nil full.page_swap_queue ≡ true) × (state_of (swap full) full ≡ full))
    ⊎ ((pp : ℕ) × (bno : ℕ) × (mem pp full.page_swap_queue ≡ true)
        × Evicted full pp bno (state_of (swap full) full))
unfolding swap swap_out choose clock_fuel clock advance next_of start_of sd_block_alloc evict
    swap_out_ptes swap_out_pte pte_slot kaddr tlb_invalidate release write_page find_clear test_at
    bit
swap-Evicted_example = swap-Evicted full (state_of (swap full) full) refl

clock-Chosen_example :
    (n : ℕ) × (acc : ℕ → ℕ) × (clock (clock_fuel (5 ∷ 6 ∷ [])) (5 ∷ 6 ∷ []) 5 5 100 machine.accessed
      ≡ some (n, acc))
    × Chosen (5 ∷ 6 ∷ []) 5 machine.accessed n acc
clock-Chosen_example = clock-Chosen (5 ∷ 6 ∷ []) 5 5 machine.accessed refl

restored_pte-swapped_pte_example :
    restored_pte (swapped_pte 0x5080 2) 7 ≡ page2pa 7 + pte_flags 0x5080
unfolding bit
restored_pte-swapped_pte_example =
    restored_pte-swapped_pte 0x5080 2 7 (omega arith) (omega arith) refl refl

sd_block_alloc_cases_example :
    ((sd_block_alloc machine ≡ panic)
      × ((k : ℕ) → k < sd_nblk → test_at machine.sd_bitmap k ≡ true))
    ⊎ ((bno : ℕ) × (t : Kernel) × (sd_block_alloc machine ≡ ok bno t) × Allocated machine bno t)
sd_block_alloc_cases_example = sd_block_alloc_cases machine

abbrev with_block : Kernel
with_block = state_of (sd_block_alloc machine) machine

abbrev exhausted : Kernel
exhausted = record full { page_swap_queue = []; swap_tbl = λ p. [] }

machine-QueueInv : QueueInv machine
machine-QueueInv = record { once = refl; listed = λ p. ground arith }

abbrev more : SwapInfo
more = record { pgdir = 0x1000; va = 0x401000; asid = 1 }

abbrev registered : Kernel
registered = state_of (swap_register 5 0x1000 0x401000 1 machine) machine

abbrev unregistered : Kernel
unregistered = state_of (swap_unregister 5 0x1000 0x400000 1 machine) machine

swap_unregister-QueueInv_example :
    QueueInv unregistered
    × (unregistered.swap_info_free + length (unregistered.swap_tbl 5)
        ≡ machine.swap_info_free + length (machine.swap_tbl 5))
unfolding swap_unregister matches drop_info
swap_unregister-QueueInv_example =
    swap_unregister-QueueInv 5 0x1000 0x400000 1 machine-QueueInv refl

-- ===== src/Pmap/SwapBack.antt =====
-- Swapping in, in kern/pmap.c: `swap_back`.
pub mod Entry
use mathlib.Core.List.{reverse_aux}
use buaa_mos_with_swap.Prelude.{
  ℕ, ◌+◌, ◌*◌, ◌/◌, ◌%◌, ◌^◌, ◌≡◌, Bool, true, false, not, List, [], ◌∷◌, ◌++◌, arith, leb, ◌==◌,
  if◌then◌else◌, update, bit, set_bit, clear_bit, or_bits,
}
use buaa_mos_with_swap.Mmu.{pte_addr, pte_flags, pte_v, pte_swapped}
use buaa_mos_with_swap.Kernel.{
  Kernel, SwapInfo, M, ok, pure, ◌>>=◌, ◌>>◌, get, modify, panic_on, assert, page2pa,
}
use buaa_mos_with_swap.Pmap.Sdisk.{sd_nblk, sd_block_free, read_page}
use buaa_mos_with_swap.Pmap.Swap.{pte_slot}
use buaa_mos_with_swap.Pmap.Pages.{page_alloc}

-- The four assignments to `*pte`, back into page `p`.
unfoldable pub restored_pte : ℕ → ℕ → ℕ
restored_pte pte p =
    or_bits 32 (pte_flags (clear_bit (set_bit pte pte_v) pte_swapped)) (pte_addr (page2pa p))

-- One round of the loop of `swap_back` over the mappings of the page.
unfoldable pub swap_in_pte : ℕ → SwapInfo → M (Unit {0})
swap_in_pte p i = do
  slot ← pte_slot i.pgdir i.va
  pte ← get (λ s. s.memory slot)
  panic_on (bit pte pte_v)
  panic_on (not (bit pte pte_swapped))
  modify (λ s. record s {
    memory = update s.memory slot (restored_pte pte p);
    pp_ref = update s.pp_ref p ((s.pp_ref p + 1) % 65536);
  })

unfoldable pub swap_in_ptes : ℕ → List SwapInfo → M (Unit {0})
swap_in_ptes p [] = pure tt
swap_in_ptes p (i ∷ is) = swap_in_pte p i >> swap_in_ptes p is

unfoldable pub swap_back : ℕ → M (Unit {0})
swap_back cur_pte = do
  p ← page_alloc
  let bno = cur_pte / 2 ^ 12
  panic_on (leb sd_nblk bno)
  read_page p bno
  sd_block_free bno
  ref ← get (λ s. s.pp_ref p)
  assert (ref == 0)
  infos ← get (λ s. s.bno_tbl bno)
  swap_in_ptes p infos
  modify (λ s. record s {
    page_swap_queue = s.page_swap_queue ++ p ∷ [];
    swap_tbl = update s.swap_tbl p (reverse_aux (s.bno_tbl bno) (s.swap_tbl p));
    bno_tbl = update s.bno_tbl bno [];
  })

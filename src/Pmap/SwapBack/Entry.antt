-- ===== src/Pmap/SwapBack/Entry.antt =====
-- The page table entries that `swap` and `swap_back` of kern/pmap.c write.
use buaa_mos_with_swap.Prelude.{
  ℕ, ◌+◌, ◌*◌, ◌/◌, ◌%◌, ◌^◌, ◌<◌, ◌≡◌, ap, sym, ◌∙◌, Bool, true, false, arith, ◌==◌, if◌then◌else◌,
  bit, set_bit, clear_bit, or_bits, bit-set_bit, bit-clear_bit, or_bits-disjoint, bit-add-mul,
  eq_of_bits,
}
use buaa_mos_with_swap.Mmu.{pte_flags, pte_v, pte_swapped, word_mod}
use buaa_mos_with_swap.Kernel.{page2pa}
use buaa_mos_with_swap.Pmap.Swap.{swapped_pte}
use buaa_mos_with_swap.Pmap.SwapBack.{restored_pte}

bit-mod : (x k : ℕ) → k < 12 → bit (x % 4096) k ≡ bit x k
bit-mod x k h =
    let e : x / 4096 * 2 ^ 12 + x % 4096 ≡ x = omega arith in
    sym (bit-add-mul 12 k (x / 4096) (x % 4096) h) ∙ ap (λ (t : ℕ). bit t k) e

-- `flags | address` is a sum.
or_bits-address : (x b : ℕ) → b < 2 ^ 20 → or_bits 32 (x % 4096) (b * 4096) ≡ b * 4096 + x % 4096
or_bits-address x b h = or_bits-disjoint 12 20 32 (x % 4096) b (omega arith) (omega arith) h

swapped_pte_lem :
    (pte bno : ℕ)
    → bno < 2 ^ 20
    → swapped_pte pte bno ≡ bno * 4096 + set_bit (clear_bit pte pte_v) pte_swapped % 4096
unfolding swapped_pte
swapped_pte_lem pte bno h =
    let e : bno * 2 ^ 12 % word_mod / 4096 * 4096 ≡ bno * 4096 = omega arith in
    rw e (or_bits-address (set_bit (clear_bit pte 7) 3) bno h)

restored_pte_lem :
    (pte p : ℕ)
    → p < 2 ^ 20
    → restored_pte pte p ≡ page2pa p + clear_bit (set_bit pte pte_v) pte_swapped % 4096
unfolding restored_pte
restored_pte_lem pte p h =
    let e : p * 4096 / 4096 * 4096 ≡ p * 4096 = omega arith in
    rw e (or_bits-address (clear_bit (set_bit pte 7) 3) p h)

-- An entry of a page that is swapped out to a block below 2^20 is not valid, is marked as swapped,
-- keeps its other flags, and its address field is the block.
pub swapped_pte_fields :
    (pte bno k : ℕ)
    → bno < 2 ^ 20
    → k < 12
    → (swapped_pte pte bno / 2 ^ 12 ≡ bno)
      × (bit (swapped_pte pte bno) k
          ≡ (if pte_swapped == k then true else if pte_v == k then false else bit pte k))
swapped_pte_fields pte bno k h hk = (
  rw (swapped_pte_lem pte bno h) (omega arith),
  rw (swapped_pte_lem pte bno h) (
      bit-add-mul 12 k bno (set_bit (clear_bit pte 7) 3 % 4096) hk
      ∙ bit-mod (set_bit (clear_bit pte 7) 3) k hk
      ∙ bit-set_bit (clear_bit pte 7) 3 k
      ∙ ap (λ (b : Bool). if 3 == k then true else b) (bit-clear_bit pte 7 k)),
)

-- Swapping an entry out to a block and back in to a page, both numbered below 2^20, restores an
-- entry that is valid and not marked as swapped: it has its old flags and the new page's address.
pub restored_pte-swapped_pte :
    (pte bno p : ℕ)
    → bno < 2 ^ 20
    → p < 2 ^ 20
    → bit pte pte_v ≡ true
    → bit pte pte_swapped ≡ false
    → restored_pte (swapped_pte pte bno) p ≡ page2pa p + pte_flags pte
restored_pte-swapped_pte pte bno p hb hp v sw =
    restored_pte_lem (swapped_pte pte bno) p hp
    ∙ ap (λ (t : ℕ). page2pa p + t)
        (eq_of_bits 12 _ _ (omega arith) (omega arith) λ k hk.
          bit-mod _ k hk
          ∙ bit-clear_bit (set_bit (swapped_pte pte bno) 7) 3 k
          ∙ ap (λ (b : Bool). if 3 == k then false else b) (bit-set_bit (swapped_pte pte bno) 7 k)
          ∙ same k hk
          ∙ sym (bit-mod pte k hk))
  where
    same :
        (k : ℕ)
        → k < 12
        → (if 3 == k then false else if 7 == k then true else bit (swapped_pte pte bno) k)
          ≡ bit pte k
    same k hk = ground (arith, (swapped_pte_fields pte bno k hb hk).1, v, sw)

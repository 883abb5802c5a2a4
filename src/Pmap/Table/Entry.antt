-- ===== src/Pmap/Table/Entry.antt =====
-- The page table entry that `page_insert` of kern/pmap.c writes.
use buaa_mos_with_swap.Prelude.{
  ℕ, ◌+◌, ◌*◌, ◌^◌, ◌<◌, ◌≡◌, refl, ap, ◌∙◌, ◌||◌, ◌&&◌, arith, ◌==◌, not, bit, set_bit, clear_bit,
  or_bits, bit-set_bit, bit-clear_bit, bit-or_bits, clear_bit-le, or_bits-lt, or_bits-fields,
  or_bits-zero_right,
}
use buaa_mos_with_swap.Mmu.{pte_addr, pte_v, pte_swapped, pte_c_cacheable}
use buaa_mos_with_swap.Kernel.{page2pa}
use buaa_mos_with_swap.Pmap.Table.{new_pte}

-- The bits of `page2pa(pp) | (perm & ~PTE_SWAPPED) | PTE_C_CACHEABLE | PTE_V`: every bit of `perm`
-- but `PTE_SWAPPED` goes into the entry, also the bits from 12 up, which are its address field.
pub bit-new_pte :
    (pp perm k : ℕ)
    → k < 32
    → bit (new_pte pp perm) k ≡ (
        bit (page2pa pp) k
        || (not (pte_swapped == k) && bit perm k)
        || (pte_v == k || bit pte_c_cacheable k))
unfolding new_pte
bit-new_pte pp perm k h = ground (
  arith,
  bit-or_bits 32 (or_bits 32 (page2pa pp) (clear_bit perm pte_swapped))
      (set_bit pte_c_cacheable pte_v) k h,
  bit-or_bits 32 (page2pa pp) (clear_bit perm pte_swapped) k h,
  bit-clear_bit perm pte_swapped k,
  bit-set_bit pte_c_cacheable pte_v k,
)

-- With flags only, `flags2` included, an `or` leaves an address alone.
or_bits-flags :
    (a x y : ℕ)
    → a < 2 ^ 20
    → x < 2 ^ 12
    → y < 2 ^ 12
    → or_bits 32 (a * 4096 + x) y ≡ a * 4096 + or_bits 12 x y
or_bits-flags a x y ha hx hy =
    let low : y ≡ 0 * 2 ^ 12 + y = omega arith in
    ap (λ (t : ℕ). or_bits 32 (a * 4096 + x) t) low
    ∙ or_bits-fields 12 20 32 a 0 x y refl hx hy
    ∙ ap (λ (t : ℕ). t * 4096 + or_bits 12 x y) (or_bits-zero_right 20 a ha)

low_flags : set_bit pte_c_cacheable pte_v < 2 ^ 12
unfolding set_bit
low_flags = omega arith

-- Where `perm` holds flags only, the entry's address field is the page's address.
pub pte_addr-new_pte :
    (pp perm : ℕ) → pp < 2 ^ 20 → perm < 4096 → pte_addr (new_pte pp perm) ≡ page2pa pp
unfolding new_pte
pte_addr-new_pte pp perm hp hq =
    let c = clear_bit perm pte_swapped in
    let small : c < 2 ^ 12 = omega (arith, clear_bit-le perm pte_swapped) in
    let plain : pp * 4096 ≡ pp * 4096 + 0 = omega arith in
    let first : or_bits 32 (pp * 4096) c ≡ pp * 4096 + or_bits 12 0 c =
      ap (λ (t : ℕ). or_bits 32 t c) plain ∙ or_bits-flags pp 0 c hp (omega arith) small in
    rw first (
      rw
        (or_bits-flags pp (or_bits 12 0 c) (set_bit pte_c_cacheable pte_v) hp (or_bits-lt 12 0 c)
          low_flags)
        (omega (arith, or_bits-lt 12 (or_bits 12 0 c) (set_bit pte_c_cacheable pte_v))))

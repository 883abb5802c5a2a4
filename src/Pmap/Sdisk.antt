-- ===== src/Pmap/Sdisk.antt =====
-- The swap disk of kern/pmap.c: the block bitmap, and the transfer of a page. The disk holds
-- `SD_NBLK` blocks of one page; `write_page` and `read_page` move all the words of a page.
pub mod Blocks
use buaa_mos_with_swap.Prelude.{
  ℕ, ◌+◌, ◌/◌, ◌%◌, ◌≡◌, Bool, true, false, ◌&&◌, Option, none, some, arith, leb, ◌==◌,
  if◌then◌else◌, update, find_clear, set_at, clear_at,
}
use buaa_mos_with_swap.Mmu.{page_size, ppn}
use buaa_mos_with_swap.Kernel.{Kernel, M, ok, panic, modify, page2pa}

abbrev pub sd_nblk : ℕ
sd_nblk = 2048

unfoldable pub sd_bitmap_init : M (Unit {0})
sd_bitmap_init =
    modify λ s. record s { sd_bitmap = λ i. if leb i (sd_nblk / 32) then 0 else s.sd_bitmap i }

-- The block that is found, with its bit set. The code's check `bno >= 0xfffff` stands behind it.
unfoldable pub sd_block_alloc : M ℕ
sd_block_alloc s = elim (find_clear sd_nblk 0 s.sd_bitmap) [
  | none ↦ panic
  | some bno ↦
      if leb 0xfffff bno then panic else ok bno (record s { sd_bitmap = set_at s.sd_bitmap bno })
]

unfoldable pub sd_block_free : ℕ → M (Unit {0})
sd_block_free bno = modify λ s. record s { sd_bitmap = clear_at s.sd_bitmap bno }

-- `write_page(pp, bno)` and `read_page(pp, bno)`, by the offset of a word in the page, as one step
-- that ends: the loops of `sd_write` and `sd_read` that wait for the disk are left out here.
unfoldable pub write_page : ℕ → ℕ → M (Unit {0})
write_page pp bno =
    modify λ s. record s { sd_blocks = update s.sd_blocks bno (λ off. s.memory (page2pa pp + off)) }

unfoldable pub read_page : ℕ → ℕ → M (Unit {0})
read_page pp bno = modify λ s. record s {
  memory = λ a. if ppn a == pp then s.sd_blocks bno (a % page_size) else s.memory a;
}

-- ===== src/Pmap/Pages.antt =====
-- The free pages of kern/pmap.c: `page_init`, `page_alloc`, `page_free` and `page_decref`.
pub mod Alloc
pub mod Initial
use buaa_mos_with_swap.Prelude.{
  ℕ, zero, suc, ◌+◌, ◌-◌, ◌*◌, ◌/◌, ◌%◌, ◌≡◌, Bool, true, false, not, List, [], ◌∷◌, Option, none,
  some, arith, leb, ltb, ◌==◌, if◌then◌else◌, update, is_nil,
}
use buaa_mos_with_swap.Mmu.{page_size, ppn, ulim, round}
use buaa_mos_with_swap.Boot.{Boot}
use buaa_mos_with_swap.Kernel.{
  Kernel, Outcome, M, ok, panic, pure, ◌>>=◌, ◌>>◌, get, modify, panic_on, assert, pa2page,
}
use buaa_mos_with_swap.Pmap.Swap.{swap, swap_init}

-- The first loop of `page_init`, over the `n` pages from the physical address `pa` on.
unfoldable pub use_pages : ℕ → ℕ → M (Unit {0})
use_pages zero pa = pure tt
use_pages (suc n) pa = do
  pp ← pa2page pa
  modify (λ s. record s { pp_ref = update s.pp_ref pp 1 })
  use_pages n (pa + page_size)

-- Its second loop: the pages join the free list head first.
unfoldable pub free_pages : ℕ → ℕ → M (Unit {0})
free_pages zero pa = pure tt
free_pages (suc n) pa = do
  pp ← pa2page pa
  modify (λ s. record s { pp_ref = update s.pp_ref pp 0; page_free_list = pp ∷ s.page_free_list })
  free_pages n (pa + page_size)

-- The rounds of a loop from `lo`, a page each, while the address is below `hi`.
abbrev pub rounds : ℕ → ℕ → ℕ
rounds lo hi = (hi - lo + 4095) / page_size

-- `PADDR`: a panic below `ULIM`.
unfoldable pub paddr : ℕ → M ℕ
paddr va = do panic_on (ltb va ulim); pure (va - ulim)

-- The variables of the boot allocator come in and go out, with `freemem` rounded up to a page.
unfoldable pub page_init : Boot → M Boot
page_init b = do
  c ← swap_init b
  modify (λ s. record s { page_free_list = [] })
  lo ← paddr (round c.freemem page_size)
  use_pages (rounds 0 lo) 0
  free_pages (rounds lo c.memsize) lo
  pure (record c { freemem = round c.freemem page_size })

abbrev pub nswap : ℕ
nswap = 100

unfoldable pub swaps : ℕ → M (Unit {0})
swaps zero = pure tt
swaps (suc n) = swap >> swaps n

-- `memset(page2kva(pp), 0, PAGE_SIZE)`.
unfoldable pub clear_page : ℕ → (ℕ → ℕ) → ℕ → ℕ
clear_page pp m a = if ppn a == pp then 0 else m a

-- `page_alloc` behind its swapping: take the first free page.
unfoldable pub take_page : List ℕ → M ℕ
take_page [] s = panic
take_page (pp ∷ rest) s = ok pp (record s {
  page_free_list = rest;
  memory = clear_page pp s.memory;
  accessed = update s.accessed pp 0;
})

-- The page; the code's return value is always 0.
unfoldable pub page_alloc : M ℕ
page_alloc = do
  empty ← get (λ s. is_nil s.page_free_list)
  if empty then swaps nswap else pure tt
  free ← get (λ s. s.page_free_list)
  take_page free

unfoldable pub page_free : ℕ → M (Unit {0})
page_free pp = do
  ref ← get (λ s. s.pp_ref pp)
  assert (ref == 0)
  modify (λ s. record s { page_free_list = pp ∷ s.page_free_list })

unfoldable pub page_decref : ℕ → M (Unit {0})
page_decref pp = do
  ref ← get (λ s. s.pp_ref pp)
  assert (ltb 0 ref)
  modify (λ s. record s { pp_ref = update s.pp_ref pp (ref - 1) })
  if ref - 1 == 0 then page_free pp else pure tt

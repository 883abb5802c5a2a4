-- ===== src/Pmap/Pages/Alloc.antt =====
-- `page_alloc` and `page_decref` of kern/pmap.c: which page is given out, and in what state.
use buaa_mos_with_swap.Prelude.{
  ℕ, zero, suc, ◌/◌, ◌≡◌, ◌≢◌, ◌⊎◌, refl, true, ◌&&◌, ◌||◌, List, [], ◌∷◌, arith, update, is_nil,
  mem,
}
use buaa_mos_with_swap.Mmu.{page_size}
use buaa_mos_with_swap.Kernel.{Kernel, ok, panic}
use buaa_mos_with_swap.Pmap.Swap.{swap}
use buaa_mos_with_swap.Pmap.Pages.{clear_page, take_page, nswap, swaps, page_alloc}

-- The state after `pp` was taken from the head of the free list.
abbrev pub taken : Kernel → ℕ → List ℕ → Kernel
taken s pp rest = record s {
  page_free_list = rest;
  memory = clear_page pp s.memory;
  accessed = update s.accessed pp 0;
}

-- With a free page there is no swapping: the first free page is given out, and nothing else changes
-- than the list, the words of the page, and its accessed flag.
pub page_alloc-cons :
    (s : Kernel) (pp : ℕ) (rest : List ℕ)
    → s.page_free_list ≡ pp ∷ rest
    → page_alloc s ≡ ok pp (taken s pp rest)
unfolding page_alloc take_page
page_alloc-cons s pp rest e = ground arith

-- An empty queue leaves nothing to swap out.
swaps-nil : (n : ℕ) (s : Kernel) → is_nil s.page_swap_queue ≡ true → swaps n s ≡ ok tt s
unfolding swaps swap
swaps-nil zero s h = refl
swaps-nil (suc n) s h = rw h (swaps-nil n s h)

-- With no free page and an empty swap queue, `page_alloc` panics.
pub page_alloc-panic :
    (s : Kernel) → s.page_free_list ≡ [] → is_nil s.page_swap_queue ≡ true → page_alloc s ≡ panic
unfolding page_alloc take_page
page_alloc-panic s e h = ground (arith, swaps-nil nswap s h)

-- Where the free pages of `t` and its queued pages come from: a page that became free has lost its
-- `SwapInfo`s, and a page without any stays so.
record Sources (s t : Kernel) : Type 0 where
  free :
      (a : ℕ)
      → mem a t.page_free_list ≡ true
      → (mem a s.page_free_list || (mem a s.page_swap_queue && is_nil (t.swap_tbl a))) ≡ true
  queued : (a : ℕ) → mem a t.page_swap_queue ≡ true → mem a s.page_swap_queue ≡ true
  bare : (a : ℕ) → is_nil (s.swap_tbl a) ≡ true → is_nil (t.swap_tbl a) ≡ true

-- What became of the page `pp`, which an allocation in `s` took from the state `u`: it was free and
-- nothing was swapped out; or no page was free, and the swapping took it from the queue, made it
-- free and left it without `SwapInfo`s.
abbrev pub Origin : Kernel → ℕ → Kernel → Type 0
Origin s pp u =
    ((mem pp s.page_free_list ≡ true) × (u ≡ s))
    ⊎ ((is_nil s.page_free_list ≡ true)
        × (swaps nswap s ≡ ok tt u)
        × (mem pp s.page_swap_queue ≡ true)
        × (is_nil (u.swap_tbl pp) ≡ true))

-- The page `pp` as an allocation leaves it in `t`, with `before` the state after any swapping.
pub record Fresh (s : Kernel) (pp : ℕ) (t : Kernel) : Type 0 where
  pub before : Kernel
  pub origin : Origin s pp before
  pub unlinked : before.page_free_list ≡ pp ∷ t.page_free_list
  pub zeroed : (a : ℕ) → a / page_size ≡ pp → t.memory a ≡ 0
  pub kept : (a : ℕ) → a / page_size ≢ pp → t.memory a ≡ before.memory a
  pub unused : t.accessed pp ≡ 0
  pub tables : (t.swap_tbl ≡ before.swap_tbl) × (t.page_swap_queue ≡ before.page_swap_queue)

-- ===== src/Pmap/Swap.antt =====
-- Swapping out in kern/pmap.c: `swap_register`, `swap_unregister`, and `swap`.
pub mod Clock
pub mod Register
pub mod Victim
use mathlib.Core.List.{reverse_aux}
use buaa_mos_with_swap.Prelude.{
  ℕ, zero, suc, ◌+◌, ◌-◌, ◌*◌, ◌/◌, ◌%◌, ◌^◌, ◌≡◌, Bool, true, false, ◌&&◌, not, List, [], ◌∷◌,
  ◌++◌, Option, none, some, arith, leb, ◌==◌, if◌then◌else◌, update, length, is_nil, head?, mem,
  remove, bit, set_bit, clear_bit, or_bits,
}
use buaa_mos_with_swap.Mmu.{
  pdx, ptx, pte_addr, pte_flags, pte_v, pte_swapped, word_mod, nasid, page_size, sizeof_head,
}
use buaa_mos_with_swap.Boot.{Boot, alloc}
use buaa_mos_with_swap.Kernel.{
  Kernel, SwapInfo, Outcome, M, ok, panic, hang, pure, ◌>>=◌, ◌>>◌, get, modify, panic_on, kaddr,
}
use buaa_mos_with_swap.Pmap.Sdisk.{sd_nblk, sd_bitmap_init, sd_block_alloc, write_page}

-- `tlb_invalidate`: `GENMASK(PGSHIFT, 0)` covers 13 bits.
unfoldable pub tlb_invalidate : ℕ → ℕ → M (Unit {0})
tlb_invalidate asid va =
    modify λ s. record s { tlb_flushes = (va / 8192 * 8192 + asid % nasid) ∷ s.tlb_flushes }

abbrev pub max_swapinfo : ℕ
max_swapinfo = 0x15000

-- A call `alloc(n, PAGE_SIZE, 1)` of the boot allocator.
unfoldable pub alloc_table : ℕ → Boot → M Boot
alloc_table n b s = elim (alloc n page_size true b) [ none ↦ panic | some (chunk, c) ↦ ok c s ]

-- `swap_init`, given the variables of the boot allocator, which it returns as it leaves them; the
-- two tables come from `alloc`, cleared, so all their lists are empty.
unfoldable pub swap_init : Boot → M Boot
swap_init b = do
  sd_bitmap_init
  modify (λ s. record s { page_swap_queue = [] })
  npage ← get (λ s. s.npage)
  c ← alloc_table (npage * sizeof_head % word_mod) b
  modify (λ s. record s { swap_tbl = λ p. [] })
  d ← alloc_table (sd_nblk * sizeof_head) c
  modify (λ s. record s { bno_tbl = λ n. []; swap_info_free = max_swapinfo })
  pure d

unfoldable pub swap_register : ℕ → ℕ → ℕ → ℕ → M (Unit {0})
swap_register pp pgdir va asid s =
    let ste = s.swap_tbl pp in
    let info : SwapInfo = record { pgdir = pgdir; va = pte_addr va; asid = asid } in
    if s.swap_info_free == 0
    then panic
    else ok tt (record s {
      page_swap_queue = if is_nil ste then s.page_swap_queue ++ pp ∷ [] else s.page_swap_queue;
      swap_info_free = s.swap_info_free - 1;
      swap_tbl = update s.swap_tbl pp (info ∷ ste);
    })

unfoldable pub matches : ℕ → ℕ → ℕ → SwapInfo → Bool
matches pgdir va asid i = (i.pgdir == pgdir) && ((i.asid == asid) && (pte_addr i.va == pte_addr va))

-- The list without the first entry that matches, and how many entries went.
unfoldable pub drop_info : (SwapInfo → Bool) → List SwapInfo → List SwapInfo
drop_info p [] = []
drop_info p (i ∷ is) = if p i then is else i ∷ drop_info p is

-- A page is linked into the swap queue exactly where a link of it is not `NULL`.
unfoldable pub swap_unregister : ℕ → ℕ → ℕ → ℕ → M (Unit {0})
swap_unregister pp pgdir va asid s =
    let ste = s.swap_tbl pp in
    let rest = drop_info (matches pgdir va asid) ste in
    if is_nil ste
    then ok tt s
    else ok tt (record s {
      swap_tbl = update s.swap_tbl pp rest;
      swap_info_free = s.swap_info_free + (length ste - length rest);
      page_swap_queue = if is_nil rest then remove pp s.page_swap_queue else s.page_swap_queue;
    })

-- `TAILQ_NEXT`: `NULL` at the last element, and at a page that is not linked.
unfoldable pub next_of : ℕ → List ℕ → Option ℕ
next_of p [] = none
next_of p (x ∷ xs) = if x == p then head? xs else next_of p xs

-- One step of the clock hand, which wraps to the first page.
unfoldable pub advance : ℕ → List ℕ → Option ℕ
advance p q = elim (next_of p q) [ none ↦ head? q | some n ↦ some n ]

-- The second-chance loop `while (1)` of `swap`. `max` is the count before its decrement.
-- It returns the page and the accessed flags.
unfoldable pub clock : ℕ → List ℕ → ℕ → ℕ → ℕ → (ℕ → ℕ) → Option (ℕ × (ℕ → ℕ))
clock zero q last pp max acc = none
clock (suc f) q last pp max acc = elim (advance pp q) [
  | none ↦ none
  | some n ↦
      let cleared = clock f q last n max (update acc n 0) in
      let counted = clock f q last n (max - 1) acc in
      if n == last
      then some (n, acc)
      else if acc n == 1
      then cleared
      else if leb max 1
      then some (n, acc)
      else counted
]

-- Each round clears a flag of a queued page or counts `max` down, so this much fuel is enough.
unfoldable pub clock_fuel : List ℕ → ℕ
clock_fuel q = length q + 101

-- `(Pte *)KADDR(PTE_ADDR(pgdir[PDX(va)])) + PTX(va)`.
unfoldable pub pte_slot : ℕ → ℕ → M ℕ
pte_slot pgdir va = do
  pde ← get (λ s. s.memory (pgdir + 4 * pdx va))
  table ← kaddr (pte_addr pde)
  pure (table + 4 * ptx va)

-- The four assignments to `*pte`, out of memory.
unfoldable pub swapped_pte : ℕ → ℕ → ℕ
swapped_pte pte bno =
    or_bits 32 (pte_flags (set_bit (clear_bit pte pte_v) pte_swapped))
      (pte_addr (bno * 2 ^ 12 % word_mod))

-- One round of the loop of `swap` over the mappings of page `pp`.
unfoldable pub swap_out_pte : ℕ → ℕ → SwapInfo → M (Unit {0})
swap_out_pte bno pp i = do
  slot ← pte_slot i.pgdir i.va
  pte ← get (λ s. s.memory slot)
  panic_on (not (bit pte pte_v))
  panic_on (bit pte pte_swapped)
  modify (λ s. record s { memory = update s.memory slot (swapped_pte pte bno) })
  tlb_invalidate i.asid i.va
  modify (λ s. record s { pp_ref = update s.pp_ref pp ((s.pp_ref pp + 65535) % 65536) })

unfoldable pub swap_out_ptes : ℕ → ℕ → List SwapInfo → M (Unit {0})
swap_out_ptes bno pp [] = pure tt
swap_out_ptes bno pp (i ∷ is) = swap_out_pte bno pp i >> swap_out_ptes bno pp is

-- The end of `swap`: move the `SwapInfo`s to the block's list, and free the page.
unfoldable pub release : ℕ → ℕ → M (Unit {0})
release pp bno = do
  ref ← get (λ s. s.pp_ref pp)
  panic_on (not (ref == 0))
  modify (λ s. record s {
    bno_tbl = update s.bno_tbl bno (reverse_aux (s.swap_tbl pp) (s.bno_tbl bno));
    swap_tbl = update s.swap_tbl pp [];
    page_swap_queue = remove pp s.page_swap_queue;
    page_free_list = pp ∷ s.page_free_list;
  })

-- What `swap` does to the page that the clock chose, from its check of the block number on.
unfoldable pub evict : ℕ → ℕ → M (Unit {0})
evict pp bno = do
  panic_on (leb sd_nblk bno)
  write_page pp bno
  ste ← get (λ s. s.swap_tbl pp)
  swap_out_ptes bno pp ste
  release pp bno

unfoldable pub swap_out : ℕ → M (Unit {0})
swap_out pp = do bno ← sd_block_alloc; evict pp bno

-- Where the hand begins: at the static `last_next`, or at the first page.
unfoldable pub start_of : Option ℕ → ℕ → ℕ
start_of none first = first
start_of (some p) first = p

-- The page to evict, given the queue, and the state with the flags and `last_next` that the search
-- leaves; `last_next` is taken before the page leaves the queue.
unfoldable pub choose : List ℕ → Kernel → Option (ℕ × Kernel)
choose [] s = none
choose (x ∷ q) s =
    let last = start_of s.last_next x in
    elim (clock (clock_fuel (x ∷ q)) (x ∷ q) last last 100 s.accessed) [
      | none ↦ none
      | some (pp, acc) ↦ some (pp, record s { accessed = acc; last_next = advance pp (x ∷ q) })
    ]

unfoldable pub swap : M (Unit {0})
swap s =
    if is_nil s.page_swap_queue
    then ok tt s
    else elim (choose s.page_swap_queue s) [ none ↦ hang | some (pp, s') ↦ swap_out pp s' ]

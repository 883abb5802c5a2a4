-- ===== src/Pmap/Swap/Victim.antt =====
-- What `swap` of kern/pmap.c does to the page that it evicts.
use mathlib.Core.List.{reverse_aux}
use buaa_mos_with_swap.Prelude.{
  ℕ, ◌+◌, ◌≡◌, ◌≢◌, ap, ◌∙◌, inl, inr, ◌⊎◌, true, List, [], ◌∷◌, arith, leb, Bool-cases, update,
  is_nil, mem, remove, IsFirstClear, set_at,
}
use buaa_mos_with_swap.Kernel.{Kernel, SwapInfo, ok, kaddr, page2pa, and_then}
use buaa_mos_with_swap.Kernel.Inversion.{and_then-ok}
use buaa_mos_with_swap.Pmap.Sdisk.{sd_nblk, sd_block_alloc, write_page}
use buaa_mos_with_swap.Pmap.Sdisk.Blocks.{Allocated, sd_block_alloc-Allocated}
use buaa_mos_with_swap.Pmap.Swap.{
  pte_slot, tlb_invalidate, swap_out_pte, swap_out_ptes, release, evict, swap_out, swap,
}
use buaa_mos_with_swap.Pmap.Swap.Clock.{choose-mem}

-- The loop over the mappings touches page tables, the page's count and the TLB only.

-- The entries, counts and TLB flushes of `t`, all else of `s`.
abbrev pub retouched : Kernel → Kernel → Kernel
retouched s t = record s { memory = t.memory; pp_ref = t.pp_ref; tlb_flushes = t.tlb_flushes }

swap_out_pte-frame :
    (bno pp : ℕ) (i : SwapInfo) (s t : Kernel)
    → swap_out_pte bno pp i s ≡ ok tt t
    → t ≡ retouched s t
unfolding swap_out_pte pte_slot kaddr tlb_invalidate
swap_out_pte-frame bno pp i s t e = ground arith

swap_out_ptes-frame :
    (bno pp : ℕ) (is : List SwapInfo) (s t : Kernel)
    → swap_out_ptes bno pp is s ≡ ok tt t
    → t ≡ retouched s t
unfolding swap_out_ptes
swap_out_ptes-frame bno pp [] s t e = ground arith
swap_out_ptes-frame bno pp (i ∷ is) s t e =
    let (_, u, e1, e2) = and_then-ok (swap_out_pte bno pp i s) (λ _. swap_out_ptes bno pp is) e in
    let f : u ≡ retouched s u = swap_out_pte-frame bno pp i s u e1 in
    let g : t ≡ retouched u t = swap_out_ptes-frame bno pp is u t e2 in
    g ∙ ap (λ v. retouched v t) f

-- The state after the page `pp` was evicted to the block `bno`.
pub record Evicted (s : Kernel) (pp bno : ℕ) (t : Kernel) : Type 0 where
  pub block : IsFirstClear sd_nblk 0 s.sd_bitmap bno
  pub in_use : t.sd_bitmap ≡ set_at s.sd_bitmap bno
  pub saved : (off : ℕ) → t.sd_blocks bno off ≡ s.memory (page2pa pp + off)
  pub unreferenced : t.pp_ref pp ≡ 0
  pub moved : t.bno_tbl bno ≡ reverse_aux (s.swap_tbl pp) (s.bno_tbl bno)
  pub emptied : t.swap_tbl pp ≡ []
  pub others : (q : ℕ) → q ≢ pp → t.swap_tbl q ≡ s.swap_tbl q
  pub unqueued : t.page_swap_queue ≡ remove pp s.page_swap_queue
  pub freed : t.page_free_list ≡ pp ∷ s.page_free_list

abbrev written : Kernel → ℕ → ℕ → Kernel
written s pp bno = record s {
  sd_blocks = update s.sd_blocks bno (λ off. s.memory (page2pa pp + off));
}

abbrev released : Kernel → ℕ → ℕ → Kernel
released u pp bno = record u {
  bno_tbl = update u.bno_tbl bno (reverse_aux (u.swap_tbl pp) (u.bno_tbl bno));
  swap_tbl = update u.swap_tbl pp [];
  page_swap_queue = remove pp u.page_swap_queue;
  page_free_list = pp ∷ u.page_free_list;
}

release-ok :
    (pp bno : ℕ) (u t : Kernel)
    → release pp bno u ≡ ok tt t
    → (u.pp_ref pp ≡ 0) × (t ≡ released u pp bno)
unfolding release
release-ok pp bno u t e = (ground arith, ground arith)

evict-ok :
    (pp bno : ℕ) (s t : Kernel)
    → evict pp bno s ≡ ok tt t
    → (u : Kernel) × (u ≡ retouched (written s pp bno) u)
      × (u.pp_ref pp ≡ 0)
      × (t ≡ released u pp bno)
unfolding evict write_page
evict-ok pp bno s t e = elim (Bool-cases (leb sd_nblk bno)) [
  | inl big ↦ absurd (cc (rw big at e))
  | inr small ↦ go (rw small at e)
]
  where
    go :
        and_then (swap_out_ptes bno pp (s.swap_tbl pp) (written s pp bno)) (λ _. release pp bno)
          ≡ ok tt t
        → (u : Kernel) × (u ≡ retouched (written s pp bno) u)
          × (u.pp_ref pp ≡ 0)
          × (t ≡ released u pp bno)
    go h =
        let (_, u, e1, e2) =
          and_then-ok (swap_out_ptes bno pp (s.swap_tbl pp) (written s pp bno))
            (λ _. release pp bno) h in
        let (zeroed, last) = release-ok pp bno u t e2 in
        (u, swap_out_ptes-frame bno pp (s.swap_tbl pp) (written s pp bno) u e1, zeroed, last)

finish_Evicted :
    (s v u t : Kernel) (pp bno : ℕ)
    → Allocated s bno v
    → u ≡ retouched (written v pp bno) u
    → u.pp_ref pp ≡ 0
    → t ≡ released u pp bno
    → Evicted s pp bno t
finish_Evicted s v u t pp bno a eu r et = record {
  block = a.least;
  in_use = ground (arith, a.state);
  saved = λ off. ground (arith, a.state);
  unreferenced = ground (arith, a.state);
  moved = ground (arith, a.state);
  emptied = ground (arith, a.state);
  others = λ q n. ground (arith, a.state);
  unqueued = ground (arith, a.state);
  freed = ground (arith, a.state);
}

-- An eviction that returns has put the words of the page, as they were when it began, on the least
-- free block of the swap disk, and marked that block; the page has no references left, its
-- `SwapInfo`s are on the block's list, and it went from the swap queue to the head of the free list.
pub swap_out-Evicted :
    (s t : Kernel) (pp : ℕ) → swap_out pp s ≡ ok tt t → (bno : ℕ) × Evicted s pp bno t
unfolding swap_out
swap_out-Evicted s t pp e =
    let (bno, v, e1, e2) = and_then-ok (sd_block_alloc s) (evict pp) e in
    let (u, eu, r, et) = evict-ok pp bno v t e2 in
    (bno, finish_Evicted s v u t pp bno (sd_block_alloc-Allocated s v bno e1) eu r et)

-- A call of `swap` that returns did nothing, and then the queue was empty, or it evicted a page of
-- the queue: the page's words are on the least free block of the disk, that block is marked, the
-- page has no reference left, its `SwapInfo`s are on the block's list, the other pages keep theirs,
-- and it went from the queue to the head of the free list.
pub swap-Evicted :
    (s t : Kernel)
    → swap s ≡ ok tt t
    → ((is_nil s.page_swap_queue ≡ true) × (t ≡ s))
      ⊎ ((pp : ℕ) × (bno : ℕ) × (mem pp s.page_swap_queue ≡ true) × Evicted s pp bno t)
unfolding swap
swap-Evicted s t e = elim (Bool-cases (is_nil s.page_swap_queue)) [
  | inl empty ↦ inl (empty, ground arith)
  | inr full ↦
      let (pp, acc, c, m) = choose-mem s.page_swap_queue s full in
      let (bno, v) = swap_out-Evicted _ t pp (rw (full, c, swap) at e) in
      inr (
        pp,
        bno,
        m,
        record {
          block = v.block;
          in_use = v.in_use;
          saved = v.saved;
          unreferenced = v.unreferenced;
          moved = v.moved;
          emptied = v.emptied;
          others = v.others;
          unqueued = v.unqueued;
          freed = v.freed;
        },
      )
]

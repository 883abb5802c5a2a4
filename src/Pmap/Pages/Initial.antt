-- ===== src/Pmap/Pages/Initial.antt =====
-- The pages and the swap queue after `page_init` of kern/pmap.c.
use buaa_mos_with_swap.Prelude.{
  ℕ, zero, suc, ◌+◌, ◌-◌, ◌*◌, ◌/◌, ◌%◌, ◌≤◌, ◌<◌, ◌≡◌, refl, ◌∙◌, true, false, ◌&&◌, ◌||◌, [], ◌∷◌,
  arith, leb, ltb, if◌then◌else◌, update, mem, distinct,
}
use buaa_mos_with_swap.Mmu.{page_size, ppn, ulim, round, sizeof_head, word_mod}
use buaa_mos_with_swap.Strings.{memset}
use buaa_mos_with_swap.Kernel.{Kernel, ok, pa2page}
use buaa_mos_with_swap.Boot.{Boot, next_chunk, alloc}
use buaa_mos_with_swap.Pmap.Sdisk.{sd_bitmap_init, sd_nblk}
use buaa_mos_with_swap.Pmap.Swap.{alloc_table, swap_init, max_swapinfo}
use buaa_mos_with_swap.Pmap.Swap.Register.{QueueInv}
use buaa_mos_with_swap.Pmap.Pages.{use_pages, free_pages, rounds, paddr, page_init}

-- One round of each loop, and all the rounds for the `n` pages from `i` on.
abbrev used : Kernel → ℕ → Kernel
used s i = record s { pp_ref = update s.pp_ref i 1 }

abbrev freed : Kernel → ℕ → Kernel
freed s i = record s { pp_ref = update s.pp_ref i 0; page_free_list = i ∷ s.page_free_list }

unfoldable used_from : ℕ → ℕ → Kernel → Kernel
used_from zero i s = s
used_from (suc n) i s = used_from n (i + 1) (used s i)

unfoldable freed_from : ℕ → ℕ → Kernel → Kernel
freed_from zero i s = s
freed_from (suc n) i s = freed_from n (i + 1) (freed s i)

use_pages-ok :
    (n i pa : ℕ) (s : Kernel)
    → pa ≡ i * page_size
    → i + n ≤ s.npage
    → use_pages n pa s ≡ ok tt (used_from n i s)
unfolding use_pages used_from pa2page
use_pages-ok zero i pa s e h = refl
use_pages-ok (suc n) i pa s e h =
    let here : ppn pa ≡ i = omega arith in
    let step = use_pages-ok n (i + 1) (pa + page_size) (used s i) (omega arith) (omega arith) in
    ground (arith, here, step)

free_pages-ok :
    (n i pa : ℕ) (s : Kernel)
    → pa ≡ i * page_size
    → i + n ≤ s.npage
    → free_pages n pa s ≡ ok tt (freed_from n i s)
unfolding free_pages freed_from pa2page
free_pages-ok zero i pa s e h = refl
free_pages-ok (suc n) i pa s e h =
    let here : ppn pa ≡ i = omega arith in
    let step = free_pages-ok n (i + 1) (pa + page_size) (freed s i) (omega arith) (omega arith) in
    ground (arith, here, step)

-- Setting the counts of the used pages touches nothing else.
used_from-rest :
    (n i : ℕ) (s : Kernel) → used_from n i s ≡ record s { pp_ref = (used_from n i s).pp_ref }
unfolding used_from
used_from-rest zero i s = refl
used_from-rest (suc n) i s = used_from-rest n (i + 1) (used s i)

used_from-ref :
    (n i : ℕ) (s : Kernel) (p : ℕ)
    → (used_from n i s).pp_ref p ≡ (if leb i p && ltb p (i + n) then 1 else s.pp_ref p)
unfolding used_from
used_from-ref zero i s p = ground arith
used_from-ref (suc n) i s p = used_from-ref n (i + 1) (used s i) p ∙ ground arith

freed_from-list :
    (n i : ℕ) (s : Kernel) (p : ℕ)
    → mem p (freed_from n i s).page_free_list
      ≡ ((leb i p && ltb p (i + n)) || mem p s.page_free_list)
unfolding freed_from
freed_from-list zero i s p = ground arith
freed_from-list (suc n) i s p = freed_from-list n (i + 1) (freed s i) p ∙ ground arith

freed_from-ref :
    (n i : ℕ) (s : Kernel) (p : ℕ)
    → (freed_from n i s).pp_ref p ≡ (if leb i p && ltb p (i + n) then 0 else s.pp_ref p)
unfolding freed_from
freed_from-ref zero i s p = ground arith
freed_from-ref (suc n) i s p = freed_from-ref n (i + 1) (freed s i) p ∙ ground arith

freed_from-distinct :
    (n i : ℕ) (s : Kernel)
    → distinct s.page_free_list ≡ true
    → ((p : ℕ) → i ≤ p → mem p s.page_free_list ≡ false)
    → distinct (freed_from n i s).page_free_list ≡ true
unfolding freed_from
freed_from-distinct zero i s d h = d
freed_from-distinct (suc n) i s d h =
    freed_from-distinct n (i + 1) (freed s i) (ground (arith, h i, d)) (λ p l. ground (arith, h p))

freed_from-rest :
    (n i : ℕ) (s : Kernel)
    → ((freed_from n i s).page_swap_queue ≡ s.page_swap_queue)
      × ((freed_from n i s).swap_tbl ≡ s.swap_tbl)
unfolding freed_from
freed_from-rest zero i s = (refl, refl)
freed_from-rest (suc n) i s = freed_from-rest n (i + 1) (freed s i)

alloc_table-ok :
    (n : ℕ) (b : Boot)
    → ulim ≤ b.freemem
    → b.freemem + page_size + n < ulim + b.memsize
    → b.memsize ≤ ulim
    → (c : Boot) × ((s : Kernel) → alloc_table n b s ≡ ok c s)
      × (c.memsize ≡ b.memsize)
      × (b.freemem + n ≤ c.freemem)
      × (c.freemem < b.freemem + page_size + n)
unfolding alloc_table alloc next_chunk
alloc_table-ok n b u h m =
    let chunk = round b.freemem page_size in
    (
      record b { freemem = chunk + n; bytes = memset chunk 0 n b.bytes },
      λ s. ground arith,
      refl,
      omega arith,
      omega arith,
    )

-- The state after `swap_init`, with an empty free list.
start : Kernel → Kernel
start s = record s {
  page_free_list = [];
  page_swap_queue = [];
  swap_tbl = λ p. [];
  bno_tbl = λ b. [];
  swap_info_free = max_swapinfo;
  sd_bitmap = λ i. if leb i (sd_nblk / 32) then 0 else s.sd_bitmap i;
}

-- The state after both loops, the first over the pages below `k`.
abbrev ready : ℕ → Kernel → Kernel
ready k s = freed_from (s.npage - k) k (used_from k 0 (start s))

-- What the kernel starts from, with the pages below `k` taken at boot.
pub record Started (k : ℕ) (s : Kernel) (t : Kernel) : Type 0 where
  pub free : (p : ℕ) → mem p t.page_free_list ≡ (leb k p && ltb p s.npage)
  pub once : distinct t.page_free_list ≡ true
  pub refs : (p : ℕ) → p < s.npage → t.pp_ref p ≡ (if ltb p k then 1 else 0)
  pub queue : QueueInv t

ready-Started : (k : ℕ) (s : Kernel) → k ≤ s.npage → Started k s (ready k s)
unfolding start
ready-Started k s h =
    let u = used_from k 0 (start s) in
    let f : u ≡ record (start s) { pp_ref = u.pp_ref } = used_from-rest k 0 (start s) in
    let (q, tbl) = freed_from-rest (s.npage - k) k u in
    record {
      free = λ p. freed_from-list (s.npage - k) k u p ∙ rw f (ground arith);
      once = freed_from-distinct (s.npage - k) k u (rw f refl) (λ p l. rw f refl);
      refs =
          λ p l. freed_from-ref (s.npage - k) k u p ∙ ground (arith, used_from-ref k 0 (start s) p);
      queue = record { once = rw (q, f) refl; listed = λ p. rw (q, tbl, f) refl };
    }

-- `page_init` behind the two allocations.
run_page_init :
    (b c d : Boot) (s : Kernel)
    → ((w : Kernel) → alloc_table (s.npage * sizeof_head % word_mod) b w ≡ ok c w)
    → ((w : Kernel) → alloc_table (sd_nblk * sizeof_head) c w ≡ ok d w)
    → d.memsize ≡ s.npage * page_size
    → d.memsize < ulim
    → ulim ≤ d.freemem
    → d.freemem < ulim + d.memsize
    → (t : Kernel) × (page_init b s ≡ ok (record d { freemem = round d.freemem page_size }) t)
      × Started ((round d.freemem page_size - ulim) / page_size) s t
unfolding page_init swap_init sd_bitmap_init paddr start
run_page_init b c d s ac ad whole small above room =
    let top = round d.freemem page_size in
    let k = (top - ulim) / page_size in
    let low : ltb top ulim ≡ false = ground arith in
    let bound : k ≤ s.npage = omega arith in
    let n1 : rounds 0 (top - ulim) ≡ k = omega arith in
    let n2 : rounds (top - ulim) d.memsize ≡ s.npage - k = omega arith in
    let fits : k + (s.npage - k) ≤ (used_from k 0 (start s)).npage =
      rw (used_from-rest k 0 (start s)) (omega arith) in
    (
      ready k s,
      rw
          (
            ac _,
            ad _,
            low,
            n1,
            use_pages-ok k 0 0 (start s) refl (omega arith),
            n2,
            free_pages-ok (s.npage - k) k (top - ulim) (used_from k 0 (start s)) (omega arith) fits,
          )
          refl,
      ready-Started k s bound,
    )

-- `page_init` returns where the size of memory is a whole number of pages, below 2 GiB, and
-- leaves room behind the boot allocations for the two tables of the swap, each rounded up to a
-- page. Then `freemem` is the start of a page behind the tables, the free list holds exactly the
-- pages from there up to the last one, each once, those have no reference and the ones below have
-- one, and the swap queue is in step with the empty swap table.
pub page_init-Started :
    (b : Boot) (s : Kernel)
    → b.memsize ≡ s.npage * page_size
    → b.memsize < ulim
    → ulim ≤ b.freemem
    → b.freemem + s.npage * sizeof_head + sd_nblk * sizeof_head + 2 * page_size < ulim + b.memsize
    → (c : Boot) × (t : Kernel) × (page_init b s ≡ ok c t)
      × (c.freemem % page_size ≡ 0)
      × (b.freemem + s.npage * sizeof_head + sd_nblk * sizeof_head ≤ c.freemem)
      × Started ((c.freemem - ulim) / page_size) s t
page_init-Started b s whole small above room =
    let (c, ac, mc, lc, hc) =
      alloc_table-ok (s.npage * sizeof_head % word_mod) b above (omega arith) (omega arith) in
    let (d, ad, md, ld, hd) =
      alloc_table-ok (sd_nblk * sizeof_head) c (omega arith) (omega arith) (omega arith) in
    let (t, e, started) =
      run_page_init b c d s ac ad (omega arith) (omega arith) (omega arith) (omega arith) in
    (record d { freemem = round d.freemem page_size }, t, e, omega arith, omega arith, started)

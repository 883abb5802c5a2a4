-- ===== src/Pmap/Swap/Register.antt =====
-- `swap_register` and `swap_unregister` of kern/pmap.c keep the swap queue and `swap_tbl` in step.
use buaa_mos_with_swap.Prelude.{
  ℕ, ◌+◌, ◌-◌, ◌≤◌, ◌≡◌, Bool, true, false, not, List, [], ◌∷◌, ◌++◌, arith, if◌then◌else◌, update,
  length, is_nil, mem, remove, distinct, mem-append, mem-remove_ne, mem-remove_self,
  distinct-remove, distinct-snoc,
}
use buaa_mos_with_swap.Mmu.{pte_addr}
use buaa_mos_with_swap.Kernel.{Kernel, SwapInfo, ok}
use buaa_mos_with_swap.Pmap.Swap.{swap_register, swap_unregister, matches, drop_info}

-- The queue holds exactly the pages with a registered mapping, each once.
pub record QueueInv (s : Kernel) : Type 0 where
  pub once : distinct s.page_swap_queue ≡ true
  pub listed : (p : ℕ) → mem p s.page_swap_queue ≡ not (is_nil (s.swap_tbl p))

length-drop_info : (p : SwapInfo → Bool) (is : List SwapInfo) → length (drop_info p is) ≤ length is
unfolding drop_info
length-drop_info p [] = omega arith
length-drop_info p (i ∷ is) = ground (arith, length-drop_info p is)

remove-snoc : (a : ℕ) (xs : List ℕ) → mem a xs ≡ false → remove a (xs ++ a ∷ []) ≡ xs
remove-snoc a [] h = ground arith
remove-snoc a (x ∷ xs) h = ground (arith, remove-snoc a xs)

matches_self :
    (pgdir va asid : ℕ)
    → matches pgdir va asid (record { pgdir = pgdir; va = pte_addr va; asid = asid }) ≡ true
unfolding matches
matches_self pgdir va asid = ground arith

module _ {s t : Kernel} (pp pgdir va asid : ℕ) where
  -- A registration that returns keeps the queue in step with the table, takes one `SwapInfo` from
  -- the free ones, and puts the mapping at the head of the page's list.
  pub swap_register-QueueInv :
      QueueInv s
      → swap_register pp pgdir va asid s ≡ ok tt t
      → QueueInv t
        × (t.swap_info_free + 1 ≡ s.swap_info_free)
        × (t.swap_tbl pp ≡ record { pgdir = pgdir; va = pte_addr va; asid = asid } ∷ s.swap_tbl pp)
  unfolding swap_register
  swap_register-QueueInv v e = (
    record {
      once = ground (arith, v.listed pp, distinct-snoc pp s.page_swap_queue);
      listed =
          λ p. ground (arith, v.listed pp, v.listed p, mem-append p s.page_swap_queue (pp ∷ []));
    },
    ground arith,
    ground arith,
  )

  -- Unregistering keeps the queue in step with the table, and returns to the free ones exactly the
  -- `SwapInfo`s that left the page's list.
  pub swap_unregister-QueueInv :
      QueueInv s
      → swap_unregister pp pgdir va asid s ≡ ok tt t
      → QueueInv t
        × (t.swap_info_free + length (t.swap_tbl pp) ≡ s.swap_info_free + length (s.swap_tbl pp))
  unfolding swap_unregister
  swap_unregister-QueueInv v e = (
    record {
      once = ground (arith, v.once, distinct-remove pp s.page_swap_queue);
      listed = λ p. ground (
        arith,
        v.once,
        v.listed pp,
        v.listed p,
        mem-remove_ne p pp s.page_swap_queue,
        mem-remove_self pp s.page_swap_queue,
      );
    },
    ground (arith, length-drop_info (matches pgdir va asid) (s.swap_tbl pp)),
  )

  -- Unregistering the mapping that was registered last undoes the registration: the page's list,
  -- the queue and the number of free `SwapInfo`s are as before.
  pub swap_unregister-swap_register :
      QueueInv s
      → swap_register pp pgdir va asid s ≡ ok tt t
      → (u : Kernel) × (swap_unregister pp pgdir va asid t ≡ ok tt u)
        × (u.swap_tbl pp ≡ s.swap_tbl pp)
        × (u.page_swap_queue ≡ s.page_swap_queue)
        × (u.swap_info_free ≡ s.swap_info_free)
  unfolding swap_register swap_unregister drop_info
  swap_unregister-swap_register v e = (
    record t {
      swap_tbl = update t.swap_tbl pp (s.swap_tbl pp);
      swap_info_free = t.swap_info_free + (length (t.swap_tbl pp) - length (s.swap_tbl pp));
      page_swap_queue =
          if is_nil (s.swap_tbl pp) then remove pp t.page_swap_queue else t.page_swap_queue;
    },
    ground (arith, matches_self pgdir va asid),
    ground arith,
    ground (arith, v.listed pp, remove-snoc pp s.page_swap_queue),
    ground arith,
  )

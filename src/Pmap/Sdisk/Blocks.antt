-- ===== src/Pmap/Sdisk/Blocks.antt =====
-- The blocks of the swap disk in kern/pmap.c: which block is allocated, and what it keeps.
use buaa_mos_with_swap.Prelude.{
  ℕ, ◌<◌, ◌≡◌, refl, ap, ◌∙◌, ◌⊎◌, inl, inr, true, false, some, arith, leb, Option-cases,
  IsFirstClear, find_clear-some, find_clear-none, find_clear, test_at, set_at, test_at-set_at,
  test_at-clear_at,
}
use buaa_mos_with_swap.Kernel.{Kernel, ok, panic}
use buaa_mos_with_swap.Pmap.Sdisk.{sd_nblk, sd_block_alloc, sd_block_free}

-- What a call of `sd_block_alloc` that returns has done.
pub record Allocated (s : Kernel) (bno : ℕ) (t : Kernel) : Type 0 where
  pub least : IsFirstClear sd_nblk 0 s.sd_bitmap bno
  pub state : t ≡ record s { sd_bitmap = set_at s.sd_bitmap bno }

-- Every call of `sd_block_alloc` either panics, and then all the blocks are in use, or returns the
-- least free block of the disk and marks it, and changes nothing else.
pub sd_block_alloc_cases :
    (s : Kernel)
    → ((sd_block_alloc s ≡ panic) × ((k : ℕ) → k < sd_nblk → test_at s.sd_bitmap k ≡ true))
      ⊎ ((bno : ℕ) × (t : Kernel) × (sd_block_alloc s ≡ ok bno t) × Allocated s bno t)
unfolding sd_block_alloc
sd_block_alloc_cases s = elim (Option-cases (find_clear sd_nblk 0 s.sd_bitmap)) [
  | inl e ↦ inl (
    rw (e, sd_block_alloc) refl,
    λ k h. find_clear-none sd_nblk 0 s.sd_bitmap k e (omega arith) h,
  )
  | inr (bno, e) ↦
      let f : IsFirstClear sd_nblk 0 s.sd_bitmap bno =
        find_clear-some sd_nblk 0 s.sd_bitmap bno e in
      let small : leb 0xfffff bno ≡ false = ground (arith, f.below) in
      inr (bno, _, rw (e, sd_block_alloc) (rw small refl), record { least = f; state = refl })
]

found_block :
    (s t : Kernel) (bno : ℕ)
    → sd_block_alloc s ≡ ok bno t
    → find_clear sd_nblk 0 s.sd_bitmap ≡ some bno
unfolding sd_block_alloc
found_block s t bno e = ground arith

next_state :
    (s t : Kernel) (bno : ℕ)
    → sd_block_alloc s ≡ ok bno t
    → t ≡ record s { sd_bitmap = set_at s.sd_bitmap bno }
unfolding sd_block_alloc
next_state s t bno e = ground arith

pub sd_block_alloc-Allocated :
    (s t : Kernel) (bno : ℕ) → sd_block_alloc s ≡ ok bno t → Allocated s bno t
sd_block_alloc-Allocated s t bno e = record {
  least = find_clear-some sd_nblk 0 s.sd_bitmap bno (found_block s t bno e);
  state = next_state s t bno e;
}

-- A block that was allocated is in use afterwards, and once it is freed again the bitmap marks the
-- same blocks as before.
pub sd_block_free-alloc :
    (s t : Kernel) (bno k : ℕ)
    → sd_block_alloc s ≡ ok bno t
    → (test_at t.sd_bitmap bno ≡ true)
      × ((u : Kernel) × (sd_block_free bno t ≡ ok tt u)
          × (test_at u.sd_bitmap k ≡ test_at s.sd_bitmap k))
unfolding sd_block_free
sd_block_free-alloc s t bno k e =
    let f : IsFirstClear sd_nblk 0 s.sd_bitmap bno =
      find_clear-some sd_nblk 0 s.sd_bitmap bno (found_block s t bno e) in
    let m : t.sd_bitmap ≡ set_at s.sd_bitmap bno =
      ap (λ (u : Kernel). u.sd_bitmap) (next_state s t bno e) in
    (
      rw m (test_at-set_at s.sd_bitmap bno bno ∙ ground arith),
      (
        _,
        refl,
        rw m (
            ground (
              arith,
              f.clear,
              test_at-clear_at (set_at s.sd_bitmap bno) bno k,
              test_at-set_at s.sd_bitmap bno k,
            )),
      ),
    )

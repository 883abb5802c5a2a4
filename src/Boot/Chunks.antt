-- ===== src/Boot/Chunks.antt =====
-- The chunks that `alloc` of kern/pmap.c gives out.
use buaa_mos_with_swap.Prelude.{ℕ, ◌+◌, ◌%◌, ◌<◌, ◌≤◌, ◌≡◌, true, some, arith, ◌==◌, if◌then◌else◌}
use buaa_mos_with_swap.Mmu.{word_mod, page_size, ulim}
use buaa_mos_with_swap.Strings.Blocks.{memset_lem}
use buaa_mos_with_swap.Boot.{Boot, next_chunk, alloc}

-- What a call of `alloc` for a page-aligned chunk of `n` cleared bytes has done.
pub record Chunk (s : Boot) (n chunk : ℕ) (t : Boot) : Type 0 where
  pub above : (if s.freemem == 0 then s.end else s.freemem) ≤ chunk
  pub aligned : chunk % page_size ≡ 0
  pub taken : t.freemem ≡ chunk + n
  pub inside : chunk + n < ulim + s.memsize
  pub zeroed : (a : ℕ) → chunk ≤ a → a < chunk + n → t.bytes a ≡ 0
  pub kept : (a : ℕ) → a < chunk → t.bytes a ≡ s.bytes a

-- A call of `alloc` that returns gives a page-aligned chunk at or above the first free address,
-- inside memory and cleared, keeps the bytes below it, and moves the first free address to its end.
-- The sizes are such that no sum wraps.
pub alloc-Chunk :
    (s t : Boot) (n chunk : ℕ)
    → s.freemem + page_size + n < word_mod
    → s.end + page_size + n < word_mod
    → alloc n page_size true s ≡ some (chunk, t)
    → Chunk s n chunk t
unfolding alloc next_chunk
alloc-Chunk s t n chunk fits fits_end e = record {
  above = ground arith;
  aligned = ground arith;
  taken = ground arith;
  inside = ground arith;
  zeroed = λ a l h. ground (arith, memset_lem chunk 0 n s.bytes a);
  kept = λ a l. ground (arith, memset_lem chunk 0 n s.bytes a);
}

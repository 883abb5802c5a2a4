-- ===== src/Env/Asid.antt =====
-- `asid_alloc` and `asid_free` of kern/env.c.
pub mod Unused
use buaa_mos_with_swap.Prelude.{ℕ, Option, none, some, find_clear, set_at, clear_at}
use buaa_mos_with_swap.Mmu.{nasid}
use buaa_mos_with_swap.Kernel.{Kernel, M, ok, modify, Result, success, failure, e_no_free_env}

unfoldable pub asid_alloc : M (Result ℕ)
asid_alloc s = elim (find_clear nasid 0 s.asid_bitmap) [
  | none ↦ ok (failure e_no_free_env) s
  | some i ↦ ok (success i) (record s { asid_bitmap = set_at s.asid_bitmap i })
]

unfoldable pub asid_free : ℕ → M (Unit {0})
asid_free i = modify λ s. record s { asid_bitmap = clear_at s.asid_bitmap i }

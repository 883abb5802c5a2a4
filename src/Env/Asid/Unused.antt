-- ===== src/Env/Asid/Unused.antt =====
-- `asid_alloc` of kern/env.c gives out each identifier once.
use buaa_mos_with_swap.Prelude.{
  ℕ, ◌≡◌, refl, ◌<◌, ◌⊎◌, inl, inr, true, arith, ◌==◌, if◌then◌else◌, Option-cases, find_clear,
  find_clear-some, find_clear-none, IsFirstClear, test_at, set_at, test_at-set_at,
}
use buaa_mos_with_swap.Mmu.{nasid}
use buaa_mos_with_swap.Kernel.{Kernel, ok, success, failure, e_no_free_env}
use buaa_mos_with_swap.Env.Asid.{asid_alloc}

-- `asid_alloc` returns the least unused identifier below 256 and marks just that one; only where
-- all 256 are in use it returns `-E_NO_FREE_ENV`, and changes nothing.
pub asid_alloc_cases :
    (s : Kernel)
    → ((i : ℕ) × (t : Kernel) × (asid_alloc s ≡ ok (success i) t)
        × IsFirstClear nasid 0 s.asid_bitmap i
        × ((k : ℕ) → test_at t.asid_bitmap k ≡ (if i == k then true else test_at s.asid_bitmap k)))
      ⊎ ((asid_alloc s ≡ ok (failure e_no_free_env) s)
          × ((k : ℕ) → k < nasid → test_at s.asid_bitmap k ≡ true))
unfolding asid_alloc
asid_alloc_cases s = elim (Option-cases (find_clear nasid 0 s.asid_bitmap)) [
  | inl e ↦
      inr
        (rw (e, asid_alloc) refl, λ k h. find_clear-none nasid 0 s.asid_bitmap k e (omega arith) h)
  | inr (i, e) ↦ inl (
    i,
    record s { asid_bitmap = set_at s.asid_bitmap i },
    rw (e, asid_alloc) refl,
    find_clear-some nasid 0 s.asid_bitmap i e,
    test_at-set_at s.asid_bitmap i,
  )
]

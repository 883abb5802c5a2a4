-- ===== src/Syscall/Memory/Access.antt =====
-- What a handler that names an environment by its identifier does with the state.
use buaa_mos_with_swap.Prelude.{
  ℕ, ◌≡◌, ◌⊎◌, inl, inr, Bool, Option, none, some, arith, Option-cases,
}
use buaa_mos_with_swap.Kernel.{Kernel, ok, M, Result, success, failure, deref, ◌>>=◌, or_fail}
use buaa_mos_with_swap.Kernel.Inversion.{and_then-ok}
use buaa_mos_with_swap.Env.Ids.{envid2env, permitted}
use buaa_mos_with_swap.Syscall.Memory.{with_env}

-- `envid2env` changes no state.
pub envid2env_same :
    (s t : Kernel) (envid : ℕ) (checkperm : Bool) (r : Result (Option ℕ))
    → envid2env envid checkperm s ≡ ok r t
    → s ≡ t
unfolding envid2env permitted
envid2env_same s t envid checkperm r h = elim (Option-cases s.curenv) [
  | inl n ↦ ground arith
  | inr (c, n) ↦ ground arith
]

module _ {A : Type 0} (k : ℕ → M (Result A)) where
  named-cases :
      (s t : Kernel) (a : Result (Option ℕ)) (r : Result A)
      → or_fail (λ p. deref p >>= k) a s ≡ ok r t
      → ((e : ℕ) × (k e s ≡ ok r t)) ⊎ (s ≡ t)
  named-cases s t (success none) r h = cc
  named-cases s t (success (some e)) r h = inl (e, h)
  named-cases s t (failure e) r h = inr (ground arith)

-- A handler that returns has either run on some environment, in the state it was called in, or
-- changed nothing.
pub with_env-cases :
    {A : Type 0} (envid : ℕ) (perm : Bool) (k : ℕ → M (Result A)) {s t : Kernel} {r : Result A}
    → with_env envid perm k s ≡ ok r t
    → ((e : ℕ) × (k e s ≡ ok r t)) ⊎ (s ≡ t)
with_env-cases envid perm k h =
    let (a, u, e, g) = and_then-ok (envid2env envid perm _) _ h in
    named-cases k _ _ a _ (rw (envid2env_same _ u envid perm a e) g)

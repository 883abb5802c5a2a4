-- ===== src/Env/Ids/Lookup.antt =====
-- `envid2env` of kern/env.c decides exactly which environments a caller may name.
use buaa_mos_with_swap.Prelude.{
  ℕ, ◌≡◌, refl, ◌≢◌, ◌⊎◌, inl, inr, true, ◌||◌, not, some, arith, ◌==◌, Bool-cases,
}
use buaa_mos_with_swap.Kernel.{Kernel, ok, env_free_status, success, failure, e_bad_env}
use buaa_mos_with_swap.Env.Ids.{envx, permitted, envid2env}

-- What the caller `c` may reach under a nonzero identifier with its permission checked: a live
-- environment that has this identifier, and that is `c` itself or a child of `c`.
pub record MayName (s : Kernel) (c envid e : ℕ) : Type 0 where
  pub index : e ≡ envx envid
  pub live : (s.envs e).env_status ≢ env_free_status
  pub named : (s.envs e).env_id ≡ envid
  pub own : (e ≡ c) ⊎ ((s.envs e).env_parent_id ≡ (s.envs c).env_id)

-- With a current environment, a nonzero identifier and the check asked for, `envid2env` succeeds
-- exactly for what the caller may name, fails with `-E_BAD_ENV` otherwise, and changes nothing.
pub envid2env_checked :
    (s : Kernel) (c envid : ℕ)
    → s.curenv ≡ some c
    → envid ≢ 0
    → ((envid2env envid true s ≡ ok (success (some (envx envid))) s)
        × MayName s c envid (envx envid))
      ⊎ ((envid2env envid true s ≡ ok (failure e_bad_env) s) × ¬ MayName s c envid (envx envid))
unfolding envid2env permitted
envid2env_checked s c envid h z =
    elim (Bool-cases (
      ((s.envs (envx envid)).env_status == env_free_status)
      || not ((s.envs (envx envid)).env_id == envid))) [
        | inl bad ↦ inr (ground arith, λ m. ground (arith, m.live, m.named))
        | inr good ↦
            elim (Bool-cases
              ((envx envid == c) || ((s.envs (envx envid)).env_parent_id == (s.envs c).env_id))) [
                | inl mine ↦ inl (
                  ground arith,
                  record {
                    index = refl;
                    live = ground arith;
                    named = ground arith;
                    own = ground arith;
                  },
                )
                | inr foreign ↦ inr (ground arith, λ m. ground (arith, m.own))
              ]
      ]

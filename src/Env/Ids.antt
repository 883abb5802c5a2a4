-- ===== src/Env/Ids.antt =====
-- `mkenvid` and `envid2env` of kern/env.c, with `ENVX` of include/env.h.
pub mod Unique
pub mod Lookup
use buaa_mos_with_swap.Prelude.{
  ℕ, ◌+◌, ◌*◌, ◌%◌, ◌^◌, Bool, true, false, ◌&&◌, ◌||◌, not, Option, none, some, ◌==◌,
  if◌then◌else◌, or_bits,
}
use buaa_mos_with_swap.Mmu.{word_mod}
use buaa_mos_with_swap.Kernel.{
  Kernel, M, ok, null_deref, pure, env_free_status, Result, success, failure, e_bad_env,
}

abbrev pub nenv : ℕ
nenv = 1024

abbrev pub envx : ℕ → ℕ
envx envid = envid % nenv

-- `((++i) << (1 + LOG2NENV)) | (e - envs)`.
unfoldable pub mkenvid : ℕ → M ℕ
mkenvid e s =
    let i = (s.env_count + 1) % word_mod in
    ok (or_bits 32 e (i * 2 ^ 11 % word_mod)) (record s { env_count = i })

-- Is `e` the current environment or its child?
unfoldable pub permitted : ℕ → M Bool
permitted e s = elim s.curenv [
  | none ↦ null_deref
  | some c ↦ ok ((e == c) || ((s.envs e).env_parent_id == (s.envs c).env_id)) s
]

-- What goes to `*penv`: a pointer, which is `NULL` where `curenv` is.
unfoldable pub envid2env : ℕ → Bool → M (Result (Option ℕ))
envid2env envid checkperm s =
    if envid == 0
    then ok (success s.curenv) s
    else let e = envx envid in
      if ((s.envs e).env_status == env_free_status) || not ((s.envs e).env_id == envid)
      then ok (failure e_bad_env) s
      else if not checkperm
      then ok (success (some e)) s
      else elim (permitted e s) [
        | ok true s' ↦ ok (success (some e)) s'
        | ok false s' ↦ ok (failure e_bad_env) s'
        | _ ↦ null_deref
      ]

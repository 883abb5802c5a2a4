-- ===== src/Sched.antt =====
-- kern/sched.c, and `env_create` and `env_destroy` of kern/env.c, which schedule or are scheduled.
pub mod Invariant
pub mod Rounds
use buaa_mos_with_swap.Prelude.{
  ℕ, ◌+◌, ◌-◌, ◌%◌, Bool, true, false, ◌&&◌, ◌||◌, not, List, [], ◌∷◌, ◌++◌, Option, none, some,
  ◌==◌, if◌then◌else◌, is_nil, remove,
}
use buaa_mos_with_swap.Mmu.{word_mod}
use buaa_mos_with_swap.Kernel.{
  Kernel, M, ok, panic, null_deref, pure, ◌>>=◌, ◌>>◌, get, modify, env_runnable,
}
use buaa_mos_with_swap.Kernel.SchedList.{unlink}
use buaa_mos_with_swap.Env.Life.{env_run, env_free, set_env}

-- The current environment leaves the list, and comes back at the tail if it is runnable.
unfoldable pub requeue : Option ℕ → M (Unit {0})
requeue none = pure tt
requeue (some e) = do
  unlink e
  status ← get (λ s. (s.envs e).env_status)
  if status == env_runnable
      then modify (λ s. record s { env_sched_list = s.env_sched_list ++ e ∷ [] })
      else pure tt

-- Run the first environment of the list for as many slices as its priority says.
unfoldable pub run_first : List ℕ → M (Unit {0})
run_first [] = λ s. null_deref
run_first (e ∷ _) = do
  modify (λ s. record s { time_slices = ((s.envs e).env_pri + word_mod - 1) % word_mod })
  env_run e

unfoldable pub is_none : Option ℕ → Bool
is_none none = true
is_none (some e) = false

unfoldable pub pick_next : M (Unit {0})
pick_next s =
    if is_none s.curenv && is_nil s.env_sched_list
    then panic
    else (requeue s.curenv >> get (λ s. s.env_sched_list) >>= run_first) s

unfoldable pub must_switch : Bool → Kernel → Bool
must_switch yield s = elim s.curenv [
  | none ↦ true
  | some e ↦ yield || (s.time_slices == 0) || not ((s.envs e).env_status == env_runnable)
]

unfoldable pub keep_running : Option ℕ → M (Unit {0})
keep_running none = λ s. null_deref
keep_running (some e) = do
  modify (λ s. record s { time_slices = (s.time_slices + word_mod - 1) % word_mod })
  env_run e

unfoldable pub schedule : Bool → M (Unit {0})
schedule yield s = if must_switch yield s then pick_next s else keep_running s.curenv s

unfoldable pub same_env : Option ℕ → ℕ → Bool
same_env none e = false
same_env (some c) e = c == e

-- Does `env_destroy` return to its caller, or leave through `schedule`?
unfoldable pub env_destroy : ℕ → M Bool
env_destroy e = do
  env_free e
  cur ← get (λ s. s.curenv)
  if same_env cur e
      then (do modify (λ s. record s { curenv = none }); schedule true; pure false)
      else pure true

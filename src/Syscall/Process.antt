-- ===== src/Syscall/Process.antt =====
-- The process system calls of kern/syscall_all.c.
pub mod Status
use buaa_mos_with_swap.Prelude.{
  ℕ, Bool, true, false, ◌&&◌, ◌||◌, not, List, ◌∷◌, Option, none, some, ◌==◌, if◌then◌else◌, update,
  remove,
}
use buaa_mos_with_swap.Kernel.{
  sizeof_trapframe, Kernel, Trapframe, M, ok, pure, ◌>>=◌, ◌>>◌, get, modify, deref, env_runnable,
  env_not_runnable, Result, success, failure, e_inval, try,
}
use buaa_mos_with_swap.Kernel.SchedList.{unlink}
use buaa_mos_with_swap.Env.Ids.{envid2env}
use buaa_mos_with_swap.Env.Life.{set_env, env_alloc}
use buaa_mos_with_swap.Sched.{schedule, env_destroy, same_env}
use buaa_mos_with_swap.Syscall.Range.{is_illegal_va_range}
use buaa_mos_with_swap.Syscall.Memory.{with_env}

-- `none` is a handler that leaves through `schedule`.
abbrev pub Reply : Type 0
Reply = Option (Result ℕ)

abbrev pub returning : M (Result ℕ) → M Reply
returning m = m >>= λ r. pure (some r)

-- `curenv`, which the code reads through without a test.
abbrev pub current : M ℕ
current s = deref s.curenv s

unfoldable pub sys_getenvid : M (Result ℕ)
sys_getenvid = do c ← current; id ← get (λ s. (s.envs c).env_id); pure (success id)

unfoldable pub sys_yield : M Reply
sys_yield = do schedule true; pure none

unfoldable pub sys_env_destroy : ℕ → M Reply
sys_env_destroy envid = do
  r ← envid2env envid true
  elim r [
    | failure e ↦ pure (some (failure e))
    | success p ↦ do
      e ← deref p
      returns ← env_destroy e
      pure (if returns then some (success 0) else none)
  ]

unfoldable pub sys_set_tlb_mod_entry : ℕ → ℕ → M (Result ℕ)
sys_set_tlb_mod_entry envid func =
    with_env envid true
      λ e. do set_env e (λ r. record r { env_user_tlb_mod_entry = func }); pure (success 0)

unfoldable pub sys_exofork : M (Result ℕ)
sys_exofork = do
  c ← current
  parent ← get (λ s. (s.envs c).env_id)
  try (env_alloc parent) λ e. do
    tf ← get (λ s. s.saved_tf)
    pri ← get (λ s. (s.envs c).env_pri)
    set_env e (λ r. record r {
      env_tf = record tf { regs = update tf.regs 2 0 };
      env_status = env_not_runnable;
      env_pri = pri;
    })
    id ← get (λ s. (s.envs e).env_id)
    pure (success id)

-- The change of the scheduling list with a change of status.
unfoldable pub move_env : ℕ → ℕ → ℕ → M (Unit {0})
move_env old status e =
    if old == status
    then pure tt
    else if status == env_runnable
    then modify (λ s. record s { env_sched_list = e ∷ s.env_sched_list })
    else unlink e

unfoldable pub valid_status : ℕ → Bool
valid_status status = (status == env_runnable) || (status == env_not_runnable)

-- The change of status of an environment that the caller may name.
unfoldable pub set_status : ℕ → ℕ → M (Result ℕ)
set_status status e = do
  old ← get (λ s. (s.envs e).env_status)
  move_env old status e
  set_env e (λ r. record r { env_status = status })
  pure (success 0)

unfoldable pub sys_set_env_status : ℕ → ℕ → M (Result ℕ)
sys_set_env_status envid status =
    if valid_status status then with_env envid true (set_status status) else pure (failure e_inval)

-- `tf` is the address that the user gives, and `value` what stands there.
unfoldable pub sys_set_trapframe : ℕ → ℕ → Trapframe → M (Result ℕ)
sys_set_trapframe envid tf value =
    if is_illegal_va_range tf sizeof_trapframe
    then pure (failure e_inval)
    else with_env envid true λ e. do
      cur ← get (λ s. s.curenv)
      if same_env cur e
          then (do modify (λ s. record s { saved_tf = value }); pure (success (value.regs 2)))
          else (do set_env e (λ r. record r { env_tf = value }); pure (success 0))

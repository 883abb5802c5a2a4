-- ===== src/Syscall/Ipc.antt =====
-- The messages of kern/syscall_all.c: `sys_ipc_recv` and `sys_ipc_try_send`.
pub mod Messages
use buaa_mos_with_swap.Prelude.{
  ℕ, Bool, true, false, ◌&&◌, not, List, [], ◌∷◌, ◌++◌, Option, none, some, ◌==◌, if◌then◌else◌,
  update, remove, is_nil, set_bit, clear_bit,
}
use buaa_mos_with_swap.Mmu.{pte_addr, pte_v, pte_swapped}
use buaa_mos_with_swap.Kernel.{
  Kernel, Env, M, ok, pure, ◌>>=◌, ◌>>◌, get, modify, env_runnable, env_not_runnable, Result,
  success, failure, e_inval, e_ipc_not_recv, try,
}
use buaa_mos_with_swap.Kernel.SchedList.{unlink}
use buaa_mos_with_swap.Pmap.Swap.{swap_register}
use buaa_mos_with_swap.Pmap.Table.{page_insert, page_lookup}
use buaa_mos_with_swap.Env.Life.{set_env}
use buaa_mos_with_swap.Sched.{schedule, same_env}
use buaa_mos_with_swap.Syscall.Range.{is_illegal_va}
use buaa_mos_with_swap.Syscall.Memory.{with_env, is_swappable, found_page}
use buaa_mos_with_swap.Syscall.Process.{Reply, current}

-- The address 0 stands for "no page".
unfoldable pub bad_page_va : ℕ → Bool
bad_page_va va = not (va == 0) && is_illegal_va va

-- The steps of `sys_ipc_recv` before it gives up the processor.
unfoldable pub start_recv : ℕ → ℕ → M (Unit {0})
start_recv c dstva = do
  set_env c
      (λ r. record r { env_ipc_recving = 1; env_ipc_dstva = dstva; env_status = env_not_runnable })
  unlink c
  modify (λ s. record s { saved_tf = record (s.saved_tf) { regs = update s.saved_tf.regs 2 0 } })

unfoldable pub sys_ipc_recv : ℕ → M Reply
sys_ipc_recv dstva =
    if bad_page_va dstva
    then pure (some (failure e_inval))
    else (do c ← current; start_recv c dstva; schedule true; pure none)

-- The fields that a message fills, and the receiver made runnable.
unfoldable pub deliver : ℕ → ℕ → ℕ → ℕ → M (Unit {0})
deliver e value perm sender = do
  set_env e (λ r. record r {
    env_ipc_value = value;
    env_ipc_from = sender;
    env_ipc_perm = set_bit (clear_bit perm pte_swapped) pte_v;
    env_ipc_recving = 0;
    env_status = env_runnable;
  })
  modify (λ s. record s { env_sched_list = s.env_sched_list ++ e ∷ [] })

-- The page that goes with the message.
unfoldable pub send_page : ℕ → ℕ → ℕ → M (Result ℕ)
send_page e srcva perm = do
  c ← current
  src_pgdir ← get (λ s. (s.envs c).env_pgdir)
  (found, _) ← page_lookup src_pgdir srcva
  try (found_page found) λ pp. do
    swappable ← is_swappable (some pp)
    pgdir ← get (λ s. (s.envs e).env_pgdir)
    asid ← get (λ s. (s.envs e).env_asid)
    dstva ← get (λ s. (s.envs e).env_ipc_dstva)
    page_insert pgdir asid pp dstva perm
    if swappable && not ((c == e) && (pte_addr dstva == pte_addr srcva))
        then swap_register pp pgdir dstva asid
        else pure tt
    pure (success 0)

unfoldable pub send_to : ℕ → ℕ → ℕ → ℕ → M (Result ℕ)
send_to e value srcva perm = do
  recving ← get (λ s. (s.envs e).env_ipc_recving)
  if recving == 0 then pure (failure e_ipc_not_recv) else (do
    c ← current
    sender ← get (λ s. (s.envs c).env_id)
    deliver e value perm sender
    if srcva == 0 then pure (success 0) else send_page e srcva perm)

unfoldable pub sys_ipc_try_send : ℕ → ℕ → ℕ → ℕ → M (Result ℕ)
sys_ipc_try_send envid value srcva perm =
    if bad_page_va srcva
    then pure (failure e_inval)
    else with_env envid false λ e. send_to e value srcva perm

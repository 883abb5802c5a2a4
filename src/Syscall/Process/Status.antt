-- ===== src/Syscall/Process/Status.antt =====
-- `sys_set_env_status` of kern/syscall_all.c and the scheduling list.
use buaa_mos_with_swap.Prelude.{
  ℕ, ◌≡◌, inl, inr, true, arith, Bool-cases, mem-remove_ne, mem-remove_self, distinct-remove,
  update, subst, ap, ◌∙◌, List, ◌∷◌, Option, remove, ◌==◌, if◌then◌else◌, refl,
}
use buaa_mos_with_swap.Kernel.{Kernel, M, ok, Result, success, and_then, env_runnable}
use buaa_mos_with_swap.Kernel.Inversion.{and_then-ok}
use buaa_mos_with_swap.Kernel.SchedList.{unlink-ok}
use buaa_mos_with_swap.Sched.Invariant.{SchedInv}
use buaa_mos_with_swap.Syscall.Memory.Access.{with_env-cases}
use buaa_mos_with_swap.Syscall.Process.{move_env, valid_status, set_status, sys_set_env_status}

-- The scheduling list after a change of status.
unfoldable pub moved_list : ℕ → ℕ → ℕ → List ℕ → List ℕ
moved_list old status e q =
    if old == status then q else if status == env_runnable then e ∷ q else remove e q

-- The kernel after a change of the status of `e`.
unfoldable pub moved : Kernel → ℕ → ℕ → (ℕ → Option (Option ℕ × Option ℕ)) → Kernel
moved s e status l = record s {
  env_sched_list = moved_list (s.envs e).env_status status e s.env_sched_list;
  sched_link = l;
  envs = update s.envs e (record (s.envs e) { env_status = status });
}

moved-SchedInv :
    (s : Kernel) (e status : ℕ) (l : ℕ → Option (Option ℕ × Option ℕ))
    → valid_status status ≡ true
    → SchedInv s
    → SchedInv (moved s e status l)
unfolding moved moved_list valid_status
moved-SchedInv s e status l ok_status v = record {
  once = ground (arith, v.once, v.listed e, distinct-remove e s.env_sched_list);
  listed = λ k. ground (
    arith,
    v.once,
    v.listed e,
    v.listed k,
    mem-remove_self e s.env_sched_list,
    mem-remove_ne k e s.env_sched_list,
  );
}

move_env-ok :
    (s u : Kernel) (e old status : ℕ)
    → move_env old status e s ≡ ok tt u
    → (l : ℕ → Option (Option ℕ × Option ℕ)) × (record s {
      env_sched_list = moved_list old status e s.env_sched_list;
      sched_link = l;
    }
        ≡ u)
unfolding move_env moved_list
move_env-ok s u e old status h = elim (Bool-cases (old == status)) [
  | inl same ↦ (s.sched_link, rw same (ground (arith, rw same at h)))
  | inr change ↦ elim (Bool-cases (status == env_runnable)) [
    | inl run ↦ (s.sched_link, rw (change, run) (ground (arith, rw (change, run) at h)))
    | inr stop ↦
        let (l, gone) = unlink-ok e s u (rw (change, stop) at h) in (l, rw (change, stop) gone)
  ]
]

finish : ℕ → ℕ → M (Result ℕ)
finish e status s =
    ok (success 0) (record s { envs = update s.envs e (record (s.envs e) { env_status = status }) })

finish_lem :
    (s : Kernel) (e status : ℕ)
    → and_then (move_env (s.envs e).env_status status e s) (λ _. finish e status)
      ≡ set_status status e s
unfolding set_status finish
finish_lem s e status = refl

finish-ok :
    (s t : Kernel) (e status : ℕ) (r : Result ℕ) (l : ℕ → Option (Option ℕ × Option ℕ))
    → finish e status (record s {
      env_sched_list = moved_list (s.envs e).env_status status e s.env_sched_list;
      sched_link = l;
    })
      ≡ ok r t
    → moved s e status l ≡ t
unfolding finish moved
finish-ok s t e status r l h = ground (arith, h)

set_status-SchedInv :
    (s t : Kernel) (e status : ℕ) (r : Result ℕ)
    → valid_status status ≡ true
    → SchedInv s
    → set_status status e s ≡ ok r t
    → SchedInv t
unfolding set_status moved
set_status-SchedInv s t e status r good v h =
    let (_, u, moved_there, rest) =
      and_then-ok (move_env (s.envs e).env_status status e s) (λ _. finish e status) {b = r} {t = t}
        (finish_lem s e status ∙ h) in
    let (l, same) = move_env-ok s u e (s.envs e).env_status status moved_there in
    subst SchedInv (finish-ok s t e status r l (ap (finish e status) same ∙ rest))
      (moved-SchedInv s e status l good v)

-- A call of `sys_set_env_status` that returns, whatever its result, leaves `env_sched_list` the
-- list of exactly the runnable environments, each once.
pub sys_set_env_status-SchedInv :
    (s t : Kernel) (envid status : ℕ) (r : Result ℕ)
    → SchedInv s
    → sys_set_env_status envid status s ≡ ok r t
    → SchedInv t
unfolding sys_set_env_status
sys_set_env_status-SchedInv s t envid status r v h = elim (Bool-cases (valid_status status)) [
  | inr bad ↦ subst SchedInv (ground arith) v
  | inl good ↦ elim (with_env-cases envid true (set_status status) (rw good at h)) [
    | inl (e, k) ↦ set_status-SchedInv s t e status r good v k
    | inr same ↦ subst SchedInv same v
  ]
]

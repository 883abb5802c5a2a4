-- ===== src/Syscall/Ipc/Messages.antt =====
-- What a message does to its receiver and to the scheduling list (kern/syscall_all.c).
use buaa_mos_with_swap.Prelude.{
  ℕ, ◌≡◌, refl, ◌≢◌, inl, inr, true, false, [], ◌∷◌, ◌++◌, none, some, arith, ◌==◌, Bool-cases,
  remove, distinct, mem-remove_ne, mem-remove_self, distinct-remove, distinct-snoc, mem-append,
  update, subst, ap, sym, ◌∙◌, Option, Option-cases, set_bit, clear_bit,
}
use buaa_mos_with_swap.Mmu.{pte_v, pte_swapped}
use buaa_mos_with_swap.Kernel.{Kernel, ok, env_runnable, env_not_runnable, Result, success}
use buaa_mos_with_swap.Env.Ids.{envid2env, permitted, envx}
use buaa_mos_with_swap.Env.Ids.Lookup.{MayName}
use buaa_mos_with_swap.Sched.Invariant.{SchedInv, is_runnable}
use buaa_mos_with_swap.Kernel.{M, pure, ◌>>◌, and_then}
use buaa_mos_with_swap.Kernel.SchedList.{unlink, unlinked, unlink-ok}
use buaa_mos_with_swap.Kernel.Inversion.{and_then-ok}
use buaa_mos_with_swap.Sched.{schedule}
use buaa_mos_with_swap.Sched.Invariant.{schedule-SchedInv}
use buaa_mos_with_swap.Syscall.Memory.Access.{with_env-cases}
use buaa_mos_with_swap.Syscall.Process.{
  Reply, move_env, valid_status, set_status, sys_set_env_status,
}
use buaa_mos_with_swap.Syscall.Process.Status.{moved, moved_list}
use buaa_mos_with_swap.Syscall.Ipc.{
  start_recv, deliver, send_to, sys_ipc_recv, sys_ipc_try_send, bad_page_va,
}

-- The kernel with `e` off the scheduling list and waiting.
waiting : Kernel → ℕ → ℕ → (ℕ → Option (Option ℕ × Option ℕ)) → Kernel
waiting s e dstva l = record s {
  sched_link = l;
  envs = update s.envs e (record (s.envs e) {
    env_ipc_recving = 1;
    env_ipc_dstva = dstva;
    env_status = env_not_runnable;
  });
  env_sched_list = remove e s.env_sched_list;
  saved_tf = record (s.saved_tf) { regs = update s.saved_tf.regs 2 0 };
}

-- The kernel with the message of `sender` in `e`.
messaged : Kernel → ℕ → ℕ → ℕ → ℕ → Kernel
messaged s e value perm sender = record s {
  envs = update s.envs e (record (s.envs e) {
    env_ipc_value = value;
    env_ipc_from = sender;
    env_ipc_perm = set_bit (clear_bit perm pte_swapped) pte_v;
    env_ipc_recving = 0;
    env_status = env_runnable;
  });
  env_sched_list = s.env_sched_list ++ e ∷ [];
}

-- What the receiver `e` of a message finds, and what stays.
pub record Received (s : Kernel) (c e value perm : ℕ) (t : Kernel) : Type 0 where
  pub value_given : (t.envs e).env_ipc_value ≡ value
  pub sender_given : (t.envs e).env_ipc_from ≡ (s.envs c).env_id
  pub perm_given : (t.envs e).env_ipc_perm ≡ set_bit (clear_bit perm pte_swapped) pte_v
  pub closed : (t.envs e).env_ipc_recving ≡ 0
  pub woken : is_runnable t e ≡ true
  pub last : t.env_sched_list ≡ s.env_sched_list ++ e ∷ []
  pub others : (k : ℕ) → k ≢ e → t.envs k ≡ s.envs k
  pub memory : t.memory ≡ s.memory

messaged-Received :
    (s : Kernel) (c e value perm : ℕ)
    → Received s c e value perm (messaged s e value perm (s.envs c).env_id)
unfolding messaged
messaged-Received s c e value perm = record {
  value_given = ground arith;
  sender_given = ground arith;
  perm_given = ground arith;
  closed = ground arith;
  woken = ground arith;
  last = refl;
  others = λ k ne. ground (arith, ne);
  memory = refl;
}

-- A message without a page reaches an environment that is receiving.
pub sys_ipc_try_send-Received :
    (s : Kernel) (c e envid value perm : ℕ)
    → s.curenv ≡ some c
    → envid2env envid false s ≡ ok (success (some e)) s
    → (s.envs e).env_ipc_recving ≢ 0
    → (t : Kernel) × (sys_ipc_try_send envid value 0 perm s ≡ ok (success 0) t)
      × Received s c e value perm t
unfolding sys_ipc_try_send send_to deliver bad_page_va messaged
sys_ipc_try_send-Received s c e envid value perm cur n r = (
  messaged s e value perm (s.envs c).env_id,
  ground (arith, cur, n, r),
  messaged-Received s c e value perm,
)

waiting-SchedInv :
    (s : Kernel) (e dstva : ℕ) (l : ℕ → Option (Option ℕ × Option ℕ))
    → SchedInv s
    → SchedInv (waiting s e dstva l)
unfolding waiting
waiting-SchedInv s e dstva l v = record {
  once = distinct-remove e s.env_sched_list v.once;
  listed = λ k. ground (
    arith,
    v.once,
    v.listed k,
    mem-remove_self e s.env_sched_list,
    mem-remove_ne k e s.env_sched_list,
  );
}

messaged-SchedInv :
    (s : Kernel) (e value perm sender : ℕ)
    → is_runnable s e ≡ false
    → SchedInv s
    → SchedInv (messaged s e value perm sender)
unfolding messaged
messaged-SchedInv s e value perm sender r v = record {
  once = ground (arith, distinct-snoc e s.env_sched_list v.once, v.listed e);
  listed = λ k. ground (arith, v.listed k, v.listed e, mem-append k s.env_sched_list (e ∷ []));
}

send_to-SchedInv :
    (s t : Kernel) (e value perm : ℕ) (r : Result ℕ)
    → ((k : ℕ) → (s.envs k).env_ipc_recving ≢ 0 → is_runnable s k ≡ false)
    → SchedInv s
    → send_to e value 0 perm s ≡ ok r t
    → SchedInv t
unfolding send_to deliver messaged
send_to-SchedInv s t e value perm r asleep v h =
    elim (Bool-cases ((s.envs e).env_ipc_recving == 0)) [
      | inl refused ↦ subst SchedInv (ground (arith, h)) v
      | inr ready ↦ elim (Option-cases s.curenv) [
        | inl idle ↦ ground (arith, h)
        | inr (c, cur) ↦
            let same : messaged s e value perm (s.envs c).env_id ≡ t = ground (arith, h) in
            subst SchedInv same
              (messaged-SchedInv s e value perm (s.envs c).env_id (asleep e (ground arith)) v)
      ]
    ]

-- Where no environment that is receiving is runnable, a call of `sys_ipc_try_send` without a page
-- that returns, whatever its result, leaves `env_sched_list` the list of exactly the runnable
-- environments, each once.
pub sys_ipc_try_send-SchedInv :
    (s t : Kernel) (envid value perm : ℕ) (r : Result ℕ)
    → ((k : ℕ) → (s.envs k).env_ipc_recving ≢ 0 → is_runnable s k ≡ false)
    → SchedInv s
    → sys_ipc_try_send envid value 0 perm s ≡ ok r t
    → SchedInv t
unfolding sys_ipc_try_send bad_page_va
sys_ipc_try_send-SchedInv s t envid value perm r asleep v h =
    elim (with_env-cases envid false (λ e. send_to e value 0 perm) h) [
      | inl (e, k) ↦ send_to-SchedInv s t e value perm r asleep v k
      | inr same ↦ subst SchedInv same v
    ]

-- The environment as `sys_ipc_recv` leaves it before the removal, and the end of its first steps.
asking : Kernel → ℕ → ℕ → Kernel
asking s c dstva = record s {
  envs = update s.envs c (record (s.envs c) {
    env_ipc_recving = 1;
    env_ipc_dstva = dstva;
    env_status = env_not_runnable;
  });
}

zero_result : M (Unit {0})
zero_result s =
    ok tt (record s { saved_tf = record (s.saved_tf) { regs = update s.saved_tf.regs 2 0 } })

start_recv_lem :
    (s : Kernel) (c dstva : ℕ)
    → start_recv c dstva s ≡ and_then (unlink c (asking s c dstva)) (λ _. zero_result)
unfolding start_recv asking zero_result
start_recv_lem s c dstva = refl

start_recv-ok :
    (s w : Kernel) (c dstva : ℕ)
    → start_recv c dstva s ≡ ok tt w
    → (l : ℕ → Option (Option ℕ × Option ℕ)) × (waiting s c dstva l ≡ w)
unfolding waiting asking zero_result
start_recv-ok s w c dstva h =
    let (_, v, gone, rest) =
      and_then-ok (unlink c (asking s c dstva)) (λ _. zero_result) {b = tt} {t = w}
        (sym (start_recv_lem s c dstva) ∙ h) in
    let (l, same) = unlink-ok c (asking s c dstva) v gone in
    let ended : zero_result (unlinked (asking s c dstva) c l) ≡ ok tt w =
      ap zero_result same ∙ rest in
    (l, ground (arith, ended))

-- A call of `sys_ipc_recv` that returns, or goes on to user mode in another environment, keeps the
-- scheduling list exact: the caller is no longer on it. A caller that is off the list before, and
-- whose old links lead elsewhere by now, makes the call end in the outcome `stale`, of which nothing
-- is said.
pub sys_ipc_recv-SchedInv :
    (s t : Kernel) (dstva : ℕ) (r : Reply) → SchedInv s → sys_ipc_recv dstva s ≡ ok r t → SchedInv t
unfolding sys_ipc_recv
sys_ipc_recv-SchedInv s t dstva r v h = elim (Bool-cases (bad_page_va dstva)) [
  | inl bad ↦ subst SchedInv (ground (arith, h)) v
  | inr good ↦ elim (Option-cases s.curenv) [
    | inl idle ↦ ground (arith, h)
    | inr (c, cur) ↦
        let (_, w, started, rest) =
          and_then-ok (start_recv c dstva s) (λ _. schedule true >> pure none) {b = r} {t = t}
            (ground (arith, h)) in
        let (l, same) = start_recv-ok s w c dstva started in
        let (_, u, e, k) = and_then-ok (schedule true w) (λ _. pure none) {b = r} {t = t} rest in
        let (after, _) =
          schedule-SchedInv true w u (subst SchedInv same (waiting-SchedInv s c dstva l v)) e in
        subst SchedInv (ground (arith, k)) after
  ]
]

-- A receiver that waits and is made runnable by `sys_set_env_status` is still receiving. A message
-- to it then puts it on the scheduling list a second time.
pub sys_ipc_try_send_twice :
    (s : Kernel) (c envid value perm : ℕ)
    → SchedInv s
    → s.curenv ≡ some c
    → envid ≢ 0
    → MayName s c envid (envx envid)
    → (s.envs (envx envid)).env_status ≡ env_not_runnable
    → (s.envs (envx envid)).env_ipc_recving ≢ 0
    → (t u : Kernel) × (sys_set_env_status envid env_runnable s ≡ ok (success 0) t)
      × (sys_ipc_try_send envid value 0 perm t ≡ ok (success 0) u)
      × (distinct u.env_sched_list ≡ false)
unfolding sys_set_env_status set_status valid_status move_env moved moved_list envid2env permitted
sys_ipc_try_send_twice s c envid value perm v cur z m st re =
    let e = envx envid in
    let t = moved s e env_runnable s.sched_link in
    let (u, sent, w) =
      sys_ipc_try_send-Received t c e envid value perm cur (ground (arith, m.live, m.named))
        (ground (arith, re)) in
    (
      t,
      u,
      ground (arith, cur, m.live, m.named, m.own),
      sent,
      rw w.last (ground (arith, mem-append e s.env_sched_list (e ∷ []))),
    )

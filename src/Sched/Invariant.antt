-- ===== src/Sched/Invariant.antt =====
-- `schedule` of kern/sched.c keeps the invariant that kern/env.c states of `env_sched_list`.
use buaa_mos_with_swap.Prelude.{
  ℕ, ◌≡◌, refl, sym, ◌∙◌, ap, ◌++◌, ◌&&◌, if◌then◌else◌, is_nil, inl, inr, Bool, true, List, [],
  ◌∷◌, Option, none, some, arith, ◌==◌, Bool-cases, mem, remove, distinct, mem-append,
  mem-remove_ne, mem-remove_self, distinct-remove, distinct-snoc,
}
use buaa_mos_with_swap.Kernel.{Kernel, M, ok, env_runnable, pure, ◌>>◌, get, modify}
use buaa_mos_with_swap.Kernel.Inversion.{and_then-ok}
use buaa_mos_with_swap.Kernel.SchedList.{unlink, unlinked, unlink-ok}
use buaa_mos_with_swap.Env.Life.{env_run}
use buaa_mos_with_swap.Env.Life.Running.{
  resumed, saved, env_run-runnable, env_run-panic, status-resumed, list-resumed,
}
use buaa_mos_with_swap.Sched.{
  requeue, run_first, is_none, pick_next, must_switch, keep_running, schedule,
}

abbrev pub is_runnable : Kernel → ℕ → Bool
is_runnable s e = (s.envs e).env_status == env_runnable

-- An environment is on the scheduling list exactly if it is runnable, and never twice.
pub record SchedInv (s : Kernel) : Type 0 where
  pub once : distinct s.env_sched_list ≡ true
  pub listed : (e : ℕ) → mem e s.env_sched_list ≡ is_runnable s e

-- What a call that switches to `e` has done.
pub record Switched (s : Kernel) (q : List ℕ) (t : Kernel) : Type 0 where
  pub list : t.env_sched_list ≡ q
  pub statuses : (k : ℕ) → is_runnable t k ≡ is_runnable s k
  pub running : (e : ℕ) × (t.curenv ≡ some e) × (is_runnable t e ≡ true)

resumed-Switched :
    (s t : Kernel) (e : ℕ)
    → is_runnable s e ≡ true
    → t ≡ resumed (saved s s.curenv) e
    → Switched s s.env_sched_list t
resumed-Switched s t e r same = record {
  list = rw same (list-resumed s.curenv s e);
  statuses = λ k. rw (same, status-resumed s.curenv s e k) refl;
  running = (e, rw same refl, rw (same, status-resumed s.curenv s e e) r);
}

env_run-Switched : (s t : Kernel) (e : ℕ) → env_run e s ≡ ok tt t → Switched s s.env_sched_list t
env_run-Switched s t e h = elim (Bool-cases (is_runnable s e)) [
  | inl r ↦ resumed-Switched s t e r (ground (arith, env_run-runnable s e))
  | inr r ↦ absurd (cc (sym h ∙ env_run-panic s e (ground arith)))
]

run_first-Switched :
    (q : List ℕ) (s t : Kernel) → run_first q s ≡ ok tt t → Switched s s.env_sched_list t
unfolding run_first
run_first-Switched [] s t h = cc
run_first-Switched (e ∷ q) s t h =
    let v = env_run-Switched _ t e h in
    record { list = v.list; statuses = v.statuses; running = v.running }

-- The list after `requeue`.
unfoldable pub requeued : Option ℕ → Kernel → List ℕ
requeued none s = s.env_sched_list
requeued (some e) s =
    if is_runnable s e then remove e s.env_sched_list ++ e ∷ [] else remove e s.env_sched_list

-- The state with a list and links of its own.
abbrev pub relisted : Kernel → List ℕ → (ℕ → Option (Option ℕ × Option ℕ)) → Kernel
relisted s q l = record s { env_sched_list = q; sched_link = l }

-- The end of `requeue`.
back : ℕ → M (Unit {0})
back e s =
    (if is_runnable s e
        then modify (λ s. record s { env_sched_list = s.env_sched_list ++ e ∷ [] })
        else pure tt)
      s

after_unlink :
    (e : ℕ) (s u : Kernel) (l : ℕ → Option (Option ℕ × Option ℕ))
    → back e (unlinked s e l) ≡ ok tt u
    → relisted s (requeued (some e) s) l ≡ u
unfolding requeued back
after_unlink e s u l h = elim (Bool-cases (is_runnable s e)) [
  | inl yes_ ↦ rw yes_ (ground (arith, rw yes_ at h))
  | inr no_ ↦ rw no_ (ground (arith, rw no_ at h))
]

requeue-ok :
    (o : Option ℕ) (s u : Kernel)
    → requeue o s ≡ ok tt u
    → (l : ℕ → Option (Option ℕ × Option ℕ)) × (relisted s (requeued o s) l ≡ u)
unfolding requeue requeued back
requeue-ok none s u h = (s.sched_link, ground (arith, h))
requeue-ok (some e) s u h =
    let (_, v, taken, rest) = and_then-ok (unlink e s) (λ _. back e) {b = tt} {t = u} h in
    let (l, same) = unlink-ok e s v taken in (l, after_unlink e s u l (ap (back e) same ∙ rest))

pick_next-Switched : (s t : Kernel) → pick_next s ≡ ok tt t → Switched s (requeued s.curenv s) t
unfolding pick_next
pick_next-Switched s t h = elim (Bool-cases (is_none s.curenv && is_nil s.env_sched_list)) [
  | inl empty ↦ absurd (cc (rw empty at h))
  | inr some_left ↦
      let (q, u, e, ran) =
        and_then-ok ((requeue s.curenv >> get (λ s. s.env_sched_list)) s) run_first {b = tt} {t = t}
          (rw some_left at h) in
      let (_, v, moved, got) =
        and_then-ok (requeue s.curenv s) (λ _. get (λ s. s.env_sched_list)) {b = q} {t = u} e in
      let (l, same) = requeue-ok s.curenv s v moved in
      let state : relisted s (requeued s.curenv s) l ≡ u = same ∙ ground (arith, got) in
      let ran_there : run_first q (relisted s (requeued s.curenv s) l) ≡ ok tt t =
        ap (run_first q) state ∙ ran in
      let w = run_first-Switched q (relisted s (requeued s.curenv s) l) t ran_there in
      record { list = w.list; statuses = w.statuses; running = w.running }
]

keep_running-Switched :
    (o : Option ℕ) (s t : Kernel) → keep_running o s ≡ ok tt t → Switched s s.env_sched_list t
unfolding keep_running
keep_running-Switched none s t h = cc
keep_running-Switched (some e) s t h =
    let v = env_run-Switched _ t e h in
    record { list = v.list; statuses = v.statuses; running = v.running }

requeued-distinct : (o : Option ℕ) (s : Kernel) → SchedInv s → distinct (requeued o s) ≡ true
unfolding requeued
requeued-distinct none s v = v.once
requeued-distinct (some c) s v = ground (
  arith,
  v.once,
  distinct-remove c s.env_sched_list,
  mem-remove_self c s.env_sched_list,
  distinct-snoc c (remove c s.env_sched_list),
)

requeued-mem :
    (o : Option ℕ) (s : Kernel) → SchedInv s → (e : ℕ) → mem e (requeued o s) ≡ is_runnable s e
unfolding requeued
requeued-mem none s v e = v.listed e
requeued-mem (some c) s v e = ground (
  arith,
  v.once,
  v.listed e,
  v.listed c,
  mem-append e (remove c s.env_sched_list) (c ∷ []),
  mem-remove_self c s.env_sched_list,
  mem-remove_ne e c s.env_sched_list,
)

-- A scheduling decision that returns to user mode keeps `env_sched_list` the list of exactly the
-- runnable environments, each once, and the environment that then runs is runnable. It does not
-- return, in the model, where it removes a current environment that is off the list through old
-- links that lead elsewhere by now: that ends in the outcome `stale`.
pub schedule-SchedInv :
    (yield : Bool) (s t : Kernel)
    → SchedInv s
    → schedule yield s ≡ ok tt t
    → SchedInv t × ((e : ℕ) × (t.curenv ≡ some e) × (is_runnable t e ≡ true))
unfolding schedule
schedule-SchedInv yield s t v h = elim (Bool-cases (must_switch yield s)) [
  | inl switch ↦
      let w = pick_next-Switched s t (rw switch at h) in
      (
        record {
          once = rw w.list (requeued-distinct s.curenv s v);
          listed = λ e. rw w.list (requeued-mem s.curenv s v e ∙ sym (w.statuses e));
        },
        w.running,
      )
  | inr stay ↦
      let w = keep_running-Switched s.curenv s t (rw stay at h) in
      (
        record {
          once = rw w.list v.once;
          listed = λ e. rw w.list (v.listed e ∙ sym (w.statuses e));
        },
        w.running,
      )
]

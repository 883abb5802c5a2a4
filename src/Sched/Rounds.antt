-- ===== src/Sched/Rounds.antt =====
-- Which environment `schedule` of kern/sched.c runs next, and for how long.
use buaa_mos_with_swap.Prelude.{
  ℕ, zero, suc, ◌+◌, ◌-◌, ◌%◌, ◌<◌, ◌≡◌, refl, Bool, true, false, ◌||◌, List, [], ◌∷◌, ◌++◌, Option,
  none, some, update, mem, arith, ◌==◌,
}
use buaa_mos_with_swap.Mmu.{word_mod}
use buaa_mos_with_swap.Kernel.{Kernel, ok, null_deref, M, pure, ◌>>◌}
use buaa_mos_with_swap.Env.Life.Running.{
  resumed, saved, env_run-runnable, status-resumed, list-resumed, slices-resumed,
}
use buaa_mos_with_swap.Sched.{
  requeue, run_first, is_none, pick_next, must_switch, keep_running, schedule,
}
use buaa_mos_with_swap.Kernel.SchedList.{unlink, unlink-listed, neighbours}
use buaa_mos_with_swap.Sched.Invariant.{is_runnable, relisted}

-- The state of a switch to `e` with the rest `q` of the list, for the slices of its priority.
record RunsNext (e : ℕ) (q : List ℕ) (s t : Kernel) : Type 0 where
  current : t.curenv ≡ some e
  queue : t.env_sched_list ≡ e ∷ q
  slices : t.time_slices ≡ ((s.envs e).env_pri + word_mod - 1) % word_mod

abbrev listed : Kernel → List ℕ → ℕ → Kernel
listed s q n = record s { env_sched_list = q; time_slices = n }

run_first-RunsNext :
    (e : ℕ) (q : List ℕ) (s : Kernel) (l : ℕ → Option (Option ℕ × Option ℕ))
    → is_runnable s e ≡ true
    → (t : Kernel) × (run_first (e ∷ q) (relisted s (e ∷ q) l) ≡ ok tt t) × RunsNext e q s t
unfolding run_first
run_first-RunsNext e q s l r =
    let v = record (listed s (e ∷ q) (((s.envs e).env_pri + word_mod - 1) % word_mod)) {
      sched_link = l;
    } in
    (
      resumed (saved v s.curenv) e,
      env_run-runnable v e (ground arith),
      record {
        current = refl;
        queue = list-resumed s.curenv v e;
        slices = slices-resumed s.curenv v e;
      },
    )

-- Round robin: when the current environment gives up the processor, or has used up its slices, and
-- it is runnable at the head of the list, then the next one of the list runs, for as many slices
-- as its priority says, and the old one goes to the tail.
pub schedule_rotates :
    (yield : Bool) (s : Kernel) (c e : ℕ) (rest : List ℕ)
    → s.curenv ≡ some c
    → (yield || (s.time_slices == 0)) ≡ true
    → is_runnable s c ≡ true
    → is_runnable s e ≡ true
    → s.env_sched_list ≡ c ∷ e ∷ rest
    → (t : Kernel) × (schedule yield s ≡ ok tt t)
      × (t.curenv ≡ some e)
      × (t.env_sched_list ≡ e ∷ (rest ++ c ∷ []))
      × (t.time_slices ≡ ((s.envs e).env_pri + word_mod - 1) % word_mod)
unfolding schedule must_switch pick_next requeue is_none
schedule_rotates yield s c e rest cur due rc re l =
    let links = update s.sched_link c (some (neighbours c none s.env_sched_list)) in
    let (t, ran, n) = run_first-RunsNext e (rest ++ c ∷ []) s links re in
    let on_list : mem c s.env_sched_list ≡ true = ground (arith, l) in
    (t, ground (arith, ran, l, unlink-listed c s on_list), n.current, n.queue, n.slices)

-- Where the current environment cannot run, no other is on the list and the removal from the list
-- finds links that change nothing, `schedule` reads through
-- the `NULL` that `TAILQ_FIRST` gives: its check for an empty list covers only a missing `curenv`.
pub schedule-null_deref :
    (yield : Bool) (s : Kernel) (c : ℕ)
    → s.curenv ≡ some c
    → is_runnable s c ≡ false
    → s.env_sched_list ≡ []
    → unlink c s ≡ ok tt s
    → schedule yield s ≡ null_deref
unfolding schedule must_switch pick_next requeue is_none run_first
schedule-null_deref yield s c cur r l kept = ground arith

-- `n` timer interrupts.
unfoldable pub ticks : ℕ → M (Unit {0})
ticks zero = pure tt
ticks (suc n) = schedule false >> ticks n

keep-ok :
    (n : ℕ) (s : Kernel) (c : ℕ)
    → s.curenv ≡ some c
    → is_runnable s c ≡ true
    → s.time_slices ≡ suc n
    → suc n < word_mod
    → schedule false s ≡ ok tt (resumed (saved (listed s s.env_sched_list n) (some c)) c)
unfolding schedule must_switch keep_running
keep-ok n s c cur r k small = ground (arith, env_run-runnable (listed s s.env_sched_list n) c)

-- A runnable environment with `n` slices left keeps the processor for exactly `n` more interrupts:
-- after those it has no slice left, and the next interrupt makes `schedule` pick again.
pub ticks-slices :
    (n : ℕ) (s : Kernel) (c : ℕ)
    → s.curenv ≡ some c
    → is_runnable s c ≡ true
    → s.time_slices ≡ n
    → n < word_mod
    → (t : Kernel) × (ticks n s ≡ ok tt t)
      × (t.curenv ≡ some c)
      × (t.time_slices ≡ 0)
      × (must_switch false t ≡ true)
unfolding ticks must_switch
ticks-slices zero s c cur r k small = (s, refl, cur, k, ground arith)
ticks-slices (suc n) s c cur r k small =
    let u = resumed (saved (listed s s.env_sched_list n) (some c)) c in
    let (t, e, a, b, due) =
      ticks-slices n u c refl (rw (status-resumed (some c) (listed s s.env_sched_list n) c c) r)
        (slices-resumed (some c) (listed s s.env_sched_list n) c) (omega arith) in
    (t, ground (arith, keep-ok n s c cur r k small, e), a, b, due)

-- ===== src/Env/Life/Running.antt =====
-- `env_run` of kern/env.c.
use buaa_mos_with_swap.Prelude.{
  ℕ, ◌+◌, ◌%◌, ◌≡◌, refl, ◌≢◌, Option, none, some, arith, ==_ne, ==_self, update,
}
use buaa_mos_with_swap.Mmu.{word_mod}
use buaa_mos_with_swap.Kernel.{Kernel, ok, panic, env_runnable}
use buaa_mos_with_swap.Env.Life.{env_run, save_context}

-- The state with the context of the environment that runs saved.
abbrev pub saved : Kernel → Option ℕ → Kernel
saved s none = s
saved s (some c) = record s { envs = update s.envs c (record (s.envs c) { env_tf = s.saved_tf }) }

-- The state with `e` running.
abbrev pub resumed : Kernel → ℕ → Kernel
resumed s e = record s {
  envs = update s.envs e (record (s.envs e) { env_runs = ((s.envs e).env_runs + 1) % word_mod });
  curenv = some e;
  cur_pgdir = (s.envs e).env_pgdir;
}

save_context-saved : (o : Option ℕ) (s : Kernel) → save_context o s ≡ ok tt (saved s o)
unfolding save_context
save_context-saved none s = refl
save_context-saved (some c) s = refl

-- A runnable environment starts to run: the old one's registers are saved first.
pub env_run-runnable :
    (s : Kernel) (e : ℕ)
    → (s.envs e).env_status ≡ env_runnable
    → env_run e s ≡ ok tt (resumed (saved s s.curenv) e)
unfolding env_run
env_run-runnable s e h = rw (h, save_context-saved s.curenv s, ==_self e) refl

pub env_run-panic :
    (s : Kernel) (e : ℕ) → (s.envs e).env_status ≢ env_runnable → env_run e s ≡ panic
unfolding env_run
env_run-panic s e h = rw (==_ne _ _ h) refl

-- Running an environment changes no status, and not the scheduling list.
pub status-resumed :
    (o : Option ℕ) (s : Kernel) (e k : ℕ)
    → ((resumed (saved s o) e).envs k).env_status ≡ (s.envs k).env_status
status-resumed none s e k = ground arith
status-resumed (some c) s e k = ground arith

pub list-resumed :
    (o : Option ℕ) (s : Kernel) (e : ℕ) → (resumed (saved s o) e).env_sched_list ≡ s.env_sched_list
list-resumed none s e = refl
list-resumed (some c) s e = refl

pub slices-resumed :
    (o : Option ℕ) (s : Kernel) (e : ℕ) → (resumed (saved s o) e).time_slices ≡ s.time_slices
slices-resumed none s e = refl
slices-resumed (some c) s e = refl

-- ===== src/Tests/Running.antt =====
-- The theorems on kern/env.c and kern/sched.c at the small machine.
use buaa_mos_with_swap.Prelude.{ℕ, ◌≡◌, ◌⊎◌, refl, true, false, [], some, arith}
use buaa_mos_with_swap.Kernel.{Kernel, success, failure, ok, e_bad_env}
use buaa_mos_with_swap.Env.Ids.{envx, mkenvid, envid2env}
use buaa_mos_with_swap.Env.Ids.Lookup.{MayName, envid2env_checked}
use buaa_mos_with_swap.Env.Life.{env_run, save_context}
use buaa_mos_with_swap.Sched.{schedule, must_switch, is_none, pick_next, run_first, requeue}
use buaa_mos_with_swap.Kernel.SchedList.{
  unlink, unlink_again, adjacent, follows, neighbours, first, same_option,
}
use buaa_mos_with_swap.Sched.Invariant.{SchedInv, is_runnable, schedule-SchedInv}
use buaa_mos_with_swap.Sched.Rounds.{ticks, ticks-slices}
use buaa_mos_with_swap.Tests.Machine.{machine, state_of}

pub machine-SchedInv : SchedInv machine
machine-SchedInv = record { once = refl; listed = λ e. ground arith }

schedule-SchedInv_example :
    SchedInv (state_of (schedule true machine) machine)
    × ((e : ℕ) × ((state_of (schedule true machine) machine).curenv ≡ some e)
        × (is_runnable (state_of (schedule true machine) machine) e ≡ true))
unfolding schedule must_switch pick_next requeue run_first env_run save_context is_none unlink
    unlink_again adjacent follows neighbours first same_option
schedule-SchedInv_example =
    schedule-SchedInv true machine (state_of (schedule true machine) machine) machine-SchedInv refl

abbrev stuck : Kernel
stuck = record machine { curenv = some 2; env_sched_list = [] }

abbrev two_left : Kernel
two_left = record machine { time_slices = 2 }

ticks-slices_example :
    (t : Kernel) × (ticks 2 two_left ≡ ok tt t)
    × (t.curenv ≡ some 0)
    × (t.time_slices ≡ 0)
    × (must_switch false t ≡ true)
ticks-slices_example = ticks-slices 2 two_left 0 refl refl refl (omega arith)

envid2env_checked_example :
    ((envid2env 0x1001 true machine ≡ ok (success (some (envx 0x1001))) machine)
      × MayName machine 0 0x1001 (envx 0x1001))
    ⊎ ((envid2env 0x1001 true machine ≡ ok (failure e_bad_env) machine)
        × ¬ MayName machine 0 0x1001 (envx 0x1001))
envid2env_checked_example = envid2env_checked machine 0 0x1001 refl (omega arith)

abbrev named : Kernel
named = state_of (mkenvid 3 machine) machine

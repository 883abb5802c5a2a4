-- ===== src/Tests/Calls.antt =====
-- The theorems on kern/syscall_all.c at the small machine.
use buaa_mos_with_swap.Prelude.{
  ℕ, ◌+◌, ◌≤◌, ◌≡◌, ◌≢◌, ◌⊎◌, refl, false, List, [], ◌∷◌, none, arith, ◌==◌, if◌then◌else◌,
}
use buaa_mos_with_swap.Mmu.{utemp, utop}
use buaa_mos_with_swap.Kernel.{Kernel, success}
use buaa_mos_with_swap.Kernel.SchedList.{
  unlink, unlink_again, adjacent, follows, neighbours, first, same_option,
}
use buaa_mos_with_swap.Env.Life.{env_run, save_context}
use buaa_mos_with_swap.Sched.{schedule, must_switch, pick_next, run_first, requeue, is_none}
use buaa_mos_with_swap.Sched.Invariant.{SchedInv, is_runnable}
use buaa_mos_with_swap.Syscall.Range.{
  is_illegal_va_range, bad_length, sys_write_dev, sys_read_dev, dev_check, in_window, Transfer,
}
use buaa_mos_with_swap.Syscall.Range.Windows.{OnDevice, sys_write_dev-OnDevice}
use buaa_mos_with_swap.Syscall.Process.{sys_set_env_status}
use buaa_mos_with_swap.Syscall.Ipc.{sys_ipc_recv, bad_page_va, start_recv}
use buaa_mos_with_swap.Syscall.Ipc.Messages.{sys_ipc_recv-SchedInv}
use buaa_mos_with_swap.Syscall.Dispatch.{World}
use buaa_mos_with_swap.Tests.Machine.{machine, frame, state_of}
use buaa_mos_with_swap.Tests.Running.{machine-SchedInv}

abbrev one_byte : ℕ
one_byte = 1

abbrev to_console : Transfer
to_console = record { target = 0xb80003f8; origin = 0x400000; bytes = 1 }

sys_write_dev-OnDevice_example :
    OnDevice 0xb80003f8 1
    × (to_console.target ≡ 0xa0000000 + 0x180003f8)
    × (to_console.bytes ≡ 1)
    × ((one_byte ≡ 1) ⊎ ((one_byte ≡ 2) ⊎ (one_byte ≡ 4)))
    × (to_console.origin ≡ 0x400000)
    × (utemp ≤ 0x400000)
    × (0x400000 + 1 ≤ utop)
    × (sys_read_dev 0x400000 0x180003f8 1
        ≡ success (record { target = 0x400000; origin = 0xb80003f8; bytes = 1 }))
unfolding sys_write_dev dev_check in_window bad_length is_illegal_va_range
sys_write_dev-OnDevice_example =
    sys_write_dev-OnDevice 0x400000 0x180003f8 1 to_console (omega arith) (omega arith) refl

abbrev letters : ℕ → ℕ
letters a = if a == 0x400000 then 72 else 105

abbrev greeting : List ℕ
greeting = 72 ∷ 105 ∷ []

abbrev paused : Kernel
paused = state_of (sys_set_env_status 0 2 machine) machine

receivers_wait : (k : ℕ) → (machine.envs k).env_ipc_recving ≢ 0 → is_runnable machine k ≡ false
receivers_wait k h = ground arith

sys_ipc_recv-SchedInv_example : SchedInv (state_of (sys_ipc_recv 0 machine) machine)
unfolding sys_ipc_recv bad_page_va start_recv schedule must_switch pick_next requeue run_first
    is_none unlink unlink_again adjacent follows neighbours first same_option env_run save_context
sys_ipc_recv-SchedInv_example =
    sys_ipc_recv-SchedInv machine (state_of (sys_ipc_recv 0 machine) machine) 0 none
      machine-SchedInv refl

abbrev world : World
world = record {
  byte_at = λ a. 0;
  word_at = λ a. 0;
  trapframe_at = λ a. frame;
  input = [];
  void_result = 0;
}

-- The machine at system call `n`.
abbrev calling : ℕ → Kernel
calling n = record machine { saved_tf = record frame { regs = λ r. if r == 4 then n else 0 } }

-- ===== src/Syscall/Dispatch.antt =====
-- `syscall_table` and `do_syscall` of kern/syscall_all.c, over include/syscall.h.
pub mod Numbers
use buaa_mos_with_swap.Prelude.{
  ℕ, zero, suc, ◌+◌, ◌-◌, ◌%◌, Bool, true, false, List, [], ◌∷◌, Option, none, some, leb, ◌==◌,
  if◌then◌else◌, update, get_elem?,
}
use buaa_mos_with_swap.Mmu.{word_mod}
use buaa_mos_with_swap.Kernel.{
  Kernel, Trapframe, M, ok, panic, hang, pure, ◌>>=◌, ◌>>◌, get, modify, Error, e_bad_env, e_inval,
  e_no_free_env, e_ipc_not_recv, e_no_sys, Result, success, failure,
}
use buaa_mos_with_swap.Syscall.Range.{
  Transfer, sys_print_cons, sys_cgetc, sys_write_dev, sys_read_dev,
}
use buaa_mos_with_swap.Syscall.Memory.{sys_mem_alloc, sys_mem_map, sys_mem_unmap}
use buaa_mos_with_swap.Syscall.Process.{
  Reply, returning, sys_getenvid, sys_yield, sys_env_destroy, sys_set_tlb_mod_entry, sys_exofork,
  sys_set_env_status, sys_set_trapframe,
}
use buaa_mos_with_swap.Syscall.Ipc.{sys_ipc_try_send, sys_ipc_recv}

-- The system calls, in the order of their numbers.
pub data Sysno : Type 0 where
  putchar print_cons getenvid yield_cpu env_destroy set_tlb_mod_entry mem_alloc mem_map : Sysno
  mem_unmap exofork set_env_status set_trapframe panic_call ipc_try_send ipc_recv cgetc : Sysno
  write_dev read_dev : Sysno

abbrev pub max_sysno : ℕ
max_sysno = 18

abbrev pub handlers : List Sysno
handlers =
    putchar ∷ print_cons ∷ getenvid ∷ yield_cpu ∷ env_destroy ∷ set_tlb_mod_entry ∷ mem_alloc
    ∷ mem_map ∷ mem_unmap ∷ exofork ∷ set_env_status ∷ set_trapframe ∷ panic_call ∷ ipc_try_send
    ∷ ipc_recv ∷ cgetc ∷ write_dev ∷ read_dev ∷ []

unfoldable pub syscall_table : ℕ → Option Sysno
syscall_table n = get_elem? handlers n

-- What a call reads from outside the kernel: user memory by byte and by word, the trapframe at a
-- user address, and what `scancharc` gives. `void_result` is what `$v0` holds after the `void`
-- handler `sys_putchar`, which the table calls as a function with a result.
pub record World : Type 0 where
  pub byte_at : ℕ → ℕ
  pub word_at : ℕ → ℕ
  pub trapframe_at : ℕ → Trapframe
  pub input : List ℕ
  pub void_result : ℕ

-- `-code` as the word that goes to `$v0`.
abbrev pub error_code : Error → ℕ
error_code e_bad_env = 2
error_code e_inval = 3
error_code e_no_sys = 5
error_code e_no_free_env = 6
error_code e_ipc_not_recv = 7

abbrev pub return_word : Result ℕ → ℕ
return_word (success v) = v
return_word (failure e) = word_mod - error_code e

-- A handler whose effect is on a device only.
abbrev pub status_of : {A : Type 0} → Result A → M Reply
status_of (success _) = pure (some (success 0))
status_of (failure e) = pure (some (failure e))

unfoldable pub call : World → Sysno → ℕ → ℕ → ℕ → ℕ → ℕ → M Reply
call w putchar a b c d e = pure (some (success w.void_result))
call w print_cons a b c d e = status_of (sys_print_cons w.byte_at a b)
call w getenvid a b c d e = returning sys_getenvid
call w yield_cpu a b c d e = sys_yield
call w env_destroy a b c d e = sys_env_destroy a
call w set_tlb_mod_entry a b c d e = returning (sys_set_tlb_mod_entry a b)
call w mem_alloc a b c d e = returning (sys_mem_alloc a b c)
call w mem_map a b c d e = returning (sys_mem_map a b c d e)
call w mem_unmap a b c d e = returning (sys_mem_unmap a b)
call w exofork a b c d e = returning sys_exofork
call w set_env_status a b c d e = returning (sys_set_env_status a b)
call w set_trapframe a b c d e = returning (sys_set_trapframe a b (w.trapframe_at b))
call w panic_call a b c d e = λ s. panic
call w ipc_try_send a b c d e = returning (sys_ipc_try_send a b c d)
call w ipc_recv a b c d e = sys_ipc_recv a
call w cgetc a b c d e = elim (sys_cgetc w.input) [
  | none ↦ λ s. hang
  | some ch ↦ pure (some (success ch))
]
call w write_dev a b c d e = status_of (sys_write_dev a b c)
call w read_dev a b c d e = status_of (sys_read_dev a b c)

-- A write to a register of the saved trapframe.
abbrev pub set_reg : ℕ → ℕ → M (Unit {0})
set_reg r v =
    modify λ s. record s { saved_tf = record (s.saved_tf) { regs = update s.saved_tf.regs r v } }

unfoldable pub finish : Reply → M (Unit {0})
finish none = pure tt
finish (some r) = set_reg 2 (return_word r)

-- The call with its arguments, once its number is known to be in the table.
unfoldable pub enter : World → Sysno → M (Unit {0})
enter w n = do
  modify (λ s. record s {
    saved_tf = record (s.saved_tf) { cp0_epc = (s.saved_tf.cp0_epc + 4) % word_mod };
  })
  tf ← get (λ s. s.saved_tf)
  r ←
      call w n (tf.regs 5) (tf.regs 6) (tf.regs 7) (w.word_at ((tf.regs 29 + 16) % word_mod))
        (w.word_at ((tf.regs 29 + 20) % word_mod))
  finish r

unfoldable pub do_syscall : World → M (Unit {0})
do_syscall w s = elim (syscall_table (s.saved_tf.regs 4)) [
  | none ↦ set_reg 2 (return_word (failure e_no_sys)) s
  | some n ↦ enter w n s
]

-- ===== src/Syscall/Dispatch/Numbers.antt =====
-- What `do_syscall` of kern/syscall_all.c does with the number of a call and with a bad address.
use buaa_mos_with_swap.Prelude.{
  ℕ, ◌+◌, ◌-◌, ◌%◌, ◌≤◌, ◌≡◌, ◌⊎◌, inl, inr, true, none, arith, update, get_elem?-past,
}
use buaa_mos_with_swap.Mmu.{word_mod}
use buaa_mos_with_swap.Kernel.{Kernel, ok}
use buaa_mos_with_swap.Syscall.Range.{is_illegal_va}
use buaa_mos_with_swap.Syscall.Memory.{sys_mem_alloc, sys_mem_map, sys_mem_unmap}
use buaa_mos_with_swap.Syscall.Dispatch.{
  World, max_sysno, syscall_table, handlers, do_syscall, enter, call, finish,
}

syscall_table-past : (n : ℕ) → max_sysno ≤ n → syscall_table n ≡ none
unfolding syscall_table
syscall_table-past n h = get_elem?-past handlers n h

-- A number outside the table gives `-E_NO_SYS` in `$v0`. Nothing else changes, the program counter
-- in the trapframe neither.
pub do_syscall_unknown :
    (w : World) (s : Kernel)
    → max_sysno ≤ s.saved_tf.regs 4
    → do_syscall w s
      ≡ ok tt (record s {
        saved_tf = record (s.saved_tf) { regs = update s.saved_tf.regs 2 (word_mod - 5) };
      })
unfolding do_syscall
do_syscall_unknown w s h = ground (arith, syscall_table-past (s.saved_tf.regs 4) h)

-- A memory call with an address that is not between `UTEMP` and `UTOP` gives `-E_INVAL` in `$v0`
-- and moves on to the next instruction. Nothing else changes.
pub do_syscall_illegal_va :
    (w : World) (s : Kernel)
    → (s.saved_tf.regs 4 ≡ 6) ⊎ ((s.saved_tf.regs 4 ≡ 7) ⊎ (s.saved_tf.regs 4 ≡ 8))
    → is_illegal_va (s.saved_tf.regs 6) ≡ true
    → do_syscall w s
      ≡ ok tt (record s {
        saved_tf = record (s.saved_tf) {
          cp0_epc = (s.saved_tf.cp0_epc + 4) % word_mod;
          regs = update s.saved_tf.regs 2 (word_mod - 3);
        };
      })
unfolding do_syscall enter call finish syscall_table sys_mem_alloc sys_mem_map sys_mem_unmap
do_syscall_illegal_va w s (inl n) h = ground (arith, n, h)
do_syscall_illegal_va w s (inr (inl n)) h = ground (arith, n, h)
do_syscall_illegal_va w s (inr (inr n)) h = ground (arith, n, h)

-- ===== src/Pmap/TlbMod.antt =====
-- `do_tlb_mod` of kern/tlbex.c: a write to a page that is mapped read-only.
use buaa_mos_with_swap.Prelude.{ℕ, ◌+◌, ◌-◌, ◌%◌, ◌||◌, ltb, leb, ◌==◌, if◌then◌else◌, update}
use buaa_mos_with_swap.Mmu.{word_mod, ustacktop, uxstacktop}
use buaa_mos_with_swap.Kernel.{
  Trapframe, sizeof_trapframe, M, panic, pure, ◌>>=◌, ◌>>◌, get, modify, deref,
}
use buaa_mos_with_swap.Pmap.Table.{page_lookup}

-- Where the frame goes: below the user's stack pointer, if that is on the exception stack already.
unfoldable pub frame_address : ℕ → ℕ
frame_address sp =
    ((if ltb sp ustacktop || leb uxstacktop sp then uxstacktop else sp)
      + word_mod
      - sizeof_trapframe)
    % word_mod

abbrev pub set_frame : (Trapframe → Trapframe) → M (Unit {0})
set_frame f = modify λ s. record s { saved_tf = f s.saved_tf }

-- The address on the user's exception stack, and the trapframe that is copied there.
unfoldable pub do_tlb_mod : M (ℕ × Trapframe)
do_tlb_mod = do
  tmp_tf ← get (λ s. s.saved_tf)
  set_frame (λ tf. record tf { regs = update tf.regs 29 (frame_address (tf.regs 29)) })
  pgdir ← get (λ s. s.cur_pgdir)
  page_lookup pgdir tmp_tf.cp0_badvaddr
  cur ← get (λ s. s.curenv)
  c ← deref cur
  entry ← get (λ s. (s.envs c).env_user_tlb_mod_entry)
  if entry == 0 then (λ s. panic) else (do
    set_frame (λ tf. record tf {
      regs = update (update tf.regs 4 (tf.regs 29)) 29 ((tf.regs 29 + word_mod - 4) % word_mod);
      cp0_epc = entry;
    })
    pure (frame_address (tmp_tf.regs 29), tmp_tf))

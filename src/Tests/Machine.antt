-- ===== src/Tests/Machine.antt =====
-- A small machine for the examples: 16 pages, one of them mapped and registered for swapping, and
-- two runnable environments.
use buaa_mos_with_swap.Prelude.{ℕ, [], ◌∷◌, none, some, ◌==◌, if◌then◌else◌}
use buaa_mos_with_swap.Kernel.{
  Kernel, Env, Trapframe, SwapInfo, Outcome, ok, env_free_status, env_runnable, env_not_runnable,
}

-- The state after a run, and the state before it where the run did not return.
abbrev pub state_of : {A : Type 0} → Outcome A → Kernel → Kernel
state_of (ok a t) s = t
state_of _ s = s

abbrev pub value_of : Outcome ℕ → ℕ
value_of (ok a t) = a
value_of _ = 0

-- System call 2 (`SYS_getenvid`), with arguments that nobody reads.
abbrev pub frame : Trapframe
frame = record {
  regs = λ r. if r == 4 then 2 else 0;
  cp0_status = 0;
  hi = 0;
  lo = 0;
  cp0_badvaddr = 0;
  cp0_cause = 0;
  cp0_epc = 0x400000;
}

abbrev pub env_with : ℕ → ℕ → ℕ → Env
env_with id status recving = record {
  env_id = id;
  env_parent_id = 0x800;
  env_asid = 1;
  env_pri = 2;
  env_status = status;
  env_tf = frame;
  env_pgdir = 0x1000;
  env_ipc_recving = recving;
  env_ipc_value = 0;
  env_ipc_dstva = 0;
  env_ipc_perm = 0;
  env_ipc_from = 0;
  env_user_tlb_mod_entry = 0;
  env_runs = 0;
}

-- All are children of environment 0, whose identifier is 0x800. 0 and 1 can run, 2 waits for a
-- message.
abbrev pub three_envs : ℕ → Env
three_envs e =
    if e == 0
    then env_with 0x800 env_runnable 0
    else if e == 1
    then env_with 0x1001 env_runnable 0
    else if e == 2
    then env_with 0x1802 env_not_runnable 1
    else env_with 0 env_free_status 0

-- The directory is page 1 and its table is page 2. Page 5 is mapped at 0x400000, and the entry of
-- 0x401000 is empty. Page 5 holds 77 in its first word.
abbrev pub words : ℕ → ℕ
words a =
    if a == 0x1004 then 0x2080 else if a == 0x2000 then 0x5080 else if a == 0x5000 then 77 else 0

abbrev pub mapping : SwapInfo
mapping = record { pgdir = 0x1000; va = 0x400000; asid = 1 }

abbrev pub machine : Kernel
machine = record {
  memory = words;
  npage = 16;
  pp_ref = λ p. if p == 5 then 1 else 0;
  accessed = λ p. if p == 5 then 1 else 0;
  page_free_list = 3 ∷ 4 ∷ [];
  page_swap_queue = 5 ∷ [];
  last_next = none;
  swap_tbl = λ p. if p == 5 then mapping ∷ [] else [];
  bno_tbl = λ b. [];
  swap_info_free = 8;
  sd_bitmap = λ i. if i == 0 then 3 else 0;
  sd_blocks = λ b off. 0;
  tlb_flushes = [];
  envs = three_envs;
  curenv = some 0;
  env_free_list = 3 ∷ 4 ∷ [];
  env_sched_list = 0 ∷ 1 ∷ [];
  sched_link = λ e. none;
  base_pgdir = 0;
  cur_pgdir = 0x1000;
  asid_bitmap = λ i. if i == 0 then 1 else 0;
  env_count = 3;
  time_slices = 0;
  saved_tf = frame;
}

-- No page is free.
abbrev pub full : Kernel
full = record machine { page_free_list = [] }

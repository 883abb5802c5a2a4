-- ===== src/Kernel.antt =====
-- The state that kern/pmap.c, kern/env.c and kern/sched.c share, and the outcomes of kernel code.
--
-- A physical page is named by its page number (`pp - pages`), an environment by its index in
-- `envs`. A kernel address in kseg0 is written as the physical address it stands for (`kva - ULIM`).
-- The intrusive lists of include/queue.h are lists, first element first.
pub mod Inversion
pub mod SchedList
use buaa_mos_with_swap.Prelude.{
  ℕ, ◌*◌, Bool, true, false, List, Option, none, some, ltb, if◌then◌else◌,
}
use buaa_mos_with_swap.Mmu.{page_size, ppn}

-- `struct SwapInfo` of include/swap.h, less its list link: one mapping of a page.
pub record SwapInfo : Type 0 where
  pub pgdir : ℕ
  pub va : ℕ
  pub asid : ℕ

-- `struct Trapframe` of include/trap.h.
pub record Trapframe : Type 0 where
  pub regs : ℕ → ℕ
  pub cp0_status : ℕ
  pub hi : ℕ
  pub lo : ℕ
  pub cp0_badvaddr : ℕ
  pub cp0_cause : ℕ
  pub cp0_epc : ℕ

abbrev pub sizeof_trapframe : ℕ
sizeof_trapframe = 152

-- `env_status`: `ENV_FREE`, `ENV_RUNNABLE`, `ENV_NOT_RUNNABLE`.
abbrev pub env_free_status : ℕ
env_free_status = 0

abbrev pub env_runnable : ℕ
env_runnable = 1

abbrev pub env_not_runnable : ℕ
env_not_runnable = 2

-- `struct Env` of include/env.h, less its list links.
pub record Env : Type 0 where
  pub env_id : ℕ
  pub env_parent_id : ℕ
  pub env_asid : ℕ
  pub env_pri : ℕ
  pub env_status : ℕ
  pub env_tf : Trapframe
  pub env_pgdir : ℕ
  pub env_ipc_recving : ℕ
  pub env_ipc_value : ℕ
  pub env_ipc_dstva : ℕ
  pub env_ipc_perm : ℕ
  pub env_ipc_from : ℕ
  pub env_user_tlb_mod_entry : ℕ
  pub env_runs : ℕ

pub record Kernel : Type 0 where
  -- Physical memory: the 32-bit word at a word-aligned physical address.
  pub memory : ℕ → ℕ
  pub npage : ℕ
  -- The fields of `struct Page`, and the lists that its links are on.
  pub pp_ref : ℕ → ℕ
  pub accessed : ℕ → ℕ
  pub page_free_list : List ℕ
  pub page_swap_queue : List ℕ
  -- The static `last_next` of `swap`.
  pub last_next : Option ℕ
  -- `swap_tbl` by page number, `bno_tbl` by block number, and how many `SwapInfo`s are unused.
  pub swap_tbl : ℕ → List SwapInfo
  pub bno_tbl : ℕ → List SwapInfo
  pub swap_info_free : ℕ
  -- The bitmap of the swap disk, and the words of its blocks.
  pub sd_bitmap : ℕ → ℕ
  pub sd_blocks : ℕ → ℕ → ℕ
  -- The arguments that `tlb_out` of kern/tlb_asm.S was called with, newest first.
  pub tlb_flushes : List ℕ
  -- kern/env.c and kern/sched.c. `env_count` is the static `i` of `mkenvid`, `time_slices` the
  -- static `count` of `schedule`, `saved_tf` the trapframe below `KSTACKTOP`.
  pub envs : ℕ → Env
  pub curenv : Option ℕ
  pub env_free_list : List ℕ
  pub env_sched_list : List ℕ
  -- What `env_sched_link` of an environment that is not on the list still says: the one before it,
  -- or the head, and the one behind it; nothing where it was never on the list.
  pub sched_link : ℕ → Option (Option ℕ × Option ℕ)
  pub base_pgdir : ℕ
  pub cur_pgdir : ℕ
  pub asid_bitmap : ℕ → ℕ
  pub env_count : ℕ
  pub time_slices : ℕ
  pub saved_tf : Trapframe

-- How kernel code ends: with a value, in `panic` or in an access through `NULL`. `stale` is a
-- removal through links that lead to other places than the element's: the list is broken after it.
-- `hang` is a loop
-- whose fuel ran out; theorems show where it cannot be.
pub data Outcome (A : Type 0) : Type 0 where
  ok : A → Kernel → Outcome A
  panic : Outcome A
  null_deref : Outcome A
  stale : Outcome A
  hang : Outcome A

-- The error codes of include/error.h that the kernel returns, each a negated result.
pub data Error : Type 0 where
  e_bad_env e_inval e_no_free_env e_ipc_not_recv e_no_sys : Error

pub data Result (A : Type 0) : Type 0 where
  success : A → Result A
  failure : Error → Result A

abbrev pub M : Type 0 → Type 0
M A = Kernel → Outcome A

abbrev pub pure : {A : Type 0} → A → M A
pure = ok

module _ {A B : Type 0} where
  abbrev pub and_then : Outcome A → (A → M B) → Outcome B
  and_then (ok a s) k = k a s
  and_then panic k = panic
  and_then null_deref k = null_deref
  and_then stale k = stale
  and_then hang k = hang

  infixl 5 ◌>>=◌ ◌>>◌
  abbrev pub ◌>>=◌ : M A → (A → M B) → M B
  m >>= k = λ s. and_then (m s) k

  abbrev pub ◌>>◌ : M A → M B → M B
  m >> n = m >>= λ _. n

abbrev pub get : {A : Type 0} → (Kernel → A) → M A
get f s = ok (f s) s

abbrev pub modify : (Kernel → Kernel) → M (Unit {0})
modify f s = ok tt (f s)

-- The macro `try` of include/error.h.
abbrev pub or_fail : {A B : Type 0} → (A → M (Result B)) → Result A → M (Result B)
or_fail k (success a) = k a
or_fail k (failure e) = pure (failure e)

abbrev pub try : {A B : Type 0} → M (Result A) → (A → M (Result B)) → M (Result B)
try m k = m >>= or_fail k

-- The object behind a pointer.
abbrev pub deref : Option ℕ → M ℕ
deref none = λ s. null_deref
deref (some p) = ok p

-- `panic_on` and `assert`.
abbrev pub panic_on : Bool → M (Unit {0})
panic_on true = λ s. panic
panic_on false = ok tt

abbrev pub assert : Bool → M (Unit {0})
assert true = ok tt
assert false = λ s. panic

-- `KADDR` and `pa2page`: a physical address past the end of memory panics.
unfoldable pub kaddr : ℕ → M ℕ
kaddr pa s = if ltb (ppn pa) s.npage then ok pa s else panic

unfoldable pub pa2page : ℕ → M ℕ
pa2page pa s = if ltb (ppn pa) s.npage then ok (ppn pa) s else panic

abbrev pub page2pa : ℕ → ℕ
page2pa pp = pp * page_size

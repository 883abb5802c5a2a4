-- ===== src/Env/Life.antt =====
-- The environments of kern/env.c: `env_init`, `env_alloc`, `env_free`, `env_run`.
-- `env_pop_tf`, in assembly, leaves the kernel; the model ends there.
pub mod Running
use buaa_mos_with_swap.Prelude.{
  ℕ, zero, suc, ◌+◌, ◌-◌, ◌*◌, ◌/◌, ◌%◌, ◌^◌, Bool, true, false, ◌&&◌, ◌||◌, List, [], ◌∷◌, Option,
  none, some, ltb, leb, ◌==◌, if◌then◌else◌, update, remove, bit, set_bit,
}
use buaa_mos_with_swap.Mmu.{
  page_size, word_mod, pdx, pte_addr, pte_v, pte_g, pte_swapped, upages, uenvs, uvpt, utop,
  ustacktop, round, sizeof_page,
}
use buaa_mos_with_swap.Kernel.{
  Kernel, Env, M, ok, null_deref, pure, ◌>>=◌, ◌>>◌, get, modify, assert, kaddr, pa2page, page2pa,
  env_free_status, env_runnable, Result, success, failure, e_no_free_env, try,
}
use buaa_mos_with_swap.Kernel.SchedList.{unlink}
use buaa_mos_with_swap.Pmap.Swap.{tlb_invalidate}
use buaa_mos_with_swap.Pmap.Pages.{page_alloc, page_decref}
use buaa_mos_with_swap.Pmap.Table.{add_ref, load, store, page_insert, page_remove}
use buaa_mos_with_swap.Env.Asid.{asid_alloc, asid_free}
use buaa_mos_with_swap.Env.Ids.{nenv, mkenvid}

-- A write to `envs[e]`.
abbrev pub set_env : ℕ → (Env → Env) → M (Unit {0})
set_env e f = modify λ s. record s { envs = update s.envs e (f (s.envs e)) }

unfoldable pub map_pages : ℕ → ℕ → ℕ → ℕ → ℕ → ℕ → M (Unit {0})
map_pages zero pgdir asid pa va perm = pure tt
map_pages (suc n) pgdir asid pa va perm = do
  pp ← pa2page pa
  page_insert pgdir asid pp va perm
  map_pages n pgdir asid (pa + page_size) (va + page_size) perm

unfoldable pub map_segment : ℕ → ℕ → ℕ → ℕ → ℕ → ℕ → M (Unit {0})
map_segment pgdir asid pa va size perm = do
  assert (pa % page_size == 0)
  assert (va % page_size == 0)
  assert (size % page_size == 0)
  map_pages (size / page_size) pgdir asid pa va perm

-- The loop of `env_init`, from `n - 1` down to 0.
unfoldable pub init_envs : ℕ → Kernel → Kernel
init_envs zero s = s
init_envs (suc i) s = init_envs i (record s {
  envs = update s.envs i (record (s.envs i) { env_status = env_free_status });
  env_free_list = i ∷ s.env_free_list;
})

-- `sizeof(struct Env)`.
abbrev pub sizeof_env : ℕ
sizeof_env = 220

-- `pages_pa` and `envs_pa` are `PADDR(pages)` and `PADDR(envs)`, which boot code and linker choose.
unfoldable pub env_init : ℕ → ℕ → M (Unit {0})
env_init pages_pa envs_pa = do
  modify (λ s. init_envs nenv (record s { env_free_list = []; env_sched_list = [] }))
  p ← page_alloc
  add_ref p
  modify (λ s. record s { base_pgdir = page2pa p })
  npage ← get (λ s. s.npage)
  map_segment (page2pa p) 0 pages_pa upages (round (npage * sizeof_page) page_size)
      (set_bit 0 pte_g)
  map_segment (page2pa p) 0 envs_pa uenvs (round (nenv * sizeof_env) page_size) (set_bit 0 pte_g)

-- The words of the template directory between `PDX(UTOP)` and `PDX(UVPT)`.
unfoldable pub copy_template : ℕ → ℕ → (ℕ → ℕ) → ℕ → ℕ
copy_template pgdir base m a =
    if leb (pgdir + 4 * pdx utop) a && ltb a (pgdir + 4 * pdx uvpt)
    then m (a - pgdir + base)
    else m a

unfoldable pub env_setup_vm : ℕ → M (Unit {0})
env_setup_vm e = do
  p ← page_alloc
  add_ref p
  set_env e (λ r. record r { env_pgdir = page2pa p })
  modify (λ s. record s { memory = copy_template (page2pa p) s.base_pgdir s.memory })
  store (page2pa p + 4 * pdx uvpt) (set_bit (page2pa p) pte_v)

-- `STATUS_IM7 | STATUS_IE | STATUS_EXL | STATUS_UM`.
abbrev pub user_status : ℕ
user_status = 0x8013

-- The last steps of `env_alloc`, once an ASID is there.
unfoldable pub fill_env : ℕ → ℕ → ℕ → Env → Env
fill_env id asid parent r = record r {
  env_id = id;
  env_asid = asid;
  env_parent_id = parent;
  env_user_tlb_mod_entry = 0;
  env_runs = 0;
  env_tf = record (r.env_tf) {
    cp0_status = user_status;
    regs = update r.env_tf.regs 29 (ustacktop - 8);
  };
}

unfoldable pub env_alloc : ℕ → M (Result ℕ)
env_alloc parent = do
  free ← get (λ s. s.env_free_list)
  elim free [
    | [] ↦ pure (failure e_no_free_env)
    | e ∷ rest ↦ do
      env_setup_vm e
      id ← mkenvid e
      set_env e (λ r. record r { env_id = id })
      try asid_alloc λ asid. do
        set_env e (fill_env id asid parent)
        modify (λ s. record s { env_free_list = remove e s.env_free_list })
        pure (success e)
  ]

-- The inner loop of `env_free` over the entries of the table at `table`.
unfoldable pub free_entries : ℕ → ℕ → ℕ → ℕ → ℕ → ℕ → M (Unit {0})
free_entries zero pteno pgdir asid pdeno table = pure tt
free_entries (suc n) pteno pgdir asid pdeno table = do
  pte ← load (table + 4 * pteno)
  if bit pte pte_v || bit pte pte_swapped
      then page_remove pgdir asid (pdeno * 2 ^ 22 + pteno * 2 ^ 12)
      else pure tt
  free_entries n (pteno + 1) pgdir asid pdeno table

-- The outer loop over the page tables.
unfoldable pub free_tables : ℕ → ℕ → ℕ → ℕ → M (Unit {0})
free_tables zero pdeno pgdir asid = pure tt
free_tables (suc n) pdeno pgdir asid = do
  pde ← load (pgdir + 4 * pdeno)
  if bit pde pte_v
      then (do
        table ← kaddr (pte_addr pde)
        free_entries 1024 0 pgdir asid pdeno table
        store (pgdir + 4 * pdeno) 0
        pp ← pa2page (pte_addr pde)
        page_decref pp
        tlb_invalidate asid (uvpt + pdeno * 2 ^ 12))
      else pure tt
  free_tables n (pdeno + 1) pgdir asid

unfoldable pub env_free : ℕ → M (Unit {0})
env_free e = do
  pgdir ← get (λ s. (s.envs e).env_pgdir)
  asid ← get (λ s. (s.envs e).env_asid)
  free_tables (pdx utop) 0 pgdir asid
  pp ← pa2page pgdir
  page_decref pp
  asid_free asid
  tlb_invalidate asid (uvpt + pdx uvpt * 2 ^ 12)
  set_env e (λ r. record r { env_status = env_free_status })
  modify (λ s. record s { env_free_list = e ∷ s.env_free_list })
  unlink e

-- `if (curenv) curenv->env_tf = ...`.
unfoldable pub save_context : Option ℕ → M (Unit {0})
save_context none = pure tt
save_context (some c) = do tf ← get (λ s. s.saved_tf); set_env c (λ r. record r { env_tf = tf })

unfoldable pub env_run : ℕ → M (Unit {0})
env_run e = do
  status ← get (λ s. (s.envs e).env_status)
  assert (status == env_runnable)
  cur ← get (λ s. s.curenv)
  save_context cur
  set_env e (λ r. record r { env_runs = (r.env_runs + 1) % word_mod })
  modify (λ s. record s { curenv = some e; cur_pgdir = (s.envs e).env_pgdir })

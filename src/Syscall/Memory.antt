-- ===== src/Syscall/Memory.antt =====
-- The memory system calls of kern/syscall_all.c: `sys_mem_alloc`, `sys_mem_map`, `sys_mem_unmap`.
pub mod Access
use buaa_mos_with_swap.Prelude.{
  ℕ, Bool, true, false, ◌&&◌, ◌||◌, not, Option, none, some, ◌==◌, if◌then◌else◌, is_nil,
}
use buaa_mos_with_swap.Mmu.{pte_addr, ucow}
use buaa_mos_with_swap.Kernel.{
  Kernel, M, ok, pure, ◌>>=◌, ◌>>◌, get, deref, Result, success, failure, e_inval, try,
}
use buaa_mos_with_swap.Pmap.Swap.{swap_register}
use buaa_mos_with_swap.Pmap.Pages.{page_alloc}
use buaa_mos_with_swap.Pmap.Table.{page_insert, page_lookup, page_remove}
use buaa_mos_with_swap.Env.Ids.{envid2env}
use buaa_mos_with_swap.Syscall.Range.{is_illegal_va}

-- `try(envid2env(envid, &e, perm))`, and then `e` is used.
abbrev pub with_env : {A : Type 0} → ℕ → Bool → (ℕ → M (Result A)) → M (Result A)
with_env envid perm k = try (envid2env envid perm) λ p. deref p >>= k

unfoldable pub sys_mem_alloc : ℕ → ℕ → ℕ → M (Result ℕ)
sys_mem_alloc envid va perm =
    if is_illegal_va va
    then pure (failure e_inval)
    else with_env envid true λ e. do
      pp ← page_alloc
      pgdir ← get (λ s. (s.envs e).env_pgdir)
      asid ← get (λ s. (s.envs e).env_asid)
      page_insert pgdir asid pp va perm
      swap_register pp pgdir va asid
      pure (success 0)

-- `!LIST_EMPTY(page2ste(pp))`, and 0 where there is no page.
unfoldable pub is_swappable : Option ℕ → M Bool
is_swappable none = pure false
is_swappable (some pp) = get λ s. not (is_nil (s.swap_tbl pp))

-- The page that a source address is mapped to, or `-E_INVAL`.
abbrev pub found_page : Option ℕ → M (Result ℕ)
found_page none = pure (failure e_inval)
found_page (some pp) = pure (success pp)

-- Is the new mapping registered for swapping?
unfoldable pub must_register : ℕ → ℕ → ℕ → ℕ → Bool → Bool → Bool
must_register src dst srcva dstva swappable_org swappable_src =
    (if srcva == ucow then swappable_org else swappable_src)
    && (not (src == dst) || not (pte_addr srcva == pte_addr dstva))

unfoldable pub map_between : ℕ → ℕ → ℕ → ℕ → ℕ → M (Result ℕ)
map_between src srcva dst dstva perm = do
  dst_pgdir ← get (λ s. (s.envs dst).env_pgdir)
  dst_asid ← get (λ s. (s.envs dst).env_asid)
  src_pgdir ← get (λ s. (s.envs src).env_pgdir)
  (orgp, _) ← page_lookup dst_pgdir dstva
  swappable_org ← is_swappable orgp
  (srcp, _) ← page_lookup src_pgdir srcva
  try (found_page srcp) λ pp. do
    swappable_src ← is_swappable (some pp)
    page_insert dst_pgdir dst_asid pp dstva perm
    if must_register src dst srcva dstva swappable_org swappable_src
        then swap_register pp dst_pgdir dstva dst_asid
        else pure tt
    pure (success 0)

unfoldable pub sys_mem_map : ℕ → ℕ → ℕ → ℕ → ℕ → M (Result ℕ)
sys_mem_map srcid srcva dstid dstva perm =
    if is_illegal_va srcva || is_illegal_va dstva
    then pure (failure e_inval)
    else try (envid2env srcid true) λ srcenv.
      try (envid2env dstid true)
        λ dstenv. do dst ← deref dstenv; src ← deref srcenv; map_between src srcva dst dstva perm

unfoldable pub sys_mem_unmap : ℕ → ℕ → M (Result ℕ)
sys_mem_unmap envid va =
    if is_illegal_va va
    then pure (failure e_inval)
    else with_env envid true λ e. do
      pgdir ← get (λ s. (s.envs e).env_pgdir)
      asid ← get (λ s. (s.envs e).env_asid)
      page_remove pgdir asid va
      pure (success 0)

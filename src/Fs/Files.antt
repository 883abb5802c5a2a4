-- ===== src/Fs/Files.antt =====
-- The blocks of a file in fs/fs.c. A file is named by the address of its `struct File`.
pub mod Blocks
pub mod Sync
use buaa_mos_with_swap.Prelude.{
  ℕ, zero, suc, ◌+◌, ◌-◌, ◌*◌, ◌/◌, Bool, true, false, not, ltb, leb, ◌==◌, if◌then◌else◌, update,
}
use buaa_mos_with_swap.Mmu.{round}
use buaa_mos_with_swap.Fs.{
  Server, Outcome, ok, panic, null_deref, Error, Result, success, failure, M, pure, ◌>>=◌, ◌>>◌,
  get, modify, panic_when, or_fail, try, load, store, e_inval, e_not_found, block_size, ndirect,
  nindirect, f_size, f_direct, f_indirect, f_dir, s_nblocks,
}
use buaa_mos_with_swap.Fs.Cache.{
  read_block, write_block, dirty_block, block_is_dirty, free_block, alloc_block,
}

-- Make the indirect block where it is missing.
unfoldable pub need_indirect : ℕ → Bool → M (Result (Unit {0}))
need_indirect f alloc = do
  indirect ← load (f_indirect f)
  if indirect == 0
      then (if alloc
          then (try alloc_block λ r. store (f_indirect f) r >> pure (success tt))
          else pure (failure e_not_found))
      else pure (success tt)

-- The address that goes to `*ppdiskbno`.
unfoldable pub file_block_walk : ℕ → ℕ → Bool → M (Result ℕ)
file_block_walk f filebno alloc =
    if ltb filebno ndirect
    then pure (success (f_direct f filebno))
    else if ltb filebno nindirect
    then (try (need_indirect f alloc) λ _. load (f_indirect f) >>= λ indirect.
        try (read_block indirect) λ blk. pure (success (blk.0 + 4 * filebno)))
    else pure (failure e_inval)

-- Give a block to the slot where it has none.
unfoldable pub need_block : ℕ → Bool → M (Result (Unit {0}))
need_block ptr alloc = do
  diskbno ← load ptr
  if diskbno == 0
      then (if alloc
          then (try alloc_block λ r. store ptr r >> pure (success tt))
          else pure (failure e_not_found))
      else pure (success tt)

-- The block number that goes to `*diskbno`.
unfoldable pub file_map_block : ℕ → ℕ → Bool → M (Result ℕ)
file_map_block f filebno alloc =
    try (file_block_walk f filebno alloc)
      λ ptr. try (need_block ptr alloc) λ _. load ptr >>= λ diskbno. pure (success diskbno)

unfoldable pub file_clear_block : ℕ → ℕ → M (Result (Unit {0}))
file_clear_block f filebno = try (file_block_walk f filebno false) λ ptr. do
  diskbno ← load ptr
  if diskbno == 0
      then pure (success tt)
      else (free_block diskbno >> store ptr 0 >> pure (success tt))

-- The address of the block in memory.
unfoldable pub file_get_block : ℕ → ℕ → M (Result ℕ)
file_get_block f filebno =
    try (file_map_block f filebno true)
      λ diskbno. try (read_block diskbno) λ blk. pure (success blk.0)

unfoldable pub file_dirty : ℕ → ℕ → M (Result (Unit {0}))
file_dirty f offset =
    try (file_map_block f (offset / block_size) false) λ diskbno. dirty_block diskbno

unfoldable pub panic_on : Result (Unit {0}) → M (Unit {0})
panic_on (success _) = pure tt
panic_on (failure e) = λ s. panic

-- `panic_on(file_clear_block(f, i))` for the `n` blocks from `bno` on.
unfoldable pub clear_blocks : ℕ → ℕ → ℕ → M (Unit {0})
clear_blocks f zero bno = pure tt
clear_blocks f (suc n) bno = file_clear_block f bno >>= panic_on >> clear_blocks f n (bno + 1)

-- The number of blocks that `size` bytes take.
unfoldable pub blocks_of : ℕ → ℕ
blocks_of size = round size block_size / block_size

unfoldable pub drop_indirect : ℕ → M (Unit {0})
drop_indirect f = do
  indirect ← load (f_indirect f)
  if indirect == 0 then pure tt else (free_block indirect >> store (f_indirect f) 0)

unfoldable pub file_truncate : ℕ → ℕ → M (Unit {0})
file_truncate f newsize = do
  size ← load (f_size f)
  let old_nblocks = blocks_of size
  let new_nblocks = if newsize == 0 then 0 else blocks_of newsize
  clear_blocks f (old_nblocks - new_nblocks) new_nblocks
  if leb new_nblocks ndirect then drop_indirect f else pure tt
  store (f_size f) newsize

-- `if (block_is_dirty(diskno)) write_block(diskno);`
unfoldable pub flush_block : ℕ → M (Unit {0})
flush_block diskno s = if block_is_dirty diskno s then write_block diskno s else ok tt s

-- `continue` where the file has no such block.
unfoldable pub flush_mapped : Result ℕ → M (Unit {0})
flush_mapped (success diskno) = flush_block diskno
flush_mapped (failure e) = pure tt

unfoldable pub flush_blocks : ℕ → ℕ → ℕ → M (Unit {0})
flush_blocks f zero bno = pure tt
flush_blocks f (suc n) bno =
    file_map_block f bno false >>= flush_mapped >> flush_blocks f n (bno + 1)

unfoldable pub file_flush : ℕ → M (Unit {0})
file_flush f = load (f_size f) >>= λ size. flush_blocks f (blocks_of size) 0

-- `if (f->f_dir) file_flush(f->f_dir);`
unfoldable pub flush_dir : ℕ → M (Unit {0})
flush_dir f = load (f_dir f) >>= λ dir. if dir == 0 then pure tt else file_flush dir

unfoldable pub file_set_size : ℕ → ℕ → M (Unit {0})
file_set_size f newsize = do
  size ← load (f_size f)
  if ltb newsize size then file_truncate f newsize else pure tt
  store (f_size f) newsize
  flush_dir f

-- The `n` blocks from `i` on.
unfoldable pub sync_blocks : ℕ → ℕ → M (Unit {0})
sync_blocks zero i = pure tt
sync_blocks (suc n) i = flush_block i >> sync_blocks n (i + 1)

unfoldable pub fs_sync : M (Unit {0})
fs_sync s = if s.super == 0 then null_deref else sync_blocks (s.mem (s_nblocks s.super / 4)) 0 s

unfoldable pub file_close : ℕ → M (Unit {0})
file_close f = file_flush f >> flush_dir f

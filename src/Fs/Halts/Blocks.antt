-- ===== src/Fs/Halts/Blocks.antt =====
-- The routines of fs/fs.c for blocks and for files return or stop.
use buaa_mos_with_swap.Prelude.{ℕ, zero, suc, ◌+◌, Bool, false}
use buaa_mos_with_swap.Fs.{Result, success, failure}
use buaa_mos_with_swap.Fs.Cache
use buaa_mos_with_swap.Fs.Files
use buaa_mos_with_swap.Fs.Halts.{
  returns, panics, faults, NoHang, if-Halts, pure-NoHang, bind-NoHang, then-NoHang, store-NoHang,
  option-Halts, no_hang,
}

-- The block cache.
pub syscall_mem_alloc-NoHang : (va : ℕ) → NoHang (Cache.syscall_mem_alloc va)
unfolding Cache.syscall_mem_alloc
syscall_mem_alloc-NoHang va = record { halts = λ s. search no_hang }

dirty_block-NoHang : (b : ℕ) → NoHang (Cache.dirty_block b)
unfolding Cache.dirty_block
dirty_block-NoHang b = record { halts = λ s. search no_hang }

write_block-NoHang : (b : ℕ) → NoHang (Cache.write_block b)
unfolding Cache.write_block Cache.ide_write
write_block-NoHang b = record {
  halts = λ s. option-Halts (Cache.block_is_mapped b s) panics λ va. returns tt _;
}

read_block-NoHang : (b : ℕ) → NoHang (Cache.read_block b)
unfolding Cache.read_block Cache.ide_read
read_block-NoHang b = search (no_hang, syscall_mem_alloc-NoHang) depth 14

map_block-NoHang : (b : ℕ) → NoHang (Cache.map_block b)
unfolding Cache.map_block
map_block-NoHang b = record {
  halts = λ s. if-Halts _ (returns _ _) ((syscall_mem_alloc-NoHang _).halts s);
}

free_block-NoHang : (b : ℕ) → NoHang (Cache.free_block b)
unfolding Cache.free_block
free_block-NoHang b = record { halts = λ s. search no_hang }

take_block-NoHang : (b : ℕ) → NoHang (Cache.take_block b)
unfolding Cache.take_block
take_block-NoHang b = record {
  halts = λ s.
      (then-NoHang (then-NoHang (store-NoHang (Cache.bitmap_word b s) _) (write_block-NoHang _))
          (pure-NoHang (success b))).halts
        s;
}

scan_blocks-NoHang : (n b : ℕ) → NoHang (Cache.scan_blocks n b)
unfolding Cache.scan_blocks
scan_blocks-NoHang zero b = record { halts = λ s. returns _ s }
scan_blocks-NoHang (suc n) b = record {
  halts = λ s.
      if-Halts _ faults
        (if-Halts _ ((take_block-NoHang b).halts s) ((scan_blocks-NoHang n (b + 1)).halts s));
}

alloc_block_num-NoHang : NoHang Cache.alloc_block_num
unfolding Cache.alloc_block_num
alloc_block_num-NoHang = record {
  halts = λ s. if-Halts _ faults ((scan_blocks-NoHang _ 3).halts s);
}

map_or_free-NoHang : (b : ℕ) (r : Result Unit) → NoHang (Cache.map_or_free b r)
unfolding Cache.map_or_free
map_or_free-NoHang b (success _) = pure-NoHang _
map_or_free-NoHang b (failure e) = search (no_hang, free_block-NoHang) depth 14

pub alloc_block-NoHang : NoHang Cache.alloc_block
unfolding Cache.alloc_block
alloc_block-NoHang =
    search (no_hang, alloc_block_num-NoHang, map_block-NoHang, map_or_free-NoHang) depth 14

-- The blocks of a file.
need_indirect-NoHang : (f : ℕ) (alloc : Bool) → NoHang (Files.need_indirect f alloc)
unfolding Files.need_indirect
need_indirect-NoHang f alloc = search (no_hang, alloc_block-NoHang) depth 14

file_block_walk-NoHang : (f n : ℕ) (alloc : Bool) → NoHang (Files.file_block_walk f n alloc)
unfolding Files.file_block_walk
file_block_walk-NoHang f n alloc =
    search (no_hang, need_indirect-NoHang, read_block-NoHang) depth 14

need_block-NoHang : (p : ℕ) (alloc : Bool) → NoHang (Files.need_block p alloc)
unfolding Files.need_block
need_block-NoHang p alloc = search (no_hang, alloc_block-NoHang) depth 14

file_map_block-NoHang : (f n : ℕ) (alloc : Bool) → NoHang (Files.file_map_block f n alloc)
unfolding Files.file_map_block
file_map_block-NoHang f n alloc =
    search (no_hang, file_block_walk-NoHang, need_block-NoHang) depth 14

file_clear_block-NoHang : (f n : ℕ) → NoHang (Files.file_clear_block f n)
unfolding Files.file_clear_block
file_clear_block-NoHang f n = search (no_hang, file_block_walk-NoHang, free_block-NoHang) depth 14

pub file_get_block-NoHang : (f n : ℕ) → NoHang (Files.file_get_block f n)
unfolding Files.file_get_block
file_get_block-NoHang f n = search (no_hang, file_map_block-NoHang, read_block-NoHang) depth 14

pub file_dirty-NoHang : (f n : ℕ) → NoHang (Files.file_dirty f n)
unfolding Files.file_dirty
file_dirty-NoHang f n = search (no_hang, file_map_block-NoHang, dirty_block-NoHang) depth 14

panic_on-NoHang : (r : Result Unit) → NoHang (Files.panic_on r)
unfolding Files.panic_on
panic_on-NoHang (success _) = pure-NoHang tt
panic_on-NoHang (failure e) = record { halts = λ s. panics }

clear_blocks-NoHang : (f n b : ℕ) → NoHang (Files.clear_blocks f n b)
unfolding Files.clear_blocks
clear_blocks-NoHang f zero b = pure-NoHang tt
clear_blocks-NoHang f (suc n) b =
    then-NoHang (bind-NoHang (file_clear_block-NoHang f b) panic_on-NoHang)
      (clear_blocks-NoHang f n (b + 1))

drop_indirect-NoHang : (f : ℕ) → NoHang (Files.drop_indirect f)
unfolding Files.drop_indirect
drop_indirect-NoHang f = search (no_hang, free_block-NoHang) depth 14

pub file_truncate-NoHang : (f n : ℕ) → NoHang (Files.file_truncate f n)
unfolding Files.file_truncate
file_truncate-NoHang f n = search (no_hang, clear_blocks-NoHang, drop_indirect-NoHang) depth 14

flush_block-NoHang : (b : ℕ) → NoHang (Files.flush_block b)
unfolding Files.flush_block
flush_block-NoHang b = record {
  halts = λ s. if-Halts _ ((write_block-NoHang b).halts s) (returns tt s);
}

flush_mapped-NoHang : (r : Result ℕ) → NoHang (Files.flush_mapped r)
unfolding Files.flush_mapped
flush_mapped-NoHang (success b) = flush_block-NoHang b
flush_mapped-NoHang (failure e) = pure-NoHang tt

flush_blocks-NoHang : (f n b : ℕ) → NoHang (Files.flush_blocks f n b)
unfolding Files.flush_blocks
flush_blocks-NoHang f zero b = pure-NoHang tt
flush_blocks-NoHang f (suc n) b =
    then-NoHang (bind-NoHang (file_map_block-NoHang f b false) flush_mapped-NoHang)
      (flush_blocks-NoHang f n (b + 1))

pub file_flush-NoHang : (f : ℕ) → NoHang (Files.file_flush f)
unfolding Files.file_flush
file_flush-NoHang f = search (no_hang, flush_blocks-NoHang) depth 14

pub flush_dir-NoHang : (f : ℕ) → NoHang (Files.flush_dir f)
unfolding Files.flush_dir
flush_dir-NoHang f = search (no_hang, file_flush-NoHang) depth 14

pub file_set_size-NoHang : (f n : ℕ) → NoHang (Files.file_set_size f n)
unfolding Files.file_set_size
file_set_size-NoHang f n = search (no_hang, file_truncate-NoHang, flush_dir-NoHang) depth 14

sync_blocks-NoHang : (n i : ℕ) → NoHang (Files.sync_blocks n i)
unfolding Files.sync_blocks
sync_blocks-NoHang zero i = pure-NoHang tt
sync_blocks-NoHang (suc n) i = then-NoHang (flush_block-NoHang i) (sync_blocks-NoHang n (i + 1))

pub fs_sync-NoHang : NoHang Files.fs_sync
unfolding Files.fs_sync
fs_sync-NoHang = record { halts = λ s. if-Halts _ faults ((sync_blocks-NoHang _ 0).halts s) }

pub file_close-NoHang : (f : ℕ) → NoHang (Files.file_close f)
unfolding Files.file_close
file_close-NoHang f = search (no_hang, file_flush-NoHang, flush_dir-NoHang) depth 14

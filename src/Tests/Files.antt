-- ===== src/Tests/Files.antt =====
-- A mounted file system of sixteen blocks: block 5 is free, and its page is not in the cache.
use buaa_mos_with_swap.Prelude.{
  ℕ, ◌+◌, ◌*◌, ◌/◌, ◌<◌, ◌≤◌, ◌≡◌, ◌⊎◌, refl, true, false, not, ◌||◌, [], ◌∷◌, ◌==◌, if◌then◌else◌,
  arith, bit, clear_bit,
}
use buaa_mos_with_swap.Fs.{
  Server, Outcome, ok, panic, success, failure, e_no_disk, e_no_mem, diskmap, block_size, ndirect,
  s_root, f_size,
}
use buaa_mos_with_swap.Fs.Cache.{
  disk_addr, va_is_mapped, marked_free, past_end, free_block, read_block, alloc_block_num,
  alloc_block, scan_blocks, take_block, write_block, block_is_mapped, ide_write, map_block,
  map_or_free, syscall_mem_alloc,
}
use buaa_mos_with_swap.Fs.Cache.Mounted.{nblocks, Mounted, Taken}
use buaa_mos_with_swap.Fs.Cache.Bitmap.{alloc_block_num_cases, free_block-alloc_block_num}
use buaa_mos_with_swap.Fs.Cache.Pages.{Loaded, read_block_cases}
use buaa_mos_with_swap.Fs.Files.{
  file_map_block, file_block_walk, need_block, file_truncate, blocks_of, fs_sync,
}
use buaa_mos_with_swap.Fs.Files.Blocks.{NoBlocks, file_map_block-again, file_truncate-panic}
use buaa_mos_with_swap.Fs.Files.Sync.{Synced, fs_sync-Synced}
use buaa_mos_with_swap.Fs.Dirs.{walk_path}
use buaa_mos_with_swap.Fs.Dirs.Paths.{walk_path_lem, walk_names, components}

-- The words of the superblock's count, of the bitmap, and of the root's size, 11 blocks.
abbrev words : ℕ → ℕ
words a =
    if a == 0x10001004 / 4
    then 16
    else if a == 0x10002000 / 4
    then 0x20
    else if a == 0x10001088 / 4
    then 45056
    else 0

abbrev pub mounted : Server
mounted = record {
  mem = words;
  mapped = λ v. not (v == 0x10005);
  dirty = λ v. v == 0x10002;
  disk = λ b i. b;
  super = diskmap + block_size;
  bitmap = diskmap + 2 * block_size;
  grants = λ n. true;
  asked = 0;
}

abbrev root : ℕ
root = s_root mounted.super

mounted-Mounted : Mounted mounted
unfolding nblocks va_is_mapped disk_addr
mounted-Mounted = record {
  super = refl;
  bitmap = refl;
  size = omega arith;
  cached = λ k h. let first : k ≡ 0 = omega (arith, h) in rw first refl;
}

enough_blocks : 3 ≤ nblocks mounted
unfolding nblocks
enough_blocks = omega arith

alloc_block_num_cases_example :
    ((alloc_block_num mounted ≡ ok (failure e_no_disk) mounted)
      × ((k : ℕ) → 3 ≤ k → k < nblocks mounted → marked_free k mounted ≡ false))
    ⊎ ((bno : ℕ) × (t : Server) × (alloc_block_num mounted ≡ ok (success bno) t)
        × Taken mounted bno t
        × (3 ≤ bno)
        × (bno < nblocks mounted)
        × ((k : ℕ) → 3 ≤ k → k < bno → marked_free k mounted ≡ false))
alloc_block_num_cases_example = alloc_block_num_cases mounted mounted-Mounted enough_blocks

abbrev state_of : {A : Type 0} → Outcome A → Server → Server
state_of (ok a t) s = t
state_of _ s = s

abbrev allocated : Server
allocated = state_of (alloc_block_num mounted) mounted

alloc_run : alloc_block_num mounted ≡ ok (success 5) allocated
unfolding alloc_block_num scan_blocks take_block marked_free write_block block_is_mapped
    va_is_mapped ide_write disk_addr bit clear_bit
alloc_run = refl

free_block-alloc_block_num_example :
    (u : Server) × (free_block 5 allocated ≡ ok tt u)
    × ((k : ℕ) → marked_free k u ≡ marked_free k mounted)
    × (u.disk ≡ allocated.disk)
free_block-alloc_block_num_example =
    free_block-alloc_block_num mounted allocated 5 mounted-Mounted enough_blocks alloc_run

fs_sync-Synced_example :
    (t : Server) × (fs_sync mounted ≡ ok tt t) × Synced (nblocks mounted) 0 mounted t
fs_sync-Synced_example = fs_sync-Synced mounted refl

read_block_cases_example :
    ((read_block 7 mounted ≡ panic) × ((past_end 7 mounted || marked_free 7 mounted) ≡ true))
    ⊎ (((past_end 7 mounted || marked_free 7 mounted) ≡ false)
        × (((va_is_mapped (disk_addr 7) mounted ≡ true)
              × (read_block 7 mounted ≡ ok (success (disk_addr 7, false)) mounted))
            ⊎ ((va_is_mapped (disk_addr 7) mounted ≡ false)
                × (mounted.grants mounted.asked ≡ true)
                × (t : Server) × (read_block 7 mounted ≡ ok (success (disk_addr 7, true)) t)
                × Loaded (disk_addr 7) (mounted.disk 7) mounted t)
            ⊎ ((va_is_mapped (disk_addr 7) mounted ≡ false)
                × (mounted.grants mounted.asked ≡ false)
                × (read_block 7 mounted
                    ≡ ok (failure e_no_mem) (record mounted { asked = mounted.asked + 1 })))))
read_block_cases_example = read_block_cases 7 mounted mounted-Mounted

-- The root's second block is missing.
abbrev grown : Server
grown = state_of (file_map_block root 1 true mounted) mounted

grown_run : file_map_block root 1 true mounted ≡ ok (success 5) grown
unfolding file_map_block file_block_walk need_block alloc_block map_block map_or_free
    syscall_mem_alloc alloc_block_num scan_blocks take_block marked_free write_block block_is_mapped
    va_is_mapped ide_write disk_addr bit clear_bit
grown_run = refl

file_map_block-again_example :
    (file_map_block root 1 false grown ≡ ok (success 5) grown) × ((5 == 0) ≡ false)
file_map_block-again_example =
    file_map_block-again root 1 5 mounted grown mounted-Mounted enough_blocks (omega arith)
      grown_run

-- The root has a size of eleven blocks and no block.
root-NoBlocks : NoBlocks root 0 mounted
root-NoBlocks = record { indirect = refl; direct = λ i l h. ground (arith, h) }

small_enough : blocks_of 100 ≤ ndirect
unfolding blocks_of
small_enough = omega arith

large_enough : ndirect < blocks_of (mounted.mem (f_size root / 4))
unfolding blocks_of
large_enough = omega arith

file_truncate-panic_example : file_truncate root 100 mounted ≡ panic
file_truncate-panic_example =
    file_truncate-panic root 100 mounted root-NoBlocks small_enough large_enough

walk_path_lem_example :
    walk_path (b'/' ∷ b'a' ∷ b'/' ∷ b'/' ∷ b'b' ∷ []) mounted
    ≡ walk_names (components (b'/' ∷ b'a' ∷ b'/' ∷ b'/' ∷ b'b' ∷ [])) 0 root mounted
walk_path_lem_example = walk_path_lem (b'/' ∷ b'a' ∷ b'/' ∷ b'/' ∷ b'b' ∷ []) mounted

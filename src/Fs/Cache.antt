-- ===== src/Fs/Cache.antt =====
-- The block cache and the bitmap of fs/fs.c.
pub mod Mounted
pub mod Bitmap
pub mod Pages
use buaa_mos_with_swap.Prelude.{
  ℕ, zero, suc, ◌+◌, ◌-◌, ◌*◌, ◌/◌, ◌%◌, Bool, true, false, ◌&&◌, ◌||◌, not, Option, none, some,
  leb, ltb, ◌==◌, if◌then◌else◌, update, bit, set_bit, clear_bit,
}
use buaa_mos_with_swap.Mmu.{page_size, word_mod}
use buaa_mos_with_swap.Fs.{
  Server, Outcome, ok, panic, null_deref, Error, Result, success, failure, M, pure, ◌>>=◌, ◌>>◌,
  get, modify, panic_when, or_fail, try, load, store, e_no_mem, e_not_found, e_no_disk, block_size,
  block_size_bit, diskmap, diskmax, fs_magic, s_magic, s_nblocks,
}

unfoldable pub disk_addr : ℕ → ℕ
disk_addr blockno = (diskmap + block_size * blockno) % word_mod

-- `VPN(va)`.
abbrev pub vpn : ℕ → ℕ
vpn va = va / page_size

unfoldable pub va_is_mapped : ℕ → Server → Bool
va_is_mapped va s = s.mapped (vpn va)

unfoldable pub va_is_dirty : ℕ → Server → Bool
va_is_dirty va s = s.dirty (vpn va)

-- The address of the cache page, `none` for `NULL`.
unfoldable pub block_is_mapped : ℕ → Server → Option ℕ
block_is_mapped blockno s =
    let va = disk_addr blockno in if va_is_mapped va s then some va else none

unfoldable pub block_is_dirty : ℕ → Server → Bool
block_is_dirty blockno s = let va = disk_addr blockno in va_is_mapped va s && va_is_dirty va s

-- `syscall_mem_alloc(0, va, PTE_D)`: a page of zeros, or no memory.
unfoldable pub syscall_mem_alloc : ℕ → M (Result (Unit {0}))
syscall_mem_alloc va s =
    let t = record s { asked = s.asked + 1 } in
    if s.grants s.asked
    then ok (success tt) (record t {
      mem = λ a. if a / 1024 == vpn va then 0 else s.mem a;
      mapped = update s.mapped (vpn va) true;
      dirty = update s.dirty (vpn va) false;
    })
    else ok (failure e_no_mem) t

-- `syscall_mem_unmap(0, va)`.
unfoldable pub syscall_mem_unmap : ℕ → M (Unit {0})
syscall_mem_unmap va =
    modify λ s. record s {
      mapped = update s.mapped (vpn va) false;
      dirty = update s.dirty (vpn va) false;
    }

-- `ide_read` and `ide_write` of the eight sectors of a block.
unfoldable pub ide_read : ℕ → ℕ → M (Unit {0})
ide_read blockno va =
    modify
      λ s. record s { mem = λ a. if a / 1024 == vpn va then s.disk blockno (a % 1024) else s.mem a }

unfoldable pub ide_write : ℕ → ℕ → M (Unit {0})
ide_write blockno va =
    modify λ s. record s { disk = update s.disk blockno (λ i. s.mem (vpn va * 1024 + i)) }

unfoldable pub dirty_block : ℕ → M (Result (Unit {0}))
dirty_block blockno s =
    let va = disk_addr blockno in
    if not (va_is_mapped va s)
    then ok (failure e_not_found) s
    else if va_is_dirty va s
    then ok (success tt) s
    else ok (success tt) (record s { dirty = update s.dirty (vpn va) true })

unfoldable pub write_block : ℕ → M (Unit {0})
write_block blockno s = elim (block_is_mapped blockno s) [
  | none ↦ panic
  | some va ↦ ide_write blockno va s
]

-- The bit of a block, where `bitmap` is not `NULL`, in the word of the bitmap that it is in.
abbrev pub bitmap_word : ℕ → Server → ℕ
bitmap_word blockno s = s.bitmap + 4 * (blockno / 32)

unfoldable pub marked_free : ℕ → Server → Bool
marked_free blockno s = bit (s.mem (bitmap_word blockno s / 4)) (blockno % 32)

unfoldable pub past_end : ℕ → Server → Bool
past_end blockno s = leb (s.mem (s_nblocks s.super / 4)) blockno

unfoldable pub block_is_free : ℕ → Server → Bool
block_is_free blockno s =
    if s.super == 0 || past_end blockno s then false else marked_free blockno s

-- The address of the block in memory, which goes to `*blk`, and whether it was not in the cache,
-- which goes to `*isnew`; the callers that fail do not look at the latter.
unfoldable pub read_block : ℕ → M (Result (ℕ × Bool))
read_block blockno = do
  s ← get (λ s. s)
  panic_when (not (s.super == 0) && past_end blockno s)
  panic_when (not (s.bitmap == 0) && block_is_free blockno s)
  let va = disk_addr blockno
  if va_is_mapped va s
      then pure (success (va, false))
      else (try (syscall_mem_alloc va) λ _. ide_read blockno va >> pure (success (va, true)))

unfoldable pub map_block : ℕ → M (Result (Unit {0}))
map_block blockno s =
    if va_is_mapped (disk_addr blockno) s
    then ok (success tt) s
    else syscall_mem_alloc (disk_addr blockno) s

unfoldable pub unmap_block : ℕ → M (Unit {0})
unmap_block blockno s = elim (block_is_mapped blockno s) [
  | none ↦ ok tt s
  | some va ↦
      let written =
        if not (block_is_free blockno s) && block_is_dirty blockno s
        then write_block blockno
        else pure tt in
      (written >> syscall_mem_unmap va >> λ t. panic_when (va_is_mapped (disk_addr blockno) t) t) s
]

unfoldable pub free_block : ℕ → M (Unit {0})
free_block blockno s =
    if blockno == 0 || s.super == 0 || past_end blockno s
    then ok tt s
    else if s.bitmap == 0
    then null_deref
    else store (bitmap_word blockno s) (set_bit (s.mem (bitmap_word blockno s / 4)) (blockno % 32))
        s

-- Take the block out of the bitmap and write that block of the bitmap to the disk.
unfoldable pub take_block : ℕ → M (Result ℕ)
take_block blockno s =
    (store (bitmap_word blockno s) (clear_bit (s.mem (bitmap_word blockno s / 4)) (blockno % 32))
        >> write_block (blockno / block_size_bit + 2)
        >> pure (success blockno))
      s

-- The scan from `blockno` on over at most `n` blocks.
unfoldable pub scan_blocks : ℕ → ℕ → M (Result ℕ)
scan_blocks zero blockno s = ok (failure e_no_disk) s
scan_blocks (suc n) blockno s =
    let rest = scan_blocks n (blockno + 1) s in
    if s.bitmap == 0
    then null_deref
    else if marked_free blockno s
    then take_block blockno s
    else rest

-- The loop runs over the blocks from 3 to `super->s_nblocks - 1`.
unfoldable pub alloc_block_num : M (Result ℕ)
alloc_block_num s =
    if s.super == 0 then null_deref else scan_blocks (s.mem (s_nblocks s.super / 4) - 3) 3 s

-- `free_block(bno); return r;` where the block cannot be mapped.
unfoldable pub map_or_free : ℕ → Result (Unit {0}) → M (Result ℕ)
map_or_free bno (success _) = pure (success bno)
map_or_free bno (failure e) = free_block bno >> pure (failure e)

unfoldable pub alloc_block : M (Result ℕ)
alloc_block = try alloc_block_num λ bno. map_block bno >>= map_or_free bno

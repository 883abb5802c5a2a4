-- ===== src/Fs/Start.antt =====
-- `fs_init` of fs/fs.c and what it calls.
use buaa_mos_with_swap.Prelude.{
  Bool, ℕ, zero, suc, ◌+◌, ◌*◌, ◌/◌, ◌%◌, not, List, [], ◌∷◌, ltb, ◌==◌, if◌then◌else◌,
}
use buaa_mos_with_swap.Fs.{
  panic, null_deref, Result, success, failure, M, pure, ◌>>=◌, ◌>>◌, get, modify, panic_when, load,
  block_size, block_size_bit, diskmax, fs_magic, s_magic, s_nblocks,
}
use buaa_mos_with_swap.Fs.Cache.{
  disk_addr, vpn, va_is_mapped, block_is_free, syscall_mem_unmap, read_block, write_block,
}
use buaa_mos_with_swap.Fs.Dirs.{strcpy, name_is}

-- The address that `read_block` gave; an error is a panic.
unfoldable pub must_read : Result (ℕ × Bool) → M ℕ
must_read (success blk) = pure blk.0
must_read (failure e) = λ s. panic

unfoldable pub read_super : M (Unit {0})
read_super = do
  blk ← read_block 1 >>= must_read
  modify λ s. record s { super = blk }
  magic ← load (s_magic blk)
  panic_when (not (magic == fs_magic))
  nblocks ← load (s_nblocks blk)
  panic_when (ltb (diskmax / block_size) nblocks)

unfoldable pub read_blocks : ℕ → ℕ → M (Unit {0})
read_blocks zero i = pure tt
read_blocks (suc n) i = read_block (i + 2) >> read_blocks n (i + 1)

-- `user_assert(!block_is_free(i))` for the `n` blocks from `i` on.
unfoldable pub assert_used : ℕ → ℕ → M (Unit {0})
assert_used zero i = pure tt
assert_used (suc n) i = get (block_is_free i) >>= panic_when >> assert_used n (i + 1)

unfoldable pub read_bitmap : M (Unit {0})
read_bitmap s =
    if s.super == 0
    then null_deref
    else (do
      nblocks ← load (s_nblocks s.super)
      let nbitmap = nblocks / block_size_bit + 1
      read_blocks nbitmap 0
      modify (λ t. record t { bitmap = disk_addr 2 })
      assert_used 2 0
      assert_used nbitmap 2)
        s

-- `memcpy` of a whole page.
unfoldable pub copy_page : ℕ → ℕ → M (Unit {0})
copy_page dst src = modify λ s. record s {
  mem = λ a. if a / 1024 == vpn dst then s.mem (vpn src * 1024 + a % 1024) else s.mem a;
}

-- The text "OOPS!" and a newline.
abbrev pub oops : List ℕ
oops = b'O' ∷ b'O' ∷ b'P' ∷ b'S' ∷ b'!' ∷ 10 ∷ []

unfoldable pub check_write_block : M (Unit {0})
check_write_block = do
  modify λ s. record s { super = 0 }
  read_block 0 >>= must_read
  copy_page (disk_addr 0) (disk_addr 1)
  strcpy (disk_addr 1) oops
  write_block 1
  get (λ s. not (va_is_mapped (disk_addr 1) s)) >>= panic_when
  syscall_mem_unmap (disk_addr 1)
  get (va_is_mapped (disk_addr 1)) >>= panic_when
  read_block 1 >>= must_read
  get (λ s. not (name_is oops (disk_addr 1) s)) >>= panic_when
  copy_page (disk_addr 1) (disk_addr 0)
  write_block 1
  modify λ s. record s { super = disk_addr 1 }

unfoldable pub fs_init : M (Unit {0})
fs_init = read_super >> check_write_block >> read_bitmap

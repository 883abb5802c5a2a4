-- ===== src/Fs/Cache/Mounted.antt =====
-- A mounted file system of fs/fs.c, and what taking a block out of its bitmap changes.
use buaa_mos_with_swap.Prelude.{
  ℕ, ◌+◌, ◌*◌, ◌/◌, ◌%◌, ◌<◌, ◌≤◌, ◌≡◌, ◌≢◌, refl, ap, true, false, ◌==◌, if◌then◌else◌, update,
  arith, ==_self, clear_bit, bit-clear_bit,
}
use buaa_mos_with_swap.Mmu.{page_size}
use buaa_mos_with_swap.Fs.{
  Server, Outcome, ok, success, pure, block_size, block_size_bit, diskmap, diskmax, s_nblocks,
  and_then,
}
use buaa_mos_with_swap.Fs.Cache.{
  disk_addr, vpn, va_is_mapped, block_is_mapped, ide_write, write_block, bitmap_word, marked_free,
  take_block,
}

-- `super->s_nblocks`.
unfoldable pub nblocks : Server → ℕ
nblocks s = s.mem (s_nblocks s.super / 4)

-- After `fs_init`: the superblock and the bitmap are in the cache, and the disk is not too large.
pub record Mounted (s : Server) : Type 0 where
  pub super : s.super ≡ diskmap + block_size
  pub bitmap : s.bitmap ≡ diskmap + 2 * block_size
  pub size : nblocks s ≤ diskmax / block_size
  pub cached : (k : ℕ) → k ≤ nblocks s / block_size_bit → va_is_mapped (disk_addr (k + 2)) s ≡ true

-- What taking a block changes.
pub record Taken (s : Server) (bno : ℕ) (t : Server) : Type 0 where
  pub free : marked_free bno s ≡ true
  pub marks : (k : ℕ) → marked_free k t ≡ (if bno == k then false else marked_free k s)
  pub memory : (a : ℕ) → (bitmap_word bno s / 4 == a) ≡ false → t.mem a ≡ s.mem a
  pub written :
      (i : ℕ)
      → i < 1024
      → t.disk (bno / block_size_bit + 2) i
        ≡ t.mem ((diskmap + (bno / block_size_bit + 2) * block_size) / 4 + i)
  pub kept : (b : ℕ) → b ≢ bno / block_size_bit + 2 → t.disk b ≡ s.disk b
  pub mapped : t.mapped ≡ s.mapped
  pub mounted : Mounted t
  pub same_size : nblocks t ≡ nblocks s

unfoldable pub taken : ℕ → Server → Server
taken bno s =
    let w = bitmap_word bno s / 4 in
    let mem = update s.mem w (clear_bit (s.mem w) (bno % 32)) in
    let b = bno / block_size_bit + 2 in
    record s { mem = mem; disk = update s.disk b (λ i. mem (vpn (disk_addr b) * 1024 + i)) }

pub write_block_eq :
    (b : ℕ) (s : Server)
    → va_is_mapped (disk_addr b) s ≡ true
    → write_block b s ≡ ide_write b (disk_addr b) s
unfolding write_block block_is_mapped
write_block_eq b s h = rw (h, write_block) refl

pub take_block_eq :
    (bno : ℕ) (s : Server)
    → va_is_mapped (disk_addr (bno / block_size_bit + 2)) s ≡ true
    → take_block bno s ≡ ok (success bno) (taken bno s)
unfolding take_block taken va_is_mapped ide_write
take_block_eq bno s h =
    let w = bitmap_word bno s / 4 in
    let marked = record s { mem = update s.mem w (clear_bit (s.mem w) (bno % 32)) } in
    ap (λ (o : Outcome (Unit {0})). and_then o (λ _. pure (success bno)))
      (write_block_eq (bno / block_size_bit + 2) marked h)

-- The bitmap's words follow its first, and the pages of the cache follow the disk's order.
pub mark_word :
    (k : ℕ) (s : Server) → Mounted s → bitmap_word k s / 4 ≡ (diskmap + 2 * block_size) / 4 + k / 32
mark_word k s m = omega (arith, m.bitmap)

pub page_of : (b : ℕ) → b ≤ diskmax / block_size + 8 → vpn (disk_addr b) ≡ diskmap / page_size + b
unfolding disk_addr
page_of b l = omega (arith, l)

pub marked_free-clear :
    (bno k : ℕ) (s t : Server)
    → t.bitmap ≡ s.bitmap
    → Mounted s
    → t.mem
      ≡ update s.mem (bitmap_word bno s / 4) (clear_bit (s.mem (bitmap_word bno s / 4)) (bno % 32))
    → marked_free k t ≡ (if bno == k then false else marked_free k s)
unfolding marked_free
marked_free-clear bno k s t same m e =
    let here = mark_word bno s m in
    let there = mark_word k s m in
    rw (same, e, here, there)
      (grind (
        arith,
        bit-clear_bit (s.mem ((diskmap + 2 * block_size) / 4 + bno / 32)) (bno % 32) (k % 32),
      ))

pub taken-Taken :
    (bno : ℕ) (s : Server)
    → Mounted s
    → bno < nblocks s
    → marked_free bno s ≡ true
    → Taken s bno (taken bno s)
unfolding taken va_is_mapped nblocks
taken-Taken bno s m l f =
    let same : nblocks (taken bno s) ≡ nblocks s = grind (arith, m.super, mark_word bno s m) in
    record {
      free = f;
      marks = λ k. marked_free-clear bno k s (taken bno s) refl m refl;
      memory = λ a n. rw n refl;
      written = λ i b.
          let at : (diskmap + (bno / block_size_bit + 2) * block_size) / 4 + i
              ≡ vpn (disk_addr (bno / block_size_bit + 2)) * 1024 + i =
            omega (arith, page_of (bno / block_size_bit + 2) (omega (arith, l, m.size))) in
          rw (at, ==_self (bno / block_size_bit + 2)) refl;
      kept = λ b n. ground (arith, n);
      mapped = refl;
      mounted = record {
        super = m.super;
        bitmap = m.bitmap;
        size = omega (arith, same, m.size);
        cached = λ k h. m.cached k (omega (arith, h, same));
      };
      same_size = same;
    }

-- ===== src/Strings.antt =====
-- `memcpy` and `memset` of lib/string.c. Memory is bytes by address here, and a word access is its
-- four bytes, low byte first. Addresses do not wrap: `dst + n` fits in a word.
pub mod Blocks
use buaa_mos_with_swap.Prelude.{
  ℕ, zero, suc, ◌+◌, ◌*◌, ◌/◌, ◌%◌, ◌^◌, Bool, true, false, not, ◌==◌, if◌then◌else◌, update,
  or_bits,
}

abbrev pub Bytes : Type 0
Bytes = ℕ → ℕ

-- `*(uint32_t *)a`, read and written.
unfoldable pub load_word : Bytes → ℕ → ℕ
load_word m a = m a + 2 ^ 8 * m (a + 1) + 2 ^ 16 * m (a + 2) + 2 ^ 24 * m (a + 3)

unfoldable pub store_word : Bytes → ℕ → ℕ → Bytes
store_word m a w =
    update
      (update (update (update m a (w % 256)) (a + 1) (w / 2 ^ 8 % 256)) (a + 2) (w / 2 ^ 16 % 256))
      (a + 3) (w / 2 ^ 24 % 256)

-- The last loop of `memset`; the first argument of each loop is `max - dst`.
unfoldable pub set_bytes : ℕ → ℕ → ℕ → Bytes → Bytes
set_bytes zero dst byte m = m
set_bytes (suc n) dst byte m = set_bytes n (dst + 1) byte (update m dst byte)

unfoldable pub four_times : ℕ → ℕ
four_times byte =
    or_bits 32 (or_bits 32 (or_bits 32 byte (byte * 2 ^ 8)) (byte * 2 ^ 16)) (byte * 2 ^ 24)

-- `while (dst + 4 <= max)`, and the last loop.
unfoldable pub set_words : ℕ → ℕ → ℕ → Bytes → Bytes
set_words (suc (suc (suc (suc n)))) dst byte m =
    set_words n (dst + 4) byte (store_word m dst (four_times byte))
set_words n dst byte m = set_bytes n dst byte m

-- `while ((dst & 3) && dst < max)`, and the other loops.
unfoldable pub set_aligned : ℕ → ℕ → ℕ → Bytes → Bytes
set_aligned zero dst byte m = set_words zero dst byte m
set_aligned (suc n) dst byte m =
    let rest = set_aligned n (dst + 1) byte (update m dst byte) in
    if dst % 4 == 0 then set_words (suc n) dst byte m else rest

unfoldable pub memset : ℕ → ℕ → ℕ → Bytes → Bytes
memset dst c n m = set_aligned n dst (c % 256) m

unfoldable pub copy_bytes : ℕ → ℕ → ℕ → Bytes → Bytes
copy_bytes zero dst src m = m
copy_bytes (suc n) dst src m = copy_bytes n (dst + 1) (src + 1) (update m dst (m src))

unfoldable pub copy_words : ℕ → ℕ → ℕ → Bytes → Bytes
copy_words (suc (suc (suc (suc n)))) dst src m =
    copy_words n (dst + 4) (src + 4) (store_word m dst (load_word m src))
copy_words n dst src m = copy_bytes n dst src m

unfoldable pub copy_aligned : ℕ → ℕ → ℕ → Bytes → Bytes
copy_aligned zero dst src m = copy_words zero dst src m
copy_aligned (suc n) dst src m =
    let rest = copy_aligned n (dst + 1) (src + 1) (update m dst (m src)) in
    if dst % 4 == 0 then copy_words (suc n) dst src m else rest

unfoldable pub memcpy : ℕ → ℕ → ℕ → Bytes → Bytes
memcpy dst src n m = if src % 4 == dst % 4 then copy_aligned n dst src m else copy_bytes n dst src m

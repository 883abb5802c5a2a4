-- ===== src/Strings/Blocks.antt =====
-- The word loops of lib/string.c against plain bytes.
use buaa_mos_with_swap.Prelude.{
  ℕ, zero, suc, ◌+◌, ◌-◌, ◌*◌, ◌/◌, ◌%◌, ◌^◌, ◌<◌, ◌≤◌, ◌≡◌, refl, ◌∙◌, ◌⊎◌, ◌&&◌, arith, leb, ltb,
  ◌==◌, if◌then◌else◌, update, or_bits, or_bits-disjoint, Bool-cases, inl, inr,
}
use buaa_mos_with_swap.Strings.{
  Bytes, load_word, store_word, set_bytes, four_times, set_words, set_aligned, memset, copy_bytes,
  copy_words, copy_aligned, memcpy,
}

-- The block of `n` bytes at `dst` holds `byte`, the rest of `m` is as it was.
abbrev filled : ℕ → ℕ → ℕ → Bytes → Bytes
filled n dst byte m a = if leb dst a && ltb a (dst + n) then byte else m a

set_bytes-filled :
    (n dst byte : ℕ) (m : Bytes) (a : ℕ) → set_bytes n dst byte m a ≡ filled n dst byte m a
unfolding set_bytes
set_bytes-filled zero dst byte m a = ground arith
set_bytes-filled (suc n) dst byte m a =
    set_bytes-filled n (dst + 1) byte (update m dst byte) a ∙ ground arith

four_times_lem :
    (byte : ℕ) → byte < 256 → four_times byte ≡ byte + 2 ^ 8 * byte + 2 ^ 16 * byte + 2 ^ 24 * byte
unfolding four_times
four_times_lem byte h =
    let two : or_bits 32 byte (byte * 2 ^ 8) ≡ byte * 2 ^ 8 + byte =
      or_bits-disjoint 8 24 32 byte byte refl (omega arith) (omega arith) in
    let three : or_bits 32 (byte * 2 ^ 8 + byte) (byte * 2 ^ 16)
        ≡ byte * 2 ^ 16 + (byte * 2 ^ 8 + byte) =
      or_bits-disjoint 16 16 32 (byte * 2 ^ 8 + byte) byte refl (omega arith) (omega arith) in
    rw (two, three)
      (or_bits-disjoint 24 8 32 (byte * 2 ^ 16 + (byte * 2 ^ 8 + byte)) byte refl (omega arith)
          (omega arith)
        ∙ omega arith)

store_word-four_times :
    (byte dst : ℕ) (m : Bytes) (a : ℕ)
    → byte < 256
    → store_word m dst (four_times byte) a ≡ filled 4 dst byte m a
unfolding store_word
store_word-four_times byte dst m a h =
    let w = byte + 2 ^ 8 * byte + 2 ^ 16 * byte + 2 ^ 24 * byte in
    let first : w % 256 ≡ byte = omega arith in
    let second : w / 2 ^ 8 % 256 ≡ byte = omega arith in
    let third : w / 2 ^ 16 % 256 ≡ byte = omega arith in
    let fourth : w / 2 ^ 24 % 256 ≡ byte = omega arith in
    rw (four_times_lem byte h) (rw (first, second, third, fourth) (ground arith))

set_words-filled :
    (n dst byte : ℕ) (m : Bytes) (a : ℕ)
    → byte < 256
    → set_words n dst byte m a ≡ filled n dst byte m a
unfolding set_words
set_words-filled (suc (suc (suc (suc n)))) dst byte m a h =
    set_words-filled n (dst + 4) byte (store_word m dst (four_times byte)) a h
    ∙ ground (arith, store_word-four_times byte dst m a h)
set_words-filled zero dst byte m a h = set_bytes-filled 0 dst byte m a
set_words-filled (suc zero) dst byte m a h = set_bytes-filled 1 dst byte m a
set_words-filled (suc (suc zero)) dst byte m a h = set_bytes-filled 2 dst byte m a
set_words-filled (suc (suc (suc zero))) dst byte m a h = set_bytes-filled 3 dst byte m a

set_aligned-filled :
    (n dst byte : ℕ) (m : Bytes) (a : ℕ)
    → byte < 256
    → set_aligned n dst byte m a ≡ filled n dst byte m a
unfolding set_aligned
set_aligned-filled zero dst byte m a h = set_words-filled 0 dst byte m a h
set_aligned-filled (suc n) dst byte m a h = ground (
  arith,
  set_words-filled (suc n) dst byte m a h,
  set_aligned-filled n (dst + 1) byte (update m dst byte) a h,
)

-- `memset`, which writes whole words where it can, sets exactly the `n` bytes from `dst` on to the
-- low byte of `c`.
pub memset_lem :
    (dst c n : ℕ) (m : Bytes) (a : ℕ)
    → memset dst c n m a ≡ (if leb dst a && ltb a (dst + n) then c % 256 else m a)
unfolding memset
memset_lem dst c n m a = set_aligned-filled n dst (c % 256) m a (omega arith)

-- The block of `n` bytes at `dst` is that at `src`, the rest of `m` is as it was.
abbrev copied : ℕ → ℕ → ℕ → Bytes → Bytes
copied n dst src m a = if leb dst a && ltb a (dst + n) then m (src + (a - dst)) else m a

abbrev pub Disjoint : ℕ → ℕ → ℕ → Type 0
Disjoint n dst src = (dst + n ≤ src) ⊎ (src + n ≤ dst)

abbrev pub AreBytes : Bytes → Type 0
AreBytes m = (a : ℕ) → m a < 256

copy_bytes-copied :
    (n dst src : ℕ) (m : Bytes) (a : ℕ)
    → Disjoint n dst src
    → copy_bytes n dst src m a ≡ copied n dst src m a
unfolding copy_bytes
copy_bytes-copied zero dst src m a d = ground arith
copy_bytes-copied (suc n) dst src m a d =
    copy_bytes-copied n (dst + 1) (src + 1) (update m dst (m src)) a (ground arith) ∙ grind arith

store_word-load_word :
    (dst src : ℕ) (m : Bytes) (a : ℕ)
    → AreBytes m
    → store_word m dst (load_word m src) a ≡ copied 4 dst src m a
unfolding store_word load_word
store_word-load_word dst src m a h =
    let b0 = h src in
    let b1 = h (src + 1) in
    let b2 = h (src + 2) in
    let b3 = h (src + 3) in
    let w = m src + 2 ^ 8 * m (src + 1) + 2 ^ 16 * m (src + 2) + 2 ^ 24 * m (src + 3) in
    let first : w % 256 ≡ m src = omega arith in
    let second : w / 2 ^ 8 % 256 ≡ m (src + 1) = omega arith in
    let third : w / 2 ^ 16 % 256 ≡ m (src + 2) = omega arith in
    let fourth : w / 2 ^ 24 % 256 ≡ m (src + 3) = omega arith in
    rw (first, second, third, fourth) (grind arith)

store_word-AreBytes :
    (dst src : ℕ) (m : Bytes) → AreBytes m → AreBytes (store_word m dst (load_word m src))
store_word-AreBytes dst src m h a =
    ground (arith, store_word-load_word dst src m a h, h a, h (src + (a - dst)))

copy_words-copied :
    (n dst src : ℕ) (m : Bytes) (a : ℕ)
    → AreBytes m
    → Disjoint n dst src
    → copy_words n dst src m a ≡ copied n dst src m a
unfolding copy_words
copy_words-copied (suc (suc (suc (suc n)))) dst src m a h d =
    copy_words-copied n (dst + 4) (src + 4) (store_word m dst (load_word m src)) a
      (store_word-AreBytes dst src m h) (ground arith)
    ∙ grind (
      arith,
      store_word-load_word dst src m a h,
      store_word-load_word dst src m (src + 4 + (a - (dst + 4))) h,
    )
copy_words-copied zero dst src m a h d = copy_bytes-copied 0 dst src m a d
copy_words-copied (suc zero) dst src m a h d = copy_bytes-copied 1 dst src m a d
copy_words-copied (suc (suc zero)) dst src m a h d = copy_bytes-copied 2 dst src m a d
copy_words-copied (suc (suc (suc zero))) dst src m a h d = copy_bytes-copied 3 dst src m a d

copy_aligned-copied :
    (n dst src : ℕ) (m : Bytes) (a : ℕ)
    → AreBytes m
    → Disjoint n dst src
    → copy_aligned n dst src m a ≡ copied n dst src m a
unfolding copy_aligned
copy_aligned-copied zero dst src m a h d = copy_words-copied 0 dst src m a h d
copy_aligned-copied (suc n) dst src m a h d = elim (Bool-cases (dst % 4 == 0)) [
  | inl aligned ↦ rw aligned (copy_words-copied (suc n) dst src m a h d)
  | inr odd ↦ rw odd (
      copy_aligned-copied n (dst + 1) (src + 1) (update m dst (m src)) a
        (λ k. ground (arith, h k, h src)) (ground arith)
      ∙ grind arith)
]

-- Where the two blocks do not overlap, `memcpy`, which copies whole words where both ends are
-- aligned alike, copies exactly the `n` bytes at `src` to `dst`.
pub memcpy_lem :
    (dst src n : ℕ) (m : Bytes) (a : ℕ)
    → AreBytes m
    → Disjoint n dst src
    → memcpy dst src n m a ≡ (if leb dst a && ltb a (dst + n) then m (src + (a - dst)) else m a)
unfolding memcpy
memcpy_lem dst src n m a h d =
    ground (arith, copy_aligned-copied n dst src m a h d, copy_bytes-copied n dst src m a d)

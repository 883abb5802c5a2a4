-- ===== src/Fsformat/Bitmap.antt =====
-- The bitmap that `flush_bitmap` of tools/fsformat.c leaves, as fs/fs.c reads it.
use buaa_mos_with_swap.Prelude.{
  ℕ, zero, suc, ◌+◌, ◌*◌, ◌/◌, ◌%◌, ◌^◌, ◌<◌, ◌≤◌, ◌≡◌, ◌⊎◌, not, refl, ap, sym, ◌∙◌, arith, Bool,
  true, false, ◌&&◌, leb, ltb, ◌==◌, if◌then◌else◌, update, bit, clear_bit, bit-clear_bit,
  Bool-cases, inl, inr,
}
use native.Mathlib.Nat.{pow-suc}
use buaa_mos_with_swap.Fs.{Server, block_size_bit, nindirect}
use buaa_mos_with_swap.Fs.Cache.{marked_free}
use buaa_mos_with_swap.Fsformat.{
  Image, nblock, type_bitmap, fill_bitmap, clear_from, bound_bitmap, init_super, init_disk,
  flush_bits, flush_bitmap, next_block, built, overrun,
}

-- The bit of a block in the bitmap.
unfoldable pub bitmap_bit : ℕ → Image → Bool
bitmap_bit i s = bit (s.words (2 + i / block_size_bit) (i % block_size_bit / 32)) (i % 32)

unfoldable flush_bit : ℕ → Image → Image
flush_bit i s =
    let b = 2 + i / block_size_bit in
    let w = i % block_size_bit / 32 in
    record s { words = update s.words b (update (s.words b) w (clear_bit (s.words b w) (i % 32))) }

bitmap_bit-flush_bit :
    (i j : ℕ) (s : Image)
    → bitmap_bit j (flush_bit i s) ≡ (if i == j then false else bitmap_bit j s)
unfolding bitmap_bit flush_bit
bitmap_bit-flush_bit i j s = ground (
  arith,
  bit-clear_bit (s.words (2 + i / block_size_bit) (i % block_size_bit / 32)) (i % 32) (j % 32),
)

bitmap_bit-flush_bits :
    (n i j : ℕ) (s : Image)
    → bitmap_bit j (flush_bits n i s) ≡ (if leb i j && ltb j (i + n) then false else bitmap_bit j s)
unfolding flush_bits flush_bit
bitmap_bit-flush_bits zero i j s = ground arith
bitmap_bit-flush_bits (suc n) i j s =
    let rest = bitmap_bit-flush_bits n (i + 1) j (flush_bit i s) in
    rest ∙ ground (arith, bitmap_bit-flush_bit i j s)

bit-ones : (w k x : ℕ) → x + 1 ≡ 2 ^ w → k < w → bit x k ≡ true
unfolding bit
bit-ones zero k x e h = absurd (omega (arith, h))
bit-ones (suc w) zero x e h =
    let odd : x % 2 ≡ 1 = omega (arith, e, pow-suc 2 w) in ap (λ y. y == 1) odd
bit-ones (suc w) (suc k) x e h =
    bit-ones w k (x / 2) (omega (arith, e, pow-suc 2 w)) (omega (arith, h))

bit-zero : (k : ℕ) → bit 0 k ≡ false
unfolding bit
bit-zero zero = refl
bit-zero (suc k) = bit-zero k

initial_bit :
    (i x : ℕ)
    → i < block_size_bit
    → bit (if ltb (i / 32) 32 then 0xffffffff else if ltb (i / 32) nindirect then 0 else x) (i % 32)
      ≡ ltb i nblock
initial_bit i x h = elim (Bool-cases (ltb (i / 32) 32)) [
  | inl inside ↦
      rw inside (bit-ones 32 (i % 32) 0xffffffff refl (omega arith) ∙ ground (arith, inside))
  | inr outside ↦
      let zeros : ltb (i / 32) nindirect ≡ true = ground (arith, h) in
      rw (outside, zeros) (bit-zero (i % 32) ∙ ground (arith, outside))
]

-- The words of the bitmap of an empty image.
initial_word :
    (j : ℕ) (s : Image)
    → (init_disk s).words 2 j
      ≡ (if ltb j 32 then 0xffffffff else if ltb j nindirect then 0 else s.words 2 j)
unfolding init_disk init_super bound_bitmap fill_bitmap type_bitmap clear_from
initial_word j s = ground arith

-- The first bitmap block has the bits of the blocks below `block_size_bit`.
bitmap_bit-first :
    (i : ℕ) (s : Image) → i < block_size_bit → bitmap_bit i s ≡ bit (s.words 2 (i / 32)) (i % 32)
unfolding bitmap_bit
bitmap_bit-first i s h =
    let b : i / block_size_bit ≡ 0 = omega (arith, h) in
    let w : i % block_size_bit / 32 ≡ i / 32 = omega (arith, h) in
    ap (λ q. bit (s.words (2 + q) (i % block_size_bit / 32)) (i % 32)) b
    ∙ ap (λ q. bit (s.words 2 q) (i % 32)) w

bitmap_bit-init_disk :
    (i : ℕ) (s : Image) → i < block_size_bit → bitmap_bit i (init_disk s) ≡ ltb i nblock
bitmap_bit-init_disk i s h =
    bitmap_bit-first i (init_disk s) h
    ∙ ap (λ x. bit x (i % 32)) (initial_word (i / 32) s)
    ∙ initial_bit i (s.words 2 (i / 32)) h

-- Either there is no block left, or `next_block` gives the next one, and flushing then leaves it, and
-- no other, not free that was free before.
abbrev pub Takes : ℕ → ℕ → Image → Type 0
Takes type i t =
    ((next_block type t ≡ overrun) × (nblock ≤ t.nextbno))
    ⊎ ((u : Image) × (next_block type t ≡ built t.nextbno u)
        × (bitmap_bit i (flush_bitmap u) ≡ (bitmap_bit i (flush_bitmap t) && not (i == t.nextbno))))

-- A bitmap that is flushed later misses the blocks below `nextbno`.
bitmap_bit-flush_bitmap :
    (i : ℕ) (t : Image)
    → bitmap_bit i (flush_bitmap t) ≡ (if ltb i t.nextbno then false else bitmap_bit i t)
unfolding flush_bitmap
bitmap_bit-flush_bitmap i t = bitmap_bit-flush_bits t.nextbno 0 i t ∙ ground arith

bitmap_bit_words : (i : ℕ) (u t : Image) → u.words ≡ t.words → bitmap_bit i u ≡ bitmap_bit i t
unfolding bitmap_bit
bitmap_bit_words i u t e = rw e refl

next_block-Takes : (type i : ℕ) (t : Image) → Takes type i t
unfolding next_block
next_block-Takes type i t = elim (Bool-cases (ltb t.nextbno nblock)) [
  | inr past ↦ inl (rw past refl, ground arith)
  | inl room ↦
      let u = record t { type = update t.type t.nextbno type; nextbno = t.nextbno + 1 } in
      let same : bitmap_bit i u ≡ bitmap_bit i t = bitmap_bit_words i u t refl in
      inr (
        u,
        rw room refl,
        bitmap_bit-flush_bitmap i u ∙ ground (arith, same, bitmap_bit-flush_bitmap i t),
      )
]

-- The bitmap that `flush_bitmap` leaves, where nothing else changed it since `init_disk`: as
-- `block_is_free` of fs/fs.c reads it from the block that it has in memory, a block is free exactly
-- if its number is at least `nextbno` and below 1024. Had `next_block` been called once more before,
-- it would have run past the last block, or the block that it gives would be the only one that the
-- bitmap of the image shows as free no longer.
pub marked_free-flush_bitmap :
    (start t : Image) (s : Server) (i type : ℕ)
    → ((w : ℕ) → t.words 2 w ≡ (init_disk start).words 2 w)
    → s.bitmap % 4 ≡ 0
    → ((w : ℕ) → w < nindirect → s.mem (s.bitmap / 4 + w) ≡ (flush_bitmap t).words 2 w)
    → i < block_size_bit
    → (marked_free i s ≡ (leb t.nextbno i && ltb i nblock)) × Takes type i t
unfolding marked_free flush_bitmap
marked_free-flush_bitmap start t s i type same aligned loaded h =
    let word : (s.bitmap + 4 * (i / 32)) / 4 ≡ s.bitmap / 4 + i / 32 = omega (arith, aligned) in
    let bit_of = λ (x : ℕ). bit x (i % 32) in
    let before =
      bitmap_bit-first i t h
      ∙ ap bit_of (same (i / 32))
      ∙ sym (bitmap_bit-first i (init_disk start) h)
      ∙ bitmap_bit-init_disk i start h in
    (
      ap (λ a. bit_of (s.mem a)) word
          ∙ ap bit_of (loaded (i / 32) (omega (arith, h)))
          ∙ sym (bitmap_bit-first i (flush_bitmap t) h)
          ∙ bitmap_bit-flush_bits t.nextbno 0 i t
          ∙ ap (λ b. if leb 0 i && ltb i (0 + t.nextbno) then false else b) before
          ∙ ground arith,
      next_block-Takes type i t,
    )

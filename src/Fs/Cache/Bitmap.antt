-- ===== src/Fs/Cache/Bitmap.antt =====
-- The bitmap of the disk in fs/fs.c: which block is taken, and what that writes.
use buaa_mos_with_swap.Prelude.{
  ℕ, zero, suc, ◌+◌, ◌-◌, ◌*◌, ◌/◌, ◌%◌, ◌<◌, ◌≤◌, ◌≡◌, ◌⊎◌, inl, inr, refl, true, false, leb, ◌==◌,
  if◌then◌else◌, update, arith, Bool-cases, subst, set_bit, bit-set_bit,
}
use buaa_mos_with_swap.Fs.{
  Server, ok, success, failure, block_size, block_size_bit, diskmap, e_no_disk,
}
use buaa_mos_with_swap.Fs.Cache.{
  bitmap_word, marked_free, past_end, free_block, scan_blocks, alloc_block_num,
}
use buaa_mos_with_swap.Fs.Cache.Mounted.{
  nblocks, Mounted, Taken, taken, take_block_eq, mark_word, taken-Taken,
}

-- The scan from `i` on.
scan_cases :
    (n i : ℕ) (s : Server)
    → Mounted s
    → i + n ≤ nblocks s
    → ((scan_blocks n i s ≡ ok (failure e_no_disk) s)
        × ((k : ℕ) → i ≤ k → k < i + n → marked_free k s ≡ false))
      ⊎ ((bno : ℕ) × (t : Server) × (scan_blocks n i s ≡ ok (success bno) t)
          × Taken s bno t
          × (i ≤ bno)
          × (bno < i + n)
          × ((k : ℕ) → i ≤ k → k < bno → marked_free k s ≡ false))
unfolding scan_blocks
scan_cases zero i s m l = inl (refl, λ k a b. absurd (omega (arith, a, b)))
scan_cases (suc n) i s m l =
    let set : (s.bitmap == 0) ≡ false = grind (arith, m.bitmap) in
    elim (Bool-cases (marked_free i s)) [
      | inl free ↦ inr (
        i,
        taken i s,
        rw (set, free)
            (take_block_eq i s (m.cached (i / block_size_bit) (omega (arith, l, m.size)))),
        taken-Taken i s m (omega (arith, l)) free,
        omega arith,
        omega arith,
        λ k a b. absurd (omega (arith, a, b)),
      )
      | inr used ↦ elim (scan_cases n (i + 1) s m (omega (arith, l))) [
        | inl (e, none_free) ↦ inl (rw (set, used) e, λ k a b. ground (arith, none_free k, used))
        | inr (bno, t, e, done, above, below, least) ↦ inr (
          bno,
          t,
          rw (set, used) e,
          done,
          omega (arith, above),
          omega (arith, below),
          λ k a b. ground (arith, least k, used),
        )
      ]
    ]

-- On a mounted file system `alloc_block_num` either finds no free block, and then no block from 3
-- on is marked free and nothing changes, or it takes the least such block: its mark goes and no
-- other mark changes, the block of the bitmap that holds the mark goes to the disk as it is then
-- in the cache, and no other block of the disk changes.
pub alloc_block_num_cases :
    (s : Server)
    → Mounted s
    → 3 ≤ nblocks s
    → ((alloc_block_num s ≡ ok (failure e_no_disk) s)
        × ((k : ℕ) → 3 ≤ k → k < nblocks s → marked_free k s ≡ false))
      ⊎ ((bno : ℕ) × (t : Server) × (alloc_block_num s ≡ ok (success bno) t)
          × Taken s bno t
          × (3 ≤ bno)
          × (bno < nblocks s)
          × ((k : ℕ) → 3 ≤ k → k < bno → marked_free k s ≡ false))
unfolding alloc_block_num nblocks
alloc_block_num_cases s m l =
    let set : (s.super == 0) ≡ false = grind (arith, m.super) in
    let count : 3 + (nblocks s - 3) ≡ nblocks s = omega (arith, l) in
    elim (scan_cases (nblocks s - 3) 3 s m (omega (arith, l))) [
      | inl (e, none_free) ↦ inl (rw set e, λ k a b. none_free k a (omega (arith, b, count)))
      | inr (bno, t, e, done, above, below, least) ↦
          inr (bno, t, rw set e, done, above, omega (arith, below, count), least)
    ]

marked_free-set :
    (bno k : ℕ) (s t : Server)
    → t.bitmap ≡ s.bitmap
    → Mounted s
    → t.mem
      ≡ update s.mem (bitmap_word bno s / 4) (set_bit (s.mem (bitmap_word bno s / 4)) (bno % 32))
    → marked_free k t ≡ (if bno == k then true else marked_free k s)
unfolding marked_free
marked_free-set bno k s t same m e =
    let here = mark_word bno s m in
    let there = mark_word k s m in
    rw (same, e, here, there)
      (grind (
        arith,
        bit-set_bit (s.mem ((diskmap + 2 * block_size) / 4 + bno / 32)) (bno % 32) (k % 32),
      ))

pub alloc_block_num-Taken :
    (s t : Server) (bno : ℕ)
    → Mounted s
    → 3 ≤ nblocks s
    → alloc_block_num s ≡ ok (success bno) t
    → Taken s bno t × (3 ≤ bno) × (bno < nblocks s)
alloc_block_num-Taken s t bno m l h = elim (alloc_block_num_cases s m l) [
  | inl (e, none_free) ↦ cc
  | inr (b, u, e, done, above, below, least) ↦
      let same : b ≡ bno = cc in
      let state : u ≡ t = cc in
      let again = subst (λ (v : Server). Taken s b v) state done in
      (
        subst (λ (k : ℕ). Taken s k t) same again,
        omega (arith, same, above),
        omega (arith, same, below),
      )
]

-- Freeing a block that was taken restores the marks.
pub free_block-Taken :
    (s t : Server) (bno : ℕ)
    → Taken s bno t
    → 3 ≤ bno
    → bno < nblocks s
    → (u : Server) × (free_block bno t ≡ ok tt u)
      × ((k : ℕ) → marked_free k u ≡ marked_free k s)
      × (u.disk ≡ t.disk)
unfolding free_block past_end nblocks
free_block-Taken s t bno done above below =
    let w = bitmap_word bno t / 4 in
    let u = record t { mem = update t.mem w (set_bit (t.mem w) (bno % 32)) } in
    let valid : (bno == 0) ≡ false = ground (arith, above) in
    let set : (t.super == 0) ≡ false = grind (arith, done.mounted.super) in
    let inside : leb (nblocks t) bno ≡ false = ground (arith, below, done.same_size) in
    let map_set : (t.bitmap == 0) ≡ false = grind (arith, done.mounted.bitmap) in
    (
      u,
      rw (valid, set, inside, map_set) refl,
      λ k.
          rw (marked_free-set bno k t u refl done.mounted refl, done.marks k)
            (ground (arith, done.free)),
      refl,
    )

-- Freeing the block that `alloc_block_num` has just given on a mounted file system marks the same
-- blocks free in the cache as before it; the disk is not written, so there the block stays taken.
pub free_block-alloc_block_num :
    (s t : Server) (bno : ℕ)
    → Mounted s
    → 3 ≤ nblocks s
    → alloc_block_num s ≡ ok (success bno) t
    → (u : Server) × (free_block bno t ≡ ok tt u)
      × ((k : ℕ) → marked_free k u ≡ marked_free k s)
      × (u.disk ≡ t.disk)
free_block-alloc_block_num s t bno m l h =
    let (done, above, below) = alloc_block_num-Taken s t bno m l h in
    free_block-Taken s t bno done above below

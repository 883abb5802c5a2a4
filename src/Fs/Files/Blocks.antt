-- ===== src/Fs/Files/Blocks.antt =====
-- The block pointers of a file in fs/fs.c: what `file_map_block` gives, and what `file_truncate`
-- does to a file with no blocks.
use buaa_mos_with_swap.Prelude.{
  ℕ, zero, suc, ◌+◌, ◌-◌, ◌/◌, ◌<◌, ◌≤◌, ◌≡◌, inl, inr, refl, ap, sym, ◌∙◌, Bool, true, false, ltb,
  ◌==◌, if◌then◌else◌, update, arith, Bool-cases, ==_self, subst,
}
use buaa_mos_with_swap.Fs.{
  Server, Outcome, ok, panic, null_deref, hang, Result, success, failure, pure, ◌>>=◌, ◌>>◌,
  and_then, or_fail, load, store, e_not_found, e_inval, ndirect, nindirect, f_size, f_direct,
  f_indirect,
}
use buaa_mos_with_swap.Fs.Cache.{alloc_block}
use buaa_mos_with_swap.Fs.Cache.Mounted.{nblocks, Mounted}
use buaa_mos_with_swap.Fs.Cache.Bitmap.{alloc_block_num-Taken}
use buaa_mos_with_swap.Fs.Cache.Pages.{alloc_block_cases}
use buaa_mos_with_swap.Fs.Files.{
  need_indirect, file_block_walk, need_block, file_map_block, file_clear_block, panic_on,
  clear_blocks, blocks_of, file_truncate,
}

-- A block number that `alloc_block` gives is not 0.
alloc_block-above :
    (s t : Server) (r : ℕ)
    → Mounted s
    → 3 ≤ nblocks s
    → alloc_block s ≡ ok (success r) t
    → (r == 0) ≡ false
alloc_block-above s t r m l e = elim (alloc_block_cases s m l) [
  | inl full ↦ cc
  | inr (bno, u, took, done, rest) ↦
      let (again, above, below) = alloc_block_num-Taken s u bno m l took in
      elim rest [
        | inl (cached, gave) ↦ let same : bno ≡ r = cc in ground (arith, same, above)
        | inr (inl (missing, v, gave, zeros)) ↦
            let same : bno ≡ r = cc in ground (arith, same, above)
        | inr (inr (missing, v, gave, marks)) ↦ cc
      ]
]

-- A file without an indirect block whose direct slots from `bno` on are empty.
pub record NoBlocks (f bno : ℕ) (s : Server) : Type 0 where
  pub indirect : s.mem (f_indirect f / 4) ≡ 0
  pub direct : (i : ℕ) → bno ≤ i → i < ndirect → s.mem (f_direct f i / 4) ≡ 0

clear_direct :
    (f i : ℕ) (s : Server)
    → i < ndirect
    → s.mem (f_direct f i / 4) ≡ 0
    → file_clear_block f i s ≡ ok (success tt) s
unfolding file_clear_block file_block_walk
clear_direct f i s l e = let small : ltb i ndirect ≡ true = ground (arith, l) in rw (small, e) refl

clear_indirect :
    (f i : ℕ) (s : Server)
    → ndirect ≤ i
    → s.mem (f_indirect f / 4) ≡ 0
    → file_clear_block f i s ≡ ok (failure (if ltb i nindirect then e_not_found else e_inval)) s
unfolding file_clear_block file_block_walk need_indirect
clear_indirect f i s l e =
    let large : ltb i ndirect ≡ false = ground (arith, l) in
    elim (Bool-cases (ltb i nindirect)) [
      | inl inside ↦ rw (large, inside, e) refl
      | inr past ↦ rw (large, past) refl
    ]

-- The loop meets the eleventh block.
clear_blocks-panic :
    (f n bno : ℕ) (s : Server)
    → bno ≤ ndirect
    → ndirect < bno + n
    → NoBlocks f bno s
    → clear_blocks f n bno s ≡ panic
unfolding clear_blocks panic_on
clear_blocks-panic f zero bno s l h e = absurd (omega (arith, l, h))
clear_blocks-panic f (suc n) bno s l h e = elim (Bool-cases (bno == ndirect)) [
  | inl last ↦
      let at : ndirect ≤ bno = ground (arith, last) in
      rw (clear_indirect f bno s at e.indirect) refl
  | inr more ↦
      let small : bno < ndirect = ground (arith, more, l) in
      rw (clear_direct f bno s small (e.direct bno (omega arith) small)) (
        clear_blocks-panic f n (bno + 1) s (omega (arith, small)) (omega (arith, h))
          (record { indirect = e.indirect; direct = λ i a b. e.direct i (omega (arith, a)) b }))
]

-- A file of more than ten blocks that has no blocks yet (file_set_size only writes its size) makes
-- `file_truncate` to at most ten blocks panic: `file_clear_block` fails with -E_NOT_FOUND or
-- -E_INVAL on the eleventh.
pub file_truncate-panic :
    (f newsize : ℕ) (s : Server)
    → NoBlocks f 0 s
    → blocks_of newsize ≤ ndirect
    → ndirect < blocks_of (s.mem (f_size f / 4))
    → file_truncate f newsize s ≡ panic
unfolding file_truncate
file_truncate-panic f newsize s e small large =
    let new = if newsize == 0 then 0 else blocks_of newsize in
    let low : new ≤ ndirect = ground (arith, small) in
    rw
      (clear_blocks-panic f (blocks_of (s.mem (f_size f / 4)) - new) new s low
        (omega (arith, low, large))
        (record { indirect = e.indirect; direct = λ i a b. e.direct i (omega arith) b }))
      refl

-- Storing a new block in the slot and reading it back.
filled :
    (p : ℕ) (o : Outcome (Result ℕ)) (t : Server) (d : ℕ)
    → and_then
        (and_then o (or_fail λ r. store p r >> pure (success tt)))
        (or_fail λ _. load p >>= λ k. pure (success k))
      ≡ ok (success d) t
    → (u : Server) × (o ≡ ok (success d) u) × (t.mem (p / 4) ≡ d)
filled p panic t d e = cc
filled p null_deref t d e = cc
filled p hang t d e = cc
filled p (ok (failure x) u) t d e = cc
filled p (ok (success r) u) t d e =
    let same : r ≡ d = ground (arith, e) in
    let state : record u { mem = update u.mem (p / 4) r } ≡ t = ground (arith, e) in
    (u, cc, sym (ap (λ (v : Server). v.mem (p / 4)) state) ∙ rw (==_self (p / 4)) same)

-- A direct block that is there.
found :
    (f filebno d : ℕ) (alloc : Bool) (s : Server)
    → filebno < ndirect
    → s.mem (f_direct f filebno / 4) ≡ d
    → (d == 0) ≡ false
    → file_map_block f filebno alloc s ≡ ok (success d) s
unfolding file_map_block file_block_walk need_block
found f filebno d alloc s l e full =
    let direct : ltb filebno ndirect ≡ true = ground (arith, l) in rw (direct, e, full, e) refl

-- A block among the first ten that `file_map_block` gives, making it where it is missing, is found
-- again by the next call, which makes nothing and changes nothing; it is not block 0.
pub file_map_block-again :
    (f filebno d : ℕ) (s t : Server)
    → Mounted s
    → 3 ≤ nblocks s
    → filebno < ndirect
    → file_map_block f filebno true s ≡ ok (success d) t
    → (file_map_block f filebno false t ≡ ok (success d) t) × ((d == 0) ≡ false)
unfolding file_map_block file_block_walk need_block
file_map_block-again f filebno d s t m l small e =
    let direct : ltb filebno ndirect ≡ true = ground (arith, small) in
    let p = f_direct f filebno in
    elim (Bool-cases (s.mem (p / 4) == 0)) [
      | inl empty ↦
          let (u, gave, slot) = filled p (alloc_block s) t d (rw (direct, empty) at e) in
          let positive = alloc_block-above s u d m l gave in
          (found f filebno d false t small slot positive, positive)
      | inr full ↦
          let same : ok (success (s.mem (p / 4))) s ≡ ok (success d) t =
            sym (found f filebno (s.mem (p / 4)) true s small refl full) ∙ e in
          let slot : s.mem (p / 4) ≡ d = ground (arith, same) in
          let state : s ≡ t = ground (arith, same) in
          let positive : (d == 0) ≡ false = rw slot at full in
          (
            subst (λ (v : Server). file_map_block f filebno false v ≡ ok (success d) v) state
                (found f filebno d false s small slot positive),
            positive,
          )
    ]

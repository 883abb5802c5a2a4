-- ===== src/Fs/Files/Sync.antt =====
-- `fs_sync` of fs/fs.c: what it writes to the disk.
use buaa_mos_with_swap.Prelude.{
  ℕ, zero, suc, ◌+◌, ◌<◌, ◌≤◌, ◌≡◌, refl, ap, sym, ◌∙◌, true, false, ◌&&◌, leb, ltb, ◌==◌,
  if◌then◌else◌, update, arith, Bool-cases, inl, inr, ==_self, subst,
}
use buaa_mos_with_swap.Fs.{Server, ok}
use buaa_mos_with_swap.Fs.Cache.{disk_addr, va_is_mapped, va_is_dirty, block_is_dirty, ide_write}
use buaa_mos_with_swap.Fs.Cache.Mounted.{nblocks, write_block_eq}
use buaa_mos_with_swap.Fs.Cache.Pages.{page_word}
use buaa_mos_with_swap.Fs.Files.{flush_block, sync_blocks, fs_sync}

-- The dirty blocks among the `n` from `first` on are on the disk as they are in the cache, the
-- other blocks of the disk are as before, and nothing else changes.
pub record Synced (n first : ℕ) (s t : Server) : Type 0 where
  pub written :
      (b i : ℕ)
      → first ≤ b
      → b < first + n
      → block_is_dirty b s ≡ true
      → t.disk b i ≡ page_word b i s
  pub kept :
      (b : ℕ)
      → (leb first b && ltb b (first + n) && block_is_dirty b s) ≡ false
      → t.disk b ≡ s.disk b
  pub state : t ≡ record s { disk = t.disk }

flush_block_eq :
    (b : ℕ) (s : Server)
    → flush_block b s
      ≡ ok tt (record s {
        disk = if block_is_dirty b s then update s.disk b (λ i. page_word b i s) else s.disk;
      })
unfolding flush_block block_is_dirty page_word ide_write
flush_block_eq b s = elim (Bool-cases (va_is_mapped (disk_addr b) s)) [
  | inr missing ↦ rw missing refl
  | inl mapped ↦ elim (Bool-cases (va_is_dirty (disk_addr b) s)) [
    | inr clean ↦ rw (mapped, clean) refl
    | inl dirty ↦ rw (mapped, dirty) (write_block_eq b s mapped)
  ]
]

first_kept :
    (n first b : ℕ) (s : Server)
    → (leb first b && ltb b (first + suc n) && block_is_dirty b s) ≡ false
    → (if block_is_dirty first s then update s.disk first (λ i. page_word first i s) else s.disk) b
      ≡ s.disk b
first_kept n first b s h = elim (Bool-cases (first == b)) [
  | inr other ↦ elim (Bool-cases (block_is_dirty first s)) [
    | inl dirty ↦ rw (dirty, other) refl
    | inr clean ↦ rw clean refl
  ]
  | inl here ↦
      let same : first ≡ b = ground (arith, here) in
      let clean : block_is_dirty b s ≡ false = ground (arith, h, here) in
      let clean_first : block_is_dirty first s ≡ false =
        subst (λ (k : ℕ). block_is_dirty k s ≡ false) (sym same) clean in
      rw clean_first refl
]

sync_blocks-Synced :
    (n first : ℕ) (s : Server)
    → (t : Server) × (sync_blocks n first s ≡ ok tt t) × Synced n first s t
unfolding sync_blocks block_is_dirty va_is_mapped va_is_dirty page_word
sync_blocks-Synced zero first s = (
  s,
  refl,
  record { written = λ b i l u d. absurd (omega (arith, l, u)); kept = λ b h. refl; state = refl },
)
sync_blocks-Synced (suc n) first s =
    let u = record s {
      disk =
          if block_is_dirty first s then update s.disk first (λ i. page_word first i s) else s.disk;
    } in
    let (t, e, rest) = sync_blocks-Synced n (first + 1) u in
    (
      t,
      rw (flush_block_eq first s) e,
      record {
        written = λ b i l h d. elim (Bool-cases (first == b)) [
          | inl here ↦
              let same : first ≡ b = ground (arith, here) in
              let dirty : block_is_dirty first s ≡ true =
                subst (λ (k : ℕ). block_is_dirty k s ≡ true) (sym same) d in
              let now : u.disk b i ≡ page_word b i s =
                subst (λ (k : ℕ). u.disk k i ≡ page_word k i s) same
                  (rw (dirty, ==_self first) refl) in
              let later : t.disk b ≡ u.disk b = rest.kept b (ground (arith, here)) in
              ap (λ (f : ℕ → ℕ). f i) later ∙ now
          | inr other ↦ rest.written b i (ground (arith, other, l)) (omega (arith, h)) d
        ];
        kept = λ b h. rest.kept b (ground (arith, h)) ∙ first_kept n first b s h;
        state = rest.state;
      },
    )

-- Once the superblock is read, `fs_sync` returns with every dirty block of the disk written from the
-- cache, the other blocks of the disk as before, and nothing but the disk changed.
pub fs_sync-Synced :
    (s : Server)
    → (s.super == 0) ≡ false
    → (t : Server) × (fs_sync s ≡ ok tt t) × Synced (nblocks s) 0 s t
unfolding fs_sync nblocks
fs_sync-Synced s h = let (t, e, synced) = sync_blocks-Synced (nblocks s) 0 s in (t, rw h e, synced)

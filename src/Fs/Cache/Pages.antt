-- ===== src/Fs/Cache/Pages.antt =====
-- The pages of the block cache in fs/fs.c: what `read_block` and `alloc_block` leave in them.
use buaa_mos_with_swap.Prelude.{
  ℕ, ◌+◌, ◌*◌, ◌/◌, ◌%◌, ◌<◌, ◌≤◌, ◌≡◌, ◌⊎◌, inl, inr, refl, ap, Bool, true, false, ◌||◌, ◌==◌,
  if◌then◌else◌, update, arith, Bool-cases, ==_self,
}
use buaa_mos_with_swap.Fs.{
  Server, Outcome, ok, panic, success, failure, pure, ◌>>=◌, ◌>>◌, and_then, try, e_no_disk,
  e_no_mem,
}
use buaa_mos_with_swap.Fs.Cache.{
  disk_addr, vpn, va_is_mapped, marked_free, past_end, block_is_free, syscall_mem_alloc, ide_read,
  read_block, map_block, map_or_free, alloc_block_num, alloc_block,
}
use buaa_mos_with_swap.Fs.Cache.Mounted.{nblocks, Mounted, Taken}
use buaa_mos_with_swap.Fs.Cache.Bitmap.{alloc_block_num_cases, free_block-Taken}

-- The page at `va` holds `words`, and the rest of memory, the other pages' entries, the disk and
-- the pointers are as before.
pub record Loaded (va : ℕ) (words : ℕ → ℕ) (s t : Server) : Type 0 where
  pub content : (i : ℕ) → i < 1024 → t.mem (vpn va * 1024 + i) ≡ words i
  pub elsewhere : (a : ℕ) → (a / 1024 == vpn va) ≡ false → t.mem a ≡ s.mem a
  pub mapped : t.mapped ≡ update s.mapped (vpn va) true
  pub disk : t.disk ≡ s.disk
  pub super : t.super ≡ s.super
  pub bitmap : t.bitmap ≡ s.bitmap

-- A new page at `va`, filled from a block of the disk.
load_page :
    (blockno va : ℕ) (s : Server)
    → s.grants s.asked ≡ true
    → (t : Server) × ((try {B = ℕ × Bool}
            (syscall_mem_alloc va)
            λ _. ide_read blockno va >> pure (success (va, true)))
          s
        ≡ ok (success (va, true)) t)
      × Loaded va (s.disk blockno) s t
unfolding syscall_mem_alloc ide_read
load_page blockno va s g =
    let t = record s {
      mem = λ a.
          if a / 1024 == vpn va
          then s.disk blockno (a % 1024)
          else if a / 1024 == vpn va
          then 0
          else s.mem a;
      mapped = update s.mapped (vpn va) true;
      dirty = update s.dirty (vpn va) false;
      asked = s.asked + 1;
    } in
    (
      t,
      rw g refl,
      record {
        content = λ i b.
            let page : (vpn va * 1024 + i) / 1024 ≡ vpn va = omega (arith, b) in
            let word : (vpn va * 1024 + i) % 1024 ≡ i = omega (arith, b) in
            rw (page, word, ==_self (vpn va)) refl;
        elsewhere = λ a n. rw n refl;
        mapped = refl;
        disk = refl;
        super = refl;
        bitmap = refl;
      },
    )

no_page :
    (blockno va : ℕ) (s : Server)
    → s.grants s.asked ≡ false
    → (try {B = ℕ × Bool}
          (syscall_mem_alloc va)
          λ _. ide_read blockno va >> pure (success (va, true)))
        s
      ≡ ok (failure e_no_mem) (record s { asked = s.asked + 1 })
unfolding syscall_mem_alloc
no_page blockno va s g = rw g refl

-- On a mounted file system, `read_block` panics on a block past the disk's end and on a free one.
-- Else it gives the address of the block in the cache: of a cached block, as not new and without
-- touching it; of another one, as new, with the disk's words in a new page and no other page changed. Where there is no
-- memory for that page it fails with -E_NO_MEM, and memory and disk are as before.
pub read_block_cases :
    (blockno : ℕ) (s : Server)
    → Mounted s
    → ((read_block blockno s ≡ panic) × ((past_end blockno s || marked_free blockno s) ≡ true))
      ⊎ (((past_end blockno s || marked_free blockno s) ≡ false)
          × (((va_is_mapped (disk_addr blockno) s ≡ true)
                × (read_block blockno s ≡ ok (success (disk_addr blockno, false)) s))
              ⊎ ((va_is_mapped (disk_addr blockno) s ≡ false)
                  × (s.grants s.asked ≡ true)
                  × (t : Server) × (read_block blockno s ≡ ok (success (disk_addr blockno, true)) t)
                  × Loaded (disk_addr blockno) (s.disk blockno) s t)
              ⊎ ((va_is_mapped (disk_addr blockno) s ≡ false)
                  × (s.grants s.asked ≡ false)
                  × (read_block blockno s
                      ≡ ok (failure e_no_mem) (record s { asked = s.asked + 1 })))))
unfolding read_block block_is_free
read_block_cases blockno s m =
    let set : (s.super == 0) ≡ false = grind (arith, m.super) in
    let map_set : (s.bitmap == 0) ≡ false = grind (arith, m.bitmap) in
    elim (Bool-cases (past_end blockno s)) [
      | inl past ↦ inl (rw (set, past) refl, rw past refl)
      | inr inside ↦ elim (Bool-cases (marked_free blockno s)) [
        | inl free ↦ inl (rw (set, map_set, inside, free) refl, rw (inside, free) refl)
        | inr used ↦ inr (
          rw (inside, used) refl,
          elim (Bool-cases (va_is_mapped (disk_addr blockno) s)) [
            | inl cached ↦ inl (cached, rw (set, map_set, inside, used, cached) refl)
            | inr missing ↦ elim (Bool-cases (s.grants s.asked)) [
              | inl granted ↦
                  let (t, e, loaded) = load_page blockno (disk_addr blockno) s granted in
                  inr
                    (inl (missing, granted, t, rw (set, map_set, inside, used, missing) e, loaded))
              | inr refused ↦ inr (
                  inr (
                    missing,
                    refused,
                    rw (set, map_set, inside, used, missing)
                        (no_page blockno (disk_addr blockno) s refused),
                  ))
            ]
          ],
        )
      ]
    ]

-- The words of the page of a block.
unfoldable pub page_word : ℕ → ℕ → Server → ℕ
page_word blockno i s = s.mem (vpn (disk_addr blockno) * 1024 + i)

asked-Taken :
    (s t : Server) (bno : ℕ) → Taken s bno t → Taken s bno (record t { asked = t.asked + 1 })
unfolding marked_free nblocks va_is_mapped
asked-Taken s t bno d = record {
  free = d.free;
  marks = d.marks;
  memory = d.memory;
  written = d.written;
  kept = d.kept;
  mapped = d.mapped;
  mounted = record {
    super = d.mounted.super;
    bitmap = d.mounted.bitmap;
    size = d.mounted.size;
    cached = d.mounted.cached;
  };
  same_size = d.same_size;
}

-- The second half of `alloc_block`, on a block that was taken.
mapped_or_new :
    (s t : Server) (bno : ℕ)
    → Taken s bno t
    → 3 ≤ bno
    → bno < nblocks s
    → ((va_is_mapped (disk_addr bno) s ≡ true)
        × ((map_block bno >>= map_or_free bno) t ≡ ok (success bno) t))
      ⊎ ((va_is_mapped (disk_addr bno) s ≡ false)
          × (u : Server) × ((map_block bno >>= map_or_free bno) t ≡ ok (success bno) u)
          × ((i : ℕ) → i < 1024 → page_word bno i u ≡ 0))
      ⊎ ((va_is_mapped (disk_addr bno) s ≡ false)
          × (u : Server) × ((map_block bno >>= map_or_free bno) t ≡ ok (failure e_no_mem) u)
          × ((k : ℕ) → marked_free k u ≡ marked_free k s))
unfolding map_block map_or_free va_is_mapped syscall_mem_alloc page_word
mapped_or_new s t bno done above below =
    let va = disk_addr bno in
    let same : t.mapped (vpn va) ≡ s.mapped (vpn va) =
      ap (λ (f : ℕ → Bool). f (vpn va)) done.mapped in
    elim (Bool-cases (s.mapped (vpn va))) [
      | inl cached ↦ inl (cached, rw (same, cached) refl)
      | inr missing ↦ elim (Bool-cases (t.grants t.asked)) [
        | inl granted ↦
            let u = record t {
              mem = λ a. if a / 1024 == vpn va then 0 else t.mem a;
              mapped = update t.mapped (vpn va) true;
              dirty = update t.dirty (vpn va) false;
              asked = t.asked + 1;
            } in
            inr (
              inl (
                missing,
                u,
                rw (same, missing, granted) refl,
                λ i b.
                    let page : (vpn va * 1024 + i) / 1024 ≡ vpn va = omega (arith, b) in
                    rw (page, ==_self (vpn va)) refl,
              ))
        | inr refused ↦
            let v = record t { asked = t.asked + 1 } in
            let (u, e, marks, disk) =
              free_block-Taken s v bno (asked-Taken s t bno done) above below in
            inr (
              inr (
                missing,
                u,
                rw (same, missing, refused)
                    (ap (λ (o : Outcome (Unit {0})). and_then o (λ _. pure (failure e_no_mem))) e),
                marks,
              ))
      ]
    ]

pub alloc_block_cases :
    (s : Server)
    → Mounted s
    → 3 ≤ nblocks s
    → ((alloc_block s ≡ ok (failure e_no_disk) s)
        × ((k : ℕ) → 3 ≤ k → k < nblocks s → marked_free k s ≡ false))
      ⊎ ((bno : ℕ) × (t : Server) × (alloc_block_num s ≡ ok (success bno) t)
          × Taken s bno t
          × (((va_is_mapped (disk_addr bno) s ≡ true) × (alloc_block s ≡ ok (success bno) t))
              ⊎ ((va_is_mapped (disk_addr bno) s ≡ false)
                  × (u : Server) × (alloc_block s ≡ ok (success bno) u)
                  × ((i : ℕ) → i < 1024 → page_word bno i u ≡ 0))
              ⊎ ((va_is_mapped (disk_addr bno) s ≡ false)
                  × (u : Server) × (alloc_block s ≡ ok (failure e_no_mem) u)
                  × ((k : ℕ) → marked_free k u ≡ marked_free k s))))
unfolding alloc_block
alloc_block_cases s m l = elim (alloc_block_num_cases s m l) [
  | inl (e, none_free) ↦ inl (rw e refl, none_free)
  | inr (bno, t, e, done, above, below, least) ↦
      inr (bno, t, e, done, rw e (mapped_or_new s t bno done above below))
]

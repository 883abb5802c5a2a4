-- ===== src/ElfLoader/Segments.antt =====
-- The pages that `elf_load_seg` of lib/elfloader.c maps.
use mathlib.Core.List.{append-nil, append_assoc}
use buaa_mos_with_swap.Prelude.{
  ℕ, zero, suc, ◌+◌, ◌-◌, ◌*◌, ◌/◌, ◌%◌, ◌<◌, ◌≤◌, ◌≡◌, ◌⊎◌, inl, inr, refl, ap, sym, ◌∙◌, true,
  false, List, [], ◌∷◌, ◌++◌, Option, none, some, arith, ltb, ◌==◌, Bool-cases,
}
use buaa_mos_with_swap.Mmu.{page_size}
use buaa_mos_with_swap.ElfLoader.{
  Phdr, MapCall, least, bss_calls, file_calls, segment_calls, run_calls, elf_load_seg,
}

-- The page numbers of the calls, in order.
unfoldable pub pages : List MapCall → List ℕ
pages [] = []
pages (c ∷ cs) = c.va / page_size ∷ pages cs

unfoldable pub consecutive : ℕ → ℕ → List ℕ
consecutive first zero = []
consecutive first (suc n) = first ∷ consecutive (first + 1) n

-- From the address `at` on, page by page, past `end`.
record Covers (at end : ℕ) (calls : List MapCall) : Type 0 where
  count : ℕ
  once : pages calls ≡ consecutive (at / page_size) count
  reaches : end ≤ at + count * page_size

bss_calls-Covers :
    (fuel va sgsize i : ℕ)
    → sgsize ≤ i + fuel
    → Covers (va + i) (va + sgsize) (bss_calls fuel va sgsize i)
unfolding bss_calls pages consecutive
bss_calls-Covers zero va sgsize i l = record { count = 0; once = refl; reaches = omega (arith, l) }
bss_calls-Covers (suc fuel) va sgsize i l =
    let rest = bss_calls-Covers fuel va sgsize (i + page_size) (omega (arith, l)) in
    elim (Bool-cases (ltb i sgsize)) [
      | inr past ↦ record { count = 0; once = rw past refl; reaches = ground arith }
      | inl more ↦ record {
        count = suc rest.count;
        once =
            rw (more, rest.once)
              (ap (λ (p : ℕ). (va + i) / page_size ∷ consecutive p rest.count) (omega arith));
        reaches = omega (arith, rest.reaches);
      }
    ]

file_calls-Covers :
    (fuel va bin_size sgsize i : ℕ)
    → bin_size ≤ i + fuel
    → Covers (va + i) (va + sgsize) (file_calls fuel va bin_size sgsize i)
unfolding file_calls pages consecutive
file_calls-Covers zero va bin_size sgsize i l = bss_calls-Covers sgsize va sgsize i (omega arith)
file_calls-Covers (suc fuel) va bin_size sgsize i l =
    let rest = file_calls-Covers fuel va bin_size sgsize (i + page_size) (omega (arith, l)) in
    elim (Bool-cases (ltb i bin_size)) [
      | inr past ↦
          let bss = bss_calls-Covers sgsize va sgsize i (omega arith) in
          record { count = bss.count; once = rw past bss.once; reaches = bss.reaches }
      | inl more ↦ record {
        count = suc rest.count;
        once =
            rw (more, rest.once)
              (ap (λ (p : ℕ). (va + i) / page_size ∷ consecutive p rest.count) (omega arith));
        reaches = omega (arith, rest.reaches);
      }
    ]

full_page :
    (va filesz : ℕ)
    → (va % page_size == 0) ≡ false
    → (va % page_size ≡ 0) ⊎ (page_size ≤ va % page_size + filesz)
    → page_size ≤ va % page_size + filesz
full_page va filesz h (inl e) = absurd (ground (arith, e, h))
full_page va filesz h (inr l) = l

-- The calls of a segment that starts inside a page.
first_call :
    (ph : Phdr) (n : ℕ)
    → (ph.p_vaddr % page_size == 0) ≡ false
    → least ph.p_filesz (page_size - ph.p_vaddr % page_size) ≡ n
    → segment_calls ph
      ≡ record { va = ph.p_vaddr; offset = ph.p_vaddr % page_size; src = some 0; len = n }
        ∷ file_calls ph.p_filesz ph.p_vaddr ph.p_filesz ph.p_memsz n
unfolding segment_calls
first_call ph n inside e = rw (inside, e) refl

-- Content that is done.
file_done :
    (fuel va bin_size sgsize : ℕ)
    → file_calls fuel va bin_size sgsize bin_size ≡ bss_calls sgsize va sgsize bin_size
unfolding file_calls
file_done zero va bin_size sgsize = refl
file_done (suc fuel) va bin_size sgsize =
    let past : ltb bin_size bin_size ≡ false = ground arith in rw past refl

bss_first :
    (fuel va sgsize i : ℕ)
    → 1 ≤ fuel
    → i < sgsize
    → (rest : List ℕ) × (pages (bss_calls fuel va sgsize i) ≡ (va + i) / page_size ∷ rest)
unfolding bss_calls pages
bss_first zero va sgsize i l h = absurd (omega (arith, l))
bss_first (suc fuel) va sgsize i l h =
    let more : ltb i sgsize ≡ true = ground (arith, h) in
    (pages (bss_calls fuel va sgsize (i + page_size)), rw more refl)

segment_calls-pages :
    (ph : Phdr)
    → (ph.p_vaddr % page_size ≡ 0) ⊎ (page_size ≤ ph.p_vaddr % page_size + ph.p_filesz)
    → (n : ℕ) × (pages (segment_calls ph) ≡ consecutive (ph.p_vaddr / page_size) n)
      × (ph.p_vaddr + ph.p_memsz ≤ (ph.p_vaddr / page_size + n) * page_size)
unfolding segment_calls pages consecutive least
segment_calls-pages ph h = elim (Bool-cases (ph.p_vaddr % page_size == 0)) [
  | inl aligned ↦
      let c = file_calls-Covers ph.p_filesz ph.p_vaddr ph.p_filesz ph.p_memsz 0 (omega arith) in
      let zero_offset : ph.p_vaddr % page_size ≡ 0 = ground (arith, aligned) in
      let start : ph.p_vaddr + 0 ≡ ph.p_vaddr = omega arith in
      (
        c.count,
        rw aligned (c.once ∙ ap (λ (a : ℕ). consecutive (a / page_size) c.count) start),
        omega (arith, zero_offset, c.reaches),
      )
  | inr inside ↦
      let va = ph.p_vaddr in
      let full : page_size ≤ va % page_size + ph.p_filesz = full_page va ph.p_filesz inside h in
      let first : least ph.p_filesz (page_size - va % page_size) ≡ page_size - va % page_size =
        ground (arith, full) in
      let c =
        file_calls-Covers ph.p_filesz va ph.p_filesz ph.p_memsz (page_size - va % page_size)
          (omega arith) in
      let next : (va + (page_size - va % page_size)) / page_size ≡ va / page_size + 1 =
        omega arith in
      (
        suc c.count,
        ap pages (first_call ph (page_size - va % page_size) inside first)
            ∙ ap (λ (l : List ℕ). va / page_size ∷ l)
                (c.once ∙ ap (λ (p : ℕ). consecutive p c.count) next),
        omega (arith, c.reaches),
      )
]

segment_calls-twice :
    (ph : Phdr)
    → (ph.p_vaddr % page_size == 0) ≡ false
    → ph.p_vaddr % page_size + ph.p_filesz < page_size
    → ph.p_filesz < ph.p_memsz
    → (rest : List ℕ) × (pages (segment_calls ph)
        ≡ ph.p_vaddr / page_size ∷ ph.p_vaddr / page_size ∷ rest)
unfolding pages least
segment_calls-twice ph inside short larger =
    let first : least ph.p_filesz (page_size - ph.p_vaddr % page_size) ≡ ph.p_filesz =
      ground (arith, short) in
    let (rest, e) =
      bss_first ph.p_memsz ph.p_vaddr ph.p_memsz ph.p_filesz (omega (arith, larger)) larger in
    let same : (ph.p_vaddr + ph.p_filesz) / page_size ≡ ph.p_vaddr / page_size =
      omega (arith, short) in
    (
      rest,
      ap pages (first_call ph ph.p_filesz inside first)
          ∙ ap (λ (cs : List MapCall). ph.p_vaddr / page_size ∷ pages cs)
              (file_done ph.p_filesz ph.p_vaddr ph.p_filesz ph.p_memsz)
          ∙ ap (λ (l : List ℕ). ph.p_vaddr / page_size ∷ l) (e ∙ ap (λ (p : ℕ). p ∷ rest) same),
    )

-- A `map_page` that notes its call and succeeds, and the calls that it sees.
unfoldable pub note_call : MapCall → List MapCall → Option (Unit {0}) × List MapCall
note_call c seen = (none, seen ++ c ∷ [])

unfoldable pub seen_calls : Phdr → List MapCall
seen_calls ph = (elf_load_seg ph (λ writable. note_call) []).1

run_calls-seen : (cs seen : List MapCall) → (run_calls note_call cs seen).1 ≡ seen ++ cs
unfolding run_calls note_call
run_calls-seen [] seen = sym (append-nil seen)
run_calls-seen (c ∷ cs) seen = run_calls-seen cs (seen ++ c ∷ []) ∙ append_assoc seen (c ∷ []) cs

seen_calls-segment : (ph : Phdr) → seen_calls ph ≡ segment_calls ph
unfolding seen_calls elf_load_seg
seen_calls-segment ph = run_calls-seen (segment_calls ph) []

-- A segment that starts at a page, or whose content reaches the end of its first page, is mapped
-- page by page: the pages of the calls are consecutive from the one that the segment starts in, so
-- none is mapped twice, and they reach past the segment's end in memory.
pub elf_load_seg-pages :
    (ph : Phdr)
    → (ph.p_vaddr % page_size ≡ 0) ⊎ (page_size ≤ ph.p_vaddr % page_size + ph.p_filesz)
    → (n : ℕ) × (pages (seen_calls ph) ≡ consecutive (ph.p_vaddr / page_size) n)
      × (ph.p_vaddr + ph.p_memsz ≤ (ph.p_vaddr / page_size + n) * page_size)
elf_load_seg-pages ph h =
    let (n, once, reach) = segment_calls-pages ph h in
    (n, ap pages (seen_calls-segment ph) ∙ once, reach)

-- A segment that starts inside a page, ends its content inside that page and is larger in memory has
-- that page mapped twice, by its first two calls.
pub elf_load_seg-twice :
    (ph : Phdr)
    → (ph.p_vaddr % page_size == 0) ≡ false
    → ph.p_vaddr % page_size + ph.p_filesz < page_size
    → ph.p_filesz < ph.p_memsz
    → (rest : List ℕ) × (pages (seen_calls ph)
        ≡ ph.p_vaddr / page_size ∷ ph.p_vaddr / page_size ∷ rest)
elf_load_seg-twice ph inside short larger =
    let (rest, e) = segment_calls-twice ph inside short larger in
    (rest, ap pages (seen_calls-segment ph) ∙ e)

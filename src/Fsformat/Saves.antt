-- ===== src/Fsformat/Saves.antt =====
-- `save_block_link` of tools/fsformat.c.
use buaa_mos_with_swap.Prelude.{
  ℕ, ◌+◌, ◌≤◌, ◌<◌, ◌≡◌, ◌≢◌, ◌⊎◌, inl, inr, refl, ap, sym, subst, ◌∙◌, arith, true, false, ltb,
  ◌==◌, if◌then◌else◌, update,
}
use buaa_mos_with_swap.Fs.{ndirect, nindirect}
use buaa_mos_with_swap.Fsformat
use buaa_mos_with_swap.Fsformat.{
  Image, Built, built, B, and_then, nblock, block_data, block_index, next_block, Place, in_super,
  in_block, get_field, set_field, direct_word, indirect_word, link_in, save_block_link,
  write_blocks,
}
use buaa_mos_with_swap.Fsformat.Links.{
  Apart, Inside, block_link, Apart-Inside, some_block, get_field-set_field, words-set_field,
  nextbno-set_field, get_field-words, Ready, direct, indirect, le_or_lt, block_link-early,
  block_link-late,
}

-- `save_block_link` of the block `bno` at `i`, from `s` to `t`.
pub record Saved (f : Place) (i n bno : ℕ) (s t : Image) : Type 0 where
  pub ok : save_block_link f i bno s ≡ built tt t
  pub more : s.nextbno ≤ t.nextbno
  pub ready : Ready f (i + 1) n t
  pub link : block_link f i t ≡ bno
  pub earlier : (j : ℕ) → j < i → block_link f j t ≡ block_link f j s
  pub kept :
      (b : ℕ)
      → Apart f b
      → b ≢ get_field f indirect_word s
      → (b < s.nextbno) ⊎ (t.nextbno ≤ b)
      → t.words b ≡ s.words b
  pub same_indirect :
      (get_field f indirect_word t ≡ get_field f indirect_word s)
      ⊎ (s.nextbno ≤ get_field f indirect_word t)

save-direct :
    (f : Place) (i n bno : ℕ) (s : Image)
    → i < ndirect
    → get_field f indirect_word s ≡ 0
    → s.nextbno + n + 1 ≤ nblock
    → Saved f i n bno s (set_field f (direct_word i) bno s)
unfolding save_block_link block_link
save-direct f i n bno s l none_yet room =
    let t = set_field f (direct_word i) bno s in
    let next = nextbno-set_field f (direct_word i) bno s in
    let ind : get_field f indirect_word t ≡ get_field f indirect_word s =
      get_field-set_field f indirect_word (direct_word i) bno s ∙ ground (arith, l) in
    record {
      ok = ground (arith, l);
      more = omega (arith, next);
      ready = direct (ind ∙ none_yet) (omega (arith, l)) (omega (arith, next, room));
      link = ground (arith, l, get_field-set_field f (direct_word i) (direct_word i) bno s);
      earlier =
          λ j h. ground (arith, l, h, get_field-set_field f (direct_word j) (direct_word i) bno s);
      kept = λ b apart other old. words-set_field f (direct_word i) bno b s apart;
      same_indirect = inl ind;
    }

-- A link in an indirect block that the file has.
unfoldable linked : ℕ → ℕ → ℕ → Image → Image
linked b i bno s = record s { words = update s.words b (update (s.words b) i bno) }

link_in_lem :
    (f : Place) (i bno b : ℕ) (s : Image)
    → get_field f indirect_word s ≡ b
    → b < nblock
    → link_in f i bno s ≡ built tt (linked b i bno s)
unfolding link_in linked
link_in_lem f i bno b s at h =
    ap (λ c. if ltb c nblock then built tt (linked c i bno s) else Fsformat.overrun) at
    ∙ ground (arith, h)

linked-other : (b i bno a : ℕ) (s : Image) → a ≢ b → (linked b i bno s).words a ≡ s.words a
unfolding linked
linked-other b i bno a s h = ground (arith, h)

linked-word :
    (b i bno j : ℕ) (s : Image)
    → (linked b i bno s).words b j ≡ (if i == j then bno else s.words b j)
unfolding linked
linked-word b i bno j s = ground arith

-- The links before one that goes to an indirect block.
linked-earlier :
    (f : Place) (i bno b j : ℕ) (s : Image)
    → get_field f indirect_word s ≡ b
    → get_field f indirect_word (linked b i bno s) ≡ b
    → Apart f b
    → j < i
    → block_link f j (linked b i bno s) ≡ block_link f j s
unfolding linked
linked-earlier f i bno b j s at ind apart h = elim (le_or_lt ndirect j) [
  | inl late ↦
      block_link-late f j b (linked b i bno s) late ind
      ∙ linked-word b i bno j s
      ∙ ground (arith, h)
      ∙ sym (block_link-late f j b s late at)
  | inr early ↦
      block_link-early f j (linked b i bno s) early
      ∙ get_field-words f (direct_word j) b (update (s.words b) i bno) s apart
      ∙ sym (block_link-early f j s early)
]

save-linked :
    (f : Place) (i n bno b : ℕ) (s : Image)
    → ndirect < i
    → i < nindirect
    → get_field f indirect_word s ≡ b
    → 0 < b
    → b < s.nextbno
    → Apart f b
    → s.nextbno + n ≤ nblock
    → Saved f i n bno s (linked b i bno s)
unfolding save_block_link linked
save-linked f i n bno b s l m at pos less apart room =
    let t = linked b i bno s in
    let ind : get_field f indirect_word t ≡ b = get_field-words f indirect_word b _ s apart ∙ at in
    let not_zero : (get_field f indirect_word s == 0) ≡ false = ground (arith, at, pos) in
    record {
      ok = ground (arith, l, m, not_zero) ∙ link_in_lem f i bno b s at (omega (arith, less, room));
      more = omega arith;
      ready = indirect b ind (omega (arith, l)) pos less apart (omega (arith, room));
      link =
          block_link-late f i b t (omega (arith, l)) ind ∙ linked-word b i bno i s ∙ ground arith;
      earlier = λ j h. linked-earlier f i bno b j s at ind apart h;
      kept = λ a apart_a other old. linked-other b i bno a s (omega (arith, at, other));
      same_indirect = inl (ind ∙ sym at);
    }

-- The image after `next_block`.
unfoldable pub took : ℕ → Image → Image
took type s = record s { type = update s.type s.nextbno type; nextbno = s.nextbno + 1 }

pub next_block_lem :
    (type : ℕ) (s : Image) → s.nextbno < nblock → next_block type s ≡ built s.nextbno (took type s)
unfolding next_block took
next_block_lem type s h = ground (arith, h)

pub get_field-took :
    (f : Place) (i type : ℕ) (s : Image) → get_field f i (took type s) ≡ get_field f i s
unfolding get_field took
get_field-took in_super i type s = refl
get_field-took (in_block c k) i type s = refl

save-first :
    (f : Place) (n bno : ℕ) (s : Image)
    → get_field f indirect_word s ≡ 0
    → Inside f s.nextbno
    → s.nextbno + n + 1 ≤ nblock
    → Saved f ndirect n bno s
        (linked s.nextbno ndirect bno (set_field f indirect_word s.nextbno (took block_index s)))
unfolding save_block_link took linked and_then
save-first f n bno s none_yet inside room =
    let b = s.nextbno in
    let u = set_field f indirect_word b (took block_index s) in
    let t = linked b ndirect bno u in
    let apart = Apart-Inside f b b (omega arith) inside in
    let next : u.nextbno ≡ b + 1 = nextbno-set_field f indirect_word b (took block_index s) in
    let at : get_field f indirect_word u ≡ b =
      get_field-set_field f indirect_word indirect_word b (took block_index s) ∙ ground arith in
    let ind : get_field f indirect_word t ≡ b =
      get_field-words f indirect_word b (update (u.words b) ndirect bno) u apart ∙ at in
    let is_zero : (get_field f indirect_word s == 0) ≡ true = ground (arith, none_yet) in
    record {
      ok = rw is_zero (
          ap (λ o. and_then o (λ b t. link_in f ndirect bno (set_field f indirect_word b t)))
            (next_block_lem block_index s (omega (arith, room)))
          ∙ link_in_lem f ndirect bno b u at (omega (arith, room)));
      more = omega (arith, next);
      ready =
          indirect b ind (omega arith) (some_block f b inside) (omega (arith, next)) apart
            (omega (arith, next, room));
      link =
          block_link-late f ndirect b t (omega arith) ind
          ∙ linked-word b ndirect bno ndirect u
          ∙ ground arith;
      earlier = λ j h.
          linked-earlier f ndirect bno b j u at ind apart h
          ∙ block_link-early f j u h
          ∙ get_field-set_field f (direct_word j) indirect_word b (took block_index s)
          ∙ ground (arith, h)
          ∙ get_field-took f (direct_word j) block_index s
          ∙ sym (block_link-early f j s h);
      kept = λ a apart_a other old.
          linked-other b ndirect bno a u (omega (arith, old, next))
          ∙ words-set_field f indirect_word b a (took block_index s) apart_a;
      same_indirect = inr (omega (arith, ind));
    }

pub save_block_link-Saved :
    (f : Place) (i n bno : ℕ) (s : Image)
    → i < nindirect
    → Inside f s.nextbno
    → Ready f i n s
    → (t : Image) × Saved f i n bno s t
save_block_link-Saved f i n bno s m inside (direct none_yet l room) = elim (le_or_lt ndirect i) [
  | inl last ↦
      let here : ndirect ≡ i = omega (arith, last, l) in
      subst (λ i. (t : Image) × Saved f i n bno s t) here
        (_, save-first f n bno s none_yet inside room)
  | inr early ↦ (_, save-direct f i n bno s early none_yet room)
]
save_block_link-Saved f i n bno s m inside (indirect b at l pos less apart room) =
    (_, save-linked f i n bno b s l m at pos less apart room)

-- ===== src/Fsformat/Content.antt =====
-- What `write_file` of tools/fsformat.c leaves in the blocks of a file.
use buaa_mos_with_swap.Prelude.{
  ℕ, suc, ◌+◌, ◌≤◌, ◌<◌, ◌≡◌, ◌≢◌, ◌⊎◌, inl, inr, refl, ap, sym, subst, ◌∙◌, arith, false, leb,
  ◌==◌, if◌then◌else◌, update, List, [], ◌∷◌, length,
}
use buaa_mos_with_swap.Fs.{ndirect, nindirect}
use buaa_mos_with_swap.Fsformat.{
  Image, built, and_then, nblock, block_data, Place, get_field, direct_word, indirect_word,
  save_block_link, write_blocks,
}
use buaa_mos_with_swap.Fsformat.Links.{
  Apart, Inside, block_link, Inside-later, Apart-Inside, some_block, get_field-words, Ready, direct,
  indirect, le_or_lt, block_link-early, block_link-late,
}
use buaa_mos_with_swap.Fsformat.Saves.{
  Saved, took, next_block_lem, get_field-took, save_block_link-Saved,
}

abbrev Reads : Type 0
Reads = List ((ℕ → ℕ) → ℕ → ℕ)

-- From `i` on, the blocks that the file has in `t` hold what the reads make of the words `old`.
unfoldable pub Contents : Place → ℕ → Reads → (ℕ → ℕ → ℕ) → Image → Type 0
Contents f i [] old t = Unit {0}
Contents f i (r ∷ rs) old t =
    (t.words (block_link f i t) ≡ r (old (block_link f i t))) × Contents f (i + 1) rs old t

-- One block of data in, and the rest to be linked.
unfoldable filled : ((ℕ → ℕ) → ℕ → ℕ) → Image → Image
filled r s = took block_data (record s { words = update s.words s.nextbno (r (s.words s.nextbno)) })

get_field-filled :
    (f : Place) (i : ℕ) (r : (ℕ → ℕ) → ℕ → ℕ) (s : Image)
    → Inside f s.nextbno
    → get_field f i (filled r s) ≡ get_field f i s
unfolding filled
get_field-filled f i r s inside =
    get_field-took f i block_data
      (record s { words = update s.words s.nextbno (r (s.words s.nextbno)) })
    ∙ get_field-words f i s.nextbno (r (s.words s.nextbno)) s
        (Apart-Inside f s.nextbno s.nextbno (omega arith) inside)

Ready-filled :
    (f : Place) (i n : ℕ) (r : (ℕ → ℕ) → ℕ → ℕ) (s : Image)
    → Inside f s.nextbno
    → Ready f i (suc n) s
    → Ready f i n (filled r s)
unfolding filled took
Ready-filled f i n r s inside (direct none_yet l room) =
    direct (get_field-filled f indirect_word r s inside ∙ none_yet) l (omega (arith, room))
Ready-filled f i n r s inside (indirect b at l pos less apart room) =
    indirect b (get_field-filled f indirect_word r s inside ∙ at) l pos (omega (arith, less)) apart
      (omega (arith, room))

indirect-lt :
    (f : Place) (i n : ℕ) (s : Image)
    → Inside f s.nextbno
    → Ready f i n s
    → get_field f indirect_word s < s.nextbno
indirect-lt f i n s inside (direct none_yet l room) =
    omega (arith, none_yet, some_block f s.nextbno inside)
indirect-lt f i n s inside (indirect b at l pos less apart room) = omega (arith, at, less)

words-filled :
    (r : (ℕ → ℕ) → ℕ → ℕ) (s : Image) (b : ℕ)
    → (filled r s).words b ≡ (if s.nextbno == b then r (s.words s.nextbno) else s.words b)
unfolding filled took
words-filled r s b = refl

words-old :
    (r : (ℕ → ℕ) → ℕ → ℕ) (s : Image) (b : ℕ) → b ≢ s.nextbno → (filled r s).words b ≡ s.words b
words-old r s b h = words-filled r s b ∙ ground (arith, h)

words-new : (r : (ℕ → ℕ) → ℕ → ℕ) (s : Image) → (filled r s).words s.nextbno ≡ r (s.words s.nextbno)
words-new r s = words-filled r s s.nextbno ∙ ground arith

-- The links that do not lead through the new block.
block_link-filled :
    (f : Place) (j : ℕ) (r : (ℕ → ℕ) → ℕ → ℕ) (s : Image)
    → Inside f s.nextbno
    → get_field f indirect_word s < s.nextbno
    → block_link f j (filled r s) ≡ block_link f j s
block_link-filled f j r s inside less =
    let b = get_field f indirect_word s in
    elim (le_or_lt ndirect j) [
      | inl late ↦
          block_link-late f j b (filled r s) late (get_field-filled f indirect_word r s inside)
          ∙ ap (λ (w : ℕ → ℕ). w j) (words-old r s b (omega (arith, less)))
          ∙ sym (block_link-late f j b s late refl)
      | inr early ↦
          block_link-early f j (filled r s) early
          ∙ get_field-filled f (direct_word j) r s inside
          ∙ sym (block_link-early f j s early)
    ]

-- `write_blocks` from `s` to `t`.
record Wrote (f : Place) (i : ℕ) (rs : Reads) (old : ℕ → ℕ → ℕ) (s t : Image) : Type 0 where
  ok : write_blocks f i rs s ≡ built tt t
  contents : Contents f i rs old t
  earlier : (j : ℕ) → j < i → block_link f j t ≡ block_link f j s
  kept :
      (b : ℕ) → Apart f b → b ≢ get_field f indirect_word s → b < s.nextbno → t.words b ≡ s.words b

write_blocks-suc :
    (f : Place) (i : ℕ) (r : (ℕ → ℕ) → ℕ → ℕ) (rs : Reads) (s t : Image)
    → s.nextbno < nblock
    → save_block_link f i s.nextbno (filled r s) ≡ built tt t
    → write_blocks f i (r ∷ rs) s ≡ write_blocks f (i + 1) rs t
unfolding write_blocks and_then filled
write_blocks-suc f i r rs s t h saved =
    let room : leb nblock s.nextbno ≡ false = ground (arith, h) in
    let go_on = write_blocks f (i + 1) rs in
    let next =
      next_block_lem block_data
        (record s { words = update s.words s.nextbno (r (s.words s.nextbno)) }) h in
    rw room (
      ap (λ o. and_then o (λ bno t. and_then (save_block_link f i bno t) (λ _. go_on))) next
      ∙ ap (λ o. and_then o (λ _. go_on)) saved)

nextbno-filled : (r : (ℕ → ℕ) → ℕ → ℕ) (s : Image) → (filled r s).nextbno ≡ s.nextbno + 1
unfolding filled took
nextbno-filled r s = refl

-- The indirect block after a link is the one before it or a new one.
other_indirect : (a i j n : ℕ) → (i ≡ j) ⊎ (n ≤ i) → a ≢ j → a < n → a ≢ i
other_indirect a i j n h ne l = omega (arith, h, ne, l)

room_left : (f : Place) (i n : ℕ) (s : Image) → Ready f i (suc n) s → s.nextbno < nblock
room_left f i n s (direct none_yet l room) = omega (arith, room)
room_left f i n s (indirect b at l pos less apart room) = omega (arith, room)

save_ok :
    (f : Place) (i : ℕ) (r : (ℕ → ℕ) → ℕ → ℕ) (rs : Reads) (s u : Image)
    → Ready f i (suc (length rs)) s
    → Saved f i (length rs) s.nextbno (filled r s) u
    → write_blocks f i (r ∷ rs) s ≡ write_blocks f (i + 1) rs u
save_ok f i r rs s u ready saved =
    write_blocks-suc f i r rs s u (room_left f i (length rs) s ready) saved.ok

Wrote-cons :
    (f : Place) (i : ℕ) (r : (ℕ → ℕ) → ℕ → ℕ) (rs : Reads) (old : ℕ → ℕ → ℕ) (s u t : Image)
    → get_field f indirect_word s < s.nextbno
    → Inside f s.nextbno
    → Inside f (filled r s).nextbno
    → i + length (r ∷ rs) ≤ nindirect
    → Saved f i (length rs) s.nextbno (filled r s) u
    → s.words s.nextbno ≡ old s.nextbno
    → write_blocks f i (r ∷ rs) s ≡ write_blocks f (i + 1) rs u
    → Wrote f (i + 1) rs old u t
    → Wrote f i (r ∷ rs) old s t
unfolding Contents
Wrote-cons f i r rs old s u t less inside inside1 m saved fresh first rest =
    let n = s.nextbno in
    let next = nextbno-filled r s in
    let ind1 : get_field f indirect_word (filled r s) ≡ get_field f indirect_word s =
      get_field-filled f indirect_word r s inside in
    let other = λ (b : ℕ) (ne : b ≢ get_field f indirect_word s) (l : b ≤ n).
      other_indirect b (get_field f indirect_word u) (get_field f indirect_word (filled r s))
        (filled r s).nextbno saved.same_indirect (λ e. ne (e ∙ ind1)) (omega (arith, next, l)) in
    let apart = Apart-Inside f n n (omega arith) inside in
    let new : n ≢ get_field f indirect_word s = omega (arith, less) in
    let link = rest.earlier i (omega arith) ∙ saved.link in
    let content =
      rest.kept n apart (other n new (omega arith)) (omega (arith, next, saved.more))
      ∙ saved.kept n apart (λ e. new (e ∙ ind1)) (inl (omega (arith, next)))
      ∙ words-new r s
      ∙ ap r fresh in
    record {
      ok = first ∙ rest.ok;
      contents = (subst (λ b. t.words b ≡ r (old b)) (sym link) content, rest.contents);
      earlier = λ j h.
          rest.earlier j (omega (arith, h))
          ∙ saved.earlier j h
          ∙ block_link-filled f j r s inside less;
      kept = λ b apart_b ne l.
          rest.kept b apart_b (other b ne (omega (arith, l))) (omega (arith, next, saved.more, l))
          ∙ saved.kept b apart_b (λ e. ne (e ∙ ind1)) (inl (omega (arith, next, l)))
          ∙ words-old r s b (omega (arith, l));
    }

write_blocks-Wrote :
    (f : Place) (i : ℕ) (rs : Reads) (old : ℕ → ℕ → ℕ) (s : Image)
    → i + length rs ≤ nindirect
    → Inside f s.nextbno
    → Ready f i (length rs) s
    → ((b : ℕ) → s.nextbno ≤ b → s.words b ≡ old b)
    → (t : Image) × Wrote f i rs old s t
unfolding Contents write_blocks
write_blocks-Wrote f i [] old s m inside ready fresh =
    (s, record { ok = refl; contents = tt; earlier = λ j h. refl; kept = λ b a ne l. refl })
write_blocks-Wrote f i (r ∷ rs) old s m inside ready fresh =
    let next = nextbno-filled r s in
    let inside1 : Inside f (filled r s).nextbno =
      Inside-later f s.nextbno (filled r s).nextbno (omega (arith, next)) inside in
    let ready1 = Ready-filled f i (length rs) r s inside ready in
    let save =
      save_block_link-Saved f i (length rs) s.nextbno (filled r s) (omega (arith, m)) inside1
        ready1 in
    let u = save.0 in
    let saved = save.1 in
    let less : get_field f indirect_word s < s.nextbno =
      indirect-lt f i (length (r ∷ rs)) s inside ready in
    let ind1 : get_field f indirect_word (filled r s) ≡ get_field f indirect_word s =
      get_field-filled f indirect_word r s inside in
    let inside2 = Inside-later f (filled r s).nextbno u.nextbno saved.more inside1 in
    let fresh2 = λ (b : ℕ) (h : u.nextbno ≤ b).
      saved.kept b (Apart-Inside f u.nextbno b h inside2)
        (omega (arith, less, ind1, next, saved.more, h)) (inr h)
      ∙ words-old r s b (omega (arith, next, saved.more, h))
      ∙ fresh b (omega (arith, next, saved.more, h)) in
    let rest =
      write_blocks-Wrote f (i + 1) rs old u (omega (arith, m)) inside2 saved.ready fresh2 in
    (
      rest.0,
      Wrote-cons f i r rs old s u rest.0 less inside inside1 m saved (fresh s.nextbno (omega arith))
          (save_ok f i r rs s u ready saved) rest.1,
    )

-- `write_file` puts what it reads into the blocks of a file that has no indirect block yet, as far
-- as the blocks of the disk and the links of a file suffice: its loop ends without a failed
-- assertion or an index past the disk, block `i` of the file, found as fs/fs.c finds it, holds what
-- the read number `i` left, directly or over the indirect block, and no block in use before has
-- changed but the one with the file's struct and the boot block.
pub write_blocks-Contents :
    (f : Place) (rs : Reads) (s : Image)
    → get_field f indirect_word s ≡ 0
    → Inside f s.nextbno
    → length rs ≤ nindirect
    → s.nextbno + length rs + 1 ≤ nblock
    → (t : Image) × (write_blocks f 0 rs s ≡ built tt t)
      × Contents f 0 rs s.words t
      × ((b : ℕ) → Apart f b → b ≢ 0 → b < s.nextbno → t.words b ≡ s.words b)
write_blocks-Contents f rs s none_yet inside few room =
    let r =
      write_blocks-Wrote f 0 rs s.words s (omega (arith, few)) inside
        (direct none_yet (omega arith) room) (λ b h. refl) in
    (r.0, r.1.ok, r.1.contents, λ b apart ne l. r.1.kept b apart (λ e. ne (e ∙ none_yet)) l)

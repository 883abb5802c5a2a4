-- ===== src/Fsformat/Links.antt =====
-- The blocks that `write_file` of tools/fsformat.c links to a file.
use buaa_mos_with_swap.Prelude.{
  ℕ, ◌+◌, ◌≤◌, ◌<◌, ◌≡◌, ◌≢◌, ◌⊎◌, refl, ap, ◌∙◌, arith, ltb, ◌==◌, if◌then◌else◌, update,
}
use buaa_mos_with_swap.Fs.{ndirect}
use buaa_mos_with_swap.Fsformat.{
  Image, nblock, Place, in_super, in_block, get_field, set_field, direct_word, indirect_word,
}

-- The file's struct is not in the block `b`; it is in no block from `m` on.
unfoldable pub Apart : Place → ℕ → Type 0
Apart in_super b = Unit {0}
Apart (in_block c k) b = b ≢ c

unfoldable pub Inside : Place → ℕ → Type 0
Inside in_super m = 0 < m
Inside (in_block c k) m = c < m

-- The block that a file has at `i`, as `file_block_walk` of fs/fs.c finds it.
unfoldable pub block_link : Place → ℕ → Image → ℕ
block_link f i s =
    if ltb i ndirect then get_field f (direct_word i) s else s.words (get_field f indirect_word s) i

pub Inside-later : (f : Place) (m n : ℕ) → m ≤ n → Inside f m → Inside f n
unfolding Inside
Inside-later in_super m n l h = omega (arith, l, h)
Inside-later (in_block c k) m n l h = omega (arith, l, h)

pub Apart-Inside : (f : Place) (m b : ℕ) → m ≤ b → Inside f m → Apart f b
unfolding Inside Apart
Apart-Inside in_super m b l h = tt
Apart-Inside (in_block c k) m b l h = omega (arith, l, h)

pub some_block : (f : Place) (m : ℕ) → Inside f m → 0 < m
unfolding Inside
some_block in_super m h = h
some_block (in_block c k) m h = omega (arith, h)

pub get_field-set_field :
    (f : Place) (i j v : ℕ) (s : Image)
    → get_field f i (set_field f j v s) ≡ (if j == i then v else get_field f i s)
unfolding get_field set_field
get_field-set_field in_super i j v s = refl
get_field-set_field (in_block b k) i j v s = ground arith

pub words-set_field :
    (f : Place) (j v b : ℕ) (s : Image) → Apart f b → (set_field f j v s).words b ≡ s.words b
unfolding set_field Apart
words-set_field in_super j v b s h = refl
words-set_field (in_block c k) j v b s h = ground (arith, h)

pub nextbno-set_field : (f : Place) (j v : ℕ) (s : Image) → (set_field f j v s).nextbno ≡ s.nextbno
unfolding set_field
nextbno-set_field in_super j v s = refl
nextbno-set_field (in_block c k) j v s = refl

-- A change of a block that the struct is not in.
pub get_field-words :
    (f : Place) (i b : ℕ) (w : ℕ → ℕ) (s : Image)
    → Apart f b
    → get_field f i (record s { words = update s.words b w }) ≡ get_field f i s
unfolding get_field Apart
get_field-words in_super i b w s h = refl
get_field-words (in_block c k) i b w s h = ground (arith, h)

-- `n` more blocks can be linked from `i` on.
pub data Ready (f : Place) (i n : ℕ) (s : Image) : Type 0 where
  direct :
      get_field f indirect_word s ≡ 0 → i ≤ ndirect → s.nextbno + n + 1 ≤ nblock → Ready f i n s
  indirect :
      (b : ℕ)
      → get_field f indirect_word s ≡ b
      → ndirect < i
      → 0 < b
      → b < s.nextbno
      → Apart f b
      → s.nextbno + n ≤ nblock
      → Ready f i n s

pub le_or_lt : (a b : ℕ) → (a ≤ b) ⊎ (b < a)
le_or_lt a b = omega arith

pub block_link-early :
    (f : Place) (j : ℕ) (s : Image) → j < ndirect → block_link f j s ≡ get_field f (direct_word j) s
unfolding block_link
block_link-early f j s h = ground (arith, h)

pub block_link-late :
    (f : Place) (j b : ℕ) (s : Image)
    → ndirect ≤ j
    → get_field f indirect_word s ≡ b
    → block_link f j s ≡ s.words b j
unfolding block_link
block_link-late f j b s h at = ground (arith, h) ∙ ap (λ c. s.words c j) at

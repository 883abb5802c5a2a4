-- ===== src/Tests/Formatting.antt =====
-- An empty image, and a file of twelve blocks in its root.
use buaa_mos_with_swap.Prelude.{
  ℕ, zero, suc, ◌+◌, ◌-◌, ◌*◌, ◌/◌, ◌<◌, ◌≡◌, ◌≢◌, refl, ap, arith, true, false, ◌&&◌, List, [],
  ◌∷◌, leb, ltb,
}
use buaa_mos_with_swap.Fs.{Server, diskmap, block_size}
use buaa_mos_with_swap.Fs.Cache.{marked_free}
use buaa_mos_with_swap.Fsformat.{
  Image, built, in_super, init_disk, flush_bitmap, nblock, write_blocks, get_field, block_data,
}
use buaa_mos_with_swap.Fsformat.Bitmap.{Takes, marked_free-flush_bitmap}
use buaa_mos_with_swap.Fsformat.Links.{Apart, Inside}
use buaa_mos_with_swap.Fsformat.Content.{Contents, write_blocks-Contents}

abbrev blank : Image
blank = record {
  words = λ b i. 0;
  type = λ b. 0;
  s_magic = 0;
  s_nblocks = 0;
  s_root = λ i. 0;
  nbitblock = 0;
  nextbno = 0;
}

-- Two blocks are in use after the bitmap.
abbrev used : Image
used = record (init_disk blank) { nextbno = 5 }

abbrev bitmap_at : ℕ
bitmap_at = diskmap + 2 * block_size

abbrev loaded : Server
loaded = record {
  mem = λ a. (flush_bitmap used).words 2 (a - bitmap_at / 4);
  mapped = λ v. true;
  dirty = λ v. false;
  disk = λ b i. 0;
  super = diskmap + block_size;
  bitmap = bitmap_at;
  grants = λ n. true;
  asked = 0;
}

same_word : (w : ℕ) → loaded.mem (loaded.bitmap / 4 + w) ≡ (flush_bitmap used).words 2 w
same_word w =
    let e : bitmap_at / 4 + w - bitmap_at / 4 ≡ w = omega arith in
    ap ((flush_bitmap used).words 2) e

marked_free-flush_bitmap_example :
    (marked_free 7 loaded ≡ (leb 5 7 && ltb 7 nblock)) × Takes block_data 7 used
marked_free-flush_bitmap_example =
    marked_free-flush_bitmap blank used loaded 7 block_data (λ w. refl) refl (λ w h. same_word w)
      (omega arith)

abbrev reads : ℕ → List ((ℕ → ℕ) → ℕ → ℕ)
reads zero = []
reads (suc n) = (λ w i. n + i) ∷ reads n

abbrev image : Image
image = record blank { nextbno = 3 }

root-Inside : Inside in_super 3
unfolding Inside
root-Inside = omega arith

no_indirect : get_field in_super 44 image ≡ 0
unfolding get_field
no_indirect = refl

write_blocks-Contents_example :
    (t : Image) × (write_blocks in_super 0 (reads 12) image ≡ built tt t)
    × Contents in_super 0 (reads 12) image.words t
    × ((b : ℕ) → Apart in_super b → b ≢ 0 → b < 3 → t.words b ≡ image.words b)
write_blocks-Contents_example =
    write_blocks-Contents in_super (reads 12) image no_indirect root-Inside (omega arith)
      (omega arith)

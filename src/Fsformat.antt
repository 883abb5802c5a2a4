-- ===== src/Fsformat.antt =====
-- tools/fsformat.c, which writes the disk image of the file system.
--
-- A block is its 32-bit words, with their lowest byte first. A `struct File` is the one in the
-- superblock or one in a block, by their numbers, and its fields are words of it.
pub mod Bitmap
pub mod Links
pub mod Saves
pub mod Content
pub mod Trees
use buaa_mos_with_swap.Prelude.{
  ℕ, zero, suc, ◌+◌, ◌-◌, ◌*◌, ◌/◌, ◌%◌, ◌^◌, Bool, true, false, ◌&&◌, ◌||◌, not, List, [], ◌∷◌,
  Option, none, some, leb, ltb, ◌==◌, if◌then◌else◌, update, clear_bit,
}
use buaa_mos_with_swap.Fs.{
  block_size, block_size_bit, ndirect, nindirect, file2blk, ftype_dir, fs_magic, maxnamelen,
}

abbrev pub nblock : ℕ
nblock = 1024

abbrev pub ftype_reg : ℕ
ftype_reg = 0

-- The types of blocks.
abbrev pub block_boot : ℕ
block_boot = 1

abbrev pub block_bmap : ℕ
block_bmap = 2

abbrev pub block_super : ℕ
block_super = 3

abbrev pub block_data : ℕ
block_data = 4

abbrev pub block_file : ℕ
block_file = 5

abbrev pub block_index : ℕ
block_index = 6

-- `disk` (`words` and `type`), `super` and the other variables of the program.
pub record Image : Type 0 where
  pub words : ℕ → ℕ → ℕ
  pub type : ℕ → ℕ
  pub s_magic : ℕ
  pub s_nblocks : ℕ
  pub s_root : ℕ → ℕ
  pub nbitblock : ℕ
  pub nextbno : ℕ

-- `overrun` is an index past the end of `disk`.
pub data Built (A : Type 0) : Type 0 where
  built : A → Image → Built A
  failed_assert : Built A
  exited : Built A
  overrun : Built A

abbrev pub B : Type 0 → Type 0
B A = Image → Built A

module _ {A C : Type 0} where
  unfoldable pub and_then : Built A → (A → B C) → Built C
  and_then (built a s) k = k a s
  and_then failed_assert k = failed_assert
  and_then exited k = exited
  and_then overrun k = overrun

-- The loops of `init_disk` over the `n` bitmap blocks from `i` on.
unfoldable pub type_bitmap : ℕ → ℕ → Image → Image
type_bitmap zero i s = s
type_bitmap (suc n) i s =
    type_bitmap n (i + 1) (record s { type = update s.type (2 + i) block_bmap })

unfoldable pub fill_bitmap : ℕ → ℕ → Image → Image
fill_bitmap zero i s = s
fill_bitmap (suc n) i s = fill_bitmap n (i + 1) (record s {
  words = update s.words (2 + i) (λ j. if ltb j nindirect then 0xffffffff else s.words (2 + i) j);
})

-- `memset(data + diff, 0x00, BLOCK_SIZE - diff)` of a block, where `diff` is a multiple of 4.
unfoldable pub clear_from : ℕ → ℕ → Image → Image
clear_from b diff s = record s {
  words = update s.words b (λ j. if leb (diff / 4) j && ltb j nindirect then 0 else s.words b j);
}

unfoldable pub bound_bitmap : Image → Image
bound_bitmap s =
    if nblock == s.nbitblock * block_size_bit
    then s
    else clear_from (2 + (s.nbitblock - 1)) (nblock % block_size_bit / 8) s

-- The word of a name of one character, and the type, of a file's words.
abbrev pub type_word : ℕ
type_word = 33

-- `FS_MAGIC`, `NBLOCK`, `FTYPE_DIR` and the name `/`.
unfoldable pub init_super : Image → Image
init_super s = record s {
  type = update s.type 1 block_super;
  s_magic = fs_magic;
  s_nblocks = nblock;
  s_root = update (update s.s_root type_word ftype_dir) 0 (s.s_root 0 / 2 ^ 16 * 2 ^ 16 + b'/');
}

unfoldable pub init_disk : Image → Image
init_disk s =
    let n = (nblock + block_size_bit - 1) / block_size_bit in
    let t = record s { type = update s.type 0 block_boot; nbitblock = n; nextbno = 2 + n } in
    init_super (bound_bitmap (fill_bitmap n 0 (type_bitmap n 0 t)))

-- There is no test that a block is left: the next one is past `disk` then.
unfoldable pub next_block : ℕ → B ℕ
next_block type s =
    if ltb s.nextbno nblock
    then built s.nextbno (record s { type = update s.type s.nextbno type; nextbno = s.nextbno + 1 })
    else overrun

-- The loop over the `n` blocks from `i` on.
unfoldable pub flush_bits : ℕ → ℕ → Image → Image
flush_bits zero i s = s
flush_bits (suc n) i s =
    let b = 2 + i / block_size_bit in
    let w = i % block_size_bit / 32 in
    flush_bits n (i + 1) (record s {
      words = update s.words b (update (s.words b) w (clear_bit (s.words b w) (i % 32)));
    })

unfoldable pub flush_bitmap : Image → Image
flush_bitmap s = flush_bits s.nextbno 0 s

-- A `struct File *`.
pub data Place : Type 0 where
  in_super : Place
  in_block : ℕ → ℕ → Place

unfoldable pub get_field : Place → ℕ → Image → ℕ
get_field in_super i s = s.s_root i
get_field (in_block b k) i s = s.words b (64 * k + i)

unfoldable pub set_field : Place → ℕ → ℕ → Image → Image
set_field in_super i v s = record s { s_root = update s.s_root i v }
set_field (in_block b k) i v s = record s {
  words = update s.words b (update (s.words b) (64 * k + i) v);
}

-- The words of `f_size`, `f_type`, `f_direct` and `f_indirect`.
abbrev pub size_word : ℕ
size_word = 32

abbrev pub direct_word : ℕ → ℕ
direct_word i = 34 + i

abbrev pub indirect_word : ℕ
indirect_word = 44

-- `((uint32_t *)(disk[f->f_indirect].data))[nblk] = bno;`
unfoldable pub link_in : Place → ℕ → ℕ → B (Unit {0})
link_in f nblk bno s =
    let b = get_field f indirect_word s in
    if ltb b nblock
    then built tt (record s { words = update s.words b (update (s.words b) nblk bno) })
    else overrun

unfoldable pub save_block_link : Place → ℕ → ℕ → B (Unit {0})
save_block_link f nblk bno s =
    if leb nindirect nblk
    then failed_assert
    else if ltb nblk ndirect
    then built tt (set_field f (direct_word nblk) bno s)
    else if get_field f indirect_word s == 0
    then and_then (next_block block_index s)
        (λ b t. link_in f nblk bno (set_field f indirect_word b t))
    else link_in f nblk bno s

unfoldable pub make_link_block : Place → ℕ → B ℕ
make_link_block dirf nblk s = and_then (next_block block_file s) λ bno t.
    and_then (save_block_link dirf nblk bno t) λ _ u.
      built bno (set_field dirf size_word ((get_field dirf size_word u + block_size) % 2 ^ 32) u)

-- The number of the `i`-th block of a directory. The cast of the code is applied to a byte: the
-- `i`-th byte of the indirect block.
unfoldable pub dir_block : Place → ℕ → Image → ℕ
dir_block dirf i s =
    if ltb i ndirect
    then get_field dirf (direct_word i) s
    else s.words (get_field dirf indirect_word s) (i / 4) / 256 ^ (i % 4) % 256

-- The first of the `n` files from `k` on in a block whose name starts with a zero byte.
unfoldable pub unused_file : ℕ → ℕ → ℕ → Image → Option Place
unused_file zero k bno s = none
unused_file (suc n) k bno s =
    let rest = unused_file n (k + 1) bno s in
    if get_field (in_block bno k) 0 s % 256 == 0 then some (in_block bno k) else rest

unfoldable pub place_or : B Place → Option Place → B Place
place_or next none = next
place_or next (some f) = built f

unfoldable pub new_block_file : Place → ℕ → B Place
new_block_file dirf nblk s = and_then (make_link_block dirf nblk s) λ b. built (in_block b 0)

-- The loop over the `n` blocks from `i` on, and what comes after it.
unfoldable pub find_unused : ℕ → ℕ → Place → B Place
find_unused zero i dirf s = new_block_file dirf i s
find_unused (suc n) i dirf s =
    let rest = find_unused n (i + 1) dirf in
    let bno = dir_block dirf i s in
    let indirect = get_field dirf indirect_word s in
    if leb ndirect i && leb nblock indirect
    then overrun
    else if leb nblock bno
    then overrun
    else place_or rest (unused_file file2blk 0 bno s) s

unfoldable pub create_file : Place → B Place
create_file dirf s = find_unused (get_field dirf size_word s / block_size) 0 dirf s

-- A file of the host: the end of it as `lseek` gives it, and of each `read` that returns bytes what
-- it makes of the words of a block.
pub record HostFile : Type 0 where
  pub size : ℕ
  pub reads : List ((ℕ → ℕ) → ℕ → ℕ)

-- The loop of `write_file`, from the block `iblk` of the file on.
unfoldable pub write_blocks : Place → ℕ → List ((ℕ → ℕ) → ℕ → ℕ) → B (Unit {0})
write_blocks f iblk [] s = built tt s
write_blocks f iblk (r ∷ rs) s =
    let rest = write_blocks f (iblk + 1) rs in
    if leb nblock s.nextbno
    then overrun
    else and_then
        (next_block block_data
          (record s { words = update s.words s.nextbno (r (s.words s.nextbno)) }))
        (λ bno t. and_then (save_block_link f iblk bno t) (λ _. rest))

-- Byte `i` of a file's struct.
unfoldable pub set_byte : Place → ℕ → ℕ → Image → Image
set_byte f i c s =
    let w = get_field f (i / 4) s in
    set_field f (i / 4) (w - w / 256 ^ (i % 4) % 256 * 256 ^ (i % 4) + c * 256 ^ (i % 4)) s

-- `strcpy(f->f_name, name)`, from the byte `i` on.
unfoldable pub put_name : Place → ℕ → List ℕ → Image → Image
put_name f i [] s = set_byte f i 0 s
put_name f i (c ∷ cs) s = put_name f (i + 1) cs (set_byte f i c s)

-- What comes behind the last slash of a path, or the path.
unfoldable pub after_slash : List ℕ → Option (List ℕ)
after_slash [] = none
after_slash (c ∷ cs) = elim (after_slash cs) [
  | some name ↦ some name
  | none ↦ if c == b'/' then some cs else none
]

unfoldable pub file_name : List ℕ → List ℕ
file_name path = elim (after_slash path) [ none ↦ path | some name ↦ name ]

unfoldable pub write_file : Place → List ℕ → HostFile → B (Unit {0})
write_file dirf path host s = and_then (create_file dirf s) λ target t.
    write_blocks target 0 host.reads (
      set_field target type_word ftype_reg
        (set_field target size_word (host.size % 2 ^ 32) (put_name target 0 (file_name path) t)))

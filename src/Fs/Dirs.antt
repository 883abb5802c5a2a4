-- ===== src/Fs/Dirs.antt =====
-- Directories and paths in fs/fs.c. A path or a name is the list of its characters before the zero.
pub mod Paths
use buaa_mos_with_swap.Prelude.{
  ℕ, zero, suc, ◌+◌, ◌-◌, ◌*◌, ◌/◌, ◌%◌, ◌^◌, Bool, true, false, ◌&&◌, ◌||◌, not, List, [], ◌∷◌,
  Option, none, some, leb, ltb, ◌==◌, if◌then◌else◌, update, length, is_nil,
}
use buaa_mos_with_swap.Fs.{
  Server, Outcome, ok, panic, null_deref, hang, Error, Result, success, failure, M, pure, ◌>>=◌,
  ◌>>◌, get, modify, or_fail, try, load, store, e_not_found, e_bad_path, e_file_exists, block_size,
  maxnamelen, file2blk, file_struct_size, ftype_dir, f_size, f_type, f_dir, s_root,
}
use buaa_mos_with_swap.Fs.Files.{file_get_block, file_truncate, file_flush, flush_dir}

-- The byte at an address, in words with their lowest byte first, and its change.
unfoldable pub byte_at : ℕ → Server → ℕ
byte_at a s = s.mem (a / 4) / 256 ^ (a % 4) % 256

unfoldable pub set_byte : ℕ → ℕ → M (Unit {0})
set_byte a c s = store a (s.mem (a / 4) - byte_at a s * 256 ^ (a % 4) + c * 256 ^ (a % 4)) s

-- `strcmp(f->f_name, name) == 0`.
unfoldable pub name_is : List ℕ → ℕ → Server → Bool
name_is [] a s = byte_at a s == 0
name_is (c ∷ cs) a s = (byte_at a s == c) && name_is cs (a + 1) s

-- `strcpy(f->f_name, name)`.
unfoldable pub strcpy : ℕ → List ℕ → M (Unit {0})
strcpy a [] = set_byte a 0
strcpy a (c ∷ cs) = set_byte a c >> strcpy (a + 1) cs

-- The first of `n` files from `f` on that passes the test.
unfoldable pub find_file : ℕ → ℕ → (ℕ → Bool) → Option ℕ
find_file zero f test = none
find_file (suc n) f test =
    let rest = find_file n (f + file_struct_size) test in if test f then some f else rest

-- Set up `f_dir`, and leave the loop with the file; or go on.
unfoldable pub found_or : ℕ → M (Result ℕ) → Option ℕ → M (Result ℕ)
found_or dir next none = next
found_or dir next (some f) = store (f_dir f) dir >> pure (success f)

-- The `n` blocks of the directory from `i` on.
unfoldable pub lookup_blocks : ℕ → ℕ → ℕ → List ℕ → M (Result ℕ)
lookup_blocks zero i dir name = pure (failure e_not_found)
lookup_blocks (suc n) i dir name = try (file_get_block dir i) λ blk.
    get (λ s. find_file file2blk blk λ f. name_is name f s)
    >>= found_or dir (lookup_blocks n (i + 1) dir name)

-- The address that goes to `*file`.
unfoldable pub dir_lookup : ℕ → List ℕ → M (Result ℕ)
dir_lookup dir name = load (f_size dir) >>= λ size. lookup_blocks (size / block_size) 0 dir name

unfoldable pub free_or : M (Result ℕ) → Option ℕ → M (Result ℕ)
free_or next none = next
free_or next (some f) = pure (success f)

-- After the loop: one more block, whose first file is taken.
unfoldable pub free_files : ℕ → ℕ → ℕ → M (Result ℕ)
free_files zero i dir = do
  size ← load (f_size dir)
  store (f_size dir) ((size + block_size) % 2 ^ 32)
  file_get_block dir i
free_files (suc n) i dir = try (file_get_block dir i) λ blk.
    get (λ s. find_file file2blk blk λ f. byte_at f s == 0) >>= free_or (free_files n (i + 1) dir)

unfoldable pub dir_alloc_file : ℕ → M (Result ℕ)
dir_alloc_file dir = load (f_size dir) >>= λ size. free_files (size / block_size) 0 dir

unfoldable pub skip_slash : List ℕ → List ℕ
skip_slash [] = []
skip_slash (c ∷ cs) = if c == b'/' then skip_slash cs else c ∷ cs

-- `while (*path != '/' && *path != '\0') path++;`: what it passes, and where it stops.
unfoldable pub split_name : List ℕ → List ℕ × List ℕ
split_name [] = ([], [])
split_name (c ∷ cs) =
    let (name, rest) = split_name cs in if c == b'/' then ([], c ∷ cs) else (c ∷ name, rest)

-- What `walk_path` returns (`none` for 0), `*pdir`, `*pfile`, and `lastelem` where it is set.
pub record Walk : Type 0 where
  pub error : Option Error
  pub pdir : ℕ
  pub pfile : ℕ
  pub lastelem : List ℕ

abbrev pub failed : Error → Walk
failed e = record { error = some e; pdir = 0; pfile = 0; lastelem = [] }

unfoldable pub is_not_found : Error → Bool
is_not_found e_not_found = true
is_not_found _ = false

-- After `dir_lookup`: the rest of the walk, or the end of it.
unfoldable pub next_step : ℕ → List ℕ → Bool → (ℕ → M Walk) → Result ℕ → M Walk
next_step dir name at_end walk (success file) = walk file
next_step dir name at_end walk (failure e) = pure (
    if is_not_found e && at_end
    then record { error = some e; pdir = dir; pfile = 0; lastelem = name }
    else failed e)

-- One round of the loop, in `dir`, over `name`; `walk` are the rounds after it.
unfoldable pub enter_dir : ℕ → List ℕ → Bool → (ℕ → M Walk) → M Walk
enter_dir dir name at_end walk =
    if leb maxnamelen (length name) then pure (failed e_bad_path) else (do
      type ← load (f_type dir)
      if type == ftype_dir
          then (dir_lookup dir name >>= next_step dir name at_end walk)
          else pure (failed e_not_found))

-- The loop, at `file` in `dir`, on fuel.
unfoldable pub walk_from : ℕ → ℕ → ℕ → List ℕ → M Walk
walk_from fuel dir file [] = pure record { error = none; pdir = dir; pfile = file; lastelem = [] }
walk_from zero dir file (c ∷ cs) = λ s. hang
walk_from (suc fuel) dir file (c ∷ cs) =
    let (name, rest) = split_name (c ∷ cs) in
    let path = skip_slash rest in
    enter_dir file name (is_nil path) λ next. walk_from fuel file next path

-- A round takes at least one character.
unfoldable pub walk_path : List ℕ → M Walk
walk_path path s = walk_from (length path) 0 (s_root s.super) (skip_slash path) s

unfoldable pub opened : Walk → Result ℕ
opened w = elim w.error [ none ↦ success w.pfile | some e ↦ failure e ]

unfoldable pub file_open : List ℕ → M (Result ℕ)
file_open path = walk_path path >>= λ w. pure (opened w)

-- `return r;` with the result of `walk_path`, also where `dir_alloc_file` fails.
unfoldable pub name_file : Error → List ℕ → Result ℕ → M (Result ℕ)
name_file r name (success f) = strcpy f name >> pure (success f)
name_file r name (failure e) = pure (failure r)

unfoldable pub create_in : Walk → Option Error → M (Result ℕ)
create_in w none = pure (failure e_file_exists)
create_in w (some r) =
    if not (is_not_found r) || w.pdir == 0
    then pure (failure r)
    else dir_alloc_file w.pdir >>= name_file r w.lastelem

unfoldable pub file_create : List ℕ → M (Result ℕ)
file_create path = walk_path path >>= λ w. create_in w w.error

unfoldable pub remove_file : ℕ → M (Result (Unit {0}))
remove_file f =
    file_truncate f 0 >> set_byte f 0 >> file_flush f >> flush_dir f >> pure (success tt)

unfoldable pub file_remove : List ℕ → M (Result (Unit {0}))
file_remove path = try (file_open path) remove_file

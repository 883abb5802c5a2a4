-- ===== src/Fsformat/Trees.antt =====
-- Directories of the host and `main` of tools/fsformat.c.
use buaa_mos_with_swap.Prelude.{
  ℕ, zero, suc, ◌+◌, ◌-◌, ◌/◌, ◌%◌, ◌^◌, Bool, true, false, ◌&&◌, not, List, [], ◌∷◌, ◌++◌, ltb,
  ◌==◌, if◌then◌else◌, update,
}
use buaa_mos_with_swap.Fs.{ftype_dir, maxnamelen}
use buaa_mos_with_swap.Fsformat.{
  Image, built, exited, B, and_then, Place, in_super, get_field, set_field, type_word, HostFile,
  set_byte, create_file, write_file, init_disk, flush_bitmap,
}

-- What `readdir` gives, or the arguments of the program: files, directories with what is in them,
-- directories that `opendir` does not open, and what is neither.
pub data Listing : Type 0 where
  done : Listing
  file : List ℕ → HostFile → Listing → Listing
  directory : List ℕ → Listing → Listing → Listing
  closed : List ℕ → Listing → Listing
  other : List ℕ → HostFile → Listing → Listing

-- `strncpy(f->f_name, name, n)` from the byte `i` on: zeros behind a shorter name.
unfoldable pub put_padded : Place → ℕ → ℕ → List ℕ → Image → Image
put_padded f zero i cs s = s
put_padded f (suc n) i [] s = put_padded f n (i + 1) [] (set_byte f i 0 s)
put_padded f (suc n) i (c ∷ cs) s = put_padded f n (i + 1) cs (set_byte f i c s)

unfoldable pub name_byte : Place → ℕ → Image → ℕ
name_byte f i s = get_field f (i / 4) s / 256 ^ (i % 4) % 256

unfoldable pub name_directory : List ℕ → Place → B Place
name_directory name pdir s =
    let t = put_padded pdir (maxnamelen - 1) 0 name s in
    if not (name_byte pdir (maxnamelen - 1) t == 0)
    then exited
    else built pdir (set_field pdir type_word ftype_dir t)

-- `.` and `..`.
unfoldable pub is_dots : List ℕ → Bool
is_dots [] = false
is_dots (c ∷ []) = c == b'.'
is_dots (c ∷ d ∷ []) = (c == b'.') && (d == b'.')
is_dots (c ∷ d ∷ x ∷ cs) = false

-- `sprintf(buf, "%s/%s", path, e->d_name)`.
unfoldable pub join : List ℕ → List ℕ → List ℕ
join path name = path ++ b'/' ∷ name

-- `memcpy(disk[1].data, &super, sizeof(super))`: 264 bytes.
unfoldable pub copy_super : Image → Image
copy_super s =
    let word =
      λ (j : ℕ). if j == 0 then s.s_magic else if j == 1 then s.s_nblocks else s.s_root (j - 2) in
    record s { words = update s.words 1 (λ j. if ltb j 66 then word j else s.words 1 j) }

unfoldable pub is_done : Listing → Bool
is_done done = true
is_done _ = false

-- `basename` is that of the host.
module _ (basename : List ℕ → List ℕ) where
  unfoldable pub new_directory : Place → List ℕ → B Place
  new_directory dirf path s = and_then (create_file dirf s) (name_directory (basename path))

  -- The loop of `write_directory` over the entries of the directory at `path`, which go to `pdir`.
  unfoldable pub write_entries : List ℕ → Place → Listing → B (Unit {0})
  write_entries path pdir done s = built tt s
  write_entries path pdir (file name host rest) s =
      let go_on = write_entries path pdir rest in
      if is_dots name
      then go_on s
      else and_then (write_file pdir (join path name) host s) (λ _. go_on)
  write_entries path pdir (directory name inner rest) s =
      let go_on = write_entries path pdir rest in
      let enter = λ (dir : Place). write_entries (join path name) dir inner in
      if is_dots name
      then go_on s
      else and_then (and_then (new_directory pdir (join path name) s) enter) (λ _. go_on)
  write_entries path pdir (closed name rest) s = write_entries path pdir rest s
  write_entries path pdir (other name host rest) s =
      let go_on = write_entries path pdir rest in
      if is_dots name
      then go_on s
      else and_then (write_file pdir (join path name) host s) (λ _. go_on)

  -- The loop of `main` over the arguments.
  unfoldable pub write_arguments : Listing → B (Unit {0})
  write_arguments done s = built tt s
  write_arguments (file name host rest) s =
      and_then (write_file in_super name host s) (λ _. write_arguments rest)
  write_arguments (directory name inner rest) s =
      and_then (and_then (new_directory in_super name s) (λ dir. write_entries name dir inner))
        (λ _. write_arguments rest)
  write_arguments (closed name rest) s = write_arguments rest s
  write_arguments (other name host rest) s = exited

  -- The image that is written to the file, where there are arguments.
  unfoldable pub run_fsformat : Listing → B (Unit {0})
  run_fsformat args s =
      let image =
        and_then (write_arguments args (init_disk s))
          (λ _ t. built tt (copy_super (flush_bitmap t))) in
      if is_done args then exited else image

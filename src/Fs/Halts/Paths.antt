-- ===== src/Fs/Halts/Paths.antt =====
-- The routines of fs/fs.c for directories and paths return or stop.
use buaa_mos_with_swap.Prelude.{ℕ, zero, suc, ◌+◌, Bool, List, [], ◌∷◌, Option, none, some, is_nil}
use buaa_mos_with_swap.Fs.{Error, Result, success, failure, M, s_root}
use buaa_mos_with_swap.Fs.Dirs
use buaa_mos_with_swap.Fs.Dirs.Paths.{components, walk_names, walk_path_lem}
use buaa_mos_with_swap.Fs.Halts.{
  NoHang, pure-NoHang, bind-NoHang, then-NoHang, try-NoHang, get-NoHang, store-NoHang, no_hang,
}
use buaa_mos_with_swap.Fs.Halts.Blocks.{
  file_get_block-NoHang, file_truncate-NoHang, file_flush-NoHang, flush_dir-NoHang,
}

-- Directories and paths.
set_byte-NoHang : (a c : ℕ) → NoHang (Dirs.set_byte a c)
unfolding Dirs.set_byte
set_byte-NoHang a c = record { halts = λ s. (store-NoHang a _).halts s }

strcpy-NoHang : (a : ℕ) (cs : List ℕ) → NoHang (Dirs.strcpy a cs)
unfolding Dirs.strcpy
strcpy-NoHang a [] = set_byte-NoHang a 0
strcpy-NoHang a (c ∷ cs) = then-NoHang (set_byte-NoHang a c) (strcpy-NoHang (a + 1) cs)

found_or-NoHang :
    (dir : ℕ) {m : M (Result ℕ)} (o : Option ℕ) → NoHang m → NoHang (Dirs.found_or dir m o)
unfolding Dirs.found_or
found_or-NoHang dir none h = h
found_or-NoHang dir (some f) h = search no_hang depth 14

lookup_blocks-NoHang : (n i dir : ℕ) (name : List ℕ) → NoHang (Dirs.lookup_blocks n i dir name)
unfolding Dirs.lookup_blocks
lookup_blocks-NoHang zero i dir name = pure-NoHang _
lookup_blocks-NoHang (suc n) i dir name =
    let rest = lookup_blocks-NoHang n (i + 1) dir name in
    try-NoHang (file_get_block-NoHang dir i)
      λ blk. bind-NoHang (get-NoHang _) λ o. found_or-NoHang dir o rest

dir_lookup-NoHang : (dir : ℕ) (name : List ℕ) → NoHang (Dirs.dir_lookup dir name)
unfolding Dirs.dir_lookup
dir_lookup-NoHang dir name = search (no_hang, lookup_blocks-NoHang) depth 14

free_or-NoHang : {m : M (Result ℕ)} (o : Option ℕ) → NoHang m → NoHang (Dirs.free_or m o)
unfolding Dirs.free_or
free_or-NoHang none h = h
free_or-NoHang (some f) h = pure-NoHang _

free_files-NoHang : (n i dir : ℕ) → NoHang (Dirs.free_files n i dir)
unfolding Dirs.free_files
free_files-NoHang zero i dir = search (no_hang, file_get_block-NoHang) depth 14
free_files-NoHang (suc n) i dir =
    let rest = free_files-NoHang n (i + 1) dir in
    try-NoHang (file_get_block-NoHang dir i)
      λ blk. bind-NoHang (get-NoHang _) λ o. free_or-NoHang o rest

dir_alloc_file-NoHang : (dir : ℕ) → NoHang (Dirs.dir_alloc_file dir)
unfolding Dirs.dir_alloc_file
dir_alloc_file-NoHang dir = search (no_hang, free_files-NoHang) depth 14

next_step-NoHang :
    (dir : ℕ) (name : List ℕ) (end : Bool) {walk : ℕ → M Dirs.Walk} (r : Result ℕ)
    → ((f : ℕ) → NoHang (walk f))
    → NoHang (Dirs.next_step dir name end walk r)
unfolding Dirs.next_step
next_step-NoHang dir name end (success f) h = h f
next_step-NoHang dir name end (failure e) h = pure-NoHang _

enter_dir-NoHang :
    (dir : ℕ) (name : List ℕ) (end : Bool) {walk : ℕ → M Dirs.Walk}
    → ((f : ℕ) → NoHang (walk f))
    → NoHang (Dirs.enter_dir dir name end walk)
unfolding Dirs.enter_dir
enter_dir-NoHang dir name end h = search (no_hang, dir_lookup-NoHang, next_step-NoHang, h) depth 14

walk_names-NoHang : (names : List (List ℕ)) (dir file : ℕ) → NoHang (walk_names names dir file)
unfolding walk_names
walk_names-NoHang [] dir file = pure-NoHang _
walk_names-NoHang (n ∷ ns) dir file =
    enter_dir-NoHang file n (is_nil ns) (walk_names-NoHang ns file)

walk_path-NoHang : (path : List ℕ) → NoHang (Dirs.walk_path path)
walk_path-NoHang path = record {
  halts = λ s.
      rw (walk_path_lem path s) ((walk_names-NoHang (components path) 0 (s_root s.super)).halts s);
}

pub file_open-NoHang : (path : List ℕ) → NoHang (Dirs.file_open path)
unfolding Dirs.file_open
file_open-NoHang path = search (no_hang, walk_path-NoHang) depth 14

name_file-NoHang : (r : Error) (name : List ℕ) (f : Result ℕ) → NoHang (Dirs.name_file r name f)
unfolding Dirs.name_file
name_file-NoHang r name (success f) = search (no_hang, strcpy-NoHang) depth 14
name_file-NoHang r name (failure e) = pure-NoHang _

create_in-NoHang : (w : Dirs.Walk) (e : Option Error) → NoHang (Dirs.create_in w e)
unfolding Dirs.create_in
create_in-NoHang w none = pure-NoHang _
create_in-NoHang w (some r) = search (no_hang, dir_alloc_file-NoHang, name_file-NoHang) depth 14

pub file_create-NoHang : (path : List ℕ) → NoHang (Dirs.file_create path)
unfolding Dirs.file_create
file_create-NoHang path = bind-NoHang (walk_path-NoHang path) λ w. create_in-NoHang w w.error

remove_file-NoHang : (f : ℕ) → NoHang (Dirs.remove_file f)
unfolding Dirs.remove_file
remove_file-NoHang f =
    search (no_hang, file_truncate-NoHang, set_byte-NoHang, file_flush-NoHang, flush_dir-NoHang)
      depth 14

pub file_remove-NoHang : (path : List ℕ) → NoHang (Dirs.file_remove path)
unfolding Dirs.file_remove
file_remove-NoHang path = try-NoHang (file_open-NoHang path) remove_file-NoHang

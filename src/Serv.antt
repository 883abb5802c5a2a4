-- ===== src/Serv.antt =====
-- The requests of the file system server, fs/serv.c, over the file system of fs/fs.c.
pub mod Answers
pub mod Opens
pub mod Replies
use buaa_mos_with_swap.Prelude.{
  ℕ, zero, suc, ◌+◌, ◌-◌, ◌*◌, ◌/◌, ◌%◌, Bool, true, false, ◌&&◌, not, List, [], ◌∷◌, Option, none,
  some, leb, ltb, ◌==◌, if◌then◌else◌, update, bit,
}
use buaa_mos_with_swap.Fs.{
  Server, Error, e_inval, e_max_open, e_file_exists, Result, success, failure, M, block_size,
  file_struct_size,
}
use buaa_mos_with_swap.Fs
use buaa_mos_with_swap.Fs.Cache.{vpn, syscall_mem_alloc}
use buaa_mos_with_swap.Fs.Files.{file_get_block, file_dirty, file_set_size, file_close, fs_sync}
use buaa_mos_with_swap.Fs.Dirs.{file_create, file_open, file_remove}

abbrev pub maxopen : ℕ
maxopen = 1024

abbrev pub fileva : ℕ
fileva = 0x60000000

-- `PTE_D | PTE_LIBRARY`.
abbrev pub reply_perm : ℕ
reply_perm = 0x102

-- The bit positions of `O_CREAT` and `O_TRUNC`.
abbrev pub o_creat : ℕ
o_creat = 8

abbrev pub o_trunc : ℕ
o_trunc = 9

abbrev pub devfile_id : ℕ
devfile_id = b'f'

-- What `ipc_send` is called with: `error` is `none` for 0, and `srcva` is 0 for no page.
pub record Reply : Type 0 where
  pub whom : ℕ
  pub error : Option Error
  pub srcva : ℕ
  pub perm : ℕ

-- `opentab`, field by field, with the file system and the answers, newest first. `refs` is what
-- `pageref` says of the page at an address, by page number.
pub record Serv : Type 0 where
  pub fs : Server
  pub o_file : ℕ → ℕ
  pub o_fileid : ℕ → ℕ
  pub o_mode : ℕ → ℕ
  pub o_ff : ℕ → ℕ
  pub refs : ℕ → ℕ
  pub replies : List Reply

-- How a request ends: with the server's next state, or as code of the file system ends.
pub data Ending : Type 0 where
  served : Serv → Ending
  panic null_deref hang : Ending

-- Run code of the file system, then go on.
unfoldable pub after_fs : {A : Type 0} → (A → Serv → Ending) → Serv → Fs.Outcome A → Ending
after_fs k s (Fs.ok a t) = k a (record s { fs = t })
after_fs k s Fs.panic = panic
after_fs k s Fs.null_deref = null_deref
after_fs k s Fs.hang = hang

unfoldable pub in_fs : {A : Type 0} → M A → (A → Serv → Ending) → Serv → Ending
in_fs m k s = after_fs k s (m s.fs)

unfoldable pub ipc_send : ℕ → Option Error → ℕ → ℕ → Serv → Serv
ipc_send whom error srcva perm s = record s {
  replies = record { whom = whom; error = error; srcva = srcva; perm = perm } ∷ s.replies;
}

abbrev pub answer : ℕ → Option Error → Serv → Ending
answer whom error s = served (ipc_send whom error 0 0 s)

-- `if ((r = e) < 0) { ipc_send(envid, r, 0, 0); return; }`
unfoldable pub or_answer : {A : Type 0} → ℕ → (A → Serv → Ending) → Result A → Serv → Ending
or_answer whom k (success a) = k a
or_answer whom k (failure e) = answer whom (some e)

-- The loop over the `n` entries from `i` on.
unfoldable pub init_opens : ℕ → ℕ → ℕ → Serv → Serv
init_opens zero i va s = s
init_opens (suc n) i va s =
    init_opens n (i + 1) (va + block_size)
      (record s { o_fileid = update s.o_fileid i i; o_ff = update s.o_ff i va })

unfoldable pub serve_init : Serv → Serv
serve_init s = init_opens maxopen 0 fileva s

unfoldable pub pageref : ℕ → Serv → ℕ
pageref va s = s.refs (vpn va)

-- `memset((void *)va, 0, BLOCK_SIZE)`.
unfoldable pub clear_block : ℕ → Server → Server
clear_block va s = record s { mem = λ a. if a / 1024 == vpn va then 0 else s.mem a }

-- `case 1` of the `switch`: clear the page, and give the entry.
unfoldable pub take_open : ℕ → (Result ℕ → Serv → Ending) → Serv → Ending
take_open i k s = k (success i) (record s { fs = clear_block (s.o_ff i) s.fs })

-- `case 0`: a page first.
unfoldable pub give_page : ℕ → (Result ℕ → Serv → Ending) → Result (Unit {0}) → Serv → Ending
give_page i k (success _) s = take_open i k (record s { refs = update s.refs (vpn (s.o_ff i)) 1 })
give_page i k (failure e) s = k (failure e) s

-- The loop over the `n` entries from `i` on.
unfoldable pub scan_opens : ℕ → ℕ → (Result ℕ → Serv → Ending) → Serv → Ending
scan_opens zero i k s = k (failure e_max_open) s
scan_opens (suc n) i k s =
    let rest = scan_opens n (i + 1) k s in
    if pageref (s.o_ff i) s == 0
    then in_fs (syscall_mem_alloc (s.o_ff i)) (give_page i k) s
    else if pageref (s.o_ff i) s == 1
    then take_open i k s
    else rest

-- The index of the entry that goes to `*o`.
unfoldable pub open_alloc : (Result ℕ → Serv → Ending) → Serv → Ending
open_alloc k s = scan_opens maxopen 0 k s

-- The index of the entry that goes to `*po`; `envid` is not looked at.
unfoldable pub open_lookup : ℕ → ℕ → Serv → Result ℕ
open_lookup envid fileid s =
    if leb maxopen fileid
    then failure e_inval
    else if leb (pageref (s.o_ff fileid) s) 1
    then failure e_inval
    else success fileid

unfoldable pub with_open : ℕ → ℕ → (ℕ → Serv → Ending) → Serv → Ending
with_open whom fileid k s = or_answer whom k (open_lookup whom fileid s) s

-- `dst[0] = src[0]` to `dst[n - 1] = src[n - 1]`, by words, all read before they are written.
unfoldable pub copy_struct : ℕ → ℕ → ℕ → Server → Server
copy_struct dst src n s = record s {
  mem = λ a.
      if leb (dst / 4) a && ltb a (dst / 4 + n) then s.mem (src / 4 + a - dst / 4) else s.mem a;
}

unfoldable pub set_word : ℕ → ℕ → Server → Server
set_word p v s = record s { mem = update s.mem (p / 4) v }

-- The fields of `struct Filefd`: `f_fd.fd_dev_id`, `f_fd.fd_omode`, `f_fileid` and `f_file`.
abbrev pub ff_dev_id : ℕ → ℕ
ff_dev_id ff = ff

abbrev pub ff_omode : ℕ → ℕ
ff_omode ff = ff + 8

abbrev pub ff_fileid : ℕ → ℕ
ff_fileid ff = ff + 12

abbrev pub ff_file : ℕ → ℕ
ff_file ff = ff + 16

-- `ff->f_file = *f` and the assignments after it.
unfoldable pub fill_filefd : ℕ → ℕ → ℕ → Serv → Serv
fill_filefd o f omode s =
    let ff = s.o_ff o in
    record s {
      fs = set_word (ff_dev_id ff) devfile_id (
          set_word (ff_omode ff) omode (
            set_word (ff_fileid ff) (s.o_fileid o)
              (copy_struct (ff_file ff) f (file_struct_size / 4) s.fs)));
      o_mode = update s.o_mode o omode;
    }

-- From the opened file on.
unfoldable pub finish_open : ℕ → ℕ → ℕ → ℕ → Serv → Ending
finish_open whom o omode f s =
    let opened = record s { o_file = update s.o_file o f } in
    let send =
      λ (t : Serv). served (ipc_send whom none (t.o_ff o) reply_perm (fill_filefd o f omode t)) in
    if bit omode o_trunc then in_fs (file_set_size f 0) (λ _. send) opened else send opened

unfoldable pub is_file_exists : Error → Bool
is_file_exists e_file_exists = true
is_file_exists _ = false

-- What `file_create` returned: only an error other than -E_FILE_EXISTS ends the request.
unfoldable pub after_create : ℕ → (Serv → Ending) → Result ℕ → Serv → Ending
after_create whom k (success f) s = k s
after_create whom k (failure e) s = if is_file_exists e then k s else answer whom (some e) s

unfoldable pub open_path : ℕ → ℕ → List ℕ → ℕ → Serv → Ending
open_path whom o path omode = in_fs (file_open path) (or_answer whom (finish_open whom o omode))

unfoldable pub serve_open : ℕ → List ℕ → ℕ → Serv → Ending
serve_open whom path omode = open_alloc (
    or_answer whom λ o.
      if bit omode o_creat
      then in_fs (file_create path) (after_create whom (open_path whom o path omode))
      else open_path whom o path omode)

unfoldable pub serve_map : ℕ → ℕ → ℕ → Serv → Ending
serve_map whom fileid offset = with_open whom fileid λ o s.
    in_fs (file_get_block (s.o_file o) (offset / block_size))
      (or_answer whom λ blk t. served (ipc_send whom none blk reply_perm t)) s

unfoldable pub serve_set_size : ℕ → ℕ → ℕ → Serv → Ending
serve_set_size whom fileid size =
    with_open whom fileid λ o s. in_fs (file_set_size (s.o_file o) size) (λ _. answer whom none) s

unfoldable pub serve_close : ℕ → ℕ → Serv → Ending
serve_close whom fileid =
    with_open whom fileid λ o s. in_fs (file_close (s.o_file o)) (λ _. answer whom none) s

unfoldable pub status : {A : Type 0} → Result A → Option Error
status (success a) = none
status (failure e) = some e

unfoldable pub serve_remove : ℕ → List ℕ → Serv → Ending
serve_remove whom path = in_fs (file_remove path) λ r. answer whom (status r)

unfoldable pub serve_dirty : ℕ → ℕ → ℕ → Serv → Ending
serve_dirty whom fileid offset =
    with_open whom fileid
      λ o s. in_fs (file_dirty (s.o_file o) offset) (or_answer whom λ _. answer whom none) s

unfoldable pub serve_sync : ℕ → Serv → Ending
serve_sync whom = in_fs fs_sync λ _. answer whom none

-- What `ipc_recv` gives: the sender, the request number, whether a page came with it, and that page
-- as the structs of fsreq.h see it: a path at its start or two words there, and `req_omode`. `refs`
-- are the counts of the pages by then, since the clients map and unmap the pages of open files.
pub record Request : Type 0 where
  pub whom : ℕ
  pub req : ℕ
  pub has_page : Bool
  pub path : List ℕ
  pub word0 : ℕ
  pub word1 : ℕ
  pub omode : ℕ
  pub refs : ℕ → ℕ

abbrev pub max_fsreqno : ℕ
max_fsreqno = 7

-- `serve_table[req]` on the request.
unfoldable pub serve_table : Request → Serv → Ending
serve_table r =
    if r.req == 0
    then serve_open r.whom r.path r.omode
    else if r.req == 1
    then serve_map r.whom r.word0 r.word1
    else if r.req == 2
    then serve_set_size r.whom r.word0 r.word1
    else if r.req == 3
    then serve_close r.whom r.word0
    else if r.req == 4
    then serve_dirty r.whom r.word0 r.word1
    else if r.req == 5
    then serve_remove r.whom r.path
    else serve_sync r.whom

unfoldable pub ipc_recv : Request → Serv → Serv
ipc_recv r s = record s { refs = r.refs }

-- A round of the loop of `serve`.
unfoldable pub serve_round : Request → Serv → Ending
serve_round r s =
    let t = ipc_recv r s in
    if not r.has_page then served t else if leb max_fsreqno r.req then served t else serve_table r t

unfoldable pub then_serve : (Serv → Ending) → Ending → Ending
then_serve next (served s) = next s
then_serve next panic = panic
then_serve next null_deref = null_deref
then_serve next hang = hang

-- The loop of `serve`, over the requests that come in.
unfoldable pub serve : List Request → Serv → Ending
serve [] s = served s
serve (r ∷ rs) s = then_serve (serve rs) (serve_round r s)

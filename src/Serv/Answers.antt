-- ===== src/Serv/Answers.antt =====
-- The answers of the handlers of fs/serv.c.
use buaa_mos_with_swap.Prelude.{
  ℕ, zero, suc, ◌+◌, ◌≡◌, refl, ap, Bool, true, false, List, ◌∷◌, Option, none, some, ◌==◌,
  if◌then◌else◌, bit, update,
}
use buaa_mos_with_swap.Fs.{Error, Result, success, failure, M, Server}
use buaa_mos_with_swap.Fs
use buaa_mos_with_swap.Fs.Halts.{Halts, returns, panics, faults, NoHang}
use buaa_mos_with_swap.Fs.Halts.Blocks.{
  file_get_block-NoHang, file_dirty-NoHang, file_set_size-NoHang, fs_sync-NoHang, file_close-NoHang,
  syscall_mem_alloc-NoHang,
}
use buaa_mos_with_swap.Fs.Halts.Paths.{file_open-NoHang, file_create-NoHang, file_remove-NoHang}
use buaa_mos_with_swap.Serv.{
  Reply, Serv, Ending, served, panic, null_deref, after_fs, in_fs, ipc_send, answer, or_answer,
  scan_opens, give_page, take_open, open_alloc, open_lookup, with_open, fill_filefd, finish_open,
  is_file_exists, after_create, open_path, serve_open, serve_map, serve_set_size, serve_close,
  serve_remove, serve_dirty, serve_sync, Request, serve_table, maxopen, status, pageref, reply_perm,
  o_creat, o_trunc,
}

-- An error comes without a page.
unfoldable pub Fits : Option Error → ℕ → Type 0
Fits none srcva = Unit {0}
Fits (some e) srcva = srcva ≡ 0

-- The server goes on with one more answer than the answers `rs`, to `whom`; or it stops with a
-- panic or at a null pointer.
pub data Answered (whom : ℕ) (rs : List Reply) : Ending → Type 0 where
  replied :
      (r : Reply) (t : Serv)
      → t.replies ≡ r ∷ rs
      → r.whom ≡ whom
      → Fits r.error r.srcva
      → Answered whom rs (served t)
  panicked : Answered whom rs panic
  faulted : Answered whom rs null_deref

record Answers (whom : ℕ) (k : Serv → Ending) : Type 0 where
  answered : (s : Serv) → Answered whom s.replies (k s)

sent :
    (whom : ℕ) (e : Option Error) (va perm : ℕ) (rs : List Reply) (t : Serv)
    → t.replies ≡ rs
    → Fits e va
    → Answered whom rs (served (ipc_send whom e va perm t))
unfolding ipc_send
sent whom e va perm rs t keeps fits =
    let r : Reply = record { whom = whom; error = e; srcva = va; perm = perm } in
    replied r (ipc_send whom e va perm t) (ap (λ rs. r ∷ rs) keeps) refl fits

answer-Answers : (whom : ℕ) (e : Option Error) → Answers whom (answer whom e)
unfolding Fits
answer-Answers whom none = record { answered = λ s. sent whom none 0 0 s.replies s refl tt }
answer-Answers whom (some e) = record {
  answered = λ s. sent whom (some e) 0 0 s.replies s refl refl;
}

after_fs-Answered :
    {A : Type 0} {whom : ℕ} {k : A → Serv → Ending} {o : Fs.Outcome A}
    → (s : Serv) → Halts o
    → ((a : A) → Answers whom (k a))
    → Answered whom s.replies (after_fs k s o)
unfolding after_fs
after_fs-Answered s (returns a t) h = (h a).answered (record s { fs = t })
after_fs-Answered s panics h = panicked
after_fs-Answered s faults h = faulted

in_fs-Answers :
    {A : Type 0} {whom : ℕ} {m : M A} {k : A → Serv → Ending}
    → NoHang m
    → ((a : A) → Answers whom (k a))
    → Answers whom (in_fs m k)
unfolding in_fs
in_fs-Answers hm hk = record { answered = λ s. after_fs-Answered s (hm.halts s.fs) hk }

or_answer-Answers :
    {A : Type 0} {whom : ℕ} {k : A → Serv → Ending} (r : Result A)
    → ((a : A) → Answers whom (k a))
    → Answers whom (or_answer whom k r)
unfolding or_answer
or_answer-Answers (success a) hk = hk a
or_answer-Answers {whom = whom} (failure e) hk = answer-Answers whom (some e)

if-Answered :
    {whom : ℕ} {rs : List Reply} (b : Bool) {x y : Ending}
    → Answered whom rs x
    → Answered whom rs y
    → Answered whom rs (if b then x else y)
if-Answered true hk hl = hk
if-Answered false hk hl = hl

if-Answers :
    {whom : ℕ} (b : Bool) {k l : Serv → Ending}
    → Answers whom k
    → Answers whom l
    → Answers whom (if b then k else l)
if-Answers true hk hl = hk
if-Answers false hk hl = hl

-- What `open_alloc` ends with, for whatever comes after it.
module _ {whom : ℕ} {k : Result ℕ → Serv → Ending} (h : (r : Result ℕ) → Answers whom (k r)) where
  take_open-Answers : (i : ℕ) → Answers whom (take_open i k)
  unfolding take_open
  take_open-Answers i = record { answered = λ s. (h (success i)).answered (record s { fs = _ }) }

  give_page-Answers : (i : ℕ) (r : Result Unit) → Answers whom (give_page i k r)
  unfolding give_page
  give_page-Answers i (success _) = record {
    answered = λ s. (take_open-Answers i).answered (record s { refs = _ });
  }
  give_page-Answers i (failure e) = record { answered = λ s. (h (failure e)).answered s }

  scan_opens-Answers : (n i : ℕ) → Answers whom (scan_opens n i k)
  unfolding scan_opens
  scan_opens-Answers zero i = record { answered = λ s. (h (failure Fs.e_max_open)).answered s }
  scan_opens-Answers (suc n) i = record {
    answered = λ s.
        let rest = (scan_opens-Answers n (i + 1)).answered s in
        let given =
          (in_fs-Answers (syscall_mem_alloc-NoHang (s.o_ff i)) (give_page-Answers i)).answered s in
        let taken = (take_open-Answers i).answered s in
        if-Answered (pageref (s.o_ff i) s == 0) given
          (if-Answered (pageref (s.o_ff i) s == 1) taken rest);
  }

module _ (whom : ℕ) where
  with_open-Answers :
      (fileid : ℕ) (k : ℕ → Serv → Ending)
      → ((o : ℕ) → Answers whom (k o))
      → Answers whom (with_open whom fileid k)
  unfolding with_open
  with_open-Answers fileid k h = record {
    answered = λ s. (or_answer-Answers (open_lookup whom fileid s) h).answered s;
  }

  finish_open-Answers : (o omode f : ℕ) → Answers whom (finish_open whom o omode f)
  unfolding finish_open fill_filefd Fits
  finish_open-Answers o omode f =
      let send : Answers whom
          (λ t. served (ipc_send whom none (t.o_ff o) reply_perm (fill_filefd o f omode t))) =
        record {
          answered =
              λ t. sent whom none (t.o_ff o) reply_perm t.replies (fill_filefd o f omode t) refl tt;
        } in
      record {
        answered = λ s.
            if-Answered (bit omode o_trunc)
              ((in_fs-Answers (file_set_size-NoHang f 0) λ _. send).answered
                (record s { o_file = update s.o_file o f }))
              (send.answered (record s { o_file = update s.o_file o f }));
      }

  open_path-Answers :
      (o : ℕ) (path : List ℕ) (omode : ℕ) → Answers whom (open_path whom o path omode)
  unfolding open_path
  open_path-Answers o path omode =
      in_fs-Answers (file_open-NoHang path) λ r. or_answer-Answers r (finish_open-Answers o omode)

  after_create-Answers :
      (k : Serv → Ending) (r : Result ℕ) → Answers whom k → Answers whom (after_create whom k r)
  unfolding after_create
  after_create-Answers k (success f) h = record { answered = λ s. h.answered s }
  after_create-Answers k (failure e) h = record {
    answered = λ s.
        if-Answered (is_file_exists e) (h.answered s) ((answer-Answers whom (some e)).answered s);
  }

  serve_open-Answers : (path : List ℕ) (omode : ℕ) → Answers whom (serve_open whom path omode)
  unfolding serve_open open_alloc
  serve_open-Answers path omode =
      scan_opens-Answers
        (λ r. or_answer-Answers r λ o.
          let opening = open_path-Answers o path omode in
          if-Answers (bit omode o_creat)
            (in_fs-Answers (file_create-NoHang path) λ f. after_create-Answers _ f opening) opening)
        maxopen 0

  serve_map-Answers : (fileid offset : ℕ) → Answers whom (serve_map whom fileid offset)
  unfolding serve_map Fits
  serve_map-Answers fileid offset = with_open-Answers fileid _ λ o. record {
    answered = λ s.
        (in_fs-Answers (file_get_block-NoHang (s.o_file o) _) λ r. or_answer-Answers r λ blk.
            record { answered = λ t. sent whom none blk reply_perm t.replies t refl tt }).answered
          s;
  }

  serve_set_size-Answers : (fileid size : ℕ) → Answers whom (serve_set_size whom fileid size)
  unfolding serve_set_size
  serve_set_size-Answers fileid size = with_open-Answers fileid _ λ o. record {
    answered = λ s.
        (in_fs-Answers (file_set_size-NoHang (s.o_file o) size)
            λ _. answer-Answers whom none).answered
          s;
  }

  serve_close-Answers : (fileid : ℕ) → Answers whom (serve_close whom fileid)
  unfolding serve_close
  serve_close-Answers fileid = with_open-Answers fileid _ λ o. record {
    answered = λ s.
        (in_fs-Answers (file_close-NoHang (s.o_file o)) λ _. answer-Answers whom none).answered s;
  }

  serve_dirty-Answers : (fileid offset : ℕ) → Answers whom (serve_dirty whom fileid offset)
  unfolding serve_dirty
  serve_dirty-Answers fileid offset = with_open-Answers fileid _ λ o. record {
    answered = λ s.
        (in_fs-Answers (file_dirty-NoHang (s.o_file o) offset)
            λ r. or_answer-Answers r λ _. answer-Answers whom none).answered
          s;
  }

  serve_remove-Answers : (path : List ℕ) → Answers whom (serve_remove whom path)
  unfolding serve_remove
  serve_remove-Answers path =
      in_fs-Answers (file_remove-NoHang path) λ r. answer-Answers whom (status r)

  serve_sync-Answers : Answers whom (serve_sync whom)
  unfolding serve_sync
  serve_sync-Answers = in_fs-Answers fs_sync-NoHang λ _. answer-Answers whom none

serve_table-Answers : (r : Request) → Answers r.whom (serve_table r)
unfolding serve_table
serve_table-Answers r = if-Answers (r.req == 0) (serve_open-Answers r.whom r.path r.omode) (
    if-Answers (r.req == 1) (serve_map-Answers r.whom r.word0 r.word1) (
      if-Answers (r.req == 2) (serve_set_size-Answers r.whom r.word0 r.word1) (
        if-Answers (r.req == 3) (serve_close-Answers r.whom r.word0) (
          if-Answers (r.req == 4) (serve_dirty-Answers r.whom r.word0 r.word1) (
            if-Answers (r.req == 5) (serve_remove-Answers r.whom r.path)
              (serve_sync-Answers r.whom))))))

-- The handlers answer: each sends exactly one answer, to the environment that sent the request, and
-- an error comes without a page; or the server stops with a panic or at a null pointer. None runs
-- for ever.
pub serve_table-Answered : (r : Request) (s : Serv) → Answered r.whom s.replies (serve_table r s)
serve_table-Answered r s = (serve_table-Answers r).answered s

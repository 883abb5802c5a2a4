-- ===== src/User/Fd.antt =====
-- File descriptors of user/lib/fd.c, and `pipe` of user/lib/pipe.c.
--
-- A process is its mappings and the words of physical pages, so that descriptors that share a page
-- share its words. `page` and `perm` are by virtual page number, `fresh` names the page that the
-- next allocation gives, and `grants` are the answers of the allocations.
pub mod Opened
pub mod Pipes
pub mod Reads
use buaa_mos_with_swap.Prelude.{
  ℕ, zero, suc, ◌+◌, ◌-◌, ◌*◌, ◌/◌, ◌%◌, ◌^◌, Bool, true, false, not, List, [], ◌∷◌, ◌++◌, Option,
  none, some, leb, ltb, ◌==◌, if◌then◌else◌, update, length,
}
use buaa_mos_with_swap.Mmu.{page_size, pdmap, word_mod}

pub record Process : Type 0 where
  pub page : ℕ → Option ℕ
  pub perm : ℕ → ℕ
  pub words : ℕ → ℕ → ℕ
  pub fresh : ℕ
  pub grants : ℕ → Bool

-- Negated results; `e_device` is any other error of a device.
pub data Errno : Type 0 where
  e_inval e_max_open e_no_mem : Errno
  e_device : ℕ → Errno

pub data Answer (A : Type 0) : Type 0 where
  success : A → Answer A
  failure : Errno → Answer A

-- What a call returns, and the process after it.
pub data Returned (A : Type 0) : Type 0 where
  returns : Answer A → Process → Returned A

abbrev pub Call : Type 0 → Type 0
Call A = Process → Returned A

abbrev pub maxfd : ℕ
maxfd = 32

abbrev pub filebase : ℕ
filebase = 0x60000000

abbrev pub fdtable : ℕ
fdtable = filebase - pdmap

abbrev pub index2fd : ℕ → ℕ
index2fd i = fdtable + i * page_size

abbrev pub index2data : ℕ → ℕ
index2data i = filebase + i * pdmap

unfoldable pub fd2num : ℕ → ℕ
fd2num fd = (fd - fdtable) / page_size

unfoldable pub num2fd : ℕ → ℕ
num2fd fd = fd * page_size + fdtable

unfoldable pub fd2data : ℕ → ℕ
fd2data fd = index2data (fd2num fd)

-- `O_RDONLY`, `O_WRONLY`; `O_ACCMODE` are the two low bits.
abbrev pub o_rdonly : ℕ
o_rdonly = 0

abbrev pub o_wronly : ℕ
o_wronly = 1

-- `PTE_D | PTE_LIBRARY`.
abbrev pub shared_perm : ℕ
shared_perm = 0x102

abbrev pub is_some : Option ℕ → Bool
is_some none = false
is_some (some p) = true

unfoldable pub is_mapped : ℕ → Process → Bool
is_mapped va s = is_some (s.page (va / page_size))

unfoldable pub syscall_mem_alloc : ℕ → ℕ → Call (Unit {0})
syscall_mem_alloc va perm s =
    let t = record s { fresh = s.fresh + 1 } in
    if s.grants s.fresh
    then returns (success tt) (record t {
      page = update s.page (va / page_size) (some s.fresh);
      perm = update s.perm (va / page_size) perm;
      words = update s.words s.fresh (λ i. 0);
    })
    else returns (failure e_no_mem) t

unfoldable pub syscall_mem_unmap : ℕ → Process → Process
syscall_mem_unmap va s = record s { page = update s.page (va / page_size) none }

-- Without a page behind `srcva`, -E_INVAL.
unfoldable pub syscall_mem_map : ℕ → ℕ → ℕ → Call (Unit {0})
syscall_mem_map srcva dstva perm s = elim (s.page (srcva / page_size)) [
  | none ↦ returns (failure e_inval) s
  | some p ↦ returns (success tt) (record s {
    page = update s.page (dstva / page_size) (some p);
    perm = update s.perm (dstva / page_size) perm;
  })
]

-- A word of the page at an address.
unfoldable pub get_word : ℕ → ℕ → Process → ℕ
get_word va i s = elim (s.page (va / page_size)) [ none ↦ 0 | some p ↦ s.words p i ]

unfoldable pub set_word : ℕ → ℕ → ℕ → Process → Process
set_word va i v s = elim (s.page (va / page_size)) [
  | none ↦ s
  | some p ↦ record s { words = update s.words p (update (s.words p) i v) }
]

-- The fields of `struct Fd`, by word.
abbrev pub fd_dev_id : ℕ
fd_dev_id = 0

abbrev pub fd_offset : ℕ
fd_offset = 1

abbrev pub fd_omode : ℕ
fd_omode = 2

-- The loop of `fd_alloc` over `n` numbers from `fdno` on.
unfoldable pub scan_fds : ℕ → ℕ → Process → Answer ℕ
scan_fds zero fdno s = failure e_max_open
scan_fds (suc n) fdno s =
    let rest = scan_fds n (fdno + 1) s in
    if is_mapped (index2fd fdno) s then rest else success (index2fd fdno)

unfoldable pub fd_alloc : Process → Answer ℕ
fd_alloc s = scan_fds (maxfd - 1) 0 s

-- For a number that is not negative.
unfoldable pub fd_lookup : ℕ → Process → Answer ℕ
fd_lookup fdnum s =
    if leb maxfd fdnum
    then failure e_inval
    else if is_mapped (index2fd fdnum) s
    then success (index2fd fdnum)
    else failure e_inval

unfoldable pub fd_close : ℕ → Process → Process
fd_close fd s = syscall_mem_unmap fd s

unfoldable pub undo : List ℕ → Process → Process
undo [] s = s
undo (va ∷ vas) s = undo vas (syscall_mem_unmap va s)

-- `if ((r = e) < 0) goto err;` where the labels from `err` on unmap `vas`.
unfoldable pub or_undo : {A B : Type 0} → List ℕ → (A → Call B) → Returned A → Returned B
or_undo vas k (returns (success a) s) = k a s
or_undo vas k (returns (failure e) s) = returns (failure e) (undo vas s)

-- A descriptor with a page of its own: `fd_alloc` and `syscall_mem_alloc`.
unfoldable pub new_fd : Call ℕ
new_fd s =
    or_undo [] (λ fd t. or_undo [] (λ _. returns (success fd)) (syscall_mem_alloc fd shared_perm t))
      (returns (fd_alloc s) s)

abbrev pub devpipe_id : ℕ
devpipe_id = b'p'

-- Step 3 and step 4.
unfoldable pub set_up_pipe : ℕ → ℕ → Call (ℕ × ℕ)
set_up_pipe fd0 fd1 s = returns (success (fd2num fd0, fd2num fd1)) (
    set_word fd1 fd_omode o_wronly (
      set_word fd1 fd_dev_id devpipe_id
        (set_word fd0 fd_omode o_rdonly (set_word fd0 fd_dev_id devpipe_id s))))

-- Step 2 on.
unfoldable pub share_pipe : ℕ → ℕ → Call (ℕ × ℕ)
share_pipe fd0 fd1 s =
    let va = fd2data fd0 in
    or_undo (fd1 ∷ fd0 ∷ [])
      (λ _ t.
        or_undo (va ∷ fd1 ∷ fd0 ∷ []) (λ _. set_up_pipe fd0 fd1)
          (syscall_mem_map va (fd2data fd1) shared_perm t))
      (syscall_mem_alloc va shared_perm s)

-- The numbers that go to `pfd`.
unfoldable pub pipe : Call (ℕ × ℕ)
pipe s = or_undo [] (λ fd0 t. or_undo (fd0 ∷ []) (λ fd1. share_pipe fd0 fd1) (new_fd t)) (new_fd s)

-- A device: `dev_read` gives the bytes that go to the buffer, `dev_write` says how many bytes of its
-- argument it took.
pub record Dev : Type 0 where
  pub dev_read : ℕ → ℕ → ℕ → Call (List ℕ)
  pub dev_write : ℕ → List ℕ → ℕ → Call ℕ
  pub dev_close : ℕ → Call (Unit {0})

-- `fd->fd_offset += r`, where `r` is positive.
unfoldable pub add_offset : ℕ → ℕ → Process → Process
add_offset fd r s =
    if r == 0 then s else set_word fd fd_offset ((get_word fd fd_offset s + r) % word_mod) s

unfoldable pub find_dev : List (ℕ × Dev) → ℕ → Answer Dev
find_dev [] id = failure e_inval
find_dev (d ∷ ds) id = let rest = find_dev ds id in if d.0 == id then success d.1 else rest

unfoldable pub seek : ℕ → ℕ → Call (Unit {0})
seek fdnum offset s =
    or_undo [] (λ fd t. returns (success tt) (set_word fd fd_offset offset t))
      (returns (fd_lookup fdnum s) s)

-- The descriptor is closed whatever the device answers.
unfoldable pub close_after : ℕ → Returned (Unit {0}) → Returned (Unit {0})
close_after fd (returns r s) = returns r (fd_close fd s)

-- The end of a round of `readn`: at an error or a read of nothing it returns, else `next` goes on.
unfoldable pub after_read :
    (List ℕ → Process → Option (Returned (List ℕ)))
    → List ℕ
    → Returned (List ℕ)
    → Option (Returned (List ℕ))
after_read next got (returns (failure e) s) = some (returns (failure e) s)
after_read next got (returns (success []) s) = some (returns (success got) s)
after_read next got (returns (success (b ∷ bs)) s) = next (got ++ b ∷ bs) s

-- `devtab` lists the devices by their `dev_id`.
module _ (devtab : List (ℕ × Dev)) where
  unfoldable pub dev_lookup : ℕ → Answer Dev
  dev_lookup id = find_dev devtab id

  -- `fd_lookup` and `dev_lookup`, as most of the calls begin.
  unfoldable pub with_dev : {B : Type 0} → ℕ → (ℕ → Dev → Call B) → Call B
  with_dev fdnum k s =
      or_undo []
        (λ fd t. or_undo [] (λ dev. k fd dev) (returns (dev_lookup (get_word fd fd_dev_id t)) t))
        (returns (fd_lookup fdnum s) s)

  unfoldable pub close : ℕ → Call (Unit {0})
  close fdnum = with_dev fdnum λ fd dev s. close_after fd (dev.dev_close fd s)

  unfoldable pub read : ℕ → ℕ → Call (List ℕ)
  read fdnum n = with_dev fdnum λ fd dev s.
      if get_word fd fd_omode s % 4 == o_wronly
      then returns (failure e_inval) s
      else or_undo [] (λ bytes t. returns (success bytes) (add_offset fd (length bytes) t))
          (dev.dev_read fd n (get_word fd fd_offset s) s)

  unfoldable pub write : ℕ → List ℕ → Call ℕ
  write fdnum bytes = with_dev fdnum λ fd dev s.
      if get_word fd fd_omode s % 4 == o_rdonly
      then returns (failure e_inval) s
      else or_undo [] (λ r t. returns (success r) (add_offset fd r t))
          (dev.dev_write fd bytes (get_word fd fd_offset s) s)

  -- The loop of `readn`, on fuel; `none` where that runs out. The code compares its `int tot` as a
  -- u_int, and gives it back as an int, which is the count for less than 2^31 bytes.
  unfoldable pub readn_from : ℕ → ℕ → ℕ → List ℕ → Process → Option (Returned (List ℕ))
  readn_from zero fdnum n got s = none
  readn_from (suc fuel) fdnum n got s =
      let more = after_read (readn_from fuel fdnum n) got (read fdnum (n - length got) s) in
      if leb n (length got) then some (returns (success got) s) else more

  -- Every round but the last reads a byte.
  unfoldable pub readn : ℕ → ℕ → Process → Option (Returned (List ℕ))
  readn fdnum n s = readn_from (suc n) fdnum n [] s

-- `pipe_close`: first the descriptor, then the data.
unfoldable pub pipe_close : ℕ → Process → Process
pipe_close fd s = syscall_mem_unmap (fd2data fd) (syscall_mem_unmap fd s)

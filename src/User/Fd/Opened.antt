-- ===== src/User/Fd/Opened.antt =====
-- What new descriptors of user/lib/fd.c are: free numbers, and pages of their own.
use buaa_mos_with_swap.Prelude.{
  ℕ, zero, suc, ◌+◌, ◌-◌, ◌*◌, ◌/◌, ◌<◌, ◌≤◌, ◌≡◌, ◌⊎◌, inl, inr, refl, ap, sym, ◌∙◌, true, false,
  Option, none, some, arith, ◌==◌, update, Bool-cases, Option-cases, ==_self,
}
use buaa_mos_with_swap.Mmu.{page_size}
use buaa_mos_with_swap.User.Fd.{
  Process, Errno, e_max_open, e_no_mem, success, failure, returns, maxfd, index2fd, fd2num, fd2data,
  is_mapped, is_some, syscall_mem_alloc, scan_fds, fd_alloc, undo, or_undo, new_fd, shared_perm,
  get_word, set_word, fd_omode, fd_dev_id, o_rdonly, o_wronly, devpipe_id,
}

pub unmapped : (va : ℕ) (s : Process) → is_mapped va s ≡ false → s.page (va / page_size) ≡ none
unfolding is_mapped
unmapped va s h = elim (Option-cases (s.page (va / page_size))) [
  | inl e ↦ e
  | inr (p, e) ↦ let mapped : true ≡ false = sym (ap is_some e) ∙ h in cc
]

-- The first number from `i` on without a page, or none of `n`.
pub scan_fds_cases :
    (n i : ℕ) (s : Process)
    → (scan_fds n i s ≡ failure e_max_open)
      ⊎ ((k : ℕ) × (scan_fds n i s ≡ success (index2fd k))
          × (i ≤ k)
          × (k < i + n)
          × (s.page (index2fd k / page_size) ≡ none))
unfolding scan_fds
scan_fds_cases zero i s = inl refl
scan_fds_cases (suc n) i s = elim (Bool-cases (is_mapped (index2fd i) s)) [
  | inr free ↦ inr (i, rw free refl, omega arith, omega arith, unmapped (index2fd i) s free)
  | inl used ↦ elim (scan_fds_cases n (i + 1) s) [
    | inl e ↦ inl (rw used e)
    | inr (k, e, low, high, free) ↦
        inr (k, rw used e, omega (arith, low), omega (arith, high), free)
  ]
]

pub fd_page : (k : ℕ) → index2fd k / page_size ≡ 0x5fc00 + k
fd_page k = omega arith

-- The process after a new page at the address.
unfoldable pub given : ℕ → Process → Process
given va s = record s {
  fresh = s.fresh + 1;
  page = update s.page (va / page_size) (some s.fresh);
  perm = update s.perm (va / page_size) shared_perm;
  words = update s.words s.fresh (λ i. 0);
}

pub new_fd_cases :
    (s : Process)
    → ((e : Errno) × (t : Process) × (new_fd s ≡ returns (failure e) t) × (t.page ≡ s.page))
      ⊎ ((k : ℕ) × (k < maxfd - 1)
          × (s.page (index2fd k / page_size) ≡ none)
          × (new_fd s ≡ returns (success (index2fd k)) (given (index2fd k) s)))
unfolding new_fd fd_alloc or_undo undo syscall_mem_alloc given
new_fd_cases s = elim (scan_fds_cases (maxfd - 1) 0 s) [
  | inl e ↦ inl (e_max_open, s, rw e refl, refl)
  | inr (k, e, low, high, free) ↦ elim (Bool-cases (s.grants s.fresh)) [
    | inl granted ↦ inr (k, omega (arith, high), free, rw (e, granted) refl)
    | inr refused ↦ inl (e_no_mem, record s { fresh = s.fresh + 1 }, rw (e, refused) refl, refl)
  ]
]

-- The pages of two descriptors and of the data of the first.
pub data_page : (k : ℕ) → k < maxfd → fd2data (index2fd k) / page_size ≡ 0x60000 + 1024 * k
unfolding fd2data fd2num
data_page k l = omega (arith, l)

pub set_word-page : (va i v : ℕ) (s : Process) → (set_word va i v s).page ≡ s.page
unfolding set_word
set_word-page va i v s = elim (Option-cases (s.page (va / page_size))) [
  | inl e ↦ rw (e, set_word) refl
  | inr (p, e) ↦ rw (e, set_word) refl
]

pub set_word-words :
    (va i v p : ℕ) (s : Process)
    → s.page (va / page_size) ≡ some p
    → (set_word va i v s).words ≡ update s.words p (update (s.words p) i v)
unfolding set_word
set_word-words va i v p s e = rw (e, set_word) refl

pub get_word-at :
    (va i p : ℕ) (s : Process) → s.page (va / page_size) ≡ some p → get_word va i s ≡ s.words p i
unfolding get_word
get_word-at va i p s e = rw (e, get_word) refl

-- The two descriptors after step 3, on pages of their own.
abbrev pub equipped : ℕ → ℕ → Process → Process
equipped fd0 fd1 s = set_word fd1 fd_omode o_wronly (
    set_word fd1 fd_dev_id devpipe_id
      (set_word fd0 fd_omode o_rdonly (set_word fd0 fd_dev_id devpipe_id s)))

pub equipped-page : (fd0 fd1 : ℕ) (s : Process) → (equipped fd0 fd1 s).page ≡ s.page
equipped-page fd0 fd1 s =
    let a = set_word fd0 fd_dev_id devpipe_id s in
    let b = set_word fd0 fd_omode o_rdonly a in
    let c = set_word fd1 fd_dev_id devpipe_id b in
    set_word-page fd1 fd_omode o_wronly c
    ∙ set_word-page fd1 fd_dev_id devpipe_id b
    ∙ set_word-page fd0 fd_omode o_rdonly a
    ∙ set_word-page fd0 fd_dev_id devpipe_id s

pub equipped-modes :
    (fd0 fd1 p q : ℕ) (s : Process)
    → s.page (fd0 / page_size) ≡ some p
    → s.page (fd1 / page_size) ≡ some q
    → (q == p) ≡ false
    → (get_word fd0 fd_omode (equipped fd0 fd1 s) ≡ o_rdonly)
      × (get_word fd1 fd_omode (equipped fd0 fd1 s) ≡ o_wronly)
equipped-modes fd0 fd1 p q s e h apart =
    let a = set_word fd0 fd_dev_id devpipe_id s in
    let b = set_word fd0 fd_omode o_rdonly a in
    let c = set_word fd1 fd_dev_id devpipe_id b in
    let at_a =
      ap (λ (f : ℕ → Option ℕ). f (fd0 / page_size)) (set_word-page fd0 fd_dev_id devpipe_id s)
      ∙ e in
    let pages_b =
      set_word-page fd0 fd_omode o_rdonly a ∙ set_word-page fd0 fd_dev_id devpipe_id s in
    let at_b = ap (λ (f : ℕ → Option ℕ). f (fd1 / page_size)) pages_b ∙ h in
    let at_c =
      ap (λ (f : ℕ → Option ℕ). f (fd1 / page_size)) (set_word-page fd1 fd_dev_id devpipe_id b)
      ∙ at_b in
    let pages = equipped-page fd0 fd1 s in
    let first =
      get_word-at fd0 fd_omode p (equipped fd0 fd1 s)
        (ap (λ (f : ℕ → Option ℕ). f (fd0 / page_size)) pages ∙ e) in
    let second =
      get_word-at fd1 fd_omode q (equipped fd0 fd1 s)
        (ap (λ (f : ℕ → Option ℕ). f (fd1 / page_size)) pages ∙ h) in
    let words_b = set_word-words fd0 fd_omode o_rdonly p a at_a in
    let words_c = set_word-words fd1 fd_dev_id devpipe_id q b at_b in
    let words = set_word-words fd1 fd_omode o_wronly q c at_c in
    (
      first ∙ rw (words, words_c, words_b, apart, ==_self p) refl,
      second ∙ rw (words, ==_self q) refl,
    )

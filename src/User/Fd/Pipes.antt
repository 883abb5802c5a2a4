-- ===== src/User/Fd/Pipes.antt =====
-- `fd_alloc` of user/lib/fd.c and `pipe` of user/lib/pipe.c on every branch.
use buaa_mos_with_swap.Prelude.{
  ℕ, ◌+◌, ◌*◌, ◌/◌, ◌<◌, ◌≡◌, ◌≢◌, ◌⊎◌, inl, inr, refl, ap, sym, ◌∙◌, false, [], ◌∷◌, Option, none,
  some, arith, ◌==◌, update, Bool-cases, ==_self,
}
use buaa_mos_with_swap.Mmu.{page_size}
use buaa_mos_with_swap.User.Fd.{
  Process, Errno, e_no_mem, success, failure, returns, maxfd, index2fd, index2data, fd2num, fd2data,
  syscall_mem_alloc, syscall_mem_map, syscall_mem_unmap, undo, or_undo, set_up_pipe, share_pipe,
  pipe, shared_perm, get_word, fd_omode, o_rdonly, o_wronly,
}
use buaa_mos_with_swap.User.Fd.Opened.{
  fd_page, given, new_fd_cases, data_page, equipped, equipped-page, equipped-modes,
}

-- Taking back a mapping that was not there before.
unmap_given :
    (f g : ℕ → Option ℕ) (a p v : ℕ)
    → f a ≡ none
    → ((w : ℕ) → g w ≡ update f a (some p) w)
    → update g a none v ≡ f v
unmap_given f g a p v e h = elim (Bool-cases (a == v)) [
  | inl here ↦ let same : a ≡ v = ground (arith, here) in rw here (sym e ∙ ap f same)
  | inr other ↦ rw other (h v ∙ rw other refl)
]

map_eq :
    (src dst p : ℕ) (s : Process)
    → s.page (src / page_size) ≡ some p
    → syscall_mem_map src dst shared_perm s
      ≡ returns (success tt) (record s {
        page = update s.page (dst / page_size) (some p);
        perm = update s.perm (dst / page_size) shared_perm;
      })
unfolding syscall_mem_map
map_eq src dst p s e = rw (e, syscall_mem_map) refl

-- The data page, mapped at both addresses.
unfoldable both_mapped : ℕ → ℕ → Process → Process
both_mapped fd0 fd1 s =
    let w = given (fd2data fd0) s in
    record w {
      page = update w.page (fd2data fd1 / page_size) (some s.fresh);
      perm = update w.perm (fd2data fd1 / page_size) shared_perm;
    }

share_pipe_cases :
    (fd0 fd1 : ℕ) (s : Process)
    → (share_pipe fd0 fd1 s
        ≡ returns (failure e_no_mem) (undo (fd1 ∷ fd0 ∷ []) (record s { fresh = s.fresh + 1 })))
      ⊎ (share_pipe fd0 fd1 s
          ≡ returns (success (fd2num fd0, fd2num fd1)) (equipped fd0 fd1 (both_mapped fd0 fd1 s)))
unfolding share_pipe or_undo syscall_mem_alloc set_up_pipe both_mapped given
share_pipe_cases fd0 fd1 s = elim (Bool-cases (s.grants s.fresh)) [
  | inr refused ↦ inl (rw refused refl)
  | inl granted ↦
      let w = given (fd2data fd0) s in
      let here : w.page (fd2data fd0 / page_size) ≡ some s.fresh =
        rw (==_self (fd2data fd0 / page_size)) refl in
      inr (
        rw granted (
          ap (or_undo (fd2data fd0 ∷ fd1 ∷ fd0 ∷ []) (λ _. set_up_pipe fd0 fd1))
            (map_eq (fd2data fd0) (fd2data fd1) s.fresh w here)))
]

pub fd2num_lem : (k : ℕ) → fd2num (index2fd k) ≡ k
unfolding fd2num
fd2num_lem k = omega arith

numbers_ne : (i j : ℕ) → (index2fd i / page_size == index2fd j / page_size) ≡ false → i ≢ j
numbers_ne i j h e = ground (arith, fd_page i, fd_page j)

given_none :
    (va vb : ℕ) (s : Process)
    → (given va s).page (vb / page_size) ≡ none
    → ((va / page_size == vb / page_size) ≡ false) × (s.page (vb / page_size) ≡ none)
unfolding given
given_none va vb s h = elim (Bool-cases (va / page_size == vb / page_size)) [
  | inl same ↦ let mapped : some s.fresh ≡ none = rw same at h in cc
  | inr other ↦ (other, rw other at h)
]

-- What a pipe's two descriptors and data addresses are mapped to.
opened_pages :
    (i j : ℕ) (s : Process)
    → i < maxfd
    → j < maxfd
    → (index2fd i / page_size == index2fd j / page_size) ≡ false
    → let t =
        equipped
          (index2fd i)
          (index2fd j)
          (both_mapped (index2fd i) (index2fd j) (given (index2fd j) (given (index2fd i) s))) in
      (get_word (index2fd i) fd_omode t ≡ o_rdonly)
      × (get_word (index2fd j) fd_omode t ≡ o_wronly)
      × (t.page (index2data i / page_size) ≡ some (s.fresh + 1 + 1))
      × (t.page (index2data j / page_size) ≡ some (s.fresh + 1 + 1))
unfolding both_mapped given
opened_pages i j s l h apart =
    let w = both_mapped (index2fd i) (index2fd j) (given (index2fd j) (given (index2fd i) s)) in
    let pages = equipped-page (index2fd i) (index2fd j) w in
    let data_i = data_page i l in
    let data_j = data_page j h in
    let index_i : index2data i / page_size ≡ 0x60000 + 1024 * i = omega arith in
    let index_j : index2data j / page_size ≡ 0x60000 + 1024 * j = omega arith in
    let at_i : w.page (index2fd i / page_size) ≡ some s.fresh =
      rw (data_i, data_j, fd_page i, fd_page j)
        (ground (arith, l, h, apart, fd_page i, fd_page j)) in
    let at_j : w.page (index2fd j / page_size) ≡ some (s.fresh + 1) =
      rw (data_i, data_j, fd_page i, fd_page j) (ground (arith, l, h)) in
    let (m0, m1) =
      equipped-modes (index2fd i) (index2fd j) s.fresh (s.fresh + 1) w at_i at_j (ground arith) in
    (
      m0,
      m1,
      ap (λ (f : ℕ → Option ℕ). f (index2data i / page_size)) pages
          ∙ rw (data_i, data_j, fd_page i, fd_page j, index_i) (ground (arith, l, h)),
      ap (λ (f : ℕ → Option ℕ). f (index2data j / page_size)) pages
          ∙ rw (data_i, data_j, fd_page i, fd_page j, index_j) (ground (arith, l, h)),
    )

-- `pipe` either fails, and then every address is mapped as it was before; or it opens the numbers `i`
-- and `j`, both free before and different, `i` for reading and `j` for writing, and their data
-- addresses are mapped to one page.
pub pipe_cases :
    (s : Process)
    → ((e : Errno) × (t : Process) × (pipe s ≡ returns (failure e) t)
        × ((v : ℕ) → t.page v ≡ s.page v))
      ⊎ ((i j p : ℕ) × (t : Process) × (pipe s ≡ returns (success (i, j)) t)
          × (i ≢ j)
          × (s.page (index2fd i / page_size) ≡ none)
          × (s.page (index2fd j / page_size) ≡ none)
          × (get_word (index2fd i) fd_omode t ≡ o_rdonly)
          × (get_word (index2fd j) fd_omode t ≡ o_wronly)
          × (t.page (index2data i / page_size) ≡ some p)
          × (t.page (index2data j / page_size) ≡ some p))
unfolding pipe or_undo undo syscall_mem_unmap given
pipe_cases s = elim (new_fd_cases s) [
  | inl (e, t, r, same) ↦ inl (e, t, rw r refl, λ v. ap (λ (f : ℕ → Option ℕ). f v) same)
  | inr (i, low, free, r) ↦ elim (new_fd_cases (given (index2fd i) s)) [
    | inl (e, t, q, same) ↦ inl (
      e,
      syscall_mem_unmap (index2fd i) t,
      rw (r, q) refl,
      λ v.
          unmap_given s.page t.page (index2fd i / page_size) s.fresh v free
            (λ w. ap (λ (f : ℕ → Option ℕ). f w) same),
    )
    | inr (j, small, room, q) ↦
        let u = given (index2fd j) (given (index2fd i) s) in
        let (apart, room_before) = given_none (index2fd i) (index2fd j) s room in
        elim (share_pipe_cases (index2fd i) (index2fd j) u) [
          | inl f ↦ inl (
            e_no_mem,
            undo (index2fd j ∷ index2fd i ∷ []) (record u { fresh = u.fresh + 1 }),
            rw (r, q) f,
            λ v.
                unmap_given s.page (update u.page (index2fd j / page_size) none)
                  (index2fd i / page_size) s.fresh v free
                  (λ w.
                    unmap_given (given (index2fd i) s).page u.page (index2fd j / page_size)
                      (s.fresh + 1) w room (λ x. refl)),
          )
          | inr f ↦
              let (m0, m1, p0, p1) =
                opened_pages i j s (omega (arith, low)) (omega (arith, small)) apart in
              inr (
                i,
                j,
                s.fresh + 1 + 1,
                equipped (index2fd i) (index2fd j) (both_mapped (index2fd i) (index2fd j) u),
                rw (r, q)
                    (f
                      ∙ ap
                          (λ (n : ℕ × ℕ). returns (success n) (
                            equipped (index2fd i) (index2fd j)
                              (both_mapped (index2fd i) (index2fd j) u)))
                          (λ x. (fd2num_lem i x, fd2num_lem j x))),
                numbers_ne i j apart,
                free,
                room_before,
                m0,
                m1,
                p0,
                p1,
              )
        ]
  ]
]

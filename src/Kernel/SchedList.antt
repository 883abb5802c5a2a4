-- ===== src/Kernel/SchedList.antt =====
-- `TAILQ_REMOVE` of include/queue.h on `env_sched_list`, whose element may be off the list.
use buaa_mos_with_swap.Prelude.{
  ℕ, ◌≡◌, refl, ap, ◌∙◌, arith, Bool, true, false, List, [], ◌∷◌, Option, none, some, ◌==◌,
  if◌then◌else◌, update, mem, remove, Bool-cases, inl, inr,
}
use buaa_mos_with_swap.Kernel.{Kernel, M, ok, null_deref, stale}

unfoldable pub first : List ℕ → Option ℕ
first [] = none
first (x ∷ xs) = some x

-- The elements before and behind `e`, where `p` is before the list.
unfoldable pub neighbours : ℕ → Option ℕ → List ℕ → Option ℕ × Option ℕ
neighbours e p [] = (p, none)
neighbours e p (x ∷ xs) =
    let rest = neighbours e (some x) xs in if x == e then (p, first xs) else rest

unfoldable pub same_option : Option ℕ → Option ℕ → Bool
same_option none none = true
same_option none (some b) = false
same_option (some a) none = false
same_option (some a) (some b) = a == b

unfoldable pub follows : ℕ → Option ℕ → List ℕ → Bool
follows p n [] = false
follows p n (x ∷ xs) =
    let rest = follows p n xs in if x == p then same_option (first xs) n else rest

-- The second follows the first, or the head, in the list.
unfoldable pub adjacent : Option ℕ × Option ℕ → List ℕ → Bool
adjacent l q = elim l.0 [ none ↦ same_option (first q) l.1 | some p ↦ follows p l.1 q ]

-- The writes through old links: to address 0; of what is there anyway; or to a wrong place.
unfoldable pub unlink_again : Option (Option ℕ × Option ℕ) → M (Unit {0})
unlink_again none s = null_deref
unlink_again (some l) s = if adjacent l s.env_sched_list then ok tt s else stale

-- `TAILQ_REMOVE(&env_sched_list, e, env_sched_link)`.
unfoldable pub unlink : ℕ → M (Unit {0})
unlink e s =
    if mem e s.env_sched_list
    then ok tt (record s {
      env_sched_list = remove e s.env_sched_list;
      sched_link = update s.sched_link e (some (neighbours e none s.env_sched_list));
    })
    else unlink_again (s.sched_link e) s

remove_absent : (e : ℕ) (q : List ℕ) → mem e q ≡ false → remove e q ≡ q
remove_absent e [] h = refl
remove_absent e (x ∷ xs) h = ground (arith, h, remove_absent e xs)

-- The state without `e`, and with some links.
abbrev pub unlinked : Kernel → ℕ → (ℕ → Option (Option ℕ × Option ℕ)) → Kernel
unlinked s e l = record s { env_sched_list = remove e s.env_sched_list; sched_link = l }

unlink_again-ok :
    (o : Option (Option ℕ × Option ℕ)) (s t : Kernel) → unlink_again o s ≡ ok tt t → s ≡ t
unfolding unlink_again
unlink_again-ok none s t h = cc
unlink_again-ok (some l) s t h = elim (Bool-cases (adjacent l s.env_sched_list)) [
  | inl good ↦ ground (arith, rw good at h)
  | inr bad ↦ absurd (ground (arith, rw bad at h))
]

-- A removal that ends has taken the environment off the list, if it was there.
pub unlink-ok :
    (e : ℕ) (s t : Kernel)
    → unlink e s ≡ ok tt t
    → (l : ℕ → Option (Option ℕ × Option ℕ)) × (unlinked s e l ≡ t)
unfolding unlink
unlink-ok e s t h = elim (Bool-cases (mem e s.env_sched_list)) [
  | inl there ↦ (
    update s.sched_link e (some (neighbours e none s.env_sched_list)),
    ground (arith, rw there at h),
  )
  | inr absent ↦
      let same = unlink_again-ok (s.sched_link e) s t (rw absent at h) in
      (
        s.sched_link,
        ap (λ q. record s { env_sched_list = q }) (remove_absent e s.env_sched_list absent) ∙ same,
      )
]

-- Of what is on the list.
pub unlink-listed :
    (e : ℕ) (s : Kernel)
    → mem e s.env_sched_list ≡ true
    → unlink e s
      ≡ ok tt (unlinked s e (update s.sched_link e (some (neighbours e none s.env_sched_list))))
unfolding unlink
unlink-listed e s h = rw h refl

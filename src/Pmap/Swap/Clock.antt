-- ===== src/Pmap/Swap/Clock.antt =====
-- The second-chance clock of `swap` in kern/pmap.c: it always stops, at a page of the queue.
use buaa_mos_with_swap.Prelude.{
  ℕ, zero, suc, ◌+◌, ◌-◌, ◌≤◌, ◌<◌, ◌≡◌, refl, ◌≢◌, ◌⊎◌, inl, inr, true, false, List, [], ◌∷◌,
  Option, none, some, arith, leb, ◌==◌, if◌then◌else◌, Bool-cases, update, length, is_nil, mem,
}
use buaa_mos_with_swap.Kernel.{Kernel}
use buaa_mos_with_swap.Pmap.Swap.{next_of, advance, clock, clock_fuel, start_of, choose}

-- How many pages of the queue have their flag set.
unfoldable pub marked : List ℕ → (ℕ → ℕ) → ℕ
marked [] acc = 0
marked (x ∷ xs) acc = (if acc x == 1 then 1 else 0) + marked xs acc

marked-le : (q : List ℕ) (acc : ℕ → ℕ) → marked q acc ≤ length q
unfolding marked
marked-le [] acc = omega arith
marked-le (x ∷ xs) acc = ground (arith, marked-le xs acc)

marked-update_le : (n : ℕ) (q : List ℕ) (acc : ℕ → ℕ) → marked q (update acc n 0) ≤ marked q acc
unfolding marked
marked-update_le n [] acc = omega arith
marked-update_le n (x ∷ xs) acc = ground (arith, marked-update_le n xs acc)

marked-update_lt :
    (n : ℕ) (q : List ℕ) (acc : ℕ → ℕ)
    → mem n q ≡ true
    → acc n ≡ 1
    → marked q (update acc n 0) < marked q acc
unfolding marked
marked-update_lt n [] acc m a = cc
marked-update_lt n (x ∷ xs) acc m a =
    ground (arith, marked-update_lt n xs acc, marked-update_le n xs acc)

next_of-mem : (p n : ℕ) (q : List ℕ) → next_of p q ≡ some n → mem n q ≡ true
unfolding next_of
next_of-mem p n [] e = cc
next_of-mem p n (x ∷ []) e = ground arith
next_of-mem p n (x ∷ y ∷ q) e = ground (arith, next_of-mem p n (y ∷ q))

advance-mem :
    (p : ℕ) (q : List ℕ) → is_nil q ≡ false → (n : ℕ) × (advance p q ≡ some n) × (mem n q ≡ true)
unfolding advance
advance-mem p [] h = cc
advance-mem p (x ∷ q) h = go (next_of p (x ∷ q)) refl
  where
    go :
        (o : Option ℕ)
        → next_of p (x ∷ q) ≡ o
        → (n : ℕ) × (advance p (x ∷ q) ≡ some n) × (mem n (x ∷ q) ≡ true)
    go none e = (x, rw (e, advance) refl, ground arith)
    go (some n) e = (n, rw (e, advance) refl, next_of-mem p n (x ∷ q) e)

-- What the clock returns: a page of the queue, whose flag is clear unless the hand came round to
-- where it began; and flags that differ from the old ones only in being cleared.
pub record Chosen (q : List ℕ) (last : ℕ) (acc : ℕ → ℕ) (n : ℕ) (acc' : ℕ → ℕ) : Type 0 where
  pub queued : mem n q ≡ true
  pub spared : (n ≡ last) ⊎ (acc' n ≢ 1)
  pub cleared : (k : ℕ) → (acc' k ≡ acc k) ⊎ (acc' k ≡ 0)

abbrev Stops : List ℕ → ℕ → (ℕ → ℕ) → Option (ℕ × (ℕ → ℕ)) → Type 0
Stops q last acc r = (n : ℕ) × (acc' : ℕ → ℕ) × (r ≡ some (n, acc')) × Chosen q last acc n acc'

after_clear :
    (q : List ℕ) (last n : ℕ) (acc : ℕ → ℕ) (r : Option (ℕ × (ℕ → ℕ)))
    → Stops q last (update acc n 0) r
    → Stops q last acc r
after_clear q last n acc r (m, acc', e, c) = (
  m,
  acc',
  e,
  record { queued = c.queued; spared = c.spared; cleared = λ k. ground (arith, c.cleared k) },
)

clock_round :
    (f : ℕ) (q : List ℕ) (last pp max : ℕ) (acc : ℕ → ℕ) (n : ℕ)
    → advance pp q ≡ some n
    → mem n q ≡ true
    → marked q acc + max < suc f
    → ((max' : ℕ) (acc' : ℕ → ℕ)
        → marked q acc' + max' < f
        → Stops q last acc' (clock f q last n max' acc'))
    → Stops q last acc (clock (suc f) q last pp max acc)
unfolding clock
clock_round f q last pp max acc n e m fuel ih =
    rw (e, clock)
      (elim (Bool-cases (n == last)) [
        | inl round ↦ rw round (
          n,
          acc,
          refl,
          record { queued = m; spared = inl (ground arith); cleared = λ k. inl refl },
        )
        | inr on ↦ rw on (elim (Bool-cases (acc n == 1)) [
          | inl flag ↦ rw flag (
              after_clear q last n acc _
                (ih max (update acc n 0) (ground (arith, marked-update_lt n q acc))))
          | inr plain ↦ rw plain (elim (Bool-cases (leb max 1)) [
            | inl out ↦ rw out (
              n,
              acc,
              refl,
              record { queued = m; spared = inr (ground arith); cleared = λ k. inl refl },
            )
            | inr more ↦ rw more (ih (max - 1) acc (ground arith))
          ])
        ])
      ])

clock-Stops :
    (f : ℕ) (q : List ℕ) (last pp max : ℕ) (acc : ℕ → ℕ)
    → is_nil q ≡ false
    → marked q acc + max < f
    → Stops q last acc (clock f q last pp max acc)
clock-Stops zero q last pp max acc h fuel = absurd (omega arith)
clock-Stops (suc f) q last pp max acc h fuel =
    let (n, e, m) = advance-mem pp q h in
    clock_round f q last pp max acc n e m fuel
      λ max' acc' less. clock-Stops f q last n max' acc' h less

-- From a queue that is not empty, the search of `swap` ends within its fuel. It ends at a page of
-- the queue, which is the page `last` or has its flag clear, and the flags differ from the old ones
-- only in being cleared.
pub clock-Chosen :
    (q : List ℕ) (last pp : ℕ) (acc : ℕ → ℕ)
    → is_nil q ≡ false
    → (n : ℕ) × (acc' : ℕ → ℕ) × (clock (clock_fuel q) q last pp 100 acc ≡ some (n, acc'))
      × Chosen q last acc n acc'
unfolding clock_fuel
clock-Chosen q last pp acc h =
    clock-Stops (length q + 101) q last pp 100 acc h (omega (arith, marked-le q acc))

-- So `swap` has a page to evict whenever the queue has one.
pub choose-mem :
    (q : List ℕ) (s : Kernel)
    → is_nil q ≡ false
    → (pp : ℕ) × (acc : ℕ → ℕ) × (choose q s
        ≡ some (pp, record s { accessed = acc; last_next = advance pp q }))
      × (mem pp q ≡ true)
unfolding choose
choose-mem [] s h = cc
choose-mem (x ∷ q) s h =
    let start = start_of s.last_next x in
    let (pp, acc, e, c) = clock-Chosen (x ∷ q) start start s.accessed h in
    (pp, acc, rw (e, choose) refl, c.queued)

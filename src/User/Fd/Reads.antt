-- ===== src/User/Fd/Reads.antt =====
-- `readn` of user/lib/fd.c ends.
use buaa_mos_with_swap.Prelude.{
  ℕ, zero, suc, ◌+◌, ◌-◌, ◌<◌, ◌≤◌, ◌≡◌, refl, List, [], ◌∷◌, ◌++◌, Option, some, arith, leb,
  length, length-append, Bool-cases, inl, inr,
}
use buaa_mos_with_swap.User.Fd.{
  Process, success, failure, Returned, returns, Dev, after_read, read, readn_from, readn,
}

after_read-some :
    (next : List ℕ → Process → Option (Returned (List ℕ))) (got : List ℕ) (o : Returned (List ℕ))
    → ((b : ℕ) (bs : List ℕ) (t : Process)
        → (r : Returned (List ℕ)) × (next (got ++ b ∷ bs) t ≡ some r))
    → (r : Returned (List ℕ)) × (after_read next got o ≡ some r)
unfolding after_read
after_read-some next got (returns (failure e) s) h = (returns (failure e) s, refl)
after_read-some next got (returns (success []) s) h = (returns (success got) s, refl)
after_read-some next got (returns (success (b ∷ bs)) s) h = h b bs s

readn_from-some :
    (devtab : List (ℕ × Dev)) (fuel fdnum n : ℕ) (got : List ℕ) (s : Process)
    → 1 ≤ fuel
    → n < length got + fuel
    → (r : Returned (List ℕ)) × (readn_from devtab fuel fdnum n got s ≡ some r)
unfolding readn_from
readn_from-some devtab zero fdnum n got s h l = absurd (omega (arith, h))
readn_from-some devtab (suc fuel) fdnum n got s h l = elim (Bool-cases (leb n (length got))) [
  | inl enough ↦ (returns (success got) s, rw enough refl)
  | inr more ↦
      let below : length got < n = ground (arith, more) in
      let (r, e) =
        after_read-some (readn_from devtab fuel fdnum n) got (read devtab fdnum (n - length got) s)
          (λ b bs t.
            readn_from-some devtab fuel fdnum n (got ++ b ∷ bs) t (omega (arith, l, below))
              (omega (arith, l, length-append got (b ∷ bs)))) in
      (r, rw more e)
]

-- `readn` always returns, whatever the device gives it: a round that goes on has read at least a
-- byte, so no more rounds are needed than one for each byte asked for and the last.
pub readn-returns :
    (devtab : List (ℕ × Dev)) (fdnum n : ℕ) (s : Process)
    → (r : Returned (List ℕ)) × (readn devtab fdnum n s ≡ some r)
unfolding readn
readn-returns devtab fdnum n s =
    readn_from-some devtab (suc n) fdnum n [] s (omega arith) (omega arith)

-- ===== src/Print/Slices.antt =====
-- The character buffer of `print_num` in lib/print.c, read back as a list.
use mathlib.Core.List.{reverse, reverse-append}
use buaa_mos_with_swap.Prelude.{
  ℕ, zero, suc, ◌+◌, ◌-◌, ◌*◌, ◌<◌, ◌≤◌, ◌≡◌, refl, sym, ap, ◌∙◌, ◌&&◌, [], ◌∷◌, ◌++◌, arith, leb,
  ltb, if◌then◌else◌, update, replicate, Bool-cases, inl, inr,
}
use mathlib.Core.List.{append_assoc, append-nil}
use buaa_mos_with_swap.Print.{slice, pad, swap_ends}

pub slice-append :
    (m n from : ℕ) (buf : ℕ → ℕ)
    → slice (m + n) from buf ≡ slice m from buf ++ slice n (from + m) buf
unfolding slice
slice-append zero n from buf =
    let count : 0 + n ≡ n = omega arith in
    let start : from + 0 ≡ from = omega arith in rw (count, start) refl
slice-append (suc m) n from buf =
    let count : suc m + n ≡ suc (m + n) = omega arith in
    let start : from + suc m ≡ from + 1 + m = omega arith in
    rw (count, start, slice-append m n (from + 1) buf) refl

pub slice-snoc :
    (n from : ℕ) (buf : ℕ → ℕ) → slice (n + 1) from buf ≡ slice n from buf ++ buf (from + n) ∷ []
unfolding slice
slice-snoc n from buf = slice-append n 1 from buf

-- Only the characters inside the slice matter.
pub slice-ext :
    (n from : ℕ) (b c : ℕ → ℕ)
    → ((i : ℕ) → from ≤ i → i < from + n → b i ≡ c i)
    → slice n from b ≡ slice n from c
unfolding slice
slice-ext zero from b c h = refl
slice-ext (suc n) from b c h = cc (
  h from (omega arith) (omega arith),
  slice-ext n (from + 1) b c (λ i l u. h i (omega arith) (omega arith)),
)

pub slice-write :
    (n : ℕ) (buf : ℕ → ℕ) (c : ℕ) → slice (n + 1) 0 (update buf n c) ≡ slice n 0 buf ++ c ∷ []
slice-write n buf c =
    slice-snoc n 0 (update buf n c)
    ∙ rw (slice-ext n 0 (update buf n c) buf (λ i l u. ground arith))
        (ap (λ (x : ℕ). slice n 0 buf ++ x ∷ []) (ground arith))

pub slice-pad :
    (n from c : ℕ) (buf : ℕ → ℕ)
    → slice (from + n) 0 (pad n from c buf) ≡ slice from 0 buf ++ replicate n c
unfolding pad
slice-pad zero from c buf = let count : from + 0 ≡ from = omega arith in rw (count, append-nil) refl
slice-pad (suc n) from c buf =
    let count : from + suc n ≡ from + 1 + n = omega arith in
    rw (count, slice-pad n (from + 1) c (update buf from c), slice-write from buf c)
      (append_assoc (slice from 0 buf) (c ∷ []) (replicate n c))

-- Each character of the part between the ends comes from the mirrored place, the rest stays.
pub swap_ends_lem :
    (fuel begin end : ℕ) (buf : ℕ → ℕ) (i : ℕ)
    → end ≤ begin + 2 * fuel
    → swap_ends fuel begin end buf i
      ≡ (if leb begin i && leb i end then buf (begin + end - i) else buf i)
unfolding swap_ends
swap_ends_lem zero begin end buf i h = ground arith
swap_ends_lem (suc fuel) begin end buf i h = elim (Bool-cases (ltb begin end)) [
  | inl apart ↦
      let next = update (update buf begin (buf end)) end (buf begin) in
      rw (apart, swap_ends_lem fuel (begin + 1) (end - 1) next i (ground arith)) (grind arith)
  | inr met ↦ rw met (grind arith)
]

pub slice-mirror :
    (n from : ℕ) (b c : ℕ → ℕ)
    → ((i : ℕ) → i < n → c (from + i) ≡ b (n - 1 - i))
    → slice n from c ≡ reverse (slice n 0 b)
unfolding slice
slice-mirror zero from b c h = refl
slice-mirror (suc n) from b c h =
    let first : c from ≡ b (0 + n) = grind (arith, h 0) in
    let rest : slice n (from + 1) c ≡ reverse (slice n 0 b) =
      slice-mirror n (from + 1) b c (λ i l. grind (arith, h (suc i))) in
    let last : slice (n + 1) 0 b ≡ slice n 0 b ++ b (0 + n) ∷ [] = slice-snoc n 0 b in
    let count : n + 1 ≡ suc n = omega arith in
    rw (first, rest)
      (sym (reverse-append (slice n 0 b) (b (0 + n) ∷ []))
        ∙ ap reverse (sym last)
        ∙ ap (λ (k : ℕ). reverse (slice k 0 b)) count)

pub pad-below : (n from c : ℕ) (buf : ℕ → ℕ) (i : ℕ) → i < from → pad n from c buf i ≡ buf i
unfolding pad
pad-below zero from c buf i h = refl
pad-below (suc n) from c buf i h =
    pad-below n (from + 1) c (update buf from c) i (omega arith) ∙ ground arith

pub slice-padding : (n from c : ℕ) (buf : ℕ → ℕ) → slice n from (pad n from c buf) ≡ replicate n c
unfolding slice pad
slice-padding zero from c buf = refl
slice-padding (suc n) from c buf =
    let first = pad-below n (from + 1) c (update buf from c) from (omega arith) in
    rw (first, slice-padding n (from + 1) c (update buf from c))
      (ap (λ (x : ℕ). x ∷ replicate n c) (ground arith))

-- The first `n` characters are turned round, the next `m` stay.
pub slice-swap_ends :
    (fuel n m : ℕ) (buf : ℕ → ℕ)
    → 1 ≤ n
    → n ≤ fuel
    → slice (n + m) 0 (swap_ends fuel 0 (n - 1) buf) ≡ reverse (slice n 0 buf) ++ slice m n buf
slice-swap_ends fuel n m buf l h =
    let swapped = swap_ends fuel 0 (n - 1) buf in
    let turned : slice n 0 swapped ≡ reverse (slice n 0 buf) =
      slice-mirror n 0 buf swapped (λ i b.
        swap_ends_lem fuel 0 (n - 1) buf (0 + i) (omega (arith, h)) ∙ grind (arith, b, l)) in
    let kept : slice m (0 + n) swapped ≡ slice m (0 + n) buf =
      slice-ext m (0 + n) swapped buf
        (λ i a b. swap_ends_lem fuel 0 (n - 1) buf i (omega (arith, h)) ∙ grind (arith, a, l)) in
    let start : 0 + n ≡ n = omega arith in rw (slice-append n m 0 swapped, turned, kept, start) refl

-- ===== src/Print/Layout.antt =====
-- `print_num` of lib/print.c against the layout of a sign, digits and padding.
use mathlib.Core.List.{reverse, reverse-append, reverse-cons, map, append-nil}
use buaa_mos_with_swap.Prelude.{
  ℕ, zero, suc, ◌+◌, ◌-◌, ◌^◌, ◌<◌, ◌≤◌, ◌≡◌, refl, sym, ap, ◌∙◌, Bool, true, false, ◌&&◌, List, [],
  ◌∷◌, ◌++◌, arith, ◌==◌, if◌then◌else◌, update, replicate, length, length-append, Bool-cases, inl,
  inr,
}
use buaa_mos_with_swap.Print.{
  at_least, digit_char, write_digits, pad, swap_ends, padded, slice, print_digits, print_num,
}
use buaa_mos_with_swap.Print.Numbers.{digits, value, value-digits, write_digits_lem}
use buaa_mos_with_swap.Print.Slices.{
  slice-ext, slice-write, slice-pad, slice-padding, pad-below, slice-swap_ends,
}

-- The digits of `u` as characters, highest first.
unfoldable pub numeral : ℕ → ℕ → Bool → List ℕ
numeral u base upcase = reverse (map (digit_char upcase) (digits 32 base u))

unfoldable pub signed : Bool → List ℕ → List ℕ
signed neg ds = if neg then b'-' ∷ ds else ds

-- Spaces go after the text where it is adjusted to the left; zeros go between the sign and the
-- digits; other padding goes before the sign.
unfoldable pub layout : Bool → List ℕ → ℕ → Bool → ℕ → List ℕ
layout neg ds width ladjust pad_with =
    let text = signed neg ds in
    let gap = width - length text in
    if ladjust
    then text ++ replicate gap b' '
    else if neg && pad_with == b'0'
    then b'-' ∷ replicate gap pad_with ++ ds
    else replicate gap pad_with ++ text

replicate-snoc : (n c : ℕ) → replicate n c ++ c ∷ [] ≡ c ∷ replicate n c
replicate-snoc zero c = refl
replicate-snoc (suc n) c = ap (λ (xs : List ℕ). c ∷ xs) (replicate-snoc n c)

reverse-replicate : (n c : ℕ) → reverse (replicate n c) ≡ replicate n c
reverse-replicate zero c = refl
reverse-replicate (suc n) c =
    rw (reverse-cons c (replicate n c), reverse-replicate n c) (replicate-snoc n c)

-- A text in reverse at the front of the buffer, then padded at its end and turned round on its own.
left_lem :
    (n k c : ℕ) (buf : ℕ → ℕ)
    → 1 ≤ n
    → slice (n + k) 0 (swap_ends (n + k) 0 (n - 1) (pad k n c buf))
      ≡ reverse (slice n 0 buf) ++ replicate k c
left_lem n k c buf l =
    let text =
      slice-ext n 0 (pad k n c buf) buf (λ i a b. pad-below k n c buf i (omega (arith, b))) in
    rw (slice-swap_ends (n + k) n k (pad k n c buf) l (omega arith), text, slice-padding k n c buf)
      refl

-- The whole buffer turned round.
whole_lem :
    (n : ℕ) (buf : ℕ → ℕ) → 1 ≤ n → slice n 0 (swap_ends n 0 (n - 1) buf) ≡ reverse (slice n 0 buf)
unfolding slice
whole_lem n buf l =
    let e : n + 0 ≡ n = omega arith in
    ap (λ (k : ℕ). slice k 0 (swap_ends n 0 (n - 1) buf)) (sym e)
    ∙ slice-swap_ends n n 0 buf l (omega arith)
    ∙ append-nil (reverse (slice n 0 buf))

right_lem :
    (n k c : ℕ) (buf : ℕ → ℕ)
    → 1 ≤ n
    → slice (n + k) 0 (swap_ends (n + k) 0 (n + k - 1) (pad k n c buf))
      ≡ replicate k c ++ reverse (slice n 0 buf)
right_lem n k c buf l =
    rw
      (
        whole_lem (n + k) (pad k n c buf) (omega (arith, l)),
        slice-pad k n c buf,
        reverse-append (slice n 0 buf) (replicate k c),
        reverse-replicate k c,
      )
      refl

-- Zeros over the sign and after it, and the sign again at the end.
zeros_lem :
    (p k c d : ℕ) (buf : ℕ → ℕ)
    → slice
        (p + k + 1)
        0
        (swap_ends (p + k + 1) 0 (p + k) (update (pad k p c (update buf p d)) (p + k) d))
      ≡ d ∷ replicate k c ++ reverse (slice p 0 buf)
zeros_lem p k c d buf =
    let filled = pad k p c (update buf p d) in
    let end : p + k ≡ p + k + 1 - 1 = omega arith in
    let digits = slice-ext p 0 (update buf p d) buf (λ i a b. grind (arith, b)) in
    ap (λ (e : ℕ). slice (p + k + 1) 0 (swap_ends (p + k + 1) 0 e (update filled (p + k) d))) end
    ∙ rw
        (
          whole_lem (p + k + 1) (update filled (p + k) d) (omega arith),
          slice-write (p + k) filled d,
          slice-pad k p c (update buf p d),
          digits,
        )
        (reverse-append (slice p 0 buf ++ replicate k c) (d ∷ [])
          ∙ ap (λ (xs : List ℕ). d ∷ xs)
              (reverse-append (slice p 0 buf) (replicate k c)
                ∙ ap (λ (xs : List ℕ). xs ++ reverse (slice p 0 buf)) (reverse-replicate k c)))

length-slice : (n from : ℕ) (buf : ℕ → ℕ) → length (slice n from buf) ≡ n
unfolding slice
length-slice zero from buf = refl
length-slice (suc n) from buf = ap suc (length-slice n (from + 1) buf)

length-reverse : (xs : List ℕ) → length (reverse xs) ≡ length xs
length-reverse [] = refl
length-reverse (x ∷ xs) =
    ap length (reverse-cons x xs)
    ∙ length-append (reverse xs) (x ∷ [])
    ∙ omega (arith, length-reverse xs)

width-text : (p : ℕ) (buf : ℕ → ℕ) → length (reverse (slice p 0 buf)) ≡ p
width-text p buf = length-reverse (slice p 0 buf) ∙ length-slice p 0 buf

gap : (n width : ℕ) → n + (width - n) - n ≡ width - n
gap n width = omega arith

-- A field is as wide as its text or as was asked.
field_width : (n width : ℕ) → at_least n width ≡ n + (width - n)
unfolding at_least
field_width n width = ground arith

-- With a sign after the digits.
signed_text :
    (p d : ℕ) (buf : ℕ → ℕ)
    → reverse (slice (p + 1) 0 (update buf p d)) ≡ d ∷ reverse (slice p 0 buf)
signed_text p d buf = ap reverse (slice-write p buf d) ∙ reverse-append (slice p 0 buf) (d ∷ [])

print_digits_lem :
    (p : ℕ) (buf : ℕ → ℕ) (neg : Bool) (width : ℕ) (ladjust : Bool) (pad_with : ℕ)
    → 1 ≤ p
    → print_digits p buf neg width ladjust pad_with
      ≡ layout neg (reverse (slice p 0 buf)) width ladjust pad_with
unfolding print_digits padded layout signed
print_digits_lem p buf false width true c l =
    rw (width-text p buf, field_width p width, gap p width) (left_lem p (width - p) b' ' buf l)
print_digits_lem p buf true width true c l =
    let count : suc p ≡ p + 1 = omega arith in
    rw (width-text p buf, count, field_width (p + 1) width, gap (p + 1) width)
      (left_lem (p + 1) (width - (p + 1)) b' ' (update buf p b'-') (omega arith)
        ∙ rw (signed_text p b'-' buf) refl)
print_digits_lem p buf false width false c l =
    rw (width-text p buf, field_width p width, gap p width) (right_lem p (width - p) c buf l)
print_digits_lem p buf true width false c l = elim (Bool-cases (c == b'0')) [
  | inr other ↦
      let count : suc p ≡ p + 1 = omega arith in
      rw (other, width-text p buf, count, field_width (p + 1) width, gap (p + 1) width)
        (right_lem (p + 1) (width - (p + 1)) c (update buf p b'-') (omega arith)
          ∙ rw (signed_text p b'-' buf) refl)
  | inl zeros ↦
      let count : suc p ≡ p + 1 = omega arith in
      rw (zeros, width-text p buf, count, field_width (p + 1) width, gap (p + 1) width)
        (let order : p + 1 + (width - (p + 1)) ≡ p + (width - (p + 1)) + 1 = omega arith in
          let back : p + 1 - 1 ≡ p = omega arith in
          let last : p + (width - (p + 1)) + 1 - 1 ≡ p + (width - (p + 1)) = omega arith in
          rw (order, back, last) (zeros_lem p (width - (p + 1)) c b'-' buf))
]

some_digit :
    (fuel base : ℕ) (upcase : Bool) (u : ℕ)
    → 1 ≤ length (map (digit_char upcase) (digits (suc fuel) base u))
unfolding digits
some_digit fuel base upcase u = omega arith

-- For a base of two or more and a 32-bit number, `print_num` gives the callback the layout of the
-- number's numeral: the sign, the digits highest first, and padding to at least the width asked
-- for; and the digits of that numeral denote the number.
pub print_num_lem :
    (u base : ℕ) (neg : Bool) (width : ℕ) (ladjust : Bool) (pad_with : ℕ) (upcase : Bool)
    → 2 ≤ base
    → u < 2 ^ 32
    → (print_num u base neg width ladjust pad_with upcase
        ≡ layout neg (numeral u base upcase) width ladjust pad_with)
      × (value base (digits 32 base u) ≡ u)
unfolding print_num numeral slice
print_num_lem u base neg width ladjust c upcase b l =
    let out = write_digits 32 base upcase u 0 (λ i. 0) in
    let (ends, text) = write_digits_lem 32 base upcase u 0 (λ i. 0) in
    let nonempty = some_digit 31 base upcase u in
    (
      print_digits_lem out.0 out.1 neg width ladjust c (omega (arith, ends, nonempty))
          ∙ ap (λ (ds : List ℕ). layout neg (reverse ds) width ladjust c) text,
      value-digits 32 base u b l,
    )

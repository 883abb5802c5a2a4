-- ===== src/Print/Numbers.antt =====
-- `print_num` of lib/print.c against its digits and a layout on lists.
use mathlib.Core.List.{map, append_assoc, append-nil}
use buaa_mos_with_swap.Prelude.{
  ℕ, zero, suc, ◌+◌, ◌*◌, ◌/◌, ◌%◌, ◌^◌, ◌<◌, ◌≤◌, ◌≡◌, sym, Bool, List, [], ◌∷◌, ◌++◌, arith, ◌==◌,
  if◌then◌else◌, update, length, Bool-cases, inl, inr, subst,
}
use native.Mathlib.Nat.{div-add-mod, mul-le-mul_right, pow-suc}
use buaa_mos_with_swap.Print.{digit_char, write_digits, slice}
use buaa_mos_with_swap.Print.Slices.{slice-write}

-- The digits of `u`, lowest first.
unfoldable pub digits : ℕ → ℕ → ℕ → List ℕ
digits zero base u = []
digits (suc fuel) base u =
    let rest = digits fuel base (u / base) in u % base ∷ (if u / base == 0 then [] else rest)

pub value : ℕ → List ℕ → ℕ
value base [] = 0
value base (d ∷ ds) = d + base * value base ds

-- Dividing by a base of two or more halves the number.
halved : (base u bound : ℕ) → 2 ≤ base → u < bound * 2 → u / base < bound
halved base u bound b l =
    let split = div-add-mod u base in
    let least = mul-le-mul_right (u / base) b in omega (arith, split, least, l)

-- The digits denote the number.
pub value-digits : (fuel base u : ℕ) → 2 ≤ base → u < 2 ^ fuel → value base (digits fuel base u) ≡ u
unfolding value digits
value-digits zero base u b l = omega (arith, l)
value-digits (suc fuel) base u b l =
    let rest =
      value-digits fuel base (u / base) b
        (halved base u (2 ^ fuel) b (subst (λ (x : ℕ). u < x) (pow-suc 2 fuel) l)) in
    let split = div-add-mod u base in
    elim (Bool-cases (u / base == 0)) [
      | inl e ↦ rw e (grind (arith, rest, split))
      | inr e ↦ rw (e, rest) (grind (arith, split))
    ]

-- The loop appends the digits, lowest first, and returns where they end.
pub write_digits_lem :
    (fuel base : ℕ) (upcase : Bool) (u p : ℕ) (buf : ℕ → ℕ)
    → let out = write_digits fuel base upcase u p buf in
      let written = map (digit_char upcase) (digits fuel base u) in
      (out.0 ≡ p + length written) × (slice out.0 0 out.1 ≡ slice p 0 buf ++ written)
unfolding write_digits digits
write_digits_lem zero base upcase u p buf = (omega arith, sym (append-nil (slice p 0 buf)))
write_digits_lem (suc fuel) base upcase u p buf =
    let c = digit_char upcase (u % base) in
    let (ends, text) = write_digits_lem fuel base upcase (u / base) (p + 1) (update buf p c) in
    let step = slice-write p buf c in
    elim (Bool-cases (u / base == 0)) [
      | inl e ↦ rw e (omega arith, step)
      | inr e ↦ rw e (
        omega (arith, ends),
        rw (text, step)
            (append_assoc (slice p 0 buf) (c ∷ [])
              (map (digit_char upcase) (digits fuel base (u / base)))),
      )
    ]

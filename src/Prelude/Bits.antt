-- ===== src/Prelude/Bits.antt =====
-- Bits of machine words, by recursion on the binary digits. `bit x k` is the test
-- `x & (1 << k)`, `set_bit x k` is `x | (1 << k)`, `clear_bit x k` is `x & ~(1 << k)`, and
-- `or_bits w x y` is `x | y` on words of w bits.
use Prim.Native.Nat.{ℕ, zero, suc, ◌+◌, ◌*◌, ◌/◌, ◌%◌, ◌^◌, ◌<◌, ◌≤◌, max}
use mathlib.Core.Path.{◌≡◌, refl, ap, ◌∙◌}
use mathlib.Core.Bool.{Bool, true, false, ◌||◌}
use native.Mathlib.Omega.{arith}
use native.Mathlib.Nat.{pow-suc}
use buaa_mos_with_swap.Prelude.Tests.{◌==◌, if◌then◌else◌}

unfoldable pub bit : ℕ → ℕ → Bool
bit x zero = x % 2 == 1
bit x (suc k) = bit (x / 2) k

unfoldable pub set_bit : ℕ → ℕ → ℕ
set_bit x zero = x / 2 * 2 + 1
set_bit x (suc k) = set_bit (x / 2) k * 2 + x % 2

unfoldable pub clear_bit : ℕ → ℕ → ℕ
clear_bit x zero = x / 2 * 2
clear_bit x (suc k) = clear_bit (x / 2) k * 2 + x % 2

unfoldable pub or_bits : ℕ → ℕ → ℕ → ℕ
or_bits zero x y = 0
or_bits (suc w) x y = or_bits w (x / 2) (y / 2) * 2 + max (x % 2) (y % 2)

half_digit : (q r : ℕ) → r < 2 → (q * 2 + r) / 2 ≡ q
half_digit q r h = omega arith

pub bit-set_bit : (x k j : ℕ) → bit (set_bit x k) j ≡ (if k == j then true else bit x j)
unfolding bit set_bit
bit-set_bit x zero zero = ground arith
bit-set_bit x zero (suc j) = rw (half_digit (x / 2) 1 (omega arith)) (ground arith)
bit-set_bit x (suc k) zero = ground arith
bit-set_bit x (suc k) (suc j) =
    rw (half_digit (set_bit (x / 2) k) (x % 2) (omega arith))
      (ground (arith, bit-set_bit (x / 2) k j))

pub bit-clear_bit : (x k j : ℕ) → bit (clear_bit x k) j ≡ (if k == j then false else bit x j)
unfolding bit clear_bit
bit-clear_bit x zero zero = ground arith
bit-clear_bit x zero (suc j) = let e : x / 2 * 2 / 2 ≡ x / 2 = omega arith in rw e (ground arith)
bit-clear_bit x (suc k) zero = ground arith
bit-clear_bit x (suc k) (suc j) =
    rw (half_digit (clear_bit (x / 2) k) (x % 2) (omega arith))
      (ground (arith, bit-clear_bit (x / 2) k j))

pub bit-or_bits : (w x y k : ℕ) → k < w → bit (or_bits w x y) k ≡ (bit x k || bit y k)
unfolding bit or_bits
bit-or_bits zero x y k h = absurd (omega arith)
bit-or_bits (suc w) x y zero h = ground arith
bit-or_bits (suc w) x y (suc k) h =
    rw (half_digit (or_bits w (x / 2) (y / 2)) (max (x % 2) (y % 2)) (omega arith))
      (bit-or_bits w (x / 2) (y / 2) k (omega arith))

pub or_bits-lt : (w x y : ℕ) → or_bits w x y < 2 ^ w
unfolding or_bits
or_bits-lt zero x y = omega arith
or_bits-lt (suc w) x y = omega (arith, pow-suc 2 w, or_bits-lt w (x / 2) (y / 2))

pub set_bit-lt : (w x k : ℕ) → x < 2 ^ w → k < w → set_bit x k < 2 ^ w
unfolding set_bit
set_bit-lt zero x k h e = absurd (omega arith)
set_bit-lt (suc w) x zero h e = omega (arith, pow-suc 2 w)
set_bit-lt (suc w) x (suc k) h e =
    omega (arith, pow-suc 2 w, set_bit-lt w (x / 2) k (omega (arith, pow-suc 2 w)) (omega arith))

pub clear_bit-le : (x k : ℕ) → clear_bit x k ≤ x
unfolding clear_bit
clear_bit-le x zero = omega arith
clear_bit-le x (suc k) = omega (arith, clear_bit-le (x / 2) k)

-- A word is determined by its bits.
pub eq_of_bits : (w x y : ℕ) → x < 2 ^ w → y < 2 ^ w → ((k : ℕ) → k < w → bit x k ≡ bit y k) → x ≡ y
unfolding bit
eq_of_bits zero x y hx hy h = omega arith
eq_of_bits (suc w) x y hx hy h =
    let rest : x / 2 ≡ y / 2 =
      eq_of_bits w (x / 2) (y / 2) (omega (arith, pow-suc 2 w)) (omega (arith, pow-suc 2 w))
        (λ k e. h (suc k) (omega arith)) in
    ground (arith, h 0 (omega arith))

or_bits-zero : (w y : ℕ) → y < 2 ^ w → or_bits w 0 y ≡ y
unfolding or_bits
or_bits-zero zero y h = omega arith
or_bits-zero (suc w) y h = omega (arith, or_bits-zero w (y / 2) (omega (arith, pow-suc 2 w)))

-- Two fields that do not overlap are joined by a sum.
pub or_bits-disjoint :
    (k w n x y : ℕ) → n ≡ k + w → x < 2 ^ k → y < 2 ^ w → or_bits n x (y * 2 ^ k) ≡ y * 2 ^ k + x
unfolding or_bits
or_bits-disjoint zero w n x y e hx hy =
    let x0 : x ≡ 0 = omega arith in
    let nw : n ≡ w = omega arith in
    let y1 : y * 1 ≡ y = omega arith in rw (x0, y1, nw) (or_bits-zero w y hy ∙ omega arith)
or_bits-disjoint (suc k) w zero x y e hx hy = absurd (omega arith)
or_bits-disjoint (suc k) w (suc n) x y e hx hy =
    let p : y * 2 ^ suc k ≡ y * 2 ^ k * 2 = ap (λ (t : ℕ). y * t) (pow-suc 2 k) ∙ omega arith in
    let half : y * 2 ^ k * 2 / 2 ≡ y * 2 ^ k = omega arith in
    let ih : or_bits n (x / 2) (y * 2 ^ k) ≡ y * 2 ^ k + x / 2 =
      or_bits-disjoint k w n (x / 2) y (omega arith) (omega (arith, pow-suc 2 k)) hy in
    rw (p, half, ih) (omega arith)

-- Clearing a bit that was clear, or setting one that was set, changes nothing.
pub clear_bit-of_clear : (x k : ℕ) → bit x k ≡ false → clear_bit x k ≡ x
unfolding bit clear_bit
clear_bit-of_clear x zero h = ground arith
clear_bit-of_clear x (suc k) h = omega (arith, clear_bit-of_clear (x / 2) k h)

pub set_bit-of_set : (x k : ℕ) → bit x k ≡ true → set_bit x k ≡ x
unfolding bit set_bit
set_bit-of_set x zero h = ground arith
set_bit-of_set x (suc k) h = omega (arith, set_bit-of_set (x / 2) k h)

-- The high part of a word does not show in its low bits.
pub bit-add-mul : (w k q r : ℕ) → k < w → bit (q * 2 ^ w + r) k ≡ bit r k
unfolding bit
bit-add-mul zero k q r h = absurd (omega arith)
bit-add-mul (suc w) zero q r h =
    let e : q * 2 ^ suc w ≡ q * 2 ^ w * 2 = ap (λ (t : ℕ). q * t) (pow-suc 2 w) ∙ omega arith in
    rw e (ground arith)
bit-add-mul (suc w) (suc k) q r h =
    let e : q * 2 ^ suc w ≡ q * 2 ^ w * 2 = ap (λ (t : ℕ). q * t) (pow-suc 2 w) ∙ omega arith in
    let half : (q * 2 ^ w * 2 + r) / 2 ≡ q * 2 ^ w + r / 2 = omega arith in
    rw (e, half) (bit-add-mul w k q (r / 2) (omega arith))

pub or_bits_comm : (w x y : ℕ) → or_bits w x y ≡ or_bits w y x
unfolding or_bits
or_bits_comm zero x y = refl
or_bits_comm (suc w) x y = omega (arith, or_bits_comm w (x / 2) (y / 2))

pub or_bits-zero_right : (w x : ℕ) → x < 2 ^ w → or_bits w x 0 ≡ x
or_bits-zero_right w x h = or_bits_comm w x 0 ∙ or_bits-zero w x h

-- Fields of a word are joined one by one.
pub or_bits-fields :
    (k w n a b x y : ℕ)
    → n ≡ k + w
    → x < 2 ^ k
    → y < 2 ^ k
    → or_bits n (a * 2 ^ k + x) (b * 2 ^ k + y) ≡ or_bits w a b * 2 ^ k + or_bits k x y
unfolding or_bits
or_bits-fields zero w n a b x y e hx hy =
    let nw : n ≡ w = omega arith in
    let ax : a * 1 + x ≡ a = omega arith in
    let by : b * 1 + y ≡ b = omega arith in rw (ax, by, nw) (omega arith)
or_bits-fields (suc k) w zero a b x y e hx hy = absurd (omega arith)
or_bits-fields (suc k) w (suc n) a b x y e hx hy =
    let double : (c : ℕ) → c * 2 ^ suc k ≡ c * 2 ^ k * 2 =
      λ c. ap (λ (t : ℕ). c * t) (pow-suc 2 k) ∙ omega arith in
    let halfa : (a * 2 ^ k * 2 + x) / 2 ≡ a * 2 ^ k + x / 2 = omega arith in
    let halfb : (b * 2 ^ k * 2 + y) / 2 ≡ b * 2 ^ k + y / 2 = omega arith in
    let ih : or_bits n (a * 2 ^ k + x / 2) (b * 2 ^ k + y / 2)
        ≡ or_bits w a b * 2 ^ k + or_bits k (x / 2) (y / 2) =
      or_bits-fields k w n a b (x / 2) (y / 2) (omega arith) (omega (arith, pow-suc 2 k))
        (omega (arith, pow-suc 2 k)) in
    rw (double a, double b, double (or_bits w a b), halfa, halfb, ih) (omega arith)

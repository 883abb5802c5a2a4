-- ===== src/Prelude/Bitmap.antt =====
-- Bitmaps in arrays of 32-bit words: `b[i / 32] & (1 << (i % 32))` and its companions.
use Prim.Native.Nat.{ℕ, zero, suc, ◌+◌, ◌/◌, ◌%◌, ◌<◌, ◌≤◌}
use mathlib.Core.Path.{◌≡◌}
use mathlib.Core.Logic.{inl, inr}
use mathlib.Core.Bool.{Bool, true, false}
use mathlib.Core.Option.{Option, none, some}
use native.Mathlib.Omega.{arith}
use buaa_mos_with_swap.Prelude.Tests.{◌==◌, if◌then◌else◌, update, Bool-cases}
use buaa_mos_with_swap.Prelude.Bits.{bit, set_bit, clear_bit, bit-set_bit, bit-clear_bit}

unfoldable pub test_at : (ℕ → ℕ) → ℕ → Bool
test_at b i = bit (b (i / 32)) (i % 32)

unfoldable pub set_at : (ℕ → ℕ) → ℕ → ℕ → ℕ
set_at b i = update b (i / 32) (set_bit (b (i / 32)) (i % 32))

unfoldable pub clear_at : (ℕ → ℕ) → ℕ → ℕ → ℕ
clear_at b i = update b (i / 32) (clear_bit (b (i / 32)) (i % 32))

-- `for (j = i; j < i + n; j++) if (bit j is clear) return j;`
unfoldable pub find_clear : ℕ → ℕ → (ℕ → ℕ) → Option ℕ
find_clear zero i b = none
find_clear (suc n) i b = let rest = find_clear n (i + 1) b in if test_at b i then rest else some i

pub test_at-set_at :
    (b : ℕ → ℕ) (i j : ℕ) → test_at (set_at b i) j ≡ (if i == j then true else test_at b j)
unfolding test_at set_at
test_at-set_at b i j = ground (arith, bit-set_bit (b (i / 32)) (i % 32) (j % 32))

pub test_at-clear_at :
    (b : ℕ → ℕ) (i j : ℕ) → test_at (clear_at b i) j ≡ (if i == j then false else test_at b j)
unfolding test_at clear_at
test_at-clear_at b i j = ground (arith, bit-clear_bit (b (i / 32)) (i % 32) (j % 32))

-- What the scan returns: the least clear position, or that there is none.
pub record IsFirstClear (n i : ℕ) (b : ℕ → ℕ) (j : ℕ) : Type 0 where
  pub above : i ≤ j
  pub below : j < i + n
  pub clear : test_at b j ≡ false
  pub least : (k : ℕ) → i ≤ k → k < j → test_at b k ≡ true

pub find_clear-some :
    (n i : ℕ) (b : ℕ → ℕ) (j : ℕ) → find_clear n i b ≡ some j → IsFirstClear n i b j
unfolding find_clear
find_clear-some zero i b j e = cc
find_clear-some (suc n) i b j e = elim (Bool-cases (test_at b i)) [
  | inl t ↦
      let r : IsFirstClear n (i + 1) b j = find_clear-some n (i + 1) b j (ground arith) in
      record {
        above = omega (arith, r.above);
        below = omega (arith, r.below);
        clear = r.clear;
        least = λ k h l. ground (arith, r.least k);
      }
  | inr f ↦
      let same : i ≡ j = ground arith in
      record {
        above = omega arith;
        below = omega arith;
        clear = ground arith;
        least = λ k h l. absurd (omega arith);
      }
]

pub find_clear-none :
    (n i : ℕ) (b : ℕ → ℕ) (k : ℕ) → find_clear n i b ≡ none → i ≤ k → k < i + n → test_at b k ≡ true
unfolding find_clear
find_clear-none zero i b k e h l = absurd (omega arith)
find_clear-none (suc n) i b k e h l = ground (arith, find_clear-none n (i + 1) b k)

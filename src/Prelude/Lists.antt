-- ===== src/Prelude/Lists.antt =====
-- Lists measured by native numbers, membership as a test, and the removal of one value.
use Prim.Native.Nat.{ℕ, zero, suc, ◌+◌, ◌≤◌}
use mathlib.Core.Path.{◌≡◌, refl, ap}
use mathlib.Core.Logic.{◌≢◌}
use mathlib.Core.Bool.{Bool, true, false, ◌&&◌, ◌||◌, not}
use mathlib.Core.List.{List, [], ◌∷◌, ◌++◌}
use mathlib.Core.Option.{Option, none, some}
use native.Mathlib.Omega.{arith}
use buaa_mos_with_swap.Prelude.Tests.{◌==◌, if◌then◌else◌}

module _ {ℓ} {A : Type ℓ} where
  abbrev pub length : List A → ℕ
  length [] = 0
  length (x ∷ xs) = suc (length xs)

  abbrev pub is_nil : List A → Bool
  is_nil [] = true
  is_nil (x ∷ xs) = false

  abbrev pub head? : List A → Option A
  head? [] = none
  head? (x ∷ xs) = some x

  abbrev pub replicate : ℕ → A → List A
  replicate zero a = []
  replicate (suc n) a = a ∷ replicate n a

  abbrev pub get_elem? : List A → ℕ → Option A
  get_elem? [] n = none
  get_elem? (x ∷ xs) zero = some x
  get_elem? (x ∷ xs) (suc n) = get_elem? xs n

  pub length-append : (xs ys : List A) → length (xs ++ ys) ≡ length xs + length ys
  length-append [] ys = omega arith
  length-append (x ∷ xs) ys = omega (arith, length-append xs ys)

  pub get_elem?-past : (xs : List A) (n : ℕ) → length xs ≤ n → get_elem? xs n ≡ none
  get_elem?-past [] n h = refl
  get_elem?-past (x ∷ xs) zero h = absurd (omega (arith, h))
  get_elem?-past (x ∷ xs) (suc n) h = get_elem?-past xs n (omega (arith, h))

  pub length-replicate : (n : ℕ) (a : A) → length (replicate n a) ≡ n
  length-replicate zero a = refl
  length-replicate (suc n) a = ap suc (length-replicate n a)

abbrev pub mem : ℕ → List ℕ → Bool
mem a [] = false
mem a (x ∷ xs) = (x == a) || mem a xs

-- The queue macros' removal: the first occurrence goes, an absent element changes nothing.
abbrev pub remove : ℕ → List ℕ → List ℕ
remove a [] = []
remove a (x ∷ xs) = if x == a then xs else x ∷ remove a xs

abbrev pub distinct : List ℕ → Bool
distinct [] = true
distinct (x ∷ xs) = not (mem x xs) && distinct xs

pub mem-append : (a : ℕ) (xs ys : List ℕ) → mem a (xs ++ ys) ≡ (mem a xs || mem a ys)
mem-append a [] ys = refl
mem-append a (x ∷ xs) ys = ground (arith, mem-append a xs ys)

pub mem-remove_ne : (a b : ℕ) (xs : List ℕ) → a ≢ b → mem a (remove b xs) ≡ mem a xs
mem-remove_ne a b [] h = refl
mem-remove_ne a b (x ∷ xs) h = ground (arith, mem-remove_ne a b xs h)

pub mem-remove_self : (a : ℕ) (xs : List ℕ) → distinct xs ≡ true → mem a (remove a xs) ≡ false
mem-remove_self a [] h = refl
mem-remove_self a (x ∷ xs) h = ground (arith, mem-remove_self a xs)

pub mem_of_mem-remove : (a b : ℕ) (xs : List ℕ) → mem a (remove b xs) ≡ true → mem a xs ≡ true
mem_of_mem-remove a b [] h = h
mem_of_mem-remove a b (x ∷ xs) h = ground (arith, mem_of_mem-remove a b xs)

pub distinct-remove : (a : ℕ) (xs : List ℕ) → distinct xs ≡ true → distinct (remove a xs) ≡ true
distinct-remove a [] h = refl
distinct-remove a (x ∷ xs) h = ground (arith, distinct-remove a xs, mem-remove_ne x a xs)

pub distinct-snoc :
    (a : ℕ) (xs : List ℕ) → distinct xs ≡ true → mem a xs ≡ false → distinct (xs ++ a ∷ []) ≡ true
distinct-snoc a [] h k = refl
distinct-snoc a (x ∷ xs) h k = ground (arith, distinct-snoc a xs, mem-append x xs (a ∷ []))

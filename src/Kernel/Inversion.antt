-- ===== src/Kernel/Inversion.antt =====
-- What a chain of kernel steps that returned went through.
use buaa_mos_with_swap.Prelude.{◌≡◌, refl, Bool, true, false, arith}
use buaa_mos_with_swap.Kernel.{
  Kernel, Outcome, ok, panic, null_deref, stale, hang, M, and_then, panic_on, assert,
}

module _ {A B : Type 0} where
  pub and_then-ok :
      (r : Outcome A) (k : A → M B) {b : B} {t : Kernel}
      → and_then r k ≡ ok b t
      → (a : A) × (u : Kernel) × (r ≡ ok a u) × (k a u ≡ ok b t)
  and_then-ok (ok a u) k e = (a, u, refl, e)
  and_then-ok panic k e = cc
  and_then-ok null_deref k e = cc
  and_then-ok stale k e = cc
  and_then-ok hang k e = cc

pub panic_on-ok : (b : Bool) {s t : Kernel} → panic_on b s ≡ ok tt t → (b ≡ false) × (s ≡ t)
panic_on-ok true e = cc
panic_on-ok false e = (refl, ground arith)

pub assert-ok : (b : Bool) {s t : Kernel} → assert b s ≡ ok tt t → (b ≡ true) × (s ≡ t)
assert-ok false e = cc
assert-ok true e = (refl, ground arith)

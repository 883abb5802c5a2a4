-- ===== src/Env/Ids/Unique.antt =====
-- The identifiers that `mkenvid` of kern/env.c makes.
use buaa_mos_with_swap.Prelude.{
  ℕ, ◌+◌, ◌*◌, ◌%◌, ◌^◌, ◌<◌, ◌≡◌, refl, ap, ◌∙◌, ◌≢◌, arith, or_bits, or_bits-disjoint,
}
use buaa_mos_with_swap.Mmu.{word_mod}
use buaa_mos_with_swap.Kernel.{Kernel, ok}
use buaa_mos_with_swap.Env.Ids.{nenv, envx, mkenvid}

-- The identifier as a number: a count of 21 bits above the index of the environment.
envid_of : ℕ → ℕ → ℕ
envid_of e count = (count + 1) % 2 ^ 21 * 2 ^ 11 + e

mkenvid_lem :
    (s : Kernel) (e : ℕ)
    → e < nenv
    → mkenvid e s
      ≡ ok (envid_of e s.env_count) (record s { env_count = (s.env_count + 1) % word_mod })
unfolding mkenvid envid_of
mkenvid_lem s e h =
    let c = (s.env_count + 1) % 2 ^ 21 in
    let shifted : (s.env_count + 1) % word_mod * 2 ^ 11 % word_mod ≡ c * 2 ^ 11 = omega arith in
    ap (λ (id : ℕ). ok id (record s { env_count = (s.env_count + 1) % word_mod }))
      (ap (or_bits 32 e) shifted ∙ or_bits-disjoint 11 21 32 e c refl (omega arith) (omega arith))

made : (s t : Kernel) (e id : ℕ) → e < nenv → mkenvid e s ≡ ok id t → id ≡ envid_of e s.env_count
made s t e id h m = ground (arith, mkenvid_lem s e h)

-- An identifier leads back to its environment, and it is not 0, which stands for the caller, as
-- long as fewer than 2^21 identifiers were made.
pub mkenvid-envx :
    (s t : Kernel) (e id : ℕ)
    → e < nenv
    → s.env_count + 1 < 2 ^ 21
    → mkenvid e s ≡ ok id t
    → (envx id ≡ e) × (id ≢ 0)
unfolding envid_of
mkenvid-envx s t e id h l m =
    (omega (arith, made s t e id h m), λ z. omega (arith, made s t e id h m))

-- Two identifiers that are made at different counts below 2^21 are different, also for one slot
-- of `envs` that is used again.
pub mkenvid_ne :
    (s t u v : Kernel) (e e' id id' : ℕ)
    → e < nenv
    → e' < nenv
    → mkenvid e s ≡ ok id t
    → mkenvid e' u ≡ ok id' v
    → s.env_count < u.env_count
    → u.env_count + 1 < 2 ^ 21
    → id ≢ id'
unfolding envid_of
mkenvid_ne s t u v e e' id id' h h' m m' less small same =
    omega (arith, made s t e id h m, made u v e' id' h' m')

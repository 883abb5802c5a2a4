-- ===== src/Fs/Halts.antt =====
-- Outcomes of the file system server other than a loop without end.
pub mod Blocks
pub mod Paths
use buaa_mos_with_swap.Prelude.{
  ℕ, zero, suc, ◌+◌, ◌≡◌, sym, Bool, true, false, ◌&&◌, ◌||◌, not, List, [], ◌∷◌, Option, none,
  some, leb, ltb, ◌==◌, if◌then◌else◌, length, is_nil, bit,
}
use buaa_mos_with_swap.Fs.{
  Server, Outcome, ok, panic, null_deref, hang, Error, Result, success, failure, M, pure, ◌>>=◌,
  ◌>>◌, get, modify, panic_when, or_fail, try, load, store, and_then, s_root,
}

-- An outcome other than `hang`.
pub data Halts {A : Type 0} : Outcome A → Type 0 where
  returns : (a : A) (t : Server) → Halts (ok a t)
  panics : Halts panic
  faults : Halts null_deref

pub record NoHang {A : Type 0} (m : M A) : Type 0 where
  pub halts : (s : Server) → Halts (m s)

pub if-Halts :
    {A : Type 0} (b : Bool) {x y : Outcome A} → Halts x → Halts y → Halts (if b then x else y)
if-Halts true hx hy = hx
if-Halts false hx hy = hy

pub pure-NoHang : {A : Type 0} (a : A) → NoHang (pure a)
pure-NoHang a = record { halts = returns a }

pub if-NoHang :
    {A : Type 0} (b : Bool) {m n : M A} → NoHang m → NoHang n → NoHang (if b then m else n)
if-NoHang true hm hn = hm
if-NoHang false hm hn = hn

pub and_then-Halts :
    {A B : Type 0} {o : Outcome A} {k : A → M B}
    → Halts o
    → ((a : A) → NoHang (k a))
    → Halts (and_then o k)
and_then-Halts (returns a t) hk = (hk a).halts t
and_then-Halts panics hk = panics
and_then-Halts faults hk = faults

pub bind-NoHang :
    {A B : Type 0} {m : M A} {k : A → M B} → NoHang m → ((a : A) → NoHang (k a)) → NoHang (m >>= k)
bind-NoHang h hk = record { halts = λ s. and_then-Halts (h.halts s) hk }

pub then-NoHang : {A B : Type 0} {m : M A} {n : M B} → NoHang m → NoHang n → NoHang (m >> n)
then-NoHang h hn = bind-NoHang h λ _. hn

pub or_fail-NoHang :
    {A B : Type 0} {k : A → M (Result B)} (r : Result A)
    → ((a : A) → NoHang (k a))
    → NoHang (or_fail k r)
or_fail-NoHang (success a) hk = hk a
or_fail-NoHang {B = B} (failure e) hk = record { halts = returns (failure e) }

pub try-NoHang :
    {A B : Type 0} {m : M (Result A)} {k : A → M (Result B)}
    → NoHang m
    → ((a : A) → NoHang (k a))
    → NoHang (try m k)
try-NoHang h hk = record { halts = λ s. and_then-Halts (h.halts s) λ r. or_fail-NoHang r hk }

pub get-NoHang : {A : Type 0} (f : Server → A) → NoHang (get f)
get-NoHang f = record { halts = λ s. returns (f s) s }

pub load-NoHang : (p : ℕ) → NoHang (load p)
load-NoHang p = get-NoHang _

pub modify-NoHang : (f : Server → Server) → NoHang (modify f)
modify-NoHang f = record { halts = λ s. returns tt (f s) }

pub store-NoHang : (p v : ℕ) → NoHang (store p v)
store-NoHang p v = modify-NoHang _

pub panic_when-NoHang : (b : Bool) → NoHang (panic_when b)
panic_when-NoHang true = record { halts = λ s. panics }
panic_when-NoHang false = pure-NoHang tt

-- A case on an option.
pub option-Halts :
    {A C : Type 0} (o : Option C) {x : Outcome A} {f : C → Outcome A}
    → Halts x
    → ((c : C) → Halts (f c))
    → Halts (elim o [ none ↦ x | some c ↦ f c ])
option-Halts none hx hf = hx
option-Halts (some c) hx hf = hf c

pub ruleset no_hang = (
  returns, panics, faults, if-Halts, pure-NoHang, if-NoHang, bind-NoHang, then-NoHang,
  or_fail-NoHang, try-NoHang, get-NoHang, load-NoHang, modify-NoHang, store-NoHang,
  panic_when-NoHang,
)

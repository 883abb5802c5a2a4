-- ===== src/Fs.antt =====
-- The file system server: the constants of user/include/fs.h and fs/serv.h, its state and outcomes.
--
-- `mem` is the server's memory by word (an address divided by 4), `mapped` and `dirty` tell of a
-- page of the block cache, by page number, whether it is mapped (in memory or swapped) and whether
-- its entry has `PTE_DIRTY`; `disk` gives the words of each block of the disk.
pub mod Cache
pub mod Files
pub mod Dirs
pub mod Start
pub mod Halts
use buaa_mos_with_swap.Prelude.{
  ℕ, ◌+◌, ◌*◌, ◌/◌, ◌%◌, Bool, true, false, Option, none, some, ltb, if◌then◌else◌, update,
}
use buaa_mos_with_swap.Mmu.{page_size, word_mod}

abbrev pub block_size : ℕ
block_size = page_size

abbrev pub block_size_bit : ℕ
block_size_bit = block_size * 8

abbrev pub maxnamelen : ℕ
maxnamelen = 128

abbrev pub ndirect : ℕ
ndirect = 10

abbrev pub nindirect : ℕ
nindirect = block_size / 4

abbrev pub file_struct_size : ℕ
file_struct_size = 256

abbrev pub file2blk : ℕ
file2blk = block_size / file_struct_size

abbrev pub ftype_dir : ℕ
ftype_dir = 1

abbrev pub fs_magic : ℕ
fs_magic = 0x68286097

abbrev pub diskmap : ℕ
diskmap = 0x10000000

abbrev pub diskmax : ℕ
diskmax = 0x40000000

-- Addresses of the fields of the `struct File` and the `struct Super` at an address.
abbrev pub f_size : ℕ → ℕ
f_size f = f + 128

abbrev pub f_type : ℕ → ℕ
f_type f = f + 132

abbrev pub f_direct : ℕ → ℕ → ℕ
f_direct f i = f + 136 + 4 * i

abbrev pub f_indirect : ℕ → ℕ
f_indirect f = f + 176

abbrev pub f_dir : ℕ → ℕ
f_dir f = f + 180

abbrev pub s_magic : ℕ → ℕ
s_magic p = p

abbrev pub s_nblocks : ℕ → ℕ
s_nblocks p = p + 4

abbrev pub s_root : ℕ → ℕ
s_root p = p + 8

-- `super` and `bitmap` are 0 for `NULL`. `grants` are the answers of `syscall_mem_alloc` to its
-- successive calls, and `asked` counts them.
pub record Server : Type 0 where
  pub mem : ℕ → ℕ
  pub mapped : ℕ → Bool
  pub dirty : ℕ → Bool
  pub disk : ℕ → ℕ → ℕ
  pub super : ℕ
  pub bitmap : ℕ
  pub grants : ℕ → Bool
  pub asked : ℕ

-- `hang` is a loop whose fuel ran out; theorems show where it cannot be.
pub data Outcome (A : Type 0) : Type 0 where
  ok : A → Server → Outcome A
  panic : Outcome A
  null_deref : Outcome A
  hang : Outcome A

-- The error codes of include/error.h that the server returns, each a negated result.
pub data Error : Type 0 where
  e_no_mem e_inval e_no_disk e_not_found e_bad_path e_file_exists e_max_open : Error

pub data Result (A : Type 0) : Type 0 where
  success : A → Result A
  failure : Error → Result A

abbrev pub M : Type 0 → Type 0
M A = Server → Outcome A

abbrev pub pure : {A : Type 0} → A → M A
pure = ok

module _ {A B : Type 0} where
  abbrev pub and_then : Outcome A → (A → M B) → Outcome B
  and_then (ok a s) k = k a s
  and_then panic k = panic
  and_then null_deref k = null_deref
  and_then hang k = hang

  infixl 5 ◌>>=◌ ◌>>◌
  abbrev pub ◌>>=◌ : M A → (A → M B) → M B
  m >>= k = λ s. and_then (m s) k

  abbrev pub ◌>>◌ : M A → M B → M B
  m >> n = m >>= λ _. n

abbrev pub get : {A : Type 0} → (Server → A) → M A
get f s = ok (f s) s

abbrev pub modify : (Server → Server) → M (Unit {0})
modify f s = ok tt (f s)

abbrev pub panic_when : Bool → M (Unit {0})
panic_when true = λ s. panic
panic_when false = ok tt

-- `if ((r = e) < 0) return r;` and the macro `try`.
abbrev pub or_fail : {A B : Type 0} → (A → M (Result B)) → Result A → M (Result B)
or_fail k (success a) = k a
or_fail k (failure e) = pure (failure e)

abbrev pub try : {A B : Type 0} → M (Result A) → (A → M (Result B)) → M (Result B)
try m k = m >>= or_fail k

-- `*p` and `*p = v` for a word.
abbrev pub load : ℕ → M ℕ
load p = get λ s. s.mem (p / 4)

abbrev pub store : ℕ → ℕ → M (Unit {0})
store p v = modify λ s. record s { mem = update s.mem (p / 4) v }

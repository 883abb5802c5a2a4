-- ===== src/Syscall/Range.antt =====
-- The address checks of kern/syscall_all.c, the handlers that are little more than those checks,
-- and the two guards of kern/pmap.c for the registers of the swap disk.
pub mod Windows
use buaa_mos_with_swap.Prelude.{
  ℕ, zero, suc, ◌+◌, ◌%◌, Bool, true, false, ◌&&◌, ◌||◌, not, List, [], ◌∷◌, Option, none, some,
  ltb, leb, ◌==◌, if◌then◌else◌,
}
use buaa_mos_with_swap.Mmu.{word_mod, utemp, utop}
use buaa_mos_with_swap.Kernel.{Result, success, failure, e_inval}

unfoldable pub is_illegal_va : ℕ → Bool
is_illegal_va va = ltb va utemp || leb utop va

-- `va + len` is a sum of 32-bit words.
unfoldable pub is_illegal_va_range : ℕ → ℕ → Bool
is_illegal_va_range va len =
    let end = (va + len) % word_mod in
    if len == 0 then false else ltb end va || ltb va utemp || ltb utop end

-- `lo <= pa && pa + len <= lo + size`, with the sum of `pa` and `len` as a 32-bit word.
unfoldable pub in_window : ℕ → ℕ → ℕ → ℕ → Bool
in_window lo size pa len = leb lo pa && leb ((pa + len) % word_mod) (lo + size)

abbrev pub console_base : ℕ
console_base = 0x180003f8

abbrev pub ide_base : ℕ
ide_base = 0x180001f0

abbrev pub sd_base : ℕ
sd_base = 0x18000170

abbrev pub kseg1 : ℕ
kseg1 = 0xa0000000

unfoldable pub bad_length : ℕ → Bool
bad_length len = not (len == 1) && not (len == 2) && not (len == 4)

-- One `memcpy` between user memory and a device.
pub record Transfer : Type 0 where
  pub target : ℕ
  pub origin : ℕ
  pub bytes : ℕ

unfoldable pub dev_check : ℕ → ℕ → ℕ → Bool
dev_check va pa len =
    not (bad_length len)
    && not (is_illegal_va_range va len)
    && (in_window console_base 0x20 pa len || in_window ide_base 0x8 pa len)

-- The copy that is made, if any.
unfoldable pub sys_write_dev : ℕ → ℕ → ℕ → Result Transfer
sys_write_dev va pa len =
    if dev_check va pa len
    then success (record { target = (kseg1 + pa) % word_mod; origin = va; bytes = len })
    else failure e_inval

unfoldable pub sys_read_dev : ℕ → ℕ → ℕ → Result Transfer
sys_read_dev va pa len =
    if dev_check va pa len
    then success (record { target = va; origin = (kseg1 + pa) % word_mod; bytes = len })
    else failure e_inval

-- `write_sd` and `read_sd` of kern/pmap.c check no user address.
unfoldable pub sd_check : ℕ → ℕ → Bool
sd_check pa len = not (bad_length len) && in_window sd_base 0x8 pa len

unfoldable pub write_sd : ℕ → ℕ → ℕ → Result Transfer
write_sd va pa len =
    if sd_check pa len
    then success (record { target = (kseg1 + pa) % word_mod; origin = va; bytes = len })
    else failure e_inval

unfoldable pub read_sd : ℕ → ℕ → ℕ → Result Transfer
read_sd va pa len =
    if sd_check pa len
    then success (record { target = va; origin = (kseg1 + pa) % word_mod; bytes = len })
    else failure e_inval

-- The bytes at `s`, `s + 1`, ...; `user` reads user memory.
unfoldable pub bytes_from : (ℕ → ℕ) → ℕ → ℕ → List ℕ
bytes_from user s zero = []
bytes_from user s (suc n) = user s ∷ bytes_from user (s + 1) n

unfoldable pub print_check : ℕ → ℕ → Bool
print_check s num =
    not (ltb utop ((s + num) % word_mod) || leb utop s || ltb ((s + num) % word_mod) s)

-- What goes to the console.
unfoldable pub sys_print_cons : (ℕ → ℕ) → ℕ → ℕ → Result (List ℕ)
sys_print_cons user s num =
    if print_check s num then success (bytes_from user s num) else failure e_inval

-- `scancharc` is polled until it gives a character; `input` is what it gives. `none`: still waiting.
unfoldable pub sys_cgetc : List ℕ → Option ℕ
sys_cgetc [] = none
sys_cgetc (c ∷ input) = if c == 0 then sys_cgetc input else some c

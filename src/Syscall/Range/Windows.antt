-- ===== src/Syscall/Range/Windows.antt =====
-- What the address checks of kern/syscall_all.c let through.
use buaa_mos_with_swap.Prelude.{
  ℕ, zero, suc, ◌+◌, ◌%◌, ◌<◌, ◌≤◌, ◌≡◌, refl, ◌⊎◌, false, List, arith, length, get_elem?, some,
  ◌∙◌, sym,
}
use buaa_mos_with_swap.Mmu.{word_mod, utemp, utop}
use buaa_mos_with_swap.Kernel.{success}
use buaa_mos_with_swap.Syscall.Range.{
  is_illegal_va_range, in_window, bad_length, dev_check, Transfer, sys_write_dev, sys_read_dev,
  kseg1, print_check, sys_print_cons, bytes_from,
}

-- An accepted range of user addresses lies between `UTEMP` and `UTOP`, whatever the sum of its
-- ends does in 32 bits.
pub legal_range-bounds :
    (va len : ℕ)
    → va < word_mod
    → len < word_mod
    → 0 < len
    → is_illegal_va_range va len ≡ false
    → (utemp ≤ va) × (va + len ≤ utop)
unfolding is_illegal_va_range
legal_range-bounds va len v l p e = ground arith

-- The `len` bytes from the kernel address `target` on are registers of one of the two devices, seen
-- uncached from `KSEG1` on.
abbrev pub OnDevice : ℕ → ℕ → Type 0
OnDevice target len =
    ((0xb80003f8 ≤ target) × (target + len ≤ 0xb8000418))
    ⊎ ((0xb80001f0 ≤ target) × (target + len ≤ 0xb80001f8))

-- Where the sum of the device address and the length does not wrap, every write that the kernel
-- makes is one of `len` bytes, one, two or four, from the user memory at `va`, all of it between
-- `UTEMP` and `UTOP`, to the address `0xa0000000 + pa`, where the bytes written are all registers
-- of the console or all of the IDE disk, uncached; the read call accepts the same arguments and
-- copies the same bytes the other way.
pub sys_write_dev-OnDevice :
    (va pa len : ℕ) (t : Transfer)
    → va < word_mod
    → pa + len < word_mod
    → sys_write_dev va pa len ≡ success t
    → OnDevice t.target t.bytes
      × (t.target ≡ 0xa0000000 + pa)
      × (t.bytes ≡ len)
      × ((t.bytes ≡ 1) ⊎ ((t.bytes ≡ 2) ⊎ (t.bytes ≡ 4)))
      × (t.origin ≡ va)
      × (utemp ≤ t.origin)
      × (t.origin + t.bytes ≤ utop)
      × (sys_read_dev va pa len
          ≡ success (record { target = t.origin; origin = t.target; bytes = t.bytes }))
unfolding sys_write_dev sys_read_dev dev_check bad_length in_window is_illegal_va_range
sys_write_dev-OnDevice va pa len t v p e = ground arith

-- Where that sum wraps, both device windows let every address through: any legal user range of one,
-- two or four bytes is then copied to the address `KSEG1 + pa`, outside every device.
pub sys_write_dev_wraps :
    (va pa len : ℕ)
    → pa < word_mod
    → word_mod ≤ pa + len
    → bad_length len ≡ false
    → is_illegal_va_range va len ≡ false
    → sys_write_dev va pa len
      ≡ success (record { target = (kseg1 + pa) % word_mod; origin = va; bytes = len })
unfolding sys_write_dev dev_check bad_length in_window
sys_write_dev_wraps va pa len p w b l = ground arith

length-bytes_from : (user : ℕ → ℕ) (n s : ℕ) → length (bytes_from user s n) ≡ n
unfolding bytes_from
length-bytes_from user zero s = refl
length-bytes_from user (suc n) s = omega (arith, length-bytes_from user n (s + 1))

get_elem?-bytes_from :
    (user : ℕ → ℕ) (n s i : ℕ) → i < n → get_elem? (bytes_from user s n) i ≡ some (user (s + i))
unfolding bytes_from
get_elem?-bytes_from user zero s i h = ground arith
get_elem?-bytes_from user (suc n) s zero h = ground arith
get_elem?-bytes_from user (suc n) s (suc i) h =
    get_elem?-bytes_from user n (s + 1) i (omega arith) ∙ ground arith

-- A string that `sys_print_cons` accepts ends at or below `UTOP`, and what it prints are the `num`
-- bytes from `s` on.
pub sys_print_cons_below :
    (user : ℕ → ℕ) (s num : ℕ) (out : List ℕ)
    → s < word_mod
    → num < word_mod
    → sys_print_cons user s num ≡ success out
    → (s + num ≤ utop)
      × (length out ≡ num)
      × ((i : ℕ) → i < num → get_elem? out i ≡ some (user (s + i)))
unfolding sys_print_cons print_check
sys_print_cons_below user s num out a b e =
    let same : bytes_from user s num ≡ out = ground arith in
    (
      ground arith,
      rw (sym same) (length-bytes_from user num s),
      λ i h. rw (sym same) (get_elem?-bytes_from user num s i h),
    )

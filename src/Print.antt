-- ===== src/Print.antt =====
-- lib/print.c: `print_char`, `print_str`, `print_num` and `vprintfmt`. What goes to the `out` callback
-- is the list of the characters, in order; a character is its code.
pub mod Slices
pub mod Numbers
pub mod Layout
pub mod Format
use buaa_mos_with_swap.Prelude.{
  ℕ, zero, suc, ◌+◌, ◌-◌, ◌*◌, ◌/◌, ◌%◌, Bool, true, false, ◌&&◌, ◌||◌, not, List, [], ◌∷◌, ◌++◌,
  Option, none, some, leb, ltb, ◌==◌, if◌then◌else◌, update, length, replicate,
}
use buaa_mos_with_swap.Mmu.{word_mod}

unfoldable pub at_least : ℕ → ℕ → ℕ
at_least low n = if ltb n low then low else n

unfoldable pub print_char : ℕ → ℕ → Bool → List ℕ
print_char c width ladjust =
    let len = at_least 1 width in
    if ladjust then c ∷ replicate (len - 1) b' ' else replicate (len - 1) b' ' ++ c ∷ []

-- `s` is the text before its zero byte.
unfoldable pub print_str : List ℕ → ℕ → Bool → List ℕ
print_str s width ladjust =
    let len = at_least (length s) width in
    if ladjust then s ++ replicate (len - length s) b' ' else replicate (len - length s) b' ' ++ s

unfoldable pub digit_char : Bool → ℕ → ℕ
digit_char upcase d = if leb d 9 then b'0' + d else if upcase then b'A' + d - 10 else b'a' + d - 10

-- The `do` loop: the next free index of `buf`, and `buf`.
unfoldable pub write_digits : ℕ → ℕ → Bool → ℕ → ℕ → (ℕ → ℕ) → ℕ × (ℕ → ℕ)
write_digits zero base upcase u p buf = (p, buf)
write_digits (suc fuel) base upcase u p buf =
    let next = update buf p (digit_char upcase (u % base)) in
    let rest = write_digits fuel base upcase (u / base) (p + 1) next in
    if u / base == 0 then (p + 1, next) else rest

-- `for (i = from; i < from + n; i++) buf[i] = padc;`
unfoldable pub pad : ℕ → ℕ → ℕ → (ℕ → ℕ) → ℕ → ℕ
pad zero from padc buf = buf
pad (suc n) from padc buf = pad n (from + 1) padc (update buf from padc)

-- `while (end > begin)`, on fuel.
unfoldable pub swap_ends : ℕ → ℕ → ℕ → (ℕ → ℕ) → ℕ → ℕ
swap_ends zero begin end buf = buf
swap_ends (suc fuel) begin end buf =
    let rest =
      swap_ends fuel (begin + 1) (end - 1) (update (update buf begin (buf end)) end (buf begin)) in
    if ltb begin end then rest else buf

unfoldable pub padded : ℕ → ℕ → Bool → Bool → ℕ → (ℕ → ℕ) → ℕ → ℕ
padded actual len neg ladjust padc buf =
    if neg && not ladjust && padc == b'0'
    then update (pad (len - actual) (actual - 1) padc buf) (len - 1) b'-'
    else pad (len - actual) actual padc buf

-- `buf[0]` to `buf[n - 1]`.
unfoldable pub slice : ℕ → ℕ → (ℕ → ℕ) → List ℕ
slice zero from buf = []
slice (suc n) from buf = buf from ∷ slice n (from + 1) buf

-- From the sign on: `p` digits are in `digits`, lowest first.
unfoldable pub print_digits : ℕ → (ℕ → ℕ) → Bool → ℕ → Bool → ℕ → List ℕ
print_digits p digits neg width ladjust pad_with =
    let signed = if neg then update digits p b'-' else digits in
    let actual = if neg then p + 1 else p in
    let len = at_least actual width in
    let padc = if ladjust then b' ' else pad_with in
    let filled = padded actual len neg ladjust padc signed in
    let end = if ladjust then actual - 1 else len - 1 in slice len 0 (swap_ends len 0 end filled)

-- An `unsigned long` has 32 bits, so 32 digits are enough in every base.
unfoldable pub print_num : ℕ → ℕ → Bool → ℕ → Bool → ℕ → Bool → List ℕ
print_num u base neg width ladjust pad_with upcase =
    let (p, digits) = write_digits 32 base upcase u 0 (λ i. 0) in
    print_digits p digits neg width ladjust pad_with

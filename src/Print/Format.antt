-- ===== src/Print/Format.antt =====
-- `vprintfmt` of lib/print.c. A format or a string is the list of its characters before the zero.
pub mod Plain
use buaa_mos_with_swap.Prelude.{
  ℕ, zero, suc, ◌+◌, ◌-◌, ◌*◌, ◌%◌, ◌^◌, Bool, true, false, ◌&&◌, ◌||◌, List, [], ◌∷◌, ◌++◌, Option,
  none, some, leb, ltb, ◌==◌, if◌then◌else◌, length,
}
use buaa_mos_with_swap.Mmu.{word_mod}
use buaa_mos_with_swap.Print.{print_char, print_str, print_num}

-- What the caller passed for `...`: a word, or a pointer to a string.
pub data Arg : Type 0 where
  word : ℕ → Arg
  text : List ℕ → Arg

-- The output and the arguments that are left; `none` where `va_arg` finds no argument or one of
-- another type, which C leaves undefined.
abbrev pub Printed : Type 0
Printed = Option (List ℕ × List Arg)

-- How the call ends: with its output, undefined, or out of fuel.
pub data Ending : Type 0 where
  done : List ℕ → Ending
  undefined_arg : Ending
  hang : Ending

unfoldable pub prepend : List ℕ → Ending → Ending
prepend out (done more) = done (out ++ more)
prepend out undefined_arg = undefined_arg
prepend out hang = hang

-- The characters before the next '%', and the rest.
unfoldable pub split_text : List ℕ → List ℕ × List ℕ
split_text [] = ([], [])
split_text (c ∷ cs) =
    let (plain, rest) = split_text cs in if c == b'%' then ([], c ∷ cs) else (c ∷ plain, rest)

-- `(*fmt == c ? 1 : 0)`, and `fmt++` where it is.
unfoldable pub take_flag : ℕ → List ℕ → Bool × List ℕ
take_flag c [] = (false, [])
take_flag c (x ∷ xs) = if x == c then (true, xs) else (false, x ∷ xs)

unfoldable pub read_width : ℕ → List ℕ → ℕ × List ℕ
read_width width [] = (width, [])
read_width width (c ∷ cs) =
    let more = read_width (width * 10 + (c - b'0')) cs in
    if leb b'0' c && leb c b'9' then more else (width, c ∷ cs)

unfoldable pub word_arg : (ℕ → List ℕ) → List Arg → Printed
word_arg print (word w ∷ args) = some (print w, args)
word_arg print _ = none

unfoldable pub text_arg : (List ℕ → List ℕ) → List Arg → Printed
text_arg print (text t ∷ args) = some (print t, args)
text_arg print _ = none

-- Cases 'd' and 'D': a word from 2^31 on is negative, and `0 - num` wraps.
unfoldable pub print_signed : ℕ → Bool → ℕ → ℕ → List ℕ
print_signed width ladjust padc num =
    if leb (2 ^ 31) num
    then print_num ((word_mod - num) % word_mod) 10 true width ladjust padc false
    else print_num num 10 false width ladjust padc false

-- The `switch`. `long` and `int` have 32 bits both.
unfoldable pub convert : ℕ → ℕ → Bool → ℕ → List Arg → Printed
convert k width ladjust padc args =
    if k == b'b'
    then word_arg (λ u. print_num u 2 false width ladjust padc false) args
    else if k == b'd' || k == b'D'
    then word_arg (print_signed width ladjust padc) args
    else if k == b'o' || k == b'O'
    then word_arg (λ u. print_num u 8 false width ladjust padc false) args
    else if k == b'u' || k == b'U'
    then word_arg (λ u. print_num u 10 false width ladjust padc false) args
    else if k == b'x'
    then word_arg (λ u. print_num u 16 false width ladjust padc false) args
    else if k == b'X'
    then word_arg (λ u. print_num u 16 false width ladjust padc true) args
    else if k == b'c'
    then word_arg (λ c. print_char (c % 256) width ladjust) args
    else if k == b's'
    then text_arg (λ s. print_str s width ladjust) args
    else some (k ∷ [], args)

unfoldable pub after : (List Arg → Ending) → Printed → Ending
after next none = undefined_arg
after next (some (out, args)) = prepend out (next args)

-- The `switch` on `*fmt`; at the zero `fmt--` and `fmt++` stay at it, and `next` are the rounds after.
unfoldable pub at_conversion :
    ℕ → Bool → ℕ → List ℕ → (List ℕ → List Arg → Ending) → List Arg → Ending
at_conversion width ladjust padc [] next args = next [] args
at_conversion width ladjust padc (k ∷ ks) next args =
    after (next ks) (convert k width ladjust padc args)

-- From behind the '%' on.
unfoldable pub directive : List ℕ → (List ℕ → List Arg → Ending) → List Arg → Ending
directive [] next args = done []
directive (c ∷ cs) next args =
    let (ladjust, at_pad) = take_flag b'-' (c ∷ cs) in
    let (zero_pad, at_width) = take_flag b'0' at_pad in
    let (width, at_long) = read_width 0 at_width in
    let (long, at_kind) = take_flag b'l' at_long in
    at_conversion width ladjust (if zero_pad then b'0' else b' ') at_kind next args

unfoldable pub at_percent : List ℕ → (List ℕ → List Arg → Ending) → List Arg → Ending
at_percent [] next args = done []
at_percent (percent ∷ fmt) next args = directive fmt next args

-- The `for (;;)`, on fuel.
unfoldable pub format : ℕ → List ℕ → List Arg → Ending
format zero fmt args = hang
format (suc fuel) fmt args =
    let (plain, rest) = split_text fmt in prepend plain (at_percent rest (format fuel) args)

-- A round but the last takes at least a '%'.
unfoldable pub vprintfmt : List ℕ → List Arg → Ending
vprintfmt fmt args = format (suc (length fmt)) fmt args

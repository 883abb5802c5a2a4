-- ===== src/Print/Format/Plain.antt =====
-- `vprintfmt` of lib/print.c: that it ends, and what it prints of plain text and of decimals.
use mathlib.Core.List.{append_assoc}
use buaa_mos_with_swap.Prelude.{
  ℕ, zero, suc, ◌+◌, ◌-◌, ◌*◌, ◌%◌, ◌^◌, ◌<◌, ◌≤◌, ◌≡◌, ◌≢◌, refl, ap, sym, ◌∙◌, Bool, true, false,
  List, [], ◌∷◌, ◌++◌, none, some, leb, ◌==◌, if◌then◌else◌, length, length-append, replicate,
  arith, mem, Bool-cases, inl, inr,
}
use buaa_mos_with_swap.Mmu.{word_mod}
use buaa_mos_with_swap.Print.Layout.{numeral, layout, signed, print_num_lem}
use buaa_mos_with_swap.Print.Format.{
  Arg, word, Printed, Ending, done, undefined_arg, hang, prepend, split_text, take_flag, read_width,
  print_signed, convert, after, at_conversion, directive, at_percent, format, vprintfmt, word_arg,
}

length-split_text : (fmt : List ℕ) → length (split_text fmt).1 ≤ length fmt
unfolding split_text
length-split_text [] = omega arith
length-split_text (c ∷ cs) = ground (arith, length-split_text cs)

length-take_flag : (c : ℕ) (fmt : List ℕ) → length (take_flag c fmt).1 ≤ length fmt
unfolding take_flag
length-take_flag c [] = omega arith
length-take_flag c (x ∷ xs) = ground arith

length-read_width : (width : ℕ) (fmt : List ℕ) → length (read_width width fmt).1 ≤ length fmt
unfolding read_width
length-read_width width [] = omega arith
length-read_width width (c ∷ cs) = ground (arith, length-read_width (width * 10 + (c - b'0')) cs)

-- The rounds after a directive only matter on texts that are shorter than it, or both empty.
at_conversion-ext :
    (width : ℕ) (ladjust : Bool) (padc : ℕ) (fmt : List ℕ) (f g : List ℕ → List Arg → Ending)
    (args : List Arg)
    → ((rest : List ℕ) (left : List Arg) → length rest ≤ length fmt → f rest left ≡ g rest left)
    → at_conversion width ladjust padc fmt f args ≡ at_conversion width ladjust padc fmt g args
unfolding at_conversion
at_conversion-ext width ladjust padc [] f g args h = h [] args (omega arith)
at_conversion-ext width ladjust padc (k ∷ ks) f g args h =
    ap (λ (next : List Arg → Ending). after next (convert k width ladjust padc args))
      (λ i left. h ks left (omega arith) i)

directive-ext :
    (fmt : List ℕ) (f g : List ℕ → List Arg → Ending) (args : List Arg)
    → ((rest : List ℕ) (left : List Arg) → length rest ≤ length fmt → f rest left ≡ g rest left)
    → directive fmt f args ≡ directive fmt g args
unfolding directive
directive-ext [] f g args h = refl
directive-ext (c ∷ cs) f g args h =
    let at_pad = (take_flag b'-' (c ∷ cs)).1 in
    let at_width = (take_flag b'0' at_pad).1 in
    let at_long = (read_width 0 at_width).1 in
    at_conversion-ext (read_width 0 at_width).0 (take_flag b'-' (c ∷ cs)).0
      (if (take_flag b'0' at_pad).0 then b'0' else b' ') (take_flag b'l' at_long).1 f g args
      (λ rest left l. h rest left (
        omega (
          arith,
          l,
          length-take_flag b'-' (c ∷ cs),
          length-take_flag b'0' at_pad,
          length-read_width 0 at_width,
          length-take_flag b'l' at_long,
        )))

at_percent-ext :
    (fmt : List ℕ) (f g : List ℕ → List Arg → Ending) (args : List Arg)
    → ((rest : List ℕ) (left : List Arg) → length rest < length fmt → f rest left ≡ g rest left)
    → at_percent fmt f args ≡ at_percent fmt g args
unfolding at_percent
at_percent-ext [] f g args h = refl
at_percent-ext (c ∷ cs) f g args h =
    directive-ext cs f g args (λ rest left l. h rest left (omega (arith, l)))

-- More fuel than the format is long changes nothing.
format_fuel :
    (f g : ℕ) (fmt : List ℕ) (args : List Arg)
    → length fmt < f
    → length fmt < g
    → format f fmt args ≡ format g fmt args
unfolding format
format_fuel zero g fmt args l h = absurd (omega (arith, l))
format_fuel (suc f) zero fmt args l h = absurd (omega (arith, h))
format_fuel (suc f) (suc g) fmt args l h = ap (prepend (split_text fmt).0) (
    at_percent-ext (split_text fmt).1 (format f) (format g) args (λ rest left b.
      format_fuel f g rest left (omega (arith, b, l, length-split_text fmt))
        (omega (arith, b, h, length-split_text fmt))))

prepend-append : (xs ys : List ℕ) (e : Ending) → prepend (xs ++ ys) e ≡ prepend xs (prepend ys e)
unfolding prepend
prepend-append xs ys (done zs) = ap done (append_assoc xs ys zs)
prepend-append xs ys undefined_arg = refl
prepend-append xs ys hang = refl

-- Text without a '%' in front.
split_text-plain :
    (plain fmt : List ℕ)
    → mem b'%' plain ≡ false
    → (split_text (plain ++ fmt)) ≡ (plain ++ (split_text fmt).0, (split_text fmt).1)
unfolding split_text
split_text-plain [] fmt h = refl
split_text-plain (c ∷ cs) fmt h =
    let other : (c == b'%') ≡ false = ground (arith, h) in
    rw (other, split_text-plain cs fmt (ground (arith, h))) refl

vprintfmt-plain :
    (plain fmt : List ℕ) (args : List Arg)
    → mem b'%' plain ≡ false
    → vprintfmt (plain ++ fmt) args ≡ prepend plain (vprintfmt fmt args)
unfolding vprintfmt format
vprintfmt-plain plain fmt args h =
    let whole = length (plain ++ fmt) in
    let (before, rest) = split_text fmt in
    ap (λ (s : List ℕ × List ℕ). prepend s.0 (at_percent s.1 (format whole) args))
      (split_text-plain plain fmt h)
    ∙ ap (prepend (plain ++ before)) (
        at_percent-ext rest (format whole) (format (length fmt)) args (λ more left b.
          format_fuel whole (length fmt) more left
            (omega (arith, b, length-split_text fmt, length-append plain fmt))
            (omega (arith, b, length-split_text fmt))))
    ∙ prepend-append plain before (at_percent rest (format (length fmt)) args)

-- The characters of a word that is read as a signed number: a minus before the magnitude.
unfoldable pub decimal : ℕ → List ℕ
decimal w = if leb (2 ^ 31) w then b'-' ∷ numeral (word_mod - w) 10 false else numeral w 10 false

prepend-nil : (e : Ending) → prepend [] e ≡ e
unfolding prepend
prepend-nil (done out) = refl
prepend-nil undefined_arg = refl
prepend-nil hang = refl

no_gap : (n c : ℕ) (xs : List ℕ) → replicate (0 - n) c ++ xs ≡ xs
no_gap n c xs = let none_left : 0 - n ≡ 0 = omega arith in rw none_left refl

print_signed-decimal : (w : ℕ) → w < word_mod → print_signed 0 false b' ' w ≡ decimal w
unfolding print_signed decimal layout signed
print_signed-decimal w l = elim (Bool-cases (leb (2 ^ 31) w)) [
  | inl minus ↦
      let magnitude : (word_mod - w) % word_mod ≡ word_mod - w = ground (arith, minus) in
      rw (minus, magnitude)
        ((print_num_lem (word_mod - w) 10 true 0 false b' ' false (omega arith)
            (ground (arith, minus))).0
          ∙ no_gap (suc (length (numeral (word_mod - w) 10 false))) b' '
              (b'-' ∷ numeral (word_mod - w) 10 false))
  | inr plus ↦ rw plus (
      (print_num_lem w 10 false 0 false b' ' false (omega arith) l).0
      ∙ no_gap (length (numeral w 10 false)) b' ' (numeral w 10 false))
]

one_decimal :
    (fmt : List ℕ) (w : ℕ) (args : List Arg)
    → vprintfmt (b'%' ∷ b'd' ∷ fmt) (word w ∷ args)
      ≡ prepend [] (prepend (print_signed 0 false b' ' w) (vprintfmt fmt args))
unfolding vprintfmt format split_text at_percent directive take_flag read_width at_conversion
    convert word_arg after
one_decimal fmt w args =
    ap (λ (e : Ending). prepend [] (prepend (print_signed 0 false b' ' w) e))
      (format_fuel (suc (suc (length fmt))) (suc (length fmt)) fmt args (omega arith) (omega arith))

-- A format that starts with text without a '%' and then `%d`, on a 32-bit word, prints that text
-- and the word read as a signed number (a minus where it is 2^31 or more, and the decimal digits of
-- the magnitude), and then what the rest of the format prints of the rest of the arguments.
pub vprintfmt-decimal :
    (plain fmt : List ℕ) (w : ℕ) (args : List Arg)
    → mem b'%' plain ≡ false
    → w < word_mod
    → vprintfmt (plain ++ b'%' ∷ b'd' ∷ fmt) (word w ∷ args)
      ≡ prepend (plain ++ decimal w) (vprintfmt fmt args)
vprintfmt-decimal plain fmt w args h l =
    vprintfmt-plain plain (b'%' ∷ b'd' ∷ fmt) (word w ∷ args) h
    ∙ ap (prepend plain) (
        one_decimal fmt w args
        ∙ prepend-nil (prepend (print_signed 0 false b' ' w) (vprintfmt fmt args))
        ∙ ap (λ (out : List ℕ). prepend out (vprintfmt fmt args)) (print_signed-decimal w l))
    ∙ sym (prepend-append plain (decimal w) (vprintfmt fmt args))

prepend-ne_hang : (out : List ℕ) (e : Ending) → e ≢ hang → prepend out e ≢ hang
unfolding prepend
prepend-ne_hang out (done more) h eq = cc
prepend-ne_hang out undefined_arg h eq = cc
prepend-ne_hang out hang h eq = h refl

after-ne_hang :
    (next : List Arg → Ending) (p : Printed)
    → ((left : List Arg) → next left ≢ hang)
    → after next p ≢ hang
unfolding after
after-ne_hang next none h eq = cc
after-ne_hang next (some (out, left)) h eq = prepend-ne_hang out (next left) (h left) eq

at_conversion-ne_hang :
    (width : ℕ) (ladjust : Bool) (padc : ℕ) (fmt : List ℕ) (f : List ℕ → List Arg → Ending)
    (args : List Arg)
    → ((rest : List ℕ) (left : List Arg) → length rest ≤ length fmt → f rest left ≢ hang)
    → at_conversion width ladjust padc fmt f args ≢ hang
unfolding at_conversion
at_conversion-ne_hang width ladjust padc [] f args h = h [] args (omega arith)
at_conversion-ne_hang width ladjust padc (k ∷ ks) f args h =
    after-ne_hang (f ks) (convert k width ladjust padc args) (λ left. h ks left (omega arith))

at_percent-ne_hang :
    (fmt : List ℕ) (f : List ℕ → List Arg → Ending) (args : List Arg)
    → ((rest : List ℕ) (left : List Arg) → length rest < length fmt → f rest left ≢ hang)
    → at_percent fmt f args ≢ hang
unfolding at_percent directive
at_percent-ne_hang [] f args h eq = cc
at_percent-ne_hang (p ∷ []) f args h eq = cc
at_percent-ne_hang (p ∷ c ∷ cs) f args h eq =
    let at_pad = (take_flag b'-' (c ∷ cs)).1 in
    let at_width = (take_flag b'0' at_pad).1 in
    let at_long = (read_width 0 at_width).1 in
    at_conversion-ne_hang (read_width 0 at_width).0 (take_flag b'-' (c ∷ cs)).0
      (if (take_flag b'0' at_pad).0 then b'0' else b' ') (take_flag b'l' at_long).1 f args
      (λ rest left l. h rest left (
        omega (
          arith,
          l,
          length-take_flag b'-' (c ∷ cs),
          length-take_flag b'0' at_pad,
          length-read_width 0 at_width,
          length-take_flag b'l' at_long,
        )))
      eq

format-ne_hang :
    (f : ℕ) (fmt : List ℕ) (args : List Arg) → length fmt < f → format f fmt args ≢ hang
unfolding format
format-ne_hang zero fmt args l = absurd (omega (arith, l))
format-ne_hang (suc f) fmt args l =
    prepend-ne_hang (split_text fmt).0 (at_percent (split_text fmt).1 (format f) args) (
      at_percent-ne_hang (split_text fmt).1 (format f) args
        (λ rest left b. format-ne_hang f rest left (omega (arith, b, l, length-split_text fmt))))

-- `vprintfmt` ends on every format and all arguments: its fuel does not run out.
pub vprintfmt-ne_hang : (fmt : List ℕ) (args : List Arg) → vprintfmt fmt args ≢ hang
unfolding vprintfmt
vprintfmt-ne_hang fmt args = format-ne_hang (suc (length fmt)) fmt args (omega arith)

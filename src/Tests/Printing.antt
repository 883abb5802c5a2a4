-- ===== src/Tests/Printing.antt =====
-- Numbers and formats that are printed.
use buaa_mos_with_swap.Prelude.{◌≡◌, refl, ◌-◌, true, false, [], ◌∷◌, arith}
use buaa_mos_with_swap.Mmu.{word_mod}
use buaa_mos_with_swap.Print.{print_num}
use buaa_mos_with_swap.Print.Numbers.{digits, value}
use buaa_mos_with_swap.Print.Layout.{numeral, layout, print_num_lem}
use buaa_mos_with_swap.Print.Format.{word, text, prepend, vprintfmt}
use buaa_mos_with_swap.Print.Format.Plain.{decimal, vprintfmt-decimal}

-- `-0xff` in eight places, padded with zeros.
print_num_lem_example :
    (print_num 255 16 true 8 false b'0' false ≡ layout true (numeral 255 16 false) 8 false b'0')
    × (value 16 (digits 32 16 255) ≡ 255)
print_num_lem_example = print_num_lem 255 16 true 8 false b'0' false (omega arith) (omega arith)

-- `r=%d%s` on -1 and a string.
vprintfmt-decimal_example :
    vprintfmt
      (b'r' ∷ b'=' ∷ b'%' ∷ b'd' ∷ b'%' ∷ b's' ∷ [])
      (word (word_mod - 1) ∷ text (b'!' ∷ []) ∷ [])
    ≡ prepend
        (b'r' ∷ b'=' ∷ decimal (word_mod - 1))
        (vprintfmt (b'%' ∷ b's' ∷ []) (text (b'!' ∷ []) ∷ []))
vprintfmt-decimal_example =
    vprintfmt-decimal (b'r' ∷ b'=' ∷ []) (b'%' ∷ b's' ∷ []) (word_mod - 1) (text (b'!' ∷ []) ∷ [])
      refl (omega arith)

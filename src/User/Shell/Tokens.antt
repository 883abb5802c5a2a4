-- ===== src/User/Shell/Tokens.antt =====
-- The tokens of a command line, over the list of its characters.
use buaa_mos_with_swap.Prelude.{
  ℕ, ◌+◌, ◌≡◌, refl, ap, sym, ◌∙◌, arith, Bool, true, false, ◌||◌, List, [], ◌∷◌, ◌++◌, ◌==◌,
  if◌then◌else◌, length, Bool-cases, inl, inr,
}
use buaa_mos_with_swap.User.Shell.{strchr, not_null, one_of, whitespace, symbols}

pub data Token : Type 0 where
  symbol : ℕ → Token
  word : List ℕ → Token

unfoldable pub is_space : ℕ → Bool
is_space c = one_of whitespace c

unfoldable pub is_symbol : ℕ → Bool
is_symbol c = one_of symbols c

unfoldable pub is_delimiter : ℕ → Bool
is_delimiter c = is_space c || is_symbol c

unfoldable pub grow_word : ℕ → List Token → List Token
grow_word c (word w ∷ ts) = word (c ∷ w) ∷ ts
grow_word c (symbol x ∷ ts) = word (c ∷ []) ∷ symbol x ∷ ts
grow_word c [] = word (c ∷ []) ∷ []

-- A character of a word before the text `cs`, whose tokens are `ts`: it is a word or grows one.
unfoldable pub cons_word : ℕ → List ℕ → List Token → List Token
cons_word c [] ts = word (c ∷ []) ∷ ts
cons_word c (x ∷ xs) ts = if is_delimiter x then word (c ∷ []) ∷ ts else grow_word c ts

-- The symbols and the longest stretches without symbols and white space, in their order.
unfoldable pub tokens : List ℕ → List Token
tokens [] = []
tokens (c ∷ cs) =
    let rest = tokens cs in
    if is_delimiter c then (if is_space c then rest else symbol c ∷ rest) else cons_word c cs rest

unfoldable pub drop_space : List ℕ → List ℕ
drop_space [] = []
drop_space (c ∷ cs) = let rest = drop_space cs in if is_space c then rest else c ∷ cs

unfoldable pub word_of : List ℕ → List ℕ
word_of [] = []
word_of (c ∷ cs) = let rest = word_of cs in if is_delimiter c then [] else c ∷ rest

unfoldable pub after_word : List ℕ → List ℕ
after_word [] = []
after_word (c ∷ cs) = let rest = after_word cs in if is_delimiter c then c ∷ cs else rest

space-is_delimiter : (c : ℕ) → is_space c ≡ true → is_delimiter c ≡ true
unfolding is_delimiter
space-is_delimiter c h = rw h refl

pub tokens-space : (c : ℕ) (cs : List ℕ) → is_space c ≡ true → tokens (c ∷ cs) ≡ tokens cs
unfolding tokens
tokens-space c cs h = rw (space-is_delimiter c h) (rw h refl)

delimiter-symbol : (c : ℕ) → is_space c ≡ false → is_symbol c ≡ true → is_delimiter c ≡ true
unfolding is_delimiter
delimiter-symbol c h k = rw h k

pub tokens-symbol :
    (c : ℕ) (cs : List ℕ)
    → is_space c ≡ false
    → is_symbol c ≡ true
    → tokens (c ∷ cs) ≡ symbol c ∷ tokens cs
unfolding tokens
tokens-symbol c cs h k =
    let end : is_delimiter c ≡ true = delimiter-symbol c h k in rw end (rw h refl)

pub tokens-word :
    (c : ℕ) (cs : List ℕ)
    → is_delimiter c ≡ false
    → tokens (c ∷ cs) ≡ word (word_of (c ∷ cs)) ∷ tokens (after_word (c ∷ cs))
unfolding tokens word_of after_word cons_word grow_word
tokens-word c [] h = rw h refl
tokens-word c (d ∷ ds) h = elim (Bool-cases (is_delimiter d)) [
  | inl end ↦ rw (h, end) (rw end refl)
  | inr more ↦ let rest = tokens-word d ds more in rw (h, more) (ap (grow_word c) (rw more at rest))
]

one_of-++ : (xs ys : List ℕ) (c : ℕ) → one_of (xs ++ ys) c ≡ (one_of xs c || one_of ys c)
unfolding one_of strchr not_null
one_of-++ [] ys c = refl
one_of-++ (x ∷ xs) ys c = elim (Bool-cases (x == c)) [
  | inl same ↦ rw same refl
  | inr other ↦ rw other (one_of-++ xs ys c)
]

pub is_delimiter_lem : (c : ℕ) → one_of (whitespace ++ symbols) c ≡ is_delimiter c
unfolding is_delimiter is_space is_symbol
is_delimiter_lem c = one_of-++ whitespace symbols c

-- The codes of the end of the text and of a word are not those of symbols.
pub is_symbol-codes : (c : ℕ) → is_symbol c ≡ true → ((c == 0) ≡ false) × ((c == b'w') ≡ false)
unfolding is_symbol one_of strchr not_null
is_symbol-codes c h = (ground (arith, h), ground (arith, h))

pub word-is_delimiter : (c : ℕ) → is_space c ≡ false → is_symbol c ≡ false → is_delimiter c ≡ false
unfolding is_delimiter
word-is_delimiter c h k = rw h k

-- The end of a text is no white space.
pub is_space-zero : is_space 0 ≡ false
unfolding is_space one_of strchr not_null
is_space-zero = refl

pub tokens-drop_space : (cs : List ℕ) → tokens (drop_space cs) ≡ tokens cs
unfolding drop_space
tokens-drop_space [] = refl
tokens-drop_space (c ∷ cs) = elim (Bool-cases (is_space c)) [
  | inl space ↦ rw space (tokens-drop_space cs ∙ sym (tokens-space c cs space))
  | inr other ↦ rw other refl
]

pub length-word_of-suc :
    (c : ℕ) (cs : List ℕ)
    → is_delimiter c ≡ false
    → length (word_of (c ∷ cs)) ≡ length (word_of cs) + 1
unfolding word_of
length-word_of-suc c cs h = rw h (omega arith)

-- ===== src/User/Shell/Scanning.antt =====
-- `_gettoken` of user/sh.c on a text in memory.
use buaa_mos_with_swap.Prelude.{
  ℕ, zero, suc, ◌+◌, ◌≤◌, ◌<◌, ◌≡◌, ◌⊎◌, inl, inr, refl, ap, ◌∙◌, arith, Bool, true, false, List,
  [], ◌∷◌, ◌++◌, ◌==◌, update, length, Bool-cases,
}
use buaa_mos_with_swap.User.Shell.{one_of, whitespace, symbols, skip_space, scan_word}
use buaa_mos_with_swap.User.Shell.Tokens.{
  is_space, is_delimiter, drop_space, word_of, after_word, is_delimiter_lem, is_space-zero,
}

-- The text `cs`, without zeros, is at the address `s`, and a zero after it.
unfoldable pub Holds : (ℕ → ℕ) → ℕ → List ℕ → Type 0
Holds m s [] = m s ≡ 0
Holds m s (c ∷ cs) = (m s ≡ c) × ((c == 0) ≡ false) × Holds m (s + 1) cs

-- The same, with anything after it.
unfoldable pub Spells : (ℕ → ℕ) → ℕ → List ℕ → Type 0
Spells m s [] = Unit {0}
Spells m s (c ∷ cs) = (m s ≡ c) × ((c == 0) ≡ false) × Spells m (s + 1) cs

-- No byte before `s` differs.
abbrev pub Below : ℕ → (ℕ → ℕ) → (ℕ → ℕ) → Type 0
Below s m t = (b : ℕ) → b < s → t b ≡ m b

pub Holds-update :
    (m : ℕ → ℕ) (a v s : ℕ) (cs : List ℕ) → a < s → Holds m s cs → Holds (update m a v) s cs
unfolding Holds
Holds-update m a v s [] l h = ground (arith, l, h)
Holds-update m a v s (c ∷ cs) l (same, some_char, rest) =
    (ground (arith, l, same), some_char, Holds-update m a v (s + 1) cs (omega (arith, l)) rest)

-- What the skipped white space leaves.
pub record Skipped (m : ℕ → ℕ) (s : ℕ) (cs : List ℕ) (p : ℕ) (t : ℕ → ℕ) : Type 0 where
  pub holds : Holds t p (drop_space cs)
  pub below : Below s m t
  pub from : s ≤ p
  pub cleared : ((p ≡ s) × (drop_space cs ≡ cs)) ⊎ ((s < p) × (t s ≡ 0))

pub skip_space-Skipped :
    (fuel s : ℕ) (m : ℕ → ℕ) (cs : List ℕ)
    → length cs ≤ fuel
    → Holds m s cs
    → Skipped m s cs (skip_space fuel s m).0 (skip_space fuel s m).1
unfolding skip_space drop_space Holds is_space
skip_space-Skipped zero s m [] l h = record {
  holds = h;
  below = λ b k. refl;
  from = omega arith;
  cleared = inl (refl, refl);
}
skip_space-Skipped zero s m (c ∷ cs) l h = absurd (omega (arith, l))
skip_space-Skipped (suc n) s m [] l h =
    let stops : one_of whitespace (m s) ≡ false = ap (one_of whitespace) h ∙ is_space-zero in
    rw stops
      (record { holds = h; below = λ b k. refl; from = omega arith; cleared = inl (refl, refl) })
skip_space-Skipped (suc n) s m (c ∷ cs) l (same, some_char, rest) =
    elim (Bool-cases (one_of whitespace c)) [
      | inl space ↦
          let at : one_of whitespace (m s) ≡ true = ap (one_of whitespace) same ∙ space in
          let r =
            skip_space-Skipped n (s + 1) (update m s 0) cs (omega (arith, l))
              (Holds-update m s 0 (s + 1) cs (omega arith) rest) in
          rw at (record {
            holds = rw space r.holds;
            below = λ b k. r.below b (omega (arith, k)) ∙ ground (arith, k);
            from = omega (arith, r.from);
            cleared = inr (omega (arith, r.from), r.below s (omega arith) ∙ ground arith);
          })
      | inr other ↦
          let at : one_of whitespace (m s) ≡ false = ap (one_of whitespace) same ∙ other in
          rw at (record {
            holds = rw other (same, some_char, rest);
            below = λ b k. refl;
            from = omega arith;
            cleared = inl (refl, rw other refl);
          })
    ]

-- The text is at its end or goes on with a symbol or white space.
unfoldable pub at_end : List ℕ → Bool
at_end [] = true
at_end (c ∷ cs) = is_delimiter c

pub after_word-at_end : (cs : List ℕ) → at_end (after_word cs) ≡ true
unfolding at_end after_word
after_word-at_end [] = refl
after_word-at_end (c ∷ cs) = elim (Bool-cases (is_delimiter c)) [
  | inl end ↦ rw end end
  | inr more ↦ rw more (after_word-at_end cs)
]

pub length-after_word : (cs : List ℕ) → length (after_word cs) ≤ length cs
unfolding after_word
length-after_word [] = omega arith
length-after_word (c ∷ cs) = ground (arith, length-after_word cs)

pub length-word_of : (cs : List ℕ) → length (word_of cs) ≤ length cs
unfolding word_of
length-word_of [] = omega arith
length-word_of (c ∷ cs) = ground (arith, length-word_of cs)

pub length-drop_space : (cs : List ℕ) → length (drop_space cs) ≤ length cs
unfolding drop_space
length-drop_space [] = omega arith
length-drop_space (c ∷ cs) = ground (arith, length-drop_space cs)

-- A word in memory up to `p`, and the text from there on.
pub record WordTo (m : ℕ → ℕ) (s : ℕ) (cs : List ℕ) (p : ℕ) : Type 0 where
  pub stop : p ≡ s + length (word_of cs)
  pub spells : Spells m s (word_of cs)
  pub rest : Holds m p (after_word cs)

pub scan_word-WordTo :
    (fuel s : ℕ) (m : ℕ → ℕ) (cs : List ℕ)
    → length cs ≤ fuel
    → Holds m s cs
    → WordTo m s cs (scan_word fuel s m)
unfolding scan_word word_of after_word Holds Spells
scan_word-WordTo zero s m [] l h = record { stop = omega arith; spells = tt; rest = h }
scan_word-WordTo zero s m (c ∷ cs) l h = absurd (omega (arith, l))
scan_word-WordTo (suc n) s m [] l h =
    let zero_byte : (m s == 0) ≡ true = ap (λ x. x == 0) h in
    rw zero_byte (record { stop = omega arith; spells = tt; rest = h })
scan_word-WordTo (suc n) s m (c ∷ cs) l (same, some_char, rest) =
    let byte : (m s == 0) ≡ false = ap (λ x. x == 0) same ∙ some_char in
    let class : one_of (whitespace ++ symbols) (m s) ≡ is_delimiter c =
      ap (one_of (whitespace ++ symbols)) same ∙ is_delimiter_lem c in
    elim (Bool-cases (is_delimiter c)) [
      | inl end ↦
          let at : one_of (whitespace ++ symbols) (m s) ≡ true = class ∙ end in
          rw (byte, at)
            (record {
              stop = rw end (omega arith);
              spells = rw end tt;
              rest = rw end (same, some_char, rest);
            })
      | inr more ↦
          let at : one_of (whitespace ++ symbols) (m s) ≡ false = class ∙ more in
          let r = scan_word-WordTo n (s + 1) m cs (omega (arith, l)) rest in
          rw (byte, at)
            (record {
              stop = rw more (omega (arith, r.stop));
              spells = rw more (same, some_char, r.spells);
              rest = rw more r.rest;
            })
    ]

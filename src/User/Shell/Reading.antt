-- ===== src/User/Shell/Reading.antt =====
-- `gettoken` of user/sh.c over a whole command line.
use buaa_mos_with_swap.Prelude.{
  ℕ, ◌+◌, ◌≤◌, ◌<◌, ◌≡◌, ◌⊎◌, inl, inr, refl, ap, sym, subst, ◌∙◌, arith, Bool, true, false, not,
  List, [], ◌∷◌, ◌==◌, update, length, Bool-cases,
}
use buaa_mos_with_swap.User.Shell.{
  one_of, symbols, skip_space, scan_word, Scanned, token_at, scan_token,
}
use buaa_mos_with_swap.User.Shell.Tokens.{
  Token, symbol, word, is_space, is_symbol, tokens, drop_space, word_of, after_word,
  tokens-drop_space, tokens-symbol, tokens-word, word-is_delimiter, length-word_of-suc,
}
use buaa_mos_with_swap.User.Shell.Scanning.{
  Holds, Spells, Below, Skipped, skip_space-Skipped, Holds-update, at_end, after_word-at_end,
  length-after_word, length-word_of, length-drop_space, scan_word-WordTo,
}

-- What `_gettoken` has found of a text with these tokens; the rest of the text is at `p2`.
pub data Reads (fuel : ℕ) (r : Scanned) : List Token → Type 0 where
  reads_end : r.token ≡ 0 → r.p2 ≡ 0 → Reads fuel r []
  reads_symbol :
      (c : ℕ) (cs : List ℕ)
      → r.token ≡ c
      → is_symbol c ≡ true
      → 0 < r.p2
      → Holds r.mem r.p2 cs
      → length cs ≤ fuel
      → Reads fuel r (symbol c ∷ tokens cs)
  reads_word :
      (w cs : List ℕ)
      → r.token ≡ b'w'
      → Spells r.mem r.p1 w
      → r.p2 ≡ r.p1 + length w
      → 0 < r.p2
      → at_end cs ≡ true
      → Holds r.mem r.p2 cs
      → length w ≤ fuel
      → length cs ≤ fuel
      → Reads fuel r (word w ∷ tokens cs)

-- The same, from `s` on, where `m` is the memory before.
pub record Found (fuel : ℕ) (m : ℕ → ℕ) (s : ℕ) (cs : List ℕ) (r : Scanned) : Type 0 where
  pub reads : Reads fuel r (tokens cs)
  pub below : Below s m r.mem
  pub cleared : at_end cs ≡ true → r.mem s ≡ 0
  pub past : (r.p2 ≡ 0) ⊎ (s < r.p2)

-- The first character is no white space.
starts : List ℕ → Bool
starts [] = true
starts (c ∷ cs) = not (is_space c)

starts-drop_space : (cs : List ℕ) → starts (drop_space cs) ≡ true
unfolding starts drop_space
starts-drop_space [] = refl
starts-drop_space (c ∷ cs) = elim (Bool-cases (is_space c)) [
  | inl space ↦ rw space (starts-drop_space cs)
  | inr other ↦ rw other (rw other refl)
]

token_at-Found :
    (fuel s : ℕ) (m : ℕ → ℕ) (cs : List ℕ)
    → 0 < s
    → length cs ≤ fuel
    → starts cs ≡ true
    → Holds m s cs
    → Found fuel m s cs (token_at fuel s m)
unfolding token_at starts Holds tokens at_end is_symbol
token_at-Found fuel s m [] pos l start h =
    let zero_byte : (m s == 0) ≡ true = ap (λ x. x == 0) h in
    rw zero_byte (record {
      reads = reads_end refl refl;
      below = λ b k. refl;
      cleared = λ k. h;
      past = inl refl;
    })
token_at-Found fuel s m (c ∷ cs) pos l start (same, some_char, rest) =
    let byte : (m s == 0) ≡ false = ap (λ x. x == 0) same ∙ some_char in
    let other : is_space c ≡ false = ground (arith, start) in
    elim (Bool-cases (is_symbol c)) [
      | inl is_sym ↦
          let at : one_of symbols (m s) ≡ true = ap (one_of symbols) same ∙ is_sym in
          rw (byte, at)
            (record {
              reads =
                  subst
                    (λ ts.
                      Reads fuel record { token = m s; p1 = s; p2 = s + 1; mem = update m s 0 } ts)
                    (sym (tokens-symbol c cs other is_sym))
                    (reads_symbol c cs same is_sym (omega arith)
                      (Holds-update m s 0 (s + 1) cs (omega arith) rest) (omega (arith, l)));
              below = λ b k. ground (arith, k);
              cleared = λ k. ground arith;
              past = inr (omega arith);
            })
      | inr letter ↦
          let at : one_of symbols (m s) ≡ false = ap (one_of symbols) same ∙ letter in
          let inside = word-is_delimiter c other letter in
          let w = scan_word-WordTo fuel s m (c ∷ cs) l (same, some_char, rest) in
          let some_of : length (word_of (c ∷ cs)) ≡ length (word_of cs) + 1 =
            length-word_of-suc c cs inside in
          let end : s < scan_word fuel s m = omega (arith, w.stop, some_of) in
          rw (byte, at)
            (record {
              reads =
                  subst
                    (λ ts.
                      Reads fuel record { token = b'w'; p1 = s; p2 = scan_word fuel s m; mem = m }
                        ts)
                    (sym (tokens-word c cs inside))
                    (reads_word (word_of (c ∷ cs)) (after_word (c ∷ cs)) refl w.spells w.stop
                      (omega (arith, end)) (after_word-at_end (c ∷ cs)) w.rest
                      (omega (arith, l, length-word_of (c ∷ cs)))
                      (omega (arith, l, length-after_word (c ∷ cs))));
              below = λ b k. refl;
              cleared = λ k. ground (arith, k, inside);
              past = inr end;
            })
    ]

cleared_by :
    {fuel s p : ℕ} {m t : ℕ → ℕ} {cs : List ℕ} {r : Scanned}
    → Skipped m s cs p t
    → Found fuel t p (drop_space cs) r
    → at_end cs ≡ true
    → r.mem s ≡ 0
cleared_by {p = p} {r = r} k f end = elim k.cleared [
  | inl (here, all) ↦ subst (λ a. r.mem a ≡ 0) here (f.cleared (ap at_end all ∙ end))
  | inr (later, clear) ↦ f.below _ later ∙ clear
]

pub scan_token-Found :
    (fuel s : ℕ) (m : ℕ → ℕ) (cs : List ℕ)
    → 0 < s
    → length cs ≤ fuel
    → Holds m s cs
    → Found fuel m s cs (scan_token fuel s m)
unfolding scan_token
scan_token-Found fuel s m cs pos l h =
    let k = skip_space-Skipped fuel s m cs l h in
    let start = (skip_space fuel s m).0 in
    let t = (skip_space fuel s m).1 in
    let less : 0 < start = omega (arith, pos, k.from) in
    let f =
      token_at-Found fuel start t (drop_space cs) less (omega (arith, l, length-drop_space cs))
        (starts-drop_space cs) k.holds in
    let not_null : (s == 0) ≡ false = ground (arith, pos) in
    rw not_null (record {
      reads = subst (λ ts. Reads fuel (token_at fuel start t) ts) (tokens-drop_space cs) f.reads;
      below = λ b i. f.below b (omega (arith, i, k.from)) ∙ k.below b i;
      cleared = λ i. cleared_by k f i;
      past = elim f.past [
        | inl none_left ↦ inl none_left
        | inr more ↦ inr (omega (arith, k.from, more))
      ];
    })

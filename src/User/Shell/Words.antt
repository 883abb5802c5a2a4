-- ===== src/User/Shell/Words.antt =====
-- The words and symbols that the callers of `gettoken` in user/sh.c get of a command line.
use buaa_mos_with_swap.Prelude.{
  ℕ, zero, suc, ◌+◌, ◌≤◌, ◌<◌, ◌≡◌, ◌⊎◌, inl, inr, refl, ap, sym, ◌∙◌, arith, true, false, List, [],
  ◌∷◌, Option, none, some, ◌==◌, if◌then◌else◌, length,
}
use buaa_mos_with_swap.User.Shell.{Scanned, scan_token, Lexer, read_ahead, gettoken, string_at}
use buaa_mos_with_swap.User.Shell.Tokens.{Token, symbol, word, tokens, is_symbol-codes}
use buaa_mos_with_swap.User.Shell.Scanning.{Holds, Spells, Below}
use buaa_mos_with_swap.User.Shell.Reading.{
  Reads, reads_end, reads_symbol, reads_word, Found, scan_token-Found,
}

unfoldable pub pointer : Option ℕ → ℕ
pointer none = 0
pointer (some a) = a

-- Successive calls `gettoken(0, &t)`, up to one that returns 0 and at most `n`: what they return
-- and `t`, and the memory after them.
unfoldable pub read_tokens : ℕ → ℕ → Lexer → List (ℕ × ℕ) × (ℕ → ℕ)
read_tokens fuel zero l = ([], l.mem)
read_tokens fuel (suc n) l =
    let g = gettoken fuel 0 l in
    let (rest, m) = read_tokens fuel n g.lexer in
    if g.token == 0 then ([], g.lexer.mem) else ((g.token, pointer g.p1) ∷ rest, m)

-- The tokens in memory.
unfoldable pub as_token : ℕ → (ℕ → ℕ) → ℕ × ℕ → Token
as_token fuel m (code, a) = if code == b'w' then word (string_at fuel a m) else symbol code

unfoldable pub as_tokens : ℕ → (ℕ → ℕ) → List (ℕ × ℕ) → List Token
as_tokens fuel m [] = []
as_tokens fuel m (r ∷ rs) = as_token fuel m r ∷ as_tokens fuel m rs

unfoldable pub tokens_read : ℕ → ℕ → Lexer → List Token
tokens_read fuel n l = let (rs, m) = read_tokens fuel n l in as_tokens fuel m rs

-- A word with a zero after it.
string_at-Spells :
    (n a : ℕ) (m : ℕ → ℕ) (w : List ℕ)
    → length w ≤ n
    → Spells m a w
    → m (a + length w) ≡ 0
    → string_at n a m ≡ w
unfolding string_at Spells
string_at-Spells zero a m [] l s h = refl
string_at-Spells zero a m (c ∷ w) l s h = absurd (omega (arith, l))
string_at-Spells (suc n) a m [] l s h = ground (arith, h)
string_at-Spells (suc n) a m (c ∷ w) l (same, some_char, rest) h =
    let end : a + 1 + length w ≡ a + length (c ∷ w) = omega arith in
    let more = string_at-Spells n (a + 1) m w (omega (arith, l)) rest (ap m end ∙ h) in
    let byte : (m a == 0) ≡ false = ap (λ x. x == 0) same ∙ some_char in
    rw byte (ap (λ c. c ∷ string_at n (a + 1) m) same ∙ ap (λ w. c ∷ w) more)

Spells-Below :
    (m t : ℕ → ℕ) (a : ℕ) (w : List ℕ) → Below (a + length w) m t → Spells m a w → Spells t a w
unfolding Spells
Spells-Below m t a [] b s = tt
Spells-Below m t a (c ∷ w) b (same, some_char, rest) = (
  b a (omega arith) ∙ same,
  some_char,
  Spells-Below m t (a + 1) w (λ i k. b i (omega (arith, k))) rest,
)

scan_token-null : (fuel s : ℕ) (m : ℕ → ℕ) → s ≡ 0 → (scan_token fuel s m).mem ≡ m
unfolding scan_token
scan_token-null fuel s m h = let null : (s == 0) ≡ true = ap (λ x. x == 0) h in rw null refl

-- The bytes that later calls leave alone.
Frame : Lexer → (ℕ → ℕ) → Type 0
Frame l m = (b : ℕ) → (l.np2 ≡ 0) ⊎ (b < l.np2) → m b ≡ l.mem b

abbrev pub ahead : Lexer → Scanned
ahead l = record { token = l.nc; p1 = l.np1; p2 = l.np2; mem = l.mem }

record AllRead (fuel n : ℕ) (l : Lexer) (ts : List Token) : Type 0 where
  toks : as_tokens fuel (read_tokens fuel n l).1 (read_tokens fuel n l).0 ≡ ts
  frame : Frame l (read_tokens fuel n l).1

-- A byte before the next token of `l` is as it was, after the token is read and after all are.
next_frame :
    (l : Lexer) (m : ℕ → ℕ) (b : ℕ) {fuel : ℕ} {cs : List ℕ}
    → Found fuel l.mem l.np2 cs (scan_token fuel l.np2 l.mem)
    → ((b : ℕ)
        → ((scan_token fuel l.np2 l.mem).p2 ≡ 0) ⊎ (b < (scan_token fuel l.np2 l.mem).p2)
        → m b ≡ (scan_token fuel l.np2 l.mem).mem b)
    → b ≤ l.np2
    → m b ≡ (scan_token fuel l.np2 l.mem).mem b
next_frame l m b f frame h = elim f.past [
  | inl none_left ↦ frame b (inl none_left)
  | inr later ↦ frame b (inr (omega (arith, h, later)))
]

kept_before :
    (l : Lexer) (m : ℕ → ℕ) {fuel : ℕ} {cs : List ℕ}
    → 0 < l.np2
    → Found fuel l.mem l.np2 cs (scan_token fuel l.np2 l.mem)
    → ((b : ℕ)
        → ((scan_token fuel l.np2 l.mem).p2 ≡ 0) ⊎ (b < (scan_token fuel l.np2 l.mem).p2)
        → m b ≡ (scan_token fuel l.np2 l.mem).mem b)
    → Below l.np2 l.mem m
kept_before l m pos f frame b h = next_frame l m b f frame (omega (arith, h)) ∙ f.below b h

-- A byte before the next token, where there is one.
before : (p b : ℕ) → 0 < p → (p ≡ 0) ⊎ (b < p) → b < p
before p b pos (inl none_left) = absurd (omega (arith, pos, none_left))
before p b pos (inr h) = h

read_tokens-AllRead :
    (fuel n : ℕ) (l : Lexer) (ts : List Token)
    → length ts ≤ n
    → Reads fuel (ahead l) ts
    → AllRead fuel n l ts
unfolding read_tokens as_tokens as_token pointer gettoken read_ahead Frame
read_tokens-AllRead fuel zero l ts k (reads_end h e) = record { toks = refl; frame = λ b i. refl }
read_tokens-AllRead fuel zero l ts k (reads_symbol c cs h is pos rest len) =
    absurd (omega (arith, k))
read_tokens-AllRead fuel zero l ts k (reads_word w cs h sp stop pos end rest lw lc) =
    absurd (omega (arith, k))
read_tokens-AllRead fuel (suc n) l ts k (reads_end h e) =
    let none_left : (l.nc == 0) ≡ true = ap (λ x. x == 0) h in
    let same = scan_token-null fuel l.np2 l.mem e in
    record { toks = rw none_left refl; frame = λ b i. rw none_left (ap (λ (m : ℕ → ℕ). m b) same) }
read_tokens-AllRead fuel (suc n) l ts k (reads_symbol c cs h is pos rest len) =
    let f = scan_token-Found fuel l.np2 l.mem cs pos len rest in
    let next = (gettoken fuel 0 l).lexer in
    let more = read_tokens-AllRead fuel n next (tokens cs) (omega (arith, k)) f.reads in
    let codes = is_symbol-codes c is in
    let some_token : (l.nc == 0) ≡ false = ap (λ x. x == 0) h ∙ codes.0 in
    let no_word : (l.nc == b'w') ≡ false = ap (λ x. x == b'w') h ∙ codes.1 in
    record {
      toks = rw some_token (
          rw no_word (
            ap
              (λ c.
                symbol c ∷ as_tokens fuel (read_tokens fuel n next).1 (read_tokens fuel n next).0)
              h
            ∙ ap (λ ts. symbol c ∷ ts) more.toks));
      frame = λ b i.
          rw some_token
            (kept_before l (read_tokens fuel n next).1 pos f more.frame b (before l.np2 b pos i));
    }
read_tokens-AllRead fuel (suc n) l ts k (reads_word w cs h sp stop pos end rest lw lc) =
    let f = scan_token-Found fuel l.np2 l.mem cs pos lc rest in
    let next = (gettoken fuel 0 l).lexer in
    let m = (read_tokens fuel n next).1 in
    let more = read_tokens-AllRead fuel n next (tokens cs) (omega (arith, k)) f.reads in
    let some_token : (l.nc == 0) ≡ false = ap (λ x. x == 0) h in
    let is_word : (l.nc == b'w') ≡ true = ap (λ x. x == b'w') h in
    let kept = kept_before l m pos f more.frame in
    let spells = Spells-Below l.mem m l.np1 w (λ b i. kept b (omega (arith, i, stop))) sp in
    let zero_after =
      ap m (sym stop) ∙ next_frame l m l.np2 f more.frame (omega arith) ∙ f.cleared end in
    let text = string_at-Spells fuel l.np1 m w lw spells zero_after in
    record {
      toks = rw some_token (
          rw is_word (
            ap (λ w. word w ∷ as_tokens fuel m (read_tokens fuel n next).0) text
            ∙ ap (λ ts. word w ∷ ts) more.toks));
      frame = λ b i. rw some_token (kept b (before l.np2 b pos i));
    }

-- A call `gettoken(s, 0)` on a text in memory and calls `gettoken(0, &t)` after it, in memory that
-- `s` is in, return the tokens of the text: white space apart, each symbol by its character and
-- each longest stretch of other characters as `w`, in their order, and then 0. When all are read,
-- each pointer to a word is still to that word with a zero after it. Fuel and the number of calls
-- are at least the text's length and the number of its tokens.
pub gettoken-tokens :
    (fuel n s : ℕ) (l : Lexer) (cs : List ℕ)
    → 0 < s
    → length cs ≤ fuel
    → length (tokens cs) ≤ n
    → Holds l.mem s cs
    → tokens_read fuel n (gettoken fuel s l).lexer ≡ tokens cs
unfolding gettoken read_ahead tokens_read
gettoken-tokens fuel n s l cs pos len enough h =
    let f = scan_token-Found fuel s l.mem cs pos len h in
    let not_null : (s == 0) ≡ false = ground (arith, pos) in
    let all = read_tokens-AllRead fuel n (read_ahead fuel s l) (tokens cs) enough f.reads in
    rw not_null all.toks

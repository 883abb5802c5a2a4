-- ===== src/Tests/Shell.antt =====
-- A command line at address 16: `ls | cat>x `.
use buaa_mos_with_swap.Prelude.{
  some, ◌+◌, ℕ, ◌-◌, ◌≤◌, ◌≡◌, refl, List, [], ◌∷◌, ◌==◌, if◌then◌else◌, leb, length, arith,
}
use buaa_mos_with_swap.User.Shell.{Lexer, gettoken, strchr, one_of, not_null}
use buaa_mos_with_swap.User.Shell.Tokens.{
  symbol, word, tokens, is_space, is_symbol, is_delimiter, cons_word, grow_word,
}
use buaa_mos_with_swap.User.Shell.Scanning.{Holds}
use buaa_mos_with_swap.User.Shell.Parse.{Calls, parsecmd}
use buaa_mos_with_swap.User.Shell.Parse.Ends.{Ended, parsecmd-Ended}
use buaa_mos_with_swap.User.Shell.Words.{tokens_read, gettoken-tokens}

abbrev line : List ℕ
line = b'l' ∷ b's' ∷ b' ' ∷ b'|' ∷ b' ' ∷ b'c' ∷ b'a' ∷ b't' ∷ b'>' ∷ b'x' ∷ b' ' ∷ []

abbrev nth : List ℕ → ℕ → ℕ
nth [] i = 0
nth (c ∷ cs) i = if i == 0 then c else nth cs (i - 1)

abbrev memory : ℕ → ℕ
memory a = if leb 16 a then nth line (a - 16) else b'?'

abbrev lexer : Lexer
lexer = record { c = 0; nc = 0; np1 = 0; np2 = 0; mem = memory }

line-Holds : Holds memory 16 line
unfolding Holds
line-Holds = (
  refl,
  refl,
  (
    refl,
    refl,
    (
      refl,
      refl,
      (
        refl,
        refl,
        (
          refl,
          refl,
          (refl, refl, (refl, refl, (refl, refl, (refl, refl, (refl, refl, (refl, refl, refl)))))),
        ),
      ),
    ),
  ),
)

tokens-line :
    tokens line
    ≡ word (b'l' ∷ b's' ∷ [])
      ∷ symbol b'|'
      ∷ word (b'c' ∷ b'a' ∷ b't' ∷ [])
      ∷ symbol b'>'
      ∷ word (b'x' ∷ [])
      ∷ []
unfolding tokens is_space is_symbol is_delimiter one_of strchr not_null cons_word grow_word
tokens-line = refl

few : length (tokens line) ≤ 5
few = rw tokens-line (omega arith)

gettoken-tokens_example : tokens_read 11 5 (gettoken 11 16 lexer).lexer ≡ tokens line
gettoken-tokens_example =
    gettoken-tokens 11 5 16 lexer line (omega arith) (omega arith) few line-Holds

-- Calls that succeed, and a `fork` that returns in the child; the world counts them.
abbrev calls : Calls ℕ
calls = record {
  open_file = λ name mode w. (some 5, w + 1);
  dup = λ old new w. (some new, w + 1);
  close = λ fd w. (some 0, w + 1);
  pipe = λ w. (some (3, 4), w + 1);
  fork = λ w. (0, w + 1);
}

parsecmd-Ended_example : Ended (parsecmd calls 11 6 [] 0 (gettoken 11 16 lexer).lexer 0)
parsecmd-Ended_example =
    parsecmd-Ended calls 11 6 16 lexer line 0 (omega arith) (omega arith) (omega (arith, few))
      line-Holds

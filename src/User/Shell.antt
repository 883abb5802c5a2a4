-- ===== src/User/Shell.antt =====
-- The shell of user/sh.c: its tokens, and `strchr` of lib/string.c.
--
-- Memory is by byte. A string constant is the list of its characters before the zero. The loops
-- over the characters of a string run on fuel, and as many rounds as it has characters are enough.
pub mod Tokens
pub mod Scanning
pub mod Reading
pub mod Words
pub mod Parse
use buaa_mos_with_swap.Prelude.{
  ℕ, zero, suc, ◌+◌, Bool, true, false, ◌&&◌, not, List, [], ◌∷◌, ◌++◌, Option, none, some, ◌==◌,
  if◌then◌else◌, update,
}

-- What is found, up to the end of the string, or `none` for a null pointer.
unfoldable pub strchr : List ℕ → ℕ → Option (List ℕ)
strchr [] c = none
strchr (x ∷ xs) c = let rest = strchr xs c in if x == c then some (x ∷ xs) else rest

unfoldable pub not_null : Option (List ℕ) → Bool
not_null none = false
not_null (some s) = true

unfoldable pub one_of : List ℕ → ℕ → Bool
one_of s c = not_null (strchr s c)

abbrev pub whitespace : List ℕ
whitespace = b' ' ∷ b'\t' ∷ b'\r' ∷ b'\n' ∷ []

abbrev pub symbols : List ℕ
symbols = b'<' ∷ b'|' ∷ b'>' ∷ b'&' ∷ b';' ∷ b'(' ∷ b')' ∷ []

-- `while (strchr(WHITESPACE, *s)) *s++ = 0;`
unfoldable pub skip_space : ℕ → ℕ → (ℕ → ℕ) → ℕ × (ℕ → ℕ)
skip_space zero s m = (s, m)
skip_space (suc n) s m =
    let rest = skip_space n (s + 1) (update m s 0) in
    if one_of whitespace (m s) then rest else (s, m)

-- `while (*s && !strchr(WHITESPACE SYMBOLS, *s)) s++;`
unfoldable pub scan_word : ℕ → ℕ → (ℕ → ℕ) → ℕ
scan_word zero s m = s
scan_word (suc n) s m =
    let rest = scan_word n (s + 1) m in
    if not (m s == 0) && not (one_of (whitespace ++ symbols) (m s)) then rest else s

-- What `_gettoken` returns, `*p1`, `*p2` and the memory after it.
pub record Scanned : Type 0 where
  pub token : ℕ
  pub p1 : ℕ
  pub p2 : ℕ
  pub mem : ℕ → ℕ

-- After the white space.
unfoldable pub token_at : ℕ → ℕ → (ℕ → ℕ) → Scanned
token_at fuel s m =
    if m s == 0
    then record { token = 0; p1 = 0; p2 = 0; mem = m }
    else if one_of symbols (m s)
    then record { token = m s; p1 = s; p2 = s + 1; mem = update m s 0 }
    else record { token = b'w'; p1 = s; p2 = scan_word fuel s m; mem = m }

-- `_gettoken`.
unfoldable pub scan_token : ℕ → ℕ → (ℕ → ℕ) → Scanned
scan_token fuel s m =
    let (start, t) = skip_space fuel s m in
    if s == 0 then record { token = 0; p1 = 0; p2 = 0; mem = m } else token_at fuel start t

-- The static variables of `gettoken`, with the memory.
pub record Lexer : Type 0 where
  pub c : ℕ
  pub nc : ℕ
  pub np1 : ℕ
  pub np2 : ℕ
  pub mem : ℕ → ℕ

-- What `gettoken` returns, and `*p1`, `none` where it is not written.
pub record Got : Type 0 where
  pub token : ℕ
  pub p1 : Option ℕ
  pub lexer : Lexer

-- `nc = _gettoken(s, &np1, &np2);`
unfoldable pub read_ahead : ℕ → ℕ → Lexer → Lexer
read_ahead fuel s l =
    let r = scan_token fuel s l.mem in
    record l { nc = r.token; np1 = r.p1; np2 = r.p2; mem = r.mem }

unfoldable pub gettoken : ℕ → ℕ → Lexer → Got
gettoken fuel s l =
    if not (s == 0) then record { token = 0; p1 = none; lexer = read_ahead fuel s l } else record {
      token = l.nc;
      p1 = some l.np1;
      lexer = read_ahead fuel l.np2 (record l { c = l.nc });
    }

-- The string at an address, read on fuel.
unfoldable pub string_at : ℕ → ℕ → (ℕ → ℕ) → List ℕ
string_at zero a m = []
string_at (suc n) a m = let rest = string_at n (a + 1) m in if m a == 0 then [] else m a ∷ rest

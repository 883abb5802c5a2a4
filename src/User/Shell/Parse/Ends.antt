-- ===== src/User/Shell/Parse/Ends.antt =====
-- `parsecmd` of user/sh.c ends.
use buaa_mos_with_swap.Prelude.{
  ℕ, zero, suc, ◌+◌, ◌≤◌, ◌<◌, ◌≡◌, ap, arith, Bool, true, false, not, List, [], ◌∷◌, ◌++◌, Option,
  none, some, leb, ◌==◌, if◌then◌else◌, length,
}
use buaa_mos_with_swap.User.Fd.{o_rdonly, o_wronly}
use buaa_mos_with_swap.User.Shell.{Lexer, gettoken, read_ahead, string_at}
use buaa_mos_with_swap.User.Shell.Tokens.{Token, tokens}
use buaa_mos_with_swap.User.Shell.Scanning.{Holds}
use buaa_mos_with_swap.User.Shell.Reading.{
  Reads, reads_end, reads_symbol, reads_word, scan_token-Found,
}
use buaa_mos_with_swap.User.Shell.Words.{ahead, pointer}
use buaa_mos_with_swap.User.Shell.Parse.{
  Calls, Parsed, returned, exited, or_exit, maxargs, redirect, take_end, on_pipe, parsecmd,
}

pub data Ended {W : Type 0} : Parsed W → Type 0 where
  by_return : (argv : List ℕ) (right : ℕ) (l : Lexer) (w : W) → Ended (returned argv right l w)
  by_exit : (w : W) → Ended (exited w)

if-Ended : {W : Type 0} (b : Bool) {x y : Parsed W} → Ended x → Ended y → Ended (if b then x else y)
if-Ended true hx hy = hx
if-Ended false hx hy = hy

or_exit-Ended :
    {A W : Type 0} {k : A → W → Parsed W} (r : Option A) (w : W)
    → ((a : A) (w : W) → Ended (k a w))
    → Ended (or_exit k (r, w))
unfolding or_exit
or_exit-Ended none w h = by_exit w
or_exit-Ended (some a) w h = h a w

module _ {W : Type 0} (calls : Calls W) where
  redirect-Ended :
      (name : List ℕ) (mode target : ℕ) (k : W → Parsed W) (w : W)
      → ((w : W) → Ended (k w))
      → Ended (redirect calls name mode target k w)
  unfolding redirect
  redirect-Ended name mode target k w h =
      or_exit-Ended (calls.open_file name mode w).0 (calls.open_file name mode w).1 λ fd u.
        or_exit-Ended (calls.dup fd target u).0 (calls.dup fd target u).1
          λ _ v. or_exit-Ended (calls.close fd v).0 (calls.close fd v).1 λ _. h

  take_end-Ended :
      (mine target : ℕ) (p : ℕ × ℕ) (k : W → Parsed W) (w : W)
      → ((w : W) → Ended (k w))
      → Ended (take_end calls mine target p k w)
  unfolding take_end
  take_end-Ended mine target p k w h =
      or_exit-Ended (calls.dup mine target w).0 (calls.dup mine target w).1 λ _ u.
        or_exit-Ended (calls.close p.0 u).0 (calls.close p.0 u).1
          λ _ v. or_exit-Ended (calls.close p.1 v).0 (calls.close p.1 v).1 λ _. h

  on_pipe-Ended :
      (child : W → Parsed W) (parent : ℕ → W → Parsed W) (w : W)
      → ((w : W) → Ended (child w))
      → ((r : ℕ) (w : W) → Ended (parent r w))
      → Ended (on_pipe calls child parent w)
  unfolding on_pipe
  on_pipe-Ended child parent w hc hp = or_exit-Ended (calls.pipe w).0 (calls.pipe w).1 λ p u.
      if-Ended ((calls.fork u).0 == 0) (take_end-Ended p.0 0 p child (calls.fork u).1 hc)
        (take_end-Ended p.1 1 p (parent (calls.fork u).0) (calls.fork u).1 (hp (calls.fork u).0))

-- After a call of `gettoken`: the text was at its end, or there is one token less.
data Next (fuel : ℕ) (n : ℕ) (l : Lexer) : Type 0 where
  at_its_end : (gettoken fuel 0 l).token ≡ 0 → Next fuel n l
  one_less :
      (ts : List Token)
      → length ts + 1 ≡ n
      → Reads fuel (ahead (gettoken fuel 0 l).lexer) ts
      → Next fuel n l

gettoken-Next :
    (fuel : ℕ) (l : Lexer) (ts : List Token) → Reads fuel (ahead l) ts → Next fuel (length ts) l
unfolding gettoken read_ahead
gettoken-Next fuel l ts (reads_end h e) = at_its_end h
gettoken-Next fuel l ts (reads_symbol c cs h is pos rest len) =
    one_less (tokens cs) (omega arith) (scan_token-Found fuel l.np2 l.mem cs pos len rest).reads
gettoken-Next fuel l ts (reads_word w cs h sp stop pos end rest lw lc) =
    one_less (tokens cs) (omega arith) (scan_token-Found fuel l.np2 l.mem cs pos lc rest).reads

-- The word after `<` or `>`.
file-Ended :
    {W : Type 0} (fuel : ℕ) (l : Lexer) (m : ℕ) (x y : Parsed W)
    → Next fuel m l
    → Ended x
    → ((ts : List Token)
        → length ts + 1 ≡ m
        → Reads fuel (ahead (gettoken fuel 0 l).lexer) ts
        → Ended y)
    → Ended (if not ((gettoken fuel 0 l).token == b'w') then x else y)
file-Ended fuel l m x y (at_its_end h) hx hy =
    let no_word : not ((gettoken fuel 0 l).token == b'w') ≡ true = ap (λ c. not (c == b'w')) h in
    rw no_word hx
file-Ended fuel l m x y (one_less ts e r) hx hy =
    if-Ended (not ((gettoken fuel 0 l).token == b'w')) hx (hy ts e r)

module _ {W : Type 0} (calls : Calls W) where
  -- A round, where the rounds after it end.
  round-Ended :
      (fuel n m : ℕ) (argv : List ℕ) (right : ℕ) (l : Lexer) (w : W)
      → ((argv : List ℕ) (right : ℕ) (l : Lexer) (w : W) (ts : List Token)
          → length ts < n
          → Reads fuel (ahead l) ts
          → Ended (parsecmd calls fuel n argv right l w))
      → m < suc n
      → Next fuel m l
      → Ended (parsecmd calls fuel (suc n) argv right l w)
  unfolding parsecmd
  round-Ended fuel n m argv right l w later k (at_its_end h) =
      let last : ((gettoken fuel 0 l).token == 0) ≡ true = ap (λ c. c == 0) h in
      rw last (by_return argv right (gettoken fuel 0 l).lexer w)
  round-Ended fuel n m argv right l w later k (one_less us e s) =
      let g = (gettoken fuel 0 l).lexer in
      let less : length us < n = omega (arith, e, k) in
      let rest = λ (argv : List ℕ) (right : ℕ) (w : W). later argv right g w us less s in
      let after = gettoken-Next fuel g us s in
      let file =
        λ (vs : List Token) (d : length vs + 1 ≡ length us)
            (q : Reads fuel (ahead (gettoken fuel 0 g).lexer) vs) (w : W).
          later argv right (gettoken fuel 0 g).lexer w vs (omega (arith, less, d)) q in
      let c = (gettoken fuel 0 l).token in
      let name = string_at fuel (pointer (gettoken fuel 0 g).p1) (gettoken fuel 0 g).lexer.mem in
      let go_on = λ (w : W). parsecmd calls fuel n argv right (gettoken fuel 0 g).lexer w in
      let redirected = λ (mode target : ℕ).
        file-Ended fuel g (length us) (exited w) (redirect calls name mode target go_on w) after
          (by_exit w) λ vs d q. redirect-Ended calls name mode target go_on w (file vs d q) in
      let piped =
        on_pipe-Ended calls (parsecmd calls fuel n [] 0 g) (λ r. returned argv r g) w
          (λ v. rest [] 0 v) (λ p v. by_return argv p g v) in
      if-Ended (c == 0) (by_return argv right g w) (
        if-Ended (c == b'w')
          (if-Ended (leb maxargs (length argv)) (by_exit w)
            (rest (argv ++ pointer (gettoken fuel 0 l).p1 ∷ []) right w))
          (if-Ended (c == b'<') (redirected o_rdonly 0) (
            if-Ended (c == b'>') (redirected o_wronly 1)
              (if-Ended (c == b'|') piped (rest argv right w)))))

  parse-Ended :
      (fuel n : ℕ) (argv : List ℕ) (right : ℕ) (l : Lexer) (w : W) (ts : List Token)
      → length ts < n
      → Reads fuel (ahead l) ts
      → Ended (parsecmd calls fuel n argv right l w)
  parse-Ended fuel zero argv right l w ts k r = absurd (omega (arith, k))
  parse-Ended fuel (suc n) argv right l w ts k r =
      round-Ended fuel n (length ts) argv right l w
        (λ argv right l w ts k r. parse-Ended fuel n argv right l w ts k r) k
        (gettoken-Next fuel l ts r)

-- On a text in memory, `parsecmd` after `gettoken(s, 0)` returns or exits, in the parent and in
-- the child of each pipe, whatever its calls return: with a round for each token and one more, its
-- loop never runs out.
pub parsecmd-Ended :
    {W : Type 0} (calls : Calls W) (fuel n s : ℕ) (l : Lexer) (cs : List ℕ) (w : W)
    → 0 < s
    → length cs ≤ fuel
    → length (tokens cs) < n
    → Holds l.mem s cs
    → Ended (parsecmd calls fuel n [] 0 (gettoken fuel s l).lexer w)
unfolding gettoken read_ahead
parsecmd-Ended calls fuel n s l cs w pos len enough h =
    let f = scan_token-Found fuel s l.mem cs pos len h in
    let not_null : (s == 0) ≡ false = ground (arith, pos) in
    rw not_null (parse-Ended calls fuel n [] 0 (read_ahead fuel s l) w (tokens cs) enough f.reads)

-- ===== src/User/Shell/Parse.antt =====
-- `parsecmd` of user/sh.c, over the calls that it makes.
pub mod Ends
use buaa_mos_with_swap.Prelude.{
  ℕ, zero, suc, ◌+◌, Bool, true, false, not, List, [], ◌∷◌, ◌++◌, Option, none, some, leb, ◌==◌,
  if◌then◌else◌, length,
}
use buaa_mos_with_swap.User.Fd.{o_rdonly, o_wronly}
use buaa_mos_with_swap.User.Shell.{Lexer, gettoken, string_at}
use buaa_mos_with_swap.User.Shell.Words.{pointer}

-- The calls on a world `W`: `none` is a negative result. `fork` gives the 32-bit word that it returns.
pub record Calls (W : Type 0) : Type 0 where
  pub open_file : List ℕ → ℕ → W → Option ℕ × W
  pub dup : ℕ → ℕ → W → Option ℕ × W
  pub close : ℕ → W → Option ℕ × W
  pub pipe : W → Option (ℕ × ℕ) × W
  pub fork : W → ℕ × W

-- What `parsecmd` returns is the `argc` pointers of `argv`; `*rightpipe` comes with it.
pub data Parsed (W : Type 0) : Type 0 where
  returned : List ℕ → ℕ → Lexer → W → Parsed W
  exited : W → Parsed W
  out_of_fuel : Parsed W

-- `if (r < 0) { debugf(...); exit(); }`
unfoldable pub or_exit : {A W : Type 0} → (A → W → Parsed W) → Option A × W → Parsed W
or_exit k r = elim r.0 [ none ↦ exited r.1 | some a ↦ k a r.1 ]

abbrev pub maxargs : ℕ
maxargs = 128

module _ {W : Type 0} (calls : Calls W) where
  -- Open the file, move the descriptor to `target`.
  unfoldable pub redirect : List ℕ → ℕ → ℕ → (W → Parsed W) → W → Parsed W
  redirect name mode target k w =
      or_exit (λ fd u. or_exit (λ _ v. or_exit (λ _. k) (calls.close fd v)) (calls.dup fd target u))
        (calls.open_file name mode w)

  -- Move the end `mine` of a pipe to `target`, and close both ends.
  unfoldable pub take_end : ℕ → ℕ → ℕ × ℕ → (W → Parsed W) → W → Parsed W
  take_end mine target p k w =
      or_exit (λ _ u. or_exit (λ _ v. or_exit (λ _. k) (calls.close p.1 v)) (calls.close p.0 u))
        (calls.dup mine target w)

  -- The child starts again with the right side; the parent has the left side.
  unfoldable pub on_pipe : (W → Parsed W) → (ℕ → W → Parsed W) → W → Parsed W
  on_pipe child parent w =
      or_exit
        (λ p u.
          let (r, v) = calls.fork u in
          if r == 0 then take_end p.0 0 p child v else take_end p.1 1 p (parent r) v)
        (calls.pipe w)

  -- The loop, on fuel: a round takes a token.
  unfoldable pub parsecmd : ℕ → ℕ → List ℕ → ℕ → Lexer → W → Parsed W
  parsecmd fuel zero argv right l w = out_of_fuel
  parsecmd fuel (suc n) argv right l w =
      let g = gettoken fuel 0 l in
      let h = gettoken fuel 0 g.lexer in
      let more = parsecmd fuel n (argv ++ pointer g.p1 ∷ []) right g.lexer w in
      let file = string_at fuel (pointer h.p1) h.lexer.mem in
      let redirected = parsecmd fuel n argv right h.lexer in
      let child = parsecmd fuel n [] 0 g.lexer in
      let ignored = parsecmd fuel n argv right g.lexer w in
      if g.token == 0
      then returned argv right g.lexer w
      else if g.token == b'w'
      then (if leb maxargs (length argv) then exited w else more)
      else if g.token == b'<'
      then (if not (h.token == b'w') then exited w else redirect file o_rdonly 0 redirected w)
      else if g.token == b'>'
      then (if not (h.token == b'w') then exited w else redirect file o_wronly 1 redirected w)
      else if g.token == b'|'
      then on_pipe child (λ r. returned argv r g.lexer) w
      else ignored

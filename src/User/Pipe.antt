-- ===== src/User/Pipe.antt =====
-- Pipes of user/lib/pipe.c: the loops of `pipe_read` and `pipe_write`, one access to the shared
-- `struct Pipe` at a time, so that a reader and a writer can be interleaved at every access.
pub mod Fifo
pub mod Wrapped
use buaa_mos_with_swap.Prelude.{
  ℕ, ◌+◌, ◌-◌, ◌%◌, Bool, true, false, List, [], ◌∷◌, ◌++◌, Option, none, some, leb, ◌==◌,
  if◌then◌else◌, update,
}
use buaa_mos_with_swap.Mmu.{word_mod}

abbrev pub pipe_size : ℕ
pipe_size = 32

-- `struct Pipe`.
pub record Pipe : Type 0 where
  pub p_rpos : ℕ
  pub p_wpos : ℕ
  pub p_buf : ℕ → ℕ

-- Where a process is in its loop: at the tests, at `_pipe_is_closed` after it found the buffer
-- empty (full), before the copy of a byte, before the position moves on, and returned.
pub data Pc : Type 0 where
  looping asking copying advancing returned : Pc

-- `pipe_read`: `left` is `n - i`, `got` is `vbuf[0]` to `vbuf[i - 1]`, and `byte` is `vbuf[i]`.
pub record Reader : Type 0 where
  pub pc : Pc
  pub left : ℕ
  pub got : List ℕ
  pub byte : ℕ

-- `pipe_write`: `todo` is `vbuf[i]` to `vbuf[n - 1]`.
pub record Writer : Type 0 where
  pub pc : Pc
  pub todo : List ℕ

pub record System : Type 0 where
  pub pipe : Pipe
  pub reader : Reader
  pub writer : Writer

-- One sample of the loop of `_pipe_is_closed`: `env_runs` before, the two counts, and `env_runs`
-- after.
pub record Sample : Type 0 where
  pub runs : ℕ
  pub fd_ref : ℕ
  pub pipe_ref : ℕ
  pub runs_after : ℕ

-- `none`: still sampling.
unfoldable pub _pipe_is_closed : List Sample → Option Bool
_pipe_is_closed [] = none
_pipe_is_closed (x ∷ xs) =
    let again = _pipe_is_closed xs in
    if x.runs_after == x.runs then some (x.fd_ref == x.pipe_ref) else again

unfoldable pub is_empty : Pipe → Bool
is_empty p = leb p.p_wpos p.p_rpos

-- `p_wpos - p_rpos` is a difference of words.
unfoldable pub is_full : Pipe → Bool
is_full p = leb pipe_size ((p.p_wpos + word_mod - p.p_rpos) % word_mod)

-- The next step of the reader; `closed` is what `_pipe_is_closed` answers if it is asked, and after
-- a negative answer the process yields.
unfoldable pub read_step : Bool → Pipe → Reader → Pipe × Reader
read_step closed p r = elim r.pc [
  | looping ↦ (
    p,
    record r { pc = if r.left == 0 then returned else if is_empty p then asking else copying },
  )
  | asking ↦ (p, record r { pc = if closed then returned else looping })
  | copying ↦ (p, record r { pc = advancing; byte = p.p_buf (p.p_rpos % pipe_size) })
  | advancing ↦ (
    record p { p_rpos = (p.p_rpos + 1) % word_mod },
    record r { pc = looping; left = r.left - 1; got = r.got ++ r.byte ∷ [] },
  )
  | returned ↦ (p, r)
]

unfoldable pub write_byte : Bool → Pipe → ℕ → List ℕ → Pc → Pipe × Writer
write_byte closed p x xs looping =
    (p, record { pc = if is_full p then asking else copying; todo = x ∷ xs })
write_byte closed p x xs asking =
    (p, record { pc = if closed then returned else looping; todo = x ∷ xs })
write_byte closed p x xs copying = (
  record p { p_buf = update p.p_buf (p.p_wpos % pipe_size) x },
  record { pc = advancing; todo = x ∷ xs },
)
write_byte closed p x xs advancing =
    (record p { p_wpos = (p.p_wpos + 1) % word_mod }, record { pc = looping; todo = xs })
write_byte closed p x xs returned = (p, record { pc = returned; todo = x ∷ xs })

unfoldable pub write_step : Bool → Pipe → Pc → List ℕ → Pipe × Writer
write_step closed p pc [] = (p, record { pc = returned; todo = [] })
write_step closed p pc (x ∷ xs) = write_byte closed p x xs pc

-- Who moves, and what `_pipe_is_closed` would say.
pub data Turn : Type 0 where
  reads writes : Bool → Turn

unfoldable pub step : Turn → System → System
step (reads closed) s =
    let (p, r) = read_step closed s.pipe s.reader in record s { pipe = p; reader = r }
step (writes closed) s =
    let (p, w) = write_step closed s.pipe s.writer.pc s.writer.todo in
    record s { pipe = p; writer = w }

-- A schedule, first turn first.
unfoldable pub run : List Turn → System → System
run [] s = s
run (t ∷ ts) s = run ts (step t s)

-- ===== src/User/Pipe/Wrapped.antt =====
-- What `pipe_read` of user/lib/pipe.c does once the write position has wrapped past 2^32.
use buaa_mos_with_swap.Prelude.{
  ℕ, ◌+◌, ◌<◌, ◌≤◌, ◌≡◌, refl, ◌∙◌, Bool, true, false, List, [], ◌∷◌, arith,
}
use buaa_mos_with_swap.Mmu.{word_mod}
use buaa_mos_with_swap.User.Pipe.{
  pipe_size, Pipe, Pc, looping, asking, copying, advancing, returned, Reader, System, is_empty,
  is_full, read_step, write_byte, write_step, Turn, reads, writes, step, run,
}

abbrev pub moves : Pc → Bool
moves copying = true
moves advancing = true
moves _ = false

-- The write position wrapped and is below the read position, the pipe holds at most 32 bytes, and a
-- writer past its test has room. The reader is not past its test.
pub record IsWrapped (p : Pipe) (r : Reader) (pc : Pc) : Type 0 where
  pub behind : p.p_wpos + word_mod ≤ p.p_rpos + pipe_size
  pub high : p.p_rpos < word_mod
  pub spare : moves pc ≡ true → p.p_wpos + word_mod < p.p_rpos + pipe_size
  pub waits : moves r.pc ≡ false

module _ (closed : Bool) (p : Pipe) (left : ℕ) (got : List ℕ) (byte : ℕ) (pc : Pc) where
  read_step-IsWrapped :
      (at : Pc)
      → let r : Reader = record { pc = at; left = left; got = got; byte = byte } in
        IsWrapped p r pc → let (q, t) = read_step closed p r in IsWrapped q t pc × (t.got ≡ got)
  unfolding read_step is_empty
  read_step-IsWrapped looping v = ground arith
  read_step-IsWrapped asking v = ground arith
  read_step-IsWrapped copying v = ground (arith, v.waits)
  read_step-IsWrapped advancing v = ground (arith, v.waits)
  read_step-IsWrapped returned v = (v, refl)

write_step-IsWrapped :
    (closed : Bool) (p : Pipe) (r : Reader) (pc : Pc) (todo : List ℕ)
    → IsWrapped p r pc
    → let (q, w) = write_step closed p pc todo in IsWrapped q r w.pc
unfolding write_step write_byte is_full
write_step-IsWrapped closed p r pc [] v = ground arith
write_step-IsWrapped closed p r looping (x ∷ xs) v = ground arith
write_step-IsWrapped closed p r asking (x ∷ xs) v = ground arith
write_step-IsWrapped closed p r copying (x ∷ xs) v = ground arith
write_step-IsWrapped closed p r advancing (x ∷ xs) v = ground arith
write_step-IsWrapped closed p r returned (x ∷ xs) v = v

-- Once the write position has wrapped and is below the read position, with at most 32 bytes unread,
-- a reader that is not past its test for an empty pipe takes no byte any more, whatever is written
-- and however long it runs. A writer past its test for a full pipe has room for its byte.
pub run_stuck :
    (ts : List Turn) (s : System)
    → IsWrapped s.pipe s.reader s.writer.pc
    → (run ts s).reader.got ≡ s.reader.got
unfolding run step
run_stuck [] s v = refl
run_stuck (reads closed ∷ ts) s v =
    let (w, e) =
      read_step-IsWrapped closed s.pipe s.reader.left s.reader.got s.reader.byte s.writer.pc
        s.reader.pc v in
    run_stuck ts (step (reads closed) s) w ∙ e
run_stuck (writes closed ∷ ts) s v =
    run_stuck ts (step (writes closed) s)
      (write_step-IsWrapped closed s.pipe s.reader s.writer.pc s.writer.todo v)

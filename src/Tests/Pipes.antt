-- ===== src/Tests/Pipes.antt =====
-- A pipe at its start and one whose write position has wrapped.
use buaa_mos_with_swap.Prelude.{◌-◌, ◌≡◌, refl, false, [], ◌∷◌, ◌++◌, List, arith}
use buaa_mos_with_swap.Mmu.{word_mod}
use buaa_mos_with_swap.User.Pipe.{looping, System, Turn, reads, writes, run}
use buaa_mos_with_swap.User.Pipe.Fifo.{
  contents, view, QueueSteps, SystemInv, run-QueueSteps, run-stream,
}
use buaa_mos_with_swap.User.Pipe.Wrapped.{IsWrapped, run_stuck}

abbrev opened_pipe : System
opened_pipe = record {
  pipe = record { p_rpos = 0; p_wpos = 0; p_buf = λ i. 0 };
  reader = record { pc = looping; left = 2; got = []; byte = 0 };
  writer = record { pc = looping; todo = 7 ∷ 8 ∷ [] };
}

opened_pipe-SystemInv : SystemInv opened_pipe
opened_pipe-SystemInv = record {
  order = omega arith;
  room = omega arith;
  bounded = omega arith;
  filled = λ h. ground (arith, h);
  fetched = λ h. ground (arith, h);
  spare = λ h. ground (arith, h);
  stored = λ x xs h e. ground (arith, h);
}

-- The writer puts a byte and a half, and the reader takes one in between.
abbrev turns : List Turn
turns =
    reads false
    ∷ writes false
    ∷ writes false
    ∷ writes false
    ∷ reads false
    ∷ reads false
    ∷ writes false
    ∷ reads false
    ∷ reads false
    ∷ writes false
    ∷ []

run-QueueSteps_example :
    SystemInv (run turns opened_pipe) × QueueSteps (view opened_pipe) (view (run turns opened_pipe))
run-QueueSteps_example = run-QueueSteps turns opened_pipe opened_pipe-SystemInv

run-stream_example :
    (run turns opened_pipe).reader.got
      ++ contents (run turns opened_pipe).pipe
      ++ (run turns opened_pipe).writer.todo
    ≡ opened_pipe.reader.got ++ contents opened_pipe.pipe ++ opened_pipe.writer.todo
run-stream_example = run-stream turns opened_pipe opened_pipe-SystemInv

abbrev stuck_pipe : System
stuck_pipe = record {
  pipe = record { p_rpos = word_mod - 1; p_wpos = 0; p_buf = λ i. 9 };
  reader = record { pc = looping; left = 1; got = []; byte = 0 };
  writer = record { pc = looping; todo = 7 ∷ [] };
}

stuck_pipe-IsWrapped : IsWrapped stuck_pipe.pipe stuck_pipe.reader stuck_pipe.writer.pc
stuck_pipe-IsWrapped = record {
  behind = omega arith;
  high = omega arith;
  spare = λ h. ground (arith, h);
  waits = refl;
}

run_stuck_example : (run turns stuck_pipe).reader.got ≡ []
run_stuck_example = run_stuck turns stuck_pipe stuck_pipe-IsWrapped

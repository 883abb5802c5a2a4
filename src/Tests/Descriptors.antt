-- ===== src/Tests/Descriptors.antt =====
-- A process with descriptor 0 open on a device of two bytes at a time.
use buaa_mos_with_swap.Prelude.{
  ℕ, ◌/◌, ◌≡◌, ◌≢◌, ◌⊎◌, true, List, [], ◌∷◌, none, some, ◌==◌, if◌then◌else◌,
}
use buaa_mos_with_swap.Mmu.{page_size}
use buaa_mos_with_swap.User.Fd.{
  Process, Errno, success, failure, Returned, returns, Dev, index2fd, index2data, get_word,
  fd_omode, o_rdonly, o_wronly, pipe, readn,
}
use buaa_mos_with_swap.User.Fd.Pipes.{pipe_cases}
use buaa_mos_with_swap.User.Fd.Reads.{readn-returns}

abbrev process : Process
process = record {
  page = λ v. if v == 0x5fc00 then some 1 else none;
  perm = λ v. 0;
  words = λ p i. if i == 0 then b'd' else 0;
  fresh = 2;
  grants = λ n. true;
}

abbrev device : Dev
device = record {
  dev_read = λ fd n offset s. returns (success (7 ∷ 8 ∷ [])) s;
  dev_write = λ fd bytes offset s. returns (success 0) s;
  dev_close = λ fd s. returns (success tt) s;
}

pipe_cases_example :
    ((e : Errno) × (t : Process) × (pipe process ≡ returns (failure e) t)
      × ((v : ℕ) → t.page v ≡ process.page v))
    ⊎ ((i j p : ℕ) × (t : Process) × (pipe process ≡ returns (success (i, j)) t)
        × (i ≢ j)
        × (process.page (index2fd i / page_size) ≡ none)
        × (process.page (index2fd j / page_size) ≡ none)
        × (get_word (index2fd i) fd_omode t ≡ o_rdonly)
        × (get_word (index2fd j) fd_omode t ≡ o_wronly)
        × (t.page (index2data i / page_size) ≡ some p)
        × (t.page (index2data j / page_size) ≡ some p))
pipe_cases_example = pipe_cases process

readn-returns_example : (r : Returned (List ℕ)) × (readn ((b'd', device) ∷ []) 0 5 process ≡ some r)
readn-returns_example = readn-returns ((b'd', device) ∷ []) 0 5 process

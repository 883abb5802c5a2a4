-- ===== src/User/Pipe/Fifo.antt =====
-- A pipe with one reader and one writer is a bounded queue, however the two are interleaved.
use buaa_mos_with_swap.Prelude.{
  ℕ, zero, suc, ◌+◌, ◌-◌, ◌%◌, ◌<◌, ◌≤◌, ◌≡◌, refl, ap, ◌∙◌, Bool, true, false, List, [], ◌∷◌, ◌++◌,
  arith, ◌==◌, update, length,
}
use mathlib.Core.List.{append_assoc}
use buaa_mos_with_swap.Mmu.{word_mod}
use buaa_mos_with_swap.User.Pipe.{
  pipe_size, Pipe, Pc, looping, asking, copying, advancing, returned, Reader, System, is_empty,
  is_full, read_step, write_byte, write_step, Turn, reads, writes, step, run,
}

-- The `n` bytes of the buffer from position `at` on.
unfoldable pub held : (ℕ → ℕ) → ℕ → ℕ → List ℕ
held buf at zero = []
held buf at (suc n) = buf (at % pipe_size) ∷ held buf (at + 1) n

length-held : (buf : ℕ → ℕ) (at n : ℕ) → length (held buf at n) ≡ n
unfolding held
length-held buf at zero = refl
length-held buf at (suc n) = ap suc (length-held buf (at + 1) n)

held-snoc :
    (buf : ℕ → ℕ) (at n : ℕ)
    → held buf at (suc n) ≡ held buf at n ++ buf ((at + n) % pipe_size) ∷ []
unfolding held
held-snoc buf at zero = ap (λ (k : ℕ). buf (k % pipe_size) ∷ []) (omega arith)
held-snoc buf at (suc n) =
    ap (λ (l : List ℕ). buf (at % pipe_size) ∷ l)
      (held-snoc buf (at + 1) n
        ∙ ap (λ (k : ℕ). held buf (at + 1) n ++ buf (k % pipe_size) ∷ []) (omega arith))

held-update :
    (buf : ℕ → ℕ) (at n j x : ℕ)
    → at + n ≤ j
    → j < at + pipe_size
    → held (update buf (j % pipe_size) x) at n ≡ held buf at n
unfolding held
held-update buf at zero j x l h = refl
held-update buf at (suc n) j x l h =
    let other : (j % pipe_size == at % pipe_size) ≡ false = ground arith in
    rw (other, held-update buf (at + 1) n j x (omega arith) (omega arith)) refl

-- The bytes that the pipe holds.
abbrev pub contents : Pipe → List ℕ
contents p = held p.p_buf p.p_rpos (p.p_wpos - p.p_rpos)

-- What the users of a pipe see: the bytes still to be written, those in the pipe, oldest first, and
-- those that were read.
pub record View : Type 0 where
  pub to_send : List ℕ
  pub queue : List ℕ
  pub received : List ℕ

abbrev pub view : System → View
view s = record { to_send = s.writer.todo; queue = contents s.pipe; received = s.reader.got }

-- A step of a queue of at most 32 bytes: nothing, one byte in, or the oldest byte out.
pub data QueueStep (a : View) (b : View) : Type 0 where
  stays : a ≡ b → QueueStep a b
  puts :
      (x : ℕ)
      → length a.queue < pipe_size
      → a.to_send ≡ x ∷ b.to_send
      → b.queue ≡ a.queue ++ x ∷ []
      → b.received ≡ a.received
      → QueueStep a b
  takes :
      (x : ℕ)
      → a.queue ≡ x ∷ b.queue
      → b.to_send ≡ a.to_send
      → b.received ≡ a.received ++ x ∷ []
      → QueueStep a b

pub data QueueSteps (a : View) : View → Type 0 where
  here : QueueSteps a a
  next : {b c : View} → QueueSteps a b → QueueStep b c → QueueSteps a c

abbrev pub moves : Pc → Bool
moves copying = true
moves advancing = true
moves _ = false

abbrev pub has_byte : Pc → Bool
has_byte advancing = true
has_byte _ = false

-- The positions are in order and will not wrap; a process past its test still finds what it saw.
pub record PipeInv (p : Pipe) (r : Reader) (pc : Pc) (todo : List ℕ) : Type 0 where
  pub order : p.p_rpos ≤ p.p_wpos
  pub room : p.p_wpos ≤ p.p_rpos + pipe_size
  pub bounded : p.p_wpos + length todo < word_mod
  pub filled : moves r.pc ≡ true → p.p_rpos < p.p_wpos
  pub fetched : has_byte r.pc ≡ true → r.byte ≡ p.p_buf (p.p_rpos % pipe_size)
  pub spare : moves pc ≡ true → p.p_wpos < p.p_rpos + pipe_size
  pub stored :
      (x : ℕ) (xs : List ℕ)
      → has_byte pc ≡ true
      → todo ≡ x ∷ xs
      → p.p_buf (p.p_wpos % pipe_size) ≡ x

abbrev pub SystemInv : System → Type 0
SystemInv s = PipeInv s.pipe s.reader s.writer.pc s.writer.todo

abbrev reader : Pc → ℕ → List ℕ → ℕ → Reader
reader pc left got byte = record { pc = pc; left = left; got = got; byte = byte }

module _ (closed : Bool) (p : Pipe) (left : ℕ) (got : List ℕ) (byte : ℕ) (pc : Pc)
    (todo : List ℕ) where
  read_step-PipeInv :
      (at : Pc)
      → PipeInv p (reader at left got byte) pc todo
      → let (q, t) = read_step closed p (reader at left got byte) in PipeInv q t pc todo
  unfolding read_step is_empty
  read_step-PipeInv looping v = ground arith
  read_step-PipeInv asking v = ground arith
  read_step-PipeInv copying v = ground arith
  read_step-PipeInv advancing v = ground arith
  read_step-PipeInv returned v = v

  read_step-QueueStep :
      (at : Pc)
      → PipeInv p (reader at left got byte) pc todo
      → let (q, t) = read_step closed p (reader at left got byte) in
        QueueStep
          (record { to_send = todo; queue = contents p; received = got })
          (record { to_send = todo; queue = contents q; received = t.got })
  unfolding read_step held
  read_step-QueueStep looping v = stays refl
  read_step-QueueStep asking v = stays refl
  read_step-QueueStep copying v = stays refl
  read_step-QueueStep returned v = stays refl
  read_step-QueueStep advancing v =
      let one : p.p_wpos - p.p_rpos ≡ suc (p.p_wpos - (p.p_rpos + 1)) =
        omega (arith, v.filled refl) in
      let small : (p.p_rpos + 1) % word_mod ≡ p.p_rpos + 1 =
        omega (arith, v.order, v.bounded, v.filled refl) in
      takes byte (rw (one, small, v.fetched refl) refl) refl refl

module _ (closed : Bool) (p : Pipe) (r : Reader) where
  write_step-PipeInv :
      (pc : Pc) (todo : List ℕ)
      → PipeInv p r pc todo
      → let (q, w) = write_step closed p pc todo in PipeInv q r w.pc w.todo
  unfolding write_step write_byte is_full
  write_step-PipeInv pc [] v = ground arith
  write_step-PipeInv looping (x ∷ xs) v = ground arith
  write_step-PipeInv asking (x ∷ xs) v = ground arith
  write_step-PipeInv copying (x ∷ xs) v = ground arith
  write_step-PipeInv advancing (x ∷ xs) v = ground arith
  write_step-PipeInv returned (x ∷ xs) v = v

  write_step-QueueStep :
      (pc : Pc) (todo got : List ℕ)
      → PipeInv p r pc todo
      → let (q, w) = write_step closed p pc todo in
        QueueStep
          (record { to_send = todo; queue = contents p; received = got })
          (record { to_send = w.todo; queue = contents q; received = got })
  unfolding write_step write_byte
  write_step-QueueStep pc [] got v = stays refl
  write_step-QueueStep looping (x ∷ xs) got v = stays refl
  write_step-QueueStep asking (x ∷ xs) got v = stays refl
  write_step-QueueStep returned (x ∷ xs) got v = stays refl
  write_step-QueueStep copying (x ∷ xs) got v =
      let e =
        held-update p.p_buf p.p_rpos (p.p_wpos - p.p_rpos) p.p_wpos x (omega (arith, v.order))
          (omega (arith, v.spare refl)) in
      stays (rw e refl)
  write_step-QueueStep advancing (x ∷ xs) got v =
      let small : (p.p_wpos + 1) % word_mod ≡ p.p_wpos + 1 = omega (arith, v.bounded) in
      let more : p.p_wpos + 1 - p.p_rpos ≡ suc (p.p_wpos - p.p_rpos) = omega (arith, v.order) in
      let last : p.p_rpos + (p.p_wpos - p.p_rpos) ≡ p.p_wpos = omega (arith, v.order) in
      puts x
        (omega (arith, length-held p.p_buf p.p_rpos (p.p_wpos - p.p_rpos), v.spare refl, v.order))
        refl (rw (small, more, held-snoc, last, v.stored x xs refl refl) refl) refl

step-SystemInv : (t : Turn) (s : System) → SystemInv s → SystemInv (step t s)
unfolding step
step-SystemInv (reads closed) s v =
    read_step-PipeInv closed s.pipe s.reader.left s.reader.got s.reader.byte s.writer.pc
      s.writer.todo s.reader.pc v
step-SystemInv (writes closed) s v =
    write_step-PipeInv closed s.pipe s.reader s.writer.pc s.writer.todo v

step-QueueStep : (t : Turn) (s : System) → SystemInv s → QueueStep (view s) (view (step t s))
unfolding step
step-QueueStep (reads closed) s v =
    read_step-QueueStep closed s.pipe s.reader.left s.reader.got s.reader.byte s.writer.pc
      s.writer.todo s.reader.pc v
step-QueueStep (writes closed) s v =
    write_step-QueueStep closed s.pipe s.reader s.writer.pc s.writer.todo s.reader.got v

run-from :
    (ts : List Turn) (a : View) (s : System)
    → SystemInv s
    → QueueSteps a (view s)
    → SystemInv (run ts s) × QueueSteps a (view (run ts s))
unfolding run
run-from [] a s v q = (v, q)
run-from (t ∷ ts) a s v q =
    run-from ts a (step t s) (step-SystemInv t s v) (next q (step-QueueStep t s v))

-- However the accesses of one reader and one writer are interleaved, and whatever
-- `_pipe_is_closed` answers, each of them is a step of a queue of at most 32 bytes, and the
-- positions keep their invariant, as long as fewer than 2^32 bytes go through the pipe.
pub run-QueueSteps :
    (ts : List Turn) (s : System)
    → SystemInv s
    → SystemInv (run ts s) × QueueSteps (view s) (view (run ts s))
run-QueueSteps ts s v = run-from ts (view s) s v here

-- What a queue keeps: the bytes read, queued and still to send, in this order.
stream : View → List ℕ
stream a = a.received ++ a.queue ++ a.to_send

QueueStep-stream : {a b : View} → QueueStep a b → stream b ≡ stream a
unfolding stream
QueueStep-stream (stays e) = rw e refl
QueueStep-stream (puts x l e q r) = simp (e, q, r, append_assoc)
QueueStep-stream (takes x q e r) = simp (q, e, r, append_assoc)

QueueSteps-stream : {a b : View} → QueueSteps a b → stream b ≡ stream a
QueueSteps-stream here = refl
QueueSteps-stream (next qs q) = QueueStep-stream q ∙ QueueSteps-stream qs

-- Under every interleaving the bytes that were read, those in the pipe and those still to be
-- written are, in this order, the bytes that were read, held and to be written at the start: no
-- byte is lost, repeated or reordered, as long as fewer than 2^32 bytes go through the pipe.
pub run-stream :
    (ts : List Turn) (s : System)
    → SystemInv s
    → (run ts s).reader.got ++ contents (run ts s).pipe ++ (run ts s).writer.todo
      ≡ s.reader.got ++ contents s.pipe ++ s.writer.todo
unfolding stream
run-stream ts s v = QueueSteps-stream (run-QueueSteps ts s v).1

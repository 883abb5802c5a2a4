-- ===== src/Serv/Opens.antt =====
-- The table of open files of fs/serv.c.
use buaa_mos_with_swap.Prelude.{
  ℕ, ◌+◌, ◌≤◌, ◌<◌, ◌/◌, ◌≡◌, ◌≢◌, true, false, ◌==◌, if◌then◌else◌, update,
}
use buaa_mos_with_swap.Fs.{Server, e_no_mem, e_max_open, Result, success, failure}
use buaa_mos_with_swap.Fs.Cache.{vpn}
use buaa_mos_with_swap.Serv.{Serv, Ending, pageref}

abbrev Rest : Type 0
Rest = Result ℕ → Serv → Ending

-- All the entries from `i` to `n` are open: someone but the server maps their pages.
unfoldable pub Busy : ℕ → ℕ → Serv → Type 0
Busy i n s = (j : ℕ) → i ≤ j → j < n → 2 ≤ pageref (s.o_ff j) s

-- From `s` to `t`, the entry `i`, that no one had open, is given: its page is the server's only and
-- is all zeros, and no word outside it has changed, nor has another page's count.
pub record IsFresh (i : ℕ) (s t : Serv) : Type 0 where
  pub unused : pageref (s.o_ff i) s ≤ 1
  pub owned : pageref (s.o_ff i) t ≡ 1
  pub cleared : (a : ℕ) → a / 1024 ≡ vpn (s.o_ff i) → t.fs.mem a ≡ 0
  pub kept : (a : ℕ) → a / 1024 ≢ vpn (s.o_ff i) → t.fs.mem a ≡ s.fs.mem a
  pub others : (p : ℕ) → p ≢ vpn (s.o_ff i) → t.refs p ≡ s.refs p

pub data Given (from n : ℕ) (s : Serv) (scan : Rest → Ending) : Type 0 where
  given :
      (i : ℕ) (t : Serv)
      → from ≤ i
      → i < n
      → Busy from i s
      → IsFresh i s t
      → ((k : Rest) → scan k ≡ k (success i) t)
      → Given from n s scan
  no_page :
      (i : ℕ) (t : Serv)
      → from ≤ i
      → i < n
      → Busy from i s
      → pageref (s.o_ff i) s ≡ 0
      → ((k : Rest) → scan k ≡ k (failure e_no_mem) t)
      → Given from n s scan
  none_left : Busy from n s → ((k : Rest) → scan k ≡ k (failure e_max_open) s) → Given from n s scan

-- The server's memory with a new page, or without.
unfoldable granted : ℕ → Server → Server
granted va s = record s {
  asked = s.asked + 1;
  mem = λ a. if a / 1024 == vpn va then 0 else s.mem a;
  mapped = update s.mapped (vpn va) true;
  dirty = update s.dirty (vpn va) false;
}

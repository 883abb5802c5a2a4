-- ===== src/Serv/Replies.antt =====
-- `serve` of fs/serv.c against the requests that come in.
use buaa_mos_with_swap.Prelude.{
  ℕ, ◌≡◌, refl, ap, subst, ◌∙◌, arith, Bool, true, false, ◌&&◌, List, [], ◌∷◌, ltb, if◌then◌else◌,
  Bool-cases, inl, inr,
}
use buaa_mos_with_swap.Serv.{
  Reply, Serv, Ending, served, panic, null_deref, Request, max_fsreqno, serve_table, ipc_recv,
  serve_round, then_serve, serve,
}
use buaa_mos_with_swap.Serv.Answers.{Answered, replied, panicked, faulted, serve_table-Answered}

-- A request that `serve` hands to its handler: it comes with a page, and its number is one of the
-- seven of fsreq.h.
unfoldable pub is_request : Request → Bool
is_request r = r.has_page && ltb r.req max_fsreqno

serve_round_lem :
    (r : Request) (s : Serv)
    → serve_round r s
      ≡ (if is_request r then serve_table r (ipc_recv r s) else served (ipc_recv r s))
unfolding serve_round is_request
serve_round_lem r s = elim (Bool-cases r.has_page) [
  | inl page ↦ ground (arith, page)
  | inr absent ↦ ground (arith, absent)
]

-- The receivers of the answers, and those expected: the senders of requests, newest first.
unfoldable pub receivers : List Reply → List ℕ
receivers [] = []
receivers (r ∷ rs) = r.whom ∷ receivers rs

unfoldable pub senders : List Request → List ℕ → List ℕ
senders [] ws = ws
senders (r ∷ rs) ws = senders rs (if is_request r then r.whom ∷ ws else ws)

-- The server goes on after answers to `ws`, or it stops with a panic or at a null pointer.
pub data Sent (ws : List ℕ) : Ending → Type 0 where
  all_sent : (t : Serv) → receivers t.replies ≡ ws → Sent ws (served t)
  not_by_panic : Sent ws panic
  not_by_fault : Sent ws null_deref

serve_round-Sent :
    (r : Request) (s : Serv)
    → Sent
        (if is_request r then r.whom ∷ receivers s.replies else receivers s.replies)
        (serve_round r s)
unfolding receivers ipc_recv
serve_round-Sent r s =
    rw (serve_round_lem r s)
      (go (is_request r) (ipc_recv r s) refl (serve_table-Answered r (ipc_recv r s)))
  where
    go :
        (b : Bool) (t : Serv) {e : Ending}
        → t.replies ≡ s.replies
        → Answered r.whom t.replies e
        → Sent
            (if b then r.whom ∷ receivers s.replies else receivers s.replies)
            (if b then e else served t)
    go true t before (replied a u same to fits) =
        all_sent u
          (ap receivers (same ∙ ap (λ rs. a ∷ rs) before) ∙ ap (λ w. w ∷ receivers s.replies) to)
    go true t before panicked = not_by_panic
    go true t before faulted = not_by_fault
    go false t before h = all_sent t (ap receivers before)

then_serve-Sent :
    {e : Ending} (rs : List Request) (ws : List ℕ)
    → Sent ws e
    → ((t : Serv) → Sent (senders rs (receivers t.replies)) (serve rs t))
    → Sent (senders rs ws) (then_serve (serve rs) e)
unfolding then_serve
then_serve-Sent rs ws (all_sent t same) h =
    subst (λ ws. Sent (senders rs ws) (serve rs t)) same (h t)
then_serve-Sent rs ws not_by_panic h = not_by_panic
then_serve-Sent rs ws not_by_fault h = not_by_fault

-- Over any sequence of requests, unless it stops with a panic or at a null pointer, the server
-- sends one answer for each request that it knows, in the order of the requests, to its sender, and
-- no other answer.
pub serve-Sent :
    (rs : List Request) (s : Serv) → Sent (senders rs (receivers s.replies)) (serve rs s)
unfolding serve senders
serve-Sent [] s = all_sent s refl
serve-Sent (r ∷ rs) s = then_serve-Sent rs _ (serve_round-Sent r s) (serve-Sent rs)

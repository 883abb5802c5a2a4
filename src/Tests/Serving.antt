-- ===== src/Tests/Serving.antt =====
-- The file system server on a mounted file system, where no file is open but the one at entry 1.
use buaa_mos_with_swap.Prelude.{ℕ, ◌+◌, ◌*◌, true, List, [], ◌∷◌, ◌==◌, if◌then◌else◌}
use buaa_mos_with_swap.Fs.{block_size}
use buaa_mos_with_swap.Fs.Cache.{vpn}
use buaa_mos_with_swap.Serv.{Serv, Request, fileva, serve}
use buaa_mos_with_swap.Serv.Replies.{senders, receivers, is_request, Sent, serve-Sent}
use buaa_mos_with_swap.Tests.Files.{mounted}

abbrev server : Serv
server = record {
  fs = mounted;
  o_file = λ i. 0x10001000 + 8;
  o_fileid = λ i. i;
  o_mode = λ i. 0;
  o_ff = λ i. fileva + block_size * i;
  refs = λ p. if p == vpn fileva + 1 then 2 else 0;
  replies = [];
}

abbrev request : ℕ → ℕ → ℕ → Request
request whom req fileid = record {
  whom = whom;
  req = req;
  has_page = true;
  path = [];
  word0 = fileid;
  word1 = 0;
  omode = 0;
  refs = λ p. if p == vpn fileva + 1 then 2 else 0;
}

-- To close a file that is not open, an unknown request, and to write all blocks.
abbrev requests : List Request
requests = request 7 3 5 ∷ request 8 9 0 ∷ request 9 6 0 ∷ []

serve-Sent_example : Sent (9 ∷ 7 ∷ []) (serve requests server)
unfolding senders receivers is_request
serve-Sent_example = serve-Sent requests server

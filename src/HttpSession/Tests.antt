-- ===== src/HttpSession/Tests.antt =====
-- Runs of `recvRequest` (src/http_session.cc).
use muqiu.Common.{ℕ, ◌+◌, ◌-◌, ◌≤◌, ◌≡◌, refl, ap, arith, min, Bool, true, false, some}
use muqiu.Common.{[], ◌∷◌, ◌++◌, length, length-take, length-drop, take, drop, ◌==◌}
use mathlib.Core.Path.{subst}
use muqiu.ByteArray.State.{Bytes}
use muqiu.SocketStream.Calls.{Received, got, error}
use muqiu.Stream.FixSize.{read_fix_size, read_loop}
use muqiu.HttpSession.Receive.{
  Parser, Peer, to_int64, init, set_body, execute, read_body, recv_head, recv_body, recv_request,
}
use muqiu.HttpSession.Contract.{Contract}
use muqiu.Common.Int.{ℤ, pos, negsuc, to_int}
use muqiu.Common.{◌⊎◌}
use muqiu.Url.Reserved.{lacks→Lacks}
use muqiu.Http.Method.{codes}
use muqiu.Http.Dump.{HttpResponse, status_line, dump_response}
use muqiu.Http.Fields.{read_message}
use muqiu.Http.DumpLaws.{response_fields}
use muqiu.HttpSession.Send.{Outlet, send_response}
use muqiu.HttpSession.Sent.{Takes, LastWrite, send_response-read_message}

-- A parser of two bytes, with a body of three to follow.
abbrev two_bytes : Parser
two_bytes = record {
  State = ℕ;
  new = 2;
  http_parser_execute = λ p bs. (p - length bs, min p (length bs));
  has_error = λ p. false;
  is_finished = λ p. p == 0;
  content_length = λ p. 3;
  get_data = λ p. record { connection = []; is_close = true; body = [] };
}

-- A socket is what was taken from it and what is still to come.
abbrev pipe : Peer
pipe = record {
  Socket = Bytes × Bytes;
  read = λ n s. (got (take n s.1), (s.0 ++ take n s.1, drop n s.1));
  close = λ s. (s.0, []);
}

abbrev bytes_of : Received → Bytes
bytes_of (got bs) = bs
bytes_of (error n) = []

abbrev pipe_contract : Contract pipe
pipe_contract = record {
  taken = λ s. s.0;
  remaining = λ s. length s.1;
  reads = λ n s bs e.
      subst
        (λ (x : Bytes).
          (length x ≤ n)
          × ((s.0 ++ take n s.1) ≡ s.0 ++ x)
          × (length x + length (drop n s.1) ≤ length s.1))
        (ap bytes_of e)
        (
          omega (arith, length-take n s.1),
          refl,
          omega (arith, length-take n s.1, length-drop n s.1),
        );
}

abbrev any : Bytes → Bool
any bs = true

-- The third byte comes with the head, and the others by a read of their own.
five_bytes :
    recv_request two_bytes pipe 3 any 9 ([], 1 ∷ 2 ∷ 3 ∷ 4 ∷ 5 ∷ 6 ∷ [])
    ≡ some (
      some (record { connection = []; is_close = true; body = 3 ∷ 4 ∷ 5 ∷ [] }),
      (1 ∷ 2 ∷ 3 ∷ 4 ∷ 5 ∷ [], 6 ∷ []),
    )
unfolding recv_request recv_body recv_head read_body execute set_body init to_int64 read_fix_size
    read_loop to_int
five_bytes = refl

-- A socket that takes two bytes at most at a time, and is what the peer has got.
abbrev narrow : Outlet
narrow = record {
  Socket = Bytes;
  write = λ text s. (pos (min 2 (length text)), s ++ take (min 2 (length text)) text);
}

abbrev count_of : ℤ → ℕ
count_of (pos n) = n
count_of (negsuc n) = 0

abbrev narrow_takes : Takes narrow
narrow_takes = record {
  received = λ s. s;
  writes = λ text n s e.
      let same : min 2 (length text) ≡ n = ap count_of e in
      (omega (arith, same), ap (λ (k : ℕ). s ++ take k text) same);
}

abbrev not_found : HttpResponse
not_found = record {
  status = 404;
  version = 17;
  is_close = true;
  websocket = false;
  body = codes "none";
  reason = [];
  headers = (codes "server", codes "a") ∷ [];
  cookies = codes "k=v" ∷ [];
}

send_response-read_message_example :
    (z : ℤ) × (s' : Bytes) × (send_response narrow not_found [] ≡ some (z, s'))
    × (((z ≡ to_int (length (dump_response not_found)))
          × (read_message s'
              ≡ some (status_line not_found, response_fields not_found, codes "none")))
        ⊎ LastWrite narrow narrow_takes (dump_response not_found) z s')
send_response-read_message_example =
    send_response-read_message narrow narrow_takes not_found [] refl (
      tt,
      (
        (
          lacks→Lacks b':' (codes "server") refl,
          lacks→Lacks 13 (codes "server") refl,
          lacks→Lacks 13 (codes "a") refl,
        ),
        tt,
      ),
      (lacks→Lacks 13 (codes "k=v") refl, tt),
    )

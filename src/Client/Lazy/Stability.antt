-- ===== src/Client/Lazy/Stability.antt =====
-- rsfbclient-rust/src/client.rs: stability of the closures given to `read_with`.
use rsfbclient.Base.{ℕ, zero, suc, refl, ◌++◌, Bytes}
use rsfbclient.Reader.{Outcome, done, failed, Parser, bytes_stream}
use rsfbclient.Reader.Stable.{
  Agrees, Stable, failed-Agrees, Agrees-failed, Stable-pure, stable_rules,
}
use rsfbclient.Reader.Loop.Laws.{Shrinks, Stable-loop}
use rsfbclient.Reader.Moves.{Takes-bind, Takes-Shrinks, forward_rules}
use rsfbclient.Util.{get_u32}
use rsfbclient.Util.Reads.{stable_reads}
use rsfbclient.Util.Moves.{Takes-get_u32}
use rsfbclient.Wire.Response.Laws.{Stable-parse_response}
use rsfbclient.Client.Read.{Conn, view_stream}
use rsfbclient.Client.Read.Reassembly.{arriving, IsOpen, Delivers, read_with-Delivers}
use rsfbclient.Client.Lazy.{
  dummy_round, next_op_code, with_bytes, on_resp, lazy_count, set_lazy_count, skip_lazy_responses,
  response_closure, read_response, skip_loop,
}

Stable-dummy_round : (u : Unit {0}) → Stable (dummy_round u)
unfolding dummy_round
Stable-dummy_round u = search stable_reads

pub dummy-Shrinks : Shrinks dummy_round
unfolding dummy_round
dummy-Shrinks =
    Takes-Shrinks _ (λ u. Takes-bind get_u32 _ Takes-get_u32 (λ c. search forward_rules))

pub Stable-next_op_code : Stable next_op_code
unfolding next_op_code
Stable-next_op_code = Stable-loop dummy-Shrinks Stable-dummy_round tt

with_bytes-Agrees :
    {A : Type 0} (lazy : ℕ) (more : Bytes) (o later : Outcome Bytes A)
    → Agrees more o later
    → Agrees more (with_bytes lazy o) (with_bytes lazy later)
with_bytes-Agrees lazy more (done a s) later h = rw h
with_bytes-Agrees lazy more (failed e s) later h =
    failed-Agrees e _ more _ (λ c. rw (Agrees-failed e s more later h c))

pub Stable-on_resp : {A : Type 0} (p : Parser Bytes A) → Stable p → Stable (on_resp p)
unfolding on_resp
Stable-on_resp p h = record {
  at = λ v more. with_bytes-Agrees v.lazy more (p v.bytes) _ (h.at v.bytes more);
}

pub Stable-lazy_count : Stable lazy_count
unfolding lazy_count
Stable-lazy_count = record { at = λ v more. refl }

Stable-set_lazy_count : (n : ℕ) → Stable (set_lazy_count n)
unfolding set_lazy_count
Stable-set_lazy_count n = record { at = λ v more. refl }

module _ (gds_to_msg : ℕ → Bytes) where
  Stable-skip_loop : (left op_code : ℕ) → Stable (skip_loop gds_to_msg left op_code)
  unfolding skip_loop
  Stable-skip_loop zero op_code = Stable-pure op_code
  Stable-skip_loop (suc left) op_code =
      let next : (c : ℕ) → Stable (skip_loop gds_to_msg left c) = Stable-skip_loop left in
      search
        (
          next, Stable-set_lazy_count, Stable-on_resp, Stable-parse_response, Stable-next_op_code,
          stable_rules,
        )
        depth 9

  pub Stable-skip_lazy_responses : Stable (skip_lazy_responses gds_to_msg)
  unfolding skip_lazy_responses
  Stable-skip_lazy_responses =
      search
        (Stable-on_resp, Stable-next_op_code, Stable-lazy_count, Stable-skip_loop, stable_rules)
        depth 9

  pub Stable-response_closure : Stable (response_closure gds_to_msg)
  unfolding response_closure
  Stable-response_closure =
      search (Stable-skip_lazy_responses, Stable-on_resp, Stable-parse_response, stable_rules) depth
        9

  -- `read_response` answers what one parse of all the bytes answers, pending or still to arrive,
  -- however the reads cut them (the keepalives and the responses left to be read later included).
  -- The response or the error, the lazy count and the bytes that are left for the next call are the
  -- parse's, and if the bytes hold no complete response the call waits with all of them pending and
  -- the lazy count as it was. The socket must neither close nor break.
  pub read_response-Delivers :
      (c : Conn)
      → IsOpen c.socket
      → Delivers c.lazy_count
          (c.pending ++ arriving c.socket)
          (response_closure gds_to_msg
            (record { lazy = c.lazy_count; bytes = c.pending ++ arriving c.socket }))
          (read_response gds_to_msg c)
  unfolding read_response
  read_response-Delivers = read_with-Delivers (response_closure gds_to_msg) Stable-response_closure

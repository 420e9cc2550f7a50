-- ===== src/Client/Lazy/Order.antt =====
-- rsfbclient-rust/src/client.rs: the order of the responses that are skipped, and of the one that is
-- read.
use rsfbclient.Base.{
  ◌==◌, false, sym, ap, ◌∙◌, append-nil, length, All, ℕ, zero, suc, ◌^◌, ◌<◌, ◌≡◌, refl, ◌≢◌, List,
  [], ◌∷◌, ◌++◌, append_assoc, arith, Bytes,
}
use rsfbclient.Error.{missing_bytes, other}
use rsfbclient.Reader.{done, failed}
use rsfbclient.Reader.Loop.{again, stop, resume}
use rsfbclient.Reader.Loop.Laws.{loop_unroll}
use rsfbclient.Util.{put_u32}
use rsfbclient.Util.RoundTrip.{get_u32-put_u32}
use rsfbclient.Consts.Op.{WireOp, op}
use rsfbclient.Wire.Response.{Response, parse_response}
use rsfbclient.Wire.Response.Laws.{response_body, ResponseFits, parse_response-response_body}
use rsfbclient.Client.Lazy.{
  dummy_round, next_op_code, on_resp, lazy_count, set_lazy_count, skip_lazy_responses,
  response_closure, read_response, skip_loop,
}
use rsfbclient.Client.Lazy.Stability.{dummy-Shrinks, Stable-response_closure}
use rsfbclient.Wire.Status.{finish_status}
use rsfbclient.Wire.Text.{pop_newline}
use rsfbclient.Client.Read.{Read, chunk, Conn, replied}
use rsfbclient.Client.Read.Reassembly.{arriving, IsOpen, read_with-done, read_with-chunk}

-- Keepalives that the server put before a packet.
abbrev pub dummies : ℕ → Bytes
dummies zero = []
dummies (suc n) = put_u32 (op WireOp.dummy) ++ dummies n

-- A response of the server with `keepalives` dummy packets before it. Its status is a success.
pub record Packet : Type 0 where
  pub keepalives : ℕ
  pub response : Response

abbrev pub packet_bytes : Packet → Bytes
packet_bytes p =
    dummies p.keepalives ++ (put_u32 (op WireOp.response) ++ response_body p.response [])

abbrev pub PacketFits : Packet → Type 0
PacketFits p = ResponseFits p.response

packet_some_bytes :
    (n : ℕ) (rest : Bytes)
    → (length (dummies n ++ (put_u32 (op WireOp.response) ++ rest)) == 0) ≡ false
packet_some_bytes zero rest = ground arith
packet_some_bytes (suc n) rest = ground arith

dummy_round-stop :
    (code : ℕ) (s : Bytes)
    → code < 2 ^ 32
    → code ≢ op WireOp.dummy
    → dummy_round tt (put_u32 code ++ s) ≡ done (stop code) s
unfolding dummy_round
dummy_round-stop code s h ne = rw (get_u32-put_u32 code s h) (ground arith)

dummy_round-again :
    (s : Bytes) → dummy_round tt (put_u32 (op WireOp.dummy) ++ s) ≡ done (again tt) s
unfolding dummy_round
dummy_round-again s = rw (get_u32-put_u32 (op WireOp.dummy) s (omega arith))

-- `next_op_code` skips the keepalives in front of an op code that is none, answers that op code
-- and leaves the cursor behind it. The op code has 32 bits.
pub next_op_code-dummies :
    (n code : ℕ) (rest : Bytes)
    → code < 2 ^ 32
    → code ≢ op WireOp.dummy
    → next_op_code (dummies n ++ (put_u32 code ++ rest)) ≡ done code rest
unfolding next_op_code resume
next_op_code-dummies zero code rest h ne =
    rw (loop_unroll dummy-Shrinks tt (put_u32 code ++ rest), dummy_round-stop code rest h ne)
next_op_code-dummies (suc n) code rest h ne =
    rw
      (
        loop_unroll dummy-Shrinks tt
            (put_u32 (op WireOp.dummy) ++ (dummies n ++ (put_u32 code ++ rest))),
        dummy_round-again (dummies n ++ (put_u32 code ++ rest)),
      )
      (next_op_code-dummies n code rest h ne)

abbrev pub packets_bytes : List Packet → Bytes
packets_bytes [] = []
packets_bytes (p ∷ ps) = packet_bytes p ++ packets_bytes ps

module _ (gds_to_msg : ℕ → Bytes) where
  pub success :
      (r : Response) (rest : Bytes)
      → ResponseFits r
      → parse_response gds_to_msg (response_body r [] ++ rest) ≡ done r rest
  unfolding finish_status pop_newline
  success r rest h = rw (parse_response-response_body gds_to_msg r [] rest h tt)

  pub next_op_code-packet :
      (p : Packet) (rest : Bytes)
      → next_op_code (packet_bytes p ++ rest)
        ≡ done (op WireOp.response) (response_body p.response [] ++ rest)
  next_op_code-packet p rest =
      rw
        (append_assoc (dummies p.keepalives)
          (put_u32 (op WireOp.response) ++ response_body p.response []) rest)
        (next_op_code-dummies p.keepalives (op WireOp.response)
          (response_body p.response [] ++ rest) (omega arith) (ground arith))

  -- The lazy loop behind a response's op code.
  skip_loop-packets :
      (r : Response) (lazies : List Packet) (last : Packet) (rest : Bytes)
      → ResponseFits r
      → All PacketFits lazies
      → skip_loop gds_to_msg (suc (length lazies)) (op WireOp.response) (record {
        lazy = suc (length lazies);
        bytes = response_body r [] ++ (packets_bytes lazies ++ (packet_bytes last ++ rest));
      })
        ≡ done
            (op WireOp.response)
            (record { lazy = 0; bytes = response_body last.response [] ++ rest })
  unfolding skip_loop on_resp set_lazy_count
  skip_loop-packets r [] last rest hr tt =
      rw (success r (packet_bytes last ++ rest) hr, next_op_code-packet last rest)
  skip_loop-packets r (p ∷ ps) last rest hr (hp, hps) =
      rw
        (
          success r ((packet_bytes p ++ packets_bytes ps) ++ (packet_bytes last ++ rest)) hr,
          append_assoc (packet_bytes p) (packets_bytes ps) (packet_bytes last ++ rest),
          next_op_code-packet p (packets_bytes ps ++ (packet_bytes last ++ rest)),
        )
        (skip_loop-packets p.response ps last rest hp hps)

  response_closure-packets :
      (lazies : List Packet) (last : Packet) (rest : Bytes)
      → All PacketFits lazies
      → PacketFits last
      → response_closure gds_to_msg (record {
        lazy = length lazies;
        bytes = packets_bytes lazies ++ (packet_bytes last ++ rest);
      })
        ≡ done last.response (record { lazy = 0; bytes = rest })
  unfolding response_closure skip_lazy_responses skip_loop on_resp lazy_count
  response_closure-packets [] last rest hs hl =
      rw (next_op_code-packet last rest, success last.response rest hl)
  response_closure-packets (p ∷ ps) last rest (hp, hps) hl = rw (
    append_assoc (packet_bytes p) (packets_bytes ps) (packet_bytes last ++ rest),
    next_op_code-packet p (packets_bytes ps ++ (packet_bytes last ++ rest)),
    skip_loop-packets p.response ps last rest hp hps,
    success last.response rest hl,
  )

  pub skip_lazy_responses-none :
      (n code : ℕ) (rest : Bytes)
      → code < 2 ^ 32
      → code ≢ op WireOp.dummy
      → skip_lazy_responses gds_to_msg
          (record { lazy = 0; bytes = dummies n ++ (put_u32 code ++ rest) })
        ≡ done code (record { lazy = 0; bytes = rest })
  unfolding skip_lazy_responses skip_loop on_resp lazy_count
  skip_lazy_responses-none n code rest h ne = rw (next_op_code-dummies n code rest h ne) refl

  -- Where the bytes pending and still to arrive are the responses that were left to be read, as many
  -- as the lazy count says, then the response to the request at hand, then anything, `read_response`
  -- replies with that last response, however the reads cut the bytes and whatever keepalives stand
  -- before the responses. The lazy count is 0 then, and what is pending and still to arrive is what
  -- stood behind the response. The responses are successes whose fields fit their widths.
  pub read_response-packets :
      (lazies : List Packet) (last : Packet) (rest : Bytes) (c : Conn)
      → All PacketFits lazies
      → PacketFits last
      → IsOpen c.socket
      → c.lazy_count ≡ length lazies
      → c.pending ++ arriving c.socket ≡ packets_bytes lazies ++ (packet_bytes last ++ rest)
      → (after : Conn) × (read_response gds_to_msg c ≡ replied last.response after)
        × (after.lazy_count ≡ 0)
        × (after.pending ++ arriving after.socket ≡ rest)
  unfolding read_response
  read_response-packets lazies last rest c hs hl opened count all =
      let (after, reply, (lazy, bytes)) =
        read_with-done (response_closure gds_to_msg) (Stable-response_closure gds_to_msg) c
          (length lazies) (packets_bytes lazies ++ (packet_bytes last ++ rest)) opened count all
          (response_closure-packets lazies last rest hs hl) in
      (after, reply, lazy, bytes)

  closure-nothing :
      response_closure gds_to_msg (record { lazy = 0; bytes = [] })
      ≡ failed (other missing_bytes) (record { lazy = 0; bytes = [] })
  unfolding response_closure skip_lazy_responses on_resp next_op_code rsfbclient.Reader.Loop.loop
      rsfbclient.Util.get_u32 rsfbclient.Util.copy_to_slice
  closure-nothing = refl

  -- A response that comes in one read of its own leaves the rest of the socket unread.
  pub read_response-chunk :
      (p : Packet) (socket : List Read)
      → PacketFits p
      → read_response gds_to_msg
          (record { pending = []; lazy_count = 0; socket = chunk (packet_bytes p) ∷ socket })
        ≡ replied p.response (record { pending = []; lazy_count = 0; socket = socket })
  unfolding read_response
  read_response-chunk p socket fits =
      read_with-chunk (response_closure gds_to_msg) socket 0 (packet_bytes p) p.response
        (other missing_bytes) _ (record { lazy = 0; bytes = [] }) closure-nothing refl
        (packet_some_bytes p.keepalives (response_body p.response []))
        (ap (λ bytes. response_closure gds_to_msg (record { lazy = 0; bytes = bytes }))
            (sym (append-nil (packet_bytes p)))
          ∙ response_closure-packets [] p [] tt fits)

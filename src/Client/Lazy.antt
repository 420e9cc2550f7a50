-- ===== src/Client/Lazy.antt =====
-- rsfbclient-rust/src/client.rs: keepalives, the responses that were left to be read later, and
-- `read_response`.
pub mod Stability
pub mod Order
use rsfbclient.Base.{◌==◌, if◌then◌else◌, ℕ, zero, suc, not, Bytes}
use rsfbclient.Reader.{Outcome, done, failed, Parser, ◌>>=◌, ◌>>◌, pure}
use rsfbclient.Reader.Loop.{Next, again, stop, loop}
use rsfbclient.Util.{get_u32}
use rsfbclient.Consts.Op.{WireOp, op}
use rsfbclient.Wire.Response.{err_conn_rejected, Response, parse_response}
use rsfbclient.Client.Read.{Conn, View, Reply, read_with}

pub dummy_round : Unit {0} → Parser Bytes (Next (Unit {0}) ℕ)
dummy_round _ = do
  op_code ← get_u32
  if not (op_code == op WireOp.dummy) then pure (stop op_code) else pure (again tt)

unfoldable pub next_op_code : Parser Bytes ℕ
unfolding dummy_round
next_op_code = loop dummy_round tt

abbrev pub with_bytes : {A : Type 0} → ℕ → Outcome Bytes A → Outcome View A
with_bytes lazy (done a bytes) = done a (record { lazy = lazy; bytes = bytes })
with_bytes lazy (failed e bytes) = failed e (record { lazy = lazy; bytes = bytes })

-- A parser of `resp` alone, in a closure that has the lazy count too.
unfoldable pub on_resp : {A : Type 0} → Parser Bytes A → Parser View A
on_resp p v = with_bytes v.lazy (p v.bytes)

unfoldable pub lazy_count : Parser View ℕ
lazy_count v = done v.lazy v

unfoldable pub set_lazy_count : ℕ → Parser View (Unit {0})
set_lazy_count n v = done tt (record v { lazy = n })

module _ (gds_to_msg : ℕ → Bytes) where
  -- The `while` loop: `left` is `*lazy_count`, and falls by one in each round.
  skip_loop : ℕ → ℕ → Parser View ℕ
  skip_loop zero op_code = pure op_code
  skip_loop (suc left) op_code =
      let rest : Parser View ℕ = (do
        set_lazy_count left
        _ ← on_resp (parse_response gds_to_msg)
        op_code' ← on_resp next_op_code
        skip_loop left op_code') in
      if not (op_code == op WireOp.response) then err_conn_rejected op_code else rest

  unfoldable pub skip_lazy_responses : Parser View ℕ
  unfolding skip_loop
  skip_lazy_responses = do op_code ← on_resp next_op_code; left ← lazy_count; skip_loop left op_code

  -- The closure of `read_response`.
  unfoldable pub response_closure : Parser View Response
  response_closure = do
    op_code ← skip_lazy_responses
    if not (op_code == op WireOp.response)
        then err_conn_rejected op_code
        else on_resp (parse_response gds_to_msg)

  unfoldable pub read_response : Conn → Reply Response
  unfolding response_closure
  read_response = read_with response_closure

-- ===== src/Client/Session/Statements/Preparing.antt =====
-- rsfbclient-rust/src/client.rs, `prepare_statement`: a statement whose description fits one answer.
use rsfbclient.Consts.Stmt.{StmtType, stmt_type_from}
use rsfbclient.Wire.Requests
use rsfbclient.Wire.Attach.{Dialect, dialect_code}
use rsfbclient.Xsqlda.{XSqlVar, coerce_all, xsqlda_to_blr}
use rsfbclient.Xsqlda.Parse.Columns.{VarFits}
use rsfbclient.Xsqlda.Parse.Prepared.{Description, description_bytes, parse_xsqlda-description}
use rsfbclient.Client.Read.{view_stream}
use rsfbclient.Client.Read.Reassembly.{IsOpen, read_with-done, socket_of, read_with-IsOpen}
use rsfbclient.Client.Session.{Session, Call, reading, the, request}
use rsfbclient.Client.Session.Exchange.{Holds, write_all-writable, asked}
use rsfbclient.Client.Session.Statements.{
  Prepared, learned, prepare_closure, describe_round, prepare_statement,
}
use rsfbclient.Reader.Stable.{Stable, stable_rules}
use rsfbclient.Reader.{done, ◌>>=◌, pure, lift, bytes_stream}
use rsfbclient.Reader.Loop.{Next, again, stop}
use rsfbclient.Error.{Result, ok, err}
use mathlib.Core.Path.{subst}
use rsfbclient.Wire.Accept.{answer_of}
use rsfbclient.Consts.Op.{WireOp, op}
use rsfbclient.Xsqlda.Parse.{PrepareInfo, parse_xsqlda}
use rsfbclient.Wire.Response.Laws.{Stable-parse_response, response_body}
use rsfbclient.Client.Lazy.{on_resp}
use rsfbclient.Client.Lazy.Stability.{
  Stable-next_op_code, Stable-on_resp, Stable-skip_lazy_responses,
}
use rsfbclient.Client.Lazy.Order.{
  dummies, Packet, packet_bytes, PacketFits, success, next_op_code-packet, skip_lazy_responses-none,
}
use rsfbclient.Client.Session.Turns.{carry_on, turn_loop, Spends, turn_loop_unroll}
use rsfbclient.Client.Session.Spending.{Spent, chain-Spent, request-Spent}
use rsfbclient.Base.{
  if◌then◌else◌, length, All, ℕ, ◌-◌, ◌^◌, ◌≤◌, ◌<◌, ◌≡◌, refl, Bool, true, false, List, [], ◌++◌,
  append_assoc, arith, Bytes,
}
use rsfbclient.Util.{put_u32}

again_after :
    (n : ℕ) (s : Session) (r : Result (PrepareInfo × List XSqlVar))
    → s.writes < n
    → Spent {A = Next Prepared Prepared} n ((lift r >>= λ parsed. pure (again (learned parsed))) s)
again_after n s (ok parsed) h = h
again_after n s (err e) h = tt

module _ (gds_to_msg : ℕ → Bytes) where
  Stable-prepare_closure : Stable (prepare_closure gds_to_msg)
  unfolding prepare_closure
  Stable-prepare_closure =
      search
        (
          Stable-skip_lazy_responses, Stable-on_resp, Stable-next_op_code, Stable-parse_response,
          stable_rules,
        )
        depth 20

  prepare_closure-packets :
      (alloc prepared : Packet) (rest : Bytes)
      → PacketFits alloc
      → PacketFits prepared
      → prepare_closure gds_to_msg
          (record { lazy = 0; bytes = packet_bytes alloc ++ (packet_bytes prepared ++ rest) })
        ≡ done
            (alloc.response.handle, prepared.response.contents)
            (record { lazy = 0; bytes = rest })
  unfolding prepare_closure on_resp
  prepare_closure-packets alloc prepared rest fits_alloc fits =
      let others = packet_bytes prepared ++ rest in
      rw
        (
          append_assoc (dummies alloc.keepalives)
              (put_u32 (op WireOp.response) ++ response_body alloc.response []) others,
          skip_lazy_responses-none gds_to_msg alloc.keepalives (op WireOp.response)
              (response_body alloc.response [] ++ others) (omega arith) (ground arith),
          success gds_to_msg alloc.response others fits_alloc,
          next_op_code-packet gds_to_msg prepared rest,
          success gds_to_msg prepared.response rest fits,
        )
        refl

  describe_asks-Spent :
      (handle : ℕ) (bytes : Bytes) (p : Prepared) (s : Session)
      → Spent {A = Next Prepared Prepared} s.writes (
          (request gds_to_msg bytes >>= λ resp.
          lift (answer_of (parse_xsqlda p.xsqlda resp.contents)) >>= λ parsed.
          pure (again (learned parsed)))
            s)
  describe_asks-Spent handle bytes p s =
      chain-Spent s.writes (request gds_to_msg bytes s) _ (request-Spent gds_to_msg bytes s)
        (λ resp s' h. again_after s.writes s' (answer_of (parse_xsqlda p.xsqlda resp.contents)) h)

  asks_or_stops :
      (more : Bool) (asks : Call (Next Prepared Prepared)) (p v' : Prepared) (s s' : Session)
      → Spent s.writes (asks s)
      → (if more then asks else pure (stop p)) s ≡ done (again v') s'
      → s'.writes < s.writes
  asks_or_stops true asks p v' s s' h e = subst (Spent s.writes) e h
  asks_or_stops false asks p v' s s' h e = cc

  describe_round-Spends : (handle : ℕ) → Spends (describe_round gds_to_msg handle)
  unfolding describe_round
  describe_round-Spends handle = record {
    at = λ {v} {v'} {s} {s'} e.
        asks_or_stops v.truncated _ v v' s s' (describe_asks-Spent handle _ v s) e;
  }

  -- The loop asks the server only while columns are missing.
  described_at_once :
      (handle : ℕ) (p : Prepared) (s : Session)
      → p.truncated ≡ false
      → turn_loop (describe_round gds_to_msg handle) p s ≡ done p s
  unfolding describe_round carry_on
  described_at_once handle p s e = rw (turn_loop_unroll (describe_round-Spends handle) p s, e) refl

-- The server's answers, unread: the handle of the statement, and its description, which is whole. The
-- statement's text is one that the charset encodes, the socket takes the two requests, and the columns are coerced to
-- `columns` and convert to `blr`.
pub record Describes (dialect : Dialect) (tr_handle : ℕ) (query : Bytes) (s : Session)
    (alloc prepared : Packet) (d : Description) (t : StmtType) (request_bytes : Bytes)
    (columns : List XSqlVar) (blr rest : Bytes) : Type 0 where
  pub writable : 1 < s.writes
  pub encodes :
      Requests.prepare_statement tr_handle (2 ^ 32 - 1) (dialect_code dialect) query s.charset
      ≡ ok request_bytes
  pub alloc_fits : PacketFits alloc
  pub prepared_fits : PacketFits prepared
  pub described : prepared.response.contents ≡ description_bytes d
  pub holds : Holds s (packet_bytes alloc ++ (packet_bytes prepared ++ rest))
  pub code_fits : d.code < 256
  pub code_known : stmt_type_from d.code ≡ ok t
  pub params_fit : d.params < 2 ^ 32
  pub columns_few : length d.columns ≤ 1024
  pub columns_fit : All VarFits d.columns
  pub whole : d.more ≡ false
  pub coerces : coerce_all d.columns ≡ ok columns
  pub converts : xsqlda_to_blr columns ≡ ok blr

module _ (gds_to_msg : ℕ → Bytes) where
  -- `prepare_statement` answers the type and the handle of the statement, the number of its parameters and its
  -- columns, coerced and with the blr that asks for rows, with no row fetched and the cursor not at its
  -- end. It has sent two requests, that of the statement's handle and then that of its preparation, and
  -- just the bytes behind the server's two responses are left. The responses are successes that
  -- fit their widths, the second one describes the statement whole and with columns that are supported,
  -- no response is left to be read later, the text encodes, and the socket takes the two requests and may cut the bytes
  -- anywhere.
  pub prepare_statement-description :
      (db_handle tr_handle : ℕ) (dialect : Dialect) (query : Bytes) (s : Session)
      (alloc prepared : Packet) (d : Description) (t : StmtType) (request_bytes : Bytes)
      (columns : List XSqlVar) (blr rest : Bytes)
      → Describes dialect tr_handle query s alloc prepared d t request_bytes columns blr rest
      → (s' : Session) × (prepare_statement gds_to_msg db_handle tr_handle dialect query s
          ≡ done
              (
                t,
                record {
                  handle = alloc.response.handle;
                  xsqlda = columns;
                  blr = blr;
                  param_count = d.params;
                  prefetched = [];
                  cursor_eof = false;
                },
              )
              s')
        × (s'.sent ≡ (s.sent ++ Requests.allocate_statement db_handle) ++ request_bytes)
        × (s'.writes ≡ s.writes - 2)
        × Holds s' rest
  unfolding prepare_statement reading the
  prepare_statement-description db_handle tr_handle dialect query s alloc prepared d t request_bytes
        columns blr rest h =
      let first = Requests.allocate_statement db_handle in
      let s1 : Session = record s { sent = s.sent ++ first; writes = s.writes - 1 } in
      let (after, reply, (lazy, bytes)) =
        read_with-done (prepare_closure gds_to_msg) (Stable-prepare_closure gds_to_msg) s.conn 0
          (packet_bytes alloc ++ (packet_bytes prepared ++ rest)) h.holds.opened h.holds.lazy_none
          h.holds.unread
          (prepare_closure-packets gds_to_msg alloc prepared rest h.alloc_fits h.prepared_fits) in
      let s2 : Session = asked s1 request_bytes after in
      let parsed =
        parse_xsqlda-description d t h.code_fits h.code_known h.params_fit h.columns_few
          h.columns_fit in
      (
        s2,
        rw
            (
              write_all-writable first s (omega (arith, h.writable)),
              h.encodes,
              write_all-writable request_bytes s1 (omega (arith, h.writable)),
              reply,
              h.described,
              parsed,
              described_at_once gds_to_msg alloc.response.handle
                  (record { xsqlda = d.columns; param_count = d.params; truncated = d.more }) s2
                  h.whole,
              h.coerces,
              h.converts,
            )
            refl,
        refl,
        omega arith,
        record {
          opened =
              subst (λ r. IsOpen (socket_of r)) reply
                (read_with-IsOpen (prepare_closure gds_to_msg) s.conn h.holds.opened);
          lazy_none = lazy;
          unread = bytes;
        },
      )

-- ===== src/Client/Session/Cursors.antt =====
-- rsfbclient-rust/src/client.rs, `fetch`, `fetch_batch` and `parse_one_fetch_response`: the rows of a
-- cursor, which come in batches. `fetch_batch_size()`, which reads the environment, is an argument.
pub mod Replies
pub mod Batches
pub mod Delivery
use rsfbclient.Base.{
  ◌==◌, if◌then◌else◌, length, ℕ, zero, suc, Bool, true, false, not, ◌&&◌, Option, none, some, List,
  [], ◌∷◌, ◌++◌, Bytes,
}
use rsfbclient.Charset.{Charset}
use rsfbclient.Consts.{ProtocolVersion}
use rsfbclient.Consts.Op.{WireOp, op}
use rsfbclient.Error.{unexpected_fetch_op, too_many_rows, too_many_empty_batches}
use rsfbclient.Reader.{Outcome, done, failed, Parser, ◌>>=◌, ◌>>◌, pure, fail}
use rsfbclient.Util.{advance, slice_to, get_u32}
use rsfbclient.SqlTypes.{Column}
use rsfbclient.Xsqlda.{XSqlVar}
use rsfbclient.Wire.Requests
use rsfbclient.Wire.Response.{parse_response}
use rsfbclient.Wire.Rows.{ParsedColumn, parse_fetch_response}
use rsfbclient.Client.Read.{View}
use rsfbclient.Client.Lazy.{on_resp, skip_lazy_responses}
use rsfbclient.Client.Session.{Call, write_all, reading, the}
use rsfbclient.Client.Session.Blobs.{into_columns}
use rsfbclient.Client.Session.Statements.{StmtHandleData, Held, on_session, on_stmt, the_stmt}

pub data FetchOne : Type 0 where
  row : List ParsedColumn → FetchOne
  batch_end end_of_cursor : FetchOne

-- `if resp.remaining() < n { return err_invalid_response(); }`, the test of `slice_to`.
unfoldable pub ensure : ℕ → Parser Bytes (Unit {0})
ensure n = do _ ← slice_to n; pure tt

-- A parse of a copy of the bytes.
abbrev pub kept : {A : Type 0} → Bytes → Outcome Bytes A → Outcome Bytes A
kept resp (done a s) = done a resp
kept resp (failed e s) = failed e resp

unfoldable pub peek : {A : Type 0} → Parser Bytes A → Parser Bytes A
peek p resp = kept resp (p resp)

abbrev fetch_one : Option (List ParsedColumn) → FetchOne
fetch_one none = end_of_cursor
fetch_one (some parsed) = row parsed

module _ (xsqlda : List XSqlVar) (version : ProtocolVersion) (charset : Charset) where
  -- `parse_one_fetch_response` behind its op code.
  unfoldable pub parse_fetch_body : Parser Bytes FetchOne
  parse_fetch_body = do
    ensure 8
    status ← peek get_u32
    messages ← peek (do _ ← get_u32; get_u32)
    (if status == 100
        then (do advance 8; pure end_of_cursor)
        else (if messages == 0 then (do advance 8; pure batch_end) else (do
          parsed ← parse_fetch_response xsqlda version charset
          pure (fetch_one parsed))))

  unfoldable pub parse_one_fetch_response : (ℕ → Bytes) → Parser View FetchOne
  parse_one_fetch_response gds_to_msg = do
    op_code ← skip_lazy_responses gds_to_msg
    _ ←
        (if op_code == op WireOp.response
          then (do _ ← on_resp (parse_response gds_to_msg); pure tt)
          else pure tt)
    (if not (op_code == op WireOp.fetch_response)
        then fail (unexpected_fetch_op op_code)
        else on_resp parse_fetch_body)

-- `got > count` after a row is that no row is left of the batch.
abbrev pub Batch : Type 0
Batch = List (List ParsedColumn) × Bool

-- The match on one response, with the rows so far: `more` goes on with another row.
abbrev pub batch_step :
    (List (List ParsedColumn) → Call Batch) → List (List ParsedColumn) → FetchOne → Call Batch
batch_step more rows (row cols) = more (rows ++ (cols ∷ []))
batch_step more rows batch_end = pure (rows, false)
batch_step more rows end_of_cursor = pure (rows, true)

module _ (next : Call FetchOne) where
  -- The loop of `fetch_batch`, with how many rows are left of the batch and the rows so far. It answers
  -- the rows and whether the cursor is at its end.
  unfoldable pub batch_rounds : ℕ → List (List ParsedColumn) → Call Batch
  batch_rounds zero rows = do one ← next; batch_step (λ _. fail too_many_rows) rows one
  batch_rounds (suc left) rows = do one ← next; batch_step (batch_rounds left) rows one

abbrev popped : Held → List (List Column) → Outcome Held (Option (List Column))
popped h [] = done none h
popped h (cols ∷ prefetched) =
    done (some cols) (record h { stmt = record h.stmt { prefetched = prefetched } })

-- `prefetched.pop_front()`
pub pop_front : Parser Held (Option (List Column))
pop_front h = popped h h.stmt.prefetched

abbrev pub wants_batch : StmtHandleData → Bool
wants_batch stmt = length stmt.prefetched == 0 && not stmt.cursor_eof

module _ (gds_to_msg : ℕ → Bytes) (tr_handle : ℕ) where
  -- The loop over the parsed rows, which puts each one behind the rows that are not delivered.
  unfoldable pub deliver : List (List ParsedColumn) → Parser Held (Unit {0})
  deliver [] = pure tt
  deliver (parsed ∷ rows) = do
    cols ← on_session (into_columns gds_to_msg tr_handle parsed)
    on_stmt (λ stmt. record stmt { prefetched = stmt.prefetched ++ (cols ∷ []) })
    deliver rows

  unfoldable pub fetch_batch : ℕ → Parser Held (Unit {0})
  fetch_batch count = do
    stmt ← the_stmt
    on_session (write_all (Requests.fetch stmt.handle stmt.blr count))
    version ← on_session (the (λ s. s.version))
    charset ← on_session (the (λ s. s.charset))
    batch ← on_session (
        batch_rounds (reading (parse_one_fetch_response stmt.xsqlda version charset gds_to_msg))
          count [])
    on_stmt (λ stmt. record stmt { cursor_eof = batch.1 })
    deliver batch.0

  -- The loop of `fetch`, with how many batches it may still ask for before the one that is too many.
  unfoldable pub fetch_rounds : ℕ → ℕ → Parser Held (Unit {0})
  fetch_rounds zero count = do
    stmt ← the_stmt
    (if wants_batch stmt then (do fetch_batch count; fail too_many_empty_batches) else pure tt)
  fetch_rounds (suc left) count =
      let rest = fetch_rounds left count in
      do stmt ← the_stmt; (if wants_batch stmt then (do fetch_batch count; rest) else pure tt)

  unfoldable pub fetch : ℕ → Parser Held (Option (List Column))
  unfolding pop_front
  fetch count = do fetch_rounds 1000 count; pop_front

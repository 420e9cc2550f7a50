-- ===== src/Client/Session/Statements.antt =====
-- rsfbclient-rust/src/client.rs: databases, transactions and the preparation and execution of
-- statements. `TransactionConfiguration` is that of rsfbclient-core/src/transaction.rs.
pub mod Freeing
pub mod Preparing
use rsfbclient.Base.{
  ◌%◌, ◌==◌, if◌then◌else◌, length, ℕ, ◌+◌, ◌-◌, ◌^◌, Bool, false, not, Option, some, List, [], ◌∷◌,
  ◌++◌, Bytes,
}
use rsfbclient.Charset.{Charset}
use rsfbclient.Error.{wrong_param_count}
use rsfbclient.Consts.{ProtocolVersion}
use rsfbclient.Consts.Op.{WireOp, op}
use rsfbclient.Consts.Stmt.{StmtType}
use rsfbclient.Consts.Ibase.{
  isc_info_sql_records, isc_info_sql_sqlda_start, isc_tpb_version3, isc_tpb_consistency,
  isc_tpb_concurrency, isc_tpb_wait, isc_tpb_nowait, isc_tpb_read, isc_tpb_write,
  isc_tpb_read_committed, isc_tpb_rec_version, isc_tpb_no_rec_version, isc_tpb_lock_timeout,
}
use rsfbclient.Reader.{Outcome, done, failed, Parser, ◌>>=◌, ◌>>◌, pure, fail, lift}
use rsfbclient.Reader.Loop.{Next, again, stop}
use rsfbclient.Util.{le16, le32}
use rsfbclient.SqlTypes.{SqlType, Column}
use rsfbclient.Xsqlda.{XSqlVar, coerce_all, xsqlda_to_blr}
use rsfbclient.Xsqlda.Parse.{PrepareInfo, parse_xsqlda}
use rsfbclient.Wire.Accept.{answer_of, parse_info_sql_affected_rows}
use rsfbclient.Wire.Attach.{Dialect, dialect_code}
use rsfbclient.Wire.Requests
use rsfbclient.Wire.Requests.{TrOp, FreeStmtOp, xsqlda_describe_vars}
use rsfbclient.Wire.Response.{err_conn_rejected, parse_response}
use rsfbclient.Wire.Rows.{ParsedColumn, parse_sql_response}
use rsfbclient.Client.Read.{View}
use rsfbclient.Client.Lazy.{next_op_code, on_resp, lazy_count, skip_lazy_responses}
use rsfbclient.Client.Session.{
  Session, Call, write_all, reading, the, request, request_done, request_handle,
}
use rsfbclient.Client.Session.Turns.{turn_loop}
use rsfbclient.Client.Session.Blobs.{into_columns}
use rsfbclient.Client.Session.Params.{params_to_blr}

pub data TrRecordVersion : Type 0 where
  record_version no_record_version : TrRecordVersion

pub data TrIsolationLevel : Type 0 where
  concurrency consistency : TrIsolationLevel
  read_commited : TrRecordVersion → TrIsolationLevel

pub data TrLockResolution : Type 0 where
  no_wait : TrLockResolution
  wait : Option ℕ → TrLockResolution

pub data TrDataAccessMode : Type 0 where
  read_write read_only : TrDataAccessMode

pub record TransactionConfiguration : Type 0 where
  pub data_access : TrDataAccessMode
  pub isolation : TrIsolationLevel
  pub lock_resolution : TrLockResolution

abbrev record_version_code : TrRecordVersion → ℕ
record_version_code record_version = isc_tpb_rec_version
record_version_code no_record_version = isc_tpb_no_rec_version

abbrev isolation_code : TrIsolationLevel → ℕ
isolation_code concurrency = isc_tpb_concurrency
isolation_code consistency = isc_tpb_consistency
isolation_code (read_commited _) = isc_tpb_read_committed

abbrev lock_code : TrLockResolution → ℕ
lock_code no_wait = isc_tpb_nowait
lock_code (wait _) = isc_tpb_wait

abbrev access_code : TrDataAccessMode → ℕ
access_code read_write = isc_tpb_write
access_code read_only = isc_tpb_read

abbrev lock_timeout : TrLockResolution → Bytes
lock_timeout (wait (some time)) = isc_tpb_lock_timeout ∷ 4 ∷ le32 time
lock_timeout _ = []

abbrev record_version_byte : TrIsolationLevel → Bytes
record_version_byte (read_commited rec) = record_version_code rec ∷ []
record_version_byte _ = []

-- The parameter buffer of `begin_transaction`.
unfoldable pub tpb : TransactionConfiguration → Bytes
tpb confs =
    isc_tpb_version3
    ∷ isolation_code confs.isolation
    ∷ access_code confs.data_access
    ∷ lock_code confs.lock_resolution
    ∷ (lock_timeout confs.lock_resolution ++ record_version_byte confs.isolation)

-- `StmtHandleData`
pub record StmtHandleData : Type 0 where
  pub handle : ℕ
  pub xsqlda : List XSqlVar
  pub blr : Bytes
  pub param_count : ℕ
  pub prefetched : List (List Column)
  pub cursor_eof : Bool

-- A connection, and the statement that a call has `&mut` too.
pub record Held : Type 0 where
  pub session : Session
  pub stmt : StmtHandleData

abbrev pub held : {A : Type 0} → StmtHandleData → Outcome Session A → Outcome Held A
held stmt (done a s) = done a (record { session = s; stmt = stmt })
held stmt (failed e s) = failed e (record { session = s; stmt = stmt })

unfoldable pub on_session : {A : Type 0} → Call A → Parser Held A
on_session call h = held h.stmt (call h.session)

unfoldable pub on_stmt : (StmtHandleData → StmtHandleData) → Parser Held (Unit {0})
on_stmt f h = done tt (record h { stmt = f h.stmt })

unfoldable pub the_stmt : Parser Held StmtHandleData
the_stmt h = done h.stmt h

-- `prefetched.clear()`, and no end of the cursor.
abbrev pub reopened : StmtHandleData → StmtHandleData
reopened stmt = record stmt { prefetched = []; cursor_eof = false }

-- What the loop of `prepare_statement` has learned so far.
pub record Prepared : Type 0 where
  pub xsqlda : List XSqlVar
  pub param_count : ℕ
  pub truncated : Bool

abbrev pub learned : PrepareInfo × List XSqlVar → Prepared
learned p = record { xsqlda = p.1; param_count = p.0.param_count; truncated = p.0.truncated }

-- The response to this request is read before the next one that is wanted. The count is a u32, which
-- wraps around where the checks of overflow are off.
unfoldable pub free_statement : StmtHandleData → FreeStmtOp → Call (Unit {0})
free_statement stmt stmt_op = do
  write_all (Requests.free_statement stmt.handle stmt_op)
  (λ s.
      done tt (record s { conn = record s.conn { lazy_count = (s.conn.lazy_count + 1) % 2 ^ 32 } }))

-- The test that `execute` and `execute2` begin with.
unfoldable pub checked : {A : Type 0} → List SqlType → Parser Held A → Parser Held A
checked params run = do
  stmt ← the_stmt
  (if not (length params == stmt.param_count)
      then fail (wrong_param_count stmt.param_count (length params))
      else (do on_stmt reopened; run))

module _ (gds_to_msg : ℕ → Bytes) where
  -- The closure of `prepare_statement`: the two responses, for the handle and the data.
  unfoldable pub prepare_closure : Parser View (ℕ × Bytes)
  prepare_closure = do
    op_code ← skip_lazy_responses gds_to_msg
    (if not (op_code == op WireOp.response) then err_conn_rejected op_code else (do
      alloc ← on_resp (parse_response gds_to_msg)
      op_code' ← on_resp next_op_code
      (if not (op_code' == op WireOp.response) then err_conn_rejected op_code' else (do
        resp ← on_resp (parse_response gds_to_msg)
        pure (alloc.handle, resp.contents)))))

  unfoldable pub detach_database : ℕ → Call (Unit {0})
  detach_database db_handle = request_done gds_to_msg (Requests.detach db_handle)

  unfoldable pub drop_database : ℕ → Call (Unit {0})
  drop_database db_handle = request_done gds_to_msg (Requests.drop_database db_handle)

  unfoldable pub begin_transaction : ℕ → TransactionConfiguration → Call ℕ
  begin_transaction db_handle confs =
      request_handle gds_to_msg (Requests.transaction db_handle (tpb confs))

  unfoldable pub transaction_operation : ℕ → TrOp → Call (Unit {0})
  transaction_operation tr_handle tr_op =
      request_done gds_to_msg (Requests.transaction_operation tr_handle tr_op)

  unfoldable pub exec_immediate : ℕ → Dialect → Bytes → Call (Unit {0})
  exec_immediate tr_handle dialect query = do
    charset ← the (λ s. s.charset)
    bytes ← lift (Requests.exec_immediate tr_handle (dialect_code dialect) query charset)
    request_done gds_to_msg bytes

  -- A round of the loop that asks for the columns that did not fit.
  pub describe_round : ℕ → Prepared → Call (Next Prepared Prepared)
  describe_round stmt_handle p =
      if p.truncated
      then (do
        resp ← request gds_to_msg (
            Requests.info_sql stmt_handle
              ((isc_info_sql_sqlda_start ∷ 2 ∷ le16 (length p.xsqlda)) ++ xsqlda_describe_vars))
        parsed ← lift (answer_of (parse_xsqlda p.xsqlda resp.contents))
        pure (again (learned parsed)))
      else pure (stop p)

  unfoldable pub prepare_statement : ℕ → ℕ → Dialect → Bytes → Call (StmtType × StmtHandleData)
  unfolding describe_round
  prepare_statement db_handle tr_handle dialect query = do
    write_all (Requests.allocate_statement db_handle)
    charset ← the (λ s. s.charset)
    bytes ←
        lift
          (Requests.prepare_statement tr_handle (2 ^ 32 - 1) (dialect_code dialect) query charset)
    write_all bytes
    prepared ← reading prepare_closure
    first ← lift (answer_of (parse_xsqlda [] prepared.1))
    whole ← turn_loop (describe_round prepared.0) (learned first)
    xsqlda ← lift (coerce_all whole.xsqlda)
    blr ← lift (xsqlda_to_blr xsqlda)
    pure (
      first.0.stmt_type,
      record {
        handle = prepared.0;
        xsqlda = xsqlda;
        blr = blr;
        param_count = whole.param_count;
        prefetched = [];
        cursor_eof = false;
      },
    )

  unfoldable pub execute : ℕ → List SqlType → Parser Held ℕ
  execute tr_handle params = checked params (do
    stmt ← the_stmt
    blr ← on_session (params_to_blr gds_to_msg tr_handle params)
    on_session (request_done gds_to_msg (Requests.execute tr_handle stmt.handle blr.blr blr.values))
    resp ←
        on_session (request gds_to_msg (Requests.info_sql stmt.handle (isc_info_sql_records ∷ [])))
    lift (answer_of (parse_info_sql_affected_rows resp.contents)))

  -- The closure of `execute2`.
  unfoldable pub row_closure :
      List XSqlVar → ProtocolVersion → Charset → Parser View (List ParsedColumn)
  row_closure xsqlda version charset = do
    op_code ← skip_lazy_responses gds_to_msg
    _ ←
        (if op_code == op WireOp.response
          then (do _ ← on_resp (parse_response gds_to_msg); pure tt)
          else pure tt)
    (if not (op_code == op WireOp.sql_response) then err_conn_rejected op_code else (do
      parsed_cols ← on_resp (parse_sql_response xsqlda version charset)
      _ ← on_resp (parse_response gds_to_msg)
      pure parsed_cols))

  unfoldable pub execute2 : ℕ → List SqlType → Parser Held (List Column)
  execute2 tr_handle params = checked params (do
    stmt ← the_stmt
    blr ← on_session (params_to_blr gds_to_msg tr_handle params)
    on_session (write_all (Requests.execute2 tr_handle stmt.handle blr.blr blr.values stmt.blr))
    version ← on_session (the (λ s. s.version))
    charset ← on_session (the (λ s. s.charset))
    parsed_cols ← on_session (reading (row_closure stmt.xsqlda version charset))
    on_session (into_columns gds_to_msg tr_handle parsed_cols))

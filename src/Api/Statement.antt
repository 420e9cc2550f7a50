-- ===== src/Api/Statement.antt =====
-- src/statement.rs, `StatementData`. A method answers also with the statement, the transaction and the
-- connection as it left them.
use rsfbclient.Base.{if◌then◌else◌, ℕ, Bool, true, false, Option, List, Bytes}
use rsfbclient.Consts.Stmt.{StmtType, select}
use rsfbclient.Reader.{Parser, ◌>>=◌, ◌>>◌, pure, lift}
use rsfbclient.SqlTypes.{Column}
use rsfbclient.StmtCache.Crate.{Lru}
use rsfbclient.Wire.Requests.{FreeStmtOp}
use rsfbclient.Api.Client.{FirebirdClient}
use rsfbclient.Api.Params.{ParamsType, Piece, convert, empty, parse}
use rsfbclient.Api.State.{
  on_last, asks, StatementData, Connection, Transaction, Held, Running, on_open, on_stmt, on_all,
  on_held,
}

abbrev is_select : StmtType → Bool
is_select select = true
is_select _ = false

module _ {client : FirebirdClient} {deq : Discrete Bytes}
    (lru : Lru deq (StatementData client)) where
  -- `StatementData::prepare`
  unfoldable pub prepare :
      (Bytes → List Piece) → Bytes → Bool → Parser (Transaction lru) (StatementData client)
  prepare regex raw_sql by_name = do
    let named_params = if by_name then parse regex raw_sql else empty raw_sql
    dialect ← asks (λ t. t.conn.dialect)
    (stmt_type, handle) ← on_open lru (client.prepare_statement dialect named_params.sql)
    pure (record { stmt_type = stmt_type; handle = handle; named_params = named_params })

  -- Closes the cursor, if it was open.
  unfoldable pub close_cursor : Parser (Held lru) (Unit {0})
  close_cursor = on_stmt lru (client.free_statement FreeStmtOp.close)

  -- Closes the statement, which is not used again.
  unfoldable pub close_stmt : StatementData client → Parser (Connection lru) (Unit {0})
  close_stmt stmt = on_last lru stmt (client.free_statement FreeStmtOp.drop_stmt)

  unfoldable pub query : ParamsType → Parser (Running lru) ℕ
  query params = do
    self ← asks (λ r. r.stmt)
    values ← lift (convert self.named_params params)
    on_all lru (client.execute values)

  unfoldable pub execute : ParamsType → Parser (Running lru) ℕ
  execute params = do
    rows_count ← query params
    self ← asks (λ r. r.stmt)
    (if is_select self.stmt_type
        then (do on_held lru close_cursor; pure rows_count)
        else pure rows_count)

  unfoldable pub execute2 : ParamsType → Parser (Running lru) (List Column)
  execute2 params = do
    self ← asks (λ r. r.stmt)
    values ← lift (convert self.named_params params)
    on_all lru (client.execute2 values)

  unfoldable pub fetch : Parser (Running lru) (Option (List Column))
  fetch = on_all lru client.fetch

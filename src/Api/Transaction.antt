-- ===== src/Api/Transaction.antt =====
-- src/transaction/mod.rs
use rsfbclient.Base.{ℕ, List, Bytes}
use rsfbclient.Error.{Result, ok, err}
use rsfbclient.Reader.{Outcome, done, failed, Parser, ◌>>=◌, ◌>>◌, pure, lift}
use rsfbclient.SqlTypes.{Column}
use rsfbclient.StmtCache.Crate.{Lru}
use rsfbclient.Wire.Requests.{TrOp}
use rsfbclient.Client.Session.Statements.{TransactionConfiguration}
use rsfbclient.Api.Client.{FirebirdClient}
use rsfbclient.Api.Params.{ParamsType, is_named, Piece}
use rsfbclient.Api.State.{
  attempt, ignored, asks, StatementData, TransactionData, StmtCacheData, Connection, Transaction,
  Running, on_db, on_tr, on_open, on_conn,
}
use rsfbclient.Api.Statement
use rsfbclient.Api.Cache.{get_or_prepare, insert_and_close}

module _ {client : FirebirdClient} {deq : Discrete Bytes}
    (lru : Lru deq (StatementData client)) where
  -- `TransactionData::new`
  unfoldable pub start : TransactionConfiguration → Parser (Connection lru) (TransactionData client)
  start confs = do
    handle ← on_db lru (client.begin_transaction confs)
    pure (record { handle = handle })

  -- `commit`, `commit_retaining`, `rollback_retaining` and `rollback` of `TransactionData`, by the operation.
  unfoldable pub operation : TrOp → Parser (Transaction lru) (Unit {0})
  operation tr_op = on_tr lru (client.transaction_operation tr_op)

  unfoldable pub execute_immediate : Bytes → Parser (Transaction lru) (Unit {0})
  execute_immediate sql = do
    dialect ← asks (λ t. t.conn.dialect)
    on_open lru (client.exec_immediate dialect sql)

  -- `drop`
  unfoldable pub drop_transaction : Parser (Transaction lru) (Unit {0})
  drop_transaction = ignored (operation TrOp.rollback)

  unfoldable pub after_commit : Result (Unit {0}) → Parser (Transaction lru) (Unit {0})
  after_commit (ok _) = pure tt
  after_commit (err e) = do drop_transaction; lift (err e)

  -- `commit`, which rolls back where it failed.
  unfoldable pub commit : Parser (Transaction lru) (Unit {0})
  commit = do result ← attempt (operation TrOp.commit); after_commit result

  abbrev pub ran :
      {A : Type 0}
      → Outcome (Running lru) A
      → Outcome (Transaction lru) (Result A × StatementData client)
  ran (done a r) = done (ok a, r.stmt) (record { tr = r.tr; conn = r.conn })
  ran (failed e r) = done (err e, r.stmt) (record { tr = r.tr; conn = r.conn })

  -- `let res = stmt…(self.conn, &mut self.data, …)`: the result, and the statement as it is then.
  unfoldable pub running :
      {A : Type 0}
      → StatementData client
      → Parser (Running lru) A
      → Parser (Transaction lru) (Result A × StatementData client)
  running stmt p t = ran (p (record { stmt = stmt; tr = t.tr; conn = t.conn }))

  module _ (regex : Bytes → List Piece) where
    -- A method of a cached statement, which goes back to the cache also if the method failed.
    unfoldable pub with_cached :
        {A : Type 0}
        → Bytes
        → ParamsType
        → (ParamsType → Parser (Running lru) A)
        → Parser (Transaction lru) A
    with_cached sql params method = do
      stmt_cache_data ← get_or_prepare lru regex sql (is_named params)
      (res, stmt) ← running stmt_cache_data.stmt (method params)
      on_conn lru (insert_and_close lru (record stmt_cache_data { stmt = stmt }))
      lift res

    unfoldable pub execute : Bytes → ParamsType → Parser (Transaction lru) ℕ
    execute sql params = with_cached sql params (Statement.execute lru)

    unfoldable pub execute_returnable :
        {R : Type 0} → (List Column → Result R) → Bytes → ParamsType → Parser (Transaction lru) R
    execute_returnable from_row sql params = do
      cols ← with_cached sql params (Statement.execute2 lru)
      lift (from_row cols)

    unfoldable pub queried :
        StmtCacheData client → Result ℕ → Parser (Transaction lru) (StmtCacheData client)
    queried stmt_cache_data (ok _) = pure stmt_cache_data
    queried stmt_cache_data (err e) = do
      on_conn lru (insert_and_close lru stmt_cache_data)
      lift (err e)

    -- The statement whose rows the iterator of `query_iter` fetches.
    unfoldable pub query_iter : Bytes → ParamsType → Parser (Transaction lru) (StmtCacheData client)
    query_iter sql params = do
      stmt_cache_data ← get_or_prepare lru regex sql (is_named params)
      (res, stmt) ← running stmt_cache_data.stmt (Statement.query lru params)
      queried (record stmt_cache_data { stmt = stmt }) res

-- ===== src/Api/Queries.antt =====
-- src/connection/mod.rs and src/query.rs: `execute`, `query_iter` and the iterator over the rows.
use rsfbclient.Base.{if◌then◌else◌, ℕ, Option, none, some, List, Bytes}
use rsfbclient.Error.{Result, ok, err}
use rsfbclient.Reader.{Outcome, done, failed, Parser, ◌>>=◌, ◌>>◌, pure, lift}
use rsfbclient.SqlTypes.{Column}
use rsfbclient.StmtCache.Crate.{Lru}
use rsfbclient.Wire.Requests.{TrOp}
use rsfbclient.Api.Client.{FirebirdClient}
use rsfbclient.Api.Params.{ParamsType, is_named, Piece}
use rsfbclient.Api.State.{
  asks, ignored, StatementData, StmtCacheData, Connection, Transaction, Held, on_conn,
}
use rsfbclient.Api.Statement
use rsfbclient.Api.Cache.{get_or_prepare, insert_and_close}
use rsfbclient.Api.Transaction
use rsfbclient.Api.Transaction.{operation, running}
use rsfbclient.Api.Connection.{with_transaction, use_transaction, commit}

module _ {client : FirebirdClient} {deq : Discrete Bytes}
    (lru : Lru deq (StatementData client)) where
  -- The iterator that `query_iter` answers.
  pub record StmtIter : Type 0 where
    pub stmt_cache_data : StmtCacheData client
    pub conn : Connection lru

  module _ {R : Type 0} (from_row : List Column → Result R) where
    -- `.and_then(|row| row.map(FromRow::try_from).transpose()).transpose()`
    abbrev pub row_of : Result (Option (List Column)) → Option (Result R)
    row_of (err e) = some (err e)
    row_of (ok none) = none
    row_of (ok (some cols)) = some (from_row cols)

    -- `unwrap_or_default()` on the result of `use_transaction`.
    abbrev pub or_default :
        StmtIter
        → Outcome (Connection lru) (Option (Result R) × StatementData client)
        → Option (Result R) × StmtIter
    or_default it (done (row, stmt) c) =
        (row, record { stmt_cache_data = record it.stmt_cache_data { stmt = stmt }; conn = c })
    or_default it (failed e c) = (none, record it { conn = c })

    unfoldable pub next : StmtIter → Option (Result R) × StmtIter
    next it = or_default it (
        use_transaction lru it.conn.def_confs_tr
          (do
            (res, stmt) ← running lru it.stmt_cache_data.stmt (Statement.fetch lru)
            pure (row_of res, stmt))
          it.conn)

  abbrev pub closed : {A : Type 0} → StmtIter → Outcome (Held lru) A → StmtIter
  closed it (done _ h) = record {
    stmt_cache_data = record it.stmt_cache_data { stmt = h.stmt };
    conn = h.conn;
  }
  closed it (failed _ h) = record {
    stmt_cache_data = record it.stmt_cache_data { stmt = h.stmt };
    conn = h.conn;
  }

  abbrev pub close_iter : StmtIter → StmtIter
  close_iter it =
      closed it
        (Statement.close_cursor lru (record { stmt = it.stmt_cache_data.stmt; conn = it.conn }))

  unfoldable pub given_back : StmtCacheData client → Parser (Connection lru) (Unit {0})
  given_back stmt_cache_data = do
    ignored (insert_and_close lru stmt_cache_data)
    in_transaction ← asks (λ c. c.in_transaction)
    (if in_transaction then pure tt else ignored (commit lru))

  abbrev pub left : {A : Type 0} → Outcome (Connection lru) A → Connection lru
  left (done _ c) = c
  left (failed _ c) = c

  -- The iterator goes out of scope.
  unfoldable pub drop_iter : StmtIter → Connection lru
  drop_iter it = let it' = close_iter it in left (given_back it'.stmt_cache_data it'.conn)

  abbrev pub transposed : {R : Type 0} → Option (Result R) → Parser (Connection lru) (Option R)
  transposed none = pure none
  transposed (some (ok row)) = pure (some row)
  transposed (some (err e)) = lift (err e)

  module _ (regex : Bytes → List Piece) where
    unfoldable pub queried :
        StmtCacheData client → Result ℕ → Parser (Transaction lru) (StmtCacheData client)
    queried stmt_cache_data (ok _) = pure stmt_cache_data
    queried stmt_cache_data (err e) = do
      on_conn lru (insert_and_close lru stmt_cache_data)
      in_transaction ← asks (λ t. t.conn.in_transaction)
      (if in_transaction then pure tt else ignored (operation lru TrOp.rollback_retaining))
      lift (err e)

    -- The closure of `query_iter`.
    unfoldable pub query_closure :
        Bytes → ParamsType → Parser (Transaction lru) (StmtCacheData client)
    query_closure text params = do
      stmt_cache_data ← get_or_prepare lru regex text (is_named params)
      (res, stmt) ← running lru stmt_cache_data.stmt (Statement.query lru params)
      queried (record stmt_cache_data { stmt = stmt }) res

    unfoldable pub query_iter : Bytes → ParamsType → Parser (Connection lru) (StmtCacheData client)
    query_iter text params = do
      confs ← asks (λ c. c.def_confs_tr)
      use_transaction lru confs (query_closure text params)

    unfoldable pub execute : Bytes → ParamsType → Parser (Connection lru) ℕ
    execute text params = with_transaction lru (Transaction.execute lru regex text params)

    unfoldable pub execute_returnable :
        {R : Type 0} → (List Column → Result R) → Bytes → ParamsType → Parser (Connection lru) R
    execute_returnable from_row text params =
        with_transaction lru (Transaction.execute_returnable lru regex from_row text params)

    abbrev pub first_row :
        {R : Type 0}
        → (List Column → Result R)
        → Outcome (Connection lru) (StmtCacheData client)
        → Outcome (Connection lru) (Option R)
    first_row from_row (failed e c) = failed e c
    first_row from_row (done stmt_cache_data c) =
        let (row, it) = next from_row (record { stmt_cache_data = stmt_cache_data; conn = c }) in
        transposed row (drop_iter it)

    -- `query_first`: the first row, behind which the iterator is dropped.
    unfoldable pub query_first :
        {R : Type 0}
        → (List Column → Result R)
        → Bytes
        → ParamsType
        → Parser (Connection lru) (Option R)
    query_first from_row text params c = first_row from_row (query_iter text params c)

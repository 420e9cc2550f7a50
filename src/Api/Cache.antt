-- ===== src/Api/Cache.antt =====
-- src/connection/stmt_cache.rs: the cache as a connection uses it.
use rsfbclient.Base.{Bool, Option, List, [], ◌∷◌, Bytes}
use rsfbclient.Error.{text_not_cached, other}
use rsfbclient.Reader.{Outcome, done, failed, Parser, ◌>>=◌, ◌>>◌, pure}
use rsfbclient.StmtCache
use rsfbclient.StmtCache.Crate.{Lru}
use rsfbclient.StmtCache.{StmtCache, Got, got, absent, panicked}
use rsfbclient.Api.Client.{FirebirdClient}
use rsfbclient.Api.Params.{Piece}
use rsfbclient.Api.State.{
  ignored, asks, modify, StatementData, StmtCacheData, Connection, Transaction, on_conn,
}
use rsfbclient.Api.Statement.{prepare, close_stmt}

module _ {client : FirebirdClient} {deq : Discrete Bytes}
    (lru : Lru deq (StatementData client)) where
  unfoldable pub put_cache : StmtCache lru → Connection lru → Connection lru
  put_cache cache c = record c { stmt_cache = cache }

  -- `stmt_cache.get(sql)` on the connection. The `unwrap` of the code panics where the text is missing.
  abbrev pub found :
      Connection lru → Got lru → Outcome (Connection lru) (Option (StmtCacheData client))
  found c (got sql stmt cache) =
      done (Option.some (record { sql = sql; stmt = stmt })) (put_cache cache c)
  found c (absent cache) = done Option.none (put_cache cache c)
  found c panicked = failed (other text_not_cached) c

  unfoldable pub cached : Bytes → Parser (Connection lru) (Option (StmtCacheData client))
  cached sql c = found c (StmtCache.get lru sql c.stmt_cache)

  unfoldable pub prepare_for :
      (Bytes → List Piece)
      → Bytes
      → Bool
      → Option (StmtCacheData client)
      → Parser (Transaction lru) (StmtCacheData client)
  prepare_for regex sql by_name (Option.some known) = pure known
  prepare_for regex sql by_name Option.none = do
    stmt ← prepare lru regex sql by_name
    pure (record { sql = sql; stmt = stmt })

  unfoldable pub get_or_prepare :
      (Bytes → List Piece) → Bytes → Bool → Parser (Transaction lru) (StmtCacheData client)
  get_or_prepare regex sql by_name = do
    known ← on_conn lru (cached sql)
    prepare_for regex sql by_name known

  -- `stmt.close(conn)?` on each.
  unfoldable pub close_each : List (StatementData client) → Parser (Connection lru) (Unit {0})
  close_each [] = pure tt
  close_each (stmt ∷ stmts) = do close_stmt lru stmt; close_each stmts

  -- `stmt.close(conn).ok()` on each.
  unfoldable pub try_close_each : List (StatementData client) → Parser (Connection lru) (Unit {0})
  try_close_each [] = pure tt
  try_close_each (stmt ∷ stmts) = do ignored (close_stmt lru stmt); try_close_each stmts

  unfoldable pub insert_and_close : StmtCacheData client → Parser (Connection lru) (Unit {0})
  insert_and_close d = do
    cache ← asks (λ c. c.stmt_cache)
    let (old, cache') = StmtCache.insert_and_close lru d.sql d.stmt cache
    modify (put_cache cache')
    close_each old

  unfoldable pub close_all : Parser (Connection lru) (Unit {0})
  close_all = do
    cache ← asks (λ c. c.stmt_cache)
    let (old, cache') = StmtCache.close_all lru cache
    modify (put_cache cache')
    try_close_each old

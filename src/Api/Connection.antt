-- ===== src/Api/Connection.antt =====
-- src/connection/mod.rs: opening, closing and the default transaction of a connection.
use rsfbclient.Base.{ℕ, Bool, true, false, Option, none, some, Bytes}
use rsfbclient.Error.{Result, ok, err}
use rsfbclient.Reader.{Outcome, done, failed, Parser, ◌>>=◌, ◌>>◌, pure, lift}
use rsfbclient.StmtCache
use rsfbclient.StmtCache.Crate.{Lru}
use rsfbclient.Wire.Attach.{Dialect}
use rsfbclient.Wire.Requests.{TrOp}
use rsfbclient.Client.Session.Statements.{TransactionConfiguration}
use rsfbclient.Api.Client.{FirebirdClient}
use rsfbclient.Api.State.{
  ignored, attempt, asks, modify, StatementData, TransactionData, Connection, Transaction, on_db,
}
use rsfbclient.Api.Cache.{close_all}
use rsfbclient.Api.Transaction.{start, operation, drop_transaction}

pub record ConnectionConfiguration (A : Type 0) : Type 0 where
  pub attachment_conf : A
  pub dialect : Dialect
  pub no_db_triggers : Bool
  pub stmt_cache_size : ℕ
  pub transaction_conf : TransactionConfiguration

module _ {client : FirebirdClient} {deq : Discrete Bytes}
    (lru : Lru deq (StatementData client)) where
  -- The literal that `open` and `create_database` end with.
  abbrev pub connected :
      ConnectionConfiguration client.AttachmentConfig
      → Outcome client.Client client.DbHandle
      → Result (Connection lru)
  connected conf (failed e cli) = err e
  connected conf (done handle cli) = ok (record {
    handle = handle;
    dialect = conf.dialect;
    stmt_cache = StmtCache.new lru conf.stmt_cache_size;
    def_tr = none;
    in_transaction = false;
    cli = cli;
    def_confs_tr = conf.transaction_conf;
  })

  unfoldable pub open_connection :
      client.Client → ConnectionConfiguration client.AttachmentConfig → Result (Connection lru)
  open_connection cli conf =
      connected conf
        (client.attach_database conf.attachment_conf conf.dialect conf.no_db_triggers cli)

  unfoldable pub create_database :
      client.Client
      → ConnectionConfiguration client.AttachmentConfig
      → Option ℕ
      → Result (Connection lru)
  create_database cli conf page_size =
      connected conf (client.create_database conf.attachment_conf page_size conf.dialect cli)

  abbrev pub finished : {A : Type 0} → Outcome (Transaction lru) A → Connection lru
  finished (done _ t) = t.conn
  finished (failed _ t) = t.conn

  -- A transaction goes out of scope.
  unfoldable pub rolled_back : TransactionData client → Connection lru → Connection lru
  rolled_back tr c = finished (drop_transaction lru (record { tr = tr; conn = c }))

  abbrev pub owned :
      {A : Type 0}
      → Outcome (Transaction lru) A
      → Outcome (Connection lru) (A × TransactionData client)
  owned (done a t) = done (a, t.tr) t.conn
  owned (failed e t) = failed e (rolled_back t.tr t.conn)

  -- A transaction over the connection, taken apart again by `from_transaction`. Where `?` leaves the
  -- block, the transaction is dropped.
  unfoldable pub owning :
      {A : Type 0}
      → TransactionData client
      → Parser (Transaction lru) A
      → Parser (Connection lru) (A × TransactionData client)
  owning tr body c = owned (body (record { tr = tr; conn = c }))

  unfoldable pub taken_or_started :
      TransactionConfiguration
      → Option (TransactionData client)
      → Parser (Connection lru) (TransactionData client)
  taken_or_started confs (some tr) = pure tr
  taken_or_started confs none = start lru confs

  -- `self.def_tr.take()`, or a new transaction.
  unfoldable pub take_or_start :
      TransactionConfiguration → Parser (Connection lru) (TransactionData client)
  take_or_start confs = do
    def_tr ← asks (λ c. c.def_tr)
    modify (λ c. record c { def_tr = none })
    taken_or_started confs def_tr

  abbrev pub replaced : Option (TransactionData client) → Connection lru → Connection lru
  replaced none c = c
  replaced (some tr) c = rolled_back tr c

  -- `self.def_tr.replace(tr)`, with the rollback of a transaction that stood there.
  unfoldable pub keep : TransactionData client → Connection lru → Connection lru
  keep tr c = replaced c.def_tr (record c { def_tr = some tr })

  unfoldable pub settled : {T : Type 0} → Bool → Result T → Parser (Transaction lru) (Unit {0})
  settled true res = pure tt
  settled false (ok _) = operation lru TrOp.commit_retaining
  settled false (err _) = operation lru TrOp.rollback_retaining

  unfoldable pub with_transaction_config :
      {T : Type 0}
      → TransactionConfiguration
      → Parser (Transaction lru) T
      → Parser (Connection lru) T
  with_transaction_config confs closure = do
    in_transaction ← asks (λ c. c.in_transaction)
    tr ← take_or_start confs
    (res, tr') ← owning tr (do res ← attempt closure; settled in_transaction res; pure res)
    modify (keep tr')
    lift res

  unfoldable pub with_transaction :
      {T : Type 0} → Parser (Transaction lru) T → Parser (Connection lru) T
  with_transaction closure = do
    confs ← asks (λ c. c.def_confs_tr)
    with_transaction_config confs closure

  unfoldable pub use_transaction :
      {T : Type 0}
      → TransactionConfiguration
      → Parser (Transaction lru) T
      → Parser (Connection lru) T
  use_transaction confs closure = do
    tr ← take_or_start confs
    (res, tr') ← owning tr (attempt closure)
    modify (keep tr')
    lift res

  unfoldable pub begin_transaction_config :
      TransactionConfiguration → Parser (Connection lru) (Unit {0})
  begin_transaction_config custom_confs = do
    use_transaction custom_confs (pure tt)
    modify (λ c. record c { in_transaction = true })

  unfoldable pub begin_transaction : Parser (Connection lru) (Unit {0})
  begin_transaction = do confs ← asks (λ c. c.def_confs_tr); begin_transaction_config confs

  -- `commit` and `rollback`, by the operation.
  unfoldable pub end_transaction : TrOp → Parser (Connection lru) (Unit {0})
  end_transaction tr_op = do
    modify (λ c. record c { in_transaction = false })
    confs ← asks (λ c. c.def_confs_tr)
    use_transaction confs (operation lru tr_op)

  unfoldable pub commit : Parser (Connection lru) (Unit {0})
  commit = end_transaction TrOp.commit_retaining

  unfoldable pub rollback : Parser (Connection lru) (Unit {0})
  rollback = end_transaction TrOp.rollback_retaining

  abbrev pub rolled_back_default : Option (TransactionData client) → Connection lru → Connection lru
  rolled_back_default none c = c
  rolled_back_default (some tr) c = rolled_back tr (record c { def_tr = none })

  -- The default transaction is taken and rolled back.
  unfoldable pub drop_default : Connection lru → Connection lru
  drop_default c = rolled_back_default c.def_tr c

  unfoldable pub cleanup_and_detach : Parser (Connection lru) (Unit {0})
  cleanup_and_detach = do close_all lru; modify drop_default; on_db lru client.detach_database

  -- `close`, after which the connection is forgotten.
  unfoldable pub close : Parser (Connection lru) (Unit {0})
  close = cleanup_and_detach

  -- The connection goes out of scope behind the request, and is cleaned up even so.
  unfoldable pub drop_database : Parser (Connection lru) (Unit {0})
  drop_database = do
    res ← attempt (on_db lru client.drop_database)
    ignored cleanup_and_detach
    lift res

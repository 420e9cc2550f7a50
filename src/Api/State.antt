-- ===== src/Api/State.antt =====
-- src/connection/mod.rs, src/transaction/mod.rs and src/statement.rs: what a connection, a transaction
-- and a statement hold, and the calls of the client on the parts that it borrows.
use rsfbclient.Base.{Bool, Option, Bytes}
use rsfbclient.Error.{Result, ok, err}
use rsfbclient.Consts.Stmt.{StmtType}
use rsfbclient.Reader.{Outcome, done, failed, Parser, ◌>>=◌, pure}
use rsfbclient.StmtCache.{StmtCache}
use rsfbclient.StmtCache.Crate.{Lru}
use rsfbclient.Wire.Attach.{Dialect}
use rsfbclient.Client.Session.Statements.{TransactionConfiguration}
use rsfbclient.Api.Client.{FirebirdClient}
use rsfbclient.Api.Params.{NamedParams}

module _ {S V A : Type 0} where
  abbrev pub put_back : (V → S → S) → S → Outcome V A → Outcome S A
  put_back put s (done a v) = done a (put v s)
  put_back put s (failed e v) = failed e (put v s)

  -- A call on a part of the state.
  abbrev pub focus : (S → V) → (V → S → S) → Parser V A → Parser S A
  focus get put p s = put_back put s (p (get s))

module _ {S A : Type 0} where
  abbrev pub kept : Outcome S A → Outcome S (Result A)
  kept (done a s) = done (ok a) s
  kept (failed e s) = done (err e) s

  -- A result that is looked at later, `let res = …`.
  abbrev pub attempt : Parser S A → Parser S (Result A)
  attempt p s = kept (p s)

  -- `.ok()` on a result that is dropped.
  abbrev pub ignored : Parser S A → Parser S (Unit {0})
  ignored p = do _ ← attempt p; pure tt

  abbrev pub asks : (S → A) → Parser S A
  asks f s = done (f s) s

abbrev pub modify : {S : Type 0} → (S → S) → Parser S (Unit {0})
modify f s = done tt (f s)

module _ (client : FirebirdClient) where
  pub record StatementData : Type 0 where
    pub handle : client.StmtHandle
    pub stmt_type : StmtType
    pub named_params : NamedParams

  pub record TransactionData : Type 0 where
    pub handle : client.TrHandle

  -- A statement with the text that it is cached under.
  pub record StmtCacheData : Type 0 where
    pub sql : Bytes
    pub stmt : StatementData

module _ {client : FirebirdClient} {deq : Discrete Bytes}
    (lru : Lru deq (StatementData client)) where
  pub record Connection : Type 0 where
    pub handle : client.DbHandle
    pub dialect : Dialect
    pub stmt_cache : StmtCache lru
    pub def_tr : Option (TransactionData client)
    pub in_transaction : Bool
    pub cli : client.Client
    pub def_confs_tr : TransactionConfiguration

  pub record Transaction : Type 0 where
    pub tr : TransactionData client
    pub conn : Connection

  -- A statement with the connection that its method is given.
  pub record Held : Type 0 where
    pub stmt : StatementData client
    pub conn : Connection

  -- A statement with the transaction and the connection that its method is given.
  pub record Running : Type 0 where
    pub stmt : StatementData client
    pub tr : TransactionData client
    pub conn : Connection

  module _ {A : Type 0} where
    unfoldable pub on_db : Parser (client.Client × client.DbHandle) A → Parser Connection A
    on_db =
        focus (λ c. (c.cli, c.handle)) (λ (cli, handle) c. record c { cli = cli; handle = handle })

    unfoldable pub on_tr : Parser (client.Client × client.TrHandle) A → Parser Transaction A
    on_tr =
        focus (λ t. (t.conn.cli, t.tr.handle))
          (λ (cli, handle) t. record t {
            tr = record { handle = handle };
            conn = record t.conn { cli = cli };
          })

    unfoldable pub on_open :
        Parser (client.Client × client.DbHandle × client.TrHandle) A → Parser Transaction A
    on_open =
        focus (λ t. (t.conn.cli, t.conn.handle, t.tr.handle))
          (λ (cli, db, handle) t. record t {
            tr = record { handle = handle };
            conn = record t.conn { cli = cli; handle = db };
          })

    unfoldable pub on_stmt : Parser (client.Client × client.StmtHandle) A → Parser Held A
    on_stmt =
        focus (λ h. (h.conn.cli, h.stmt.handle))
          (λ (cli, handle) h. record h {
            stmt = record h.stmt { handle = handle };
            conn = record h.conn { cli = cli };
          })

    unfoldable pub on_all :
        Parser (client.Client × client.DbHandle × client.TrHandle × client.StmtHandle) A
        → Parser Running A
    on_all =
        focus (λ r. (r.conn.cli, r.conn.handle, r.tr.handle, r.stmt.handle))
          (λ (cli, db, tr, handle) r. record r {
            stmt = record r.stmt { handle = handle };
            tr = record { handle = tr };
            conn = record r.conn { cli = cli; handle = db };
          })

    unfoldable pub on_conn : Parser Connection A → Parser Transaction A
    on_conn = focus (λ t. t.conn) (λ conn t. record t { conn = conn })

    unfoldable pub on_held : Parser Held A → Parser Running A
    on_held =
        focus (λ r. record { stmt = r.stmt; conn = r.conn })
          (λ h r. record r { stmt = h.stmt; conn = h.conn })

    -- A statement that is not used again.
    unfoldable pub on_last :
        StatementData client → Parser (client.Client × client.StmtHandle) A → Parser Connection A
    on_last stmt = focus (λ c. (c.cli, stmt.handle)) (λ (cli, _) c. record c { cli = cli })

-- ===== src/Api/Reuse.antt =====
-- src/connection/mod.rs: what the calls on a connection do where it has a default transaction.
use rsfbclient.Base.{◌≡◌, refl, sym, ap, true, Option, none, some, List, Bytes}
use rsfbclient.Error.{Result, err}
use rsfbclient.Reader.{Outcome, done, failed, Parser, chain, pure, lift}
use rsfbclient.SqlTypes.{Column}
use rsfbclient.StmtCache.Crate.{Lru}
use rsfbclient.Client.Session.Statements.{TransactionConfiguration}
use rsfbclient.Api.Client.{FirebirdClient}
use rsfbclient.Api.State.{
  kept, put_back, on_all, StatementData, TransactionData, Connection, Transaction, Running,
}
use rsfbclient.Api.Statement
use rsfbclient.Api.Transaction.{running, ran}
use rsfbclient.Api.Connection.{
  owned, owning, taken_or_started, take_or_start, keep, use_transaction, begin_transaction_config,
}
use rsfbclient.Api.Queries.{StmtIter, next, or_default, row_of}

module _ {client : FirebirdClient} {deq : Discrete Bytes}
    (lru : Lru deq (StatementData client)) where
  taken :
      (confs : TransactionConfiguration) (def_tr : Option (TransactionData client))
      (c : Connection lru) {tr : TransactionData client}
      → def_tr ≡ some tr
      → taken_or_started lru confs def_tr c ≡ done tr c
  unfolding taken_or_started
  taken confs none c h = cc
  taken confs (some tr) c h =
      ap (λ (o : Option (TransactionData client)). done (elim o [ some t ↦ t | none ↦ tr ]) c) h

  use_transaction-taken :
      {T : Type 0} (confs : TransactionConfiguration) (closure : Parser (Transaction lru) T)
      (c : Connection lru) (tr : TransactionData client)
      → c.def_tr ≡ some tr
      → use_transaction lru confs closure c
        ≡ chain
            (owned lru (kept (closure (record { tr = tr; conn = record c { def_tr = none } }))))
            (λ p c'. lift p.0 (keep lru p.1 c'))
  unfolding use_transaction take_or_start owning
  use_transaction-taken confs closure c tr h =
      rw (taken confs c.def_tr (record c { def_tr = none }) h) refl

  -- With a default transaction the configuration given to `begin_transaction_config` is not used: no
  -- transaction is started, the client is not called, and the connection is marked only.
  pub begin_transaction_config-reuses :
      (confs : TransactionConfiguration) (c : Connection lru) (tr : TransactionData client)
      → c.def_tr ≡ some tr
      → begin_transaction_config lru confs c ≡ done tt (record c { in_transaction = true })
  unfolding begin_transaction_config keep
  begin_transaction_config-reuses confs c tr h =
      rw (use_transaction-taken confs (pure tt) c tr h)
        (ap (λ d. done tt (record c { def_tr = d; in_transaction = true })) (sym h))

  module _ {R : Type 0} (from_row : List Column → Result R) where
    -- The iterator behind a fetch, with what the client, which had the transaction and the statement,
    -- left.
    abbrev pub fetched_on :
        StmtIter lru
        → client.Client × client.DbHandle × client.TrHandle × client.StmtHandle
        → StmtIter lru
    fetched_on it (cli, db, tr, handle) = record {
      stmt_cache_data = record it.stmt_cache_data {
        stmt = record it.stmt_cache_data.stmt { handle = handle };
      };
      conn = record it.conn { cli = cli; handle = db; def_tr = some (record { handle = tr }) };
    }

    -- What `next` makes of the answer of the client.
    abbrev pub passed_on :
        StmtIter lru
        → Outcome
            (client.Client × client.DbHandle × client.TrHandle × client.StmtHandle)
            (Option (List Column))
        → Option (Result R) × StmtIter lru
    passed_on it (done (some cols) left) = (some (from_row cols), fetched_on it left)
    passed_on it (done none left) = (none, fetched_on it left)
    passed_on it (failed e left) = (some (err e), fetched_on it left)

    passed :
        (it : StmtIter lru) (tr : TransactionData client)
        (o : Outcome
          (client.Client × client.DbHandle × client.TrHandle × client.StmtHandle)
          (Option (List Column)))
        → or_default lru from_row it (
            chain
              (owned lru (
                kept (
                  chain
                    (ran lru (
                      put_back
                        (λ ((cli, db, t, handle) : client.Client × client.DbHandle × client.TrHandle
                              × client.StmtHandle)
                            (r : Running lru).
                          record r {
                            stmt = record r.stmt { handle = handle };
                            tr = record { handle = t };
                            conn = record r.conn { cli = cli; handle = db };
                          })
                        (record {
                          stmt = it.stmt_cache_data.stmt;
                          tr = tr;
                          conn = record it.conn { def_tr = none };
                        })
                        o))
                    (λ (res, stmt). pure (row_of lru from_row res, stmt)))))
              (λ p c'. lift p.0 (keep lru p.1 c')))
          ≡ passed_on it o
    unfolding keep
    passed it tr (done (some cols) v) = refl
    passed it tr (done none v) = refl
    passed it tr (failed e v) = refl

    -- With the default transaction that `query_iter` leaves, `next` answers what the client does: a row
    -- as it is converted, none at the end, and an error as an error, never as the end of the rows. The
    -- transaction is the default one again.
    pub next-fetch :
        (it : StmtIter lru) (tr : TransactionData client)
        → it.conn.def_tr ≡ some tr
        → next lru from_row it
          ≡ passed_on it (
              client.fetch (it.conn.cli, it.conn.handle, tr.handle, it.stmt_cache_data.stmt.handle))
    unfolding next running Statement.fetch on_all
    next-fetch it tr h = rw (use_transaction-taken it.conn.def_confs_tr _ it.conn tr h) (
        passed it tr
          (client.fetch (it.conn.cli, it.conn.handle, tr.handle, it.stmt_cache_data.stmt.handle)))

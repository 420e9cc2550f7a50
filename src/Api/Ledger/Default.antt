-- ===== src/Api/Ledger/Default.antt =====
-- src/connection/mod.rs: what the calls on the default transaction add to the record.
use rsfbclient.Base.{◌≡◌, refl, ap, Bool, true, false, Option, none, some, ◌∷◌, Bytes}
use rsfbclient.Reader.{Outcome, done, failed, chain, pure}
use rsfbclient.StmtCache.Crate.{Lru}
use rsfbclient.Wire.Requests.{TrOp}
use rsfbclient.Client.Session.Statements.{TransactionConfiguration}
use rsfbclient.Api.Client.{FirebirdClient}
use rsfbclient.Api.State.{
  kept, put_back, StatementData, TransactionData, Connection, Transaction, on_tr, on_db,
}
use rsfbclient.Api.Transaction.{start, operation, drop_transaction}
use rsfbclient.Api.Connection.{
  finished, rolled_back, taken_or_started, take_or_start, replaced, keep,
}
use rsfbclient.Api.Keeps.{After, After-chain}
use rsfbclient.Api.Ledger.{began, operated, Log, noting_start, noting, regrouped, logged}
use rsfbclient.Api.Ledger.Calls.{in_conn, in_tr}

module _ (client : FirebirdClient) {deq : Discrete Bytes}
    (lru : Lru deq (StatementData (logged client))) where
  -- The whole record, and the default transaction with its mark.
  abbrev pub State : Type 0
  State = Log × Option (TransactionData (logged client)) × Bool

  abbrev pub of_conn : Connection lru → State
  of_conn = in_conn client lru (λ log. log)

  abbrev pub of_tr : Transaction lru → State
  of_tr = in_tr client lru (λ log. log)

  abbrev pub Operated : TrOp → State → Outcome (Transaction lru) (Unit {0}) → Type 0
  Operated tr_op (log, def_tr, mark) =
      After (λ _ t. of_tr t ≡ (operated tr_op true ∷ log, def_tr, mark))
        (λ _ t. of_tr t ≡ (operated tr_op false ∷ log, def_tr, mark))

  noted :
      (tr_op : TrOp) (t : Transaction lru)
      (o : Outcome (client.Client × client.TrHandle) (Unit {0}))
      → Operated tr_op (of_tr t) (
          put_back
            (λ ((cli, handle) : (client.Client × Log) × client.TrHandle) (s : Transaction lru).
              record s { tr = record { handle = handle }; conn = record s.conn { cli = cli } })
            t
            (regrouped (noting tr_op o t.conn.cli.1)))
  noted tr_op t (done _ s) = record { holds = refl }
  noted tr_op t (failed e s) = record { holds = refl }

  pub operation-Operated :
      (tr_op : TrOp) (t : Transaction lru) → Operated tr_op (of_tr t) (operation lru tr_op t)
  unfolding operation on_tr
  operation-Operated tr_op t =
      noted tr_op t (client.transaction_operation tr_op (t.conn.cli.0, t.tr.handle))

  -- The record with the start of a transaction, if there was none.
  abbrev pub with_start : Option (TransactionData (logged client)) → Log → Log
  with_start none log = began ∷ log
  with_start (some _) log = log

  started_at :
      (c : Connection lru) (o : Outcome (client.Client × client.DbHandle) client.TrHandle)
      → After
          (λ _ c'. of_conn c' ≡ (began ∷ c.cli.1, c.def_tr, c.in_transaction))
          (λ _ c'. of_conn c' ≡ of_conn c)
          (put_back
            (λ ((cli, handle) : (client.Client × Log) × client.DbHandle) (s : Connection lru).
              record s { cli = cli; handle = handle })
            c
            (regrouped (noting_start o c.cli.1)))
  started_at c (done _ s) = record { holds = refl }
  started_at c (failed e s) = record { holds = refl }

  pub start-State :
      (confs : TransactionConfiguration) (c : Connection lru)
      → After
          (λ _ c'. of_conn c' ≡ (began ∷ c.cli.1, c.def_tr, c.in_transaction))
          (λ _ c'. of_conn c' ≡ of_conn c)
          (start lru confs c)
  unfolding start on_db
  start-State confs c =
      After-chain _ _ (started_at c (client.begin_transaction confs (c.cli.0, c.handle)))
        (λ handle s e. record { holds = e })

  taken_or_started-State :
      (confs : TransactionConfiguration) (def_tr : Option (TransactionData (logged client)))
      (c : Connection lru)
      → c.def_tr ≡ none
      → After
          (λ _ c'. of_conn c' ≡ (with_start def_tr c.cli.1, none, c.in_transaction))
          (λ _ c'. of_conn c' ≡ (c.cli.1, none, c.in_transaction))
          (taken_or_started lru confs def_tr c)
  unfolding taken_or_started
  taken_or_started-State confs (some tr) c h = record { holds = rw h refl }
  taken_or_started-State confs none c h = rw (← h) (start-State confs c)

  -- The default transaction is taken, or one is started; if that fails there is none.
  pub take_or_start-State :
      (confs : TransactionConfiguration) (c : Connection lru)
      → After
          (λ _ c'. of_conn c' ≡ (with_start c.def_tr c.cli.1, none, c.in_transaction))
          (λ _ c'. of_conn c' ≡ (c.cli.1, none, c.in_transaction))
          (take_or_start lru confs c)
  unfolding take_or_start
  take_or_start-State confs c =
      taken_or_started-State confs c.def_tr (record c { def_tr = none }) refl

  finished-conn :
      (log : Log) (def_tr : Option (TransactionData (logged client))) (mark : Bool)
      (o : Outcome (Transaction lru) (Unit {0}))
      → Operated TrOp.rollback (log, def_tr, mark) o
      → (b : Bool) × (of_conn (finished lru (chain (kept o) (λ _. pure tt)))
          ≡ (operated TrOp.rollback b ∷ log, def_tr, mark))
  finished-conn log def_tr mark (done _ t) h = (true, h.holds)
  finished-conn log def_tr mark (failed e t) h = (false, h.holds)

  -- A transaction that goes out of scope is rolled back, with success or not.
  pub rolled_back-State :
      (tr : TransactionData (logged client)) (c : Connection lru)
      → (b : Bool) × (of_conn (rolled_back lru tr c)
          ≡ (operated TrOp.rollback b ∷ c.cli.1, c.def_tr, c.in_transaction))
  unfolding rolled_back drop_transaction
  rolled_back-State tr c =
      finished-conn c.cli.1 c.def_tr c.in_transaction _
        (operation-Operated TrOp.rollback (record { tr = tr; conn = c }))

  replaced-State :
      (def_tr : Option (TransactionData (logged client))) (c : Connection lru)
      → def_tr ≡ none
      → replaced lru def_tr c ≡ c
  replaced-State none c h = refl
  replaced-State (some tr) c h = cc

  -- The rollback that should never happen does not happen where the default transaction was taken.
  pub keep-State :
      (tr : TransactionData (logged client)) (c : Connection lru)
      → c.def_tr ≡ none
      → of_conn (keep lru tr c) ≡ (c.cli.1, some tr, c.in_transaction)
  unfolding keep
  keep-State tr c h = ap of_conn (replaced-State c.def_tr (record c { def_tr = some tr }) h)

-- ===== src/Api/Ledger/Balance/Uses.antt =====
-- src/connection/mod.rs: the calls on a connection keep the balance of its transactions.
use rsfbclient.Base.{ℕ, ◌≡◌, refl, Bool, true, false, Option, List, ◌∷◌, Bytes}
use rsfbclient.Error.{Result, ok, err}
use rsfbclient.Reader.{Outcome, done, failed, Parser, chain, pure}
use rsfbclient.SqlTypes.{Column}
use rsfbclient.StmtCache.Crate.{Lru}
use rsfbclient.Wire.Requests.{TrOp}
use rsfbclient.Client.Session.Statements.{TransactionConfiguration}
use rsfbclient.Api.Client.{FirebirdClient}
use rsfbclient.Api.Params.{ParamsType, Piece}
use rsfbclient.Api.State.{modify, StatementData, StmtCacheData, Connection, Transaction}
use rsfbclient.Api.Transaction.{operation}
use rsfbclient.Api.Connection.{
  settled, with_transaction_config, with_transaction, use_transaction, begin_transaction_config,
  end_transaction, commit, rollback,
}
use rsfbclient.Api.Queries
use rsfbclient.Api.Queries.{
  StmtIter, next, or_default, row_of, close_iter, closed, given_back, left, drop_iter, queried,
  query_closure, query_iter,
}
use rsfbclient.Api.Keeps.{
  Keeps, Keeps-bind, Keeps-pure, Keeps-lift, Keeps-asks, Keeps-attempt, Keeps-ignored, Keeps-if,
  keeps_rules, state_of,
}
use rsfbclient.Api.Ledger.{operated, Log, noting, regrouped, logged}
use rsfbclient.Api.Ledger.Calls.{
  in_tr, on_tr-Keeps, on_conn-Keeps, running-Keeps, fetch-Keeps, query-Keeps, get_or_prepare-Keeps,
  insert_and_close-Keeps, tr_execute-Keeps, tr_execute_returnable-Keeps,
}
use rsfbclient.Api.Ledger.Balance.{counts, IsBalanced, taking-IsBalanced}

module _ (client : FirebirdClient) {deq : Discrete Bytes}
    (lru : Lru deq (StatementData (logged client))) where
  -- An operation that keeps the transaction open does not count.
  retained :
      (tr_op : TrOp) (log : Log) (o : Outcome (client.Client × client.TrHandle) (Unit {0}))
      → ((b : Bool) → counts (operated tr_op b ∷ log) ≡ counts log)
      → counts (state_of (regrouped (noting tr_op o log))).0.1 ≡ counts log
  retained tr_op log (done _ s) h = h true
  retained tr_op log (failed e s) h = h false

  pub retaining-Keeps :
      (tr_op : TrOp)
      → ((log : Log) (b : Bool) → counts (operated tr_op b ∷ log) ≡ counts log)
      → Keeps (in_tr client lru counts) (operation lru tr_op)
  unfolding operation
  retaining-Keeps tr_op h = on_tr-Keeps client lru counts _ (record {
    at = λ s. retained tr_op s.0.1 (client.transaction_operation tr_op (s.0.0, s.1)) (h s.0.1);
  })

  settled-Keeps :
      {T : Type 0} (mark : Bool) (res : Result T)
      → Keeps (in_tr client lru counts) (settled lru mark res)
  unfolding settled
  settled-Keeps true res = Keeps-pure tt
  settled-Keeps false (ok _) = retaining-Keeps TrOp.commit_retaining (λ log b. refl)
  settled-Keeps false (err _) = retaining-Keeps TrOp.rollback_retaining (λ log b. refl)

  pub with_transaction_config-IsBalanced :
      {T : Type 0} (confs : TransactionConfiguration) (closure : Parser (Transaction lru) T)
      (c : Connection lru)
      → Keeps (in_tr client lru counts) closure
      → IsBalanced client lru c
      → IsBalanced client lru (state_of (with_transaction_config lru confs closure c))
  unfolding with_transaction_config
  with_transaction_config-IsBalanced confs closure c k b =
      taking-IsBalanced client lru confs _ c
        (Keeps-bind _ _ (Keeps-attempt closure k)
          (λ res. Keeps-bind _ _ (settled-Keeps c.in_transaction res) (λ _. Keeps-pure res)))
        b

  pub use_transaction-IsBalanced :
      {T : Type 0} (confs : TransactionConfiguration) (closure : Parser (Transaction lru) T)
      (c : Connection lru)
      → Keeps (in_tr client lru counts) closure
      → IsBalanced client lru c
      → IsBalanced client lru (state_of (use_transaction lru confs closure c))
  unfolding use_transaction
  use_transaction-IsBalanced confs closure c k b =
      taking-IsBalanced client lru confs _ c (Keeps-attempt closure k) b

  marked :
      {T : Type 0} (f : T → Parser (Connection lru) (Unit {0})) (o : Outcome (Connection lru) T)
      → ((a : T) (c : Connection lru)
          → IsBalanced client lru c
          → IsBalanced client lru (state_of (f a c)))
      → IsBalanced client lru (state_of o)
      → IsBalanced client lru (state_of (chain o f))
  marked f (done a c) h b = h a c b
  marked f (failed e c) h b = b

  remarked :
      (c : Connection lru) (mark : Bool)
      → IsBalanced client lru c
      → IsBalanced client lru (record c { in_transaction = mark })
  remarked c mark b = record { balance = b.balance }

  pub begin_transaction_config-IsBalanced :
      (confs : TransactionConfiguration) (c : Connection lru)
      → IsBalanced client lru c
      → IsBalanced client lru (state_of (begin_transaction_config lru confs c))
  unfolding begin_transaction_config
  begin_transaction_config-IsBalanced confs c b =
      marked
        (λ (_ : Unit {0}). modify (λ (c' : Connection lru). record c' { in_transaction = true }))
        (use_transaction lru confs (pure tt) c) (λ _ c' b'. remarked c' true b')
        (use_transaction-IsBalanced confs _ c (Keeps-pure tt) b)

  end_transaction-IsBalanced :
      (tr_op : TrOp) (c : Connection lru)
      → ((log : Log) (b : Bool) → counts (operated tr_op b ∷ log) ≡ counts log)
      → IsBalanced client lru c
      → IsBalanced client lru (state_of (end_transaction lru tr_op c))
  unfolding end_transaction
  end_transaction-IsBalanced tr_op c h b =
      use_transaction-IsBalanced c.def_confs_tr (operation lru tr_op)
        (record c { in_transaction = false }) (retaining-Keeps tr_op h) (remarked c false b)

  pub commit-IsBalanced :
      (c : Connection lru)
      → IsBalanced client lru c
      → IsBalanced client lru (state_of (commit lru c))
  unfolding commit
  commit-IsBalanced c b = end_transaction-IsBalanced TrOp.commit_retaining c (λ log b. refl) b

  pub rollback-IsBalanced :
      (c : Connection lru)
      → IsBalanced client lru c
      → IsBalanced client lru (state_of (rollback lru c))
  unfolding rollback
  rollback-IsBalanced c b = end_transaction-IsBalanced TrOp.rollback_retaining c (λ log b. refl) b

  module _ (regex : Bytes → List Piece) (text : Bytes) (params : ParamsType) (c : Connection lru)
      (b : IsBalanced client lru c) where
    pub execute-IsBalanced :
        IsBalanced client lru (state_of (Queries.execute lru regex text params c))
    unfolding Queries.execute with_transaction
    execute-IsBalanced =
        with_transaction_config-IsBalanced c.def_confs_tr _ c
          (tr_execute-Keeps client lru counts regex text params) b

    pub execute_returnable-IsBalanced :
        {R : Type 0} (from_row : List Column → Result R)
        → IsBalanced client lru
            (state_of (Queries.execute_returnable lru regex from_row text params c))
    unfolding Queries.execute_returnable with_transaction
    execute_returnable-IsBalanced from_row =
        with_transaction_config-IsBalanced c.def_confs_tr _ c
          (tr_execute_returnable-Keeps client lru counts regex from_row text params) b

    queried-Keeps :
        (d : StmtCacheData (logged client)) (res : Result ℕ)
        → Keeps (in_tr client lru counts) (queried lru regex d res)
    unfolding queried
    queried-Keeps d (ok _) = Keeps-pure d
    queried-Keeps d (err e) =
        Keeps-bind _ _
          (on_conn-Keeps client lru counts _ (insert_and_close-Keeps client lru counts d))
          λ _. Keeps-bind _ _ (Keeps-asks _) λ mark.
            Keeps-bind _ _
              (Keeps-if mark _ _ (Keeps-pure tt)
                (Keeps-ignored _ (retaining-Keeps TrOp.rollback_retaining (λ log b. refl))))
              (λ _. Keeps-lift (err e))

    query_closure-Keeps : Keeps (in_tr client lru counts) (query_closure lru regex text params)
    unfolding query_closure
    query_closure-Keeps =
        search (keeps_rules, get_or_prepare-Keeps, running-Keeps, query-Keeps, queried-Keeps) depth
          8

    pub query_iter-IsBalanced :
        IsBalanced client lru (state_of (query_iter lru regex text params c))
    unfolding query_iter
    query_iter-IsBalanced = use_transaction-IsBalanced c.def_confs_tr _ c query_closure-Keeps b

  module _ {R : Type 0} (from_row : List Column → Result R) where
    or_default-conn :
        (it : StmtIter lru)
        (o : Outcome (Connection lru) (Option (Result R) × StatementData (logged client)))
        → (or_default lru from_row it o).1.conn ≡ state_of o
    or_default-conn it (done (row, stmt) c) = refl
    or_default-conn it (failed e c) = refl

    pub next-IsBalanced :
        (it : StmtIter lru)
        → IsBalanced client lru it.conn
        → IsBalanced client lru (next lru from_row it).1.conn
    unfolding next
    next-IsBalanced it b = rw or_default-conn (
        use_transaction-IsBalanced it.conn.def_confs_tr _ it.conn
          (Keeps-bind _ _ (running-Keeps client lru counts _ _ (fetch-Keeps client lru counts))
            (λ p. Keeps-pure _))
          b)

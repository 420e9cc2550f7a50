-- ===== src/Api/Ledger/Calls.antt =====
-- src/statement.rs, src/connection/stmt_cache.rs and src/transaction/mod.rs: the methods that neither
-- start nor end a transaction.
use rsfbclient.Base.{◌≡◌, refl, ap, ◌∙◌, Bool, Option, List, [], ◌∷◌, Bytes}
use rsfbclient.Error.{Result}
use rsfbclient.Reader.{Outcome, done, failed, Parser}
use rsfbclient.SqlTypes.{Column}
use rsfbclient.StmtCache.Crate.{Lru}
use rsfbclient.StmtCache
use rsfbclient.StmtCache.{StmtCache, Got, got, absent, panicked}
use rsfbclient.Api.Client.{FirebirdClient}
use rsfbclient.Api.Params.{ParamsType, Piece}
use rsfbclient.Api.State.{
  modify, StatementData, TransactionData, StmtCacheData, Connection, Transaction, Held, Running,
  on_db, on_tr, on_open, on_stmt, on_all, on_conn, on_held, on_last,
}
use rsfbclient.Api.Statement
use rsfbclient.Api.Cache.{
  found, cached, prepare_for, get_or_prepare, close_each, try_close_each, insert_and_close,
  close_all, put_cache,
}
use rsfbclient.Api.Transaction
use rsfbclient.Api.Transaction.{operation, running, ran, with_cached}
use rsfbclient.Api.Keeps.{
  Keeps, Keeps-pure, Keeps-lift, Keeps-bind, Keeps-focus, Keeps-hidden, Keeps-ignored, Keeps-modify,
  state_of, keeps_rules,
}
use rsfbclient.Api.Ledger.{Log, logged, beside₂, beside₃, beside₄}

module _ {C A W : Type 0} (m : Log → W) where
  pub beside₂-Keeps : {D : Type 0} (p : Parser (C × D) A) → Keeps (λ v. m v.0.1) (beside₂ p)
  unfolding beside₂
  beside₂-Keeps p = Keeps-hidden _ _ p (λ s t. refl)

  pub beside₃-Keeps : {D E : Type 0} (p : Parser (C × D × E) A) → Keeps (λ v. m v.0.1) (beside₃ p)
  unfolding beside₃
  beside₃-Keeps p = Keeps-hidden _ _ p (λ s t. refl)

  pub beside₄-Keeps :
      {D E F : Type 0} (p : Parser (C × D × E × F) A) → Keeps (λ v. m v.0.1) (beside₄ p)
  unfolding beside₄
  beside₄-Keeps p = Keeps-hidden _ _ p (λ s t. refl)

module _ (client : FirebirdClient) {deq : Discrete Bytes}
    (lru : Lru deq (StatementData (logged client))) {W : Type 0} (m : Log → W) where
  -- What `m` says of the record, and the default transaction with its mark.
  abbrev pub in_conn : Connection lru → W × Option (TransactionData (logged client)) × Bool
  in_conn c = (m c.cli.1, c.def_tr, c.in_transaction)

  abbrev pub in_tr : Transaction lru → W × Option (TransactionData (logged client)) × Bool
  in_tr t = in_conn t.conn

  abbrev pub in_held : Held lru → W × Option (TransactionData (logged client)) × Bool
  in_held h = in_conn h.conn

  abbrev pub in_running : Running lru → W × Option (TransactionData (logged client)) × Bool
  in_running r = in_conn r.conn

  module _ {A : Type 0} where
    pub on_open-Keeps :
        (p : Parser (client.Client × client.DbHandle × client.TrHandle) A)
        → Keeps in_tr (on_open lru (beside₃ p))
    unfolding on_open
    on_open-Keeps p =
        Keeps-focus _ _ (beside₃ p) (λ v. m v.0.1) (beside₃-Keeps m p)
          (λ s t e. ap (λ w. (w, s.conn.def_tr, s.conn.in_transaction)) e)

    pub on_tr-Keeps :
        (p : Parser ((client.Client × Log) × client.TrHandle) A)
        → Keeps (λ (v : (client.Client × Log) × client.TrHandle). m v.0.1) p
        → Keeps in_tr (on_tr lru p)
    unfolding on_tr
    on_tr-Keeps p h =
        Keeps-focus _ _ p (λ v. m v.0.1) h
          (λ s t e. ap (λ w. (w, s.conn.def_tr, s.conn.in_transaction)) e)

    pub on_all-Keeps :
        (p : Parser (client.Client × client.DbHandle × client.TrHandle × client.StmtHandle) A)
        → Keeps in_running (on_all lru (beside₄ p))
    unfolding on_all
    on_all-Keeps p =
        Keeps-focus _ _ (beside₄ p) (λ v. m v.0.1) (beside₄-Keeps m p)
          (λ s t e. ap (λ w. (w, s.conn.def_tr, s.conn.in_transaction)) e)

    pub on_stmt-Keeps :
        (p : Parser (client.Client × client.StmtHandle) A) → Keeps in_held (on_stmt lru (beside₂ p))
    unfolding on_stmt
    on_stmt-Keeps p =
        Keeps-focus _ _ (beside₂ p) (λ v. m v.0.1) (beside₂-Keeps m p)
          (λ s t e. ap (λ w. (w, s.conn.def_tr, s.conn.in_transaction)) e)

    pub on_last-Keeps :
        (stmt : StatementData (logged client)) (p : Parser (client.Client × client.StmtHandle) A)
        → Keeps in_conn (on_last lru stmt (beside₂ p))
    unfolding on_last
    on_last-Keeps stmt p =
        Keeps-focus _ _ (beside₂ p) (λ v. m v.0.1) (beside₂-Keeps m p)
          (λ s t e. ap (λ w. (w, s.def_tr, s.in_transaction)) e)

    pub on_db-Keeps :
        (p : Parser (client.Client × client.DbHandle) A) → Keeps in_conn (on_db lru (beside₂ p))
    unfolding on_db
    on_db-Keeps p =
        Keeps-focus _ _ (beside₂ p) (λ v. m v.0.1) (beside₂-Keeps m p)
          (λ s t e. ap (λ w. (w, s.def_tr, s.in_transaction)) e)

    pub on_conn-Keeps :
        (p : Parser (Connection lru) A) → Keeps in_conn p → Keeps in_tr (on_conn lru p)
    unfolding on_conn
    on_conn-Keeps p h = Keeps-focus _ _ p in_conn h (λ s t e. e)

    pub on_held-Keeps :
        (p : Parser (Held lru) A) → Keeps in_held p → Keeps in_running (on_held lru p)
    unfolding on_held
    on_held-Keeps p h = Keeps-focus _ _ p in_held h (λ s t e. e)

    ran-in_tr :
        (o : Outcome (Running lru) A) → in_tr (state_of (ran lru o)) ≡ in_running (state_of o)
    ran-in_tr (done a r) = refl
    ran-in_tr (failed e r) = refl

    pub running-Keeps :
        (stmt : StatementData (logged client)) (p : Parser (Running lru) A)
        → Keeps in_running p
        → Keeps in_tr (running lru stmt p)
    unfolding running
    running-Keeps stmt p h = record {
      at = λ t.
          ran-in_tr (p (record { stmt = stmt; tr = t.tr; conn = t.conn }))
          ∙ h.at (record { stmt = stmt; tr = t.tr; conn = t.conn });
    }

  pub ruleset lens_rules = (
    keeps_rules, on_open-Keeps, on_all-Keeps, on_stmt-Keeps, on_last-Keeps, on_db-Keeps,
    on_conn-Keeps, on_held-Keeps, running-Keeps,
  )

  prepare-Keeps :
      (regex : Bytes → List Piece) (raw_sql : Bytes) (by_name : Bool)
      → Keeps in_tr (Statement.prepare lru regex raw_sql by_name)
  unfolding Statement.prepare
  prepare-Keeps regex raw_sql by_name = search lens_rules depth 8

  pub close_cursor-Keeps : Keeps in_held (Statement.close_cursor lru)
  unfolding Statement.close_cursor
  close_cursor-Keeps = search lens_rules

  close_stmt-Keeps :
      (stmt : StatementData (logged client)) → Keeps in_conn (Statement.close_stmt lru stmt)
  unfolding Statement.close_stmt
  close_stmt-Keeps stmt = search lens_rules

  pub query-Keeps : (params : ParamsType) → Keeps in_running (Statement.query lru params)
  unfolding Statement.query
  query-Keeps params = search lens_rules depth 8

  pub execute-Keeps : (params : ParamsType) → Keeps in_running (Statement.execute lru params)
  unfolding Statement.execute
  execute-Keeps params = search (lens_rules, query-Keeps, close_cursor-Keeps) depth 8

  pub execute2-Keeps : (params : ParamsType) → Keeps in_running (Statement.execute2 lru params)
  unfolding Statement.execute2
  execute2-Keeps params = search lens_rules depth 8

  pub fetch-Keeps : Keeps in_running (Statement.fetch lru)
  unfolding Statement.fetch
  fetch-Keeps = search lens_rules

  -- The cache does not show.
  pub put_cache-Keeps : (cache : StmtCache lru) → Keeps in_conn (modify (put_cache lru cache))
  unfolding put_cache
  put_cache-Keeps cache = record { at = λ c. refl }

  found-in_conn :
      (c : Connection lru) (g : Got lru) → in_conn (state_of (found lru c g)) ≡ in_conn c
  unfolding put_cache
  found-in_conn c (got text stmt cache) = refl
  found-in_conn c (absent cache) = refl
  found-in_conn c panicked = refl

  cached-Keeps : (text : Bytes) → Keeps in_conn (cached lru text)
  unfolding cached
  cached-Keeps text = record { at = λ c. found-in_conn c (StmtCache.get lru text c.stmt_cache) }

  close_each-Keeps :
      (stmts : List (StatementData (logged client))) → Keeps in_conn (close_each lru stmts)
  unfolding close_each
  close_each-Keeps [] = search keeps_rules
  close_each-Keeps (stmt ∷ stmts) =
      Keeps-bind _ _ (close_stmt-Keeps stmt) (λ _. close_each-Keeps stmts)

  try_close_each-Keeps :
      (stmts : List (StatementData (logged client))) → Keeps in_conn (try_close_each lru stmts)
  unfolding try_close_each
  try_close_each-Keeps [] = search keeps_rules
  try_close_each-Keeps (stmt ∷ stmts) =
      Keeps-bind _ _ (Keeps-ignored _ (close_stmt-Keeps stmt)) (λ _. try_close_each-Keeps stmts)

  module _ (regex : Bytes → List Piece) where
    prepare_for-Keeps :
        (text : Bytes) (by_name : Bool) (known : Option (StmtCacheData (logged client)))
        → Keeps in_tr (prepare_for lru regex text by_name known)
    unfolding prepare_for
    prepare_for-Keeps text by_name (Option.some known) = search keeps_rules
    prepare_for-Keeps text by_name Option.none = search (keeps_rules, prepare-Keeps)

    pub get_or_prepare-Keeps :
        (text : Bytes) (by_name : Bool) → Keeps in_tr (get_or_prepare lru regex text by_name)
    unfolding get_or_prepare
    get_or_prepare-Keeps text by_name =
        search (keeps_rules, on_conn-Keeps, cached-Keeps, prepare_for-Keeps)

  pub insert_and_close-Keeps :
      (d : StmtCacheData (logged client)) → Keeps in_conn (insert_and_close lru d)
  unfolding insert_and_close
  insert_and_close-Keeps d = search (keeps_rules, put_cache-Keeps, close_each-Keeps) depth 8

  pub close_all-Keeps : Keeps in_conn (close_all lru)
  unfolding close_all
  close_all-Keeps = search (keeps_rules, put_cache-Keeps, try_close_each-Keeps) depth 8

  module _ (regex : Bytes → List Piece) where
    pub with_cached-Keeps :
        {A : Type 0} (text : Bytes) (params : ParamsType)
        (method : ParamsType → Parser (Running lru) A)
        → ((ps : ParamsType) → Keeps in_running (method ps))
        → Keeps in_tr (with_cached lru regex text params method)
    unfolding with_cached
    with_cached-Keeps text params method h =
        search
          (
            keeps_rules, get_or_prepare-Keeps, running-Keeps, on_conn-Keeps, insert_and_close-Keeps,
            h,
          )
          depth 10

    pub tr_execute-Keeps :
        (text : Bytes) (params : ParamsType)
        → Keeps in_tr (Transaction.execute lru regex text params)
    unfolding Transaction.execute
    tr_execute-Keeps text params = with_cached-Keeps text params _ execute-Keeps

    pub tr_execute_returnable-Keeps :
        {R : Type 0} (from_row : List Column → Result R) (text : Bytes) (params : ParamsType)
        → Keeps in_tr (Transaction.execute_returnable lru regex from_row text params)
    unfolding Transaction.execute_returnable
    tr_execute_returnable-Keeps from_row text params =
        Keeps-bind _ _ (with_cached-Keeps text params _ execute2-Keeps) (λ cols. Keeps-lift _)

  pub execute_immediate-Keeps :
      (text : Bytes) → Keeps in_tr (Transaction.execute_immediate lru text)
  unfolding Transaction.execute_immediate
  execute_immediate-Keeps text = search lens_rules depth 8

-- ===== src/Api/Ledger/Balance/Runs.antt =====
-- src/connection/mod.rs: whole runs of a connection, from its opening to its close.
use mathlib.Core.Path.{subst}
use rsfbclient.Base.{
  if◌then◌else◌, sym, ℕ, ◌+◌, ◌≤◌, ◌≡◌, refl, ap, ◌∙◌, Bool, true, false, Option, none, some, List,
  [], ◌∷◌, Bytes, arith,
}
use rsfbclient.Error.{Result, ok, err}
use rsfbclient.Reader.{Outcome, done, failed, Parser, chain, pure}
use rsfbclient.SqlTypes.{Column}
use rsfbclient.StmtCache.Crate.{Lru}
use rsfbclient.Client.Session.Statements.{TransactionConfiguration}
use rsfbclient.Api.Client.{FirebirdClient}
use rsfbclient.Api.Params.{ParamsType, Piece}
use rsfbclient.Api.State.{
  ignored, kept, put_back, on_db, StatementData, StmtCacheData, TransactionData, Connection,
  Transaction, Held,
}
use rsfbclient.Api.Statement
use rsfbclient.Api.Cache.{insert_and_close, close_all, try_close_each}
use rsfbclient.Api.Connection.{
  rolled_back_default, drop_default, with_transaction_config, connected, open_connection,
  ConnectionConfiguration, begin_transaction_config, commit, rollback, cleanup_and_detach, close,
}
use rsfbclient.Api.Queries
use rsfbclient.Api.Queries.{
  StmtIter, next, close_iter, closed, given_back, left, drop_iter, query_iter,
}
use rsfbclient.Api.Keeps.{Keeps, state_of}
use rsfbclient.Api.Ledger.{Log, logged, begun, ended, beside, beside₂}
use rsfbclient.Api.Ledger.Calls.{
  in_conn, in_tr, close_cursor-Keeps, insert_and_close-Keeps, close_all-Keeps, on_db-Keeps,
}
use rsfbclient.Api.Ledger.Balance.{counts, held, IsBalanced, Owes, rolled_back-Owes}
use rsfbclient.Api.Ledger.Balance.Uses.{
  commit-IsBalanced, rollback-IsBalanced, begin_transaction_config-IsBalanced,
  with_transaction_config-IsBalanced, execute-IsBalanced, query_iter-IsBalanced, next-IsBalanced,
}

module _ (client : FirebirdClient) {deq : Discrete Bytes}
    (lru : Lru deq (StatementData (logged client))) where
  same_counts :
      (c c' : Connection lru)
      → in_conn client lru counts c' ≡ in_conn client lru counts c
      → IsBalanced client lru c
      → IsBalanced client lru c'
  same_counts c c' h b = record {
    balance =
        subst
          (λ (s : (ℕ × ℕ) × Option (TransactionData (logged client)) × Bool).
            s.0.0 ≡ s.0.1 + held s.1)
          (sym h) b.balance;
  }

  closed-conn :
      (it : StmtIter lru) (o : Outcome (Held lru) (Unit {0}))
      → (closed lru it o).conn ≡ (state_of o).conn
  closed-conn it (done _ h) = refl
  closed-conn it (failed _ h) = refl

  left-state_of : (o : Outcome (Connection lru) (Unit {0})) → left lru o ≡ state_of o
  left-state_of (done _ c) = refl
  left-state_of (failed _ c) = refl

  -- What follows a call whose result is dropped.
  behind :
      {A : Type 0} (o : Outcome (Connection lru) A) (rest : Parser (Connection lru) (Unit {0}))
      → ((c : Connection lru) → IsBalanced client lru c → IsBalanced client lru (state_of (rest c)))
      → IsBalanced client lru (state_of o)
      → IsBalanced client lru (state_of (chain (chain (kept o) (λ _. pure tt)) (λ _. rest)))
  behind (done a c) rest h b = h c b
  behind (failed e c) rest h b = h c b

  dropped :
      (o : Outcome (Connection lru) (Unit {0}))
      → IsBalanced client lru (state_of o)
      → IsBalanced client lru (state_of (chain (kept o) (λ _. pure tt)))
  dropped (done a c) b = b
  dropped (failed e c) b = b

  committed_unless :
      (mark : Bool) (c : Connection lru)
      → IsBalanced client lru c
      → IsBalanced client lru (state_of ((if mark then pure tt else ignored (commit lru)) c))
  committed_unless true c b = b
  committed_unless false c b = dropped (commit lru c) (commit-IsBalanced client lru c b)

  given_back-IsBalanced :
      (d : StmtCacheData (logged client)) (c : Connection lru)
      → IsBalanced client lru c
      → IsBalanced client lru (state_of (given_back lru d c))
  unfolding given_back
  given_back-IsBalanced d c b =
      behind (insert_and_close lru d c) _ (λ c' b'. committed_unless c'.in_transaction c' b')
        (same_counts c _ ((insert_and_close-Keeps client lru counts d).at c) b)

  drop_iter-IsBalanced :
      (it : StmtIter lru) → IsBalanced client lru it.conn → IsBalanced client lru (drop_iter lru it)
  unfolding drop_iter
  drop_iter-IsBalanced it b =
      let h : Held lru = record { stmt = it.stmt_cache_data.stmt; conn = it.conn } in
      let cursor_closed = closed-conn it (Statement.close_cursor lru h) in
      rw left-state_of (
        given_back-IsBalanced _ _ (
          subst (IsBalanced client lru) (sym cursor_closed)
            (same_counts it.conn _ ((close_cursor-Keeps client lru counts).at h) b)))

  -- The calls on a connection, whether they succeed or fail. A closure may use the transaction that it
  -- is given, but neither ends it nor touches the default one and its mark.
  pub data Step (c : Connection lru) : Connection lru → Type 1 where
    with_closure :
        {T : Type 0} (confs : TransactionConfiguration) (closure : Parser (Transaction lru) T)
        → Keeps (in_tr client lru counts) closure
        → Step c (state_of (with_transaction_config lru confs closure c))
    begins :
        (confs : TransactionConfiguration)
        → Step c (state_of (begin_transaction_config lru confs c))
    commits : Step c (state_of (commit lru c))
    rolls_back : Step c (state_of (rollback lru c))
    executes :
        (regex : Bytes → List Piece) (text : Bytes) (params : ParamsType)
        → Step c (state_of (Queries.execute lru regex text params c))
    queries :
        (regex : Bytes → List Piece) (text : Bytes) (params : ParamsType)
        → Step c (state_of (query_iter lru regex text params c))
    fetches :
        {R : Type 0} (from_row : List Column → Result R) (d : StmtCacheData (logged client))
        → Step c (next lru from_row (record { stmt_cache_data = d; conn = c })).1.conn
    drops :
        (d : StmtCacheData (logged client))
        → Step c (drop_iter lru (record { stmt_cache_data = d; conn = c }))

  pub data Run (c : Connection lru) : Connection lru → Type 1 where
    here : Run c c
    andthen : {c' c'' : Connection lru} → Run c c' → Step c' c'' → Run c c''

  Step-IsBalanced :
      {c c' : Connection lru} → Step c c' → IsBalanced client lru c → IsBalanced client lru c'
  Step-IsBalanced {c = c} (with_closure confs closure k) b =
      with_transaction_config-IsBalanced client lru confs closure c k b
  Step-IsBalanced {c = c} (begins confs) b =
      begin_transaction_config-IsBalanced client lru confs c b
  Step-IsBalanced {c = c} commits b = commit-IsBalanced client lru c b
  Step-IsBalanced {c = c} rolls_back b = rollback-IsBalanced client lru c b
  Step-IsBalanced {c = c} (executes regex text params) b =
      execute-IsBalanced client lru regex text params c b
  Step-IsBalanced {c = c} (queries regex text params) b =
      query_iter-IsBalanced client lru regex text params c b
  Step-IsBalanced {c = c} (fetches from_row d) b =
      next-IsBalanced client lru from_row (record { stmt_cache_data = d; conn = c }) b
  Step-IsBalanced {c = c} (drops d) b =
      drop_iter-IsBalanced (record { stmt_cache_data = d; conn = c }) b

  Run-IsBalanced :
      {c c' : Connection lru} → Run c c' → IsBalanced client lru c → IsBalanced client lru c'
  Run-IsBalanced here b = b
  Run-IsBalanced (andthen run step) b = Step-IsBalanced step (Run-IsBalanced run b)

  connected-IsBalanced :
      (conf : ConnectionConfiguration client.AttachmentConfig) (cli : client.Client)
      (o : Outcome client.Client client.DbHandle) (c : Connection lru)
      → connected lru conf (put_back (λ s (p : client.Client × Log). (s, p.1)) (cli, []) o) ≡ ok c
      → IsBalanced client lru c
  connected-IsBalanced conf cli (done handle s) c h =
      subst (IsBalanced client lru)
        (ap (λ (r : Result (Connection lru)). elim r [ ok d ↦ d | err _ ↦ c ]) h)
        (record { balance = refl })
  connected-IsBalanced conf cli (failed e s) c h = cc

  open_connection-IsBalanced :
      (cli : client.Client) (conf : ConnectionConfiguration client.AttachmentConfig)
      (c : Connection lru)
      → open_connection lru (cli, []) conf ≡ ok c
      → IsBalanced client lru c
  unfolding open_connection beside
  open_connection-IsBalanced cli conf c h = connected-IsBalanced conf cli _ c h

  -- Closing does not stop at an error.
  goes_on :
      {A : Type 0} (o : Outcome (Connection lru) A) (rest : Parser (Connection lru) (Unit {0}))
      → ((c : Connection lru) → (c' : Connection lru) × (rest c ≡ done tt c'))
      → (c' : Connection lru) × (chain (chain (kept o) (λ _. pure tt)) (λ _. rest) ≡ done tt c')
  goes_on (done a c) rest h = h c
  goes_on (failed e c) rest h = h c

  try_close_each-done :
      (stmts : List (StatementData (logged client))) (c : Connection lru)
      → (c' : Connection lru) × (try_close_each lru stmts c ≡ done tt c')
  unfolding try_close_each
  try_close_each-done [] c = (c, refl)
  try_close_each-done (stmt ∷ stmts) c =
      goes_on (Statement.close_stmt lru stmt c) _ (try_close_each-done stmts)

  close_all-done : (c : Connection lru) → (c' : Connection lru) × (close_all lru c ≡ done tt c')
  unfolding close_all
  close_all-done c = try_close_each-done _ _

  rolled_back_default-Owes :
      (def_tr : Option (TransactionData (logged client))) (c : Connection lru)
      → c.def_tr ≡ def_tr
      → IsBalanced client lru c
      → Owes client lru 0 (rolled_back_default lru def_tr c)
  rolled_back_default-Owes none c h b = record {
    open_trs = b.balance ∙ ap (λ d. ended c.cli.1 + held d) h;
    no_default = h;
  }
  rolled_back_default-Owes (some tr) c h b =
      rolled_back-Owes client lru tr (record c { def_tr = none })
        (record { open_trs = b.balance ∙ ap (λ d. ended c.cli.1 + held d) h; no_default = refl })

  drop_default-Owes :
      (c : Connection lru) → IsBalanced client lru c → Owes client lru 0 (drop_default lru c)
  unfolding drop_default
  drop_default-Owes c b = rolled_back_default-Owes c.def_tr c refl b

  balanced_end :
      (c c' : Connection lru)
      → in_conn client lru counts c' ≡ in_conn client lru counts c
      → Owes client lru 0 c
      → begun c'.cli.1 ≡ ended c'.cli.1
  balanced_end c c' h o =
      subst (λ (s : (ℕ × ℕ) × Option (TransactionData (logged client)) × Bool). s.0.0 ≡ s.0.1)
        (sym h) (omega (arith, o.open_trs))

  pub close-balances :
      (c : Connection lru)
      → IsBalanced client lru c
      → begun (state_of (close lru c)).cli.1 ≡ ended (state_of (close lru c)).cli.1
  unfolding close cleanup_and_detach
  close-balances c b =
      let (c', all_closed) = close_all-done c in
      let kept_counts = (close_all-Keeps client lru counts).at c in
      rw all_closed (
        balanced_end (drop_default lru c')
          (state_of (on_db lru (beside₂ client.detach_database) (drop_default lru c')))
          ((on_db-Keeps client lru counts client.detach_database).at (drop_default lru c'))
          (drop_default-Owes c' (same_counts c c' (rw all_closed at kept_counts) b)))

  held-le : {A : Type 0} (o : Option A) → held o ≤ 1
  held-le none = omega arith
  held-le (some _) = omega arith

  -- After any calls on a connection that was opened, whether they succeeded or failed, at most one of
  -- the transactions that were started is not ended, and once the connection is closed every one is. A
  -- commit or a rollback that the client reports as failed counts as an end. So it is for every client,
  -- for closures that neither start nor end a transaction nor touch the default one and its mark.
  pub close_ends_transactions :
      (cli : client.Client) (conf : ConnectionConfiguration client.AttachmentConfig)
      (c c' : Connection lru)
      → open_connection lru (cli, []) conf ≡ ok c
      → Run c c'
      → (begun c'.cli.1 ≤ ended c'.cli.1 + 1)
        × (begun (state_of (close lru c')).cli.1 ≡ ended (state_of (close lru c')).cli.1)
  close_ends_transactions cli conf c c' opened run =
      let b = Run-IsBalanced run (open_connection-IsBalanced cli conf c opened) in
      (omega (arith, b.balance, held-le c'.def_tr), close-balances c' b)

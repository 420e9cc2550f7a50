-- ===== src/Tests/Api.antt =====
-- Witnesses for src/connection, src/transaction and src/statement.rs, over a client that does all that
-- it is asked.
use native.Mathlib.Decide.{ℕ_discrete}
use rsfbclient.Base.{
  length, ℕ, ◌+◌, ◌≤◌, ◌≡◌, refl, true, false, Option, none, some, List, [], ◌∷◌, ◌++◌, Bytes,
}
use rsfbclient.Error.{Result, ok}
use rsfbclient.Reader.{done}
use rsfbclient.Consts.Stmt.{StmtType}
use rsfbclient.SqlTypes.{SqlType, Column}
use rsfbclient.StmtCache
use rsfbclient.StmtCache.Crate.{find, without, first, rest, evict, Lru}
use rsfbclient.Wire.Attach.{Dialect}
use rsfbclient.Client.Session.Statements.{
  TransactionConfiguration, TrDataAccessMode, TrIsolationLevel, TrLockResolution,
}
use rsfbclient.Api.Client.{FirebirdClient}
use rsfbclient.Api.Params.{named, positional, Piece, between, matched, convert, parse}
use rsfbclient.Api.Params.Naming.{Converts, convert-parse}
use rsfbclient.Api.State.{StatementData, Connection}
use rsfbclient.Api.Transaction
use rsfbclient.Api.Connection.{
  ConnectionConfiguration, open_connection, with_transaction_config, begin_transaction_config,
  close,
}
use rsfbclient.Api.Queries
use rsfbclient.Api.Queries.{StmtIter, next}
use rsfbclient.Api.Keeps.{state_of}
use rsfbclient.Api.Ledger.{logged, beside, begun, ended}
use rsfbclient.Api.Ledger.Calls.{tr_execute-Keeps}
use rsfbclient.Api.Ledger.Commits.{Reports, with_transaction_config-Reports}
use rsfbclient.Api.Ledger.Balance.Runs.{here, andthen, executes, close_ends_transactions}
use rsfbclient.Api.Reuse.{passed_on, begin_transaction_config-reuses, next-fetch}

Bytes-discrete : Discrete Bytes
Bytes-discrete = hlevel ℕ_discrete

-- A cache that is its capacity and its list of entries.
abbrev listed : {K T : Type 0} (deq : Discrete K) → Lru deq T
listed {K} {T} deq = record {
  Cache = ℕ × List (K × T);
  entries = λ c. c.1;
  capacity = λ c. c.0;
  len = λ c. length c.1;
  new = λ n. (n, []);
  remove = λ k c. (find deq k c.1, (c.0, without deq k c.1));
  insert = λ k v c. (find deq k c.1, (c.0, evict c.0 (without deq k c.1 ++ ((k, v) ∷ []))));
  remove_lru = λ c. (first c.1, (c.0, rest c.1));
  len_lem = λ c. refl;
  new-entries = λ n. refl;
  new-capacity = λ n. refl;
  remove-value = λ k c. refl;
  remove-entries = λ k c. refl;
  remove-capacity = λ k c. refl;
  insert-value = λ k v c. refl;
  insert-entries = λ k v c. refl;
  insert-capacity = λ k v c. refl;
  remove_lru-value = λ c. refl;
  remove_lru-entries = λ c. refl;
  remove_lru-capacity = λ c. refl;
}

-- Its state counts its calls, and a handle is the number of the call that made it.
abbrev willing : FirebirdClient
willing = record {
  Client = ℕ;
  DbHandle = ℕ;
  AttachmentConfig = Unit {0};
  TrHandle = ℕ;
  StmtHandle = ℕ;
  attach_database = λ config dialect no_db_triggers n. done n (n + 1);
  detach_database = λ (n, db). done tt (n + 1, db);
  drop_database = λ (n, db). done tt (n + 1, db);
  create_database = λ config page_size dialect n. done n (n + 1);
  begin_transaction = λ confs (n, db). done n (n + 1, db);
  transaction_operation = λ tr_op (n, tr). done tt (n + 1, tr);
  exec_immediate = λ dialect text (n, db, tr). done tt (n + 1, db, tr);
  prepare_statement = λ dialect text (n, db, tr). done (StmtType.insert, n) (n + 1, db, tr);
  free_statement = λ stmt_op (n, stmt). done tt (n + 1, stmt);
  execute = λ params (n, db, tr, stmt). done 1 (n + 1, db, tr, stmt);
  execute2 = λ params (n, db, tr, stmt). done [] (n + 1, db, tr, stmt);
  fetch = λ (n, db, tr, stmt). done (some []) (n + 1, db, tr, stmt);
}

abbrev confs : TransactionConfiguration
confs = record {
  data_access = TrDataAccessMode.read_write;
  isolation = TrIsolationLevel.concurrency;
  lock_resolution = TrLockResolution.no_wait;
}

abbrev conf : ConnectionConfiguration (Unit {0})
conf = record {
  attachment_conf = tt;
  dialect = Dialect.d3;
  no_db_triggers = false;
  stmt_cache_size = 2;
  transaction_conf = confs;
}

abbrev insertion : Bytes
insertion = b'i' ∷ []

abbrev plain : Bytes → List Piece
plain t = between t ∷ []

abbrev lru : Lru Bytes-discrete (StatementData (logged willing))
lru = listed Bytes-discrete

abbrev opened : Connection lru
opened = record {
  handle = 0;
  dialect = Dialect.d3;
  stmt_cache = record { cache = (2, []); sqls = [] };
  def_tr = none;
  in_transaction = false;
  cli = (1, []);
  def_confs_tr = confs;
}

with_transaction_config-Reports_example : Reports willing lru opened (
    with_transaction_config lru confs
      (Transaction.execute lru plain insertion (positional []))
      opened)
with_transaction_config-Reports_example =
    with_transaction_config-Reports willing lru confs
      (Transaction.execute lru plain insertion (positional [])) opened
      (tr_execute-Keeps willing lru (λ log. log) plain insertion (positional [])) refl

opened_lem : open_connection lru (0, []) conf ≡ ok opened
unfolding open_connection beside StmtCache.new
opened_lem = refl

abbrev used : Connection lru
used = state_of (Queries.execute lru plain insertion (positional []) opened)

close_ends_transactions_example :
    (begun used.cli.1 ≤ ended used.cli.1 + 1)
    × (begun (state_of (close lru used)).cli.1 ≡ ended (state_of (close lru used)).cli.1)
close_ends_transactions_example =
    close_ends_transactions willing lru 0 conf opened used opened_lem
      (andthen here (executes plain insertion (positional [])))

abbrev in_default : Connection lru
in_default = record opened { def_tr = some (record { handle = 7 }) }

begin_transaction_config-reuses_example :
    begin_transaction_config lru confs in_default
    ≡ done tt (record in_default { in_transaction = true })
begin_transaction_config-reuses_example =
    begin_transaction_config-reuses lru confs in_default (record { handle = 7 }) refl

abbrev no_rows : List Column → Result ℕ
no_rows cols = ok (length cols)

abbrev iterating : StmtIter lru
iterating = record {
  stmt_cache_data = record {
    sql = insertion;
    stmt = record {
      handle = 5;
      stmt_type = StmtType.select;
      named_params = record { sql = insertion; params_names = [] };
    };
  };
  conn = in_default;
}

next-fetch_example :
    next lru no_rows iterating
    ≡ passed_on lru no_rows iterating ((logged willing).fetch ((1, []), 0, 7, 5))
next-fetch_example = next-fetch lru no_rows iterating (record { handle = 7 }) refl

-- `:a ':b' :a`
abbrev pieces : Bytes → List Piece
pieces _ =
    matched (b':' ∷ b'a' ∷ []) none
    ∷ between (b' ' ∷ [])
    ∷ matched (39 ∷ b':' ∷ b'b' ∷ 39 ∷ []) (some (39 ∷ b':' ∷ b'b' ∷ 39 ∷ []))
    ∷ matched (b':' ∷ b'a' ∷ []) none
    ∷ []

abbrev bound : Bytes → Option SqlType
bound name = some (SqlType.text name)

convert-parse_example :
    Converts bound ((b'a' ∷ []) ∷ (b'a' ∷ []) ∷ []) (convert (parse pieces []) (named bound))
convert-parse_example = convert-parse pieces [] bound (
  (b'a' ∷ [], refl, (refl, tt)),
  ((refl, (b':' ∷ b'b' ∷ 39 ∷ [], refl)), ((b'a' ∷ [], refl, (refl, tt)), tt)),
)

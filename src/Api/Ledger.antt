-- ===== src/Api/Ledger.antt =====
-- src/connection/mod.rs: which transactions a connection starts and ends. Any client is given a record
-- of the calls that start and end transactions, the last one first.
pub mod Calls
pub mod Default
pub mod Commits
pub mod Balance
use rsfbclient.Base.{ℕ, ◌+◌, Bool, true, false, Option, none, some, List, [], ◌∷◌, ◌++◌, Bytes}
use rsfbclient.Error.{Result}
use rsfbclient.Reader.{Outcome, done, failed, Parser}
use rsfbclient.Wire.Requests.{TrOp}
use rsfbclient.Api.Client.{FirebirdClient}
use rsfbclient.Api.State.{focus}

-- `operated` says with which success.
pub data Event : Type 0 where
  began : Event
  operated : TrOp → Bool → Event

abbrev pub Log : Type 0
Log = List Event

module _ {S A : Type 0} where
  abbrev pub noting_start : Outcome S A → Log → Outcome (S × Log) A
  noting_start (done a s) log = done a (s, began ∷ log)
  noting_start (failed e s) log = failed e (s, log)

  abbrev pub noting : TrOp → Outcome S A → Log → Outcome (S × Log) A
  noting tr_op (done a s) log = done a (s, operated tr_op true ∷ log)
  noting tr_op (failed e s) log = failed e (s, operated tr_op false ∷ log)

abbrev pub regrouped : {C D A : Type 0} → Outcome ((C × D) × Log) A → Outcome ((C × Log) × D) A
regrouped (done a ((c, d), log)) = done a ((c, log), d)
regrouped (failed e ((c, d), log)) = failed e ((c, log), d)

module _ {C A : Type 0} where
  unfoldable pub beside : Parser C A → Parser (C × Log) A
  beside = focus (λ (c, _). c) (λ c (_, log). (c, log))

  unfoldable pub beside₂ : {D : Type 0} → Parser (C × D) A → Parser ((C × Log) × D) A
  beside₂ = focus (λ ((c, _), d). (c, d)) (λ (c, d) ((_, log), _). ((c, log), d))

  unfoldable pub beside₃ : {D E : Type 0} → Parser (C × D × E) A → Parser ((C × Log) × D × E) A
  beside₃ = focus (λ ((c, _), d, e). (c, d, e)) (λ (c, d, e) ((_, log), _, _). ((c, log), d, e))

  unfoldable pub beside₄ :
      {D E F : Type 0} → Parser (C × D × E × F) A → Parser ((C × Log) × D × E × F) A
  beside₄ =
      focus (λ ((c, _), d, e, f). (c, d, e, f))
        (λ (c, d, e, f) ((_, log), _, _, _). ((c, log), d, e, f))

-- The client with its record.
abbrev pub logged : FirebirdClient → FirebirdClient
logged client = record {
  Client = client.Client × Log;
  DbHandle = client.DbHandle;
  AttachmentConfig = client.AttachmentConfig;
  TrHandle = client.TrHandle;
  StmtHandle = client.StmtHandle;
  attach_database = λ config dialect no_db_triggers.
      beside (client.attach_database config dialect no_db_triggers);
  detach_database = beside₂ client.detach_database;
  drop_database = beside₂ client.drop_database;
  create_database =
      λ config page_size dialect. beside (client.create_database config page_size dialect);
  begin_transaction =
      λ confs ((c, log), db). regrouped (noting_start (client.begin_transaction confs (c, db)) log);
  transaction_operation = λ tr_op ((c, log), tr).
      regrouped (noting tr_op (client.transaction_operation tr_op (c, tr)) log);
  exec_immediate = λ dialect text. beside₃ (client.exec_immediate dialect text);
  prepare_statement = λ dialect text. beside₃ (client.prepare_statement dialect text);
  free_statement = λ stmt_op. beside₂ (client.free_statement stmt_op);
  execute = λ params. beside₄ (client.execute params);
  execute2 = λ params. beside₄ (client.execute2 params);
  fetch = beside₄ client.fetch;
}

-- How many transactions were started, and how many were ended, which a call that fails does too.
abbrev pub begun : Log → ℕ
begun [] = 0
begun (began ∷ log) = begun log + 1
begun (operated _ _ ∷ log) = begun log

abbrev pub ended : Log → ℕ
ended [] = 0
ended (began ∷ log) = ended log
ended (operated TrOp.commit _ ∷ log) = ended log + 1
ended (operated TrOp.rollback _ ∷ log) = ended log + 1
ended (operated TrOp.commit_retaining _ ∷ log) = ended log
ended (operated TrOp.rollback_retaining _ ∷ log) = ended log

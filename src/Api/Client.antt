-- ===== src/Api/Client.antt =====
-- rsfbclient-core/src/connection.rs: the traits `FirebirdClientDbOps` and `FirebirdClientSqlOps`, which
-- `FirebirdClient` joins. What a method borrows with `&mut` is its state, the client first; a call
-- leaves it changed also when it fails.
use rsfbclient.Base.{ℕ, Bool, Option, List, Bytes}
use rsfbclient.Consts.Stmt.{StmtType}
use rsfbclient.Reader.{Parser}
use rsfbclient.SqlTypes.{SqlType, Column}
use rsfbclient.Wire.Attach.{Dialect}
use rsfbclient.Wire.Requests.{TrOp, FreeStmtOp}
use rsfbclient.Client.Session.Statements.{TransactionConfiguration}

pub record FirebirdClient : Type 1 where
  pub Client : Type 0
  pub DbHandle : Type 0
  pub AttachmentConfig : Type 0
  pub TrHandle : Type 0
  pub StmtHandle : Type 0
  pub attach_database : AttachmentConfig → Dialect → Bool → Parser Client DbHandle
  pub detach_database : Parser (Client × DbHandle) (Unit {0})
  pub drop_database : Parser (Client × DbHandle) (Unit {0})
  pub create_database : AttachmentConfig → Option ℕ → Dialect → Parser Client DbHandle
  pub begin_transaction : TransactionConfiguration → Parser (Client × DbHandle) TrHandle
  pub transaction_operation : TrOp → Parser (Client × TrHandle) (Unit {0})
  pub exec_immediate : Dialect → Bytes → Parser (Client × DbHandle × TrHandle) (Unit {0})
  pub prepare_statement :
      Dialect → Bytes → Parser (Client × DbHandle × TrHandle) (StmtType × StmtHandle)
  pub free_statement : FreeStmtOp → Parser (Client × StmtHandle) (Unit {0})
  pub execute : List SqlType → Parser (Client × DbHandle × TrHandle × StmtHandle) ℕ
  pub execute2 : List SqlType → Parser (Client × DbHandle × TrHandle × StmtHandle) (List Column)
  pub fetch : Parser (Client × DbHandle × TrHandle × StmtHandle) (Option (List Column))

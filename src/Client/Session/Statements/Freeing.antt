-- ===== src/Client/Session/Statements/Freeing.antt =====
-- rsfbclient-rust/src/client.rs, `free_statement`: the response that is left to be read later.
use rsfbclient.Base.{◌+◌, ◌%◌, ◌^◌, ◌-◌, ◌++◌}
use rsfbclient.Wire.Requests
use rsfbclient.Wire.Requests.{FreeStmtOp}
use rsfbclient.Client.Session.{Session}
use rsfbclient.Client.Session.Statements.{StmtHandleData, free_statement}

-- The session behind the request of `free_statement`.
abbrev pub freed : Session → StmtHandleData → FreeStmtOp → Session
freed s stmt stmt_op = record s {
  sent = s.sent ++ Requests.free_statement stmt.handle stmt_op;
  writes = s.writes - 1;
  conn = record s.conn { lazy_count = (s.conn.lazy_count + 1) % 2 ^ 32 };
}

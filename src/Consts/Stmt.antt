-- ===== src/Consts/Stmt.antt =====
-- rsfbclient-core/src/connection.rs, `StmtType`: the kinds of statements and their numbers.
use rsfbclient.Base.{◌==◌, if◌then◌else◌, ℕ}
use rsfbclient.Error.{other, unknown_stmt_type, Result, ok, err}

pub data StmtType : Type 0 where
  select insert update delete ddl get_segment put_segment exec_procedure start_trans commit :
      StmtType
  rollback select_for_upd set_generator savepoint : StmtType

-- `StmtType::try_from`
unfoldable pub stmt_type_from : ℕ → Result StmtType
stmt_type_from n =
    if n == 1
    then ok select
    else (if n == 2
        then ok insert
        else (if n == 3
            then ok update
            else (if n == 4
                then ok delete
                else (if n == 5
                    then ok ddl
                    else (if n == 6
                        then ok get_segment
                        else (if n == 7
                            then ok put_segment
                            else (if n == 8
                                then ok exec_procedure
                                else (if n == 9
                                    then ok start_trans
                                    else (if n == 10
                                        then ok commit
                                        else (if n == 11
                                            then ok rollback
                                            else (if n == 12
                                                then ok select_for_upd
                                                else (if n == 13
                                                    then ok set_generator
                                                    else (if n == 14
                                                        then ok savepoint
                                                        else err (
                                                            other
                                                            (unknown_stmt_type n)))))))))))))))

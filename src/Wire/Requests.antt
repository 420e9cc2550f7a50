-- ===== src/Wire/Requests.antt =====
-- rsfbclient-rust/src/wire.rs: the requests that the client writes. `x as u8` is `x % 2 ^ 8` in
-- `put_u8`, and `x.len() as u32` is inside `put_wire_bytes`.
use rsfbclient.Base.{
  ◌==◌, if◌then◌else◌, length, concat, ℕ, ◌+◌, ◌%◌, ◌^◌, List, [], ◌∷◌, ◌++◌, Bytes,
}
use rsfbclient.Base.Chunks.{chunks}
use rsfbclient.Error.{Result, ok}
use rsfbclient.Error.Chain.{◌>>=◌}
use rsfbclient.Charset.{Charset, encode}
use rsfbclient.Util.{put_u8, put_u32, put_u64, put_wire_bytes}
use rsfbclient.Consts.{
  v10, v11, v12, v13, version_code, p_req_async, AuthPluginType, srp, name, plugin_list,
}
use rsfbclient.Consts.Op.{WireOp, op}
use rsfbclient.Consts.Cnct.{Cnct, cnct_code}
use rsfbclient.Consts.Ibase.{
  isc_info_sql_stmt_type, isc_info_sql_bind, isc_info_sql_describe_vars, isc_info_sql_describe_end,
  isc_info_sql_select, isc_info_sql_sqlda_seq, isc_info_sql_type, isc_info_sql_sub_type,
  isc_info_sql_scale, isc_info_sql_length, isc_info_sql_null_ind, isc_info_sql_field,
  isc_info_sql_relation, isc_info_sql_owner, isc_info_sql_alias, dsql_close, dsql_drop,
}

abbrev pub buffer_length : ℕ
buffer_length = 1024

pub data TrOp : Type 0 where
  commit commit_retaining rollback rollback_retaining : TrOp

pub data FreeStmtOp : Type 0 where
  close drop_stmt : FreeStmtOp

abbrev free_code : FreeStmtOp → ℕ
free_code close = dsql_close
free_code drop_stmt = dsql_drop

abbrev tr_op : TrOp → WireOp
tr_op commit = WireOp.commit
tr_op commit_retaining = WireOp.commit_retaining
tr_op rollback = WireOp.rollback
tr_op rollback_retaining = WireOp.rollback_retaining

-- `[PROTOCOL_VERSION, arch, min, max, weight]` of the four versions.
abbrev protocols : List (List ℕ)
protocols =
    (version_code v10 ∷ 1 ∷ 0 ∷ 5 ∷ 2 ∷ [])
    ∷ (version_code v11 ∷ 1 ∷ 0 ∷ 5 ∷ 4 ∷ [])
    ∷ (version_code v12 ∷ 1 ∷ 0 ∷ 5 ∷ 6 ∷ [])
    ∷ (version_code v13 ∷ 1 ∷ 0 ∷ 5 ∷ 8 ∷ [])
    ∷ []

abbrev put_all_u32 : List ℕ → Bytes
put_all_u32 [] = []
put_all_u32 (n ∷ ns) = put_u32 n ++ put_all_u32 ns

-- A tagged entry of the user identification data: its length is one byte.
unfoldable pub uid_entry : Cnct → Bytes → Bytes
uid_entry tag text = put_u8 (cnct_code tag) ++ (put_u8 (length text) ++ text)

-- One `specific_data` entry for each 254 bytes of the key, numbered from `i`.
abbrev key_entries : ℕ → List Bytes → Bytes
key_entries i [] = []
key_entries i (pk_chunk ∷ rest) =
    put_u8 (cnct_code Cnct.specific_data)
    ++ (put_u8 (length pk_chunk % 2 ^ 8 + 1)
        ++ (put_u8 i ++ (pk_chunk ++ key_entries (i + 1) rest)))

abbrev wire_crypt : Bytes
wire_crypt = 1 ∷ 0 ∷ 0 ∷ 0 ∷ []

-- The user identification; `pubkey` is the hexadecimal text of the client's public SRP key.
unfoldable pub uid : Bytes → Bytes → Bytes → Bytes → Bytes
unfolding uid_entry
uid user username hostname pubkey =
    uid_entry Cnct.login user
    ++ (uid_entry Cnct.plugin_name (name srp)
        ++ (uid_entry Cnct.plugin_list plugin_list
            ++ (key_entries 0 (chunks 254 pubkey)
                ++ (uid_entry Cnct.client_crypt wire_crypt
                    ++ (uid_entry Cnct.user username
                        ++ (uid_entry Cnct.host hostname
                            ++ (put_u8 (cnct_code Cnct.user_verification) ++ put_u8 0)))))))

unfoldable pub connect : Bytes → Bytes → Bytes → Bytes → Bytes → Bytes
connect db_name user username hostname pubkey =
    put_u32 (op WireOp.connect)
    ++ (put_u32 (op WireOp.attach)
        ++ (put_u32 3
            ++ (put_u32 1
                ++ (put_wire_bytes db_name
                    ++ (put_u32 (length protocols)
                        ++ (put_wire_bytes (uid user username hostname pubkey)
                            ++ put_all_u32 (concat protocols)))))))

unfoldable pub cont_auth : Bytes → AuthPluginType → Bytes → Bytes → Bytes
cont_auth proof plugin plugins keys =
    put_u32 (op WireOp.cont_auth)
    ++ (put_wire_bytes proof
        ++ (put_wire_bytes (name plugin) ++ (put_wire_bytes plugins ++ put_wire_bytes keys)))

unfoldable pub crypt : Bytes → Bytes → Bytes
crypt algo kind = put_u32 (op WireOp.crypt) ++ (put_wire_bytes algo ++ put_wire_bytes kind)

unfoldable pub detach : ℕ → Bytes
detach db_handle = put_u32 (op WireOp.detach) ++ put_u32 db_handle

unfoldable pub drop_database : ℕ → Bytes
drop_database db_handle = put_u32 (op WireOp.drop_database) ++ put_u32 db_handle

unfoldable pub transaction : ℕ → Bytes → Bytes
transaction db_handle tpb =
    put_u32 (op WireOp.transaction) ++ (put_u32 db_handle ++ put_wire_bytes tpb)

unfoldable pub transaction_operation : ℕ → TrOp → Bytes
transaction_operation tr_handle o = put_u32 (op (tr_op o)) ++ put_u32 tr_handle

unfoldable pub exec_immediate : ℕ → ℕ → Bytes → Charset → Result Bytes
exec_immediate tr_handle dialect statement charset = do
  bytes ← encode charset statement
  ok (
      put_u32 (op WireOp.exec_immediate)
      ++ (put_u32 tr_handle
          ++ (put_u32 0
              ++ (put_u32 dialect
                  ++ (put_wire_bytes bytes ++ (put_u32 0 ++ put_u32 buffer_length))))))

unfoldable pub allocate_statement : ℕ → Bytes
allocate_statement db_handle = put_u32 (op WireOp.allocate_statement) ++ put_u32 db_handle

-- `XSQLDA_DESCRIBE_VARS` of rsfbclient-rust/src/xsqlda.rs
abbrev pub xsqlda_describe_vars : Bytes
xsqlda_describe_vars =
    isc_info_sql_stmt_type ∷ isc_info_sql_bind ∷ isc_info_sql_describe_vars
    ∷ isc_info_sql_describe_end ∷ isc_info_sql_select ∷ isc_info_sql_describe_vars
    ∷ isc_info_sql_sqlda_seq ∷ isc_info_sql_type ∷ isc_info_sql_sub_type ∷ isc_info_sql_scale
    ∷ isc_info_sql_length ∷ isc_info_sql_null_ind ∷ isc_info_sql_field ∷ isc_info_sql_relation
    ∷ isc_info_sql_owner ∷ isc_info_sql_alias ∷ isc_info_sql_describe_end ∷ []

unfoldable pub prepare_statement : ℕ → ℕ → ℕ → Bytes → Charset → Result Bytes
prepare_statement tr_handle stmt_handle dialect query charset = do
  bytes ← encode charset query
  ok (
      put_u32 (op WireOp.prepare_statement)
      ++ (put_u32 tr_handle
          ++ (put_u32 stmt_handle
              ++ (put_u32 dialect
                  ++ (put_wire_bytes bytes
                      ++ (put_wire_bytes xsqlda_describe_vars ++ put_u32 buffer_length))))))

unfoldable pub info_sql : ℕ → Bytes → Bytes
info_sql stmt_handle requested_items =
    put_u32 (op WireOp.info_sql)
    ++ (put_u32 stmt_handle
        ++ (put_u32 0 ++ (put_wire_bytes requested_items ++ put_u32 buffer_length)))

unfoldable pub free_statement : ℕ → FreeStmtOp → Bytes
free_statement stmt_handle o =
    put_u32 (op WireOp.free_statement) ++ (put_u32 stmt_handle ++ put_u32 (free_code o))

-- `if input_blr.is_empty() { 0 } else { 1 }`
abbrev message_count : Bytes → ℕ
message_count input_blr = if length input_blr == 0 then 0 else 1

unfoldable pub execute : ℕ → ℕ → Bytes → Bytes → Bytes
execute tr_handle stmt_handle input_blr input_data =
    put_u32 (op WireOp.execute)
    ++ (put_u32 stmt_handle
        ++ (put_u32 tr_handle
            ++ (put_wire_bytes input_blr
                ++ (put_u32 0 ++ (put_u32 (message_count input_blr) ++ input_data)))))

unfoldable pub execute2 : ℕ → ℕ → Bytes → Bytes → Bytes → Bytes
execute2 tr_handle stmt_handle input_blr input_data output_blr =
    put_u32 (op WireOp.execute2)
    ++ (put_u32 stmt_handle
        ++ (put_u32 tr_handle
            ++ (put_wire_bytes input_blr
                ++ (put_u32 0
                    ++ (put_u32 (message_count input_blr)
                        ++ (input_data ++ (put_wire_bytes output_blr ++ put_u32 0)))))))

unfoldable pub fetch : ℕ → Bytes → ℕ → Bytes
fetch stmt_handle blr count =
    put_u32 (op WireOp.fetch)
    ++ (put_u32 stmt_handle ++ (put_wire_bytes blr ++ (put_u32 0 ++ put_u32 count)))

unfoldable pub connect_request : ℕ → Bytes
connect_request db_handle =
    put_u32 (op WireOp.connect_request) ++ (put_u32 p_req_async ++ (put_u32 db_handle ++ put_u32 0))

unfoldable pub que_events : ℕ → Bytes → ℕ → Bytes
que_events db_handle epb event_id =
    put_u32 (op WireOp.que_events)
    ++ (put_u32 db_handle ++ (put_wire_bytes epb ++ (put_u32 0 ++ (put_u32 0 ++ put_u32 event_id))))

unfoldable pub cancel_events : ℕ → ℕ → Bytes
cancel_events db_handle event_id =
    put_u32 (op WireOp.cancel_events) ++ (put_u32 db_handle ++ put_u32 event_id)

unfoldable pub create_blob : ℕ → Bytes
create_blob tr_handle = put_u32 (op WireOp.create_blob) ++ (put_u32 tr_handle ++ put_u64 0)

unfoldable pub open_blob : ℕ → ℕ → Bytes
open_blob tr_handle blob_id =
    put_u32 (op WireOp.open_blob) ++ (put_u32 tr_handle ++ put_u64 blob_id)

unfoldable pub get_segment : ℕ → Bytes
get_segment blob_handle =
    put_u32 (op WireOp.get_segment) ++ (put_u32 blob_handle ++ (put_u32 buffer_length ++ put_u32 0))

unfoldable pub put_segment : ℕ → Bytes → Bytes
put_segment blob_handle segment =
    put_u32 (op WireOp.put_segment)
    ++ (put_u32 blob_handle ++ (put_u32 (length segment % 2 ^ 32) ++ put_wire_bytes segment))

unfoldable pub close_blob : ℕ → Bytes
close_blob blob_handle = put_u32 (op WireOp.close_blob) ++ put_u32 blob_handle

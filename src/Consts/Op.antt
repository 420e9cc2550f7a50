-- ===== src/Consts/Op.antt =====
-- rsfbclient-rust/src/consts.rs, `WireOp`: the operations of the wire protocol and their numbers.
use rsfbclient.Base.{ℕ}

pub data WireOp : Type 0 where
  connect exit accept reject disconnect response attach create detach transaction commit : WireOp
  rollback create_blob open_blob get_segment put_segment cancel_blob close_blob : WireOp
  info_database info_transaction batch_segments que_events cancel_events commit_retaining : WireOp
  event connect_request open_blob2 create_blob2 allocate_statement execute exec_immediate : WireOp
  fetch fetch_response free_statement prepare_statement info_sql dummy execute2 : WireOp
  sql_response drop_database service_attach service_detach service_info service_start : WireOp
  rollback_retaining partial trusted_auth cancel cont_auth ping accept_data : WireOp
  abort_aux_connection crypt crypt_key_callback cond_accept : WireOp

-- `op as u32`
abbrev pub op : WireOp → ℕ
op connect = 1
op exit = 2
op accept = 3
op reject = 4
op disconnect = 6
op response = 9
op attach = 19
op create = 20
op detach = 21
op transaction = 29
op commit = 30
op rollback = 31
op create_blob = 34
op open_blob = 35
op get_segment = 36
op put_segment = 37
op cancel_blob = 38
op close_blob = 39
op info_database = 40
op info_transaction = 42
op batch_segments = 44
op que_events = 48
op cancel_events = 49
op commit_retaining = 50
op event = 52
op connect_request = 53
op open_blob2 = 56
op create_blob2 = 57
op allocate_statement = 62
op execute = 63
op exec_immediate = 64
op fetch = 65
op fetch_response = 66
op free_statement = 67
op prepare_statement = 68
op info_sql = 70
op dummy = 71
op execute2 = 76
op sql_response = 78
op drop_database = 81
op service_attach = 82
op service_detach = 83
op service_info = 84
op service_start = 85
op rollback_retaining = 86
op partial = 89
op trusted_auth = 90
op cancel = 91
op cont_auth = 92
op ping = 93
op accept_data = 94
op abort_aux_connection = 95
op crypt = 96
op crypt_key_callback = 97
op cond_accept = 98

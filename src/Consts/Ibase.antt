-- ===== src/Consts/Ibase.antt =====
-- rsfbclient-core/src/ibase.rs: the numbers of the Firebird api that the modelled code names.
use rsfbclient.Base.{ℕ}

abbrev pub isc_arg_end : ℕ
isc_arg_end = 0

abbrev pub isc_arg_gds : ℕ
isc_arg_gds = 1

abbrev pub isc_arg_string : ℕ
isc_arg_string = 2

abbrev pub isc_arg_number : ℕ
isc_arg_number = 4

abbrev pub isc_arg_interpreted : ℕ
isc_arg_interpreted = 5

abbrev pub isc_arg_sql_state : ℕ
isc_arg_sql_state = 19

abbrev pub isc_dpb_version1 : ℕ
isc_dpb_version1 = 1

abbrev pub isc_dpb_version2 : ℕ
isc_dpb_version2 = 2

abbrev pub isc_dpb_page_size : ℕ
isc_dpb_page_size = 4

abbrev pub isc_dpb_lc_ctype : ℕ
isc_dpb_lc_ctype = 48

abbrev pub isc_dpb_user_name : ℕ
isc_dpb_user_name = 28

abbrev pub isc_dpb_sql_role_name : ℕ
isc_dpb_sql_role_name = 60

abbrev pub isc_dpb_sql_dialect : ℕ
isc_dpb_sql_dialect = 63

abbrev pub isc_dpb_no_db_triggers : ℕ
isc_dpb_no_db_triggers = 72

abbrev pub isc_dpb_password : ℕ
isc_dpb_password = 29

abbrev pub isc_dpb_password_enc : ℕ
isc_dpb_password_enc = 30

abbrev pub isc_dpb_auth_plugin_name : ℕ
isc_dpb_auth_plugin_name = 86

abbrev pub isc_dpb_auth_plugin_list : ℕ
isc_dpb_auth_plugin_list = 85

abbrev pub isc_dpb_specific_auth_data : ℕ
isc_dpb_specific_auth_data = 84

abbrev pub isc_info_end : ℕ
isc_info_end = 1

abbrev pub isc_info_truncated : ℕ
isc_info_truncated = 2

abbrev pub isc_info_sql_records : ℕ
isc_info_sql_records = 23

abbrev pub isc_info_req_select_count : ℕ
isc_info_req_select_count = 13

abbrev pub isc_info_req_insert_count : ℕ
isc_info_req_insert_count = 14

abbrev pub isc_info_req_update_count : ℕ
isc_info_req_update_count = 15

abbrev pub isc_info_req_delete_count : ℕ
isc_info_req_delete_count = 16

abbrev pub isc_info_sql_stmt_type : ℕ
isc_info_sql_stmt_type = 21

abbrev pub isc_info_sql_bind : ℕ
isc_info_sql_bind = 5

abbrev pub isc_info_sql_describe_vars : ℕ
isc_info_sql_describe_vars = 7

abbrev pub isc_info_sql_describe_end : ℕ
isc_info_sql_describe_end = 8

abbrev pub isc_info_sql_select : ℕ
isc_info_sql_select = 4

abbrev pub isc_info_sql_sqlda_seq : ℕ
isc_info_sql_sqlda_seq = 9

abbrev pub isc_info_sql_type : ℕ
isc_info_sql_type = 11

abbrev pub isc_info_sql_sub_type : ℕ
isc_info_sql_sub_type = 12

abbrev pub isc_info_sql_scale : ℕ
isc_info_sql_scale = 13

abbrev pub isc_info_sql_length : ℕ
isc_info_sql_length = 14

abbrev pub isc_info_sql_null_ind : ℕ
isc_info_sql_null_ind = 15

abbrev pub isc_info_sql_field : ℕ
isc_info_sql_field = 16

abbrev pub isc_info_sql_relation : ℕ
isc_info_sql_relation = 17

abbrev pub isc_info_sql_owner : ℕ
isc_info_sql_owner = 18

abbrev pub isc_info_sql_alias : ℕ
isc_info_sql_alias = 19

abbrev pub isc_info_sql_sqlda_start : ℕ
isc_info_sql_sqlda_start = 20

abbrev pub isc_tpb_version3 : ℕ
isc_tpb_version3 = 3

abbrev pub isc_tpb_consistency : ℕ
isc_tpb_consistency = 1

abbrev pub isc_tpb_concurrency : ℕ
isc_tpb_concurrency = 2

abbrev pub isc_tpb_wait : ℕ
isc_tpb_wait = 6

abbrev pub isc_tpb_nowait : ℕ
isc_tpb_nowait = 7

abbrev pub isc_tpb_read : ℕ
isc_tpb_read = 8

abbrev pub isc_tpb_write : ℕ
isc_tpb_write = 9

abbrev pub isc_tpb_read_committed : ℕ
isc_tpb_read_committed = 15

abbrev pub isc_tpb_rec_version : ℕ
isc_tpb_rec_version = 17

abbrev pub isc_tpb_no_rec_version : ℕ
isc_tpb_no_rec_version = 18

abbrev pub isc_tpb_lock_timeout : ℕ
isc_tpb_lock_timeout = 21

abbrev pub sql_text : ℕ
sql_text = 452

abbrev pub sql_varying : ℕ
sql_varying = 448

abbrev pub sql_short : ℕ
sql_short = 500

abbrev pub sql_long : ℕ
sql_long = 496

abbrev pub sql_float : ℕ
sql_float = 482

abbrev pub sql_double : ℕ
sql_double = 480

abbrev pub sql_timestamp : ℕ
sql_timestamp = 510

abbrev pub sql_blob : ℕ
sql_blob = 520

abbrev pub sql_type_time : ℕ
sql_type_time = 560

abbrev pub sql_type_date : ℕ
sql_type_date = 570

abbrev pub sql_int64 : ℕ
sql_int64 = 580

abbrev pub sql_boolean : ℕ
sql_boolean = 32764

abbrev pub dsql_close : ℕ
dsql_close = 1

abbrev pub dsql_drop : ℕ
dsql_drop = 2

-- ===== src/Tests/Prepare.antt =====
-- Witnesses for `prepare_statement` of rsfbclient-rust/src/client.rs and `into_column` of wire.rs.
use rsfbclient.Base.{◌-◌, ◌≡◌, refl, false, none, [], ◌∷◌, ◌++◌, append-nil, arith, Bytes}
use rsfbclient.Base.Int.{pos, unsigned}
use rsfbclient.Charset.{decode, encode, utf_8}
use rsfbclient.Consts.{v12}
use rsfbclient.Consts.Stmt.{StmtType, stmt_type_from}
use rsfbclient.Consts.Ibase.{sql_blob}
use rsfbclient.Reader.{done}
use rsfbclient.SqlTypes.{SqlType}
use rsfbclient.Consts.Op.{WireOp, op}
use rsfbclient.Util.{put_u32, padding, put_wire_bytes}
use rsfbclient.Wire.Requests
use rsfbclient.Wire.Attach.{d3}
use rsfbclient.Wire.Rows.{blob}
use rsfbclient.Wire.Text.Utf8.{utf8_step, is_utf8}
use rsfbclient.Xsqlda.{
  XSqlVar, default_var, column_type, coerce_as, coerce, coerce_all, blr_type, xsqlda_to_blr,
}
use rsfbclient.Xsqlda.Parse.Columns.{VarFits, number_columns, name_columns, column_bytes}
use rsfbclient.Xsqlda.Parse.Prepared.{Description, description_bytes}
use rsfbclient.Client.Read.{chunk}
use rsfbclient.Client.Lazy.Order.{Packet, packet_bytes}
use rsfbclient.Wire.Requests.{allocate_statement}
use rsfbclient.Client.Session.{Session}
use rsfbclient.Client.Session.Exchange.{Holds}
use rsfbclient.Client.Session.Blobs.{into_column}
use rsfbclient.Client.Session.Blobs.Whole.{
  ValueOf, of_text, BlobReplies, blob_bytes, whole_data, BlobFits, into_column-blob,
}
use rsfbclient.Client.Session.Statements.{prepare_statement}
use rsfbclient.Client.Session.Statements.Preparing.{Describes, prepare_statement-description}
use rsfbclient.Consts.Op.{WireOp, op}
use rsfbclient.Xsqlda.Parse.Described.{columns_bytes}

abbrev flag : XSqlVar
flag = record default_var { sqltype = pos 32764; alias_name = b'F' ∷ [] }

flag-fits : VarFits flag
unfolding is_utf8 utf8_step
flag-fits = record {
  sqltype_fits = omega arith;
  sqlsubtype_fits = omega arith;
  scale_fits = omega arith;
  data_length_fits = omega arith;
  field_fits = (omega arith, refl);
  relation_fits = (omega arith, refl);
  owner_fits = (omega arith, refl);
  alias_fits = (omega arith, refl);
}

abbrev one_flag : Description
one_flag = record { code = 1; params = 0; columns = flag ∷ []; more = false }

abbrev alloc : Packet
alloc = record { keepalives = 0; response = record { handle = 3; object_id = 0; contents = [] } }

abbrev prepared : Packet
prepared = record {
  keepalives = 1;
  response = record { handle = 0; object_id = 0; contents = description_bytes one_flag };
}

abbrev session_on : Bytes → Session
session_on bytes = record {
  conn = record { pending = []; lazy_count = 0; socket = chunk bytes ∷ [] };
  sent = [];
  writes = 9;
  version = v12;
  charset = utf_8;
  auth_plugin = none;
  srp_key = [];
  next_event_id = 1;
}

abbrev answers : Bytes
answers = packet_bytes alloc ++ (packet_bytes prepared ++ (9 ∷ []))

abbrev query : Bytes
query = b's' ∷ []

abbrev asking : Bytes
asking =
    put_u32 (op WireOp.prepare_statement)
    ++ (put_u32 4
        ++ (put_u32 4_294_967_295
            ++ (put_u32 3
                ++ (put_wire_bytes query
                    ++ (put_wire_bytes Requests.xsqlda_describe_vars
                        ++ put_u32 Requests.buffer_length)))))

abbrev flag_blr : Bytes
flag_blr = 5 ∷ 2 ∷ 4 ∷ 0 ∷ 2 ∷ 0 ∷ 23 ∷ 7 ∷ 0 ∷ 255 ∷ 76 ∷ []

abbrev coerced_flag : XSqlVar
coerced_flag = record flag { sqltype = pos 32765 }

prepared-Describes :
    Describes d3 4 query
      (session_on answers)
      alloc
      prepared
      one_flag
      StmtType.select
      asking
      (coerced_flag ∷ [])
      flag_blr
      (9 ∷ [])
unfolding Requests.prepare_statement encode description_bytes columns_bytes column_bytes
    number_columns name_columns unsigned stmt_type_from coerce_all coerce coerce_as column_type
    xsqlda_to_blr blr_type put_wire_bytes padding
prepared-Describes = record {
  writable = omega arith;
  encodes = refl;
  alloc_fits = record {
    handle_fits = omega arith;
    object_id_fits = omega arith;
    contents_fits = omega arith;
  };
  prepared_fits = record {
    handle_fits = omega arith;
    object_id_fits = omega arith;
    contents_fits = omega arith;
  };
  described = refl;
  holds = record { opened = (omega arith, tt); lazy_none = refl; unread = append-nil answers };
  code_fits = omega arith;
  code_known = refl;
  params_fit = omega arith;
  columns_few = omega arith;
  columns_fit = (flag-fits, tt);
  whole = refl;
  coerces = refl;
  converts = refl;
}

prepare_statement-description_example :
    (s' : Session) × (prepare_statement (λ code. []) 1 4 d3 query (session_on answers)
      ≡ done
          (
            StmtType.select,
            record {
              handle = 3;
              xsqlda = coerced_flag ∷ [];
              blr = flag_blr;
              param_count = 0;
              prefetched = [];
              cursor_eof = false;
            },
          )
          s')
    × (s'.sent ≡ ((session_on answers).sent ++ allocate_statement 1) ++ asking)
    × (s'.writes ≡ (session_on answers).writes - 2)
    × Holds s' (9 ∷ [])
prepare_statement-description_example =
    prepare_statement-description (λ code. []) 1 4 d3 query (session_on answers) alloc prepared
      one_flag StmtType.select asking (coerced_flag ∷ []) flag_blr (9 ∷ []) prepared-Describes

-- "abc" in two answers.
abbrev ended : Packet
ended = record { keepalives = 0; response = record { handle = 0; object_id = 0; contents = [] } }

abbrev abc : BlobReplies
abc = record {
  opened = alloc;
  replies = record { keepalives = 0; object_id = 0; parts = (b'a' ∷ []) ∷ (b'b' ∷ []) ∷ [] } ∷ [];
  last = record { keepalives = 1; object_id = 0; parts = (b'c' ∷ []) ∷ [] };
  closed = ended;
}

abc-BlobFits : BlobFits abc
abc-BlobFits = record {
  opened_fits = record {
    handle_fits = omega arith;
    object_id_fits = omega arith;
    contents_fits = omega arith;
  };
  replies_fit = (
    (
      record {
        handle_fits = omega arith;
        object_id_fits = omega arith;
        contents_fits = omega arith;
      },
      (omega arith, (omega arith, tt)),
    ),
    tt,
  );
  last_fits = (
    record { handle_fits = omega arith; object_id_fits = omega arith; contents_fits = omega arith },
    (omega arith, tt),
  );
  closed_fits = record {
    handle_fits = omega arith;
    object_id_fits = omega arith;
    contents_fits = omega arith;
  };
}

abc_text : ValueOf utf_8 (whole_data abc) false (SqlType.text (b'a' ∷ b'b' ∷ b'c' ∷ []))
unfolding decode is_utf8 utf8_step whole_data
abc_text = of_text refl

abc-Holds : Holds (session_on (blob_bytes abc)) (blob_bytes abc ++ [])
unfolding put_wire_bytes padding blob_bytes
abc-Holds = record { opened = (omega arith, tt); lazy_none = refl; unread = refl }

into_column-blob_example :
    (s' : Session) × (into_column
        (λ code. [])
        1
        (blob false 77 (b'T' ∷ []))
        (session_on (blob_bytes abc))
      ≡ done
          (record {
            name = b'T' ∷ [];
            raw_type = sql_blob;
            value = SqlType.text (b'a' ∷ b'b' ∷ b'c' ∷ []);
          })
          s')
    × Holds s' []
into_column-blob_example =
    into_column-blob (λ code. []) 1 77 (b'T' ∷ []) false (SqlType.text (b'a' ∷ b'b' ∷ b'c' ∷ []))
      abc (session_on (blob_bytes abc)) [] (omega arith) abc-BlobFits abc_text abc-Holds

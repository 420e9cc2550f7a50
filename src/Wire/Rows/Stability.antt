-- ===== src/Wire/Rows/Stability.antt =====
-- rsfbclient-rust/src/wire.rs, `parse_fetch_response`: bytes that arrive later do not change a row.
use rsfbclient.Base.{ℕ, ◌+◌, Option, none, some, List, [], ◌∷◌, Bytes}
use rsfbclient.Reader.{Parser, bytes_stream}
use rsfbclient.Reader.Stable.{
  Stable, Stable-pure, Stable-fail, Stable-if, Stable-bind, stable_rules,
}
use rsfbclient.Util.Reads.{stable_reads}
use rsfbclient.Wire.Rows.{
  ParsedColumn, read_null_map, read_null, null_before, with_null, parse_value, parse_column,
  parse_columns, parse_sql_response, parse_fetch_response, or_panic, read_timestamp, read_boolean,
}
use rsfbclient.Charset.{Charset}
use rsfbclient.DateTime.{NaiveDateTime}
use rsfbclient.Consts.{ProtocolVersion}
use rsfbclient.Xsqlda.{XSqlVar}

Stable-or_panic : (o : Option NaiveDateTime) → Stable (or_panic o)
Stable-or_panic none = Stable-fail _
Stable-or_panic (some dt) = Stable-pure dt

Stable-read_null_map : (version : ProtocolVersion) (n : ℕ) → Stable (read_null_map version n)
unfolding read_null_map
Stable-read_null_map version n = search stable_reads depth 9

Stable-read_null : (null_map : Option Bytes) (i : ℕ) → Stable (read_null null_map i)
unfolding read_null
Stable-read_null none i = search stable_reads depth 9
Stable-read_null (some m) i = search stable_reads depth 9

Stable-null_before : (null_map : Option Bytes) (i : ℕ) → Stable (null_before null_map i)
unfolding null_before
Stable-null_before none i = search stable_reads depth 9
Stable-null_before (some m) i = Stable-read_null (some m) i

Stable-read_timestamp : Stable read_timestamp
unfolding read_timestamp
Stable-read_timestamp = search stable_reads depth 9

Stable-read_boolean : Stable read_boolean
unfolding read_boolean
Stable-read_boolean = search stable_reads depth 9

module _ (charset : Charset) (null_map : Option Bytes) (i : ℕ) (var : XSqlVar) where
  Stable-with_null :
      {A : Type 0} (read : Parser Bytes A) (value : A → Parser Bytes ParsedColumn)
      → Stable read
      → ((a : A) → Stable (value a))
      → Stable (with_null charset null_map i var read value)
  unfolding with_null
  Stable-with_null read value hr hv = Stable-bind read _ hr (λ d.
      Stable-bind (read_null null_map i) _ (Stable-read_null null_map i)
        (λ missing. Stable-if missing _ _ (λ e. Stable-pure _) (λ e. hv d)))

  Stable-parse_value : (sqltype : ℕ) → Stable (parse_value charset null_map i var sqltype)
  unfolding parse_value
  Stable-parse_value sqltype =
      search
        (
          Stable-with_null, Stable-or_panic, Stable-read_timestamp, Stable-read_boolean,
          stable_reads,
        )
        depth 20

  Stable-parse_column : Stable (parse_column charset null_map i var)
  unfolding parse_column
  Stable-parse_column = search (Stable-parse_value, Stable-null_before, stable_rules) depth 9

Stable-parse_columns :
    (charset : Charset) (null_map : Option Bytes) (i : ℕ) (xsqlda : List XSqlVar)
    → Stable (parse_columns charset null_map i xsqlda)
unfolding parse_columns
Stable-parse_columns charset null_map i [] = Stable-pure []
Stable-parse_columns charset null_map i (var ∷ xsqlda) =
    Stable-bind (parse_column charset null_map i var) _ (Stable-parse_column charset null_map i var)
      (λ column.
        Stable-bind (parse_columns charset null_map (i + 1) xsqlda) _
          (Stable-parse_columns charset null_map (i + 1) xsqlda) (λ rest. Stable-pure _))

pub Stable-parse_sql_response :
    (xsqlda : List XSqlVar) (version : ProtocolVersion) (charset : Charset)
    → Stable (parse_sql_response xsqlda version charset)
unfolding parse_sql_response
Stable-parse_sql_response xsqlda version charset =
    search (Stable-read_null_map, Stable-parse_columns, stable_reads) depth 9

pub Stable-parse_fetch_response :
    (xsqlda : List XSqlVar) (version : ProtocolVersion) (charset : Charset)
    → Stable (parse_fetch_response xsqlda version charset)
unfolding parse_fetch_response
Stable-parse_fetch_response xsqlda version charset =
    search (Stable-parse_sql_response, stable_reads) depth 9

-- ===== src/Wire/Rows/Data.antt =====
-- rsfbclient-rust/src/wire.rs, `parse_sql_response`: the data of one column, and its null indicator.
use rsfbclient.Base.{
  if◌then◌else◌, length, ℕ, ◌^◌, ◌<◌, ◌≡◌, refl, ◌∙◌, Bool, true, false, Option, none, some, [],
  ◌∷◌, ◌++◌, arith, Bytes,
}
use rsfbclient.Error.{ok}
use rsfbclient.Charset.{Charset, decode}
use rsfbclient.Consts.Ibase.{
  sql_varying, sql_double, sql_timestamp, sql_blob, sql_int64, sql_boolean,
}
use rsfbclient.DateTime.{NaiveDateTime, IscTimestamp, decode_timestamp}
use rsfbclient.SqlTypes.{SqlType}
use rsfbclient.Reader.{done, Parser, pure}
use rsfbclient.Util.{
  put_u32, put_u64, put_i32, put_i64, put_wire_bytes, get_u64, get_i64, get_f64, get_wire_bytes,
}
use rsfbclient.Xsqlda.{XSqlVar, column_type, is_plain_blob, is_zero}
use rsfbclient.Wire.Rows.{
  ParsedColumn, blob, read_null, complete_column, with_null, parse_value, read_timestamp,
  read_boolean,
}
use rsfbclient.Base.Int.{ℤ, half32, half64, InRange}
use rsfbclient.Util.RoundTrip.{
  advance-append, get_u8-put_u8, get_u32-put_u32, get_u64-put_u64, get_i32-put_i32, get_i64-put_i64,
  get_wire_bytes-put_wire_bytes,
}
use rsfbclient.Wire.Rows.Bits.{Marked, null_bit-Marked}

-- The data of a column as the server sends it.
pub data Datum : Type 0 where
  text : Bytes → Datum
  integer : ℤ → Datum
  floating : ℕ → Datum
  timestamp : IscTimestamp → Datum
  blob_id : ℕ → Datum
  boolean : Bool → Datum

unfoldable pub datum_bytes : Datum → Bytes
datum_bytes (text d) = put_wire_bytes d
datum_bytes (integer n) = put_i64 n
datum_bytes (floating f) = put_u64 f
datum_bytes (timestamp ts) = put_i32 ts.timestamp_date ++ put_u32 ts.timestamp_time
datum_bytes (blob_id id) = put_u64 id
datum_bytes (boolean true) = 1 ∷ 0 ∷ 0 ∷ 0 ∷ []
datum_bytes (boolean false) = 0 ∷ 0 ∷ 0 ∷ 0 ∷ []

-- The datum is one of the column's type, and this is the column that it makes.
pub data ColumnOf (charset : Charset) (var : XSqlVar) : Datum → ParsedColumn → Type 0 where
  is_text :
      {d s : Bytes}
      → column_type var.sqltype ≡ sql_varying
      → length d < 2 ^ 32
      → decode charset d ≡ ok s
      → ColumnOf charset var (text d) (complete_column var (SqlType.text s))
  is_integer :
      {n : ℤ}
      → column_type var.sqltype ≡ sql_int64
      → InRange half64 n
      → ColumnOf charset var (integer n) (complete_column var (SqlType.integer n))
  is_floating :
      {f : ℕ}
      → column_type var.sqltype ≡ sql_double
      → f < 2 ^ 64
      → ColumnOf charset var (floating f) (complete_column var (SqlType.floating f))
  is_timestamp :
      {ts : IscTimestamp} {dt : NaiveDateTime}
      → column_type var.sqltype ≡ sql_timestamp
      → InRange half32 ts.timestamp_date
      → ts.timestamp_time < 2 ^ 32
      → decode_timestamp ts ≡ some dt
      → ColumnOf charset var (timestamp ts) (complete_column var (SqlType.timestamp dt))
  is_blob :
      {id : ℕ}
      → column_type var.sqltype ≡ sql_blob
      → is_plain_blob var.sqlsubtype ≡ true
      → id < 2 ^ 64
      → ColumnOf charset var (blob_id id) (blob (is_zero var.sqlsubtype) id var.alias_name)
  is_boolean :
      {b : Bool}
      → column_type var.sqltype ≡ sql_boolean
      → ColumnOf charset var (boolean b) (complete_column var (SqlType.boolean b))

-- What stands behind the data of a column that is null or not: the indicator, before protocol 13.
abbrev pub indicator : Option Bytes → Bool → Bytes
indicator (some null_map) missing = []
indicator none true = 255 ∷ 255 ∷ 255 ∷ 255 ∷ []
indicator none false = 0 ∷ 0 ∷ 0 ∷ 0 ∷ []

-- The bit of the column in the bitmap, where there is one.
abbrev pub Marks : Option Bytes → ℕ → Bool → Type 0
Marks (some m) i missing = Marked m i missing
Marks none i missing = Unit {0}

pub read_null-indicator :
    (null_map : Option Bytes) (i : ℕ) (missing : Bool) (rest : Bytes)
    → Marks null_map i missing
    → read_null null_map i (indicator null_map missing ++ rest) ≡ done missing rest
unfolding read_null
read_null-indicator (some m) i missing rest h = rw (null_bit-Marked m i missing h) refl
read_null-indicator none i true rest h = rw (get_u32-put_u32 4_294_967_295 rest (omega arith)) refl
read_null-indicator none i false rest h = rw (get_u32-put_u32 0 rest (omega arith)) refl

get_f64-put_u64 : (f : ℕ) (rest : Bytes) → f < 2 ^ 64 → get_f64 (put_u64 f ++ rest) ≡ done f rest
unfolding get_f64 get_u64
get_f64-put_u64 = get_u64-put_u64

read_timestamp-datum :
    (ts : IscTimestamp) (rest : Bytes)
    → InRange half32 ts.timestamp_date
    → ts.timestamp_time < 2 ^ 32
    → read_timestamp (datum_bytes (timestamp ts) ++ rest) ≡ done ts rest
unfolding read_timestamp datum_bytes
read_timestamp-datum ts rest d_in t_in =
    rw
      (
        get_i32-put_i32 ts.timestamp_date (put_u32 ts.timestamp_time ++ rest) d_in,
        get_u32-put_u32 ts.timestamp_time rest t_in,
      )
      refl

read_boolean-datum :
    (b : Bool) (rest : Bytes) → read_boolean (datum_bytes (boolean b) ++ rest) ≡ done b rest
unfolding read_boolean datum_bytes
read_boolean-datum true rest =
    rw (get_u8-put_u8 1 (0 ∷ 0 ∷ 0 ∷ rest) (omega arith), advance-append (0 ∷ 0 ∷ 0 ∷ []) rest) refl
read_boolean-datum false rest =
    rw (get_u8-put_u8 0 (0 ∷ 0 ∷ 0 ∷ rest) (omega arith), advance-append (0 ∷ 0 ∷ 0 ∷ []) rest) refl

-- The column that the client makes of the datum's own.
abbrev pub or_null : XSqlVar → Bool → ParsedColumn → ParsedColumn
or_null var true column = complete_column var SqlType.null
or_null var false column = column

chosen :
    (var : XSqlVar) {value : Parser Bytes ParsedColumn} {rest : Bytes} (missing : Bool)
    (column : ParsedColumn)
    → ((r : Bytes) → value r ≡ done column r)
    → (if missing then pure (complete_column var SqlType.null) else value) rest
      ≡ done (or_null var missing column) rest
chosen var true column makes = refl
chosen var {rest = rest} false column makes = makes rest

module _ (charset : Charset) (null_map : Option Bytes) (i : ℕ) (var : XSqlVar) (missing : Bool)
    (marked : Marks null_map i missing) where
  with_null-datum :
      {A : Type 0} (read : Parser Bytes A) (value : A → Parser Bytes ParsedColumn) (bytes : Bytes)
      (d : A) (column : ParsedColumn) (rest : Bytes)
      → ((r : Bytes) → read (bytes ++ r) ≡ done d r)
      → ((r : Bytes) → value d r ≡ done column r)
      → with_null charset null_map i var read value (bytes ++ (indicator null_map missing ++ rest))
        ≡ done (or_null var missing column) rest
  unfolding with_null
  with_null-datum read value bytes d column rest reads makes =
      rw
        (
          reads (indicator null_map missing ++ rest),
          read_null-indicator null_map i missing rest marked,
        )
        (chosen var missing column makes)

  pub parse_value-datum :
      (sqltype : ℕ) (d : Datum) (column : ParsedColumn) (rest : Bytes)
      → sqltype ≡ column_type var.sqltype
      → ColumnOf charset var d column
      → parse_value charset null_map i var sqltype
          (datum_bytes d ++ (indicator null_map missing ++ rest))
        ≡ done (or_null var missing column) rest
  unfolding parse_value datum_bytes
  parse_value-datum sqltype (text d) column rest same (is_text {s = s} t h e) = rw (same ∙ t) (
      with_null-datum get_wire_bytes _ (put_wire_bytes d) d _ rest
        (λ r. get_wire_bytes-put_wire_bytes d r h) (λ r. rw e refl))
  parse_value-datum sqltype (integer n) column rest same (is_integer t h) =
      rw (same ∙ t)
        (with_null-datum get_i64 _ (put_i64 n) n _ rest (λ r. get_i64-put_i64 n r h) (λ r. refl))
  parse_value-datum sqltype (floating f) column rest same (is_floating t h) =
      rw (same ∙ t)
        (with_null-datum get_f64 _ (put_u64 f) f _ rest (λ r. get_f64-put_u64 f r h) (λ r. refl))
  parse_value-datum sqltype (timestamp ts) column rest same (is_timestamp t d_in t_in e) =
      rw (same ∙ t) (
        with_null-datum read_timestamp _ (datum_bytes (timestamp ts)) ts _ rest
          (λ r. read_timestamp-datum ts r d_in t_in) (λ r. rw e refl))
  parse_value-datum sqltype (blob_id id) column rest same (is_blob t plain h) =
      rw (same ∙ t, plain)
        (with_null-datum get_u64 _ (put_u64 id) id _ rest (λ r. get_u64-put_u64 id r h) (λ r. refl))
  parse_value-datum sqltype (boolean b) column rest same (is_boolean t) = rw (same ∙ t) (
      with_null-datum read_boolean _ (datum_bytes (boolean b)) b _ rest (read_boolean-datum b)
        (λ r. refl))

-- ===== src/Wire/Rows.antt =====
-- rsfbclient-rust/src/wire.rs, `ParsedColumn`, `parse_fetch_response` and `parse_sql_response`: the
-- rows that the server sends.
pub mod Bits
pub mod Words
pub mod Data
pub mod Laws
pub mod Stability
use rsfbclient.Base.{
  ◌==◌, if◌then◌else◌, length, get_elem?, ℕ, ◌+◌, ◌-◌, ◌/◌, ◌%◌, ◌^◌, Bool, false, not, ◌&&◌,
  Option, none, some, List, [], ◌∷◌, Bytes,
}
use rsfbclient.Error.{fetch_no_columns, column_not_implemented, unsupported_timestamp}
use rsfbclient.Charset.{Charset, decode}
use rsfbclient.Consts.{ProtocolVersion, at_least_v13, name}
use rsfbclient.Consts.Ibase.{
  sql_varying, sql_double, sql_timestamp, sql_blob, sql_int64, sql_boolean,
}
use rsfbclient.DateTime.{NaiveDateTime, IscTimestamp, decode_timestamp}
use rsfbclient.SqlTypes.{SqlType, Column}
use rsfbclient.Reader.{Parser, ◌>>=◌, ◌>>◌, pure, fail, lift}
use rsfbclient.Util.{
  advance, slice_to, get_u8, get_u32, get_i32, get_u64, get_i64, get_f64, get_wire_bytes,
}
use rsfbclient.Xsqlda.{XSqlVar, column_type, is_plain_blob, is_zero}

pub data ParsedColumn : Type 0 where
  complete : Column → ParsedColumn
  -- whether it is of blob type 0, the id, and the name of the column
  blob : Bool → ℕ → Bytes → ParsedColumn

-- The length of the bitmap of `n` columns, aligned to 4 bytes.
unfoldable pub null_map_len : ℕ → ℕ
null_map_len n =
    let len = n / 8 + (if n % 8 == 0 then 0 else 1) in
    if not (len % 4 == 0) then len + (4 - len % 4) else len

unfoldable pub read_null_map : ProtocolVersion → ℕ → Parser Bytes (Option Bytes)
read_null_map version n =
    if at_least_v13 version
    then (do null_map ← slice_to (null_map_len n); advance (null_map_len n); pure (some null_map))
    else pure none

abbrev or_zero : Option ℕ → ℕ
or_zero none = 0
or_zero (some b) = b

-- `(null_map[i / 8] >> (i % 8)) & 1 != 0`. A bitmap of `null_map_len n` bytes has one at `i / 8` for
-- every column `i`.
unfoldable pub null_bit : Bytes → ℕ → Bool
null_bit null_map i = not (or_zero (get_elem? null_map (i / 8)) / 2 ^ (i % 8) % 2 == 0)

-- The closure `read_null`. There is a bitmap in protocol 13, and none before.
unfoldable pub read_null : Option Bytes → ℕ → Parser Bytes Bool
read_null (some null_map) i = pure (null_bit null_map i)
read_null none i = do flag ← get_u32; pure (not (flag == 0))

-- `version >= ProtocolVersion::V13 && read_null(resp, col_index)?`
unfoldable pub null_before : Option Bytes → ℕ → Parser Bytes Bool
null_before (some null_map) i = read_null (some null_map) i
null_before none i = pure false

-- `ParsedColumn::Complete(Column::new(var.alias_name.clone(), sqltype, value))`
abbrev pub complete_column : XSqlVar → SqlType → ParsedColumn
complete_column var value =
    complete (record { name = var.alias_name; raw_type = column_type var.sqltype; value = value })

abbrev or_panic : Option NaiveDateTime → Parser Bytes NaiveDateTime
or_panic none = fail unsupported_timestamp
or_panic (some dt) = pure dt

read_timestamp : Parser Bytes IscTimestamp
read_timestamp = do
  date ← get_i32
  time ← get_u32
  pure (record { timestamp_date = date; timestamp_time = time })

read_boolean : Parser Bytes Bool
read_boolean = do b ← get_u8; advance 3; pure (b == 1)

module _ (charset : Charset) (null_map : Option Bytes) (i : ℕ) (var : XSqlVar) where
  -- The shape of the arms of the match on the type: the data, the null indicator behind it, and the
  -- column.
  unfoldable pub with_null :
      {A : Type 0} → Parser Bytes A → (A → Parser Bytes ParsedColumn) → Parser Bytes ParsedColumn
  with_null read value = do
    d ← read
    missing ← read_null null_map i
    (if missing then pure (complete_column var SqlType.null) else value d)

  -- The match on the type.
  unfoldable pub parse_value : ℕ → Parser Bytes ParsedColumn
  unfolding read_timestamp read_boolean
  parse_value sqltype =
      if sqltype == sql_varying
      then with_null get_wire_bytes
          (λ d. do s ← lift (decode charset d); pure (complete_column var (SqlType.text s)))
      else (if sqltype == sql_int64
          then with_null get_i64 (λ n. pure (complete_column var (SqlType.integer n)))
          else (if sqltype == sql_double
              then with_null get_f64 (λ f. pure (complete_column var (SqlType.floating f)))
              else (if sqltype == sql_timestamp
                  then with_null read_timestamp (λ ts. do
                    dt ← or_panic (decode_timestamp ts)
                    pure (complete_column var (SqlType.timestamp dt)))
                  else (if sqltype == sql_blob && is_plain_blob var.sqlsubtype
                      then with_null get_u64
                          (λ id. pure (blob (is_zero var.sqlsubtype) id var.alias_name))
                      else (if sqltype == sql_boolean
                          then with_null read_boolean
                              (λ b. pure (complete_column var (SqlType.boolean b)))
                          else fail (column_not_implemented sqltype var.sqlsubtype))))))

  unfoldable pub parse_column : Parser Bytes ParsedColumn
  parse_column = do
    missing ← null_before null_map i
    (if missing
        then pure (complete_column var SqlType.null)
        else parse_value (column_type var.sqltype))

module _ (charset : Charset) (null_map : Option Bytes) where
  -- The loop over the columns from the `i`th on.
  unfoldable pub parse_columns : ℕ → List XSqlVar → Parser Bytes (List ParsedColumn)
  parse_columns i [] = pure []
  parse_columns i (var ∷ xsqlda) = do
    column ← parse_column charset null_map i var
    rest ← parse_columns (i + 1) xsqlda
    pure (column ∷ rest)

unfoldable pub parse_sql_response :
    List XSqlVar → ProtocolVersion → Charset → Parser Bytes (List ParsedColumn)
parse_sql_response xsqlda version charset = do
  has_row ← get_u32
  (if has_row == 0 then fail fetch_no_columns else (do
    null_map ← read_null_map version (length xsqlda)
    parse_columns charset null_map 0 xsqlda))

-- No row at the end of the stream, status 100.
unfoldable pub parse_fetch_response :
    List XSqlVar → ProtocolVersion → Charset → Parser Bytes (Option (List ParsedColumn))
parse_fetch_response xsqlda version charset = do
  status ← get_u32
  (if status == 100
      then pure none
      else (do row ← parse_sql_response xsqlda version charset; pure (some row)))

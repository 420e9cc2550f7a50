-- ===== src/Xsqlda.antt =====
-- rsfbclient-rust/src/xsqlda.rs: the description of the columns of a statement, as the server sends it
-- and as the client asks for the rows.
pub mod Parse
pub mod Coerce
use rsfbclient.Base.{
  leb, ◌==◌, if◌then◌else◌, length, ℕ, ◌+◌, ◌-◌, ◌*◌, ◌%◌, ◌^◌, Bool, true, false, ◌&&◌, ◌||◌, List,
  [], ◌∷◌, ◌++◌, Bytes,
}
use rsfbclient.Base.Int.{ℤ, pos, negsuc, unsigned, half16, half32}
use rsfbclient.Error.{unsupported_column, blr_not_implemented, other, Result, ok, err}
use rsfbclient.Error.Chain.{◌>>=◌}
use rsfbclient.Consts.Ibase.{
  sql_text, sql_varying, sql_short, sql_long, sql_float, sql_double, sql_timestamp, sql_blob,
  sql_type_time, sql_type_date, sql_int64, sql_boolean,
}
use rsfbclient.Consts.Blr.{
  blr_version5, blr_begin, blr_message, blr_end, blr_eoc, blr_short, blr_quad, blr_double,
  blr_timestamp, blr_varying, blr_int64, blr_bool,
}
use rsfbclient.Reader.{◌>>◌}
use rsfbclient.Util.{le16, put_u16_le}

-- Integers of 16 bits are in ℤ. A name is its bytes.
pub record XSqlVar : Type 0 where
  pub sqltype : ℤ
  pub scale : ℤ
  pub sqlsubtype : ℤ
  pub data_length : ℤ
  pub null_ind : Bool
  pub field_name : Bytes
  pub relation_name : Bytes
  pub owner_name : Bytes
  pub alias_name : Bytes

-- `Default::default()`
abbrev pub default_var : XSqlVar
default_var = record {
  sqltype = pos 0;
  scale = pos 0;
  sqlsubtype = pos 0;
  data_length = pos 0;
  null_ind = false;
  field_name = [];
  relation_name = [];
  owner_name = [];
  alias_name = [];
}

-- `sqltype as u32 & (!1)`: the type code without the bit that says nullable.
unfoldable pub column_type : ℤ → ℕ
column_type sqltype = let n = unsigned half32 sqltype in n - n % 2

-- `n as i16 + 1` for the type codes, which are below 2^15.
abbrev nullable : ℕ → ℤ
nullable code = pos (code + 1)

-- `sqlsubtype <= 1`
abbrev pub is_plain_blob : ℤ → Bool
is_plain_blob (pos n) = leb n 1
is_plain_blob (negsuc n) = true

abbrev pub is_zero : ℤ → Bool
is_zero (pos n) = n == 0
is_zero (negsuc n) = false

-- The match of `coerce` on the type code. `size_of` an i64 and of a timestamp is 8.
unfoldable pub coerce_as : ℕ → XSqlVar → Result XSqlVar
coerce_as sqltype self =
    if sqltype == sql_text || sqltype == sql_varying
    then ok (record self { sqltype = nullable sql_varying })
    else (if sqltype == sql_short || sqltype == sql_long || sqltype == sql_int64
        then (if is_zero self.scale
            then ok (record self { data_length = pos 8; sqltype = nullable sql_int64 })
            else ok
                (record self { data_length = pos 8; scale = pos 0; sqltype = nullable sql_double }))
        else (if sqltype == sql_float || sqltype == sql_double
            then ok (record self { data_length = pos 8; sqltype = nullable sql_double })
            else (if sqltype == sql_timestamp
                  || sqltype == sql_type_date
                  || sqltype == sql_type_time
                then ok (record self { data_length = pos 8; sqltype = nullable sql_timestamp })
                else (if sqltype == sql_blob && is_plain_blob self.sqlsubtype
                    then ok (record self { sqltype = nullable sql_blob })
                    else (if sqltype == sql_boolean
                        then ok (record self { sqltype = nullable sql_boolean })
                        else err (other (unsupported_column sqltype)))))))

unfoldable pub coerce : XSqlVar → Result XSqlVar
coerce self = coerce_as (column_type self.sqltype) self

-- `for var in xsqlda.iter_mut() { var.coerce()?; }`
unfoldable pub coerce_all : List XSqlVar → Result (List XSqlVar)
coerce_all [] = ok []
coerce_all (var ∷ xsqlda) = do var' ← coerce var; xsqlda' ← coerce_all xsqlda; ok (var' ∷ xsqlda')

-- The match on the type code in the loop of `xsqlda_to_blr`.
unfoldable pub blr_type : XSqlVar → Result Bytes
blr_type var =
    let sqltype = column_type var.sqltype in
    if sqltype == sql_varying
    then ok (blr_varying ∷ le16 (unsigned half16 var.data_length))
    else (if sqltype == sql_int64
        then ok (blr_int64 ∷ 0 ∷ [])
        else (if sqltype == sql_double
            then ok (blr_double ∷ [])
            else (if sqltype == sql_timestamp
                then ok (blr_timestamp ∷ [])
                else (if sqltype == sql_blob
                    then ok (blr_quad ∷ unsigned half32 var.sqlsubtype % 2 ^ 8 ∷ [])
                    else (if sqltype == sql_boolean
                        then ok (blr_bool ∷ [])
                        else err (other (blr_not_implemented sqltype)))))))

blr_types : List XSqlVar → Result Bytes
blr_types [] = ok []
blr_types (var ∷ xsqlda) = do
  code ← blr_type var
  rest ← blr_types xsqlda
  ok (code ++ (blr_short ∷ 0 ∷ rest))

-- `len as u16 * 2`, which wraps.
abbrev pub message_len : ℕ → ℕ
message_len n = n % 2 ^ 16 * 2 % 2 ^ 16

unfoldable pub xsqlda_to_blr : List XSqlVar → Result Bytes
unfolding blr_types
xsqlda_to_blr xsqlda = do
  types ← blr_types xsqlda
  ok (
      blr_version5
      ∷ blr_begin
      ∷ blr_message
      ∷ 0
      ∷ (put_u16_le (message_len (length xsqlda)) ++ (types ++ (blr_end ∷ blr_eoc ∷ []))))

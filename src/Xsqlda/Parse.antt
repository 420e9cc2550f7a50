-- ===== src/Xsqlda/Parse.antt =====
-- rsfbclient-rust/src/xsqlda.rs: `parse_xsqlda` and `parse_select_items`. The vector that they fill is
-- an argument, and a part of the answer.
pub mod Select
pub mod Columns
pub mod Described
pub mod Prepared
use rsfbclient.Base.{
  ltb, leb, ◌==◌, if◌then◌else◌, length, get_elem?, set, take, ℕ, ◌-◌, ◌%◌, ◌^◌, Bool, true, false,
  not, ◌||◌, Option, none, some, List, [], ◌∷◌, ◌++◌, Bytes,
}
use rsfbclient.Base.Int.{ℤ, signed, half16}
use rsfbclient.Error.{invalid_xsqlda, invalid_xsqlda_item}
use rsfbclient.Consts.Stmt.{StmtType, stmt_type_from}
use rsfbclient.Consts.{bytes_eq}
use rsfbclient.Consts.Ibase.{
  isc_info_end, isc_info_truncated, isc_info_sql_stmt_type, isc_info_sql_bind,
  isc_info_sql_describe_vars, isc_info_sql_describe_end, isc_info_sql_select,
  isc_info_sql_sqlda_seq, isc_info_sql_type, isc_info_sql_sub_type, isc_info_sql_scale,
  isc_info_sql_length, isc_info_sql_null_ind, isc_info_sql_field, isc_info_sql_relation,
  isc_info_sql_owner, isc_info_sql_alias,
}
use rsfbclient.Reader.{done, Parser, ◌>>=◌, ◌>>◌, pure, fail, lift}
use rsfbclient.Reader.Loop.{Next, again, stop, loop}
use rsfbclient.Util.{advance, copy_to_slice, get_u8, get_u16_le, get_u32_le}
use rsfbclient.Wire.Text.Utf8.{is_utf8}
use rsfbclient.Xsqlda.{XSqlVar, default_var}

-- `String::from_utf8(buff).unwrap_or_default()`
abbrev pub text_or_empty : Bytes → Bytes
text_or_empty buff = if is_utf8 buff then buff else []

-- `n as i16`
abbrev pub as_i16 : ℕ → ℤ
as_i16 n = signed half16 (n % 2 ^ 16)

-- The loop's variables: the column that the items are about, and the vector.
pub record Selecting : Type 0 where
  pub col_index : ℕ
  pub vars : List XSqlVar

abbrev pub SelectNext : Type 0
SelectNext = Next Selecting (Bool × List XSqlVar)

-- The column index, which starts on 1.
sqlda_seq_item : Selecting → Parser Bytes SelectNext
sqlda_seq_item v = do
  advance 2
  col ← get_u32_le
  (if col == 0
      then fail invalid_xsqlda
      else pure (
          again (record {
            col_index = col - 1;
            vars = if leb (length v.vars) (col - 1) then v.vars ++ (default_var ∷ []) else v.vars;
          })))

-- `if let Some(var) = xsqlda.get_mut(col_index)`, with what is written into `var`.
abbrev pub update_var : Selecting → (XSqlVar → XSqlVar) → Option XSqlVar → Parser Bytes SelectNext
update_var v f none = fail invalid_xsqlda
update_var v f (some var) = pure (again (record v { vars = set v.vars v.col_index (f var) }))

-- A number of the column: the column is looked up before the number is read.
pub number_item : Selecting → (ℕ → XSqlVar → XSqlVar) → Parser Bytes SelectNext
number_item v f = do
  advance 2
  (if ltb v.col_index (length v.vars)
      then (do n ← get_u32_le; update_var v (f n) (get_elem? v.vars v.col_index))
      else fail invalid_xsqlda)

-- A name of the column: it is read before the column is looked up.
pub name_item : Selecting → (Bytes → XSqlVar → XSqlVar) → Parser Bytes SelectNext
name_item v f = do
  len ← get_u16_le
  buff ← copy_to_slice len
  update_var v (f (text_or_empty buff)) (get_elem? v.vars v.col_index)

-- The match on the item code.
pub select_item : Selecting → ℕ → Parser Bytes SelectNext
select_item v item =
    if item == isc_info_sql_sqlda_seq
    then sqlda_seq_item v
    else (if item == isc_info_sql_type
        then number_item v (λ n var. record var { sqltype = as_i16 n })
        else (if item == isc_info_sql_sub_type
            then number_item v (λ n var. record var { sqlsubtype = as_i16 n })
            else (if item == isc_info_sql_scale
                then number_item v (λ n var. record var { scale = as_i16 n })
                else (if item == isc_info_sql_length
                    then number_item v (λ n var. record var { data_length = as_i16 n })
                    else (if item == isc_info_sql_null_ind
                        then number_item v (λ n var. record var { null_ind = not (n == 0) })
                        else (if item == isc_info_sql_field
                            then name_item v (λ text var. record var { field_name = text })
                            else (if item == isc_info_sql_relation
                                then name_item v (λ text var. record var { relation_name = text })
                                else (if item == isc_info_sql_owner
                                    then name_item v (λ text var. record var { owner_name = text })
                                    else (if item == isc_info_sql_alias
                                        then name_item v
                                            (λ text var. record var { alias_name = text })
                                        else (if item == isc_info_sql_describe_end
                                            then pure (again v)
                                            else (if item == isc_info_truncated
                                                then pure (stop (true, v.vars))
                                                else (if item == isc_info_end
                                                    then pure (stop (false, v.vars))
                                                    else fail (invalid_xsqlda_item item)))))))))))))

pub select_round : Selecting → Parser Bytes SelectNext
unfolding select_item sqlda_seq_item number_item name_item
select_round v = do item ← get_u8; select_item v item

-- Answers whether the data was truncated, and the vector.
unfoldable pub parse_select_items : List XSqlVar → Parser Bytes (Bool × List XSqlVar)
unfolding select_round
parse_select_items xsqlda resp =
    if length resp == 0
    then done (false, xsqlda) resp
    else loop select_round (record { col_index = 0; vars = xsqlda }) resp

pub record PrepareInfo : Type 0 where
  pub stmt_type : StmtType
  pub param_count : ℕ
  pub truncated : Bool

-- `if resp.remaining() < n || resp[..prefix.len()] != prefix { return err_invalid_xsqlda() }`
unfoldable pub expect : ℕ → Bytes → Parser Bytes (Unit {0})
expect n prefix resp =
    if ltb (length resp) n || not (bytes_eq (take (length prefix) resp) prefix)
    then fail invalid_xsqlda resp
    else done tt resp

-- The `while` over the ends of the parameters' data.
unfoldable pub skip_describe_ends : Bytes → Bytes
skip_describe_ends [] = []
skip_describe_ends (b ∷ bs) =
    let rest = skip_describe_ends bs in if b == isc_info_sql_describe_end then rest else b ∷ bs

unfoldable pub parse_xsqlda : List XSqlVar → Parser Bytes (PrepareInfo × List XSqlVar)
parse_xsqlda xsqlda = do
  expect 7 (isc_info_sql_stmt_type ∷ 4 ∷ 0 ∷ [])
  advance 3
  code ← get_u32_le
  stmt_type ← lift (stmt_type_from (code % 2 ^ 8))
  expect 8 (isc_info_sql_bind ∷ isc_info_sql_describe_vars ∷ [])
  advance 2
  advance 2
  param_count ← get_u32_le
  (λ resp. done tt (skip_describe_ends resp))
  expect 8 (isc_info_sql_select ∷ isc_info_sql_describe_vars ∷ [])
  advance 2
  advance 2
  col_len ← get_u32_le
  (if ltb 1024 col_len then fail invalid_xsqlda else (do
    selected ← parse_select_items xsqlda
    pure (
      record { stmt_type = stmt_type; param_count = param_count; truncated = selected.0 },
      selected.1,
    )))

-- ===== src/Xsqlda/Parse/Prepared.antt =====
-- rsfbclient-rust/src/xsqlda.rs: `parse_xsqlda` on the answer to the preparation of a statement.
use native.Mathlib.Nat.{mod-eq_of_lt}
use rsfbclient.Base.{
  ltb, length, All, ℕ, zero, suc, ◌^◌, ◌≤◌, ◌<◌, ◌≡◌, refl, Bool, true, false, List, [], ◌∷◌, ◌++◌,
  arith, Bytes,
}
use rsfbclient.Error.{ok}
use rsfbclient.Consts.Stmt.{StmtType, stmt_type_from}
use rsfbclient.Consts.Ibase.{
  isc_info_sql_stmt_type, isc_info_sql_bind, isc_info_sql_describe_vars, isc_info_sql_describe_end,
  isc_info_sql_select,
}
use rsfbclient.Reader.{done}
use rsfbclient.Util.{put_u32_le}
use rsfbclient.Xsqlda.{XSqlVar}
use rsfbclient.Xsqlda.Parse.{expect, skip_describe_ends, parse_xsqlda}
use rsfbclient.Xsqlda.Parse.Described.{columns_bytes, select_end, parse_select_items-columns}
use rsfbclient.Util.RoundTrip.{advance-append, get_u32_le-put_u32_le}
use rsfbclient.Consts.{bytes_eq}
use rsfbclient.Xsqlda.Parse.Columns.{VarFits}

-- What a server answers on a statement: its type, the number of its parameters with an end item for
-- each, and the columns.
pub record Description : Type 0 where
  pub code : ℕ
  pub params : ℕ
  pub columns : List XSqlVar
  pub more : Bool

describe_ends : ℕ → Bytes
describe_ends zero = []
describe_ends (suc n) = isc_info_sql_describe_end ∷ describe_ends n

columns_part : Description → Bytes
columns_part d = columns_bytes 0 d.columns ++ (select_end d.more ++ [])

after_params : Description → Bytes
unfolding describe_ends columns_part
after_params d =
    describe_ends d.params
    ++ (isc_info_sql_select
        ∷ isc_info_sql_describe_vars
        ∷ 4
        ∷ 0
        ∷ (put_u32_le (length d.columns) ++ columns_part d))

after_type : Description → Bytes
after_type d =
    isc_info_sql_bind ∷ isc_info_sql_describe_vars ∷ 4 ∷ 0 ∷ (put_u32_le d.params ++ after_params d)

unfoldable pub description_bytes : Description → Bytes
unfolding after_type after_params
description_bytes d = isc_info_sql_stmt_type ∷ 4 ∷ 0 ∷ (put_u32_le d.code ++ after_type d)

skip_describe_ends-describe_ends :
    (n : ℕ) (b : ℕ) (rest : Bytes)
    → ¬ (b ≡ isc_info_sql_describe_end)
    → skip_describe_ends (describe_ends n ++ (b ∷ rest)) ≡ b ∷ rest
unfolding skip_describe_ends describe_ends
skip_describe_ends-describe_ends zero b rest h = ground arith
skip_describe_ends-describe_ends (suc n) b rest h = skip_describe_ends-describe_ends n b rest h

ltb_first : (n m : ℕ) → m ≤ n → ltb n m ≡ false
ltb_first n m h = ground arith

expect_type :
    (n : ℕ) (rest : Bytes)
    → expect 7
        (isc_info_sql_stmt_type ∷ 4 ∷ 0 ∷ [])
        (isc_info_sql_stmt_type ∷ 4 ∷ 0 ∷ (put_u32_le n ++ rest))
      ≡ done tt (isc_info_sql_stmt_type ∷ 4 ∷ 0 ∷ (put_u32_le n ++ rest))
unfolding expect bytes_eq
expect_type n rest =
    rw
      (ltb_first (length (isc_info_sql_stmt_type ∷ 4 ∷ 0 ∷ (put_u32_le n ++ rest))) 7 (omega arith))
      refl

expect_count :
    (p q n : ℕ) (rest : Bytes)
    → bytes_eq (p ∷ q ∷ []) (p ∷ q ∷ []) ≡ true
    → expect 8 (p ∷ q ∷ []) (p ∷ q ∷ 4 ∷ 0 ∷ (put_u32_le n ++ rest))
      ≡ done tt (p ∷ q ∷ 4 ∷ 0 ∷ (put_u32_le n ++ rest))
unfolding expect
expect_count p q n rest same =
    rw (ltb_first (length (p ∷ q ∷ 4 ∷ 0 ∷ (put_u32_le n ++ rest))) 8 (omega arith), same) refl

-- `parse_xsqlda` reads a description of a statement, with an empty vector to fill, as the statement's
-- type, the number of its parameters, its columns in order, and whether there are more; no byte is
-- left. The code is that of a type, there are at most 1024 columns and less than 2^32 parameters, and
-- the columns fit the widths of their fields, with names in utf-8.
pub parse_xsqlda-description :
    (d : Description) (t : StmtType)
    → d.code < 256
    → stmt_type_from d.code ≡ ok t
    → d.params < 2 ^ 32
    → length d.columns ≤ 1024
    → All VarFits d.columns
    → parse_xsqlda [] (description_bytes d)
      ≡ done (record { stmt_type = t; param_count = d.params; truncated = d.more }, d.columns) []
unfolding parse_xsqlda description_bytes after_type after_params columns_part bytes_eq
parse_xsqlda-description d t small type params few fits =
    rw
      (
        expect_type d.code (after_type d),
        advance-append (isc_info_sql_stmt_type ∷ 4 ∷ 0 ∷ []) (put_u32_le d.code ++ after_type d),
        get_u32_le-put_u32_le d.code (after_type d) (omega arith),
        mod-eq_of_lt {n = d.code} {m = 256} small,
        type,
        expect_count isc_info_sql_bind isc_info_sql_describe_vars d.params (after_params d) refl,
        advance-append (isc_info_sql_bind ∷ isc_info_sql_describe_vars ∷ [])
            (4 ∷ 0 ∷ (put_u32_le d.params ++ after_params d)),
        advance-append (4 ∷ 0 ∷ []) (put_u32_le d.params ++ after_params d),
        get_u32_le-put_u32_le d.params (after_params d) params,
        skip_describe_ends-describe_ends d.params isc_info_sql_select
            (isc_info_sql_describe_vars ∷ 4 ∷ 0 ∷ (put_u32_le (length d.columns) ++ columns_part d))
            (omega arith),
        expect_count isc_info_sql_select isc_info_sql_describe_vars (length d.columns)
            (columns_part d) refl,
        advance-append (isc_info_sql_select ∷ isc_info_sql_describe_vars ∷ [])
            (4 ∷ 0 ∷ (put_u32_le (length d.columns) ++ columns_part d)),
        advance-append (4 ∷ 0 ∷ []) (put_u32_le (length d.columns) ++ columns_part d),
        get_u32_le-put_u32_le (length d.columns) (columns_part d) (omega arith),
        ltb_first 1024 (length d.columns) few,
      )
      (rw (parse_select_items-columns [] d.columns d.more [] (omega arith) fits) refl)

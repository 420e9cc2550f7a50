-- ===== src/Xsqlda/Parse/Columns.antt =====
-- rsfbclient-rust/src/xsqlda.rs: the columns of a statement as a server describes them, and what the
-- client makes of the description.
use rsfbclient.Base.{
  leb, ◌==◌, length, ℕ, ◌+◌, ◌-◌, ◌^◌, ◌<◌, ◌≡◌, refl, ap, ◌∙◌, Bool, true, false, not, List, [],
  ◌++◌, arith, Bytes,
}
use rsfbclient.Base.Int.{ℤ, pos, negsuc, signed, unsigned, half16, half32, InRange}
use rsfbclient.Consts.Ibase.{
  isc_info_sql_describe_end, isc_info_sql_sqlda_seq, isc_info_sql_type, isc_info_sql_sub_type,
  isc_info_sql_scale, isc_info_sql_length, isc_info_sql_null_ind, isc_info_sql_field,
  isc_info_sql_relation, isc_info_sql_owner, isc_info_sql_alias,
}
use rsfbclient.Util.{put_u8, put_u16_le, put_u32_le}
use rsfbclient.Util.RoundTrip.{advance-append, get_u32_le-put_u32_le}
use rsfbclient.Reader.{done}
use rsfbclient.Reader.Loop.{again}
use rsfbclient.Xsqlda.{XSqlVar, default_var}
use rsfbclient.Xsqlda.Parse.{as_i16, Selecting, number_item, name_item, select_item, sqlda_seq_item}
use rsfbclient.Xsqlda.Parse.Select.{
  Reads, Reads-append, item-Reads, describing, number_bytes, name_bytes, number_item-describing,
  name_item-describing,
}
use rsfbclient.Wire.Text.Utf8.{is_utf8}

-- Numbers of 16 bits, and names of a length of 16 bits that are utf-8.
abbrev NameFits : Bytes → Type 0
NameFits text = (length text < 2 ^ 16) × (is_utf8 text ≡ true)

pub record VarFits (var : XSqlVar) : Type 0 where
  pub sqltype_fits : InRange half16 var.sqltype
  pub sqlsubtype_fits : InRange half16 var.sqlsubtype
  pub scale_fits : InRange half16 var.scale
  pub data_length_fits : InRange half16 var.data_length
  pub field_fits : NameFits var.field_name
  pub relation_fits : NameFits var.relation_name
  pub owner_fits : NameFits var.owner_name
  pub alias_fits : NameFits var.alias_name

abbrev pub null_code : Bool → ℕ
null_code true = 1
null_code false = 0

abbrev pub number_entry : ℕ → ℕ → Bytes
number_entry item n = put_u8 item ++ number_bytes n

abbrev pub name_entry : ℕ → Bytes → Bytes
name_entry item text = put_u8 item ++ name_bytes text

-- The entries of a column: its place among the columns, its numbers and its names.
unfoldable pub number_columns : XSqlVar → Bytes
number_columns var =
    number_entry isc_info_sql_type (unsigned half32 var.sqltype)
    ++ (number_entry isc_info_sql_sub_type (unsigned half32 var.sqlsubtype)
        ++ (number_entry isc_info_sql_scale (unsigned half32 var.scale)
            ++ (number_entry isc_info_sql_length (unsigned half32 var.data_length)
                ++ number_entry isc_info_sql_null_ind (null_code var.null_ind))))

unfoldable pub name_columns : XSqlVar → Bytes
name_columns var =
    name_entry isc_info_sql_field var.field_name
    ++ (name_entry isc_info_sql_relation var.relation_name
        ++ (name_entry isc_info_sql_owner var.owner_name
            ++ (name_entry isc_info_sql_alias var.alias_name ++ put_u8 isc_info_sql_describe_end)))

-- The place is counted from 0 here, and from 1 in the entry.
unfoldable pub column_bytes : ℕ → XSqlVar → Bytes
column_bytes i var =
    number_entry isc_info_sql_sqlda_seq (i + 1) ++ (number_columns var ++ name_columns var)

unsigned-i16-lt : (z : ℤ) → InRange half16 z → unsigned half32 z < 2 ^ 32
unfolding unsigned
unsigned-i16-lt (pos n) h = omega arith
unsigned-i16-lt (negsuc n) h = omega arith

as_i16-unsigned : (z : ℤ) → InRange half16 z → as_i16 (unsigned half32 z) ≡ z
unfolding signed unsigned
as_i16-unsigned (pos n) h = ground arith
as_i16-unsigned (negsuc n) h = ground arith

null_code-lt : (b : Bool) → null_code b < 2 ^ 32
null_code-lt true = omega arith
null_code-lt false = omega arith

null_code-test : (b : Bool) → not (null_code b == 0) ≡ b
null_code-test true = refl
null_code-test false = refl

from_one : (n : ℕ) → n + 1 - 1 ≡ n
from_one n = omega arith

from_one_test : (n : ℕ) → (n + 1 == 0) ≡ false
from_one_test n = ground arith

leb_same : (n : ℕ) → leb n n ≡ true
leb_same n = ground arith

seq-Reads :
    (c : ℕ) (vars : List XSqlVar)
    → length vars + 1 < 2 ^ 32
    → Reads
        (number_entry isc_info_sql_sqlda_seq (length vars + 1))
        (record { col_index = c; vars = vars })
        (describing vars default_var)
unfolding select_item sqlda_seq_item
seq-Reads c vars h =
    item-Reads isc_info_sql_sqlda_seq (number_bytes (length vars + 1))
      (record { col_index = c; vars = vars }) (describing vars default_var) (omega arith)
      (λ rest. rw (
        advance-append (put_u16_le 4) (put_u32_le (length vars + 1) ++ rest),
        get_u32_le-put_u32_le (length vars + 1) rest h,
        from_one_test (length vars),
        from_one (length vars),
        leb_same (length vars),
      ))

number-Reads :
    (item : ℕ) (vars : List XSqlVar) (var var' : XSqlVar) (f : ℕ → XSqlVar → XSqlVar) (n : ℕ)
    → item < 256
    → n < 2 ^ 32
    → f n var ≡ var'
    → ((v : Selecting) (rest : Bytes) → select_item v item rest ≡ number_item v f rest)
    → Reads (number_entry item n) (describing vars var) (describing vars var')
number-Reads item vars var var' f n small h next same =
    item-Reads item (number_bytes n) (describing vars var) (describing vars var') small (λ rest.
      same (describing vars var) (number_bytes n ++ rest)
      ∙ number_item-describing vars var f n rest h
      ∙ ap (λ w. done (again (describing vars w)) rest) next)

name-Reads :
    (item : ℕ) (vars : List XSqlVar) (var : XSqlVar) (f : Bytes → XSqlVar → XSqlVar) (text : Bytes)
    → item < 256
    → NameFits text
    → ((v : Selecting) (rest : Bytes) → select_item v item rest ≡ name_item v f rest)
    → Reads (name_entry item text) (describing vars var) (describing vars (f text var))
name-Reads item vars var f text small (h, utf8) same =
    item-Reads item (name_bytes text) (describing vars var) (describing vars (f text var)) small
      (λ rest.
        same (describing vars var) (name_bytes text ++ rest)
        ∙ name_item-describing vars var f text rest h utf8)

end-Reads :
    (vars : List XSqlVar) (var : XSqlVar)
    → Reads (put_u8 isc_info_sql_describe_end) (describing vars var) (describing vars var)
unfolding select_item
end-Reads vars var =
    item-Reads isc_info_sql_describe_end [] (describing vars var) (describing vars var)
      (omega arith) (λ rest. refl)

-- A number of 16 bits, which the entry carries in 32.
i16-Reads :
    (item : ℕ) (vars : List XSqlVar) (var : XSqlVar) (f : ℤ → XSqlVar → XSqlVar) (z : ℤ)
    → item < 256
    → InRange half16 z
    → ((v : Selecting) (rest : Bytes)
        → select_item v item rest ≡ number_item v (λ n. f (as_i16 n)) rest)
    → Reads
        (number_entry item (unsigned half32 z))
        (describing vars var)
        (describing vars (f z var))
i16-Reads item vars var f z small fits same =
    number-Reads item vars var (f z var) (λ n. f (as_i16 n)) (unsigned half32 z) small
      (unsigned-i16-lt z fits) (ap (λ y. f y var) (as_i16-unsigned z fits)) same

-- A column with the numbers of another, and with its first names.
abbrev with_numbers : XSqlVar → XSqlVar
with_numbers var = record var {
  field_name = [];
  relation_name = [];
  owner_name = [];
  alias_name = [];
}

numbers-Reads :
    (vars : List XSqlVar) (var : XSqlVar)
    → VarFits var
    → Reads (number_columns var) (describing vars default_var) (describing vars (with_numbers var))
unfolding number_columns select_item
numbers-Reads vars var fits =
    Reads-append _ _ _ _ _
      (i16-Reads isc_info_sql_type vars default_var (λ z w. record w { sqltype = z }) var.sqltype
        (omega arith) fits.sqltype_fits (λ v rest. refl))
      (Reads-append _ _ _ _ _
        (i16-Reads isc_info_sql_sub_type vars _ (λ z w. record w { sqlsubtype = z }) var.sqlsubtype
          (omega arith) fits.sqlsubtype_fits (λ v rest. refl))
        (Reads-append _ _ _ _ _
          (i16-Reads isc_info_sql_scale vars _ (λ z w. record w { scale = z }) var.scale
            (omega arith) fits.scale_fits (λ v rest. refl))
          (Reads-append _ _ _ _ _
            (i16-Reads isc_info_sql_length vars _ (λ z w. record w { data_length = z })
              var.data_length (omega arith) fits.data_length_fits (λ v rest. refl))
            (number-Reads isc_info_sql_null_ind vars _ (with_numbers var)
              (λ n w. record w { null_ind = not (n == 0) }) (null_code var.null_ind) (omega arith)
              (null_code-lt var.null_ind)
              (ap (λ b. record (with_numbers var) { null_ind = b }) (null_code-test var.null_ind))
              (λ v rest. refl)))))

names-Reads :
    (vars : List XSqlVar) (var : XSqlVar)
    → VarFits var
    → Reads (name_columns var) (describing vars (with_numbers var)) (describing vars var)
unfolding name_columns select_item
names-Reads vars var fits =
    Reads-append _ _ _ _ _
      (name-Reads isc_info_sql_field vars (with_numbers var) (λ t w. record w { field_name = t })
        var.field_name (omega arith) fits.field_fits (λ v rest. refl))
      (Reads-append _ _ _ _ _
        (name-Reads isc_info_sql_relation vars _ (λ t w. record w { relation_name = t })
          var.relation_name (omega arith) fits.relation_fits (λ v rest. refl))
        (Reads-append _ _ _ _ _
          (name-Reads isc_info_sql_owner vars _ (λ t w. record w { owner_name = t }) var.owner_name
            (omega arith) fits.owner_fits (λ v rest. refl))
          (Reads-append _ _ _ _ _
            (name-Reads isc_info_sql_alias vars _ (λ t w. record w { alias_name = t })
              var.alias_name (omega arith) fits.alias_fits (λ v rest. refl))
            (end-Reads vars var))))

-- The variables after the entries of a column.
pub column-Reads :
    (c : ℕ) (vars : List XSqlVar) (var : XSqlVar)
    → length vars + 1 < 2 ^ 32
    → VarFits var
    → Reads
        (column_bytes (length vars) var)
        (record { col_index = c; vars = vars })
        (describing vars var)
unfolding column_bytes
column-Reads c vars var h fits =
    Reads-append _ _ _ _ _ (seq-Reads c vars h)
      (Reads-append _ _ _ _ _ (numbers-Reads vars var fits) (names-Reads vars var fits))

-- ===== src/Tests/Xsqlda.antt =====
-- Witnesses for rsfbclient-rust/src/xsqlda.rs and rsfbclient-core/src/date_time.rs.
use rsfbclient.Base.{All, ◌≡◌, refl, true, false, some, [], ◌∷◌, arith, Bytes}
use rsfbclient.Base.Int.{pos, negsuc, unsigned}
use rsfbclient.Error.{ok}
use rsfbclient.Consts.Stmt.{StmtType, stmt_type_from}
use rsfbclient.DateTime.{NaiveTime, decode_time, encode_time}
use rsfbclient.DateTime.RoundTrip.{decode_time-encode_time}
use rsfbclient.Reader.{done}
use rsfbclient.Wire.Text.Utf8.{utf8_step, is_utf8}
use rsfbclient.Xsqlda.{XSqlVar, column_type, coerce_as, coerce, coerce_all, xsqlda_to_blr}
use rsfbclient.Xsqlda.Coerce.{IsCoerced, coerce_all-xsqlda_to_blr}
use rsfbclient.Xsqlda.Parse.{parse_xsqlda}
use rsfbclient.Xsqlda.Parse.Columns.{VarFits}
use rsfbclient.Xsqlda.Parse.Prepared.{Description, description_bytes, parse_xsqlda-description}

-- A nullable NUMERIC(9, 2).
abbrev price : XSqlVar
price = record {
  sqltype = pos 497;
  scale = negsuc 1;
  sqlsubtype = pos 1;
  data_length = pos 4;
  null_ind = true;
  field_name = b'P' ∷ [];
  relation_name = b'T' ∷ [];
  owner_name = [];
  alias_name = b'P' ∷ [];
}

price-fits : VarFits price
unfolding is_utf8 utf8_step
price-fits = record {
  sqltype_fits = omega arith;
  sqlsubtype_fits = omega arith;
  scale_fits = omega arith;
  data_length_fits = omega arith;
  field_fits = (omega arith, refl);
  relation_fits = (omega arith, refl);
  owner_fits = (omega arith, refl);
  alias_fits = (omega arith, refl);
}

abbrev described : Description
described = record { code = 1; params = 2; columns = price ∷ []; more = false }

select_type : stmt_type_from 1 ≡ ok StmtType.select
unfolding stmt_type_from
select_type = refl

parse_xsqlda-description_example :
    parse_xsqlda [] (description_bytes described)
    ≡ done
        (record { stmt_type = StmtType.select; param_count = 2; truncated = false }, price ∷ [])
        []
parse_xsqlda-description_example =
    parse_xsqlda-description described StmtType.select (omega arith) select_type (omega arith)
      (omega arith) (price-fits, tt)

abbrev coerced_price : XSqlVar
coerced_price = record price { data_length = pos 8; scale = pos 0; sqltype = pos 481 }

price_coerced : coerce_all (price ∷ []) ≡ ok (coerced_price ∷ [])
unfolding coerce_all coerce coerce_as column_type unsigned
price_coerced = refl

coerce_all-xsqlda_to_blr_example :
    All IsCoerced (coerced_price ∷ [])
    × ((blr : Bytes) × (xsqlda_to_blr (coerced_price ∷ []) ≡ ok blr))
    × (coerce_all (coerced_price ∷ []) ≡ ok (coerced_price ∷ []))
coerce_all-xsqlda_to_blr_example =
    coerce_all-xsqlda_to_blr (price ∷ []) (coerced_price ∷ []) price_coerced

-- A microsecond before midnight.
abbrev late : NaiveTime
late = record { hour = 23; minute = 59; second = 59; nanosecond = 999_999_000 }

decode_time-encode_time_example :
    decode_time (encode_time late) ≡ some (record late { nanosecond = 999_900_000 })
decode_time-encode_time_example = decode_time-encode_time late (record {
  hour_in = omega arith;
  minute_in = omega arith;
  second_in = omega arith;
  nanosecond_in = omega arith;
})

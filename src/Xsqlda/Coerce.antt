-- ===== src/Xsqlda/Coerce.antt =====
-- rsfbclient-rust/src/xsqlda.rs: the columns that `coerce` leaves, and their blr.
use rsfbclient.Base.{length, All, ℕ, ◌≡◌, refl, sym, true, List, [], ◌∷◌, ◌++◌, arith, Bytes}
use rsfbclient.Base.Int.{pos, unsigned}
use rsfbclient.Error.{ok}
use rsfbclient.Xsqlda.{
  XSqlVar, column_type, is_plain_blob, coerce_as, coerce, coerce_all, blr_type, message_len,
  xsqlda_to_blr, blr_types,
}
use rsfbclient.Consts.Blr.{blr_version5, blr_begin, blr_message, blr_end, blr_eoc, blr_short}
use rsfbclient.Error.Chain.{chain_value, ok-injective}
use rsfbclient.Util.{put_u16_le}

-- A column with a code that rows are read with. A blob is a plain one, of subtype 1 at most.
pub data IsCoerced (var : XSqlVar) : Type 0 where
  varying : var.sqltype ≡ pos 449 → IsCoerced var
  int64 : var.sqltype ≡ pos 581 → var.scale ≡ pos 0 → var.data_length ≡ pos 8 → IsCoerced var
  double : var.sqltype ≡ pos 481 → var.data_length ≡ pos 8 → IsCoerced var
  timestamp : var.sqltype ≡ pos 511 → var.data_length ≡ pos 8 → IsCoerced var
  boolean : var.sqltype ≡ pos 32765 → IsCoerced var
  blob : var.sqltype ≡ pos 521 → is_plain_blob var.sqlsubtype ≡ true → IsCoerced var

pub coerce_as-IsCoerced : (n : ℕ) (var var' : XSqlVar) → coerce_as n var ≡ ok var' → IsCoerced var'
unfolding coerce_as
coerce_as-IsCoerced n var var' h = grind (arith, varying, int64, double, timestamp, boolean, blob)

pub blr_type-IsCoerced : (var : XSqlVar) → IsCoerced var → (code : Bytes) × (blr_type var ≡ ok code)
unfolding blr_type column_type unsigned
blr_type-IsCoerced var (varying e) = rw e (_, refl)
blr_type-IsCoerced var (int64 e _ _) = rw e (_, refl)
blr_type-IsCoerced var (double e _) = rw e (_, refl)
blr_type-IsCoerced var (timestamp e _) = rw e (_, refl)
blr_type-IsCoerced var (boolean e) = rw e (_, refl)
blr_type-IsCoerced var (blob e _) = rw e (_, refl)

-- A coerced column is coerced to itself.
coerce-IsCoerced : (var : XSqlVar) → IsCoerced var → coerce var ≡ ok var
unfolding coerce coerce_as column_type unsigned
coerce-IsCoerced var (varying e) = ground arith
coerce-IsCoerced var (int64 e s l) = ground arith
coerce-IsCoerced var (double e l) = ground arith
coerce-IsCoerced var (timestamp e l) = ground arith
coerce-IsCoerced var (boolean e) = ground arith
coerce-IsCoerced var (blob e p) = ground arith

coerce_all-IsCoerced :
    (vars coerced : List XSqlVar) → coerce_all vars ≡ ok coerced → All IsCoerced coerced
unfolding coerce_all
coerce_all-IsCoerced [] coerced h = rw (← ok-injective h) tt
coerce_all-IsCoerced (var ∷ vars) coerced h =
    let (var', (first, h1)) = chain_value _ (coerce var) _ (sym h) in
    let (vars', (others, h2)) = chain_value _ (coerce_all vars) _ h1 in
    rw (ok-injective h2) (
      coerce_as-IsCoerced (column_type var.sqltype) var var' (unfold coerce in sym first),
      coerce_all-IsCoerced vars vars' (sym others),
    )

blr_types-IsCoerced :
    (vars : List XSqlVar) → All IsCoerced vars → (types : Bytes) × (blr_types vars ≡ ok types)
unfolding blr_types
blr_types-IsCoerced [] h = ([], refl)
blr_types-IsCoerced (var ∷ vars) (h, hs) =
    let (code, first) = blr_type-IsCoerced var h in
    let (rest, others) = blr_types-IsCoerced vars hs in
    (code ++ (blr_short ∷ 0 ∷ rest), rw (first, others))

coerce_all_again : (vars : List XSqlVar) → All IsCoerced vars → coerce_all vars ≡ ok vars
unfolding coerce_all
coerce_all_again [] h = refl
coerce_all_again (var ∷ vars) (h, hs) = rw (coerce-IsCoerced var h, coerce_all_again vars hs)

xsqlda_to_blr-IsCoerced :
    (vars : List XSqlVar) → All IsCoerced vars → (blr : Bytes) × (xsqlda_to_blr vars ≡ ok blr)
unfolding xsqlda_to_blr
xsqlda_to_blr-IsCoerced vars good =
    let (types, fine) = blr_types-IsCoerced vars good in
    (
      blr_version5
          ∷ blr_begin
          ∷ blr_message
          ∷ 0
          ∷ (put_u16_le (message_len (length vars)) ++ (types ++ (blr_end ∷ blr_eoc ∷ []))),
      rw fine,
    )

-- Columns that `coerce` accepts have one of the six codes that rows are read with: the conversion to
-- blr accepts all of them, and `coerce` leaves them as they are from then on.
pub coerce_all-xsqlda_to_blr :
    (vars coerced : List XSqlVar)
    → coerce_all vars ≡ ok coerced
    → All IsCoerced coerced
      × ((blr : Bytes) × (xsqlda_to_blr coerced ≡ ok blr))
      × (coerce_all coerced ≡ ok coerced)
coerce_all-xsqlda_to_blr vars coerced h =
    let good = coerce_all-IsCoerced vars coerced h in
    (good, xsqlda_to_blr-IsCoerced coerced good, coerce_all_again coerced good)

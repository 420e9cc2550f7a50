-- ===== src/SqlTypes.antt =====
-- rsfbclient-core/src/lib.rs, `SqlType`; rsfbclient-core/src/row.rs, `Column`.
use rsfbclient.Base.{ℕ, Bool, true, false, Bytes}
use rsfbclient.Base.Int.{ℤ}
use rsfbclient.DateTime.{NaiveDateTime}

-- A floating point number is its 64 bits.
pub data SqlType : Type 0 where
  text : Bytes → SqlType
  integer : ℤ → SqlType
  floating : ℕ → SqlType
  timestamp : NaiveDateTime → SqlType
  binary : Bytes → SqlType
  boolean : Bool → SqlType
  null : SqlType

abbrev pub is_null : SqlType → Bool
is_null null = true
is_null _ = false

pub record Column : Type 0 where
  pub name : Bytes
  pub raw_type : ℕ
  pub value : SqlType

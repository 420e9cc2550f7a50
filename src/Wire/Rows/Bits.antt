-- ===== src/Wire/Rows/Bits.antt =====
-- rsfbclient-rust/src/wire.rs, `parse_sql_response`: a bit of the null bitmap.
use rsfbclient.Base.{
  ◌==◌, if◌then◌else◌, get_elem?, ℕ, zero, suc, ◌+◌, ◌*◌, ◌/◌, ◌%◌, ◌^◌, ◌<◌, ◌≡◌, refl, Bool, true,
  false, not, some, arith, Bytes,
}
use rsfbclient.Wire.Rows.{null_bit}

-- The bit of a column in a bitmap: the columns are 8 to a byte, the first one of them in the lowest bit.
-- `high` are the bits above the column's, and `low` the ones below.
pub record Marked (m : Bytes) (i : ℕ) (missing : Bool) : Type 0 where
  pub byte_index : ℕ
  pub bit_index : ℕ
  pub high : ℕ
  pub low : ℕ
  pub here : i ≡ 8 * byte_index + bit_index
  pub in_byte : bit_index < 8
  pub low_fits : low < 2 ^ bit_index
  pub byte_there :
      get_elem? m byte_index ≡ some ((2 * high + (if missing then 1 else 0)) * 2 ^ bit_index + low)

bit_above :
    (j high low b : ℕ)
    → j < 8
    → low < 2 ^ j
    → b < 2
    → ((2 * high + b) * 2 ^ j + low) / 2 ^ j % 2 ≡ b
bit_above zero high low b h hl hb = omega arith
bit_above (suc zero) high low b h hl hb = omega arith
bit_above (suc (suc zero)) high low b h hl hb = omega arith
bit_above (suc (suc (suc zero))) high low b h hl hb = omega arith
bit_above (suc (suc (suc (suc zero)))) high low b h hl hb = omega arith
bit_above (suc (suc (suc (suc (suc zero))))) high low b h hl hb = omega arith
bit_above (suc (suc (suc (suc (suc (suc zero)))))) high low b h hl hb = omega arith
bit_above (suc (suc (suc (suc (suc (suc (suc zero))))))) high low b h hl hb = omega arith
bit_above (suc (suc (suc (suc (suc (suc (suc (suc j)))))))) high low b h hl hb =
    absurd (omega arith)

flag_test : (missing : Bool) → not ((if missing then 1 else 0) == 0) ≡ missing
flag_test true = refl
flag_test false = refl

flag-lt : (missing : Bool) → (if missing then 1 else 0) < 2
flag-lt true = omega arith
flag-lt false = omega arith

pub null_bit-Marked :
    (m : Bytes) (i : ℕ) (missing : Bool) → Marked m i missing → null_bit m i ≡ missing
unfolding null_bit
null_bit-Marked m i missing h =
    let byte : i / 8 ≡ h.byte_index = omega (arith, h.here, h.in_byte) in
    let bit : i % 8 ≡ h.bit_index = omega (arith, h.here, h.in_byte) in
    rw
      (
        byte,
        bit,
        h.byte_there,
        bit_above h.bit_index h.high h.low (if missing then 1 else 0) h.in_byte h.low_fits
            (flag-lt missing),
      )
      (flag_test missing)

-- ===== src/Wire/Status.antt =====
-- rsfbclient-rust/src/wire.rs, `parse_status_vector`. `gds_to_msg` stands for the table of message
-- texts of rsfbclient-rust/src/consts.rs: everything here holds for any table.
pub mod Stability
pub mod Items
use rsfbclient.Base.{◌==◌, if◌then◌else◌, length, ℕ, ◌+◌, ◌%◌, ◌^◌, not, [], ◌∷◌, ◌++◌, Bytes}
use rsfbclient.Base.Int.{ℤ, negsuc, signed, half32}
use rsfbclient.Error.{unknown_status_item, sql, ok, err}
use rsfbclient.Reader.{Parser, ◌>>=◌, ◌>>◌, pure, fail, lift}
use rsfbclient.Reader.Loop.{Next, again, stop, loop}
use rsfbclient.Consts.Ibase.{
  isc_arg_end, isc_arg_gds, isc_arg_string, isc_arg_number, isc_arg_interpreted, isc_arg_sql_state,
}
use rsfbclient.Util.{get_u32, get_i32, get_wire_bytes}
use rsfbclient.Wire.Text.{replace, decimal_ℤ, pop_newline}
use rsfbclient.Wire.Text.Utf8.{is_utf8}

-- "**Invalid message**"
abbrev pub invalid_message : Bytes
invalid_message =
    42 ∷ 42 ∷ b'I' ∷ b'n' ∷ b'v' ∷ b'a' ∷ b'l' ∷ b'i' ∷ b'd' ∷ 32 ∷ b'm' ∷ b'e' ∷ b's' ∷ b's' ∷ b'a'
    ∷ b'g' ∷ b'e' ∷ 42 ∷ 42 ∷ []

-- `std::str::from_utf8(&msg[..]).unwrap_or("**Invalid message**")`
unfoldable pub text_or_invalid : Bytes → Bytes
text_or_invalid msg = if is_utf8 msg then msg else invalid_message

-- The loop's variables.
pub record StatusVars : Type 0 where
  pub sql_code : ℤ
  pub message : Bytes
  pub gds_code : ℕ
  pub num_arg : ℕ

abbrev pub no_status : StatusVars
no_status = record { sql_code = negsuc 0; message = []; gds_code = 0; num_arg = 0 }

-- `num_arg += 1` and the replacement of "@num_arg". The number is an i32, kept here as its 32 bits; it
-- wraps around, as it does where the checks of overflow are off.
unfoldable pub put_argument : Bytes → StatusVars → StatusVars
put_argument text v = record v {
  num_arg = (v.num_arg + 1) % 2 ^ 32;
  message = replace (64 ∷ decimal_ℤ (signed half32 ((v.num_arg + 1) % 2 ^ 32))) text v.message;
}

-- The end of the function, behind the loop.
unfoldable pub finish_status : StatusVars → Parser Bytes (Unit {0})
finish_status v =
    let message = pop_newline v.message in
    lift (if not (length message == 0) then err (sql v.sql_code message) else ok tt)

module _ (gds_to_msg : ℕ → Bytes) where
  gds_item : StatusVars → Parser Bytes (Next StatusVars StatusVars)
  gds_item v = do
    gds_code ← get_u32
    pure (
        again (
          if not (gds_code == 0)
          then record v {
            gds_code = gds_code;
            message = v.message ++ gds_to_msg gds_code;
            num_arg = 0;
          }
          else record v { gds_code = gds_code }))

  number_item : StatusVars → Parser Bytes (Next StatusVars StatusVars)
  number_item v = do
    num ← get_i32
    pure (
        again (
          put_argument (decimal_ℤ num)
            (if v.gds_code == 335544436 then record v { sql_code = num } else v)))

  string_item : StatusVars → Parser Bytes (Next StatusVars StatusVars)
  string_item v = do msg ← get_wire_bytes; pure (again (put_argument (text_or_invalid msg) v))

  interpreted_item : StatusVars → Parser Bytes (Next StatusVars StatusVars)
  interpreted_item v = do
    msg ← get_wire_bytes
    pure (again (record v { message = v.message ++ text_or_invalid msg }))

  sql_state_item : StatusVars → Parser Bytes (Next StatusVars StatusVars)
  sql_state_item v = do _ ← get_wire_bytes; pure (again v)

  -- The `match` on the item code.
  status_item : StatusVars → ℕ → Parser Bytes (Next StatusVars StatusVars)
  status_item v cod =
      if cod == isc_arg_gds
      then gds_item v
      else (if cod == isc_arg_number
          then number_item v
          else (if cod == isc_arg_string
              then string_item v
              else (if cod == isc_arg_interpreted
                  then interpreted_item v
                  else (if cod == isc_arg_sql_state
                      then sql_state_item v
                      else (if cod == isc_arg_end
                          then pure (stop v)
                          else fail (unknown_status_item cod))))))

  pub status_round : StatusVars → Parser Bytes (Next StatusVars StatusVars)
  unfolding status_item gds_item number_item string_item interpreted_item sql_state_item
  status_round v = do cod ← get_u32; status_item v cod

  unfoldable pub parse_status_vector : Parser Bytes (Unit {0})
  unfolding status_round
  parse_status_vector = do v ← loop status_round no_status; finish_status v

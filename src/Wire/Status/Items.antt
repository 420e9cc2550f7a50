-- ===== src/Wire/Status/Items.antt =====
-- The status vector as the server means it, a list of items, and `parse_status_vector` of
-- rsfbclient-rust/src/wire.rs against it.
use rsfbclient.Base.{
  ◌==◌, if◌then◌else◌, length, All, ℕ, ◌^◌, ◌<◌, ◌+◌, ◌%◌, ◌≡◌, ◌∙◌, List, [], ◌∷◌, ◌++◌,
  append_assoc, arith, Bytes,
}
use rsfbclient.Base.Int.{ℤ, half32, signed, InRange}
use rsfbclient.Consts.Ibase.{
  isc_arg_end, isc_arg_gds, isc_arg_string, isc_arg_number, isc_arg_interpreted, isc_arg_sql_state,
}
use rsfbclient.Error.{sql}
use rsfbclient.Reader.{Outcome, done, failed}
use rsfbclient.Reader.Loop.{again, resume, loop}
use rsfbclient.Util.{put_u32, put_i32, put_wire_bytes}
use rsfbclient.Util.RoundTrip.{get_u32-put_u32, get_i32-put_i32, get_wire_bytes-put_wire_bytes}
use rsfbclient.Wire.Text.{replace, decimal_ℤ, pop_newline}
use rsfbclient.Wire.Status.{
  text_or_invalid, StatusVars, no_status, put_argument, finish_status, status_round,
  parse_status_vector,
}
use rsfbclient.Reader.Loop.Laws.{loop_unroll}
use rsfbclient.Wire.Status.Stability.{status-Shrinks}

pub data StatusItem : Type 0 where
  gds : ℕ → StatusItem
  number : ℤ → StatusItem
  string interpreted sql_state : Bytes → StatusItem

-- How an item stands in the vector.
abbrev pub item_bytes : StatusItem → Bytes
item_bytes (gds code) = put_u32 isc_arg_gds ++ put_u32 code
item_bytes (number num) = put_u32 isc_arg_number ++ put_i32 num
item_bytes (string text) = put_u32 isc_arg_string ++ put_wire_bytes text
item_bytes (interpreted text) = put_u32 isc_arg_interpreted ++ put_wire_bytes text
item_bytes (sql_state text) = put_u32 isc_arg_sql_state ++ put_wire_bytes text

abbrev pub vector_bytes : List StatusItem → Bytes
vector_bytes [] = put_u32 isc_arg_end
vector_bytes (item ∷ items) = item_bytes item ++ vector_bytes items

abbrev pub ItemFits : StatusItem → Type 0
ItemFits (gds code) = code < 2 ^ 32
ItemFits (number num) = InRange half32 num
ItemFits (string text) = length text < 2 ^ 32
ItemFits (interpreted text) = length text < 2 ^ 32
ItemFits (sql_state text) = length text < 2 ^ 32

module _ (gds_to_msg : ℕ → Bytes) where
  -- A text in the place of "@n", where n is one more than before, an i32.
  abbrev replaced : StatusVars → Bytes → StatusVars
  replaced v text =
      let n = (v.num_arg + 1) % 2 ^ 32 in
      record {
        sql_code = v.sql_code;
        message = replace (b'@' ∷ decimal_ℤ (signed half32 n)) text v.message;
        gds_code = v.gds_code;
        num_arg = n;
      }

  -- What an item does to the message under construction: a code appends its text and restarts the
  -- numbering of the arguments, a number or a string takes the place of the next "@n", and the number
  -- behind the code 335544436 is the sql code.
  abbrev pub apply_item : StatusVars → StatusItem → StatusVars
  apply_item v (gds code) =
      if code == 0
      then record v { gds_code = 0 }
      else record v { gds_code = code; message = v.message ++ gds_to_msg code; num_arg = 0 }
  apply_item v (number num) =
      replaced (record v { sql_code = if v.gds_code == 335544436 then num else v.sql_code })
        (decimal_ℤ num)
  apply_item v (string text) = replaced v (text_or_invalid text)
  apply_item v (interpreted text) = record v { message = v.message ++ text_or_invalid text }
  apply_item v (sql_state text) = v

  abbrev pub apply_items : StatusVars → List StatusItem → StatusVars
  apply_items v [] = v
  apply_items v (item ∷ items) = apply_items (apply_item v item) items

  round-item :
      (v : StatusVars) (item : StatusItem) (rest : Bytes)
      → ItemFits item
      → status_round gds_to_msg v (item_bytes item ++ rest) ≡ done (again (apply_item v item)) rest
  unfolding status_round
  round-item v (gds code) rest h =
      rw
        (
          get_u32-put_u32 isc_arg_gds (put_u32 code ++ rest) (omega arith),
          get_u32-put_u32 code rest h,
        )
        (ground arith)
  round-item v (number num) rest h =
      rw
        (
          get_u32-put_u32 isc_arg_number (put_i32 num ++ rest) (omega arith),
          get_i32-put_i32 num rest h,
        )
        (unfold put_argument in ground arith)
  round-item v (string text) rest h =
      unfold put_argument in
      rw (
        get_u32-put_u32 isc_arg_string (put_wire_bytes text ++ rest) (omega arith),
        get_wire_bytes-put_wire_bytes text rest h,
      )
  round-item v (interpreted text) rest h = rw (
    get_u32-put_u32 isc_arg_interpreted (put_wire_bytes text ++ rest) (omega arith),
    get_wire_bytes-put_wire_bytes text rest h,
  )
  round-item v (sql_state text) rest h = rw (
    get_u32-put_u32 isc_arg_sql_state (put_wire_bytes text ++ rest) (omega arith),
    get_wire_bytes-put_wire_bytes text rest h,
  )

  loop-items :
      (v : StatusVars) (items : List StatusItem) (rest : Bytes)
      → All ItemFits items
      → loop (status_round gds_to_msg) v (vector_bytes items ++ rest)
        ≡ done (apply_items v items) rest
  unfolding resume
  loop-items v [] rest h =
      rw (loop_unroll (status-Shrinks gds_to_msg) v (put_u32 isc_arg_end ++ rest))
        (unfold status_round in rw (get_u32-put_u32 isc_arg_end rest (omega arith)))
  loop-items v (item ∷ items) rest (h, hs) =
      rw
        (
          append_assoc (item_bytes item) (vector_bytes items) rest,
          loop_unroll (status-Shrinks gds_to_msg) v
              (item_bytes item ++ (vector_bytes items ++ rest)),
          round-item v item (vector_bytes items ++ rest) h,
        )
        (loop-items (apply_item v item) items rest hs)

  pub parse_status_vector-finish :
      (items : List StatusItem) (rest : Bytes)
      → All ItemFits items
      → parse_status_vector gds_to_msg (vector_bytes items ++ rest)
        ≡ finish_status (apply_items no_status items) rest
  unfolding parse_status_vector
  parse_status_vector-finish items rest h = rw (loop-items no_status items rest h)

  -- What a caller is told at the end of the vector.
  abbrev pub told : StatusVars → Bytes → Outcome Bytes (Unit {0})
  told v rest =
      if length (pop_newline v.message) == 0
      then done tt rest
      else failed (sql v.sql_code (pop_newline v.message)) rest

  -- The status vector of a list of items reads as the message that the items build, one after the
  -- other, less a newline at its end: an error with the message and the sql code if the message is not
  -- empty, and otherwise success. The cursor stands behind the vector. The items fit their widths.
  pub parse_status_vector-items :
      (items : List StatusItem) (rest : Bytes)
      → All ItemFits items
      → parse_status_vector gds_to_msg (vector_bytes items ++ rest)
        ≡ told (apply_items no_status items) rest
  unfolding finish_status
  parse_status_vector-items items rest h = parse_status_vector-finish items rest h ∙ ground arith

-- ===== src/Tests/Rows.antt =====
-- Witnesses for the rows of rsfbclient-rust/src/wire.rs and the cursors of client.rs.
use rsfbclient.Base.{
  replicate, true, take, drop, ◌≡◌, refl, false, none, some, List, [], ◌∷◌, ◌++◌, arith, Bytes,
}
use rsfbclient.Base.Int.{pos, unsigned}
use rsfbclient.Wire.Rows.Data.{Datum, datum_bytes, is_integer}
use rsfbclient.Wire.Rows.Laws.{bitmap}
use rsfbclient.Client.Session.Cursors.Replies.{fits_row}
use rsfbclient.Consts.{v12, v13}
use rsfbclient.Client.Read.{chunk, Conn}
use rsfbclient.Client.Session.Params.{null_bitmap}
use rsfbclient.Client.Session.Params.Bitmap.{null_bit-null_bitmap}
use rsfbclient.Wire.Rows.{null_bit}
use rsfbclient.Wire.Rows.Bits.{Marked}
use rsfbclient.Reader.{done}
use rsfbclient.Charset.{utf_8}
use rsfbclient.SqlTypes.{SqlType, Column}
use rsfbclient.Xsqlda.{XSqlVar, default_var, column_type}
use rsfbclient.Wire.Rows.{null_map_len, complete_column, parse_fetch_response}
use rsfbclient.Wire.Rows.Laws.{
  sent, Cell, cells_bytes, RowFits, vars_of, columns_of, MapOf, indicators, map_bytes,
  parse_fetch_response-cells,
}
use rsfbclient.Client.Session.Cursors.Delivery.{after_batch, Answers, fetch_batch-rows, fetch-rows}
use rsfbclient.Client.Session.Statements.{Held}
use rsfbclient.Client.Session.Exchange.{Holds}
use rsfbclient.Client.Session.Cursors.Batches.{SentRow, rows_bytes, end_reply}
use rsfbclient.Client.Session.Cursors.{row, parse_one_fetch_response, fetch_batch, fetch}
use rsfbclient.Client.Session.Cursors.Replies.{
  row_reply, reply_body, reply_bytes, parse_one_fetch_response-reply,
}
use rsfbclient.Util.{put_u32}
use rsfbclient.Wire.Rows.Bits.{Marked}

-- A column of integers.
abbrev number_var : XSqlVar
number_var = record default_var { sqltype = pos 581; alias_name = b'N' ∷ [] }

number_type : column_type number_var.sqltype ≡ 580
unfolding column_type unsigned
number_type = refl

-- 5, and a null.
abbrev five : Cell
five = record {
  var = number_var;
  missing = false;
  datum = Datum.integer (pos 5);
  column = complete_column number_var (SqlType.integer (pos 5));
}

abbrev no_number : Cell
no_number = record five { missing = true }

abbrev cells : List Cell
cells = five ∷ no_number ∷ []

-- The second bit is that of the null.
abbrev second_null : Bytes
second_null = 2 ∷ 0 ∷ 0 ∷ 0 ∷ []

first_bit : Marked second_null 0 false
first_bit = record {
  byte_index = 0;
  bit_index = 0;
  high = 1;
  low = 0;
  here = refl;
  in_byte = omega arith;
  low_fits = omega arith;
  byte_there = refl;
}

second_bit : Marked second_null 1 true
second_bit = record {
  byte_index = 0;
  bit_index = 1;
  high = 0;
  low = 0;
  here = refl;
  in_byte = omega arith;
  low_fits = omega arith;
  byte_there = refl;
}

bits_fit : RowFits utf_8 (some second_null) 0 cells
unfolding RowFits
bits_fit = (
  first_bit,
  (is_integer number_type (omega arith), (second_bit, (is_integer number_type (omega arith), tt))),
)

two_bitmap : MapOf v13 2 (some second_null)
unfolding null_map_len
two_bitmap = bitmap refl refl

parse_fetch_response-cells_example :
    parse_fetch_response (vars_of cells) v13 utf_8 (
      put_u32 0
      ++ (put_u32 1
          ++ (map_bytes (some second_null) ++ (cells_bytes (some second_null) cells ++ (9 ∷ [])))))
    ≡ done (some (columns_of cells)) (9 ∷ [])
parse_fetch_response-cells_example =
    parse_fetch_response-cells utf_8 v13 (some second_null) cells (9 ∷ []) two_bitmap bits_fit

-- Before protocol 13.
plain_fit : RowFits utf_8 none 0 cells
unfolding RowFits
plain_fit =
    (tt, (is_integer number_type (omega arith), (tt, (is_integer number_type (omega arith), tt))))

parse_one_fetch_response-reply_example :
    parse_one_fetch_response
      (vars_of cells)
      v12
      utf_8
      (λ code. [])
      (record { lazy = 0; bytes = reply_bytes 1 (row_reply none cells) ++ (9 ∷ []) })
    ≡ done (row (columns_of cells)) (record { lazy = 0; bytes = 9 ∷ [] })
parse_one_fetch_response-reply_example =
    parse_one_fetch_response-reply (vars_of cells) v12 utf_8 (λ code. []) 1 (row_reply none cells)
      (row (columns_of cells)) (9 ∷ []) (fits_row refl (indicators refl) plain_fit)

abbrev number_column : SqlType → Column
number_column value = record {
  name = b'N' ∷ [];
  raw_type = column_type number_var.sqltype;
  value = value;
}

abbrev number_row : SentRow
number_row = record {
  keepalives = 1;
  null_map = none;
  cells = cells;
  cols = number_column (SqlType.integer (pos 5)) ∷ number_column SqlType.null ∷ [];
}

abbrev two_rows : List SentRow
two_rows = number_row ∷ number_row ∷ []

-- The rows and the end of the cursor, the first bytes pending and the other ones in one read.
abbrev reply : Bytes
reply = rows_bytes two_rows ++ (reply_bytes 0 (end_reply true) ++ (9 ∷ []))

abbrev opened_cursor : Held
opened_cursor = record {
  session = record {
    conn = record { pending = take 7 reply; lazy_count = 0; socket = chunk (drop 7 reply) ∷ [] };
    sent = [];
    writes = 1;
    version = v12;
    charset = utf_8;
    auth_plugin = none;
    srp_key = [];
    next_event_id = 1;
  };
  stmt = record {
    handle = 3;
    xsqlda = vars_of cells;
    blr = 5 ∷ [];
    param_count = 0;
    prefetched = [];
    cursor_eof = false;
  };
}

cursor-Answers : Answers 2 0 two_rows true opened_cursor (9 ∷ [])
unfolding reply_bytes reply_body cells_bytes sent datum_bytes
cursor-Answers = record {
  writable = omega arith;
  few = omega arith;
  fits =
      (fits_row refl (indicators refl) plain_fit, (fits_row refl (indicators refl) plain_fit, tt));
  holds = record { opened = (omega arith, tt); lazy_none = refl; unread = refl };
}

fetch_batch-rows_example :
    (after : Conn) × (fetch_batch (λ code. []) 4 2 opened_cursor
      ≡ done tt (after_batch 2 two_rows true opened_cursor after))
    × Holds (after_batch 2 two_rows true opened_cursor after).session (9 ∷ [])
fetch_batch-rows_example =
    fetch_batch-rows (λ code. []) 4 2 0 two_rows true opened_cursor (9 ∷ []) cursor-Answers

fetch-rows_example :
    (after : Conn) × (fetch (λ code. []) 4 2 opened_cursor
      ≡ done (some number_row.cols) (record (after_batch 2 two_rows true opened_cursor after) {
        stmt = record opened_cursor.stmt { prefetched = number_row.cols ∷ []; cursor_eof = true };
      }))
    × Holds (after_batch 2 two_rows true opened_cursor after).session (9 ∷ [])
fetch-rows_example =
    fetch-rows (λ code. []) 4 2 0 two_rows true opened_cursor (9 ∷ []) cursor-Answers refl refl refl

-- The 33rd of 40 parameters is null.
abbrev many_params : List SqlType
many_params =
    replicate 32 (SqlType.integer (pos 1)) ++ (SqlType.null ∷ replicate 7 (SqlType.integer (pos 2)))

null_bit-null_bitmap_example :
    Marked (null_bitmap many_params) 32 true × (null_bit (null_bitmap many_params) 32 ≡ true)
null_bit-null_bitmap_example = null_bit-null_bitmap many_params 32 SqlType.null refl

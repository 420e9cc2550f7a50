-- ===== src/Wire/Rows/Laws.antt =====
-- rsfbclient-rust/src/wire.rs, `parse_sql_response` and `parse_fetch_response` on a row that a server
-- sends, in protocol 13 and before it.
use rsfbclient.Base.{
  length, ℕ, suc, ◌+◌, ◌≡◌, refl, sym, ap, Bool, true, false, Option, none, some, List, [], ◌∷◌,
  ◌++◌, map, append_assoc, arith, Bytes,
}
use rsfbclient.Charset.{Charset}
use rsfbclient.Reader.{done}
use rsfbclient.Util.{put_u32}
use rsfbclient.Xsqlda.{XSqlVar}
use rsfbclient.Wire.Rows.{
  ParsedColumn, null_map_len, read_null_map, read_null, null_before, parse_column, parse_columns,
  parse_sql_response, parse_fetch_response,
}
use rsfbclient.Util.RoundTrip.{advance-append, slice_to-append, get_u32-put_u32}
use rsfbclient.Consts.{ProtocolVersion, at_least_v13}
use rsfbclient.Wire.Rows.Data.{
  Datum, datum_bytes, ColumnOf, indicator, Marks, or_null, parse_value-datum,
}
use rsfbclient.Wire.Rows.Bits.{null_bit-Marked}

-- What the server sends for a column: nothing for a null in protocol 13.
unfoldable pub sent : Option Bytes → Bool → Datum → Bytes
sent (some null_map) true d = []
sent null_map missing d = datum_bytes d ++ indicator null_map missing

-- A row: each column with its datum and whether it is null.
pub record Cell : Type 0 where
  pub var : XSqlVar
  pub missing : Bool
  pub datum : Datum
  pub column : ParsedColumn

unfoldable pub cells_bytes : Option Bytes → List Cell → Bytes
cells_bytes null_map [] = []
cells_bytes null_map (c ∷ cells) = sent null_map c.missing c.datum ++ cells_bytes null_map cells

-- The bits of the bitmap from the `i`th on, where there is one, and the data of the columns.
unfoldable pub RowFits : Charset → Option Bytes → ℕ → List Cell → Type 0
RowFits charset null_map i [] = Unit
RowFits charset null_map i (c ∷ cells) =
    Marks null_map i c.missing
    × (ColumnOf charset c.var c.datum c.column × RowFits charset null_map (i + 1) cells)

abbrev pub vars_of : List Cell → List XSqlVar
vars_of = map (λ c. c.var)

abbrev pub columns_of : List Cell → List ParsedColumn
columns_of = map (λ c. or_null c.var c.missing c.column)

parse_column-sent :
    (charset : Charset) (null_map : Option Bytes) (i : ℕ) (var : XSqlVar) (missing : Bool)
    (d : Datum) (column : ParsedColumn) (rest : Bytes)
    → Marks null_map i missing
    → ColumnOf charset var d column
    → parse_column charset null_map i var (sent null_map missing d ++ rest)
      ≡ done (or_null var missing column) rest
unfolding parse_column null_before read_null sent
parse_column-sent charset (some m) i var true d column rest marked of =
    rw (null_bit-Marked m i true marked) refl
parse_column-sent charset (some m) i var false d column rest marked of =
    rw (null_bit-Marked m i false marked, append_assoc (datum_bytes d) [] rest)
      (parse_value-datum charset (some m) i var false marked _ d column rest refl of)
parse_column-sent charset none i var missing d column rest marked of =
    rw (append_assoc (datum_bytes d) (indicator none missing) rest)
      (parse_value-datum charset none i var missing marked _ d column rest refl of)

parse_columns-cells :
    (charset : Charset) (null_map : Option Bytes) (i : ℕ) (cells : List Cell) (rest : Bytes)
    → RowFits charset null_map i cells
    → parse_columns charset null_map i (vars_of cells) (cells_bytes null_map cells ++ rest)
      ≡ done (columns_of cells) rest
unfolding parse_columns cells_bytes RowFits
parse_columns-cells charset null_map i [] rest fits = refl
parse_columns-cells charset null_map i (c ∷ cells) rest (marked, (of, fits)) =
    rw
      (
        append_assoc (sent null_map c.missing c.datum) (cells_bytes null_map cells) rest,
        parse_column-sent charset null_map i c.var c.missing c.datum c.column
            (cells_bytes null_map cells ++ rest) marked of,
        parse_columns-cells charset null_map (i + 1) cells rest fits,
      )
      refl

-- The bitmap in front of a row: there in protocol 13, and not before.
pub data MapOf (version : ProtocolVersion) (n : ℕ) : Option Bytes → Type 0 where
  bitmap :
      {m : Bytes}
      → at_least_v13 version ≡ true
      → length m ≡ null_map_len n
      → MapOf version n (some m)
  indicators : at_least_v13 version ≡ false → MapOf version n none

abbrev pub map_bytes : Option Bytes → Bytes
map_bytes none = []
map_bytes (some m) = m

read_null_map-map_bytes :
    (version : ProtocolVersion) (n : ℕ) (null_map : Option Bytes) (rest : Bytes)
    → MapOf version n null_map
    → read_null_map version n (map_bytes null_map ++ rest) ≡ done null_map rest
unfolding read_null_map
read_null_map-map_bytes version n (some m) rest (bitmap new len) =
    rw (new, sym len, slice_to-append m rest, advance-append m rest) refl
read_null_map-map_bytes version n none rest (indicators old) = rw old refl

length-vars_of : (cells : List Cell) → length (vars_of cells) ≡ length cells
length-vars_of [] = refl
length-vars_of (c ∷ cells) = ap suc (length-vars_of cells)

-- A row that a server sends is read back as its columns, with null for each one that is marked so, and
-- no byte behind the row is read: after the status 0 and the count 1 of `parse_fetch_response`, with the
-- bitmap that marks the nulls in protocol 13, 8 columns to a byte from the lowest bit on, and with the
-- indicators behind the data before it. The data of each column are of its type and fit the numbers'
-- widths, a text decodes, and a timestamp is one that the code decodes.
pub parse_fetch_response-cells :
    (charset : Charset) (version : ProtocolVersion) (null_map : Option Bytes) (cells : List Cell)
    (rest : Bytes)
    → MapOf version (length cells) null_map
    → RowFits charset null_map 0 cells
    → parse_fetch_response
        (vars_of cells)
        version
        charset
        (put_u32 0 ++ (put_u32 1 ++ (map_bytes null_map ++ (cells_bytes null_map cells ++ rest))))
      ≡ done (some (columns_of cells)) rest
unfolding parse_fetch_response parse_sql_response
parse_fetch_response-cells charset version null_map cells rest mapped fits =
    let body = map_bytes null_map ++ (cells_bytes null_map cells ++ rest) in
    rw
      (
        get_u32-put_u32 0 (put_u32 1 ++ body) (omega arith),
        get_u32-put_u32 1 body (omega arith),
        length-vars_of cells,
        read_null_map-map_bytes version (length cells) null_map (cells_bytes null_map cells ++ rest)
            mapped,
        parse_columns-cells charset null_map 0 cells rest fits,
      )
      refl

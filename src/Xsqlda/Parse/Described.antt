-- ===== src/Xsqlda/Parse/Described.antt =====
-- rsfbclient-rust/src/xsqlda.rs: `parse_select_items` on all the columns of a statement, in one
-- answer or in several.
use rsfbclient.Base.{
  ◌==◌, length, All, length-append, ℕ, ◌+◌, ◌^◌, ◌<◌, ◌≡◌, refl, sym, Bool, true, false, List, [],
  ◌∷◌, ◌++◌, append-nil, append_assoc, arith, Bytes,
}
use rsfbclient.Reader.{done}
use rsfbclient.Reader.Loop.{resume, loop}
use rsfbclient.Reader.Loop.Laws.{loop_unroll}
use rsfbclient.Util.{put_u8}
use rsfbclient.Xsqlda.{XSqlVar}
use rsfbclient.Xsqlda.Parse.{Selecting, select_item, select_round, parse_select_items}
use rsfbclient.Xsqlda.Parse.Select.{select-Shrinks}
use rsfbclient.Xsqlda.Parse.Columns.{VarFits, column_bytes, column-Reads}
use rsfbclient.Consts.Ibase.{isc_info_end, isc_info_truncated}
use rsfbclient.Util.RoundTrip.{get_u8-put_u8}

-- The columns from a place on, and the end of the data: the item that says so, or the one that says
-- that the server has more columns.
unfoldable pub columns_bytes : ℕ → List XSqlVar → Bytes
columns_bytes i [] = []
columns_bytes i (var ∷ vars) = column_bytes i var ++ columns_bytes (i + 1) vars

abbrev pub select_end : Bool → Bytes
select_end true = put_u8 isc_info_truncated
select_end false = put_u8 isc_info_end

end_of_select :
    (v : Selecting) (truncated : Bool) (rest : Bytes)
    → loop select_round v (select_end truncated ++ rest) ≡ done (truncated, v.vars) rest
unfolding select_round select_item resume
end_of_select v true rest =
    rw
      (
        loop_unroll select-Shrinks v (isc_info_truncated ∷ rest),
        get_u8-put_u8 isc_info_truncated rest (omega arith),
      )
      refl
end_of_select v false rest =
    rw
      (
        loop_unroll select-Shrinks v (isc_info_end ∷ rest),
        get_u8-put_u8 isc_info_end rest (omega arith),
      )
      refl

length-last :
    (known : List XSqlVar) (var : XSqlVar) → length known + 1 ≡ length (known ++ (var ∷ []))
length-last known var = omega (arith, length-append known (var ∷ []))

columns-loop :
    (c : ℕ) (known vars : List XSqlVar) (truncated : Bool) (rest : Bytes)
    → length known + length vars < 2 ^ 32
    → All VarFits vars
    → loop select_round
        (record { col_index = c; vars = known })
        (columns_bytes (length known) vars ++ (select_end truncated ++ rest))
      ≡ done (truncated, known ++ vars) rest
unfolding columns_bytes
columns-loop c known [] truncated rest h fits =
    rw (append-nil known) (end_of_select (record { col_index = c; vars = known }) truncated rest)
columns-loop c known (var ∷ vars) truncated rest h (fit, fits) =
    rw
      (
        append_assoc (column_bytes (length known) var) (columns_bytes (length known + 1) vars)
            (select_end truncated ++ rest),
        (column-Reads c known var (omega arith) fit).at
            (columns_bytes (length known + 1) vars ++ (select_end truncated ++ rest)),
      )
      (rw (length-last known var, sym (append_assoc known (var ∷ []) vars))
        (columns-loop (length known) (known ++ (var ∷ [])) vars truncated rest
          (omega (arith, length-append known (var ∷ []))) fits))

longer_test : (b : ℕ) (bs : Bytes) → (length (b ∷ bs) == 0) ≡ false
longer_test b bs = ground arith

has_end :
    (bytes : Bytes) (truncated : Bool) (rest : Bytes)
    → (length (bytes ++ (select_end truncated ++ rest)) == 0) ≡ false
has_end [] true rest = longer_test isc_info_truncated rest
has_end [] false rest = longer_test isc_info_end rest
has_end (b ∷ bytes) truncated rest = longer_test b (bytes ++ (select_end truncated ++ rest))

-- The columns that a server describes are put behind the ones that are known, and the answer says
-- whether the server has more: the description may be cut into several answers, each going on where the
-- last one stopped. The bytes behind the end are left. The numbers of a column are those of an i16,
-- its names are utf-8 of less than 2^16 bytes, and the columns are less than 2^32.
pub parse_select_items-columns :
    (known vars : List XSqlVar) (truncated : Bool) (rest : Bytes)
    → length known + length vars < 2 ^ 32
    → All VarFits vars
    → parse_select_items known (columns_bytes (length known) vars ++ (select_end truncated ++ rest))
      ≡ done (truncated, known ++ vars) rest
unfolding parse_select_items
parse_select_items-columns known vars truncated rest h fits =
    rw (has_end (columns_bytes (length known) vars) truncated rest)
      (columns-loop 0 known vars truncated rest h fits)

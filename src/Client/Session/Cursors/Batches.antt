-- ===== src/Client/Session/Cursors/Batches.antt =====
-- rsfbclient-rust/src/client.rs, `fetch_batch` and `fetch`: the rows that the server sends for one
-- request, delivered in order.
use mathlib.Core.Path.{subst}
use rsfbclient.Base.{
  length, All, ℕ, zero, suc, ◌≤◌, ◌≡◌, refl, Bool, true, false, Option, List, [], ◌∷◌, ◌++◌, map,
  append-nil, append_assoc, arith, Bytes,
}
use rsfbclient.Error.{too_many_rows}
use rsfbclient.Reader.{done, ◌>>=◌, fail}
use rsfbclient.Wire.Rows.{ParsedColumn, complete}
use rsfbclient.Client.Read.{Conn}
use rsfbclient.Client.Read.Reassembly.{IsOpen, read_with-done, socket_of, read_with-IsOpen}
use rsfbclient.Client.Session.Exchange.{Holds}
use rsfbclient.Client.Session.{Session, Call, reading}
use rsfbclient.Client.Session.Cursors.{
  FetchOne, row, batch_end, end_of_cursor, parse_one_fetch_response, Batch, batch_step,
  batch_rounds,
}
use rsfbclient.Client.Session.Cursors.Replies.{
  Stable-parse_one_fetch_response, FetchReply, row_reply, batch_reply, cursor_reply, reply_bytes,
  ReplyFits, fits_batch, fits_cursor, parse_one_fetch_response-reply,
}
use rsfbclient.Wire.Rows.Laws.{Cell}
use rsfbclient.Charset.{Charset}
use rsfbclient.SqlTypes.{Column}
use rsfbclient.Consts.{ProtocolVersion}
use rsfbclient.Xsqlda.{XSqlVar}

-- A row that the server sends, with keepalives in front, and the columns that it makes.
pub record SentRow : Type 0 where
  pub keepalives : ℕ
  pub null_map : Option Bytes
  pub cells : List Cell
  pub cols : List Column

abbrev pub rows_bytes : List SentRow → Bytes
rows_bytes [] = []
rows_bytes (r ∷ rows) = reply_bytes r.keepalives (row_reply r.null_map r.cells) ++ rows_bytes rows

-- The end of the batch, or of the cursor.
abbrev pub end_reply : Bool → FetchReply
end_reply true = cursor_reply
end_reply false = batch_reply

-- The rows are rows of the statement, and none of their columns is a blob.
abbrev pub RowsFit : List XSqlVar → ProtocolVersion → Charset → List SentRow → Type 0
RowsFit xsqlda version charset = All (λ r.
    ReplyFits xsqlda version charset (row_reply r.null_map r.cells) (row (map complete r.cols)))

module _ (gds_to_msg : ℕ → Bytes) (xsqlda : List XSqlVar) (version : ProtocolVersion)
    (charset : Charset) where
  abbrev pub next_reply : Call FetchOne
  next_reply = reading (parse_one_fetch_response xsqlda version charset gds_to_msg)

  next-reply :
      (s : Session) (keepalives : ℕ) (r : FetchReply) (one : FetchOne) (rest : Bytes)
      → ReplyFits xsqlda version charset r one
      → Holds s (reply_bytes keepalives r ++ rest)
      → (after : Conn) × (next_reply s ≡ done one (record s { conn = after }))
        × Holds (record s { conn = after }) rest
  unfolding reading
  next-reply s keepalives r one rest fits holds =
      let (after, reply, (lazy, bytes)) =
        read_with-done (parse_one_fetch_response xsqlda version charset gds_to_msg)
          (Stable-parse_one_fetch_response xsqlda version charset gds_to_msg) s.conn 0
          (reply_bytes keepalives r ++ rest) holds.opened holds.lazy_none holds.unread
          (parse_one_fetch_response-reply xsqlda version charset gds_to_msg keepalives r one rest
            fits) in
      (
        after,
        rw reply refl,
        record {
          opened =
              subst (λ reply. IsOpen (socket_of reply)) reply
                (read_with-IsOpen _ s.conn holds.opened);
          lazy_none = lazy;
          unread = bytes;
        },
      )

  abbrev pub Ends : Call Batch → List (List ParsedColumn) → Bool → Session → Bytes → Type 0
  Ends run rows eof s rest =
      (after : Conn) × (run s ≡ done (rows, eof) (record s { conn = after }))
      × Holds (record s { conn = after }) rest

  last_round :
      (more : List (List ParsedColumn) → Call Batch) (so_far : List (List ParsedColumn))
      (keepalives : ℕ) (eof : Bool) (s : Session) (rest : Bytes)
      → Holds s (reply_bytes keepalives (end_reply eof) ++ rest)
      → Ends (next_reply >>= batch_step more so_far) (so_far ++ []) eof s rest
  last_round more so_far keepalives true s rest holds =
      let (after, reply, held) =
        next-reply s keepalives cursor_reply end_of_cursor rest fits_cursor holds in
      (after, rw (reply, append-nil so_far) refl, held)
  last_round more so_far keepalives false s rest holds =
      let (after, reply, held) =
        next-reply s keepalives batch_reply batch_end rest fits_batch holds in
      (after, rw (reply, append-nil so_far) refl, held)

  row_round :
      (more : List (List ParsedColumn) → Call Batch) (so_far rows : List (List ParsedColumn))
      (r : SentRow) (eof : Bool) (s : Session) (bytes rest : Bytes)
      → ReplyFits xsqlda version charset (row_reply r.null_map r.cells) (row (map complete r.cols))
      → Holds s (reply_bytes r.keepalives (row_reply r.null_map r.cells) ++ bytes)
      → ((s' : Session)
          → Holds s' bytes
          → Ends
              (more (so_far ++ (map complete r.cols ∷ [])))
              ((so_far ++ (map complete r.cols ∷ [])) ++ rows)
              eof
              s'
              rest)
      → Ends
          (next_reply >>= batch_step more so_far)
          (so_far ++ (map complete r.cols ∷ rows))
          eof
          s
          rest
  row_round more so_far rows r eof s bytes rest fit holds next =
      let (after, reply, held) =
        next-reply s r.keepalives (row_reply r.null_map r.cells) (row (map complete r.cols)) bytes
          fit holds in
      let (after', answer, held') = next (record s { conn = after }) held in
      (after', rw (reply, answer, append_assoc so_far (map complete r.cols ∷ []) rows) refl, held')

  pub batch_rounds-rows :
      (rows : List SentRow) (count keepalives : ℕ) (eof : Bool) (so_far : List (List ParsedColumn))
      (s : Session) (rest : Bytes)
      → length rows ≤ count
      → RowsFit xsqlda version charset rows
      → Holds s (rows_bytes rows ++ (reply_bytes keepalives (end_reply eof) ++ rest))
      → Ends
          (batch_rounds next_reply count so_far)
          (so_far ++ map (λ r. map complete r.cols) rows)
          eof
          s
          rest
  unfolding batch_rounds
  batch_rounds-rows [] zero keepalives eof so_far s rest few fits holds =
      last_round (λ _. fail too_many_rows) so_far keepalives eof s rest holds
  batch_rounds-rows [] (suc count) keepalives eof so_far s rest few fits holds =
      last_round (batch_rounds next_reply count) so_far keepalives eof s rest holds
  batch_rounds-rows (r ∷ rows) zero keepalives eof so_far s rest few fits holds =
      absurd (omega arith)
  batch_rounds-rows (r ∷ rows) (suc count) keepalives eof so_far s rest few (fit, fits) holds =
      let bytes = rows_bytes rows ++ (reply_bytes keepalives (end_reply eof) ++ rest) in
      row_round (batch_rounds next_reply count) so_far (map (λ r. map complete r.cols) rows) r eof s
        bytes rest fit
        (subst (Holds s)
          (append_assoc (reply_bytes r.keepalives (row_reply r.null_map r.cells)) (rows_bytes rows)
            (reply_bytes keepalives (end_reply eof) ++ rest))
          holds)
        (λ s' held.
          batch_rounds-rows rows count keepalives eof (so_far ++ (map complete r.cols ∷ [])) s' rest
            (omega arith) fits held)

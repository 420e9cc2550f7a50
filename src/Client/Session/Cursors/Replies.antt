-- ===== src/Client/Session/Cursors/Replies.antt =====
-- rsfbclient-rust/src/client.rs: `parse_one_fetch_response` and the loop of `fetch_batch` on the
-- responses of a server.
use rsfbclient.Base.{
  length, ℕ, ◌^◌, ◌<◌, ◌≡◌, refl, sym, Option, List, ◌++◌, append_assoc, arith, Bytes,
}
use rsfbclient.Reader.{Outcome, done, failed, Parser, ◌>>=◌, bytes_stream}
use rsfbclient.Reader.Stable.{Agrees, Stable, failed-Agrees, Agrees-failed, stable_rules}
use rsfbclient.Util.{put_u32, get_u32}
use rsfbclient.Util.Reads.{stable_reads}
use rsfbclient.Util.RoundTrip.{advance-append, slice_to-append, get_u32-put_u32}
use rsfbclient.Wire.Rows.Stability.{Stable-parse_fetch_response}
use rsfbclient.Wire.Rows.Laws.{
  Cell, cells_bytes, RowFits, vars_of, columns_of, MapOf, map_bytes, parse_fetch_response-cells,
}
use rsfbclient.Client.Read.{view_stream}
use rsfbclient.Client.Lazy.Stability.{Stable-on_resp, Stable-skip_lazy_responses}
use rsfbclient.Client.Lazy.Order.{dummies, skip_lazy_responses-none}
use rsfbclient.Client.Session.Cursors.{
  FetchOne, row, batch_end, end_of_cursor, ensure, kept, peek, parse_fetch_body,
  parse_one_fetch_response,
}
use rsfbclient.Charset.{Charset}
use rsfbclient.Consts.{ProtocolVersion}
use rsfbclient.Wire.Response.Laws.{Stable-parse_response}
use rsfbclient.Consts.Op.{WireOp, op}
use rsfbclient.Xsqlda.{XSqlVar}
use rsfbclient.Client.Lazy.{on_resp}

kept-Agrees :
    {A : Type 0} (s more : Bytes) (o later : Outcome Bytes A)
    → Agrees more o later
    → Agrees more (kept s o) (kept (s ++ more) later)
kept-Agrees s more (done a s') later h = rw h
kept-Agrees s more (failed e s') later h =
    failed-Agrees e s more _ (λ c. rw (Agrees-failed e s' more later h c))

Stable-peek : {A : Type 0} (p : Parser Bytes A) → Stable p → Stable (peek p)
unfolding peek
Stable-peek p h = record { at = λ s more. kept-Agrees s more (p s) _ (h.at s more) }

Stable-ensure : (n : ℕ) → Stable (ensure n)
unfolding ensure
Stable-ensure n = search stable_reads depth 9

module _ (xsqlda : List XSqlVar) (version : ProtocolVersion) (charset : Charset) where
  Stable-parse_fetch_body : Stable (parse_fetch_body xsqlda version charset)
  unfolding parse_fetch_body
  Stable-parse_fetch_body =
      search (Stable-peek, Stable-ensure, Stable-parse_fetch_response, stable_reads) depth 20

  pub Stable-parse_one_fetch_response :
      (gds_to_msg : ℕ → Bytes) → Stable (parse_one_fetch_response xsqlda version charset gds_to_msg)
  unfolding parse_one_fetch_response
  Stable-parse_one_fetch_response gds_to_msg =
      search
        (
          Stable-skip_lazy_responses, Stable-on_resp, Stable-parse_response,
          Stable-parse_fetch_body, stable_rules,
        )
        depth 20

-- What the server sends for a row, at the end of a batch and at the end of the cursor, with keepalives
-- in front.
pub data FetchReply : Type 0 where
  row_reply : Option Bytes → List Cell → FetchReply
  batch_reply : FetchReply
  cursor_reply : FetchReply

unfoldable pub reply_body : FetchReply → Bytes
reply_body (row_reply null_map cells) =
    put_u32 0 ++ (put_u32 1 ++ (map_bytes null_map ++ cells_bytes null_map cells))
reply_body batch_reply = put_u32 0 ++ put_u32 0
reply_body cursor_reply = put_u32 100 ++ put_u32 0

unfoldable pub reply_bytes : ℕ → FetchReply → Bytes
reply_bytes keepalives r =
    dummies keepalives ++ (put_u32 (op WireOp.fetch_response) ++ reply_body r)

-- The reply is one to a statement with these columns.
pub data ReplyFits (xsqlda : List XSqlVar) (version : ProtocolVersion) (charset : Charset)
    : FetchReply → FetchOne → Type 0 where
  fits_row :
      {null_map : Option Bytes} {cells : List Cell}
      → vars_of cells ≡ xsqlda
      → MapOf version (length cells) null_map
      → RowFits charset null_map 0 cells
      → ReplyFits xsqlda version charset (row_reply null_map cells) (row (columns_of cells))
  fits_batch : ReplyFits xsqlda version charset batch_reply batch_end
  fits_cursor : ReplyFits xsqlda version charset cursor_reply end_of_cursor

peek_one :
    (a : ℕ) (rest : Bytes)
    → a < 2 ^ 32
    → peek get_u32 (put_u32 a ++ rest) ≡ done a (put_u32 a ++ rest)
unfolding peek
peek_one a rest h = rw (get_u32-put_u32 a rest h) refl

peek_two :
    (a b : ℕ) (rest : Bytes)
    → a < 2 ^ 32
    → b < 2 ^ 32
    → peek (do _ ← get_u32; get_u32) (put_u32 a ++ (put_u32 b ++ rest))
      ≡ done b (put_u32 a ++ (put_u32 b ++ rest))
unfolding peek
peek_two a b rest ha hb =
    rw (get_u32-put_u32 a (put_u32 b ++ rest) ha, get_u32-put_u32 b rest hb) refl

module _ (xsqlda : List XSqlVar) (version : ProtocolVersion) (charset : Charset) where
  parse_fetch_body-reply :
      (r : FetchReply) (one : FetchOne) (rest : Bytes)
      → ReplyFits xsqlda version charset r one
      → parse_fetch_body xsqlda version charset (reply_body r ++ rest) ≡ done one rest
  unfolding parse_fetch_body reply_body ensure
  parse_fetch_body-reply batch_reply one rest fits_batch =
      rw
        (
          slice_to-append (put_u32 0 ++ put_u32 0) rest,
          peek_one 0 (put_u32 0 ++ rest) (omega arith),
          peek_two 0 0 rest (omega arith) (omega arith),
          advance-append (put_u32 0 ++ put_u32 0) rest,
        )
        refl
  parse_fetch_body-reply cursor_reply one rest fits_cursor =
      rw
        (
          slice_to-append (put_u32 100 ++ put_u32 0) rest,
          peek_one 100 (put_u32 0 ++ rest) (omega arith),
          peek_two 100 0 rest (omega arith) (omega arith),
          advance-append (put_u32 100 ++ put_u32 0) rest,
        )
        refl
  parse_fetch_body-reply (row_reply null_map cells) one rest (fits_row same mapped row_fits) =
      let body = map_bytes null_map ++ (cells_bytes null_map cells ++ rest) in
      rw
        (
          append_assoc (map_bytes null_map) (cells_bytes null_map cells) rest,
          slice_to-append (put_u32 0 ++ put_u32 1) body,
          peek_one 0 (put_u32 1 ++ body) (omega arith),
          peek_two 0 1 body (omega arith) (omega arith),
          sym same,
          parse_fetch_response-cells charset version null_map cells rest mapped row_fits,
        )
        refl

  -- `parse_one_fetch_response` reads each of the three responses to a request of rows as what it is, a
  -- row of the statement's columns, the end of the batch or the end of the cursor, behind any number of
  -- keepalives, and leaves just the bytes behind it. The row fits the columns, and no response is left to
  -- be read later.
  pub parse_one_fetch_response-reply :
      (gds_to_msg : ℕ → Bytes) (keepalives : ℕ) (r : FetchReply) (one : FetchOne) (rest : Bytes)
      → ReplyFits xsqlda version charset r one
      → parse_one_fetch_response xsqlda version charset gds_to_msg
          (record { lazy = 0; bytes = reply_bytes keepalives r ++ rest })
        ≡ done one (record { lazy = 0; bytes = rest })
  unfolding parse_one_fetch_response reply_bytes on_resp
  parse_one_fetch_response-reply gds_to_msg keepalives r one rest fits =
      rw
        (
          append_assoc (dummies keepalives) (put_u32 (op WireOp.fetch_response) ++ reply_body r)
              rest,
          skip_lazy_responses-none gds_to_msg keepalives (op WireOp.fetch_response)
              (reply_body r ++ rest) (omega arith) (ground arith),
          parse_fetch_body-reply r one rest fits,
        )
        refl

-- ===== src/Client/Session/Cursors/Delivery.antt =====
-- rsfbclient-rust/src/client.rs, `fetch_batch` and `fetch`: the rows that the server sends for one
-- request, delivered in order.
use rsfbclient.Base.{
  ◌==◌, length, ℕ, zero, suc, ◌-◌, ◌≤◌, ◌<◌, ◌≡◌, refl, ap, Bool, true, false, not, ◌&&◌, Option,
  none, some, List, [], ◌∷◌, ◌++◌, map, append-nil, append_assoc, Bytes,
}
use rsfbclient.Reader.{done}
use rsfbclient.Wire.Rows.{complete}
use rsfbclient.Wire.Requests
use rsfbclient.Client.Read.{Conn}
use rsfbclient.Client.Session.{Session, the}
use rsfbclient.Client.Session.Blobs.{into_column, into_columns}
use rsfbclient.Client.Session.Statements.{StmtHandleData, Held, held, on_session, on_stmt, the_stmt}
use rsfbclient.Client.Session.Cursors.{
  pop_front, wants_batch, deliver, fetch_batch, fetch_rounds, fetch,
}
use rsfbclient.Client.Session.Exchange.{Holds, write_all-writable}
use rsfbclient.Client.Session.Cursors.Batches.{
  SentRow, rows_bytes, end_reply, RowsFit, batch_rounds-rows,
}
use rsfbclient.SqlTypes.{Column}
use rsfbclient.Client.Session.Cursors.Replies.{reply_bytes}

abbrev pub first : {A : Type 0} → List A → Option A
first [] = none
first (x ∷ xs) = some x

abbrev pub others : {A : Type 0} → List A → List A
others [] = []
others (x ∷ xs) = xs

pop_front-queue :
    (h : Held) (queue : List (List Column))
    → h.stmt.prefetched ≡ queue
    → pop_front h
      ≡ done (first queue) (record h { stmt = record h.stmt { prefetched = others queue } })
unfolding pop_front
pop_front-queue h [] e = rw e refl
pop_front-queue h (cols ∷ queue) e = rw e refl

length-cols : (rows : List SentRow) → length (map (λ r. r.cols) rows) ≡ length rows
length-cols [] = refl
length-cols (r ∷ rows) = ap suc (length-cols rows)

abbrev pub queued : List SentRow → StmtHandleData → StmtHandleData
queued rows stmt = record stmt { prefetched = stmt.prefetched ++ map (λ r. r.cols) rows }

-- The connection and the statement behind a batch.
abbrev pub after_batch : ℕ → List SentRow → Bool → Held → Conn → Held
after_batch count rows eof h after = record {
  session = record h.session {
    conn = after;
    sent = h.session.sent ++ Requests.fetch h.stmt.handle h.stmt.blr count;
    writes = h.session.writes - 1;
  };
  stmt = record (queued rows h.stmt) { cursor_eof = eof };
}

-- The server's answer to one request of rows, unread: the rows and the end of the batch or the cursor,
-- with at most as many rows as were asked for, and the socket takes the request.
pub record Answers (count keepalives : ℕ) (rows : List SentRow) (eof : Bool) (h : Held)
    (rest : Bytes) : Type 0 where
  pub writable : 0 < h.session.writes
  pub few : length rows ≤ count
  pub fits : RowsFit h.stmt.xsqlda h.session.version h.session.charset rows
  pub holds : Holds h.session (rows_bytes rows ++ (reply_bytes keepalives (end_reply eof) ++ rest))

module _ (gds_to_msg : ℕ → Bytes) (tr_handle : ℕ) where
  into_columns-complete :
      (cols : List Column) (s : Session)
      → into_columns gds_to_msg tr_handle (map complete cols) s ≡ done cols s
  unfolding into_columns into_column
  into_columns-complete [] s = refl
  into_columns-complete (c ∷ cols) s = rw (into_columns-complete cols s) refl

  deliver-rows :
      (rows : List SentRow) (h : Held)
      → deliver gds_to_msg tr_handle (map (λ r. map complete r.cols) rows) h
        ≡ done tt (record h { stmt = queued rows h.stmt })
  unfolding deliver on_session on_stmt
  deliver-rows [] h = rw (append-nil h.stmt.prefetched) refl
  deliver-rows (r ∷ rows) h =
      rw
        (
          into_columns-complete r.cols h.session,
          deliver-rows rows (record h { stmt = queued (r ∷ []) h.stmt }),
          append_assoc h.stmt.prefetched (r.cols ∷ []) (map (λ r. r.cols) rows),
        )
        refl

  -- `fetch_batch` puts the rows that the server sends behind the ones not delivered, in their order, and
  -- takes the end of the cursor from the server's end; it writes one request and leaves the bytes behind
  -- the end. The rows are at most as many as were asked for, fit the columns of the statement and
  -- hold no blobs; the socket takes the request and is open, and may cut the bytes anywhere; and no response is left
  -- to be read later.
  pub fetch_batch-rows :
      (count keepalives : ℕ) (rows : List SentRow) (eof : Bool) (h : Held) (rest : Bytes)
      → Answers count keepalives rows eof h rest
      → (after : Conn) × (fetch_batch gds_to_msg tr_handle count h
          ≡ done tt (after_batch count rows eof h after))
        × Holds (after_batch count rows eof h after).session rest
  unfolding fetch_batch on_session on_stmt the_stmt the
  fetch_batch-rows count keepalives rows eof h rest a =
      let request = Requests.fetch h.stmt.handle h.stmt.blr count in
      let asked = record h.session {
        sent = h.session.sent ++ request;
        writes = h.session.writes - 1;
      } in
      let (after, answer, held) =
        batch_rounds-rows gds_to_msg h.stmt.xsqlda h.session.version h.session.charset rows count
          keepalives eof [] asked rest a.few a.fits
          (record {
            opened = a.holds.opened;
            lazy_none = a.holds.lazy_none;
            unread = a.holds.unread;
          }) in
      (
        after,
        rw
            (
              write_all-writable request h.session a.writable,
              answer,
              deliver-rows rows (record {
                session = record asked { conn = after };
                stmt = record h.stmt { cursor_eof = eof };
              }),
            )
            refl,
        record { opened = held.opened; lazy_none = held.lazy_none; unread = held.unread },
      )

  fetch_rounds-none :
      (left count : ℕ) (h : Held)
      → wants_batch h.stmt ≡ false
      → fetch_rounds gds_to_msg tr_handle left count h ≡ done tt h
  unfolding fetch_rounds the_stmt
  fetch_rounds-none zero count h e = rw e refl
  fetch_rounds-none (suc left) count h e = rw e refl

  fetch_rounds-once :
      (left count : ℕ) (h h' : Held)
      → wants_batch h.stmt ≡ true
      → fetch_batch gds_to_msg tr_handle count h ≡ done tt h'
      → wants_batch h'.stmt ≡ false
      → fetch_rounds gds_to_msg tr_handle (suc left) count h ≡ done tt h'
  unfolding fetch_rounds the_stmt
  fetch_rounds-once left count h h' wants batch enough =
      rw (wants, batch) (fetch_rounds-none left count h' enough)

  -- On a cursor with no row that is not delivered, and whose end is not known, `fetch` asks for one batch
  -- and answers the first row that the server sends, with the other ones kept for the next calls, or
  -- none if the server sends the end of the cursor and no row. What the server sends is as for
  -- `fetch_batch`, and is a row at least or the end of the cursor.
  pub fetch-rows :
      (count keepalives : ℕ) (rows : List SentRow) (eof : Bool) (h : Held) (rest : Bytes)
      → Answers count keepalives rows eof h rest
      → h.stmt.prefetched ≡ []
      → h.stmt.cursor_eof ≡ false
      → (length rows == 0 && not eof) ≡ false
      → (after : Conn) × (fetch gds_to_msg tr_handle count h
          ≡ done (first (map (λ r. r.cols) rows)) (record (after_batch count rows eof h after) {
            stmt = record h.stmt { prefetched = others (map (λ r. r.cols) rows); cursor_eof = eof };
          }))
        × Holds (after_batch count rows eof h after).session rest
  unfolding fetch
  fetch-rows count keepalives rows eof h rest a empty open_ enough =
      let (after, batch, held) = fetch_batch-rows count keepalives rows eof h rest a in
      let h' = after_batch count rows eof h after in
      let queue : h'.stmt.prefetched ≡ map (λ r. r.cols) rows =
        ap (λ q. q ++ map (λ r. r.cols) rows) empty in
      let wants : wants_batch h.stmt ≡ true = rw (empty, open_) refl in
      let stops : wants_batch h'.stmt ≡ false = rw (empty, length-cols rows) enough in
      (
        after,
        rw
            (
              fetch_rounds-once 999 count h h' wants batch stops,
              pop_front-queue h' (map (λ r. r.cols) rows) queue,
            )
            refl,
        held,
      )

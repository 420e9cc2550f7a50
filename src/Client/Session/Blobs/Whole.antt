-- ===== src/Client/Session/Blobs/Whole.antt =====
-- rsfbclient-rust/src/wire.rs, `into_column`: a blob that the server sends in any number of answers.
use mathlib.Core.Path.{subst}
use rsfbclient.Base.{
  ◌==◌, length, concat, All, ℕ, ◌+◌, ◌^◌, ◌<◌, ◌≡◌, refl, ap, ◌∙◌, Bool, true, false, List, [], ◌∷◌,
  ◌++◌, append_assoc, arith, Bytes,
}
use rsfbclient.Error.{ok}
use rsfbclient.Reader.{done}
use rsfbclient.Client.Lazy.Order.{Packet, packet_bytes, PacketFits}
use rsfbclient.Client.Session.{Session, the, request_done, request_handle}
use rsfbclient.Client.Session.Blobs.Rounds.{blob_round-Spends}
use rsfbclient.Client.Session.Turns.{carry_on, turn_loop, turn_loop_unroll}
use rsfbclient.Client.Session.Exchange.{Holds, Holds-HoldsLazy, asked, request-response}
use rsfbclient.Wire.Rows.{blob}
use rsfbclient.Client.Session.Blobs.{
  open_blob, get_segment, close_blob, blob_round, into_column, blob_value,
}
use rsfbclient.Client.Session.Blobs.Segments.{segments_bytes, segments-segments_bytes}
use rsfbclient.Charset.{Charset, decode}
use rsfbclient.SqlTypes.{SqlType}
use rsfbclient.Consts.Ibase.{sql_blob}
use rsfbclient.Wire.Requests

-- An answer to `get_segment`: the segments in it, and whether the blob is at its end.
pub record SegmentReply : Type 0 where
  pub keepalives : ℕ
  pub object_id : ℕ
  pub parts : List Bytes

abbrev pub segment_packet : ℕ → SegmentReply → Packet
segment_packet handle r = record {
  keepalives = r.keepalives;
  response = record { handle = handle; object_id = r.object_id; contents = segments_bytes r.parts };
}

abbrev pub SegmentFits : ℕ → SegmentReply → Type 0
SegmentFits handle r = PacketFits (segment_packet handle r) × All (λ c. length c < 2 ^ 16) r.parts

-- The answers before the last one have the status 1, and the last one 2.
abbrev pub replies_bytes : List SegmentReply → Bytes
replies_bytes [] = []
replies_bytes (r ∷ replies) = packet_bytes (segment_packet 1 r) ++ replies_bytes replies

abbrev pub data_of : List SegmentReply → Bytes
data_of [] = []
data_of (r ∷ replies) = concat r.parts ++ data_of replies

-- What a call leaves of a session: the writes are `n` less, and the charset is as before.
record Left (s s' : Session) (n : ℕ) (rest : Bytes) : Type 0 where
  writes_left : s'.writes + n ≡ s.writes
  charset_kept : s'.charset ≡ s.charset
  left : Holds s' rest

module _ (gds_to_msg : ℕ → Bytes) (blob_handle : ℕ) where
  segment-reply :
      (handle : ℕ) (r : SegmentReply) (s : Session) (rest : Bytes)
      → 0 < s.writes
      → SegmentFits handle r
      → Holds s (packet_bytes (segment_packet handle r) ++ rest)
      → (s' : Session) × (get_segment gds_to_msg blob_handle s
          ≡ done (concat r.parts, handle == 2) s')
        × Left s s' 1 rest
  unfolding get_segment
  segment-reply handle r s rest writable (fits, short) h =
      let (after, reply, held) =
        request-response gds_to_msg s (Requests.get_segment blob_handle) []
          (segment_packet handle r) rest writable fits (Holds-HoldsLazy h) in
      (
        asked s (Requests.get_segment blob_handle) after,
        rw (reply, segments-segments_bytes r.parts short) refl,
        record { writes_left = omega arith; charset_kept = refl; left = held },
      )

  blob_loop-replies :
      (so_far : Bytes) (replies : List SegmentReply) (last : SegmentReply) (s : Session)
      (rest : Bytes)
      → length replies < s.writes
      → All (SegmentFits 1) replies
      → SegmentFits 2 last
      → Holds s (replies_bytes replies ++ (packet_bytes (segment_packet 2 last) ++ rest))
      → (s' : Session) × (turn_loop (blob_round gds_to_msg blob_handle) so_far s
          ≡ done (so_far ++ (data_of replies ++ concat last.parts)) s')
        × Left s s' (length replies + 1) rest
  unfolding carry_on blob_round
  blob_loop-replies so_far [] last s rest few fits fits_last h =
      let (s', reply, left) = segment-reply 2 last s rest few fits_last h in
      (
        s',
        rw (turn_loop_unroll (blob_round-Spends gds_to_msg blob_handle) so_far s, reply) refl,
        left,
      )
  blob_loop-replies so_far (r ∷ replies) last s rest few (fit, fits) fits_last h =
      let bytes = replies_bytes replies ++ (packet_bytes (segment_packet 2 last) ++ rest) in
      let (s', reply, left) = segment-reply 1 r s bytes (omega arith) fit (
        subst (Holds s)
          (append_assoc (packet_bytes (segment_packet 1 r)) (replies_bytes replies)
            (packet_bytes (segment_packet 2 last) ++ rest))
          h) in
      let (s'', answer, left') =
        blob_loop-replies (so_far ++ concat r.parts) replies last s' rest
          (omega (arith, left.writes_left)) fits fits_last left.left in
      (
        s'',
        rw
            (
              turn_loop_unroll (blob_round-Spends gds_to_msg blob_handle) so_far s,
              reply,
              answer,
              append_assoc so_far (concat r.parts) (data_of replies ++ concat last.parts),
              append_assoc (concat r.parts) (data_of replies) (concat last.parts),
            )
            refl,
        record {
          writes_left = omega (arith, left.writes_left, left'.writes_left);
          charset_kept = left'.charset_kept ∙ left.charset_kept;
          left = left'.left;
        },
      )

-- The value of a column that a blob of type 0, or one of text, makes of its data.
pub data ValueOf (charset : Charset) (bytes : Bytes) : Bool → SqlType → Type 0 where
  of_binary : ValueOf charset bytes true (SqlType.binary bytes)
  of_text : {s : Bytes} → decode charset bytes ≡ ok s → ValueOf charset bytes false (SqlType.text s)

blob_value-ValueOf :
    (is_binary : Bool) (bytes : Bytes) (value : SqlType) (s : Session)
    → ValueOf s.charset bytes is_binary value
    → blob_value is_binary bytes s ≡ done value s
unfolding the
blob_value-ValueOf true bytes value s of_binary = refl
blob_value-ValueOf false bytes value s (of_text e) = rw e refl

-- What the server sends for a blob: the handle, its data in answers that say that there are more, then
-- the last one, and the end of the closing.
pub record BlobReplies : Type 0 where
  pub opened : Packet
  pub replies : List SegmentReply
  pub last : SegmentReply
  pub closed : Packet

unfoldable pub blob_bytes : BlobReplies → Bytes
blob_bytes b =
    packet_bytes b.opened
    ++ (replies_bytes b.replies
        ++ (packet_bytes (segment_packet 2 b.last) ++ packet_bytes b.closed))

unfoldable pub whole_data : BlobReplies → Bytes
whole_data b = data_of b.replies ++ concat b.last.parts

pub record BlobFits (b : BlobReplies) : Type 0 where
  pub opened_fits : PacketFits b.opened
  pub replies_fit : All (SegmentFits 1) b.replies
  pub last_fits : SegmentFits 2 b.last
  pub closed_fits : PacketFits b.closed

-- A blob that the server sends in any number of answers, each with any number of segments, becomes a
-- column with all its data in order, as bytes or as the text that they decode to; just the bytes
-- behind the blob's responses are left. The responses are successes that fit their widths, the segments are
-- shorter than 2^16 bytes, no response is left to be read later, the socket is open, cuts the bytes anywhere, and
-- takes as many requests as there are answers, and two more.
pub into_column-blob :
    (gds_to_msg : ℕ → Bytes) (tr_handle id : ℕ) (col_name : Bytes) (is_binary : Bool)
    (value : SqlType) (b : BlobReplies) (s : Session) (rest : Bytes)
    → length b.replies + 2 < s.writes
    → BlobFits b
    → ValueOf s.charset (whole_data b) is_binary value
    → Holds s (blob_bytes b ++ rest)
    → (s' : Session) × (into_column gds_to_msg tr_handle (blob is_binary id col_name) s
        ≡ done (record { name = col_name; raw_type = sql_blob; value = value }) s')
      × Holds s' rest
unfolding into_column open_blob close_blob request_handle request_done blob_bytes whole_data
into_column-blob gds_to_msg tr_handle id col_name is_binary value b s rest writable fits of h =
    let last_bytes = packet_bytes (segment_packet 2 b.last) in
    let closing = packet_bytes b.closed ++ rest in
    let (after, opened, held) =
      request-response gds_to_msg s (Requests.open_blob tr_handle id) [] b.opened
        (replies_bytes b.replies ++ (last_bytes ++ closing)) (omega arith) fits.opened_fits
        (Holds-HoldsLazy (
          subst (Holds s)
            (append_assoc (packet_bytes b.opened)
                (replies_bytes b.replies ++ (last_bytes ++ packet_bytes b.closed)) rest
              ∙ ap (◌++◌ (packet_bytes b.opened)) (
                  append_assoc (replies_bytes b.replies) (last_bytes ++ packet_bytes b.closed) rest
                  ∙ ap (◌++◌ (replies_bytes b.replies))
                      (append_assoc last_bytes (packet_bytes b.closed) rest)))
            h)) in
    let s1 = asked s (Requests.open_blob tr_handle id) after in
    let (s2, loaded, left) =
      blob_loop-replies gds_to_msg b.opened.response.handle [] b.replies b.last s1 closing
        (omega arith) fits.replies_fit fits.last_fits held in
    let (after', ended, held') =
      request-response gds_to_msg s2 (Requests.close_blob b.opened.response.handle) [] b.closed rest
        (omega (arith, left.writes_left)) fits.closed_fits (Holds-HoldsLazy left.left) in
    let s3 = asked s2 (Requests.close_blob b.opened.response.handle) after' in
    let of' : ValueOf s3.charset (data_of b.replies ++ concat b.last.parts) is_binary value =
      rw left.charset_kept of in
    (s3, rw (opened, loaded, ended, blob_value-ValueOf is_binary _ value s3 of') refl, held')

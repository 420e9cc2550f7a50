-- ===== src/Client/Session/Blobs/Writing.antt =====
-- rsfbclient-rust/src/client.rs, `put_segments`: the data of a blob on their way to the server.
use mathlib.Core.Path.{subst}
use rsfbclient.Base.{
  length, concat, All, ℕ, ◌≤◌, ◌≡◌, refl, ◌∙◌, List, [], ◌∷◌, ◌++◌, append-nil, append_assoc, arith,
  Bytes,
}
use rsfbclient.Base.Chunks.{chunks, concat-chunks, chunks-bound}
use rsfbclient.Reader.{done}
use rsfbclient.Wire.Requests
use rsfbclient.Client.Lazy.Order.{Packet, packet_bytes, PacketFits, packets_bytes}
use rsfbclient.Client.Session.{Session, request_done}
use rsfbclient.Client.Session.Exchange.{Holds, Holds-HoldsLazy, asked, request-response}
use rsfbclient.Client.Session.Blobs.{max_data_length, put_each, put_segments}

abbrev pub segment_requests : ℕ → List Bytes → Bytes
segment_requests blob_handle [] = []
segment_requests blob_handle (part ∷ parts) =
    Requests.put_segment blob_handle part ++ segment_requests blob_handle parts

module _ (gds_to_msg : ℕ → Bytes) (blob_handle : ℕ) where
  put_each-packets :
      (parts : List Bytes) (ps : List Packet) (s : Session) (rest : Bytes)
      → length ps ≡ length parts
      → length ps ≤ s.writes
      → All PacketFits ps
      → Holds s (packets_bytes ps ++ rest)
      → (s' : Session) × (put_each gds_to_msg blob_handle parts s ≡ done tt s')
        × (s'.sent ≡ s.sent ++ segment_requests blob_handle parts)
        × Holds s' rest
  unfolding put_each request_done
  put_each-packets [] [] s rest same few fits h = (s, refl, rw (append-nil s.sent) refl, h)
  put_each-packets [] (p ∷ ps) s rest same few fits h = absurd (omega arith)
  put_each-packets (part ∷ parts) [] s rest same few fits h = absurd (omega arith)
  put_each-packets (part ∷ parts) (p ∷ ps) s rest same few (fit, fits) h =
      let bytes = Requests.put_segment blob_handle part in
      let (after, reply, held) =
        request-response gds_to_msg s bytes [] p (packets_bytes ps ++ rest) (omega arith) fit (
          Holds-HoldsLazy
            (subst (Holds s) (append_assoc (packet_bytes p) (packets_bytes ps) rest) h)) in
      let (s', answer, sent, held') =
        put_each-packets parts ps (asked s bytes after) rest (omega arith) (omega arith) fits
          held in
      (
        s',
        rw (reply, answer) refl,
        sent ∙ append_assoc s.sent bytes (segment_requests blob_handle parts),
        held',
      )

  -- `put_segments` sends the data in pieces, each as one request, that are in order the data and none of which is
  -- longer than the 32767 bytes that a segment may have, and leaves just the bytes behind the responses. There is a
  -- response for each piece, a success that fits its widths; no response is left to be read later, and
  -- the socket takes a request for each piece and may cut the bytes anywhere.
  pub put_segments-packets :
      (bytes : Bytes) (ps : List Packet) (s : Session) (rest : Bytes)
      → length ps ≡ length (chunks max_data_length bytes)
      → length ps ≤ s.writes
      → All PacketFits ps
      → Holds s (packets_bytes ps ++ rest)
      → (s' : Session) × (parts : List Bytes) × (put_segments gds_to_msg blob_handle bytes s
          ≡ done tt s')
        × (s'.sent ≡ s.sent ++ segment_requests blob_handle parts)
        × (concat parts ≡ bytes)
        × All (λ c. length c ≤ 32_767) parts
        × Holds s' rest
  unfolding put_segments
  put_segments-packets bytes ps s rest same few fits h =
      let (s', answer, sent, held) =
        put_each-packets (chunks max_data_length bytes) ps s rest same few fits h in
      (
        s',
        chunks max_data_length bytes,
        answer,
        sent,
        concat-chunks max_data_length bytes (omega arith),
        chunks-bound max_data_length bytes,
        held,
      )

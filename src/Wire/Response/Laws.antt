-- ===== src/Wire/Response/Laws.antt =====
-- rsfbclient-rust/src/wire.rs, `parse_response` on the responses that a server writes.
use rsfbclient.Base.{length, All, ℕ, ◌^◌, ◌<◌, ◌≡◌, List, ◌++◌, append_assoc, Bytes}
use rsfbclient.Reader.{◌>>◌, pure, bytes_stream}
use rsfbclient.Reader.Stable.{Stable}
use rsfbclient.Util.Reads.{stable_reads}
use rsfbclient.Wire.Status.Stability.{Stable-parse_status_vector}
use rsfbclient.Wire.Response.{Response, parse_response}
use rsfbclient.Wire.Status.Items.{
  StatusItem, vector_bytes, ItemFits, apply_items, parse_status_vector-finish,
}
use rsfbclient.Wire.Status.{no_status, finish_status}
use rsfbclient.Util.RoundTrip.{get_u32-put_u32, get_u64-put_u64, get_wire_bytes-put_wire_bytes}
use rsfbclient.Util.{put_u32, put_u64, put_wire_bytes}

module _ (gds_to_msg : ℕ → Bytes) where
  pub Stable-parse_response : Stable (parse_response gds_to_msg)
  unfolding parse_response
  Stable-parse_response = search (Stable-parse_status_vector, stable_reads) depth 12

-- A response of the server behind its op code: the fields, and the items of the status vector.
abbrev pub response_body : Response → List StatusItem → Bytes
response_body r items =
    put_u32 r.handle ++ (put_u64 r.object_id ++ (put_wire_bytes r.contents ++ vector_bytes items))

pub record ResponseFits (r : Response) : Type 0 where
  pub handle_fits : r.handle < 2 ^ 32
  pub object_id_fits : r.object_id < 2 ^ 64
  pub contents_fits : length r.contents < 2 ^ 32

module _ (gds_to_msg : ℕ → Bytes) where
  pub parse_response-response_body :
      (r : Response) (items : List StatusItem) (rest : Bytes)
      → ResponseFits r
      → All ItemFits items
      → parse_response gds_to_msg (response_body r items ++ rest)
        ≡ (finish_status (apply_items gds_to_msg no_status items) >> pure r) rest
  unfolding parse_response
  parse_response-response_body r items rest fits h =
      let vector : Bytes = vector_bytes items ++ rest in
      rw (
        get_u32-put_u32 r.handle
            (put_u64 r.object_id ++ ((put_wire_bytes r.contents ++ vector_bytes items) ++ rest))
            fits.handle_fits,
        get_u64-put_u64 r.object_id ((put_wire_bytes r.contents ++ vector_bytes items) ++ rest)
            fits.object_id_fits,
        append_assoc (put_wire_bytes r.contents) (vector_bytes items) rest,
        get_wire_bytes-put_wire_bytes r.contents vector fits.contents_fits,
        parse_status_vector-finish gds_to_msg items rest h,
      )

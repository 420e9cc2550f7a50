-- ===== src/Tests/Session.antt =====
-- Witnesses for the operations of rsfbclient-rust/src/client.rs.
use rsfbclient.Base.{
  ◌≤◌, All, Bytes, ℕ, length, List, concat, ◌^◌, ◌<◌, ◌≡◌, refl, ◌≢◌, false, none, [], ◌∷◌, ◌++◌,
  arith,
}
use rsfbclient.Base.Chunks.{chunks}
use rsfbclient.Client.Session.Blobs.{max_data_length, put_segments}
use rsfbclient.Client.Session.Blobs.Writing.{segment_requests, put_segments-packets}
use rsfbclient.Client.Lazy.Order.{packets_bytes}
use rsfbclient.Charset.{utf_8}
use rsfbclient.Consts.{v12}
use rsfbclient.Reader.{done}
use rsfbclient.Util.{padding, put_wire_bytes}
use rsfbclient.Wire.Response.{Response}
use rsfbclient.Client.Read.{chunk, Conn}
use rsfbclient.Client.Lazy.Order.{Packet, packet_bytes, PacketFits}
use rsfbclient.Client.Session.{Session, request, new_event_id}
use rsfbclient.Client.Session.Exchange.{Holds, HoldsLazy, asked, request-response}
use rsfbclient.Client.Session.EventIds.{IsEventId, new_event_id-IsEventId}
use rsfbclient.Client.Session.Statements.{StmtHandleData}
use rsfbclient.Client.Lazy.{lazy_count}

abbrev response_of : ℕ → Response
response_of handle = record { handle = handle; object_id = 7; contents = [] }

abbrev packet_of : ℕ → Packet
packet_of handle = record { keepalives = 1; response = response_of handle }

fits_of : (handle : ℕ) → handle < 2 ^ 32 → PacketFits (packet_of handle)
fits_of handle h = record {
  handle_fits = h;
  object_id_fits = omega arith;
  contents_fits = omega arith;
}

-- The responses 1 and 2 are still to arrive.
abbrev session_of : ℕ → Session
session_of lazy_count = record {
  conn = record {
    pending = [];
    lazy_count = lazy_count;
    socket = chunk (packet_bytes (packet_of 1)) ∷ chunk (packet_bytes (packet_of 2)) ∷ [];
  };
  sent = [];
  writes = 2;
  version = v12;
  charset = utf_8;
  auth_plugin = none;
  srp_key = [];
  next_event_id = 4_294_967_295;
}

one_left : HoldsLazy (session_of 1) (packet_of 1 ∷ []) (packet_bytes (packet_of 2) ++ [])
unfolding put_wire_bytes padding
one_left = record {
  opened = (omega arith, (omega arith, tt));
  lazy_all = refl;
  lazy_fit = (fits_of 1 (omega arith), tt);
  unread = refl;
}

request-response_example :
    (after : Conn) × (request (λ code. []) (1 ∷ []) (session_of 1)
      ≡ done (response_of 2) (asked (session_of 1) (1 ∷ []) after))
    × Holds (asked (session_of 1) (1 ∷ []) after) []
request-response_example =
    request-response (λ code. []) (session_of 1) (1 ∷ []) (packet_of 1 ∷ []) (packet_of 2) []
      (omega arith) (fits_of 2 (omega arith)) one_left

new_event_id-IsEventId_example :
    (s' : Session) × (new_event_id (session_of 0) ≡ done 4_294_967_295 s')
    × IsEventId s'.next_event_id
    × (s'.next_event_id ≢ 4_294_967_295)
new_event_id-IsEventId_example =
    new_event_id-IsEventId (session_of 0) (record { not_zero = omega arith; small = omega arith })

abbrev some_stmt : StmtHandleData
some_stmt = record {
  handle = 3;
  xsqlda = [];
  blr = [];
  param_count = 0;
  prefetched = [];
  cursor_eof = false;
}

one_response : Holds (session_of 0) (packets_bytes (packet_of 1 ∷ []) ++ packet_bytes (packet_of 2))
unfolding put_wire_bytes padding
one_response = record { opened = (omega arith, (omega arith, tt)); lazy_none = refl; unread = refl }

one_piece : length (packet_of 1 ∷ []) ≡ length (chunks {A = ℕ} max_data_length (8 ∷ 9 ∷ []))
unfolding chunks
one_piece = refl

put_segments-packets_example :
    (s' : Session) × (parts : List Bytes) × (put_segments (λ code. []) 5 (8 ∷ 9 ∷ []) (session_of 0)
      ≡ done tt s')
    × (s'.sent ≡ (session_of 0).sent ++ segment_requests 5 parts)
    × (concat parts ≡ 8 ∷ 9 ∷ [])
    × All (λ c. length c ≤ 32_767) parts
    × Holds s' (packet_bytes (packet_of 2))
put_segments-packets_example =
    put_segments-packets (λ code. []) 5 (8 ∷ 9 ∷ []) (packet_of 1 ∷ []) (session_of 0)
      (packet_bytes (packet_of 2)) one_piece (omega arith) (fits_of 1 (omega arith), tt)
      one_response

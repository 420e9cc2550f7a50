-- ===== src/Client/Session/Exchange.antt =====
-- rsfbclient-rust/src/client.rs: a request and its response, with the responses that were left to be read
-- later in front of it.
use mathlib.Core.Path.{subst}
use rsfbclient.Base.{◌==◌, length, All, ℕ, ◌-◌, ◌<◌, ◌≡◌, refl, false, List, [], ◌++◌, arith, Bytes}
use rsfbclient.Reader.{done}
use rsfbclient.Client.Read.{Conn}
use rsfbclient.Client.Read.Reassembly.{arriving, IsOpen, socket_of, read_with-IsOpen}
use rsfbclient.Client.Lazy.{response_closure, read_response}
use rsfbclient.Client.Lazy.Order.{
  Packet, packet_bytes, PacketFits, packets_bytes, read_response-packets,
}
use rsfbclient.Client.Session.{Session, write_all, reading, receive, request}

-- The bytes that a connection has not parsed yet: what is pending and what is still to arrive. The
-- socket is open, and no response is left to be read later.
pub record Holds (s : Session) (bytes : Bytes) : Type 0 where
  pub opened : IsOpen s.conn.socket
  pub lazy_none : s.conn.lazy_count ≡ 0
  pub unread : s.conn.pending ++ arriving s.conn.socket ≡ bytes

-- The same with responses that were left to be read later, as many as the lazy count says.
pub record HoldsLazy (s : Session) (lazies : List Packet) (bytes : Bytes) : Type 0 where
  pub opened : IsOpen s.conn.socket
  pub lazy_all : s.conn.lazy_count ≡ length lazies
  pub lazy_fit : All PacketFits lazies
  pub unread : s.conn.pending ++ arriving s.conn.socket ≡ packets_bytes lazies ++ bytes

pub Holds-HoldsLazy : {s : Session} {bytes : Bytes} → Holds s bytes → HoldsLazy s [] bytes
Holds-HoldsLazy h = record {
  opened = h.opened;
  lazy_all = h.lazy_none;
  lazy_fit = tt;
  unread = h.unread;
}

not_zero : (n : ℕ) → 0 < n → (n == 0) ≡ false
not_zero n h = ground arith

pub write_all-writable :
    (bytes : Bytes) (s : Session)
    → 0 < s.writes
    → write_all bytes s ≡ done tt (record s { sent = s.sent ++ bytes; writes = s.writes - 1 })
unfolding write_all
write_all-writable bytes s h = rw (not_zero s.writes h) refl

-- The session behind a request.
abbrev pub asked : Session → Bytes → Conn → Session
asked s bytes after = record s { sent = s.sent ++ bytes; writes = s.writes - 1; conn = after }

module _ (gds_to_msg : ℕ → Bytes) where
  -- A request to a server whose responses are successes that fit their widths is answered by the response
  -- to itself: it is written behind what was sent before, the responses that were left to be read
  -- later, as many as the lazy count says, are skipped, and what stands behind the response is left,
  -- with no response to be read later and the socket open. The socket takes the request and is open;
  -- it may cut the bytes anywhere.
  pub request-response :
      (s : Session) (bytes : Bytes) (lazies : List Packet) (p : Packet) (rest : Bytes)
      → 0 < s.writes
      → PacketFits p
      → HoldsLazy s lazies (packet_bytes p ++ rest)
      → (after : Conn) × (request gds_to_msg bytes s ≡ done p.response (asked s bytes after))
        × Holds (asked s bytes after) rest
  unfolding request receive reading read_response
  request-response s bytes lazies p rest writable fits h =
      let (after, reply, lazy, unread) =
        read_response-packets gds_to_msg lazies p rest s.conn h.lazy_fit fits h.opened h.lazy_all
          h.unread in
      (
        after,
        rw (write_all-writable bytes s writable, reply) refl,
        record {
          opened =
              subst (λ r. IsOpen (socket_of r)) reply
                (read_with-IsOpen (response_closure gds_to_msg) s.conn h.opened);
          lazy_none = lazy;
          unread = unread;
        },
      )

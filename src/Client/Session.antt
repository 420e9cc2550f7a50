-- ===== src/Client/Session.antt =====
-- rsfbclient-rust/src/client.rs, `FirebirdWireConnection`: the operations of a connection. A call takes
-- the connection and leaves it changed, also when it fails. Handles are numbers.
pub mod Turns
pub mod Exchange
pub mod Spending
pub mod EventIds
pub mod Blobs
pub mod Params
pub mod Databases
pub mod Waiting
pub mod Statements
pub mod Cursors
use Prim.Native.Nat.{max}
use rsfbclient.Base.{◌==◌, if◌then◌else◌, ℕ, ◌+◌, ◌-◌, ◌%◌, ◌^◌, Option, ◌++◌, Bytes}
use rsfbclient.Error.{blocked, io, other}
use rsfbclient.Charset.{Charset}
use rsfbclient.Consts.{ProtocolVersion, parse}
use rsfbclient.Reader.{Outcome, done, failed, Parser, ◌>>=◌, ◌>>◌, pure}
use rsfbclient.Wire.Accept.{AuthPlugin}
use rsfbclient.Wire.Response.{Response}
use rsfbclient.Client.Read.{Conn, View, Reply, replied, errored, waiting, read_with}
use rsfbclient.Client.Lazy.{response_closure}
use rsfbclient.Wire.Requests

-- `conn` is the reading side, `sent` what was written, and `writes` the number of the writes that the
-- socket still takes before it breaks. The event channel is in Session/Waiting.
pub record Session : Type 0 where
  pub conn : Conn
  pub sent : Bytes
  pub writes : ℕ
  pub version : ProtocolVersion
  pub charset : Charset
  pub auth_plugin : Option AuthPlugin
  pub srp_key : Bytes
  pub next_event_id : ℕ

abbrev pub Call : Type 0 → Type 0
Call A = Parser Session A

-- `self.socket.write_all(bytes)?; self.socket.flush()?`
unfoldable pub write_all : Bytes → Call (Unit {0})
write_all bytes s =
    if s.writes == 0
    then failed io s
    else done tt (record s { sent = s.sent ++ bytes; writes = s.writes - 1 })

abbrev pub answered : {A : Type 0} → Session → Reply A → Outcome Session A
answered s (replied a c) = done a (record s { conn = c })
answered s (errored e c) = failed e (record s { conn = c })
answered s (waiting c) = failed (other blocked) (record s { conn = c })

-- `read_with` on the fields of the connection.
unfoldable pub reading : {A : Type 0} → Parser View A → Call A
reading parse s = answered s (read_with parse s.conn)

unfoldable pub the : {A : Type 0} → (Session → A) → Call A
the f s = done (f s) s

module _ (gds_to_msg : ℕ → Bytes) where
  -- The method `read_response`.
  unfoldable pub receive : Call Response
  receive = reading (response_closure gds_to_msg)

  -- A request, and the response to it.
  unfoldable pub request : Bytes → Call Response
  request bytes = do write_all bytes; receive

  -- A request whose response says no more than that it went well.
  unfoldable pub request_done : Bytes → Call (Unit {0})
  request_done bytes = do _ ← request bytes; pure tt

  unfoldable pub request_handle : Bytes → Call ℕ
  request_handle bytes = do resp ← request bytes; pure resp.handle

unfoldable pub new_event_id : Call ℕ
new_event_id s =
    done s.next_event_id (record s { next_event_id = max ((s.next_event_id + 1) % 2 ^ 32) 1 })

-- ===== src/Client/Connecting.antt =====
-- rsfbclient-rust/src/client.rs: `connect` with the authentication, and `srp_auth`. The answers of the
-- operating system are arguments: the socket that `TcpStream::connect` opens, the names of the user
-- and of the host, and the random key.
pub mod Agreement
pub mod Rounds
use rsfbclient.Base.{
  ◌*◌, if◌then◌else◌, ℕ, Bool, Option, none, some, List, [], ◌∷◌, Bytes, true, false,
}
use rsfbclient.Error.{bad_cipher_key, other, Result, ok, err}
use rsfbclient.Charset.{Charset}
use rsfbclient.Consts.{v10, AuthPluginType, srp, srp256, plugin_list}
use rsfbclient.Reader.{Outcome, done, failed, ◌>>=◌, ◌>>◌, pure, lift}
use rsfbclient.Reader.Loop.{Next, again, stop}
use rsfbclient.Wire.Accept.{
  SrpAuthData, AuthPlugin, ConnectionResponse, parse_accept, parse_cont_auth,
}
use rsfbclient.Wire.Requests.{buffer_length, cont_auth, crypt}
use rsfbclient.Wire.Requests
use rsfbclient.Arc4.{Arc4Stream, new_stream}
use rsfbclient.Arc4
use rsfbclient.Srp.{
  BigUint, Digest, SrpClient, SrpClientVerifier, srp_group, new_client, srp_verifier,
}
use rsfbclient.Client.Read.{Read, chunk, broken}
use rsfbclient.Client.Lazy.{on_resp}
use rsfbclient.Client.Session.{Session, Call, write_all, reading, the, receive}
use rsfbclient.Client.Session.Turns.{turn_loop}

-- What the code takes from the crates of numbers, digests and hexadecimal texts.
pub record Crypto : Type 0 where
  pub big : BigUint
  pub sha1 : Digest
  pub sha256 : Digest
  pub hex_encode : Bytes → Bytes
  pub hex_decode : Bytes → Option Bytes

-- The parameter of `SrpClient` in the two arms of `connect`.
abbrev pub digest_of : Crypto → AuthPluginType → Digest
digest_of crypto srp = crypto.sha1
digest_of crypto srp256 = crypto.sha256

abbrev hex_proof : Crypto → Result SrpClientVerifier → Result Bytes
hex_proof crypto (ok verifier) = ok (crypto.hex_encode verifier.proof)
hex_proof crypto (err e) = err e

-- The proof that an attachment sends where the password was not verified by `connect`.
unfoldable pub attach_proof :
    Crypto → Bytes → AuthPluginType → Bytes → Bytes → SrpAuthData → Result Bytes
attach_proof crypto srp_key plugin user pass auth_data = hex_proof crypto (
    srp_verifier crypto.big crypto.sha1 (digest_of crypto plugin) (srp_group crypto.big)
      (new_client crypto.big srp_key (srp_group crypto.big)) user pass auth_data)

-- The reads of an `FbStream::Arc4` over those of its socket.
unfoldable pub deciphered : Arc4Stream → List Read → List Read
deciphered self [] = []
deciphered self (broken ∷ socket) = broken ∷ deciphered self socket
deciphered self (chunk bytes ∷ socket) =
    chunk (Arc4.read self bytes).0 ∷ deciphered (Arc4.read self bytes).1 socket

-- `FbStream::Arc4(Arc4Stream::new(…))`. What the session sends from here on is what is written to the
-- cipher stream. Bytes that are pending were read before and stay as they are.
unfoldable pub encrypted : Option Arc4Stream → Call (Unit {0})
encrypted none s = failed (other bad_cipher_key) s
encrypted (some stream) s =
    done tt (record s { conn = record s.conn { socket = deciphered stream s.conn.socket } })

-- `crypt("Arc4", "Symmetric")`
abbrev pub arc4_request : Bytes
arc4_request =
    crypt (b'A' ∷ b'r' ∷ b'c' ∷ b'4' ∷ [])
      (b'S' ∷ b'y' ∷ b'm' ∷ b'm' ∷ b'e' ∷ b't' ∷ b'r' ∷ b'i' ∷ b'c' ∷ [])

module _ (gds_to_msg : ℕ → Bytes) (crypto : Crypto) where
  unfoldable pub srp_auth :
      SrpClient → AuthPluginType → Bytes → Bytes → SrpAuthData → Call (Unit {0})
  srp_auth client plugin user pass auth_data = do
    verifier ← lift (
        srp_verifier crypto.big crypto.sha1 (digest_of crypto plugin) (srp_group crypto.big) client
          user pass auth_data)
    write_all (cont_auth (crypto.hex_encode verifier.proof) plugin plugin_list [])
    _ ← receive gds_to_msg
    write_all arc4_request
    encrypted (new_stream verifier.key (buffer_length * 2))
    _ ← receive gds_to_msg
    pure tt

  module _ (srp_key user pass : Bytes) where
    abbrev pub srp_client : SrpClient
    srp_client = new_client crypto.big srp_key (srp_group crypto.big)

    -- A round of the loop. Its two arms differ in the digest.
    auth_with : Bool → AuthPlugin → Option SrpAuthData → Call (Next AuthPlugin AuthPlugin)
    auth_with continue_auth plugin (some auth_data) = do
      (if continue_auth then srp_auth srp_client plugin.kind user pass auth_data else pure tt)
      pure (stop plugin)
    auth_with continue_auth plugin none = do
      write_all (
          cont_auth (crypto.hex_encode (crypto.big.to_bytes_be srp_client.a_pub)) plugin.kind
            plugin_list [])
      next_plugin ← reading (on_resp (parse_cont_auth crypto.hex_decode gds_to_msg))
      pure (again next_plugin)

    unfoldable pub auth_round : Bool → AuthPlugin → Call (Next AuthPlugin AuthPlugin)
    unfolding auth_with
    auth_round continue_auth plugin = auth_with continue_auth plugin plugin.auth_data

    unfoldable pub authenticate : Bool → Option AuthPlugin → Call (Option AuthPlugin)
    authenticate continue_auth none = pure none
    authenticate continue_auth (some plugin) = do
      last ← turn_loop (auth_round continue_auth) plugin
      pure (some last)

    -- `connect` behind the socket: the request, the answer to it and the authentication.
    unfoldable pub handshake : Bytes → Bytes → Bytes → Call ConnectionResponse
    handshake db_name username hostname = do
      write_all (
          Requests.connect db_name user username hostname
            (crypto.hex_encode (crypto.big.to_bytes_be srp_client.a_pub)))
      response ← reading (on_resp (parse_accept crypto.hex_decode gds_to_msg))
      plugin ← authenticate response.continue_auth response.auth_plugin
      pure (record response { auth_plugin = plugin })

-- A socket that was opened, with the writes that it takes.
pub record TcpStream : Type 0 where
  pub reads : List Read
  pub writes : ℕ
  pub local_addr : Bytes

-- The connection before the server has answered.
abbrev pub on_socket : TcpStream → Bytes → Charset → Session
on_socket socket srp_key charset = record {
  conn = record { pending = []; lazy_count = 0; socket = socket.reads };
  sent = [];
  writes = socket.writes;
  version = v10;
  charset = charset;
  auth_plugin = none;
  srp_key = srp_key;
  next_event_id = 1;
}

-- The literal at the end of `connect`. A connection that failed is dropped.
abbrev pub established : Outcome Session ConnectionResponse → Result Session
established (failed e s) = err e
established (done response s) = ok (record s {
  version = response.version;
  auth_plugin = if response.continue_auth then none else response.auth_plugin;
})

unfoldable pub connect :
    (ℕ → Bytes)
    → Crypto
    → TcpStream
    → Bytes
    → Bytes
    → Bytes
    → Bytes
    → Bytes
    → Charset
    → Result Session
connect gds_to_msg crypto socket srp_key username db_name user pass charset = established (
    handshake gds_to_msg crypto srp_key user pass db_name username socket.local_addr
      (on_socket socket srp_key charset))

-- ===== src/Client/Connecting/Agreement.antt =====
-- rsfbclient-rust/src/client.rs, `srp_auth`: a server that knows the verifier of the password, and the
-- cipher behind it.
use mathlib.Core.Path.{subst}
use rsfbclient.Base.{
  ◌==◌, length, All, ℕ, ◌-◌, ◌*◌, ◌%◌, ◌<◌, ◌≤◌, ◌≡◌, refl, ap, ◌∙◌, false, List, some, [], ◌∷◌,
  ◌++◌, arith, Bytes,
}
use rsfbclient.Error.{ok}
use rsfbclient.Consts.{AuthPluginType, plugin_list}
use rsfbclient.Reader.{done}
use rsfbclient.Wire.Accept.{SrpAuthData}
use rsfbclient.Wire.Requests.{buffer_length, cont_auth}
use rsfbclient.Arc4.{Arc4, Arc4Stream, initial, new_stream, process, read}
use rsfbclient.Arc4
use rsfbclient.Arc4.Bounds.{IsValid, initial-IsValid}
use rsfbclient.Arc4.Stream.{length-process}
use rsfbclient.Arc4.Keystream.{process-append, process-process}
use rsfbclient.Srp.{srp_group, new_client, compute_k, srp_private_key, srp_verifier}
use rsfbclient.Srp.Agreement.{server_pub, server_secret, process_reply-agrees}
use rsfbclient.Client.Read.{Read, chunk, broken, Conn}
use rsfbclient.Client.Read.Reassembly.{arriving, IsOpen, socket_of, read_with-IsOpen}
use rsfbclient.Client.Lazy.{response_closure, read_response}
use rsfbclient.Client.Lazy.Order.{
  Packet, packet_bytes, PacketFits, read_response-chunk, read_response-packets,
}
use rsfbclient.Client.Session.{Session, reading, receive}
use rsfbclient.Client.Session.Exchange.{Holds, write_all-writable}
use rsfbclient.Client.Connecting.{Crypto, arc4_request, digest_of, deciphered, encrypted, srp_auth}

-- What arrives through the cipher stream is what arrives, deciphered in one go.
deciphered-arriving :
    (self : Arc4Stream) (socket : List Read)
    → IsOpen socket
    → arriving (deciphered self socket) ≡ (process self.read_rc4 (arriving socket)).0
unfolding deciphered
deciphered-arriving self [] h = unfold process in refl
deciphered-arriving self (broken ∷ socket) h = absurd h
deciphered-arriving self (chunk bytes ∷ socket) (h, hs) =
    rw
      (
        deciphered-arriving (read self bytes).1 socket hs,
        process-append self.read_rc4 bytes (arriving socket),
      )
      (unfold read in refl)

deciphered-IsOpen :
    (self : Arc4Stream) (socket : List Read) → IsOpen socket → IsOpen (deciphered self socket)
unfolding deciphered
deciphered-IsOpen self [] h = tt
deciphered-IsOpen self (broken ∷ socket) h = h
deciphered-IsOpen self (chunk bytes ∷ socket) (h, hs) = (
  unfold read in rw (length-process self.read_rc4 bytes) h,
  deciphered-IsOpen (read self bytes).1 socket hs,
)

-- A cipher stream of a key that is neither empty nor longer than 256 bytes.
abbrev pub stream_of : Bytes → ℕ → Arc4Stream
stream_of key buf_len = record {
  read_rc4 = initial key;
  write_rc4 = initial key;
  buf_len = buf_len;
}

new_stream-some :
    (key : Bytes) (buf_len : ℕ)
    → 0 < length key
    → length key ≤ 256
    → new_stream key buf_len ≡ some (stream_of key buf_len)
unfolding new_stream Arc4.new
new_stream-some key buf_len h h' = ground arith

-- The session behind `write_all`.
abbrev written : Bytes → Session → Session
written bytes s = record s { sent = s.sent ++ bytes; writes = s.writes - 1 }

-- The session behind `encrypted`.
abbrev through : Arc4Stream → Session → Session
through stream s = record s { conn = record s.conn { socket = deciphered stream s.conn.socket } }

module _ (gds_to_msg : ℕ → Bytes) where
  receive-chunk :
      (s : Session) (p : Packet) (socket : List Read)
      → PacketFits p
      → s.conn ≡ record { pending = []; lazy_count = 0; socket = chunk (packet_bytes p) ∷ socket }
      → receive gds_to_msg s
        ≡ done p.response
            (record s { conn = record { pending = []; lazy_count = 0; socket = socket } })
  unfolding receive reading read_response
  receive-chunk s p socket fits e = rw (e, read_response-chunk gds_to_msg p socket fits) refl

  -- What the server encrypts with the key of the stream.
  deciphered-receive :
      (s : Session) (stream : Arc4Stream) (p : Packet) (rest : Bytes)
      → PacketFits p
      → IsValid stream.read_rc4
      → s.conn.lazy_count ≡ 0
      → s.conn.pending ≡ []
      → IsOpen s.conn.socket
      → All (λ b. b < 256) (packet_bytes p ++ rest)
      → arriving s.conn.socket ≡ (process stream.read_rc4 (packet_bytes p ++ rest)).0
      → (after : Conn) × (receive gds_to_msg (through stream s)
          ≡ done p.response (record s { conn = after }))
        × Holds (record s { conn = after }) rest
  unfolding receive reading read_response
  deciphered-receive s stream p rest fits valid none_lazy none_pending opened bytes sent =
      let opened' : IsOpen (through stream s).conn.socket =
        deciphered-IsOpen stream s.conn.socket opened in
      let (after, reply, lazy, unread) =
        read_response-packets gds_to_msg [] p rest (through stream s).conn tt fits opened' none_lazy
          (ap (λ xs. xs ++ arriving (through stream s).conn.socket) none_pending
            ∙ deciphered-arriving stream s.conn.socket opened
            ∙ ap (λ xs. (process stream.read_rc4 xs).0) sent
            ∙ (process-process stream.read_rc4 (packet_bytes p ++ rest) valid bytes).0) in
      (
        after,
        rw reply refl,
        record {
          opened =
              subst (λ r. IsOpen (socket_of r)) reply
                (read_with-IsOpen (response_closure gds_to_msg) (through stream s).conn opened');
          lazy_none = lazy;
          unread = unread;
        },
      )

  module _ (crypto : Crypto) (plugin : AuthPluginType) (seed user pass : Bytes)
      (auth_data : SrpAuthData) (u x b : ℕ) where
    abbrev pub key_of : Bytes
    key_of = crypto.sha1 (
        crypto.big.to_bytes_be (
          server_secret (srp_group crypto.big)
            (new_client crypto.big seed (srp_group crypto.big)).a_pub x u b))

    -- The public value of the server is made of the verifier of the password and of the secret `b`, as
    -- `process_reply-agrees` of Srp/Agreement takes it.
    pub record Server : Type 0 where
      pub u_hashed :
          u
          ≡ crypto.big.from_bytes_be (
              crypto.sha1 (
                crypto.big.to_bytes_be (new_client crypto.big seed (srp_group crypto.big)).a_pub
                ++ auth_data.pub_key))
      pub x_hashed :
          x ≡ crypto.big.from_bytes_be (srp_private_key crypto.sha1 user pass auth_data.salt)
      pub public_value :
          crypto.big.from_bytes_be auth_data.pub_key
          ≡ server_pub
              (srp_group crypto.big)
              (compute_k crypto.big (srp_group crypto.big) crypto.sha1)
              x
              b
      pub modulus : 1 < (srp_group crypto.big).n
      pub product : u * x < (srp_group crypto.big).n
      pub no_multiple :
          (crypto.big.from_bytes_be auth_data.pub_key % (srp_group crypto.big).n == 0) ≡ false

    srp_verifier-agrees :
        Server
        → (proof : Bytes) × (srp_verifier crypto.big crypto.sha1
              (digest_of crypto plugin)
              (srp_group crypto.big)
              (new_client crypto.big seed (srp_group crypto.big))
              user
              pass
              auth_data
            ≡ ok (record { proof = proof; key = key_of }))
    unfolding srp_verifier
    srp_verifier-agrees server =
        let (proof, answer) =
          process_reply-agrees crypto.big crypto.sha1 (srp_group crypto.big)
            (digest_of crypto plugin) seed user auth_data.salt
            (srp_private_key crypto.sha1 user pass auth_data.salt) auth_data.pub_key u x b
            server.u_hashed server.x_hashed server.public_value server.modulus server.product
            server.no_multiple in
        (proof, rw answer refl)

    -- `srp_auth` succeeds with a server that knows the verifier of the password, and leaves what stands
    -- behind the second response, deciphered. The server answers the proof with a success in a read of
    -- its own, and encrypts what it sends then with the cipher of its own key: a second success and
    -- anything behind it, cut anywhere. The key is neither empty nor longer than 256 bytes, the responses
    -- fit their widths, nothing is pending or left to be read later, and the socket takes both requests
    -- and stays open.
    pub srp_auth-agrees :
        (s : Session) (socket : List Read) (first second : Packet) (rest : Bytes)
        → Server
        → 0 < length key_of
        → length key_of ≤ 256
        → 1 < s.writes
        → s.conn
          ≡ record { pending = []; lazy_count = 0; socket = chunk (packet_bytes first) ∷ socket }
        → PacketFits first
        → PacketFits second
        → IsOpen socket
        → All (λ b. b < 256) (packet_bytes second ++ rest)
        → arriving socket ≡ (process (initial key_of) (packet_bytes second ++ rest)).0
        → (after : Session) × (srp_auth gds_to_msg crypto
              (new_client crypto.big seed (srp_group crypto.big))
              plugin
              user
              pass
              auth_data
              s
            ≡ done tt after)
          × Holds after rest
    unfolding srp_auth encrypted
    srp_auth-agrees s socket first second rest server some_key short writable conn fits fits' opened
          bytes sent =
        let (proof, verified) = srp_verifier-agrees server in
        let s1 : Session = written (cont_auth (crypto.hex_encode proof) plugin plugin_list []) s in
        let s2 : Session = record s1 {
          conn = record { pending = []; lazy_count = 0; socket = socket };
        } in
        let s3 : Session = written arc4_request s2 in
        let stream : Arc4Stream = stream_of key_of (buffer_length * 2) in
        let (after, reply, holds) =
          deciphered-receive s3 stream second rest fits' (initial-IsValid key_of) refl refl opened
            bytes sent in
        (
          record s3 { conn = after },
          rw
              (
                verified,
                write_all-writable (cont_auth (crypto.hex_encode proof) plugin plugin_list []) s
                    (omega arith),
                receive-chunk s1 first socket fits conn,
                write_all-writable arc4_request s2 (omega arith),
                new_stream-some key_of (buffer_length * 2) some_key short,
                reply,
              )
              refl,
          holds,
        )

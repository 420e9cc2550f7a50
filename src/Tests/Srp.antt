-- ===== src/Tests/Srp.antt =====
-- Witnesses for rsfbclient-rust/src/srp.rs, in a small group, and for `srp_auth` and `RustFbClient` of
-- rsfbclient-rust/src/client.rs.
use rsfbclient.Base.{
  All, ◌<◌, List, none, some, append-nil, ◌++◌, ◌%◌, ◌^◌, ◌≡◌, refl, [], ◌∷◌, Bytes, arith,
}
use rsfbclient.Error.{ok}
use rsfbclient.Charset.{utf_8}
use rsfbclient.Consts.{srp, v13}
use rsfbclient.Reader.{done}
use rsfbclient.Util.{from_be, put_wire_bytes, padding}
use rsfbclient.Wire.Accept.{SrpAuthData}
use rsfbclient.Arc4.{initial, process}
use rsfbclient.Arc4.Stream.{length-process}
use rsfbclient.Client.Read.{Read, chunk}
use rsfbclient.Client.Read.Reassembly.{IsOpen}
use rsfbclient.Client.Lazy.Order.{Packet, packet_bytes, PacketFits}
use rsfbclient.Client.Session.{Session}
use rsfbclient.Client.Session.Exchange.{Holds}
use rsfbclient.Client.Connecting.{Crypto, srp_auth}
use rsfbclient.Wire.Requests.{TrOp}
use rsfbclient.Api.Client.{FirebirdClient}
use rsfbclient.Client.Rust.{RustFbClient, rust_client, wait_for_event}
use rsfbclient.Client.Rust.Keeping.{
  left, IsConnected, operated, none_yet, and_called, and_waited, rust_client-IsConnected,
}
use rsfbclient.Client.Session.Waiting.{Listening}
use rsfbclient.Client.Connecting.Agreement.{Server, srp_auth-agrees}
use rsfbclient.Srp.{
  BigUint, Digest, SrpClient, SrpGroup, srp_group, srp_private_key, new_client, compute_k,
  process_reply, powm,
}
use rsfbclient.Srp.Powers.{powm-pow}
use rsfbclient.Srp.Agreement.{server_pub, server_secret, process_reply-agrees}

abbrev small_big : BigUint
small_big = record {
  from_bytes_be = from_be;
  to_bytes_be = λ n. n ∷ [];
  modpow = λ b e m. b ^ e % m;
}

abbrev three : Digest
three _ = 3 ∷ []

abbrev group_23 : SrpGroup
group_23 = record { n = 23; g = 5 }

server_pub_lem : from_be (8 ∷ []) ≡ server_pub group_23 (compute_k small_big group_23 three) 4 15
unfolding compute_k
server_pub_lem = refl

process_reply-agrees_example :
    (proof : Bytes) × (process_reply small_big three three group_23
        (new_client small_big (6 ∷ []) group_23)
        []
        []
        (4 ∷ [])
        (8 ∷ [])
      ≡ ok (record {
        proof = proof;
        key = three (
            small_big.to_bytes_be
              (server_secret group_23 (new_client small_big (6 ∷ []) group_23).a_pub 4 3 15));
      }))
process_reply-agrees_example =
    process_reply-agrees small_big three group_23 three (6 ∷ []) [] [] (4 ∷ []) (8 ∷ []) 3 4 15 refl
      refl server_pub_lem (omega arith) (omega arith) refl

powm-pow_example : powm 5 1000003 23 ≡ 5 ^ 1000003 % 23
powm-pow_example = powm-pow 5 1000003 23 (omega arith)

abbrev small_crypto : Crypto
small_crypto = record {
  big = small_big;
  sha1 = three;
  sha256 = three;
  hex_encode = λ bytes. bytes;
  hex_decode = λ bytes. some bytes;
}

-- 40 is 3 times the verifier `2 ^ 3`, and `2 ^ 4`.
abbrev data_40 : SrpAuthData
data_40 = record { salt = []; pub_key = 40 ∷ [] }

abbrev client_6 : SrpClient
client_6 = new_client small_big (6 ∷ []) (srp_group small_big)

server_4 : Server (λ code. []) small_crypto srp (6 ∷ []) [] [] data_40 3 3 4
unfolding compute_k srp_private_key srp_group
server_4 = record {
  u_hashed = refl;
  x_hashed = refl;
  public_value = refl;
  modulus = omega arith;
  product = omega arith;
  no_multiple = refl;
}

abbrev answer : Packet
answer = record { keepalives = 0; response = record { handle = 0; object_id = 0; contents = [] } }

answer_fits : PacketFits answer
answer_fits = record {
  handle_fits = omega arith;
  object_id_fits = omega arith;
  contents_fits = omega arith;
}

answer_bytes : All (λ b. b < 256) (packet_bytes answer ++ [])
unfolding put_wire_bytes padding
answer_bytes = ground arith

abbrev ciphered : List Read
ciphered = chunk (process (initial (3 ∷ [])) (packet_bytes answer ++ [])).0 ∷ []

ciphered-IsOpen : IsOpen ciphered
ciphered-IsOpen =
    (rw (length-process (initial (3 ∷ [])) (packet_bytes answer ++ [])) (omega arith), tt)

abbrev connecting : Session
connecting = record {
  conn = record { pending = []; lazy_count = 0; socket = chunk (packet_bytes answer) ∷ ciphered };
  sent = [];
  writes = 2;
  version = v13;
  charset = utf_8;
  auth_plugin = none;
  srp_key = 6 ∷ [];
  next_event_id = 1;
}

srp_auth-agrees_example :
    (after : Session) × (srp_auth (λ code. []) small_crypto client_6 srp [] [] data_40 connecting
      ≡ done tt after)
    × Holds after []
srp_auth-agrees_example =
    srp_auth-agrees (λ code. []) small_crypto srp (6 ∷ []) [] [] data_40 3 3 4 connecting ciphered
      answer answer [] server_4 (omega arith) (omega arith) (omega arith) refl answer_fits
      answer_fits ciphered-IsOpen answer_bytes
      (append-nil (process (initial (3 ∷ [])) (packet_bytes answer ++ [])).0)

abbrev rust : FirebirdClient
rust = rust_client (λ code. []) small_crypto (λ pass. pass) 200

abbrev attached_one : Listening
attached_one = record { session = connecting; event_channel = none; aux_sockets = [] }

abbrev holding : RustFbClient
holding = record { conn = some attached_one; charset = utf_8; dials = [] }

-- A commit and a wait that fail, for what the server sends is no response to them.
abbrev committed : RustFbClient
committed = (left (rust.transaction_operation TrOp.commit (holding, 7))).0

rust_client-IsConnected_example :
    IsConnected [] (left (wait_for_event (λ code. []) small_crypto (b'a' ∷ []) (committed, 0))).0
rust_client-IsConnected_example =
    rust_client-IsConnected [] (λ code. []) small_crypto (λ pass. pass) 200
      (record { conn = attached_one; held = refl; undialled = refl })
      (and_waited (b'a' ∷ []) 0 (and_called (none_yet holding) (operated TrOp.commit holding 7)))

-- ===== src/Tests/Wire.antt =====
-- Witnesses and runs for rsfbclient-rust/src/util.rs, wire.rs and client.rs.
use rsfbclient.Base.{take, drop, ℕ, ◌≡◌, refl, [], ◌∷◌, ◌++◌, arith, Bytes}
use rsfbclient.Base.Int.{signed, negsuc}
use rsfbclient.Error.{sql}
use rsfbclient.Reader.{failed, bytes_stream}
use rsfbclient.Util.{padding, put_wire_bytes}
use rsfbclient.Wire.Status.{no_status, parse_status_vector}
use rsfbclient.Wire.Status.Items.{
  gds, number, vector_bytes, apply_items, told, parse_status_vector-items,
}
use rsfbclient.Wire.Response.{Response}
use rsfbclient.Wire.Response.Laws.{ResponseFits}
use rsfbclient.Client.Read.{chunk, Conn, view_stream, replied, read_with}
use rsfbclient.Client.Read.Reassembly.{arriving, Delivers, read_with-Delivers}
use rsfbclient.Client.Lazy.{response_closure, read_response}
use rsfbclient.Client.Lazy.Stability.{Stable-response_closure, read_response-Delivers}
use rsfbclient.Client.Lazy.Order.{Packet, packet_bytes, read_response-packets}
use rsfbclient.Wire.Text.{replace, decimal, decimal_ℤ, pop_newline}

-- A table with one text, "no @1\n".
abbrev texts : ℕ → Bytes
texts code = b'n' ∷ b'o' ∷ 32 ∷ 64 ∷ b'1' ∷ 10 ∷ []

abbrev answer : ℕ → Response
answer handle = record { handle = handle; object_id = 7; contents = 1 ∷ 2 ∷ [] }

abbrev packet : ℕ → Packet
packet handle = record { keepalives = 1; response = answer handle }

answer-fits : ResponseFits (answer 42)
answer-fits = record {
  handle_fits = omega arith;
  object_id_fits = omega arith;
  contents_fits = omega arith;
}

-- One response pending, the other one in two reads.
abbrev halfway : Conn
halfway = record {
  pending = packet_bytes (packet 42);
  lazy_count = 1;
  socket =
      chunk (take 5 (packet_bytes (packet 42))) ∷ chunk (drop 5 (packet_bytes (packet 42))) ∷ [];
}

parse_status_vector-items_example :
    parse_status_vector texts (vector_bytes (gds 335544436 ∷ number (negsuc 2) ∷ []) ++ (9 ∷ []))
    ≡ told texts (apply_items texts no_status (gds 335544436 ∷ number (negsuc 2) ∷ [])) (9 ∷ [])
parse_status_vector-items_example =
    parse_status_vector-items texts (gds 335544436 ∷ number (negsuc 2) ∷ []) (9 ∷ []) (omega arith)

-- "no -3", with the sql code -3.
status_run :
    parse_status_vector texts (vector_bytes (gds 335544436 ∷ number (negsuc 2) ∷ []) ++ (9 ∷ []))
    ≡ failed (sql (negsuc 2) (b'n' ∷ b'o' ∷ 32 ∷ b'-' ∷ b'3' ∷ [])) (9 ∷ [])
unfolding pop_newline replace decimal decimal_ℤ signed
status_run = parse_status_vector-items_example

read_with-Delivers_example :
    Delivers 1
      (halfway.pending ++ arriving halfway.socket)
      (response_closure texts
        (record { lazy = 1; bytes = halfway.pending ++ arriving halfway.socket }))
      (read_with (response_closure texts) halfway)
read_with-Delivers_example =
    read_with-Delivers (response_closure texts) (Stable-response_closure texts) halfway
      (omega arith)

read_response-packets_example :
    (after : Conn) × (read_response texts halfway ≡ replied (answer 42) after)
    × (after.lazy_count ≡ 0)
    × (after.pending ++ arriving after.socket ≡ [])
unfolding put_wire_bytes padding
read_response-packets_example =
    read_response-packets texts (packet 42 ∷ []) (packet 42) [] halfway (answer-fits, tt)
      answer-fits (omega arith) refl refl

-- Nothing has arrived: the call waits.
abbrev waiting : Conn
waiting = record { pending = 0 ∷ 0 ∷ []; lazy_count = 1; socket = [] }

read_response-Delivers_example :
    Delivers 1
      (0 ∷ 0 ∷ [])
      (response_closure texts (record { lazy = 1; bytes = 0 ∷ 0 ∷ [] }))
      (read_response texts waiting)
read_response-Delivers_example = read_response-Delivers texts waiting tt

-- ===== src/Tests/Events.antt =====
-- Witnesses for rsfbclient-rust/src/events.rs.
use rsfbclient.Base.{
  length, length, take, drop, ℕ, ◌≤◌, ◌<◌, ◌≡◌, refl, List, [], ◌∷◌, ◌++◌, arith, Bytes,
}
use rsfbclient.Util.{padding, put_wire_bytes}
use rsfbclient.Client.Read.{Read, chunk}
use rsfbclient.Events.Channel.Unroll.{after, Takes, recv_notification-Ends}
use rsfbclient.Events.Channel.{and_then, notification_round, recv_notification, recv_event}
use rsfbclient.Client.Read.Reassembly.{arriving}
use rsfbclient.Events.Channel.Framing.{Gives, Pushed, PushedFits, notification_of}
use rsfbclient.Events.Channel.Delivery.{
  recv_notification-event_packet, push_bytes, recv_event-packets,
}
use rsfbclient.Error.Chain.{ok-injective}
use rsfbclient.Error.{ok}
use rsfbclient.Wire.Text.Utf8.{utf8_step, is_utf8}
use rsfbclient.Charset.{decode, encode, utf_8}
use rsfbclient.Events.{
  trim_end_blanks, normalize_event_name, encode_event_name, event_block, parse_event_block,
}
use rsfbclient.Events.RoundTrip.{EventFits, normalized, parse_event_block-event_block}

-- "hi ", with a blank to trim.
abbrev hi : Bytes
hi = b'h' ∷ b'i' ∷ 32 ∷ []

abbrev hi_block : Bytes
hi_block = 1 ∷ 2 ∷ b'h' ∷ b'i' ∷ 5 ∷ 0 ∷ 0 ∷ 0 ∷ []

hi_fits : EventFits utf_8 (hi, 5)
unfolding encode decode trim_end_blanks is_utf8 utf8_step
hi_fits = ((λ encoded h. rw (← ok-injective h) refl), omega arith)

hi_built : event_block utf_8 ((hi, 5) ∷ []) ≡ ok hi_block
unfolding event_block encode_event_name normalize_event_name trim_end_blanks encode
hi_built = refl

parse_event_block-event_block_example :
    (length hi_block ≤ 65535) × (parse_event_block utf_8 hi_block ≡ ok (normalized ((hi, 5) ∷ [])))
parse_event_block-event_block_example =
    parse_event_block-event_block utf_8 ((hi, 5) ∷ []) hi_block (hi_fits, tt) hi_built

-- An event of the registration 8, and one of the registration 7 with the block above.
abbrev pushed : ℕ → Pushed
pushed event_id = record {
  db_handle = 1;
  epb = hi_block;
  routine = 0;
  argument = 0;
  event_id = event_id;
}

pushed-fits : (event_id : ℕ) → event_id < 10 → PushedFits (pushed event_id)
pushed-fits event_id h = record {
  handle_fits = omega arith;
  epb_fits = omega arith;
  routine_fits = omega arith;
  argument_fits = omega arith;
  event_id_fits = omega arith;
}

abbrev two_events : Bytes
two_events = push_bytes (1, pushed 8) ++ push_bytes (0, pushed 7)

-- The first bytes are in the buffer; the others come in two reads.
abbrev reads_of_events : List Read
reads_of_events = chunk (take 30 (drop 3 two_events)) ∷ chunk (drop 33 two_events) ∷ []

recv_notification-event_packet_example :
    Gives
      (notification_of (pushed 8))
      (push_bytes (0, pushed 7))
      (recv_notification (take 3 two_events) reads_of_events)
unfolding put_wire_bytes padding
recv_notification-event_packet_example =
    recv_notification-event_packet 1 (pushed 8) (take 3 two_events) reads_of_events
      (push_bytes (0, pushed 7)) (pushed-fits 8 (omega arith)) (omega arith, (omega arith, tt)) refl

block_parses : parse_event_block utf_8 hi_block ≡ ok (normalized ((hi, 5) ∷ []))
unfolding parse_event_block decode trim_end_blanks is_utf8 utf8_step
block_parses = refl

recv_event-packets_example :
    Gives (normalized ((hi, 5) ∷ [])) [] (recv_event utf_8 7 (take 3 two_events) reads_of_events)
unfolding put_wire_bytes padding
recv_event-packets_example =
    recv_event-packets utf_8 ((1, pushed 8) ∷ []) 0 (pushed 7) (normalized ((hi, 5) ∷ []))
      (take 3 two_events) reads_of_events [] ((pushed-fits 8 (omega arith), omega arith), tt)
      (pushed-fits 7 (omega arith)) block_parses (omega arith, (omega arith, tt)) refl

recv_notification-Ends_example :
    Takes
      (length (take 3 two_events ++ arriving reads_of_events))
      (recv_notification (take 3 two_events) reads_of_events)
    × (recv_notification (take 3 two_events) reads_of_events
        ≡ and_then
            (notification_round (take 3 two_events) reads_of_events)
            (after recv_notification))
recv_notification-Ends_example = recv_notification-Ends (take 3 two_events) reads_of_events

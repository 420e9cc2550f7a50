-- ===== src/Events/Channel/Framing.antt =====
-- rsfbclient-rust/src/events.rs: the rounds of `recv_notification` on a stream cut by reads.
use rsfbclient.Base.{
  ltb, ◌==◌, ltb→lt, Bool-cases, length, take, drop, length-append, length-drop, length-replicate,
  take-append, drop-append, take_all, drop_all, ℕ, ◌+◌, ◌-◌, ◌%◌, ◌^◌, ◌≤◌, ◌<◌, ◌≡◌, refl, sym, ap,
  ◌∙◌, inl, inr, false, none, some, List, [], ◌∷◌, ◌++◌, append_assoc, arith, Bytes,
}
use rsfbclient.Client.Read.{Read, chunk, broken}
use rsfbclient.Client.Read.Reassembly.{arriving, IsOpen}
use rsfbclient.Events.Channel.{
  Answer, answered, ended, blocked, and_then, fill, peek_u32, next_multiple_of_4,
  notification_round, fill_from, packet_round,
}
use rsfbclient.Reader.{done}
use rsfbclient.Consts.Op.{WireOp, op}
use rsfbclient.Util.{put_u32, padding, put_wire_bytes}
use rsfbclient.Wire.Accept.{EventNotification, parse_event_notification}
use rsfbclient.Util.RoundTrip.{get_u32-put_u32, get_wire_bytes-put_wire_bytes}
use rsfbclient.Events.{max_event_block_len}

-- A call that has `len` bytes in `buff`, and lost nothing of the stream.
abbrev Filled : ℕ → Bytes → Answer (Unit {0}) → Type 0
Filled len stream (answered _ buff socket) =
    (len ≤ length buff) × (buff ++ arriving socket ≡ stream) × IsOpen socket
Filled len stream (ended e buff socket) = ⊥
Filled len stream (blocked buff) = ⊥

pub ltb-le : (a b : ℕ) → ltb a b ≡ false → b ≤ a
ltb-le a b h = ground arith

le-ltb : (a b : ℕ) → a ≤ b → ltb b a ≡ false
le-ltb a b h = ground arith

nonempty : (bytes : Bytes) → 0 < length bytes → (length bytes == 0) ≡ false
nonempty bytes h = ground arith

fill_from-Filled :
    (socket : List Read) (len : ℕ) (buff : Bytes)
    → IsOpen socket
    → len ≤ length (buff ++ arriving socket)
    → Filled len (buff ++ arriving socket) (fill_from socket len buff)
unfolding fill_from
fill_from-Filled [] len buff opened enough = elim (Bool-cases (ltb (length buff) len)) [
  | inl e ↦ absurd (omega (arith, ltb→lt (length buff) len e, length-append {A = ℕ} buff []))
  | inr e ↦ rw e (ltb-le (length buff) len e, refl, tt)
]
fill_from-Filled (broken ∷ socket) len buff opened enough = absurd opened
fill_from-Filled (chunk bytes ∷ socket) len buff (some_bytes, opened) enough =
    elim (Bool-cases (ltb (length buff) len)) [
      | inl e ↦
          rw (e, nonempty bytes some_bytes, ← append_assoc buff bytes (arriving socket))
            (fill_from-Filled socket len (buff ++ bytes) opened
              (omega (arith, ap length (append_assoc buff bytes (arriving socket)))))
      | inr e ↦ rw e (ltb-le (length buff) len e, refl, (some_bytes, opened))
    ]

-- A call that answers `value` and leaves `rest` of the stream.
abbrev pub Gives : {A : Type 0} → A → Bytes → Answer A → Type 0
Gives value rest (answered a buff socket) =
    (a ≡ value) × (buff ++ arriving socket ≡ rest) × IsOpen socket
Gives value rest (ended e buff socket) = ⊥
Gives value rest (blocked buff) = ⊥

Filled-then :
    {A : Type 0} (len : ℕ) (stream : Bytes) (value : A) (rest : Bytes) (a : Answer (Unit {0}))
    (k : Unit {0} → Bytes → List Read → Answer A)
    → Filled len stream a
    → ((buff : Bytes) (socket : List Read)
        → len ≤ length buff
        → buff ++ arriving socket ≡ stream
        → IsOpen socket
        → Gives value rest (k tt buff socket))
    → Gives value rest (and_then a k)
Filled-then len stream value rest (answered _ buff socket) k (long, same, still) next =
    next buff socket long same still
Filled-then len stream value rest (ended e buff socket) k filled next = absurd filled
Filled-then len stream value rest (blocked buff) k filled next = absurd filled

fill-then :
    {A : Type 0} (len : ℕ) (buff : Bytes) (socket : List Read) (stream : Bytes) (value : A)
    (rest : Bytes) (k : Unit {0} → Bytes → List Read → Answer A)
    → IsOpen socket
    → buff ++ arriving socket ≡ stream
    → len ≤ length stream
    → ((buff' : Bytes) (socket' : List Read)
        → len ≤ length buff'
        → buff' ++ arriving socket' ≡ stream
        → IsOpen socket'
        → Gives value rest (k tt buff' socket'))
    → Gives value rest (and_then (fill len buff socket) k)
unfolding fill
fill-then len buff socket stream value rest k opened whole enough next =
    Filled-then len stream value rest (fill_from socket len buff) k
      (rw (← whole) (fill_from-Filled socket len buff opened (omega (arith, ap length whole)))) next

-- What is peeked in the buffer is in the stream.
peek-stream :
    (offset : ℕ) (buff tail stream : Bytes)
    → offset + 4 ≤ length buff
    → buff ++ tail ≡ stream
    → peek_u32 buff offset ≡ peek_u32 stream offset
peek-stream offset buff tail stream long same = rw (
  ← same,
  drop-append offset buff tail (omega arith),
  take-append 4 (drop offset buff) tail (omega (arith, length-drop offset buff)),
)

drop-stream :
    (len : ℕ) (buff tail stream : Bytes)
    → len ≤ length buff
    → buff ++ tail ≡ stream
    → drop len buff ++ tail ≡ drop len stream
drop-stream len buff tail stream long same =
    sym (drop-append len buff tail long) ∙ ap (drop len) same

take-stream :
    (len : ℕ) (buff tail stream : Bytes)
    → len ≤ length buff
    → buff ++ tail ≡ stream
    → take len buff ≡ take len stream
take-stream len buff tail stream long same =
    sym (take-append len buff tail long) ∙ ap (take len) same

from_be-put_u32 : (n : ℕ) (rest : Bytes) → n < 2 ^ 32 → peek_u32 (put_u32 n ++ rest) 0 ≡ n
from_be-put_u32 n rest h = omega arith

-- The round that reads a keepalive.
pub notification_round-dummy :
    (buff : Bytes) (socket : List Read) (rest : Bytes)
    → IsOpen socket
    → buff ++ arriving socket ≡ put_u32 (op WireOp.dummy) ++ rest
    → Gives none rest (notification_round buff socket)
unfolding notification_round
notification_round-dummy buff socket rest opened whole =
    fill-then 4 buff socket (put_u32 (op WireOp.dummy) ++ rest) none rest _ opened whole
      (omega arith)
      (λ buff' socket' long same still.
        rw (peek-stream 0 buff' (arriving socket') (put_u32 (op WireOp.dummy) ++ rest) long same) (
          refl,
          drop-stream 4 buff' (arriving socket') (put_u32 (op WireOp.dummy) ++ rest) long same,
          still,
        ))

-- What the server pushes for an event: the handle, the block, two words of no meaning and the number
-- of the registration.
pub record Pushed : Type 0 where
  pub db_handle : ℕ
  pub epb : Bytes
  pub routine : ℕ
  pub argument : ℕ
  pub event_id : ℕ

pub record PushedFits (e : Pushed) : Type 0 where
  pub handle_fits : e.db_handle < 2 ^ 32
  pub epb_fits : length e.epb ≤ max_event_block_len
  pub routine_fits : e.routine < 2 ^ 32
  pub argument_fits : e.argument < 2 ^ 32
  pub event_id_fits : e.event_id < 2 ^ 32

abbrev trailer : Pushed → Bytes
trailer e = put_u32 e.routine ++ (put_u32 e.argument ++ put_u32 e.event_id)

abbrev pub event_packet : Pushed → Bytes
event_packet e =
    put_u32 (op WireOp.event) ++ (put_u32 e.db_handle ++ (put_wire_bytes e.epb ++ trailer e))

abbrev pub notification_of : Pushed → EventNotification
notification_of e = record { event_id = e.event_id; epb = e.epb }

parse_event_notification-event_packet :
    (e : Pushed)
    → PushedFits e
    → parse_event_notification (event_packet e) ≡ done (notification_of e) []
unfolding parse_event_notification
parse_event_notification-event_packet e fits = rw (
  get_u32-put_u32 (op WireOp.event) (put_u32 e.db_handle ++ (put_wire_bytes e.epb ++ trailer e))
      (omega arith),
  get_u32-put_u32 e.db_handle (put_wire_bytes e.epb ++ trailer e) fits.handle_fits,
  get_wire_bytes-put_wire_bytes e.epb (trailer e) (omega (arith, fits.epb_fits)),
  get_u32-put_u32 e.routine (put_u32 e.argument ++ put_u32 e.event_id) fits.routine_fits,
  get_u32-put_u32 e.argument (put_u32 e.event_id) fits.argument_fits,
  get_u32-put_u32 e.event_id [] fits.event_id_fits,
)

abbrev packet_len : Pushed → ℕ
packet_len e = 12 + next_multiple_of_4 (length e.epb) + 12

length-event_packet : (e : Pushed) → length (event_packet e) ≡ packet_len e
unfolding put_wire_bytes padding
length-event_packet e = ground (
  arith,
  length-append (e.epb ++ padding (length e.epb)) (trailer e),
  length-append e.epb (padding (length e.epb)),
  length-replicate {A = ℕ} (4 - length e.epb % 4) 0,
)

peek-event_packet :
    (e : Pushed) (rest : Bytes) → PushedFits e → peek_u32 (event_packet e ++ rest) 8 ≡ length e.epb
unfolding put_wire_bytes
peek-event_packet e rest fits = omega (arith, fits.epb_fits)

-- The bytes of an event's packet are there when `packet_len` of them are.
taken_packet :
    (e : Pushed) (rest : Bytes) → take (packet_len e) (event_packet e ++ rest) ≡ event_packet e
taken_packet e rest = rw (← length-event_packet e) (take_all (event_packet e) rest)

dropped_packet : (e : Pushed) (rest : Bytes) → drop (packet_len e) (event_packet e ++ rest) ≡ rest
dropped_packet e rest = rw (← length-event_packet e) (drop_all (event_packet e) rest)

packet_len-enough : (e : Pushed) (rest : Bytes) → packet_len e ≤ length (event_packet e ++ rest)
packet_len-enough e rest = omega (arith, length-append (event_packet e) rest, length-event_packet e)

packet_round-event :
    (e : Pushed) (buff : Bytes) (socket : List Read) (rest : Bytes)
    → PushedFits e
    → IsOpen socket
    → buff ++ arriving socket ≡ event_packet e ++ rest
    → Gives (some (notification_of e)) rest (packet_round buff socket)
unfolding packet_round
packet_round-event e buff socket rest fits opened whole =
    fill-then 12 buff socket (event_packet e ++ rest) (some (notification_of e)) rest _ opened whole
      (omega (arith, packet_len-enough e rest))
      (λ buff' socket' long same still.
        rw
          (
            peek-stream 8 buff' (arriving socket') (event_packet e ++ rest) long same,
            peek-event_packet e rest fits,
            le-ltb (length e.epb) max_event_block_len fits.epb_fits,
          )
          (fill-then (packet_len e) buff' socket' (event_packet e ++ rest)
            (some (notification_of e)) rest _ still same (packet_len-enough e rest)
            (λ buff'' socket'' long' same' still'.
              rw
                (
                  take-stream (packet_len e) buff'' (arriving socket'') (event_packet e ++ rest)
                      long' same',
                  taken_packet e rest,
                  parse_event_notification-event_packet e fits,
                )
                (
                  refl,
                  drop-stream (packet_len e) buff'' (arriving socket'') (event_packet e ++ rest)
                        long' same'
                      ∙ dropped_packet e rest,
                  still',
                ))))

pub notification_round-event :
    (e : Pushed) (buff : Bytes) (socket : List Read) (rest : Bytes)
    → PushedFits e
    → IsOpen socket
    → buff ++ arriving socket ≡ event_packet e ++ rest
    → Gives (some (notification_of e)) rest (notification_round buff socket)
unfolding notification_round
notification_round-event e buff socket rest fits opened whole =
    fill-then 4 buff socket (event_packet e ++ rest) (some (notification_of e)) rest _ opened whole
      (omega (arith, packet_len-enough e rest))
      (λ buff' socket' long same still.
        rw (peek-stream 0 buff' (arriving socket') (event_packet e ++ rest) long same)
          (packet_round-event e buff' socket' rest fits still same))

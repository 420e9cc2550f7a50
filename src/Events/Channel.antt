-- ===== src/Events/Channel.antt =====
-- rsfbclient-rust/src/events.rs, `EventChannel`: notifications are cut out of what the server pushes on
-- the auxiliary socket. The socket is the list of what its reads answer.
pub mod Framing
pub mod Delivery
pub mod Fed
pub mod Unroll
pub mod Skipping
use rsfbclient.Base.{
  ltb, ◌==◌, if◌then◌else◌, length, take, drop, ℕ, zero, suc, ◌+◌, ◌-◌, ◌%◌, not, ◌||◌, Option,
  none, some, List, [], ◌∷◌, ◌++◌, Bytes,
}
use rsfbclient.Error.{
  out_of_fuel, event_channel_closed, event_server_closed, event_unexpected_op,
  announced_event_block, FbError, io, other, Result, ok, err,
}
use rsfbclient.Consts.Op.{WireOp, op}
use rsfbclient.Reader.{Outcome, done, failed}
use rsfbclient.Util.{from_be}
use rsfbclient.Client.Read.{Read, chunk, broken}
use rsfbclient.Client.Read.Reassembly.{arriving}
use rsfbclient.Wire.Accept.{EventNotification, parse_event_notification}
use rsfbclient.Events.{max_event_block_len, parse_event_block}
use rsfbclient.Charset.{Charset}

-- What a call answers, with `buff` and the socket after it; `blocked` is a call that still waits in
-- the socket's read.
pub data Answer (A : Type 0) : Type 0 where
  answered : A → Bytes → List Read → Answer A
  ended : FbError → Bytes → List Read → Answer A
  blocked : Bytes → Answer A

abbrev pub and_then : {A B : Type 0} → Answer A → (A → Bytes → List Read → Answer B) → Answer B
and_then (answered a buff socket) k = k a buff socket
and_then (ended e buff socket) k = ended e buff socket
and_then (blocked buff) k = blocked buff

-- The recursion is over the socket's reads.
fill_from : List Read → ℕ → Bytes → Answer (Unit {0})
fill_from [] len buff = if ltb (length buff) len then blocked buff else answered tt buff []
fill_from (broken ∷ socket) len buff =
    if ltb (length buff) len then ended io buff socket else answered tt buff (broken ∷ socket)
fill_from (chunk bytes ∷ socket) len buff =
    let more : Answer (Unit {0}) = fill_from socket len (buff ++ bytes) in
    if ltb (length buff) len
    then (if length bytes == 0 then ended (other event_channel_closed) buff socket else more)
    else answered tt buff (chunk bytes ∷ socket)

unfoldable pub fill : ℕ → Bytes → List Read → Answer (Unit {0})
unfolding fill_from
fill len buff socket = fill_from socket len buff

abbrev pub peek_u32 : Bytes → ℕ → ℕ
peek_u32 buff offset = from_be (take 4 (drop offset buff))

-- `n.next_multiple_of(4)`
abbrev pub next_multiple_of_4 : ℕ → ℕ
next_multiple_of_4 n = if n % 4 == 0 then n else n + (4 - n % 4)

-- `parse_event_notification(&mut packet)`, with the packet split off.
abbrev parsed :
    Outcome Bytes EventNotification → Bytes → List Read → Answer (Option EventNotification)
parsed (done notification left) buff socket = answered (some notification) buff socket
parsed (failed e left) buff socket = ended e buff socket

packet_round : Bytes → List Read → Answer (Option EventNotification)
packet_round buff socket = and_then (fill 12 buff socket) (λ _ buff' socket'.
    let epb_len = peek_u32 buff' 8 in
    if ltb max_event_block_len epb_len
    then ended (other (announced_event_block epb_len)) buff' socket'
    else (let len = 12 + next_multiple_of_4 epb_len + 12 in
        and_then (fill len buff' socket') (λ _ buff'' socket''.
          parsed (parse_event_notification (take len buff'')) (drop len buff'') socket'')))

-- One round of the loop of `recv_notification`; `none` is a keepalive.
pub notification_round : Bytes → List Read → Answer (Option EventNotification)
unfolding packet_round
notification_round buff socket = and_then (fill 4 buff socket) (λ _ buff' socket'.
    let op_code = peek_u32 buff' 0 in
    if op_code == op WireOp.dummy
    then answered none (drop 4 buff') socket'
    else (if op_code == op WireOp.exit || op_code == op WireOp.disconnect
        then ended (other event_server_closed) buff' socket'
        else (if not (op_code == op WireOp.event)
            then ended (other (event_unexpected_op op_code)) buff' socket'
            else packet_round buff' socket')))

notification_loop : ℕ → Bytes → List Read → Answer EventNotification
notification_loop zero buff socket = ended (other out_of_fuel) buff socket
notification_loop (suc fuel) buff socket =
    and_then (notification_round buff socket) (λ found buff' socket'. elim found [
      | none ↦ notification_loop fuel buff' socket'
      | some notification ↦ answered notification buff' socket'
    ])

-- Each keepalive takes four of the bytes that have arrived or will.
unfoldable pub recv_notification : Bytes → List Read → Answer EventNotification
unfolding notification_loop notification_round
recv_notification buff socket =
    notification_loop (suc (length (buff ++ arriving socket))) buff socket

-- `parse_event_block(&self.charset, &notification.epb)`
abbrev counters : Result (List (Bytes × ℕ)) → Bytes → List Read → Answer (List (Bytes × ℕ))
counters (ok events) buff socket = answered events buff socket
counters (err e) buff socket = ended e buff socket

event_loop : ℕ → Charset → ℕ → Bytes → List Read → Answer (List (Bytes × ℕ))
event_loop zero charset event_id buff socket = ended (other out_of_fuel) buff socket
event_loop (suc fuel) charset event_id buff socket =
    and_then (recv_notification buff socket) (λ notification buff' socket'.
      let skipped : Answer (List (Bytes × ℕ)) = event_loop fuel charset event_id buff' socket' in
      if notification.event_id == event_id
      then counters (parse_event_block charset notification.epb) buff' socket'
      else skipped)

-- Each notification takes bytes that have arrived or will.
unfoldable pub recv_event : Charset → ℕ → Bytes → List Read → Answer (List (Bytes × ℕ))
unfolding event_loop
recv_event charset event_id buff socket =
    event_loop (suc (length (buff ++ arriving socket))) charset event_id buff socket

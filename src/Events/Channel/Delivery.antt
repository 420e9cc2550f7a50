-- ===== src/Events/Channel/Delivery.antt =====
-- rsfbclient-rust/src/events.rs: `recv_notification` and `recv_event` on the packets that the server
-- pushes.
use rsfbclient.Base.{
  ◌==◌, length, All, length-append, ℕ, zero, suc, ◌*◌, ◌≤◌, ◌<◌, ◌≡◌, refl, ap, ◌∙◌, ◌≢◌, true,
  false, none, some, List, [], ◌∷◌, ◌++◌, append_assoc, arith, Bytes,
}
use rsfbclient.Client.Read.{Read}
use rsfbclient.Client.Read.Reassembly.{arriving, IsOpen}
use rsfbclient.Client.Lazy.Order.{dummies}
use rsfbclient.Events.Channel.{
  Answer, answered, ended, blocked, and_then, notification_round, recv_notification, recv_event,
  notification_loop, event_loop,
}
use rsfbclient.Events.Channel.Framing.{
  Gives, notification_round-dummy, Pushed, PushedFits, event_packet, notification_of,
  notification_round-event,
}
use rsfbclient.Error.{ok}
use rsfbclient.Charset.{Charset}
use rsfbclient.Events.{parse_event_block}

Gives-then :
    {A B : Type 0} (value : A) (stream : Bytes) (result : B) (rest : Bytes) (a : Answer A)
    (k : A → Bytes → List Read → Answer B)
    → Gives value stream a
    → ((buff : Bytes) (socket : List Read)
        → buff ++ arriving socket ≡ stream
        → IsOpen socket
        → Gives result rest (k value buff socket))
    → Gives result rest (and_then a k)
Gives-then value stream result rest (answered a buff socket) k (e, same, still) next =
    rw e (next buff socket same still)
Gives-then value stream result rest (ended e buff socket) k given next = absurd given
Gives-then value stream result rest (blocked buff) k given next = absurd given

==-refl : (n : ℕ) → (n == n) ≡ true
==-refl n = ground arith

==-ne : (a b : ℕ) → a ≢ b → (a == b) ≡ false
==-ne a b ne = ground arith

length-dummies : (n : ℕ) → length (dummies n) ≡ 4 * n
length-dummies zero = refl
length-dummies (suc n) = omega (arith, length-dummies n)

notification_loop-packet :
    (n fuel : ℕ) (e : Pushed) (buff : Bytes) (socket : List Read) (rest : Bytes)
    → PushedFits e
    → IsOpen socket
    → buff ++ arriving socket ≡ dummies n ++ (event_packet e ++ rest)
    → n < fuel
    → Gives (notification_of e) rest (notification_loop fuel buff socket)
unfolding notification_loop
notification_loop-packet n zero e buff socket rest fits opened whole enough = absurd (omega arith)
notification_loop-packet zero (suc fuel) e buff socket rest fits opened whole enough =
    Gives-then (some (notification_of e)) rest (notification_of e) rest
      (notification_round buff socket) _
      (notification_round-event e buff socket rest fits opened whole)
      (λ buff' socket' same still. (refl, same, still))
notification_loop-packet (suc n) (suc fuel) e buff socket rest fits opened whole enough =
    Gives-then none (dummies n ++ (event_packet e ++ rest)) (notification_of e) rest
      (notification_round buff socket) _
      (notification_round-dummy buff socket (dummies n ++ (event_packet e ++ rest)) opened whole)
      (λ buff' socket' same still.
        notification_loop-packet n fuel e buff' socket' rest fits still same (omega arith))

-- `recv_notification`, of a socket that neither closes nor breaks, skips the keepalives in front of an
-- event's packet and answers the notification that the packet is, however the reads cut the bytes, and
-- the bytes behind the packet stay for the next call. The event's numbers have 32 bits and its
-- parameter block at most 65535 bytes.
pub recv_notification-event_packet :
    (n : ℕ) (e : Pushed) (buff : Bytes) (socket : List Read) (rest : Bytes)
    → PushedFits e
    → IsOpen socket
    → buff ++ arriving socket ≡ dummies n ++ (event_packet e ++ rest)
    → Gives (notification_of e) rest (recv_notification buff socket)
unfolding recv_notification
recv_notification-event_packet n e buff socket rest fits opened whole =
    notification_loop-packet n (suc (length (buff ++ arriving socket))) e buff socket rest fits
      opened whole
      (omega (
        arith,
        ap length whole,
        length-append (dummies n) (event_packet e ++ rest),
        length-dummies n,
      ))

-- What the server pushes: some keepalives, and an event.
abbrev pub Push : Type 0
Push = ℕ × Pushed

abbrev pub push_bytes : Push → Bytes
push_bytes (n, e) = dummies n ++ event_packet e

abbrev pub pushes_bytes : List Push → Bytes
pushes_bytes [] = []
pushes_bytes (p ∷ ps) = push_bytes p ++ pushes_bytes ps

-- An event of another registration.
abbrev pub OtherEvent : ℕ → Push → Type 0
OtherEvent event_id (n, e) = PushedFits e × (e.event_id ≢ event_id)

length-pushes_bytes : (ps : List Push) → length ps ≤ length (pushes_bytes ps)
length-pushes_bytes [] = omega arith
length-pushes_bytes ((n, e) ∷ ps) = omega (
  arith,
  length-pushes_bytes ps,
  length-append (dummies n ++ event_packet e) (pushes_bytes ps),
  length-append (dummies n) (event_packet e),
)

event_loop-packets :
    (charset : Charset) (others : List Push) (n : ℕ) (e : Pushed) (events : List (Bytes × ℕ))
    (fuel : ℕ) (buff : Bytes) (socket : List Read) (rest : Bytes)
    → All (OtherEvent e.event_id) others
    → PushedFits e
    → parse_event_block charset e.epb ≡ ok events
    → IsOpen socket
    → buff ++ arriving socket ≡ pushes_bytes others ++ (push_bytes (n, e) ++ rest)
    → length others < fuel
    → Gives events rest (event_loop fuel charset e.event_id buff socket)
unfolding event_loop
event_loop-packets charset others n e events zero buff socket rest skipped fits block opened whole
      enough =
    absurd (omega arith)
event_loop-packets charset [] n e events (suc fuel) buff socket rest skipped fits block opened whole
      enough =
    Gives-then (notification_of e) rest events rest (recv_notification buff socket) _
      (recv_notification-event_packet n e buff socket rest fits opened
        (whole ∙ append_assoc (dummies n) (event_packet e) rest))
      (λ buff' socket' same still. rw (==-refl e.event_id, block) (refl, same, still))
event_loop-packets charset ((m, o) ∷ others) n e events (suc fuel) buff socket rest
      ((fits_o, ne), skipped) fits block opened whole enough =
    let later : Bytes = pushes_bytes others ++ (push_bytes (n, e) ++ rest) in
    Gives-then (notification_of o) later events rest (recv_notification buff socket) _
      (recv_notification-event_packet m o buff socket later fits_o opened (
        whole
        ∙ append_assoc (dummies m ++ event_packet o) (pushes_bytes others)
            (push_bytes (n, e) ++ rest)
        ∙ append_assoc (dummies m) (event_packet o) later))
      (λ buff' socket' same still. rw (==-ne o.event_id e.event_id ne) (
        event_loop-packets charset others n e events fuel buff' socket' rest skipped fits block
          still same (omega arith)))

-- `recv_event`, of a socket that neither closes nor breaks, skips the keepalives and the events of
-- other registrations and answers the counters of the first event of the one that it waits for, if
-- its block parses, however the reads cut the bytes; what is behind that event's packet stays for
-- the next call. The events' numbers have 32 bits and their parameter blocks at most 65535 bytes.
pub recv_event-packets :
    (charset : Charset) (others : List Push) (n : ℕ) (e : Pushed) (events : List (Bytes × ℕ))
    (buff : Bytes) (socket : List Read) (rest : Bytes)
    → All (OtherEvent e.event_id) others
    → PushedFits e
    → parse_event_block charset e.epb ≡ ok events
    → IsOpen socket
    → buff ++ arriving socket ≡ pushes_bytes others ++ (push_bytes (n, e) ++ rest)
    → Gives events rest (recv_event charset e.event_id buff socket)
unfolding recv_event
recv_event-packets charset others n e events buff socket rest skipped fits block opened whole =
    event_loop-packets charset others n e events (suc (length (buff ++ arriving socket))) buff
      socket rest skipped fits block opened whole
      (omega (
        arith,
        ap length whole,
        length-pushes_bytes others,
        length-append (pushes_bytes others) (push_bytes (n, e) ++ rest),
      ))

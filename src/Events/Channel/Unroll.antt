-- ===== src/Events/Channel/Unroll.antt =====
-- rsfbclient-rust/src/events.rs: the loop of `recv_notification` and its fuel.
use rsfbclient.Base.{
  ltb, ◌==◌, if◌then◌else◌, Bool-cases, length, drop, length-append, length-drop, ℕ, zero, suc, ◌+◌,
  ◌≤◌, ◌<◌, ◌≡◌, refl, ap, inl, inr, Bool, true, false, not, ◌||◌, Option, none, some, List, [],
  ◌∷◌, ◌++◌, append_assoc, arith, Bytes,
}
use rsfbclient.Reader.{Outcome, done, failed}
use rsfbclient.Events.Sound.{is_out_of_fuel}
use rsfbclient.Events.Channel.Fed.{Fails, Fed-parse_event_notification}
use rsfbclient.Client.Read.{Read, chunk, broken}
use rsfbclient.Client.Read.Reassembly.{arriving}
use rsfbclient.Events.Channel.{
  Answer, answered, ended, blocked, and_then, fill, peek_u32, next_multiple_of_4,
  notification_round, recv_notification, fill_from, parsed, packet_round, notification_loop,
}
use rsfbclient.Events.Channel.Framing.{ltb-le}
use rsfbclient.Consts.Op.{WireOp, op}
use rsfbclient.Events.{max_event_block_len}
use rsfbclient.Wire.Accept.{EventNotification}

-- A call that has `len` bytes in `buff`, out of `total` bytes at most.
abbrev Keeps : ℕ → ℕ → Answer (Unit {0}) → Type 0
Keeps len total (answered _ buff socket) =
    (len ≤ length buff) × (length (buff ++ arriving socket) ≤ total)
Keeps len total (ended e buff socket) = is_out_of_fuel e ≡ false
Keeps len total (blocked buff) = Unit {0}

Keeps-if :
    (len total : ℕ) (b : Bool) (x y : Answer (Unit {0}))
    → Keeps len total x
    → Keeps len total y
    → Keeps len total (if b then x else y)
Keeps-if len total true x y hx hy = hx
Keeps-if len total false x y hx hy = hy

fill_from-Keeps :
    (socket : List Read) (len total : ℕ) (buff : Bytes)
    → length (buff ++ arriving socket) ≤ total
    → Keeps len total (fill_from socket len buff)
unfolding fill_from
fill_from-Keeps [] len total buff h = elim (Bool-cases (ltb (length buff) len)) [
  | inl e ↦ rw e tt
  | inr e ↦ rw e (ltb-le (length buff) len e, h)
]
fill_from-Keeps (broken ∷ socket) len total buff h = elim (Bool-cases (ltb (length buff) len)) [
  | inl e ↦ rw e refl
  | inr e ↦ rw e (ltb-le (length buff) len e, h)
]
fill_from-Keeps (chunk bytes ∷ socket) len total buff h =
    elim (Bool-cases (ltb (length buff) len)) [
      | inl e ↦ rw e (
          Keeps-if len total (length bytes == 0) _ _ refl (
            fill_from-Keeps socket len total (buff ++ bytes)
              (omega (arith, h, ap length (append_assoc buff bytes (arriving socket))))))
      | inr e ↦ rw e (ltb-le (length buff) len e, h)
    ]

-- A round leaves less of the stream.
abbrev Less : ℕ → Answer (Option EventNotification) → Type 0
Less total (answered none buff socket) = length (buff ++ arriving socket) < total
Less total (answered (some notification) buff socket) = length (buff ++ arriving socket) < total
Less total (ended e buff socket) = is_out_of_fuel e ≡ false
Less total (blocked buff) = Unit {0}

Less-if :
    (total : ℕ) (b : Bool) (x y : Answer (Option EventNotification))
    → Less total x
    → Less total y
    → Less total (if b then x else y)
Less-if total true x y hx hy = hx
Less-if total false x y hx hy = hy

Keeps-then :
    (len total bound : ℕ) (a : Answer (Unit {0}))
    (k : Unit {0} → Bytes → List Read → Answer (Option EventNotification))
    → Keeps len total a
    → ((buff : Bytes) (socket : List Read)
        → len ≤ length buff
        → length (buff ++ arriving socket) ≤ total
        → Less bound (k tt buff socket))
    → Less bound (and_then a k)
Keeps-then len total bound (answered _ buff socket) k (long, small) next =
    next buff socket long small
Keeps-then len total bound (ended e buff socket) k kept next = kept
Keeps-then len total bound (blocked buff) k kept next = tt

parsed-Less :
    (bound : ℕ) (o : Outcome Bytes EventNotification) (buff : Bytes) (socket : List Read)
    → Fails o
    → length (buff ++ arriving socket) < bound
    → Less bound (parsed o buff socket)
parsed-Less bound (done n left) buff socket h less = less
parsed-Less bound (failed e left) buff socket h less = h

-- What is left of the stream when a packet is cut off.
dropped-less :
    (len bound : ℕ) (buff : Bytes) (socket : List Read)
    → 0 < len
    → len ≤ length buff
    → length (buff ++ arriving socket) ≤ bound
    → length (drop len buff ++ arriving socket) < bound
dropped-less len bound buff socket some_len long small = omega (
  arith,
  length-append (drop len buff) (arriving socket),
  length-append buff (arriving socket),
  length-drop len buff,
)

packet_round-Less :
    (bound : ℕ) (buff : Bytes) (socket : List Read)
    → length (buff ++ arriving socket) ≤ bound
    → Less bound (packet_round buff socket)
unfolding packet_round fill
packet_round-Less bound buff socket h =
    Keeps-then 12 bound bound (fill_from socket 12 buff) _ (fill_from-Keeps socket 12 _ buff h)
      (λ buff' socket' long small.
        Less-if bound (ltb max_event_block_len (peek_u32 buff' 8)) _ _ refl (
          Keeps-then _ bound bound
            (fill_from socket' (12 + next_multiple_of_4 (peek_u32 buff' 8) + 12) buff') _
            (fill_from-Keeps socket' _ bound buff' small)
            (λ buff'' socket'' long' small'.
              parsed-Less bound _ _ socket'' (Fed-parse_event_notification.at _)
                (dropped-less _ bound buff'' socket'' (omega arith) long' small'))))

notification_round-Less :
    (buff : Bytes) (socket : List Read)
    → Less (length (buff ++ arriving socket)) (notification_round buff socket)
unfolding notification_round fill
notification_round-Less buff socket =
    Keeps-then 4 (length (buff ++ arriving socket)) (length (buff ++ arriving socket))
      (fill_from socket 4 buff) _ (fill_from-Keeps socket 4 _ buff (omega arith))
      (λ buff' socket' long small.
        Less-if _ (peek_u32 buff' 0 == op WireOp.dummy) _ _
          (dropped-less 4 _ buff' socket' (omega arith) long small)
          (Less-if _
            (peek_u32 buff' 0 == op WireOp.exit || peek_u32 buff' 0 == op WireOp.disconnect) _ _
            refl
            (Less-if _ (not (peek_u32 buff' 0 == op WireOp.event)) _ _ refl
              (packet_round-Less _ buff' socket' small))))

-- What follows a round: the loop again after a keepalive.
abbrev pub after :
    (Bytes → List Read → Answer EventNotification)
    → Option EventNotification
    → Bytes
    → List Read
    → Answer EventNotification
after loop_again found buff socket = elim found [
  | none ↦ loop_again buff socket
  | some notification ↦ answered notification buff socket
]

after-eq :
    (total : ℕ) (a : Answer (Option EventNotification))
    (f g : Bytes → List Read → Answer EventNotification)
    → Less total a
    → ((buff : Bytes) (socket : List Read)
        → length (buff ++ arriving socket) < total
        → f buff socket ≡ g buff socket)
    → and_then a (after f) ≡ and_then a (after g)
after-eq total (answered none buff socket) f g less same = same buff socket less
after-eq total (answered (some n) buff socket) f g less same = refl
after-eq total (ended e buff socket) f g less same = refl
after-eq total (blocked buff) f g less same = refl

-- Two amounts of fuel above the bytes of the stream give the same.
notification_loop-fuel :
    (n m : ℕ) (buff : Bytes) (socket : List Read)
    → length (buff ++ arriving socket) < n
    → length (buff ++ arriving socket) < m
    → notification_loop n buff socket ≡ notification_loop m buff socket
unfolding notification_loop
notification_loop-fuel zero m buff socket hn hm = absurd (omega arith)
notification_loop-fuel (suc n) zero buff socket hn hm = absurd (omega arith)
notification_loop-fuel (suc n) (suc m) buff socket hn hm =
    after-eq (length (buff ++ arriving socket)) (notification_round buff socket)
      (notification_loop n) (notification_loop m) (notification_round-Less buff socket)
      (λ buff' socket' less. notification_loop-fuel n m buff' socket' (omega arith) (omega arith))

recv_notification-unroll :
    (buff : Bytes) (socket : List Read)
    → recv_notification buff socket
      ≡ and_then (notification_round buff socket) (after recv_notification)
unfolding recv_notification notification_loop
recv_notification-unroll buff socket =
    after-eq (length (buff ++ arriving socket)) (notification_round buff socket)
      (notification_loop (length (buff ++ arriving socket))) recv_notification
      (notification_round-Less buff socket)
      (λ buff' socket' less.
        notification_loop-fuel (length (buff ++ arriving socket))
          (suc (length (buff' ++ arriving socket'))) buff' socket' less (omega arith))

-- The answer of a call that had fuel to the end, and took some of a stream of `total` bytes.
abbrev pub Takes : {A : Type 0} → ℕ → Answer A → Type 0
Takes total (answered a buff socket) = length (buff ++ arriving socket) < total
Takes total (ended e buff socket) = is_out_of_fuel e ≡ false
Takes total (blocked buff) = Unit {0}

pub Takes-more :
    {A : Type 0} (less total : ℕ) (a : Answer A) → less < total → Takes less a → Takes total a
Takes-more less total (answered a buff socket) h t = omega arith
Takes-more less total (ended e buff socket) h t = t
Takes-more less total (blocked buff) h t = tt

after-Takes :
    (total : ℕ) (a : Answer (Option EventNotification))
    (f : Bytes → List Read → Answer EventNotification)
    → Less total a
    → ((buff : Bytes) (socket : List Read)
        → length (buff ++ arriving socket) < total
        → Takes total (f buff socket))
    → Takes total (and_then a (after f))
after-Takes total (answered none buff socket) f less takes = takes buff socket less
after-Takes total (answered (some n) buff socket) f less takes = less
after-Takes total (ended e buff socket) f less takes = less
after-Takes total (blocked buff) f less takes = tt

notification_loop-Takes :
    (n : ℕ) (buff : Bytes) (socket : List Read)
    → length (buff ++ arriving socket) < n
    → Takes (length (buff ++ arriving socket)) (notification_loop n buff socket)
unfolding notification_loop
notification_loop-Takes zero buff socket h = absurd (omega arith)
notification_loop-Takes (suc n) buff socket h =
    after-Takes (length (buff ++ arriving socket)) (notification_round buff socket)
      (notification_loop n) (notification_round-Less buff socket)
      (λ buff' socket' less.
        Takes-more _ _ (notification_loop n buff' socket') less
          (notification_loop-Takes n buff' socket' (omega arith)))

pub recv_notification-Takes :
    (buff : Bytes) (socket : List Read)
    → Takes (length (buff ++ arriving socket)) (recv_notification buff socket)
unfolding recv_notification
recv_notification-Takes buff socket =
    notification_loop-Takes (suc (length (buff ++ arriving socket))) buff socket (omega arith)

-- `recv_notification` comes to its end on every buffer and every socket: it answers a notification,
-- which takes some of the stream, or an error that the program has, or waits in a read, and never runs
-- out of the fuel of the model. It is the loop of the source: one round, and after a keepalive the
-- whole call again.
pub recv_notification-Ends :
    (buff : Bytes) (socket : List Read)
    → Takes (length (buff ++ arriving socket)) (recv_notification buff socket)
      × (recv_notification buff socket
          ≡ and_then (notification_round buff socket) (after recv_notification))
recv_notification-Ends buff socket =
    (recv_notification-Takes buff socket, recv_notification-unroll buff socket)

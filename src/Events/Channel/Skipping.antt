-- ===== src/Events/Channel/Skipping.antt =====
-- rsfbclient-rust/src/events.rs: the loop of `recv_event` and its fuel.
use rsfbclient.Base.{
  ◌==◌, if◌then◌else◌, length, ℕ, zero, suc, ◌<◌, Bool, true, false, List, ◌++◌, arith, Bytes,
}
use rsfbclient.Error.{Result, ok, err}
use rsfbclient.Charset.{Charset}
use rsfbclient.Client.Read.{Read}
use rsfbclient.Client.Read.Reassembly.{arriving}
use rsfbclient.Wire.Accept.{EventNotification}
use rsfbclient.Events.{parse_event_block}
use rsfbclient.Events.Sound.{Sound, parse_event_block-Sound}
use rsfbclient.Events.Channel.{
  Answer, answered, ended, blocked, and_then, counters, event_loop, recv_notification, recv_event,
}
use rsfbclient.Events.Channel.Unroll.{Takes, Takes-more, recv_notification-Takes}

counters-Takes :
    (total : ℕ) (r : Result (List (Bytes × ℕ))) (buff : Bytes) (socket : List Read)
    → Sound r
    → length (buff ++ arriving socket) < total
    → Takes total (counters r buff socket)
counters-Takes total (ok events) buff socket sound less = less
counters-Takes total (err e) buff socket sound less = sound

Takes-if :
    (total : ℕ) (b : Bool) (x y : Answer (List (Bytes × ℕ)))
    → Takes total x
    → Takes total y
    → Takes total (if b then x else y)
Takes-if total true x y hx hy = hx
Takes-if total false x y hx hy = hy

Takes-then :
    (total : ℕ) (a : Answer EventNotification)
    (k : EventNotification → Bytes → List Read → Answer (List (Bytes × ℕ)))
    → Takes total a
    → ((n : EventNotification) (buff : Bytes) (socket : List Read)
        → length (buff ++ arriving socket) < total
        → Takes total (k n buff socket))
    → Takes total (and_then a k)
Takes-then total (answered n buff socket) k less next = next n buff socket less
Takes-then total (ended e buff socket) k fed next = fed
Takes-then total (blocked buff) k fed next = tt

event_loop-Takes :
    (fuel : ℕ) (charset : Charset) (event_id : ℕ) (buff : Bytes) (socket : List Read)
    → length (buff ++ arriving socket) < fuel
    → Takes (length (buff ++ arriving socket)) (event_loop fuel charset event_id buff socket)
unfolding event_loop
event_loop-Takes zero charset event_id buff socket h = absurd (omega arith)
event_loop-Takes (suc fuel) charset event_id buff socket h =
    Takes-then (length (buff ++ arriving socket)) (recv_notification buff socket) _
      (recv_notification-Takes buff socket)
      (λ n buff' socket' less.
        Takes-if _ (n.event_id == event_id) _ _
          (counters-Takes _ (parse_event_block charset n.epb) buff' socket'
            (parse_event_block-Sound charset n.epb) less)
          (Takes-more _ _ (event_loop fuel charset event_id buff' socket') less
            (event_loop-Takes fuel charset event_id buff' socket' (omega arith))))

-- `recv_event` comes to its end on every buffer and every socket, whatever notifications of other
-- registrations arrive: it answers counters, which takes some of the stream, or an error that the
-- program has, or waits in a read, and never runs out of the fuel of the model.
recv_event-Takes :
    (charset : Charset) (event_id : ℕ) (buff : Bytes) (socket : List Read)
    → Takes (length (buff ++ arriving socket)) (recv_event charset event_id buff socket)
unfolding recv_event
recv_event-Takes charset event_id buff socket =
    event_loop-Takes (suc (length (buff ++ arriving socket))) charset event_id buff socket
      (omega arith)

-- ===== src/Client/Session/EventIds.antt =====
-- rsfbclient-rust/src/client.rs, `new_event_id`: the ids of event registrations.
use Prim.Native.Nat.{max}
use rsfbclient.Base.{ℕ, ◌+◌, ◌%◌, ◌^◌, ◌<◌, ◌≡◌, refl, ◌≢◌, arith}
use rsfbclient.Reader.{done}
use rsfbclient.Client.Session.{Session, new_event_id}

-- An id of 32 bits that is not the 0 by which the server marks a registration as handled.
pub record IsEventId (n : ℕ) : Type 0 where
  pub not_zero : 0 < n
  pub small : n < 2 ^ 32

-- Where the next event id is a number of 32 bits other than 0, `new_event_id` answers it, and the next
-- one is such a number again, also behind the wrap-around, and another number than the one answered.
pub new_event_id-IsEventId :
    (s : Session)
    → IsEventId s.next_event_id
    → (s' : Session) × (new_event_id s ≡ done s.next_event_id s')
      × IsEventId s'.next_event_id
      × (s'.next_event_id ≢ s.next_event_id)
unfolding new_event_id
new_event_id-IsEventId s h = (
  record s { next_event_id = max ((s.next_event_id + 1) % 2 ^ 32) 1 },
  refl,
  record { not_zero = omega arith; small = omega arith },
  λ e. omega (arith, h.small, h.not_zero),
)

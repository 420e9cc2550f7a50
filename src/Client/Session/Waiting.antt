-- ===== src/Client/Session/Waiting.antt =====
-- rsfbclient-rust/src/client.rs, `wait_for_event`, with the event channel of the connection. The answers
-- of the operating system to the sockets that `EventChannel::open` asks for are a list.
use rsfbclient.Base.{
  ◌≡◌, ap, ◌∙◌, refl, ◌==◌, if◌then◌else◌, ℕ, Bool, false, Option, none, some, List, [], ◌∷◌, Bytes,
}
use rsfbclient.Error.{blocked, event_not_open, other, FbError, Result, ok, err}
use rsfbclient.Reader.{Outcome, done, failed, Parser, ◌>>=◌, ◌>>◌, pure, lift}
use rsfbclient.Wire.Accept.{parse_aux_port}
use rsfbclient.Wire.Requests
use rsfbclient.Events.{normalize_event_name, event_block, event_count}
use rsfbclient.Events.Channel.{Answer, answered, ended, recv_event}
use rsfbclient.Events.Channel
use rsfbclient.Client.Read.{Read}
use rsfbclient.Client.Session.{Session, Call, the, request, request_done, new_event_id}

pub record EventChannel : Type 0 where
  pub db_handle : ℕ
  pub buff : Bytes
  pub socket : List Read

-- `aux_sockets` are the answers to the auxiliary connections that are still to be opened.
pub record Listening : Type 0 where
  pub session : Session
  pub event_channel : Option EventChannel
  pub aux_sockets : List (Result (List Read))

abbrev pub on_main_of : {A : Type 0} → Listening → Outcome Session A → Outcome Listening A
on_main_of s (done a session) = done a (record s { session = session })
on_main_of s (failed e session) = failed e (record s { session = session })

unfoldable pub on_main : {A : Type 0} → Call A → Parser Listening A
on_main call s = on_main_of s (call s.session)

unfoldable pub close_event_channel : Parser Listening (Unit {0})
close_event_channel s = done tt (record s { event_channel = none })

-- `matches!(&self.event_channel, Some(channel) if channel.db_handle() == db_handle.0)`
abbrev pub is_open_for : ℕ → Option EventChannel → Bool
is_open_for db_handle none = false
is_open_for db_handle (some channel) = channel.db_handle == db_handle

-- `EventChannel::open`
abbrev pub opened_on : ℕ → List (Result (List Read)) → Parser Listening (Unit {0})
opened_on db_handle [] s = failed (other blocked) s
opened_on db_handle (err e ∷ aux_sockets) s = failed e (record s { aux_sockets = aux_sockets })
opened_on db_handle (ok socket ∷ aux_sockets) s = done tt (record s {
  event_channel = some (record { db_handle = db_handle; buff = []; socket = socket });
  aux_sockets = aux_sockets;
})

module _ (gds_to_msg : ℕ → Bytes) (db_handle : ℕ) where
  unfoldable pub open_event_channel : Parser Listening (Unit {0})
  open_event_channel s =
      if is_open_for db_handle s.event_channel
      then done tt s
      else (do
        close_event_channel
        resp ← on_main (request gds_to_msg (Requests.connect_request db_handle))
        port ← lift (parse_aux_port resp.contents)
        (λ s. opened_on db_handle s.aux_sockets s))
          s

  unfoldable pub cancel_events : ℕ → Call (Unit {0})
  cancel_events event_id = request_done gds_to_msg (Requests.cancel_events db_handle event_id)

  -- `self.cancel_events(…).ok(); Err(err)`
  abbrev pub cancelled : {A : Type 0} → FbError → Outcome Listening (Unit {0}) → Outcome Listening A
  cancelled e (done _ s) = failed e s
  cancelled e (failed (other blocked) s) = failed (other blocked) s
  cancelled e (failed _ s) = failed e s

  -- What the channel answered. On an error the registration is cancelled, whether or not that works.
  abbrev pub notified :
      ℕ → EventChannel → Answer (List (Bytes × ℕ)) → Parser Listening (List (Bytes × ℕ))
  notified event_id channel (answered counters buff socket) s =
      done counters
        (record s { event_channel = some (record channel { buff = buff; socket = socket }) })
  notified event_id channel (ended e buff socket) s =
      cancelled e (on_main (cancel_events event_id) (record s { event_channel = none }))
  notified event_id channel (Channel.blocked buff) s =
      failed (other blocked)
        (record s { event_channel = some (record channel { buff = buff; socket = [] }) })

  abbrev pub receive_on : ℕ → Option EventChannel → Parser Listening (List (Bytes × ℕ))
  receive_on event_id none s = failed (other event_not_open) s
  receive_on event_id (some channel) s =
      notified event_id channel (recv_event s.session.charset event_id channel.buff channel.socket)
        s

  unfoldable pub que_events : Bytes → ℕ → ℕ → Parser Listening (List (Bytes × ℕ))
  que_events name count event_id = do
    charset ← on_main (the (λ s. s.charset))
    epb ← lift (event_block charset ((name, count) ∷ []))
    on_main (request_done gds_to_msg (Requests.que_events db_handle epb event_id))
    (λ s. receive_on event_id s.event_channel s)

  unfoldable pub wait_for_event : Bytes → Parser Listening (Unit {0})
  wait_for_event name = do
    name' ← lift (normalize_event_name name)
    open_event_channel
    event_id ← on_main new_event_id
    counters ← que_events name' 0 event_id
    posted ← lift (event_count counters name')
    event_id' ← on_main new_event_id
    _ ← que_events name' posted event_id'
    pure tt

abbrev after : {A : Type 0} → Outcome Listening A → Listening
after (done a s) = s
after (failed e s) = s

cancelled-after :
    (A : Type 0) (gds_to_msg : ℕ → Bytes) (db_handle : ℕ) (e : FbError)
    (o : Outcome Listening (Unit {0}))
    → after {A = A} (cancelled gds_to_msg db_handle e o) ≡ after o
cancelled-after A gds_to_msg db_handle e (done u s) = refl
cancelled-after A gds_to_msg db_handle e (failed (other blocked) s) = refl
cancelled-after A gds_to_msg db_handle e (failed _ s) = refl

on_main_of-event_channel :
    {A : Type 0} (s : Listening) (o : Outcome Session A)
    → (after (on_main_of s o)).event_channel ≡ s.event_channel
on_main_of-event_channel s (done a session) = refl
on_main_of-event_channel s (failed e session) = refl

-- An error of the channel closes it, also where the registration cannot be cancelled.
notified-event_channel :
    (gds_to_msg : ℕ → Bytes) (db_handle event_id : ℕ) (channel : EventChannel) (e : FbError)
    (buff : Bytes) (socket : List Read) (s : Listening)
    → (after (notified gds_to_msg db_handle event_id channel (ended e buff socket) s)).event_channel
      ≡ none
unfolding on_main
notified-event_channel gds_to_msg db_handle event_id channel e buff socket s =
    ap (λ (l : Listening). l.event_channel)
      (cancelled-after (List (Bytes × ℕ)) gds_to_msg db_handle e
        (on_main (cancel_events gds_to_msg db_handle event_id) (record s { event_channel = none })))
    ∙ on_main_of-event_channel (record s { event_channel = none })
        (cancel_events gds_to_msg db_handle event_id s.session)

-- ===== src/Client/Session/Spending.antt =====
-- rsfbclient-rust/src/client.rs: how many writes the socket still takes behind a call.
use rsfbclient.Base.{◌==◌, Bool-cases, ℕ, ◌-◌, ◌<◌, inl, inr, ◌++◌, arith, Bytes}
use rsfbclient.Error.{Result, ok, err}
use rsfbclient.Reader.{Outcome, done, failed, chain, lift}
use rsfbclient.Client.Read.{Reply, replied, errored, waiting, read_with}
use rsfbclient.Client.Lazy.{response_closure}
use rsfbclient.Client.Session.{Session, Call, write_all, answered, reading, receive, request}

-- A successful call leaves less than `n` writes.
abbrev pub Spent : {A : Type 0} → ℕ → Outcome Session A → Type 0
Spent n (done a s) = s.writes < n
Spent n (failed e s) = Unit {0}

answered-Spent :
    {A : Type 0} (n : ℕ) (s : Session) (r : Reply A) → s.writes < n → Spent n (answered s r)
answered-Spent n s (replied a c) h = h
answered-Spent n s (errored e c) h = tt
answered-Spent n s (waiting c) h = tt

pub chain-Spent :
    {A B : Type 0} (n : ℕ) (o : Outcome Session A) (f : A → Call B)
    → Spent n o
    → ((a : A) (s : Session) → s.writes < n → Spent n (f a s))
    → Spent n (chain o f)
chain-Spent n (done a s) f h next = next a s h
chain-Spent n (failed e s) f h next = tt

pub lift-Spent :
    {A : Type 0} (n : ℕ) (s : Session) (r : Result A) → s.writes < n → Spent n (lift r s)
lift-Spent n s (ok d) h = h
lift-Spent n s (err e) h = tt

module _ (gds_to_msg : ℕ → Bytes) where
  pub request-Spent : (bytes : Bytes) (s : Session) → Spent s.writes (request gds_to_msg bytes s)
  unfolding request write_all receive reading
  request-Spent bytes s = elim (Bool-cases (s.writes == 0)) [
    | inl none_left ↦ rw none_left tt
    | inr some_left ↦ rw some_left (
        answered-Spent s.writes (record s { sent = s.sent ++ bytes; writes = s.writes - 1 })
          (read_with (response_closure gds_to_msg) s.conn) (ground arith))
  ]

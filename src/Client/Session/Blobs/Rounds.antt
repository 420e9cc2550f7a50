-- ===== src/Client/Session/Blobs/Rounds.antt =====
-- rsfbclient-rust/src/wire.rs, `into_column`: a round of the loop writes a request.
use mathlib.Core.Path.{subst}
use rsfbclient.Base.{◌==◌, if◌then◌else◌, ℕ, ◌<◌, Bool, true, false, ◌++◌, Bytes}
use rsfbclient.Error.{Result, ok, err}
use rsfbclient.Reader.{◌>>=◌, pure, lift}
use rsfbclient.Reader.Loop.{Next, again, stop}
use rsfbclient.Wire.Requests
use rsfbclient.Client.Session.{Session, request}
use rsfbclient.Client.Session.Turns.{Spends}
use rsfbclient.Client.Session.Spending.{Spent, chain-Spent, request-Spent}
use rsfbclient.Client.Session.Blobs.{segments, get_segment, blob_round}

lifted-Spent :
    (n : ℕ) (s : Session) (handle : ℕ) (r : Result Bytes)
    → s.writes < n
    → Spent {A = Bytes × Bool} n ((lift r >>= λ d. pure (d, handle == 2)) s)
lifted-Spent n s handle (ok d) h = h
lifted-Spent n s handle (err e) h = tt

ended-Spent :
    (n : ℕ) (s : Session) (so_far : Bytes) (segment : Bytes × Bool)
    → s.writes < n
    → Spent {A = Next Bytes Bytes} n (
        (if segment.1
            then pure (stop (so_far ++ segment.0))
            else pure (again (so_far ++ segment.0)))
          s)
ended-Spent n s so_far (d, true) h = h
ended-Spent n s so_far (d, false) h = h

module _ (gds_to_msg : ℕ → Bytes) where
  get_segment-Spent :
      (blob_handle : ℕ) (s : Session) → Spent s.writes (get_segment gds_to_msg blob_handle s)
  unfolding get_segment
  get_segment-Spent blob_handle s =
      chain-Spent s.writes (request gds_to_msg (Requests.get_segment blob_handle) s) _
        (request-Spent gds_to_msg (Requests.get_segment blob_handle) s)
        (λ resp s' h. lifted-Spent s.writes s' resp.handle (segments resp.contents) h)

  blob_round-Spent :
      (blob_handle : ℕ) (so_far : Bytes) (s : Session)
      → Spent s.writes (blob_round gds_to_msg blob_handle so_far s)
  unfolding blob_round
  blob_round-Spent blob_handle so_far s =
      chain-Spent s.writes (get_segment gds_to_msg blob_handle s) _
        (get_segment-Spent blob_handle s) (λ segment s' h. ended-Spent s.writes s' so_far segment h)

  pub blob_round-Spends : (blob_handle : ℕ) → Spends (blob_round gds_to_msg blob_handle)
  blob_round-Spends blob_handle = record {
    at = λ {v} {v'} {s} {s'} e. subst (Spent s.writes) e (blob_round-Spent blob_handle v s);
  }

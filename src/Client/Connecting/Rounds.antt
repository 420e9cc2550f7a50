-- ===== src/Client/Connecting/Rounds.antt =====
-- rsfbclient-rust/src/client.rs, the loop of `connect`: a round that goes on writes a request.
use mathlib.Core.Path.{subst}
use rsfbclient.Base.{
  ◌==◌, Bool-cases, if◌then◌else◌, ℕ, ◌-◌, ◌<◌, ◌≡◌, inl, inr, Bool, Option, none, some, [], ◌++◌,
  arith, Bytes,
}
use rsfbclient.Consts.{plugin_list}
use rsfbclient.Reader.{Outcome, done, failed, chain, pure}
use rsfbclient.Reader.Loop.{Next, again, stop}
use rsfbclient.Wire.Accept.{SrpAuthData, AuthPlugin, parse_cont_auth}
use rsfbclient.Wire.Requests.{cont_auth}
use rsfbclient.Client.Read.{Reply, replied, errored, waiting, read_with}
use rsfbclient.Client.Lazy.{on_resp}
use rsfbclient.Client.Session.{Session, write_all, answered, reading}
use rsfbclient.Client.Session.Turns.{carry_on, turn_loop, Spends, turn_loop_unroll}
use rsfbclient.Client.Connecting.{Crypto, srp_auth, srp_client, auth_with, auth_round}

-- An outcome that goes on leaves less than `n` writes.
abbrev GoesOn : ℕ → Outcome Session (Next AuthPlugin AuthPlugin) → Type 0
GoesOn n (done (again v) s) = s.writes < n
GoesOn n (done (stop a) s) = Unit {0}
GoesOn n (failed e s) = Unit {0}

stopping-GoesOn :
    (n : ℕ) (a : AuthPlugin) (o : Outcome Session (Unit {0}))
    → GoesOn n (chain o (λ _. pure (stop a)))
stopping-GoesOn n a (done u s) = tt
stopping-GoesOn n a (failed e s) = tt

answered-GoesOn :
    (n : ℕ) (s : Session) (r : Reply AuthPlugin)
    → s.writes < n
    → GoesOn n (chain (answered s r) (λ v. pure (again v)))
answered-GoesOn n s (replied v c) h = h
answered-GoesOn n s (errored e c) h = tt
answered-GoesOn n s (waiting c) h = tt

module _ (gds_to_msg : ℕ → Bytes) (crypto : Crypto) (srp_key user pass : Bytes)
    (continue_auth : Bool) where
  -- The session behind the request of a round.
  abbrev asking : AuthPlugin → Session → Session
  asking plugin s = record s {
    sent =
        s.sent
        ++ cont_auth
            (crypto.hex_encode
              (crypto.big.to_bytes_be (srp_client gds_to_msg crypto srp_key user pass).a_pub))
            plugin.kind plugin_list [];
    writes = s.writes - 1;
  }

  auth_with-GoesOn :
      (plugin : AuthPlugin) (auth_data : Option SrpAuthData) (s : Session)
      → GoesOn s.writes
          (auth_with gds_to_msg crypto srp_key user pass continue_auth plugin auth_data s)
  unfolding auth_with
  auth_with-GoesOn plugin (some auth_data) s = stopping-GoesOn s.writes plugin (
      (if continue_auth
          then srp_auth gds_to_msg crypto (srp_client gds_to_msg crypto srp_key user pass)
              plugin.kind user pass auth_data
          else pure tt)
        s)
  auth_with-GoesOn plugin none s = elim (Bool-cases (s.writes == 0)) [
    | inl none_left ↦ unfold write_all in rw none_left tt
    | inr some_left ↦
        unfold write_all reading in
        rw some_left (
          answered-GoesOn s.writes (asking plugin s)
            (read_with (on_resp (parse_cont_auth crypto.hex_decode gds_to_msg)) s.conn)
            (ground arith))
  ]

  auth_round-Spends : Spends (auth_round gds_to_msg crypto srp_key user pass continue_auth)
  unfolding auth_round
  auth_round-Spends = record {
    at = λ {v} {v'} {s} {s'} e. subst (GoesOn s.writes) e (auth_with-GoesOn v v.auth_data s);
  }

  -- The loop of `connect` is its first round, and the loop again where the round goes on, on every
  -- connection.
  auth_round_unroll :
      (plugin : AuthPlugin) (s : Session)
      → turn_loop (auth_round gds_to_msg crypto srp_key user pass continue_auth) plugin s
        ≡ carry_on
            (turn_loop (auth_round gds_to_msg crypto srp_key user pass continue_auth))
            (auth_round gds_to_msg crypto srp_key user pass continue_auth plugin s)
  auth_round_unroll plugin s = turn_loop_unroll auth_round-Spends plugin s

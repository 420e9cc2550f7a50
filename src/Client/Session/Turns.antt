-- ===== src/Client/Session/Turns.antt =====
-- rsfbclient-rust/src/client.rs: the loops that ask the server in every round. A round that goes on has
-- written a request, so the writes that the socket still takes and one round more are enough rounds.
use rsfbclient.Base.{ℕ, zero, suc, ◌≤◌, ◌<◌, ◌≡◌, refl, arith}
use rsfbclient.Error.{out_of_fuel, other}
use rsfbclient.Reader.{Outcome, done, failed}
use rsfbclient.Reader.Loop.{Next, again, stop}
use rsfbclient.Client.Session.{Session, Call}

module _ {V A : Type 0} where
  unfoldable pub carry_on : (V → Call A) → Outcome Session (Next V A) → Outcome Session A
  carry_on rest (done (again v) s) = rest v s
  carry_on rest (done (stop a) s) = done a s
  carry_on rest (failed e s) = failed e s

module _ {V A : Type 0} (body : V → Call (Next V A)) where
  turns : ℕ → V → Call A
  unfolding carry_on
  turns zero v s = failed (other out_of_fuel) s
  turns (suc n) v s = carry_on (turns n) (body v s)

  unfoldable pub turn_loop : V → Call A
  unfolding turns
  turn_loop v s = turns (suc s.writes) v s

-- A round that goes on leaves fewer writes.
pub record Spends {A V : Type 0} (body : V → Call (Next V A)) : Type 0 where
  pub at : {v v' : V} {s s' : Session} → body v s ≡ done (again v') s' → s'.writes < s.writes

module _ {A V : Type 0} {body : V → Call (Next V A)} (spends : Spends body) where
  turns-carry_on :
      (n m : ℕ) (v : V) (s : Session) (o : Outcome Session (Next V A))
      → body v s ≡ o
      → ((v' : V) (s' : Session) → s'.writes < s.writes → turns body n v' s' ≡ turns body m v' s')
      → carry_on (turns body n) o ≡ carry_on (turns body m) o
  unfolding carry_on
  turns-carry_on n m v s (done (again v') s') e ih = ih v' s' (spends.at e)
  turns-carry_on n m v s (done (stop a) s') e ih = refl
  turns-carry_on n m v s (failed x s') e ih = refl

  turns_fuel :
      (n m : ℕ) (v : V) (s : Session)
      → s.writes < n
      → s.writes < m
      → turns body n v s ≡ turns body m v s
  unfolding turns
  turns_fuel zero m v s hn hm = absurd (omega arith)
  turns_fuel (suc n) zero v s hn hm = absurd (omega arith)
  turns_fuel (suc n) (suc m) v s hn hm =
      turns-carry_on n m v s (body v s) refl
        (λ v' s' h. turns_fuel n m v' s' (omega arith) (omega arith))

  turns-turn_loop :
      (n : ℕ) (v : V) (s : Session) (o : Outcome Session (Next V A))
      → body v s ≡ o
      → s.writes ≤ n
      → carry_on (turns body n) o ≡ carry_on (turn_loop body) o
  unfolding carry_on turn_loop
  turns-turn_loop n v s (done (again v') s') e h =
      let fewer : s'.writes < s.writes = spends.at e in
      turns_fuel n (suc s'.writes) v' s' (omega arith) (omega arith)
  turns-turn_loop n v s (done (stop a) s') e h = refl
  turns-turn_loop n v s (failed x s') e h = refl

  -- One round, and the loop again if it says so.
  pub turn_loop_unroll :
      (v : V) (s : Session) → turn_loop body v s ≡ carry_on (turn_loop body) (body v s)
  unfolding turn_loop
  turn_loop_unroll v s = unfold turns in turns-turn_loop s.writes v s (body v s) refl (omega arith)

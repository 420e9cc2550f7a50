-- ===== src/Reader/Loop.antt =====
-- The `loop` and `while` statements that read a buffer until a round says to stop. Each round that
-- goes on has moved the cursor, so a buffer's length and one round more are enough rounds.
pub mod Laws
use rsfbclient.Base.{length, ℕ, zero, suc, Bytes}
use rsfbclient.Error.{out_of_fuel, other}
use rsfbclient.Reader.{Outcome, done, failed, Parser}

-- The end of a round: go on with the loop's variables, or `break` with a value.
pub data Next {ℓ} (V A : Type ℓ) : Type ℓ where
  again : V → Next V A
  stop : A → Next V A

module _ {V A : Type 0} where
  unfoldable pub resume : (V → Parser Bytes A) → Outcome Bytes (Next V A) → Outcome Bytes A
  resume rest (done (again v) s) = rest v s
  resume rest (done (stop a) s) = done a s
  resume rest (failed e s) = failed e s

module _ {V A : Type 0} (body : V → Parser Bytes (Next V A)) where
  iterate : ℕ → V → Parser Bytes A
  unfolding resume
  iterate zero v s = failed (other out_of_fuel) s
  iterate (suc n) v s = resume (iterate n) (body v s)

  unfoldable pub loop : V → Parser Bytes A
  unfolding iterate
  loop v s = iterate (suc (length s)) v s

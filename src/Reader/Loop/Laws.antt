-- ===== src/Reader/Loop/Laws.antt =====
-- The fuel of a loop whose rounds move the cursor, and its stability.
use rsfbclient.Base.{length, length-append, ℕ, zero, suc, ◌≤◌, ◌<◌, ◌≡◌, refl, ◌++◌, arith, Bytes}
use rsfbclient.Reader.{Outcome, done, failed, Parser, bytes_stream}
use rsfbclient.Reader.Stable.{Agrees, Stable, failed-Agrees, Agrees-failed}
use rsfbclient.Reader.Loop.{Next, again, stop, resume, loop, iterate}

-- A round that goes on leaves fewer bytes.
pub record Shrinks {A V : Type 0} (body : V → Parser Bytes (Next V A)) : Type 0 where
  pub at : {v v' : V} {s s' : Bytes} → body v s ≡ done (again v') s' → length s' < length s

module _ {A V : Type 0} {body : V → Parser Bytes (Next V A)} (shrinks : Shrinks body) where
  iterate-resume :
      (n m : ℕ) (v : V) (s : Bytes) (o : Outcome Bytes (Next V A))
      → body v s ≡ o
      → ((v' : V) (s' : Bytes) → length s' < length s → iterate body n v' s' ≡ iterate body m v' s')
      → resume (iterate body n) o ≡ resume (iterate body m) o
  unfolding resume
  iterate-resume n m v s (done (again v') s') e ih = ih v' s' (shrinks.at e)
  iterate-resume n m v s (done (stop a) s') e ih = refl
  iterate-resume n m v s (failed x s') e ih = refl

  iterate_fuel :
      (n m : ℕ) (v : V) (s : Bytes)
      → length s < n
      → length s < m
      → iterate body n v s ≡ iterate body m v s
  unfolding iterate
  iterate_fuel zero m v s hn hm = absurd (omega arith)
  iterate_fuel (suc n) zero v s hn hm = absurd (omega arith)
  iterate_fuel (suc n) (suc m) v s hn hm =
      iterate-resume n m v s (body v s) refl
        (λ v' s' h. iterate_fuel n m v' s' (omega arith) (omega arith))

  iterate-loop :
      (n : ℕ) (v : V) (s : Bytes) (o : Outcome Bytes (Next V A))
      → body v s ≡ o
      → length s ≤ n
      → resume (iterate body n) o ≡ resume (loop body) o
  unfolding resume loop
  iterate-loop n v s (done (again v') s') e h =
      let shorter : length s' < length s = shrinks.at e in
      iterate_fuel n (suc (length s')) v' s' (omega arith) (omega arith)
  iterate-loop n v s (done (stop a) s') e h = refl
  iterate-loop n v s (failed x s') e h = refl

  -- One round, and the loop again if it says so: the loop is the source's, with no fuel to see.
  pub loop_unroll : (v : V) (s : Bytes) → loop body v s ≡ resume (loop body) (body v s)
  loop_unroll v s = unfold loop iterate in iterate-loop (length s) v s (body v s) refl (omega arith)

  module _ (more : Bytes) where
    resume-Agrees :
        (n m : ℕ) (v : V) (s : Bytes) (o later : Outcome Bytes (Next V A))
        → body v s ≡ o
        → Agrees more o later
        → ((v' : V) (s' : Bytes)
            → length s' < length s
            → Agrees more (iterate body n v' s') (iterate body m v' (s' ++ more)))
        → Agrees more (resume (iterate body n) o) (resume (iterate body m) later)
    unfolding resume
    resume-Agrees n m v s (done (again v') s') later e h ih = rw h (ih v' s' (shrinks.at e))
    resume-Agrees n m v s (done (stop a) s') later e h ih = rw h
    resume-Agrees n m v s (failed x s') later e h ih =
        failed-Agrees x s' more _ (λ c. rw (Agrees-failed x s' more later h c))

    iterate-Agrees :
        ((v : V) → Stable (body v))
        → (n m : ℕ) (v : V) (s : Bytes) → length s < n
        → length (s ++ more) < m
        → Agrees more (iterate body n v s) (iterate body m v (s ++ more))
    unfolding iterate
    iterate-Agrees stable zero m v s hn hm = absurd (omega arith)
    iterate-Agrees stable (suc n) zero v s hn hm = absurd (omega arith)
    iterate-Agrees stable (suc n) (suc m) v s hn hm =
        resume-Agrees n m v s (body v s) _ refl ((stable v).at s more) (λ v' s' h.
          iterate-Agrees stable n m v' s' (omega arith)
            (omega (arith, length-append s more, length-append s' more)))

  pub Stable-loop : ((v : V) → Stable (body v)) → (v : V) → Stable (loop body v)
  unfolding loop
  Stable-loop stable v = record {
    at = λ s more.
        iterate-Agrees more stable (suc (length s)) (suc (length (s ++ more))) v s (omega arith)
          (omega arith);
  }

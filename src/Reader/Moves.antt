-- ===== src/Reader/Moves.antt =====
-- How far a parser moves the cursor: never back, or by a byte at least.
use rsfbclient.Base.{if◌then◌else◌, length, ◌≤◌, ◌<◌, ◌≡◌, refl, Bool, true, false, arith, Bytes}
use rsfbclient.Error.{Message, Result, ok, err}
use rsfbclient.Reader.{Outcome, done, failed, Parser, chain, ◌>>=◌, pure, fail, lift}
use rsfbclient.Reader.Loop.{Next}
use rsfbclient.Reader.Loop.Laws.{Shrinks}

-- A successful `p` leaves no more bytes than it met.
pub record Forward {A : Type 0} (p : Parser Bytes A) : Type 0 where
  pub at : {a : A} {s s' : Bytes} → p s ≡ done a s' → length s' ≤ length s

-- A successful `p` leaves fewer bytes than it met.
pub record Takes {A : Type 0} (p : Parser Bytes A) : Type 0 where
  pub at : {a : A} {s s' : Bytes} → p s ≡ done a s' → length s' < length s

module _ {A : Type 0} where
  pub Forward-pure : (a : A) → Forward (pure a)
  Forward-pure a = record { at = λ e. ground arith }

  pub Forward-fail : (m : Message) → Forward (fail {A = A} m)
  Forward-fail m = record { at = λ e. cc }

  pub Forward-lift : (r : Result A) → Forward (lift r)
  Forward-lift (ok a) = Forward-pure a
  Forward-lift (err e) = record { at = λ h. cc }

  pub Forward-if :
      (b : Bool) (p q : Parser Bytes A) → Forward p → Forward q → Forward (if b then p else q)
  Forward-if true p q hp hq = hp
  Forward-if false p q hp hq = hq

  pub Takes-Forward : (p : Parser Bytes A) → Takes p → Forward p
  Takes-Forward p h = record { at = λ e. omega (arith, h.at e) }

module _ {A B : Type 0} where
  chain_done :
      (o : Outcome Bytes A) (f : A → Parser Bytes B) {b : B} {s' : Bytes}
      → chain o f ≡ done b s'
      → (a : A) × (s : Bytes) × (o ≡ done a s) × (f a s ≡ done b s')
  chain_done (done a s) f h = (a, s, refl, h)
  chain_done (failed e s) f h = cc

  pub Forward-bind :
      (p : Parser Bytes A) (f : A → Parser Bytes B)
      → Forward p
      → ((a : A) → Forward (f a))
      → Forward (p >>= f)
  Forward-bind p f hp hf = record {
    at = λ {s = s} e.
        let (a, m, first, rest) = chain_done (p s) f e in
        omega (arith, hp.at first, (hf a).at rest);
  }

  pub Takes-bind :
      (p : Parser Bytes A) (f : A → Parser Bytes B)
      → Takes p
      → ((a : A) → Forward (f a))
      → Takes (p >>= f)
  Takes-bind p f hp hf = record {
    at = λ {s = s} e.
        let (a, m, first, rest) = chain_done (p s) f e in
        omega (arith, hp.at first, (hf a).at rest);
  }

pub Takes-Shrinks :
    {V A : Type 0} (body : V → Parser Bytes (Next V A)) → ((v : V) → Takes (body v)) → Shrinks body
Takes-Shrinks body h = record { at = λ {v} e. (h v).at e }

pub ruleset forward_rules = (Forward-pure, Forward-fail, Forward-lift, Forward-if, Forward-bind)

-- ===== src/Reader/Stable.antt =====
-- Parsers whose answer does not change when more bytes arrive behind their input.
use rsfbclient.Base.{if◌then◌else◌, Bool-cases, ◌≡◌, refl, inl, inr, Bool, true, false, Bytes}
use rsfbclient.Error.{Message, FbError, other, is_incomplete, Result, ok, err}
use rsfbclient.Reader.{
  Outcome, done, failed, Parser, chain, ◌>>=◌, pure, fail, lift, Stream, bytes_stream,
}

-- `later` is the answer to the same input with `more` behind it. An answer "incomplete" says
-- nothing of it.
abbrev pub Agrees {ℓ} :
    {S A : Type ℓ} ⦃stream : Stream S⦄ → Bytes → Outcome S A → Outcome S A → Type ℓ
Agrees ⦃stream⦄ more (done a s) later = later ≡ done a (stream.extend s more)
Agrees ⦃stream⦄ more (failed e s) later =
    if is_incomplete e then Unit else (later ≡ failed e (stream.extend s more))

pub record Stable {ℓ} {S A : Type ℓ} ⦃stream : Stream S⦄ (p : Parser S A) : Type ℓ where
  pub at : (s : S) (more : Bytes) → Agrees more (p s) (p (stream.extend s more))

module _ {ℓ} {S A : Type ℓ} ⦃stream : Stream S⦄ (e : FbError) (s : S) (more : Bytes)
    (later : Outcome S A) where
  pub failed-Agrees :
      (is_incomplete e ≡ false → later ≡ failed e (stream.extend s more))
      → Agrees more (failed e s) later
  failed-Agrees h = elim (Bool-cases (is_incomplete e)) [ inl i ↦ rw i tt | inr c ↦ rw c (h c) ]

  -- An error other than "incomplete" is the answer to the longer input too.
  pub Agrees-failed :
      Agrees more (failed e s) later
      → is_incomplete e ≡ false
      → later ≡ failed e (stream.extend s more)
  Agrees-failed h c = rw c at h

module _ {ℓ} {S A : Type ℓ} ⦃stream : Stream S⦄ where
  pub Stable-pure : (a : A) → Stable (pure {S = S} a)
  Stable-pure a = record { at = λ s more. refl }

  pub Stable-fail : (m : Message) → Stable (fail {S = S} {A = A} m)
  Stable-fail m = record { at = λ s more. failed-Agrees (other m) s more _ (λ c. refl) }

  pub Stable-lift : (r : Result A) → Stable (lift {S = S} r)
  Stable-lift (ok a) = Stable-pure a
  Stable-lift (err e) = record { at = λ s more. failed-Agrees e s more _ (λ c. refl) }

  pub Stable-if :
      (b : Bool) (p q : Parser S A)
      → (b ≡ true → Stable p)
      → (b ≡ false → Stable q)
      → Stable (if b then p else q)
  Stable-if true p q hp hq = hp refl
  Stable-if false p q hp hq = hq refl

module _ {ℓ} {S A B : Type ℓ} ⦃stream : Stream S⦄ where
  chain-Agrees :
      (o later : Outcome S A) (f : A → Parser S B) (more : Bytes)
      → ((a : A) → Stable (f a))
      → Agrees more o later
      → Agrees more (chain o f) (chain later f)
  chain-Agrees (done a s) later f more hf h = rw h ((hf a).at s more)
  chain-Agrees (failed e s) later f more hf h =
      failed-Agrees e s more _ (λ c. rw (Agrees-failed e s more later h c))

  pub Stable-bind :
      (p : Parser S A) (f : A → Parser S B) → Stable p → ((a : A) → Stable (f a)) → Stable (p >>= f)
  Stable-bind p f hp hf = record { at = λ s more. chain-Agrees (p s) _ f more hf (hp.at s more) }

pub ruleset stable_rules = (Stable-pure, Stable-fail, Stable-lift, Stable-if, Stable-bind)

-- ===== src/Api/Keeps.antt =====
-- What calls leave as it is, whether they succeed or fail: one rule for each way to build a call.
use rsfbclient.Base.{if◌then◌else◌, ◌≡◌, refl, ◌∙◌, Bool, true, false}
use rsfbclient.Error.{FbError, Result, ok, err}
use rsfbclient.Reader.{Outcome, done, failed, Parser, chain, ◌>>=◌, pure, lift}
use rsfbclient.Api.State.{focus, attempt, ignored, asks, modify, put_back, kept}

abbrev pub state_of : {S A : Type 0} → Outcome S A → S
state_of (done a s) = s
state_of (failed e s) = s

-- `p` leaves what `view` shows of the state.
pub record Keeps {S V A : Type 0} (view : S → V) (p : Parser S A) : Type 0 where
  pub at : (s : S) → view (state_of (p s)) ≡ view s

module _ {S A : Type 0} where
  state_of-kept : (o : Outcome S A) → state_of (kept o) ≡ state_of o
  state_of-kept (done a s) = refl
  state_of-kept (failed e s) = refl

module _ {S V A : Type 0} {view : S → V} where
  pub Keeps-pure : (a : A) → Keeps view (pure a)
  Keeps-pure a = record { at = λ s. refl }

  pub Keeps-lift : (r : Result A) → Keeps view (lift r)
  Keeps-lift (ok a) = record { at = λ s. refl }
  Keeps-lift (err e) = record { at = λ s. refl }

  pub Keeps-asks : (f : S → A) → Keeps view (asks f)
  Keeps-asks f = record { at = λ s. refl }

  pub Keeps-if :
      (b : Bool) (p q : Parser S A) → Keeps view p → Keeps view q → Keeps view (if b then p else q)
  Keeps-if true p q hp hq = hp
  Keeps-if false p q hp hq = hq

  pub Keeps-attempt : (p : Parser S A) → Keeps view p → Keeps view (attempt p)
  Keeps-attempt p h = record { at = λ s. rw state_of-kept (h.at s) }

module _ {S V : Type 0} {view : S → V} where
  pub Keeps-modify : (f : S → S) → ((s : S) → view (f s) ≡ view s) → Keeps view (modify f)
  Keeps-modify f h = record { at = h }

module _ {S V A B : Type 0} {view : S → V} where
  chain-Keeps :
      (o : Outcome S A) (f : A → Parser S B)
      → ((a : A) → Keeps view (f a))
      → view (state_of (chain o f)) ≡ view (state_of o)
  chain-Keeps (done a s) f h = (h a).at s
  chain-Keeps (failed e s) f h = refl

  pub Keeps-bind :
      (p : Parser S A) (f : A → Parser S B)
      → Keeps view p
      → ((a : A) → Keeps view (f a))
      → Keeps view (p >>= f)
  Keeps-bind p f hp hf = record { at = λ s. chain-Keeps (p s) f hf ∙ hp.at s }

put_back-view :
    {S T V A : Type 0} (view : S → V) (put : T → S → S) (s : S) (o : Outcome T A)
    → view (state_of (put_back put s o)) ≡ view (put (state_of o) s)
put_back-view view put s (done a t) = refl
put_back-view view put s (failed e t) = refl

module _ {S T V W A : Type 0} {view : S → V} where
  -- A call that keeps `part` of what it is focused on, where that decides what shows.
  pub Keeps-focus :
      (get : S → T) (put : T → S → S) (p : Parser T A) (part : T → W)
      → Keeps part p
      → ((s : S) (t : T) → part t ≡ part (get s) → view (put t s) ≡ view s)
      → Keeps view (focus get put p)
  Keeps-focus get put p part h same = record {
    at = λ s. put_back-view view put s (p (get s)) ∙ same s (state_of (p (get s))) (h.at (get s));
  }

module _ {S T V A : Type 0} {view : S → V} where
  -- A call on a part that does not show.
  pub Keeps-hidden :
      (get : S → T) (put : T → S → S) (p : Parser T A)
      → ((s : S) (t : T) → view (put t s) ≡ view s)
      → Keeps view (focus get put p)
  Keeps-hidden get put p same = record {
    at = λ s. put_back-view view put s (p (get s)) ∙ same s (state_of (p (get s)));
  }

module _ {S V A : Type 0} {view : S → V} where
  pub Keeps-ignored : (p : Parser S A) → Keeps view p → Keeps view (ignored p)
  Keeps-ignored p h = Keeps-bind _ _ (Keeps-attempt p h) (λ _. Keeps-pure tt)

abbrev pub Ends : {S A : Type 0} → (A → S → Type 0) → (FbError → S → Type 0) → Outcome S A → Type 0
Ends P E (done a s) = P a s
Ends P E (failed e s) = E e s

-- What holds of the answer and the state if a call succeeds, and of its error and the state if not.
pub record After {S A : Type 0} (P : A → S → Type 0) (E : FbError → S → Type 0) (o : Outcome S A)
    : Type 0 where
  pub holds : Ends P E o

module _ {S A B : Type 0} {P : A → S → Type 0} {Q : B → S → Type 0} {E : FbError → S → Type 0} where
  pub After-chain :
      (o : Outcome S A) (f : A → Parser S B)
      → After P E o
      → ((a : A) (s : S) → P a s → After Q E (f a s))
      → After Q E (chain o f)
  After-chain (done a s) f h k = k a s h.holds
  After-chain (failed e s) f h k = record { holds = h.holds }

pub ruleset keeps_rules = (Keeps-pure, Keeps-lift, Keeps-asks, Keeps-if, Keeps-attempt, Keeps-bind)

-- ===== src/Error/Chain.antt =====
-- `?` on results that touch no stream.
use mathlib.Core.Path.{◌≡◌, refl}
use rsfbclient.Error.{Result, ok, err}

infixl 5 ◌>>=◌
abbrev pub ◌>>=◌ {ℓ κ} : {A : Type ℓ} {B : Type κ} → Result A → (A → Result B) → Result B
ok a >>= f = f a
err e >>= f = err e

-- A chain that answers a value has the value of its first step.
pub chain_value {ℓ} :
    {A B : Type ℓ} (f : A → Result B) (m : Result A) (b : B)
    → ok b ≡ (m >>= f)
    → (a : A) × ((ok a ≡ m) × (ok b ≡ f a))
chain_value f (err e) b answered = cc
chain_value f (ok a) b answered = (a, (refl, answered))

pub ok-injective {ℓ} : {A : Type ℓ} {a b : A} → ok a ≡ ok b → a ≡ b
ok-injective h = cc

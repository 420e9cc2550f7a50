-- ===== src/Reader.antt =====
-- The reading side of the wire: a parser takes a stream and answers with a value or an error, and
-- with the stream as it left it (`&mut Bytes` in rsfbclient-rust/src/util.rs keeps what an error
-- had consumed, and rsfbclient-rust/src/client.rs `read_with` commits it).
pub mod Stable
pub mod Loop
pub mod Moves
use rsfbclient.Base.{Bool, true, false, Bytes, ◌++◌}
use rsfbclient.Error.{FbError, Message, other, Result, ok, err}

pub data Outcome {ℓ} (S A : Type ℓ) : Type ℓ where
  done : A → S → Outcome S A
  failed : FbError → S → Outcome S A

abbrev pub Parser {ℓ} : Type ℓ → Type ℓ → Type ℓ
Parser S A = S → Outcome S A

module _ {ℓ} {S A B : Type ℓ} where
  abbrev pub chain : Outcome S A → (A → Parser S B) → Outcome S B
  chain (done a s) f = f a s
  chain (failed e s) f = failed e s

infixl 5 ◌>>=◌ ◌>>◌
abbrev pub ◌>>=◌ {ℓ} : {S A B : Type ℓ} → Parser S A → (A → Parser S B) → Parser S B
◌>>=◌ p f s = chain (p s) f

abbrev pub ◌>>◌ {ℓ} : {S A B : Type ℓ} → Parser S A → Parser S B → Parser S B
p >> q = p >>= λ _. q

abbrev pub pure {ℓ} : {S A : Type ℓ} → A → Parser S A
pure a s = done a s

-- `Err(message.into())`
abbrev pub fail {ℓ} : {S A : Type ℓ} → Message → Parser S A
fail m s = failed (other m) s

-- `e?` where `e` is a result that reads nothing.
abbrev pub lift {ℓ} : {S A : Type ℓ} → Result A → Parser S A
lift (ok a) s = done a s
lift (err e) s = failed e s

-- A stream that more bytes can be appended to.
pub record Stream {ℓ} (S : Type ℓ) : Type ℓ where
  pub extend : S → Bytes → S

instance abbrev pub bytes_stream : Stream Bytes
bytes_stream = record { extend = ◌++◌ }

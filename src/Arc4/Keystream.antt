-- ===== src/Arc4/Keystream.antt =====
-- rsfbclient-rust/src/arc4.rs: `process`, in pieces and applied twice.
use mathlib.Core.Path.{ap₂}
use rsfbclient.Base.{
  ◌==◌, if◌then◌else◌, All, ℕ, zero, suc, ◌<◌, bit_xor, ◌≡◌, refl, ap, Bool, true, false, [], ◌∷◌,
  ◌++◌, arith, Bytes,
}
use rsfbclient.Arc4.{Arc4, step, key_byte, process}
use rsfbclient.Arc4.Bounds.{IsValid, next-IsValid}

-- Whether a key byte undoes itself on every byte below a bound, and whether all key bytes below a
-- bound do so on all bytes.
undoes : ℕ → ℕ → Bool
undoes key zero = true
undoes key (suc byte) =
    let lower = undoes key byte in if bit_xor (bit_xor byte key) key == byte then lower else false

all_undo : ℕ → Bool
all_undo zero = true
all_undo (suc key) = let lower = all_undo key in if undoes key 256 then lower else false

undoes-xor :
    (key bound byte : ℕ)
    → undoes key bound ≡ true
    → byte < bound
    → bit_xor (bit_xor byte key) key ≡ byte
unfolding undoes
undoes-xor key zero byte good small = absurd (omega arith)
undoes-xor key (suc bound) byte good small = ground (arith, undoes-xor key bound byte)

all_undo-undoes : (bound key : ℕ) → all_undo bound ≡ true → key < bound → undoes key 256 ≡ true
unfolding all_undo
all_undo-undoes zero key good small = absurd (omega arith)
all_undo-undoes (suc bound) key good small = ground (arith, all_undo-undoes bound key)

bytes_undo : all_undo 256 ≡ true
unfolding all_undo undoes
bytes_undo = refl

xor_twice : (byte key : ℕ) → byte < 256 → key < 256 → bit_xor (bit_xor byte key) key ≡ byte
xor_twice byte key hb hk = undoes-xor key 256 byte (all_undo-undoes 256 key bytes_undo hk) hb

-- Processing a text is processing its front, and then its back with the cipher that is left.
pub process-append :
    (rc4 : Arc4) (xs ys : Bytes)
    → (process rc4 (xs ++ ys)).0 ≡ (process rc4 xs).0 ++ (process (process rc4 xs).1 ys).0
unfolding process
process-append rc4 [] ys = refl
process-append rc4 (x ∷ xs) ys =
    ap (◌∷◌ (bit_xor x (key_byte (step rc4)))) (process-append (step rc4) xs ys)

pub process-append_state :
    (rc4 : Arc4) (xs ys : Bytes) → (process rc4 (xs ++ ys)).1 ≡ (process (process rc4 xs).1 ys).1
unfolding process
process-append_state rc4 [] ys = refl
process-append_state rc4 (x ∷ xs) ys = process-append_state (step rc4) xs ys

-- The cipher is its own inverse: from the same valid state, processing the output gives the input
-- back, for an input of bytes. Both calls leave the cipher in the same state.
pub process-process :
    (rc4 : Arc4) (xs : Bytes)
    → IsValid rc4
    → All (λ b. b < 256) xs
    → ((process rc4 (process rc4 xs).0).0 ≡ xs)
      × ((process rc4 (process rc4 xs).0).1 ≡ (process rc4 xs).1)
unfolding process
process-process rc4 [] v h = (refl, refl)
process-process rc4 (x ∷ xs) v (h, hs) =
    let (key_lt, v') = next-IsValid rc4 v in
    let (same, state) = process-process (step rc4) xs v' hs in
    (ap₂ ◌∷◌ (xor_twice x (key_byte (step rc4)) h key_lt) same, state)

pub process-IsValid : (rc4 : Arc4) (xs : Bytes) → IsValid rc4 → IsValid (process rc4 xs).1
unfolding process
process-IsValid rc4 [] v = v
process-IsValid rc4 (x ∷ xs) v = process-IsValid (step rc4) xs (next-IsValid rc4 v).1

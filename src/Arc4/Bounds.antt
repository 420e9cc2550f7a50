-- ===== src/Arc4/Bounds.antt =====
-- rsfbclient-rust/src/arc4.rs: the ranges of the cipher's indices and bytes.
use rsfbclient.Base.{
  length, get_or, set, All, ℕ, zero, suc, ◌+◌, ◌%◌, ◌≤◌, ◌<◌, ◌≡◌, refl, ap, ◌∙◌, ◌⊎◌, Option, none,
  some, List, [], ◌∷◌, arith, Bytes,
}
use rsfbclient.Arc4.{
  Arc4, wrapping_add, swap, initial, new, step, key_byte, next, identity, schedule,
}

pub record IsValid (rc4 : Arc4) : Type 0 where
  pub i_lt : rc4.i < 256
  pub j_lt : rc4.j < 256
  pub size : length rc4.state ≡ 256
  pub all_bytes : All (λ b. b < 256) rc4.state

length-set : (xs : List ℕ) (i v : ℕ) → length (set xs i v) ≡ length xs
length-set [] i v = refl
length-set (x ∷ xs) zero v = refl
length-set (x ∷ xs) (suc i) v = ap suc (length-set xs i v)

All-set :
    (xs : List ℕ) (i v : ℕ) → v < 256 → All (λ b. b < 256) xs → All (λ b. b < 256) (set xs i v)
All-set [] i v hv h = tt
All-set (x ∷ xs) zero v hv (h, hs) = (hv, hs)
All-set (x ∷ xs) (suc i) v hv (h, hs) = (h, All-set xs i v hv hs)

pub get_or-lt : (xs : List ℕ) (i : ℕ) → All (λ b. b < 256) xs → get_or xs i 0 < 256
get_or-lt [] i h = omega arith
get_or-lt (x ∷ xs) zero (h, hs) = h
get_or-lt (x ∷ xs) (suc i) (h, hs) = get_or-lt xs i hs

length-swap : (xs : List ℕ) (a b : ℕ) → length (swap xs a b) ≡ length xs
unfolding swap
length-swap xs a b =
    length-set (set xs a (get_or xs b 0)) b (get_or xs a 0) ∙ length-set xs a (get_or xs b 0)

All-swap : (xs : List ℕ) (a b : ℕ) → All (λ b. b < 256) xs → All (λ b. b < 256) (swap xs a b)
unfolding swap
All-swap xs a b h = All-set _ b _ (get_or-lt xs a h) (All-set xs a _ (get_or-lt xs b h) h)

length-identity : (n from : ℕ) → length (identity n from) ≡ n
unfolding identity
length-identity zero from = refl
length-identity (suc n) from = ap suc (length-identity n (from + 1))

All-identity : (n from : ℕ) → from + n ≤ 256 → All (λ b. b < 256) (identity n from)
unfolding identity
All-identity zero from h = tt
All-identity (suc n) from h = (omega arith, All-identity n (from + 1) (omega arith))

schedule_bounds :
    (left : ℕ) (key : Bytes) (i j : ℕ) (state : List ℕ)
    → length state ≡ 256
    → All (λ b. b < 256) state
    → (length (schedule left key i j state) ≡ 256)
      × All (λ b. b < 256) (schedule left key i j state)
unfolding schedule
schedule_bounds zero key i j state hl h = (hl, h)
schedule_bounds (suc left) key i j state hl h =
    let j' : ℕ = wrapping_add (wrapping_add j (get_or state i 0)) (get_or key (i % length key) 0) in
    schedule_bounds left key (i + 1) j' (swap state i j') (length-swap state i j' ∙ hl)
      (All-swap state i j' h)

pub initial-IsValid : (key : Bytes) → IsValid (initial key)
initial-IsValid key =
    let (size, bytes) =
      schedule_bounds 256 key 0 0 (identity 256 0) (length-identity 256 0)
        (All-identity 256 0 (omega arith)) in
    unfold initial in
    record { i_lt = omega arith; j_lt = omega arith; size = size; all_bytes = bytes }

-- What `new` answers for a key.
abbrev pub MadeFrom : Bytes → Option Arc4 → Type 0
MadeFrom key none = (length key ≡ 0) ⊎ (256 < length key)
MadeFrom key (some rc4) = (0 < length key) × (length key ≤ 256) × IsValid rc4

-- `new` panics on an empty key and on one of more than 256 bytes, and on no other. The cipher that it
-- makes is valid: its indices are below 256, and its state has 256 entries, each a byte.
pub new-MadeFrom : (key : Bytes) → MadeFrom key (new key)
unfolding new
new-MadeFrom key = ground (arith, initial-IsValid key)

-- A step keeps the cipher valid, and the byte that it gives is below 256.
pub next-IsValid : (rc4 : Arc4) → IsValid rc4 → ((next rc4).0 < 256) × IsValid (next rc4).1
unfolding step key_byte
next-IsValid rc4 v =
    let i' : ℕ = wrapping_add rc4.i 1 in
    let j' : ℕ = wrapping_add rc4.j (get_or rc4.state i' 0) in
    let bytes : All (λ b. b < 256) (swap rc4.state i' j') = All-swap rc4.state i' j' v.all_bytes in
    (
      get_or-lt _ _ bytes,
      record {
        i_lt = omega arith;
        j_lt = omega arith;
        size = length-swap rc4.state i' j' ∙ v.size;
        all_bytes = bytes;
      },
    )

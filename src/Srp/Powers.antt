-- ===== src/Srp/Powers.antt =====
-- rsfbclient-rust/src/srp.rs, `powm`: it is the power, modulo the modulus.
use native.Mathlib.Nat.{
  mod-add-div, add-mul-mod_self_left, mod-eq_of_lt, mod-lt, pow-suc, pow-zero, add-zero, mul-zero,
}
use rsfbclient.Base.{
  ltb, ltb→lt, ◌==◌, ==_iff, if◌then◌else◌, Bool-cases, ℕ, zero, suc, ◌+◌, ◌*◌, ◌/◌, ◌%◌, ◌^◌, ◌<◌,
  ◌≡◌, sym, ap, ◌∙◌, Bool, true, false, inl, inr, arith,
}
use rsfbclient.Srp.{powm_loop, powm}

-- A factor may be reduced before the product is.
pub mod-mul-mod : (a b m : ℕ) → (a % m * b) % m ≡ (a * b) % m
mod-mul-mod a b m =
    sym (add-mul-mod_self_left (a % m * b) m (a / m * b))
    ∙ ap (λ t. t % m) (omega (arith, ap (λ (t : ℕ). t * b) (mod-add-div a m)))

pub mul-mod-mod : (a b m : ℕ) → (a * (b % m)) % m ≡ (a * b) % m
mul-mod-mod a b m =
    ap (λ t. t % m) (omega arith) ∙ mod-mul-mod b a m ∙ ap (λ t. t % m) (omega arith)

pub mod-pow-mod : (a e m : ℕ) → (a % m) ^ e % m ≡ a ^ e % m
mod-pow-mod a zero m = simp pow-zero
mod-pow-mod a (suc e) m =
    rw (pow-suc (a % m) e, pow-suc a e)
      (mul-mod-mod ((a % m) ^ e) a m
        ∙ sym (mod-mul-mod ((a % m) ^ e) a m)
        ∙ ap (λ t. (t * a) % m) (mod-pow-mod a e m)
        ∙ mod-mul-mod (a ^ e) a m)

pub pow-add : (a d e : ℕ) → a ^ (d + e) ≡ a ^ d * a ^ e
pow-add a d zero = simp (add-zero, pow-zero) (omega arith)
pow-add a d (suc e) =
    ap (λ t. a ^ t) (omega arith)
    ∙ pow-suc a (d + e)
    ∙ rw (pow-suc a e) (omega (arith, ap (λ (t : ℕ). t * a) (pow-add a d e)))

pub pow-mul : (a d e : ℕ) → a ^ (d * e) ≡ (a ^ d) ^ e
pow-mul a d zero = simp (mul-zero, pow-zero)
pow-mul a d (suc e) =
    ap (λ t. a ^ t) (omega arith)
    ∙ pow-add a (d * e) d
    ∙ rw (pow-suc (a ^ d) e) (ap (λ t. t * a ^ d) (pow-mul a d e))

pub mul-pow : (a b e : ℕ) → (a * b) ^ e ≡ a ^ e * b ^ e
mul-pow a b zero = simp pow-zero
mul-pow a b (suc e) =
    rw (pow-suc (a * b) e, pow-suc a e, pow-suc b e)
      (ap (λ t. t * (a * b)) (mul-pow a b e) ∙ omega arith)

square-pow : (b e : ℕ) → (b * b) ^ e ≡ b ^ (e + e)
square-pow b e = mul-pow b b e ∙ sym (pow-add b e e)

-- A round of the loop keeps the product of the result and the power that is left.
round_even :
    (m result base exp : ℕ)
    → exp % 2 ≡ 0
    → (result * ((base * base) % m) ^ (exp / 2)) % m ≡ (result * base ^ exp) % m
round_even m result base exp h =
    sym (mul-mod-mod result (((base * base) % m) ^ (exp / 2)) m)
    ∙ ap (λ t. (result * t) % m)
        (mod-pow-mod (base * base) (exp / 2) m
          ∙ ap (λ t. t % m) (square-pow base (exp / 2) ∙ ap (λ t. base ^ t) (omega arith)))
    ∙ mul-mod-mod result (base ^ exp) m

round_odd :
    (m result base exp : ℕ)
    → exp % 2 ≡ 1
    → ((result * base) % m * ((base * base) % m) ^ (exp / 2)) % m ≡ (result * base ^ exp) % m
round_odd m result base exp h =
    mod-mul-mod (result * base) (((base * base) % m) ^ (exp / 2)) m
    ∙ sym (mul-mod-mod (result * base) (((base * base) % m) ^ (exp / 2)) m)
    ∙ ap (λ t. (result * base * t) % m)
        (mod-pow-mod (base * base) (exp / 2) m ∙ ap (λ t. t % m) (square-pow base (exp / 2)))
    ∙ mul-mod-mod (result * base) (base ^ (exp / 2 + exp / 2)) m
    ∙ ap (λ t. t % m)
        (omega arith
          ∙ ap (λ t. result * t) (sym (pow-suc base (exp / 2 + exp / 2)))
          ∙ ap (λ t. result * base ^ t) (omega arith))

round_lem :
    (m result base exp : ℕ)
    → ((if exp % 2 == 1 then (result * base) % m else result) * ((base * base) % m) ^ (exp / 2)) % m
      ≡ (result * base ^ exp) % m
round_lem m result base exp = elim (Bool-cases (exp % 2 == 1)) [
  | inl odd ↦ rw odd (round_odd m result base exp ((==_iff _ 1).0 odd))
  | inr even ↦ rw even (round_even m result base exp (ground arith))
]

reduced-lt : (b : Bool) (x result m : ℕ) → result < m → (if b then x % m else result) < m
reduced-lt true x result m h = mod-lt x (omega arith)
reduced-lt false x result m h = h

no_power-left : (m exp base result : ℕ) → result < m → exp ≡ 0 → result ≡ (result * base ^ exp) % m
no_power-left m exp base result h e =
    rw (e, pow-zero) (sym (mod-eq_of_lt h) ∙ ap (λ t. t % m) (omega arith))

powm_loop-pow :
    (fuel m exp base result : ℕ)
    → exp < fuel
    → result < m
    → powm_loop fuel m exp base result ≡ (result * base ^ exp) % m
unfolding powm_loop
powm_loop-pow zero m exp base result h r = elim h [ ]
powm_loop-pow (suc fuel) m exp base result h r = elim (Bool-cases (ltb 0 exp)) [
  | inl more ↦ rw more (
      powm_loop-pow fuel m (exp / 2) ((base * base) % m)
        (if exp % 2 == 1 then (result * base) % m else result) (omega (arith, ltb→lt 0 exp more))
        (reduced-lt (exp % 2 == 1) (result * base) result m r)
      ∙ round_lem m result base exp)
  | inr none_left ↦ rw none_left (no_power-left m exp base result r (ground arith))
]

-- With a modulus above 1 `powm` answers the power of its base, reduced by the modulus.
pub powm-pow : (base exp m : ℕ) → 1 < m → powm base exp m ≡ base ^ exp % m
unfolding powm
powm-pow base exp m h =
    powm_loop-pow (suc exp) m exp (base % m) 1 (omega arith) h
    ∙ ap (λ t. t % m) (omega arith)
    ∙ mod-pow-mod base exp m

-- ===== src/Wire/Rows/Words.antt =====
-- rsfbclient-rust/src/wire.rs, `parse_sql_response`: the bits of a bitmap that is made of words of 32 bits,
-- each with its lowest byte first.
use mathlib.Core.Path.{subst}
use native.Mathlib.Nat.{pow-succ'}
use rsfbclient.Base.{
  if◌then◌else◌, get_elem?, ℕ, zero, suc, ◌+◌, ◌-◌, ◌*◌, ◌/◌, ◌%◌, ◌^◌, ◌<◌, ◌≡◌, refl, ap, Bool,
  true, false, some, ◌++◌, arith, Bytes,
}
use rsfbclient.Util.{put_u32_le}
use rsfbclient.Wire.Rows.Bits.{Marked}

-- A number with the bit `j` of it: what stands above the bit, and below.
pub record BitOf (n j : ℕ) (b : Bool) : Type 0 where
  pub high : ℕ
  pub low : ℕ
  pub low_fits : low < 2 ^ j
  pub parts : n ≡ (2 * high + (if b then 1 else 0)) * 2 ^ j + low

-- The byte `q` of a number of 32 bits, and a bit in it.
byte_of :
    (q n : ℕ) (more : Bytes)
    → q < 4
    → get_elem? (put_u32_le n ++ more) q ≡ some (n / 2 ^ (8 * q) % 256)
byte_of zero n more h = ap some (omega arith)
byte_of (suc zero) n more h = refl
byte_of (suc (suc zero)) n more h = refl
byte_of (suc (suc (suc zero))) n more h = refl
byte_of (suc (suc (suc (suc q)))) n more h = absurd (omega arith)

pow_add : (a j : ℕ) → 2 ^ (a + j) ≡ 2 ^ a * 2 ^ j
pow_add zero j = let e : 0 + j ≡ j = omega arith in rw e (omega arith)
pow_add (suc a) j =
    let e : suc a + j ≡ suc (a + j) = omega arith in
    rw (e, pow-succ' 2 (a + j), pow-succ' 2 a, pow_add a j) (omega arith)

cut :
    (q P x low : ℕ)
    → q < 4
    → low < 2 ^ (8 * q) * P
    → ((x * (2 ^ (8 * q) * P) + low) / 2 ^ (8 * q) ≡ x * P + low / 2 ^ (8 * q))
      × (low / 2 ^ (8 * q) < P)
cut zero P x low h hl = (omega arith, omega arith)
cut (suc zero) P x low h hl = (omega arith, omega arith)
cut (suc (suc zero)) P x low h hl = (omega arith, omega arith)
cut (suc (suc (suc zero))) P x low h hl = (omega arith, omega arith)
cut (suc (suc (suc (suc q)))) P x low h hl = absurd (omega arith)

in_byte :
    (j high low b : ℕ)
    → j < 8
    → b < 2
    → low < 2 ^ j
    → ((2 * high + b) * 2 ^ j + low) % 256 ≡ (2 * (high % 2 ^ (7 - j)) + b) * 2 ^ j + low
in_byte zero high low b h hb hl = omega arith
in_byte (suc zero) high low b h hb hl = omega arith
in_byte (suc (suc zero)) high low b h hb hl = omega arith
in_byte (suc (suc (suc zero))) high low b h hb hl = omega arith
in_byte (suc (suc (suc (suc zero)))) high low b h hb hl = omega arith
in_byte (suc (suc (suc (suc (suc zero))))) high low b h hb hl = omega arith
in_byte (suc (suc (suc (suc (suc (suc zero)))))) high low b h hb hl = omega arith
in_byte (suc (suc (suc (suc (suc (suc (suc zero))))))) high low b h hb hl = omega arith
in_byte (suc (suc (suc (suc (suc (suc (suc (suc j)))))))) high low b h hb hl = absurd (omega arith)

flag-lt : (b : Bool) → (if b then 1 else 0) < 2
flag-lt true = omega arith
flag-lt false = omega arith

pub bit-Marked :
    (n q j : ℕ) (b : Bool) (more : Bytes)
    → q < 4
    → j < 8
    → BitOf n (8 * q + j) b
    → Marked (put_u32_le n ++ more) (8 * q + j) b
bit-Marked n q j b more hq hj bit =
    let x = 2 * bit.high + (if b then 1 else 0) in
    let (quotient, below_bit) =
      cut q (2 ^ j) x bit.low hq (subst (λ m. bit.low < m) (pow_add (8 * q) j) bit.low_fits) in
    record {
      byte_index = q;
      bit_index = j;
      high = bit.high % 2 ^ (7 - j);
      low = bit.low / 2 ^ (8 * q);
      here = refl;
      in_byte = hj;
      low_fits = below_bit;
      byte_there =
          rw (byte_of q n more hq, bit.parts, pow_add (8 * q) j, quotient)
            (ap some (
              in_byte j bit.high (bit.low / 2 ^ (8 * q)) (if b then 1 else 0) hj (flag-lt b)
                below_bit));
    }

pub later-Marked :
    (n i : ℕ) (b : Bool) (m : Bytes) → Marked m i b → Marked (put_u32_le n ++ m) (32 + i) b
later-Marked n i b m h = record {
  byte_index = suc (suc (suc (suc h.byte_index)));
  bit_index = h.bit_index;
  high = h.high;
  low = h.low;
  here = omega (arith, h.here);
  in_byte = h.in_byte;
  low_fits = h.low_fits;
  byte_there = h.byte_there;
}

-- ===== src/Util/RoundTrip.antt =====
-- rsfbclient-rust/src/util.rs: the reads on what the writes put.
use native.Mathlib.Nat.{mod-eq_of_lt}
use rsfbclient.Base.{
  ◌==◌, Bool-cases, length, replicate, length-append, length-replicate, take_all, drop_all, ℕ, ◌-◌,
  ◌%◌, ◌^◌, ◌<◌, ◌≡◌, sym, ap, ◌∙◌, inl, inr, [], ◌∷◌, ◌++◌, append_assoc, arith, Bytes,
}
use rsfbclient.Reader.{done}
use rsfbclient.Util.{
  be32, le16, le32, be64, from_be, from_le, put_u8, put_u32, put_u16_le, put_u32_le, put_u64,
  put_i32, put_i64, padding, put_wire_bytes, advance, slice_to, copy_to_slice, get_u8, get_u16_le,
  get_u32, get_u32_le, get_i32, get_u64, get_i64, skip_padding, get_wire_bytes,
}
use rsfbclient.Base.Int.{ℤ, unsigned, half32, half64, InRange, signed-unsigned, unsigned-lt}

pub copy_to_slice-append : (xs rest : Bytes) → copy_to_slice (length xs) (xs ++ rest) ≡ done xs rest
unfolding copy_to_slice
copy_to_slice-append xs rest =
    ground (arith, length-append xs rest, take_all xs rest, drop_all xs rest)

pub advance-append : (xs rest : Bytes) → advance (length xs) (xs ++ rest) ≡ done tt rest
unfolding advance
advance-append xs rest = ground (arith, length-append xs rest, drop_all xs rest)

pub slice_to-append : (xs rest : Bytes) → slice_to (length xs) (xs ++ rest) ≡ done xs (xs ++ rest)
unfolding slice_to
slice_to-append xs rest = ground (arith, length-append xs rest, take_all xs rest)

from_be-be32 : (n : ℕ) → n < 2 ^ 32 → from_be (be32 n) ≡ n
from_be-be32 n h = omega arith

from_le-le32 : (n : ℕ) → n < 2 ^ 32 → from_le (le32 n) ≡ n
from_le-le32 n h = omega arith

from_be-be64 : (n : ℕ) → n < 2 ^ 64 → from_be (be64 n) ≡ n
from_be-be64 n h = omega arith

pub get_u8-put_u8 : (n : ℕ) (rest : Bytes) → n < 256 → get_u8 (put_u8 n ++ rest) ≡ done n rest
unfolding get_u8
get_u8-put_u8 n rest h =
    rw (copy_to_slice-append (n % 256 ∷ []) rest) (ap (λ k. done k rest) (omega arith))

pub get_u32-put_u32 :
    (n : ℕ) (rest : Bytes) → n < 2 ^ 32 → get_u32 (put_u32 n ++ rest) ≡ done n rest
unfolding get_u32
get_u32-put_u32 n rest h = rw (copy_to_slice-append (be32 n) rest, from_be-be32 n h)

pub get_u32_le-put_u32_le :
    (n : ℕ) (rest : Bytes) → n < 2 ^ 32 → get_u32_le (put_u32_le n ++ rest) ≡ done n rest
unfolding get_u32_le
get_u32_le-put_u32_le n rest h = rw (copy_to_slice-append (le32 n) rest, from_le-le32 n h)

pub get_u16_le-put_u16_le :
    (n : ℕ) (rest : Bytes) → n < 2 ^ 16 → get_u16_le (put_u16_le n ++ rest) ≡ done n rest
unfolding get_u16_le
get_u16_le-put_u16_le n rest h =
    rw (copy_to_slice-append (le16 n) rest) (ap (λ k. done k rest) (omega arith))

pub get_u64-put_u64 :
    (n : ℕ) (rest : Bytes) → n < 2 ^ 64 → get_u64 (put_u64 n ++ rest) ≡ done n rest
unfolding get_u64
get_u64-put_u64 n rest h = rw (copy_to_slice-append (be64 n) rest, from_be-be64 n h)

pub get_i32-put_i32 :
    (z : ℤ) (rest : Bytes) → InRange half32 z → get_i32 (put_i32 z ++ rest) ≡ done z rest
unfolding get_i32
get_i32-put_i32 z rest h = rw (
  copy_to_slice-append (be32 (unsigned half32 z)) rest,
  from_be-be32 (unsigned half32 z) (omega (arith, unsigned-lt half32 z h)),
  signed-unsigned half32 z h,
)

pub get_i64-put_i64 :
    (z : ℤ) (rest : Bytes) → InRange half64 z → get_i64 (put_i64 z ++ rest) ≡ done z rest
unfolding get_i64
get_i64-put_i64 z rest h = rw (
  copy_to_slice-append (be64 (unsigned half64 z)) rest,
  from_be-be64 (unsigned half64 z) (omega (arith, unsigned-lt half64 z h)),
  signed-unsigned half64 z h,
)

skip_padding-padding :
    (len : ℕ) (rest : Bytes) → skip_padding len (padding len ++ rest) ≡ done tt rest
unfolding skip_padding padding
skip_padding-padding len rest = elim (Bool-cases (len % 4 == 0)) [
  | inl e ↦ rw e
  | inr e ↦
      let zeros : Bytes = replicate (4 - len % 4) 0 in
      rw e (
        ap (λ k. advance k (zeros ++ rest)) (sym (length-replicate {A = ℕ} (4 - len % 4) 0))
        ∙ advance-append zeros rest)
]

-- The length word, the bytes and the padding are read back as the bytes, and the cursor stands
-- behind the padding, for fewer than 2^32 bytes.
pub get_wire_bytes-put_wire_bytes :
    (bytes rest : Bytes)
    → length bytes < 2 ^ 32
    → get_wire_bytes (put_wire_bytes bytes ++ rest) ≡ done bytes rest
unfolding get_wire_bytes put_wire_bytes
get_wire_bytes-put_wire_bytes bytes rest h =
    let tail : Bytes = (bytes ++ padding (length bytes)) ++ rest in
    rw (
      get_u32-put_u32 (length bytes % 2 ^ 32) tail (omega arith),
      mod-eq_of_lt h,
      append_assoc bytes (padding (length bytes)) rest,
      slice_to-append bytes (padding (length bytes) ++ rest),
      advance-append bytes (padding (length bytes) ++ rest),
      skip_padding-padding (length bytes) rest,
    )

-- A counted string takes a whole number of 4-byte words.
pub length-put_wire_bytes : (bytes : Bytes) → length (put_wire_bytes bytes) % 4 ≡ 0
unfolding put_wire_bytes padding
length-put_wire_bytes bytes = ground (
  arith,
  length-append bytes (padding (length bytes)),
  length-replicate {A = ℕ} (4 - length bytes % 4) 0,
)

-- ===== src/Util/Reads.antt =====
-- rsfbclient-rust/src/util.rs, `BytesWireExt`: stability of the reads under bytes that arrive later.
use rsfbclient.Base.{length-append, take-append, drop-append, ℕ, arith}
use rsfbclient.Reader.{bytes_stream}
use rsfbclient.Reader.Stable.{Stable, stable_rules}
use rsfbclient.Util.{
  advance, slice_to, copy_to_slice, get_u8, get_u16_le, get_u32, get_u32_le, get_i32, get_i32_le,
  get_u64, get_i64, get_f64, skip_padding, get_wire_bytes,
}

pub Stable-advance : (n : ℕ) → Stable (advance n)
unfolding advance
Stable-advance n = record {
  at = λ s more. ground (arith, length-append s more, drop-append n s more);
}

pub Stable-slice_to : (n : ℕ) → Stable (slice_to n)
unfolding slice_to
Stable-slice_to n = record {
  at = λ s more. ground (arith, length-append s more, take-append n s more);
}

pub Stable-copy_to_slice : (n : ℕ) → Stable (copy_to_slice n)
unfolding copy_to_slice
Stable-copy_to_slice n = record {
  at = λ s more. ground (arith, length-append s more, take-append n s more, drop-append n s more);
}

pub Stable-get_u8 : Stable get_u8
unfolding get_u8
Stable-get_u8 = search (Stable-copy_to_slice, stable_rules)

pub Stable-get_u16_le : Stable get_u16_le
unfolding get_u16_le
Stable-get_u16_le = search (Stable-copy_to_slice, stable_rules)

pub Stable-get_u32 : Stable get_u32
unfolding get_u32
Stable-get_u32 = search (Stable-copy_to_slice, stable_rules)

pub Stable-get_u32_le : Stable get_u32_le
unfolding get_u32_le
Stable-get_u32_le = search (Stable-copy_to_slice, stable_rules)

pub Stable-get_i32 : Stable get_i32
unfolding get_i32
Stable-get_i32 = search (Stable-copy_to_slice, stable_rules)

pub Stable-get_i32_le : Stable get_i32_le
unfolding get_i32_le
Stable-get_i32_le = search (Stable-copy_to_slice, stable_rules)

pub Stable-get_u64 : Stable get_u64
unfolding get_u64
Stable-get_u64 = search (Stable-copy_to_slice, stable_rules)

pub Stable-get_i64 : Stable get_i64
unfolding get_i64
Stable-get_i64 = search (Stable-copy_to_slice, stable_rules)

pub Stable-get_f64 : Stable get_f64
unfolding get_f64
Stable-get_f64 = search (Stable-copy_to_slice, stable_rules)

pub Stable-skip_padding : (n : ℕ) → Stable (skip_padding n)
unfolding skip_padding
Stable-skip_padding n = search (Stable-advance, stable_rules)

pub Stable-get_wire_bytes : Stable get_wire_bytes
unfolding get_wire_bytes
Stable-get_wire_bytes =
    search (Stable-advance, Stable-slice_to, Stable-skip_padding, Stable-get_u32, stable_rules)
      depth 9

pub ruleset stable_reads = (
  Stable-advance, Stable-slice_to, Stable-copy_to_slice, Stable-get_u8, Stable-get_u16_le,
  Stable-get_u32, Stable-get_u32_le, Stable-get_i32, Stable-get_i32_le, Stable-get_u64,
  Stable-get_i64, Stable-get_f64, Stable-get_wire_bytes, stable_rules,
)

-- ===== src/Util/Moves.antt =====
-- rsfbclient-rust/src/util.rs, `BytesWireExt`: how far the reads move the cursor.
use rsfbclient.Base.{length-drop, ℕ, ◌<◌, arith}
use rsfbclient.Reader.Moves.{Forward, Takes, Forward-pure, Takes-bind, forward_rules}
use rsfbclient.Util.{
  advance, slice_to, copy_to_slice, get_u8, get_u16_le, get_u32, get_u32_le, get_i32, get_i32_le,
  get_u64, get_i64, get_f64, skip_padding, get_wire_bytes,
}

pub Forward-advance : (n : ℕ) → Forward (advance n)
unfolding advance
Forward-advance n = record { at = λ {a} {s} {s'} e. ground (arith, length-drop n s) }

pub Forward-slice_to : (n : ℕ) → Forward (slice_to n)
unfolding slice_to
Forward-slice_to n = record { at = λ {a} {s} {s'} e. ground arith }

pub Forward-copy_to_slice : (n : ℕ) → Forward (copy_to_slice n)
unfolding copy_to_slice
Forward-copy_to_slice n = record { at = λ {a} {s} {s'} e. ground (arith, length-drop n s) }

Takes-copy_to_slice : (n : ℕ) → 0 < n → Takes (copy_to_slice n)
unfolding copy_to_slice
Takes-copy_to_slice n h = record { at = λ {a} {s} {s'} e. ground (arith, length-drop n s) }

pub Takes-get_u8 : Takes get_u8
unfolding get_u8
Takes-get_u8 =
    Takes-bind (copy_to_slice 1) _ (Takes-copy_to_slice 1 (omega arith)) (λ b. Forward-pure _)

pub Takes-get_u16_le : Takes get_u16_le
unfolding get_u16_le
Takes-get_u16_le =
    Takes-bind (copy_to_slice 2) _ (Takes-copy_to_slice 2 (omega arith)) (λ b. Forward-pure _)

pub Takes-get_u32 : Takes get_u32
unfolding get_u32
Takes-get_u32 =
    Takes-bind (copy_to_slice 4) _ (Takes-copy_to_slice 4 (omega arith)) (λ b. Forward-pure _)

pub Forward-get_u8 : Forward get_u8
unfolding get_u8
Forward-get_u8 = search (Forward-copy_to_slice, forward_rules)

pub Forward-get_u16_le : Forward get_u16_le
unfolding get_u16_le
Forward-get_u16_le = search (Forward-copy_to_slice, forward_rules)

pub Forward-get_u32 : Forward get_u32
unfolding get_u32
Forward-get_u32 = search (Forward-copy_to_slice, forward_rules)

pub Forward-get_u32_le : Forward get_u32_le
unfolding get_u32_le
Forward-get_u32_le = search (Forward-copy_to_slice, forward_rules)

pub Forward-get_i32 : Forward get_i32
unfolding get_i32
Forward-get_i32 = search (Forward-copy_to_slice, forward_rules)

pub Forward-get_i32_le : Forward get_i32_le
unfolding get_i32_le
Forward-get_i32_le = search (Forward-copy_to_slice, forward_rules)

pub Forward-get_u64 : Forward get_u64
unfolding get_u64
Forward-get_u64 = search (Forward-copy_to_slice, forward_rules)

pub Forward-get_i64 : Forward get_i64
unfolding get_i64
Forward-get_i64 = search (Forward-copy_to_slice, forward_rules)

pub Forward-get_f64 : Forward get_f64
unfolding get_f64
Forward-get_f64 = search (Forward-copy_to_slice, forward_rules)

pub Forward-skip_padding : (n : ℕ) → Forward (skip_padding n)
unfolding skip_padding
Forward-skip_padding n = search (Forward-advance, forward_rules)

pub Forward-get_wire_bytes : Forward get_wire_bytes
unfolding get_wire_bytes
Forward-get_wire_bytes =
    search (Forward-advance, Forward-slice_to, Forward-skip_padding, Forward-get_u32, forward_rules)
      depth 9

pub ruleset forward_reads = (
  Forward-advance, Forward-slice_to, Forward-copy_to_slice, Forward-get_u8, Forward-get_u16_le,
  Forward-get_u32, Forward-get_u32_le, Forward-get_i32, Forward-get_i32_le, Forward-get_u64,
  Forward-get_i64, Forward-get_f64, Forward-get_wire_bytes, forward_rules,
)

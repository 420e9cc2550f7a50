-- ===== src/Util.antt =====
-- rsfbclient-rust/src/util.rs: the buffer writes and the reads that do not panic. A buffer is the
-- list of the bytes that are still ahead of its cursor. The fixed-width reads and writes are those of
-- the `bytes` traits `Buf` and `BufMut`: big endian, or little endian where the name says so.
pub mod RoundTrip
pub mod Reads
pub mod Moves
use rsfbclient.Base.{
  ℕ, ◌+◌, ◌-◌, ◌*◌, ◌/◌, ◌%◌, ◌^◌, List, [], ◌∷◌, ◌++◌, Bytes, length, take, drop, replicate, ltb,
  ◌==◌, not, if◌then◌else◌,
}
use rsfbclient.Base.Int.{ℤ, signed, unsigned, half32, half64}
use rsfbclient.Error.{Message, missing_bytes}
use rsfbclient.Reader.{Outcome, done, failed, Parser, ◌>>=◌, ◌>>◌, pure, fail}

-- The bytes of a `w`-byte number, and the number that bytes stand for.
abbrev pub be16 : ℕ → Bytes
be16 n = n / 2 ^ 8 % 2 ^ 8 ∷ n % 2 ^ 8 ∷ []

abbrev pub be32 : ℕ → Bytes
be32 n = n / 2 ^ 24 % 2 ^ 8 ∷ n / 2 ^ 16 % 2 ^ 8 ∷ n / 2 ^ 8 % 2 ^ 8 ∷ n % 2 ^ 8 ∷ []

abbrev pub le16 : ℕ → Bytes
le16 n = n % 2 ^ 8 ∷ n / 2 ^ 8 % 2 ^ 8 ∷ []

abbrev pub le32 : ℕ → Bytes
le32 n = n % 2 ^ 8 ∷ n / 2 ^ 8 % 2 ^ 8 ∷ n / 2 ^ 16 % 2 ^ 8 ∷ n / 2 ^ 24 % 2 ^ 8 ∷ []

abbrev pub be64 : ℕ → Bytes
be64 n = be32 (n / 2 ^ 32) ++ be32 n

abbrev from_be_onto : ℕ → Bytes → ℕ
from_be_onto acc [] = acc
from_be_onto acc (b ∷ bs) = from_be_onto (acc * 2 ^ 8 + b) bs

abbrev pub from_be : Bytes → ℕ
from_be = from_be_onto 0

abbrev pub from_le : Bytes → ℕ
from_le [] = 0
from_le (b ∷ bs) = b + 2 ^ 8 * from_le bs

-- `BufMut`: each write goes behind what the buffer holds.
abbrev pub put_u8 : ℕ → Bytes
put_u8 n = n % 2 ^ 8 ∷ []

abbrev pub put_u32 : ℕ → Bytes
put_u32 = be32

abbrev pub put_u16_le : ℕ → Bytes
put_u16_le = le16

abbrev pub put_u32_le : ℕ → Bytes
put_u32_le = le32

abbrev pub put_u64 : ℕ → Bytes
put_u64 = be64

abbrev pub put_i32 : ℤ → Bytes
put_i32 z = be32 (unsigned half32 z)

abbrev pub put_i64 : ℤ → Bytes
put_i64 z = be64 (unsigned half64 z)

-- The zeros that align a run of `len` bytes to 4 bytes.
unfoldable pub padding : ℕ → Bytes
padding len = if not (len % 4 == 0) then replicate (4 - len % 4) 0 else []

unfoldable pub put_wire_bytes : Bytes → Bytes
put_wire_bytes bytes = put_u32 (length bytes % 2 ^ 32) ++ (bytes ++ padding (length bytes))

abbrev pub err_invalid_response {ℓ} : {S A : Type ℓ} → Parser S A
err_invalid_response = fail missing_bytes

-- The checked reads. `slice_to` is `self.slice(..len)` behind its test, and leaves the cursor.
unfoldable pub advance : ℕ → Parser Bytes (Unit {0})
advance cnt bytes =
    if ltb (length bytes) cnt then err_invalid_response bytes else done tt (drop cnt bytes)

unfoldable pub slice_to : ℕ → Parser Bytes Bytes
slice_to len bytes =
    if ltb (length bytes) len then err_invalid_response bytes else done (take len bytes) bytes

-- `remaining() < width`, then the read of `width` bytes, which moves the cursor behind them.
unfoldable pub copy_to_slice : ℕ → Parser Bytes Bytes
copy_to_slice width bytes =
    if ltb (length bytes) width
    then err_invalid_response bytes
    else done (take width bytes) (drop width bytes)

unfoldable pub get_u8 : Parser Bytes ℕ
get_u8 = do b ← copy_to_slice 1; pure (from_be b)

unfoldable pub get_u16_le : Parser Bytes ℕ
get_u16_le = do b ← copy_to_slice 2; pure (from_le b)

unfoldable pub get_u32 : Parser Bytes ℕ
get_u32 = do b ← copy_to_slice 4; pure (from_be b)

unfoldable pub get_u32_le : Parser Bytes ℕ
get_u32_le = do b ← copy_to_slice 4; pure (from_le b)

unfoldable pub get_i32 : Parser Bytes ℤ
get_i32 = do b ← copy_to_slice 4; pure (signed half32 (from_be b))

unfoldable pub get_i32_le : Parser Bytes ℤ
get_i32_le = do b ← copy_to_slice 4; pure (signed half32 (from_le b))

unfoldable pub get_u64 : Parser Bytes ℕ
get_u64 = do b ← copy_to_slice 8; pure (from_be b)

unfoldable pub get_i64 : Parser Bytes ℤ
get_i64 = do b ← copy_to_slice 8; pure (signed half64 (from_be b))

-- The 64 bits of the IEEE 754 number.
unfoldable pub get_f64 : Parser Bytes ℕ
get_f64 = do b ← copy_to_slice 8; pure (from_be b)

unfoldable pub skip_padding : ℕ → Parser Bytes (Unit {0})
skip_padding len = if not (len % 4 == 0) then advance (4 - len % 4) else pure tt

unfoldable pub get_wire_bytes : Parser Bytes Bytes
get_wire_bytes = do len ← get_u32; bytes ← slice_to len; advance len; skip_padding len; pure bytes

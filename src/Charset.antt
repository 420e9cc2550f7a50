-- ===== src/Charset.antt =====
-- rsfbclient-core/src/charset.rs. The codecs are those of the `encoding` crate: a charset holds the
-- pair of functions that stands for its codec, or none for UTF-8. A Rust string is its UTF-8 bytes.
use rsfbclient.Base.{if◌then◌else◌, Option, none, some, [], ◌∷◌, Bytes}
use rsfbclient.Error.{Message, invalid_column_text, invalid_param_text, other, Result, ok, err}
use rsfbclient.Wire.Text.Utf8.{is_utf8}

-- `charset.encode(s, EncoderTrap::Strict)` and `charset.decode(bytes, DecoderTrap::Strict)`.
pub record Codec : Type 0 where
  pub strict_encode : Bytes → Option Bytes
  pub strict_decode : Bytes → Option Bytes

pub record Charset : Type 0 where
  pub on_firebird : Bytes
  pub on_rust : Option Codec

abbrev pub or_err : Option Bytes → Message → Result Bytes
or_err none m = err (other m)
or_err (some b) m = ok b

abbrev pub decode_with : Option Codec → Bytes → Result Bytes
decode_with (some c) bytes = or_err (c.strict_decode bytes) invalid_column_text
decode_with none bytes = if is_utf8 bytes then ok bytes else err (other invalid_column_text)

abbrev encode_with : Option Codec → Bytes → Result Bytes
encode_with (some c) s = or_err (c.strict_encode s) invalid_param_text
encode_with none s = ok s

unfoldable pub decode : Charset → Bytes → Result Bytes
decode charset bytes = decode_with charset.on_rust bytes

unfoldable pub encode : Charset → Bytes → Result Bytes
encode charset s = encode_with charset.on_rust s

-- `UTF_8`, the default.
abbrev pub utf_8 : Charset
utf_8 = record { on_firebird = b'U' ∷ b'T' ∷ b'F' ∷ b'8' ∷ []; on_rust = none }

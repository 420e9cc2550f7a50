-- ===== src/Client/Session/Params.antt =====
-- rsfbclient-rust/src/blr.rs: the parameters of a statement as the server takes them.
pub mod Bitmap
use rsfbclient.Base.{
  ltb, if◌then◌else◌, length, concat, ℕ, ◌+◌, ◌-◌, ◌^◌, true, false, List, [], ◌∷◌, ◌++◌, map,
  Bytes,
}
use rsfbclient.Base.Chunks.{chunks}
use rsfbclient.Charset.{encode}
use rsfbclient.Consts.{ProtocolVersion, at_least_v13}
use rsfbclient.Consts.Blr.{
  blr_version5, blr_begin, blr_message, blr_end, blr_eoc, blr_text, blr_short, blr_quad, blr_double,
  blr_timestamp, blr_int64, blr_bool,
}
use rsfbclient.DateTime.{encode_timestamp}
use rsfbclient.Reader.{◌>>=◌, ◌>>◌, pure, lift}
use rsfbclient.Util.{put_u8, put_u32, put_u16_le, put_u32_le, put_u64, put_i32, put_i64, padding}
use rsfbclient.SqlTypes.{
  SqlType, text, integer, floating, timestamp, binary, boolean, null, is_null,
}
use rsfbclient.Xsqlda.{message_len}
use rsfbclient.Client.Session.{Call, the}
use rsfbclient.Client.Session.Blobs.{max_data_length, create_blob, put_segments, close_blob}

pub record ParamsBlr : Type 0 where
  pub blr : Bytes
  pub values : Bytes

-- The `fold` over 32 parameters at most: the bit `i` on is that of the parameter `i`. The bits of
-- different parameters are different, so the `|` of them is their sum.
unfoldable pub bitmap_of : ℕ → List SqlType → ℕ
bitmap_of i [] = 0
bitmap_of i (p ∷ params) = (if is_null p then 2 ^ i else 0) + bitmap_of (i + 1) params

unfoldable pub null_bitmap : List SqlType → Bytes
null_bitmap params = concat (map (λ chunk. put_u32_le (bitmap_of 0 chunk)) (chunks 32 params))

-- `values.put_i32_le(if p.is_null() { -1 } else { 0 })` before protocol 13.
unfoldable pub null_indicator : ProtocolVersion → SqlType → Bytes
null_indicator version p =
    if at_least_v13 version then [] else put_u32_le (if is_null p then 2 ^ 32 - 1 else 0)

abbrev both : Bytes → Bytes → ParamsBlr
both blr values = record { blr = blr; values = values }

module _ (gds_to_msg : ℕ → Bytes) (tr_handle : ℕ) where
  -- The closure `handle_blob`.
  unfoldable pub handle_blob : Bytes → Call ParamsBlr
  handle_blob bytes = do
    created ← create_blob gds_to_msg tr_handle
    put_segments gds_to_msg created.0 bytes
    close_blob gds_to_msg created.0
    pure (both (blr_quad ∷ 0 ∷ []) (put_u64 created.1))

  -- The match on the parameter: the definition of its type, and its value.
  unfoldable pub param_blr : SqlType → Call ParamsBlr
  param_blr (text s) = do
    charset ← the (λ c. c.charset)
    bytes ← lift (encode charset s)
    (if ltb max_data_length (length bytes)
        then handle_blob bytes
        else pure
            (both (put_u8 blr_text ++ put_u16_le (length bytes)) (bytes ++ padding (length bytes))))
  param_blr (binary bytes) = handle_blob bytes
  param_blr (integer i) = pure (both (blr_int64 ∷ 0 ∷ []) (put_i64 i))
  param_blr (floating f) = pure (both (blr_double ∷ []) (put_u64 f))
  param_blr (timestamp dt) =
      let ts = encode_timestamp dt in
      pure (both (blr_timestamp ∷ []) (put_i32 ts.timestamp_date ++ put_u32 ts.timestamp_time))
  param_blr (boolean true) = pure (both (blr_bool ∷ []) (1 ∷ 0 ∷ 0 ∷ 0 ∷ []))
  param_blr (boolean false) = pure (both (blr_bool ∷ []) (0 ∷ 0 ∷ 0 ∷ 0 ∷ []))
  param_blr null = pure (both (put_u8 blr_text ++ put_u16_le 0) [])

  -- The loop, with the null indicator of each value and of its type.
  unfoldable pub params_blr : ProtocolVersion → List SqlType → Call ParamsBlr
  params_blr version [] = pure (both [] [])
  params_blr version (p ∷ params) = do
    one ← param_blr p
    rest ← params_blr version params
    pure (
        both (one.blr ++ (blr_short ∷ 0 ∷ rest.blr))
          (one.values ++ (null_indicator version p ++ rest.values)))

  unfoldable pub params_to_blr : List SqlType → Call ParamsBlr
  params_to_blr params = do
    version ← the (λ c. c.version)
    body ← params_blr version params
    pure (
        both
          (blr_version5
            ∷ blr_begin
            ∷ blr_message
            ∷ 0
            ∷ (put_u16_le (message_len (length params)) ++ (body.blr ++ (blr_end ∷ blr_eoc ∷ []))))
          ((if at_least_v13 version then null_bitmap params else []) ++ body.values))

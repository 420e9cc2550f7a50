-- ===== src/Wire/Accept/Stability.antt =====
-- rsfbclient-rust/src/wire.rs: stability of the answers to a connection request, and truncated blocks
-- inside them.
use rsfbclient.Base.{
  length, ℕ, ◌^◌, ◌<◌, ◌≡◌, refl, ◌⊎◌, inl, inr, Option, [], ◌∷◌, ◌++◌, arith, Bytes,
}
use rsfbclient.Error.{missing_bytes, other, ok, err}
use rsfbclient.Consts.{ProtocolVersion, v10, v11, v12, v13, version_code, version_try_from}
use rsfbclient.Consts.Op.{WireOp, op}
use rsfbclient.Reader.{failed, bytes_stream}
use rsfbclient.Reader.Stable.{Stable, stable_rules}
use rsfbclient.Util.{slice_to, copy_to_slice, get_u16_le, put_u16_le, put_u32, put_wire_bytes}
use rsfbclient.Util.RoundTrip.{
  advance-append, slice_to-append, get_u16_le-put_u16_le, get_u32-put_u32,
  get_wire_bytes-put_wire_bytes,
}
use rsfbclient.Util.Reads.{stable_reads}
use rsfbclient.Wire.Response.Laws.{Stable-parse_response}
use rsfbclient.Wire.Accept.{
  read_srp_auth_data, parse_srp_auth_data, returned_error, read_auth_plugin, accepted, parse_accept,
  parse_cont_auth, parse_event_notification,
}

pub Stable-parse_event_notification : Stable parse_event_notification
unfolding parse_event_notification
Stable-parse_event_notification = search stable_reads depth 20

abbrev CarriesData : ℕ → Type 0
CarriesData op_code = (op_code ≡ op WireOp.accept_data) ⊎ (op_code ≡ op WireOp.cond_accept)

small_code : {op_code : ℕ} → CarriesData op_code → op_code < 2 ^ 32
small_code (inl e) = omega arith
small_code (inr e) = omega arith

small_version : {version : ℕ} (v : ProtocolVersion) → version ≡ version_code v → version < 2 ^ 32
small_version v10 h = omega arith
small_version v11 h = omega arith
small_version v12 h = omega arith
small_version v13 h = omega arith

version_code-version_try_from : (v : ProtocolVersion) → version_try_from (version_code v) ≡ ok v
unfolding version_try_from
version_code-version_try_from v10 = refl
version_code-version_try_from v11 = refl
version_code-version_try_from v12 = refl
version_code-version_try_from v13 = refl

-- A block of SRP data that ends before all of it is there: in the length of the salt, in the salt, in
-- the length of the key or in the key.
pub data CutOff : Bytes → Type 0 where
  in_salt_length : (b : ℕ) → CutOff (b ∷ [])
  in_salt : (n : ℕ) (salt : Bytes) → n < 2 ^ 16 → length salt < n → CutOff (put_u16_le n ++ salt)
  in_key_length :
      (salt bytes : Bytes)
      → length salt < 2 ^ 16
      → length bytes < 2
      → CutOff (put_u16_le (length salt) ++ (salt ++ bytes))
  in_key :
      (salt : Bytes) (n : ℕ) (digits : Bytes)
      → length salt < 2 ^ 16
      → n < 2 ^ 16
      → length digits < n
      → CutOff (put_u16_le (length salt) ++ (salt ++ (put_u16_le n ++ digits)))

slice_to-short :
    (n : ℕ) (bytes : Bytes)
    → length bytes < n
    → slice_to n bytes ≡ failed (other missing_bytes) bytes
unfolding slice_to
slice_to-short n bytes h = ground arith

get_u16_le-short :
    (bytes : Bytes) → length bytes < 2 → get_u16_le bytes ≡ failed (other missing_bytes) bytes
unfolding get_u16_le copy_to_slice
get_u16_le-short bytes h = ground arith

parse_srp_auth_data-CutOff :
    (hex_decode : Bytes → Option Bytes) (block : Bytes)
    → CutOff block
    → parse_srp_auth_data hex_decode block ≡ err (other missing_bytes)
unfolding parse_srp_auth_data read_srp_auth_data
parse_srp_auth_data-CutOff hex_decode _ (in_salt_length b) =
    rw (get_u16_le-short (b ∷ []) (omega arith))
parse_srp_auth_data-CutOff hex_decode _ (in_salt n salt hn h) =
    rw (get_u16_le-put_u16_le n salt hn, slice_to-short n salt h)
parse_srp_auth_data-CutOff hex_decode _ (in_key_length salt bytes hs h) = rw (
  get_u16_le-put_u16_le (length salt) (salt ++ bytes) hs,
  slice_to-append salt bytes,
  advance-append salt bytes,
  get_u16_le-short bytes h,
)
parse_srp_auth_data-CutOff hex_decode _ (in_key salt n digits hs hn h) = rw (
  get_u16_le-put_u16_le (length salt) (salt ++ (put_u16_le n ++ digits)) hs,
  slice_to-append salt (put_u16_le n ++ digits),
  advance-append salt (put_u16_le n ++ digits),
  get_u16_le-put_u16_le n digits hn,
  slice_to-short n digits h,
)

module _ (hex_decode : Bytes → Option Bytes) (gds_to_msg : ℕ → Bytes) where
  Stable-returned_error : (op_code : ℕ) → Stable (returned_error hex_decode gds_to_msg op_code)
  unfolding returned_error
  Stable-returned_error op_code = search (Stable-parse_response, stable_rules) depth 9

  Stable-read_auth_plugin : (op_code : ℕ) → Stable (read_auth_plugin hex_decode gds_to_msg op_code)
  unfolding read_auth_plugin
  Stable-read_auth_plugin op_code = search stable_reads depth 20

  Stable-accepted : (op_code : ℕ) → Stable (accepted hex_decode gds_to_msg op_code)
  unfolding accepted
  Stable-accepted op_code = search (Stable-read_auth_plugin, stable_reads) depth 20

  pub Stable-parse_accept : Stable (parse_accept hex_decode gds_to_msg)
  unfolding parse_accept
  Stable-parse_accept = search (Stable-returned_error, Stable-accepted, stable_reads) depth 20

  pub Stable-parse_cont_auth : Stable (parse_cont_auth hex_decode gds_to_msg)
  unfolding parse_cont_auth
  Stable-parse_cont_auth = search (Stable-returned_error, stable_reads) depth 20

  -- The SRP block of an `accept_data` or `cond_accept` packet as the server sends it.
  read_auth_plugin_truncated :
      (op_code : ℕ) (block rest : Bytes)
      → CarriesData op_code
      → length block < 2 ^ 32
      → parse_srp_auth_data hex_decode block ≡ err (other missing_bytes)
      → read_auth_plugin hex_decode gds_to_msg op_code (put_wire_bytes block ++ rest)
        ≡ failed (other missing_bytes) rest
  unfolding read_auth_plugin
  read_auth_plugin_truncated _ block rest (inl e) hb h =
      rw (e, get_wire_bytes-put_wire_bytes block rest hb, h)
  read_auth_plugin_truncated _ block rest (inr e) hb h =
      rw (e, get_wire_bytes-put_wire_bytes block rest hb, h)

  accepted_truncated :
      (op_code arch kind : ℕ) (block rest : Bytes) (v : ProtocolVersion)
      → CarriesData op_code
      → arch < 2 ^ 32
      → kind < 2 ^ 32
      → length block < 2 ^ 32
      → parse_srp_auth_data hex_decode block ≡ err (other missing_bytes)
      → accepted hex_decode gds_to_msg op_code (
          put_u32 (version_code v)
          ++ (put_u32 arch ++ (put_u32 kind ++ (put_wire_bytes block ++ rest))))
        ≡ failed (other missing_bytes) rest
  unfolding accepted
  accepted_truncated op_code arch kind block rest v codes ha hk hb h =
      let back : Bytes = put_wire_bytes block ++ rest in
      rw (
        get_u32-put_u32 (version_code v) (put_u32 arch ++ (put_u32 kind ++ back))
            (small_version v refl),
        version_code-version_try_from v,
        get_u32-put_u32 arch (put_u32 kind ++ back) ha,
        get_u32-put_u32 kind back hk,
        read_auth_plugin_truncated op_code block rest codes hb h,
      )

  parse_accept-accepted :
      (op_code : ℕ) (rest : Bytes)
      → CarriesData op_code
      → parse_accept hex_decode gds_to_msg (put_u32 op_code ++ rest)
        ≡ accepted hex_decode gds_to_msg op_code rest
  unfolding parse_accept returned_error
  parse_accept-accepted op_code rest (inl e) =
      rw (get_u32-put_u32 op_code rest (small_code (inl e)), e)
  parse_accept-accepted op_code rest (inr e) =
      rw (get_u32-put_u32 op_code rest (small_code (inr e)), e)

  -- A block of SRP data that is cut off in its salt, in its key or in the length of one of them, inside
  -- an `accept_data` or `cond_accept` packet whose own length is right, is taken for a packet that has
  -- not arrived whole: the parse answers "incomplete", whatever bytes follow the block. The fields of
  -- the packet fit their widths, and the version is one that the client knows.
  pub parse_accept_truncated :
      (op_code version arch kind : ℕ) (block rest : Bytes)
      → CarriesData op_code
      → (v : ProtocolVersion) → version ≡ version_code v
      → arch < 2 ^ 32
      → kind < 2 ^ 32
      → length block < 2 ^ 32
      → CutOff block
      → (s : Bytes) × (parse_accept hex_decode gds_to_msg (
            put_u32 op_code
            ++ (put_u32 version
                ++ (put_u32 arch ++ (put_u32 kind ++ (put_wire_bytes block ++ rest)))))
          ≡ failed (other missing_bytes) s)
  parse_accept_truncated op_code version arch kind block rest codes v hv ha hk hb h = (
    rest,
    rw (
      hv,
      parse_accept-accepted op_code
          (put_u32 (version_code v)
            ++ (put_u32 arch ++ (put_u32 kind ++ (put_wire_bytes block ++ rest))))
          codes,
      accepted_truncated op_code arch kind block rest v codes ha hk hb
          (parse_srp_auth_data-CutOff hex_decode block h),
    ),
  )

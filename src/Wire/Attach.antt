-- ===== src/Wire/Attach.antt =====
-- rsfbclient-rust/src/wire.rs: the requests that attach to a database or create one, and their
-- parameter block. `hash_with` is `pwhash::unix_crypt::hash_with("9z", _)`; `proof` is the hexadecimal
-- proof of `srp_verifier` for a plugin, a user, a password and the server's data.
pub mod Layout
use rsfbclient.Base.{
  ltb, if◌then◌else◌, length, drop, ℕ, Bool, false, Option, none, some, List, [], ◌∷◌, ◌++◌, Bytes,
}
use rsfbclient.Error.{Result, ok}
use rsfbclient.Error.Chain.{◌>>=◌}
use rsfbclient.Charset.{Charset}
use rsfbclient.Util.{put_u8, put_u32, put_u32_le, put_wire_bytes}
use rsfbclient.Consts.{ProtocolVersion, v10, v11, v12, v13, AuthPluginType, name, plugin_list}
use rsfbclient.Consts.Op.{WireOp, op}
use rsfbclient.Consts.Ibase.{
  isc_dpb_version1, isc_dpb_version2, isc_dpb_page_size, isc_dpb_lc_ctype, isc_dpb_user_name,
  isc_dpb_sql_role_name, isc_dpb_sql_dialect, isc_dpb_no_db_triggers, isc_dpb_password,
  isc_dpb_password_enc, isc_dpb_auth_plugin_name, isc_dpb_auth_plugin_list,
  isc_dpb_specific_auth_data,
}
use rsfbclient.Wire.Accept.{SrpAuthData, AuthPlugin}

pub data Dialect : Type 0 where
  d1 d2 d3 : Dialect

-- `dialect as u8`
abbrev pub dialect_code : Dialect → ℕ
dialect_code d1 = 1
dialect_code d2 = 2
dialect_code d3 = 3

pub record DpbData : Type 0 where
  pub tag : ℕ
  pub data_bytes : Bytes

-- `data.iter().map(|d| d.data.len()).max().unwrap_or_default()`
unfoldable pub max_len : List DpbData → ℕ
max_len [] = 0
max_len (d ∷ ds) =
    let rest = max_len ds in if ltb rest (length d.data_bytes) then length d.data_bytes else rest

-- The loop over the parameters; `v2` gives each length four bytes in place of one.
unfoldable pub dpb_items : Bool → List DpbData → Bytes
dpb_items v2 [] = []
dpb_items v2 (d ∷ ds) =
    put_u8 d.tag
    ++ ((if v2 then put_u32_le (length d.data_bytes) else put_u8 (length d.data_bytes))
        ++ (d.data_bytes ++ dpb_items v2 ds))

unfoldable pub dpb : List DpbData → Bytes
dpb params =
    let v2 = ltb 255 (max_len params) in
    put_u8 (if v2 then isc_dpb_version2 else isc_dpb_version1) ++ dpb_items v2 params

abbrev param : ℕ → Bytes → List DpbData
param tag data_bytes = record { tag = tag; data_bytes = data_bytes } ∷ []

abbrev optional : {A : Type 0} → Option A → (A → List DpbData) → List DpbData
optional none f = []
optional (some a) f = f a

module _ (hash_with : Bytes → Bytes)
    (proof : AuthPluginType → Bytes → Bytes → SrpAuthData → Result Bytes) where
  -- The proof of a password that was not verified on `cont_auth`.
  proof_params : Bytes → Bytes → Option AuthPlugin → Result (List DpbData)
  proof_params user pass none = ok []
  proof_params user pass (some auth) = elim auth.auth_data [
    | none ↦ ok []
    | some auth_data ↦ (do
      hex ← proof auth.kind user pass auth_data
      ok (
          param isc_dpb_auth_plugin_name (name auth.kind)
          ++ (param isc_dpb_auth_plugin_list plugin_list ++ param isc_dpb_specific_auth_data hex)))
  ]

  password_params : Bytes → Bytes → ProtocolVersion → Option AuthPlugin → Result (List DpbData)
  unfolding proof_params
  password_params user pass v10 auth_plugin = ok (param isc_dpb_password pass)
  password_params user pass v11 auth_plugin =
      ok (param isc_dpb_password_enc (drop 2 (hash_with pass)))
  password_params user pass v12 auth_plugin =
      ok (param isc_dpb_password_enc (drop 2 (hash_with pass)))
  password_params user pass v13 auth_plugin = proof_params user pass auth_plugin

  -- The parameters that `build_dpb` collects.
  unfoldable pub build_params :
      (user pass : Bytes) (protocol : ProtocolVersion) (charset : Charset) (page_size : Option ℕ)
      (role_name : Option Bytes) (dialect : Dialect) (no_db_triggers : Bool)
      (auth_plugin : Option AuthPlugin)
      → Result (List DpbData)
  unfolding password_params
  build_params user pass protocol charset page_size role_name dialect no_db_triggers auth_plugin =
      do
        secret ← password_params user pass protocol auth_plugin
        ok (
            optional page_size (λ ps. param isc_dpb_page_size (put_u32 ps))
            ++ (param isc_dpb_lc_ctype charset.on_firebird
                ++ (param isc_dpb_user_name user
                    ++ (optional role_name (λ role. param isc_dpb_sql_role_name role)
                        ++ (param isc_dpb_sql_dialect (dialect_code dialect ∷ [])
                            ++ ((if no_db_triggers
                                  then param isc_dpb_no_db_triggers (1 ∷ [])
                                  else [])
                                ++ secret))))))

  unfoldable pub build_dpb :
      (user pass : Bytes) (protocol : ProtocolVersion) (charset : Charset) (page_size : Option ℕ)
      (role_name : Option Bytes) (dialect : Dialect) (no_db_triggers : Bool)
      (auth_plugin : Option AuthPlugin)
      → Result Bytes
  build_dpb user pass protocol charset page_size role_name dialect no_db_triggers auth_plugin = do
    params ←
        build_params user pass protocol charset page_size role_name dialect no_db_triggers
          auth_plugin
    ok (dpb params)

  unfoldable pub attach :
      (db_name user pass : Bytes) (protocol : ProtocolVersion) (charset : Charset)
      (role_name : Option Bytes) (dialect : Dialect) (no_db_triggers : Bool)
      (auth_plugin : Option AuthPlugin)
      → Result Bytes
  attach db_name user pass protocol charset role_name dialect no_db_triggers auth_plugin = do
    block ← build_dpb user pass protocol charset none role_name dialect no_db_triggers auth_plugin
    ok (
        put_u32 (op WireOp.attach)
        ++ (put_u32 0 ++ (put_wire_bytes db_name ++ put_wire_bytes block)))

  unfoldable pub create :
      (db_name user pass : Bytes) (protocol : ProtocolVersion) (charset : Charset)
      (page_size : Option ℕ) (role_name : Option Bytes) (dialect : Dialect)
      (auth_plugin : Option AuthPlugin)
      → Result Bytes
  create db_name user pass protocol charset page_size role_name dialect auth_plugin = do
    block ← build_dpb user pass protocol charset page_size role_name dialect false auth_plugin
    ok (
        put_u32 (op WireOp.create)
        ++ (put_u32 0 ++ (put_wire_bytes db_name ++ put_wire_bytes block)))

-- ===== src/Wire/Accept.antt =====
-- rsfbclient-rust/src/wire.rs: the answers to a connection request and to an authentication step, the
-- event notification, the auxiliary port and the affected rows. `hex_decode` is `hex::decode` of the
-- hex crate.
pub mod Stability
use rsfbclient.Base.{
  ltb, ◌==◌, if◌then◌else◌, length, get_or, ℕ, ◌+◌, ◌%◌, Bool, not, ◌&&◌, ◌||◌, Option, none, some,
  [], ◌∷◌, Bytes,
}
use rsfbclient.Error.{
  invalid_aux_address, no_aux_port, invalid_hex_key, invalid_affected_rows, other, Result, ok, err,
}
use rsfbclient.Consts.{ProtocolVersion, version_try_from, AuthPluginType, parse}
use rsfbclient.Consts.Op.{WireOp, op}
use rsfbclient.Consts.Ibase.{
  isc_info_end, isc_info_req_select_count, isc_info_req_insert_count, isc_info_req_update_count,
  isc_info_req_delete_count,
}
use rsfbclient.Reader.{Outcome, done, failed, Parser, ◌>>=◌, ◌>>◌, pure, fail, lift}
use rsfbclient.Reader.Loop.{Next, again, stop, loop}
use rsfbclient.Util.{
  from_be, advance, slice_to, get_u8, get_u16_le, get_u32, get_u32_le, get_wire_bytes,
}
use rsfbclient.Wire.Response.{err_conn_rejected, parse_response}

pub record SrpAuthData : Type 0 where
  pub salt : Bytes
  pub pub_key : Bytes

pub record AuthPlugin : Type 0 where
  pub kind : AuthPluginType
  pub auth_data : Option SrpAuthData
  pub keys : Bytes

pub record ConnectionResponse : Type 0 where
  pub version : ProtocolVersion
  pub auth_plugin : Option AuthPlugin
  pub continue_auth : Bool

-- `parse(&mut block)?` on bytes cut out of the response: what the block has left is dropped.
abbrev pub answer_of : {A : Type 0} → Outcome Bytes A → Result A
answer_of (done a s) = ok a
answer_of (failed e s) = err e

abbrev hex_or_err : Option Bytes → Result Bytes
hex_or_err none = err (other invalid_hex_key)
hex_or_err (some b) = ok b

module _ (hex_decode : Bytes → Option Bytes) where
  unfoldable pub read_srp_auth_data : Parser Bytes SrpAuthData
  read_srp_auth_data = do
    len ← get_u16_le
    salt ← slice_to len
    advance len
    len' ← get_u16_le
    digits ← slice_to len'
    pub_key ← lift (hex_or_err (hex_decode (if not (len' % 2 == 0) then b'0' ∷ digits else digits)))
    advance len'
    pure (record { salt = salt; pub_key = pub_key })

  unfoldable pub parse_srp_auth_data : Bytes → Result (Option SrpAuthData)
  parse_srp_auth_data [] = ok none
  parse_srp_auth_data (b ∷ bytes) =
      answer_of ((do parsed ← read_srp_auth_data; pure (some parsed)) (b ∷ bytes))

  module _ (gds_to_msg : ℕ → Bytes) where
    -- `if op_code == WireOp::Response as u32 { parse_response(resp)?; }`
    unfoldable pub returned_error : ℕ → Parser Bytes (Unit {0})
    returned_error op_code =
        if op_code == op WireOp.response
        then (do _ ← parse_response gds_to_msg; pure tt)
        else pure tt

    unfoldable pub read_auth_plugin : ℕ → Parser Bytes (Option AuthPlugin)
    read_auth_plugin op_code =
        if op_code == op WireOp.accept_data || op_code == op WireOp.cond_accept
        then (do
          block ← get_wire_bytes
          auth_data ← lift (parse_srp_auth_data block)
          plugin_name ← get_wire_bytes
          plugin ← lift (parse plugin_name)
          authenticated ← get_u32
          keys ← get_wire_bytes
          pure (
              if not (authenticated == 0)
              then none
              else some (record { kind = plugin; auth_data = auth_data; keys = keys })))
        else pure none

    -- What follows the operation code of an accepted connection.
    unfoldable pub accepted : ℕ → Parser Bytes ConnectionResponse
    accepted op_code = do
      code ← get_u32
      version ← lift (version_try_from code)
      _ ← get_u32
      _ ← get_u32
      auth_plugin ← read_auth_plugin op_code
      pure (record {
        version = version;
        auth_plugin = auth_plugin;
        continue_auth = op_code == op WireOp.cond_accept;
      })

    unfoldable pub parse_accept : Parser Bytes ConnectionResponse
    parse_accept = do
      op_code ← get_u32
      returned_error op_code
      (if not (op_code == op WireOp.accept)
            && not (op_code == op WireOp.accept_data)
            && not (op_code == op WireOp.cond_accept)
          then err_conn_rejected op_code
          else accepted op_code)

    unfoldable pub parse_cont_auth : Parser Bytes AuthPlugin
    parse_cont_auth = do
      op_code ← get_u32
      returned_error op_code
      (if not (op_code == op WireOp.cont_auth) then err_conn_rejected op_code else (do
        block ← get_wire_bytes
        auth_data ← lift (parse_srp_auth_data block)
        plugin_name ← get_wire_bytes
        plugin ← lift (parse plugin_name)
        _ ← get_wire_bytes
        keys ← get_wire_bytes
        pure (record { kind = plugin; auth_data = auth_data; keys = keys })))

pub record EventNotification : Type 0 where
  pub event_id : ℕ
  pub epb : Bytes

unfoldable pub parse_event_notification : Parser Bytes EventNotification
parse_event_notification = do
  op_code ← get_u32
  (if not (op_code == op WireOp.event) then err_conn_rejected op_code else (do
    _ ← get_u32
    epb ← get_wire_bytes
    _ ← get_u32
    _ ← get_u32
    event_id ← get_u32
    pure (record { event_id = event_id; epb = epb })))

unfoldable pub parse_aux_port : Bytes → Result ℕ
parse_aux_port address =
    if ltb (length address) 4
    then err (other invalid_aux_address)
    else (let port = from_be (get_or address 2 0 ∷ get_or address 3 0 ∷ []) in
        if port == 0 then err (other no_aux_port) else ok port)

-- One round of `parse_info_sql_affected_rows`, with the rows so far.
pub affected_round : ℕ → Parser Bytes (Next ℕ ℕ)
affected_round affected_rows = do
  item ← get_u8
  (if item == isc_info_req_select_count
      then (do advance 6; pure (again affected_rows))
      else (if item == isc_info_req_insert_count
            || item == isc_info_req_update_count
            || item == isc_info_req_delete_count
          then (do advance 2; count ← get_u32_le; pure (again (affected_rows + count)))
          else (if item == isc_info_end
              then pure (stop affected_rows)
              else fail invalid_affected_rows)))

-- The debug assertion on the first item is left out, as in a release build.
unfoldable pub parse_info_sql_affected_rows : Parser Bytes ℕ
unfolding affected_round
parse_info_sql_affected_rows = do
  item ← get_u8
  (if item == isc_info_end then pure 0 else (do advance 2; loop affected_round 0))

-- ===== src/Wire/Response.antt =====
-- rsfbclient-rust/src/wire.rs, `Response` and `parse_response`; util.rs, `err_conn_rejected`.
pub mod Laws
use rsfbclient.Base.{ℕ, Bytes}
use rsfbclient.Error.{conn_rejected}
use rsfbclient.Reader.{Parser, ◌>>=◌, ◌>>◌, pure, fail}
use rsfbclient.Util.{get_u32, get_u64, get_wire_bytes}
use rsfbclient.Wire.Status.{parse_status_vector}

abbrev pub err_conn_rejected {ℓ} : {S A : Type ℓ} → ℕ → Parser S A
err_conn_rejected op_code = fail (conn_rejected op_code)

pub record Response : Type 0 where
  pub handle : ℕ
  pub object_id : ℕ
  pub contents : Bytes

module _ (gds_to_msg : ℕ → Bytes) where
  unfoldable pub parse_response : Parser Bytes Response
  parse_response = do
    handle ← get_u32
    object_id ← get_u64
    contents ← get_wire_bytes
    _ ← parse_status_vector gds_to_msg
    pure (record { handle = handle; object_id = object_id; contents = contents })

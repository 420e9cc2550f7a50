-- ===== src/Error.antt =====
-- rsfbclient-core/src/error.rs, and the messages that the modelled code puts into an error.
-- A message is a constructor in place of its text: no two of the texts are the same, and the code
-- compares a message with one text only, `ERR_MISSING_BYTES` of rsfbclient-rust/src/util.rs.
pub mod Chain
use rsfbclient.Base.{Bool, true, false, ℕ, Bytes}
use rsfbclient.Base.Int.{ℤ}

pub data Message : Type 0 where
  -- util.rs
  missing_bytes : Message
  conn_rejected : ℕ → Message
  -- wire.rs
  invalid_aux_address : Message
  no_aux_port : Message
  fetch_no_columns : Message
  column_not_implemented : ℕ → ℤ → Message
  unknown_status_item : ℕ → Message
  unknown_protocol : ℕ → Message
  invalid_hex_key : Message
  invalid_affected_rows : Message
  srp_error : Message
  -- no text of the program: the answer of a loop without fuel, which `loop_unroll` rules out
  out_of_fuel : Message
  -- no text of the program: a call that still blocks in a read of its socket
  blocked : Message
  -- consts.rs
  invalid_auth_plugin : Bytes → Message
  -- xsqlda.rs
  invalid_xsqlda : Message
  unknown_stmt_type : ℕ → Message
  invalid_xsqlda_item : ℕ → Message
  unsupported_column : ℕ → Message
  blr_not_implemented : ℕ → Message
  -- charset.rs
  invalid_column_text : Message
  -- no text of the program: the code panics on a date or a time, or reads a day before the year 0
  unsupported_timestamp : Message
  invalid_param_text : Message
  -- events.rs
  empty_event_name : Message
  long_event_name : ℕ → Message
  long_event_block : ℕ → Message
  empty_event_block : Message
  event_block_version : ℕ → Message
  truncated_event_block : Message
  event_not_held : Bytes → Message
  event_channel_closed : Message
  event_server_closed : Message
  event_unexpected_op : ℕ → Message
  announced_event_block : ℕ → Message
  -- client.rs
  closed_by_server : Message
  not_connected : Message
  event_not_open : Message
  unexpected_fetch_op : ℕ → Message
  too_many_rows : Message
  too_many_empty_batches : Message
  wrong_param_count : ℕ → ℕ → Message
  -- params.rs
  param_not_found : Bytes → Message
  -- srp.rs
  malicious_b_pub : Message
  -- stmt_cache.rs; no text of the program: the code panics
  text_not_cached : Message
  -- arc4.rs; no text of the program: the code panics
  bad_cipher_key : Message

pub data FbError : Type 0 where
  sql : ℤ → Bytes → FbError
  io : FbError
  other : Message → FbError

-- `is_incomplete` of rsfbclient-rust/src/util.rs.
abbrev pub is_incomplete : FbError → Bool
is_incomplete (other missing_bytes) = true
is_incomplete _ = false

pub data Result {ℓ} (A : Type ℓ) : Type ℓ where
  ok : A → Result A
  err : FbError → Result A

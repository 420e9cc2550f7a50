-- ===== src/Client/Session/Blobs.antt =====
-- rsfbclient-rust/src/client.rs: the blob operations of a connection; wire.rs, `into_column`.
pub mod Segments
pub mod Rounds
pub mod Whole
pub mod Writing
use rsfbclient.Base.{
  ltb, ◌==◌, if◌then◌else◌, length, ℕ, Bool, true, false, List, [], ◌∷◌, ◌++◌, Bytes,
}
use rsfbclient.Base.Chunks.{chunks}
use rsfbclient.Charset.{decode}
use rsfbclient.Consts.Ibase.{sql_blob}
use rsfbclient.Reader.{done, Parser, ◌>>=◌, ◌>>◌, pure, lift}
use rsfbclient.Reader.Loop.{Next, again, stop, loop}
use rsfbclient.Util.{advance, slice_to, get_u16_le}
use rsfbclient.SqlTypes.{SqlType, Column}
use rsfbclient.Wire.Accept.{answer_of}
use rsfbclient.Wire.Requests
use rsfbclient.Wire.Rows.{ParsedColumn, complete, blob}
use rsfbclient.Client.Session.{Call, the, request, request_done, request_handle}
use rsfbclient.Client.Session.Turns.{turn_loop}
use rsfbclient.Error.{Result}

abbrev pub max_data_length : ℕ
max_data_length = 32_767

-- A round of the loop over the answer of `get_segment`, with the data so far.
pub segment_round : Bytes → Parser Bytes (Next Bytes Bytes)
segment_round blob_data bytes =
    if ltb (length bytes) 2
    then done (stop blob_data) bytes
    else (do
      len ← get_u16_le
      segment ← slice_to len
      advance len
      pure (again (blob_data ++ segment)))
        bytes

unfoldable pub segments : Bytes → Result Bytes
unfolding segment_round
segments bytes = answer_of (loop segment_round [] bytes)

abbrev blob_value : Bool → Bytes → Call SqlType
blob_value true blob_data = pure (SqlType.binary blob_data)
blob_value false blob_data = do
  charset ← the (λ s. s.charset)
  s ← lift (decode charset blob_data)
  pure (SqlType.text s)

module _ (gds_to_msg : ℕ → Bytes) where
  unfoldable pub create_blob : ℕ → Call (ℕ × ℕ)
  create_blob tr_handle = do
    resp ← request gds_to_msg (Requests.create_blob tr_handle)
    pure (resp.handle, resp.object_id)

  unfoldable pub put_each : ℕ → List Bytes → Call (Unit {0})
  put_each blob_handle [] = pure tt
  put_each blob_handle (segment ∷ rest) = do
    request_done gds_to_msg (Requests.put_segment blob_handle segment)
    put_each blob_handle rest

  unfoldable pub put_segments : ℕ → Bytes → Call (Unit {0})
  put_segments blob_handle bytes = put_each blob_handle (chunks max_data_length bytes)

  unfoldable pub open_blob : ℕ → ℕ → Call ℕ
  open_blob tr_handle blob_id = request_handle gds_to_msg (Requests.open_blob tr_handle blob_id)

  unfoldable pub get_segment : ℕ → Call (Bytes × Bool)
  get_segment blob_handle = do
    resp ← request gds_to_msg (Requests.get_segment blob_handle)
    blob_data ← lift (segments resp.contents)
    pure (blob_data, resp.handle == 2)

  unfoldable pub close_blob : ℕ → Call (Unit {0})
  close_blob blob_handle = request_done gds_to_msg (Requests.close_blob blob_handle)

  -- A round of the loop in `into_column`, with the data so far.
  pub blob_round : ℕ → Bytes → Call (Next Bytes Bytes)
  blob_round blob_handle so_far = do
    segment ← get_segment blob_handle
    (if segment.1 then pure (stop (so_far ++ segment.0)) else pure (again (so_far ++ segment.0)))

  unfoldable pub into_column : ℕ → ParsedColumn → Call Column
  unfolding blob_round
  into_column tr_handle (complete c) = pure c
  into_column tr_handle (blob is_binary id col_name) = do
    blob_handle ← open_blob tr_handle id
    blob_data ← turn_loop (blob_round blob_handle) []
    close_blob blob_handle
    value ← blob_value is_binary blob_data
    pure (record { name = col_name; raw_type = sql_blob; value = value })

  -- `for pc in parsed { cols.push(pc.into_column(self, tr_handle)?); }`
  unfoldable pub into_columns : ℕ → List ParsedColumn → Call (List Column)
  into_columns tr_handle [] = pure []
  into_columns tr_handle (pc ∷ parsed) = do
    col ← into_column tr_handle pc
    cols ← into_columns tr_handle parsed
    pure (col ∷ cols)

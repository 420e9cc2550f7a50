-- ===== src/Wire/Status/Stability.antt =====
-- rsfbclient-rust/src/wire.rs, `parse_status_vector`: stability and the fuel of its loop.
use rsfbclient.Base.{ℕ, Bytes}
use rsfbclient.Reader.{bytes_stream}
use rsfbclient.Reader.Stable.{Stable, Stable-lift, Stable-bind}
use rsfbclient.Reader.Loop.{loop}
use rsfbclient.Reader.Loop.Laws.{Shrinks, Stable-loop}
use rsfbclient.Reader.Moves.{Forward, Takes, Takes-bind, Takes-Shrinks}
use rsfbclient.Util.{get_u32}
use rsfbclient.Util.Reads.{Stable-get_u32, stable_reads}
use rsfbclient.Util.Moves.{Takes-get_u32, forward_reads}
use rsfbclient.Wire.Status.{
  StatusVars, no_status, finish_status, status_round, parse_status_vector, gds_item, number_item,
  string_item, interpreted_item, sql_state_item, status_item,
}

module _ (gds_to_msg : ℕ → Bytes) where
  Stable-status_item : (v : StatusVars) (cod : ℕ) → Stable (status_item gds_to_msg v cod)
  unfolding status_item gds_item number_item string_item interpreted_item sql_state_item
  Stable-status_item v cod = search stable_reads depth 20

  Forward-status_item : (v : StatusVars) (cod : ℕ) → Forward (status_item gds_to_msg v cod)
  unfolding status_item gds_item number_item string_item interpreted_item sql_state_item
  Forward-status_item v cod = search forward_reads depth 20

  Takes-status_round : (v : StatusVars) → Takes (status_round gds_to_msg v)
  unfolding status_round
  Takes-status_round v = Takes-bind get_u32 _ Takes-get_u32 (Forward-status_item v)

  Stable-status_round : (v : StatusVars) → Stable (status_round gds_to_msg v)
  unfolding status_round
  Stable-status_round v = Stable-bind get_u32 _ Stable-get_u32 (Stable-status_item v)

  pub status-Shrinks : Shrinks (status_round gds_to_msg)
  status-Shrinks = Takes-Shrinks _ Takes-status_round

  pub Stable-parse_status_vector : Stable (parse_status_vector gds_to_msg)
  unfolding parse_status_vector finish_status
  Stable-parse_status_vector =
      Stable-bind (loop (status_round gds_to_msg) no_status) _
        (Stable-loop status-Shrinks Stable-status_round no_status) (λ v. Stable-lift _)

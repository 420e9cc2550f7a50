-- ===== src/Events.antt =====
-- rsfbclient-rust/src/events.rs: event names and event parameter blocks.
pub mod RoundTrip
pub mod Sound
pub mod Channel
use rsfbclient.Base.{
  ltb, ◌==◌, if◌then◌else◌, length, take, drop, ℕ, zero, suc, ◌+◌, not, ◌&&◌, List, [], ◌∷◌, ◌++◌,
  Bytes,
}
use rsfbclient.Error.{
  out_of_fuel, empty_event_name, long_event_name, long_event_block, empty_event_block,
  event_block_version, truncated_event_block, event_not_held, other, Result, ok, err,
}
use rsfbclient.Error.Chain.{◌>>=◌}
use rsfbclient.Charset.{Charset, decode, encode}
use rsfbclient.Util.{from_le, put_u8, put_u32_le}
use rsfbclient.Consts.{bytes_eq}

abbrev pub epb_version1 : ℕ
epb_version1 = 1

abbrev pub max_event_name_len : ℕ
max_event_name_len = 255

abbrev pub max_event_block_len : ℕ
max_event_block_len = 65535

-- `name.trim_end_matches(' ')`
unfoldable pub trim_end_blanks : Bytes → Bytes
trim_end_blanks [] = []
trim_end_blanks (x ∷ xs) =
    let rest = trim_end_blanks xs in if x == 32 && length rest == 0 then [] else x ∷ rest

unfoldable pub normalize_event_name : Bytes → Result Bytes
normalize_event_name given =
    let trimmed = trim_end_blanks given in
    if length trimmed == 0 then err (other empty_event_name) else ok trimmed

unfoldable pub encode_event_name : Charset → Bytes → Result Bytes
encode_event_name charset given = do
  trimmed ← normalize_event_name given
  encoded ← encode charset trimmed
  if ltb max_event_name_len (length encoded)
      then err (other (long_event_name (length encoded)))
      else ok encoded

-- The loop over the events, behind the version byte.
event_entries : Charset → List (Bytes × ℕ) → Result Bytes
event_entries charset [] = ok []
event_entries charset ((given, count) ∷ events) = do
  encoded ← encode_event_name charset given
  rest ← event_entries charset events
  ok (put_u8 (length encoded) ++ (encoded ++ (put_u32_le count ++ rest)))

unfoldable pub event_block : Charset → List (Bytes × ℕ) → Result Bytes
unfolding event_entries
event_block charset events = do
  entries ← event_entries charset events
  if ltb max_event_block_len (length (epb_version1 ∷ entries))
      then err (other (long_event_block (length (epb_version1 ∷ entries))))
      else ok (epb_version1 ∷ entries)

-- The `while let` loop over what is left of the block. Each round takes the length byte at least, so
-- a block's length is fuel enough.
parse_entries : ℕ → Charset → Bytes → Result (List (Bytes × ℕ))
parse_entries fuel charset [] = ok []
parse_entries zero charset (len ∷ tail) = err (other out_of_fuel)
parse_entries (suc fuel) charset (len ∷ tail) =
    if ltb (length tail) (len + 4) then err (other truncated_event_block) else (do
      text ← decode charset (take len tail)
      events ← parse_entries fuel charset (drop 4 (drop len tail))
      ok ((text, from_le (take 4 (drop len tail))) ∷ events))

unfoldable pub parse_event_block : Charset → Bytes → Result (List (Bytes × ℕ))
unfolding parse_entries
parse_event_block charset [] = err (other empty_event_block)
parse_event_block charset (version ∷ rest) =
    if not (version == epb_version1)
    then err (other (event_block_version version))
    else parse_entries (length rest) charset rest

unfoldable pub event_count : List (Bytes × ℕ) → Bytes → Result ℕ
event_count [] given = err (other (event_not_held given))
event_count ((event, count) ∷ events) given =
    if bytes_eq event given then ok count else event_count events given

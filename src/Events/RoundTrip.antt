-- ===== src/Events/RoundTrip.antt =====
-- rsfbclient-rust/src/events.rs: event parameter blocks, built and parsed.
use native.Mathlib.Nat.{mod-eq_of_lt}
use rsfbclient.Base.{
  ltb, if◌then◌else◌, length, take, drop, All, length-append, take_all, drop_all, ℕ, zero, suc, ◌+◌,
  ◌^◌, ◌≤◌, ◌<◌, ◌≡◌, refl, sym, ap, ◌∙◌, List, [], ◌∷◌, ◌++◌, arith, Bytes,
}
use rsfbclient.Error.{long_event_block, other, ok, err}
use rsfbclient.Error.Chain.{chain_value, ok-injective}
use rsfbclient.Charset.{Charset, decode, encode}
use rsfbclient.Util.{le32, from_le, put_u8, put_u32_le}
use rsfbclient.Events.{
  epb_version1, max_event_block_len, trim_end_blanks, normalize_event_name, encode_event_name,
  event_block, parse_event_block, event_entries, parse_entries,
}

-- A text that comes back from the bytes of the charset, and a counter of 32 bits.
abbrev pub EventFits : Charset → Bytes × ℕ → Type 0
EventFits charset (given, count) =
    ((encoded : Bytes)
      → encode charset (trim_end_blanks given) ≡ ok encoded
      → decode charset encoded ≡ ok (trim_end_blanks given))
    × (count < 2 ^ 32)

-- What the block holds for the events: the names without their trailing blanks.
abbrev pub normalized : List (Bytes × ℕ) → List (Bytes × ℕ)
normalized [] = []
normalized ((given, count) ∷ events) = (trim_end_blanks given, count) ∷ normalized events

encode_event_name-ok :
    (charset : Charset) (given : Bytes) {encoded : Bytes}
    → encode_event_name charset given ≡ ok encoded
    → (encode charset (trim_end_blanks given) ≡ ok encoded) × (length encoded ≤ 255)
unfolding encode_event_name normalize_event_name
encode_event_name-ok charset given h = ground arith

parse_round :
    (fuel : ℕ) (charset : Charset) (len : ℕ) (tail text : Bytes) (events : List (Bytes × ℕ))
    → len + 4 ≤ length tail
    → decode charset (take len tail) ≡ ok text
    → parse_entries fuel charset (drop 4 (drop len tail)) ≡ ok events
    → parse_entries (suc fuel) charset (len ∷ tail)
      ≡ ok ((text, from_le (take 4 (drop len tail))) ∷ events)
unfolding parse_entries
parse_round fuel charset len tail text events h hd hr = ground arith

from_le-le32 : (n : ℕ) → n < 2 ^ 32 → from_le (le32 n) ≡ n
from_le-le32 n h = omega arith

entry-parse :
    (fuel : ℕ) (charset : Charset) (encoded text rest : Bytes) (count : ℕ)
    (events : List (Bytes × ℕ))
    → length encoded ≤ 255
    → count < 2 ^ 32
    → decode charset encoded ≡ ok text
    → parse_entries fuel charset rest ≡ ok events
    → parse_entries
        (suc fuel)
        charset
        (put_u8 (length encoded) ++ (encoded ++ (put_u32_le count ++ rest)))
      ≡ ok ((text, count) ∷ events)
entry-parse fuel charset encoded text rest count events hl hc hd hr =
    let tail : Bytes = encoded ++ (put_u32_le count ++ rest) in
    rw (mod-eq_of_lt {n = length encoded} {m = 256} (omega arith)) (
      parse_round fuel charset (length encoded) tail text events
        (omega (arith, length-append encoded (put_u32_le count ++ rest)))
        (rw (take_all encoded (put_u32_le count ++ rest)) hd)
        (rw (drop_all encoded (put_u32_le count ++ rest)) hr)
      ∙ rw (drop_all encoded (put_u32_le count ++ rest))
          (ap (λ n. ok ((text, n) ∷ events)) (from_le-le32 count hc)))

entry-step :
    (fuel : ℕ) (charset : Charset) (encoded text rest entries : Bytes) (count : ℕ)
    (events : List (Bytes × ℕ))
    → length encoded ≤ 255
    → count < 2 ^ 32
    → decode charset encoded ≡ ok text
    → put_u8 (length encoded) ++ (encoded ++ (put_u32_le count ++ rest)) ≡ entries
    → length entries ≤ fuel
    → ((f : ℕ) → length rest ≤ f → parse_entries f charset rest ≡ ok events)
    → parse_entries fuel charset entries ≡ ok ((text, count) ∷ events)
entry-step zero charset encoded text rest entries count events hl hc hd whole hf hr =
    absurd (omega (arith, ap length whole))
entry-step (suc fuel) charset encoded text rest entries count events hl hc hd whole hf hr =
    rw (← whole) (
      entry-parse fuel charset encoded text rest count events hl hc hd (
        hr fuel (omega (arith, ap length whole, length-append encoded (put_u32_le count ++ rest)))))

event_entries-parse :
    (charset : Charset) (events : List (Bytes × ℕ)) (fuel : ℕ) {entries : Bytes}
    → All (EventFits charset) events
    → event_entries charset events ≡ ok entries
    → length entries ≤ fuel
    → parse_entries fuel charset entries ≡ ok (normalized events)
unfolding event_entries
event_entries-parse charset [] fuel {entries} fits h hf =
    rw (← ok-injective h) (unfold parse_entries in refl)
event_entries-parse charset ((given, count) ∷ events) fuel {entries} ((back, hc), fits) h hf =
    let (encoded, (he, h1)) = chain_value _ (encode_event_name charset given) _ (sym h) in
    let (rest, (hr, h2)) = chain_value _ (event_entries charset events) _ h1 in
    let (enc, hl) = encode_event_name-ok charset given (sym he) in
    entry-step fuel charset encoded (trim_end_blanks given) rest entries count (normalized events)
      hl hc (back encoded enc) (ok-injective (sym h2)) hf
      (λ f hf'. event_entries-parse charset events f fits (sym hr) hf')

block_within :
    (entries epb : Bytes)
    → (if ltb max_event_block_len (length (epb_version1 ∷ entries))
        then err (other (long_event_block (length (epb_version1 ∷ entries))))
        else ok (epb_version1 ∷ entries))
      ≡ ok epb
    → (length (epb_version1 ∷ entries) ≤ 65535) × (epb ≡ epb_version1 ∷ entries)
block_within entries epb h = ground arith

-- A block that `event_block` builds holds at most 65535 bytes, and parses as the list of its events,
-- each name without its trailing blanks, for names that the charset decodes as it encoded them and
-- counters of 32 bits.
pub parse_event_block-event_block :
    (charset : Charset) (events : List (Bytes × ℕ)) (epb : Bytes)
    → All (EventFits charset) events
    → event_block charset events ≡ ok epb
    → (length epb ≤ 65535) × (parse_event_block charset epb ≡ ok (normalized events))
unfolding event_block parse_event_block
parse_event_block-event_block charset events epb fits h =
    let (entries, (he, h1)) = chain_value _ (event_entries charset events) _ (sym h) in
    let (small, same) = block_within entries epb (sym h1) in
    rw same (small, event_entries-parse charset events (length entries) fits (sym he) (omega arith))

-- ===== src/Wire/Text/Utf8.antt =====
-- `std::str::from_utf8`: which byte strings are UTF-8 (the well-formed sequences of the Unicode
-- standard, table 3-7).
use rsfbclient.Base.{
  ltb, leb, ◌==◌, if◌then◌else◌, ℕ, ◌-◌, Bool, true, false, ◌&&◌, Option, none, some, [], ◌∷◌,
  Bytes,
}

abbrev within : ℕ → ℕ → ℕ → Bool
within lo hi b = leb lo b && leb b hi

-- The range of a sequence's second byte, by its first, and how many bytes follow that.
abbrev second_low : ℕ → ℕ
second_low b = if b == 0xE0 then 0xA0 else (if b == 0xF0 then 0x90 else 0x80)

abbrev second_high : ℕ → ℕ
second_high b = if b == 0xED then 0x9F else (if b == 0xF4 then 0x8F else 0xBF)

abbrev after_second : ℕ → ℕ
after_second b = if ltb b 0xE0 then 0 else (if ltb b 0xF0 then 1 else 2)

-- What the bytes so far ask of the next one.
pub data Want : Type 0 where
  start : Want
  range : ℕ → ℕ → ℕ → Want

-- One byte on; `none` if it does not fit.
unfoldable pub utf8_step : Want → ℕ → Option Want
utf8_step start b =
    if leb b 0x7F
    then some start
    else (if within 0xC2 0xF4 b
        then some (range (second_low b) (second_high b) (after_second b))
        else none)
utf8_step (range lo hi left) b =
    if within lo hi b
    then (if left == 0 then some start else some (range 0x80 0xBF (left - 1)))
    else none

utf8_from : Want → Bytes → Bool
utf8_from start [] = true
utf8_from (range lo hi left) [] = false
utf8_from want (b ∷ bs) = elim (utf8_step want b) [ none ↦ false | some next ↦ utf8_from next bs ]

unfoldable pub is_utf8 : Bytes → Bool
unfolding utf8_from
is_utf8 bytes = utf8_from start bytes

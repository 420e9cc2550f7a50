-- ===== src/Events/Sound.antt =====
-- rsfbclient-rust/src/events.rs, `parse_event_block`: each round of its loop takes a byte, so that the
-- length of the block is fuel enough.
use rsfbclient.Base.{
  ltb, ◌==◌, if◌then◌else◌, length, take, drop, length-drop, not, Bool, true, false, ℕ, zero, suc,
  ◌+◌, ◌≤◌, ◌≡◌, refl, Option, none, some, [], ◌∷◌, Bytes, arith,
}
use rsfbclient.Error.{FbError, other, out_of_fuel, invalid_column_text, Result, ok, err}
use rsfbclient.Error.Chain.{◌>>=◌}
use rsfbclient.Charset.{Codec, Charset, or_err, decode_with, decode}
use rsfbclient.Events.{epb_version1, parse_entries, parse_event_block}

abbrev pub is_out_of_fuel : FbError → Bool
is_out_of_fuel (other out_of_fuel) = true
is_out_of_fuel _ = false

-- A value, or an error that the program has.
abbrev pub Sound : {A : Type 0} → Result A → Type 0
Sound (ok a) = Unit {0}
Sound (err e) = is_out_of_fuel e ≡ false

or_err-Sound : (o : Option Bytes) → Sound (or_err o invalid_column_text)
or_err-Sound none = refl
or_err-Sound (some b) = tt

decode_with-Sound : (codec : Option Codec) (bytes : Bytes) → Sound (decode_with codec bytes)
decode_with-Sound none bytes = ground arith
decode_with-Sound (some c) bytes = or_err-Sound (c.strict_decode bytes)

Sound-bind :
    {A B : Type 0} (r : Result A) (f : A → Result B)
    → Sound r
    → ((a : A) → Sound (f a))
    → Sound (r >>= f)
Sound-bind (ok a) f h hf = hf a
Sound-bind (err e) f h hf = h

Sound-if : {A : Type 0} (b : Bool) (x y : Result A) → Sound x → Sound y → Sound (if b then x else y)
Sound-if true x y hx hy = hx
Sound-if false x y hx hy = hy

parse_entries-Sound :
    (fuel : ℕ) (charset : Charset) (bytes : Bytes)
    → length bytes ≤ fuel
    → Sound (parse_entries fuel charset bytes)
unfolding parse_entries decode
parse_entries-Sound zero charset [] h = tt
parse_entries-Sound (suc fuel) charset [] h = tt
parse_entries-Sound zero charset (len ∷ tail) h = absurd (omega arith)
parse_entries-Sound (suc fuel) charset (len ∷ tail) h =
    Sound-if (ltb (length tail) (len + 4)) _ _ refl (
      Sound-bind (decode_with charset.on_rust (take len tail)) _
        (decode_with-Sound charset.on_rust (take len tail))
        (λ text.
          Sound-bind (parse_entries fuel charset (drop 4 (drop len tail))) _
            (parse_entries-Sound fuel charset (drop 4 (drop len tail))
              (omega (arith, length-drop 4 (drop len tail), length-drop len tail)))
            (λ events. tt)))

pub parse_event_block-Sound :
    (charset : Charset) (epb : Bytes) → Sound (parse_event_block charset epb)
unfolding parse_event_block
parse_event_block-Sound charset [] = refl
parse_event_block-Sound charset (version ∷ rest) =
    Sound-if (not (version == epb_version1)) _ _ refl
      (parse_entries-Sound (length rest) charset rest (omega arith))

-- ===== src/Wire/Text.antt =====
-- What rsfbclient-rust/src/wire.rs uses of Rust's strings. A string is the list of its UTF-8 bytes.
pub mod Utf8
use rsfbclient.Base.{
  ltb, ◌==◌, if◌then◌else◌, length, ℕ, zero, suc, ◌+◌, ◌-◌, ◌/◌, ◌%◌, Bool, true, false, ◌&&◌, [],
  ◌∷◌, ◌++◌, Bytes,
}
use rsfbclient.Base.Int.{ℤ, pos, negsuc}

abbrev starts_with : Bytes → Bytes → Bool
starts_with [] text = true
starts_with (p ∷ ps) [] = false
starts_with (p ∷ ps) (x ∷ xs) = p == x && starts_with ps xs

-- `text.replace(from, to)` for a pattern that is not empty: occurrences that do not overlap, from
-- left to right. `skip` counts what is left of the last occurrence.
abbrev replace_loop : Bytes → Bytes → ℕ → Bytes → Bytes
replace_loop from to skip [] = []
replace_loop from to (suc skip) (x ∷ xs) = replace_loop from to skip xs
replace_loop from to zero (x ∷ xs) =
    let found = starts_with from (x ∷ xs) in
    (if found then to else x ∷ []) ++ replace_loop from to (if found then length from - 1 else 0) xs

unfoldable pub replace : Bytes → Bytes → Bytes → Bytes
replace from to text = replace_loop from to 0 text

-- The decimal digits of a number, before `acc`; a number has at most as many digits as its value.
abbrev decimal_loop : ℕ → ℕ → Bytes → Bytes
decimal_loop zero n acc = acc
decimal_loop (suc fuel) n acc =
    let digit : Bytes = (b'0' + n % 10) ∷ acc in
    let rest = decimal_loop fuel (n / 10) digit in if ltb n 10 then digit else rest

-- `format!("{}", n)`
unfoldable pub decimal : ℕ → Bytes
decimal n = decimal_loop (suc n) n []

unfoldable pub decimal_ℤ : ℤ → Bytes
decimal_ℤ (pos n) = decimal n
decimal_ℤ (negsuc n) = b'-' ∷ decimal (suc n)

-- `if message.ends_with('\n') { message.pop(); }`
unfoldable pub pop_newline : Bytes → Bytes
pop_newline [] = []
pop_newline (x ∷ []) = if x == 10 then [] else x ∷ []
pop_newline (x ∷ (y ∷ ys)) = x ∷ pop_newline (y ∷ ys)

-- ===== src/Arc4.antt =====
-- rsfbclient-rust/src/arc4.rs: the stream cipher of the wire encryption, and the stream wrapped in it.
pub mod Bounds
pub mod Keystream
pub mod Stream
use rsfbclient.Base.{
  ltb, leb, ◌==◌, if◌then◌else◌, length, get_or, set, take, ℕ, zero, suc, ◌+◌, ◌%◌, bit_xor, not,
  ◌&&◌, Option, none, some, List, [], ◌∷◌, Bytes,
}

-- The array of 256 bytes is a list. `u8` additions wrap.
pub record Arc4 : Type 0 where
  pub i : ℕ
  pub j : ℕ
  pub state : List ℕ

abbrev pub wrapping_add : ℕ → ℕ → ℕ
wrapping_add a b = (a + b) % 256

-- `state.swap(a, b)` for indices in range.
unfoldable pub swap : List ℕ → ℕ → ℕ → List ℕ
swap state a b = set (set state a (get_or state b 0)) b (get_or state a 0)

-- The first loop of `new`: `from`, `from + 1`, … , `n` entries.
identity : ℕ → ℕ → List ℕ
identity zero from = []
identity (suc n) from = from ∷ identity n (from + 1)

-- The second loop of `new`, with `left` rounds to go; `i` is the loop's counter.
schedule : ℕ → Bytes → ℕ → ℕ → List ℕ → List ℕ
schedule zero key i j state = state
schedule (suc left) key i j state =
    let j' : ℕ = wrapping_add (wrapping_add j (get_or state i 0)) (get_or key (i % length key) 0) in
    schedule left key (i + 1) j' (swap state i j')

unfoldable pub initial : Bytes → Arc4
unfolding schedule identity
initial key = record { i = 0; j = 0; state = schedule 256 key 0 0 (identity 256 0) }

-- `assert!(!key.is_empty() && key.len() <= 256)`: `none` is the panic.
unfoldable pub new : Bytes → Option Arc4
new key = if not (length key == 0) && leb (length key) 256 then some (initial key) else none

-- `next`: the cipher's new state, and the byte of the key stream.
unfoldable pub step : Arc4 → Arc4
step rc4 =
    let i' : ℕ = wrapping_add rc4.i 1 in
    let j' : ℕ = wrapping_add rc4.j (get_or rc4.state i' 0) in
    record { i = i'; j = j'; state = swap rc4.state i' j' }

unfoldable pub key_byte : Arc4 → ℕ
key_byte rc4 =
    get_or rc4.state (wrapping_add (get_or rc4.state rc4.i 0) (get_or rc4.state rc4.j 0)) 0

abbrev pub next : Arc4 → ℕ × Arc4
next rc4 = (key_byte (step rc4), step rc4)

-- `process`, whose output has the input's length; the cipher moves on by a step a byte.
unfoldable pub process : Arc4 → Bytes → Bytes × Arc4
process rc4 [] = ([], rc4)
process rc4 (x ∷ input) =
    let (key, rc4') = next rc4 in
    let (output, rc4'') = process rc4' input in (bit_xor x key ∷ output, rc4'')

-- `Arc4Stream`, without the stream itself: what that reads and accepts is an argument of the calls.
pub record Arc4Stream : Type 0 where
  pub read_rc4 : Arc4
  pub write_rc4 : Arc4
  pub buf_len : ℕ

abbrev wrap : ℕ → Option Arc4 → Option Arc4Stream
wrap buf_len none = none
wrap buf_len (some rc4) = some (record { read_rc4 = rc4; write_rc4 = rc4; buf_len = buf_len })

unfoldable pub new_stream : Bytes → ℕ → Option Arc4Stream
new_stream key buf_len = wrap buf_len (new key)

-- `read`: `arrived` is what the stream put into the encrypted buffer, at most `buf_len` bytes.
unfoldable pub read : Arc4Stream → Bytes → Bytes × Arc4Stream
read self arrived =
    let (plain, rc4) = process self.read_rc4 arrived in (plain, record self { read_rc4 = rc4 })

-- `write`: at most `buf_len` bytes of `buf` are encrypted, and the stream accepts `accepted` bytes of
-- the result (at most as many as it is given). Answers what went into the stream.
unfoldable pub write : Arc4Stream → Bytes → ℕ → Bytes × Arc4Stream
write self buf accepted =
    let max_len : ℕ = if ltb self.buf_len (length buf) then self.buf_len else length buf in
    let (encrypted, rc4) = process self.write_rc4 (take max_len buf) in
    (take accepted encrypted, record self { write_rc4 = rc4 })

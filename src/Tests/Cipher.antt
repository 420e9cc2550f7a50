-- ===== src/Tests/Cipher.antt =====
-- Witnesses for rsfbclient-rust/src/arc4.rs.
use rsfbclient.Base.{◌≡◌, refl, [], ◌∷◌, append-nil, arith, Bytes}
use rsfbclient.Arc4.{initial, new, process, Arc4Stream, write}
use rsfbclient.Arc4.Bounds.{initial-IsValid, MadeFrom, new-MadeFrom}
use rsfbclient.Arc4.Stream.{reads, writes, reads-writes, reads-write_short}

abbrev a_key : Bytes
a_key = b'a' ∷ 32 ∷ b'k' ∷ b'e' ∷ b'y' ∷ []

abbrev side : Arc4Stream
side = record { read_rc4 = initial a_key; write_rc4 = initial a_key; buf_len = 4 }

new-MadeFrom_example : MadeFrom a_key (new a_key)
new-MadeFrom_example = new-MadeFrom a_key

-- Two writes that arrive as one piece.
reads-writes_example : reads side (writes side ((1 ∷ 2 ∷ []) ∷ (3 ∷ []) ∷ []) ∷ []) ≡ 1 ∷ 2 ∷ 3 ∷ []
reads-writes_example =
    reads-writes side side ((1 ∷ 2 ∷ []) ∷ (3 ∷ []) ∷ [])
      (writes side ((1 ∷ 2 ∷ []) ∷ (3 ∷ []) ∷ []) ∷ []) refl (initial-IsValid a_key)
      (omega arith, (omega arith, tt)) (omega arith, (omega arith, (omega arith, tt)))
      (append-nil _)

-- The stream accepts one byte of three.
reads-write_short_example :
    reads side (
      (write side (1 ∷ 2 ∷ 3 ∷ []) 1).0
      ∷ (write (write side (1 ∷ 2 ∷ 3 ∷ []) 1).1 (2 ∷ 3 ∷ []) 2).0
      ∷ [])
    ≡ 1
      ∷ (process
          (process (initial a_key) (1 ∷ [])).1
          (process (process (initial a_key) (1 ∷ 2 ∷ 3 ∷ [])).1 (2 ∷ 3 ∷ [])).0).0
reads-write_short_example =
    reads-write_short side side (1 ∷ 2 ∷ 3 ∷ []) 1 refl (initial-IsValid a_key) (omega arith)
      (omega arith, (omega arith, (omega arith, tt)))

-- ===== src/Arc4/Stream.antt =====
-- rsfbclient-rust/src/arc4.rs, `Arc4Stream`: the writes of one side and the reads of the other.
use rsfbclient.Base.{
  ltb, if◌then◌else◌, length, take, drop, concat, All, length-drop, ℕ, zero, suc, ◌≤◌, ◌<◌, bit_xor,
  ◌≡◌, refl, ap, ◌∙◌, List, [], ◌∷◌, ◌++◌, append-nil, arith, Bytes,
}
use rsfbclient.Arc4.{Arc4, step, key_byte, process, Arc4Stream, read, write}
use rsfbclient.Arc4.Bounds.{IsValid}
use rsfbclient.Arc4.Keystream.{process-append, process-process}

-- The reads of a stream, one for each piece that arrives.
abbrev pub reads : Arc4Stream → List Bytes → Bytes
reads self [] = []
reads self (piece ∷ pieces) = (read self piece).0 ++ reads (read self piece).1 pieces

-- Writes that the stream accepts whole.
abbrev pub writes : Arc4Stream → List Bytes → Bytes
writes self [] = []
writes self (buf ∷ bufs) =
    (write self buf (length buf)).0 ++ writes (write self buf (length buf)).1 bufs

reads-process :
    (self : Arc4Stream) (pieces : List Bytes)
    → reads self pieces ≡ (process self.read_rc4 (concat pieces)).0
reads-process self [] = unfold process in refl
reads-process self (piece ∷ pieces) =
    rw
      (reads-process (read self piece).1 pieces, process-append self.read_rc4 piece (concat pieces))
      (unfold read in refl)

pub length-process : (rc4 : Arc4) (xs : Bytes) → length (process rc4 xs).0 ≡ length xs
unfolding process
length-process rc4 [] = refl
length-process rc4 (x ∷ xs) = ap suc (length-process (step rc4) xs)

take-length {ℓ} : {A : Type ℓ} (xs : List A) → take (length xs) xs ≡ xs
take-length [] = refl
take-length (x ∷ xs) = ap (◌∷◌ x) (take-length xs)

-- A `write` of at most `buf_len` bytes encrypts all of them, whatever the stream accepts.
write_lem :
    (self : Arc4Stream) (buf : Bytes) (accepted : ℕ)
    → length buf ≤ self.buf_len
    → ((write self buf accepted).0 ≡ take accepted (process self.write_rc4 buf).0)
      × ((write self buf accepted).1 ≡ record self { write_rc4 = (process self.write_rc4 buf).1 })
unfolding write
write_lem self buf accepted h =
    let whole : (if ltb self.buf_len (length buf) then self.buf_len else length buf) ≡ length buf =
      ground arith in
    (rw (whole, take-length buf), rw (whole, take-length buf))

writes-process :
    (self : Arc4Stream) (bufs : List Bytes)
    → All (λ buf. length buf ≤ self.buf_len) bufs
    → writes self bufs ≡ (process self.write_rc4 (concat bufs)).0
writes-process self [] h = unfold process in refl
writes-process self (buf ∷ bufs) (h, hs) =
    let (sent, after) = write_lem self buf (length buf) h in
    let rest : writes (record self { write_rc4 = (process self.write_rc4 buf).1 }) bufs
        ≡ (process (process self.write_rc4 buf).1 (concat bufs)).0 =
      writes-process (record self { write_rc4 = (process self.write_rc4 buf).1 }) bufs hs in
    rw (sent, after, rest, process-append self.write_rc4 buf (concat bufs))
      (ap (λ xs. xs ++ (process (process self.write_rc4 buf).1 (concat bufs)).0)
        (rw (← length-process self.write_rc4 buf) (take-length (process self.write_rc4 buf).0)))

-- What one side writes in pieces of at most `buf_len` bytes, and the stream accepts whole, the other
-- side reads back as the same bytes, however they are cut on their way. The two sides start from the
-- same valid cipher.
pub reads-writes :
    (writer reader : Arc4Stream) (bufs pieces : List Bytes)
    → reader.read_rc4 ≡ writer.write_rc4
    → IsValid writer.write_rc4
    → All (λ buf. length buf ≤ writer.buf_len) bufs
    → All (λ b. b < 256) (concat bufs)
    → concat pieces ≡ writes writer bufs
    → reads reader pieces ≡ concat bufs
reads-writes writer reader bufs pieces keys v small bytes sent =
    rw (reads-process reader pieces, keys, sent, writes-process writer bufs small)
      (process-process writer.write_rc4 (concat bufs) v bytes).0

-- The front of an output is the output of the front.
take-process :
    (rc4 : Arc4) (n : ℕ) (xs : Bytes) → take n (process rc4 xs).0 ≡ (process rc4 (take n xs)).0
unfolding process
take-process rc4 zero xs = refl
take-process rc4 (suc n) [] = refl
take-process rc4 (suc n) (x ∷ xs) =
    ap (◌∷◌ (bit_xor x (key_byte (step rc4)))) (take-process (step rc4) n xs)

All-take : (n : ℕ) (xs : Bytes) → All (λ b. b < 256) xs → All (λ b. b < 256) (take n xs)
All-take zero xs h = tt
All-take (suc n) [] h = tt
All-take (suc n) (x ∷ xs) (h, hs) = (h, All-take n xs hs)

-- The second of two writes, of what the stream did not accept of the first.
write-again :
    (self : Arc4Stream) (buf : Bytes) (accepted : ℕ)
    → length buf ≤ self.buf_len
    → (write (write self buf accepted).1 (drop accepted buf) (length (drop accepted buf))).0
      ≡ (process (process self.write_rc4 buf).1 (drop accepted buf)).0
write-again self buf accepted h =
    let again : Arc4Stream = record self { write_rc4 = (process self.write_rc4 buf).1 } in
    rw (write_lem self buf accepted h).1 (
      (write_lem again (drop accepted buf) (length (drop accepted buf))
        (omega (arith, length-drop accepted buf))).0
      ∙ rw (← length-process (process self.write_rc4 buf).1 (drop accepted buf)) (take-length _))

-- The stream accepts the first bytes of a write only, and the caller writes the rest again. The other
-- side, whose cipher is the same and valid, reads the accepted bytes as they were, and the rest as
-- the rest encrypted from behind the whole buffer and decrypted from behind the accepted bytes.
pub reads-write_short :
    (writer reader : Arc4Stream) (buf : Bytes) (accepted : ℕ)
    → reader.read_rc4 ≡ writer.write_rc4
    → IsValid writer.write_rc4
    → length buf ≤ writer.buf_len
    → All (λ b. b < 256) buf
    → reads reader (
        (write writer buf accepted).0
        ∷ (write (write writer buf accepted).1 (drop accepted buf) (length (drop accepted buf))).0
        ∷ [])
      ≡ take accepted buf
        ++ (process
            (process writer.write_rc4 (take accepted buf)).1
            (process (process writer.write_rc4 buf).1 (drop accepted buf)).0).0
reads-write_short writer reader buf accepted keys v small bytes =
    let front : Bytes = take accepted buf in
    let (same, state) = process-process writer.write_rc4 front v (All-take accepted buf bytes) in
    rw
      (
        write-again writer buf accepted small,
        (write_lem writer buf accepted small).0,
        take-process writer.write_rc4 accepted buf,
      )
      (unfold read in rw (keys, same, state, append-nil _))

-- ===== src/Client/Session/Blobs/Segments.antt =====
-- rsfbclient-rust/src/client.rs, `get_segment`: the segments in the data of one answer.
use rsfbclient.Base.{
  ltb, if◌then◌else◌, length, concat, All, ℕ, ◌/◌, ◌%◌, ◌^◌, ◌<◌, ◌≡◌, refl, Bool, true, false,
  List, [], ◌∷◌, ◌++◌, append-nil, append_assoc, arith, Bytes,
}
use rsfbclient.Error.{ok}
use rsfbclient.Reader.{done, Parser, ◌>>=◌, ◌>>◌, pure}
use rsfbclient.Reader.Loop.{Next, again, stop, resume, loop}
use rsfbclient.Reader.Loop.Laws.{Shrinks, loop_unroll}
use rsfbclient.Util.{put_u16_le, advance, slice_to, get_u16_le}
use rsfbclient.Util.Moves.{Takes-get_u16_le, forward_reads}
use rsfbclient.Client.Session.Blobs.{segment_round, segments}
use rsfbclient.Reader.Moves.{Takes, Takes-bind}
use rsfbclient.Util.RoundTrip.{advance-append, slice_to-append, get_u16_le-put_u16_le}

-- A segment, with the length of 16 bits in front of it.
abbrev pub segment_bytes : Bytes → Bytes
segment_bytes segment = put_u16_le (length segment) ++ segment

abbrev pub segments_bytes : List Bytes → Bytes
segments_bytes [] = []
segments_bytes (segment ∷ rest) = segment_bytes segment ++ segments_bytes rest

abbrev one_segment : Bytes → Parser Bytes (Next Bytes Bytes)
one_segment so_far = do
  len ← get_u16_le
  segment ← slice_to len
  advance len
  pure (again (so_far ++ segment))

Takes-one_segment : (so_far : Bytes) → Takes (one_segment so_far)
Takes-one_segment so_far =
    Takes-bind get_u16_le _ Takes-get_u16_le (λ len. search forward_reads depth 9)

round_shrinks :
    (short : Bool) (so_far v' s s' : Bytes)
    → (if short then done (stop so_far) s else one_segment so_far s) ≡ done (again v') s'
    → length s' < length s
round_shrinks true so_far v' s s' e = cc
round_shrinks false so_far v' s s' e = (Takes-one_segment so_far).at e

segment-Shrinks : Shrinks segment_round
unfolding segment_round
segment-Shrinks = record {
  at = λ {v} {v'} {s} {s'} e. round_shrinks (ltb (length s) 2) v v' s s' e;
}

two_more : (a b : ℕ) (rest : Bytes) → ltb (length (a ∷ b ∷ rest)) 2 ≡ false
two_more a b rest = ground arith

segment_round-segment :
    (so_far segment rest : Bytes)
    → length segment < 2 ^ 16
    → segment_round so_far (segment_bytes segment ++ rest) ≡ done (again (so_far ++ segment)) rest
unfolding segment_round
segment_round-segment so_far segment rest h =
    rw
      (
        two_more (length segment % 256) (length segment / 256 % 256) (segment ++ rest),
        get_u16_le-put_u16_le (length segment) (segment ++ rest) h,
        slice_to-append segment rest,
        advance-append segment rest,
      )
      refl

segments-loop :
    (so_far : Bytes) (parts : List Bytes)
    → All (λ c. length c < 2 ^ 16) parts
    → loop segment_round so_far (segments_bytes parts) ≡ done (so_far ++ concat parts) []
unfolding resume
segments-loop so_far [] tt =
    rw (loop_unroll segment-Shrinks so_far [], append-nil so_far) (unfold segment_round in refl)
segments-loop so_far (part ∷ parts) (h, hs) =
    rw
      (
        loop_unroll segment-Shrinks so_far (segment_bytes part ++ segments_bytes parts),
        segment_round-segment so_far part (segments_bytes parts) h,
        segments-loop (so_far ++ part) parts hs,
        append_assoc so_far part (concat parts),
      )
      refl

-- The data of an answer to `get_segment`, any number of segments of less than 2^16 bytes with their
-- lengths in front, are read as the segments put together.
pub segments-segments_bytes :
    (parts : List Bytes)
    → All (λ c. length c < 2 ^ 16) parts
    → segments (segments_bytes parts) ≡ ok (concat parts)
unfolding segments
segments-segments_bytes parts h = rw (segments-loop [] parts h) refl

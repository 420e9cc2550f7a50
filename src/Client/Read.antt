-- ===== src/Client/Read.antt =====
-- rsfbclient-rust/src/client.rs, `read_with`: responses are cut out of a byte stream that has no
-- framing. The socket is the list of what its reads answer, in order; when the list is at its end,
-- the next read has not returned yet.
pub mod Reassembly
use rsfbclient.Base.{◌==◌, if◌then◌else◌, length, ℕ, List, [], ◌∷◌, ◌++◌, Bytes}
use rsfbclient.Error.{closed_by_server, FbError, io, other, is_incomplete}
use rsfbclient.Reader.{Outcome, done, failed, Parser, Stream}

-- One answer of `socket.read(buff)`: the bytes that it put into `buff`, none if the peer closed the
-- connection, or an error of the socket.
pub data Read : Type 0 where
  chunk : Bytes → Read
  broken : Read

-- `pending` and `lazy_count` of `FirebirdWireConnection`, and the socket they are fed from.
pub record Conn : Type 0 where
  pub pending : Bytes
  pub lazy_count : ℕ
  pub socket : List Read

-- The two arguments of the closures: the view of the pending bytes and the lazy count.
pub record View : Type 0 where
  pub lazy : ℕ
  pub bytes : Bytes

instance abbrev pub view_stream : Stream View
view_stream = record { extend = λ v more. record v { bytes = v.bytes ++ more } }

-- `replied` and `errored` are the two results of the call; `waiting` is a call that still blocks in
-- the socket's read.
pub data Reply (A : Type 0) : Type 0 where
  replied : A → Conn → Reply A
  errored : FbError → Conn → Reply A
  waiting : Conn → Reply A

abbrev pub view_of : Conn → View
view_of c = record { lazy = c.lazy_count; bytes = c.pending }

-- `*pending = view`, with the count as the closure left it.
abbrev pub commit : View → List Read → Conn
commit v socket = record { pending = v.bytes; lazy_count = v.lazy; socket = socket }

-- One round of the loop answers, or waits for the next read.
module _ {A : Type 0} where
  -- `saved` is the lazy count before the attempt, which the incomplete case restores.
  attempt : Outcome View A → ℕ → Bytes → List Read → (Bytes → Reply A) → Reply A
  attempt (done a v) saved pending socket more = replied a (commit v socket)
  attempt (failed e v) saved pending socket more =
      if is_incomplete e then more pending else errored e (commit v socket)

module _ {A : Type 0} (parse : Parser View A) where
  pub read_loop : List Read → ℕ → Bytes → Reply A
  unfolding attempt
  read_loop [] lazy pending =
      attempt (parse (record { lazy = lazy; bytes = pending })) lazy pending []
        (λ kept. waiting (record { pending = kept; lazy_count = lazy; socket = [] }))
  read_loop (broken ∷ socket) lazy pending =
      attempt (parse (record { lazy = lazy; bytes = pending })) lazy pending (broken ∷ socket)
        (λ kept. errored io (record { pending = kept; lazy_count = lazy; socket = socket }))
  read_loop (chunk bytes ∷ socket) lazy pending =
      attempt (parse (record { lazy = lazy; bytes = pending })) lazy pending (chunk bytes ∷ socket)
        (λ kept.
          if length bytes == 0
          then errored (other closed_by_server)
              (record { pending = kept; lazy_count = lazy; socket = socket })
          else read_loop socket lazy (kept ++ bytes))

  pub read_with : Conn → Reply A
  unfolding read_loop
  read_with c = read_loop c.socket c.lazy_count c.pending

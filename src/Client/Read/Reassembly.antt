-- ===== src/Client/Read/Reassembly.antt =====
-- rsfbclient-rust/src/client.rs: `read_with`, and one parse of the bytes that arrive.
use mathlib.Core.Path.{subst, ap₂}
use rsfbclient.Base.{
  ◌==◌, if◌then◌else◌, Bool-cases, length, ℕ, suc, ◌<◌, ◌≡◌, refl, sym, ◌∙◌, inl, inr, true, false,
  List, [], ◌∷◌, ◌++◌, append-nil, append_assoc, arith, Bytes,
}
use rsfbclient.Error.{closed_by_server, FbError, other, is_incomplete}
use rsfbclient.Reader.{Outcome, done, failed, Parser, bytes_stream}
use rsfbclient.Reader.Stable.{Agrees, Stable, Agrees-failed}
use rsfbclient.Client.Read.{
  Read, chunk, broken, Conn, View, view_stream, Reply, replied, errored, waiting, commit, read_loop,
  read_with, attempt,
}

-- What is still to arrive. A closed or broken socket ends it.
abbrev pub arriving : List Read → Bytes
arriving [] = []
arriving (broken ∷ socket) = []
arriving (chunk bytes ∷ socket) = bytes ++ arriving socket

-- Every read brings something, so the peer neither closes the connection nor breaks it.
abbrev pub IsOpen : List Read → Type 0
IsOpen [] = Unit {0}
IsOpen (broken ∷ socket) = ⊥
IsOpen (chunk bytes ∷ socket) = (0 < length bytes) × IsOpen socket

-- The connection holds just what the parse of the whole stream had left.
abbrev pub Remains : Conn → View → Type 0
Remains c v = (c.lazy_count ≡ v.lazy) × (c.pending ++ arriving c.socket ≡ v.bytes)

-- The reply to a stream with the lazy count `lazy` and the bytes `all`, from the answer of one parse
-- of the whole of it.
abbrev pub Delivers : {A : Type 0} → ℕ → Bytes → Outcome View A → Reply A → Type 0
Delivers lazy all (done a v) r = (c : Conn) × (r ≡ replied a c) × Remains c v
Delivers lazy all (failed e v) r =
    if is_incomplete e
    then (r ≡ waiting (record { pending = all; lazy_count = lazy; socket = [] }))
    else ((c : Conn) × (r ≡ errored e c) × Remains c v)

module _ {A : Type 0} where
  attempt-Delivers :
      (o whole : Outcome View A) (lazy : ℕ) (pending all : Bytes) (socket : List Read)
      (more : Bytes → Reply A)
      → Agrees (arriving socket) o whole
      → ((e : FbError) (v : View)
          → o ≡ failed e v
          → is_incomplete e ≡ true
          → Delivers lazy all whole (more pending))
      → Delivers lazy all whole (attempt o lazy pending socket more)
  unfolding attempt
  attempt-Delivers (done a v) whole lazy pending all socket more agrees next =
      rw agrees (commit v socket, refl, (refl, refl))
  attempt-Delivers (failed e v) whole lazy pending all socket more agrees next =
      elim (Bool-cases (is_incomplete e)) [
        | inl i ↦ rw i (next e v refl i)
        | inr n ↦
            rw (n, Agrees-failed e v (arriving socket) whole agrees n, n)
              (commit v socket, refl, (refl, refl))
      ]

  incomplete-Delivers :
      (whole : Outcome View A) (e : FbError) (v : View) (lazy : ℕ) (all : Bytes)
      → is_incomplete e ≡ true
      → whole ≡ failed e v
      → Delivers lazy all whole (waiting (record { pending = all; lazy_count = lazy; socket = [] }))
  incomplete-Delivers whole e v lazy all i w = rw (w, i) refl

nonempty : {A : Type 0} (n : ℕ) (x y : A) → (if suc n == 0 then x else y) ≡ y
nonempty n x y = ground arith

module _ {A : Type 0} (parse : Parser View A) (stable : Stable parse) where
  abbrev whole_parse : ℕ → Bytes → Outcome View A
  whole_parse lazy bytes = parse (record { lazy = lazy; bytes = bytes })

  read_loop-Delivers :
      (socket : List Read) (lazy : ℕ) (pending : Bytes)
      → IsOpen socket
      → Delivers lazy
          (pending ++ arriving socket)
          (whole_parse lazy (pending ++ arriving socket))
          (read_loop parse socket lazy pending)
  unfolding read_loop
  read_loop-Delivers [] lazy pending open_ =
      attempt-Delivers (whole_parse lazy pending) _ lazy pending _ [] _ (stable.at _ [])
        (λ e v o i. rw append-nil (incomplete-Delivers _ e v lazy pending i o))
  read_loop-Delivers (broken ∷ socket) lazy pending open_ = absurd open_
  read_loop-Delivers (chunk [] ∷ socket) lazy pending (h, open_) = absurd (omega arith)
  read_loop-Delivers (chunk (b ∷ bytes) ∷ socket) lazy pending (h, open_) =
      attempt-Delivers (whole_parse lazy pending) _ lazy pending _ (chunk (b ∷ bytes) ∷ socket) _
        (stable.at _ (b ∷ (bytes ++ arriving socket)))
        (λ e v o i.
          subst (Delivers lazy (pending ++ (b ∷ bytes ++ arriving socket)) _)
            (sym (nonempty (length bytes) _ _))
            (subst
              (λ all.
                Delivers lazy all (whole_parse lazy all)
                  (read_loop parse socket lazy (pending ++ b ∷ bytes)))
              (append_assoc pending (b ∷ bytes) (arriving socket))
              (read_loop-Delivers socket lazy (pending ++ b ∷ bytes) open_)))

  -- Reading with a stable parser from an open socket answers what one parse of all the bytes answers,
  -- pending or still to arrive, however the reads cut them. The value or the error is the same, the
  -- lazy count is the parse's, and what stays pending, with what has yet to arrive, is what the parse
  -- left. If the bytes hold no complete response, the call waits with all of them pending and the
  -- lazy count as it was.
  pub read_with-Delivers :
      (c : Conn)
      → IsOpen c.socket
      → Delivers c.lazy_count
          (c.pending ++ arriving c.socket)
          (parse (record { lazy = c.lazy_count; bytes = c.pending ++ arriving c.socket }))
          (read_with parse c)
  unfolding read_with
  read_with-Delivers c open_ = read_loop-Delivers c.socket c.lazy_count c.pending open_

  -- The same for a stream that parses, with its lazy count and its bytes given.
  pub read_with-done :
      (c : Conn) (lazy : ℕ) (all : Bytes) {a : A} {v : View}
      → IsOpen c.socket
      → c.lazy_count ≡ lazy
      → c.pending ++ arriving c.socket ≡ all
      → parse (record { lazy = lazy; bytes = all }) ≡ done a v
      → (after : Conn) × (read_with parse c ≡ replied a after) × Remains after v
  read_with-done c lazy all opened count whole answer =
      subst (λ o. Delivers c.lazy_count (c.pending ++ arriving c.socket) o (read_with parse c))
        (ap₂ whole_parse count whole ∙ answer) (read_with-Delivers c opened)

-- The socket as a reply leaves it.
abbrev pub socket_of : {A : Type 0} → Reply A → List Read
socket_of (replied a c) = c.socket
socket_of (errored e c) = c.socket
socket_of (waiting c) = c.socket

module _ {A : Type 0} where
  attempt-IsOpen :
      (o : Outcome View A) (lazy : ℕ) (pending : Bytes) (socket : List Read)
      (more : Bytes → Reply A)
      → IsOpen socket
      → IsOpen (socket_of (more pending))
      → IsOpen (socket_of (attempt o lazy pending socket more))
  unfolding attempt
  attempt-IsOpen (done a v) lazy pending socket more opened next = opened
  attempt-IsOpen (failed e v) lazy pending socket more opened next =
      elim (Bool-cases (is_incomplete e)) [ inl i ↦ rw i next | inr n ↦ rw n opened ]

  nonempty-IsOpen :
      (n : ℕ) (x y : Reply A)
      → IsOpen (socket_of y)
      → IsOpen (socket_of (if suc n == 0 then x else y))
  nonempty-IsOpen n x y h = rw (nonempty n x y) h

module _ {A : Type 0} (parse : Parser View A) where
  read_loop-IsOpen :
      (socket : List Read) (lazy : ℕ) (pending : Bytes)
      → IsOpen socket
      → IsOpen (socket_of (read_loop parse socket lazy pending))
  unfolding read_loop
  read_loop-IsOpen [] lazy pending opened =
      attempt-IsOpen (parse (record { lazy = lazy; bytes = pending })) lazy pending []
        (λ kept. waiting (record { pending = kept; lazy_count = lazy; socket = [] })) opened opened
  read_loop-IsOpen (broken ∷ socket) lazy pending opened = absurd opened
  read_loop-IsOpen (chunk [] ∷ socket) lazy pending (h, opened) = absurd (omega arith)
  read_loop-IsOpen (chunk (b ∷ bytes) ∷ socket) lazy pending (h, opened) =
      attempt-IsOpen (parse (record { lazy = lazy; bytes = pending })) lazy pending
        (chunk (b ∷ bytes) ∷ socket)
        (λ kept.
          if length (b ∷ bytes) == 0
          then errored (other closed_by_server)
              (record { pending = kept; lazy_count = lazy; socket = socket })
          else read_loop parse socket lazy (kept ++ b ∷ bytes))
        (h, opened)
        (nonempty-IsOpen (length bytes) _ _
          (read_loop-IsOpen socket lazy (pending ++ b ∷ bytes) opened))

  pub read_with-IsOpen : (c : Conn) → IsOpen c.socket → IsOpen (socket_of (read_with parse c))
  unfolding read_with
  read_with-IsOpen c opened = read_loop-IsOpen c.socket c.lazy_count c.pending opened

module _ {A : Type 0} (parse : Parser View A) where
  -- A parse of what is pending that answers, with the rest of the socket unread.
  read_loop-answers :
      (socket : List Read) (lazy : ℕ) (pending : Bytes) (a : A) (v : View)
      → parse (record { lazy = lazy; bytes = pending }) ≡ done a v
      → read_loop parse socket lazy pending ≡ replied a (commit v socket)
  unfolding read_loop attempt
  read_loop-answers [] lazy pending a v e = rw e refl
  read_loop-answers (broken ∷ socket) lazy pending a v e = rw e refl
  read_loop-answers (chunk bytes ∷ socket) lazy pending a v e = rw e refl

  -- Where nothing is pending and one read brings all that the parse wants, it is the only read.
  pub read_with-chunk :
      (socket : List Read) (lazy : ℕ) (bytes : Bytes) (a : A) (x : FbError) (v v' : View)
      → parse (record { lazy = lazy; bytes = [] }) ≡ failed x v
      → is_incomplete x ≡ true
      → (length bytes == 0) ≡ false
      → parse (record { lazy = lazy; bytes = bytes }) ≡ done a v'
      → read_with parse (record { pending = []; lazy_count = lazy; socket = chunk bytes ∷ socket })
        ≡ replied a (commit v' socket)
  unfolding read_with read_loop attempt
  read_with-chunk socket lazy bytes a x v v' first more some_bytes whole =
      rw (first, more, some_bytes) (read_loop-answers socket lazy bytes a v' whole)

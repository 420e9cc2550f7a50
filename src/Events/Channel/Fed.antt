-- ===== src/Events/Channel/Fed.antt =====
-- rsfbclient-rust/src/wire.rs, `parse_event_notification`: it has no loop, so that none of its errors is
-- that of a loop of the model which ran out of fuel.
use rsfbclient.Base.{if◌then◌else◌, Bool, true, false, ℕ, ◌≡◌, refl, Bytes, arith}
use rsfbclient.Events.Sound.{is_out_of_fuel}
use rsfbclient.Reader.{Outcome, done, failed, Parser, chain, ◌>>=◌, pure}
use rsfbclient.Util.{advance, slice_to, copy_to_slice, get_u32, skip_padding, get_wire_bytes}
use rsfbclient.Wire.Response.{err_conn_rejected}
use rsfbclient.Wire.Accept.{parse_event_notification}

-- A failure with another error, if it is one.
abbrev pub Fails : {A : Type 0} → Outcome Bytes A → Type 0
Fails (done a s) = Unit {0}
Fails (failed e s) = is_out_of_fuel e ≡ false

pub record Fed {A : Type 0} (p : Parser Bytes A) : Type 0 where
  pub at : (s : Bytes) → Fails (p s)

Fed-pure : {A : Type 0} (a : A) → Fed (pure a)
Fed-pure a = record { at = λ s. tt }

Fed-err_conn_rejected : {A : Type 0} (code : ℕ) → Fed {A = A} (err_conn_rejected code)
Fed-err_conn_rejected code = record { at = λ s. refl }

Fed-if : {A : Type 0} (b : Bool) (p q : Parser Bytes A) → Fed p → Fed q → Fed (if b then p else q)
Fed-if true p q hp hq = hp
Fed-if false p q hp hq = hq

chain-Fails :
    {A B : Type 0} (o : Outcome Bytes A) (f : A → Parser Bytes B)
    → Fails o
    → ((a : A) → Fed (f a))
    → Fails (chain o f)
chain-Fails (done a s) f h hf = (hf a).at s
chain-Fails (failed e s) f h hf = h

Fed-bind :
    {A B : Type 0} (p : Parser Bytes A) (f : A → Parser Bytes B)
    → Fed p
    → ((a : A) → Fed (f a))
    → Fed (p >>= f)
Fed-bind p f hp hf = record { at = λ s. chain-Fails (p s) f (hp.at s) hf }

ruleset fed_rules = (Fed-pure, Fed-err_conn_rejected, Fed-if, Fed-bind)

Fed-advance : (n : ℕ) → Fed (advance n)
unfolding advance
Fed-advance n = record { at = λ s. ground arith }

Fed-slice_to : (n : ℕ) → Fed (slice_to n)
unfolding slice_to
Fed-slice_to n = record { at = λ s. ground arith }

Fed-copy_to_slice : (n : ℕ) → Fed (copy_to_slice n)
unfolding copy_to_slice
Fed-copy_to_slice n = record { at = λ s. ground arith }

Fed-get_u32 : Fed get_u32
unfolding get_u32
Fed-get_u32 = search (Fed-copy_to_slice, fed_rules)

Fed-skip_padding : (n : ℕ) → Fed (skip_padding n)
unfolding skip_padding
Fed-skip_padding n = search (Fed-advance, fed_rules)

Fed-get_wire_bytes : Fed get_wire_bytes
unfolding get_wire_bytes
Fed-get_wire_bytes =
    search (Fed-get_u32, Fed-slice_to, Fed-advance, Fed-skip_padding, fed_rules) depth 12

pub Fed-parse_event_notification : Fed parse_event_notification
unfolding parse_event_notification
Fed-parse_event_notification = search (Fed-get_u32, Fed-get_wire_bytes, fed_rules) depth 20

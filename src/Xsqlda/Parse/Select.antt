-- ===== src/Xsqlda/Parse/Select.antt =====
-- rsfbclient-rust/src/xsqlda.rs: `parse_select_items` on the columns that a server describes.
use rsfbclient.Base.{
  lt→ltb, length, get_elem?, set, length-append, ℕ, ◌^◌, ◌<◌, ◌≡◌, refl, ap, ◌∙◌, true, Option,
  none, some, List, [], ◌∷◌, ◌++◌, append_assoc, arith, Bytes,
}
use rsfbclient.Reader.{done}
use rsfbclient.Reader.Loop.{again, resume, loop}
use rsfbclient.Reader.Loop.Laws.{Shrinks, loop_unroll}
use rsfbclient.Reader.Moves.{Forward, Forward-pure, Forward-fail, Takes-bind, Takes-Shrinks}
use rsfbclient.Util.{put_u8, put_u16_le, put_u32_le, get_u8}
use rsfbclient.Util.Moves.{Takes-get_u8, forward_reads}
use rsfbclient.Xsqlda.{XSqlVar}
use rsfbclient.Xsqlda.Parse.{
  Selecting, update_var, number_item, name_item, select_item, select_round, sqlda_seq_item,
}
use rsfbclient.Util.RoundTrip.{
  copy_to_slice-append, advance-append, get_u8-put_u8, get_u32_le-put_u32_le, get_u16_le-put_u16_le,
}
use rsfbclient.Wire.Text.Utf8.{is_utf8}

Forward-update_var :
    (v : Selecting) (f : XSqlVar → XSqlVar) (o : Option XSqlVar) → Forward (update_var v f o)
Forward-update_var v f none = Forward-fail _
Forward-update_var v f (some var) = Forward-pure _

Forward-select_item : (v : Selecting) (item : ℕ) → Forward (select_item v item)
unfolding select_item sqlda_seq_item number_item name_item
Forward-select_item v item = search (Forward-update_var, forward_reads) depth 40

pub select-Shrinks : Shrinks select_round
unfolding select_round
select-Shrinks = Takes-Shrinks _ (λ v. Takes-bind get_u8 _ Takes-get_u8 (Forward-select_item v))

-- The bytes `bytes` take the loop from the variables `v` to `v'`.
pub record Reads (bytes : Bytes) (v v' : Selecting) : Type 0 where
  pub at : (rest : Bytes) → loop select_round v (bytes ++ rest) ≡ loop select_round v' rest

pub Reads-append :
    (xs ys : Bytes) (u v w : Selecting) → Reads xs u v → Reads ys v w → Reads (xs ++ ys) u w
Reads-append xs ys u v w first second = record {
  at = λ rest. rw (append_assoc xs ys rest) (first.at (ys ++ rest) ∙ second.at rest);
}

pub item-Reads :
    (item : ℕ) (bytes : Bytes) (v v' : Selecting)
    → item < 256
    → ((rest : Bytes) → select_item v item (bytes ++ rest) ≡ done (again v') rest)
    → Reads (put_u8 item ++ bytes) v v'
unfolding resume select_round
item-Reads item bytes v v' h step = record {
  at = λ rest. rw (
    loop_unroll select-Shrinks v (put_u8 item ++ (bytes ++ rest)),
    get_u8-put_u8 item (bytes ++ rest) h,
    step rest,
  );
}

-- The vector when its last column is the one that the items are about.
abbrev pub describing : List XSqlVar → XSqlVar → Selecting
describing vars var = record { col_index = length vars; vars = vars ++ (var ∷ []) }

get_elem?-last :
    (vars : List XSqlVar) (var : XSqlVar) → get_elem? (vars ++ (var ∷ [])) (length vars) ≡ some var
get_elem?-last [] var = refl
get_elem?-last (v ∷ vars) var = get_elem?-last vars var

set-last :
    (vars : List XSqlVar) (var var' : XSqlVar)
    → set (vars ++ (var ∷ [])) (length vars) var' ≡ vars ++ (var' ∷ [])
set-last [] var var' = refl
set-last (v ∷ vars) var var' = ap (◌∷◌ v) (set-last vars var var')

in_range : (vars : List XSqlVar) (var : XSqlVar) → length vars < length (vars ++ (var ∷ []))
in_range vars var = omega (arith, length-append vars (var ∷ []))

update_var-describing :
    (vars : List XSqlVar) (var : XSqlVar) (f : XSqlVar → XSqlVar) (rest : Bytes)
    → update_var (describing vars var) f (get_elem? (vars ++ (var ∷ [])) (length vars)) rest
      ≡ done (again (describing vars (f var))) rest
update_var-describing vars var f rest = rw (get_elem?-last vars var, set-last vars var (f var))

-- A number with the length in front of it, and a name with its own.
abbrev pub number_bytes : ℕ → Bytes
number_bytes n = put_u16_le 4 ++ put_u32_le n

abbrev pub name_bytes : Bytes → Bytes
name_bytes text = put_u16_le (length text) ++ text

pub number_item-describing :
    (vars : List XSqlVar) (var : XSqlVar) (f : ℕ → XSqlVar → XSqlVar) (n : ℕ) (rest : Bytes)
    → n < 2 ^ 32
    → number_item (describing vars var) f (number_bytes n ++ rest)
      ≡ done (again (describing vars (f n var))) rest
unfolding number_item
number_item-describing vars var f n rest h =
    rw
      (
        advance-append (put_u16_le 4) (put_u32_le n ++ rest),
        lt→ltb _ _ (in_range vars var),
        get_u32_le-put_u32_le n rest h,
      )
      (update_var-describing vars var (f n) rest)

pub name_item-describing :
    (vars : List XSqlVar) (var : XSqlVar) (f : Bytes → XSqlVar → XSqlVar) (text rest : Bytes)
    → length text < 2 ^ 16
    → is_utf8 text ≡ true
    → name_item (describing vars var) f (name_bytes text ++ rest)
      ≡ done (again (describing vars (f text var))) rest
unfolding name_item
name_item-describing vars var f text rest h utf8 =
    rw (get_u16_le-put_u16_le (length text) (text ++ rest) h, copy_to_slice-append text rest, utf8)
      (update_var-describing vars var (f text) rest)

-- ===== src/Api/Params.antt =====
-- rsfbclient-core/src/params.rs: the parameters of a statement, by their places or by their names. The
-- matches of the regular expression `('[^']*')|:\w+` are those of the regex crate, an argument.
pub mod Naming
use rsfbclient.Base.{
  ◌==◌, if◌then◌else◌, Bool, true, false, ℕ, Option, none, some, List, [], ◌∷◌, ◌++◌, Bytes,
}
use rsfbclient.Error.{other, param_not_found, Result, ok, err}
use rsfbclient.SqlTypes.{SqlType}

-- The map of the names is the function that looks one up.
pub data ParamsType : Type 0 where
  positional : List SqlType → ParamsType
  named : (Bytes → Option SqlType) → ParamsType

-- The method `named`.
abbrev pub is_named : ParamsType → Bool
is_named (positional _) = false
is_named (named _) = true

-- A text as the matches cut it: what lies between them, and each match with its group 1.
pub data Piece : Type 0 where
  between : Bytes → Piece
  matched : Bytes → Option Bytes → Piece

pub record NamedParams : Type 0 where
  pub sql : Bytes
  pub params_names : List Bytes

-- The closure of `replace_all`.
abbrev pub replacement : Option Bytes → Bytes
replacement (some same) = same
replacement none = b'?' ∷ []

unfoldable pub replace_all : List Piece → Bytes
replace_all [] = []
replace_all (between t ∷ ps) = t ++ replace_all ps
replace_all (matched t group ∷ ps) = replacement group ++ replace_all ps

abbrev pub starts_with_colon : Bytes → Bool
starts_with_colon [] = false
starts_with_colon (c ∷ t) = c == b':'

-- `param.replace(':', "")`
unfoldable pub without_colons : Bytes → Bytes
without_colons [] = []
without_colons (c ∷ t) = if c == b':' then without_colons t else c ∷ without_colons t

-- A group of a match, if there is one and it starts as a name does.
pub group_name : Option Bytes → List Bytes
group_name none = []
group_name (some t) = if starts_with_colon t then without_colons t ∷ [] else []

-- The loop over `captures_iter`: of each match the whole, which is group 0, and group 1.
unfoldable pub names_of : List Piece → List Bytes
unfolding group_name
names_of [] = []
names_of (between t ∷ ps) = names_of ps
names_of (matched t group ∷ ps) = group_name (some t) ++ (group_name group ++ names_of ps)

unfoldable pub empty : Bytes → NamedParams
empty raw_sql = record { sql = raw_sql; params_names = [] }

abbrev pub push : SqlType → Result (List SqlType) → Result (List SqlType)
push v (ok vs) = ok (v ∷ vs)
push v (err e) = err e

-- The loop over the names. The first one that is missing is the error.
unfoldable pub values_of : (Bytes → Option SqlType) → List Bytes → Result (List SqlType)
values_of names [] = ok []
values_of names (qname ∷ qnames) =
    let rest = values_of names qnames in
    elim (names qname) [ some param ↦ push param rest | none ↦ err (other (param_not_found qname)) ]

unfoldable pub convert : NamedParams → ParamsType → Result (List SqlType)
unfolding values_of
convert self (named names) = values_of names self.params_names
convert self (positional p) = ok p

module _ (regex : Bytes → List Piece) where
  unfoldable pub parse : Bytes → NamedParams
  parse raw_sql = record {
    sql = replace_all (regex raw_sql);
    params_names = names_of (regex raw_sql);
  }

-- ===== src/Api/Params/Naming.antt =====
-- rsfbclient-core/src/params.rs: the values that named parameters are sent as.
use rsfbclient.Base.{◌==◌, drop, ◌≡◌, refl, ap, false, Option, none, some, List, [], ◌∷◌, Bytes}
use rsfbclient.Error.{FbError, other, param_not_found, Result, ok, err}
use rsfbclient.SqlTypes.{SqlType}
use rsfbclient.Api.Params.{
  named, Piece, between, matched, names_of, without_colons, push, values_of, convert, parse,
}

-- No byte is a colon.
abbrev pub Colonless : Bytes → Type 0
Colonless [] = Unit {0}
Colonless (c ∷ t) = ((c == b':') ≡ false) × Colonless t

-- What the regular expression says of its matches: a quoted one is its group 1 and begins with the
-- quote, and any other is a colon with the word that it names.
abbrev pub IsMatch : Bytes → Option Bytes → Type 0
IsMatch t (some group) = (group ≡ t) × ((r : Bytes) × (t ≡ 39 ∷ r))
IsMatch t none = (w : Bytes) × (t ≡ b':' ∷ w) × Colonless w

abbrev pub AreMatches : List Piece → Type 0
AreMatches [] = Unit {0}
AreMatches (between t ∷ ps) = AreMatches ps
AreMatches (matched t group ∷ ps) = IsMatch t group × AreMatches ps

-- The names behind the colons that stand outside quotes, in order.
abbrev pub bound_names : List Piece → List Bytes
bound_names [] = []
bound_names (between t ∷ ps) = bound_names ps
bound_names (matched t (some _) ∷ ps) = bound_names ps
bound_names (matched t none ∷ ps) = drop 1 t ∷ bound_names ps

-- A value for each of the names, in order.
abbrev pub Bound : (Bytes → Option SqlType) → List Bytes → List SqlType → Type 0
Bound m [] [] = Unit {0}
Bound m [] (_ ∷ _) = ⊥
Bound m (_ ∷ _) [] = ⊥
Bound m (q ∷ qs) (v ∷ vs) = (m q ≡ some v) × Bound m qs vs

-- The first name that has no value, behind names that have one.
abbrev pub FirstUnbound : (Bytes → Option SqlType) → List Bytes → FbError → Type 0
FirstUnbound m [] e = ⊥
FirstUnbound m (q ∷ qs) e = elim (m q) [
  | none ↦ e ≡ other (param_not_found q)
  | some _ ↦ FirstUnbound m qs e
]

abbrev pub Converts : (Bytes → Option SqlType) → List Bytes → Result (List SqlType) → Type 0
Converts m qs (ok vs) = Bound m qs vs
Converts m qs (err e) = FirstUnbound m qs e

without_colons-Colonless : (w : Bytes) → Colonless w → without_colons w ≡ w
unfolding without_colons
without_colons-Colonless [] h = refl
without_colons-Colonless (c ∷ t) (h, hs) = rw h (ap (◌∷◌ c) (without_colons-Colonless t hs))

names_of-AreMatches : (ps : List Piece) → AreMatches ps → names_of ps ≡ bound_names ps
unfolding names_of without_colons
names_of-AreMatches [] h = refl
names_of-AreMatches (between t ∷ ps) h = names_of-AreMatches ps h
names_of-AreMatches (matched t (some group) ∷ ps) ((same, (r, e)), h) =
    rw (same, e) (names_of-AreMatches ps h)
names_of-AreMatches (matched t none ∷ ps) ((w, e, c), h) =
    rw (e, without_colons-Colonless w c, names_of-AreMatches ps h) refl

values_of_step :
    (m : Bytes → Option SqlType) (q : Bytes) (qs : List Bytes) (o : Option SqlType)
    (r : Result (List SqlType))
    → m q ≡ o
    → Converts m qs r
    → Converts m
        (q ∷ qs)
        (elim o [ some param ↦ push param r | none ↦ err (other (param_not_found q)) ])
values_of_step m q qs none r e h = rw (e, FirstUnbound) refl
values_of_step m q qs (some v) (ok vs) e h = (e, h)
values_of_step m q qs (some v) (err x) e h = rw (e, FirstUnbound) h

values_of-Converts : (m : Bytes → Option SqlType) (qs : List Bytes) → Converts m qs (values_of m qs)
unfolding values_of
values_of-Converts m [] = tt
values_of-Converts m (q ∷ qs) = values_of_step m q qs (m q) _ refl (values_of-Converts m qs)

-- Where the regular expression matches as it says, the parameters of a statement that was parsed are
-- converted to a value for each of the names outside quotes, in the order of the statement and with
-- repetitions, each the value of its name. If a name has no value, the error names the first such one.
pub convert-parse :
    (regex : Bytes → List Piece) (raw_sql : Bytes) (m : Bytes → Option SqlType)
    → AreMatches (regex raw_sql)
    → Converts m (bound_names (regex raw_sql)) (convert (parse regex raw_sql) (named m))
unfolding convert parse
convert-parse regex raw_sql m h =
    rw (names_of-AreMatches (regex raw_sql) h) (values_of-Converts m (bound_names (regex raw_sql)))

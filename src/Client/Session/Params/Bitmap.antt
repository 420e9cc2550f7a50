-- ===== src/Client/Session/Params/Bitmap.antt =====
-- rsfbclient-rust/src/blr.rs, `null_bitmap`: the bits of the parameters.
use mathlib.Core.Path.{subst}
use native.Mathlib.Nat.{pow-succ'}
use rsfbclient.Base.{
  ltb, if◌then◌else◌, ltb→lt, Bool-cases, length, get_elem?, take, drop, length-drop, ℕ, zero, suc,
  ◌+◌, ◌-◌, ◌*◌, ◌/◌, ◌%◌, ◌^◌, ◌≤◌, ◌<◌, ◌≡◌, refl, sym, ap, ◌∙◌, inl, inr, Bool, true, false,
  Option, none, some, List, [], ◌∷◌, ◌++◌, arith, Bytes,
}
use rsfbclient.SqlTypes.{SqlType, is_null}
use rsfbclient.Client.Session.Params.{bitmap_of, null_bitmap}
use rsfbclient.Base.Chunks.{chunks-cons}
use rsfbclient.Wire.Rows.{null_bit}
use rsfbclient.Wire.Rows.Words.{BitOf, bit-Marked, later-Marked}
use rsfbclient.Util.{put_u32_le}
use rsfbclient.Wire.Rows.Bits.{Marked, null_bit-Marked}

-- The bits from the `k`th on, in units of 2^k.
abbrev units : List SqlType → ℕ
units [] = 0
units (p ∷ params) = (if is_null p then 1 else 0) + 2 * units params

flag : SqlType → ℕ
flag p = if is_null p then 1 else 0

shifted : (a f u : ℕ) → a * f + 2 * a * u ≡ a * (f + 2 * u)
shifted a f u = omega arith

scaled : (b : Bool) (a : ℕ) → (if b then a else 0) ≡ a * (if b then 1 else 0)
scaled true a = omega arith
scaled false a = omega arith

pow_next : (k : ℕ) → 2 ^ (k + 1) ≡ 2 * 2 ^ k
pow_next k = let e : k + 1 ≡ suc k = omega arith in rw e (pow-succ' 2 k)

bitmap_of-units : (k : ℕ) (params : List SqlType) → bitmap_of k params ≡ 2 ^ k * units params
unfolding bitmap_of
bitmap_of-units k [] = omega arith
bitmap_of-units k (p ∷ params) =
    rw (bitmap_of-units (k + 1) params, pow_next k, scaled (is_null p) (2 ^ k))
      (shifted (2 ^ k) (if is_null p then 1 else 0) (units params))

no_element : {A : Type 0} (j : ℕ) (x : A) → get_elem? {A = A} [] j ≡ some x → ⊥
no_element zero x h = cc
no_element (suc j) x h = cc

abbrev null_of : Option SqlType → Bool
null_of none = false
null_of (some p) = is_null p

first_bit :
    (q p : SqlType)
    → is_null q ≡ is_null p
    → (u : ℕ)
    → (if is_null q then 1 else 0) + 2 * u ≡ (2 * u + (if is_null p then 1 else 0)) * 2 ^ 0 + 0
first_bit q p e u = rw e (omega arith)

below : (b : Bool) (low j : ℕ) → low < 2 ^ j → (if b then 1 else 0) + 2 * low < 2 ^ suc j
below true low j h = rw (pow-succ' 2 j) (omega arith)
below false low j h = rw (pow-succ' 2 j) (omega arith)

next_bit : (f x low j n : ℕ) → n ≡ x * 2 ^ j + low → f + 2 * n ≡ x * 2 ^ suc j + (f + 2 * low)
next_bit f x low j n h = rw (h, pow-succ' 2 j) (omega arith)

units-BitOf :
    (params : List SqlType) (j : ℕ) (p : SqlType)
    → get_elem? params j ≡ some p
    → BitOf (units params) j (is_null p)
units-BitOf [] j p h = absurd (no_element j p h)
units-BitOf (q ∷ params) zero p h = record {
  high = units params;
  low = 0;
  low_fits = omega arith;
  parts = first_bit q p (ap null_of h) (units params);
}
units-BitOf (q ∷ params) (suc j) p h =
    let rest = units-BitOf params j p h in
    record {
      high = rest.high;
      low = (if is_null q then 1 else 0) + 2 * rest.low;
      low_fits = below (is_null q) rest.low j rest.low_fits;
      parts =
          next_bit (if is_null q then 1 else 0) (2 * rest.high + (if is_null p then 1 else 0))
            rest.low j (units params) rest.parts;
    }

get_elem?-take :
    {A : Type 0} (xs : List A) (n i : ℕ) → i < n → get_elem? (take n xs) i ≡ get_elem? xs i
get_elem?-take xs zero i h = absurd (omega arith)
get_elem?-take [] (suc n) i h = refl
get_elem?-take (x ∷ xs) (suc n) zero h = refl
get_elem?-take (x ∷ xs) (suc n) (suc i) h = get_elem?-take xs n i (omega arith)

get_elem?-drop :
    {A : Type 0} (xs : List A) (n i : ℕ) → get_elem? (drop n xs) i ≡ get_elem? xs (n + i)
get_elem?-drop xs zero i = let e : 0 + i ≡ i = omega arith in rw e refl
get_elem?-drop [] (suc n) i = refl
get_elem?-drop (x ∷ xs) (suc n) i =
    let e : suc n + i ≡ suc (n + i) = omega arith in rw e (get_elem?-drop xs n i)

null_bitmap-cons :
    (q : SqlType) (params : List SqlType)
    → null_bitmap (q ∷ params)
      ≡ put_u32_le (bitmap_of 0 (take 32 (q ∷ params))) ++ null_bitmap (drop 32 (q ∷ params))
unfolding null_bitmap
null_bitmap-cons q params = rw (chunks-cons 32 q params (omega arith)) refl

chunk-BitOf :
    (params : List SqlType) (i : ℕ) (p : SqlType)
    → get_elem? params i ≡ some p
    → BitOf (bitmap_of 0 params) i (is_null p)
chunk-BitOf params i p h =
    let bit = units-BitOf params i p h in
    record {
      high = bit.high;
      low = bit.low;
      low_fits = bit.low_fits;
      parts = bitmap_of-units 0 params ∙ one_times (units params) ∙ bit.parts;
    }
  where
    one_times : (u : ℕ) → 2 ^ 0 * u ≡ u
    one_times u = omega arith

first-Marked :
    (params : List SqlType) (i : ℕ) (p : SqlType) (more : Bytes)
    → i < 32
    → get_elem? params i ≡ some p
    → Marked (put_u32_le (bitmap_of 0 (take 32 params)) ++ more) i (is_null p)
first-Marked params i p more small h =
    let e : i ≡ 8 * (i / 8) + i % 8 = omega arith in
    let m = put_u32_le (bitmap_of 0 (take 32 params)) ++ more in
    let bit = chunk-BitOf (take 32 params) i p (get_elem?-take params 32 i small ∙ h) in
    subst (λ r. Marked m r (is_null p)) (sym e)
      (bit-Marked (bitmap_of 0 (take 32 params)) (i / 8) (i % 8) (is_null p) more (omega arith)
        (omega arith) (subst (λ r. BitOf (bitmap_of 0 (take 32 params)) r (is_null p)) e bit))

ltb-ge : (a b : ℕ) → ltb a b ≡ false → b ≤ a
ltb-ge a b h = ground arith

rest-Marked :
    (fuel : ℕ) (q : SqlType) (params : List SqlType) (i : ℕ) (p : SqlType) (more : Bytes)
    → 32 ≤ i
    → length (q ∷ params) ≤ suc fuel
    → get_elem? (q ∷ params) i ≡ some p
    → ((j : ℕ) → get_elem? (drop 32 (q ∷ params)) j ≡ some p → Marked more j (is_null p))
    → Marked (put_u32_le (bitmap_of 0 (take 32 (q ∷ params))) ++ more) i (is_null p)
rest-Marked fuel q params i p more large few h next =
    let e : 32 + (i - 32) ≡ i = omega arith in
    let found : get_elem? (drop 32 (q ∷ params)) (i - 32) ≡ some p =
      get_elem?-drop (q ∷ params) 32 (i - 32) ∙ ap (get_elem? (q ∷ params)) e ∙ h in
    subst (λ r. Marked (put_u32_le (bitmap_of 0 (take 32 (q ∷ params))) ++ more) r (is_null p)) e
      (later-Marked (bitmap_of 0 (take 32 (q ∷ params))) (i - 32) (is_null p) more
        (next (i - 32) found))

null_bitmap-Marked_fuel :
    (fuel : ℕ) (params : List SqlType) (i : ℕ) (p : SqlType)
    → length params ≤ fuel
    → get_elem? params i ≡ some p
    → Marked (null_bitmap params) i (is_null p)
null_bitmap-Marked_fuel fuel [] i p few h = absurd (no_element i p h)
null_bitmap-Marked_fuel zero (q ∷ params) i p few h = absurd (omega arith)
null_bitmap-Marked_fuel (suc fuel) (q ∷ params) i p few h =
    let more = null_bitmap (drop 32 (q ∷ params)) in
    rw (null_bitmap-cons q params) (elim (Bool-cases (ltb i 32)) [
      | inl small ↦ first-Marked (q ∷ params) i p more (ltb→lt i 32 small) h
      | inr large ↦ rest-Marked fuel q params i p more (ltb-ge i 32 large) few h (λ j e.
          null_bitmap-Marked_fuel fuel (drop 32 (q ∷ params)) j p
            (omega (arith, length-drop 32 (q ∷ params))) e)
    ])

-- The bitmap that the client puts before the values of its parameters has a bit for each of them, set
-- where the parameter is null, at the place where the rows of the server have the bit of a column: 8 to a byte,
-- from the lowest bit on. So the bit that `read_null` takes out of a bitmap is that of the parameter.
pub null_bit-null_bitmap :
    (params : List SqlType) (i : ℕ) (p : SqlType)
    → get_elem? params i ≡ some p
    → Marked (null_bitmap params) i (is_null p) × (null_bit (null_bitmap params) i ≡ is_null p)
null_bit-null_bitmap params i p h =
    let marked = null_bitmap-Marked_fuel (length params) params i p (omega arith) h in
    (marked, null_bit-Marked (null_bitmap params) i (is_null p) marked)

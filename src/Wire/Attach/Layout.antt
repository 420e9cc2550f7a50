-- ===== src/Wire/Attach/Layout.antt =====
-- rsfbclient-rust/src/wire.rs: the layout of a database parameter block. `read_dpb` is how the other
-- side reads one: the version says whether a length takes one byte or four.
use rsfbclient.Base.{
  Bool-cases, ltb→lt, get_or, ◌⊎◌, inl, inr, ltb, ◌==◌, if◌then◌else◌, length, All, ℕ, zero, suc,
  ◌^◌, ◌≤◌, ◌<◌, ◌≡◌, refl, Bool, true, false, List, [], ◌∷◌, ◌++◌, append_assoc, arith, Bytes,
}
use rsfbclient.Consts.Ibase.{isc_dpb_version1, isc_dpb_version2}
use rsfbclient.Reader.{done, Parser, ◌>>=◌, ◌>>◌, pure}
use rsfbclient.Util.{put_u8, put_u32_le, advance, slice_to, get_u8, get_u32_le}
use rsfbclient.Util.RoundTrip.{
  advance-append, slice_to-append, get_u8-put_u8, get_u32_le-put_u32_le,
}
use rsfbclient.Wire.Attach.{DpbData, max_len, dpb_items, dpb}

get_length : Bool → Parser Bytes ℕ
get_length v2 = if v2 then get_u32_le else get_u8

read_item : Bool → Parser Bytes DpbData
read_item v2 = do
  tag ← get_u8
  len ← get_length v2
  data_bytes ← slice_to len
  advance len
  pure (record { tag = tag; data_bytes = data_bytes })

read_items : ℕ → Bool → Parser Bytes (List DpbData)
read_items zero v2 = pure []
read_items (suc n) v2 = do d ← read_item v2; ds ← read_items n v2; pure (d ∷ ds)

-- A block of `n` parameters.
pub read_dpb : ℕ → Parser Bytes (List DpbData)
read_dpb n = do version ← get_u8; read_items n (version == isc_dpb_version2)

-- A tag is a byte and a length has 32 bits.
abbrev pub ParamFits : DpbData → Type 0
ParamFits d = (d.tag < 256) × (length d.data_bytes < 2 ^ 32)

-- A length that the width can hold.
abbrev Holds : Bool → ℕ → Type 0
Holds v2 n = (v2 ≡ false) → n ≤ 255

get_length-put :
    (v2 : Bool) (n : ℕ) (rest : Bytes)
    → n < 2 ^ 32
    → Holds v2 n
    → get_length v2 ((if v2 then put_u32_le n else put_u8 n) ++ rest) ≡ done n rest
unfolding get_length
get_length-put true n rest h w = get_u32_le-put_u32_le n rest h
get_length-put false n rest h w = get_u8-put_u8 n rest (omega (arith, w refl))

read_item-param :
    (v2 : Bool) (d : DpbData) (rest : Bytes)
    → ParamFits d
    → Holds v2 (length d.data_bytes)
    → read_item v2 (
        put_u8 d.tag
        ++ ((if v2 then put_u32_le (length d.data_bytes) else put_u8 (length d.data_bytes))
            ++ (d.data_bytes ++ rest)))
      ≡ done d rest
unfolding read_item
read_item-param v2 d rest (ht, hl) w = rw (
  get_u8-put_u8 d.tag
      ((if v2 then put_u32_le (length d.data_bytes) else put_u8 (length d.data_bytes))
        ++ (d.data_bytes ++ rest))
      ht,
  get_length-put v2 (length d.data_bytes) (d.data_bytes ++ rest) hl w,
  slice_to-append d.data_bytes rest,
  advance-append d.data_bytes rest,
)

dpb_items-append :
    (v2 : Bool) (d : DpbData) (ds : List DpbData) (rest : Bytes)
    → dpb_items v2 (d ∷ ds) ++ rest
      ≡ put_u8 d.tag
        ++ ((if v2 then put_u32_le (length d.data_bytes) else put_u8 (length d.data_bytes))
            ++ (d.data_bytes ++ (dpb_items v2 ds ++ rest)))
unfolding dpb_items
dpb_items-append true d ds rest = rw (append_assoc d.data_bytes (dpb_items true ds) rest)
dpb_items-append false d ds rest = rw (append_assoc d.data_bytes (dpb_items false ds) rest)

read_items-dpb_items :
    (v2 : Bool) (params : List DpbData) (rest : Bytes)
    → All ParamFits params
    → All (λ d. Holds v2 (length d.data_bytes)) params
    → read_items (length params) v2 (dpb_items v2 params ++ rest) ≡ done params rest
unfolding read_items
read_items-dpb_items v2 [] rest fits holds = unfold dpb_items in refl
read_items-dpb_items v2 (d ∷ ds) rest (hd, fits) (w, holds) = rw (
  dpb_items-append v2 d ds rest,
  read_item-param v2 d (dpb_items v2 ds ++ rest) hd w,
  read_items-dpb_items v2 ds rest fits holds,
)

max_len-head :
    (d : DpbData) (ds : List DpbData) (n : ℕ)
    → max_len (d ∷ ds) ≤ n
    → (length d.data_bytes ≤ n) × (max_len ds ≤ n)
unfolding max_len
max_len-head d ds n h = ground arith

ltb-false : (a b : ℕ) → ltb a b ≡ false → b ≤ a
ltb-false a b h = ground arith

max_len-Holds :
    (v2 : Bool) (params : List DpbData)
    → Holds v2 (max_len params)
    → All (λ d. Holds v2 (length d.data_bytes)) params
max_len-Holds v2 [] h = tt
max_len-Holds v2 (d ∷ ds) h =
    ((λ e. (max_len-head d ds _ (h e)).0), max_len-Holds v2 ds (λ e. (max_len-head d ds _ (h e)).1))

-- `v2` is the version that `read_dpb` reads.
read_versioned :
    (v2 : Bool) (params : List DpbData) (rest : Bytes)
    → All ParamFits params
    → All (λ d. Holds v2 (length d.data_bytes)) params
    → read_dpb (length params) (
        put_u8 (if v2 then isc_dpb_version2 else isc_dpb_version1) ++ (dpb_items v2 params ++ rest))
      ≡ done params rest
unfolding read_dpb
read_versioned true params rest fits holds =
    rw (get_u8-put_u8 2 (dpb_items true params ++ rest) (omega arith))
      (read_items-dpb_items true params rest fits holds)
read_versioned false params rest fits holds =
    rw (get_u8-put_u8 1 (dpb_items false params ++ rest) (omega arith))
      (read_items-dpb_items false params rest fits holds)

-- Some parameter has more than 255 bytes.
abbrev pub SomeLong : List DpbData → Type 0
SomeLong [] = ⊥
SomeLong (d ∷ ds) = (255 < length d.data_bytes) ⊎ SomeLong ds

-- The version that stands in front of the parameters: the second one if a length wants four bytes, and
-- else the first.
abbrev pub Versioned : List DpbData → Bytes → Type 0
Versioned params block =
    (SomeLong params × (get_or block 0 0 ≡ isc_dpb_version2))
    ⊎ (All (λ d. length d.data_bytes ≤ 255) params × (get_or block 0 0 ≡ isc_dpb_version1))

max_len-SomeLong : (params : List DpbData) → 255 < max_len params → SomeLong params
unfolding max_len
max_len-SomeLong [] h = absurd (omega arith)
max_len-SomeLong (d ∷ ds) h = elim (Bool-cases (ltb 255 (length d.data_bytes))) [
  | inl long ↦ inl (ltb→lt 255 (length d.data_bytes) long)
  | inr short ↦ inr (max_len-SomeLong ds (ground arith))
]

max_len-All :
    (params : List DpbData) → max_len params ≤ 255 → All (λ d. length d.data_bytes ≤ 255) params
max_len-All [] h = tt
max_len-All (d ∷ ds) h = ((max_len-head d ds 255 h).0, max_len-All ds (max_len-head d ds 255 h).1)

dpb-Versioned : (params : List DpbData) → Versioned params (dpb params)
unfolding dpb
dpb-Versioned params = elim (Bool-cases (ltb 255 (max_len params))) [
  | inl long ↦ rw long (inl (max_len-SomeLong params (ltb→lt 255 (max_len params) long), refl))
  | inr short ↦ rw short (inr (max_len-All params (ltb-false 255 (max_len params) short), refl))
]

-- A block reads as the parameters that it was built from, whichever length it takes: a block with a
-- parameter of more than 255 bytes has the second version, and one without it the first. A tag is a
-- byte, and a parameter has less than 2^32 bytes.
pub read_dpb-dpb :
    (params : List DpbData) (rest : Bytes)
    → All ParamFits params
    → (read_dpb (length params) (dpb params ++ rest) ≡ done params rest)
      × Versioned params (dpb params)
read_dpb-dpb params rest fits = (
  unfold dpb in
      read_versioned (ltb 255 (max_len params)) params rest fits
        (max_len-Holds (ltb 255 (max_len params)) params (ltb-false 255 (max_len params))),
  dpb-Versioned params,
)

-- ===== src/StmtCache/Entries.antt =====
-- src/connection/stmt_cache.rs: lemmas on the entries of a cache and on the set of its texts.
use rsfbclient.Base.{
  ◌==◌, if◌then◌else◌, Bool-cases, length, length-append, ℕ, ◌≤◌, ◌<◌, ◌≡◌, refl, ◌∙◌, inl, inr,
  Bool, true, false, none, some, List, [], ◌∷◌, ◌++◌, arith,
}
use rsfbclient.StmtCache.Crate.{find, without, first, rest, evict, contains, set_insert}
use rsfbclient.StmtCache.Invariant.{same, keys, Distinct, length-without-le}
use rsfbclient.StmtCache.{new}

pub nested_if :
    (b x : Bool) → (if b then true else (if b then false else x)) ≡ (if b then true else x)
nested_if true x = refl
nested_if false x = refl

module _ {K : Type 0} (deq : Discrete K) where
  pub same_refl : (k : K) → same deq k k ≡ true
  same_refl k = elim (Bool-cases (same deq k k)) [ inl e ↦ e | inr e ↦ ground arith ]

  pub same-eq : (k sql : K) → same deq k sql ≡ true → k ≡ sql
  same-eq k sql h = ground arith

  pub contains-same :
      (k sql : K) (js : List K)
      → contains deq sql js ≡ true
      → contains deq k js ≡ (if same deq k sql then true else contains deq k js)
  contains-same k sql js h = elim (Bool-cases (same deq k sql)) [
    | inl e ↦ rw (e, same-eq k sql e, h)
    | inr e ↦ rw e
  ]

  pub contains-set_insert :
      (k sql : K) (js : List K)
      → contains deq k (set_insert deq sql js)
        ≡ (if same deq k sql then true else contains deq k js)
  contains-set_insert k sql js = elim (Bool-cases (contains deq sql js)) [
    | inl e ↦ rw e (contains-same k sql js e)
    | inr e ↦ rw e (ground arith)
  ]

module _ {K T : Type 0} (deq : Discrete K) where
  pub contains-add :
      (k sql : K) (stmt : T) (es : List (K × T))
      → contains deq k (keys deq (es ++ ((sql, stmt) ∷ [])))
        ≡ (if same deq k sql then true else contains deq k (keys deq es))
  contains-add k sql stmt [] = ground arith
  contains-add k sql stmt ((i, v) ∷ es) = ground (arith, contains-add k sql stmt es)

  pub other :
      (i : K) (v : T) (sql : K) (es : List (K × T))
      → contains deq sql (keys deq ((i, v) ∷ es)) ≡ false
      → same deq i sql ≡ false
  other i v sql es h = ground arith

  pub later :
      (i : K) (v : T) (sql : K) (es : List (K × T))
      → contains deq sql (keys deq ((i, v) ∷ es)) ≡ false
      → contains deq sql (keys deq es) ≡ false
  later i v sql es h = ground arith

  pub Distinct-add :
      (sql : K) (stmt : T) (es : List (K × T))
      → Distinct deq es
      → contains deq sql (keys deq es) ≡ false
      → Distinct deq (es ++ ((sql, stmt) ∷ []))
  Distinct-add sql stmt [] d h = (refl, tt)
  Distinct-add sql stmt ((i, v) ∷ es) (fresh, d) h = (
    contains-add i sql stmt es ∙ rw (other i v sql es h) fresh,
    Distinct-add sql stmt es d (later i v sql es h),
  )

  pub length-without-lt :
      (sql : K) (es : List (K × T))
      → contains deq sql (keys deq es) ≡ true
      → length (without deq sql es) < length es
  length-without-lt sql [] h = cc
  length-without-lt sql ((i, v) ∷ es) h =
      ground (arith, length-without-lt sql es, length-without-le deq sql es)

  pub find_absent :
      (sql : K) (es : List (K × T))
      → contains deq sql (keys deq es) ≡ false
      → find deq sql es ≡ none
  find_absent sql [] h = refl
  find_absent sql ((i, v) ∷ es) h = ground (arith, find_absent sql es)

  pub evicted_texts :
      (k sql o : K) (t : T) (others : List (K × T))
      → contains deq o (keys deq others) ≡ false
      → same deq o sql ≡ false
      → (if same deq k o
          then false
          else (if same deq k sql then true else contains deq k (keys deq ((o, t) ∷ others))))
        ≡ (if same deq k sql then true else contains deq k (keys deq others))
  evicted_texts k sql o t others once ne = elim (Bool-cases (same deq k o)) [
    | inl e ↦ rw (e, same-eq deq k o e, ne, once)
    | inr e ↦ ground arith
  ]

  pub no_eviction :
      (capacity : ℕ) (es : List (K × T)) (new : K × T)
      → length es < capacity
      → evict capacity (es ++ (new ∷ [])) ≡ es ++ (new ∷ [])
  no_eviction capacity es new h = ground (arith, length-append es (new ∷ []))

pub first-some : {A : Type 0} (x : A) (es : List A) → some x ≡ first es → es ≡ x ∷ rest es
first-some x [] h = cc
first-some x (e ∷ es) h = cc

pub first-none : {A : Type 0} (es : List A) → none ≡ first es → 0 < length es → ⊥
first-none [] h some_entry = omega arith
first-none (e ∷ es) h some_entry = cc

pub room_left :
    (len capacity size : ℕ)
    → (len == capacity) ≡ false
    → len ≡ size
    → size ≤ capacity
    → size < capacity
room_left len capacity size h same_size bounded = ground arith

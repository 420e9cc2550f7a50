-- ===== src/StmtCache/Crate.antt =====
-- What src/connection/stmt_cache.rs relies on of the lru_cache crate and of `HashSet`.
use rsfbclient.Base.{
  ltb, if◌then◌else◌, length, ℕ, ◌≡◌, Bool, true, false, Option, none, some, List, [], ◌∷◌, ◌++◌,
}

module _ {K T : Type 0} (deq : Discrete K) where
  abbrev pub find : K → List (K × T) → Option T
  find k [] = none
  find k ((j, v) ∷ es) = elim (deq k j) [ yes _ ↦ some v | no _ ↦ find k es ]

  abbrev pub without : K → List (K × T) → List (K × T)
  without k [] = []
  without k ((j, v) ∷ es) = elim (deq k j) [ yes _ ↦ without k es | no _ ↦ (j, v) ∷ without k es ]

module _ {A : Type 0} where
  abbrev pub first : List A → Option A
  first [] = none
  first (e ∷ es) = some e

  abbrev pub rest : List A → List A
  rest [] = []
  rest (e ∷ es) = es

  -- The oldest entry goes if there are more than `capacity`.
  abbrev pub evict : ℕ → List A → List A
  evict capacity es = if ltb capacity (length es) then rest es else es

-- `entries` is the content, the least recently used entry first. The laws are the documented ones:
-- `insert` answers the value that the key had, and evicts the least recently used entry where the
-- cache has become longer than its capacity.
pub record Lru {K : Type 0} (deq : Discrete K) (T : Type 0) : Type 1 where
  pub Cache : Type 0
  pub entries : Cache → List (K × T)
  pub capacity : Cache → ℕ
  pub len : Cache → ℕ
  pub new : ℕ → Cache
  pub remove : K → Cache → Option T × Cache
  pub insert : K → T → Cache → Option T × Cache
  pub remove_lru : Cache → Option (K × T) × Cache
  pub len_lem : (c : Cache) → len c ≡ length (entries c)
  pub new-entries : (n : ℕ) → entries (new n) ≡ []
  pub new-capacity : (n : ℕ) → capacity (new n) ≡ n
  pub remove-value : (k : K) (c : Cache) → (remove k c).0 ≡ find deq k (entries c)
  pub remove-entries : (k : K) (c : Cache) → entries (remove k c).1 ≡ without deq k (entries c)
  pub remove-capacity : (k : K) (c : Cache) → capacity (remove k c).1 ≡ capacity c
  pub insert-value : (k : K) (v : T) (c : Cache) → (insert k v c).0 ≡ find deq k (entries c)
  pub insert-entries :
      (k : K) (v : T) (c : Cache)
      → entries (insert k v c).1 ≡ evict (capacity c) (without deq k (entries c) ++ ((k, v) ∷ []))
  pub insert-capacity : (k : K) (v : T) (c : Cache) → capacity (insert k v c).1 ≡ capacity c
  pub remove_lru-value : (c : Cache) → (remove_lru c).0 ≡ first (entries c)
  pub remove_lru-entries : (c : Cache) → entries (remove_lru c).1 ≡ rest (entries c)
  pub remove_lru-capacity : (c : Cache) → capacity (remove_lru c).1 ≡ capacity c

-- `HashSet`, as a list without repetitions.
module _ {K : Type 0} (deq : Discrete K) where
  abbrev pub contains : K → List K → Bool
  contains k [] = false
  contains k (j ∷ js) = elim (deq k j) [ yes _ ↦ true | no _ ↦ contains k js ]

  abbrev pub set_insert : K → List K → List K
  set_insert k js = if contains k js then js else k ∷ js

  abbrev pub set_remove : K → List K → List K
  set_remove k [] = []
  set_remove k (j ∷ js) = elim (deq k j) [ yes _ ↦ set_remove k js | no _ ↦ j ∷ set_remove k js ]

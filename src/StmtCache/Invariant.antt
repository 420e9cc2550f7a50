-- ===== src/StmtCache/Invariant.antt =====
-- src/connection/stmt_cache.rs: the texts in `sqls` and those of the cache, `get` and `insert_and_close`.
use rsfbclient.Base.{
  if◌then◌else◌, length, length-append, ℕ, ◌≤◌, ◌≡◌, refl, sym, ap, ◌∙◌, Bool, true, false, Option,
  none, some, List, [], ◌∷◌, ◌++◌, arith,
}
use rsfbclient.StmtCache.Crate.{find, without, evict, Lru, contains, set_insert, set_remove}
use rsfbclient.StmtCache.{
  closed_of, StmtCache, new, Got, got, absent, panicked, get, cache_insert, insert,
  insert_and_close, get_found,
}

module _ {K : Type 0} (deq : Discrete K) where
  abbrev pub same : K → K → Bool
  same k j = elim (deq k j) [ yes _ ↦ true | no _ ↦ false ]

  contains-set_insert_self : (k : K) (js : List K) → contains deq k (set_insert deq k js) ≡ true
  contains-set_insert_self k js = ground arith

  pub contains-set_remove :
      (k j : K) (js : List K)
      → contains deq k (set_remove deq j js) ≡ (if same k j then false else contains deq k js)
  contains-set_remove k j [] = ground arith
  contains-set_remove k j (i ∷ js) = ground (arith, contains-set_remove k j js)

module _ {K T : Type 0} (deq : Discrete K) where
  abbrev pub keys : List (K × T) → List K
  keys [] = []
  keys ((k, v) ∷ es) = k ∷ keys es

  -- No text twice.
  abbrev pub Distinct : List (K × T) → Type 0
  Distinct [] = Unit {0}
  Distinct ((k, v) ∷ es) = (contains deq k (keys es) ≡ false) × Distinct es

  pub contains-without :
      (k j : K) (es : List (K × T))
      → contains deq k (keys (without deq j es))
        ≡ (if same deq k j then false else contains deq k (keys es))
  contains-without k j [] = ground arith
  contains-without k j ((i, v) ∷ es) = ground (arith, contains-without k j es)

  pub Distinct-without : (j : K) (es : List (K × T)) → Distinct es → Distinct (without deq j es)
  Distinct-without j [] h = tt
  Distinct-without j ((i, v) ∷ es) (h, hs) =
      ground (arith, contains-without i j es, Distinct-without j es hs)

  pub length-without-le : (j : K) (es : List (K × T)) → length (without deq j es) ≤ length es
  length-without-le j [] = omega arith
  length-without-le j ((i, v) ∷ es) = ground (arith, length-without-le j es)

  pub find-contains :
      (k : K) (es : List (K × T))
      → contains deq k (keys es) ≡ (elim (find deq k es) [ none ↦ false | some _ ↦ true ])
  find-contains k [] = refl
  find-contains k ((i, v) ∷ es) = ground (arith, find-contains k es)

  pub without_absent : (k : K) (es : List (K × T)) → find deq k es ≡ none → without deq k es ≡ es
  without_absent k [] h = refl
  without_absent k ((i, v) ∷ es) h = ground (arith, without_absent k es)

overflow :
    {A : Type 0} (x : A) (xs : List A) (y : A)
    → evict (length (x ∷ xs)) ((x ∷ xs) ++ (y ∷ [])) ≡ xs ++ (y ∷ [])
overflow x xs y = ground (arith, length-append xs (y ∷ []))

module _ {K T : Type 0} {deq : Discrete K} (lru : Lru deq T) where
  -- The set of texts is the set of the cache's keys, each once, and the cache keeps to its capacity.
  pub record Synced (self : StmtCache lru) : Type 0 where
    pub texts :
        (k : K) → contains deq k self.sqls ≡ contains deq k (keys deq (lru.entries self.cache))
    pub distinct : Distinct deq (lru.entries self.cache)
    pub bounded : length (lru.entries self.cache) ≤ lru.capacity self.cache

  -- What `get` does to a cache in step with its texts.
  abbrev pub GetsFrom : K → StmtCache lru → Got lru → Type 0
  GetsFrom sql self (got k t self') =
      (k ≡ sql)
      × (find deq sql (lru.entries self.cache) ≡ some t)
      × (lru.entries self'.cache ≡ without deq sql (lru.entries self.cache))
      × Synced self'
  GetsFrom sql self (absent self') =
      (find deq sql (lru.entries self.cache) ≡ none)
      × (lru.entries self'.cache ≡ lru.entries self.cache)
      × Synced self'
  GetsFrom sql self panicked = ⊥

  new-Synced : (n : ℕ) → Synced (new lru n)
  unfolding new
  new-Synced n = record {
    texts = λ k. rw (lru.new-entries n);
    distinct = rw (lru.new-entries n) tt;
    bounded = rw (lru.new-entries n) (omega arith);
  }

  get_found-GetsFrom :
      (sql : K) (self : StmtCache lru) (old : Option T) (cache : lru.Cache)
      → old ≡ find deq sql (lru.entries self.cache)
      → lru.entries cache ≡ without deq sql (lru.entries self.cache)
      → lru.capacity cache ≡ lru.capacity self.cache
      → Synced self
      → GetsFrom sql self (get_found lru sql self (old, cache))
  unfolding get_found
  get_found-GetsFrom sql self none cache value left cap v =
      let e : lru.entries cache ≡ lru.entries self.cache =
        left ∙ without_absent deq sql _ (sym value) in
      (
        sym value,
        e,
        record {
          texts = λ k. rw e (v.texts k);
          distinct = rw e v.distinct;
          bounded = rw (e, cap) v.bounded;
        },
      )
  get_found-GetsFrom sql self (some t) cache value left cap v =
      let held : contains deq sql self.sqls ≡ true =
        v.texts sql ∙ find-contains deq sql (lru.entries self.cache) ∙ rw (← value) in
      rw held (
        refl,
        sym value,
        left,
        record {
          texts = λ k. rw (
            left,
            contains-set_remove deq k sql self.sqls,
            contains-without deq k sql (lru.entries self.cache),
            v.texts k,
          );
          distinct = rw left (Distinct-without deq sql _ v.distinct);
          bounded =
              rw (left, cap)
                (omega (arith, length-without-le deq sql (lru.entries self.cache), v.bounded));
        },
      )

  -- `get` of a cache in step with its texts never panics: it takes the statement of the text out of
  -- the cache and the text out of the set if the cache has one, and otherwise leaves the entries as
  -- they were. The cache is in step with its texts after it.
  pub get-GetsFrom :
      (sql : K) (self : StmtCache lru) → Synced self → GetsFrom sql self (get lru sql self)
  unfolding get
  get-GetsFrom sql self v =
      get_found-GetsFrom sql self (lru.remove sql self.cache).0 (lru.remove sql self.cache).1
        (lru.remove-value sql self.cache) (lru.remove-entries sql self.cache)
        (lru.remove-capacity sql self.cache) v

  pub insert-held :
      (sql : K) (stmt : T) (self : StmtCache lru)
      → contains deq sql self.sqls ≡ true
      → insert lru sql stmt self ≡ cache_insert lru sql stmt self
  unfolding insert
  insert-held sql stmt self h = rw h

  insert_and_close-insert :
      (sql : K) (stmt : T) (self : StmtCache lru)
      → insert_and_close lru sql stmt self ≡ (
        closed_of (lru.insert sql stmt self.cache).0,
        record { cache = (lru.insert sql stmt self.cache).1; sqls = set_insert deq sql self.sqls },
      )
  unfolding insert_and_close cache_insert
  insert_and_close-insert sql stmt self = rw (
      insert-held sql stmt (record self { sqls = set_insert deq sql self.sqls })
        (contains-set_insert_self deq sql self.sqls))

  -- `insert_and_close` puts the text into the set before it calls `insert`, so `insert` takes it for
  -- one that the cache has: it closes the previous statement of the same text, if any, and nothing
  -- else, and where the cache has become too long the least recently used statement leaves it without
  -- being closed and without its text leaving the set.
  pub insert_and_close-evicts :
      (sql : K) (stmt : T) (self : StmtCache lru)
      → ((insert_and_close lru sql stmt self).0 ≡ closed_of (find deq sql (lru.entries self.cache)))
        × (lru.entries (insert_and_close lru sql stmt self).1.cache
            ≡ evict
                (lru.capacity self.cache)
                (without deq sql (lru.entries self.cache) ++ ((sql, stmt) ∷ [])))
        × ((insert_and_close lru sql stmt self).1.sqls ≡ set_insert deq sql self.sqls)
  insert_and_close-evicts sql stmt self = rw insert_and_close-insert (
    ap closed_of (lru.insert-value sql stmt self.cache),
    lru.insert-entries sql stmt self.cache,
    refl,
  )

  -- Where the cache is full of other texts, a call of `insert_and_close` drops the least recently used
  -- statement: no statement is closed, and the cache has the others and the new one.
  pub insert_and_close-leaks :
      (sql : K) (stmt : T) (self : StmtCache lru) (oldest : K × T) (others : List (K × T))
      → lru.entries self.cache ≡ oldest ∷ others
      → find deq sql (lru.entries self.cache) ≡ none
      → lru.capacity self.cache ≡ length (lru.entries self.cache)
      → ((insert_and_close lru sql stmt self).0 ≡ [])
        × (lru.entries (insert_and_close lru sql stmt self).1.cache ≡ others ++ ((sql, stmt) ∷ []))
  insert_and_close-leaks sql stmt self oldest others held fresh full =
      let (closed, left, _) = insert_and_close-evicts sql stmt self in
      (
        closed ∙ rw fresh,
        left ∙ rw (full, without_absent deq sql _ fresh, held) (overflow oldest others (sql, stmt)),
      )

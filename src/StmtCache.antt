-- ===== src/StmtCache.antt =====
-- src/connection/stmt_cache.rs: the cache of prepared statements. The cache proper is the `LruCache`
-- of the lru_cache crate, which stands for itself as a record of its operations with what its
-- documentation says of them. `close` of a statement is the list of the statements closed so far.
pub mod Crate
pub mod Invariant
pub mod Entries
pub mod Insert
use rsfbclient.Base.{◌==◌, if◌then◌else◌, ℕ, Option, none, some, List, [], ◌∷◌, map}
use rsfbclient.StmtCache.Crate.{Lru, contains, set_insert, set_remove}

-- `if let Some(mut stmt) = … { stmt.close(conn)?; }`
abbrev pub closed_of : {T : Type 0} → Option T → List T
closed_of none = []
closed_of (some t) = t ∷ []

-- `K` is the text of a statement and `T` what the cache keeps for it.
module _ {K T : Type 0} {deq : Discrete K} (lru : Lru deq T) where
  pub record StmtCache : Type 0 where
    pub cache : lru.Cache
    pub sqls : List K

  unfoldable pub new : ℕ → StmtCache
  new capacity = record { cache = lru.new capacity; sqls = [] }

  -- `self.sqls.take(sql).unwrap()`: `panicked` if the set does not hold the text.
  pub data Got : Type 0 where
    got : K → T → StmtCache → Got
    absent : StmtCache → Got
    panicked : Got

  get_found : K → StmtCache → Option T × lru.Cache → Got
  get_found sql self (some stmt, cache) =
      if contains deq sql self.sqls
      then got sql stmt (record { cache = cache; sqls = set_remove deq sql self.sqls })
      else panicked
  get_found sql self (none, cache) = absent (record self { cache = cache })

  unfoldable pub get : K → StmtCache → Got
  unfolding get_found
  get sql self = get_found sql self (lru.remove sql self.cache)

  -- The last recently used statement leaves, and its text with it.
  drop_lru : StmtCache → Option (K × T) × lru.Cache → Option T × StmtCache
  drop_lru self (some (sql, stmt), cache) =
      (some stmt, record { cache = cache; sqls = set_remove deq sql self.sqls })
  drop_lru self (none, cache) = (none, record self { cache = cache })

  make_room : StmtCache → Option T × StmtCache
  unfolding drop_lru
  make_room self =
      if lru.len self.cache == lru.capacity self.cache
      then drop_lru self (lru.remove_lru self.cache)
      else (none, self)

  -- `self.cache.insert(data.sql, data.stmt)`, whose answer is `.0`.
  pub cache_insert : K → T → StmtCache → Option T × StmtCache
  cache_insert sql stmt self =
      let (old, cache) = lru.insert sql stmt self.cache in (old, record self { cache = cache })

  unfoldable pub insert : K → T → StmtCache → Option T × StmtCache
  unfolding make_room cache_insert
  insert sql stmt self =
      if contains deq sql self.sqls
      then cache_insert sql stmt self
      else (let (old, roomy) = make_room (record self { sqls = set_insert deq sql self.sqls }) in
          (old, (cache_insert sql stmt roomy).1))

  -- `insert_and_close`, with the statements that it closes. A close that fails is reported, and is
  -- tried once all the same.
  unfoldable pub insert_and_close : K → T → StmtCache → List T × StmtCache
  insert_and_close sql stmt self =
      let (old, self') = insert sql stmt (record self { sqls = set_insert deq sql self.sqls }) in
      (closed_of old, self')

  -- `close_all`: every statement of the cache is closed, and an empty cache stands in its place.
  unfoldable pub close_all : StmtCache → List T × StmtCache
  close_all self = (map (λ e. e.1) (lru.entries self.cache), new 0)

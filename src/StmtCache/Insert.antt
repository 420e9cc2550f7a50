-- ===== src/StmtCache/Insert.antt =====
-- src/connection/stmt_cache.rs: `insert`, and the statements that it hands back.
use rsfbclient.Base.{◌≡◌, ◌⊎◌, Option, none, some, List, [], ◌∷◌, ◌++◌}
use rsfbclient.StmtCache.Crate.{find, without, Lru}
use rsfbclient.StmtCache.Invariant.{Synced}
use rsfbclient.StmtCache.{StmtCache}

module _ {K T : Type 0} {deq : Discrete K} (lru : Lru deq T) where
  -- What `insert` does to a cache in step with its texts: it hands back the previous statement of the
  -- text, if any, and the other entries stay; or the cache was full of other texts, and it hands back
  -- the least recently used statement.
  abbrev pub HandsBack : K → T → StmtCache lru → Option T × StmtCache lru → Type 0
  HandsBack sql stmt self (old, self') =
      Synced lru self'
      × (((find deq sql (lru.entries self.cache) ≡ old)
            × (lru.entries self'.cache
                ≡ without deq sql (lru.entries self.cache) ++ ((sql, stmt) ∷ [])))
          ⊎ ((oldest : K × T) × (others : List (K × T)) × (find deq sql (lru.entries self.cache)
                ≡ none)
              × (lru.entries self.cache ≡ oldest ∷ others)
              × (old ≡ some oldest.1)
              × (lru.entries self'.cache ≡ others ++ ((sql, stmt) ∷ []))))

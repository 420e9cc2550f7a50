-- ===== src/Tests/Cache.antt =====
-- Witnesses for src/connection/stmt_cache.rs, with numbers for texts and statements.
use native.Mathlib.Decide.{ℕ_discrete}
use rsfbclient.Base.{length, ℕ, ◌≡◌, refl, List, [], ◌∷◌, ◌++◌, arith}
use rsfbclient.StmtCache.Crate.{find, without, first, rest, evict, Lru}
use rsfbclient.StmtCache.{StmtCache, get, insert, insert_and_close}
use rsfbclient.StmtCache.Invariant.{Synced, GetsFrom, get-GetsFrom, insert_and_close-leaks}

-- A cache that is its capacity and its list of entries.
abbrev listed : Lru ℕ_discrete ℕ
listed = record {
  Cache = ℕ × List (ℕ × ℕ);
  entries = λ c. c.1;
  capacity = λ c. c.0;
  len = λ c. length c.1;
  new = λ n. (n, []);
  remove = λ k c. (find ℕ_discrete k c.1, (c.0, without ℕ_discrete k c.1));
  insert = λ k v c.
      (find ℕ_discrete k c.1, (c.0, evict c.0 (without ℕ_discrete k c.1 ++ ((k, v) ∷ []))));
  remove_lru = λ c. (first c.1, (c.0, rest c.1));
  len_lem = λ c. refl;
  new-entries = λ n. refl;
  new-capacity = λ n. refl;
  remove-value = λ k c. refl;
  remove-entries = λ k c. refl;
  remove-capacity = λ k c. refl;
  insert-value = λ k v c. refl;
  insert-entries = λ k v c. refl;
  insert-capacity = λ k v c. refl;
  remove_lru-value = λ c. refl;
  remove_lru-entries = λ c. refl;
  remove_lru-capacity = λ c. refl;
}

-- Two statements, 10 and 20, in a cache of two.
abbrev full_cache : StmtCache listed
full_cache = record { cache = (2, (1, 10) ∷ (2, 20) ∷ []); sqls = 1 ∷ 2 ∷ [] }

full_cache-Synced : Synced listed full_cache
unfolding ℕ_discrete
full_cache-Synced = record {
  texts = λ k. refl;
  distinct = (refl, (refl, tt));
  bounded = omega arith;
}

get-GetsFrom_example : GetsFrom listed 1 full_cache (get listed 1 full_cache)
get-GetsFrom_example = get-GetsFrom listed 1 full_cache full_cache-Synced

-- The statement 10 is neither closed nor kept.
insert_and_close-leaks_example :
    ((insert_and_close listed 3 30 full_cache).0 ≡ [])
    × ((insert_and_close listed 3 30 full_cache).1.cache.1 ≡ (2, 20) ∷ (3, 30) ∷ [])
unfolding ℕ_discrete
insert_and_close-leaks_example =
    insert_and_close-leaks listed 3 30 full_cache (1, 10) ((2, 20) ∷ []) refl refl refl

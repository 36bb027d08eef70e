-- ===== src/Engine/Cache/Runs.antt =====
-- The cache with one key.
use scoria_db.Base.{◌≡◌, refl, ◌⊎◌, false, none, some, [], ◌∷◌, arith}
use scoria_db.Base.Bytes.{Bytes}
use scoria_db.Base.Map.{bytes_equal}
use scoria_db.Engine.Cache.{LastCommitCache, empty_cache, update_last_commit_cache, find_entry}
use scoria_db.Engine.Cache.Lookup.{IsValid}
use scoria_db.Engine.Cache.Updated.{known_ts, update_last_commit_cache-known_ts}

empty-IsValid : IsValid empty_cache
unfolding find_entry
empty-IsValid = record { agree = λ key. refl; distinct = tt; bounded = omega arith }

abbrev one_key : LastCommitCache
one_key = update_last_commit_cache (1 ∷ []) 5 empty_cache

update_last_commit_cache-known_ts_example :
    IsValid (update_last_commit_cache (2 ∷ []) 7 one_key)
    × (known_ts (2 ∷ []) (update_last_commit_cache (2 ∷ []) 7 one_key) ≡ some 7)
    × ((k : Bytes)
        → bytes_equal (2 ∷ []) k ≡ false
        → (known_ts k (update_last_commit_cache (2 ∷ []) 7 one_key) ≡ known_ts k one_key)
          ⊎ (known_ts k (update_last_commit_cache (2 ∷ []) 7 one_key) ≡ none))
update_last_commit_cache-known_ts_example =
    update_last_commit_cache-known_ts (2 ∷ []) 7 one_key
      (update_last_commit_cache-known_ts (1 ∷ []) 5 empty_cache empty-IsValid).0

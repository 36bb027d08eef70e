-- ===== src/Engine/Cache.antt =====
-- internal/engine/cache.go: the commit timestamps of the keys that were used last. An element of the
-- list is named by its key, so the map only tells which keys have one.
pub mod Lookup
pub mod Updated
mod Runs
use scoria_db.Base.{
  ℕ, zero, suc, Bool, true, false, Option, none, some, List, [], ◌∷◌, ltb, if◌then◌else◌, length,
}
use scoria_db.Base.Bytes.{Bytes}
use scoria_db.Base.Map.{bytes_equal}

abbrev pub max_last_commit_cache_entries : ℕ
max_last_commit_cache_entries = 10000

pub record LastCommitCacheEntry : Type 0 where
  pub key : Bytes
  pub ts : ℕ

-- The front of the list is the key that was used last.
pub record LastCommitCache : Type 0 where
  pub map : Bytes → Bool
  pub lru : List LastCommitCacheEntry

abbrev pub empty_cache : LastCommitCache
empty_cache = record { map = λ key. false; lru = [] }

unfoldable pub find_entry : Bytes → List LastCommitCacheEntry → Option ℕ
find_entry key [] = none
find_entry key (e ∷ es) =
    let rest = find_entry key es in if bytes_equal e.key key then some e.ts else rest

unfoldable pub remove_entry : Bytes → List LastCommitCacheEntry → List LastCommitCacheEntry
remove_entry key [] = []
remove_entry key (e ∷ es) =
    let rest = remove_entry key es in if bytes_equal e.key key then es else e ∷ rest

-- The element becomes the first of the list, with this timestamp.
unfoldable pub move_to_front : Bytes → ℕ → LastCommitCache → LastCommitCache
unfolding remove_entry
move_to_front key ts c = record c { lru = record { key = key; ts = ts } ∷ remove_entry key c.lru }

-- One round of the eviction: the last element goes, and its key in the map.
unfoldable pub evict_oldest :
    LastCommitCacheEntry → List LastCommitCacheEntry → (Bytes → Bool) → LastCommitCache
evict_oldest e [] map = record {
  map = λ key. if bytes_equal e.key key then false else map key;
  lru = [];
}
evict_oldest e (x ∷ xs) map = let c = evict_oldest x xs map in record c { lru = e ∷ c.lru }

-- The loop of the eviction, which takes an element in each round.
unfoldable pub evict : ℕ → LastCommitCache → LastCommitCache
unfolding evict_oldest
evict zero c = c
evict (suc fuel) c = elim c.lru [
  | [] ↦ c
  | e ∷ es ↦
      let rest = evict fuel (evict_oldest e es c.map) in
      if ltb max_last_commit_cache_entries (length c.lru) then rest else c
]

unfoldable pub update_last_commit_cache : Bytes → ℕ → LastCommitCache → LastCommitCache
unfolding move_to_front evict
update_last_commit_cache key ts c =
    if c.map key
    then move_to_front key ts c
    else evict (suc (length c.lru)) (record {
      map = λ k. if bytes_equal key k then true else c.map k;
      lru = record { key = key; ts = ts } ∷ c.lru;
    })

-- A hit makes the element the first.
unfoldable pub get_last_commit_cache : Bytes → LastCommitCache → Option ℕ × LastCommitCache
unfolding find_entry move_to_front
get_last_commit_cache key c =
    if c.map key
    then elim (find_entry key c.lru) [
      | none ↦ (none, c)
      | some ts ↦ (some ts, move_to_front key ts c)
    ]
    else (none, c)

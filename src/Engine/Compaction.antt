-- ===== src/Engine/Compaction.antt =====
-- internal/engine/compaction.go: which versions compactLevel0 writes, and the key range that it notes.
-- The versions stand in the order of sort.Slice. The least active snapshot is read again for each
-- version, and other threads change it meanwhile: `min_at i` is what the read of the i-th version finds.
-- The tables and files around the loop are left out.
pub mod Retained
mod Runs
use scoria_db.Base.{
  ℕ, zero, suc, ◌+◌, Bool, true, false, not, ◌||◌, Option, none, some, List, [], ◌∷◌, ◌++◌, ltb,
  ◌==◌, if◌then◌else◌, length, Ordering,
}
use scoria_db.Base.Bytes.{Bytes}
use scoria_db.Base.Map.{bytes_equal}
use scoria_db.Keys.{compare_keys}
use scoria_db.Mvcc.{MvccKey, commit_ts}

pub record Kv : Type 0 where
  pub key : MvccKey
  pub value : Bytes

-- The order of the versions: of one user key, the newest first.
unfoldable pub kv_less : Kv → Kv → Bool
kv_less a b = elim (compare_keys a.key.key b.key.key) [
  | Ordering.lt ↦ true
  | Ordering.gt ↦ false
  | Ordering.eq ↦ ltb a.key.timestamp b.key.timestamp
]

-- The versions of a user key at the front, and what stands behind them.
unfoldable pub versions_of_key : Bytes → List Kv → List Kv
versions_of_key user_key [] = []
versions_of_key user_key (kv ∷ kvs) =
    let rest = versions_of_key user_key kvs in
    if bytes_equal kv.key.key user_key then kv ∷ rest else []

unfoldable pub behind_key : Bytes → List Kv → List Kv
behind_key user_key [] = []
behind_key user_key (kv ∷ kvs) =
    let rest = behind_key user_key kvs in if bytes_equal kv.key.key user_key then rest else kv ∷ kvs

-- Whether a version is written; an empty value is a tombstone.
unfoldable pub is_kept : Bool → ℕ → Kv → Bool
unfolding commit_ts
is_kept newest cur_min kv =
    if newest
    then not (length kv.value == 0)
    else if cur_min == 0 || ltb cur_min (commit_ts kv.key)
    then false
    else not (length kv.value == 0)

-- The loop over the versions of a key, of which the first is the one at the index `i`.
unfoldable pub write_versions : (ℕ → ℕ) → Bool → ℕ → List Kv → List Kv
unfolding is_kept
write_versions min_at newest i [] = []
write_versions min_at newest i (kv ∷ kvs) =
    let rest = write_versions min_at false (i + 1) kvs in
    if is_kept newest (min_at i) kv then kv ∷ rest else rest

-- The loop over the user keys, from the version at the index `i` on; `none` is no Go value: the fuel
-- ran out. Each round takes a version at least.
unfoldable pub compact_loop : ℕ → (ℕ → ℕ) → ℕ → List Kv → Option (List Kv)
unfolding versions_of_key behind_key write_versions
compact_loop zero min_at i kvs = none
compact_loop (suc fuel) min_at i [] = some []
compact_loop (suc fuel) min_at i (kv ∷ kvs) =
    let versions = versions_of_key kv.key.key (kv ∷ kvs) in
    elim (compact_loop fuel min_at (i + length versions) (behind_key kv.key.key (kv ∷ kvs))) [
      | none ↦ none
      | some rest ↦ some (write_versions min_at true i versions ++ rest)
    ]

-- minKey and maxKey over the versions that are written.
unfoldable pub key_range : List Kv → Option (Bytes × Bytes) → Option (Bytes × Bytes)
key_range [] range = range
key_range (kv ∷ kvs) range =
    let k = kv.key.key in
    key_range kvs (elim range [
      | none ↦ some (k, k)
      | some (min_key, max_key) ↦ some (
        elim (compare_keys k min_key) [
          | Ordering.lt ↦ k
          | Ordering.eq ↦ min_key
          | Ordering.gt ↦ min_key
        ],
        elim (compare_keys k max_key) [
          | Ordering.gt ↦ k
          | Ordering.eq ↦ max_key
          | Ordering.lt ↦ max_key
        ],
      )
    ])

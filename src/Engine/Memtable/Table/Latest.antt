-- ===== src/Engine/Memtable/Table/Latest.antt =====
-- GetLatest, against the versions of the key.
use scoria_db.Base.{
  subst, ℕ, zero, suc, ◌≤◌, ◌<◌, ◌≡◌, refl, sym, ap, ◌∙◌, inl, inr, Bool, true, false, not, ◌||◌,
  Option, none, List, [], ◌∷◌, arith, ◌==◌, if◌then◌else◌, Bool-cases, length, All,
}
use scoria_db.Base.Bytes.{Bytes}
use scoria_db.Base.Map.{bytes_equal}
use scoria_db.Mvcc.{MvccKey, commit_ts, max_uint64}
use scoria_db.Engine.Memtable.Arena.{Arena, node_at}
use scoria_db.Engine.Memtable.Chain.{Chain, Sorted, after}
use scoria_db.Engine.Memtable.Chain.Members.{All-map}
use scoria_db.Engine.Memtable.SkipList.{SkipList, node_key_less, value_of}
use scoria_db.Engine.Memtable.SkipList.Search.{in_front, keys, links}
use scoria_db.Engine.Memtable.SkipList.Valid.{pred, Chain-after, find_greater_or_equal-pred}
use scoria_db.Engine.Memtable.SkipList.Entries.{Entry, entries, entry_of}
use scoria_db.Engine.Memtable.SkipList.Put.{Holds}
use scoria_db.Engine.Memtable.SkipList.Get.{oldest_key, front_other, later_other}
use scoria_db.Engine.Memtable.SkipList.Reads.{
  AllUint64, bounded_keys, after-Sorted, after-All, after-length,
}
use scoria_db.Engine.Memtable.Table.{
  LatestState, latest_start, latest_step, latest_loop, latest_result, get_latest,
}

unfoldable pub versions_of : Bytes → List Entry → List Entry
versions_of key [] = []
versions_of key (e ∷ es) =
    let rest = versions_of key es in if bytes_equal e.key.key key then e ∷ rest else rest

unfoldable pub any_live : List Entry → Bool
any_live [] = false
any_live (e ∷ es) = not e.deleted || any_live es

-- Value and timestamp of the last live version.
unfoldable pub live_or : Option Bytes × ℕ → List Entry → Option Bytes × ℕ
unfolding commit_ts
live_or d [] = d
live_or d (e ∷ es) = live_or (if e.deleted then d else (e.value, commit_ts e.key)) es

-- The timestamp of the last tombstone.
unfoldable pub tombstone_or : ℕ → List Entry → ℕ
unfolding commit_ts
tombstone_or d [] = d
tombstone_or d (e ∷ es) = tombstone_or (if e.deleted then commit_ts e.key else d) es

-- The last live version, though a tombstone be newer; where there is none, the timestamp of the last
-- tombstone, or 0.
unfoldable pub last_live : List Entry → Option Bytes × ℕ × Bool
unfolding any_live live_or tombstone_or
last_live es =
    let (value, ts) = live_or (none, 0) es in
    if any_live es then (value, ts, true) else (none, tombstone_or 0 es, false)

-- The loop's rounds over versions.
latest_fold : List Entry → LatestState → LatestState
latest_fold [] st = st
latest_fold (e ∷ es) st = latest_fold es (
    if e.deleted
    then record st { has_tombstone = true; tombstone_ts = commit_ts e.key }
    else record st { latest_val = e.value; latest_ts = commit_ts e.key; found = true })

fold-result :
    (es : List Entry) (st : LatestState)
    → (st.has_tombstone ≡ false → st.tombstone_ts ≡ 0)
    → latest_result (latest_fold es st) ≡ (
        let (value, ts) = live_or (st.latest_val, st.latest_ts) es in
        if st.found || any_live es
        then (value, ts, true)
        else (none, tombstone_or st.tombstone_ts es, false))
unfolding latest_fold any_live live_or tombstone_or
fold-result [] st h = elim (Bool-cases st.found) [
  | inl y ↦ rw y refl
  | inr n ↦ elim (Bool-cases st.has_tombstone) [
    | inl t ↦ rw (n, t) refl
    | inr t ↦ rw (n, t, h t) refl
  ]
]
fold-result (e ∷ es) st h = elim (Bool-cases e.deleted) [
  | inl y ↦ rw y (
      fold-result es (record st { has_tombstone = true; tombstone_ts = commit_ts e.key })
        (λ q. ground (arith, q)))
  | inr n ↦
      let found_now : (st.found || true) ≡ true = ground arith in
      rw (n, found_now)
        (fold-result es
          (record st { latest_val = e.value; latest_ts = commit_ts e.key; found = true }) h)
]

module _ (key : MvccKey) (a : Arena) where
  versions_of-none :
      (xs : List ℕ)
      → All (λ i. bytes_equal (keys a i).key key.key ≡ false) xs
      → versions_of key.key (entries a xs) ≡ []
  unfolding versions_of entry_of
  versions_of-none [] h = refl
  versions_of-none (x ∷ xs) (n, h) = rw n (versions_of-none xs h)

  versions_of-after :
      (xs : List ℕ)
      → All (λ i. (keys a i).timestamp ≤ max_uint64) xs
      → versions_of key.key (entries a xs)
        ≡ versions_of key.key (entries a (after (in_front (oldest_key key) a) xs))
  unfolding versions_of entry_of
  versions_of-after [] h = refl
  versions_of-after (x ∷ xs) (b, h) = elim (Bool-cases (in_front (oldest_key key) a x)) [
    | inl y ↦ rw (y, front_other (keys a x) key b y) (versions_of-after xs h)
    | inr n ↦ rw n refl
  ]

  latest_loop-fold :
      (fuel p : ℕ) (st : LatestState) (ys : List ℕ)
      → Chain (links a 0) p ys
      → Sorted node_key_less (keys a) ys
      → All (λ i. node_key_less (keys a i) (oldest_key key) ≡ false) ys
      → length ys < fuel
      → latest_loop fuel key.key (links a 0 p) st a
        ≡ latest_fold (versions_of key.key (entries a ys)) st
  unfolding latest_loop latest_fold versions_of entry_of latest_step value_of
  latest_loop-fold zero p st ys c s h l = absurd (omega (arith, l))
  latest_loop-fold (suc fuel) p st [] c s h l = rw c refl
  latest_loop-fold (suc fuel) p st (y ∷ ys) (fp, nz, c) (sy, s) (hy, h) l =
      let nonzero : (y == 0) ≡ false = ground (arith, nz) in
      elim (Bool-cases (bytes_equal (keys a y).key key.key)) [
        | inr q ↦
            let rest : versions_of key.key (entries a ys) ≡ [] = versions_of-none ys (
              All-map (λ z. node_key_less (keys a y) (keys a z) ≡ true)
                (λ z. bytes_equal (keys a z).key key.key ≡ false) ys
                (λ z lz. later_other (keys a y) (keys a z) key hy q lz) sy) in
            rw (fp, nonzero, q, rest) refl
        | inl e ↦ elim (Bool-cases (node_at y a).deleted) [
          | inl t ↦
              rw (fp, nonzero, e, t)
                (latest_loop-fold fuel y
                  (record st { has_tombstone = true; tombstone_ts = commit_ts (keys a y) }) ys c s h
                  (omega (arith, l)))
          | inr t ↦
              rw (fp, nonzero, e, t)
                (latest_loop-fold fuel y
                  (record st {
                    latest_val = (node_at y a).value;
                    latest_ts = commit_ts (keys a y);
                    found = true;
                  })
                  ys c s h (omega (arith, l)))
        ]
      ]

-- On a valid list with timestamps of 64 bits, GetLatest returns the last live version of the key in
-- the list's order, its timestamp and true, though a tombstone be newer; where no version is live, it
-- returns the timestamp of the last tombstone, or 0 without one, and false.
pub get_latest-last_live :
    (s : SkipList) (es : List Entry) (key : Bytes)
    → Holds s es
    → AllUint64 es
    → get_latest key s ≡ last_live (versions_of key es)
unfolding get_latest last_live
get_latest-last_live s es key (levels, (v, e)) b =
    let k : MvccKey = record { key = key; timestamp = max_uint64 } in
    let a = s.arena in
    let xs = levels 0 in
    let ys = after (in_front k a) xs in
    let idx = links a 0 (pred k a xs) in
    let short : length ys < suc a.total = omega (arith, after-length a k xs, v.room 0) in
    let loop : latest_loop (suc a.total) key idx latest_start a
        ≡ latest_fold (versions_of key (entries a ys)) latest_start =
      latest_loop-fold k a (suc a.total) (pred k a xs) latest_start ys
        (Chain-after (in_front k a) (links a 0) 0 xs (v.linked 0))
        (after-Sorted a k xs (v.sorted 0)) (after-All a k xs (v.sorted 0)) short in
    let same : versions_of key (entries a ys) ≡ versions_of key es =
      sym (versions_of-after k a xs (bounded_keys a xs (subst AllUint64 (sym e) b)))
      ∙ ap (versions_of key) e in
    let result : latest_result (latest_loop (suc a.total) key idx latest_start a)
        ≡ last_live (versions_of key es) =
      ap latest_result (loop ∙ ap (λ vs. latest_fold vs latest_start) same)
      ∙ fold-result (versions_of key es) latest_start (λ q. refl) in
    let skip : (if idx == 0
          then (none, 0, false)
          else latest_result (latest_loop (suc a.total) key idx latest_start a))
        ≡ latest_result (latest_loop (suc a.total) key idx latest_start a) =
      elim (Bool-cases (idx == 0)) [ inl z ↦ rw z refl | inr n ↦ rw n refl ] in
    rw (get_latest, find_greater_or_equal-pred s levels v k) (skip ∙ result)

-- ===== src/Engine/Cache/Updated.antt =====
-- The cache after an update.
use scoria_db.Base.{
  subst, ℕ, zero, suc, ◌≤◌, ◌<◌, ◌≡◌, refl, sym, ap, ◌∙◌, ◌≢◌, ◌⊎◌, inl, inr, Bool, true, false,
  Option, none, some, List, [], ◌∷◌, map, arith, ltb, if◌then◌else◌, Bool-cases, Option-cases,
  length, choose_then, choose_else,
}
use scoria_db.Base.Bytes.{Bytes}
use scoria_db.Base.Map.{bytes_equal, bytes_equal_refl}
use scoria_db.Engine.Cache.{
  LastCommitCacheEntry, LastCommitCache, find_entry, remove_entry, move_to_front, evict_oldest,
  evict, update_last_commit_cache, get_last_commit_cache, max_last_commit_cache_entries,
}
use scoria_db.Engine.Cache.Lookup.{
  is_some, IsValid, evict_one, find_entry_same, find_entry-remove_entry, Distinct-remove_entry,
  length-remove_entry, last_key, last_key-found, find_entry-evict_oldest, length-evict_oldest,
}

-- What a lookup answers.
abbrev pub known_ts : Bytes → LastCommitCache → Option ℕ
known_ts key c = (get_last_commit_cache key c).0

known_ts-find_entry :
    (key : Bytes) (c : LastCommitCache)
    → c.map key ≡ is_some (find_entry key c.lru)
    → known_ts key c ≡ find_entry key c.lru
unfolding get_last_commit_cache
known_ts-find_entry key c a = elim (Option-cases (find_entry key c.lru)) [
  | inl e ↦
      let off : c.map key ≡ false = a ∙ ap is_some e in
      rw (known_ts, get_last_commit_cache, off) (sym e)
  | inr (ts, e) ↦
      let on : c.map key ≡ true = a ∙ ap is_some e in
      rw (known_ts, get_last_commit_cache, on, e) refl
]

evict_within :
    (fuel : ℕ) (map : Bytes → Bool) (lru : List LastCommitCacheEntry)
    → length lru ≤ max_last_commit_cache_entries
    → evict fuel (record { map = map; lru = lru }) ≡ record { map = map; lru = lru }
unfolding evict
evict_within zero map lru h = refl
evict_within (suc fuel) map [] h = refl
evict_within (suc fuel) map (e ∷ es) h =
    let within : ltb max_last_commit_cache_entries (length (e ∷ es)) ≡ false = ground (arith, h) in
    choose_else (ltb max_last_commit_cache_entries (length (e ∷ es))) _ _ within

-- The state after the push of a new entry, which the eviction brings back within the bound.
record Updated (key : Bytes) (ts : ℕ) (c c' : LastCommitCache) : Type 0 where
  valid : IsValid c'
  here : find_entry key c'.lru ≡ some ts
  others :
      (k : Bytes)
      → bytes_equal key k ≡ false
      → (find_entry k c'.lru ≡ find_entry k c.lru) ⊎ (find_entry k c'.lru ≡ none)

moved-Updated :
    (key : Bytes) (ts : ℕ) (c : LastCommitCache)
    → IsValid c
    → c.map key ≡ true
    → Updated key ts c (move_to_front key ts c)
unfolding move_to_front find_entry
moved-Updated key ts c v on =
    let found : is_some (find_entry key c.lru) ≡ true = sym (v.agree key) ∙ on in
    let removed : (k : Bytes)
        → find_entry k (remove_entry key c.lru)
          ≡ (if bytes_equal key k then none else find_entry k c.lru) =
      λ k. find_entry-remove_entry key k c.lru v.distinct in
    record {
      valid = record {
        agree = λ k. elim (Bool-cases (bytes_equal key k)) [
          | inl y ↦
              let same : c.map k ≡ true =
                v.agree k ∙ ap is_some (sym (find_entry_same key k c.lru y)) ∙ found in
              rw y same
          | inr n ↦ rw (n, removed k, n) (v.agree k)
        ];
        distinct = (
          removed key ∙ rw (bytes_equal_refl key) refl,
          Distinct-remove_entry key c.lru v.distinct,
        );
        bounded = omega (arith, v.bounded, length-remove_entry key c.lru found);
      };
      here = rw (bytes_equal_refl key) refl;
      others = λ k n. inl (rw (n, removed k, n) refl);
    }

module _ (key : Bytes) (ts : ℕ) (c : LastCommitCache) (v : IsValid c)
    (off : c.map key ≡ false) where
  abbrev entry : LastCommitCacheEntry
  entry = record { key = key; ts = ts }

  abbrev pushed : LastCommitCache
  pushed = record { map = λ k. if bytes_equal key k then true else c.map k; lru = entry ∷ c.lru }

  absent : find_entry key c.lru ≡ none
  absent = elim (Option-cases (find_entry key c.lru)) [
    | inl e ↦ e
    | inr (x, e) ↦
        let q : true ≡ false = sym (v.agree key ∙ ap is_some e) ∙ off in absurd (true_ne q)
  ]
    where
      true_ne : true ≢ false
      true_ne e = ground (arith, e)

  pushed-find :
      (k : Bytes)
      → find_entry k pushed.lru ≡ (if bytes_equal key k then some ts else find_entry k c.lru)
  unfolding find_entry
  pushed-find k = refl

  pushed-agree : (k : Bytes) → pushed.map k ≡ is_some (find_entry k pushed.lru)
  pushed-agree k = elim (Bool-cases (bytes_equal key k)) [
    | inl y ↦ rw (y, pushed-find k, y) refl
    | inr n ↦ rw (n, pushed-find k, n) (v.agree k)
  ]

  pushed-others :
      (k : Bytes) → bytes_equal key k ≡ false → find_entry k pushed.lru ≡ find_entry k c.lru
  pushed-others k n = pushed-find k ∙ choose_else (bytes_equal key k) _ _ n

  pushed-here : find_entry key pushed.lru ≡ some ts
  pushed-here = pushed-find key ∙ choose_then (bytes_equal key key) _ _ (bytes_equal_refl key)

  within : length pushed.lru ≤ max_last_commit_cache_entries → Updated key ts c pushed
  within h = record {
    valid = record { agree = pushed-agree; distinct = (absent, v.distinct); bounded = h };
    here = pushed-here;
    others = λ k n. inl (pushed-others k n);
  }

  -- One entry too many: the last one goes, and it is not the new one.
  over :
      max_last_commit_cache_entries < length pushed.lru
      → Updated key ts c (evict_oldest entry c.lru pushed.map)
  over h =
      let e = evict_one entry c.lru pushed.map pushed-agree (absent, v.distinct) in
      record {
        valid = record {
          agree = e.agree;
          distinct = e.distinct;
          bounded = omega (arith, length-evict_oldest entry c.lru pushed.map, v.bounded);
        };
        here =
            find_entry-evict_oldest key entry c.lru pushed.map (absent, v.distinct)
            ∙ choose_else (bytes_equal (last_key entry c.lru) key) _ _
                (last_apart c.lru absent (omega (arith, h)))
            ∙ pushed-here;
        others = λ k n. elim (e.known k) [
          | inl same ↦ inl (same ∙ pushed-others k n)
          | inr gone ↦ inr gone
        ];
      }
    where
      last_apart :
          (es : List LastCommitCacheEntry)
          → find_entry key es ≡ none
          → 0 < length es
          → bytes_equal (last_key entry es) key ≡ false
      last_apart [] a l = absurd (omega (arith, l))
      last_apart (x ∷ xs) a l = last_key-found key x xs a

  evict-Updated : Updated key ts c (evict (suc (length c.lru)) pushed)
  unfolding evict
  evict-Updated = elim (Bool-cases (ltb max_last_commit_cache_entries (length pushed.lru))) [
    | inl y ↦
        let gone = evict_oldest entry c.lru pushed.map in
        let short : length gone.lru ≤ max_last_commit_cache_entries =
          omega (arith, length-evict_oldest entry c.lru pushed.map, v.bounded) in
        let q : evict (suc (length c.lru)) pushed ≡ gone =
          choose_then (ltb max_last_commit_cache_entries (length pushed.lru)) _ _ y
          ∙ evict_within (length c.lru) gone.map gone.lru short in
        subst (Updated key ts c) (sym q) (over (ground (arith, y)))
    | inr n ↦
        let q : evict (suc (length c.lru)) pushed ≡ pushed =
          choose_else (ltb max_last_commit_cache_entries (length pushed.lru)) _ _ n in
        subst (Updated key ts c) (sym q) (within (ground (arith, n)))
  ]

update-Updated :
    (key : Bytes) (ts : ℕ) (c : LastCommitCache)
    → IsValid c
    → Updated key ts c (update_last_commit_cache key ts c)
unfolding update_last_commit_cache
update-Updated key ts c v = elim (Bool-cases (c.map key)) [
  | inl y ↦ rw (update_last_commit_cache, y) (moved-Updated key ts c v y)
  | inr n ↦ rw (update_last_commit_cache, n) (evict-Updated key ts c v n)
]

-- An update of a cache whose map and list agree, with distinct keys within the bound, keeps it so; a
-- lookup then finds the timestamp, and of another key what it found before, or nothing.
pub update_last_commit_cache-known_ts :
    (key : Bytes) (ts : ℕ) (c : LastCommitCache)
    → IsValid c
    → IsValid (update_last_commit_cache key ts c)
      × (known_ts key (update_last_commit_cache key ts c) ≡ some ts)
      × ((k : Bytes)
          → bytes_equal key k ≡ false
          → (known_ts k (update_last_commit_cache key ts c) ≡ known_ts k c)
            ⊎ (known_ts k (update_last_commit_cache key ts c) ≡ none))
update_last_commit_cache-known_ts key ts c v =
    let u = update-Updated key ts c v in
    let c' = update_last_commit_cache key ts c in
    (
      u.valid,
      known_ts-find_entry key c' (u.valid.agree key) ∙ u.here,
      λ k n. elim (u.others k n) [
        | inl same ↦ inl (
            known_ts-find_entry k c' (u.valid.agree k)
            ∙ same
            ∙ sym (known_ts-find_entry k c (v.agree k)))
        | inr gone ↦ inr (known_ts-find_entry k c' (u.valid.agree k) ∙ gone)
      ],
    )

-- ===== src/Engine/Cache/Lookup.antt =====
-- What the cache knows: the map and the list agree, and a timestamp that is found is the last one.
use scoria_db.Base.{
  ℕ, ◌+◌, ◌≤◌, ◌≡◌, refl, sym, ap, ◌∙◌, ◌≢◌, ◌⊎◌, inl, inr, Bool, true, false, Option, none, some,
  List, [], ◌∷◌, map, arith, if◌then◌else◌, Bool-cases, length, choose_then, choose_else,
}
use scoria_db.Base.Bytes.{Bytes}
use scoria_db.Base.Map.{bytes_equal, bytes_equal_iff}
use scoria_db.Engine.Cache.{
  LastCommitCacheEntry, LastCommitCache, find_entry, remove_entry, evict_oldest,
  max_last_commit_cache_entries,
}

abbrev pub is_some : Option ℕ → Bool
is_some none = false
is_some (some x) = true

abbrev pub Distinct : List LastCommitCacheEntry → Type 0
Distinct [] = Unit {0}
Distinct (e ∷ es) = (find_entry e.key es ≡ none) × Distinct es

pub record IsValid (c : LastCommitCache) : Type 0 where
  pub agree : (key : Bytes) → c.map key ≡ is_some (find_entry key c.lru)
  pub distinct : Distinct c.lru
  pub bounded : length c.lru ≤ max_last_commit_cache_entries

bytes_equal_trans : (a b c : Bytes) → bytes_equal a b ≡ true → bytes_equal a c ≡ bytes_equal b c
bytes_equal_trans a b c h = ap (λ x. bytes_equal x c) ((bytes_equal_iff a b).0 h)

pub bytes_equal-apart :
    (a b c : Bytes) → bytes_equal a b ≡ false → bytes_equal a c ≡ true → bytes_equal b c ≡ false
bytes_equal-apart a b c q y = elim (Bool-cases (bytes_equal b c)) [
  | inl z ↦
      let p : a ≡ b = (bytes_equal_iff a c).0 y ∙ sym ((bytes_equal_iff b c).0 z) in
      let h = (bytes_equal_iff a b).1 p in ground (arith, h, q)
  | inr n ↦ n
]

pub find_entry_same :
    (a b : Bytes) (es : List LastCommitCacheEntry)
    → bytes_equal a b ≡ true
    → find_entry a es ≡ find_entry b es
find_entry_same a b es h = ap (λ x. find_entry x es) ((bytes_equal_iff a b).0 h)

-- The entries without one of them.
pub find_entry-remove_entry :
    (key k : Bytes) (es : List LastCommitCacheEntry)
    → Distinct es
    → find_entry k (remove_entry key es) ≡ (if bytes_equal key k then none else find_entry k es)
unfolding find_entry remove_entry
find_entry-remove_entry key k [] d = ground arith
find_entry-remove_entry key k (e ∷ es) (n, d) =
    let ih = find_entry-remove_entry key k es d in
    elim (Bool-cases (bytes_equal e.key key)) [
      | inl y ↦ elim (Bool-cases (bytes_equal key k)) [
        | inl z ↦
            let at : find_entry k es ≡ none =
              sym (find_entry_same key k es z) ∙ sym (find_entry_same e.key key es y) ∙ n in
            rw (y, z) at
        | inr z ↦
            let other : bytes_equal e.key k ≡ false = bytes_equal_trans e.key key k y ∙ z in
            rw (y, z, other) refl
      ]
      | inr q ↦ elim (Bool-cases (bytes_equal e.key k)) [
        | inl y ↦
            let other : bytes_equal key k ≡ false = bytes_equal-apart e.key key k q y in
            rw (q, y, other) refl
        | inr z ↦ rw (q, z) ih
      ]
    ]

pub length-remove_entry :
    (key : Bytes) (es : List LastCommitCacheEntry)
    → is_some (find_entry key es) ≡ true
    → length (remove_entry key es) + 1 ≡ length es
unfolding find_entry remove_entry
length-remove_entry key [] h = ground (arith, h)
length-remove_entry key (e ∷ es) h = elim (Bool-cases (bytes_equal e.key key)) [
  | inl y ↦ rw y (omega arith)
  | inr n ↦
      let h' : is_some (find_entry key es) ≡ true = choose_absent n h in
      rw n (omega (arith, length-remove_entry key es h'))
]
  where
    choose_absent :
        bytes_equal e.key key ≡ false
        → is_some (if bytes_equal e.key key then some e.ts else find_entry key es) ≡ true
        → is_some (find_entry key es) ≡ true
    choose_absent n' h' =
        ap is_some (sym (choose_else (bytes_equal e.key key) (some e.ts) (find_entry key es) n'))
        ∙ h'

pub Distinct-remove_entry :
    (key : Bytes) (es : List LastCommitCacheEntry) → Distinct es → Distinct (remove_entry key es)
unfolding remove_entry
Distinct-remove_entry key [] d = tt
Distinct-remove_entry key (e ∷ es) (n, d) = elim (Bool-cases (bytes_equal e.key key)) [
  | inl y ↦ rw y d
  | inr q ↦
      let still : find_entry e.key (remove_entry key es) ≡ none =
        find_entry-remove_entry key e.key es d ∙ ground (arith, n) in
      rw q (still, Distinct-remove_entry key es d)
]

-- The key of the last entry.
abbrev pub last_key : LastCommitCacheEntry → List LastCommitCacheEntry → Bytes
last_key e [] = e.key
last_key e (x ∷ xs) = last_key x xs

head-absent :
    (k : Bytes) (e : LastCommitCacheEntry) (es : List LastCommitCacheEntry)
    → bytes_equal e.key k ≡ true
    → find_entry k (e ∷ es) ≢ none
unfolding find_entry
head-absent k e es y h =
    let q : true ≡ false = ap is_some (sym (choose_then (bytes_equal e.key k) _ _ y) ∙ h) in
    ground (arith, q)

pub last_key-found :
    (k : Bytes) (e : LastCommitCacheEntry) (es : List LastCommitCacheEntry)
    → find_entry k (e ∷ es) ≡ none
    → bytes_equal (last_key e es) k ≡ false
unfolding find_entry
last_key-found k e [] h = elim (Bool-cases (bytes_equal e.key k)) [
  | inl y ↦ absurd (head-absent k e [] y h)
  | inr n ↦ n
]
last_key-found k e (x ∷ xs) h = elim (Bool-cases (bytes_equal e.key k)) [
  | inl y ↦ absurd (head-absent k e (x ∷ xs) y h)
  | inr n ↦ last_key-found k x xs (sym (choose_else (bytes_equal e.key k) _ _ n) ∙ h)
]

evict_oldest-map :
    (k : Bytes) (e : LastCommitCacheEntry) (es : List LastCommitCacheEntry) (map : Bytes → Bool)
    → (evict_oldest e es map).map k ≡ (if bytes_equal (last_key e es) k then false else map k)
unfolding evict_oldest
evict_oldest-map k e [] map = refl
evict_oldest-map k e (x ∷ xs) map = evict_oldest-map k x xs map

pub find_entry-evict_oldest :
    (k : Bytes) (e : LastCommitCacheEntry) (es : List LastCommitCacheEntry) (map : Bytes → Bool)
    → Distinct (e ∷ es)
    → find_entry k (evict_oldest e es map).lru
      ≡ (if bytes_equal (last_key e es) k then none else find_entry k (e ∷ es))
unfolding evict_oldest find_entry
find_entry-evict_oldest k e [] map d = ground arith
find_entry-evict_oldest k e (x ∷ xs) map (n, d) =
    let ih = find_entry-evict_oldest k x xs map d in
    elim (Bool-cases (bytes_equal e.key k)) [
      | inl y ↦
          let other : bytes_equal (last_key x xs) k ≡ false =
            last_key-found k x xs (sym (find_entry_same e.key k (x ∷ xs) y) ∙ n) in
          rw (y, other) refl
      | inr q ↦ rw q ih
    ]

pub length-evict_oldest :
    (e : LastCommitCacheEntry) (es : List LastCommitCacheEntry) (map : Bytes → Bool)
    → length (evict_oldest e es map).lru ≡ length es
unfolding evict_oldest
length-evict_oldest e [] map = refl
length-evict_oldest e (x ∷ xs) map = omega (arith, length-evict_oldest x xs map)

Distinct-evict_oldest :
    (e : LastCommitCacheEntry) (es : List LastCommitCacheEntry) (map : Bytes → Bool)
    → Distinct (e ∷ es)
    → Distinct (evict_oldest e es map).lru
unfolding evict_oldest
Distinct-evict_oldest e [] map d = tt
Distinct-evict_oldest e (x ∷ xs) map (n, d) = (
  find_entry-evict_oldest e.key x xs map d
      ∙ rw n (same_branches (bytes_equal (last_key x xs) e.key)),
  Distinct-evict_oldest x xs map d,
)
  where
    same_branches : (b : Bool) → (if◌then◌else◌ {A = Option ℕ} b none none) ≡ none
    same_branches true = refl
    same_branches false = refl

-- The eviction: the first of two entries stays, and what is still known is as before.
pub record Evicted (c c' : LastCommitCache) : Type 0 where
  pub agree : (key : Bytes) → c'.map key ≡ is_some (find_entry key c'.lru)
  pub distinct : Distinct c'.lru
  pub known :
      (key : Bytes)
      → (find_entry key c'.lru ≡ find_entry key c.lru) ⊎ (find_entry key c'.lru ≡ none)

pub evict_one :
    (e : LastCommitCacheEntry) (es : List LastCommitCacheEntry) (map : Bytes → Bool)
    → ((key : Bytes) → map key ≡ is_some (find_entry key (e ∷ es)))
    → Distinct (e ∷ es)
    → Evicted (record { map = map; lru = e ∷ es }) (evict_oldest e es map)
evict_one e es map a d = record {
  agree = λ key.
      evict_oldest-map key e es map ∙ elim (Bool-cases (bytes_equal (last_key e es) key)) [
        | inl y ↦ rw (y, find_entry-evict_oldest key e es map d, y) refl
        | inr n ↦ rw (n, find_entry-evict_oldest key e es map d, n) (a key)
      ];
  distinct = Distinct-evict_oldest e es map d;
  known = λ key. elim (Bool-cases (bytes_equal (last_key e es) key)) [
    | inl y ↦ inr (find_entry-evict_oldest key e es map d ∙ rw y refl)
    | inr n ↦ inl (find_entry-evict_oldest key e es map d ∙ rw n refl)
  ];
}

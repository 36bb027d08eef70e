-- ===== src/Engine/Memtable/SkipList/Get.antt =====
-- Get, against the newest visible version.
use scoria_db.Base.{
  subst, ℕ, zero, suc, ◌≤◌, ◌<◌, ◌≡◌, refl, sym, ◌∙◌, inl, inr, true, false, Option, none, some,
  List, [], ◌∷◌, arith, Ordering, ltb, ◌==◌, if◌then◌else◌, Bool-cases, Option-cases, length, All,
}
use scoria_db.Base.Bytes.{Bytes}
use scoria_db.Base.Map.{bytes_equal, bytes_equal_iff}
use scoria_db.Keys.{compare_keys}
use scoria_db.Keys.Order.{compare_keys-eq-lex, lex-eq, lex_refl}
use scoria_db.Mvcc.{MvccKey, commit_ts, max_uint64}
use scoria_db.Engine.Memtable.Arena.{Arena, node_at}
use scoria_db.Engine.Memtable.Chain.{Chain, Sorted}
use scoria_db.Engine.Memtable.Chain.Members.{All-map}
use scoria_db.Engine.Memtable.SkipList.{node_key_less, value_of, get_loop}
use scoria_db.Engine.Memtable.SkipList.Search.{keys, links}
use scoria_db.Engine.Memtable.SkipList.Entries.{Entry, entries, entry_of}
use scoria_db.Engine.Memtable.SkipList.Newest.{
  visible, newer, newest, outcome, newest-none, newest-All, OfNewest, IsFound,
}

-- The first key of the versions of a user key.
abbrev pub oldest_key : MvccKey → MvccKey
oldest_key key = record key { timestamp = max_uint64 }

compare_keys-equal : (a b : Bytes) → compare_keys a b ≡ Ordering.eq → bytes_equal a b ≡ true
compare_keys-equal a b h = (bytes_equal_iff a b).1 (lex-eq a b (sym (compare_keys-eq-lex a b) ∙ h))

compare_keys-same : (a b : Bytes) → bytes_equal a b ≡ true → compare_keys a b ≡ Ordering.eq
compare_keys-same a b h = compare_keys-eq-lex a b ∙ rw ((bytes_equal_iff a b).0 h) (lex_refl b)

-- Behind a version of a greater user key there is none of the key.
pub later_other :
    (y z key : MvccKey)
    → node_key_less y (oldest_key key) ≡ false
    → bytes_equal y.key key.key ≡ false
    → node_key_less y z ≡ true
    → bytes_equal z.key key.key ≡ false
unfolding node_key_less
later_other y z key h n l = elim (Bool-cases (bytes_equal z.key key.key)) [
  | inl e ↦
      let same : z.key ≡ key.key = (bytes_equal_iff z.key key.key).0 e in
      let l' : node_key_less y (record z { key = key.key }) ≡ true = rw (← same) l in
      ground (arith, h, l', n, compare_keys-equal y.key key.key)
  | inr e ↦ e
]

-- Of the versions of one user key, the later ones are newer.
later_newer :
    (y z key : MvccKey)
    → bytes_equal y.key key.key ≡ true
    → bytes_equal z.key key.key ≡ true
    → node_key_less y z ≡ true
    → commit_ts y ≤ commit_ts z
unfolding node_key_less commit_ts
later_newer y z key e f l =
    let p : y.key ≡ z.key =
      (bytes_equal_iff y.key key.key).0 e ∙ sym ((bytes_equal_iff z.key key.key).0 f) in
    let c : compare_keys y.key z.key ≡ Ordering.eq =
      compare_keys-same y.key z.key ((bytes_equal_iff y.key z.key).1 p) in
    ground (arith, c, l)

-- A version in front of all versions of a user key is not one.
pub front_other :
    (y key : MvccKey)
    → y.timestamp ≤ max_uint64
    → node_key_less y (oldest_key key) ≡ true
    → bytes_equal y.key key.key ≡ false
unfolding node_key_less
front_other y key b l = elim (Bool-cases (bytes_equal y.key key.key)) [
  | inl e ↦ ground (arith, compare_keys-same y.key key.key e, l, b)
  | inr n ↦ n
]

-- What the loop of Get returns: the newest version from here on, or what it has found so far.
abbrev pub or_found : Option (Option Bytes) → Option Entry → Option (Option Bytes)
or_found found none = found
or_found found (some x) = outcome (some x)

module _ (key : MvccKey) (a : Arena) where
  pub invisible_other :
      (i : ℕ)
      → bytes_equal (keys a i).key key.key ≡ false
      → visible key (entry_of (node_at i a)) ≡ false
  unfolding visible entry_of
  invisible_other i n = ground (arith, n)

  invisible_newer :
      (i : ℕ)
      → ltb (commit_ts key) (commit_ts (keys a i)) ≡ true
      → visible key (entry_of (node_at i a)) ≡ false
  unfolding visible entry_of
  invisible_newer i n = ground (arith, n)

  visible_now :
      (i : ℕ)
      → bytes_equal (keys a i).key key.key ≡ true
      → ltb (commit_ts key) (commit_ts (keys a i)) ≡ false
      → visible key (entry_of (node_at i a)) ≡ true
  unfolding visible entry_of
  visible_now i e n = ground (arith, e, n)

  visible_same : (x : Entry) → visible key x ≡ true → bytes_equal x.key.key key.key ≡ true
  unfolding visible
  visible_same x h = ground (arith, h)

  newer-later :
      (i : ℕ) (x : Entry)
      → bytes_equal (keys a i).key key.key ≡ true
      → IsFound key a (λ k. node_key_less (keys a i) k ≡ true) x
      → newer (entry_of (node_at i a)) x ≡ x
  unfolding newer entry_of
  newer-later i x e (l, vis) =
      let h = later_newer (keys a i) x.key key e (visible_same x vis) l in ground (arith, h)

  pub invisible_behind :
      (i : ℕ) (is : List ℕ)
      → ((z : ℕ)
          → node_key_less (keys a i) (keys a z) ≡ true
          → visible key (entry_of (node_at z a)) ≡ false)
      → All (λ z. node_key_less (keys a i) (keys a z) ≡ true) is
      → newest key (entries a is) ≡ none
  invisible_behind i is f h = newest-none key a is (
      All-map (λ z. node_key_less (keys a i) (keys a z) ≡ true)
        (λ z. visible key (entry_of (node_at z a)) ≡ false) is f h)

  invisible_later :
      (i z : ℕ)
      → bytes_equal (keys a i).key key.key ≡ true
      → ltb (commit_ts key) (commit_ts (keys a i)) ≡ true
      → node_key_less (keys a i) (keys a z) ≡ true
      → visible key (entry_of (node_at z a)) ≡ false
  invisible_later i z e n l = elim (Bool-cases (bytes_equal (keys a z).key key.key)) [
    | inl y ↦
        let h = later_newer (keys a i) (keys a z) key e y l in
        invisible_newer z (ground (arith, h, n))
    | inr q ↦ invisible_other z q
  ]

  outcome_head :
      (i : ℕ)
      → (if (node_at i a).deleted then none else some (value_of (node_at i a)))
        ≡ outcome (some (entry_of (node_at i a)))
  unfolding outcome entry_of
  outcome_head i = refl

  pub get_loop-newest :
      (fuel p : ℕ) (found : Option (Option Bytes)) (ys : List ℕ)
      → Chain (links a 0) p ys
      → Sorted node_key_less (keys a) ys
      → All (λ i. node_key_less (keys a i) (oldest_key key) ≡ false) ys
      → length ys < fuel
      → get_loop fuel key (links a 0 p) found a ≡ or_found found (newest key (entries a ys))
  unfolding get_loop newest
  get_loop-newest zero p found ys c s h l = absurd (omega (arith, l))
  get_loop-newest (suc fuel) p found [] c s h l = rw c refl
  get_loop-newest (suc fuel) p found (y ∷ ys) (fp, nz, c) (sy, s) (hy, h) l =
      let nonzero : (y == 0) ≡ false = ground (arith, nz) in
      let n = node_at y a in
      let ih : get_loop fuel key (n.next 0) (if n.deleted then none else some (value_of n)) a
          ≡ or_found (if n.deleted then none else some (value_of n)) (newest key (entries a ys)) =
        get_loop-newest fuel y (if n.deleted then none else some (value_of n)) ys c s h
          (omega (arith, l)) in
      elim (Bool-cases (bytes_equal (keys a y).key key.key)) [
        | inr q ↦
            let rest : newest key (entries a ys) ≡ none =
              invisible_behind y ys
                (λ z lz. invisible_other z (later_other (keys a y) (keys a z) key hy q lz)) sy in
            rw (fp, nonzero, q, newest, invisible_other y q, rest) refl
        | inl e ↦ elim (Bool-cases (ltb (commit_ts key) (commit_ts (keys a y)))) [
          | inl t ↦
              let rest : newest key (entries a ys) ≡ none =
                invisible_behind y ys (λ z lz. invisible_later y z e t lz) sy in
              rw (fp, nonzero, e, t, newest, invisible_newer y t, rest) refl
          | inr t ↦
              let vis = visible_now y e t in
              elim (Option-cases (newest key (entries a ys))) [
                | inl none_behind ↦
                    rw (fp, nonzero, e, t, newest, vis, none_behind)
                      (ih ∙ rw none_behind (outcome_head y))
                | inr (x, some_behind) ↦
                    let seen : OfNewest (IsFound key a (λ k. node_key_less (keys a y) k ≡ true))
                        (newest key (entries a ys)) =
                      newest-All key a (λ k. node_key_less (keys a y) k ≡ true) ys sy in
                    let last : newer (entry_of (node_at y a)) x ≡ x = newer-later y x e (
                      subst (OfNewest (IsFound key a (λ k. node_key_less (keys a y) k ≡ true)))
                        some_behind seen) in
                    rw (fp, nonzero, e, t, newest, vis, some_behind, last)
                      (ih ∙ rw some_behind refl)
              ]
        ]
      ]

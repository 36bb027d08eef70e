-- ===== src/Engine/Memtable/SkipList/Reads.antt =====
-- Reads of a valid skip list.
use scoria_db.Base.{
  subst, ℕ, suc, ◌≤◌, ◌<◌, ◌≡◌, refl, sym, ap, ◌∙◌, inl, inr, true, false, not, ◌||◌, Option, none,
  some, List, [], ◌∷◌, arith, ◌==◌, if◌then◌else◌, Bool-cases, length, All,
}
use scoria_db.Base.Bytes.{Bytes}
use scoria_db.Base.Map.{bytes_equal, bytes_equal_iff}
use scoria_db.Mvcc.{MvccKey, max_uint64}
use scoria_db.Engine.Memtable.Arena.{Arena, node_at}
use scoria_db.Engine.Memtable.Chain.{Chain, Sorted, after}
use scoria_db.Engine.Memtable.Chain.Members.{All-map}
use scoria_db.Engine.Memtable.SkipList.{SkipList, node_key_less, get_loop, get}
use scoria_db.Engine.Memtable.SkipList.Order.{node_key_less_trans}
use scoria_db.Engine.Memtable.SkipList.Search.{in_front, keys, links}
use scoria_db.Engine.Memtable.SkipList.Valid.{pred, Chain-after, find_greater_or_equal-pred}
use scoria_db.Engine.Memtable.SkipList.Entries.{Entry, entries, entry_of}
use scoria_db.Engine.Memtable.SkipList.Newest.{newest, newest_value, outcome}
use scoria_db.Engine.Memtable.SkipList.Put.{Holds}
use scoria_db.Engine.Memtable.SkipList.Get.{
  oldest_key, front_other, later_other, invisible_other, invisible_behind, get_loop-newest,
  or_found,
}

-- Timestamps of 64 bits.
abbrev pub AllUint64 : List Entry → Type 0
AllUint64 = All (λ e. e.key.timestamp ≤ max_uint64)

pub bounded_keys :
    (a : Arena) (xs : List ℕ)
    → AllUint64 (entries a xs)
    → All (λ i. (keys a i).timestamp ≤ max_uint64) xs
unfolding entry_of
bounded_keys a [] h = tt
bounded_keys a (x ∷ xs) (p, h) = (p, bounded_keys a xs h)

-- What stands behind the nodes in front of a key.
module _ (a : Arena) (bound : MvccKey) where
  pub after-Sorted :
      (xs : List ℕ)
      → Sorted node_key_less (keys a) xs
      → Sorted node_key_less (keys a) (after (in_front bound a) xs)
  after-Sorted [] s = tt
  after-Sorted (x ∷ xs) (h, s) = elim (Bool-cases (in_front bound a x)) [
    | inl y ↦ rw y (after-Sorted xs s)
    | inr n ↦ rw n (h, s)
  ]

  pub after-All :
      (xs : List ℕ)
      → Sorted node_key_less (keys a) xs
      → All (λ i. in_front bound a i ≡ false) (after (in_front bound a) xs)
  after-All [] s = tt
  after-All (x ∷ xs) (h, s) = elim (Bool-cases (in_front bound a x)) [
    | inl y ↦ rw y (after-All xs s)
    | inr n ↦ rw n (
      n,
      All-map (λ z. node_key_less (keys a x) (keys a z) ≡ true) (λ z. in_front bound a z ≡ false) xs
          (λ z l. elim (Bool-cases (in_front bound a z)) [
            | inl y ↦
                let c = node_key_less_trans (keys a x) (keys a z) bound l y in ground (arith, c, n)
            | inr q ↦ q
          ])
          h,
    )
  ]

  pub after-length : (xs : List ℕ) → length (after (in_front bound a) xs) ≤ length xs
  after-length [] = omega arith
  after-length (x ∷ xs) = elim (Bool-cases (in_front bound a x)) [
    | inl y ↦ rw y (omega (arith, after-length xs))
    | inr n ↦ rw n (omega arith)
  ]

newest-after :
    (key : MvccKey) (a : Arena) (xs : List ℕ)
    → All (λ i. (keys a i).timestamp ≤ max_uint64) xs
    → newest key (entries a xs) ≡ newest key (entries a (after (in_front (oldest_key key) a) xs))
unfolding newest
newest-after key a [] h = refl
newest-after key a (x ∷ xs) (b, h) = elim (Bool-cases (in_front (oldest_key key) a x)) [
  | inl y ↦
      rw (y, newest, invisible_other key a x (front_other (keys a x) key b y))
        (newest-after key a xs h)
  | inr n ↦ rw n refl
]

or_found-none : (o : Option Entry) → or_found none o ≡ outcome o
unfolding outcome
or_found-none none = refl
or_found-none (some x) = refl

module _ (key : MvccKey) (nonempty : 0 < length key.key) (a : Arena) where
  -- Get from the node that its search returns.
  abbrev pub get_from : ℕ → Option (Option Bytes)
  get_from oldest =
      let first = node_at oldest a in
      if oldest == 0
      then none
      else if length first.key == 0 || not (bytes_equal first.key key.key)
      then none
      else get_loop (suc a.total) key oldest none a

  get_from-newest :
      (p : ℕ) (ys : List ℕ)
      → Chain (links a 0) p ys
      → Sorted node_key_less (keys a) ys
      → All (λ i. node_key_less (keys a i) (oldest_key key) ≡ false) ys
      → length ys < suc a.total
      → get_from (links a 0 p) ≡ newest_value key (entries a ys)
  unfolding newest_value
  get_from-newest p [] c s h l = rw (c, newest) refl
  get_from-newest p (y ∷ ys) (fp, nz, c) (sy, s) (hy, h) l =
      let nonzero : (y == 0) ≡ false = ground (arith, nz) in
      elim (Bool-cases (bytes_equal (keys a y).key key.key)) [
        | inl e ↦
            let same : (keys a y).key ≡ key.key = (bytes_equal_iff (keys a y).key key.key).0 e in
            let long : (length (keys a y).key == 0) ≡ false = rw same (ground (arith, nonempty)) in
            let step : links a 0 p ≡ y = fp in
            let run =
              get_loop-newest key a (suc a.total) p none (y ∷ ys) (fp, nz, c) (sy, s) (hy, h) l in
            let whole : get_loop (suc a.total) key y none a
                ≡ outcome (newest key (entries a (y ∷ ys))) =
              ap (λ i. get_loop (suc a.total) key i none a) (sym fp)
              ∙ run
              ∙ or_found-none (newest key (entries a (y ∷ ys))) in
            rw (fp, nonzero, e, long) whole
        | inr q ↦
            let rest : newest key (entries a ys) ≡ none =
              invisible_behind key a y ys
                (λ z lz. invisible_other key a z (later_other (keys a y) (keys a z) key hy q lz))
                sy in
            let off : newest key (entries a (y ∷ ys)) ≡ none =
              rw (newest, invisible_other key a y q) rest in
            let value : newest_value key (entries a (y ∷ ys)) ≡ none = ap outcome off in
            let other : (length (keys a y).key == 0 || not (bytes_equal (keys a y).key key.key))
                ≡ true =
              ground (arith, q) in
            let miss : get_from y ≡ none = rw (nonzero, other) refl in rw (fp) (miss ∙ sym value)
      ]

-- On a valid list with timestamps of 64 bits, Get of a key that is not empty returns the value of its
-- newest version at the snapshot or before; it finds none where there is no such version, or where it is
-- a tombstone.
pub get-newest_value :
    (s : SkipList) (es : List Entry) (key : MvccKey)
    → Holds s es
    → AllUint64 es
    → 0 < length key.key
    → get key s ≡ newest_value key es
unfolding get newest_value
get-newest_value s es key (levels, (v, e)) b h =
    let a = s.arena in
    let xs = levels 0 in
    let c = Chain-after (in_front (oldest_key key) a) (links a 0) 0 xs (v.linked 0) in
    let bounded = bounded_keys a xs (subst AllUint64 (sym e) b) in
    let short : length (after (in_front (oldest_key key) a) xs) < suc a.total =
      omega (arith, after-length a (oldest_key key) xs, v.room 0) in
    let from =
      get_from-newest key h a (pred (oldest_key key) a xs) (after (in_front (oldest_key key) a) xs)
        c (after-Sorted a (oldest_key key) xs (v.sorted 0))
        (after-All a (oldest_key key) xs (v.sorted 0)) short in
    ap (get_from key h a) (find_greater_or_equal-pred s levels v (oldest_key key))
    ∙ from
    ∙ ap outcome (sym (newest-after key a xs bounded))
    ∙ ap (newest_value key) e

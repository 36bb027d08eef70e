-- ===== src/Engine/Memtable/SkipList/Inserted.antt =====
-- The levels of a skip list after a new node has been linked in.
use scoria_db.Base.{
  subst, ℕ, zero, suc, ◌<◌, ◌≡◌, refl, sym, ap, ◌∙◌, ◌≢◌, inl, inr, Bool, true, false, Option, List,
  [], ◌∷◌, arith, ltb, if◌then◌else◌, Bool-cases, All,
}
use scoria_db.Base.Bytes.{Bytes}
use scoria_db.Mvcc.{MvccKey}
use scoria_db.Engine.Memtable.Arena.{Arena, Node, node_at, frontier}
use scoria_db.Engine.Memtable.Chain.{
  Mem, Chain, last_of, before, insert_at, Sorted, Sorted-cong, Sorted-insert_at, Chain-insert_at,
  Chain-frame, All-Mem,
}
use scoria_db.Engine.Memtable.Chain.Members.{
  All-both, All-of, All-map, insert_at_cong, Chain-nonzero, Sorted-Distinct,
}
use scoria_db.Engine.Memtable.SkipList.{SkipList, node_key_less, key_of, link_levels}
use scoria_db.Engine.Memtable.SkipList.Order.{
  node_key_less_trans, node_key_less_irrefl, node_key_less_connex,
}
use scoria_db.Engine.Memtable.SkipList.Search.{links, keys, in_front}
use scoria_db.Engine.Memtable.SkipList.Valid.{IsValid, pred}
use scoria_db.Engine.Memtable.SkipList.Linked.{
  linked_to, SameNode, link_levels-links, link_levels-SameNode,
}
use scoria_db.Engine.Memtable.SkipList.Placed.{Placed, node_of}

-- The levels with the new node on those below its height.
abbrev pub grown_levels : MvccKey → ℕ → ℕ → SkipList → (ℕ → List ℕ) → ℕ → List ℕ
grown_levels key new height s levels l =
    if ltb l height then insert_at (in_front key s.arena) new (levels l) else levels l

module _ (s : SkipList) (levels : ℕ → List ℕ) (v : IsValid s levels) (key : MvccKey)
    (value : Option Bytes) (deleted : Bool) (height new : ℕ) (a : Arena)
    (placed : Placed s.arena new (node_of key value deleted height) a)
    (fresh : All (λ i. keys s.arena i ≢ key) (levels 0)) (prevs : ℕ → ℕ)
    (found : (l : ℕ) → prevs l ≡ pred key s.arena (levels l)) where
  -- A node of any level is on the lowest.
  pub Mem-lowest : (l i : ℕ) → Mem i (levels l) → Mem i (levels 0)
  Mem-lowest zero i m = m
  Mem-lowest (suc l) i m =
      Mem-lowest l i (All-Mem (λ j. Mem j (levels l)) i (levels (suc l)) (v.nested l) m)

  new_nonzero : new ≢ 0
  new_nonzero e = omega (arith, e, placed.above, v.room 0, v.arena_valid.total_bounded)

  pub new_apart : (l : ℕ) → All (λ x. new ≢ x) (levels l)
  new_apart l =
      All-map (λ x. x < frontier s.arena) (λ x. new ≢ x) (levels l)
        (λ x h e. omega (arith, h, e, placed.above)) (v.allocated l)

  key_apart : (l : ℕ) → All (λ i. keys s.arena i ≢ key) (levels l)
  key_apart l =
      All-of (λ i. keys s.arena i ≢ key) (levels l)
        (λ i m. All-Mem (λ j. keys s.arena j ≢ key) i (levels 0) fresh (Mem-lowest l i m))

  last_of-All :
      (P : ℕ → Type 0) (t : ℕ → Bool) (p : ℕ) (xs : List ℕ)
      → P p
      → All P xs
      → P (last_of p (before t xs))
  last_of-All P t p [] q h = q
  last_of-All P t p (x ∷ xs) q (r, h) = elim (Bool-cases (t x)) [
    | inl y ↦ rw y (last_of-All P t x xs r h)
    | inr n ↦ rw n q
  ]

  pub prevs_apart : (l : ℕ) → new ≢ prevs l
  prevs_apart l e =
      last_of-All (λ x. new ≢ x) (in_front key s.arena) 0 (levels l) new_nonzero (new_apart l)
        (e ∙ found l)

  abbrev pub linked_arena : Arena
  linked_arena = link_levels height new new prevs a

  abbrev pub new_levels : ℕ → List ℕ
  new_levels = grown_levels key new height s levels

  pub old_node : (i : ℕ) → i ≢ new → SameNode (node_at i linked_arena) (node_at i s.arena)
  old_node i ne =
      subst (SameNode (node_at i linked_arena)) (placed.there i ne)
        (link_levels-SameNode new prevs prevs_apart height a i)

  pub new_node_kept : SameNode (node_at new linked_arena) (node_of key value deleted height)
  new_node_kept =
      subst (SameNode (node_at new linked_arena)) placed.here
        (link_levels-SameNode new prevs prevs_apart height a new)

  key_of_same : (n m : Node) → SameNode n m → key_of n ≡ key_of m
  key_of_same n m (k, (w, (t, d))) = rw (k, t) refl

  old_key : (i : ℕ) → i ≢ new → keys linked_arena i ≡ keys s.arena i
  old_key i ne = key_of_same (node_at i linked_arena) (node_at i s.arena) (old_node i ne)

  new_key : keys linked_arena new ≡ key
  new_key = key_of_same (node_at new linked_arena) (node_of key value deleted height) new_node_kept

  old_keys : (l : ℕ) → All (λ x. keys linked_arena x ≡ keys s.arena x) (levels l)
  old_keys l =
      All-map (λ x. new ≢ x) (λ x. keys linked_arena x ≡ keys s.arena x) (levels l)
        (λ x ne. old_key x (λ e. ne (sym e))) (new_apart l)

  same_test :
      (l : ℕ)
      → insert_at (in_front key s.arena) new (levels l)
        ≡ insert_at
            (λ x. node_key_less (keys linked_arena x) (keys linked_arena new))
            new
            (levels l)
  same_test l =
      insert_at_cong (in_front key s.arena)
        (λ x. node_key_less (keys linked_arena x) (keys linked_arena new)) new (levels l)
        (All-map (λ x. keys linked_arena x ≡ keys s.arena x)
          (λ x.
            in_front key s.arena x ≡ node_key_less (keys linked_arena x) (keys linked_arena new))
          (levels l) (λ x e. rw (e, new_key) refl) (old_keys l))

  pub Sorted-new : (l : ℕ) → Sorted node_key_less (keys linked_arena) (new_levels l)
  Sorted-new l =
      let old : Sorted node_key_less (keys linked_arena) (levels l) =
        Sorted-cong node_key_less (keys s.arena) (keys linked_arena) (levels l) (old_keys l)
          (v.sorted l) in
      elim (Bool-cases (ltb l height)) [
        | inl y ↦
            rw (y, same_test l)
              (Sorted-insert_at node_key_less node_key_less_trans (keys linked_arena) new (levels l)
                (All-map (λ x. (new ≢ x) × (keys s.arena x ≢ key))
                  (λ x.
                    node_key_less (keys linked_arena x) (keys linked_arena new) ≡ false
                    → node_key_less (keys linked_arena new) (keys linked_arena x) ≡ true)
                  (levels l)
                  (λ x (n, k).
                    node_key_less_connex (keys linked_arena x) (keys linked_arena new)
                      (λ e. k (sym (old_key x (λ q. n (sym q))) ∙ e ∙ new_key)))
                  (All-both (λ x. new ≢ x) (λ x. keys s.arena x ≢ key) (levels l) (new_apart l)
                    (key_apart l)))
                old)
        | inr n ↦ rw n old
      ]

  pub linked_new : (l : ℕ) → Chain (links linked_arena l) 0 (new_levels l)
  linked_new l =
      let f = links s.arena l in
      let g = links linked_arena l in
      let step : (i : ℕ) → g i ≡ linked_to height prevs new (links a) l i =
        link_levels-links new prevs prevs_apart height a l in
      let old : (i : ℕ) → i ≢ new → links a l i ≡ f i =
        λ i ne. ap (λ n. Node.next n l) (placed.there i ne) in
      elim (Bool-cases (ltb l height)) [
        | inl y ↦
            let at_prev : g (prevs l) ≡ new = ground (arith, y, step (prevs l)) in
            let at_new : g new ≡ f (prevs l) =
              ground (arith, y, step new, prevs_apart l, old (prevs l)) in
            let at_other : (i : ℕ) → i ≢ new → i ≢ prevs l → g i ≡ f i =
              λ i n p. ground (arith, y, step i, n, p, old i) in
            rw y (
              Chain-insert_at (in_front key s.arena) f g new 0 (prevs l) (levels l) (v.linked l)
                new_nonzero new_nonzero (new_apart l) (Chain-nonzero f 0 (levels l) (v.linked l))
                (Sorted-Distinct node_key_less node_key_less_irrefl (keys s.arena) (levels l)
                  (v.sorted l))
                (found l) at_prev at_new at_other)
        | inr n ↦
            let same : (i : ℕ) → i ≢ new → g i ≡ f i =
              λ i ne. ground (arith, n, step i, old i, ne) in
            rw n (
              Chain-frame f g 0 (levels l) (same 0 (λ e. new_nonzero (sym e)))
                (All-map (λ x. new ≢ x) (λ x. g x ≡ f x) (levels l)
                  (λ x ne. same x (λ e. ne (sym e))) (new_apart l))
                (v.linked l))
      ]

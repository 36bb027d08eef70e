-- ===== src/Engine/Memtable/SkipList/Linked.antt =====
-- A node put into all the levels below its height.
use scoria_db.Base.{ℕ, zero, suc, ◌≡◌, refl, ◌≢◌, arith, ltb, ◌==◌, if◌then◌else◌}
use scoria_db.Engine.Memtable.Arena.{Arena, Node, node_at, frontier}
use scoria_db.Engine.Memtable.SkipList.{link_levels}
use scoria_db.Engine.Memtable.Arena.Bounds.{IsArena}
use scoria_db.Engine.Memtable.SkipList.Search.{links}

-- What the links are behind the loop, on one level.
abbrev pub linked_to : ℕ → (ℕ → ℕ) → ℕ → (ℕ → ℕ → ℕ) → ℕ → ℕ → ℕ
linked_to height prevs new f l i =
    if ltb l height
    then (if i == prevs l then new else if i == new then f l (prevs l) else f l i)
    else f l i

-- The node without its links.
abbrev pub SameNode : Node → Node → Type 0
SameNode n m = (n.key ≡ m.key) × ((n.value ≡ m.value) × ((n.ts ≡ m.ts) × (n.deleted ≡ m.deleted)))

module _ (new : ℕ) (prevs : ℕ → ℕ) (apart : (l : ℕ) → new ≢ prevs l) where
  pub link_levels-links :
      (height : ℕ) (a : Arena) (l i : ℕ)
      → links (link_levels height new new prevs a) l i ≡ linked_to height prevs new (links a) l i
  unfolding link_levels node_at
  link_levels-links zero a l i = ground arith
  link_levels-links (suc h) a l i =
      let a' = link_levels h new new prevs a in
      ground (
        arith,
        apart l,
        apart h,
        link_levels-links h a l i,
        link_levels-links h a l (prevs l),
        link_levels-links h a h (prevs h),
      )

  pub link_levels-SameNode :
      (height : ℕ) (a : Arena) (i : ℕ)
      → SameNode (node_at i (link_levels height new new prevs a)) (node_at i a)
  unfolding link_levels node_at
  link_levels-SameNode zero a i = (refl, (refl, (refl, refl)))
  link_levels-SameNode (suc h) a i = ground (
    arith,
    link_levels-SameNode h a i,
    link_levels-SameNode h a new,
    link_levels-SameNode h a (prevs h),
  )

pub link_levels-bounds :
    (height new : ℕ) (prevs : ℕ → ℕ) (a : Arena)
    → let a' = link_levels height new new prevs a in
      (frontier a' ≡ frontier a) × ((a'.total ≡ a.total) × (IsArena a → IsArena a'))
unfolding link_levels
link_levels-bounds zero new prevs a = (refl, (refl, λ h. h))
link_levels-bounds (suc h) new prevs a =
    let (f, (t, v)) = link_levels-bounds h new prevs a in
    (
      f,
      (
        t,
        λ w.
            let w' = v w in
            record {
              head_fits = w'.head_fits;
              blocks_count = w'.blocks_count;
              total_bounded = w'.total_bounded;
            },
      ),
    )

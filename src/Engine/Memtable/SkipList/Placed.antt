-- ===== src/Engine/Memtable/SkipList/Placed.antt =====
-- A new node in the arena, on no level yet: all other places are as before.
use scoria_db.Base.{
  ℕ, ◌%◌, ◌^◌, ◌≤◌, ◌<◌, ◌≡◌, refl, ap, ◌∙◌, ◌≢◌, Bool, true, false, Option, some, arith, ◌==◌,
  ==_refl,
}
use scoria_db.Base.Bytes.{Bytes}
use scoria_db.Mvcc.{MvccKey}
use scoria_db.Engine.Memtable.Arena.{
  Arena, Node, zero_node, node_at, write, new_node, index, frontier, arena_block_size,
}
use scoria_db.Engine.Memtable.Arena.Bounds.{IsArena, HasRoom, node_room, new_node-Grown}

pub record Placed (a : Arena) (new : ℕ) (n : Node) (a' : Arena) : Type 0 where
  pub here : node_at new a' ≡ n
  pub there : (i : ℕ) → i ≢ new → node_at i a' ≡ node_at i a
  pub above : frontier a ≤ new
  pub inside : new < frontier a'
  pub taken : a.total < a'.total
  pub named : index new ≡ new
  pub valid : IsArena a'

abbrev pub node_of : MvccKey → Option Bytes → Bool → ℕ → Node
node_of key value deleted height = record zero_node {
  key = key.key;
  value = value;
  ts = key.timestamp;
  deleted = deleted;
  height = height;
}

-- The node with its timestamp and mark, as the writers fill it in.
abbrev pub filled : MvccKey → Bool → ℕ → Arena → Arena
filled key deleted pointer a =
    write pointer (record (node_at pointer a) { ts = key.timestamp; deleted = deleted }) a

pub new_node-Placed :
    (key : MvccKey) (value : Option Bytes) (deleted : Bool) (height : ℕ) (a : Arena)
    → IsArena a
    → HasRoom a
    → node_room key.key value ≤ arena_block_size
    → (pointer : ℕ) × (a' : Arena) × (new_node key.key value height a ≡ some (pointer, a'))
      × Placed a pointer (node_of key value deleted height) (filled key deleted pointer a')
unfolding node_at index
new_node-Placed key value deleted height a v r h =
    let (pointer, a', e, (g, m)) = new_node-Grown key.key value height a v r h in
    let refl_test : (pointer == pointer) ≡ true = ==_refl pointer in
    let small : pointer % 2 ^ 32 ≡ pointer = omega (arith, g.fits) in
    let blank : node_at pointer a'
        ≡ record zero_node { key = key.key; value = value; height = height } =
      ap {A = ℕ → Node} (λ f. f pointer) m ∙ rw refl_test refl in
    (
      pointer,
      a',
      e,
      record {
        here =
            rw refl_test
              (ap {B = Node} (λ n. record n { ts = key.timestamp; deleted = deleted }) blank);
        there = λ i ne.
            let other : (i == pointer) ≡ false = ground (arith, ne) in
            rw other (ap {A = ℕ → Node} (λ f. f i) m ∙ rw other refl);
        above = g.above;
        inside = g.inside;
        taken = g.taken;
        named = small;
        valid = record {
          head_fits = g.valid.head_fits;
          blocks_count = g.valid.blocks_count;
          total_bounded = g.valid.total_bounded;
        };
      },
    )

-- ===== src/Engine/Memtable/Arena/Bounds.antt =====
-- The places that the arena gives out: above all that it gave before, and within 32 bits.
use scoria_db.Base.{
  ℕ, ◌+◌, ◌*◌, ◌%◌, ◌^◌, ◌≤◌, ◌<◌, ◌≡◌, refl, ap, ◌∙◌, inl, inr, true, Option, some, arith, leb,
  ◌==◌, if◌then◌else◌, Bool-cases, length,
}
use scoria_db.Base.Bytes.{Bytes}
use scoria_db.Engine.Memtable.Arena.{
  Arena, Node, arena_block_size, node_size, frontier, aligned, bump, grow, alloc, value_room,
  new_node, write, zero_node,
}

-- The head is in the current block, which is the last, and the bytes taken are below the frontier.
pub record IsArena (a : Arena) : Type 0 where
  pub head_fits : a.head ≤ arena_block_size
  pub blocks_count : a.blocks ≡ a.block_idx + 1
  pub total_bounded : a.total ≤ frontier a

-- Two more blocks have indices of 32 bits.
abbrev pub HasRoom : Arena → Type 0
HasRoom a = frontier a + 2 * arena_block_size ≤ 2 ^ 32

pub aligned-le : (size : ℕ) → (size ≤ aligned size) × (8 ≤ aligned size)
unfolding aligned
aligned-le size = ground arith

-- What an allocation promises of the pointer and of the arena behind it.
pub record Grown (a : Arena) (pointer : ℕ) (a' : Arena) : Type 0 where
  pub above : frontier a ≤ pointer
  pub inside : pointer < frontier a'
  pub taken : a.total < a'.total
  pub fits : pointer < 2 ^ 32
  pub valid : IsArena a'

bump-Grown :
    (size : ℕ) (a b : Arena)
    → IsArena b
    → HasRoom a
    → a.total ≡ b.total
    → a.total ≤ frontier a
    → frontier a ≤ frontier b
    → frontier b ≤ frontier a + arena_block_size
    → 8 ≤ size
    → b.head + size ≤ arena_block_size
    → Grown a (bump size b).0 (bump size b).1
unfolding bump
bump-Grown size a b v r t tf l u s h =
    let wide : b.total + size < 2 ^ 64 = omega (arith, r, t, tf, l, u, s, h) in
    let exact : (b.total + size) % 2 ^ 64 ≡ b.total + size = omega (arith, wide) in
    record {
      above = l;
      inside = omega (arith, s);
      taken = rw exact (omega (arith, t, s));
      fits = omega (arith, r, u);
      valid = record {
        head_fits = h;
        blocks_count = v.blocks_count;
        total_bounded = rw exact (omega (arith, t, tf, l));
      };
    }

-- An allocation of a block at most gives a place above all others.
pub alloc-Grown :
    (size : ℕ) (a : Arena)
    → IsArena a
    → HasRoom a
    → aligned size ≤ arena_block_size
    → (r : ℕ × Arena) × (alloc size a ≡ some r) × (Grown a r.0 r.1 × (r.1.memory ≡ a.memory))
unfolding alloc grow bump
alloc-Grown size a v r h = elim (Bool-cases (leb (a.head + aligned size) arena_block_size)) [
  | inl y ↦ rw y (
    bump (aligned size) a,
    refl,
    (
      bump-Grown (aligned size) a a v r refl v.total_bounded (omega arith) (omega arith)
          (aligned-le size).1 (ground (arith, y)),
      refl,
    ),
  )
  | inr n ↦
      let b : Arena = record a { blocks = a.blocks + 1; block_idx = a.blocks; head = 0 } in
      let e : frontier b ≡ (a.block_idx + 1) * arena_block_size =
        ap (λ k. k * arena_block_size + 0) v.blocks_count ∙ omega arith in
      let fits : leb (aligned size) arena_block_size ≡ true = ground (arith, h) in
      let bv : IsArena b = record {
        head_fits = omega arith;
        blocks_count = refl;
        total_bounded = omega (arith, e, v.total_bounded, v.head_fits);
      } in
      rw (n, fits)
        (
          bump (aligned size) b,
          refl,
          (
            bump-Grown (aligned size) a b bv r refl v.total_bounded (omega (arith, e, v.head_fits))
                (omega (arith, e)) (aligned-le size).1 (omega (arith, h)),
            refl,
          ),
        )
]

-- The places that a node takes.
abbrev pub node_room : Bytes → Option Bytes → ℕ
node_room key value = aligned (node_size + length key + value_room value)

-- In a valid arena with two blocks of 32-bit indices left, a node that fits into a block gets a place
-- above all that were given out, with an index of 32 bits; the arena is valid again, the node of the
-- given fields is at the place, and all other places stay.
pub new_node-Grown :
    (key : Bytes) (value : Option Bytes) (height : ℕ) (a : Arena)
    → IsArena a
    → HasRoom a
    → node_room key value ≤ arena_block_size
    → (pointer : ℕ) × (a' : Arena) × (new_node key value height a ≡ some (pointer, a'))
      × (Grown a pointer a'
          × (a'.memory
              ≡ (write pointer
                  (record zero_node { key = key; value = value; height = height })
                  a).memory))
unfolding new_node
new_node-Grown key value height a v r h =
    let ((pointer, b), e, (g, m)) =
      alloc-Grown (node_size + length key + value_room value) a v r h in
    rw (new_node, e)
      (
        pointer,
        write pointer (record zero_node { key = key; value = value; height = height }) b,
        refl,
        (
          record {
            above = g.above;
            inside = g.inside;
            taken = g.taken;
            fits = g.fits;
            valid = record {
              head_fits = g.valid.head_fits;
              blocks_count = g.valid.blocks_count;
              total_bounded = g.valid.total_bounded;
            };
          },
          ap {B = ℕ → Node}
              (λ f p.
                if p == pointer
                then record zero_node { key = key; value = value; height = height }
                else f p)
              m,
        ),
      )

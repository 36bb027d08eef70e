-- ===== src/Engine/Memtable/Arena/Runs.antt =====
-- A node in a new arena.
use scoria_db.Base.{ℕ, ◌≡◌, refl, some, [], ◌∷◌, arith}
use scoria_db.Engine.Memtable.Arena.{
  aligned, value_room, Arena, new_arena, new_node, write, zero_node,
}
use scoria_db.Engine.Memtable.Arena.Bounds.{IsArena, Grown, new_node-Grown}

new_arena-IsArena : IsArena new_arena
unfolding new_arena
new_arena-IsArena = record {
  head_fits = omega arith;
  blocks_count = refl;
  total_bounded = omega arith;
}

new_node-Grown_example :
    (pointer : ℕ) × (a' : Arena) × (new_node (97 ∷ []) (some (7 ∷ [])) 2 new_arena
      ≡ some (pointer, a'))
    × (Grown new_arena pointer a'
        × (a'.memory
            ≡ (write pointer
                (record zero_node { key = 97 ∷ []; value = some (7 ∷ []); height = 2 })
                new_arena).memory))
unfolding new_arena aligned value_room
new_node-Grown_example =
    new_node-Grown (97 ∷ []) (some (7 ∷ [])) 2 new_arena new_arena-IsArena (omega arith)
      (omega arith)

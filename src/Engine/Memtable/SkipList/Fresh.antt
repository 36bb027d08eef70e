-- ===== src/Engine/Memtable/SkipList/Fresh.antt =====
-- A new skip list.
use scoria_db.Base.{◌≡◌, refl, none, some, [], arith}
use scoria_db.Engine.Memtable.Arena.{
  node_at, new_node, new_arena, index, alloc, bump, aligned, grow, value_room, max_height,
}
use scoria_db.Engine.Memtable.SkipList.{SkipList, new_skip_list, empty_list}
use scoria_db.Engine.Memtable.SkipList.Put.{Holds}

-- The list that NewSkipList makes.
unfoldable pub fresh_list : SkipList
unfolding new_node new_arena index alloc bump aligned value_room grow
fresh_list = elim (new_node [] none max_height new_arena) [
  | none ↦ empty_list (0, new_arena)
  | some r ↦ empty_list r
]

-- NewSkipList succeeds, and its list is valid and holds no version.
pub new_skip_list-Holds : (new_skip_list ≡ some fresh_list) × Holds fresh_list []
unfolding new_skip_list fresh_list node_at
new_skip_list-Holds = (
  refl,
  (
    λ l. [],
    (
      record {
        arena_valid = record {
          head_fits = omega arith;
          blocks_count = refl;
          total_bounded = omega arith;
        };
        head_zero = refl;
        height_positive = omega arith;
        linked = λ l. refl;
        sorted = λ l. tt;
        nested = λ l. tt;
        empty = λ l h. refl;
        allocated = λ l. tt;
        room = λ l. omega arith;
        counted = refl;
      },
      refl,
    ),
  ),
)

-- ===== src/Engine/Sstable/Writer/Runs.antt =====
-- Two entries that share a block.
use scoria_db.Base.{true, false, none, some, List, [], ◌∷◌}
use scoria_db.Engine.Sstable.Entry.{RawEntry}
use scoria_db.Engine.Sstable.Writer.{form_blocks}
use scoria_db.Engine.Sstable.Writer.Blocks.{AreBlocks, form_blocks-groups}

abbrev first_entry : RawEntry
first_entry = record {
  key = record { key = 1 ∷ []; timestamp = 5 };
  value = some (7 ∷ []);
  tagged = false;
}

abbrev second_entry : RawEntry
second_entry = record { key = record { key = 2 ∷ []; timestamp = 5 }; value = none; tagged = true }

form_blocks-groups_example :
    (groups : List (List RawEntry)) × AreBlocks
      (first_entry ∷ second_entry ∷ [])
      (form_blocks (first_entry ∷ second_entry ∷ []) [] [])
      groups
form_blocks-groups_example = form_blocks-groups (first_entry ∷ second_entry ∷ [])

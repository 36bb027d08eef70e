-- ===== src/Engine/Sstable/Lifetime/Runs.antt =====
-- A caller that reads while two others close the reader, and one that reads without Acquire.
use scoria_db.Base.{◌≡◌, refl, true, false, arith}
use scoria_db.Engine.Sstable.Lifetime.{
  State, opened, acquire, begin_lookup, end_lookup, begin_unheld_lookup, decrement, test_last,
  load_closed, store_closed, load_count, perform, Reaches, start, then_do,
}
use scoria_db.Engine.Sstable.Lifetime.Safe.{reading-mapped, released-unmapped}

-- The reader is closed by two callers in the middle of a lookup.
abbrev closed_in_use : State
closed_in_use = record {
  ref_count = 1;
  closed = true;
  mapped = true;
  holding = 0;
  reading = 1;
  unheld = 0;
  releasing = 0;
  checking = 0;
  closing = 1;
}

in_use : Reaches opened closed_in_use
unfolding perform
in_use =
    then_do load_count
      (then_do store_closed
        (then_do store_closed
          (then_do load_closed
            (then_do load_closed (then_do begin_lookup (then_do acquire start refl) refl) refl)
            refl)
          refl)
        refl)
      refl

-- The lookup returns, the caller releases the reader, and the second call of Close ends.
abbrev all_gone : State
all_gone = record {
  ref_count = 0;
  closed = true;
  mapped = false;
  holding = 0;
  reading = 0;
  unheld = 0;
  releasing = 0;
  checking = 0;
  closing = 0;
}

gone : Reaches opened all_gone
unfolding perform
gone =
    then_do load_count
      (then_do test_last (then_do decrement (then_do end_lookup in_use refl) refl) refl) refl

-- A caller that has not acquired the reader reads where the file is unmapped.
abbrev read_unmapped : State
read_unmapped = record {
  ref_count = 0;
  closed = true;
  mapped = false;
  holding = 0;
  reading = 0;
  unheld = 1;
  releasing = 0;
  checking = 0;
  closing = 0;
}

unheld_read : Reaches opened read_unmapped
unfolding perform
unheld_read =
    then_do load_count
      (then_do store_closed (then_do load_closed (then_do begin_unheld_lookup start refl) refl)
        refl)
      refl

reading-mapped_example : closed_in_use.mapped ≡ true
reading-mapped_example = reading-mapped closed_in_use in_use (omega arith)

released-unmapped_example : all_gone.mapped ≡ false
released-unmapped_example = released-unmapped all_gone gone refl refl refl refl

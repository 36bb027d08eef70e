-- ===== src/Engine/WalGroup.antt =====
-- internal/engine/wal_group.go: the buffer in front of the log file. Methods and background loops hold
-- the lock, so they are taken one after the other; channels and timers only say when a loop goes on.
pub mod Accepted
mod Runs
use scoria_db.Base.{
  ℕ, ◌+◌, ◌-◌, ◌*◌, Bool, true, false, ◌||◌, List, [], ◌∷◌, ◌++◌, leb, ◌==◌, if◌then◌else◌, length,
  take,
}
use scoria_db.Base.Bytes.{Bytes}

abbrev pub group_commit_buf_size : ℕ
group_commit_buf_size = 64 * 1024 * 4

-- `buf` is the part that is filled, `w.buf[:w.bufSize]`; `synced` counts the bytes that a sync made
-- durable, and `sync_pending` is the signal in syncCh.
pub record GroupCommitWriter : Type 0 where
  pub buf : Bytes
  pub file : Bytes
  pub synced : ℕ
  pub sync_pending : Bool
  pub flush_err : Bool
  pub closed : Bool
  pub sync_mode : Bool

abbrev pub new_group_commit_writer : Bytes → Bool → GroupCommitWriter
new_group_commit_writer file sync_mode = record {
  buf = [];
  file = file;
  synced = length file;
  sync_pending = false;
  flush_err = false;
  closed = false;
  sync_mode = sync_mode;
}

-- What a write to the file does: a failing one may leave the first bytes behind.
pub data WriteOutcome : Type 0 where
  written : WriteOutcome
  failed : ℕ → WriteOutcome

-- flushLocked; the flag is false for an error.
unfoldable pub flush_locked : WriteOutcome → GroupCommitWriter → Bool × GroupCommitWriter
flush_locked out w = if length w.buf == 0 then (true, w) else elim out [
  | written ↦ (
    true,
    record w { file = w.file ++ w.buf; buf = []; sync_pending = w.sync_mode || w.sync_pending },
  )
  | failed count ↦ (false, record w { file = w.file ++ take count w.buf; flush_err = true })
]

-- `copy` takes what fits.
abbrev pub append : Bytes → GroupCommitWriter → GroupCommitWriter
append input w = record w { buf = w.buf ++ take (group_commit_buf_size - length w.buf) input }

unfoldable pub write : Bytes → WriteOutcome → GroupCommitWriter → Bool × GroupCommitWriter
write input out w =
    let r = flush_locked out w in
    if w.closed
    then (false, w)
    else if leb (length w.buf + length input) group_commit_buf_size
    then (true, append input w)
    else if r.0
    then (true, append input r.1)
    else r

-- A round of flushLoop, which ends once the writer is closed.
unfoldable pub tick : WriteOutcome → GroupCommitWriter → GroupCommitWriter
unfolding flush_locked
tick out w = let r = flush_locked out w in if w.closed then w else r.1

-- A round of syncLoop; the flag is false where the sync fails.
unfoldable pub sync : Bool → GroupCommitWriter → GroupCommitWriter
sync succeeds w =
    if w.sync_pending
    then (if succeeds
        then record w { synced = length w.file; sync_pending = false }
        else record w { flush_err = true; sync_pending = false })
    else w

unfoldable pub close : WriteOutcome → GroupCommitWriter → Bool × GroupCommitWriter
unfolding flush_locked
close out w =
    let r = flush_locked out (record w { closed = true }) in if w.closed then (true, w) else r

-- What can happen to a writer.
pub data Event : Type 0 where
  write_event : Bytes → WriteOutcome → Event
  flush_event : WriteOutcome → Event
  tick_event : WriteOutcome → Event
  sync_event : Bool → Event
  close_event : WriteOutcome → Event

unfoldable pub step : Event → GroupCommitWriter → GroupCommitWriter
unfolding write flush_locked tick sync close
step (write_event input out) w = (write input out w).1
step (flush_event out) w = (flush_locked out w).1
step (tick_event out) w = tick out w
step (sync_event succeeds) w = sync succeeds w
step (close_event out) w = (close out w).1

unfoldable pub run : List Event → GroupCommitWriter → GroupCommitWriter
unfolding step
run [] w = w
run (e ∷ es) w = run es (step e w)

-- ===== src/Engine/Sstable/Lifetime.antt =====
-- internal/engine/sstable/reader.go: how long the mapping of a table lives. Acquire, Lookup, Release and
-- any number of calls of Close run concurrently; each is cut at its atomic operations, and a run is any
-- order of the pieces. Lookup is also called by callers that have not acquired the reader, as
-- GetWithTS does. The calls of the operating system that unmap the file do not fail.
pub mod Safe
mod Runs
use scoria_db.Base.{
  ℕ, ◌+◌, ◌-◌, ◌≡◌, Bool, true, false, not, ◌&&◌, ◌||◌, Option, none, some, ◌==◌, if◌then◌else◌,
}

pub record State : Type 0 where
  pub ref_count : ℕ
  pub closed : Bool
  pub mapped : Bool
  -- callers behind Acquire that have not loaded `closed` in Lookup, or that have seen it set
  pub holding : ℕ
  -- callers behind Acquire that are reading the mapping in Lookup
  pub reading : ℕ
  -- callers that are reading the mapping in Lookup without Acquire
  pub unheld : ℕ
  -- calls of Release behind the decrement
  pub releasing : ℕ
  -- calls of Close that have loaded `closed` as unset, and not stored it
  pub checking : ℕ
  -- calls of Close behind `closed.Store(true)`
  pub closing : ℕ

abbrev pub opened : State
opened = record {
  ref_count = 0;
  closed = false;
  mapped = true;
  holding = 0;
  reading = 0;
  unheld = 0;
  releasing = 0;
  checking = 0;
  closing = 0;
}

pub data Action : Type 0 where
  -- Acquire
  acquire : Action
  -- `r.closed.Load()` of Lookup: the caller reads the mapping, unless the reader is closed
  begin_lookup : Action
  -- Lookup returns
  end_lookup : Action
  -- the same of a caller that has not acquired the reader
  begin_unheld_lookup : Action
  end_unheld_lookup : Action
  -- `r.refCount.Add(-1)` of Release
  decrement : Action
  -- the test of Release: the mapping goes if the reader is closed and nobody holds it
  test_last : Action
  -- `r.closed.Load()` of Close, which returns if the reader is closed
  load_closed : Action
  -- `r.closed.Store(true)` of Close
  store_closed : Action
  -- `r.refCount.Load()` of Close: the mapping goes if nobody holds the reader
  load_count : Action

-- `none`: no caller stands in front of this piece. The decrement of a count of 0 panics; a caller that
-- holds the reader never meets it.
unfoldable pub perform : Action → State → Option State
perform acquire s = some (record s { ref_count = s.ref_count + 1; holding = s.holding + 1 })
perform begin_lookup s =
    if s.holding == 0
    then none
    else if s.closed
    then some s
    else some (record s { holding = s.holding - 1; reading = s.reading + 1 })
perform end_lookup s =
    if s.reading == 0
    then none
    else some (record s { holding = s.holding + 1; reading = s.reading - 1 })
perform begin_unheld_lookup s =
    if s.closed then some s else some (record s { unheld = s.unheld + 1 })
perform end_unheld_lookup s =
    if s.unheld == 0 then none else some (record s { unheld = s.unheld - 1 })
perform decrement s =
    if s.holding == 0 || s.ref_count == 0
    then none
    else some (record s {
      ref_count = s.ref_count - 1;
      holding = s.holding - 1;
      releasing = s.releasing + 1;
    })
perform test_last s =
    if s.releasing == 0
    then none
    else some (record s {
      releasing = s.releasing - 1;
      mapped = s.mapped && not (s.closed && s.ref_count == 0);
    })
perform load_closed s = if s.closed then some s else some (record s { checking = s.checking + 1 })
perform store_closed s =
    if s.checking == 0
    then none
    else some (record s { closed = true; checking = s.checking - 1; closing = s.closing + 1 })
perform load_count s =
    if s.closing == 0
    then none
    else some (record s { closing = s.closing - 1; mapped = s.mapped && not (s.ref_count == 0) })

-- The states that are reached from a state in some order of the pieces.
pub data Reaches (s : State) : State → Type 0 where
  start : Reaches s s
  then_do : {t u : State} (a : Action) → Reaches s t → perform a t ≡ some u → Reaches s u

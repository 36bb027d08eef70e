-- ===== src/Engine/Sstable/Iterator.antt =====
-- internal/engine/sstable/iterator.go: the iterator over a table that is mapped into memory. Of the
-- block data it keeps what stands behind `pos`, and of the index what stands behind `blockIdx`.
pub mod Entries
use scoria_db.Base.{
  ℕ, zero, suc, Bool, true, false, Option, none, some, List, [], ◌∷◌, ltb, if◌then◌else◌, length,
  Result, ok, err,
}
use scoria_db.Base.Bytes.{Bytes}
use scoria_db.Mvcc.{MvccKey}
use scoria_db.Engine.Sstable.Encoding.{EncodingError, decode_mvcc_key, corrupted}
use scoria_db.Engine.Sstable.Entry.{read_entry}
use scoria_db.Engine.Sstable.Block.{TableError, panic, read_block_from_mmap}
use scoria_db.Engine.Sstable.Index.{IndexEntry}
use scoria_db.Engine.Sstable.Reader.{Reader, LookupFailure, panicked, stuck, strip_tag}

-- ErrCorrupted, and the errors of readBlock
pub data IteratorError : Type 0 where
  corrupted_entry : IteratorError
  unreadable : TableError → IteratorError

pub record SstableIterator : Type 0 where
  pub bytes : Bytes
  pub ahead : List IndexEntry
  pub rest : Bytes
  pub key : MvccKey
  pub val : Bytes
  pub failure : Option IteratorError
  pub ended : Bool

-- nextBlock
unfoldable pub next_block : SstableIterator → Result LookupFailure (SstableIterator × Bool)
next_block it = elim it.ahead [
  | [] ↦ ok (record it { ended = true }, false)
  | entry ∷ ahead ↦ elim (read_block_from_mmap it.bytes entry.offset) [
    | err panic ↦ err panicked
    | err e ↦ ok (record it { ahead = ahead; failure = some (unreadable e) }, false)
    | ok block ↦ ok (record it { ahead = ahead; rest = block }, true)
  ]
]

-- A round of Next that finds bytes left in the block.
unfoldable pub take_entry : SstableIterator → Result LookupFailure (SstableIterator × Bool)
take_entry it = elim (read_entry it.rest) [
  | err e ↦ ok (record it { failure = some corrupted_entry }, false)
  | ok (key, value, left) ↦ elim (decode_mvcc_key key) [
    | err EncodingError.panic ↦ err panicked
    | err corrupted ↦ ok (record it { rest = left; failure = some corrupted_entry }, false)
    | ok k ↦ ok (record it { rest = left; key = k; val = strip_tag value }, true)
  ]
]

-- The loop of Next, over a bound on its rounds.
unfoldable pub next_loop : ℕ → SstableIterator → Result LookupFailure (SstableIterator × Bool)
unfolding take_entry next_block
next_loop zero it = err stuck
next_loop (suc fuel) it = elim (ltb 0 (length it.rest)) [
  | true ↦ take_entry it
  | false ↦ elim (next_block it) [
    | err e ↦ err e
    | ok (it', false) ↦ ok (it', false)
    | ok (it', true) ↦ next_loop fuel it'
  ]
]

-- Next; each round but the last takes a block.
unfoldable pub next : SstableIterator → Result LookupFailure (SstableIterator × Bool)
unfolding next_loop
next it = elim it.failure [
  | some e ↦ ok (it, false)
  | none ↦ if it.ended then ok (it, false) else next_loop (suc (length it.ahead)) it
]

-- What NewIterator returns: the iterator, or the error of the first block.
unfoldable pub new_iterator : Reader → Result LookupFailure (Result IteratorError SstableIterator)
unfolding next_block
new_iterator r =
    let it : SstableIterator = record {
      bytes = r.bytes;
      ahead = r.index_entries;
      rest = [];
      key = record { key = []; timestamp = 0 };
      val = [];
      failure = none;
      ended = false;
    } in
    elim (next_block it) [
      | err e ↦ err e
      | ok (it', true) ↦ ok (ok it')
      | ok (it', false) ↦ elim it'.failure [
        | some e ↦ ok (err e)
        | none ↦ ok (ok (record it' { ended = true }))
      ]
    ]

-- A caller's loop `for it.Next() { use(it.Key(), it.Value()) }`, over a bound on its rounds: the pairs,
-- and the error that Err returns behind it.
unfoldable pub drain :
    ℕ → SstableIterator → Result LookupFailure (List (MvccKey × Bytes) × Option IteratorError)
unfolding next
drain zero it = err stuck
drain (suc fuel) it = elim (next it) [
  | err e ↦ err e
  | ok (it', false) ↦ ok ([], it'.failure)
  | ok (it', true) ↦ elim (drain fuel it') [
    | err e ↦ err e
    | ok (pairs, failure) ↦ ok ((it'.key, it'.val) ∷ pairs, failure)
  ]
]

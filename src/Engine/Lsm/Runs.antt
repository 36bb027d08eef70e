-- ===== src/Engine/Lsm/Runs.antt =====
-- The theorems on the engine at one shard without data.
use scoria_db.Base.{
  ℕ, zero, suc, ◌≡◌, refl, ◌≢◌, inl, true, false, none, some, [], ◌∷◌, ◌++◌, arith, length,
  get_elem?, ok,
}
use scoria_db.Base.Bytes.{Bytes}
use scoria_db.Base.Bytes.{be_bytes}
use scoria_db.Mvcc.{new_mvcc_key}
use scoria_db.Engine.Wal.{write}
use scoria_db.Engine.Wal.Crc.{checksum}
use scoria_db.Engine.Wal.Samples.{put_a_bytes}
use scoria_db.Engine.Cache.{empty_cache, find_entry}
use scoria_db.Engine.Cache.Lookup.{IsValid}
use scoria_db.Engine.Memtable.SkipList.{get}
use scoria_db.Engine.Memtable.SkipList.Fresh.{fresh_list, new_skip_list-Holds}
use scoria_db.Engine.Lsm.{ValueStores, LsmEngine, Shard, shard_index, hash_key, hash_bytes}
use scoria_db.Engine.Lsm.Reads.{get_with_ts}
use scoria_db.Engine.Lsm.Writes.{put_with_ts}
use scoria_db.Engine.Lsm.Conflicts.{check_conflict}
use scoria_db.Engine.Lsm.Stored.{Ready, get_with_ts-put_with_ts}
use scoria_db.Engine.Lsm.Committed.{check_conflict-written}

-- A store that appends values to its bytes.
abbrev stores : ValueStores Bytes
stores = record {
  write_entry = λ op key value ts bytes. some (length bytes, bytes ++ value);
  mmap_size = length;
  read_value = λ offset size bytes. none;
  vlog_size = λ bytes. 0;
  read_direct = λ vp bytes. none;
}

abbrev one_shard : Shard
one_shard = record { mem_table = fresh_list; frozen_mem_table = none; wal = [] }

abbrev engine : LsmEngine Bytes
engine = record {
  closed = false;
  last_ts = 6;
  shards = one_shard ∷ [];
  levels = [];
  cache = empty_cache;
  values = [];
}

engine-Ready : Ready engine (97 ∷ []) (1 ∷ 2 ∷ []) 7 9 2 one_shard []
unfolding shard_index hash_key hash_bytes fresh_list new_mvcc_key
engine-Ready = record {
  is_open = refl;
  routed = refl;
  holds = new_skip_list-Holds.1;
  timestamps = tt;
  key_nonempty = omega arith;
  room = omega arith;
  fits = omega arith;
  tall = omega arith;
  in_order = omega arith;
  bounded = omega arith;
  older = tt;
  alone = only;
}
  where
    only :
        (j : ℕ) (other : Shard)
        → get_elem? (one_shard ∷ []) j ≡ some other
        → j ≢ 0
        → get (new_mvcc_key (97 ∷ []) 9) other.mem_table ≡ none
    only zero other h ne = absurd (ne refl)
    only (suc j) other h ne = absurd (none_ne h)
      where
        none_ne : get_elem? {A = Shard} [] j ≢ some other
        none_ne e = cc (e)

get_with_ts-put_with_ts_example :
    (e' : LsmEngine Bytes) × (put_with_ts stores (97 ∷ []) (1 ∷ 2 ∷ []) 7 2 engine
      ≡ some (none, e'))
    × (get_with_ts stores (97 ∷ []) 9 e' ≡ ok (some (1 ∷ 2 ∷ [])))
unfolding write be_bytes checksum
get_with_ts-put_with_ts_example =
    get_with_ts-put_with_ts stores engine (97 ∷ []) (1 ∷ 2 ∷ []) put_a_bytes 7 9 2 one_shard []
      engine-Ready (omega arith) refl

empty-IsValid : IsValid empty_cache
unfolding find_entry
empty-IsValid = record { agree = λ key. refl; distinct = tt; bounded = omega arith }

abbrev stored :
    (e' : LsmEngine Bytes) × (put_with_ts stores (97 ∷ []) (1 ∷ 2 ∷ []) 7 2 engine
      ≡ some (none, e'))
    × (get_with_ts stores (97 ∷ []) 9 e' ≡ ok (some (1 ∷ 2 ∷ [])))
unfolding write be_bytes checksum
stored =
    get_with_ts-put_with_ts stores engine (97 ∷ []) (1 ∷ 2 ∷ []) put_a_bytes 7 9 2 one_shard []
      engine-Ready (omega arith) refl

check_conflict-written_example : (check_conflict stores (97 ∷ []) 5 stored.0).0 ≡ ok true
check_conflict-written_example =
    check_conflict-written stores (97 ∷ []) (1 ∷ 2 ∷ []) 7 2 5 engine stored.0 empty-IsValid
      (inl stored.1)

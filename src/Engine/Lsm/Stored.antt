-- ===== src/Engine/Lsm/Stored.antt =====
-- A put that is read back, through the log, the memory table and the loop over the shards.
use scoria_db.Base.{
  subst, ℕ, zero, suc, ◌≤◌, ◌<◌, ◌≡◌, refl, sym, ap, ◌∙◌, ◌≢◌, inl, inr, true, false, Option, none,
  some, List, [], ◌∷◌, arith, leb, Bool-cases, length, get_elem?, set, ok, choose_else, choose_then,
  choose_some,
}
use scoria_db.Base.Bytes.{Bytes}
use scoria_db.Mvcc.{
  MvccKey, new_mvcc_key, commit_ts, max_uint64, invert_timestamp, revert_timestamp,
}
use scoria_db.Base.Map.{bytes_equal_refl}
use scoria_db.Engine.ValuePointer.{type_inline, is_valid_value_tag}
use scoria_db.Engine.Wal.{write, op_put}
use scoria_db.Engine.Cache.{update_last_commit_cache}
use scoria_db.Engine.Memtable.SkipList.{SkipList, put, get}
use scoria_db.Engine.Memtable.Arena.Bounds.{HasRoom}
use scoria_db.Engine.Memtable.SkipList.Entries.{Entry, insert_entry}
use scoria_db.Engine.Memtable.SkipList.Version.{has_version, same_version_iff}
use scoria_db.Engine.Memtable.SkipList.Newest.{visible, newest_value, outcome}
use scoria_db.Engine.Memtable.SkipList.Insertion.{OlderThan, newest-insert_entry}
use scoria_db.Engine.Memtable.SkipList.Put.{Holds, FitsBlock, put-Holds}
use scoria_db.Engine.Memtable.SkipList.Reads.{AllUint64, get-newest_value}
use scoria_db.Engine.Memtable.SkipList.{node_key_less, same_version}
use scoria_db.Engine.Lsm.{ValueStores, LsmEngine, Shard, shard_index}
use scoria_db.Engine.Lsm.Values.{decode_stored_value}
use scoria_db.Engine.Lsm.Reads.{find_in_tables, get_with_ts}
use scoria_db.Mvcc.Versions.{commit_ts-new_mvcc_key}
use scoria_db.Engine.Vlog.{max_inline_size}
use scoria_db.Engine.Lsm.Writes.{committed, put_in_shard, put_inline, put_with_ts, log_entry}

AllUint64-insert_entry :
    (e : Entry) (es : List Entry)
    → e.key.timestamp ≤ max_uint64
    → AllUint64 es
    → AllUint64 (insert_entry e es)
unfolding insert_entry
AllUint64-insert_entry e [] p h = (p, tt)
AllUint64-insert_entry e (x ∷ xs) p (q, h) = elim (Bool-cases (node_key_less x.key e.key)) [
  | inl y ↦ rw y (q, AllUint64-insert_entry e xs p h)
  | inr n ↦ rw n (p, (q, h))
]

new_version-visible :
    (key : Bytes) (ts snapshot : ℕ) (x : Entry)
    → ts ≤ snapshot
    → snapshot ≤ max_uint64
    → x.key ≡ new_mvcc_key key ts
    → visible (new_mvcc_key key snapshot) x ≡ true
unfolding visible new_mvcc_key invert_timestamp commit_ts revert_timestamp
new_version-visible key ts snapshot x h b e =
    rw (visible, e) (ground (arith, h, b, bytes_equal_refl key))

OlderThan-has_version :
    (key : Bytes) (ts snapshot : ℕ) (es : List Entry)
    → ts ≤ snapshot
    → snapshot ≤ max_uint64
    → OlderThan (new_mvcc_key key snapshot) ts es
    → has_version (new_mvcc_key key ts) es ≡ false
unfolding has_version
OlderThan-has_version key ts snapshot [] h b o = refl
OlderThan-has_version key ts snapshot (x ∷ xs) h b (p, o) =
    elim (Bool-cases (same_version x.key (new_mvcc_key key ts))) [
      | inl y ↦
          let same : x.key ≡ new_mvcc_key key ts =
            (same_version_iff x.key (new_mvcc_key key ts)).0 y in
          let old : commit_ts x.key < ts = p (new_version-visible key ts snapshot x h b same) in
          let at : commit_ts x.key ≡ ts =
            ap commit_ts same ∙ commit_ts-new_mvcc_key key ts (omega (arith, h, b)) in
          absurd (omega (arith, old, at))
      | inr n ↦ rw n (OlderThan-has_version key ts snapshot xs h b o)
    ]

-- The only table that answers is found.
find_in_tables-set :
    (k : MvccKey) (stored : Option Bytes) (shards : List Shard) (i : ℕ) (shard : Shard)
    → i < length shards
    → get k shard.mem_table ≡ some stored
    → ((j : ℕ) (other : Shard)
        → get_elem? shards j ≡ some other
        → j ≢ i
        → get k other.mem_table ≡ none)
    → find_in_tables k (set shards i shard) ≡ some stored
unfolding find_in_tables
find_in_tables-set k stored [] i shard l g h = absurd (omega (arith, l))
find_in_tables-set k stored (x ∷ xs) zero shard l g h = rw (find_in_tables, g) refl
find_in_tables-set k stored (x ∷ xs) (suc i) shard l g h =
    let first : get k x.mem_table ≡ none = h 0 x refl (λ e. omega (arith, e)) in
    rw (find_in_tables, first)
      (find_in_tables-set k stored xs i shard (omega (arith, l)) g
        (λ j other e ne. h (suc j) other e (λ q. ne (omega (arith, q)))))

get_elem?-length :
    (shards : List Shard) (i : ℕ) (shard : Shard)
    → get_elem? shards i ≡ some shard
    → i < length shards
get_elem?-length [] i shard h = absurd (none_ne h)
  where
    none_ne : none ≢ some shard
    none_ne e = cc (e)
get_elem?-length (x ∷ xs) zero shard h = omega arith
get_elem?-length (x ∷ xs) (suc i) shard h = omega (arith, get_elem?-length xs i shard h)

-- A version put into a table that holds only older ones is read.
get-put :
    (table : SkipList) (es : List Entry) (key stored : Bytes) (ts snapshot height : ℕ)
    → Holds table es
    → AllUint64 es
    → 0 < length key
    → HasRoom table.arena
    → FitsBlock (new_mvcc_key key ts) (some stored)
    → 0 < height
    → ts ≤ snapshot
    → snapshot ≤ max_uint64
    → OlderThan (new_mvcc_key key snapshot) ts es
    → (t : SkipList) × (put (new_mvcc_key key ts) (some stored) height table ≡ some (true, t))
      × (get (new_mvcc_key key snapshot) t ≡ some (some stored))
unfolding newest_value outcome new_mvcc_key invert_timestamp
get-put table es key stored ts snapshot height holds b long room fits tall le max older =
    let k = new_mvcc_key key ts in
    let at = new_mvcc_key key snapshot in
    let e : Entry = record { key = k; value = some stored; deleted = false } in
    let fresh : has_version k es ≡ false = OlderThan-has_version key ts snapshot es le max older in
    let (t, run, held) = put-Holds table es k (some stored) height holds room fits tall in
    let run' : put k (some stored) height table ≡ some (true, t) = run ∙ rw fresh refl in
    let held' : Holds t (insert_entry e es) =
      subst (Holds t) (choose_else (has_version k es) _ _ fresh) held in
    let seen : visible at e ≡ true = new_version-visible key ts snapshot e le max refl in
    let older' : OlderThan at (commit_ts k) es =
      subst (λ n. OlderThan at n es) (sym (commit_ts-new_mvcc_key key ts (omega (arith, le, max))))
        older in
    (
      t,
      run',
      get-newest_value t (insert_entry e es) at held' (AllUint64-insert_entry e es (omega arith) b)
            long
          ∙ ap outcome (newest-insert_entry at e seen es older'),
    )

-- The shard of a key and its table, ready for a put that the table's readers will see.
pub record Ready {V : Type 0} (e : LsmEngine V) (key value : Bytes) (ts snapshot height : ℕ)
    (shard : Shard) (es : List Entry) : Type 0 where
  pub is_open : e.closed ≡ false
  pub routed : get_elem? e.shards (shard_index key e) ≡ some shard
  pub holds : Holds shard.mem_table es
  pub timestamps : AllUint64 es
  pub key_nonempty : 0 < length key
  pub room : HasRoom shard.mem_table.arena
  pub fits : FitsBlock (new_mvcc_key key ts) (some (type_inline ∷ value))
  pub tall : 0 < height
  pub in_order : ts ≤ snapshot
  pub bounded : snapshot ≤ max_uint64
  pub older : OlderThan (new_mvcc_key key snapshot) ts es
  pub alone :
      (j : ℕ) (other : Shard)
      → get_elem? e.shards j ≡ some other
      → j ≢ shard_index key e
      → get (new_mvcc_key key snapshot) other.mem_table ≡ none

decode_inline :
    {V : Type 0} (stores : ValueStores V) (values : V) (value : Bytes)
    → decode_stored_value stores values (some (type_inline ∷ value)) ≡ ok (some value)
unfolding decode_stored_value is_valid_value_tag
decode_inline stores values value = refl

-- A put of a value of at most 64 bytes whose log record can be written succeeds on an open engine, and
-- a read of the key at the timestamp or later then returns the value. The key is not empty, its shard's
-- list is valid with room for the node, the versions there that the snapshot sees are older, and no
-- other shard answers for the key.
pub get_with_ts-put_with_ts :
    {V : Type 0} (stores : ValueStores V) (e : LsmEngine V) (key value wal : Bytes)
    (ts snapshot height : ℕ) (shard : Shard) (es : List Entry)
    → Ready e key value ts snapshot height shard es
    → length value ≤ max_inline_size
    → write (log_entry op_put key value ts) shard.wal ≡ some wal
    → (e' : LsmEngine V) × (put_with_ts stores key value ts height e ≡ some (none, e'))
      × (get_with_ts stores key snapshot e' ≡ ok (some value))
unfolding put_with_ts put_inline put_in_shard get_with_ts
get_with_ts-put_with_ts {V} stores e key value wal ts snapshot height shard es r small logged =
    let stored = type_inline ∷ value in
    let idx = shard_index key e in
    let (t, run, read_back) =
      get-put shard.mem_table es key stored ts snapshot height r.holds r.timestamps r.key_nonempty
        r.room r.fits r.tall r.in_order r.bounded r.older in
    let e' : LsmEngine V = record e {
      shards = set e.shards idx (record shard { wal = wal; mem_table = t });
      cache = update_last_commit_cache key ts e.cache;
    } in
    let fits : leb (length value) max_inline_size ≡ true = ground (arith, small) in
    let step : put_with_ts stores key value ts height e ≡ put_inline stores key value ts height e =
      choose_else e.closed _ _ r.is_open
      ∙ choose_then (leb (length value) max_inline_size) _ _ fits in
    let inner : put_inline stores key value ts height e
        ≡ committed key ts
            (put_in_shard (new_mvcc_key key ts) stored height idx (record shard { wal = wal }) e) =
      choose_some (get_elem? e.shards idx) _ _ shard r.routed
      ∙ choose_some (write (log_entry op_put key value ts) shard.wal) _ _ wal logged in
    let last : put_in_shard (new_mvcc_key key ts) stored height idx (record shard { wal = wal }) e
        ≡ some
            (record e { shards = set e.shards idx (record shard { wal = wal; mem_table = t }) }) =
      choose_some (put (new_mvcc_key key ts) (some stored) height shard.mem_table) _ _ (true, t)
        run in
    let found : find_in_tables (new_mvcc_key key snapshot) e'.shards ≡ some (some stored) =
      find_in_tables-set (new_mvcc_key key snapshot) (some stored) e.shards idx
        (record shard { wal = wal; mem_table = t }) (get_elem?-length e.shards idx shard r.routed)
        read_back r.alone in
    (
      e',
      step ∙ inner ∙ ap (committed key ts) last,
      rw (get_with_ts, r.is_open, found) (decode_inline stores e.values value),
    )

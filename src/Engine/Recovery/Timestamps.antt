-- ===== src/Engine/Recovery/Timestamps.antt =====
-- The timestamp that the engine resumes from.
use scoria_db.Base.{
  ℕ, ◌≤◌, ◌≡◌, refl, sym, ◌∙◌, ◌⊎◌, inl, inr, some, List, [], ◌∷◌, ◌++◌, arith, ltb, if◌then◌else◌,
  Bool-cases, All, ok, Any,
}
use scoria_db.Base.Bytes.{Bytes}
use scoria_db.Engine.Wal.{WalEntry, encode_wal_entry_to, max_wal_entry_size}
use scoria_db.Engine.Wal.Frame.{Fits}
use scoria_db.Engine.Wal.Recover.{write_all, replay, recover-write_all}
use scoria_db.Engine.Recovery.{MemTable, recover_entry, recover_from_wal, recover_state}

module _ {S : Type 0} (mem_table : MemTable S) (vlog_size : ℕ) (shard_id : ℕ)
    (shard_index : Bytes → ℕ) where
  replay_max :
      (entries : List WalEntry) (m : ℕ) (s : S)
      → (max : ℕ) × (s' : S) × (replay
            (recover_entry mem_table vlog_size shard_id shard_index)
            entries
            (m, s)
          ≡ ok (max, s'))
        × (m ≤ max)
        × All (λ entry. entry.timestamp ≤ max) entries
        × ((max ≡ m) ⊎ Any (λ entry. entry.timestamp ≡ max) entries)
  unfolding replay recover_entry
  replay_max [] m s = (m, s, refl, omega arith, tt, inl refl)
  replay_max (entry ∷ entries) m s =
      let m1 = if ltb m entry.timestamp then entry.timestamp else m in
      let s1 = recover_state mem_table vlog_size shard_id shard_index entry s in
      let (max, s', run, le, all, attained) = replay_max entries m1 s1 in
      (
        max,
        s',
        run,
        ground (arith, le),
        (ground (arith, le), all),
        elim attained [
          | inl q ↦ elim (Bool-cases (ltb m entry.timestamp)) [
            | inl y ↦ let g : m1 ≡ entry.timestamp = rw y refl in inr (inl (sym (q ∙ g)))
            | inr n ↦ let g : m1 ≡ m = rw n refl in inl (q ∙ g)
          ]
          | inr a ↦ inr (inr a)
        ],
      )

  -- Recovery of a log of written entries, behind which a crash has cut one more record short,
  -- succeeds, with a timestamp that no entry exceeds, and that is an entry's, or 0. The keys of the
  -- entries, the cut one too, are shorter than 2 ^ 16 bytes, the values than 2 ^ 32, and the
  -- timestamps are below 2 ^ 64.
  pub recovered_max :
      (entries : List WalEntry) (file : Bytes)
      → All Fits entries
      → write_all entries [] ≡ some file
      → (last : WalEntry) (x : ℕ) (front back : Bytes) → Fits last
      → encode_wal_entry_to last max_wal_entry_size ≡ some (front ++ (x ∷ back))
      → (s : S)
      → (max : ℕ) × (s' : S) × (recover_from_wal mem_table vlog_size shard_id shard_index
            (file ++ front)
            s
          ≡ ok (max, s'))
        × All (λ entry. entry.timestamp ≤ max) entries
        × ((max ≡ 0) ⊎ Any (λ entry. entry.timestamp ≡ max) entries)
  unfolding recover_from_wal
  recovered_max entries file h w last x front back f enc s =
      let (max, s', run, le, all, attained) = replay_max entries 0 s in
      (
        max,
        s',
        recover-write_all (recover_entry mem_table vlog_size shard_id shard_index) entries file h w
              last x front back f enc (0, s)
            ∙ run,
        all,
        attained,
      )

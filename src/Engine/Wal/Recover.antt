-- ===== src/Engine/Wal/Recover.antt =====
-- Recovery of a log: what was written is replayed in order, up to the first record that is cut
-- short or damaged.
use scoria_db.Base.{
  ℕ, zero, suc, ◌<◌, ◌≡◌, ◌∙◌, ◌≢◌, inl, inr, Option, none, some, List, [], ◌∷◌, ◌++◌, append-nil,
  append_assoc, arith, Option-cases, length, All, Result, ok, err, Result-cases,
}
use scoria_db.Base.Bytes.{Bytes}
use scoria_db.Engine.Wal.{
  WalEntry, RecoverError, callback_error, stuck, decode_wal_entry, encode_wal_entry_to,
  max_wal_entry_size, recover_loop, recover, write, ReadError,
}
use scoria_db.Engine.Wal.Frame.{
  Fits, decode_wal_entry-encoded, decode_wal_entry-extend, decode_wal_entry_cut,
}

-- Write of one entry after the other, to the end of the file.
unfoldable pub write_all : List WalEntry → Bytes → Option Bytes
write_all [] file = some file
write_all (entry ∷ entries) file = elim (write entry file) [
  | none ↦ none
  | some file' ↦ write_all entries file'
]

module _ {S E : Type 0} (cb : WalEntry → S → Result E S) where
  -- The callback on each entry, until it fails.
  unfoldable pub replay : List WalEntry → S → Result (RecoverError E) S
  replay [] s = ok s
  replay (entry ∷ entries) s = elim (cb entry s) [
    | ok s' ↦ replay entries s'
    | err e ↦ err (callback_error e)
  ]

  -- The loop ends at a record that cannot be read, without an error.
  recover_loop-unreadable :
      (fuel : ℕ) (r : Bytes) (s : S) (e : ReadError)
      → length r < fuel
      → decode_wal_entry r ≡ err e
      → recover_loop cb fuel r s ≡ ok s
  unfolding recover_loop
  recover_loop-unreadable zero r s e h q = elim h [ ]
  recover_loop-unreadable (suc fuel) r s e h q = ground (arith, q)

  recover_loop-ok :
      (fuel : ℕ) (r : Bytes) (s s' : S) (entry : WalEntry) (rest : Bytes)
      → decode_wal_entry r ≡ ok (entry, rest)
      → cb entry s ≡ ok s'
      → recover_loop cb (suc fuel) r s ≡ recover_loop cb fuel rest s'
  unfolding recover_loop
  recover_loop-ok fuel r s s' entry rest q q' = ground (arith, q, q')

  recover_loop-err :
      (fuel : ℕ) (r : Bytes) (s : S) (e : E) (entry : WalEntry) (rest : Bytes)
      → decode_wal_entry r ≡ ok (entry, rest)
      → cb entry s ≡ err e
      → recover_loop cb (suc fuel) r s ≡ err (callback_error e)
  unfolding recover_loop
  recover_loop-err fuel r s e entry rest q q' = ground (arith, q, q')

  recover_loop-ne-stuck :
      (fuel : ℕ) (r : Bytes) (s : S) → length r < fuel → recover_loop cb fuel r s ≢ err stuck
  recover_loop-ne-stuck zero r s h = elim h [ ]
  recover_loop-ne-stuck (suc fuel) r s h = elim (Result-cases (decode_wal_entry r)) [
    | inr (e, q) ↦ rw (recover_loop-unreadable (suc fuel) r s e h q) (λ p. cc)
    | inl ((entry, rest), q) ↦ elim (Result-cases (cb entry s)) [
      | inr (e, q') ↦ rw (recover_loop-err fuel r s e entry rest q q') (λ p. ground arith)
      | inl (s', q') ↦
          rw (recover_loop-ok fuel r s s' entry rest q q')
            (recover_loop-ne-stuck fuel rest s' (omega (arith, (decode_wal_entry-extend r [] q).1)))
    ]
  ]

  -- Recovery ends on every file, damaged or not.
  pub recover-ne-stuck : (file : Bytes) (s : S) → recover cb file s ≢ err stuck
  unfolding recover
  recover-ne-stuck file s = recover_loop-ne-stuck (suc (length file)) file s (omega arith)

  -- What Write appended, with anything unreadable behind it.
  abbrev Replays : List WalEntry → Bytes → Type 0
  Replays entries body =
      (fuel : ℕ) (tail : Bytes) (s : S) (e : ReadError)
      → length (body ++ tail) < fuel
      → decode_wal_entry tail ≡ err e
      → recover_loop cb fuel (body ++ tail) s ≡ replay entries s

  Replays-cons :
      (entry : WalEntry) (entries : List WalEntry) (bytes body : Bytes)
      → Fits entry
      → encode_wal_entry_to entry max_wal_entry_size ≡ some bytes
      → Replays entries body
      → Replays (entry ∷ entries) (bytes ++ body)
  unfolding replay
  Replays-cons entry entries bytes body f enc ih zero tail s e h q = elim h [ ]
  Replays-cons entry entries bytes body f enc ih (suc fuel) tail s e h q =
      let step = decode_wal_entry-encoded entry f max_wal_entry_size bytes (body ++ tail) enc in
      let shorter = (decode_wal_entry-extend (bytes ++ (body ++ tail)) [] step).1 in
      let h' : length (bytes ++ (body ++ tail)) < suc fuel = rw append_assoc at h in
      rw append_assoc (elim (Result-cases (cb entry s)) [
        | inr (e', q') ↦
            recover_loop-err fuel _ s e' entry (body ++ tail) step q' ∙ ground (arith, q')
        | inl (s', q') ↦
            recover_loop-ok fuel _ s s' entry (body ++ tail) step q'
            ∙ ih fuel tail s' e (omega (arith, shorter, h')) q
            ∙ ground (arith, q')
      ])

  Replays-nil : Replays [] []
  unfolding replay
  Replays-nil fuel tail s e h q = recover_loop-unreadable fuel tail s e h q

  write_all-Replays :
      (entries : List WalEntry) (file file' : Bytes)
      → All Fits entries
      → write_all entries file ≡ some file'
      → (body : Bytes) × (file' ≡ file ++ body) × Replays entries body
  unfolding write_all write
  write_all-Replays [] file file' f w = ([], ground (arith, append-nil file), Replays-nil)
  write_all-Replays (entry ∷ entries) file file' (f, fs) w =
      elim (Option-cases (encode_wal_entry_to entry max_wal_entry_size)) [
        | inl q ↦ absurd (ground (arith, q))
        | inr (bytes, q) ↦
            let (body, e, r) =
              write_all-Replays entries (file ++ bytes) file' fs (ground (arith, q)) in
            (
              bytes ++ body,
              e ∙ append_assoc file bytes body,
              Replays-cons entry entries bytes body f q r,
            )
      ]

  -- The log after writes that all succeeded, followed by a record that a crash cut short at any
  -- place, is recovered as the entries in the order of the writes, and nothing else. The keys of the
  -- entries, the cut one too, are shorter than 2 ^ 16 bytes, the values than 2 ^ 32, and the
  -- timestamps are below 2 ^ 64.
  pub recover-write_all :
      (entries : List WalEntry) (file : Bytes)
      → All Fits entries
      → write_all entries [] ≡ some file
      → (last : WalEntry) (x : ℕ) (front back : Bytes) → Fits last
      → encode_wal_entry_to last max_wal_entry_size ≡ some (front ++ (x ∷ back))
      → (s : S) → recover cb (file ++ front) s ≡ replay entries s
  unfolding recover
  recover-write_all entries file fs w last x front back f enc s =
      let (body, e, r) = write_all-Replays entries [] file fs w in
      let (err_cut, cut) = decode_wal_entry_cut last max_wal_entry_size x front back f enc in
      rw e (r (suc (length (body ++ front))) front s err_cut (omega arith) cut)

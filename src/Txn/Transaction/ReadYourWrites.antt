-- ===== src/Txn/Transaction/ReadYourWrites.antt =====
-- A transaction reads its own last write of a key, and else its snapshot.
use scoria_db.Base.{
  subst, ℕ, ◌≡◌, refl, sym, ◌∙◌, inl, inr, false, Option, none, some, List, [], ◌∷◌, arith, ◌==◌,
  if◌then◌else◌, Option-cases, Result, ok,
}
use scoria_db.Base.Bytes.{Bytes}
use scoria_db.Base.Map.{Map, bytes_key, bytes_equal, lookup, lookup-insert}
use scoria_db.Txn.Batch.{op_put, op_delete}
use scoria_db.Txn.Interface.{Engine}
use scoria_db.Txn.Transaction.{
  TxnError, PendingOp, Transaction, put, delete, begin_txn, get, wrap_read,
}

pub data Write : Type 0 where
  put_of : Bytes → Option Bytes → Write
  delete_of : Bytes → Write

abbrev pub write_on : Write → Transaction → Transaction
write_on (put_of key value) tx = (put key value tx).1
write_on (delete_of key) tx = (delete key tx).1

-- The last write is the head.
abbrev pub written : List Write → Transaction → Transaction
written [] tx = tx
written (w ∷ earlier) tx = write_on w (written earlier tx)

-- The value that the last write of a key leaves, if there was one: nil for a delete.
abbrev pub latest : Bytes → List Write → Option (Option Bytes)
latest key [] = none
latest key (put_of k value ∷ earlier) =
    let before = latest key earlier in if bytes_equal k key then some value else before
latest key (delete_of k ∷ earlier) =
    let before = latest key earlier in if bytes_equal k key then some none else before

-- What Get returns for a write that is pending.
abbrev read_back : PendingOp → Option Bytes
read_back op = if op.op_type == op_delete then none else op.value

abbrev buffered : Option PendingOp → Option (Option Bytes)
buffered none = none
buffered (some op) = some (read_back op)

stays_open :
    (ws : List Write) (tx : Transaction)
    → tx.closed ≡ false
    → ((written ws tx).closed ≡ false) × ((written ws tx).start_ts ≡ tx.start_ts)
unfolding put delete
stays_open [] tx o = (o, refl)
stays_open (put_of k v ∷ ws) tx o = ground (arith, stays_open ws tx o)
stays_open (delete_of k ∷ ws) tx o = ground (arith, stays_open ws tx o)

buffered-written :
    (key : Bytes) (ws : List Write) (tx : Transaction)
    → tx.closed ≡ false
    → tx.writes ≡ []
    → buffered (lookup key (written ws tx).writes) ≡ latest key ws
unfolding put delete lookup
buffered-written key [] tx o e = rw e refl
buffered-written key (put_of k v ∷ ws) tx o e =
    let m = (written ws tx).writes in
    let op : PendingOp = record { op_type = op_put; key = k; value = v } in
    ground (arith, stays_open ws tx o, lookup-insert k key op m, buffered-written key ws tx o e)
buffered-written key (delete_of k ∷ ws) tx o e =
    let m = (written ws tx).writes in
    let op : PendingOp = record { op_type = op_delete; key = k; value = none } in
    ground (arith, stays_open ws tx o, lookup-insert k key op m, buffered-written key ws tx o e)

module _ {S E : Type 0} (engine : Engine S E) where
  abbrev answer : Option (Option Bytes) → Bytes → ℕ → S → Result (TxnError E) (Option Bytes) × S
  answer pending key ts s = elim pending [
    | some value ↦ (ok value, s)
    | none ↦ wrap_read engine (engine.get_with_ts key ts s)
  ]

  get-parts :
      (start_ts : ℕ) (writes : Map Bytes PendingOp) (key : Bytes) (s : S)
      → get engine key (record { start_ts = start_ts; writes = writes; closed = false }) s
        ≡ answer (buffered (lookup key writes)) key start_ts s
  unfolding get
  get-parts start_ts writes key s = elim (Option-cases (lookup key writes)) [
    | inl e ↦ rw e refl
    | inr (op, e) ↦ rw e refl
  ]

  get-open :
      (tx : Transaction) (key : Bytes) (s : S)
      → tx.closed ≡ false
      → get engine key tx s ≡ answer (buffered (lookup key tx.writes)) key tx.start_ts s
  get-open tx key s o =
      subst
        (λ b.
          get engine key (record tx { closed = b }) s
          ≡ answer (buffered (lookup key tx.writes)) key tx.start_ts s)
        (sym o) (get-parts tx.start_ts tx.writes key s)

  -- After any puts and deletes of a transaction that has begun at `start_ts`, Get returns for a key
  -- the value that its own last write of that key left, nil for a delete, and the engine's state
  -- stays as it is; and for a key that it has not written the engine's answer at `start_ts`.
  pub get-written :
      (start_ts : ℕ) (s : S) (ws : List Write) (key : Bytes)
      → let (tx, s') = begin_txn engine start_ts s in
        get engine key (written ws tx) s' ≡ elim (latest key ws) [
          | some value ↦ (ok value, s')
          | none ↦ wrap_read engine (engine.get_with_ts key start_ts s')
        ]
  unfolding begin_txn
  get-written start_ts s ws key =
      let (tx, s') = begin_txn engine start_ts s in
      let (o, t) = stays_open ws tx refl in
      get-open (written ws tx) key s' o ∙ rw (buffered-written key ws tx refl refl, t) refl

-- ===== src/Engine/WalGroup/Accepted.antt =====
-- What was accepted reaches the file, in order.
use scoria_db.Base.{
  subst, ℕ, zero, suc, ◌+◌, ◌-◌, ◌≤◌, ◌≡◌, refl, sym, ap, ◌∙◌, ◌≢◌, inl, inr, Bool, true, false,
  List, [], ◌∷◌, ◌++◌, append-nil, append_assoc, arith, leb, ◌==◌, if◌then◌else◌, Bool-cases,
  length, take, All, choose_else, choose_then,
}
use scoria_db.Base.Bytes.{Bytes}
use scoria_db.Engine.WalGroup.{
  new_group_commit_writer, GroupCommitWriter, written, Event, write_event, flush_event, tick_event,
  sync_event, close_event, flush_locked, append, write, tick, sync, close, step, run,
  group_commit_buf_size,
}

-- The data that Write takes without an error.
unfoldable pub accepted_by : Event → GroupCommitWriter → Bytes
unfolding write
accepted_by (write_event input out) w = if (write input out w).0 then input else []
accepted_by (flush_event out) w = []
accepted_by (tick_event out) w = []
accepted_by (sync_event succeeds) w = []
accepted_by (close_event out) w = []

unfoldable pub accepted : List Event → GroupCommitWriter → Bytes
unfolding accepted_by step
accepted [] w = []
accepted (e ∷ es) w = accepted_by e w ++ accepted es (step e w)

-- No write to the file fails, and no data is larger than the buffer.
abbrev pub IsSmooth : Event → Type 0
IsSmooth (write_event input out) = (out ≡ written) × (length input ≤ group_commit_buf_size)
IsSmooth (flush_event out) = out ≡ written
IsSmooth (tick_event out) = out ≡ written
IsSmooth (sync_event succeeds) = Unit {0}
IsSmooth (close_event out) = out ≡ written

-- A closed writer has nothing in its buffer.
abbrev pub IsDrained : GroupCommitWriter → Type 0
IsDrained w = w.closed ≡ true → w.buf ≡ []

nil_of_length : (bs : Bytes) → (length bs == 0) ≡ true → bs ≡ []
nil_of_length [] h = refl
nil_of_length (b ∷ bs) h =
    let z : (length (b ∷ bs) == 0) ≡ false = ground arith in ground (arith, h, z)

take-all : (n : ℕ) (bs : Bytes) → length bs ≤ n → take n bs ≡ bs
take-all zero [] h = refl
take-all (suc n) [] h = refl
take-all zero (b ∷ bs) h = absurd (omega (arith, h))
take-all (suc n) (b ∷ bs) h = ap (λ xs. b ∷ xs) (take-all n bs (omega (arith, h)))

-- A flush that does not fail moves the buffer to the file.
record Flushed (w : GroupCommitWriter) (r : Bool × GroupCommitWriter) : Type 0 where
  flag : r.0 ≡ true
  in_file : r.1.file ≡ w.file ++ w.buf
  empty : r.1.buf ≡ []
  same_closed : r.1.closed ≡ w.closed

flush-Flushed : (w : GroupCommitWriter) → Flushed w (flush_locked written w)
unfolding flush_locked
flush-Flushed w = elim (Bool-cases (length w.buf == 0)) [
  | inl y ↦
      let e = nil_of_length w.buf y in
      rw y (record {
        flag = refl;
        in_file = sym (append-nil w.file) ∙ ap (λ b. w.file ++ b) (sym e);
        empty = e;
        same_closed = refl;
      })
  | inr n ↦ rw n (record { flag = refl; in_file = refl; empty = refl; same_closed = refl })
]

-- What one event keeps: the file and the buffer behind it, with what is accepted.
abbrev Keeps : GroupCommitWriter → Bytes → GroupCommitWriter → Type 0
Keeps w more w' = (w'.file ++ w'.buf ≡ (w.file ++ w.buf) ++ more) × IsDrained w'

flush-Keeps : (w : GroupCommitWriter) → Keeps w [] (flush_locked written w).1
flush-Keeps w =
    let f = flush-Flushed w in
    (
      ap (λ b. (flush_locked written w).1.file ++ b) f.empty
          ∙ append-nil (flush_locked written w).1.file
          ∙ f.in_file
          ∙ sym (append-nil (w.file ++ w.buf)),
      λ c. f.empty,
    )

same-Keeps : (w : GroupCommitWriter) → IsDrained w → Keeps w [] w
same-Keeps w d = (sym (append-nil (w.file ++ w.buf)), d)

append-Keeps :
    (w : GroupCommitWriter) (input : Bytes)
    → length w.buf + length input ≤ group_commit_buf_size
    → w.closed ≡ false
    → Keeps w input (append input w)
append-Keeps w input h c = (
  ap (λ b. w.file ++ (w.buf ++ b))
        (take-all (group_commit_buf_size - length w.buf) input (omega (arith, h)))
      ∙ sym (append_assoc w.file w.buf input),
  λ d. absurd (true_ne (sym d ∙ c)),
)
  where
    true_ne : true ≢ false
    true_ne e = ground (arith, e)

write-full :
    (input : Bytes) (w : GroupCommitWriter)
    → w.closed ≡ false
    → leb (length w.buf + length input) group_commit_buf_size ≡ false
    → (flush_locked written w).0 ≡ true
    → write input written w ≡ (true, append input (flush_locked written w).1)
unfolding write
write-full input w n z f =
    choose_else w.closed _ _ n
    ∙ choose_else (leb (length w.buf + length input) group_commit_buf_size) _ _ z
    ∙ choose_then (flush_locked written w).0 _ _ f

tick-open : (w : GroupCommitWriter) → w.closed ≡ false → tick written w ≡ (flush_locked written w).1
unfolding tick
tick-open w n = choose_else w.closed _ _ n

close-open :
    (w : GroupCommitWriter)
    → w.closed ≡ false
    → close written w ≡ flush_locked written (record w { closed = true })
unfolding close
close-open w n = choose_else w.closed _ _ n

step-Keeps :
    (e : Event) (w : GroupCommitWriter)
    → IsSmooth e
    → IsDrained w
    → Keeps w (accepted_by e w) (step e w)
unfolding step accepted_by write tick sync close
step-Keeps (flush_event out) w s d = rw s (flush-Keeps w)
step-Keeps (sync_event succeeds) w s d = elim (Bool-cases w.sync_pending) [
  | inl y ↦ elim (Bool-cases succeeds) [
    | inl z ↦ rw (sync, y, z) (same-Keeps w d)
    | inr z ↦ rw (sync, y, z) (same-Keeps w d)
  ]
  | inr n ↦ rw (sync, n) (same-Keeps w d)
]
step-Keeps (tick_event out) w s d = elim (Bool-cases w.closed) [
  | inl y ↦
      let q : tick out w ≡ w = rw (tick, y) refl in subst (Keeps w []) (sym q) (same-Keeps w d)
  | inr n ↦
      let q : tick out w ≡ (flush_locked written w).1 = rw s (tick-open w n) in
      subst (Keeps w []) (sym q) (flush-Keeps w)
]
step-Keeps (close_event out) w s d = elim (Bool-cases w.closed) [
  | inl y ↦
      let q : (close out w).1 ≡ w = rw (close, y) refl in
      subst (Keeps w []) (sym q) (same-Keeps w d)
  | inr n ↦
      let q : (close out w).1 ≡ (flush_locked written (record w { closed = true })).1 =
        rw s (ap {B = GroupCommitWriter} (λ r. r.1) (close-open w n)) in
      subst (Keeps w []) (sym q) (flush-Keeps (record w { closed = true }))
]
step-Keeps (write_event input out) w (s, h) d = elim (Bool-cases w.closed) [
  | inl y ↦
      let q : write input out w ≡ (false, w) = rw (write, y) refl in
      subst (λ r. Keeps w (if r.0 then input else []) r.1) (sym q) (same-Keeps w d)
  | inr n ↦ elim (Bool-cases (leb (length w.buf + length input) group_commit_buf_size)) [
    | inl y ↦
        let q : write input out w ≡ (true, append input w) = rw (write, n, y) refl in
        subst (λ r. Keeps w (if r.0 then input else []) r.1) (sym q)
          (append-Keeps w input (ground (arith, y)) n)
    | inr z ↦
        let f = flush-Flushed w in
        let r = flush_locked written w in
        let q : write input out w ≡ (true, append input r.1) =
          rw s (write-full input w n z f.flag) in
        let fits : length r.1.buf + length input ≤ group_commit_buf_size =
          rw f.empty (omega (arith, h)) in
        let next = append-Keeps r.1 input fits (f.same_closed ∙ n) in
        let base : r.1.file ++ r.1.buf ≡ w.file ++ w.buf =
          (flush-Keeps w).0 ∙ append-nil (w.file ++ w.buf) in
        subst (λ t. Keeps w (if t.0 then input else []) t.1) (sym q)
          (next.0 ∙ ap (λ b. b ++ input) base, next.1)
  ]
]

run-Keeps :
    (es : List Event) (w : GroupCommitWriter)
    → All IsSmooth es
    → IsDrained w
    → Keeps w (accepted es w) (run es w)
unfolding run accepted
run-Keeps [] w s d = same-Keeps w d
run-Keeps (e ∷ es) w (s, ss) d =
    let (now, d') = step-Keeps e w s d in
    let (rest, d'') = run-Keeps es (step e w) ss d' in
    (
      rest
          ∙ ap (λ b. b ++ accepted es (step e w)) now
          ∙ append_assoc (w.file ++ w.buf) (accepted_by e w) (accepted es (step e w)),
      d'',
    )

-- While no write to the file fails and no data is larger than the buffer, the next round of the flush
-- loop leaves in the file, behind what was there, all that Write has accepted, in its order.
pub tick-accepted :
    (file : Bytes) (sync_mode : Bool) (es : List Event)
    → All IsSmooth es
    → (tick written (run es (new_group_commit_writer file sync_mode))).file
      ≡ file ++ accepted es (new_group_commit_writer file sync_mode)
unfolding tick
tick-accepted file sync_mode es s =
    let w = new_group_commit_writer file sync_mode in
    let (whole, drained) = run-Keeps es w s (λ c. refl) in
    let end = run es w in
    let base : end.file ++ end.buf ≡ file ++ accepted es w =
      whole ∙ ap (λ b. b ++ accepted es w) (append-nil file) in
    elim (Bool-cases end.closed) [
      | inl y ↦
          let q : tick written end ≡ end = rw (tick, y) refl in
          ap GroupCommitWriter.file q
          ∙ sym (append-nil end.file)
          ∙ ap (λ b. end.file ++ b) (sym (drained y))
          ∙ base
      | inr n ↦
          let q : tick written end ≡ (flush_locked written end).1 = tick-open end n in
          ap GroupCommitWriter.file q ∙ (flush-Flushed end).in_file ∙ base
    ]

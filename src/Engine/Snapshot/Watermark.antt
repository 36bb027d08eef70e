-- ===== src/Engine/Snapshot/Watermark.antt =====
-- The watermark is the least timestamp of an active snapshot, and every holder counts.
use scoria_db.Base.{
  ℕ, ◌+◌, ◌-◌, ◌≤◌, ◌<◌, ◌≡◌, refl, ◌∙◌, ◌≢◌, ◌⊎◌, inl, inr, false, none, some, List, [], ◌∷◌,
  arith, ◌==◌, if◌then◌else◌, Option-cases, All,
}
use scoria_db.Base.Map.{Map, nat_key, lookup, lookup-insert, lookup-delete}
use scoria_db.Engine.Snapshot.{
  SnapshotRegistry, new_snapshot_registry, count_or_zero, register_snapshot, unregister_snapshot,
  min_loop, recompute_min_locked, remove_reference,
}

pub record IsValid (r : SnapshotRegistry) : Type 0 where
  -- Every count is positive, and the watermark is at most every active timestamp.
  pub lower :
      (ts count : ℕ) → lookup ts r.counts ≡ some count → (0 < count) × (0 < ts) × (r.min ≤ ts)
  -- The watermark is itself active, or it is 0 and nothing is active.
  pub attained : (lookup r.min r.counts ≢ none) ⊎ ((r.min ≡ 0) × (r.counts ≡ []))

min_loop-le : (counts : Map ℕ ℕ) (acc : ℕ) → min_loop counts acc false ≤ acc
unfolding min_loop
min_loop-le [] acc = omega arith
min_loop-le ((k, c) ∷ counts) acc = ground (arith, min_loop-le counts k, min_loop-le counts acc)

-- What the loop returns is at most every key.
min_loop_least :
    (counts : Map ℕ ℕ) (acc ts count : ℕ)
    → lookup ts counts ≡ some count
    → min_loop counts acc false ≤ ts
unfolding min_loop lookup
min_loop_least [] acc ts count h = cc
min_loop_least ((k, c) ∷ counts) acc ts count h = ground (
  arith,
  min_loop-le counts k,
  min_loop-le counts acc,
  min_loop_least counts k ts count,
  min_loop_least counts acc ts count,
)

-- It is a key, or the value that the loop began with.
min_loop_attained :
    (counts : Map ℕ ℕ) (acc : ℕ)
    → (lookup (min_loop counts acc false) counts ≢ none) ⊎ (min_loop counts acc false ≡ acc)
unfolding min_loop lookup
min_loop_attained [] acc = inr refl
min_loop_attained ((k, c) ∷ counts) acc =
    ground (arith, min_loop_attained counts k, min_loop_attained counts acc)

-- A watermark of 0 says that nothing is active.
pub idle : (r : SnapshotRegistry) → IsValid r → r.min ≡ 0 → r.counts ≡ []
idle r v z = elim v.attained [
  | inr (_, e) ↦ e
  | inl active ↦ elim (Option-cases (lookup r.min r.counts)) [
    | inl e ↦ absurd (active e)
    | inr (count, e) ↦ absurd (omega (arith, v.lower r.min count e))
  ]
]

lookup-idle : (r : SnapshotRegistry) (ts : ℕ) → r.counts ≡ [] → lookup ts r.counts ≡ none
unfolding lookup
lookup-idle r ts e = rw e

register-lower :
    (ts : ℕ) (r : SnapshotRegistry) (ts' count : ℕ)
    → 0 < ts
    → IsValid r
    → lookup ts' (register_snapshot ts r).counts ≡ some count
    → (0 < count) × (0 < ts') × ((register_snapshot ts r).min ≤ ts')
unfolding register_snapshot
register-lower ts r ts' count h v e = ground (
  arith,
  lookup-insert ts ts' (count_or_zero (lookup ts r.counts) + 1) r.counts,
  idle r v,
  lookup-idle r ts',
  v.lower ts' count,
)

register-attained :
    (ts : ℕ) (r : SnapshotRegistry)
    → IsValid r
    → lookup (register_snapshot ts r).min (register_snapshot ts r).counts ≢ none
unfolding register_snapshot
register-attained ts r v = ground (
  arith,
  lookup-insert ts ts (count_or_zero (lookup ts r.counts) + 1) r.counts,
  lookup-insert ts r.min (count_or_zero (lookup ts r.counts) + 1) r.counts,
  v.attained,
)

pub register_snapshot-IsValid :
    (ts : ℕ) (r : SnapshotRegistry) → 0 < ts → IsValid r → IsValid (register_snapshot ts r)
register_snapshot-IsValid ts r h v = record {
  lower = λ ts' count e. register-lower ts r ts' count h v e;
  attained = inl (register-attained ts r v);
}

-- Whatever the watermark was, recomputing it from positive counts makes the registry valid.
recompute-IsValid :
    (counts : Map ℕ ℕ) (min : ℕ)
    → ((ts count : ℕ) → lookup ts counts ≡ some count → (0 < count) × (0 < ts))
    → IsValid (recompute_min_locked (record { counts = counts; min = min }))
unfolding recompute_min_locked lookup
recompute-IsValid [] min positive = record {
  lower = λ ts count e. absurd (ground (arith, e));
  attained = inr (refl, refl);
}
recompute-IsValid ((k, c) ∷ counts) min positive = record {
  lower = λ ts count e.
      let p = positive ts count e in
      (p.0, p.1, ground (arith, e, min_loop-le counts k, min_loop_least counts k ts count));
  attained = inl (ground (arith, min_loop_attained counts k));
}

remove-positive :
    (ts count : ℕ) (counts : Map ℕ ℕ) (ts' count' : ℕ)
    → ((k c : ℕ) → lookup k counts ≡ some c → (0 < c) × (0 < k))
    → lookup ts counts ≡ some count
    → lookup ts' (remove_reference ts count counts) ≡ some count'
    → (0 < count') × (0 < ts')
unfolding remove_reference
remove-positive ts count counts ts' count' positive e e' = ground (
  arith,
  lookup-insert ts ts' (count - 1) counts,
  lookup-delete ts ts' counts,
  positive ts count,
  positive ts' count',
)

pub unregister_snapshot-IsValid :
    (ts : ℕ) (r : SnapshotRegistry) → IsValid r → IsValid (unregister_snapshot ts r)
unfolding unregister_snapshot
unregister_snapshot-IsValid ts r v = elim (Option-cases (lookup ts r.counts)) [
  | inl e ↦ rw (e, unregister_snapshot) v
  | inr (count, e) ↦
      rw (e, unregister_snapshot)
        (recompute-IsValid (remove_reference ts count r.counts) r.min (λ ts' count' e'.
          remove-positive ts count r.counts ts' count'
            (λ k c q. let x = v.lower k c q in (x.0, x.1)) e e'))
]

-- What a caller does with the registry.
pub data Event : Type 0 where
  registers unregisters : ℕ → Event

abbrev pub handle : Event → SnapshotRegistry → SnapshotRegistry
handle (registers ts) r = register_snapshot ts r
handle (unregisters ts) r = unregister_snapshot ts r

-- The events, the last one first.
unfoldable pub run : List Event → SnapshotRegistry
run [] = new_snapshot_registry
run (event ∷ earlier) = handle event (run earlier)

-- How many holders of a timestamp there are: an unregistration with no holder does nothing.
unfoldable pub holders : ℕ → List Event → ℕ
holders ts [] = 0
holders ts (registers k ∷ earlier) = if k == ts then holders ts earlier + 1 else holders ts earlier
holders ts (unregisters k ∷ earlier) =
    if k == ts then holders ts earlier - 1 else holders ts earlier

abbrev pub IsStarted : Event → Type 0
IsStarted (registers ts) = 0 < ts
IsStarted (unregisters ts) = Unit

run-IsValid : (events : List Event) → All IsStarted events → IsValid (run events)
unfolding run new_snapshot_registry lookup
run-IsValid [] h = record {
  lower = λ ts count e. absurd (ground (arith, e));
  attained = inr (refl, refl);
}
run-IsValid (registers ts ∷ earlier) (p, h) =
    register_snapshot-IsValid ts (run earlier) p (run-IsValid earlier h)
run-IsValid (unregisters ts ∷ earlier) (p, h) =
    unregister_snapshot-IsValid ts (run earlier) (run-IsValid earlier h)

count_or_zero-register :
    (k ts : ℕ) (r : SnapshotRegistry)
    → count_or_zero (lookup ts (register_snapshot k r).counts) ≡ (
        if k == ts
        then count_or_zero (lookup ts r.counts) + 1
        else count_or_zero (lookup ts r.counts))
unfolding register_snapshot
count_or_zero-register k ts r =
    ground (arith, lookup-insert k ts (count_or_zero (lookup k r.counts) + 1) r.counts)

count_or_zero-unregister :
    (k ts : ℕ) (r : SnapshotRegistry)
    → IsValid r
    → count_or_zero (lookup ts (unregister_snapshot k r).counts) ≡ (
        if k == ts
        then count_or_zero (lookup ts r.counts) - 1
        else count_or_zero (lookup ts r.counts))
unfolding unregister_snapshot
count_or_zero-unregister k ts r v = elim (Option-cases (lookup k r.counts)) [
  | inl e ↦ rw (e, unregister_snapshot) (ground (arith, e))
  | inr (count, e) ↦
      rw (e, unregister_snapshot)
        (unfold remove_reference in
          ground (
            arith,
            e,
            lookup-insert k ts (count - 1) r.counts,
            lookup-delete k ts r.counts,
            v.lower k count e,
          ))
]

holders-run :
    (ts : ℕ) (events : List Event)
    → All IsStarted events
    → count_or_zero (lookup ts (run events).counts) ≡ holders ts events
unfolding run holders new_snapshot_registry lookup
holders-run ts [] h = refl
holders-run ts (registers k ∷ earlier) (p, h) =
    count_or_zero-register k ts (run earlier) ∙ ground (arith, holders-run ts earlier h)
holders-run ts (unregisters k ∷ earlier) (p, h) =
    count_or_zero-unregister k ts (run earlier) (run-IsValid earlier h)
    ∙ ground (arith, holders-run ts earlier h)

bounded :
    (r : SnapshotRegistry) (ts : ℕ)
    → IsValid r
    → 0 < count_or_zero (lookup ts r.counts)
    → (r.min ≤ ts) × (0 < r.min)
bounded r ts v held = elim (Option-cases (lookup ts r.counts)) [
  | inl e ↦ absurd (ground (arith, e, held))
  | inr (count, e) ↦ ((v.lower ts count e).2, ground (arith, e, idle r v, lookup-idle r ts))
]

held_min :
    (r : SnapshotRegistry) → IsValid r → r.min ≢ 0 → 0 < count_or_zero (lookup r.min r.counts)
held_min r v busy = elim (Option-cases (lookup r.min r.counts)) [
  | inl e ↦ absurd (ground (arith, e, v.attained, busy))
  | inr (count, e) ↦ ground (arith, e, v.lower r.min count e)
]

-- After any registrations at timestamps above 0 and any unregistrations, matched or not, the
-- watermark is at most every timestamp that still has a holder, and above 0 if there is one; and
-- if it is not 0, it has a holder itself.
pub watermark :
    (events : List Event)
    → All IsStarted events
    → ((ts : ℕ) → 0 < holders ts events → ((run events).min ≤ ts) × (0 < (run events).min))
      × ((run events).min ≢ 0 → 0 < holders (run events).min events)
watermark events h =
    let v = run-IsValid events h in
    (
      λ ts held. bounded (run events) ts v (rw (holders-run ts events h) held),
      λ busy. rw (holders-run (run events).min events h) at (held_min (run events) v busy),
    )

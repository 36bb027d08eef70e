-- ===== src/Engine/MvccIterator.antt =====
-- internal/engine/mvcc_iterator.go: the filter that shows one version of each user key. The inner
-- iterator is the list of the versions that it has still to yield, and the one it stands on.
pub mod Visible
pub mod Rounds
pub mod Drain
mod Runs
use scoria_db.Base.{
  ℕ, zero, suc, ◌+◌, Bool, true, false, not, ◌&&◌, Option, none, some, List, [], ◌∷◌, if◌then◌else◌,
  length,
}
use scoria_db.Base.Bytes.{Bytes}
use scoria_db.Base.Map.{bytes_equal}

-- What Key, Value and IsDeleted of the inner iterator return at one position; a slice may be nil.
pub record Version : Type 0 where
  pub key : Option Bytes
  pub value : Option Bytes
  pub is_deleted : Bool

pub record Inner : Type 0 where
  pub current : Option Version
  pub ahead : List Version

-- MVCCIterator; `err` is never set.
pub record MvccIterator : Type 0 where
  pub inner : Inner
  pub key : Option Bytes
  pub value : Option Bytes
  pub ended : Bool
  pub peeked : Bool

abbrev pub new_mvcc_iterator : List Version → MvccIterator
new_mvcc_iterator versions = record {
  inner = record { current = none; ahead = versions };
  key = none;
  value = none;
  ended = false;
  peeked = false;
}

abbrev pub content : Option Bytes → Bytes
content none = []
content (some bytes) = bytes

-- bytes.Equal, for which nil is empty
abbrev pub same_user_key : Version → Version → Bool
same_user_key v w = bytes_equal (content w.key) (content v.key)

-- What the inner loop carries: bestValue, found and hasTombstone.
pub record Scan : Type 0 where
  pub best_value : Option Bytes
  pub found : Bool
  pub has_tombstone : Bool

-- One version in the inner loop.
unfoldable pub note_version : Version → Scan → Scan
note_version v s =
    if v.is_deleted
    then record s { has_tombstone = true }
    else record { best_value = v.value; found = true; has_tombstone = false }

-- The inner loop, which stands on `v` and started on `first`: what it found, where the inner
-- iterator stands, and whether it has ended (else the next key is peeked).
unfoldable pub scan_versions : Version → Version → List Version → Scan → Scan × Inner × Bool
unfolding note_version
scan_versions first v [] s = (note_version v s, record { current = some v; ahead = [] }, true)
scan_versions first v (w ∷ ahead) s =
    let rest = scan_versions first w ahead (note_version v s) in
    if same_user_key first w
    then rest
    else (note_version v s, record { current = some w; ahead = ahead }, false)

-- The test behind the inner loop: the pair to show, if any.
unfoldable pub shown : Version → Scan → Option Bytes
shown first s = if s.found && not s.has_tombstone then s.best_value else none

-- `inner.Next()`
unfoldable pub inner_next : List Version → Option (Version × List Version)
inner_next [] = none
inner_next (v ∷ ahead) = some (v, ahead)

-- The version to start from: the peeked one, or the next of the inner iterator.
unfoldable pub advance : MvccIterator → Option (Version × List Version)
unfolding inner_next
advance it =
    if it.peeked
    then (elim it.inner.current [ none ↦ none | some v ↦ some (v, it.inner.ahead) ])
    else inner_next it.inner.ahead

abbrev pub empty_scan : Scan
empty_scan = record { best_value = none; found = false; has_tombstone = false }

-- The iterator behind the inner loop: it has ended, or it has peeked at the next key.
abbrev pub after_scan : MvccIterator → Inner → Bool → MvccIterator
after_scan it inner ended = record it { inner = inner; ended = ended; peeked = not ended }

-- The outer loop of Next. `none` is no Go value: the fuel ran out.
unfoldable pub next_loop : ℕ → MvccIterator → Option (MvccIterator × Bool)
unfolding advance scan_versions shown
next_loop zero it = none
next_loop (suc fuel) it = elim (advance it) [
  | none ↦ some (record it { ended = true; peeked = false }, false)
  | some (v, ahead) ↦ elim v.key [
    | none ↦
        next_loop fuel
          (record it { inner = record { current = some v; ahead = ahead }; peeked = false })
    | some key ↦
        let (s, inner, ended) = scan_versions v v ahead empty_scan in
        elim (shown v s) [
          | some value ↦
              some (record (after_scan it inner ended) { key = some key; value = some value }, true)
          | none ↦ next_loop fuel (after_scan it inner ended)
        ]
  ]
]

-- Each round takes one version at least.
unfoldable pub next : MvccIterator → Option (MvccIterator × Bool)
unfolding next_loop
next it = if it.ended then some (it, false) else next_loop (length it.inner.ahead + 2) it

-- A caller's loop `for it.Next() { use(it.Key(), it.Value()) }`, over a bound on its rounds.
unfoldable pub drain : ℕ → MvccIterator → Option (List (Bytes × Bytes))
unfolding next
drain zero it = none
drain (suc fuel) it = elim (next it) [
  | none ↦ none
  | some (it', false) ↦ some []
  | some (it', true) ↦ elim (drain fuel it') [
    | none ↦ none
    | some pairs ↦ some ((content it'.key, content it'.value) ∷ pairs)
  ]
]

-- ===== src/Engine/MvccIterator/Visible.antt =====
-- What a scan through the filter shows, against the last version of each run of equal keys.
use scoria_db.Base.{
  ◌≤◌, ◌≡◌, refl, sym, ap, ◌∙◌, ◌≢◌, inl, inr, Bool, true, false, Option, none, some, List, [], ◌∷◌,
  ◌++◌, append-nil, arith, if◌then◌else◌, Bool-cases, length, All,
}
use scoria_db.Base.Bytes.{Bytes}
use scoria_db.Base.Map.{bytes_equal, bytes_equal_iff}
use scoria_db.Engine.MvccIterator.{
  Version, Inner, Scan, content, same_user_key, note_version, scan_versions, shown,
}

-- What a version adds to a scan if it is the newest of its key.
abbrev pub pair_of : Bytes → Option Bytes → List (Bytes × Bytes)
pair_of k none = []
pair_of k (some x) = (k, x) ∷ []

abbrev pub live_pair : Version → List (Bytes × Bytes)
live_pair v = elim v.key [ none ↦ [] | some k ↦ if v.is_deleted then [] else pair_of k v.value ]

-- Of each run of versions of one user key the last one alone counts.
unfoldable pub visible : List Version → List (Bytes × Bytes)
visible [] = []
visible (v ∷ []) = live_pair v
visible (v ∷ (w ∷ rest)) =
    let later = visible (w ∷ rest) in if same_user_key v w then later else live_pair v ++ later

-- A key is nil or not empty: an empty key is stored as nil.
abbrev pub IsProper : Version → Type 0
IsProper v = v.key ≢ some []

abbrev pub left_over : Inner × Bool → List Version
left_over (inner, true) = inner.ahead
left_over (inner, false) = elim inner.current [ none ↦ [] | some w ↦ w ∷ inner.ahead ]

key_of_content : (v : Version) (k : Bytes) → k ≢ [] → content v.key ≡ k → v.key ≡ some k
key_of_content v k ne e = ground (arith, e, ne)

shown_last :
    (first v : Version) (s : Scan) (k : Bytes)
    → v.key ≡ some k
    → pair_of k (shown first (note_version v s)) ≡ live_pair v
unfolding shown note_version
shown_last first v s k e = ground (arith, e)

same_key :
    (first w : Version) (k : Bytes)
    → first.key ≡ some k
    → k ≢ []
    → same_user_key first w ≡ true
    → w.key ≡ some k
same_key first w k f ne y =
    key_of_content w k ne ((bytes_equal_iff (content w.key) (content first.key)).0 y ∙ ap content f)

same_key_as :
    (first v w : Version) (k : Bytes)
    → first.key ≡ some k
    → v.key ≡ some k
    → same_user_key v w ≡ same_user_key first w
same_key_as first v w k f e = ap (λ x. bytes_equal (content w.key) (content x)) (e ∙ sym f)

pub scan-visible :
    (first v : Version) (k : Bytes) (ahead : List Version) (s : Scan)
    → first.key ≡ some k
    → v.key ≡ some k
    → k ≢ []
    → All IsProper ahead
    → let r = scan_versions first v ahead s in
      (visible (v ∷ ahead) ≡ pair_of k (shown first r.0) ++ visible (left_over (r.1, r.2)))
      × (length (left_over (r.1, r.2)) ≤ length ahead)
      × All IsProper (left_over (r.1, r.2))
      × ((r.2 ≡ true) → left_over (r.1, r.2) ≡ [])
unfolding scan_versions visible
scan-visible first v k [] s f e ne h = (
  sym (append-nil (pair_of k (shown first (note_version v s))) ∙ shown_last first v s k e),
  omega arith,
  tt,
  λ _. refl,
)
scan-visible first v k (w ∷ ahead) s f e ne (p, h) = elim (Bool-cases (same_user_key first w)) [
  | inl y ↦
      let g = same_key first w k f ne y in
      let (a, b, c, d) = scan-visible first w k ahead (note_version v s) f g ne h in
      rw (same_key_as first v w k f e, y) (a, omega (arith, b), c, d)
  | inr n ↦
      rw (same_key_as first v w k f e, n, shown_last first v s k e)
        (refl, omega arith, (p, h), λ q. ground (arith, q))
]

pub visible-nil_key :
    (v : Version) (ahead : List Version) → v.key ≡ none → visible (v ∷ ahead) ≡ visible ahead
unfolding visible
visible-nil_key v [] e = ground (arith, e)
visible-nil_key v (w ∷ ahead) e = ground (arith, e)

-- ===== src/Engine/Sstable/Writer/Appended.antt =====
-- What a writer knows of the entries that were appended, and the order that sort.Slice leaves.
use scoria_db.Base.{
  ◌≡◌, refl, sym, ap, ◌∙◌, ◌≢◌, true, false, Option, none, some, List, [], ◌∷◌, ◌++◌, append-nil,
  append_assoc, arith, Ordering, All, All-append, All-map,
}
use scoria_db.Base.Bytes.{Bytes}
use scoria_db.Keys.Order.{lex, lex_trans, lex-opposite, lex_refl, compare_keys-eq-lex}
use scoria_db.Engine.Sstable.Bloom.{BloomFilter, may_contain}
use scoria_db.Engine.Sstable.Bloom.Members.{IsUsable, add-IsAdded}
use scoria_db.Engine.Sstable.Entry.{RawEntry}
use scoria_db.Engine.Sstable.Writer.{
  Writer, lower_key, upper_key, append_internal, entry_less, new_writer,
}

-- No entry is less than one before it.
abbrev pub IsSorted : List RawEntry → Type 0
IsSorted [] = Unit
IsSorted (e ∷ es) = All (λ f. entry_less f e ≡ false) es × IsSorted es

-- A bound that is there, and that the key does not pass.
unfoldable pub IsAbove : Option Bytes → Bytes → Type 0
IsAbove none key = ⊥
IsAbove (some min) key = lex key min ≢ Ordering.lt

unfoldable pub IsBelow : Option Bytes → Bytes → Type 0
IsBelow none key = ⊥
IsBelow (some max) key = lex key max ≢ Ordering.gt

-- The invariant of a writer: its filter denies no entry's key, and its bounds hold for all of them.
pub record IsWriter (w : Writer) : Type 0 where
  pub usable : IsUsable w.bloom
  pub found : All (λ e. may_contain w.bloom e.key.key ≡ some true) w.entries
  pub low : All (λ e. IsAbove w.min_key e.key.key) w.entries
  pub high : All (λ e. IsBelow w.max_key e.key.key) w.entries

pub new_writer-IsWriter : (b : BloomFilter) → IsUsable b → IsWriter (new_writer b)
unfolding new_writer
new_writer-IsWriter b u = record { usable = u; found = tt; low = tt; high = tt }

lower_key-own : (key : Bytes) (bound : Option Bytes) → IsAbove (some (lower_key key bound)) key
unfolding lower_key IsAbove
lower_key-own key none h = ground (arith, h, lex_refl key)
lower_key-own key (some min) h = ground (arith, h, lex_refl key, compare_keys-eq-lex key min)

lower_key-other :
    (key other : Bytes) (bound : Option Bytes)
    → IsAbove bound other
    → IsAbove (some (lower_key key bound)) other
unfolding lower_key IsAbove
lower_key-other key other none p h = absurd p
lower_key-other key other (some min) p h =
    ground (arith, p, h, compare_keys-eq-lex key min, lex_trans other key min)

upper_key-own : (key : Bytes) (bound : Option Bytes) → IsBelow (some (upper_key key bound)) key
unfolding upper_key IsBelow
upper_key-own key none h = ground (arith, h, lex_refl key)
upper_key-own key (some max) h = ground (arith, h, lex_refl key, compare_keys-eq-lex key max)

upper_key-other :
    (key other : Bytes) (bound : Option Bytes)
    → IsBelow bound other
    → IsBelow (some (upper_key key bound)) other
unfolding upper_key IsBelow
upper_key-other key other none p h = absurd p
upper_key-other key other (some max) p h = ground (
  arith,
  p,
  h,
  compare_keys-eq-lex key max,
  lex-opposite other key,
  lex-opposite key max,
  lex-opposite other max,
  lex_trans max key other,
)

-- Appending an entry to a writer succeeds and keeps the invariant; the entry stands behind the others.
pub append_internal-IsWriter :
    (e : RawEntry) (w : Writer)
    → IsWriter w
    → (w' : Writer) × (append_internal e w ≡ some w')
      × IsWriter w'
      × (w'.entries ≡ w.entries ++ (e ∷ []))
unfolding append_internal
append_internal-IsWriter e w h =
    let (b, added, a) = add-IsAdded e.key.key w.bloom h.usable in
    let after : Writer = record {
      entries = w.entries ++ (e ∷ []);
      bloom = b;
      min_key = some (lower_key e.key.key w.min_key);
      max_key = some (upper_key e.key.key w.max_key);
    } in
    (
      after,
      rw (added, append_internal) refl,
      record {
        usable = a.usable;
        found =
            All-append (λ f. may_contain b f.key.key ≡ some true) w.entries (e ∷ [])
              (All-map (λ f q. a.kept f.key.key q) w.entries h.found) (a.found, tt);
        low =
            All-append (λ f. IsAbove after.min_key f.key.key) w.entries (e ∷ [])
              (All-map (λ f q. lower_key-other e.key.key f.key.key w.min_key q) w.entries h.low)
              (lower_key-own e.key.key w.min_key, tt);
        high =
            All-append (λ f. IsBelow after.max_key f.key.key) w.entries (e ∷ [])
              (All-map (λ f q. upper_key-other e.key.key f.key.key w.max_key q) w.entries h.high)
              (upper_key-own e.key.key w.max_key, tt);
      },
      refl,
    )

-- A caller's calls of Append and AppendTagged, one for each entry.
unfoldable pub append_all : List RawEntry → Writer → Option Writer
append_all [] w = some w
append_all (e ∷ es) w = elim (append_internal e w) [ none ↦ none | some w' ↦ append_all es w' ]

pub append_all-IsWriter :
    (es : List RawEntry) (w : Writer)
    → IsWriter w
    → (w' : Writer) × (append_all es w ≡ some w') × IsWriter w' × (w'.entries ≡ w.entries ++ es)
unfolding append_all
append_all-IsWriter [] w h = (w, refl, h, sym (append-nil w.entries))
append_all-IsWriter (e ∷ es) w h =
    let (next, p, n, q) = append_internal-IsWriter e w h in
    let (w', p', n', q') = append_all-IsWriter es next n in
    (w', rw (p, append_all) p', n', q' ∙ ap (λ l. l ++ es) q ∙ append_assoc w.entries (e ∷ []) es)

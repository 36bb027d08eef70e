-- ===== src/Engine/Sstable/Entry/Sequence.antt =====
-- The entries of a block, one behind the other.
use scoria_db.Base.{
  ◌≤◌, ◌≡◌, sym, ap, ◌∙◌, List, [], ◌∷◌, ◌++◌, append-nil, append_assoc, arith, length,
  length-append,
}
use scoria_db.Base.Bytes.{Bytes}
use scoria_db.Engine.Sstable.Entry.{RawEntry, encode_raw}
use scoria_db.Engine.Sstable.Entry.RoundTrip.{length-encode_raw}

unfoldable pub encode_all : List RawEntry → Bytes
encode_all [] = []
encode_all (e ∷ es) = encode_raw e ++ encode_all es

pub encode_all-snoc :
    (es : List RawEntry) (e : RawEntry)
    → encode_all (es ++ (e ∷ [])) ≡ encode_all es ++ encode_raw e
unfolding encode_all
encode_all-snoc [] e = append-nil (encode_raw e)
encode_all-snoc (f ∷ es) e =
    ap (λ l. encode_raw f ++ l) (encode_all-snoc es e)
    ∙ sym (append_assoc (encode_raw f) (encode_all es) (encode_raw e))

-- Each entry has bytes.
pub length-encode_all : (es : List RawEntry) → length es ≤ length (encode_all es)
unfolding encode_all
length-encode_all [] = omega arith
length-encode_all (e ∷ es) = omega (
  arith,
  length-append {0} (encode_raw e) (encode_all es),
  length-encode_raw e,
  length-encode_all es,
)

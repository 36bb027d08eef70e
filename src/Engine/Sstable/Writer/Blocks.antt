-- ===== src/Engine/Sstable/Writer/Blocks.antt =====
-- The blocks that Finish forms: runs of consecutive entries under their first key.
use scoria_db.Base.{
  ◌+◌, ◌≤◌, ◌<◌, ◌≡◌, refl, sym, ap, ◌∙◌, ◌⊎◌, inl, inr, Bool, true, false, ◌&&◌, List, [], ◌∷◌,
  ◌++◌, map, append-nil, append_assoc, arith, ltb, ltb→lt, Bool-cases, length, All, length-append,
}
use scoria_db.Engine.Sstable.Entry.{RawEntry, encode_raw}
use scoria_db.Engine.Sstable.Entry.Sequence.{encode_all, encode_all-snoc, length-encode_all}
use scoria_db.Engine.Sstable.Writer.{Block, block_size, first_user_key, form_blocks}

unfoldable pub concat : {A : Type 0} → List (List A) → List A
concat [] = []
concat (xs ∷ xss) = xs ++ concat xss

abbrev pub block_of : List RawEntry → Block
block_of es = record { first_key = first_user_key es; bytes = encode_all es }

-- Entries that fit a block: the limit is kept, but by an entry that is longer on its own.
abbrev pub Fits : List RawEntry → Type 0
Fits es = (length (encode_all es) ≤ block_size) ⊎ (length es ≡ 1)

-- The entries of each block, in place of the blocks.
pub record AreBlocks (es : List RawEntry) (blocks : List Block) (groups : List (List RawEntry))
    : Type 0 where
  pub formed : blocks ≡ map block_of groups
  pub all_entries : concat groups ≡ es
  pub not_empty : All (λ g. 0 < length g) groups
  pub fit : All Fits groups

has_entry : (es : List RawEntry) → 0 < length (encode_all es) → 0 < length es
unfolding encode_all
has_entry [] h = absurd (omega (arith, h))
has_entry (e ∷ es) h = omega arith

no_entries : (es : List RawEntry) → length (encode_all es) ≡ 0 → es ≡ []
no_entries [] h = refl
no_entries (e ∷ es) h = absurd (omega (arith, h, length-encode_all (e ∷ es)))

-- The test that closes a block.
abbrev is_full : RawEntry → List RawEntry → Bool
is_full e held =
    ltb block_size (length (encode_all held) + length (encode_raw e))
    && ltb 0 (length (encode_all held))

form_blocks-full :
    (e : RawEntry) (es held : List RawEntry)
    → is_full e held ≡ true
    → form_blocks (e ∷ es) (encode_all held) held
      ≡ block_of held ∷ form_blocks es (encode_all (e ∷ [])) (e ∷ [])
unfolding form_blocks encode_all
form_blocks-full e es held c =
    rw (c, form_blocks)
      (ap (λ l. block_of held ∷ form_blocks es l (e ∷ [])) (sym (append-nil (encode_raw e))))

form_blocks-room :
    (e : RawEntry) (es held : List RawEntry)
    → is_full e held ≡ false
    → form_blocks (e ∷ es) (encode_all held) held
      ≡ form_blocks es (encode_all (held ++ (e ∷ []))) (held ++ (e ∷ []))
unfolding form_blocks
form_blocks-room e es held c =
    rw (c, form_blocks)
      (ap (λ l. form_blocks es l (held ++ (e ∷ []))) (sym (encode_all-snoc held e)))

Fits-room : (e : RawEntry) (held : List RawEntry) → is_full e held ≡ false → Fits (held ++ (e ∷ []))
Fits-room e held c = elim (Bool-cases (ltb 0 (length (encode_all held)))) [
  | inr empty ↦
      let nothing : held ≡ [] = no_entries held (ground (arith, empty)) in rw nothing (inr refl)
  | inl some_bytes ↦ inl (
      rw (encode_all-snoc held e)
        (ground (arith, c, some_bytes, length-append {0} (encode_all held) (encode_raw e))))
]

form_blocks-AreBlocks :
    (es held : List RawEntry)
    → Fits held
    → (groups : List (List RawEntry)) × AreBlocks
        (held ++ es)
        (form_blocks es (encode_all held) held)
        groups
unfolding form_blocks concat
form_blocks-AreBlocks [] held f = elim (Bool-cases (ltb 0 (length (encode_all held)))) [
  | inl e ↦ (
    held ∷ [],
    record {
      formed = rw (e, form_blocks) refl;
      all_entries = refl;
      not_empty = (has_entry held (ltb→lt 0 _ e), tt);
      fit = (f, tt);
    },
  )
  | inr e ↦
      let nothing : held ≡ [] = no_entries held (ground (arith, e)) in
      (
        [],
        record {
          formed = rw (e, form_blocks) refl;
          all_entries = rw nothing refl;
          not_empty = tt;
          fit = tt;
        },
      )
]
form_blocks-AreBlocks (e ∷ es) held f = elim (Bool-cases (is_full e held)) [
  | inl c ↦
      let (groups, h) = form_blocks-AreBlocks es (e ∷ []) (inr refl) in
      (
        held ∷ groups,
        record {
          formed = form_blocks-full e es held c ∙ ap (λ l. block_of held ∷ l) h.formed;
          all_entries = ap (λ l. held ++ l) h.all_entries;
          not_empty = (has_entry held (ground (arith, c)), h.not_empty);
          fit = (f, h.fit);
        },
      )
  | inr c ↦
      let (groups, h) = form_blocks-AreBlocks es (held ++ (e ∷ [])) (Fits-room e held c) in
      (
        groups,
        record {
          formed = form_blocks-room e es held c ∙ h.formed;
          all_entries = h.all_entries ∙ append_assoc held (e ∷ []) es;
          not_empty = h.not_empty;
          fit = h.fit;
        },
      )
]

-- The blocks of Finish are consecutive runs of the entries, none of them empty, each under the key of
-- its first entry; a block is longer than 16 KB only if it holds a single entry.
pub form_blocks-groups :
    (es : List RawEntry)
    → (groups : List (List RawEntry)) × AreBlocks es (form_blocks es [] []) groups
unfolding encode_all
form_blocks-groups es = form_blocks-AreBlocks es [] (inl (omega arith))

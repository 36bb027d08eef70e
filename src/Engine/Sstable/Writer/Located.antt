-- ===== src/Engine/Sstable/Writer/Located.antt =====
-- Where the blocks of a table stand in the file, and what is read from the offsets of the index.
use scoria_db.Base.{
  subst, ℕ, ◌+◌, ◌%◌, ◌^◌, ◌<◌, ◌≡◌, refl, sym, ap, ◌∙◌, inl, inr, List, [], ◌∷◌, ◌++◌, map,
  append-nil, append_assoc, arith, length, All, length-append, ok,
}
use scoria_db.Base.Bytes.{Bytes}
use scoria_db.Engine.Sstable.Entry.{RawEntry, encode_raw}
use scoria_db.Engine.Sstable.Entry.RoundTrip.{IsWritable}
use scoria_db.Engine.Sstable.Entry.Sequence.{encode_all}
use scoria_db.Engine.Sstable.Block.{write_block, read_block_from_mmap}
use scoria_db.Engine.Sstable.Block.RoundTrip.{length-write_block, read_block_from_mmap-write_block}
use scoria_db.Engine.Sstable.Index.{IndexEntry}
use scoria_db.Engine.Sstable.Index.RoundTrip.{IsIndexEntry}
use scoria_db.Engine.Sstable.Writer.{Block, first_user_key, write_blocks}
use scoria_db.Engine.Sstable.Writer.Blocks.{block_of, Fits}

-- An entry that can be written and fits a block of its own.
pub record IsStorable (e : RawEntry) : Type 0 where
  pub writable : IsWritable e
  pub block_fits : length (encode_raw e) + 4 < 2 ^ 32

-- The index entry names the first key of the group, and the group's bytes are read at its offset.
pub record ReadsBack (file : Bytes) (group : List RawEntry) (entry : IndexEntry) : Type 0 where
  pub key : entry.key ≡ first_user_key group
  pub block : read_block_from_mmap file entry.offset ≡ ok (encode_all group)

abbrev pub AllReadBack : Bytes → List (List RawEntry) → List IndexEntry → Type 0
AllReadBack file [] [] = Unit
AllReadBack file [] (e ∷ es) = ⊥
AllReadBack file (g ∷ gs) [] = ⊥
AllReadBack file (g ∷ gs) (e ∷ es) = ReadsBack file g e × AllReadBack file gs es

length-group : (g : List RawEntry) → Fits g → All IsStorable g → length (encode_all g) + 4 < 2 ^ 32
unfolding encode_all
length-group g (inl small) h = omega (arith, small)
length-group [] (inr one) h = absurd (omega (arith, one))
length-group (e ∷ []) (inr one) (p, h) = rw append-nil p.block_fits
length-group (e ∷ f ∷ es) (inr one) h = absurd (omega (arith, one))

-- A run of entries whose bytes and whose first key fit their length fields.
pub record IsBlock (g : List RawEntry) : Type 0 where
  pub bytes_fit : length (encode_all g) + 4 < 2 ^ 32
  pub key_fits : length (first_user_key g) < 2 ^ 32

first_user_key-lt : (g : List RawEntry) → All IsStorable g → length (first_user_key g) < 2 ^ 32
unfolding first_user_key
first_user_key-lt [] h = omega arith
first_user_key-lt (e ∷ es) (p, h) = omega (arith, p.writable.key_fits)

pub group-IsBlock : (g : List RawEntry) → Fits g → All IsStorable g → IsBlock g
group-IsBlock g f h = record { bytes_fit = length-group g f h; key_fits = first_user_key-lt g h }

-- What the loop over the blocks leaves, behind `before`.
pub record AreWritten (before after : Bytes) (groups : List (List RawEntry))
    (written : Bytes × List IndexEntry × ℕ) : Type 0 where
  pub read_back : AllReadBack (before ++ (written.0 ++ after)) groups written.1
  pub indexed : All IsIndexEntry written.1
  pub end : written.2 ≡ length before + length written.0

step_offset :
    (before block : Bytes) (blocks : List Block)
    → length before + (length block + 8) < 2 ^ 63
    → write_blocks ((length before + (4 + length block + 4)) % 2 ^ 64) blocks
      ≡ write_blocks (length (before ++ write_block block)) blocks
step_offset before block blocks h =
    ap (λ n. write_blocks n blocks)
      (omega (arith, h, length-append {0} before (write_block block), length-write_block block))

-- One block more in front.
AreWritten-cons :
    (before after : Bytes) (g : List RawEntry) (gs : List (List RawEntry))
    (rest : Bytes × List IndexEntry × ℕ)
    → IsBlock g
    → let block = write_block (encode_all g) in
      length before + length (block ++ rest.0) + length after < 2 ^ 63
      → AreWritten (before ++ block) after gs rest
      → AreWritten before after (g ∷ gs) (
        block ++ rest.0,
        record { key = first_user_key g; offset = length before } ∷ rest.1,
        rest.2,
      )
AreWritten-cons before after g gs rest p fits h =
    let block = write_block (encode_all g) in
    let here : before ++ ((block ++ rest.0) ++ after) ≡ before ++ (block ++ (rest.0 ++ after)) =
      ap (λ l. before ++ l) (append_assoc block rest.0 after) in
    let behind : before ++ ((block ++ rest.0) ++ after) ≡ (before ++ block) ++ (rest.0 ++ after) =
      here ∙ sym (append_assoc before block (rest.0 ++ after)) in
    let first : ReadsBack (before ++ ((block ++ rest.0) ++ after)) g
        (record { key = first_user_key g; offset = length before }) =
      record {
        key = refl;
        block =
            subst (λ l. read_block_from_mmap l (length before) ≡ ok (encode_all g)) (sym here)
              (read_block_from_mmap-write_block before (encode_all g) (rest.0 ++ after) p.bytes_fit
                (omega (
                  arith,
                  fits,
                  length-append {0} block rest.0,
                  length-append {0} rest.0 after,
                  length-write_block (encode_all g),
                )));
      } in
    record {
      read_back = (first, subst (λ l. AllReadBack l gs rest.1) (sym behind) h.read_back);
      indexed = (record { key_fits = p.key_fits; offset_fits = omega (arith, fits) }, h.indexed);
      end = omega (arith, h.end, length-append {0} before block, length-append {0} block rest.0);
    }

pub write_blocks-AreWritten :
    (groups : List (List RawEntry)) (before after : Bytes)
    → All IsBlock groups
    → let written = write_blocks (length before) (map block_of groups) in
      length before + length written.0 + length after < 2 ^ 63
      → AreWritten before after groups written
unfolding write_blocks
write_blocks-AreWritten [] before after h fits = record {
  read_back = tt;
  indexed = tt;
  end = omega arith;
}
write_blocks-AreWritten (g ∷ gs) before after (p, h) fits =
    let bytes = encode_all g in
    let block = write_block bytes in
    let rest = write_blocks ((length before + (4 + length bytes + 4)) % 2 ^ 64) (map block_of gs) in
    let small : length before + (length bytes + 8) < 2 ^ 63 =
      omega (arith, fits, length-append {0} block rest.0, length-write_block bytes) in
    let same : rest ≡ write_blocks (length (before ++ block)) (map block_of gs) =
      step_offset before bytes (map block_of gs) small in
    AreWritten-cons before after g gs rest p fits (
      subst (AreWritten (before ++ block) after gs) (sym same) (
        write_blocks-AreWritten gs (before ++ block) after h (
          omega (
            arith,
            fits,
            ap (λ w. length w.0) same,
            length-append {0} before block,
            length-append {0} block rest.0,
          ))))

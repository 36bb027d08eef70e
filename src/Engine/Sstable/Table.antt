-- ===== src/Engine/Sstable/Table.antt =====
-- internal/engine/sstable: a table from its writer to its reader, writer.go against reader.go.
pub mod Composed
mod Runs
use scoria_db.Base.{
  ◌+◌, ◌^◌, ◌<◌, ◌≡◌, refl, ap, Bool, false, none, some, List, [], ◌∷◌, arith, length, All,
  All-append_left, All-append_right,
}
use scoria_db.Base.Bytes.{Bytes}
use mathlib.Core.List.{Permᴰ}
use scoria_db.Engine.Sstable.Bloom.{BloomFilter, encode}
use scoria_db.Engine.Sstable.Bloom.Members.{IsUsable}
use scoria_db.Engine.Sstable.Entry.{RawEntry}
use scoria_db.Engine.Sstable.Index.{encode_index}
use scoria_db.Engine.Sstable.Footer.{footer_size}
use scoria_db.Engine.Sstable.Writer.{
  Writer, new_writer, entry_less, form_blocks, write_blocks, write_footer, finish_sorted, finish,
}
use scoria_db.Engine.Sstable.Writer.Appended.{IsSorted, IsAbove, append_all}
use scoria_db.Engine.Sstable.Writer.Blocks.{AreBlocks, Fits, concat}
use scoria_db.Engine.Sstable.Writer.Located.{IsStorable, IsBlock, group-IsBlock}
use scoria_db.Engine.Sstable.Reader.{below_range}
use scoria_db.Engine.Sstable.Reader.Sections.{read_key}

-- Entries `es` that were appended to a new writer, and what Finish makes of them: `sorted`, cut into
-- the blocks of `groups`.
pub record IsTable (bloom : BloomFilter) (es sorted : List RawEntry) (groups : List (List RawEntry))
    (w : Writer) (min max : Bytes) : Type 0 where
  pub usable : IsUsable bloom
  pub appended : append_all es (new_writer bloom) ≡ some w
  pub permuted : Permᴰ es sorted
  pub ordered : IsSorted sorted
  pub blocks : AreBlocks sorted (form_blocks sorted [] []) groups
  pub storable : All IsStorable sorted
  pub some_entry : 0 < length sorted
  pub min_is : w.min_key ≡ some min
  pub max_is : w.max_key ≡ some max
  pub bloom_fits : length (encode w.bloom) + 4 < 2 ^ 32
  pub min_fits : length min + 4 < 2 ^ 32
  pub max_fits : length max + 4 < 2 ^ 32
  pub count_fits : length sorted < 2 ^ 64
  pub file_fits :
      let written = write_blocks 0 (form_blocks sorted [] []) in
      length written.0
        + length (encode_index written.1)
        + (4 + length (encode w.bloom))
        + (4 + length min)
        + (4 + length max)
        + footer_size
      < 2 ^ 63

pub All-concat :
    (P : RawEntry → Type 0) (groups : List (List RawEntry))
    → All P (concat groups)
    → All (λ g. All P g) groups
unfolding concat
All-concat P [] h = tt
All-concat P (g ∷ gs) h =
    (All-append_left P g (concat gs) h, All-concat P gs (All-append_right P g (concat gs) h))

pub groups-IsBlock :
    (groups : List (List RawEntry))
    → All Fits groups
    → All (λ g. All IsStorable g) groups
    → All IsBlock groups
groups-IsBlock [] f h = tt
groups-IsBlock (g ∷ gs) (f, fs) (h, hs) = (group-IsBlock g f h, groups-IsBlock gs fs hs)

pub some_group : (groups : List (List RawEntry)) → 0 < length (concat groups) → 0 < length groups
unfolding concat
some_group [] h = absurd (omega (arith, h))
some_group (g ∷ gs) h = omega arith

pub finish-sorted :
    (sort_slice : (RawEntry → RawEntry → Bool) → List RawEntry → List RawEntry) (w : Writer)
    → 0 < length w.entries
    → finish sort_slice w ≡ finish_sorted (sort_slice entry_less w.entries) w
unfolding finish
finish-sorted sort_slice w h = nonempty w.entries h refl
  where
    nonempty :
        (l : List RawEntry)
        → 0 < length l
        → l ≡ w.entries
        → (elim l [
          | [] ↦ write_footer 0 [] w.bloom none none 0
          | e ∷ es ↦ finish_sorted (sort_slice entry_less (e ∷ es)) w
        ])
          ≡ finish_sorted (sort_slice entry_less w.entries) w
    nonempty [] h q = absurd (omega (arith, h))
    nonempty (e ∷ es) h q = ap (λ l. finish_sorted (sort_slice entry_less l) w) q

-- A key that the smallest key does not exceed passes the lower bound of a reader.
pub admits_low :
    (min key : Bytes) → IsAbove (some min) key → below_range key (read_key min min) ≡ false
unfolding below_range IsAbove read_key
admits_low min key h = ground (arith, h)

-- ===== src/Walparser/Totality.antt =====
-- The parser's loops have fuel enough: none of them ends with `no_progress`, and no parser gives back
-- what it has read. This file is about readers and the steps that parsers are made of.
pub mod Steps
pub mod Records
pub mod Files
pub mod Pages
pub mod Extraction
use extract.Common.{
  ℕ, zero, suc, ◌+◌, ◌-◌, ◌≤◌, ◌<◌, ◌≡◌, ◌≢◌, refl, sym, ap, ◌∙◌, List, [], ◌∷◌, ◌++◌, length, take,
  drop, length-drop, length-append, ltb, leb, ◌==◌, if◌then◌else◌, Bool, true, false, Option, none,
  some, Result, ok, err, arith, Bool-cases, Option-cases, ℕ-cases, inl, inr, ◌⊎◌,
}
use extract.Walparser.Readers.{
  ParseError, no_progress, not_enough_data_to_shrink, eof, Reader, ShrinkableReader, AlignedReader,
  bytes_reader, bytes_read, shrinkable_reader, shrinkable_read, shrinkable_count, aligned_reader,
  aligned_read, aligned_count, M, after, ◌>>=◌, ◌>>◌, pure, fail, require, short_read, read_loop,
  read_full, of_bytes, parse_field, shrink,
}

-- A reader without an error brings a byte at least, and what it brings is gone from what is left.
pub record Progress {R : Type 0} (i : Reader R) : Type 0 where
  pub size : R → ℕ
  pub no_stall : (n : ℕ) (r : R) → (i.read n r).1 ≢ some no_progress
  pub gives : (n : ℕ) (r : R) → (i.read (suc n) r).1 ≡ none → 1 ≤ length (i.read (suc n) r).0
  pub fits : (n : ℕ) (r : R) → length (i.read n r).0 ≤ n
  pub shrinks : (n : ℕ) (r : R) → size (i.read n r).2 + length (i.read n r).0 ≤ size r

length-take : (n : ℕ) (s : List ℕ) → length (take n s) ≤ n
length-take zero s = omega arith
length-take (suc n) [] = omega arith
length-take (suc n) (b ∷ s) = omega (arith, length-take n s)

take-drop : (n : ℕ) (s : List ℕ) → length (drop n s) + length (take n s) ≡ length s
take-drop zero s = omega arith
take-drop (suc n) [] = omega arith
take-drop (suc n) (b ∷ s) = omega (arith, take-drop n s)

pub bytes_fits : (n : ℕ) (s : List ℕ) → length (bytes_read n s).0 ≤ n
bytes_fits n [] = omega arith
bytes_fits n (b ∷ s) = length-take n (b ∷ s)

pub bytes_shrinks :
    (n : ℕ) (s : List ℕ) → length (bytes_read n s).2 + length (bytes_read n s).0 ≤ length s
bytes_shrinks n [] = omega arith
bytes_shrinks n (b ∷ s) = omega (arith, take-drop n (b ∷ s))

pub bytes_stall : (n : ℕ) (s : List ℕ) → (bytes_read n s).1 ≢ some no_progress
bytes_stall n [] = ground arith
bytes_stall n (b ∷ s) = ground arith

pub bytes_gives :
    (n : ℕ) (s : List ℕ) → (bytes_read (suc n) s).1 ≡ none → 1 ≤ length (bytes_read (suc n) s).0
bytes_gives n [] e = ground arith
bytes_gives n (b ∷ s) e = omega arith

unfoldable pub bytes_progress : Progress bytes_reader
bytes_progress = record {
  size = length;
  no_stall = bytes_stall;
  gives = bytes_gives;
  fits = bytes_fits;
  shrinks = bytes_shrinks;
}

module _ {R : Type 0} (i : Reader R) (q : Progress i) where
  unfoldable pub aligned_progress : Progress (aligned_reader ⦃i = i⦄)
  aligned_progress = record {
    size = λ a. q.size a.inner_reader;
    no_stall = λ n a. q.no_stall n a.inner_reader;
    gives = λ n a. q.gives n a.inner_reader;
    fits = λ n a. q.fits n a.inner_reader;
    shrinks = λ n a. q.shrinks n a.inner_reader;
  }

  pub shrinkable_stall :
      (n : ℕ) (s : ShrinkableReader R) → (shrinkable_read ⦃i = i⦄ n s).1 ≢ some no_progress
  shrinkable_stall n s = ground (
    arith,
    q.no_stall n s.inner_reader,
    q.no_stall s.data_remained s.inner_reader,
    Bool-cases (s.data_remained == 0),
    Bool-cases (leb n s.data_remained),
  )

  pub shrinkable_gives :
      (n : ℕ) (s : ShrinkableReader R)
      → (shrinkable_read ⦃i = i⦄ (suc n) s).1 ≡ none
      → 1 ≤ length (shrinkable_read ⦃i = i⦄ (suc n) s).0
  shrinkable_gives n s e = elim (ℕ-cases s.data_remained) [
    | inl z ↦ ground (arith, z)
    | inr (k, z) ↦ ground (
      arith,
      z,
      q.gives n s.inner_reader,
      q.gives k s.inner_reader,
      Bool-cases (leb (suc n) s.data_remained),
    )
  ]

  pub shrinkable_fits :
      (n : ℕ) (s : ShrinkableReader R) → length (shrinkable_read ⦃i = i⦄ n s).0 ≤ n
  shrinkable_fits n s =
      ground (arith, q.fits n s.inner_reader, q.fits s.data_remained s.inner_reader)

  pub shrinkable_shrinks :
      (n : ℕ) (s : ShrinkableReader R)
      → (shrinkable_read ⦃i = i⦄ n s).2.data_remained + length (shrinkable_read ⦃i = i⦄ n s).0
        ≤ s.data_remained
  shrinkable_shrinks n s =
      ground (arith, q.fits n s.inner_reader, q.fits s.data_remained s.inner_reader)

  unfoldable pub shrinkable_progress : Progress (shrinkable_reader ⦃i = i⦄)
  shrinkable_progress = record {
    size = λ s. s.data_remained;
    no_stall = shrinkable_stall;
    gives = shrinkable_gives;
    fits = shrinkable_fits;
    shrinks = shrinkable_shrinks;
  }

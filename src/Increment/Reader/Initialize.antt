-- ===== src/Increment/Reader/Initialize.antt =====
-- incremental_page_reader.go: what `initialize` makes of a reader of a whole file.
use extract.Common.{
  ℕ, zero, suc, ◌+◌, ◌*◌, ◌/◌, ◌%◌, ◌^◌, ◌≤◌, ◌<◌, ◌≡◌, refl, sym, ap, ◌∙◌, List, [], ◌∷◌, ◌++◌,
  length, length-append, keep, All, Bool, leb, Bool-cases, Result-cases, Option, none, some, Result,
  ok, err, inl, inr, arith,
}
use mathlib.Core.Path.{subst}
use extract.Walparser.Readers.{to_bytes}
use extract.Increment.PageHeader.{database_page_size, IncrementError}
use extract.Increment.Reader.{
  IncrementalPageReader, open_paged_file, blocks_in_file, delta_bitmap_initialize,
  full_scan_initialize, write_diff_map_to_header, increment_file_header, find_blocks, with_header,
  initialize,
}
use extract.Increment.Reader.Contents.{contents, pages_of, page_at, InFile, length-pages_of}
use extract.Increment.Reader.Scan.{Scanned, has_changed, block_range, full_scan_initialize-Scanned}

-- A block of the file, with a number that its successor does not wrap.
abbrev pub IsBlock : List ℕ → ℕ → Type 0
IsBlock file b = InFile file b × (b < 2 ^ 32)

-- A block number of a bitmap; the largest uint32 is no block.
abbrev pub IsBitmap : Option (List ℕ) → Type 0
IsBitmap none = Unit {0}
IsBitmap (some bitmap) = All (λ b. b + 1 < 2 ^ 32) bitmap

-- The head of the increment and its listed blocks.
pub record IsInitialized (file : List ℕ) (size : ℕ) (r : IncrementalPageReader) : Type 0 where
  pub paged : r.paged_file ≡ file
  pub head :
      r.next ≡ write_diff_map_to_header r.blocks (increment_file_header ++ to_bytes 8 (length file))
  pub listed : All (IsBlock file) r.blocks
  pub sized : size ≡ length r.next + length r.blocks * database_page_size

blocks_in_file-All :
    (file bitmap : List ℕ)
    → All (λ b. b + 1 < 2 ^ 32) bitmap
    → All (IsBlock file) (blocks_in_file (length file) bitmap)
unfolding blocks_in_file
blocks_in_file-All file [] h = tt
blocks_in_file-All file (b ∷ bitmap) (h, k) =
    elim (Bool-cases (leb ((b + 1) % 2 ^ 32 * database_page_size) (length file))) [
      | inl e ↦ rw e ((ground (arith, e, h), omega (arith, h)), blocks_in_file-All file bitmap k)
      | inr e ↦ rw e tt
    ]

keep-All :
    (file : List ℕ) (test : ℕ → Bool) (b k : ℕ)
    → b + k ≤ length file / database_page_size
    → b + k < 2 ^ 32
    → All (IsBlock file) (keep test (block_range b k))
unfolding block_range
keep-All file test b zero h u = tt
keep-All file test b (suc k) h u = elim (Bool-cases (test b)) [
  | inl e ↦ rw e (
    (omega (arith, h), omega (arith, u)),
    keep-All file test (suc b) k (omega (arith, h)) (omega (arith, u)),
  )
  | inr e ↦ rw e (keep-All file test (suc b) k (omega (arith, h)) (omega (arith, u)))
]

-- What the search for blocks leaves of the reader.
Found : List ℕ → Result IncrementError IncrementalPageReader → Type 0
Found file (ok s) =
    (s.paged_file ≡ file) × (s.file_size ≡ length file) × All (IsBlock file) s.blocks
Found file (err e) = Unit {0}

Scanned-Found :
    (r : IncrementalPageReader) (result : Result IncrementError IncrementalPageReader)
    → r.blocks ≡ []
    → r.file_size ≡ length r.paged_file
    → length r.paged_file / database_page_size < 2 ^ 32
    → Scanned 0 (length r.paged_file / database_page_size) r result
    → Found r.paged_file result
unfolding Scanned Found
Scanned-Found r (err e) b f u h = tt
Scanned-Found r (ok s) b f u (a, l, p, q) =
    let n = length r.paged_file / database_page_size in
    let test : ℕ → Bool = λ i. has_changed r.start_lsn (page_at r.paged_file i) in
    let kept : s.blocks ≡ keep test (block_range 0 n) =
      l ∙ ap (λ v. v ++ keep test (block_range 0 n)) b in
    (
      p,
      q ∙ f,
      subst (All (IsBlock r.paged_file)) (sym kept)
          (keep-All r.paged_file test 0 n (omega arith) (omega (arith, u))),
    )

find_blocks-Found :
    (bitmap : Option (List ℕ)) (file : List ℕ) (start : ℕ)
    → IsBitmap bitmap
    → length file / database_page_size < 2 ^ 32
    → Found file (find_blocks bitmap (open_paged_file file (length file) start))
unfolding Found open_paged_file delta_bitmap_initialize
find_blocks-Found none file start h u =
    let r = open_paged_file file (length file) start in
    Scanned-Found r (full_scan_initialize r) refl refl u (full_scan_initialize-Scanned r refl u)
find_blocks-Found (some bitmap) file start h u = (refl, refl, blocks_in_file-All file bitmap h)

found_then :
    (file : List ℕ) (s : IncrementalPageReader)
    → Found file (ok s)
    → IsInitialized file (with_header s).0 (with_header s).1
unfolding Found
found_then file s (p, q, h) = record {
  paged = p;
  head = ap (λ n. write_diff_map_to_header s.blocks (increment_file_header ++ to_bytes 8 n)) q;
  listed = h;
  sized = refl;
}

pub ok-injective :
    {x y : ℕ × IncrementalPageReader}
    → Path (Result IncrementError (ℕ × IncrementalPageReader)) (ok x) (ok y)
    → x ≡ y
ok-injective e = cc

pub initialize-IsInitialized :
    (bitmap : Option (List ℕ)) (file : List ℕ) (start size : ℕ) (r : IncrementalPageReader)
    → IsBitmap bitmap
    → length file / database_page_size < 2 ^ 32
    → initialize bitmap (open_paged_file file (length file) start) ≡ ok (size, r)
    → IsInitialized file size r
unfolding initialize open_paged_file
initialize-IsInitialized bitmap file start size r h u e =
    let from = open_paged_file file (length file) start in
    let found = find_blocks-Found bitmap file start h u in
    elim (Result-cases (find_blocks bitmap from)) [
      | inl (x, p) ↦ absurd (failed p e)
      | inr (s, p) ↦
          subst (λ v. IsInitialized file v.0 v.1) (ok-injective (sym (ap done p) ∙ e))
            (found_then file s (subst (Found file) p found))
    ]
  where
    done :
        Result IncrementError IncrementalPageReader
        → Result IncrementError (ℕ × IncrementalPageReader)
    done v = elim v [ err x ↦ err x | ok s ↦ ok (with_header s) ]

    failed :
        {x : IncrementError}
        → find_blocks bitmap (open_paged_file file (length file) start) ≡ err x
        → initialize bitmap (open_paged_file file (length file) start) ≡ ok (size, r)
        → ⊥
    failed p e = cc (ap done p, e)

-- The size that `initialize` returns is that of what the reader gives.
pub IsInitialized-contents :
    (file : List ℕ) (size : ℕ) (r : IncrementalPageReader)
    → IsInitialized file size r
    → All (InFile r.paged_file) r.blocks
    → length (contents r) ≡ size
unfolding contents
IsInitialized-contents file size r v h = omega (
  arith,
  length-append r.next (pages_of r.paged_file r.blocks),
  length-pages_of r.paged_file r.blocks h,
  v.sized,
)

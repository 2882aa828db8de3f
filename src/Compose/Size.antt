-- ===== src/Compose/Size.antt =====
-- rating_tar_ball_composer.go with incremental_page_reader.go: the size that is expected of an increment
-- is the size that it gets.
use extract.Common.{
  ℕ, ◌+◌, ◌*◌, ◌%◌, ◌^◌, ◌<◌, ◌≡◌, refl, ap, ◌∙◌, List, [], ◌∷◌, ◌++◌, length, length-append, All,
  true, leb, if◌then◌else◌, some, Result, ok, ◌>>=◌, arith,
}
use extract.Walparser.Readers.{to_bytes}
use extract.Walparser.Readers.Laws.{length-to_bytes}
use extract.Increment.PageHeader.{database_page_size}
use extract.Increment.Reader.{
  IncrementalPageReader, open_paged_file, blocks_in_file, delta_bitmap_initialize, block_numbers,
  write_diff_map_to_header, increment_file_header, initialize,
}
use extract.Increment.Reader.Contents.{InFile}
use extract.Increment.Format.Head.{length-block_numbers}
use extract.DeltaMap.Bitmap.{BitmapOps, IsBitmapOps}
use extract.DeltaMap.PagedFile.{ScanError}
use extract.Increment.Reader.Initialize.{ok-injective}
use extract.DeltaMap.Map.{get_delta_bitmap_for}
use extract.Compose.{
  ComposeFileInfo, RatingTarBallComposer, expected_of, scan_delta_map_for, increment_size,
  get_expected_file_size,
}

blocks_in_file-InFile :
    (file blocks : List ℕ) → All (InFile file) blocks → blocks_in_file (length file) blocks ≡ blocks
unfolding blocks_in_file
blocks_in_file-InFile file [] h = refl
blocks_in_file-InFile file (b ∷ blocks) (h, k) =
    let held : leb ((b + 1) % 2 ^ 32 * database_page_size) (length file) ≡ true =
      ground (arith, h) in
    rw (held, blocks_in_file-InFile file blocks k) refl

length-header :
    (blocks : List ℕ) (size : ℕ)
    → length (write_diff_map_to_header blocks (increment_file_header ++ to_bytes 8 size))
      ≡ 16 + length blocks * 4
unfolding write_diff_map_to_header
length-header blocks size = omega (
  arith,
  length-append (increment_file_header ++ to_bytes 8 size)
      (to_bytes 4 (length blocks) ++ block_numbers blocks),
  length-append increment_file_header (to_bytes 8 size),
  length-append (to_bytes 4 (length blocks)) (block_numbers blocks),
  length-to_bytes 8 size,
  length-to_bytes 4 (length blocks),
  length-block_numbers blocks,
)

-- The size that `initialize` returns for blocks that the file holds.
initialize_size :
    (file blocks : List ℕ) (start size : ℕ) (r : IncrementalPageReader)
    → All (InFile file) blocks
    → initialize (some blocks) (open_paged_file file (length file) start) ≡ ok (size, r)
    → size ≡ 16 + length blocks * 4 + length blocks * database_page_size
unfolding initialize delta_bitmap_initialize open_paged_file
initialize_size file blocks start size r h e =
    let whole = blocks_in_file-InFile file blocks h in
    let l = length-header (blocks_in_file (length file) blocks) (length file) in
    omega (arith, ap (λ p. p.0) (ok-injective e), ap length whole, l)

module _ {B : Type 0} (o : BitmapOps B) (v : IsBitmapOps o) where
  -- For a file that is incremented with a complete delta map, whose bitmap has fewer than 2 ^ 32 blocks
  -- and only such that the file holds, the expected size is the one that the page reader's `initialize`
  -- returns for that bitmap, and the composer stays as it is.
  pub get_expected_file_size-initialize :
      (cfi : ComposeFileInfo) (file : List ℕ) (c : RatingTarBallComposer B) (b : B) (start size : ℕ)
      (r : IncrementalPageReader)
      → cfi.is_incremented ≡ true
      → c.delta_map_complete ≡ true
      → get_delta_bitmap_for o cfi.path c.delta_map ≡ ok b
      → All (InFile file) (o.iterate b)
      → length (o.iterate b) < 2 ^ 32
      → initialize (some (o.iterate b)) (open_paged_file file (length file) start) ≡ ok (size, r)
      → get_expected_file_size o cfi file c ≡ ok (size, c)
  unfolding get_expected_file_size increment_size
  get_expected_file_size-initialize cfi file c b start size r inc full found h few e =
      let count = v.cardinality b in
      let sized = initialize_size file (o.iterate b) start size r h e in
      ap (λ t. if t then increment_size o cfi file c else ok (cfi.file_size, c)) inc
      ∙ ap
          (λ t.
            (if t then ok c else scan_delta_map_for o cfi.path file cfi.file_size c) >>= then_sized)
          full
      ∙ ap (λ g. expected_of o g >>= λ n. ok (n, c)) found
      ∙ ap (λ n. ok (n, c)) (omega (arith, count, sized, few))
    where
      then_sized : RatingTarBallComposer B → Result ScanError (ℕ × RatingTarBallComposer B)
      then_sized c' =
          expected_of o (get_delta_bitmap_for o cfi.path c'.delta_map) >>= λ n. ok (n, c')

-- ===== src/Examples/Increment.antt =====
-- The increment of a file of one page, and files that are restored from it.
use extract.Common.{
  ℕ, ◌+◌, ◌*◌, ◌/◌, ◌≡◌, refl, ap, ◌∙◌, true, leb, ◌&&◌, List, [], ◌∷◌, ◌++◌, length, replicate,
  length-replicate, length-append, All, false, none, some, ok, inl, arith,
}
use extract.Increment.PageHeader.{database_page_size}
use extract.Increment.Reader.{
  IncrementalPageReader, open_paged_file, blocks_in_file, delta_bitmap_initialize,
  full_scan_initialize, with_header, initialize, read,
}
use extract.Increment.Reader.Contents.{page_at, InFile, Gives, read-Gives}
use extract.Increment.Reader.Scan.{Scanned, full_scan_initialize-Scanned}
use extract.Increment.Apply.{apply_file_increment}
use extract.Increment.Apply.Restore.{Unlisted-same, apply_file_increment-read}
use extract.Increment.Local.{create_file_from_increment, restore_missing_pages}
use extract.Increment.Local.Pages.{is_missing}
use extract.Increment.Local.Created.{Ascending}
use extract.Increment.Local.Together.{increment_of, IsOlder, restore_missing_pages-create}
use extract.Increment.Local.Restored.{IsRestored, restore_missing_pages-IsRestored}

unfoldable filled_page : ℕ → List ℕ
filled_page b = replicate database_page_size b

length-filled_page : (b : ℕ) → length (filled_page b) ≡ database_page_size
unfolding filled_page
length-filled_page b = length-replicate database_page_size b

-- The reader of a file of one page with the bitmap of its block, before its header is written.
abbrev chosen : List ℕ → IncrementalPageReader
chosen new = record (open_paged_file new (length new) 100) {
  blocks = [] ++ blocks_in_file (length new) (0 ∷ []);
}

one_block : (new : List ℕ) → length new ≡ database_page_size → (chosen new).blocks ≡ 0 ∷ []
unfolding blocks_in_file
one_block new l = rw l refl

in_first : (new : List ℕ) → length new ≡ database_page_size → All (InFile new) (chosen new).blocks
in_first new l = rw (one_block new l) (omega (arith, l), tt)

read-Gives_example : Gives 20 [] (chosen (filled_page 1)) (read 20 (chosen (filled_page 1)))
unfolding open_paged_file
read-Gives_example =
    read-Gives 20 (chosen (filled_page 1)) (in_first (filled_page 1) (length-filled_page 1))

full_scan_initialize-Scanned_example :
    Scanned 0
      (length (filled_page 0) / database_page_size)
      (open_paged_file (filled_page 0) 8192 100)
      (full_scan_initialize (open_paged_file (filled_page 0) 8192 100))
unfolding open_paged_file
full_scan_initialize-Scanned_example =
    full_scan_initialize-Scanned (open_paged_file (filled_page 0) 8192 100) refl
      (omega (arith, length-filled_page 0))

initialized :
    (new : List ℕ)
    → initialize (some (0 ∷ [])) (open_paged_file new (length new) 100)
      ≡ ok (with_header (chosen new))
unfolding initialize delta_bitmap_initialize open_paged_file
initialized new = refl

first_listed :
    (old new : List ℕ) → length new ≡ database_page_size → Unlisted-same old new (chosen new).blocks
first_listed old new l b h = inl (rw (one_block new l) (ground (arith, h, l)))

apply_file_increment-read_example :
    ((read (with_header (chosen (filled_page 1))).0 (with_header (chosen (filled_page 1))).1).1
      ≡ none)
    × (apply_file_increment
          (some (filled_page 2))
          (read (with_header (chosen (filled_page 1))).0 (with_header (chosen (filled_page 1))).1).0
          false
        ≡ (ok tt, some (filled_page 1)))
apply_file_increment-read_example =
    let new = filled_page 1 in
    let l = length-filled_page 1 in
    apply_file_increment-read (filled_page 2) new 100 (with_header (chosen new)).0 (some (0 ∷ []))
      false (with_header (chosen new)).1 (omega (arith, l)) (omega (arith, l)) (omega arith, tt)
      (initialized new) (omega (arith, ap length (one_block new l)))
      (first_listed (filled_page 2) new l)

restore_missing_pages-IsRestored_example :
    IsRestored (filled_page 1) (filled_page 0 ++ filled_page 2) (
      restore_missing_pages
        (filled_page 1)
        (filled_page 0 ++ filled_page 2)
        (length (filled_page 0 ++ filled_page 2)))
restore_missing_pages-IsRestored_example =
    restore_missing_pages-IsRestored (filled_page 1) (filled_page 0 ++ filled_page 2) 1 2
      (length-filled_page 1)
      (omega (
        arith,
        length-append (filled_page 0) (filled_page 2),
        length-filled_page 0,
        length-filled_page 2,
      ))

-- The only page of the file is listed, and its header is not empty.
changed_page-is_missing : is_missing (page_at (filled_page 1) 0) ≡ false
unfolding filled_page page_at is_missing
changed_page-is_missing = refl

older : IsOlder (filled_page 2) (filled_page 1) (0 ∷ [])
older = record {
  unlisted = λ b h e. ground (arith, h, e, length-filled_page 1);
  listed = λ b h e f. absurd (only_page b (ground (arith, e)) f);
}
  where
    only_page :
        (b : ℕ)
        → b ≡ 0
        → (is_missing (page_at (filled_page 1) b)
            && leb ((b + 1) * database_page_size) (length (filled_page 2)))
          ≡ true
        → ⊥
    only_page b z f =
        let kept : is_missing (page_at (filled_page 1) b) ≡ false =
          ap (λ c. is_missing (page_at (filled_page 1) c)) z ∙ changed_page-is_missing in
        ground (arith, kept, f)

one_ascends : Ascending (0 ∷ [])
unfolding Ascending
one_ascends = (tt, tt)

restore_missing_pages-create_example :
    ((create_file_from_increment (increment_of (filled_page 1) (0 ∷ [])) []).0 ≡ ok 0)
    × (restore_missing_pages
          (filled_page 2)
          (create_file_from_increment (increment_of (filled_page 1) (0 ∷ [])) []).1
          (length (create_file_from_increment (increment_of (filled_page 1) (0 ∷ [])) []).1)
        ≡ (ok tt, filled_page 1))
restore_missing_pages-create_example =
    restore_missing_pages-create (filled_page 2) (filled_page 1) (0 ∷ []) 1 1 (length-filled_page 2)
      (length-filled_page 1) (omega arith) one_ascends (omega (arith, length-filled_page 1), tt)
      (omega arith, tt) (omega arith) older

-- ===== src/Increment/Apply.antt =====
-- pagefile.go: ApplyFileIncrement changes a file by an increment.
pub mod Pages
pub mod Restore
use extract.Common.{
  ℕ, zero, suc, ◌+◌, ◌*◌, ◌%◌, ◌^◌, List, [], ◌∷◌, length, Bool, true, false, ltb, if◌then◌else◌,
  Option, none, some, Result, ok, err,
}
use extract.Walparser.Readers.{ParseError, read_full, bytes_reader}
use extract.Files.{truncate, write_file_at}
use extract.Increment.PageHeader.{
  database_page_size, IncrementError, read_error, unexpected_tar_data, file_must_exist, bad_size,
  panic,
}
use extract.Increment.Format.{get_increment_header_fields, diff_block}

-- The increment that is left behind its pages, or the error, and the file afterwards.
abbrev pub Applied : Type 0
Applied = Result IncrementError (List ℕ) × List ℕ

abbrev pub write_read :
    (List ℕ → List ℕ → Applied) → ℕ → List ℕ → Result ParseError (List ℕ) × List ℕ → Applied
write_read more block_no file (err e, s) = (err (read_error e), file)
write_read more block_no file (ok page, s) =
    more s (write_file_at file (block_no * database_page_size) page)

abbrev pub write_block : (List ℕ → List ℕ → Applied) → Option ℕ → List ℕ → List ℕ → Applied
write_block more none increment file = (err panic, file)
write_block more (some block_no) increment file =
    write_read more block_no file (read_full database_page_size increment)

-- The loop over the blocks of the increment; `k` of them are left, and `i` is the next.
unfoldable pub apply_pages : ℕ → ℕ → List ℕ → List ℕ → List ℕ → Applied
unfolding diff_block
apply_pages zero i diff_map increment file = (ok increment, file)
apply_pages (suc k) i diff_map increment file =
    write_block (apply_pages k ((i + 1) % 2 ^ 32) diff_map) (diff_block diff_map i) increment file

-- One byte behind the pages is an error.
abbrev pub expect_end : Applied → Result IncrementError (Unit {0}) × List ℕ
expect_end (err e, file) = (err e, file)
expect_end (ok [], file) = (ok tt, file)
expect_end (ok (b ∷ s), file) = (err unexpected_tar_data, file)

-- The file that is opened: a missing one is created where that is asked for.
abbrev pub open_file : Option (List ℕ) → Bool → Option (List ℕ)
open_file (some file) create = some file
open_file none true = some []
open_file none false = none

-- A size from 2 ^ 63 on is negative as an int64, which Truncate refuses.
abbrev pub change_file :
    Option (List ℕ) → ℕ × ℕ × List ℕ → List ℕ → Result IncrementError (Unit {0}) × Option (List ℕ)
change_file none fields increment = (err file_must_exist, none)
change_file (some file) (file_size, diff_block_count, diff_map) increment =
    let done =
      expect_end (apply_pages diff_block_count 0 diff_map increment (truncate file_size file)) in
    if ltb file_size (2 ^ 63) then (done.0, some done.1) else (err bad_size, some file)

abbrev pub after_fields :
    Option (List ℕ)
    → Bool
    → Result IncrementError (ℕ × ℕ × List ℕ) × List ℕ
    → Result IncrementError (Unit {0}) × Option (List ℕ)
after_fields file create (err e, s) = (err e, file)
after_fields file create (ok fields, s) = change_file (open_file file create) fields s

unfoldable pub apply_file_increment :
    Option (List ℕ) → List ℕ → Bool → Result IncrementError (Unit {0}) × Option (List ℕ)
unfolding get_increment_header_fields apply_pages
apply_file_increment file increment create =
    after_fields file create (get_increment_header_fields increment)

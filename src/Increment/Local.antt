-- ===== src/Increment/Local.antt =====
-- pagefile_new.go: local files that are put together from increments, newest first. A page that is still
-- to come is a page of zeros, and is told by its header.
pub mod Pages
pub mod Created
pub mod Restored
pub mod Together
use extract.Common.{
  ℕ, zero, suc, ◌+◌, ◌-◌, ◌*◌, ◌/◌, ◌%◌, ◌^◌, List, [], ◌∷◌, length, replicate, any, Bool, true,
  false, ltb, leb, ◌==◌, ◌||◌, if◌then◌else◌, Option, none, some, Result, ok, err,
}
use extract.Walparser.Readers.{ParseError, eof, unexpected_eof, all_zero, read_full, bytes_reader}
use extract.Files.{write_file_at, read_file_at}
use extract.Increment.PageHeader.{
  database_page_size, header_size, IncrementError, read_error, unexpected_tar_data, panic,
}
use extract.Increment.Format.{get_increment_header_fields, diff_block}

-- What a step gives, the file afterwards, and what is left of the reader.
abbrev pub Step : Type 0 → Type 0
Step A = Result IncrementError A × List ℕ × List ℕ

unfoldable pub check_if_missing_page : List ℕ → ℕ → Result IncrementError Bool
check_if_missing_page file block_no =
    elim (read_file_at file (block_no * database_page_size) header_size) [
      | none ↦ err (read_error eof)
      | some page_header ↦ ok (all_zero page_header)
    ]

-- A page that was read is put down where that is asked for or the page is missing.
abbrev pub put_page : List ℕ → ℕ → List ℕ → List ℕ → Result IncrementError Bool → Step Bool
put_page file block_no page content (err e) = (err e, file, content)
put_page file block_no page content (ok false) = (ok false, file, content)
put_page file block_no page content (ok true) =
    (ok true, write_file_at file (block_no * database_page_size) page, content)

abbrev pub put_read : List ℕ → ℕ → Bool → Result ParseError (List ℕ) × List ℕ → Step Bool
put_read file block_no overwrite (err e, content) = (err (read_error e), file, content)
put_read file block_no true (ok page, content) = put_page file block_no page content (ok true)
put_read file block_no false (ok page, content) =
    put_page file block_no page content (check_if_missing_page file block_no)

unfoldable pub write_page : List ℕ → ℕ → List ℕ → Bool → Step Bool
unfolding check_if_missing_page
write_page file block_no content overwrite =
    put_read file block_no overwrite (read_full database_page_size content)

-- io.EOF, of the base or of the target, ends the loop of RestoreMissingPages.
abbrev pub restore_step :
    (List ℕ → List ℕ → Result IncrementError (Unit {0}) × List ℕ)
    → Step Bool
    → Result IncrementError (Unit {0}) × List ℕ
restore_step more (ok wrote, file, base) = more base file
restore_step more (err (read_error eof), file, base) = (ok tt, file)
restore_step more (err e, file, base) = (err e, file)

-- The loop over the pages of the target; `k` are left, and `i` is the next.
unfoldable pub restore_rounds : ℕ → ℕ → List ℕ → List ℕ → Result IncrementError (Unit {0}) × List ℕ
unfolding write_page
restore_rounds zero i base file = (ok tt, file)
restore_rounds (suc k) i base file =
    restore_step (restore_rounds k (i + 1)) (write_page file i base false)

-- `size` is that of the target when it was opened. What is left of the base is only logged.
unfoldable pub restore_missing_pages :
    List ℕ → List ℕ → ℕ → Result IncrementError (Unit {0}) × List ℕ
unfolding restore_rounds
restore_missing_pages base file size = restore_rounds (size / database_page_size) 0 base file

-- The set of the increment's block numbers; no set where Go panics.
unfoldable pub delta_block_numbers : ℕ → ℕ → List ℕ → Option (List ℕ)
unfolding diff_block
delta_block_numbers zero i diff_map = some []
delta_block_numbers (suc k) i diff_map =
    let rest = delta_block_numbers k ((i + 1) % 2 ^ 32) diff_map in
    elim (diff_block diff_map i) [
      | none ↦ none
      | some b ↦ elim rest [ none ↦ none | some bs ↦ some (b ∷ bs) ]
    ]

unfoldable pub empty_page : List ℕ
empty_page = replicate database_page_size 0

abbrev pub created_step :
    (List ℕ → List ℕ → Result IncrementError ℕ × List ℕ)
    → Step Bool
    → Result IncrementError ℕ × List ℕ
created_step more (ok wrote, file, increment) = more increment file
created_step more (err e, file, increment) = (err e, file)

-- The loop over the pages of the new file, with the number of those that are not in the increment.
unfoldable pub create_rounds :
    ℕ → ℕ → List ℕ → ℕ → List ℕ → List ℕ → Result IncrementError ℕ × List ℕ
unfolding write_page
create_rounds zero i blocks missing increment file = (ok missing, file)
create_rounds (suc k) i blocks missing increment file =
    let listed =
      created_step (create_rounds k (i + 1) blocks (missing - 1))
        (write_page file i increment true) in
    let empty =
      create_rounds k (i + 1) blocks missing increment
        (write_file_at file (i * database_page_size) empty_page) in
    if any (λ b. b == i) blocks then listed else empty

abbrev pub create_pages : List ℕ → ℕ → List ℕ → Option (List ℕ) → Result IncrementError ℕ × List ℕ
create_pages file file_size increment none = (err panic, file)
create_pages file file_size increment (some blocks) =
    let page_count = file_size / database_page_size in
    create_rounds page_count 0 blocks page_count increment file

abbrev pub create_from_fields :
    List ℕ → Result IncrementError (ℕ × ℕ × List ℕ) × List ℕ → Result IncrementError ℕ × List ℕ
create_from_fields file (err e, increment) = (err e, file)
create_from_fields file (ok (file_size, diff_block_count, diff_map), increment) =
    create_pages file file_size increment (delta_block_numbers diff_block_count 0 diff_map)

-- The number of missing blocks. What is left of the increment is only logged.
unfoldable pub create_file_from_increment : List ℕ → List ℕ → Result IncrementError ℕ × List ℕ
unfolding create_rounds delta_block_numbers get_increment_header_fields
create_file_from_increment increment file =
    create_from_fields file (get_increment_header_fields increment)

-- io.CopyN of a page to nowhere fails with io.EOF on a short read.
abbrev pub skip_page : Result ParseError (List ℕ) × List ℕ → Result ParseError (Unit {0}) × List ℕ
skip_page (ok page, s) = (ok tt, s)
skip_page (err unexpected_eof, s) = (err eof, s)
skip_page (err e, s) = (err e, s)

abbrev pub count_if : Bool → ℕ → ℕ
count_if true n = n + 1
count_if false n = n

abbrev pub written_step :
    (ℕ → List ℕ → List ℕ → Result IncrementError ℕ × List ℕ)
    → ℕ
    → Step Bool
    → Result IncrementError ℕ × List ℕ
written_step more restored (ok wrote, file, increment) =
    more (count_if wrote restored) increment file
written_step more restored (err e, file, increment) = (err e, file)

abbrev pub skipped_step :
    (ℕ → List ℕ → List ℕ → Result IncrementError ℕ × List ℕ)
    → ℕ
    → List ℕ
    → Result ParseError (Unit {0}) × List ℕ
    → Result IncrementError ℕ × List ℕ
skipped_step more restored file (ok u, increment) = more restored increment file
skipped_step more restored file (err e, increment) = (err (read_error e), file)

-- A block behind the target is passed over.
abbrev pub write_increment_block :
    (ℕ → List ℕ → List ℕ → Result IncrementError ℕ × List ℕ)
    → ℕ
    → ℕ
    → Bool
    → List ℕ
    → List ℕ
    → Option ℕ
    → Result IncrementError ℕ × List ℕ
write_increment_block more restored page_count overwrite increment file none = (err panic, file)
write_increment_block more restored page_count overwrite increment file (some b) =
    if leb page_count b
    then skipped_step more restored file (skip_page (read_full database_page_size increment))
    else written_step more restored (write_page file b increment overwrite)

-- Anything behind the last block is an error.
abbrev pub end_write : ℕ → List ℕ → List ℕ → Result IncrementError ℕ × List ℕ
end_write restored [] file = (ok restored, file)
end_write restored (b ∷ increment) file = (err unexpected_tar_data, file)

unfoldable pub write_rounds :
    ℕ → ℕ → List ℕ → ℕ → Bool → ℕ → List ℕ → List ℕ → Result IncrementError ℕ × List ℕ
unfolding write_page diff_block
write_rounds zero i diff_map page_count overwrite restored increment file =
    end_write restored increment file
write_rounds (suc k) i diff_map page_count overwrite restored increment file =
    write_increment_block (write_rounds k ((i + 1) % 2 ^ 32) diff_map page_count overwrite) restored
      page_count overwrite increment file (diff_block diff_map i)

abbrev pub write_from_fields :
    List ℕ
    → ℕ
    → Bool
    → Result IncrementError (ℕ × ℕ × List ℕ) × List ℕ
    → Result IncrementError ℕ × List ℕ
write_from_fields file size overwrite (err e, increment) = (err e, file)
write_from_fields file size overwrite (ok (file_size, diff_block_count, diff_map), increment) =
    write_rounds diff_block_count 0 diff_map (size / database_page_size) overwrite 0 increment file

-- The number of blocks that have been written.
unfoldable pub write_pages_from_increment :
    List ℕ → List ℕ → ℕ → Bool → Result IncrementError ℕ × List ℕ
unfolding write_rounds get_increment_header_fields
write_pages_from_increment increment file size overwrite =
    write_from_fields file size overwrite (get_increment_header_fields increment)

-- ===== src/Increment/Reader.antt =====
-- incremental_page_reader.go: the reader that gives a relation's file as an increment.
pub mod Contents
pub mod Scan
pub mod Initialize
use extract.Common.{
  ℕ, zero, suc, ◌+◌, ◌-◌, ◌*◌, ◌%◌, ◌^◌, List, [], ◌∷◌, ◌++◌, length, take, drop, Bool, true, false,
  not, ltb, leb, ◌==◌, ◌||◌, if◌then◌else◌, Option, none, some, Result, ok, err,
}
use extract.Walparser.Readers.{ParseError, eof, unexpected_eof, to_bytes}
use extract.Increment.PageHeader.{
  database_page_size, IncrementError, read_error, invalid_block, panic, endless, PageHeader, lsn,
  is_valid, is_new, parse_postgres_page_header,
}

-- The paged file with the place up to which it has been read.
pub record IncrementalPageReader : Type 0 where
  pub paged_file : List ℕ
  pub position : ℕ
  pub file_size : ℕ
  pub start_lsn : ℕ
  pub next : List ℕ
  pub blocks : List ℕ

-- ReadIncrementalFile opens the file at its start, with nothing to give yet.
unfoldable pub open_paged_file : List ℕ → ℕ → ℕ → IncrementalPageReader
open_paged_file file file_size start = record {
  paged_file = file;
  position = 0;
  file_size = file_size;
  start_lsn = start;
  next = [];
  blocks = [];
}

-- io.ReadFull's verdict on what it got for a page.
abbrev pub full_page : List ℕ → Result ParseError (List ℕ)
full_page page =
    if length page == database_page_size
    then ok page
    else if length page == 0
    then err eof
    else err unexpected_eof

abbrev pub read_page_at :
    ℕ → IncrementalPageReader → Result ParseError (List ℕ) × IncrementalPageReader
read_page_at position r =
    let page = take database_page_size (drop position r.paged_file) in
    (full_page page, record r { position = position + length page })

-- io.ReadFull of one page from the place where the file stands.
unfoldable pub read_page :
    IncrementalPageReader → Result ParseError (List ℕ) × IncrementalPageReader
read_page r = read_page_at r.position r

-- The page that was read is what comes next.
abbrev pub set_next :
    Result ParseError (List ℕ) × IncrementalPageReader
    → Result ParseError (Unit {0}) × IncrementalPageReader
set_next (ok page, r) = (ok tt, record r { next = page })
set_next (err e, r) = (err e, r)

unfoldable pub advance_file_reader :
    ℕ → List ℕ → IncrementalPageReader → Result ParseError (Unit {0}) × IncrementalPageReader
unfolding read_page
advance_file_reader block_no blocks r =
    set_next (read_page (record r { blocks = blocks; position = block_no * database_page_size }))

abbrev pub drained :
    Result ParseError (Unit {0}) × IncrementalPageReader
    → Result ParseError Bool × IncrementalPageReader
drained (ok u, r) = (ok true, r)
drained (err e, r) = (err e, r)

abbrev pub drain_blocks :
    List ℕ → IncrementalPageReader → Result ParseError Bool × IncrementalPageReader
drain_blocks [] r = (ok false, r)
drain_blocks (block_no ∷ blocks) r = drained (advance_file_reader block_no blocks r)

unfoldable pub drain_more_data :
    IncrementalPageReader → Result ParseError Bool × IncrementalPageReader
unfolding advance_file_reader
drain_more_data r = drain_blocks r.blocks r

-- What a call of Read has put into its buffer, its error, and the reader afterwards.
abbrev pub Read : Type 0
Read = List ℕ × Option ParseError × IncrementalPageReader

abbrev pub after_drain :
    List ℕ → (IncrementalPageReader → Read) → Result ParseError Bool × IncrementalPageReader → Read
after_drain got more (err e, r) = (got, some e, r)
after_drain got more (ok false, r) = (got, some eof, r)
after_drain got more (ok true, r) = more r

-- The loop of Read; `n` places of the buffer are free. A round takes a block, so the number of blocks
-- is fuel enough.
unfoldable pub read_rounds : ℕ → ℕ → List ℕ → IncrementalPageReader → Read
unfolding drain_more_data
read_rounds zero n got r = (got, some ParseError.no_progress, r)
read_rounds (suc fuel) n got r =
    let copied = take n r.next in
    let r' = record r { next = drop (length copied) r.next } in
    let left = n - length copied in
    let rest =
      after_drain (got ++ copied) (read_rounds fuel left (got ++ copied)) (drain_more_data r') in
    if left == 0 then (got ++ copied, none, r') else rest

unfoldable pub read : ℕ → IncrementalPageReader → Read
unfolding read_rounds
read n r = read_rounds (suc (length r.blocks)) n [] r

-- A page that is not valid is a new one where it gets here.
unfoldable pub is_selected : ℕ → PageHeader → Bool
is_selected start h = not (is_valid h) || leb start (lsn h)

-- Whether the page is valid; a new page, or one that has changed since the start, is listed.
abbrev pub select_by_header :
    ℕ
    → IncrementalPageReader
    → Result ParseError PageHeader
    → Result IncrementError (Bool × IncrementalPageReader)
select_by_header block_no r (err e) = err panic
select_by_header block_no r (ok h) =
    if is_valid h || is_new h
    then ok (
      true,
      if is_selected r.start_lsn h then record r { blocks = r.blocks ++ block_no ∷ [] } else r,
    )
    else ok (false, r)

unfoldable pub select_new_valid_page :
    List ℕ → ℕ → IncrementalPageReader → Result IncrementError (Bool × IncrementalPageReader)
select_new_valid_page page block_no r =
    select_by_header block_no r (parse_postgres_page_header page).0

-- What the scan does with a page and with the end of the file; `more` is the rest of the loop.
abbrev pub after_page :
    ℕ
    → (IncrementalPageReader → Result IncrementError IncrementalPageReader)
    → Result ParseError (List ℕ) × IncrementalPageReader
    → Result IncrementError IncrementalPageReader
after_page block_no more (err e, r) = ok r
after_page block_no more (ok page, r) = elim (select_new_valid_page page block_no r) [
  | err e ↦ err e
  | ok (true, r') ↦ more r'
  | ok (false, r') ↦ err (invalid_block block_no)
]

-- A round reads a page, so the length of the file is fuel enough. The two errors of io.ReadFull on a
-- file that is there end the scan.
unfoldable pub scan_rounds :
    ℕ → ℕ → IncrementalPageReader → Result IncrementError IncrementalPageReader
unfolding read_page
scan_rounds zero block_no r = err endless
scan_rounds (suc fuel) block_no r =
    after_page block_no (scan_rounds fuel ((block_no + 1) % 2 ^ 32)) (read_page r)

unfoldable pub full_scan_initialize :
    IncrementalPageReader → Result IncrementError IncrementalPageReader
unfolding scan_rounds
full_scan_initialize r = scan_rounds (suc (length r.paged_file)) 0 r

-- The blocks of the bitmap's iterator up to the first that the file does not hold as a whole.
unfoldable pub blocks_in_file : ℕ → List ℕ → List ℕ
blocks_in_file file_size [] = []
blocks_in_file file_size (b ∷ bitmap) =
    if leb ((b + 1) % 2 ^ 32 * database_page_size) file_size
    then b ∷ blocks_in_file file_size bitmap
    else []

unfoldable pub delta_bitmap_initialize : List ℕ → IncrementalPageReader → IncrementalPageReader
unfolding blocks_in_file
delta_bitmap_initialize bitmap r = record r {
  blocks = r.blocks ++ blocks_in_file r.file_size bitmap;
}

-- 'w', 'i', the format version '1' and the signature.
abbrev pub increment_file_header : List ℕ
increment_file_header = b'w' ∷ b'i' ∷ b'1' ∷ 0x55 ∷ []

unfoldable pub block_numbers : List ℕ → List ℕ
block_numbers [] = []
block_numbers (b ∷ blocks) = to_bytes 4 b ++ block_numbers blocks

unfoldable pub write_diff_map_to_header : List ℕ → List ℕ → List ℕ
unfolding block_numbers
write_diff_map_to_header blocks header =
    header ++ (to_bytes 4 (length blocks) ++ block_numbers blocks)

-- Without a bitmap the whole file is scanned.
abbrev pub find_blocks :
    Option (List ℕ) → IncrementalPageReader → Result IncrementError IncrementalPageReader
find_blocks none r = full_scan_initialize r
find_blocks (some bitmap) r = ok (delta_bitmap_initialize bitmap r)

-- The size of the increment, and the reader that gives it.
abbrev pub with_header : IncrementalPageReader → ℕ × IncrementalPageReader
with_header r =
    let header =
      write_diff_map_to_header r.blocks (increment_file_header ++ to_bytes 8 r.file_size) in
    (length header + length r.blocks * database_page_size, record r { next = header })

unfoldable pub initialize :
    Option (List ℕ) → IncrementalPageReader → Result IncrementError (ℕ × IncrementalPageReader)
unfolding full_scan_initialize delta_bitmap_initialize write_diff_map_to_header
initialize bitmap r = elim (find_blocks bitmap (record r { blocks = [] })) [
  | err e ↦ err e
  | ok r' ↦ ok (with_header r')
]

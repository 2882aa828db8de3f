-- ===== src/Walparser/Parser.antt =====
-- wal_parser.go: the parser that carries the beginning of a record from page to page, and
-- wal_file_page_reader.go and ExtractLocationsFromWalFile, which run it over a WAL file.
pub mod Persistence
use extract.Common.{
  ℕ, zero, suc, ◌+◌, ◌-◌, List, [], ◌∷◌, ◌++◌, ltb, leb, ◌==◌, if◌then◌else◌, length, Bool, true,
  false, ◌&&◌, not, Option, none, some, Result, ok, err,
}
use extract.Walparser.Readers.{
  ParseError, eof, no_progress, zero_page, zero_page_header, continuation_not_found,
  cant_save_partial_parser, AlignedReader, aligned_reader, bytes_reader, M, ◌>>=◌, ◌>>◌, pure, fail,
  parse_field, read_full, read_to_alignment, all_zero, min_uint32, to_bytes,
}
use extract.Walparser.Readers
use extract.Walparser.Location.{BlockLocation}
use extract.Walparser.Header.{XLogRecordHeader, read_xlog_record_header}
use extract.Walparser.Record.{
  XLogRecord, is_wal_switch, parse_xlog_record_from_bytes, extract_block_locations,
}
use extract.Walparser.Page.{
  XLogPageHeader, XLogPage, PageResult, whole_page, partial_page, no_page, with_records,
  wal_page_size, read_xlog_page_header, read_some, read_xlog_page,
}

abbrev Bytes : Type 0
Bytes = List ℕ

pub record WalParser : Type 0 where
  pub current_record_data : Bytes
  pub has_current_record_beginning : Bool

unfoldable pub new_wal_parser : WalParser
new_wal_parser = record { current_record_data = []; has_current_record_beginning = false }

unfoldable pub set_current_record_data : Bytes → WalParser
set_current_record_data s = record {
  current_record_data = s;
  has_current_record_beginning = ltb 0 (length s);
}

unfoldable pub invalidate : WalParser
unfolding set_current_record_data
invalidate = set_current_record_data []

-- The records of the page behind the rest of the last page's record.
unfoldable pub read_page_records : XLogPageHeader → Bytes → AlignedReader Bytes → PageResult
read_page_records h remaining a = read_xlog_page (suc (length a.inner_reader)) h remaining [] a

-- With the beginning of a record at hand the rest of it is parsed, to see a WAL switch.
unfoldable pub check_wal_switch :
    WalParser → XLogPageHeader → Bytes → AlignedReader Bytes → PageResult
unfolding read_page_records
check_wal_switch p h remaining a =
    if p.has_current_record_beginning
    then elim (parse_xlog_record_from_bytes (p.current_record_data ++ remaining)) [
      | err e ↦ no_page e
      | ok r ↦
          if is_wal_switch r
          then whole_page (with_records h remaining [] [])
          else read_page_records h remaining a
    ]
    else read_page_records h remaining a

-- parsePage behind the page header.
unfoldable pub parse_page_body : WalParser → XLogPageHeader → AlignedReader Bytes → PageResult
unfolding check_wal_switch
parse_page_body p h a =
    let remaining =
      (do read_to_alignment; read_some (min_uint32 h.remaining_data_len wal_page_size)) a in
    elim remaining.0 [
      | err e ↦ no_page e
      | ok s ↦
          if length s == h.remaining_data_len
          then check_wal_switch p h s remaining.1
          else whole_page (with_records h s [] [])
    ]

-- A page of zeros only is told from one whose header alone is zero.
unfoldable pub page_header_error : Bytes → ParseError → ParseError
page_header_error rest zero_page_header = if all_zero rest then zero_page else zero_page_header
page_header_error rest e = e

unfoldable pub parse_page : WalParser → Bytes → PageResult
unfolding parse_page_body page_header_error
parse_page p s =
    let start : AlignedReader Bytes = record {
      inner_reader = s;
      alignment = 8;
      already_read = 0;
    } in
    let header = read_xlog_page_header start in
    elim header.0 [
      | err e ↦ no_page (page_header_error header.1.inner_reader e)
      | ok h ↦ parse_page_body p h header.1
    ]

-- What ParseRecordsFromPage returns, with the parser that it leaves. `page_error` is the error that
-- is returned beside the results.
pub record Parsed : Type 0 where
  pub prev_record_tail : Bytes
  pub page_records : List XLogRecord
  pub page_error : Option ParseError
  pub parser : WalParser

abbrev pub failed : WalParser → ParseError → Parsed
failed p e = record { prev_record_tail = []; page_records = []; page_error = some e; parser = p }

-- The record that the last page began is complete: it is checked and put before the page's own.
unfoldable pub complete_record : WalParser → XLogPage → Option ParseError → Bytes → Parsed
unfolding set_current_record_data
complete_record p page e current = elim (read_xlog_record_header current).0 [
  | err x ↦ failed p x
  | ok h ↦
      if h.total_record_length == length current
      then elim (parse_xlog_record_from_bytes current) [
        | err x ↦ failed p x
        | ok r ↦ record {
          prev_record_tail = [];
          page_records = r ∷ page.records;
          page_error = e;
          parser = set_current_record_data page.next_record_heading_data;
        }
      ]
      else failed p continuation_not_found
]

unfoldable pub use_page : WalParser → XLogPage → Option ParseError → Parsed
unfolding complete_record set_current_record_data
use_page p page e =
    let current = p.current_record_data ++ page.prev_record_trailing_data in
    if ltb (length page.prev_record_trailing_data) page.header.remaining_data_len
    then record {
      prev_record_tail = [];
      page_records = [];
      page_error = e;
      parser = record p { current_record_data = current };
    }
    else if p.has_current_record_beginning
    then complete_record p page e current
    else record {
      prev_record_tail = current;
      page_records = page.records;
      page_error = e;
      parser = set_current_record_data page.next_record_heading_data;
    }

unfoldable pub use_page_result : WalParser → PageResult → Parsed
unfolding use_page
use_page_result p (whole_page page) = use_page p page none
use_page_result p (partial_page page) = use_page p page (some Readers.ParseError.partial_page)
use_page_result p (no_page e) = failed p e

unfoldable pub parse_records_from_page : WalParser → Bytes → Parsed
unfolding use_page_result
parse_records_from_page p s = use_page_result p (parse_page p s)

unfoldable pub save : WalParser → Result ParseError Bytes
save p =
    if ltb 0 (length p.current_record_data) && not p.has_current_record_beginning
    then err cant_save_partial_parser
    else ok (to_bytes 4 (length p.current_record_data) ++ p.current_record_data)

unfoldable pub load_wal_parser : M Bytes WalParser
load_wal_parser = do
  n ← parse_field 4
  s ← read_full n
  pure (record { current_record_data = s; has_current_record_beginning = ltb 0 (length s) })

unfoldable pub load_wal_parser_from_current_record_head : Bytes → WalParser
load_wal_parser_from_current_record_head s = record {
  current_record_data = s;
  has_current_record_beginning = true;
}

-- Which errors of a page ExtractLocationsFromWalFile passes over.
abbrev pub is_passed_over : Option ParseError → Bool
is_passed_over none = true
is_passed_over (some Readers.ParseError.partial_page) = true
is_passed_over (some zero_page) = true
is_passed_over (some e) = false

abbrev pub error_or_eof : Option ParseError → ParseError
error_or_eof none = eof
error_or_eof (some e) = e

-- What ends the loop at the error of reading a page.
abbrev pub end_of_file : List BlockLocation → ParseError → Result ParseError (List BlockLocation)
end_of_file locations eof = ok locations
end_of_file locations e = err e

-- The locations of a file or the error, and the parser afterwards.
abbrev pub Extracted : Type 0
Extracted = Result ParseError (List BlockLocation) × WalParser

-- `more` is what the rest of the file gives.
unfoldable pub use_parsed : Parsed → Extracted → Extracted
use_parsed parsed more =
    if is_passed_over parsed.page_error
    then more
    else (err (error_or_eof parsed.page_error), parsed.parser)

-- A round takes a page of 8192 bytes, so the length of the file is fuel enough.
unfoldable pub extract_locations_loop : ℕ → WalParser → List BlockLocation → Bytes → Extracted
extract_locations_loop zero p locations file = (err no_progress, p)
extract_locations_loop (suc fuel) p locations file =
    let page = read_full wal_page_size file in
    elim page.0 [
      | err e ↦ (end_of_file locations e, p)
      | ok s ↦
          let parsed = parse_records_from_page p s in
          use_parsed parsed (
            extract_locations_loop fuel parsed.parser
              (locations ++ extract_block_locations parsed.page_records) page.1)
    ]

unfoldable pub extract_locations_from_wal_file : WalParser → Bytes → Extracted
unfolding extract_locations_loop
extract_locations_from_wal_file p file = extract_locations_loop (suc (length file)) p [] file

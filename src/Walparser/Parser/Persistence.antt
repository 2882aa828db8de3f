-- ===== src/Walparser/Parser/Persistence.antt =====
-- wal_parser.go: what a parser keeps between two pages, and between Save and LoadWalParser.
use extract.Common.{
  ℕ, ◌<◌, ◌^◌, ◌≡◌, refl, sym, ap, ◌∙◌, List, [], ◌∷◌, ◌++◌, length, ltb, if◌then◌else◌, Bool, true,
  false, Option, none, some, ok, arith, append_assoc,
}
use extract.Walparser.Readers.{
  ParseError, M, ◌>>=◌, pure, of_bytes, to_bytes, parse_field, read_full, bytes_reader,
}
use extract.Walparser.Readers.Laws.{read_full-append, bind_ok, parse_field-to_bytes}
use extract.Walparser.Page.{XLogPage, PageResult, whole_page, partial_page, no_page}
use extract.Walparser.Parser.{
  WalParser, Parsed, set_current_record_data, parse_page, complete_record, use_page,
  use_page_result, parse_records_from_page, save, load_wal_parser,
}
use extract.Walparser.Readers

-- A parser that says it holds the beginning of a record holds a part of it.
unfoldable pub IsConsistent : WalParser → Type 0
IsConsistent p = p.has_current_record_beginning ≡ true → 0 < length p.current_record_data

pub set_current_record_data-IsConsistent : (s : List ℕ) → IsConsistent (set_current_record_data s)
unfolding IsConsistent set_current_record_data
set_current_record_data-IsConsistent s = ground arith

longer : (xs ys : List ℕ) → 0 < length xs → 0 < length (xs ++ ys)
longer [] ys h = omega arith
longer (x ∷ xs) ys h = omega arith

complete_record-IsConsistent :
    (p : WalParser) (page : XLogPage) (e : Option ParseError) (s : List ℕ)
    → IsConsistent p
    → IsConsistent (complete_record p page e s).parser
unfolding complete_record
complete_record-IsConsistent p page e s h =
    ground (arith, set_current_record_data-IsConsistent page.next_record_heading_data)

if_parser :
    (b : Bool) (x y : Parsed)
    → IsConsistent x.parser
    → IsConsistent y.parser
    → IsConsistent (if b then x else y).parser
if_parser true x y h k = h
if_parser false x y h k = k

use_page-IsConsistent :
    (p : WalParser) (page : XLogPage) (e : Option ParseError)
    → IsConsistent p
    → IsConsistent (use_page p page e).parser
unfolding use_page IsConsistent
use_page-IsConsistent p page e h =
    if_parser (ltb (length page.prev_record_trailing_data) page.header.remaining_data_len) _ _
      (λ b. longer p.current_record_data page.prev_record_trailing_data (h b))
      (if_parser p.has_current_record_beginning _ _
        (complete_record-IsConsistent p page e
          (p.current_record_data ++ page.prev_record_trailing_data) h)
        (set_current_record_data-IsConsistent page.next_record_heading_data))

use_page_result-IsConsistent :
    (p : WalParser) (r : PageResult) → IsConsistent p → IsConsistent (use_page_result p r).parser
unfolding use_page_result
use_page_result-IsConsistent p (whole_page page) h = use_page-IsConsistent p page none h
use_page_result-IsConsistent p (partial_page page) h =
    use_page-IsConsistent p page (some Readers.ParseError.partial_page) h
use_page_result-IsConsistent p (no_page e) h = h

-- ParseRecordsFromPage keeps the parser consistent, whatever the page holds and however it fails.
pub parse_records_from_page-IsConsistent :
    (p : WalParser) (s : List ℕ)
    → IsConsistent p
    → IsConsistent (parse_records_from_page p s).parser
unfolding parse_records_from_page
parse_records_from_page-IsConsistent p s h = use_page_result-IsConsistent p (parse_page p s) h

unfoldable load_as : List ℕ → M (List ℕ) WalParser
load_as s =
    pure (record { current_record_data = s; has_current_record_beginning = ltb 0 (length s) })

unfoldable load_data : ℕ → M (List ℕ) WalParser
load_data n = read_full n >>= load_as

load_bytes :
    (p : WalParser) (rest : List ℕ)
    → length p.current_record_data < 2 ^ 32
    → p.has_current_record_beginning ≡ ltb 0 (length p.current_record_data)
    → load_wal_parser ((to_bytes 4 (length p.current_record_data) ++ p.current_record_data) ++ rest)
      ≡ (ok p, rest)
unfolding load_wal_parser load_data load_as
load_bytes p rest bound e =
    ap load_wal_parser
      (append_assoc (to_bytes 4 (length p.current_record_data)) p.current_record_data rest)
    ∙ bind_ok (parse_field 4) load_data _ (
        parse_field-to_bytes 4 (length p.current_record_data) (p.current_record_data ++ rest) bound)
    ∙ bind_ok (read_full (length p.current_record_data)) load_as _
        (read_full-append (length p.current_record_data) p.current_record_data rest refl)
    ∙ ap
        (λ b. (
          ok (record {
            current_record_data = p.current_record_data;
            has_current_record_beginning = b;
          }),
          rest,
        ))
        (sym e)

saved :
    (p : WalParser) (written : List ℕ)
    → save p ≡ ok written
    → to_bytes 4 (length p.current_record_data) ++ p.current_record_data ≡ written
unfolding save
saved p written e = ground arith

agrees :
    (p : WalParser) (written : List ℕ)
    → IsConsistent p
    → save p ≡ ok written
    → p.has_current_record_beginning ≡ ltb 0 (length p.current_record_data)
unfolding save IsConsistent
agrees p written c e = ground arith

-- What Save writes for a consistent parser with less than 4 GiB of data is loaded by LoadWalParser as
-- the same parser, and the bytes behind it are left.
pub load_wal_parser-save :
    (p : WalParser) (written rest : List ℕ)
    → IsConsistent p
    → length p.current_record_data < 2 ^ 32
    → save p ≡ ok written
    → load_wal_parser (written ++ rest) ≡ (ok p, rest)
load_wal_parser-save p written rest c bound e =
    ap (λ t. load_wal_parser (t ++ rest)) (sym (saved p written e))
    ∙ load_bytes p rest bound (agrees p written c e)

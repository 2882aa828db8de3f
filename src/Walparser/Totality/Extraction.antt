-- ===== src/Walparser/Totality/Extraction.antt =====
-- ParseRecordsFromPage and ExtractLocationsFromWalFile end.
use extract.Common.{
  ℕ, zero, suc, ◌<◌, ◌≡◌, ◌≢◌, ap, ◌∙◌, List, [], ◌++◌, length, Bool, true, false, not, Option,
  none, some, Result, ok, err, arith, Option-cases, Result-cases, inl, inr,
}
use extract.Walparser.Readers.{
  ParseError, no_progress, AlignedReader, bytes_reader, aligned_reader, after, read_full,
  read_to_alignment, min_uint32,
}
use extract.Walparser.Location.{BlockLocation}
use extract.Walparser.Record.{parse_xlog_record_from_bytes, extract_block_locations}
use extract.Walparser.Page.{
  XLogPageHeader, XLogPage, PageResult, whole_page, partial_page, no_page, wal_page_size, is_long,
  is_valid, is_zero, read_long_part, check_page_header, read_xlog_page_header, read_some,
}
use extract.Walparser.Parser.{
  WalParser, Parsed, parse_page, parse_page_body, check_wal_switch, read_page_records,
  page_header_error, complete_record, use_page, use_page_result, parse_records_from_page,
  extract_locations_loop, extract_locations_from_wal_file, end_of_file, use_parsed, Extracted,
}
use extract.Walparser.Totality.{bytes_progress}
use extract.Walparser.Totality.Steps.{
  Ends-ok, Good, step, call, field, check, after-ends, read_full-Good, read_loop-less,
}
use extract.Walparser.Totality.Records.{read_xlog_record_header-Good}
use extract.Walparser.Totality.Files.{parse_xlog_record-ends}
use extract.Walparser.Totality.Pages.{
  page_progress, size, read_some-Some, read_to_alignment-Ends, read_xlog_page-ends,
}

read_long_part-Good : (b : Bool) → Good page_progress (read_long_part b)
unfolding read_long_part Good
read_long_part-Good false a = Ends-ok page_progress tt a (page_progress.size a) (omega arith)
read_long_part-Good true a = step page_progress (field page_progress 8 (omega arith)) (λ _ _ h1.
    step page_progress (field page_progress 4 h1) (λ _ _ h2.
      step page_progress (field page_progress 4 h2)
        (λ _ t h3. Ends-ok page_progress tt t (page_progress.size a) h3)))

check_page_header-Good : (h : XLogPageHeader) → Good page_progress (check_page_header h)
unfolding check_page_header Good
check_page_header-Good h a =
    step page_progress (check page_progress (not (is_zero h)) _ (λ e. cc) (omega arith)) (λ _ _ h1.
      step page_progress (check page_progress (is_valid h) _ (λ e. cc) h1) (λ _ _ h2.
        step page_progress
          (call page_progress (read_long_part (is_long h)) (read_long_part-Good (is_long h)) h2)
          (λ _ t h3. Ends-ok page_progress h t (page_progress.size a) h3)))

read_xlog_page_header-Good : Good page_progress read_xlog_page_header
unfolding read_xlog_page_header Good
read_xlog_page_header-Good a = step page_progress (field page_progress 2 (omega arith)) (λ _ _ h1.
    step page_progress (field page_progress 2 h1) (λ _ _ h2.
      step page_progress (field page_progress 4 h2) (λ _ _ h3.
        step page_progress (field page_progress 8 h3) (λ _ _ h4.
          step page_progress (field page_progress 4 h4)
            (λ _ _ h5. call page_progress (check_page_header _) (check_page_header-Good _) h5)))))

no_page-injective : {x y : ParseError} → no_page x ≡ no_page y → x ≡ y
no_page-injective e = cc

some-injective : {x y : ParseError} → Path (Option ParseError) (some x) (some y) → x ≡ y
some-injective e = cc

read_page_records-ends :
    (h : XLogPageHeader) (remaining : List ℕ) (a : AlignedReader (List ℕ))
    → read_page_records h remaining a ≢ no_page no_progress
unfolding read_page_records
read_page_records-ends h remaining a =
    read_xlog_page-ends (suc (size a)) h remaining [] a (omega arith)

check_wal_switch-ends :
    (p : WalParser) (h : XLogPageHeader) (remaining : List ℕ) (a : AlignedReader (List ℕ))
    → check_wal_switch p h remaining a ≢ no_page no_progress
unfolding check_wal_switch parse_xlog_record_from_bytes
check_wal_switch-ends p h remaining a = ground (
  arith,
  read_page_records-ends h remaining a,
  parse_xlog_record-ends (p.current_record_data ++ remaining),
)

remaining-ends :
    (n : ℕ) (a : AlignedReader (List ℕ))
    → (after (read_to_alignment a) (λ _. read_some n)).0 ≢ err no_progress
remaining-ends n a =
    after-ends (read_to_alignment a) (λ _. read_some n) (read_to_alignment-Ends a).ended
      (λ _ t. (read_some-Some n t).ends)

parse_page_body-ends :
    (p : WalParser) (h : XLogPageHeader) (a : AlignedReader (List ℕ))
    → parse_page_body p h a ≢ no_page no_progress
unfolding parse_page_body
parse_page_body-ends p h a =
    let read =
      after (read_to_alignment a)
        (λ _. read_some (min_uint32 h.remaining_data_len wal_page_size)) in
    let ends = remaining-ends (min_uint32 h.remaining_data_len wal_page_size) a in
    elim (Result-cases read.0) [
      | inl (x, e) ↦ rw (parse_page_body, e) (λ w. ends (e ∙ ap err (no_page-injective w)))
      | inr (s, e) ↦ rw (parse_page_body, e) (ground (arith, check_wal_switch-ends p h s read.1))
    ]

page_header_error-ends :
    (rest : List ℕ) (e : ParseError) → e ≢ no_progress → page_header_error rest e ≢ no_progress
unfolding page_header_error
page_header_error-ends rest e h = ground arith

parse_page-ends : (p : WalParser) (s : List ℕ) → parse_page p s ≢ no_page no_progress
unfolding parse_page Good
parse_page-ends p s =
    let start : AlignedReader (List ℕ) = record {
      inner_reader = s;
      alignment = 8;
      already_read = 0;
    } in
    elim (Result-cases (read_xlog_page_header start).0) [
      | inl (x, e) ↦
          rw (parse_page, e)
            (λ w.
              page_header_error-ends (read_xlog_page_header start).1.inner_reader x
                (λ z. (read_xlog_page_header-Good start).ended (e ∙ ap err z))
                (no_page-injective w))
      | inr (h, e) ↦ rw (parse_page, e) (parse_page_body-ends p h (read_xlog_page_header start).1)
    ]

complete_record-ends :
    (p : WalParser) (page : XLogPage) (e : Option ParseError) (s : List ℕ)
    → e ≢ some no_progress
    → (complete_record p page e s).page_error ≢ some no_progress
unfolding complete_record parse_xlog_record_from_bytes Good
complete_record-ends p page e s h =
    ground (arith, (read_xlog_record_header-Good bytes_progress s).ended, parse_xlog_record-ends s)

use_page-ends :
    (p : WalParser) (page : XLogPage) (e : Option ParseError)
    → e ≢ some no_progress
    → (use_page p page e).page_error ≢ some no_progress
unfolding use_page
use_page-ends p page e h = ground (
  arith,
  complete_record-ends p page e (p.current_record_data ++ page.prev_record_trailing_data) h,
)

use_page_result-ends :
    (p : WalParser) (r : PageResult)
    → r ≢ no_page no_progress
    → (use_page_result p r).page_error ≢ some no_progress
unfolding use_page_result
use_page_result-ends p (whole_page page) h = use_page-ends p page none (λ e. cc)
use_page_result-ends p (partial_page page) h = use_page-ends p page _ (λ e. cc)
use_page_result-ends p (no_page e) h = λ w. h (ap no_page (some-injective w))

-- ParseRecordsFromPage comes to an end on every page and in every state of the parser.
pub parse_records_from_page-ends :
    (p : WalParser) (s : List ℕ) → (parse_records_from_page p s).page_error ≢ some no_progress
unfolding parse_records_from_page
parse_records_from_page-ends p s = use_page_result-ends p (parse_page p s) (parse_page-ends p s)

page_costs :
    (file s rest : List ℕ) → read_full wal_page_size file ≡ (ok s, rest) → length rest < length file
unfolding read_full bytes_progress
page_costs file s rest e = read_loop-less bytes_progress 8191 8191 [] s file rest (omega arith) e

paired : {A : Type 0} (r : Result ParseError A × List ℕ) (a : A) → r.0 ≡ ok a → r ≡ (ok a, r.1)
paired (x, s) a e = ap (λ y. (y, s)) e

no_fuel : {n : ℕ} → ¬ (n < 0)
no_fuel h = omega arith

end_of_file-ends :
    (x : ParseError) (ls : List BlockLocation)
    → x ≢ no_progress
    → Path (Result ParseError (List BlockLocation)) (end_of_file ls x) (err no_progress)
    → ⊥
end_of_file-ends x ls h e = ground arith

use_parsed-ends :
    (parsed : Parsed) (more : Extracted)
    → parsed.page_error ≢ some no_progress
    → more.0 ≢ err no_progress
    → (use_parsed parsed more).0 ≢ err no_progress
unfolding use_parsed
use_parsed-ends parsed more h k = ground (arith, Option-cases parsed.page_error)

extract_locations_loop-ends :
    (fuel : ℕ) (p : WalParser) (ls : List BlockLocation) (file : List ℕ)
    → length file < fuel
    → (extract_locations_loop fuel p ls file).0 ≢ err no_progress
unfolding extract_locations_loop Good
extract_locations_loop-ends zero p ls file h = elim (no_fuel h) [ ]
extract_locations_loop-ends (suc fuel) p ls file h =
    elim (Result-cases (read_full wal_page_size file).0) [
      | inl (x, e) ↦
          rw (extract_locations_loop, e)
            (end_of_file-ends x ls
              (λ w. (read_full-Good bytes_progress wal_page_size file).ended (e ∙ ap err w)))
      | inr (s, e) ↦
          let rest = (read_full wal_page_size file).1 in
          let parsed = parse_records_from_page p s in
          rw (extract_locations_loop, e)
            (use_parsed-ends parsed _ (parse_records_from_page-ends p s) (
              extract_locations_loop-ends fuel parsed.parser
                (ls ++ extract_block_locations parsed.page_records) rest
                (omega (arith, h, page_costs file s rest (paired _ s e)))))
    ]

-- ExtractLocationsFromWalFile comes to an end on every file, from every state of the parser.
pub extract_locations_from_wal_file-ends :
    (p : WalParser) (file : List ℕ) → (extract_locations_from_wal_file p file).0 ≢ err no_progress
unfolding extract_locations_from_wal_file
extract_locations_from_wal_file-ends p file =
    extract_locations_loop-ends (suc (length file)) p [] file (omega arith)

-- ===== src/Walparser/Page.antt =====
-- xlog_page.go, xlog_page_header.go, read_xlog_page.go, and the page loop of wal_parser.go.
use Prim.Native.Nat.{bit_and}
use extract.Common.{
  ℕ, zero, suc, ◌-◌, List, [], ◌∷◌, ◌++◌, ltb, ◌==◌, if◌then◌else◌, length, Bool, true, false, ◌&&◌,
  not, none, some, Result, ok, err,
}
use extract.Walparser.Readers.{
  ParseError, eof, no_progress, zero_page_header, invalid_page_header, zero_record_header, Reader,
  AlignedReader, aligned_reader, aligned_read, bytes_reader, M, ◌>>=◌, ◌>>◌, pure, fail, require,
  parse_field, read_to_alignment, all_zero, min_uint32,
}
use extract.Walparser.Header.{XLogRecordHeader, xlog_record_header_size, read_xlog_record_header}
use extract.Walparser.Block.{has_bit}
use extract.Walparser.Record.{XLogRecord, is_wal_switch, parse_xlog_record_from_bytes}

abbrev Bytes : Type 0
Bytes = List ℕ

abbrev pub wal_page_size : ℕ
wal_page_size = 8192

pub record XLogPageHeader : Type 0 where
  pub magic : ℕ
  pub info : ℕ
  pub time_line_id : ℕ
  pub page_address : ℕ
  pub remaining_data_len : ℕ

unfoldable pub is_long : XLogPageHeader → Bool
is_long h = has_bit h.info 0x0002

unfoldable pub has_continuation_record : XLogPageHeader → Bool
has_continuation_record h = has_bit h.info 0x0001

unfoldable pub is_zero : XLogPageHeader → Bool
is_zero h =
    h.magic == 0
    && (h.info == 0 && (h.time_line_id == 0 && (h.page_address == 0 && h.remaining_data_len == 0)))

-- All bits of a uint16 but the three that are defined.
unfoldable pub has_valid_flags : XLogPageHeader → Bool
has_valid_flags h = bit_and h.info 0xfff8 == 0

unfoldable pub has_consistent_remaining_data_len : XLogPageHeader → Bool
unfolding has_continuation_record
has_consistent_remaining_data_len h =
    if has_continuation_record h then not (h.remaining_data_len == 0) else h.remaining_data_len == 0

unfoldable pub is_valid : XLogPageHeader → Bool
unfolding has_valid_flags has_consistent_remaining_data_len
is_valid h = has_valid_flags h && has_consistent_remaining_data_len h

-- The long header's fields are read and thrown away.
unfoldable pub read_long_part : {R : Type 0} ⦃i : Reader R⦄ → Bool → M R (Unit {0})
read_long_part false = pure tt
read_long_part true = do _ ← parse_field 8; _ ← parse_field 4; _ ← parse_field 4; pure tt

-- What is left to do when the fields have been read.
unfoldable pub check_page_header : {R : Type 0} ⦃i : Reader R⦄ → XLogPageHeader → M R XLogPageHeader
unfolding read_long_part is_long is_valid is_zero
check_page_header h = do
  require (not (is_zero h)) zero_page_header
  require (is_valid h) invalid_page_header
  read_long_part (is_long h)
  pure h

unfoldable pub read_xlog_page_header : {R : Type 0} ⦃i : Reader R⦄ → M R XLogPageHeader
read_xlog_page_header = do
  magic ← parse_field 2
  info ← parse_field 2
  time_line_id ← parse_field 4
  page_address ← parse_field 8
  remaining_data_len ← parse_field 4
  check_page_header (record {
    magic = magic;
    info = info;
    time_line_id = time_line_id;
    page_address = page_address;
    remaining_data_len = remaining_data_len;
  })

pub record XLogPage : Type 0 where
  pub header : XLogPageHeader
  pub prev_record_trailing_data : Bytes
  pub records : List XLogRecord
  pub next_record_heading_data : Bytes

-- io.EOF is no failure here: the result is then `a`.
abbrev pub eof_is_ok : {A : Type 0} → A → ParseError → Result ParseError A
eof_is_ok a eof = ok a
eof_is_ok a e = err e

-- One call of Read.
unfoldable pub read_some : ℕ → M (AlignedReader Bytes) Bytes
read_some n a =
    let step = aligned_read n a in
    elim step.1 [ none ↦ (ok step.0, step.2) | some e ↦ (eof_is_ok step.0 e, step.2) ]

-- The rest of a record whose header has been read, and whether it is whole.
unfoldable pub read_record_content :
    Bytes → XLogRecordHeader → M (AlignedReader Bytes) (Bytes × Bool)
unfolding read_some
read_record_content header_bytes h = do
  content ← read_some (min_uint32 (h.total_record_length - xlog_record_header_size) wal_page_size)
  pure (header_bytes ++ content, length content == h.total_record_length - xlog_record_header_size)

unfoldable pub read_record_from_header : Bytes → M (AlignedReader Bytes) (Bytes × Bool)
unfolding read_record_content
read_record_from_header header_bytes =
    if ltb (length header_bytes) xlog_record_header_size
    then (if ltb 0 (length header_bytes) && all_zero header_bytes
        then fail zero_record_header
        else pure (header_bytes, false))
    else elim (read_xlog_record_header header_bytes).0 [
      | err e ↦ fail e
      | ok h ↦ read_record_content header_bytes h
    ]

-- The bytes of the next record of the page, and whether the record is whole.
unfoldable pub try_read_xlog_record_data : M (AlignedReader Bytes) (Bytes × Bool)
unfolding read_some read_record_from_header
try_read_xlog_record_data a =
    let aligned = read_to_alignment a in
    elim aligned.0 [
      | err e ↦ (eof_is_ok ([], false) e, aligned.1)
      | ok _ ↦
          (do
            header_bytes ← read_some xlog_record_header_size
            read_record_from_header header_bytes)
            aligned.1
    ]

-- A page with a nil error, a page with PartialPageError, or no page with another error.
pub data PageResult : Type 0 where
  whole_page partial_page : XLogPage → PageResult
  no_page : ParseError → PageResult

unfoldable pub check_partial_page : Bytes → XLogPage → ParseError → PageResult
check_partial_page rest page zero_record_header =
    if all_zero rest then partial_page page else no_page zero_record_header
check_partial_page rest page e = no_page e

abbrev pub with_records : XLogPageHeader → Bytes → List XLogRecord → Bytes → XLogPage
with_records h remaining records heading = record {
  header = h;
  prev_record_trailing_data = remaining;
  records = records;
  next_record_heading_data = heading;
}

-- The page after the record `r`: a WAL switch ends it.
unfoldable pub add_record :
    XLogPageHeader
    → Bytes
    → List XLogRecord
    → (List XLogRecord → PageResult)
    → XLogRecord
    → PageResult
add_record h remaining records more r =
    if is_wal_switch r
    then whole_page (with_records h remaining (records ++ r ∷ []) [])
    else more (records ++ r ∷ [])

-- Every record takes 24 bytes at least, so the length of the page is fuel enough.
unfoldable pub read_xlog_page :
    ℕ → XLogPageHeader → Bytes → List XLogRecord → AlignedReader Bytes → PageResult
unfolding add_record check_partial_page
read_xlog_page zero h remaining records a = no_page no_progress
read_xlog_page (suc fuel) h remaining records a =
    let step = try_read_xlog_record_data a in
    let rest = step.1.inner_reader in
    elim step.0 [
      | err e ↦ check_partial_page rest (with_records h remaining records []) e
      | ok (record_bytes, false) ↦ whole_page (with_records h remaining records record_bytes)
      | ok (record_bytes, true) ↦ elim (parse_xlog_record_from_bytes record_bytes) [
        | err e ↦ check_partial_page rest (with_records h remaining records []) e
        | ok r ↦ add_record h remaining records (λ rs. read_xlog_page fuel h remaining rs step.1) r
      ]
    ]

-- ===== src/Walparser/Header.antt =====
-- xlog_record_header.go and readXLogRecordHeader of read_xlog_record.go.
use extract.Common.{ℕ, ltb, leb, ◌==◌, if◌then◌else◌, Bool, ◌&&◌, Result, ok, err}
use extract.Walparser.Readers.{
  ParseError, inconsistent_total_length, invalid_resource_manager_id, zero_record_header, Reader, M,
  ◌>>=◌, parse_field,
}

abbrev pub xlog_record_header_size : ℕ
xlog_record_header_size = 24

-- RmNextFreeID of resource_manager_list.go, which counts the managers.
abbrev pub rm_next_free_id : ℕ
rm_next_free_id = 22

pub record XLogRecordHeader : Type 0 where
  pub total_record_length : ℕ
  pub xact_id : ℕ
  pub prev_record_ptr : ℕ
  pub info : ℕ
  pub resource_manager_id : ℕ
  pub crc32_hash : ℕ

unfoldable pub is_zero : XLogRecordHeader → Bool
is_zero h =
    h.total_record_length == 0
    && (h.xact_id == 0
        && (h.prev_record_ptr == 0
            && (h.info == 0 && (h.resource_manager_id == 0 && h.crc32_hash == 0))))

-- The error that checkConsistency returns, or the header itself.
unfoldable pub check_consistency : XLogRecordHeader → Result ParseError XLogRecordHeader
unfolding is_zero
check_consistency h =
    if ltb h.total_record_length xlog_record_header_size
    then (if is_zero h then err zero_record_header else err inconsistent_total_length)
    else if leb rm_next_free_id h.resource_manager_id
    then err invalid_resource_manager_id
    else ok h

unfoldable pub read_xlog_record_header : {R : Type 0} ⦃i : Reader R⦄ → M R XLogRecordHeader
read_xlog_record_header = do
  total_record_length ← parse_field 4
  xact_id ← parse_field 4
  prev_record_ptr ← parse_field 8
  info ← parse_field 1
  resource_manager_id ← parse_field 1
  _ ← parse_field 1
  _ ← parse_field 1
  crc32_hash ← parse_field 4
  λ s. (
    check_consistency (record {
      total_record_length = total_record_length;
      xact_id = xact_id;
      prev_record_ptr = prev_record_ptr;
      info = info;
      resource_manager_id = resource_manager_id;
      crc32_hash = crc32_hash;
    }),
    s,
  )

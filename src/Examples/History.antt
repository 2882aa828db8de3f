-- ===== src/Examples/History.antt =====
-- timeline_history.go and timeline_history_record.go on two rows; positions are hexadecimal numbers.
use extract.Common.{ℕ, ◌≡◌, refl, List, [], ◌∷◌, sort_by, insert_by, some, Result, ok}
use extract.Strconv.{NumError, parse_uint, parse_digits, add_digit, digit_value}
use extract.Segment.{WalSize}
use extract.Segment.WalSegmentNo
use extract.DeltaMap.RelFile.{atoi_oid, span_digits}
use extract.History.{
  TimeLineHistFileRow, TimeLineHistFile, split_at, cut_at, words, join_word, parse_rows, rows,
  first_after, lsn_to_time_line,
}
use extract.History.Answer.{IsFirst, lsn_to_time_line-IsFirst}
use extract.History.Records.{
  TimelineHistoryRecord, split_last_tab, match_history_record, scanned_lines, drop_carriage_return,
  new_history_record_from_string, parse_history_lines, parse_history_file, record_at,
}

abbrev parse_lsn : List ℕ → Result NumError ℕ
parse_lsn s = parse_uint 16 64 s

-- "2\t30\tb #c\n1\t10\ta\n".
abbrev history : TimeLineHistFile
history = record {
  time_line_id = 3;
  filename = [];
  body =
      b'2' ∷ 9 ∷ b'3' ∷ b'0' ∷ 9 ∷ b'b' ∷ 32 ∷ b'#' ∷ b'c' ∷ 10 ∷ b'1' ∷ 9 ∷ b'1' ∷ b'0' ∷ 9 ∷ b'a'
      ∷ 10 ∷ [];
}

abbrev history_rows : List TimeLineHistFileRow
history_rows =
    record { time_line_id = 2; start_lsn = 48; comment = b'b' ∷ [] }
    ∷ record { time_line_id = 1; start_lsn = 16; comment = b'a' ∷ [] }
    ∷ []

rows_of_history : rows parse_lsn history ≡ ok history_rows
unfolding rows parse_rows split_at cut_at words join_word atoi_oid parse_uint parse_digits add_digit
    digit_value
rows_of_history = refl

first_timeline : first_after 3 5 (sort_by (λ row. row.time_line_id) history_rows) ≡ 1
unfolding first_after sort_by insert_by
first_timeline = refl

lsn_to_time_line-IsFirst_example :
    (t : ℕ) × (lsn_to_time_line parse_lsn history 20 ≡ ok t) × IsFirst 3 20 history_rows t
lsn_to_time_line-IsFirst_example =
    lsn_to_time_line-IsFirst parse_lsn history 20 history_rows rows_of_history

abbrev two_bytes : WalSize
two_bytes = record { wal_segment_size = 2; x_log_segments_per_x_log_id = 2 }

abbrev records : List TimelineHistoryRecord
records =
    record { timeline = 2; lsn = 48; comment = b'b' ∷ 32 ∷ b'#' ∷ b'c' ∷ [] }
    ∷ record { timeline = 1; lsn = 16; comment = b'a' ∷ [] }
    ∷ []

records_of_history : parse_history_file parse_lsn two_bytes history.body ≡ ok records
unfolding parse_history_file parse_history_lines scanned_lines drop_carriage_return split_at
    new_history_record_from_string match_history_record split_last_tab span_digits parse_uint
    parse_digits add_digit digit_value
records_of_history = refl

switch_at_segment :
    record_at parse_lsn two_bytes records 8
    ≡ some (record { timeline = 1; lsn = 16; comment = b'a' ∷ [] })
unfolding record_at WalSegmentNo.of_lsn
switch_at_segment = refl

-- ===== src/Segment/DeltaNo.antt =====
-- internal/databases/postgres/delta_no.go: a delta file is named after the first of its 16 segments.
use extract.Common.{ℕ, ◌%◌, List, ◌++◌, Result, ok, ◌>>=◌}
use extract.Segment.{
  WalSize, NameError, add_u64, sub_u64, mul_u64, wal_file_in_delta, delta_filename_suffix,
  trim_suffix, parse_wal_filename,
}
use extract.Segment.WalSegmentNo

unfoldable pub of_wal_segment_no : ℕ → ℕ
of_wal_segment_no wal_segment_no = sub_u64 wal_segment_no (wal_segment_no % wal_file_in_delta)

unfoldable pub add : ℕ → ℕ → ℕ
add delta_no n = add_u64 delta_no (mul_u64 n wal_file_in_delta)

unfoldable pub sub : ℕ → ℕ → ℕ
sub delta_no n = sub_u64 delta_no (mul_u64 n wal_file_in_delta)

unfoldable pub next : ℕ → ℕ
unfolding add
next delta_no = add delta_no 1

unfoldable pub previous : ℕ → ℕ
unfolding sub
previous delta_no = sub delta_no 1

unfoldable pub first_wal_segment_no : ℕ → ℕ
first_wal_segment_no delta_no = delta_no

module _ (w : WalSize) where
  unfoldable pub of_lsn : ℕ → ℕ
  unfolding of_wal_segment_no WalSegmentNo.of_lsn
  of_lsn lsn = of_wal_segment_no (WalSegmentNo.of_lsn w lsn)

  unfoldable pub of_filename : List ℕ → Result NameError ℕ
  of_filename filename = do
    (_, no') ← parse_wal_filename w (trim_suffix filename delta_filename_suffix)
    ok no'

  unfoldable pub first_lsn : ℕ → ℕ
  unfolding first_wal_segment_no WalSegmentNo.first_lsn
  first_lsn delta_no = WalSegmentNo.first_lsn w (first_wal_segment_no delta_no)

  unfoldable pub get_filename : ℕ → ℕ → List ℕ
  get_filename delta_no timeline =
      WalSegmentNo.get_filename w (first_wal_segment_no delta_no) timeline ++ delta_filename_suffix

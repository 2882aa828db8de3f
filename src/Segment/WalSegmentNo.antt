-- ===== src/Segment/WalSegmentNo.antt =====
-- internal/databases/postgres/wal_segment_no.go: the number of a WAL segment in the whole log.
use extract.Common.{ℕ, ◌/◌, List, Result, ok, ◌>>=◌}
use extract.Segment.{
  WalSize, NameError, add_u64, sub_u64, mul_u64, parse_wal_filename, format_wal_file_name,
}

unfoldable pub add : ℕ → ℕ → ℕ
add wal_segment_no n = add_u64 wal_segment_no n

unfoldable pub sub : ℕ → ℕ → ℕ
sub wal_segment_no n = sub_u64 wal_segment_no n

unfoldable pub next : ℕ → ℕ
unfolding add
next wal_segment_no = add wal_segment_no 1

unfoldable pub previous : ℕ → ℕ
unfolding sub
previous wal_segment_no = sub wal_segment_no 1

module _ (w : WalSize) where
  unfoldable pub of_lsn : ℕ → ℕ
  of_lsn lsn = lsn / w.wal_segment_size

  unfoldable pub of_filename : List ℕ → Result NameError ℕ
  of_filename filename = do (_, no') ← parse_wal_filename w filename; ok no'

  unfoldable pub first_lsn : ℕ → ℕ
  first_lsn wal_segment_no = mul_u64 wal_segment_no w.wal_segment_size

  unfoldable pub get_filename : ℕ → ℕ → List ℕ
  get_filename wal_segment_no timeline = format_wal_file_name w timeline wal_segment_no

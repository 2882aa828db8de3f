-- ===== src/Examples/Segment.antt =====
-- File names and numbers at the default segment size of 16 MB.
use extract.Common.{◌+◌, ◌*◌, ◌%◌, ◌^◌, ◌≤◌, ◌<◌, ◌≡◌, ◌&&◌, ltb, leb, ◌==◌, ok, arith}
use extract.Segment.{
  WalSize, set_wal_size, parse_wal_filename, format_wal_file_name, get_next_wal_filename,
  get_delta_filename_for,
}
use extract.Segment.WalSegmentNo
use extract.Segment.DeltaNo
use extract.Segment.Names.{
  IsWalSize, set_wal_size-IsWalSize, parse_wal_filename-format, get_next_wal_filename-format,
  delta_filename_round_trip,
}
use extract.Segment.Arithmetic.{of_lsn-first_lsn, of_wal_segment_no_bounds, of_lsn_bounds}

abbrev size : WalSize
size = record { wal_segment_size = 2 ^ 24; x_log_segments_per_x_log_id = 256 }

size-IsWalSize : IsWalSize size
size-IsWalSize = record {
  size_pos = omega arith;
  count_pos = omega arith;
  count_bound = omega arith;
}

size_of_16 : IsWalSize (set_wal_size 16)
size_of_16 = set_wal_size-IsWalSize 16 (omega arith) (omega arith)

parse_wal_filename-format_example :
    parse_wal_filename size (format_wal_file_name size 1 300) ≡ ok (1, 300)
parse_wal_filename-format_example =
    parse_wal_filename-format size 1 300 size-IsWalSize (omega arith) (omega arith)

get_next_wal_filename-format_example :
    get_next_wal_filename size (format_wal_file_name size 1 255)
    ≡ ok (format_wal_file_name size 1 ((255 + 1) % 2 ^ 64))
get_next_wal_filename-format_example =
    get_next_wal_filename-format size 1 255 size-IsWalSize (omega arith) (omega arith)

delta_filename_round_trip_example :
    (get_delta_filename_for size (format_wal_file_name size 1 300)
      ≡ ok (DeltaNo.get_filename size (DeltaNo.of_wal_segment_no 300) 1))
    × (DeltaNo.of_filename size (DeltaNo.get_filename size (DeltaNo.of_wal_segment_no 300) 1)
        ≡ ok (DeltaNo.of_wal_segment_no 300))
delta_filename_round_trip_example =
    delta_filename_round_trip size 1 300 size-IsWalSize (omega arith) (omega arith)

of_lsn-first_lsn_example :
    ((WalSegmentNo.of_lsn size 5000000000 == 298) ≡ (
      leb (WalSegmentNo.first_lsn size 298) 5000000000
      && ltb 5000000000 (WalSegmentNo.first_lsn size (WalSegmentNo.next 298))))
    × (WalSegmentNo.previous (WalSegmentNo.next 298) ≡ 298)
of_lsn-first_lsn_example = of_lsn-first_lsn size 298 5000000000 (omega arith) (omega arith)

of_wal_segment_no_bounds_example :
    (DeltaNo.of_wal_segment_no 300 ≤ 300)
    × (300 < DeltaNo.of_wal_segment_no 300 + 16)
    × (DeltaNo.of_wal_segment_no 300 % 16 ≡ 0)
of_wal_segment_no_bounds_example = of_wal_segment_no_bounds 300 (omega arith)

of_lsn_bounds_example :
    (DeltaNo.of_lsn size 5000000000 % 16 ≡ 0)
    × (DeltaNo.first_lsn size (DeltaNo.of_lsn size 5000000000) ≤ 5000000000)
    × (5000000000
        < DeltaNo.first_lsn size (DeltaNo.of_lsn size 5000000000) + 16 * size.wal_segment_size)
of_lsn_bounds_example = of_lsn_bounds size 5000000000 (omega arith) (omega arith)

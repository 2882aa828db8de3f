-- ===== src/Examples/Walparser.antt =====
-- The parser on bytes that are no record.
use extract.Common.{◌≢◌, replicate, err}
use extract.Walparser.Readers.{no_progress}
use extract.Walparser.Record.{parse_xlog_record}
use extract.Walparser.Location.{read_locations_from}
use extract.Walparser.Parser.{new_wal_parser, extract_locations_from_wal_file}
use extract.Walparser.Totality.Extraction.{extract_locations_from_wal_file-ends}
use extract.Walparser.Totality.Files.{parse_xlog_record-ends, read_locations_from-ends}

parse_xlog_record-ends_example : (parse_xlog_record (replicate 30 1)).0 ≢ err no_progress
parse_xlog_record-ends_example = parse_xlog_record-ends (replicate 30 1)

read_locations_from-ends_example : (read_locations_from (replicate 30 1)).0 ≢ err no_progress
read_locations_from-ends_example = read_locations_from-ends (replicate 30 1)

extract_locations_from_wal_file-ends_example :
    (extract_locations_from_wal_file new_wal_parser (replicate 16384 0)).0 ≢ err no_progress
extract_locations_from_wal_file-ends_example =
    extract_locations_from_wal_file-ends new_wal_parser (replicate 16384 0)

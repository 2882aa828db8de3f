-- ===== src/Lib.antt =====
-- wal-g archives PostgreSQL: it pushes backups and write-ahead log (WAL) segments to a storage,
-- records which blocks each segment changes, verifies that the storage has every segment, and
-- deletes what is no longer needed. This library models the parts of it that decide something.
--
-- Parts, and where they stand:
-- - Segment: names and numbers of WAL segments and delta files (internal/databases/postgres/
--   timeline.go, wal_segment_no.go, delta_no.go, wal_delta_util.go). A function keeps its name in this
--   library's spelling: ParseWALFilename is parse_wal_filename. Strconv is what they use of Go's
--   strconv and fmt: hexadecimal numbers.
-- - WalVerify: the checks of `wal-verify` and the segment sequences of `wal-show`
--   (wal_segment_runner.go, wal_segment_scanner.go, integrity_check_runner.go,
--   timeline_check_runner.go and wal_show_handler.go in the same directory). The runner's state is the
--   record WalSegmentRunner, the scanner's is WalSegmentScanner; Rounds, Complete and Verdict follow a
--   check from one round to its verdict, Earliest has the segment that it looks down to, and
--   Timeline.Highest the verdict of the timeline check.
-- - Walparser: internal/walparser, which reads the pages of a WAL file into records. Readers has
--   io.Reader as an interface, with a slice of bytes, AlignedReader and ShrinkableReader as its
--   instances, and the monad M of parsers that change their reader also where they fail. Header,
--   Block, Record and Page are the parsers of those structures, Location the lists of block
--   locations, Parser the WalParser that carries a record over from page to page. Totality shows
--   that loops end.
-- - WalDelta: delta_file.go, wal_part.go and wal_part_file.go, the files that a delta backup is
--   computed from. They use the parser and the location lists of Walparser and the sizes of Segment.
-- - Increment: incremental_page_reader.go, postgres_page_header.go, pagefile.go and pagefile_new.go,
--   the increments of relation files. Reader gives a file as an increment: Reader.Scan has which pages
--   it lists, Reader.Contents what its Read gives. Format reads the head of an increment, Apply changes
--   a file by one, and Local puts files together from several. Files has the operations of an os.File
--   on the list of its bytes.
-- - DeltaMap: paged_file_delta_map.go and delta_map_downloader.go, the blocks that have changed between
--   two positions of the log. RelFile reads a path, Map has the bitmaps, Download fills the map from
--   delta files, which WalDelta loads, and from WAL files, which Walparser reads. PagedFile has what
--   pagefile.go says of a path, and the locations of a scan.
-- - History: timeline_history.go, with what LSNToTimeLine answers in History.Answer, and
--   timeline_history_record.go in History.Records.
-- - Compose: rating_tar_ball_composer.go, with internal/compose_rating_evaluator.go and the statistics
--   of bundle_files.go: which files of a backup go into which tar ball. Packed is about
--   composeFiles, Size about the size that an increment is expected to have.
-- - Backup: internal/backup_mark.go, over the interface of internal/generic_metadata.go, and
--   internal/delete_handler.go. Mark.Store is a catalogue in memory that keeps the interface's laws.
-- - WalReceive: wal_segment.go, the segment that `wal-receive` fills message by message, and Stream's
--   loop over the messages that arrive. Stream.antt has what a segment is at any moment, Received what
--   a complete one holds, Naming what its name tells.
-- - Common: Boolean tests, lists over the native numbers, and the Result type for Go's (value, error)
--   pairs. Examples: the theorems at concrete inputs.
--
-- Conventions. A uint32 or uint64 is a number, and what wraps around is written with % 2 ^ w. A byte
-- slice or a string is the list of its bytes; a nil slice that is told from an empty one is `none`.
-- A Go map is an association list or a function. A panic is an error of its own. A store that a
-- handler changes is passed along; sort.Slice is an insertion sort, one of the orders it may give where
-- two elements compare equal. The goroutines that add files to a composer, which take a lock each, are
-- calls one after another.
--
-- Loops. The unlimited scan, the reading of a record's header part, of locations, of parts, of the
-- pages of a file and of a page's records run on fuel, and the recursion along a chain of increments
-- too. The page reader's rounds are bounded by its listed blocks, its scan by the bytes of the file,
-- and the downloads by the numbers between their ends. Where the fuel is chosen by a definition it is
-- the number of bytes, of segments or of blocks that are left, and each round takes one at least; an
-- exhausted loop has a result of its own (`none`, `no_progress`, `endless_chain`, `endless`).
--
-- Not modelled: the storage, archives and streams, compression and encryption, connections to
-- databases, configuration and command lines, output of tables, and the parts for other databases than
-- PostgreSQL. Parameters are the order of the objects in the storage, the metadata of backups, the
-- bitmaps of roaring, the parsers of log positions and what is downloaded under a name. What the code
-- relies on are hypotheses: a strict weak order on the backups, and the laws of IsMetaInteractor and of
-- IsBitmapOps.
pub mod Common
pub mod Strconv
pub mod Segment
pub mod WalVerify
pub mod Walparser
pub mod WalDelta
pub mod Files
pub mod Increment
pub mod DeltaMap
pub mod Compose
pub mod History
pub mod Backup
pub mod WalReceive
pub mod Examples

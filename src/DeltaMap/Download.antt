-- ===== src/DeltaMap/Download.antt =====
-- delta_map_downloader.go and the downloads of paged_file_delta_map.go: the map of everything between
-- two positions, from delta files and, behind the last of them, from WAL files. What is downloaded by
-- name is a parameter. The source returns the map with an error too, and no caller looks at it then.
pub mod Covers
pub mod Wals
pub mod Complete
pub mod Ends
use extract.Common.{
  ℕ, zero, suc, ◌+◌, ◌-◌, ◌%◌, ◌^◌, List, [], ltb, if◌then◌else◌, Result, ok, err, ◌>>=◌,
}
use extract.Segment.{WalSize, sub_u64}
use extract.Segment.DeltaNo
use extract.Segment.WalSegmentNo
use extract.Walparser.Readers.{ParseError}
use extract.Walparser.Location.{BlockLocation}
use extract.Walparser.Parser.{WalParser, Extracted, extract_locations_from_wal_file}
use extract.WalDelta.DeltaFile.{DeltaFile, load_delta_file}
use extract.DeltaMap.Bitmap.{BitmapOps}
use extract.DeltaMap.Map.{PagedFileDeltaMap, add_locations_to_delta}

-- `endless` says that a loop of the model ran out of rounds.
pub data DownloadError (E : Type 0) : Type 0 where
  not_downloaded : E → DownloadError E
  not_parsed : ParseError → DownloadError E
  endless : DownloadError E

abbrev pub downloaded : {E A : Type 0} → Result E A → Result (DownloadError E) A
downloaded (ok a) = ok a
downloaded (err e) = err (not_downloaded e)

abbrev pub parsed : {E A : Type 0} → Result ParseError A → Result (DownloadError E) A
parsed (ok a) = ok a
parsed (err e) = err (not_parsed e)

module _ {B E : Type 0} (o : BitmapOps B) (fetch : List ℕ → Result E (List ℕ)) (w : WalSize) where
  unfoldable pub get_delta_file : List ℕ → Result (DownloadError E) DeltaFile
  get_delta_file filename = do bytes ← downloaded (fetch filename); parsed (load_delta_file bytes).0

  -- The loop from one delta number up to another, with the rounds that may be left.
  unfoldable pub get_locations_from_deltas :
      ℕ → ℕ → ℕ → ℕ → PagedFileDeltaMap B → Result (DownloadError E) (PagedFileDeltaMap B)
  unfolding get_delta_file
  get_locations_from_deltas zero timeline current last m = err endless
  get_locations_from_deltas (suc fuel) timeline current last m =
      let round = get_delta_file (DeltaNo.get_filename w current timeline) >>= λ file.
      get_locations_from_deltas fuel timeline (DeltaNo.next current) last
        (add_locations_to_delta o file.locations m) in
      if ltb current last then round else ok m

  -- The parser goes on from one WAL file to the next.
  abbrev pub add_extracted :
      Extracted → PagedFileDeltaMap B → Result (DownloadError E) (PagedFileDeltaMap B × WalParser)
  add_extracted (err e, p) m = err (not_parsed e)
  add_extracted (ok locations, p) m = ok (add_locations_to_delta o locations m, p)

  unfoldable pub get_locations_from_wal :
      List ℕ
      → WalParser
      → PagedFileDeltaMap B
      → Result (DownloadError E) (PagedFileDeltaMap B × WalParser)
  get_locations_from_wal filename p m = do
    bytes ← downloaded (fetch filename)
    add_extracted (extract_locations_from_wal_file p bytes) m

  unfoldable pub get_locations_from_wals :
      ℕ
      → ℕ
      → ℕ
      → ℕ
      → WalParser
      → PagedFileDeltaMap B
      → Result (DownloadError E) (PagedFileDeltaMap B)
  unfolding get_locations_from_wal
  get_locations_from_wals zero timeline current last p m = err endless
  get_locations_from_wals (suc fuel) timeline current last p m =
      let round =
        get_locations_from_wal (WalSegmentNo.get_filename w current timeline) p m >>= λ next.
        get_locations_from_wals fuel timeline (WalSegmentNo.next current) last next.1 next.0 in
      if ltb current last then round else ok m

  unfoldable pub get_delta_range : ℕ → ℕ → ℕ × ℕ
  get_delta_range first_used_lsn first_not_used_lsn =
      (DeltaNo.of_lsn w first_used_lsn, DeltaNo.of_lsn w first_not_used_lsn)

  unfoldable pub get_wal_segment_range : ℕ → ℕ → ℕ × ℕ
  get_wal_segment_range first_not_used_delta_no first_not_used_lsn = (
    DeltaNo.first_wal_segment_no first_not_used_delta_no,
    WalSegmentNo.next (WalSegmentNo.of_lsn w (sub_u64 first_not_used_lsn 1)),
  )

  -- The last delta file gives its locations and the parser that the WAL files are read with.
  unfoldable pub get_delta_map : ℕ → ℕ → ℕ → Result (DownloadError E) (PagedFileDeltaMap B)
  unfolding get_locations_from_deltas get_locations_from_wals get_delta_range get_wal_segment_range
  get_delta_map timeline first_used_lsn first_not_used_lsn =
      let deltas = get_delta_range first_used_lsn first_not_used_lsn in
      let last_delta = DeltaNo.previous deltas.1 in
      let wals = get_wal_segment_range deltas.1 first_not_used_lsn in
      do
        m ← get_locations_from_deltas (suc (last_delta - deltas.0)) timeline deltas.0 last_delta []
        last_file ← get_delta_file (DeltaNo.get_filename w last_delta timeline)
        get_locations_from_wals (suc (wals.1 - wals.0)) timeline wals.0 wals.1 last_file.wal_parser
            (add_locations_to_delta o last_file.locations m)

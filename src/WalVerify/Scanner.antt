-- ===== src/WalVerify/Scanner.antt =====
-- wal_segment_scanner.go: a scan marks each segment that the runner passes.
use extract.Common.{
  ℕ, zero, suc, List, [], ◌∷◌, ◌++◌, if◌then◌else◌, Bool, true, false, Option, none, some, Result,
  ok, err,
}
use extract.WalVerify.Runner.{
  WalSegmentDescription, WalSegmentRunner, RunnerError, reached_stop_segment, wal_segment_not_found,
  next, force_move_next,
}

pub data ScannedSegmentStatus : Type 0 where
  lost probably_uploading probably_delayed found : ScannedSegmentStatus

abbrev pub is_found : ScannedSegmentStatus → Bool
is_found ScannedSegmentStatus.found = true
is_found _ = false

pub record ScannedSegmentDescription : Type 0 where
  pub description : WalSegmentDescription
  pub status : ScannedSegmentStatus

pub record WalSegmentScanner : Type 0 where
  pub scanned_segments : List ScannedSegmentDescription
  pub wal_segment_runner : WalSegmentRunner

-- A negative limit of the source makes no round, as 0 does.
pub record SegmentScanConfig : Type 0 where
  pub unlimited_scan : Bool
  pub scan_segments_limit : ℕ
  pub stop_on_first_found_segment : Bool
  pub missing_segment_status : ScannedSegmentStatus

unfoldable pub new_scanner : WalSegmentRunner → WalSegmentScanner
new_scanner r = record { scanned_segments = []; wal_segment_runner = r }

unfoldable pub add_scanned_segment :
    WalSegmentScanner → WalSegmentDescription → ScannedSegmentStatus → WalSegmentScanner
add_scanned_segment sc d status = record sc {
  scanned_segments = sc.scanned_segments ++ record { description = d; status = status } ∷ [];
}

-- What one round of the loop does: go on, or return.
pub data Round : Type 0 where
  go_on done : WalSegmentScanner → Round

unfoldable pub after_next :
    SegmentScanConfig
    → WalSegmentScanner
    → Result RunnerError WalSegmentDescription × WalSegmentRunner
    → Round
unfolding add_scanned_segment
after_next c sc (err (wal_segment_not_found _), r) =
    let moved = force_move_next r in
    go_on (
      add_scanned_segment (record sc { wal_segment_runner = moved }) moved.current_wal_segment
        c.missing_segment_status)
after_next c sc (err reached_stop_segment, r) = done (record sc { wal_segment_runner = r })
after_next c sc (ok d, r) =
    let added =
      add_scanned_segment (record sc { wal_segment_runner = r }) d ScannedSegmentStatus.found in
    if c.stop_on_first_found_segment then done added else go_on added

unfoldable pub scan_round : SegmentScanConfig → WalSegmentScanner → Round
unfolding after_next
scan_round c sc = after_next c sc (next sc.wal_segment_runner)

unfoldable pub scan_limited : ℕ → SegmentScanConfig → WalSegmentScanner → WalSegmentScanner
scan_limited zero c sc = sc
scan_limited (suc n) c sc = elim (scan_round c sc) [
  | go_on sc' ↦ scan_limited n c sc'
  | done sc' ↦ sc'
]

-- `none` is no outcome of the program: the fuel of the unlimited loop ran out.
unfoldable pub scan_unlimited : ℕ → SegmentScanConfig → WalSegmentScanner → Option WalSegmentScanner
scan_unlimited zero c sc = none
scan_unlimited (suc fuel) c sc = elim (scan_round c sc) [
  | go_on sc' ↦ scan_unlimited fuel c sc'
  | done sc' ↦ some sc'
]

-- Every round but the last moves the runner one segment back, so the number of the current segment
-- is fuel enough.
unfoldable pub scan : SegmentScanConfig → WalSegmentScanner → Option WalSegmentScanner
unfolding scan_limited scan_unlimited
scan c sc =
    if c.unlimited_scan
    then scan_unlimited (suc sc.wal_segment_runner.current_wal_segment.number) c sc
    else some (scan_limited c.scan_segments_limit c sc)

unfoldable pub get_missing_segments_descriptions :
    List ScannedSegmentDescription → List WalSegmentDescription
get_missing_segments_descriptions [] = []
get_missing_segments_descriptions (s ∷ scanned) =
    if is_found s.status
    then get_missing_segments_descriptions scanned
    else s.description ∷ get_missing_segments_descriptions scanned

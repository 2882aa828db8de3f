-- ===== src/WalVerify/Integrity.antt =====
-- integrity_check_runner.go: the three scans of wal-verify, its verdict, and the earliest backup.
use extract.Common.{
  ℕ, ◌-◌, List, [], ◌∷◌, ltb, leb, ◌==◌, if◌then◌else◌, Bool, true, false, not, ◌&&◌, Option, none,
  some, Result, ok, err,
}
use extract.Segment.{WalSize, NameError, parse_wal_filename}
use extract.WalVerify.Runner.{WalSegmentDescription, WalSegmentRunner, TimelineHistoryRecord}
use extract.WalVerify.Scanner.{
  lost, probably_uploading, probably_delayed, found, WalSegmentScanner, SegmentScanConfig,
  new_scanner, scan,
}
use extract.WalVerify.Sequence.{
  IntegrityScanSegmentSequence, collapse_segments_by_status_and_timeline,
}

pub data WalVerifyCheckStatus : Type 0 where
  status_ok status_warning status_failure : WalVerifyCheckStatus

abbrev pub delayed_scan : ℕ → SegmentScanConfig
delayed_scan limit = record {
  unlimited_scan = false;
  scan_segments_limit = limit;
  stop_on_first_found_segment = true;
  missing_segment_status = probably_delayed;
}

abbrev pub uploading_scan : ℕ → SegmentScanConfig
uploading_scan limit = record {
  unlimited_scan = false;
  scan_segments_limit = limit;
  stop_on_first_found_segment = false;
  missing_segment_status = probably_uploading;
}

abbrev pub lost_scan : SegmentScanConfig
lost_scan = record {
  unlimited_scan = true;
  scan_segments_limit = 0;
  stop_on_first_found_segment = false;
  missing_segment_status = lost;
}

infixl 5 ◌>>=◌
abbrev ◌>>=◌ {ℓ κ} : {A : Type ℓ} {B : Type κ} → Option A → (A → Option B) → Option B
none >>= f = none
some a >>= f = f a

unfoldable pub run_wal_integrity_scan : WalSegmentScanner → ℕ → ℕ → Option WalSegmentScanner
run_wal_integrity_scan scanner uploading_segment_range_size delayed_segment_range_size = do
  delayed ← scan (delayed_scan delayed_segment_range_size) scanner
  uploading ← scan (uploading_scan uploading_segment_range_size) delayed
  scan lost_scan uploading

-- The loop of newWalIntegrityCheckResult; `lost` returns at once.
unfoldable pub check_status_loop :
    WalVerifyCheckStatus → List IntegrityScanSegmentSequence → WalVerifyCheckStatus
check_status_loop status [] = status
check_status_loop status (row ∷ rows) = elim row.status [
  | lost ↦ status_failure
  | probably_delayed ↦ check_status_loop status_warning rows
  | probably_uploading ↦ check_status_loop status_warning rows
  | found ↦ check_status_loop status rows
]

pub record WalVerifyCheckResult : Type 0 where
  pub status : WalVerifyCheckStatus
  pub details : List IntegrityScanSegmentSequence

unfoldable pub new_wal_integrity_check_result :
    List IntegrityScanSegmentSequence → WalVerifyCheckResult
unfolding check_status_loop
new_wal_integrity_check_result sequences = record {
  status = check_status_loop status_ok sequences;
  details = sequences;
}

pub record IntegrityCheckRunner : Type 0 where
  pub start_wal_segment : WalSegmentDescription
  pub stop_wal_segment_no : ℕ
  pub uploading_segment_range_size : ℕ
  pub delayed_segment_range_size : ℕ
  pub storage_segments : List WalSegmentDescription
  pub timeline_switch_map : ℕ → Option TimelineHistoryRecord

abbrev pub runner_of : IntegrityCheckRunner → WalSegmentRunner
runner_of check = record {
  current_wal_segment = check.start_wal_segment;
  wal_folder_segments = check.storage_segments;
  stop_segment_no = check.stop_wal_segment_no;
  timeline_switch_map = check.timeline_switch_map;
}

module _ (w : WalSize) where
  -- Run, from the segments that getSegmentsFromFiles found; `none` only if a scan lacked fuel.
  unfoldable pub run : IntegrityCheckRunner → Option WalVerifyCheckResult
  unfolding run_wal_integrity_scan new_wal_integrity_check_result
  run check = do
    sc ←
        run_wal_integrity_scan (new_scanner (runner_of check)) check.uploading_segment_range_size
          check.delayed_segment_range_size
    some (
        new_wal_integrity_check_result
          (collapse_segments_by_status_and_timeline w sc.scanned_segments))

pub record BackupDetail : Type 0 where
  pub backup_name : List ℕ
  pub wal_file_name : List ℕ
  pub is_permanent : Bool

-- A Go map[uint32]WalSegmentNo.
unfoldable pub switch_lookup : List (ℕ × ℕ) → ℕ → Option ℕ
switch_lookup [] timeline = none
switch_lookup ((t, n) ∷ m) timeline = if t == timeline then some n else switch_lookup m timeline

abbrev starts_before : ℕ → Option ℕ → Bool
starts_before start none = false
starts_before start (some n) = ltb start n

abbrev ends_by : ℕ → Option ℕ → Bool
ends_by start none = true
ends_by start (some n) = leb n start

unfoldable pub check_backup_is_correct : ℕ → BackupDetail → ℕ → ℕ → List (ℕ × ℕ) → Bool
unfolding switch_lookup
check_backup_is_correct current_timeline backup backup_timeline start [] = not backup.is_permanent
check_backup_is_correct current_timeline backup backup_timeline start (e ∷ switches) =
    if backup.is_permanent
    then false
    else if ltb 1 backup_timeline
        && starts_before start (switch_lookup (e ∷ switches) (backup_timeline - 1))
    then false
    else if backup_timeline == current_timeline
    then true
    else not (ends_by start (switch_lookup (e ∷ switches) backup_timeline))

pub data VerifyError : Type 0 where
  no_correct_backup_found : VerifyError
  bad_wal_name : NameError → VerifyError

-- The loop of findEarliestBackup; `best` is the earliest backup so far.
unfoldable pub find_earliest_loop :
    WalSize
    → ℕ
    → List (ℕ × ℕ)
    → Option (BackupDetail × ℕ)
    → List BackupDetail
    → Result VerifyError (Option (BackupDetail × ℕ))
unfolding check_backup_is_correct
find_earliest_loop w current_timeline switches best [] = ok best
find_earliest_loop w current_timeline switches best (b ∷ backups) =
    elim (parse_wal_filename w b.wal_file_name) [
      | err e ↦ err (bad_wal_name e)
      | ok (timeline, start) ↦
          let better =
            check_backup_is_correct current_timeline b timeline start switches
            && elim best [ none ↦ true | some (_, n) ↦ ltb start n ] in
          find_earliest_loop w current_timeline switches (if better then some (b, start) else best)
            backups
    ]

unfoldable pub find_earliest_backup :
    WalSize → ℕ → List BackupDetail → List (ℕ × ℕ) → Result VerifyError (BackupDetail × ℕ)
unfolding find_earliest_loop
find_earliest_backup w current_timeline backups switches =
    elim (find_earliest_loop w current_timeline switches none backups) [
      | err e ↦ err e
      | ok none ↦ err no_correct_backup_found
      | ok (some best) ↦ ok best
    ]

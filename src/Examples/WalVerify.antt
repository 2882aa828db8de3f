-- ===== src/Examples/WalVerify.antt =====
-- wal-verify on a storage of a few segments.
use extract.Common.{
  get_elem?, ok, err, refl, ℕ, ◌-◌, ◌^◌, ◌<◌, ltb, ◌==◌, ◌≡◌, ◌↔◌, List, [], ◌∷◌, ◌++◌, length,
  take, drop, any, map, true, false, Option, none, some, arith,
}
use Prim.Native.Nat.{min}
use extract.Segment.{WalSize, format_wal_file_name}
use extract.Segment.Names.{IsWalSize, parse_wal_filename-format}
use extract.WalVerify.Runner.{WalSegmentDescription, TimelineHistoryRecord, contains_segment}
use extract.WalVerify.Scanner.{
  WalSegmentScanner, new_scanner, lost, probably_delayed, probably_uploading,
}
use extract.WalVerify.Integrity.{
  BackupDetail, find_earliest_backup, find_earliest_loop, no_correct_backup_found,
  IntegrityCheckRunner, WalVerifyCheckResult, status_ok, status_warning, status_failure, runner_of,
  run, run_wal_integrity_scan,
}
use extract.WalVerify.Timeline.{run_timeline_check}
use extract.WalVerify.Timeline.Highest.{tells, run_timeline_check_verdict}
use extract.WalVerify.Earliest.{
  IsCorrect, NoneBefore, NoneCorrect, find_earliest_backup-earliest,
  find_earliest_backup-NoneCorrect,
}
use extract.WalVerify.Rounds.{mark, first_found}
use extract.WalVerify.Complete.{required, run_wal_integrity_scan_phases}
use extract.WalVerify.Verdict.{absent, tolerated, run_verdict}

abbrev size : WalSize
size = record { wal_segment_size = 2 ^ 24; x_log_segments_per_x_log_id = 256 }

size-IsWalSize : IsWalSize size
size-IsWalSize = record {
  size_pos = omega arith;
  count_pos = omega arith;
  count_bound = omega arith;
}

abbrev segment : ℕ → WalSegmentDescription
segment n = record { number = n; timeline = 1 }

abbrev no_switch : ℕ → Option TimelineHistoryRecord
no_switch n = none

-- Segment 7 is missing.
abbrev check : IntegrityCheckRunner
check = record {
  start_wal_segment = segment 9;
  stop_wal_segment_no = 5;
  uploading_segment_range_size = 1;
  delayed_segment_range_size = 1;
  storage_segments = segment 8 ∷ segment 6 ∷ segment 5 ∷ [];
  timeline_switch_map = no_switch;
}

run_verdict_example :
    (result : WalVerifyCheckResult) × (run size check ≡ some result)
    × ((result.status ≡ status_ok)
        ↔ (any (absent check.storage_segments) (required (runner_of check)) ≡ false))
    × ((result.status ≡ status_failure) ↔ (
        any (absent check.storage_segments) (drop (tolerated check) (required (runner_of check)))
        ≡ true))
run_verdict_example = run_verdict size check (omega arith)

run_wal_integrity_scan_phases_example :
    (sc : WalSegmentScanner) × (a : List WalSegmentDescription) × (b : List WalSegmentDescription)
    × (c : List WalSegmentDescription) × (run_wal_integrity_scan (new_scanner (runner_of check)) 1 1
        ≡ some sc)
    × (required (runner_of check) ≡ a ++ (b ++ c))
    × (length a
        ≡ first_found
            (contains_segment (runner_of check).wal_folder_segments)
            (take 1 (required (runner_of check))))
    × (length b ≡ min 1 (length (required (runner_of check)) - length a))
    × (sc.scanned_segments
        ≡ map (mark (runner_of check).wal_folder_segments probably_delayed) a
          ++ (map (mark (runner_of check).wal_folder_segments probably_uploading) b
              ++ map (mark (runner_of check).wal_folder_segments lost) c))
run_wal_integrity_scan_phases_example =
    run_wal_integrity_scan_phases (runner_of check) 1 1 (omega arith)

-- A backup that starts with segment `n` of timeline `t`.
abbrev backup : ℕ → ℕ → BackupDetail
backup t n = record {
  backup_name = [];
  wal_file_name = format_wal_file_name size t n;
  is_permanent = false;
}

two_backups : find_earliest_backup size 1 (backup 1 7 ∷ backup 1 5 ∷ []) [] ≡ ok (backup 1 5, 5)
unfolding find_earliest_backup find_earliest_loop
two_backups =
    rw
      (
        find_earliest_backup,
        find_earliest_loop,
        parse_wal_filename-format size 1 7 size-IsWalSize (omega arith) (omega arith),
        parse_wal_filename-format size 1 5 size-IsWalSize (omega arith) (omega arith),
      )
      refl

find_earliest_backup-earliest_example :
    ((i : ℕ) × ((get_elem? (backup 1 7 ∷ backup 1 5 ∷ []) i ≡ some (backup 1 5))
        × IsCorrect size 1 [] (backup 1 5) 5))
    × NoneBefore size 1 [] 5 (backup 1 7 ∷ backup 1 5 ∷ [])
find_earliest_backup-earliest_example =
    find_earliest_backup-earliest size 1 [] (backup 1 7 ∷ backup 1 5 ∷ []) (backup 1 5) 5
      two_backups

-- Timeline 1 was left in segment 0, before the backup.
left_behind :
    find_earliest_backup size 2 (backup 1 5 ∷ []) ((1, 0) ∷ []) ≡ err no_correct_backup_found
unfolding find_earliest_backup find_earliest_loop
left_behind =
    rw
      (
        find_earliest_backup,
        find_earliest_loop,
        parse_wal_filename-format size 1 5 size-IsWalSize (omega arith) (omega arith),
      )
      refl

find_earliest_backup-NoneCorrect_example : NoneCorrect size 2 ((1, 0) ∷ []) (backup 1 5 ∷ [])
find_earliest_backup-NoneCorrect_example =
    find_earliest_backup-NoneCorrect size 2 ((1, 0) ∷ []) (backup 1 5 ∷ []) left_behind

-- The file 00000002.history.lz4 and a segment of timeline 1.
abbrev names : List (List ℕ)
names =
    (b'0' ∷ b'0' ∷ b'0' ∷ b'0' ∷ b'0' ∷ b'0' ∷ b'0' ∷ b'2' ∷ b'.' ∷ b'h' ∷ b'i' ∷ b's' ∷ b't' ∷ b'o'
      ∷ b'r' ∷ b'y' ∷ b'.' ∷ b'l' ∷ b'z' ∷ b'4' ∷ [])
    ∷ format_wal_file_name size 1 5
    ∷ []

run_timeline_check_verdict_example :
    ((run_timeline_check size 2 names).status ≡ status_ok ↔ (
      (0 < 2)
      × ((any (tells size (λ n. n == 2)) names ≡ true) × (any (tells size (ltb 2)) names ≡ false))))
    × ((run_timeline_check size 2 names).status ≡ status_warning
        ↔ any (tells size (ltb 0)) names ≡ false)
run_timeline_check_verdict_example = run_timeline_check_verdict size 2 names

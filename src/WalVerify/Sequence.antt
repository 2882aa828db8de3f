-- ===== src/WalVerify/Sequence.antt =====
-- WalSegmentsSequence and FindMissingSegments of wal_show_handler.go, and the grouping of scanned
-- segments by integrity_check_runner.go.
use extract.Common.{
  ℕ, List, [], ◌∷◌, map, if◌then◌else◌, leb, ltb, ◌==◌, length, Bool, true, false, ◌||◌, not,
  Option, none, some, any,
}
use extract.Segment.{WalSize, sub_u64, add_u64}
use extract.Segment.WalSegmentNo
use extract.WalVerify.Runner.{
  WalSegmentDescription, WalSegmentRunner, TimelineHistoryRecord, get_file_name,
}
use extract.WalVerify.Scanner.{
  ScannedSegmentStatus, lost, probably_uploading, probably_delayed, found,
  ScannedSegmentDescription, SegmentScanConfig, new_scanner, scan,
  get_missing_segments_descriptions,
}

-- `wal_segment_numbers` is a Go set: a list with no number twice.
pub record WalSegmentsSequence : Type 0 where
  pub timeline_id : ℕ
  pub wal_segment_numbers : List ℕ
  pub min_segment_no : ℕ
  pub max_segment_no : ℕ

unfoldable pub new_segments_sequence : ℕ → ℕ → WalSegmentsSequence
new_segments_sequence timeline_id segment_no = record {
  timeline_id = timeline_id;
  wal_segment_numbers = segment_no ∷ [];
  min_segment_no = segment_no;
  max_segment_no = segment_no;
}

unfoldable pub add_wal_segment_no : WalSegmentsSequence → ℕ → WalSegmentsSequence
add_wal_segment_no s number = record s {
  wal_segment_numbers =
      if any (λ k. k == number) s.wal_segment_numbers
      then s.wal_segment_numbers
      else number ∷ s.wal_segment_numbers;
  min_segment_no = if ltb number s.min_segment_no then number else s.min_segment_no;
  max_segment_no = if ltb s.max_segment_no number then number else s.max_segment_no;
}

-- A scan of the sequence's own numbers, with no timeline switch.
unfoldable pub find_missing_segments : WalSegmentsSequence → Option (List WalSegmentDescription)
find_missing_segments s =
    let runner : WalSegmentRunner = record {
      current_wal_segment = record { number = s.max_segment_no; timeline = s.timeline_id };
      wal_folder_segments =
          map (λ n. record { number = n; timeline = s.timeline_id }) s.wal_segment_numbers;
      stop_segment_no = s.min_segment_no;
      timeline_switch_map = λ n. none;
    } in
    let config : SegmentScanConfig = record {
      unlimited_scan = true;
      scan_segments_limit = 0;
      stop_on_first_found_segment = false;
      missing_segment_status = lost;
    } in
    elim (scan config (new_scanner runner)) [
      | none ↦ none
      | some sc ↦ some (get_missing_segments_descriptions sc.scanned_segments)
    ]

unfoldable pub status_eq : ScannedSegmentStatus → ScannedSegmentStatus → Bool
status_eq lost lost = true
status_eq probably_uploading probably_uploading = true
status_eq probably_delayed probably_delayed = true
status_eq found found = true
status_eq _ _ = false

pub record IntegrityScanSegmentSequence : Type 0 where
  pub timeline_id : ℕ
  pub start_segment : List ℕ
  pub end_segment : List ℕ
  pub segments_count : ℕ
  pub status : ScannedSegmentStatus

-- sort.Slice by number; the numbers of one scan differ, so any sorting gives this order.
unfoldable pub insert_by_number :
    ScannedSegmentDescription → List ScannedSegmentDescription → List ScannedSegmentDescription
insert_by_number s [] = s ∷ []
insert_by_number s (t ∷ sorted) =
    if leb s.description.number t.description.number
    then s ∷ t ∷ sorted
    else t ∷ insert_by_number s sorted

unfoldable pub sort_by_number : List ScannedSegmentDescription → List ScannedSegmentDescription
unfolding insert_by_number
sort_by_number [] = []
sort_by_number (s ∷ scanned) = insert_by_number s (sort_by_number scanned)

module _ (w : WalSize) where
  unfoldable pub new_integrity_scan_segment_sequence :
      WalSegmentsSequence → ScannedSegmentStatus → IntegrityScanSegmentSequence
  new_integrity_scan_segment_sequence s status = record {
    timeline_id = s.timeline_id;
    start_segment = WalSegmentNo.get_filename w s.min_segment_no s.timeline_id;
    end_segment = WalSegmentNo.get_filename w s.max_segment_no s.timeline_id;
    segments_count = length s.wal_segment_numbers;
    status = status;
  }

  -- The loop of collapseSegmentsByStatusAndTimeline over the segments that are left.
  unfoldable pub collapse_loop :
      WalSegmentsSequence
      → ScannedSegmentStatus
      → List ScannedSegmentDescription
      → List IntegrityScanSegmentSequence
  unfolding status_eq
  collapse_loop current status [] = new_integrity_scan_segment_sequence current status ∷ []
  collapse_loop current status (s ∷ scanned) =
      let split =
        new_integrity_scan_segment_sequence current status
        ∷ collapse_loop (new_segments_sequence s.description.timeline s.description.number) s.status
            scanned in
      let grown = collapse_loop (add_wal_segment_no current s.description.number) status scanned in
      if not (status_eq s.status status) || not (current.timeline_id == s.description.timeline)
      then split
      else grown

  unfoldable pub collapse_sorted :
      List ScannedSegmentDescription → List IntegrityScanSegmentSequence
  unfolding collapse_loop
  collapse_sorted [] = []
  collapse_sorted (s ∷ scanned) =
      collapse_loop (new_segments_sequence s.description.timeline s.description.number) s.status
        scanned

  unfoldable pub collapse_segments_by_status_and_timeline :
      List ScannedSegmentDescription → List IntegrityScanSegmentSequence
  unfolding collapse_sorted sort_by_number
  collapse_segments_by_status_and_timeline scanned = collapse_sorted (sort_by_number scanned)

-- The last record of a history, if there is one.
unfoldable pub last_record : List TimelineHistoryRecord → Option TimelineHistoryRecord
last_record [] = none
last_record (r ∷ []) = some r
last_record (r ∷ s ∷ records) = last_record (s ∷ records)

pub record TimelineInfo : Type 0 where
  pub id : ℕ
  pub parent_id : ℕ
  pub switch_point_lsn : ℕ
  pub start_segment : List ℕ
  pub end_segment : List ℕ
  pub segments_count : ℕ
  pub missing_segments : List (List ℕ)
  pub segment_range_size : ℕ
  pub lost_segments : Bool

-- NewTimelineInfo: `none` only if the scan for missing segments lacked fuel.
unfoldable pub new_timeline_info :
    WalSize → WalSegmentsSequence → List TimelineHistoryRecord → Option TimelineInfo
unfolding find_missing_segments last_record
new_timeline_info w s history_records =
    let switch_record = last_record history_records in
    elim (find_missing_segments s) [
      | none ↦ none
      | some missing ↦ some (record {
        id = s.timeline_id;
        parent_id = elim switch_record [ some r ↦ r.timeline | none ↦ 0 ];
        switch_point_lsn = elim switch_record [ some r ↦ r.lsn | none ↦ 0 ];
        start_segment = WalSegmentNo.get_filename w s.min_segment_no s.timeline_id;
        end_segment = WalSegmentNo.get_filename w s.max_segment_no s.timeline_id;
        segments_count = length s.wal_segment_numbers;
        missing_segments = map (get_file_name w) missing;
        segment_range_size = add_u64 (sub_u64 s.max_segment_no s.min_segment_no) 1;
        lost_segments = ltb 0 (length missing);
      })
    ]

-- groupSegmentsByTimelines: the sequence of a timeline grows, or a new one is made.
unfoldable pub add_to_group :
    WalSegmentDescription → List WalSegmentsSequence → List WalSegmentsSequence
unfolding add_wal_segment_no new_segments_sequence
add_to_group d [] = new_segments_sequence d.timeline d.number ∷ []
add_to_group d (s ∷ groups) =
    if s.timeline_id == d.timeline
    then add_wal_segment_no s d.number ∷ groups
    else s ∷ add_to_group d groups

unfoldable pub group_segments_by_timelines : List WalSegmentDescription → List WalSegmentsSequence
unfolding add_to_group
group_segments_by_timelines [] = []
group_segments_by_timelines (d ∷ segments) = add_to_group d (group_segments_by_timelines segments)

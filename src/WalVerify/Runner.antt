-- ===== src/WalVerify/Runner.antt =====
-- wal_segment_runner.go: going back through the WAL segments of the storage, one at a time.
use extract.Common.{
  ℕ, List, [], ◌∷◌, leb, ◌==◌, if◌then◌else◌, Bool, false, ◌&&◌, ◌||◌, Option, none, some, Result,
  ok, err, ◌>>=◌,
}
use extract.Segment.{WalSize, NameError, parse_wal_filename}
use extract.Segment.WalSegmentNo

pub record WalSegmentDescription : Type 0 where
  pub number : ℕ
  pub timeline : ℕ

pub record TimelineHistoryRecord : Type 0 where
  pub timeline : ℕ
  pub lsn : ℕ
  pub comment : List ℕ

pub description_eq : WalSegmentDescription → WalSegmentDescription → Bool
description_eq a b = a.number == b.number && a.timeline == b.timeline

-- A Go map[WalSegmentDescription]bool, of which only the keys are read.
unfoldable pub contains_segment : List WalSegmentDescription → WalSegmentDescription → Bool
unfolding description_eq
contains_segment [] d = false
contains_segment (s ∷ segments) d = description_eq d s || contains_segment segments d

-- `timeline_switch_map` is a Go map: the record under a segment number, if there is one.
pub record WalSegmentRunner : Type 0 where
  pub current_wal_segment : WalSegmentDescription
  pub wal_folder_segments : List WalSegmentDescription
  pub stop_segment_no : ℕ
  pub timeline_switch_map : ℕ → Option TimelineHistoryRecord

-- The error of a missing segment keeps the segment whose file name the message prints.
pub data RunnerError : Type 0 where
  reached_stop_segment : RunnerError
  wal_segment_not_found : WalSegmentDescription → RunnerError

-- The segment before `d`, on the timeline that the history file gives for `d`.
unfoldable pub segment_before :
    (ℕ → Option TimelineHistoryRecord) → WalSegmentDescription → WalSegmentDescription
segment_before switch_map d = record {
  number = WalSegmentNo.previous d.number;
  timeline = elim (switch_map d.number) [ some r ↦ r.timeline | none ↦ d.timeline ];
}

unfoldable pub get_next_segment : WalSegmentRunner → WalSegmentDescription
get_next_segment r = segment_before r.timeline_switch_map r.current_wal_segment

unfoldable pub force_move_next : WalSegmentRunner → WalSegmentRunner
force_move_next r = record r { current_wal_segment = get_next_segment r }

unfoldable pub next : WalSegmentRunner → Result RunnerError WalSegmentDescription × WalSegmentRunner
next r =
    if leb r.current_wal_segment.number r.stop_segment_no
    then (err reached_stop_segment, r)
    else if contains_segment r.wal_folder_segments (get_next_segment r)
    then (ok (get_next_segment r), record r { current_wal_segment = get_next_segment r })
    else (err (wal_segment_not_found (get_next_segment r)), r)

module _ (w : WalSize) where
  unfoldable pub of_name : List ℕ → Result NameError WalSegmentDescription
  of_name name = do
    (timeline, segment_no) ← parse_wal_filename w name
    ok (record { number = segment_no; timeline = timeline })

  unfoldable pub get_file_name : WalSegmentDescription → List ℕ
  get_file_name d = WalSegmentNo.get_filename w d.number d.timeline

  -- createTimelineSwitchMap's loop: a later record under the same segment number wins.
  unfoldable pub add_switch :
      (ℕ → Option TimelineHistoryRecord)
      → List TimelineHistoryRecord
      → ℕ
      → Option TimelineHistoryRecord
  add_switch m [] n = m n
  add_switch m (r ∷ records) n =
      add_switch (λ k. if k == WalSegmentNo.of_lsn w r.lsn then some r else m k) records n

  -- getSegmentsFromFiles on the base names: only NotWalFilenameError skips a file. After another
  -- error the zero description is added, as in the source.
  unfoldable pub segment_of_file :
      Result NameError WalSegmentDescription → Option WalSegmentDescription
  segment_of_file (ok d) = some d
  segment_of_file (err NameError.not_wal_filename) = none
  segment_of_file (err e) = some (record { number = 0; timeline = 0 })

  unfoldable pub add_segment :
      Option WalSegmentDescription → List WalSegmentDescription → List WalSegmentDescription
  add_segment none segments = segments
  add_segment (some d) segments = d ∷ segments

  unfoldable pub get_segments_from_files :
      (List ℕ → List ℕ) → List (List ℕ) → List WalSegmentDescription
  unfolding add_segment segment_of_file of_name
  get_segments_from_files trim_file_extension [] = []
  get_segments_from_files trim_file_extension (f ∷ files) =
      add_segment (segment_of_file (of_name (trim_file_extension f)))
        (get_segments_from_files trim_file_extension files)

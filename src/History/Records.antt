-- ===== src/History/Records.antt =====
-- timeline_history_record.go: the records of a .history file of the storage, and the map from the
-- segments in which the timeline has been switched.
use extract.Common.{
  ℕ, List, [], ◌∷◌, length, ltb, ◌==◌, ◌&&◌, if◌then◌else◌, Option, none, some, Result, ok, err,
  ◌>>=◌,
}
use extract.Strconv.{parse_uint}
use extract.Segment.{WalSize}
use extract.Segment.WalSegmentNo
use extract.DeltaMap.RelFile.{span_digits}
use extract.History.{split_at, HistoryError, numbered, placed}

pub record TimelineHistoryRecord : Type 0 where
  pub timeline : ℕ
  pub lsn : ℕ
  pub comment : List ℕ

-- What is in front of and behind the last tab with a byte behind it.
unfoldable pub split_last_tab : List ℕ → Option (List ℕ × List ℕ)
split_last_tab [] = none
split_last_tab (c ∷ s) = elim (split_last_tab s) [
  | some (before, behind) ↦ some (c ∷ before, behind)
  | none ↦ if c == 9 && ltb 0 (length s) then some ([], s) else none
]

abbrev pub with_digits : List ℕ → Option (List ℕ × List ℕ) → Option (List ℕ × List ℕ × List ℕ)
with_digits digits none = none
with_digits digits (some ([], behind)) = none
with_digits digits (some (c ∷ before, behind)) = some (digits, c ∷ before, behind)

abbrev pub groups_of : List ℕ × List ℕ → Option (List ℕ × List ℕ × List ℕ)
groups_of ([], rest) = none
groups_of (d ∷ digits, []) = none
groups_of (d ∷ digits, c ∷ rest) =
    if c == 9 then with_digits (d ∷ digits) (split_last_tab rest) else none

-- The groups of timelineHistoryRecordRegexp, ^(\d+)\t(.+)\t(.+)$, where it matches; the second is as
-- long as it can be.
unfoldable pub match_history_record : List ℕ → Option (List ℕ × List ℕ × List ℕ)
unfolding split_last_tab
match_history_record row = groups_of (span_digits row)

-- bufio.Scanner drops a carriage return at the end of a line.
unfoldable pub drop_carriage_return : List ℕ → List ℕ
drop_carriage_return [] = []
drop_carriage_return (c ∷ []) = if c == 13 then [] else c ∷ []
drop_carriage_return (c ∷ d ∷ s) = c ∷ drop_carriage_return (d ∷ s)

-- The lines up to the first that does not fit bufio.Scanner's buffer; its error is not looked at.
unfoldable pub scanned_lines : List (List ℕ) → List (List ℕ)
unfolding drop_carriage_return
scanned_lines [] = []
scanned_lines (line ∷ lines) =
    let rest = scanned_lines lines in
    if ltb (length line) 65536 then drop_carriage_return line ∷ rest else []

-- What the storage has of a history file: no such file, an error, or its bytes.
pub data HistoryFile (E : Type 0) : Type 0 where
  not_found : HistoryFile E
  failed : E → HistoryFile E
  found : List ℕ → HistoryFile E

module _ {E : Type 0} (parse_lsn : List ℕ → Result E ℕ) (w : WalSize) where
  abbrev pub record_of :
      Option (List ℕ × List ℕ × List ℕ) → Result (HistoryError E) (Option TimelineHistoryRecord)
  record_of none = ok none
  record_of (some (digits, position, comment)) = do
    timeline ← numbered (parse_uint 10 32 digits)
    lsn ← placed (parse_lsn position)
    ok (some (record { timeline = timeline; lsn = lsn; comment = comment }))

  unfoldable pub new_history_record_from_string :
      List ℕ → Result (HistoryError E) (Option TimelineHistoryRecord)
  unfolding match_history_record
  new_history_record_from_string row = record_of (match_history_record row)

  abbrev pub add_record :
      Option TimelineHistoryRecord → List TimelineHistoryRecord → List TimelineHistoryRecord
  add_record none records = records
  add_record (some r) records = r ∷ records

  -- An empty row is no record either.
  unfoldable pub parse_history_lines :
      List (List ℕ) → Result (HistoryError E) (List TimelineHistoryRecord)
  unfolding new_history_record_from_string
  parse_history_lines [] = ok []
  parse_history_lines (row ∷ lines) = do
    r ← new_history_record_from_string row
    records ← parse_history_lines lines
    ok (add_record r records)

  unfoldable pub parse_history_file : List ℕ → Result (HistoryError E) (List TimelineHistoryRecord)
  unfolding parse_history_lines scanned_lines
  parse_history_file body = parse_history_lines (scanned_lines (split_at 10 body))

  -- A later record takes the place of an earlier one of its segment.
  unfoldable pub record_at : List TimelineHistoryRecord → ℕ → Option TimelineHistoryRecord
  record_at [] segment = none
  record_at (r ∷ records) segment = elim (record_at records segment) [
    | some later ↦ some later
    | none ↦ if WalSegmentNo.of_lsn w r.lsn == segment then some r else none
  ]

  abbrev pub no_switch : ℕ → Option TimelineHistoryRecord
  no_switch segment = none

  -- The map, as its lookup.
  unfoldable pub create_timeline_switch_map :
      HistoryFile (HistoryError E) → Result (HistoryError E) (ℕ → Option TimelineHistoryRecord)
  unfolding parse_history_file record_at
  create_timeline_switch_map not_found = ok no_switch
  create_timeline_switch_map (failed e) = err e
  create_timeline_switch_map (found body) = do
    records ← parse_history_file body
    ok (record_at records)

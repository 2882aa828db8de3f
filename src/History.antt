-- ===== src/History.antt =====
-- timeline_history.go and timeline_history_record.go: the rows of a history file, and the timeline that
-- a position of the log belongs to. The parsers of log positions of pglogrepl and pgx are parameters.
pub mod Answer
pub mod Records
use extract.Common.{
  ℕ, zero, suc, ◌+◌, ◌%◌, ◌^◌, List, [], ◌∷◌, length, sort_by, Bool, true, false, ltb, ◌==◌, ◌&&◌,
  ◌||◌, if◌then◌else◌, Option, none, some, Result, ok, err, ◌>>=◌,
}
use extract.Strconv.{NumError, parse_uint}
use extract.Segment.{WalSize}
use extract.Segment.WalSegmentNo
use extract.DeltaMap.RelFile.{atoi_oid, span_digits, add_part}

-- strings.Split at a byte.
unfoldable pub split_at : ℕ → List ℕ → List (List ℕ)
split_at sep [] = [] ∷ []
split_at sep (c ∷ s) = let rest = split_at sep s in if c == sep then [] ∷ rest else add_part c rest

-- What is in front of the first byte of its kind.
unfoldable pub cut_at : ℕ → List ℕ → List ℕ
cut_at sep [] = []
cut_at sep (c ∷ s) = if c == sep then [] else c ∷ cut_at sep s

-- \s of Go's regular expressions.
abbrev pub is_space : ℕ → Bool
is_space c = c == 32 || (c == 9 || (c == 10 || (c == 12 || c == 13)))

-- A byte in front of a string and of its words.
unfoldable pub join_word : ℕ → List ℕ → List (List ℕ) → List (List ℕ)
join_word c [] rest = (c ∷ []) ∷ rest
join_word c (d ∷ s) rest = if is_space d then (c ∷ []) ∷ rest else add_part c rest

-- All matches of [^\s]+.
unfoldable pub words : List ℕ → List (List ℕ)
unfolding join_word
words [] = []
words (c ∷ s) = let rest = words s in if is_space c then rest else join_word c s rest

pub record TimeLineHistFileRow : Type 0 where
  pub time_line_id : ℕ
  pub start_lsn : ℕ
  pub comment : List ℕ

-- How far Read has got is of no use here: its value receiver loses it.
pub record TimeLineHistFile : Type 0 where
  pub time_line_id : ℕ
  pub filename : List ℕ
  pub body : List ℕ

-- The loop of LSNToTimeLine.
unfoldable pub first_after : ℕ → ℕ → List TimeLineHistFileRow → ℕ
first_after own lsn [] = own
first_after own lsn (row ∷ rows) =
    if ltb lsn row.start_lsn then row.time_line_id else first_after own lsn rows

-- An error of strconv, or of the parser of positions.
pub data HistoryError (E : Type 0) : Type 0 where
  bad_number : NumError → HistoryError E
  bad_lsn : E → HistoryError E

abbrev pub numbered : {E A : Type 0} → Result NumError A → Result (HistoryError E) A
numbered (ok a) = ok a
numbered (err e) = err (bad_number e)

abbrev pub placed : {E A : Type 0} → Result E A → Result (HistoryError E) A
placed (ok a) = ok a
placed (err e) = err (bad_lsn e)

module _ {E : Type 0} (parse_lsn : List ℕ → Result E ℕ) where
  abbrev pub row_of : List ℕ → List ℕ → List ℕ → Result (HistoryError E) TimeLineHistFileRow
  row_of id start comment = do
    time_line_id ← numbered (atoi_oid id)
    start_lsn ← placed (parse_lsn start)
    ok (record { time_line_id = time_line_id; start_lsn = start_lsn; comment = comment })

  -- A line with fewer than two columns is passed over; the third is the comment.
  abbrev pub parse_row : List (List ℕ) → Result (HistoryError E) (Option TimeLineHistFileRow)
  parse_row (id ∷ start ∷ []) = row_of id start [] >>= λ row. ok (some row)
  parse_row (id ∷ start ∷ comment ∷ cols) = row_of id start comment >>= λ row. ok (some row)
  parse_row cols = ok none

  abbrev pub add_row :
      Option TimeLineHistFileRow → List TimeLineHistFileRow → List TimeLineHistFileRow
  add_row none rows = rows
  add_row (some row) rows = row ∷ rows

  unfoldable pub parse_rows : List (List ℕ) → Result (HistoryError E) (List TimeLineHistFileRow)
  unfolding words cut_at
  parse_rows [] = ok []
  parse_rows (line ∷ lines) = do
    row ← parse_row (words (cut_at b'#' line))
    rows ← parse_rows lines
    ok (add_row row rows)

  unfoldable pub rows : TimeLineHistFile → Result (HistoryError E) (List TimeLineHistFileRow)
  unfolding parse_rows split_at
  rows tlh = parse_rows (split_at 10 tlh.body)

  unfoldable pub lsn_to_time_line : TimeLineHistFile → ℕ → Result (HistoryError E) ℕ
  unfolding rows first_after
  lsn_to_time_line tlh lsn = do
    parsed ← rows tlh
    ok (first_after tlh.time_line_id lsn (sort_by (λ row. row.time_line_id) parsed))

-- ===== src/WalVerify/Timeline.antt =====
-- timeline_check_runner.go: whether the current timeline is the highest one in the storage. A file
-- tells its timeline by the name of a WAL segment or of a history file.
pub mod Highest
use extract.Common.{
  ℕ, zero, suc, ◌+◌, ◌-◌, ◌*◌, ◌≤◌, ◌<◌, ◌≡◌, ◌↔◌, refl, sym, ap, ◌∙◌, List, [], ◌∷◌, ◌++◌, length,
  take, drop, any, bytes_eq, Bool, true, false, not, ltb, leb, ◌==◌, ◌&&◌, ◌||◌, if◌then◌else◌,
  Bool-cases, Option, none, some, Option-cases, Result, ok, err, ◌⊎◌, inl, inr, arith,
}
use extract.Strconv.{NumError, parse_uint}
use extract.Segment.{WalSize, NameError, trim_suffix, parse_wal_filename}
use extract.WalVerify.Integrity.{WalVerifyCheckStatus, status_ok, status_warning, status_failure}

-- path.Ext without its dot: what stands behind the last dot of the last element, if it has one.
pub path_ext : List ℕ → Option (List ℕ)
path_ext [] = none
path_ext (c ∷ s) = elim (path_ext s) [
  | some e ↦ some e
  | none ↦ if c == b'.' && not (any (λ d. d == b'/') s) then some s else none
]

pub get_file_extension : List ℕ → List ℕ
get_file_extension s = elim (path_ext s) [ some e ↦ e | none ↦ [] ]

pub trim_file_extension : List ℕ → List ℕ
trim_file_extension s = trim_suffix s (b'.' ∷ get_file_extension s)

abbrev pub is_hex : ℕ → Bool
is_hex c = leb b'0' c && leb c b'9' || (leb b'a' c && leb c b'f' || leb b'A' c && leb c b'F')

abbrev pub is_word : ℕ → Bool
is_word c =
    leb b'0' c && leb c b'9'
    || (leb b'a' c && leb c b'z' || (leb b'A' c && leb c b'Z' || c == b'_'))

-- The longest beginning of hexadecimal digits, and the rest.
pub span_hex : List ℕ → List ℕ × List ℕ
span_hex [] = ([], [])
span_hex (c ∷ s) = let rest = span_hex s in if is_hex c then (c ∷ rest.0, rest.1) else ([], c ∷ s)

abbrev pub history_word : List ℕ
history_word = b'.' ∷ b'h' ∷ b'i' ∷ b's' ∷ b't' ∷ b'o' ∷ b'r' ∷ b'y' ∷ []

-- The optional group (\.\w+)? at the end.
pub is_history_suffix : List ℕ → Bool
is_history_suffix [] = true
is_history_suffix (c ∷ []) = false
is_history_suffix (c ∷ d ∷ s) = c == b'.' && not (any (λ x. not (is_word x)) (d ∷ s))

-- The group of timelineHistoryFileRegexp, ^([0-9a-fA-F]+)\.history(\.\w+)?$, where it matches.
pub match_history : List ℕ → Option (List ℕ)
match_history s =
    let (digits, rest) = span_hex s in
    if ltb 0 (length digits)
      && (bytes_eq (take 8 rest) history_word && is_history_suffix (drop 8 rest))
    then some digits
    else none

pub parse_timeline_from_string : List ℕ → Result NumError ℕ
parse_timeline_from_string s = parse_uint 16 32 s

pub parse_history_name : List ℕ → Option ℕ
parse_history_name base_name = elim (match_history base_name) [
  | none ↦ none
  | some digits ↦ elim (parse_timeline_from_string digits) [ ok n ↦ some n | err e ↦ none ]
]

pub record TimelineCheckResult : Type 0 where
  pub status : WalVerifyCheckStatus
  pub current_timeline_id : ℕ
  pub highest_storage_timeline_id : ℕ

unfoldable pub new_timeline_check_result : ℕ → ℕ → TimelineCheckResult
new_timeline_check_result current highest = record {
  status =
      if ltb 0 highest
      then if current == highest then status_ok else status_failure
      else status_warning;
  current_timeline_id = current;
  highest_storage_timeline_id = highest;
}

module _ (w : WalSize) where
  pub try_parse_timeline_id : List ℕ → Option ℕ
  try_parse_timeline_id file_name =
      let base_name = trim_file_extension file_name in
      elim (parse_wal_filename w base_name) [
        | ok p ↦ some p.0
        | err e ↦ parse_history_name base_name
      ]

  -- The loop of tryFindHighestTimelineID, with the highest timeline so far.
  unfoldable pub find_highest_loop : ℕ → List (List ℕ) → ℕ
  find_highest_loop highest [] = highest
  find_highest_loop highest (name ∷ names) = elim (try_parse_timeline_id name) [
    | none ↦ find_highest_loop highest names
    | some timeline ↦ find_highest_loop (if ltb highest timeline then timeline else highest) names
  ]

  unfoldable pub try_find_highest_timeline_id : List (List ℕ) → ℕ
  unfolding find_highest_loop
  try_find_highest_timeline_id filenames = find_highest_loop 0 filenames

  unfoldable pub run_timeline_check : ℕ → List (List ℕ) → TimelineCheckResult
  unfolding try_find_highest_timeline_id new_timeline_check_result
  run_timeline_check current filenames =
      new_timeline_check_result current (try_find_highest_timeline_id filenames)

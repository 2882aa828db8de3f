-- ===== src/Segment.antt =====
-- Numbers and file names of WAL segments and delta files:
-- internal/databases/postgres/{timeline,wal_segment_no,delta_no,wal_delta_util}.go.
-- A file name is the list of its bytes; a uint64 is a number below 2 ^ 64.
pub mod WalSegmentNo
pub mod DeltaNo
pub mod Names
pub mod Arithmetic
use extract.Common.{
  ℕ, ◌+◌, ◌-◌, ◌*◌, ◌/◌, ◌%◌, ◌^◌, ◌≤◌, ◌<◌, ◌≡◌, List, [], ◌∷◌, ◌++◌, ltb, leb, ◌==◌,
  if◌then◌else◌, length, take, drop, Result, ok, err, ◌>>=◌, Bool, true, false, bytes_eq, ◌&&◌,
}
use extract.Strconv.{NumError, parse_uint, format_08X}

-- uint64 arithmetic wraps.
abbrev pub u64_mod : ℕ
u64_mod = 2 ^ 64

abbrev pub add_u64 : ℕ → ℕ → ℕ
add_u64 a b = (a + b) % u64_mod

abbrev pub sub_u64 : ℕ → ℕ → ℕ
sub_u64 a b = (a + u64_mod - b) % u64_mod

abbrev pub mul_u64 : ℕ → ℕ → ℕ
mul_u64 a b = a * b % u64_mod

abbrev pub wal_file_in_delta : ℕ
wal_file_in_delta = 16

abbrev pub delta_filename_suffix : List ℕ
delta_filename_suffix = b'_' ∷ b'd' ∷ b'e' ∷ b'l' ∷ b't' ∷ b'a' ∷ []

abbrev pub part_filename_suffix : List ℕ
part_filename_suffix = b'_' ∷ b'p' ∷ b'a' ∷ b'r' ∷ b't' ∷ []

-- The two package variables that SetWalSize assigns together.
pub record WalSize : Type 0 where
  pub wal_segment_size : ℕ
  pub x_log_segments_per_x_log_id : ℕ

unfoldable pub set_wal_size : ℕ → WalSize
set_wal_size size_mb =
    let size = mul_u64 (mul_u64 size_mb 1024) 1024 in
    record { wal_segment_size = size; x_log_segments_per_x_log_id = 2 ^ 32 / size }

-- What a call of these functions can fail with. `slice_out_of_range` is a panic.
pub data NameError : Type 0 where
  not_wal_filename incorrect_log_seg_no incorrect_backup_name slice_out_of_range : NameError
  bad_number : NumError → NameError

abbrev pub or_bad_number : Result NumError ℕ → Result NameError ℕ
or_bad_number (ok n) = ok n
or_bad_number (err e) = err (bad_number e)

-- strings.TrimSuffix.
unfoldable pub trim_suffix : List ℕ → List ℕ → List ℕ
trim_suffix s suffix =
    if leb (length suffix) (length s) && bytes_eq (drop (length s - length suffix) s) suffix
    then take (length s - length suffix) s
    else s

module _ (w : WalSize) where
  -- The three groups of eight characters, read in turn.
  unfoldable pub parse_wal_groups : List ℕ → List ℕ → List ℕ → Result NameError (ℕ × ℕ)
  parse_wal_groups timeline hi lo = do
    timeline_id ← or_bad_number (parse_uint 16 32 timeline)
    log_seg_no_hi ← or_bad_number (parse_uint 16 32 hi)
    log_seg_no_lo ← or_bad_number (parse_uint 16 32 lo)
    if leb w.x_log_segments_per_x_log_id log_seg_no_lo
        then err incorrect_log_seg_no
        else ok (
          timeline_id,
          add_u64 (mul_u64 log_seg_no_hi w.x_log_segments_per_x_log_id) log_seg_no_lo,
        )

  unfoldable pub parse_wal_filename : List ℕ → Result NameError (ℕ × ℕ)
  unfolding parse_wal_groups
  parse_wal_filename name =
      if length name == 24
      then parse_wal_groups (take 8 name) (take 8 (drop 8 name)) (take 8 (drop 16 name))
      else err not_wal_filename

  unfoldable pub format_wal_file_name : ℕ → ℕ → List ℕ
  format_wal_file_name timeline log_seg_no =
      format_08X timeline
      ++ (format_08X (log_seg_no / w.x_log_segments_per_x_log_id)
          ++ format_08X (log_seg_no % w.x_log_segments_per_x_log_id))

  pub get_next_wal_filename : List ℕ → Result NameError (List ℕ)
  get_next_wal_filename name = do
    (timeline_id, log_seg_no) ← parse_wal_filename name
    ok (format_wal_file_name timeline_id (add_u64 log_seg_no 1))

  pub is_wal_filename : List ℕ → Bool
  is_wal_filename name = elim (parse_wal_filename name) [ ok p ↦ true | err e ↦ false ]

  pub get_delta_filename_for : List ℕ → Result NameError (List ℕ)
  get_delta_filename_for name = do
    (timeline, log_seg_no) ← parse_wal_filename name
    ok (
        format_wal_file_name timeline (log_seg_no - log_seg_no % wal_file_in_delta)
        ++ delta_filename_suffix)

  -- The error is dropped, and the number is then 0.
  pub get_position_in_delta : List ℕ → ℕ
  get_position_in_delta name = elim (parse_wal_filename name) [
    | ok p ↦ p.1 % wal_file_in_delta
    | err e ↦ 0
  ]

  pub should_prefault : List ℕ → Result NameError (ℕ × Bool × ℕ)
  should_prefault name = do
    (timeline_id, log_seg_no) ← parse_wal_filename name
    if log_seg_no % wal_file_in_delta == 0
        then ok
            (mul_u64 (add_u64 log_seg_no wal_file_in_delta) w.wal_segment_size, true, timeline_id)
        else ok (0, false, 0)

pub parse_timeline_from_string : List ℕ → Result NameError ℕ
parse_timeline_from_string s = or_bad_number (parse_uint 16 32 s)

-- `utility.BackupNamePrefix` is "base_"; slicing past the end is a panic.
pub parse_timeline_from_backup_name : List ℕ → Result NameError ℕ
unfolding parse_timeline_from_string
parse_timeline_from_backup_name name =
    if length name == 0
    then err incorrect_backup_name
    else if ltb (length name) 13
    then err slice_out_of_range
    else parse_timeline_from_string (take 8 (drop 5 name))

pub to_part_filename : List ℕ → List ℕ
to_part_filename name = name ++ part_filename_suffix

pub part_filename_to_delta : List ℕ → List ℕ
part_filename_to_delta name = trim_suffix name part_filename_suffix

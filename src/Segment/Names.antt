-- ===== src/Segment/Names.antt =====
-- Reading back the names of WAL segments and delta files that the program writes.
use extract.Common.{
  ℕ, ◌+◌, ◌-◌, ◌*◌, ◌/◌, ◌%◌, ◌^◌, ◌≤◌, ◌<◌, ◌≡◌, refl, sym, List, [], ◌++◌, leb, if◌then◌else◌,
  length, take, drop, length-append, take_prefix, drop_prefix, ==_iff, append-nil, append_assoc, ok,
  err, true, bytes_eq_refl, arith,
}
use native.Mathlib.Nat.{div-add-mod', mod-lt, div-lt_iff_lt-mul}
use extract.Strconv.Hex.{hex_fixed, length-hex_fixed, format_08X-hex_fixed, parse_uint-hex_fixed}
use extract.Segment.{
  WalSize, NameError, set_wal_size, add_u64, mul_u64, delta_filename_suffix, trim_suffix,
  parse_wal_filename, format_wal_file_name, get_next_wal_filename, get_delta_filename_for,
}
use extract.Segment.WalSegmentNo
use extract.Segment.DeltaNo

-- A size that SetWalSize can leave behind: 2 ^ 32 is cut into at least one segment.
pub record IsWalSize (w : WalSize) : Type 0 where
  pub size_pos : 0 < w.wal_segment_size
  pub count_pos : 0 < w.x_log_segments_per_x_log_id
  pub count_bound : w.x_log_segments_per_x_log_id ≤ 2 ^ 32

-- The sizes that Postgres allows, 1 to 1024 MB, are such.
pub set_wal_size-IsWalSize : (mb : ℕ) → 0 < mb → mb ≤ 1024 → IsWalSize (set_wal_size mb)
unfolding set_wal_size
set_wal_size-IsWalSize mb lo hi = record {
  size_pos = omega arith;
  count_pos = grind arith;
  count_bound = grind arith;
}

length_groups : (a b c : ℕ) → length (hex_fixed 8 a ++ (hex_fixed 8 b ++ hex_fixed 8 c)) ≡ 24
length_groups a b c = omega (
  arith,
  length-append (hex_fixed 8 a) (hex_fixed 8 b ++ hex_fixed 8 c),
  length-append (hex_fixed 8 b) (hex_fixed 8 c),
  length-hex_fixed 8 a,
  length-hex_fixed 8 b,
  length-hex_fixed 8 c,
)

length_two : (a b : ℕ) → length (hex_fixed 8 a ++ hex_fixed 8 b) ≡ 16
length_two a b = omega (
  arith,
  length-append (hex_fixed 8 a) (hex_fixed 8 b),
  length-hex_fixed 8 a,
  length-hex_fixed 8 b,
)

drop_two :
    (a b c : ℕ)
    → take 8 (drop 16 (hex_fixed 8 a ++ (hex_fixed 8 b ++ hex_fixed 8 c))) ≡ hex_fixed 8 c
drop_two a b c =
    rw
      (
        sym (append_assoc (hex_fixed 8 a) (hex_fixed 8 b) (hex_fixed 8 c)),
        drop_prefix (hex_fixed 8 a ++ hex_fixed 8 b) (hex_fixed 8 c) (length_two a b),
      )
      (rw (append-nil) at (take_prefix (hex_fixed 8 c) [] (length-hex_fixed 8 c)))

-- A name in three groups of eight characters.
parse_groups :
    (w : WalSize) (a b c : ℕ)
    → a < 2 ^ 32
    → b < 2 ^ 32
    → c < 2 ^ 32
    → parse_wal_filename w (hex_fixed 8 a ++ (hex_fixed 8 b ++ hex_fixed 8 c)) ≡ (
        if leb w.x_log_segments_per_x_log_id c
        then err NameError.incorrect_log_seg_no
        else ok (a, add_u64 (mul_u64 b w.x_log_segments_per_x_log_id) c))
unfolding parse_wal_filename
parse_groups w a b c ha hb hc = rw (
  take_prefix (hex_fixed 8 a) (hex_fixed 8 b ++ hex_fixed 8 c) (length-hex_fixed 8 a),
  drop_prefix (hex_fixed 8 a) (hex_fixed 8 b ++ hex_fixed 8 c) (length-hex_fixed 8 a),
  take_prefix (hex_fixed 8 b) (hex_fixed 8 c) (length-hex_fixed 8 b),
  drop_two a b c,
  (==_iff (length (hex_fixed 8 a ++ (hex_fixed 8 b ++ hex_fixed 8 c))) 24).1 (length_groups a b c),
  parse_uint-hex_fixed a ha,
  parse_uint-hex_fixed b hb,
  parse_uint-hex_fixed c hc,
)

-- Reading the segment number back from its two halves.
halves : (k n : ℕ) → 0 < k → n < 2 ^ 64 → add_u64 (mul_u64 (n / k) k) (n % k) ≡ n
halves k n h hn = let e : n / k * k + n % k ≡ n = div-add-mod' n k in omega arith

-- The name written for a timeline and a segment number is read back as that pair, if the timeline
-- is a uint32 and the high half of the number fits eight digits.
pub parse_wal_filename-format :
    (w : WalSize) (timeline n : ℕ)
    → IsWalSize w
    → timeline < 2 ^ 32
    → n < 2 ^ 32 * w.x_log_segments_per_x_log_id
    → parse_wal_filename w (format_wal_file_name w timeline n) ≡ ok (timeline, n)
unfolding format_wal_file_name
parse_wal_filename-format w timeline n v ht hn =
    let k = w.x_log_segments_per_x_log_id in
    let lo : n % k < k = mod-lt n v.count_pos in
    let hi : n / k < 2 ^ 32 = (div-lt_iff_lt-mul v.count_pos).1 hn in
    let small : n < 2 ^ 64 = grind arith in
    rw
      (
        format_08X-hex_fixed timeline ht,
        format_08X-hex_fixed (n / k) hi,
        format_08X-hex_fixed (n % k) (omega (arith, v.count_bound)),
        parse_groups w timeline (n / k) (n % k) ht hi (omega (arith, v.count_bound)),
        halves k n v.count_pos small,
      )
      (ground arith)

-- The successor of a written name is the name written for the next segment number.
pub get_next_wal_filename-format :
    (w : WalSize) (timeline n : ℕ)
    → IsWalSize w
    → timeline < 2 ^ 32
    → n < 2 ^ 32 * w.x_log_segments_per_x_log_id
    → get_next_wal_filename w (format_wal_file_name w timeline n)
      ≡ ok (format_wal_file_name w timeline ((n + 1) % 2 ^ 64))
unfolding get_next_wal_filename
get_next_wal_filename-format w timeline n v ht hn =
    rw (parse_wal_filename-format w timeline n v ht hn)

pub trim_suffix-append : (s suffix : List ℕ) → trim_suffix (s ++ suffix) suffix ≡ s
unfolding trim_suffix
trim_suffix-append s suffix =
    let e : length (s ++ suffix) - length suffix ≡ length s =
      omega (arith, length-append s suffix) in
    let l : leb (length suffix) (length (s ++ suffix)) ≡ true =
      ground (arith, length-append s suffix) in
    rw (e, l, drop_prefix s suffix refl, bytes_eq_refl suffix, take_prefix s suffix refl)

round_down : (n : ℕ) → n < 2 ^ 64 → DeltaNo.of_wal_segment_no n ≡ n - n % 16
unfolding DeltaNo.of_wal_segment_no
round_down n h = omega arith

-- The delta file of a written WAL name is the one named by the delta number of the segment, and
-- the delta number is read back from the delta file's name.
pub delta_filename_round_trip :
    (w : WalSize) (timeline n : ℕ)
    → IsWalSize w
    → timeline < 2 ^ 32
    → n < 2 ^ 32 * w.x_log_segments_per_x_log_id
    → (get_delta_filename_for w (format_wal_file_name w timeline n)
        ≡ ok (DeltaNo.get_filename w (DeltaNo.of_wal_segment_no n) timeline))
      × (DeltaNo.of_filename w (DeltaNo.get_filename w (DeltaNo.of_wal_segment_no n) timeline)
          ≡ ok (DeltaNo.of_wal_segment_no n))
unfolding get_delta_filename_for DeltaNo.get_filename DeltaNo.of_filename
    DeltaNo.first_wal_segment_no WalSegmentNo.get_filename
delta_filename_round_trip w timeline n v ht hn =
    let small : n < 2 ^ 64 = grind (arith, v.count_bound) in
    (
      rw (parse_wal_filename-format w timeline n v ht hn, round_down n small),
      rw (
        round_down n small,
        trim_suffix-append (format_wal_file_name w timeline (n - n % 16)) delta_filename_suffix,
        parse_wal_filename-format w timeline (n - n % 16) v ht (omega arith),
      ),
    )

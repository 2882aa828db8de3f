-- ===== src/WalReceive/Naming.antt =====
-- wal_segment.go: the name under which a segment is uploaded.
use extract.Common.{
  ℕ, ◌/◌, ◌^◌, ◌<◌, ◌≡◌, ◌≢◌, List, ◌++◌, length, length-append, Bool-cases, if◌then◌else◌, ok, err,
  arith, inl, inr, ◌*◌,
}
use extract.Segment.{WalSize, not_wal_filename, parse_wal_filename, format_wal_file_name}
use extract.Segment.Names.{IsWalSize, parse_wal_filename-format}
use extract.WalReceive.{WalSegment, is_complete, partial_suffix, segment_name}

parsed-length :
    (w : WalSize) (name : List ℕ) (p : ℕ × ℕ) → parse_wal_filename w name ≡ ok p → length name ≡ 24
unfolding parse_wal_filename
parsed-length w name p e = ground (arith, e)

not_parsed :
    (w : WalSize) (name : List ℕ)
    → length name ≢ 24
    → parse_wal_filename w name ≡ err not_wal_filename
unfolding parse_wal_filename
not_parsed w name h = ground (arith, h)

partial_name :
    (w : WalSize) (name : List ℕ)
    → length name ≡ 24
    → parse_wal_filename w (name ++ partial_suffix) ≡ err not_wal_filename
partial_name w name h =
    not_parsed w (name ++ partial_suffix)
      (λ e. omega (arith, e, h, length-append name partial_suffix))

-- A complete segment is named as a WAL file, from whose name its timeline and its number are read back;
-- the name of a partial one is not taken for that of a WAL file. The timeline is a uint32 and the high
-- half of the segment's number fits eight digits.
pub parse_wal_filename-segment_name :
    (w : WalSize) (seg : WalSegment)
    → IsWalSize w
    → seg.time_line < 2 ^ 32
    → seg.start_lsn / seg.wal_segment_bytes < 2 ^ 32 * w.x_log_segments_per_x_log_id
    → parse_wal_filename w (segment_name w seg) ≡ (
        if is_complete seg
        then ok (seg.time_line, seg.start_lsn / seg.wal_segment_bytes)
        else err not_wal_filename)
unfolding segment_name
parse_wal_filename-segment_name w seg v ht hn =
    let name = format_wal_file_name w seg.time_line (seg.start_lsn / seg.wal_segment_bytes) in
    let parsed =
      parse_wal_filename-format w seg.time_line (seg.start_lsn / seg.wal_segment_bytes) v ht hn in
    elim (Bool-cases (is_complete seg)) [
      | inl c ↦ rw (segment_name, c) parsed
      | inr c ↦ rw (segment_name, c) (partial_name w name (parsed-length w name _ parsed))
    ]

-- ===== src/Examples/WalReceive.antt =====
-- wal_segment.go on segments of four bytes and a message that crosses two of them.
use extract.Common.{
  err, if◌then◌else◌, ◌^◌, ◌/◌, ℕ, ◌≡◌, All, refl, List, [], ◌∷◌, true, none, some, ok, arith,
}
use extract.WalReceive.{
  BackendMessage, keepalive, xlog_data, WalSegment, process_ok, new_wal_segment, process_message,
  stream, next_wal_segment, is_complete, segment_name,
}
use extract.Segment.{WalSize, parse_wal_filename, not_wal_filename}
use extract.Segment.Names.{IsWalSize}
use extract.WalReceive.Naming.{parse_wal_filename-segment_name}
use extract.WalReceive.Stream.{slice, Agrees}
use extract.WalReceive.Received.{
  Received, first, message, stream-Received, next_wal_segment-Received,
}

-- The byte at a position is the position.
abbrev wal : ℕ → ℕ
wal n = n

abbrev crossing : BackendMessage
crossing = xlog_data 8 (8 ∷ 9 ∷ 10 ∷ 11 ∷ 12 ∷ 13 ∷ [])

crossing-Agrees : Agrees wal crossing
unfolding Agrees slice
crossing-Agrees = (refl, omega arith)

abbrev segment : WalSegment
segment = (process_message crossing (new_wal_segment 1 9 4)).1

segment-Received : Received wal segment
segment-Received =
    message crossing (new_wal_segment 1 9 4) (first 1 9 4 (omega arith) (omega arith))
      crossing-Agrees

-- A keepalive comes first, and a message of the next segment is left.
abbrev messages : List BackendMessage
messages = keepalive true ∷ crossing ∷ xlog_data 14 (14 ∷ 15 ∷ []) ∷ []

messages-Agrees : All (Agrees wal) messages
unfolding Agrees slice
messages-Agrees = (tt, (crossing-Agrees, ((refl, omega arith), tt)))

stream_ends :
    stream messages (new_wal_segment 1 9 4)
    ≡ ((some process_ok, segment), xlog_data 14 (14 ∷ 15 ∷ []) ∷ [])
unfolding stream new_wal_segment is_complete
stream_ends = refl

stream-Received_example : segment.contents ≡ slice wal segment.start_lsn segment.wal_segment_bytes
stream-Received_example =
    stream-Received wal messages (new_wal_segment 1 9 4) segment (xlog_data 14 (14 ∷ 15 ∷ []) ∷ [])
      messages-Agrees (first 1 9 4 (omega arith) (omega arith)) stream_ends

abbrev second : WalSegment
second = record {
  time_line = 1;
  start_lsn = 12;
  end_lsn = 16;
  wal_segment_bytes = 4;
  contents = 12 ∷ 13 ∷ 0 ∷ 0 ∷ [];
  read_index = 0;
  write_index = 2;
  last_msg = none;
}

second_follows : next_wal_segment segment ≡ ok second
unfolding next_wal_segment
second_follows = refl

next_wal_segment-Received_example : second.start_lsn ≡ segment.end_lsn
next_wal_segment-Received_example =
    next_wal_segment-Received wal segment second segment-Received second_follows

abbrev size : WalSize
size = record { wal_segment_size = 2 ^ 24; x_log_segments_per_x_log_id = 256 }

size-IsWalSize : IsWalSize size
size-IsWalSize = record {
  size_pos = omega arith;
  count_pos = omega arith;
  count_bound = omega arith;
}

-- The segment that follows holds two of its four bytes.
parse_wal_filename-segment_name_example :
    parse_wal_filename size (segment_name size second)
    ≡ (if is_complete second then ok (1, 12 / 4) else err not_wal_filename)
parse_wal_filename-segment_name_example =
    parse_wal_filename-segment_name size second size-IsWalSize (omega arith) (omega arith)

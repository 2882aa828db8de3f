-- ===== src/WalReceive.antt =====
-- wal_segment.go: the WAL segment that `wal-receive` fills from the messages of a replication
-- connection. A message is what pglogrepl and pgproto3 make of it; its first byte tells its kind.
pub mod Writing
pub mod Stream
pub mod Received
pub mod Naming
use extract.Common.{
  ℕ, ◌+◌, ◌-◌, ◌*◌, ◌/◌, ◌%◌, ◌^◌, List, [], ◌∷◌, ◌++◌, length, take, drop, replicate, Bool, true,
  false, ltb, leb, ◌==◌, if◌then◌else◌, Option, none, some, Result, ok, err,
}
use Prim.Native.Nat.{min}
use extract.Segment.{WalSize, format_wal_file_name}

-- CopyData with a keepalive (whether a reply is requested), with WAL (its first position and its
-- bytes) or with something else; CopyDone; any other message.
pub data BackendMessage : Type 0 where
  keepalive : Bool → BackendMessage
  xlog_data : ℕ → List ℕ → BackendMessage
  other_copy_data copy_done unexpected : BackendMessage

pub record WalSegment : Type 0 where
  pub time_line : ℕ
  pub start_lsn : ℕ
  pub end_lsn : ℕ
  pub wal_segment_bytes : ℕ
  pub contents : List ℕ
  pub read_index : ℕ
  pub write_index : ℕ
  pub last_msg : Option BackendMessage

-- The error beside the result is nil but for the last three.
pub data ProcessMessageResult : Type 0 where
  process_ok process_copy_done reply_requested : ProcessMessageResult
  process_unknown segment_gap mismatch : ProcessMessageResult

pub data SegmentError : Type 0 where
  not_complete unexpected_result : SegmentError
  refused : ProcessMessageResult → SegmentError

-- A position is a uint64.
abbrev pub lsn_mod : ℕ
lsn_mod = 2 ^ 64

unfoldable pub new_wal_segment : ℕ → ℕ → ℕ → WalSegment
new_wal_segment time_line location wal_segment_bytes =
    let start = location / wal_segment_bytes * wal_segment_bytes in
    record {
      time_line = time_line;
      start_lsn = start;
      end_lsn = (start + wal_segment_bytes) % lsn_mod;
      wal_segment_bytes = wal_segment_bytes;
      contents = replicate wal_segment_bytes 0;
      read_index = 0;
      write_index = 0;
      last_msg = none;
    }

unfoldable pub is_complete : WalSegment → Bool
is_complete seg = leb seg.end_lsn ((seg.start_lsn + seg.write_index) % lsn_mod)

-- copy(dst[at:], src), and how many bytes it copies.
unfoldable pub copied : List ℕ → ℕ → List ℕ → ℕ
copied dst at src = min (length dst - at) (length src)

unfoldable pub write_at : List ℕ → ℕ → List ℕ → List ℕ
unfolding copied
write_at dst at src = let n = copied dst at src in take at dst ++ (take n src ++ drop (at + n) dst)

unfoldable pub copy_into : BackendMessage → List ℕ → WalSegment → WalSegment
unfolding copied write_at
copy_into msg src seg =
    let n = copied seg.contents seg.write_index src in
    record seg {
      contents = write_at seg.contents seg.write_index src;
      write_index = seg.write_index + n;
      last_msg = if ltb n (length src) then some msg else seg.last_msg;
    }

-- How much of a message belongs to the segments before.
unfoldable pub message_offset : ℕ → WalSegment → ℕ
message_offset wal_start seg = if ltb wal_start seg.start_lsn then seg.start_lsn - wal_start else 0

unfoldable pub process_xlog_data : ℕ → List ℕ → WalSegment → ProcessMessageResult × WalSegment
unfolding copy_into message_offset
process_xlog_data wal_start wal_data seg =
    if ltb seg.end_lsn wal_start
    then (mismatch, seg)
    else if ltb ((wal_start + length wal_data) % lsn_mod) seg.start_lsn
    then (mismatch, seg)
    else if (seg.start_lsn + seg.write_index) % lsn_mod
        == (wal_start + message_offset wal_start seg) % lsn_mod
    then (
      process_ok,
      copy_into (xlog_data wal_start wal_data) (drop (message_offset wal_start seg) wal_data) seg,
    )
    else (segment_gap, seg)

unfoldable pub process_message : BackendMessage → WalSegment → ProcessMessageResult × WalSegment
unfolding process_xlog_data
process_message (keepalive true) seg = (reply_requested, seg)
process_message (keepalive false) seg = (process_ok, seg)
process_message (xlog_data wal_start wal_data) seg = process_xlog_data wal_start wal_data seg
process_message other_copy_data seg = (process_ok, seg)
process_message copy_done seg = (process_copy_done, seg)
process_message unexpected seg = (process_unknown, seg)

abbrev pub expect_ok : ProcessMessageResult × WalSegment → Result SegmentError WalSegment
expect_ok (process_ok, seg) = ok seg
expect_ok (process_copy_done, seg) = err unexpected_result
expect_ok (reply_requested, seg) = err unexpected_result
expect_ok (r, seg) = err (refused r)

abbrev pub process_last : Option BackendMessage → WalSegment → Result SegmentError WalSegment
process_last none seg = ok seg
process_last (some msg) seg = expect_ok (process_message msg seg)

unfoldable pub next_wal_segment : WalSegment → Result SegmentError WalSegment
unfolding is_complete new_wal_segment process_message
next_wal_segment seg =
    if is_complete seg
    then process_last seg.last_msg (new_wal_segment seg.time_line seg.end_lsn seg.wal_segment_bytes)
    else err not_complete

abbrev pub partial_suffix : List ℕ
partial_suffix = b'.' ∷ b'p' ∷ b'a' ∷ b'r' ∷ b't' ∷ b'i' ∷ b'a' ∷ b'l' ∷ []

unfoldable pub segment_name : WalSize → WalSegment → List ℕ
unfolding is_complete
segment_name w seg =
    let file_name = format_wal_file_name w seg.time_line (seg.start_lsn / seg.wal_segment_bytes) in
    if is_complete seg then file_name else file_name ++ partial_suffix

abbrev pub Streamed : Type 0
Streamed = (Option ProcessMessageResult × WalSegment) × List BackendMessage

-- What Stream does after a message, where `next_round` is its next round.
unfoldable pub after_message :
    (WalSegment → Streamed) → List BackendMessage → ProcessMessageResult × WalSegment → Streamed
unfolding is_complete
after_message next_round msgs (process_ok, seg) =
    if is_complete seg then ((some process_ok, seg), msgs) else next_round seg
after_message next_round msgs (reply_requested, seg) =
    if is_complete seg then ((some process_ok, seg), msgs) else next_round seg
after_message next_round msgs (r, seg) = ((some r, seg), msgs)

-- The loop of Stream over the messages that it receives, with the result it ends with and the messages
-- that are left; without a result it waits for more. A timeout and a status update, also after a
-- requested reply, leave the segment alone.
unfoldable pub stream : List BackendMessage → WalSegment → Streamed
unfolding process_message after_message
stream [] seg = ((none, seg), [])
stream (msg ∷ msgs) seg = after_message (stream msgs) msgs (process_message msg seg)

-- What Read gives for a buffer of `n` bytes, and whether it returns io.EOF.
unfoldable pub read : ℕ → WalSegment → List ℕ × Bool × WalSegment
read n seg =
    let p = take n (drop seg.read_index seg.contents) in
    let index = seg.read_index + length p in
    (p, leb (length seg.contents) index, record seg { read_index = index })

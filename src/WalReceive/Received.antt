-- ===== src/WalReceive/Received.antt =====
-- wal_segment.go: the segments that come out of a replication connection.
use mathlib.Core.Path.{subst}
use native.Mathlib.Nat.{mul-div_cancel}
use extract.Common.{
  take_all, ℕ, suc, ◌+◌, ◌*◌, ◌/◌, ◌<◌, ◌≡◌, All, refl, sym, ap, ◌∙◌, List, [], ◌∷◌, take, true,
  false, Bool-cases, Option, none, some, ok, arith, inl, inr,
}
use extract.WalReceive.{
  BackendMessage, keepalive, xlog_data, other_copy_data, copy_done, unexpected, WalSegment,
  ProcessMessageResult, process_ok, process_copy_done, reply_requested, process_unknown,
  segment_gap, mismatch, lsn_mod, new_wal_segment, is_complete, copy_into, process_xlog_data,
  process_message, expect_ok, process_last, next_wal_segment, Streamed, after_message, stream,
}
use extract.WalReceive.Stream.{
  slice, Agrees, IsSegment, new_wal_segment-IsSegment, process_message-IsSegment,
  next_wal_segment-IsSegment,
}

process_message-start :
    (msg : BackendMessage) (seg : WalSegment)
    → (process_message msg seg).1.start_lsn ≡ seg.start_lsn
unfolding process_message process_xlog_data copy_into
process_message-start (keepalive true) seg = refl
process_message-start (keepalive false) seg = refl
process_message-start (xlog_data ws d) seg = ground arith
process_message-start other_copy_data seg = refl
process_message-start copy_done seg = refl
process_message-start unexpected seg = refl

expect_ok-start :
    (r : ProcessMessageResult × WalSegment) (next : WalSegment)
    → expect_ok r ≡ ok next
    → r.1.start_lsn ≡ next.start_lsn
expect_ok-start (process_ok, seg) next e = ground arith
expect_ok-start (process_copy_done, seg) next e = cc
expect_ok-start (reply_requested, seg) next e = cc
expect_ok-start (process_unknown, seg) next e = cc
expect_ok-start (segment_gap, seg) next e = cc
expect_ok-start (mismatch, seg) next e = cc

process_last-start :
    (msg : Option BackendMessage) (seg next : WalSegment)
    → process_last msg seg ≡ ok next
    → seg.start_lsn ≡ next.start_lsn
process_last-start none seg next e = ground arith
process_last-start (some msg) seg next e =
    sym (process_message-start msg seg) ∙ expect_ok-start (process_message msg seg) next e

module _ (wal : ℕ → ℕ) where
  -- The segments that wal-receive gets from messages which agree with the log, and from one another.
  pub data Received : WalSegment → Type 0 where
    first :
        (time_line location bytes : ℕ)
        → 0 < bytes
        → location / bytes * bytes + bytes < lsn_mod
        → Received (new_wal_segment time_line location bytes)
    message :
        (msg : BackendMessage) (seg : WalSegment)
        → Received seg
        → Agrees wal msg
        → Received (process_message msg seg).1
    following :
        (seg next : WalSegment)
        → Received seg
        → seg.end_lsn / seg.wal_segment_bytes * seg.wal_segment_bytes + seg.wal_segment_bytes
          < lsn_mod
        → next_wal_segment seg ≡ ok next
        → Received next

  Received-IsSegment : (seg : WalSegment) → Received seg → IsSegment wal seg
  Received-IsSegment _ (first time_line location bytes p b) =
      new_wal_segment-IsSegment wal time_line location bytes p b
  Received-IsSegment _ (message msg seg r m) =
      process_message-IsSegment wal msg seg (Received-IsSegment seg r) m
  Received-IsSegment _ (following seg next r b e) =
      next_wal_segment-IsSegment wal seg next (Received-IsSegment seg r) b e

  -- However the messages that agree with the log are cut and ordered, with refused ones among them, a
  -- segment that is complete holds exactly the bytes of the log from its start to its end.
  pub is_complete-Received :
      (seg : WalSegment)
      → Received seg
      → is_complete seg ≡ true
      → seg.contents ≡ slice wal seg.start_lsn seg.wal_segment_bytes
  unfolding is_complete
  is_complete-Received seg r c =
      let v = Received-IsSegment seg r in
      let done : seg.write_index ≡ seg.wal_segment_bytes =
        ground (arith, v.bound, v.ending, v.within) in
      sym (take_all seg.wal_segment_bytes seg.contents (omega (arith, v.full)))
      ∙ ap (λ n. take n seg.contents) (sym done)
      ∙ v.written
      ∙ ap (slice wal seg.start_lsn) done

  -- What Stream gives for a segment that is received.
  Good : Streamed → Type 0
  Good ((some process_ok, seg), msgs) = Received seg × (is_complete seg ≡ true)
  Good ((r, seg), msgs) = Received seg

  after_message-Good :
      (next_round : WalSegment → Streamed) (msgs : List BackendMessage)
      (r : ProcessMessageResult × WalSegment)
      → ((seg : WalSegment) → Received seg → Good (next_round seg))
      → Received r.1
      → Good (after_message next_round msgs r)
  unfolding after_message Good
  after_message-Good next_round msgs (process_ok, seg) h v = elim (Bool-cases (is_complete seg)) [
    | inl c ↦ rw (after_message, c) (v, c)
    | inr c ↦ rw (after_message, c) (h seg v)
  ]
  after_message-Good next_round msgs (reply_requested, seg) h v =
      elim (Bool-cases (is_complete seg)) [
        | inl c ↦ rw (after_message, c) (v, c)
        | inr c ↦ rw (after_message, c) (h seg v)
      ]
  after_message-Good next_round msgs (process_copy_done, seg) h v = v
  after_message-Good next_round msgs (process_unknown, seg) h v = v
  after_message-Good next_round msgs (segment_gap, seg) h v = v
  after_message-Good next_round msgs (mismatch, seg) h v = v

  stream-Good :
      (msgs : List BackendMessage) (seg : WalSegment)
      → All (Agrees wal) msgs
      → Received seg
      → Good (stream msgs seg)
  unfolding stream Good
  stream-Good [] seg h v = v
  stream-Good (msg ∷ msgs) seg (a, h) v =
      after_message-Good (stream msgs) msgs (process_message msg seg)
        (λ next. stream-Good msgs next h) (message msg seg v a)

  -- Where Stream ends with OK for messages that agree with the log, with messages of other kinds among
  -- them, the segment holds exactly the bytes of the log from its start to its end.
  pub stream-Received :
      (msgs : List BackendMessage) (seg final : WalSegment) (rest : List BackendMessage)
      → All (Agrees wal) msgs
      → Received seg
      → stream msgs seg ≡ ((some process_ok, final), rest)
      → final.contents ≡ slice wal final.start_lsn final.wal_segment_bytes
  unfolding Good
  stream-Received msgs seg final rest h v e =
      let good : Received final × (is_complete final ≡ true) =
        subst Good e (stream-Good msgs seg h v) in
      is_complete-Received final good.0 good.1

  aligned_end :
      (seg : WalSegment)
      → IsSegment wal seg
      → seg.end_lsn / seg.wal_segment_bytes * seg.wal_segment_bytes ≡ seg.end_lsn
  aligned_end seg v =
      let k = suc v.aligned.0 in
      let e : seg.end_lsn ≡ k * seg.wal_segment_bytes = grind (arith, v.ending, v.aligned.1) in
      ap (λ n. n / seg.wal_segment_bytes * seg.wal_segment_bytes) e
      ∙ ap (λ n. n * seg.wal_segment_bytes) (mul-div_cancel k v.positive)
      ∙ sym e

  -- The next segment starts where a received segment ends: no byte between them is skipped.
  pub next_wal_segment-Received :
      (seg next : WalSegment)
      → Received seg
      → next_wal_segment seg ≡ ok next
      → next.start_lsn ≡ seg.end_lsn
  unfolding next_wal_segment new_wal_segment
  next_wal_segment-Received seg next r e = elim (Bool-cases (is_complete seg)) [
    | inr c ↦ ground (arith, c, e)
    | inl c ↦
        sym (
          process_last-start seg.last_msg
            (new_wal_segment seg.time_line seg.end_lsn seg.wal_segment_bytes) next
            (ground (arith, c, e)))
        ∙ aligned_end seg (Received-IsSegment seg r)
  ]

-- ===== src/WalReceive/Stream.antt =====
-- wal_segment.go: what a segment has written is the WAL from its start.
use mathlib.Core.Path.{subst}
use extract.Common.{
  ℕ, zero, suc, ◌+◌, ◌-◌, ◌*◌, ◌/◌, ◌%◌, ◌≤◌, ◌<◌, ◌≡◌, refl, sym, ap, ◌∙◌, List, [], ◌∷◌, ◌++◌,
  length, take, drop, Bool, true, false, ltb, ◌==◌, if◌then◌else◌, Bool-cases, Option, none, some,
  Result, ok, length-drop, length-replicate, arith, ◌⊎◌, inl, inr,
}
use extract.WalReceive.{
  BackendMessage, keepalive, xlog_data, other_copy_data, copy_done, unexpected, WalSegment,
  ProcessMessageResult, process_ok, process_copy_done, reply_requested, process_unknown,
  segment_gap, mismatch, SegmentError, lsn_mod, new_wal_segment, is_complete, copied, copy_into,
  message_offset, process_xlog_data, process_message, expect_ok, process_last, next_wal_segment,
}
use extract.WalReceive.Writing.{copied_fits, copied_within, length-write_at, take-write_at}

offset-place :
    (ws : ℕ) (seg : WalSegment)
    → ((ws < seg.start_lsn) × (ws + message_offset ws seg ≡ seg.start_lsn))
      ⊎ ((seg.start_lsn ≤ ws) × (message_offset ws seg ≡ 0))
unfolding message_offset
offset-place ws seg = ground arith

ok-injective : {x y : WalSegment} → Path (Result SegmentError WalSegment) (ok x) (ok y) → x ≡ y
ok-injective e = cc

expect_ok-same :
    (r : ProcessMessageResult × WalSegment) (next : WalSegment) → expect_ok r ≡ ok next → r.1 ≡ next
expect_ok-same (process_ok, seg) next e = cc
expect_ok-same (process_copy_done, seg) next e = cc
expect_ok-same (reply_requested, seg) next e = cc
expect_ok-same (process_unknown, seg) next e = cc
expect_ok-same (segment_gap, seg) next e = cc
expect_ok-same (mismatch, seg) next e = cc

-- `wal` is the byte at each position of the write-ahead log.
module _ (wal : ℕ → ℕ) where
  unfoldable pub slice : ℕ → ℕ → List ℕ
  slice s zero = []
  slice s (suc n) = wal s ∷ slice (suc s) n

  length-slice : (s n : ℕ) → length (slice s n) ≡ n
  unfolding slice
  length-slice s zero = refl
  length-slice s (suc n) = ap suc (length-slice (suc s) n)

  slice-add : (s m n : ℕ) → slice s (m + n) ≡ slice s m ++ slice (s + m) n
  unfolding slice
  slice-add s zero n =
      let none_first : 0 + n ≡ n = omega arith in
      let same : s ≡ s + 0 = omega arith in ap (slice s) none_first ∙ ap (λ t. slice t n) same
  slice-add s (suc m) n =
      let e : suc s + m ≡ s + suc m = omega arith in
      let one_more : suc m + n ≡ suc (m + n) = omega arith in
      ap (slice s) one_more
      ∙ ap (λ t. wal s ∷ t) (slice-add (suc s) m n ∙ ap (λ t. slice (suc s) m ++ slice t n) e)

  take-slice : (n s m : ℕ) → n ≤ m → take n (slice s m) ≡ slice s n
  unfolding slice
  take-slice zero s m h = refl
  take-slice (suc n) s zero h = elim (too_long h) [ ]
    where
      too_long : {k : ℕ} → ¬ (suc k ≤ 0)
      too_long x = omega arith
  take-slice (suc n) s (suc m) h = ap (λ t. wal s ∷ t) (take-slice n (suc s) m (omega (arith, h)))

  drop-slice : (k s m : ℕ) → drop k (slice s m) ≡ slice (s + k) (m - k)
  unfolding slice
  drop-slice zero s m =
      let all : m ≡ m - 0 = omega arith in
      let same : s ≡ s + 0 = omega arith in ap (slice s) all ∙ ap (λ t. slice t (m - 0)) same
  drop-slice (suc k) s zero = let none : 0 ≡ 0 - suc k = omega arith in ap (slice (s + suc k)) none
  drop-slice (suc k) s (suc m) =
      let e : suc s + k ≡ s + suc k = omega arith in
      let rest : m - k ≡ suc m - suc k = omega arith in
      drop-slice k (suc s) m ∙ ap (λ t. slice t (m - k)) e ∙ ap (slice (s + suc k)) rest

  -- A message brings the WAL of the positions that it names.
  unfoldable pub Agrees : BackendMessage → Type 0
  Agrees (xlog_data s d) = (d ≡ slice s (length d)) × (s + length d < lsn_mod)
  Agrees (keepalive b) = Unit {0}
  Agrees other_copy_data = Unit {0}
  Agrees copy_done = Unit {0}
  Agrees unexpected = Unit {0}

  unfoldable pub LastAgrees : Option BackendMessage → Type 0
  unfolding Agrees
  LastAgrees none = Unit {0}
  LastAgrees (some msg) = Agrees msg

  -- What the segment has written so far is the WAL from its start.
  pub record IsSegment (seg : WalSegment) : Type 0 where
    pub positive : 0 < seg.wal_segment_bytes
    pub aligned : (k : ℕ) × (seg.start_lsn ≡ k * seg.wal_segment_bytes)
    pub bound : seg.start_lsn + seg.wal_segment_bytes < lsn_mod
    pub ending : seg.end_lsn ≡ seg.start_lsn + seg.wal_segment_bytes
    pub full : length seg.contents ≡ seg.wal_segment_bytes
    pub within : seg.write_index ≤ seg.wal_segment_bytes
    pub written : take seg.write_index seg.contents ≡ slice seg.start_lsn seg.write_index
    pub last : LastAgrees seg.last_msg

  if_LastAgrees :
      (b : Bool) (x y : Option BackendMessage)
      → LastAgrees x
      → LastAgrees y
      → LastAgrees (if b then x else y)
  if_LastAgrees true x y h k = h
  if_LastAgrees false x y h k = k

  copy_into-IsSegment :
      (msg : BackendMessage) (src : List ℕ) (seg : WalSegment)
      → IsSegment seg
      → Agrees msg
      → src ≡ slice (seg.start_lsn + seg.write_index) (length src)
      → IsSegment (copy_into msg src seg)
  unfolding copy_into LastAgrees
  copy_into-IsSegment msg src seg v m e =
      let n = copied seg.contents seg.write_index src in
      let fits : seg.write_index ≤ length seg.contents = omega (arith, v.within, v.full) in
      let few : n ≤ length src = copied_fits seg.contents seg.write_index src in
      record {
        positive = v.positive;
        aligned = v.aligned;
        bound = v.bound;
        ending = v.ending;
        full = length-write_at seg.contents seg.write_index src fits ∙ v.full;
        within = omega (arith, v.full, fits, copied_within seg.contents seg.write_index src);
        written =
            take-write_at seg.contents seg.write_index src fits
            ∙ ap (λ t. t ++ take n src) v.written
            ∙ ap (λ t. slice seg.start_lsn seg.write_index ++ take n t) e
            ∙ ap (λ t. slice seg.start_lsn seg.write_index ++ t)
                (take-slice n (seg.start_lsn + seg.write_index) (length src) few)
            ∙ sym (slice-add seg.start_lsn seg.write_index n);
        last = if_LastAgrees _ (some msg) seg.last_msg m v.last;
      }

  -- The part of a message that belongs to the segment is the WAL from where the segment ends.
  rest_of_message :
      (ws : ℕ) (d : List ℕ) (seg : WalSegment)
      → IsSegment seg
      → Agrees (xlog_data ws d)
      → ws ≤ seg.end_lsn
      → (seg.start_lsn + seg.write_index) % lsn_mod ≡ (ws + message_offset ws seg) % lsn_mod
      → drop (message_offset ws seg) d
        ≡ slice (seg.start_lsn + seg.write_index) (length (drop (message_offset ws seg) d))
  unfolding Agrees
  rest_of_message ws d seg v (e, b) h same =
      let o = message_offset ws seg in
      let place : ws + o ≡ seg.start_lsn + seg.write_index =
        omega (arith, v.bound, v.ending, v.within, h, same, offset-place ws seg) in
      let long : length (drop o d) ≡ length d - o = length-drop o d in
      ap (drop o) e
      ∙ drop-slice o ws (length d)
      ∙ ap (λ t. slice t (length d - o)) place
      ∙ ap (slice (seg.start_lsn + seg.write_index)) (sym long)

  process_xlog_data-IsSegment :
      (ws : ℕ) (d : List ℕ) (seg : WalSegment)
      → IsSegment seg
      → Agrees (xlog_data ws d)
      → IsSegment (process_xlog_data ws d seg).1
  unfolding process_xlog_data
  process_xlog_data-IsSegment ws d seg v m = elim (Bool-cases (ltb seg.end_lsn ws)) [
    | inl a ↦ rw (process_xlog_data, a) v
    | inr a ↦ elim (Bool-cases (ltb ((ws + length d) % lsn_mod) seg.start_lsn)) [
      | inl b ↦ rw (process_xlog_data, a, b) v
      | inr b ↦
          elim (Bool-cases (
            (seg.start_lsn + seg.write_index) % lsn_mod
            == (ws + message_offset ws seg) % lsn_mod)) [
              | inr c ↦ rw (process_xlog_data, a, b, c) v
              | inl c ↦
                  rw (process_xlog_data, a, b, c)
                    (copy_into-IsSegment (xlog_data ws d) (drop (message_offset ws seg) d) seg v m
                      (rest_of_message ws d seg v m (ground arith) (ground arith)))
            ]
    ]
  ]

  pub process_message-IsSegment :
      (msg : BackendMessage) (seg : WalSegment)
      → IsSegment seg
      → Agrees msg
      → IsSegment (process_message msg seg).1
  unfolding process_message
  process_message-IsSegment (keepalive true) seg v m = v
  process_message-IsSegment (keepalive false) seg v m = v
  process_message-IsSegment (xlog_data ws d) seg v m = process_xlog_data-IsSegment ws d seg v m
  process_message-IsSegment other_copy_data seg v m = v
  process_message-IsSegment copy_done seg v m = v
  process_message-IsSegment unexpected seg v m = v

  -- A segment that starts where the one before ends.
  pub new_wal_segment-IsSegment :
      (time_line location bytes : ℕ)
      → 0 < bytes
      → location / bytes * bytes + bytes < lsn_mod
      → IsSegment (new_wal_segment time_line location bytes)
  unfolding new_wal_segment slice LastAgrees
  new_wal_segment-IsSegment time_line location bytes p b = record {
    positive = p;
    aligned = (location / bytes, refl);
    bound = b;
    ending = omega (arith, b);
    full = length-replicate bytes 0;
    within = omega arith;
    written = refl;
    last = tt;
  }

  process_last-IsSegment :
      (msg : Option BackendMessage) (seg next : WalSegment)
      → IsSegment seg
      → LastAgrees msg
      → process_last msg seg ≡ ok next
      → IsSegment next
  unfolding LastAgrees
  process_last-IsSegment none seg next v m e = subst IsSegment (ok-injective e) v
  process_last-IsSegment (some msg) seg next v m e =
      subst IsSegment (expect_ok-same (process_message msg seg) next e)
        (process_message-IsSegment msg seg v m)

  pub next_wal_segment-IsSegment :
      (seg next : WalSegment)
      → IsSegment seg
      → seg.end_lsn / seg.wal_segment_bytes * seg.wal_segment_bytes + seg.wal_segment_bytes
        < lsn_mod
      → next_wal_segment seg ≡ ok next
      → IsSegment next
  unfolding next_wal_segment
  next_wal_segment-IsSegment seg next v b e = elim (Bool-cases (is_complete seg)) [
    | inr c ↦ ground (arith, c, e)
    | inl c ↦
        process_last-IsSegment seg.last_msg
          (new_wal_segment seg.time_line seg.end_lsn seg.wal_segment_bytes) next
          (new_wal_segment-IsSegment seg.time_line seg.end_lsn seg.wal_segment_bytes v.positive b)
          v.last (ground (arith, c, e))
  ]

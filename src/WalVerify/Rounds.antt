-- ===== src/WalVerify/Rounds.antt =====
-- What the scanning loops do, as a number of single passes over one segment.
use extract.Common.{
  ℕ, zero, suc, ◌+◌, ◌-◌, ◌^◌, ◌<◌, ◌≡◌, refl, ap, ◌∙◌, List, [], ◌∷◌, ◌++◌, if◌then◌else◌, Bool,
  true, false, ◌&&◌, Bool-cases, ℕ-cases, inl, inr, Option, some, arith,
}
use Prim.Native.Nat.{min}
use extract.Segment.WalSegmentNo
use extract.WalVerify.Runner.{
  WalSegmentDescription, contains_segment, get_next_segment, segment_before, next, force_move_next,
}
use extract.WalVerify.Runner.{TimelineHistoryRecord}
use extract.WalVerify.Scanner.{
  ScannedSegmentStatus, found, ScannedSegmentDescription, WalSegmentScanner, SegmentScanConfig,
  go_on, done, scan_round, scan_limited, scan_unlimited,
}

-- The number of the scanner's current segment, and how many segments lie between it and the stop.
abbrev pub at : WalSegmentScanner → ℕ
at sc = sc.wal_segment_runner.current_wal_segment.number

abbrev pub left : WalSegmentScanner → ℕ
left sc = at sc - sc.wal_segment_runner.stop_segment_no

abbrev pub exists_next : WalSegmentScanner → Bool
exists_next sc =
    contains_segment sc.wal_segment_runner.wal_folder_segments
      (get_next_segment sc.wal_segment_runner)

-- How a scan marks one segment: found if the storage has it, and else by the scan's own status.
abbrev pub mark :
    List WalSegmentDescription
    → ScannedSegmentStatus
    → WalSegmentDescription
    → ScannedSegmentDescription
mark segments missing d = record {
  description = d;
  status = if contains_segment segments d then found else missing;
}

-- One segment further back.
unfoldable pub pass : ScannedSegmentStatus → WalSegmentScanner → WalSegmentScanner
pass missing sc =
    let r = sc.wal_segment_runner in
    record {
      scanned_segments =
          sc.scanned_segments ++ mark r.wal_folder_segments missing (get_next_segment r) ∷ [];
      wal_segment_runner = record r { current_wal_segment = get_next_segment r };
    }

unfoldable pub passes : ℕ → ScannedSegmentStatus → WalSegmentScanner → WalSegmentScanner
passes zero missing sc = sc
passes (suc k) missing sc = passes k missing (pass missing sc)

passes-suc :
    (k : ℕ) (m : ScannedSegmentStatus) (sc : WalSegmentScanner)
    → passes k m (pass m sc) ≡ passes (suc k) m sc
unfolding passes
passes-suc k m sc = refl

abbrev pub IsU64 : ℕ → Type 0
IsU64 n = n < 2 ^ 64

pub at-pass :
    (m : ScannedSegmentStatus) (sc : WalSegmentScanner)
    → IsU64 (at sc)
    → 0 < at sc
    → at (pass m sc) + 1 ≡ at sc
unfolding pass get_next_segment segment_before WalSegmentNo.previous
at-pass m sc h p = omega arith

stop-pass :
    (m : ScannedSegmentStatus) (sc : WalSegmentScanner)
    → (pass m sc).wal_segment_runner.stop_segment_no ≡ sc.wal_segment_runner.stop_segment_no
unfolding pass
stop-pass m sc = refl

round_stop :
    (c : SegmentScanConfig) (sc : WalSegmentScanner) → left sc ≡ 0 → scan_round c sc ≡ done sc
unfolding scan_round next
round_stop c sc h = ground arith

round_past :
    (c : SegmentScanConfig) (sc : WalSegmentScanner)
    → 0 < left sc
    → scan_round c sc ≡ (
        if exists_next sc && c.stop_on_first_found_segment
        then done (pass c.missing_segment_status sc)
        else go_on (pass c.missing_segment_status sc))
unfolding scan_round next force_move_next pass
round_past c sc h = ground arith

left-pass :
    (m : ScannedSegmentStatus) (sc : WalSegmentScanner)
    → IsU64 (at sc)
    → 0 < left sc
    → left (pass m sc) + 1 ≡ left sc
left-pass m sc h p =
    let l : at (pass m sc) + 1 ≡ at sc = at-pass m sc h (omega arith) in
    omega (arith, stop-pass m sc)

IsU64-pass :
    (m : ScannedSegmentStatus) (sc : WalSegmentScanner)
    → IsU64 (at sc)
    → 0 < left sc
    → IsU64 (at (pass m sc))
IsU64-pass m sc h p =
    let l : at (pass m sc) + 1 ≡ at sc = at-pass m sc h (omega arith) in omega arith

round_on :
    (c : SegmentScanConfig) (sc : WalSegmentScanner)
    → c.stop_on_first_found_segment ≡ false
    → 0 < left sc
    → scan_round c sc ≡ go_on (pass c.missing_segment_status sc)
round_on c sc e p = ground (arith, round_past c sc)

-- The unlimited scan passes every segment down to the stop, if it has one more unit of fuel.
pub scan_unlimited-passes :
    (fuel : ℕ) (c : SegmentScanConfig) (sc : WalSegmentScanner)
    → c.stop_on_first_found_segment ≡ false
    → IsU64 (at sc)
    → left sc < fuel
    → scan_unlimited fuel c sc ≡ some (passes (left sc) c.missing_segment_status sc)
unfolding scan_unlimited
scan_unlimited-passes zero c sc e h k = absurd (omega arith)
scan_unlimited-passes (suc fuel) c sc e h k = elim (ℕ-cases (left sc)) [
  | inl z ↦ rw (round_stop c sc z, scan_unlimited, z) (unfold passes in refl)
  | inr (n, z) ↦
      let m = c.missing_segment_status in
      let l : left (pass m sc) ≡ n = omega (arith, left-pass m sc h (omega arith)) in
      rw (round_on c sc e (omega arith), scan_unlimited, z)
        (rw l at (
            scan_unlimited-passes fuel c (pass m sc) e (IsU64-pass m sc h (omega arith))
              (omega arith))
          ∙ ap some (passes-suc n m sc))
]

-- The limited scan that does not stop early passes as many segments as its limit and the stop allow.
pub scan_limited-passes :
    (n : ℕ) (c : SegmentScanConfig) (sc : WalSegmentScanner)
    → c.stop_on_first_found_segment ≡ false
    → IsU64 (at sc)
    → scan_limited n c sc ≡ passes (min n (left sc)) c.missing_segment_status sc
unfolding scan_limited
scan_limited-passes zero c sc e h =
    let z : min 0 (left sc) ≡ 0 = omega arith in rw z (unfold passes in refl)
scan_limited-passes (suc n) c sc e h = elim (ℕ-cases (left sc)) [
  | inl z ↦
      let y : min (suc n) (left sc) ≡ 0 = omega arith in
      rw (round_stop c sc z, scan_limited, y) (unfold passes in refl)
  | inr (k, z) ↦
      let m = c.missing_segment_status in
      let l : min (suc n) (left sc) ≡ suc (min n (left (pass m sc))) =
        omega (arith, left-pass m sc h (omega arith)) in
      rw (round_on c sc e (omega arith), scan_limited, l)
        (scan_limited-passes n c (pass m sc) e (IsU64-pass m sc h (omega arith))
          ∙ passes-suc (min n (left (pass m sc))) m sc)
]

-- The segments that `n` passes visit, newest first, and the one at which they end.
unfoldable pub walk :
    ℕ → (ℕ → Option TimelineHistoryRecord) → WalSegmentDescription → List WalSegmentDescription
walk zero switch_map d = []
walk (suc n) switch_map d =
    segment_before switch_map d ∷ walk n switch_map (segment_before switch_map d)

-- How many passes go by up to the first one that finds its segment, or all of them.
unfoldable pub first_found : (WalSegmentDescription → Bool) → List WalSegmentDescription → ℕ
first_found p [] = 0
first_found p (d ∷ ds) = if p d then 1 else suc (first_found p ds)

-- What `n` passes visit from a scanner's current segment.
abbrev pub visits : ℕ → WalSegmentScanner → List WalSegmentDescription
visits n sc =
    walk n sc.wal_segment_runner.timeline_switch_map sc.wal_segment_runner.current_wal_segment

abbrev pub in_storage : WalSegmentScanner → WalSegmentDescription → Bool
in_storage sc = contains_segment sc.wal_segment_runner.wal_folder_segments

first_found-visits :
    (k : ℕ) (m : ScannedSegmentStatus) (sc : WalSegmentScanner)
    → first_found (in_storage sc) (visits (suc k) sc) ≡ (
        if exists_next sc
        then 1
        else suc (first_found (in_storage (pass m sc)) (visits k (pass m sc))))
unfolding first_found walk pass get_next_segment
first_found-visits k m sc = refl

-- The limited scan that stops at the first segment in the storage passes exactly up to that one.
pub scan_limited-first :
    (n : ℕ) (c : SegmentScanConfig) (sc : WalSegmentScanner)
    → c.stop_on_first_found_segment ≡ true
    → IsU64 (at sc)
    → scan_limited n c sc
      ≡ passes
          (first_found (in_storage sc) (visits (min n (left sc)) sc))
          c.missing_segment_status
          sc
unfolding scan_limited
scan_limited-first zero c sc e h =
    let z : min 0 (left sc) ≡ 0 = omega arith in rw z (unfold passes walk first_found in refl)
scan_limited-first (suc n) c sc e h = elim (ℕ-cases (left sc)) [
  | inl z ↦
      let y : min (suc n) (left sc) ≡ 0 = omega arith in
      rw (round_stop c sc z, scan_limited, y) (unfold passes walk first_found in refl)
  | inr (k, z) ↦
      let m = c.missing_segment_status in
      let l : min (suc n) (left sc) ≡ suc (min n (left (pass m sc))) =
        omega (arith, left-pass m sc h (omega arith)) in
      let ih = scan_limited-first n c (pass m sc) e (IsU64-pass m sc h (omega arith)) in
      elim (Bool-cases (exists_next sc)) [
        | inl hit ↦
            rw
              (
                l,
                first_found-visits (min n (left (pass m sc))) m sc,
                round_past c sc (omega arith),
                hit,
                e,
                scan_limited,
              )
              (unfold passes in refl)
        | inr miss ↦
            rw
              (
                l,
                first_found-visits (min n (left (pass m sc))) m sc,
                round_past c sc (omega arith),
                miss,
                scan_limited,
              )
              (ih
                ∙ passes-suc
                    (first_found (in_storage (pass m sc))
                      (visits (min n (left (pass m sc))) (pass m sc)))
                    m sc)
      ]
]

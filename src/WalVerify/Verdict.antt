-- ===== src/WalVerify/Verdict.antt =====
-- The verdict of wal-verify against the storage.
use extract.Common.{
  ℕ, ◌+◌, ◌-◌, ◌≡◌, refl, sym, ap, ◌∙◌, List, [], ◌∷◌, ◌++◌, map, Bool, true, false, not, ◌&&◌,
  ◌||◌, ◌↔◌, some, arith, any, any-append, length, length-append, append_assoc, take, drop,
  drop_prefix,
}
use Prim.Native.Nat.{min}
use extract.Segment.{WalSize}
use extract.WalVerify.Runner.{WalSegmentDescription, contains_segment}
use extract.WalVerify.Scanner.{
  ScannedSegmentStatus, lost, probably_uploading, probably_delayed, found, is_found,
  ScannedSegmentDescription,
}
use extract.WalVerify.Sequence.{
  WalSegmentsSequence, IntegrityScanSegmentSequence, new_segments_sequence, add_wal_segment_no,
  status_eq, insert_by_number, sort_by_number, new_integrity_scan_segment_sequence, collapse_loop,
  collapse_sorted, collapse_segments_by_status_and_timeline,
}
use extract.WalVerify.Integrity.{
  WalVerifyCheckStatus, status_ok, status_warning, status_failure, check_status_loop,
  WalVerifyCheckResult, new_wal_integrity_check_result, IntegrityCheckRunner, runner_of, run,
}
use extract.WalVerify.Rounds.{mark, IsU64, first_found}
use extract.WalVerify.Complete.{required, run_wal_integrity_scan_phases}

abbrev is_missing : ScannedSegmentStatus → Bool
is_missing s = not (is_found s)

abbrev is_lost : ScannedSegmentStatus → Bool
is_lost lost = true
is_lost _ = false

abbrev is_ok : WalVerifyCheckStatus → Bool
is_ok status_ok = true
is_ok _ = false

abbrev is_failure : WalVerifyCheckStatus → Bool
is_failure status_failure = true
is_failure _ = false

abbrev row_statuses : List IntegrityScanSegmentSequence → List ScannedSegmentStatus
row_statuses [] = []
row_statuses (r ∷ rows) = r.status ∷ row_statuses rows

abbrev scan_statuses : List ScannedSegmentDescription → List ScannedSegmentStatus
scan_statuses [] = []
scan_statuses (s ∷ scanned) = s.status ∷ scan_statuses scanned

-- The loop over the rows keeps ok if no row is missing, and answers failure for a lost row only.
status_loop-ok :
    (st : WalVerifyCheckStatus) (rows : List IntegrityScanSegmentSequence)
    → is_ok (check_status_loop st rows) ≡ (is_ok st && not (any is_missing (row_statuses rows)))
unfolding check_status_loop
status_loop-ok st [] = ground arith
status_loop-ok st (r ∷ rows) =
    ground (arith, status_loop-ok st rows, status_loop-ok status_warning rows)

status_loop-failure :
    (st : WalVerifyCheckStatus) (rows : List IntegrityScanSegmentSequence)
    → is_failure st ≡ false
    → is_failure (check_status_loop st rows) ≡ any is_lost (row_statuses rows)
unfolding check_status_loop
status_loop-failure st [] h = ground arith
status_loop-failure st (r ∷ rows) h =
    ground (arith, status_loop-failure st rows h, status_loop-failure status_warning rows refl)

status_eq→eq : (s t : ScannedSegmentStatus) → status_eq s t ≡ true → s ≡ t
unfolding status_eq
status_eq→eq s t h = ground arith

-- Sorting and collapsing keep whether some segment has a status with property `p`.
module _ (p : ScannedSegmentStatus → Bool) where
  any-insert :
      (s : ScannedSegmentDescription) (xs : List ScannedSegmentDescription)
      → any p (scan_statuses (insert_by_number s xs)) ≡ (p s.status || any p (scan_statuses xs))
  unfolding insert_by_number
  any-insert s [] = refl
  any-insert s (x ∷ xs) = ground (arith, any-insert s xs)

  any-sort :
      (xs : List ScannedSegmentDescription)
      → any p (scan_statuses (sort_by_number xs)) ≡ any p (scan_statuses xs)
  unfolding sort_by_number
  any-sort [] = refl
  any-sort (x ∷ xs) = any-insert x (sort_by_number xs) ∙ ap (λ b. p x.status || b) (any-sort xs)

  module _ (w : WalSize) where
    any-collapse_loop :
        (current : WalSegmentsSequence) (st : ScannedSegmentStatus)
        (xs : List ScannedSegmentDescription)
        → any p (row_statuses (collapse_loop w current st xs)) ≡ (p st || any p (scan_statuses xs))
    unfolding collapse_loop new_integrity_scan_segment_sequence
    any-collapse_loop current st [] = refl
    any-collapse_loop current st (x ∷ xs) =
        let split =
          any-collapse_loop (new_segments_sequence x.description.timeline x.description.number)
            x.status xs in
        let grown = any-collapse_loop (add_wal_segment_no current x.description.number) st xs in
        ground (arith, split, grown, status_eq→eq x.status st)

    any-collapse_sorted :
        (xs : List ScannedSegmentDescription)
        → any p (row_statuses (collapse_sorted w xs)) ≡ any p (scan_statuses xs)
    unfolding collapse_sorted
    any-collapse_sorted [] = refl
    any-collapse_sorted (x ∷ xs) = any-collapse_loop _ x.status xs

    any-collapse :
        (xs : List ScannedSegmentDescription)
        → any p (row_statuses (collapse_segments_by_status_and_timeline w xs))
          ≡ any p (scan_statuses xs)
    unfolding collapse_segments_by_status_and_timeline
    any-collapse xs = any-collapse_sorted (sort_by_number xs) ∙ any-sort xs

-- Marking by the storage.
module _ (segments : List WalSegmentDescription) where
  abbrev pub absent : WalSegmentDescription → Bool
  absent d = not (contains_segment segments d)

  scan_statuses-append :
      (xs ys : List ScannedSegmentDescription)
      → scan_statuses (xs ++ ys) ≡ scan_statuses xs ++ scan_statuses ys
  scan_statuses-append [] ys = refl
  scan_statuses-append (x ∷ xs) ys = ap (◌∷◌ x.status) (scan_statuses-append xs ys)

  -- A status with property `p`, which found lacks, is that of an absent segment.
  any-mark :
      (p : ScannedSegmentStatus → Bool) (m : ScannedSegmentStatus) (ds : List WalSegmentDescription)
      → p found ≡ false
      → any p (scan_statuses (map (mark segments m) ds)) ≡ (p m && any absent ds)
  any-mark p m [] h = ground arith
  any-mark p m (d ∷ ds) h = ground (arith, any-mark p m ds h)

  any-marks :
      (p : ScannedSegmentStatus → Bool) (a b c : List WalSegmentDescription)
      → p found ≡ false
      → any p (
          scan_statuses (
            map (mark segments probably_delayed) a
            ++ (map (mark segments probably_uploading) b ++ map (mark segments lost) c)))
        ≡ ((p probably_delayed && any absent a)
            || ((p probably_uploading && any absent b) || (p lost && any absent c)))
  any-marks p a b c h = rw (
    scan_statuses-append (map (mark segments probably_delayed) a)
        (map (mark segments probably_uploading) b ++ map (mark segments lost) c),
    scan_statuses-append (map (mark segments probably_uploading) b) (map (mark segments lost) c),
    any-append p (scan_statuses (map (mark segments probably_delayed) a)) (
        scan_statuses (map (mark segments probably_uploading) b)
        ++ scan_statuses (map (mark segments lost) c)),
    any-append p (scan_statuses (map (mark segments probably_uploading) b))
        (scan_statuses (map (mark segments lost) c)),
    any-mark p probably_delayed a h,
    any-mark p probably_uploading b h,
    any-mark p lost c h,
  )

-- How many of the required segments the two scans before the last one pass.
abbrev pub tolerated : IntegrityCheckRunner → ℕ
tolerated check =
    let r = runner_of check in
    let k =
      first_found (contains_segment r.wal_folder_segments)
        (take check.delayed_segment_range_size (required r)) in
    k + min check.uploading_segment_range_size (length (required r) - k)

iff_ok : (s : WalVerifyCheckStatus) (x : Bool) → is_ok s ≡ not x → (s ≡ status_ok) ↔ (x ≡ false)
iff_ok s x e = (λ h. ground arith, λ h. ground arith)

iff_failure :
    (s : WalVerifyCheckStatus) (x : Bool) → is_failure s ≡ x → (s ≡ status_failure) ↔ (x ≡ true)
iff_failure s x e = (λ h. ground arith, λ h. ground arith)

module _ (w : WalSize) (segments : List WalSegmentDescription)
    (a b c : List WalSegmentDescription) where
  abbrev marked : List ScannedSegmentDescription
  marked =
      map (mark segments probably_delayed) a
      ++ (map (mark segments probably_uploading) b ++ map (mark segments lost) c)

  verdict_ok :
      is_ok
        (new_wal_integrity_check_result (collapse_segments_by_status_and_timeline w marked)).status
      ≡ not (any (absent segments) (a ++ (b ++ c)))
  unfolding new_wal_integrity_check_result
  verdict_ok =
      status_loop-ok status_ok (collapse_segments_by_status_and_timeline w marked)
      ∙ ap not (
          any-collapse is_missing w marked
          ∙ any-marks segments is_missing a b c refl
          ∙ ap (λ x. any (absent segments) a || x) (sym (any-append (absent segments) b c))
          ∙ sym (any-append (absent segments) a (b ++ c)))

  verdict_failure :
      is_failure
        (new_wal_integrity_check_result (collapse_segments_by_status_and_timeline w marked)).status
      ≡ any (absent segments) c
  unfolding new_wal_integrity_check_result
  verdict_failure =
      status_loop-failure status_ok (collapse_segments_by_status_and_timeline w marked) refl
      ∙ any-collapse is_lost w marked
      ∙ any-marks segments is_lost a b c refl

-- wal-verify always ends with a verdict. It is ok exactly if the storage has every required segment,
-- and failure exactly if one is absent among those behind the delayed and the uploading range.
pub run_verdict :
    (w : WalSize) (check : IntegrityCheckRunner)
    → IsU64 check.start_wal_segment.number
    → (result : WalVerifyCheckResult) × (run w check ≡ some result)
      × ((result.status ≡ status_ok)
          ↔ (any (absent check.storage_segments) (required (runner_of check)) ≡ false))
      × ((result.status ≡ status_failure) ↔ (
          any (absent check.storage_segments) (drop (tolerated check) (required (runner_of check)))
          ≡ true))
unfolding run
run_verdict w check h =
    let (sc, a, b, c, ran, split, la, lb, scanned) =
      run_wal_integrity_scan_phases (runner_of check) check.uploading_segment_range_size
        check.delayed_segment_range_size h in
    let result =
      new_wal_integrity_check_result
        (collapse_segments_by_status_and_timeline w sc.scanned_segments) in
    let rest : drop (tolerated check) (required (runner_of check)) ≡ c =
      ap (drop (tolerated check)) (split ∙ sym (append_assoc a b c))
      ∙ drop_prefix (a ++ b) c (omega (arith, length-append a b)) in
    (
      result,
      rw ran,
      rw split (iff_ok result.status _ (rw scanned (verdict_ok w check.storage_segments a b c))),
      rw rest (
          iff_failure result.status _
            (rw scanned (verdict_failure w check.storage_segments a b c))),
    )

-- ===== src/WalVerify/Complete.antt =====
-- What the three scans of wal-verify leave behind: every segment down to the stop, once, and marked.
use extract.Common.{
  ℕ, zero, suc, ◌+◌, ◌-◌, ◌≤◌, ◌≡◌, refl, sym, ap, ◌∙◌, List, [], ◌∷◌, ◌++◌, map, append_assoc,
  append-nil, Bool, Option, some, arith, length, take,
}
use Prim.Native.Nat.{min}
use extract.WalVerify.Runner.{
  WalSegmentDescription, WalSegmentRunner, TimelineHistoryRecord, contains_segment,
  get_next_segment, segment_before,
}
use extract.WalVerify.Scanner.{
  ScannedSegmentStatus, lost, probably_uploading, probably_delayed, ScannedSegmentDescription,
  WalSegmentScanner, new_scanner, scan,
}
use extract.WalVerify.Integrity.{delayed_scan, uploading_scan, lost_scan, run_wal_integrity_scan}
use extract.WalVerify.Rounds.{
  at, left, mark, pass, passes, IsU64, at-pass, walk, visits, in_storage, first_found,
  scan_unlimited-passes, scan_limited-passes, scan_limited-first,
}

abbrev storage : WalSegmentScanner → List WalSegmentDescription
storage sc = sc.wal_segment_runner.wal_folder_segments

storage-passes :
    (k : ℕ) (m : ScannedSegmentStatus) (sc : WalSegmentScanner)
    → storage (passes k m sc) ≡ storage sc
unfolding passes
storage-passes zero m sc = refl
storage-passes (suc k) m sc = storage-passes k m (pass m sc) ∙ unfold pass in refl

left-passes :
    (k : ℕ) (m : ScannedSegmentStatus) (sc : WalSegmentScanner)
    → IsU64 (at sc)
    → k ≤ left sc
    → (left (passes k m sc) + k ≡ left sc) × IsU64 (at (passes k m sc))
unfolding passes
left-passes zero m sc h p = omega arith
left-passes (suc k) m sc h p =
    let a : at (pass m sc) + 1 ≡ at sc = at-pass m sc h (omega arith) in
    let s : (pass m sc).wal_segment_runner.stop_segment_no ≡ sc.wal_segment_runner.stop_segment_no =
      unfold pass in refl in
    omega (arith, left-passes k m (pass m sc) (omega arith) (omega arith))

-- The segments that the passes add, marked.
scanned-passes :
    (k : ℕ) (m : ScannedSegmentStatus) (sc : WalSegmentScanner)
    → (passes k m sc).scanned_segments
      ≡ sc.scanned_segments ++ map (mark (storage sc) m) (visits k sc)
unfolding passes walk pass get_next_segment
scanned-passes zero m sc = sym (append-nil sc.scanned_segments)
scanned-passes (suc k) m sc = scanned-passes k m (pass m sc) ∙ append_assoc sc.scanned_segments _ _

-- Walking on from where the passes end.
visits-add :
    (k j : ℕ) (m : ScannedSegmentStatus) (sc : WalSegmentScanner)
    → visits (k + j) sc ≡ visits k sc ++ visits j (passes k m sc)
unfolding passes walk pass get_next_segment
visits-add zero j m sc = let e : 0 + j ≡ j = omega arith in rw e refl
visits-add (suc k) j m sc =
    let e : suc k + j ≡ suc (k + j) = omega arith in
    rw e (ap (◌∷◌ (get_next_segment sc.wal_segment_runner)) (visits-add k j m (pass m sc)))

length-walk :
    (n : ℕ) (s : ℕ → Option TimelineHistoryRecord) (d : WalSegmentDescription)
    → length (walk n s d) ≡ n
unfolding walk
length-walk zero s d = refl
length-walk (suc n) s d = ap suc (length-walk n s (segment_before s d))

take-walk :
    (k n : ℕ) (s : ℕ → Option TimelineHistoryRecord) (d : WalSegmentDescription)
    → walk (min k n) s d ≡ take k (walk n s d)
unfolding walk
take-walk zero n s d = let e : min 0 n ≡ 0 = omega arith in rw e refl
take-walk (suc k) zero s d = let e : min (suc k) 0 ≡ 0 = omega arith in rw e refl
take-walk (suc k) (suc n) s d =
    let e : min (suc k) (suc n) ≡ suc (min k n) = omega arith in
    rw e (ap (◌∷◌ (segment_before s d)) (take-walk k n s (segment_before s d)))

first_found-le :
    (p : WalSegmentDescription → Bool) (ds : List WalSegmentDescription)
    → first_found p ds ≤ length ds
unfolding first_found
first_found-le p [] = omega arith
first_found-le p (d ∷ ds) = ground (arith, first_found-le p ds)

-- Passes after passes: the storage does not change.
scanned_step :
    (j : ℕ) (m' : ScannedSegmentStatus) (k : ℕ) (m : ScannedSegmentStatus) (sc : WalSegmentScanner)
    → (passes j m' (passes k m sc)).scanned_segments
      ≡ (passes k m sc).scanned_segments ++ map (mark (storage sc) m') (visits j (passes k m sc))
scanned_step j m' k m sc =
    scanned-passes j m' (passes k m sc)
    ∙ ap (λ st. (passes k m sc).scanned_segments ++ map (mark st m') (visits j (passes k m sc)))
        (storage-passes k m sc)

regroup {ℓ} : {A : Type ℓ} (a b c d : List A) → ((a ++ b) ++ c) ++ d ≡ a ++ (b ++ (c ++ d))
regroup a b c d = simp append_assoc

-- The three scans as passes: how many each makes, and where it ends.
module _ (uploading delayed : ℕ) (sc : WalSegmentScanner) where
  abbrev delayed_passes : ℕ
  delayed_passes = first_found (in_storage sc) (visits (min delayed (left sc)) sc)

  abbrev after_delayed : WalSegmentScanner
  after_delayed = passes delayed_passes probably_delayed sc

  abbrev uploading_passes : ℕ
  uploading_passes = min uploading (left after_delayed)

  abbrev after_uploading : WalSegmentScanner
  after_uploading = passes uploading_passes probably_uploading after_delayed

  abbrev after_lost : WalSegmentScanner
  after_lost = passes (left after_uploading) lost after_uploading

  delayed_passes-le : delayed_passes ≤ left sc
  delayed_passes-le = omega (
    arith,
    first_found-le (in_storage sc) (visits (min delayed (left sc)) sc),
    length-walk (min delayed (left sc)) sc.wal_segment_runner.timeline_switch_map
        sc.wal_segment_runner.current_wal_segment,
  )

  scans_lem : IsU64 (at sc) → run_wal_integrity_scan sc uploading delayed ≡ some after_lost
  unfolding run_wal_integrity_scan scan
  scans_lem h =
      let d = left-passes delayed_passes probably_delayed sc h delayed_passes-le in
      let u = left-passes uploading_passes probably_uploading after_delayed d.1 (omega arith) in
      rw (
        scan_limited-first delayed (delayed_scan delayed) sc refl h,
        scan_limited-passes uploading (uploading_scan uploading) after_delayed refl d.1,
        scan_unlimited-passes (suc (at after_uploading)) lost_scan after_uploading refl u.1
            (omega arith),
      )

  module _ (h : IsU64 (at sc)) where
    left_delayed : (left after_delayed + delayed_passes ≡ left sc) × IsU64 (at after_delayed)
    left_delayed = left-passes delayed_passes probably_delayed sc h delayed_passes-le

    left_uploading :
        (left after_uploading + uploading_passes ≡ left after_delayed) × IsU64 (at after_uploading)
    left_uploading =
        left-passes uploading_passes probably_uploading after_delayed left_delayed.1 (omega arith)

    visits_split :
        visits (left sc) sc
        ≡ visits delayed_passes sc
          ++ (visits uploading_passes after_delayed
              ++ visits (left after_uploading) after_uploading)
    visits_split =
        let e : left sc ≡ delayed_passes + left after_delayed = omega (arith, left_delayed.0) in
        let f : left after_delayed ≡ uploading_passes + left after_uploading =
          omega (arith, left_uploading.0) in
        ap (λ n. visits n sc) e
        ∙ visits-add delayed_passes (left after_delayed) probably_delayed sc
        ∙ ap (λ n. visits delayed_passes sc ++ visits n after_delayed) f
        ∙ ap (◌++◌ (visits delayed_passes sc))
            (visits-add uploading_passes (left after_uploading) probably_uploading after_delayed)

  scanned_split :
      after_lost.scanned_segments
      ≡ sc.scanned_segments
        ++ (map (mark (storage sc) probably_delayed) (visits delayed_passes sc)
            ++ (map (mark (storage sc) probably_uploading) (visits uploading_passes after_delayed)
                ++ map (mark (storage sc) lost) (visits (left after_uploading) after_uploading)))
  scanned_split =
      scanned_step (left after_uploading) lost uploading_passes probably_uploading after_delayed
      ∙ ap (λ xs. xs ++ last)
          (scanned_step uploading_passes probably_uploading delayed_passes probably_delayed sc)
      ∙ ap (λ xs. ((xs ++ middle) ++ last)) (scanned-passes delayed_passes probably_delayed sc)
      ∙ regroup sc.scanned_segments _ middle last
      ∙ ap
          (λ st.
            sc.scanned_segments
            ++ (map (mark (storage sc) probably_delayed) (visits delayed_passes sc)
                ++ (middle ++ map (mark st lost) (visits (left after_uploading) after_uploading))))
          (storage-passes delayed_passes probably_delayed sc)
    where
      middle : List ScannedSegmentDescription
      middle = map (mark (storage sc) probably_uploading) (visits uploading_passes after_delayed)

      last : List ScannedSegmentDescription
      last = map (mark (storage after_delayed) lost) (visits (left after_uploading) after_uploading)

-- The segments that a wal-verify has to look at, newest first: those before the starting segment
-- down to the stop, on the timelines that the history gives.
abbrev pub required : WalSegmentRunner → List WalSegmentDescription
required r =
    walk (r.current_wal_segment.number - r.stop_segment_no) r.timeline_switch_map
      r.current_wal_segment

-- The three scans always end. Together they visit the required segments in order, each once: the
-- delayed scan as far as the first one in the storage or its limit, the uploading scan up to its
-- range, the last scan the rest. Each scan marks what the storage has as found, and the others by
-- its own status.
pub run_wal_integrity_scan_phases :
    (r : WalSegmentRunner) (uploading delayed : ℕ)
    → IsU64 r.current_wal_segment.number
    → (sc : WalSegmentScanner) × (a : List WalSegmentDescription) × (b : List WalSegmentDescription)
      × (c : List WalSegmentDescription) × (run_wal_integrity_scan (new_scanner r) uploading delayed
          ≡ some sc)
      × (required r ≡ a ++ (b ++ c))
      × (length a
          ≡ first_found (contains_segment r.wal_folder_segments) (take delayed (required r)))
      × (length b ≡ min uploading (length (required r) - length a))
      × (sc.scanned_segments
          ≡ map (mark r.wal_folder_segments probably_delayed) a
            ++ (map (mark r.wal_folder_segments probably_uploading) b
                ++ map (mark r.wal_folder_segments lost) c))
unfolding new_scanner
run_wal_integrity_scan_phases r uploading delayed h =
    let sc = new_scanner r in
    let sc₁ = after_delayed uploading delayed sc in
    let sc₂ = after_uploading uploading delayed sc in
    let lw = λ (n : ℕ) (s : WalSegmentScanner).
      length-walk n s.wal_segment_runner.timeline_switch_map
        s.wal_segment_runner.current_wal_segment in
    (
      after_lost uploading delayed sc,
      visits (delayed_passes uploading delayed sc) sc,
      visits (uploading_passes uploading delayed sc) sc₁,
      visits (left sc₂) sc₂,
      scans_lem uploading delayed sc h,
      visits_split uploading delayed sc h,
      lw (delayed_passes uploading delayed sc) sc
          ∙ ap (first_found (contains_segment r.wal_folder_segments))
              (take-walk delayed (left sc) r.timeline_switch_map r.current_wal_segment),
      omega (
        arith,
        lw (uploading_passes uploading delayed sc) sc₁,
        lw (delayed_passes uploading delayed sc) sc,
        lw (left sc) sc,
        left_delayed uploading delayed sc h,
      ),
      scanned_split uploading delayed sc,
    )

-- ===== src/DeltaMap/Download/Ends.antt =====
-- delta_map_downloader.go: the loops over delta numbers and segment numbers come to an end.
use mathlib.Core.Path.{subst}
use extract.Common.{
  ℕ, zero, suc, ◌+◌, ◌-◌, ◌%◌, ◌^◌, ◌<◌, ◌≡◌, ◌≢◌, sym, List, [], ltb, Bool-cases, Result, ok, err,
  ◌>>=◌, inl, inr, arith,
}
use extract.Segment.{WalSize}
use extract.Segment.DeltaNo
use extract.Segment.WalSegmentNo
use extract.Walparser.Readers.{ParseError}
use extract.Walparser.Parser.{WalParser, Extracted, extract_locations_from_wal_file}
use extract.WalDelta.DeltaFile.{load_delta_file}
use extract.DeltaMap.Bitmap.{BitmapOps, IsBitmapOps}
use extract.DeltaMap.Map.{PagedFileDeltaMap, add_locations_to_delta}
use extract.DeltaMap.Download.{
  DownloadError, endless, downloaded, parsed, add_extracted, get_delta_file,
  get_locations_from_deltas, get_locations_from_wal, get_locations_from_wals, get_delta_map,
}
use extract.DeltaMap.Download.Covers.{delta_round, delta_end, next_delta}
use extract.DeltaMap.Download.Wals.{wal_round, wal_end, next_segment}
use extract.DeltaMap.Download.Complete.{delta_bounds}

Ended : {E A : Type 0} → Result (DownloadError E) A → Type 0
Ended {E} {A} r = r ≢ err endless

after_Ended :
    {E A C : Type 0} (r : Result (DownloadError E) A) (f : A → Result (DownloadError E) C)
    → Ended r
    → ((a : A) → Ended (f a))
    → Ended (r >>= f)
unfolding Ended
after_Ended (ok a) f h k = k a
after_Ended (err e) f h k = λ x. h (ground (arith, x))

downloaded-Ended : {E A : Type 0} (r : Result E A) → Ended (downloaded r)
unfolding Ended
downloaded-Ended (ok a) = λ e. cc
downloaded-Ended (err x) = λ e. cc

parsed-Ended :
    (E : Type 0) {A : Type 0} (r : Result ParseError A) → Ended (parsed {E = E} {A = A} r)
unfolding Ended
parsed-Ended E (ok a) = λ e. cc
parsed-Ended E (err x) = λ e. cc

module _ {B E : Type 0} (o : BitmapOps B) (v : IsBitmapOps o) (fetch : List ℕ → Result E (List ℕ))
    (w : WalSize) (timeline : ℕ) where
  get_delta_file-Ended : (name : List ℕ) → Ended (get_delta_file o fetch w name)
  unfolding get_delta_file
  get_delta_file-Ended name =
      after_Ended (downloaded (fetch name)) (λ bytes. parsed (load_delta_file bytes).0)
        (downloaded-Ended (fetch name)) (λ bytes. parsed-Ended E (load_delta_file bytes).0)

  add_extracted-Ended :
      (r : Extracted) (m : PagedFileDeltaMap B) → Ended (add_extracted o fetch w r m)
  unfolding Ended
  add_extracted-Ended (ok ls, p) m = λ e. cc
  add_extracted-Ended (err x, p) m = λ e. cc

  get_locations_from_wal-Ended :
      (name : List ℕ) (p : WalParser) (m : PagedFileDeltaMap B)
      → Ended (get_locations_from_wal o fetch w name p m)
  unfolding get_locations_from_wal
  get_locations_from_wal-Ended name p m =
      after_Ended (downloaded (fetch name)) _ (downloaded-Ended (fetch name))
        (λ bytes. add_extracted-Ended (extract_locations_from_wal_file p bytes) m)

  ok-Ended : (m : PagedFileDeltaMap B) → Ended {E = E} (ok m)
  unfolding Ended
  ok-Ended m = λ e. cc

  deltas-Ended :
      (fuel current last : ℕ) (m : PagedFileDeltaMap B)
      → current % 16 ≡ 0
      → last % 16 ≡ 0
      → last < 2 ^ 64
      → last - current < fuel
      → Ended (get_locations_from_deltas o fetch w fuel timeline current last m)
  deltas-Ended zero current last m a b u l = elim l [ ]
  deltas-Ended (suc fuel) current last m a b u l = elim (Bool-cases (ltb current last)) [
    | inr f ↦ subst Ended (sym (delta_end o v fetch w timeline fuel current last m f)) (ok-Ended m)
    | inl f ↦
        let next = next_delta o v fetch w timeline current last a b u (ground (arith, f)) in
        subst Ended (sym (delta_round o v fetch w timeline fuel current last m f)) (
          after_Ended (get_delta_file o fetch w (DeltaNo.get_filename w current timeline)) _
            (get_delta_file-Ended (DeltaNo.get_filename w current timeline))
            (λ file.
              let added = add_locations_to_delta o file.locations m in
              subst (λ n. Ended (get_locations_from_deltas o fetch w fuel timeline n last added))
                (sym next)
                (deltas-Ended fuel (current + 16) last added (omega (arith, a)) b u
                  (ground (arith, l, f)))))
  ]

  wals-Ended :
      (fuel current last : ℕ) (p : WalParser) (m : PagedFileDeltaMap B)
      → last < 2 ^ 64
      → last - current < fuel
      → Ended (get_locations_from_wals o fetch w fuel timeline current last p m)
  wals-Ended zero current last p m u l = elim l [ ]
  wals-Ended (suc fuel) current last p m u l = elim (Bool-cases (ltb current last)) [
    | inr f ↦ subst Ended (sym (wal_end o v fetch w timeline fuel current last p m f)) (ok-Ended m)
    | inl f ↦
        let next = next_segment o v fetch w timeline current last u (ground (arith, f)) in
        subst Ended (sym (wal_round o v fetch w timeline fuel current last p m f)) (
          after_Ended
            (get_locations_from_wal o fetch w (WalSegmentNo.get_filename w current timeline) p m) _
            (get_locations_from_wal-Ended (WalSegmentNo.get_filename w current timeline) p m)
            (λ r.
              subst (λ n. Ended (get_locations_from_wals o fetch w fuel timeline n last r.1 r.0))
                (sym next) (wals-Ended fuel (suc current) last r.1 r.0 u (ground (arith, l, f)))))
  ]

  all_wals :
      (from to : ℕ) (p : WalParser) (m : PagedFileDeltaMap B)
      → Ended (
          get_locations_from_wals o fetch w
            (suc (to % 2 ^ 64 - from))
            timeline
            from
            (to % 2 ^ 64)
            p
            m)
  all_wals from to p m =
      wals-Ended (suc (to % 2 ^ 64 - from)) from (to % 2 ^ 64) p m (omega arith) (omega arith)

  -- getDeltaMap comes to an end at all uint64 positions, with the map or an error of the program.
  pub get_delta_map-ends :
      (first_used first_not_used : ℕ)
      → first_used < 2 ^ 64
      → first_not_used < 2 ^ 64
      → get_delta_map o fetch w timeline first_used first_not_used ≢ err endless
  unfolding get_delta_map DeltaNo.first_wal_segment_no WalSegmentNo.next DeltaNo.previous Ended
  get_delta_map-ends first_used first_not_used h0 h1 =
      let d0 = DeltaNo.of_lsn w first_used in
      let d1 = DeltaNo.of_lsn w first_not_used in
      let a = delta_bounds w first_used h0 in
      let b = delta_bounds w first_not_used h1 in
      let last = DeltaNo.previous d1 in
      after_Ended (get_locations_from_deltas o fetch w (suc (last - d0)) timeline d0 last []) _
        (deltas-Ended (suc (last - d0)) d0 last [] a.1 (multiple d1 b.1) (omega arith)
          (omega arith))
        (λ m.
          after_Ended (get_delta_file o fetch w (DeltaNo.get_filename w last timeline)) _
            (get_delta_file-Ended (DeltaNo.get_filename w last timeline))
            (λ file. all_wals d1 _ file.wal_parser (add_locations_to_delta o file.locations m)))
    where
      multiple : (d : ℕ) → d % 16 ≡ 0 → DeltaNo.previous d % 16 ≡ 0
      multiple d h = omega (arith, h)

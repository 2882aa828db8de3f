-- ===== src/DeltaMap/Download/Complete.antt =====
-- delta_map_downloader.go: what a map that getDeltaMap returns has.
use native.Mathlib.Nat.{div-le_self}
use extract.Common.{
  ℕ, suc, ◌+◌, ◌-◌, ◌%◌, ◌^◌, ◌≤◌, ◌<◌, ◌≡◌, sym, ap, List, [], ltb, Bool-cases, Result, ok,
  chain_ok, ◌⊎◌, inl, inr, arith,
}
use extract.Segment.{WalSize, sub_u64}
use extract.Segment.DeltaNo
use extract.Segment.WalSegmentNo
use extract.Segment.Arithmetic.{of_wal_segment_no_bounds}
use extract.DeltaMap.Bitmap.{BitmapOps, IsBitmapOps}
use extract.DeltaMap.Map.{PagedFileDeltaMap, add_locations_to_delta}
use extract.DeltaMap.Download.{get_delta_file, get_locations_from_deltas, get_delta_map}
use extract.DeltaMap.Download.Covers.{
  ByDelta, ByWal, ByDelta-keep, Keeps-trans, adds-Keeps, adds-Listed, Listed-keep,
  get_locations_from_deltas-ByDelta,
}
use extract.DeltaMap.Download.Wals.{get_locations_from_wals-ByWal}

segment_le : (w : WalSize) (lsn : ℕ) → WalSegmentNo.of_lsn w lsn ≤ lsn
unfolding WalSegmentNo.of_lsn
segment_le w lsn = div-le_self lsn w.wal_segment_size

no_wrap :
    (s end last lsn : ℕ)
    → s ≤ last
    → last ≡ end
    → end ≤ lsn
    → lsn < 2 ^ 64 - 1
    → s < (end + 1) % 2 ^ 64
no_wrap s end last lsn a b c d = omega arith

pub segment_bound : (w : WalSize) (lsn : ℕ) → lsn < 2 ^ 64 → WalSegmentNo.of_lsn w lsn < 2 ^ 64
unfolding WalSegmentNo.of_lsn
segment_bound w lsn h = omega (arith, h, div-le_self lsn w.wal_segment_size)

pub delta_bounds :
    (w : WalSize) (lsn : ℕ)
    → lsn < 2 ^ 64
    → (DeltaNo.of_lsn w lsn ≤ WalSegmentNo.of_lsn w lsn) × (DeltaNo.of_lsn w lsn % 16 ≡ 0)
unfolding DeltaNo.of_lsn
delta_bounds w lsn h =
    let b = of_wal_segment_no_bounds (WalSegmentNo.of_lsn w lsn) (segment_bound w lsn h) in
    (b.0, b.2)

previous_delta : (d : ℕ) → 16 ≤ d → d < 2 ^ 64 → DeltaNo.previous d ≡ d - 16
unfolding DeltaNo.previous
previous_delta d l h = omega arith

module _ {B E : Type 0} (o : BitmapOps B) (v : IsBitmapOps o) (fetch : List ℕ → Result E (List ℕ))
    (w : WalSize) (timeline : ℕ) where
  -- A map that getDeltaMap returns without an error leaves out no WAL segment from that of the first
  -- used position to that of the last used one: it has all locations of a delta file that holds the
  -- segment, or of the segment's WAL file, as they were downloaded under their names and parsed. The
  -- positions are uint64, the first unused one is not 0 and does not lie in the first delta file.
  pub get_delta_map_complete :
      (first_used first_not_used s : ℕ) (m : PagedFileDeltaMap B)
      → first_used < 2 ^ 64
      → 0 < first_not_used
      → first_not_used < 2 ^ 64
      → 16 ≤ DeltaNo.of_lsn w first_not_used
      → get_delta_map o fetch w timeline first_used first_not_used ≡ ok m
      → WalSegmentNo.of_lsn w first_used ≤ s
      → s ≤ WalSegmentNo.of_lsn w (first_not_used - 1)
      → ByDelta o v fetch w timeline s m ⊎ ByWal o v fetch w timeline s m
  unfolding get_delta_map DeltaNo.first_wal_segment_no WalSegmentNo.next
  get_delta_map_complete first_used first_not_used s m h0 h1 h2 h3 e low high =
      let d0 = DeltaNo.of_lsn w first_used in
      let d1 = DeltaNo.of_lsn w first_not_used in
      let (d0_low, d0_mod) = delta_bounds w first_used h0 in
      let (d1_low, d1_mod) = delta_bounds w first_not_used h2 in
      let d1_bound : d1 < 2 ^ 64 = omega (arith, d1_low, segment_bound w first_not_used h2) in
      let last = DeltaNo.previous d1 in
      let is_last : last ≡ d1 - 16 = previous_delta d1 h3 d1_bound in
      let (m1, ran1, e1) =
        chain_ok (get_locations_from_deltas o fetch w (suc (last - d0)) timeline d0 last []) _ e in
      let (file, ran2, e2) =
        chain_ok (get_delta_file o fetch w (DeltaNo.get_filename w last timeline)) _ e1 in
      let m2 = add_locations_to_delta o file.locations m1 in
      let (kept1, deltas) =
        get_locations_from_deltas-ByDelta o v fetch w timeline (suc (last - d0)) d0 last [] m1
          d0_mod (omega (arith, is_last, d1_mod, h3)) (omega (arith, is_last, d1_bound)) ran1 in
      let before : sub_u64 first_not_used 1 ≡ first_not_used - 1 = omega (arith, h1, h2) in
      let end = WalSegmentNo.of_lsn w (sub_u64 first_not_used 1) in
      let end_bound : end < 2 ^ 64 = segment_bound w (sub_u64 first_not_used 1) (omega arith) in
      let same_end : WalSegmentNo.of_lsn w (first_not_used - 1) ≡ end =
        ap (WalSegmentNo.of_lsn w) (sym before) in
      let (kept2, wals) =
        get_locations_from_wals-ByWal o v fetch w timeline (suc ((end + 1) % 2 ^ 64 - d1)) d1
          ((end + 1) % 2 ^ 64) file.wal_parser m2 m (omega arith) e2 in
      elim (Bool-cases (ltb s last)) [
        | inl f ↦ inl (
            ByDelta-keep o v fetch w timeline s m1 m
              (Keeps-trans o v fetch w timeline m1 m2 m
                (adds-Keeps o v fetch w timeline file.locations m1) kept2)
              (deltas s (omega (arith, low, d0_low)) (ground (arith, f))))
        | inr f ↦ elim (Bool-cases (ltb s d1)) [
          | inl g ↦ inl (record {
            delta = last;
            from = ground (arith, f);
            to = ground (arith, g, is_last, h3);
            file = file;
            read = ran2;
            listed =
                Listed-keep o v fetch w timeline file.locations m2 m kept2
                  (adds-Listed o v fetch w timeline file.locations m1);
          })
          | inr g ↦ inr (
              wals s (ground (arith, g)) (
                no_wrap s end _ (sub_u64 first_not_used 1) high same_end
                  (segment_le w (sub_u64 first_not_used 1)) (omega (arith, before, h1, h2))))
        ]
      ]

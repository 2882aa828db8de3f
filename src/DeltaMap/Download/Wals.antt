-- ===== src/DeltaMap/Download/Wals.antt =====
-- delta_map_downloader.go: the WAL files from a segment on up to another are all in the map.
use mathlib.Core.Path.{subst}
use extract.Common.{
  ℕ, zero, suc, ◌^◌, ◌≤◌, ◌<◌, ◌≡◌, refl, sym, ◌∙◌, List, true, false, ltb, ◌==◌, Bool-cases,
  Result, ok, err, ◌>>=◌, chain_ok, inl, inr, arith,
}
use extract.Segment.{WalSize}
use extract.Segment.WalSegmentNo
use extract.Walparser.Location.{BlockLocation}
use extract.Walparser.Parser.{WalParser, Extracted, extract_locations_from_wal_file}
use extract.DeltaMap.Bitmap.{BitmapOps, IsBitmapOps}
use extract.DeltaMap.Map.{PagedFileDeltaMap, add_locations_to_delta}
use extract.DeltaMap.Download.{
  get_locations_from_wal, get_locations_from_wals, downloaded, add_extracted,
}
use extract.DeltaMap.Download.Covers.{
  Listed, ByWal, Keeps, adds-Keeps, adds-Listed, Listed-keep, Keeps-trans, ok-injective, Keeps-refl,
}

module _ {B E : Type 0} (o : BitmapOps B) (v : IsBitmapOps o) (fetch : List ℕ → Result E (List ℕ))
    (w : WalSize) (timeline : ℕ) where
  -- Every location is in the map.
  pub wal_round :
      (fuel current last : ℕ) (p : WalParser) (m : PagedFileDeltaMap B)
      → ltb current last ≡ true
      → get_locations_from_wals o fetch w (suc fuel) timeline current last p m ≡ (
          get_locations_from_wal o fetch w (WalSegmentNo.get_filename w current timeline) p m
          >>= λ next.
              get_locations_from_wals o fetch w fuel timeline
                (WalSegmentNo.next current)
                last
                next.1
                next.0)
  unfolding get_locations_from_wals
  wal_round fuel current last p m f = rw (get_locations_from_wals, f) refl

  pub wal_end :
      (fuel current last : ℕ) (p : WalParser) (m : PagedFileDeltaMap B)
      → ltb current last ≡ false
      → get_locations_from_wals o fetch w (suc fuel) timeline current last p m ≡ ok m
  unfolding get_locations_from_wals
  wal_end fuel current last p m f = rw (get_locations_from_wals, f) refl

  pub next_segment :
      (current last : ℕ) → last < 2 ^ 64 → current < last → WalSegmentNo.next current ≡ suc current
  unfolding WalSegmentNo.next
  next_segment current last u l = omega arith

  -- A WAL file that has been read.
  read_wal :
      (s : ℕ) (p p' : WalParser) (m m' : PagedFileDeltaMap B)
      → get_locations_from_wal o fetch w (WalSegmentNo.get_filename w s timeline) p m ≡ ok (m', p')
      → ByWal o v fetch w timeline s m' × Keeps o v fetch w timeline m m'
  unfolding get_locations_from_wal
  read_wal s p p' m m' e =
      let (bytes, got, rest) =
        chain_ok (downloaded (fetch (WalSegmentNo.get_filename w s timeline))) _ e in
      let (locations, read, same) = extracted (extract_locations_from_wal_file p bytes) rest in
      (
        record {
          parser = p;
          bytes = bytes;
          locations = locations;
          fetched = is_fetched (fetch (WalSegmentNo.get_filename w s timeline)) got;
          read = read;
          listed =
              subst (Listed o v fetch w timeline locations) same
                (adds-Listed o v fetch w timeline locations m);
        },
        Keeps-trans o v fetch w timeline m (add_locations_to_delta o locations m) m'
            (adds-Keeps o v fetch w timeline locations m)
            (Keeps-refl o v fetch w timeline (add_locations_to_delta o locations m) m' same),
      )
    where
      is_fetched : {bytes : List ℕ} (r : Result E (List ℕ)) → downloaded r ≡ ok bytes → r ≡ ok bytes
      is_fetched (ok b) e = cc
      is_fetched (err x) e = cc

      extracted :
          (r : Extracted)
          → add_extracted o fetch w r m ≡ ok (m', p')
          → (ls : List BlockLocation) × (r.0 ≡ ok ls) × (add_locations_to_delta o ls m ≡ m')
      extracted (ok ls, q) e = (ls, refl, cc)
      extracted (err x, q) e = cc

  ByWal-keep :
      (s : ℕ) (m m' : PagedFileDeltaMap B)
      → Keeps o v fetch w timeline m m'
      → ByWal o v fetch w timeline s m
      → ByWal o v fetch w timeline s m'
  ByWal-keep s m m' k d = record {
    parser = d.parser;
    bytes = d.bytes;
    locations = d.locations;
    fetched = d.fetched;
    read = d.read;
    listed = Listed-keep o v fetch w timeline d.locations m m' k d.listed;
  }

  pub get_locations_from_wals-ByWal :
      (fuel current last : ℕ) (p : WalParser) (m m' : PagedFileDeltaMap B)
      → last < 2 ^ 64
      → get_locations_from_wals o fetch w fuel timeline current last p m ≡ ok m'
      → Keeps o v fetch w timeline m m'
        × ((s : ℕ) → current ≤ s → s < last → ByWal o v fetch w timeline s m')
  unfolding get_locations_from_wals
  get_locations_from_wals-ByWal zero current last p m m' u e = cc
  get_locations_from_wals-ByWal (suc fuel) current last p m m' u e =
      elim (Bool-cases (ltb current last)) [
        | inr f ↦ (
          Keeps-refl o v fetch w timeline m m'
              (ok-injective o v fetch w timeline (sym (wal_end fuel current last p m f) ∙ e)),
          (λ s l h. absurd (passed f l h)),
        )
        | inl f ↦
            let ((added, p'), read, rest) =
              chain_ok
                (get_locations_from_wal o fetch w (WalSegmentNo.get_filename w current timeline) p
                  m)
                _ (sym (wal_round fuel current last p m f) ∙ e) in
            let (covers, grown) = read_wal current p p' m added read in
            let next = next_segment current last u (ground (arith, f)) in
            let (kept, covered) =
              get_locations_from_wals-ByWal fuel (suc current) last p' added m' u (
                subst (λ n. get_locations_from_wals o fetch w fuel timeline n last p' added ≡ ok m')
                  next rest) in
            (
              Keeps-trans o v fetch w timeline m added m' grown kept,
              (λ s l h. elim (Bool-cases (s == current)) [
                | inl i ↦
                    subst (λ t. ByWal o v fetch w timeline t m') (ground (arith, i))
                      (ByWal-keep current added m' kept covers)
                | inr i ↦ covered s (ground (arith, i, l)) h
              ]),
            )
      ]
    where
      passed : {s : ℕ} → ltb current last ≡ false → current ≤ s → s < last → ⊥
      passed f l h = ground (arith, f, l, h)

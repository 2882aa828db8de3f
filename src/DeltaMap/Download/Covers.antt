-- ===== src/DeltaMap/Download/Covers.antt =====
-- delta_map_downloader.go: no segment between the two positions is left out of the map.
use mathlib.Core.Path.{subst}
use extract.Common.{
  ℕ, zero, suc, ◌+◌, ◌%◌, ◌^◌, ◌≤◌, ◌<◌, ◌≡◌, refl, sym, ap, ◌∙◌, List, [], ◌∷◌, All, All-map, any,
  Bool, true, false, ltb, ◌||◌, Bool-cases, Result, ok, ◌>>=◌, chain_ok, inl, inr, arith,
}
use extract.Segment.{WalSize}
use extract.Segment.DeltaNo
use extract.Segment.WalSegmentNo
use extract.Walparser.Location.{RelFileNode, BlockLocation}
use extract.Walparser.Parser.{WalParser, extract_locations_from_wal_file}
use extract.WalDelta.DeltaFile.{DeltaFile}
use extract.DeltaMap.Bitmap.{BitmapOps, IsBitmapOps}
use extract.DeltaMap.Map.{PagedFileDeltaMap, add_locations_to_delta}
use extract.DeltaMap.Map.Exact.{in_map, of_block, in_map-adds}
use extract.DeltaMap.Download.{DownloadError, get_delta_file, get_locations_from_deltas}

module _ {B E : Type 0} (o : BitmapOps B) (v : IsBitmapOps o) (fetch : List ℕ → Result E (List ℕ))
    (w : WalSize) (timeline : ℕ) where
  -- Every location is in the map.
  abbrev pub Listed : List BlockLocation → PagedFileDeltaMap B → Type 0
  Listed ls m = All (λ l. in_map o v l.relation_file_node m l.block_no ≡ true) ls

  -- A delta file that holds the segment, or the segment itself, has been read, and the map has its
  -- locations.
  pub record ByDelta (s : ℕ) (m : PagedFileDeltaMap B) : Type 0 where
    pub delta : ℕ
    pub from : delta ≤ s
    pub to : s < delta + 16
    pub file : DeltaFile
    pub read : get_delta_file o fetch w (DeltaNo.get_filename w delta timeline) ≡ ok file
    pub listed : Listed file.locations m

  pub record ByWal (s : ℕ) (m : PagedFileDeltaMap B) : Type 0 where
    pub parser : WalParser
    pub bytes : List ℕ
    pub locations : List BlockLocation
    pub fetched : fetch (WalSegmentNo.get_filename w s timeline) ≡ ok bytes
    pub read : (extract_locations_from_wal_file parser bytes).0 ≡ ok locations
    pub listed : Listed locations m

  -- A map that has all that another one has.
  pub Keeps : PagedFileDeltaMap B → PagedFileDeltaMap B → Type 0
  Keeps m m' =
      (node : RelFileNode) (x : ℕ) → in_map o v node m x ≡ true → in_map o v node m' x ≡ true

  pub adds-Keeps :
      (ls : List BlockLocation) (m : PagedFileDeltaMap B) → Keeps m (add_locations_to_delta o ls m)
  unfolding Keeps
  adds-Keeps ls m node x h =
      in_map-adds o v node ls m x
      ∙ ap (λ t. any (of_block o v node x) ls || t) h
      ∙ or_true (any (of_block o v node x) ls)
    where
      or_true : (a : Bool) → (a || true) ≡ true
      or_true a = ground arith

  every_own :
      (ls : List BlockLocation)
      → All (λ l. any (of_block o v l.relation_file_node l.block_no) ls ≡ true) ls
  every_own [] = tt
  every_own (l ∷ ls) = (ground arith, All-map ls (λ k h. later k h) (every_own ls))
    where
      later :
          (k : BlockLocation)
          → any (of_block o v k.relation_file_node k.block_no) ls ≡ true
          → (of_block o v k.relation_file_node k.block_no l
              || any (of_block o v k.relation_file_node k.block_no) ls)
            ≡ true
      later k h = ground (arith, h)

  pub adds-Listed :
      (ls : List BlockLocation) (m : PagedFileDeltaMap B)
      → Listed ls (add_locations_to_delta o ls m)
  adds-Listed ls m =
      All-map ls
        (λ l h.
          in_map-adds o v l.relation_file_node ls m l.block_no
          ∙ ap (λ t. t || in_map o v l.relation_file_node m l.block_no) h)
        (every_own ls)

  pub Listed-keep :
      (ls : List BlockLocation) (m m' : PagedFileDeltaMap B)
      → Keeps m m'
      → Listed ls m
      → Listed ls m'
  unfolding Keeps
  Listed-keep ls m m' k h = All-map ls (λ l e. k l.relation_file_node l.block_no e) h

  pub Keeps-trans : (a b c : PagedFileDeltaMap B) → Keeps a b → Keeps b c → Keeps a c
  unfolding Keeps
  Keeps-trans a b c f g node x h = g node x (f node x h)

  pub ByDelta-keep : (s : ℕ) (m m' : PagedFileDeltaMap B) → Keeps m m' → ByDelta s m → ByDelta s m'
  ByDelta-keep s m m' k d = record {
    delta = d.delta;
    from = d.from;
    to = d.to;
    file = d.file;
    read = d.read;
    listed = Listed-keep d.file.locations m m' k d.listed;
  }

  pub ok-injective :
      {x y : PagedFileDeltaMap B}
      → Path (Result (DownloadError E) (PagedFileDeltaMap B)) (ok x) (ok y)
      → x ≡ y
  ok-injective e = cc

  pub Keeps-refl : (m m' : PagedFileDeltaMap B) → m ≡ m' → Keeps m m'
  unfolding Keeps
  Keeps-refl m m' e node x h = subst (λ k. in_map o v node k x ≡ true) e h

  pub next_delta :
      (current last : ℕ)
      → current % 16 ≡ 0
      → last % 16 ≡ 0
      → last < 2 ^ 64
      → current < last
      → DeltaNo.next current ≡ current + 16
  unfolding DeltaNo.next
  next_delta current last a b u l = omega arith

  pub delta_round :
      (fuel current last : ℕ) (m : PagedFileDeltaMap B)
      → ltb current last ≡ true
      → get_locations_from_deltas o fetch w (suc fuel) timeline current last m ≡ (
          get_delta_file o fetch w (DeltaNo.get_filename w current timeline) >>= λ file.
          get_locations_from_deltas o fetch w fuel timeline
            (DeltaNo.next current)
            last
            (add_locations_to_delta o file.locations m))
  unfolding get_locations_from_deltas
  delta_round fuel current last m f = rw (get_locations_from_deltas, f) refl

  pub delta_end :
      (fuel current last : ℕ) (m : PagedFileDeltaMap B)
      → ltb current last ≡ false
      → get_locations_from_deltas o fetch w (suc fuel) timeline current last m ≡ ok m
  unfolding get_locations_from_deltas
  delta_end fuel current last m f = rw (get_locations_from_deltas, f) refl

  -- The delta files from one number up to another, both multiples of 16.
  pub get_locations_from_deltas-ByDelta :
      (fuel current last : ℕ) (m m' : PagedFileDeltaMap B)
      → current % 16 ≡ 0
      → last % 16 ≡ 0
      → last < 2 ^ 64
      → get_locations_from_deltas o fetch w fuel timeline current last m ≡ ok m'
      → Keeps m m' × ((s : ℕ) → current ≤ s → s < last → ByDelta s m')
  unfolding get_locations_from_deltas
  get_locations_from_deltas-ByDelta zero current last m m' a b u e = cc
  get_locations_from_deltas-ByDelta (suc fuel) current last m m' a b u e =
      elim (Bool-cases (ltb current last)) [
        | inr f ↦ (
          Keeps-refl m m' (ok-injective (sym (delta_end fuel current last m f) ∙ e)),
          (λ s l h. absurd (passed f l h)),
        )
        | inl f ↦
            let (file, read, rest) =
              chain_ok (get_delta_file o fetch w (DeltaNo.get_filename w current timeline)) _
                (sym (delta_round fuel current last m f) ∙ e) in
            let next = next_delta current last a b u (ground (arith, f)) in
            let added = add_locations_to_delta o file.locations m in
            let (kept, covered) =
              get_locations_from_deltas-ByDelta fuel (current + 16) last added m' (omega (arith, a))
                b u
                (subst (λ n. get_locations_from_deltas o fetch w fuel timeline n last added ≡ ok m')
                  next rest) in
            (
              Keeps-trans m added m' (adds-Keeps file.locations m) kept,
              (λ s l h. elim (Bool-cases (ltb s (current + 16))) [
                | inl i ↦ record {
                  delta = current;
                  from = l;
                  to = ground (arith, i);
                  file = file;
                  read = read;
                  listed = Listed-keep file.locations added m' kept (adds-Listed file.locations m);
                }
                | inr i ↦ covered s (ground (arith, i)) h
              ]),
            )
      ]
    where
      passed : {s : ℕ} → ltb current last ≡ false → current ≤ s → s < last → ⊥
      passed f l h = ground (arith, f, l, h)

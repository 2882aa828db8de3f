-- ===== src/Compose.antt =====
-- rating_tar_ball_composer.go, with compose_rating_evaluator.go and the statistics of bundle_files.go:
-- which files are put into which tar ball.
pub mod Packed
pub mod Size
use extract.Common.{
  ℕ, ◌+◌, ◌*◌, ◌/◌, ◌%◌, ◌^◌, List, [], ◌∷◌, ◌++◌, length, bytes_eq, sort_by, Bool, true, false,
  not, ltb, ◌==◌, ◌&&◌, ◌||◌, if◌then◌else◌, Option, none, some, Result, ok, err, ◌>>=◌,
}
use extract.Walparser.Location.{RelFileNode, rel_file_node_eq}
use extract.Increment.PageHeader.{database_page_size}
use extract.Increment.Reader.{increment_file_header}
use extract.DeltaMap.RelFile.{DeltaMapError, no_bitmap_found, get_rel_file_node_from}
use extract.DeltaMap.Bitmap.{BitmapOps}
use extract.DeltaMap.Map.{PagedFileDeltaMap, add_locations_to_delta, get_delta_bitmap_for}
use extract.DeltaMap.PagedFile.{ScanError, named, read_increment_locations}

-- A file's size is that of its info.
pub record ComposeFileInfo : Type 0 where
  pub path : List ℕ
  pub file_size : ℕ
  pub was_in_base : Bool
  pub header_name : List ℕ
  pub is_incremented : Bool

pub record RatedComposeFileInfo : Type 0 where
  pub info : ComposeFileInfo
  pub update_rating : ℕ
  pub updates_count : ℕ
  pub expected_size : ℕ

pub record TarFilesCollection : Type 0 where
  pub files : List RatedComposeFileInfo
  pub expected_size : ℕ

unfoldable pub new_tar_files_collection : TarFilesCollection
new_tar_files_collection = record { files = []; expected_size = 0 }

-- The size is a uint64.
unfoldable pub add_file_to : RatedComposeFileInfo → TarFilesCollection → TarFilesCollection
add_file_to file c = record {
  files = c.files ++ file ∷ [];
  expected_size = (c.expected_size + file.expected_size) % 2 ^ 64;
}

unfoldable pub sort_files : List RatedComposeFileInfo → List RatedComposeFileInfo
sort_files files = sort_by (λ f. f.update_rating) files

-- Whether the next file starts a collection: the current one is too large, or the rating has just gone
-- from zero to non-zero.
unfoldable pub starts_collection : ℕ → TarFilesCollection → ℕ → RatedComposeFileInfo → Bool
starts_collection threshold current prev file =
    ltb threshold current.expected_size || prev == 0 && ltb 0 file.update_rating

-- The collections from the current one on.
unfoldable pub compose_rounds :
    ℕ → TarFilesCollection → ℕ → List RatedComposeFileInfo → List TarFilesCollection
unfolding starts_collection add_file_to new_tar_files_collection
compose_rounds threshold current prev [] = current ∷ []
compose_rounds threshold current prev (file ∷ files) =
    let started =
      current
      ∷ compose_rounds threshold (add_file_to file new_tar_files_collection) file.update_rating
          files in
    let continued = compose_rounds threshold (add_file_to file current) file.update_rating files in
    if starts_collection threshold current prev file then started else continued

unfoldable pub compose_files : ℕ → List RatedComposeFileInfo → List TarFilesCollection
unfolding sort_files compose_rounds
compose_files tar_size_threshold files_to_compose =
    compose_rounds tar_size_threshold new_tar_files_collection 0 (sort_files files_to_compose)

pub record PgRelationStat : Type 0 where
  pub inserted_tuples_count : ℕ
  pub updated_tuples_count : ℕ
  pub deleted_tuples_count : ℕ

abbrev pub RelFileStatistics : Type 0
RelFileStatistics = List (RelFileNode × PgRelationStat)

unfoldable pub stat_of : RelFileNode → RelFileStatistics → Option PgRelationStat
stat_of node [] = none
stat_of node ((n, s) ∷ stats) = if rel_file_node_eq n node then some s else stat_of node stats

abbrev pub updates_of : Option PgRelationStat → ℕ
updates_of none = 0
updates_of (some s) =
    (s.deleted_tuples_count + s.updated_tuples_count + s.inserted_tuples_count) % 2 ^ 64

unfoldable pub get_file_update_count : RelFileStatistics → List ℕ → ℕ
unfolding stat_of
get_file_update_count stats file_path = elim (get_rel_file_node_from file_path) [
  | err e ↦ 0
  | ok node ↦ updates_of (stat_of node stats)
]

-- UpdatesCount of the base backup's files, by path; a missing one has 0.
unfoldable pub updates_in_base : List (List ℕ × ℕ) → List ℕ → ℕ
updates_in_base [] path = 0
updates_in_base ((p, n) ∷ files) path = if bytes_eq p path then n else updates_in_base files path

unfoldable pub evaluate : List (List ℕ × ℕ) → List ℕ → ℕ → Bool → ℕ
unfolding updates_in_base
evaluate increment_from_files path updates_count was_in_base =
    let prev_update_count = updates_in_base increment_from_files path in
    if not was_in_base
    then updates_count
    else if prev_update_count == 0
    then updates_count
    else updates_count * 100 % 2 ^ 64 / prev_update_count

-- What addFile and the calls below it read and change. The position is that of the base, and the file
-- that a path names is given with the call.
pub record RatingTarBallComposer (B : Type 0) : Type 0 where
  pub files_to_compose : List RatedComposeFileInfo
  pub increment_from_files : List (List ℕ × ℕ)
  pub file_stats : RelFileStatistics
  pub increment_base_lsn : ℕ
  pub tar_size_threshold : ℕ
  pub delta_map : PagedFileDeltaMap B
  pub delta_map_complete : Bool

module _ {B : Type 0} (o : BitmapOps B) where
  -- A map that is nil is made while the files are added.
  unfoldable pub new_rating_tar_ball_composer :
      ℕ
      → List (List ℕ × ℕ)
      → ℕ
      → Option (PagedFileDeltaMap B)
      → RelFileStatistics
      → RatingTarBallComposer B
  new_rating_tar_ball_composer threshold increment_from_files lsn none stats = record {
    files_to_compose = [];
    increment_from_files = increment_from_files;
    file_stats = stats;
    increment_base_lsn = lsn;
    tar_size_threshold = threshold;
    delta_map = [];
    delta_map_complete = false;
  }
  new_rating_tar_ball_composer threshold increment_from_files lsn (some m) stats = record {
    files_to_compose = [];
    increment_from_files = increment_from_files;
    file_stats = stats;
    increment_base_lsn = lsn;
    tar_size_threshold = threshold;
    delta_map = m;
    delta_map_complete = true;
  }

  unfoldable pub scan_delta_map_for :
      List ℕ → List ℕ → ℕ → RatingTarBallComposer B → Result ScanError (RatingTarBallComposer B)
  scan_delta_map_for file_path file file_size c = do
    locations ← read_increment_locations file_path file file_size c.increment_base_lsn
    ok (record c { delta_map = add_locations_to_delta o locations c.delta_map })

  -- The header has the file's mark, its size, and the number and the numbers of its blocks.
  abbrev pub expected_of : Result DeltaMapError B → Result ScanError ℕ
  expected_of (err no_bitmap_found) = ok 0
  expected_of (err e) = named (err e)
  expected_of (ok bitmap) =
      let n = o.get_cardinality bitmap in
      ok ((length increment_file_header + 8 + 4 + n * 4 + n * database_page_size) % 2 ^ 64)

  abbrev pub scan_if_needed :
      ComposeFileInfo
      → List ℕ
      → RatingTarBallComposer B
      → Result ScanError (RatingTarBallComposer B)
  scan_if_needed cfi file c =
      if c.delta_map_complete then ok c else scan_delta_map_for cfi.path file cfi.file_size c

  unfoldable pub increment_size :
      ComposeFileInfo
      → List ℕ
      → RatingTarBallComposer B
      → Result ScanError (ℕ × RatingTarBallComposer B)
  unfolding scan_delta_map_for
  increment_size cfi file c = do
    c' ← scan_if_needed cfi file c
    size ← expected_of (get_delta_bitmap_for o cfi.path c'.delta_map)
    ok (size, c')

  unfoldable pub get_expected_file_size :
      ComposeFileInfo
      → List ℕ
      → RatingTarBallComposer B
      → Result ScanError (ℕ × RatingTarBallComposer B)
  unfolding increment_size
  get_expected_file_size cfi file c =
      if cfi.is_incremented then increment_size cfi file c else ok (cfi.file_size, c)

  unfoldable pub add_file :
      ComposeFileInfo
      → List ℕ
      → RatingTarBallComposer B
      → Result ScanError (RatingTarBallComposer B)
  unfolding get_expected_file_size get_file_update_count evaluate
  add_file cfi file c = do
    (size, c') ← get_expected_file_size cfi file c
    let count = get_file_update_count c.file_stats cfi.path
    let rated : RatedComposeFileInfo = record {
      info = cfi;
      update_rating = evaluate c.increment_from_files cfi.path count cfi.was_in_base;
      updates_count = count;
      expected_size = size;
    }
    ok (record c' { files_to_compose = c'.files_to_compose ++ rated ∷ [] })

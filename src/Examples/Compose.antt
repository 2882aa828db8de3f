-- ===== src/Examples/Compose.antt =====
-- rating_tar_ball_composer.go on three files.
use mathlib.Core.List.{Perm}
use extract.Common.{sort_by, insert_by, IsSortedBy, ℕ, ◌≡◌, refl, List, [], ◌∷◌, All, true, false}
use extract.Compose.{
  ComposeFileInfo, RatedComposeFileInfo, add_file_to, new_tar_files_collection, sort_files,
  starts_collection, compose_rounds, compose_files, updates_in_base, evaluate,
}
use extract.Compose.Packed.{IsCollection, rating_of, files_of, compose_files-IsComposed}

abbrev file_info : ComposeFileInfo
file_info = record {
  path = b'a' ∷ [];
  file_size = 10;
  was_in_base = true;
  header_name = b'a' ∷ [];
  is_incremented = false;
}

abbrev rated : ℕ → ℕ → RatedComposeFileInfo
rated rating size = record {
  info = file_info;
  update_rating = rating;
  updates_count = rating;
  expected_size = size;
}

abbrev files : List RatedComposeFileInfo
files = rated 7 30 ∷ rated 0 10 ∷ rated 5 20 ∷ rated 6 5 ∷ []

-- The unrated file is alone, and a file is put to twenty bytes but not to twenty-five.
composed :
    compose_files 24 files
    ≡ record { files = rated 0 10 ∷ []; expected_size = 10 }
      ∷ record { files = rated 5 20 ∷ rated 6 5 ∷ []; expected_size = 25 }
      ∷ record { files = rated 7 30 ∷ []; expected_size = 30 }
      ∷ []
unfolding compose_files sort_files sort_by insert_by compose_rounds starts_collection add_file_to
    new_tar_files_collection
composed = refl

-- The rating is the share in percent of the updates that the base backup had counted.
rating_of_base : evaluate ((b'a' ∷ [], 40) ∷ []) (b'a' ∷ []) 10 true ≡ 25
unfolding evaluate updates_in_base
rating_of_base = refl

compose_files-IsComposed_example :
    Perm (files_of (compose_files 24 files)) files
    × IsSortedBy rating_of (files_of (compose_files 24 files))
    × All (IsCollection 24) (compose_files 24 files)
compose_files-IsComposed_example = compose_files-IsComposed 24 files

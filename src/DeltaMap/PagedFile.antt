-- ===== src/DeltaMap/PagedFile.antt =====
-- pagefile.go: which files are paged, and the locations that the scan of one finds.
pub mod Scan
use extract.Common.{
  ℕ, ◌%◌, List, [], ◌∷◌, Bool, true, false, not, ◌==◌, ◌&&◌, ◌||◌, Option, none, some, Result, ok,
  err, ◌>>=◌,
}
use extract.Walparser.Location.{RelFileNode, BlockLocation, new_block_location}
use extract.Increment.PageHeader.{database_page_size, IncrementError}
use extract.Increment.Reader.{IncrementalPageReader, open_paged_file, full_scan_initialize}
use extract.DeltaMap.RelFile.{
  DeltaMapError, default_tablespace, non_default_tablespace, contains_bytes, match_paged_filename,
  path_base, get_rel_file_node_from,
}

abbrev pub is_match : Option (List ℕ × List ℕ) → Bool
is_match none = false
is_match (some groups) = true

-- Of the file's info, whether it is a directory and its size.
unfoldable pub is_paged_file : Bool → ℕ → List ℕ → Bool
is_paged_file is_dir size file_path = not (
    is_dir
    || (not (contains_bytes default_tablespace file_path)
          && not (contains_bytes non_default_tablespace file_path)
        || (size == 0
            || (not (size % database_page_size == 0)
                || not (is_match (match_paged_filename (path_base file_path)))))))

unfoldable pub locations_of : RelFileNode → List ℕ → List BlockLocation
unfolding new_block_location
locations_of node [] = []
locations_of node (b ∷ blocks) =
    new_block_location node.spc_node node.db_node node.rel_node b ∷ locations_of node blocks

unfoldable pub convert_blocks_to_locations :
    List ℕ → List ℕ → Result DeltaMapError (List BlockLocation)
unfolding locations_of
convert_blocks_to_locations file_path blocks = do
  rel_file_node ← get_rel_file_node_from file_path
  ok (locations_of rel_file_node blocks)

-- The scan of the file fails, or its path names no relation.
pub data ScanError : Type 0 where
  not_scanned : IncrementError → ScanError
  not_named : DeltaMapError → ScanError

abbrev pub scanned : {A : Type 0} → Result IncrementError A → Result ScanError A
scanned (ok a) = ok a
scanned (err e) = err (not_scanned e)

abbrev pub named : {A : Type 0} → Result DeltaMapError A → Result ScanError A
named (ok a) = ok a
named (err e) = err (not_named e)

-- The file is given with the path that it was opened under.
unfoldable pub read_increment_locations :
    List ℕ → List ℕ → ℕ → ℕ → Result ScanError (List BlockLocation)
unfolding convert_blocks_to_locations
read_increment_locations file_path file file_size lsn = do
  page_reader ← scanned (full_scan_initialize (open_paged_file file file_size lsn))
  named (convert_blocks_to_locations file_path page_reader.blocks)

-- ===== src/Examples/Scan.antt =====
-- The scan of a relation's second file, and the size that a composer expects of the increment of its
-- first.
use extract.Common.{
  ℕ, ◌+◌, ◌*◌, ◌/◌, ◌≡◌, refl, List, [], ◌∷◌, ◌++◌, replicate, length, true, ltb, ◌&&◌, some, ok,
  arith,
}
use extract.Strconv.{parse_uint, parse_digits, add_digit, digit_value}
use extract.Segment.{trim_suffix}
use extract.DeltaMap.RelFile.{
  span_digits, is_part_suffix, match_paged_filename, path_split, trim_slashes, path_base,
  split_slashes, contains_bytes, atoi_oid, get_rel_file_node_from, get_rel_file_id_from,
}
use extract.DeltaMap.Bitmap.{contains}
use extract.DeltaMap.Map.{
  lookup, select_rel_file_blocks, shift_blocks, blocks_in_rel_file, add_locations_to_delta,
  get_delta_bitmap_for,
}
use extract.Walparser.Readers.{read_full, read_loop, parse_field, of_bytes}
use extract.Walparser.Location.{new_block_location}
use extract.Increment.PageHeader.{lsn, is_valid, is_new, parse_postgres_page_header}
use extract.Increment.Reader.{
  open_paged_file, full_scan_initialize, scan_rounds, read_page, select_new_valid_page, is_selected,
}
use extract.DeltaMap.PagedFile.Scan.{get_delta_bitmap_for-scan}
use extract.Increment.Reader.Contents.{page_at}
use extract.Increment.Reader.Scan.{has_changed}
use extract.Increment.PageHeader.{database_page_size}
use extract.DeltaMap.PagedFile.{read_increment_locations, convert_blocks_to_locations, locations_of}
use extract.Walparser.Readers.{to_bytes}
use extract.Increment.Reader.{
  IncrementalPageReader, initialize, delta_bitmap_initialize, blocks_in_file,
  write_diff_map_to_header, block_numbers, increment_file_header,
}
use extract.Compose.{ComposeFileInfo, RatingTarBallComposer, get_expected_file_size}
use extract.Compose.Size.{get_expected_file_size-initialize}
use extract.Examples.DeltaMap.{
  count_up, ops, ops-IsBitmapOps, node, location, file_path, file_path-node, file_path_id,
}

-- The second file of a relation with one empty page, which the scan lists as block 0.
abbrev empty_file : List ℕ
empty_file = replicate 8192 0

empty_file-read : read_increment_locations file_path empty_file 8192 100 ≡ ok (location 0 ∷ [])
unfolding read_increment_locations full_scan_initialize scan_rounds read_page open_paged_file
    select_new_valid_page is_selected is_valid is_new lsn parse_postgres_page_header parse_field
    read_full read_loop of_bytes convert_blocks_to_locations locations_of new_block_location
    get_rel_file_node_from path_split match_paged_filename span_digits is_part_suffix split_slashes
    trim_suffix atoi_oid contains_bytes parse_uint parse_digits add_digit digit_value
empty_file-read = refl

get_delta_bitmap_for-scan_example :
    (b : List ℕ) × (get_delta_bitmap_for ops file_path
        (add_locations_to_delta ops (location 0 ∷ []) [])
      ≡ ok b)
    × ((y : ℕ)
        → contains ops b y ≡ (
            ltb y blocks_in_rel_file
            && (ltb (y + 1 * blocks_in_rel_file) (length empty_file / database_page_size)
                && has_changed 100 (page_at empty_file (y + 1 * blocks_in_rel_file)))))
get_delta_bitmap_for-scan_example =
    get_delta_bitmap_for-scan ops ops-IsBitmapOps file_path empty_file 8192 100 node 1 (location 0)
      [] file_path-node file_path_id (omega arith) (omega arith) empty_file-read

-- The first file of the relation, with its first block in the map.
abbrev first_path : List ℕ
first_path =
    b'b' ∷ b'a' ∷ b's' ∷ b'e' ∷ b'/' ∷ b'1' ∷ b'3' ∷ b'/' ∷ b'1' ∷ b'6' ∷ b'3' ∷ b'8' ∷ b'4' ∷ []

first_bitmap : get_delta_bitmap_for ops first_path ((node, 0 ∷ []) ∷ []) ≡ ok (0 ∷ [])
unfolding get_delta_bitmap_for lookup select_rel_file_blocks shift_blocks ops count_up
    get_rel_file_node_from get_rel_file_id_from path_base trim_slashes path_split
    match_paged_filename span_digits is_part_suffix split_slashes trim_suffix atoi_oid
    contains_bytes parse_uint parse_digits add_digit digit_value
first_bitmap = refl

abbrev first_file : ComposeFileInfo
first_file = record {
  path = first_path;
  file_size = 8192;
  was_in_base = true;
  header_name = first_path;
  is_incremented = true;
}

abbrev composer : RatingTarBallComposer (List ℕ)
composer = record {
  files_to_compose = [];
  increment_from_files = [];
  file_stats = [];
  increment_base_lsn = 100;
  tar_size_threshold = 1000;
  delta_map = (node, 0 ∷ []) ∷ [];
  delta_map_complete = true;
}

-- The reader of the file of one page, whose only block is in the bitmap.
abbrev first_reader : IncrementalPageReader
first_reader = record {
  paged_file = empty_file;
  position = 0;
  file_size = 8192;
  start_lsn = 100;
  next = write_diff_map_to_header (0 ∷ []) (increment_file_header ++ to_bytes 8 8192);
  blocks = 0 ∷ [];
}

first_initialized :
    initialize (some (0 ∷ [])) (open_paged_file empty_file 8192 100) ≡ ok (8212, first_reader)
unfolding initialize open_paged_file delta_bitmap_initialize blocks_in_file write_diff_map_to_header
    block_numbers to_bytes
first_initialized = refl

get_expected_file_size-initialize_example :
    get_expected_file_size ops first_file empty_file composer ≡ ok (8212, composer)
unfolding ops
get_expected_file_size-initialize_example =
    get_expected_file_size-initialize ops ops-IsBitmapOps first_file empty_file composer (0 ∷ [])
      100 8212 first_reader refl refl first_bitmap (omega arith, tt) (omega arith) first_initialized

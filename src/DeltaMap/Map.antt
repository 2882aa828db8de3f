-- ===== src/DeltaMap/Map.antt =====
-- paged_file_delta_map.go: the map from relations to bitmaps of their changed blocks.
pub mod Exact
use extract.Common.{
  ℕ, ◌+◌, ◌-◌, ◌*◌, ◌%◌, ◌^◌, List, [], ◌∷◌, if◌then◌else◌, Option, none, some, Result, ok, err,
  ◌>>=◌,
}
use extract.Walparser.Location.{RelFileNode, BlockLocation, rel_file_node_eq}
use extract.DeltaMap.RelFile.{
  DeltaMapError, no_bitmap_found, get_rel_file_node_from, get_rel_file_id_from,
}
use extract.DeltaMap.Bitmap.{BitmapOps}

-- 2 ^ 30 bytes of pages of 8192.
abbrev pub blocks_in_rel_file : ℕ
blocks_in_rel_file = 131072

abbrev pub PagedFileDeltaMap : Type 0 → Type 0
PagedFileDeltaMap B = List (RelFileNode × B)

module _ {B : Type 0} (o : BitmapOps B) where
  unfoldable pub lookup : RelFileNode → PagedFileDeltaMap B → Option B
  lookup node [] = none
  lookup node ((n, b) ∷ m) = if rel_file_node_eq n node then some b else lookup node m

  -- A relation that is not in the map yet gets a bitmap of the block alone.
  unfoldable pub add_location_to_delta : BlockLocation → PagedFileDeltaMap B → PagedFileDeltaMap B
  add_location_to_delta l [] = (l.relation_file_node, o.bitmap_of l.block_no) ∷ []
  add_location_to_delta l ((n, b) ∷ m) =
      if rel_file_node_eq n l.relation_file_node
      then (n, o.add l.block_no b) ∷ m
      else (n, b) ∷ add_location_to_delta l m

  unfoldable pub add_locations_to_delta :
      List BlockLocation → PagedFileDeltaMap B → PagedFileDeltaMap B
  unfolding add_location_to_delta
  add_locations_to_delta [] m = m
  add_locations_to_delta (l ∷ locations) m =
      add_locations_to_delta locations (add_location_to_delta l m)

  -- The blocks of an iterator, counted from the first of the file; `uint32` wraps.
  unfoldable pub shift_blocks : ℕ → List ℕ → B → B
  shift_blocks first [] shifted = shifted
  shift_blocks first (b ∷ blocks) shifted =
      shift_blocks first blocks (o.add ((b + 2 ^ 32 - first % 2 ^ 32) % 2 ^ 32) shifted)

  unfoldable pub select_rel_file_blocks : B → ℕ → B
  unfolding shift_blocks
  select_rel_file_blocks bitmap rel_file_id =
      let first = rel_file_id * blocks_in_rel_file in
      let of_file = o.add_range first ((rel_file_id + 1) * blocks_in_rel_file) o.new in
      shift_blocks first (o.iterate (o.and bitmap of_file)) o.new

  abbrev pub or_no_bitmap : Option B → Result DeltaMapError B
  or_no_bitmap none = err no_bitmap_found
  or_no_bitmap (some b) = ok b

  unfoldable pub get_delta_bitmap_for : List ℕ → PagedFileDeltaMap B → Result DeltaMapError B
  unfolding lookup select_rel_file_blocks
  get_delta_bitmap_for file_path m = do
    node ← get_rel_file_node_from file_path
    bitmap ← or_no_bitmap (lookup node m)
    rel_file_id ← get_rel_file_id_from file_path
    ok (select_rel_file_blocks bitmap rel_file_id)

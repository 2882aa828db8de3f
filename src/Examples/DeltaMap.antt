-- ===== src/Examples/DeltaMap.antt =====
-- The delta map with bitmaps that are lists, on a relation of two files and on one delta file.
use extract.Common.{
  ℕ, zero, suc, ◌+◌, ◌-◌, ◌*◌, ◌^◌, ◌≡◌, ◌≢◌, refl, sym, ap, ◌∙◌, List, [], ◌∷◌, ◌++◌, replicate,
  length, keep, any, Bool, true, false, ltb, leb, ◌==◌, ◌&&◌, ◌||◌, Bool-cases, Result, ok, err,
  ◌⊎◌, inl, inr, arith,
}
use extract.Strconv.{parse_uint, parse_digits, add_digit, digit_value}
use extract.Segment.{WalSize, trim_suffix}
use extract.Segment.DeltaNo
use extract.Segment.WalSegmentNo
use extract.Walparser.Location.{
  RelFileNode, BlockLocation, read_locations_from, read_locations_loop, read_next_location,
}
use extract.DeltaMap.RelFile.{
  span_digits, is_part_suffix, match_paged_filename, path_split, trim_slashes, path_base,
  split_slashes, contains_bytes, atoi_oid, get_rel_file_node_from, get_rel_file_id_from,
}
use extract.DeltaMap.Bitmap.{BitmapOps, contains, IsBitmapOps}
use extract.DeltaMap.Map.{
  blocks_in_rel_file, PagedFileDeltaMap, add_location_to_delta, add_locations_to_delta,
  get_delta_bitmap_for,
}
use extract.Walparser.Readers.{read_full, read_loop, parse_field, of_bytes}
use extract.Walparser.Parser.{load_wal_parser}
use extract.WalDelta.DeltaFile.{DeltaFile, load_delta_file}
use extract.DeltaMap.Download.{
  get_delta_file, get_locations_from_deltas, get_locations_from_wals, get_delta_range,
  get_wal_segment_range, get_delta_map, endless,
}
use extract.DeltaMap.Download.Covers.{ByDelta, ByWal}
use extract.DeltaMap.Download.Complete.{get_delta_map_complete}
use extract.DeltaMap.Download.Ends.{get_delta_map-ends}
use extract.DeltaMap.Map.Exact.{of_block, get_delta_bitmap_for-add}

-- The numbers from one on.
unfoldable pub count_up : ℕ → ℕ → List ℕ → List ℕ
count_up low zero b = b
count_up low (suc k) b = low ∷ count_up (low + 1) k b

unfoldable pub ops : BitmapOps (List ℕ)
unfolding count_up
ops = record {
  new = [];
  bitmap_of = λ n. n ∷ [];
  add = λ n b. n ∷ b;
  add_range = λ low high b. count_up low (high - low) b;
  and = λ a b. keep (λ x. any (λ y. y == x) b) a;
  iterate = λ b. b;
  get_cardinality = λ b. length b;
}

any-count_up :
    (low k : ℕ) (b : List ℕ) (x : ℕ)
    → any (λ y. y == x) (count_up low k b) ≡ (leb low x && ltb x (low + k) || any (λ y. y == x) b)
unfolding count_up
any-count_up low zero b x = ground arith
any-count_up low (suc k) b x = ground (arith, any-count_up (low + 1) k b x)

any-keep :
    (a b : List ℕ) (x : ℕ)
    → any (λ y. y == x) (keep (λ z. any (λ y. y == z) b) a)
      ≡ (any (λ y. y == x) a && any (λ y. y == x) b)
any-keep [] b x = refl
any-keep (z ∷ a) b x = elim (Bool-cases (any (λ y. y == z) b)) [
  | inl t ↦
      rw (t, any-keep a b x)
        (kept (z == x) (any (λ y. y == x) a) (any (λ y. y == x) b)
          (λ e. ap (λ c. any (λ y. y == c) b) (sym (ground (arith, e))) ∙ t))
  | inr f ↦
      rw (f, any-keep a b x)
        (dropped (z == x) (any (λ y. y == x) a) (any (λ y. y == x) b)
          (λ e. ap (λ c. any (λ y. y == c) b) (sym (ground (arith, e))) ∙ f))
]
  where
    kept : (e m n : Bool) → (e ≡ true → n ≡ true) → (e || (m && n)) ≡ ((e || m) && n)
    kept true m n h = sym (h refl)
    kept false m n h = refl

    dropped : (e m n : Bool) → (e ≡ true → n ≡ false) → (m && n) ≡ ((e || m) && n)
    dropped true m n h = rw (h refl) (ground arith)
    dropped false m n h = refl

pub ops-IsBitmapOps : IsBitmapOps ops
unfolding ops
ops-IsBitmapOps = record {
  contains_new = λ x. refl;
  contains_of = λ n x. or_false (n == x);
  contains_add = λ n b x. refl;
  contains_range =
      λ low high b x. any-count_up low (high - low) b x ∙ up_to low high x (any (λ y. y == x) b);
  contains_and = λ a b x. any-keep a b x;
  cardinality = λ b. refl;
}
  where
    or_false : (a : Bool) → (a || false) ≡ a
    or_false a = ground arith

    up_to :
        (low high x : ℕ) (t : Bool)
        → (leb low x && ltb x (low + (high - low)) || t) ≡ (leb low x && ltb x high || t)
    up_to low high x t = ground arith

-- "base/13/16384.1".
abbrev pub file_path : List ℕ
file_path =
    b'b' ∷ b'a' ∷ b's' ∷ b'e' ∷ b'/' ∷ b'1' ∷ b'3' ∷ b'/' ∷ b'1' ∷ b'6' ∷ b'3' ∷ b'8' ∷ b'4' ∷ b'.'
    ∷ b'1' ∷ []

abbrev pub node : RelFileNode
node = record { spc_node = 1663; db_node = 13; rel_node = 16384 }

abbrev pub location : ℕ → BlockLocation
location n = record { relation_file_node = node; block_no = n }

pub file_path-node : get_rel_file_node_from file_path ≡ ok node
unfolding get_rel_file_node_from path_split match_paged_filename span_digits is_part_suffix
    split_slashes trim_suffix atoi_oid contains_bytes parse_uint parse_digits add_digit digit_value
file_path-node = refl

pub file_path_id : get_rel_file_id_from file_path ≡ ok 1
unfolding get_rel_file_id_from path_base trim_slashes path_split match_paged_filename span_digits
    is_part_suffix parse_uint parse_digits add_digit digit_value
file_path_id = refl

abbrev locations : List BlockLocation
locations = location 7 ∷ location 131079 ∷ location 262143 ∷ []

get_delta_bitmap_for-add_example :
    (b : List ℕ) × (get_delta_bitmap_for ops file_path (add_locations_to_delta ops locations [])
      ≡ ok b)
    × ((y : ℕ)
        → contains ops b y ≡ (
            ltb y blocks_in_rel_file
            && any (of_block ops ops-IsBitmapOps node (y + 1 * blocks_in_rel_file)) locations))
get_delta_bitmap_for-add_example =
    get_delta_bitmap_for-add ops ops-IsBitmapOps file_path node 1 locations file_path-node
      file_path_id (omega arith) refl

-- Segments of four bytes, and a storage that has the same delta file under every name.
abbrev four : WalSize
four = record { wal_segment_size = 4; x_log_segments_per_x_log_id = 2 ^ 30 }

abbrev delta_bytes : List ℕ
delta_bytes =
    127 ∷ 6 ∷ 0 ∷ 0 ∷ 13 ∷ 0 ∷ 0 ∷ 0 ∷ 0 ∷ 64 ∷ 0 ∷ 0 ∷ 7 ∷ 0 ∷ 0 ∷ 0 ∷ replicate 16 0
    ++ replicate 4 0

abbrev fetch : List ℕ → Result ℕ (List ℕ)
fetch name = ok delta_bytes

abbrev file_in_storage : DeltaFile
file_in_storage = record {
  locations = location 7 ∷ [];
  wal_parser = record { current_record_data = []; has_current_record_beginning = false };
}

delta_loads : load_delta_file delta_bytes ≡ (ok file_in_storage, [])
unfolding load_delta_file read_locations_from read_locations_loop read_next_location load_wal_parser
    parse_field read_full read_loop of_bytes
delta_loads = refl

abbrev from_delta : PagedFileDeltaMap (List ℕ)
from_delta = (node, 7 ∷ []) ∷ []

map_of_delta : get_delta_map ops fetch four 1 80 128 ≡ ok from_delta
unfolding get_delta_map get_locations_from_deltas get_locations_from_wals get_delta_file
    get_delta_range get_wal_segment_range load_delta_file read_locations_from read_locations_loop
    read_next_location load_wal_parser parse_field read_full read_loop of_bytes ops
    add_locations_to_delta add_location_to_delta DeltaNo.of_lsn DeltaNo.previous
    DeltaNo.first_wal_segment_no WalSegmentNo.next WalSegmentNo.of_lsn
map_of_delta = refl

four_delta : DeltaNo.of_lsn four 128 ≡ 32
unfolding DeltaNo.of_lsn
four_delta = refl

get_delta_map_complete_example :
    ByDelta ops ops-IsBitmapOps fetch four 1 21 from_delta
    ⊎ ByWal ops ops-IsBitmapOps fetch four 1 21 from_delta
unfolding WalSegmentNo.of_lsn
get_delta_map_complete_example =
    get_delta_map_complete ops ops-IsBitmapOps fetch four 1 80 128 21 from_delta (omega arith)
      (omega arith) (omega arith) (omega (arith, four_delta)) map_of_delta (omega arith)
      (omega arith)

get_delta_map-ends_example : get_delta_map ops fetch four 1 80 200 ≢ err endless
get_delta_map-ends_example =
    get_delta_map-ends ops ops-IsBitmapOps fetch four 1 80 200 (omega arith) (omega arith)

-- ===== src/Examples/WalDelta.antt =====
-- delta_file.go, wal_part.go and wal_part_file.go on small files.
use extract.Common.{ℕ, ◌≡◌, refl, List, [], ◌∷◌, ◌++◌, replicate, true, none, some, ok, arith}
use extract.Walparser.Location.{BlockLocation, terminal_location, write_locations_to}
use extract.Walparser.Location.RoundTrip.{IsLocation, read_locations-write}
use extract.Walparser.Location.{read_locations_from}
use extract.Walparser.Readers.{to_bytes}
use extract.Walparser.Parser.{WalParser, save, load_wal_parser, parse_records_from_page}
use extract.Walparser.Parser.Persistence.{
  IsConsistent, load_wal_parser-save, parse_records_from_page-IsConsistent,
}
use extract.WalDelta.DeltaFile.{DeltaFile, save_delta_file, load_delta_file, load_delta_file-save}
use extract.WalDelta.WalPart.{WalPart, save_wal_part, load_wal_part, load_wal_part-save}
use extract.WalDelta.WalPartFile.{WalPartFile, load_part_file, save_part_file}
use extract.WalDelta.WalPartFile.RoundTrip.{IsWalPartFile, load_part_file-save}

abbrev location : BlockLocation
location = record {
  relation_file_node = record { spc_node = 1663; db_node = 5; rel_node = 16384 };
  block_no = 7;
}

location-IsLocation : IsLocation location
location-IsLocation = record {
  spc = omega arith;
  db = omega arith;
  rel = omega arith;
  block = omega arith;
}

read_locations-write_example :
    read_locations_from (write_locations_to ((location ∷ []) ++ terminal_location ∷ []) ++ 9 ∷ [])
    ≡ (ok (location ∷ []), 9 ∷ [])
read_locations-write_example =
    read_locations-write (location ∷ []) (9 ∷ []) (location-IsLocation, tt) (refl, tt)

abbrev parser : WalParser
parser = record { current_record_data = 4 ∷ 5 ∷ []; has_current_record_beginning = true }

parser-IsConsistent : IsConsistent parser
unfolding IsConsistent
parser-IsConsistent h = omega arith

parser_saved : save parser ≡ ok (2 ∷ 0 ∷ 0 ∷ 0 ∷ 4 ∷ 5 ∷ [])
unfolding save to_bytes
parser_saved = refl

load_wal_parser-save_example :
    load_wal_parser ((2 ∷ 0 ∷ 0 ∷ 0 ∷ 4 ∷ 5 ∷ []) ++ 9 ∷ []) ≡ (ok parser, 9 ∷ [])
load_wal_parser-save_example =
    load_wal_parser-save parser (2 ∷ 0 ∷ 0 ∷ 0 ∷ 4 ∷ 5 ∷ []) (9 ∷ []) parser-IsConsistent
      (omega arith) parser_saved

parse_records_from_page-IsConsistent_example :
    IsConsistent (parse_records_from_page parser (1 ∷ 2 ∷ [])).parser
parse_records_from_page-IsConsistent_example =
    parse_records_from_page-IsConsistent parser (1 ∷ 2 ∷ []) parser-IsConsistent

abbrev delta_file : DeltaFile
delta_file = record { locations = location ∷ []; wal_parser = parser }

abbrev delta_bytes : List ℕ
delta_bytes =
    write_locations_to ((location ∷ []) ++ terminal_location ∷ []) ++ 2 ∷ 0 ∷ 0 ∷ 0 ∷ 4 ∷ 5 ∷ []

delta_saved : save_delta_file delta_file ≡ ok delta_bytes
unfolding save_delta_file write_locations_to
delta_saved = rw (save_delta_file, parser_saved) refl

load_delta_file-save_example : load_delta_file (delta_bytes ++ []) ≡ (ok delta_file, [])
load_delta_file-save_example =
    load_delta_file-save delta_file delta_bytes [] (location-IsLocation, tt) (refl, tt)
      parser-IsConsistent (omega arith) delta_saved

abbrev part : WalPart
part = record { data_type = 1; id = 15; part_data = 6 ∷ 7 ∷ [] }

part_is_loaded : load_wal_part (save_wal_part part ++ 9 ∷ []) ≡ (ok part, 9 ∷ [])
part_is_loaded =
    load_wal_part-save part (9 ∷ [])
      (record { data_type_bound = omega arith; id_bound = omega arith; data_bound = omega arith })

abbrev part_file : WalPartFile
part_file = record {
  wal_tails = some (1 ∷ []) ∷ none ∷ some [] ∷ replicate 13 none;
  previous_wal_head = some (2 ∷ []);
  wal_heads = replicate 15 none ++ some (3 ∷ 4 ∷ []) ∷ [];
}

part_file-IsWalPartFile : IsWalPartFile part_file
part_file-IsWalPartFile = record {
  tails_length = refl;
  heads_length = refl;
  tails_bound = ground arith;
  previous_bound = omega arith;
  heads_bound = ground arith;
}

load_part_file-save_example : load_part_file (save_part_file part_file) ≡ ok part_file
load_part_file-save_example = load_part_file-save part_file part_file-IsWalPartFile

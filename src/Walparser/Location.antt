-- ===== src/Walparser/Location.antt =====
-- rel_file_node.go, block_location.go, block_location_reader.go and block_location_writer.go.
pub mod RoundTrip
use extract.Common.{
  ℕ, zero, suc, List, [], ◌∷◌, ◌++◌, ◌==◌, if◌then◌else◌, length, Bool, ◌&&◌, Result, ok, err,
}
use extract.Walparser.Readers.{
  ParseError, eof, no_progress, M, ◌>>=◌, ◌>>◌, pure, fail, parse_field, to_bytes, bytes_reader,
}

pub record RelFileNode : Type 0 where
  pub spc_node : ℕ
  pub db_node : ℕ
  pub rel_node : ℕ

pub record BlockLocation : Type 0 where
  pub relation_file_node : RelFileNode
  pub block_no : ℕ

unfoldable pub new_block_location : ℕ → ℕ → ℕ → ℕ → BlockLocation
new_block_location spc_node db_node rel_node block_no = record {
  relation_file_node = record { spc_node = spc_node; db_node = db_node; rel_node = rel_node };
  block_no = block_no;
}

abbrev pub terminal_location : BlockLocation
terminal_location = record {
  relation_file_node = record { spc_node = 0; db_node = 0; rel_node = 0 };
  block_no = 0;
}

abbrev pub rel_file_node_eq : RelFileNode → RelFileNode → Bool
rel_file_node_eq a b =
    a.spc_node == b.spc_node && (a.db_node == b.db_node && a.rel_node == b.rel_node)

abbrev pub location_eq : BlockLocation → BlockLocation → Bool
location_eq a b =
    rel_file_node_eq a.relation_file_node b.relation_file_node && a.block_no == b.block_no

unfoldable pub read_next_location : M (List ℕ) BlockLocation
unfolding new_block_location
read_next_location = do
  spc_node ← parse_field 4
  db_node ← parse_field 4
  rel_node ← parse_field 4
  block_no ← parse_field 4
  pure (new_block_location spc_node db_node rel_node block_no)

-- io.EOF at the start of a field ends the list as the terminal location does; the locations read
-- before another error are returned with it in the source, and no caller looks at them.
abbrev pub end_locations : List BlockLocation → ParseError → Result ParseError (List BlockLocation)
end_locations locations eof = ok locations
end_locations locations e = err e

-- What a round does with the location that it read; `more` is the rest of the loop.
abbrev pub after_location :
    Result ParseError BlockLocation × List ℕ
    → List BlockLocation
    → (List BlockLocation → M (List ℕ) (List BlockLocation))
    → Result ParseError (List BlockLocation) × List ℕ
after_location (err e, s) locations more = (end_locations locations e, s)
after_location (ok l, s) locations more =
    if location_eq l terminal_location then (ok locations, s) else more (locations ++ l ∷ []) s

-- Every round takes a byte at least, so the length of the input is fuel enough.
unfoldable pub read_locations_loop : ℕ → List BlockLocation → M (List ℕ) (List BlockLocation)
read_locations_loop zero locations s = (err no_progress, s)
read_locations_loop (suc fuel) locations s =
    after_location (read_next_location s) locations (λ out. read_locations_loop fuel out)

unfoldable pub read_locations_from : M (List ℕ) (List BlockLocation)
unfolding read_locations_loop
read_locations_from s = read_locations_loop (suc (length s)) [] s

-- Writing to a buffer does not fail: a writer is the bytes that it was given.
unfoldable pub write_location : BlockLocation → List ℕ
write_location l =
    to_bytes 4 l.relation_file_node.spc_node
    ++ (to_bytes 4 l.relation_file_node.db_node
        ++ (to_bytes 4 l.relation_file_node.rel_node ++ to_bytes 4 l.block_no))

unfoldable pub write_locations_to : List BlockLocation → List ℕ
unfolding write_location
write_locations_to [] = []
write_locations_to (l ∷ locations) = write_location l ++ write_locations_to locations

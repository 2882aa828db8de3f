-- ===== src/WalDelta/DeltaFile.antt =====
-- delta_file.go: the block locations of a delta file, and the parser behind them.
use extract.Common.{
  ℕ, ◌<◌, ◌^◌, ◌≡◌, ap, sym, ◌∙◌, List, [], ◌∷◌, ◌++◌, length, All, Option, none, some, Result, ok,
  err, append_assoc, Result-cases, inl, inr, arith,
}
use extract.Walparser.Readers.{ParseError, M, ◌>>=◌, pure}
use extract.Walparser.Readers.Laws.{bind_ok}
use extract.Walparser.Location.{
  BlockLocation, terminal_location, read_locations_from, write_locations_to,
}
use extract.Walparser.Location.RoundTrip.{IsLocation, NotTerminal, read_locations-write}
use extract.Walparser.Parser.{WalParser, save, load_wal_parser}
use extract.Walparser.Parser.Persistence.{IsConsistent, load_wal_parser-save}

pub record DeltaFile : Type 0 where
  pub locations : List BlockLocation
  pub wal_parser : WalParser

-- NewDeltaFile refuses a nil parser.
unfoldable pub new_delta_file : Option WalParser → Option DeltaFile
new_delta_file none = none
new_delta_file (some p) = some (record { locations = []; wal_parser = p })

-- What is written, and the error that ends the writing: the locations are written first.
unfoldable pub save_delta_file : DeltaFile → Result ParseError (List ℕ)
save_delta_file d = elim (save d.wal_parser) [
  | err e ↦ err e
  | ok s ↦ ok (write_locations_to (d.locations ++ terminal_location ∷ []) ++ s)
]

unfoldable pub load_delta_file : M (List ℕ) DeltaFile
load_delta_file = do
  locations ← read_locations_from
  wal_parser ← load_wal_parser
  pure (record { locations = locations; wal_parser = wal_parser })

unfoldable with_parser : List BlockLocation → WalParser → M (List ℕ) DeltaFile
with_parser ls p = pure (record { locations = ls; wal_parser = p })

unfoldable with_locations : List BlockLocation → M (List ℕ) DeltaFile
with_locations ls = load_wal_parser >>= with_parser ls

load_bytes :
    (d : DeltaFile) (s rest : List ℕ)
    → All IsLocation d.locations
    → All NotTerminal d.locations
    → IsConsistent d.wal_parser
    → length d.wal_parser.current_record_data < 2 ^ 32
    → save d.wal_parser ≡ ok s
    → load_delta_file ((write_locations_to (d.locations ++ terminal_location ∷ []) ++ s) ++ rest)
      ≡ (ok d, rest)
unfolding load_delta_file with_locations with_parser
load_bytes d s rest v t c bound e =
    let written = write_locations_to (d.locations ++ terminal_location ∷ []) in
    ap load_delta_file (append_assoc written s rest)
    ∙ bind_ok read_locations_from with_locations _
        (read_locations-write d.locations (s ++ rest) v t)
    ∙ bind_ok load_wal_parser (with_parser d.locations) _
        (load_wal_parser-save d.wal_parser s rest c bound e)

saved :
    (d : DeltaFile) (written : List ℕ)
    → save_delta_file d ≡ ok written
    → (s : List ℕ) × ((save d.wal_parser ≡ ok s)
        × (write_locations_to (d.locations ++ terminal_location ∷ []) ++ s ≡ written))
unfolding save_delta_file
saved d written h = elim (Result-cases (save d.wal_parser)) [
  | inr (s, e) ↦ (s, (e, ground (arith, e)))
  | inl (x, e) ↦ ground (arith, e)
]

-- A delta file that Save writes is loaded by LoadDeltaFile as the same delta file, and the bytes
-- behind it are left. Its locations have uint32 fields and are not the terminal one, and its parser is
-- consistent and holds less than 4 GiB.
pub load_delta_file-save :
    (d : DeltaFile) (written rest : List ℕ)
    → All IsLocation d.locations
    → All NotTerminal d.locations
    → IsConsistent d.wal_parser
    → length d.wal_parser.current_record_data < 2 ^ 32
    → save_delta_file d ≡ ok written
    → load_delta_file (written ++ rest) ≡ (ok d, rest)
load_delta_file-save d written rest v t c bound h =
    let s = saved d written h in
    ap (λ w. load_delta_file (w ++ rest)) (sym s.1.1) ∙ load_bytes d s.0 rest v t c bound s.1.0

-- ===== src/WalDelta/WalPartFile.antt =====
-- wal_part_file.go: the parts of the records that cross the WAL files of one delta file. A nil slice
-- is `none`.
pub mod RoundTrip
use extract.Common.{
  ℕ, zero, suc, ◌+◌, ◌-◌, ◌≤◌, ◌<◌, ◌^◌, ◌≡◌, ap, sym, ◌∙◌, refl, List, [], ◌∷◌, ◌++◌, length,
  length-append, ltb, ◌==◌, if◌then◌else◌, take, set, all, replicate, All, Bool, true, false, ◌&&◌,
  Option, none, some, Result, ok, err, append_assoc, arith,
}
use extract.Segment.{wal_file_in_delta}
use extract.Walparser.Readers.{ParseError, eof, no_progress}
use extract.Walparser.Record.{XLogRecord, parse_xlog_record_from_bytes}
use extract.WalDelta.WalPart.{
  WalPart, new_wal_part, previous_wal_head_type, wal_tail_type, wal_head_type, save_wal_part,
  save_wal_parts, load_wal_part,
}

pub record WalPartFile : Type 0 where
  pub wal_tails : List (Option (List ℕ))
  pub previous_wal_head : Option (List ℕ)
  pub wal_heads : List (Option (List ℕ))

unfoldable pub new_wal_part_file : WalPartFile
new_wal_part_file = record {
  wal_tails = replicate wal_file_in_delta none;
  previous_wal_head = none;
  wal_heads = replicate wal_file_in_delta none;
}

abbrev pub is_set : Option (List ℕ) → Bool
is_set none = false
is_set (some s) = true

unfoldable pub is_complete : WalPartFile → Bool
is_complete f = all is_set f.wal_tails && (is_set f.previous_wal_head && all is_set f.wal_heads)

-- The parts of a list of tails or heads, from the number of the first.
unfoldable pub parts_from : ℕ → ℕ → List (Option (List ℕ)) → List WalPart
parts_from data_type id [] = []
parts_from data_type id (none ∷ parts) = parts_from data_type (suc id) parts
parts_from data_type id (some s ∷ parts) =
    new_wal_part data_type id s ∷ parts_from data_type (suc id) parts

unfoldable pub head_part : Option (List ℕ) → List WalPart
head_part none = []
head_part (some s) = new_wal_part previous_wal_head_type 0 s ∷ []

unfoldable pub save_part_file : WalPartFile → List ℕ
unfolding parts_from head_part
save_part_file f = save_wal_parts (
    parts_from wal_tail_type 0 f.wal_tails
    ++ (head_part f.previous_wal_head ++ parts_from wal_head_type 0 f.wal_heads))

unfoldable pub get_current_delta_file_record_heads : WalPartFile → List (Option (List ℕ))
get_current_delta_file_record_heads f = f.previous_wal_head ∷ take 15 f.wal_heads

-- Appending a nil slice appends nothing.
abbrev pub bytes_of : Option (List ℕ) → List ℕ
bytes_of none = []
bytes_of (some s) = s

unfoldable pub combine :
    List (Option (List ℕ)) → List (Option (List ℕ)) → Result ParseError (List XLogRecord)
combine [] tails = ok []
combine (head ∷ heads) [] = ok []
combine (head ∷ heads) (tail ∷ tails) =
    let record_data = bytes_of head ++ bytes_of tail in
    let rest = combine heads tails in
    if length record_data == 0 then rest else elim (parse_xlog_record_from_bytes record_data) [
      | err e ↦ err e
      | ok r ↦ elim rest [ err e ↦ err e | ok records ↦ ok (r ∷ records) ]
    ]

unfoldable pub combine_records : WalPartFile → Result ParseError (List XLogRecord)
unfolding combine get_current_delta_file_record_heads
combine_records f = combine (get_current_delta_file_record_heads f) f.wal_tails

-- An error of the reader, or the panic of an index out of range.
pub data PartFileError : Type 0 where
  parse_error : ParseError → PartFileError
  index_out_of_range : PartFileError

unfoldable pub set_part : WalPartFile → WalPart → Result PartFileError WalPartFile
set_part f p =
    if p.data_type == previous_wal_head_type
    then ok (record f { previous_wal_head = some p.part_data })
    else if p.data_type == wal_tail_type
    then (if ltb p.id (length f.wal_tails)
        then ok (record f { wal_tails = set f.wal_tails p.id (some p.part_data) })
        else err index_out_of_range)
    else if p.data_type == wal_head_type
    then (if ltb p.id (length f.wal_heads)
        then ok (record f { wal_heads = set f.wal_heads p.id (some p.part_data) })
        else err index_out_of_range)
    else ok f

-- io.EOF ends the loop with the parts that were read, wherever it comes from.
abbrev pub end_of_parts : WalPartFile → ParseError → Result PartFileError WalPartFile
end_of_parts f eof = ok f
end_of_parts f e = err (parse_error e)

-- The file after one round of the loop, whose next round is `more`.
abbrev pub after_part :
    WalPartFile
    → Result ParseError WalPart × List ℕ
    → (WalPartFile → List ℕ → Result PartFileError WalPartFile)
    → Result PartFileError WalPartFile
after_part f (err e, s) more = end_of_parts f e
after_part f (ok p, s) more = elim (set_part f p) [ err e ↦ err e | ok f' ↦ more f' s ]

-- A part takes six bytes at least, so the length of the input is fuel enough.
unfoldable pub load_part_file_loop : ℕ → WalPartFile → List ℕ → Result PartFileError WalPartFile
unfolding set_part
load_part_file_loop zero f s = err (parse_error no_progress)
load_part_file_loop (suc fuel) f s =
    after_part f (load_wal_part s) (λ f' rest. load_part_file_loop fuel f' rest)

unfoldable pub load_part_file : List ℕ → Result PartFileError WalPartFile
unfolding load_part_file_loop new_wal_part_file
load_part_file s = load_part_file_loop (suc (length s)) new_wal_part_file s

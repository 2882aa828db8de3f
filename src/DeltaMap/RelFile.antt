-- ===== src/DeltaMap/RelFile.antt =====
-- paged_file_delta_map.go and pagefile.go: the relation and the part of it that a file's path names.
use extract.Common.{
  ℕ, ◌-◌, ◌%◌, ◌^◌, List, [], ◌∷◌, length, take, get_elem?, all, bytes_eq, Bool, true, false, ltb,
  leb, ◌==◌, ◌&&◌, ◌||◌, if◌then◌else◌, Option, none, some, Result, ok, err, ◌>>=◌,
}
use mathlib.Core.List.{reverse}
use extract.Strconv.{NumError, range_error, parse_uint}
use extract.Segment.{trim_suffix}
use extract.Walparser.Location.{RelFileNode}

-- `panic` is an index of a slice that is out of range.
pub data DeltaMapError : Type 0 where
  no_bitmap_found unknown_table_space bad_path panic : DeltaMapError
  bad_number : NumError → DeltaMapError

abbrev pub is_digit : ℕ → Bool
is_digit c = leb b'0' c && leb c b'9'

-- The longest beginning of digits, and the rest.
unfoldable pub span_digits : List ℕ → List ℕ × List ℕ
span_digits [] = ([], [])
span_digits (c ∷ s) =
    let rest = span_digits s in if is_digit c then (c ∷ rest.0, rest.1) else ([], c ∷ s)

-- The group ([.]\d+)? at the end.
unfoldable pub is_part_suffix : List ℕ → Bool
is_part_suffix [] = true
is_part_suffix (c ∷ s) = c == b'.' && (ltb 0 (length s) && all is_digit s)

-- The groups of pagedFilenameRegexp, ^(\d+)([.]\d+)?$, where it matches.
unfoldable pub match_paged_filename : List ℕ → Option (List ℕ × List ℕ)
match_paged_filename s =
    let groups = span_digits s in
    if ltb 0 (length groups.0) && is_part_suffix groups.1 then some groups else none

-- path.Split: up to the last slash, and what is behind it.
unfoldable pub path_split : List ℕ → List ℕ × List ℕ
path_split [] = ([], [])
path_split (c ∷ s) =
    let rest = path_split s in
    if ltb 0 (length rest.0) || c == b'/' then (c ∷ rest.0, rest.1) else ([], c ∷ rest.1)

-- path.Base without the slashes at the end.
unfoldable pub trim_slashes : List ℕ → List ℕ
trim_slashes [] = []
trim_slashes (c ∷ s) =
    let rest = trim_slashes s in if c == b'/' && length rest == 0 then [] else c ∷ rest

unfoldable pub path_base : List ℕ → List ℕ
path_base [] = b'.' ∷ []
path_base (c ∷ s) =
    let name = (path_split (trim_slashes (c ∷ s))).1 in if length name == 0 then b'/' ∷ [] else name

-- strings.Split at the slashes; there is one part at least.
abbrev pub add_part : ℕ → List (List ℕ) → List (List ℕ)
add_part c [] = (c ∷ []) ∷ []
add_part c (part ∷ parts) = (c ∷ part) ∷ parts

unfoldable pub split_slashes : List ℕ → List (List ℕ)
split_slashes [] = [] ∷ []
split_slashes (c ∷ s) =
    let rest = split_slashes s in if c == b'/' then [] ∷ rest else add_part c rest

-- strings.Contains.
unfoldable pub contains_bytes : List ℕ → List ℕ → Bool
contains_bytes part [] = length part == 0
contains_bytes part (c ∷ s) = bytes_eq (take (length part) (c ∷ s)) part || contains_bytes part s

-- walparser.Oid of what strconv.Atoi reads: an int64, of which the low 32 bits are kept.
abbrev pub oid_with_sign : Bool → Result NumError ℕ → Result NumError ℕ
oid_with_sign negative (err e) = err e
oid_with_sign true (ok n) =
    if leb n (2 ^ 63) then ok ((2 ^ 32 - n % 2 ^ 32) % 2 ^ 32) else err range_error
oid_with_sign false (ok n) = if ltb n (2 ^ 63) then ok (n % 2 ^ 32) else err range_error

unfoldable pub atoi_oid : List ℕ → Result NumError ℕ
atoi_oid [] = oid_with_sign false (parse_uint 10 64 [])
atoi_oid (c ∷ s) =
    if c == b'-'
    then oid_with_sign true (parse_uint 10 64 s)
    else if c == b'+'
    then oid_with_sign false (parse_uint 10 64 s)
    else oid_with_sign false (parse_uint 10 64 (c ∷ s))

abbrev pub or_bad_number : Result NumError ℕ → Result DeltaMapError ℕ
or_bad_number (ok n) = ok n
or_bad_number (err e) = err (bad_number e)

abbrev pub default_tablespace : List ℕ
default_tablespace = b'b' ∷ b'a' ∷ b's' ∷ b'e' ∷ []

abbrev pub non_default_tablespace : List ℕ
non_default_tablespace = b'p' ∷ b'g' ∷ b'_' ∷ b't' ∷ b'b' ∷ b'l' ∷ b's' ∷ b'p' ∷ b'c' ∷ []

abbrev pub default_spc_node : ℕ
default_spc_node = 1663

-- The number in the folder that is `back` folders before the last.
abbrev pub folder_oid : Option (List ℕ) → Result DeltaMapError ℕ
folder_oid none = err panic
folder_oid (some part) = or_bad_number (atoi_oid part)

abbrev pub spc_node_of : List ℕ → List (List ℕ) → Result DeltaMapError ℕ
spc_node_of file_path parts_back =
    if contains_bytes default_tablespace file_path
    then ok default_spc_node
    else if contains_bytes non_default_tablespace file_path
    then folder_oid (get_elem? parts_back 2)
    else err unknown_table_space

abbrev pub node_of_match :
    List ℕ → List ℕ → Option (List ℕ × List ℕ) → Result DeltaMapError RelFileNode
node_of_match file_path folder_path none = err bad_path
node_of_match file_path folder_path (some (digits, suffix)) = do
  let parts_back = reverse (split_slashes (trim_suffix folder_path (b'/' ∷ [])))
  rel_node ← or_bad_number (atoi_oid digits)
  db_node ← folder_oid (get_elem? parts_back 0)
  spc_node ← spc_node_of file_path parts_back
  ok (record { spc_node = spc_node; db_node = db_node; rel_node = rel_node })

unfoldable pub get_rel_file_node_from : List ℕ → Result DeltaMapError RelFileNode
get_rel_file_node_from file_path =
    let folders_and_name = path_split file_path in
    node_of_match file_path folders_and_name.0 (match_paged_filename folders_and_name.1)

abbrev pub id_of_match : Option (List ℕ × List ℕ) → Result DeltaMapError ℕ
id_of_match none = err panic
id_of_match (some (digits, [])) = ok 0
id_of_match (some (digits, dot ∷ id)) = or_bad_number (parse_uint 10 63 id)

unfoldable pub get_rel_file_id_from : List ℕ → Result DeltaMapError ℕ
get_rel_file_id_from file_path = id_of_match (match_paged_filename (path_base file_path))

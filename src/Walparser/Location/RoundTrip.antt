-- ===== src/Walparser/Location/RoundTrip.antt =====
-- The reader of block locations reads what their writer wrote.
use extract.Common.{
  ℕ, zero, suc, ◌*◌, ◌^◌, ◌<◌, ◌≡◌, refl, sym, ap, ◌∙◌, List, [], ◌∷◌, ◌++◌, length, length-append,
  append_assoc, append-nil, false, ok, arith, All, if◌then◌else◌,
}
use extract.Walparser.Readers.{to_bytes, bytes_reader}
use extract.Walparser.Readers.Laws.{parse_field-to_bytes}
use extract.Walparser.Location.{
  BlockLocation, terminal_location, location_eq, read_next_location, read_locations_loop,
  read_locations_from, write_location, write_locations_to,
}

-- The fields are uint32.
pub record IsLocation (l : BlockLocation) : Type 0 where
  pub spc : l.relation_file_node.spc_node < 2 ^ 32
  pub db : l.relation_file_node.db_node < 2 ^ 32
  pub rel : l.relation_file_node.rel_node < 2 ^ 32
  pub block : l.block_no < 2 ^ 32

length-write_location : (l : BlockLocation) → length (write_location l) ≡ 16
unfolding write_location to_bytes
length-write_location l = refl

pub read_next_location-write :
    (l : BlockLocation) (rest : List ℕ)
    → IsLocation l
    → read_next_location (write_location l ++ rest) ≡ (ok l, rest)
unfolding read_next_location write_location
read_next_location-write l rest v =
    let r = l.relation_file_node in
    let b = to_bytes 4 l.block_no in
    let n = to_bytes 4 r.rel_node in
    let d = to_bytes 4 r.db_node in
    rw (
      append_assoc (to_bytes 4 r.spc_node) (d ++ (n ++ b)) rest,
      append_assoc d (n ++ b) rest,
      append_assoc n b rest,
      parse_field-to_bytes 4 r.spc_node (d ++ (n ++ (b ++ rest))) v.spc,
      parse_field-to_bytes 4 r.db_node (n ++ (b ++ rest)) v.db,
      parse_field-to_bytes 4 r.rel_node (b ++ rest) v.rel,
      parse_field-to_bytes 4 l.block_no rest v.block,
    )

loop_step :
    (fuel : ℕ) (out : List BlockLocation) (s : List ℕ) {l : BlockLocation} {s' : List ℕ}
    → read_next_location s ≡ (ok l, s')
    → read_locations_loop (suc fuel) out s ≡ (
        if location_eq l terminal_location
        then (ok out, s')
        else read_locations_loop fuel (out ++ l ∷ []) s')
unfolding read_locations_loop
loop_step fuel out s e = rw e

abbrev pub NotTerminal : BlockLocation → Type 0
NotTerminal l = location_eq l terminal_location ≡ false

read_locations_loop-write :
    (fuel : ℕ) (out ls : List BlockLocation) (rest : List ℕ)
    → All IsLocation ls
    → All NotTerminal ls
    → length ls < fuel
    → read_locations_loop fuel out (write_locations_to (ls ++ terminal_location ∷ []) ++ rest)
      ≡ (ok (out ++ ls), rest)
unfolding write_locations_to
read_locations_loop-write zero out ls rest v t h = absurd (omega arith)
read_locations_loop-write (suc fuel) out [] rest v t h =
    rw (append_assoc (write_location terminal_location) [] rest) (
      loop_step fuel out _ (read_next_location-write terminal_location rest (omega arith))
      ∙ ap (λ x. (ok x, rest)) (sym (append-nil out)))
read_locations_loop-write (suc fuel) out (l ∷ ls) rest v t h =
    let tail = write_locations_to (ls ++ terminal_location ∷ []) in
    rw (append_assoc (write_location l) tail rest) (
      loop_step fuel out _ (read_next_location-write l (tail ++ rest) v.0)
      ∙ rw t.0 (
          read_locations_loop-write fuel (out ++ l ∷ []) ls rest v.1 t.1 (omega arith)
          ∙ ap (λ x. (ok x, rest)) (append_assoc out (l ∷ []) ls)))

length-write_locations : (ls : List BlockLocation) → length (write_locations_to ls) ≡ 16 * length ls
unfolding write_locations_to
length-write_locations [] = omega arith
length-write_locations (l ∷ ls) = omega (
  arith,
  length-append (write_location l) (write_locations_to ls),
  length-write_location l,
  length-write_locations ls,
)

-- Locations written before the terminal location are read back, and what follows is left. The
-- locations have uint32 fields and are not the terminal one.
pub read_locations-write :
    (ls : List BlockLocation) (rest : List ℕ)
    → All IsLocation ls
    → All NotTerminal ls
    → read_locations_from (write_locations_to (ls ++ terminal_location ∷ []) ++ rest)
      ≡ (ok ls, rest)
unfolding read_locations_from
read_locations-write ls rest v t =
    read_locations_loop-write
      (suc (length (write_locations_to (ls ++ terminal_location ∷ []) ++ rest))) [] ls rest v t
      (omega (
        arith,
        length-append (write_locations_to (ls ++ terminal_location ∷ [])) rest,
        length-write_locations (ls ++ terminal_location ∷ []),
        length-append ls (terminal_location ∷ []),
      ))

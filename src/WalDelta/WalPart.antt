-- ===== src/WalDelta/WalPart.antt =====
-- wal_part.go: a part of a record that crosses two WAL files, and how it is written and read.
use extract.Common.{
  ℕ, ◌≤◌, ◌<◌, ◌^◌, ◌≡◌, ◌∙◌, refl, List, [], ◌∷◌, ◌++◌, length, length-append, ok, append_assoc,
  arith,
}
use extract.Walparser.Readers.{M, ◌>>=◌, pure, parse_field, read_full, to_bytes, bytes_reader}
use extract.Walparser.Readers.Laws.{
  bind_ok, parse_field-to_bytes, read_full-append, length-to_bytes,
}

abbrev pub previous_wal_head_type : ℕ
previous_wal_head_type = 0

abbrev pub wal_tail_type : ℕ
wal_tail_type = 1

abbrev pub wal_head_type : ℕ
wal_head_type = 2

-- `data_type` and `id` are bytes.
pub record WalPart : Type 0 where
  pub data_type : ℕ
  pub id : ℕ
  pub part_data : List ℕ

abbrev pub new_wal_part : ℕ → ℕ → List ℕ → WalPart
new_wal_part data_type id s = record { data_type = data_type; id = id; part_data = s }

unfoldable pub save_wal_part : WalPart → List ℕ
save_wal_part p =
    to_bytes 1 p.data_type ++ (to_bytes 1 p.id ++ (to_bytes 4 (length p.part_data) ++ p.part_data))

unfoldable pub save_wal_parts : List WalPart → List ℕ
unfolding save_wal_part
save_wal_parts [] = []
save_wal_parts (p ∷ parts) = save_wal_part p ++ save_wal_parts parts

unfoldable pub load_wal_part : M (List ℕ) WalPart
load_wal_part = do
  data_type ← parse_field 1
  id ← parse_field 1
  data_len ← parse_field 4
  s ← read_full data_len
  pure (new_wal_part data_type id s)

-- The fields fit their widths.
pub record IsWalPart (p : WalPart) : Type 0 where
  pub data_type_bound : p.data_type < 256
  pub id_bound : p.id < 256
  pub data_bound : length p.part_data < 2 ^ 32

unfoldable with_data : ℕ → ℕ → List ℕ → M (List ℕ) WalPart
with_data data_type id s = pure (new_wal_part data_type id s)

unfoldable with_len : ℕ → ℕ → ℕ → M (List ℕ) WalPart
with_len data_type id n = read_full n >>= with_data data_type id

unfoldable with_id : ℕ → ℕ → M (List ℕ) WalPart
with_id data_type id = parse_field 4 >>= with_len data_type id

unfoldable with_type : ℕ → M (List ℕ) WalPart
with_type data_type = parse_field 1 >>= with_id data_type

load_bytes :
    (p : WalPart) (rest : List ℕ)
    → IsWalPart p
    → load_wal_part (
        to_bytes 1 p.data_type
        ++ (to_bytes 1 p.id ++ (to_bytes 4 (length p.part_data) ++ (p.part_data ++ rest))))
      ≡ (ok p, rest)
unfolding load_wal_part with_data with_len with_id with_type
load_bytes p rest v =
    bind_ok (parse_field 1) with_type _ (parse_field-to_bytes 1 p.data_type _ v.data_type_bound)
    ∙ bind_ok (parse_field 1) (with_id p.data_type) _ (parse_field-to_bytes 1 p.id _ v.id_bound)
    ∙ bind_ok (parse_field 4) (with_len p.data_type p.id) _
        (parse_field-to_bytes 4 (length p.part_data) (p.part_data ++ rest) v.data_bound)
    ∙ bind_ok (read_full (length p.part_data)) (with_data p.data_type p.id) _
        (read_full-append (length p.part_data) p.part_data rest refl)

-- A part that is written is read back, and what follows is left.
pub load_wal_part-save :
    (p : WalPart) (rest : List ℕ)
    → IsWalPart p
    → load_wal_part (save_wal_part p ++ rest) ≡ (ok p, rest)
unfolding save_wal_part
load_wal_part-save p rest v =
    rw
      (
        append_assoc (to_bytes 1 p.data_type)
            (to_bytes 1 p.id ++ (to_bytes 4 (length p.part_data) ++ p.part_data)) rest,
        append_assoc (to_bytes 1 p.id) (to_bytes 4 (length p.part_data) ++ p.part_data) rest,
        append_assoc (to_bytes 4 (length p.part_data)) p.part_data rest,
      )
      (load_bytes p rest v)

pub length-save_wal_part : (p : WalPart) → 6 ≤ length (save_wal_part p)
unfolding save_wal_part
length-save_wal_part p = omega (
  arith,
  length-append (to_bytes 1 p.data_type)
      (to_bytes 1 p.id ++ (to_bytes 4 (length p.part_data) ++ p.part_data)),
  length-append (to_bytes 1 p.id) (to_bytes 4 (length p.part_data) ++ p.part_data),
  length-append (to_bytes 4 (length p.part_data)) p.part_data,
  length-to_bytes 1 p.data_type,
  length-to_bytes 1 p.id,
  length-to_bytes 4 (length p.part_data),
)

-- ===== src/Increment/Format.antt =====
-- pagefile.go and pagefile_new.go: how the head of an increment is read.
pub mod Head
use extract.Common.{
  ℕ, ◌+◌, ◌-◌, ◌*◌, ◌%◌, ◌^◌, List, [], ◌∷◌, length, take, drop, Bool, true, false, not, leb, ◌==◌,
  ◌&&◌, if◌then◌else◌, Option, none, some, Result, ok, err,
}
use extract.Walparser.Readers as Readers
use extract.Walparser.Readers.{read_full, parse_field, of_bytes, bytes_reader}
use extract.Increment.PageHeader.{
  IncrementError, read_error, invalid_increment_file_header, unknown_increment_file_header, panic,
}

-- Reading from the bytes of an increment that are left.
abbrev pub M : Type 0 → Type 0
M A = List ℕ → Result IncrementError A × List ℕ

abbrev pub after :
    {A B : Type 0} → Result IncrementError A × List ℕ → (A → M B) → Result IncrementError B × List ℕ
after (ok a, s) f = f a s
after (err e, s) f = (err e, s)

infixl 5 ◌>>=◌ ◌>>◌
abbrev pub ◌>>=◌ : {A B : Type 0} → M A → (A → M B) → M B
◌>>=◌ m f s = after (m s) f

abbrev pub ◌>>◌ : {B : Type 0} → M (Unit {0}) → M B → M B
m >> k = m >>= λ _. k

abbrev pub pure : {A : Type 0} → A → M A
pure a s = (ok a, s)

abbrev pub reading :
    {A : Type 0} → Result Readers.ParseError A × List ℕ → Result IncrementError A × List ℕ
reading (ok a, s) = (ok a, s)
reading (err e, s) = (err (read_error e), s)

-- A parser of Readers, with its errors among those of increments.
abbrev pub lifted : {A : Type 0} → Readers.M (List ℕ) A → M A
lifted m s = reading (m s)

abbrev pub check_header : List ℕ → M (Unit {0})
check_header (a ∷ b ∷ c ∷ d ∷ []) s =
    if a == b'w' && (b == b'i' && d == 0x55)
    then (if c == b'1' then ok tt else err unknown_increment_file_header, s)
    else (err invalid_increment_file_header, s)
check_header header s = (err panic, s)

unfoldable pub read_increment_file_header : M (Unit {0})
read_increment_file_header = do header ← lifted (read_full 4); check_header header

-- The file's size, the number of blocks and the bytes of their numbers. `diffBlockCount*sizeofInt32` is
-- a uint32.
unfoldable pub get_increment_header_fields : M (ℕ × ℕ × List ℕ)
unfolding read_increment_file_header
get_increment_header_fields = do
  read_increment_file_header
  file_size ← lifted (parse_field 8)
  diff_block_count ← lifted (parse_field 4)
  diff_map ← lifted (read_full (diff_block_count * 4 % 2 ^ 32))
  pure (file_size, diff_block_count, diff_map)

-- binary.LittleEndian.Uint32(diffMap[i*sizeofInt32 : (i+1)*sizeofInt32]); no number where Go panics.
unfoldable pub diff_block : List ℕ → ℕ → Option ℕ
diff_block diff_map i =
    let low = i * 4 % 2 ^ 32 in
    let high = (i + 1) * 4 % 2 ^ 32 in
    if leb low high && leb high (length diff_map)
    then some (of_bytes (take 4 (drop low diff_map)))
    else none

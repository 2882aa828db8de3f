-- ===== src/Increment/Format/Head.antt =====
-- The head that the page reader writes is read back by GetIncrementHeaderFields.
use extract.Common.{
  ℕ, zero, suc, ◌-◌, ◌*◌, ◌%◌, ◌^◌, ◌<◌, ◌≡◌, refl, ap, ◌∙◌, List, [], ◌∷◌, ◌++◌, length, take,
  drop, take_prefix, drop_behind, length-append, append_assoc, get_elem?, some, ok, arith,
}
use extract.Walparser.Readers as Readers
use extract.Walparser.Readers.{read_full, parse_field, of_bytes, to_bytes, bytes_reader}
use extract.Walparser.Readers.Laws.{
  read_full-append, parse_field-to_bytes, length-to_bytes, of_bytes-to_bytes,
}
use extract.Increment.Reader.{increment_file_header, block_numbers, write_diff_map_to_header}
use extract.Increment.Format.{
  M, after, ◌>>=◌, ◌>>◌, pure, reading, lifted, check_header, read_increment_file_header,
  get_increment_header_fields, diff_block,
}

lifted_ok :
    {A B : Type 0} (m : Readers.M (List ℕ) A) (f : A → M B) (s : List ℕ) {a : A} {s' : List ℕ}
    → m s ≡ (ok a, s')
    → (lifted m >>= f) s ≡ f a s'
lifted_ok m f s e = ap (λ p. after (reading p) f) e

then_ok :
    {B : Type 0} (m : M (Unit {0})) (k : M B) (s : List ℕ) {s' : List ℕ}
    → m s ≡ (ok tt, s')
    → (m >> k) s ≡ k s'
then_ok m k s e = ap (λ p. after p (λ u. k)) e

pub length-block_numbers : (blocks : List ℕ) → length (block_numbers blocks) ≡ length blocks * 4
unfolding block_numbers
length-block_numbers [] = refl
length-block_numbers (b ∷ blocks) = omega (
  arith,
  length-append (to_bytes 4 b) (block_numbers blocks),
  length-to_bytes 4 b,
  length-block_numbers blocks,
)

signature : (s : List ℕ) → read_increment_file_header (increment_file_header ++ s) ≡ (ok tt, s)
unfolding read_increment_file_header
signature s =
    lifted_ok (read_full 4) check_header _ (read_full-append 4 increment_file_header s refl)

-- The steps behind the signature.
from_map : ℕ → ℕ → List ℕ → M (ℕ × ℕ × List ℕ)
from_map size n diff_map = pure (size, n, diff_map)

from_count : ℕ → ℕ → M (ℕ × ℕ × List ℕ)
unfolding from_map
from_count size n = lifted (read_full (n * 4 % 2 ^ 32)) >>= from_map size n

from_size : ℕ → M (ℕ × ℕ × List ℕ)
unfolding from_count
from_size size = lifted (parse_field 4) >>= from_count size

pub get_increment_header_fields-write :
    (size : ℕ) (blocks rest : List ℕ)
    → size < 2 ^ 64
    → length blocks * 4 < 2 ^ 32
    → get_increment_header_fields
        (write_diff_map_to_header blocks (increment_file_header ++ to_bytes 8 size) ++ rest)
      ≡ (ok (size, length blocks, block_numbers blocks), rest)
unfolding get_increment_header_fields from_size from_count from_map write_diff_map_to_header
get_increment_header_fields-write size blocks rest hs hb =
    let numbers = block_numbers blocks in
    let n = length blocks in
    let s3 = numbers ++ rest in
    let s2 = to_bytes 4 n ++ s3 in
    let s1 = to_bytes 8 size ++ s2 in
    let whole : n * 4 % 2 ^ 32 ≡ n * 4 = omega (arith, hb) in
    ap get_increment_header_fields (
      append_assoc (increment_file_header ++ to_bytes 8 size) (to_bytes 4 n ++ numbers) rest
      ∙ append_assoc increment_file_header (to_bytes 8 size) ((to_bytes 4 n ++ numbers) ++ rest)
      ∙ ap (λ v. increment_file_header ++ (to_bytes 8 size ++ v))
          (append_assoc (to_bytes 4 n) numbers rest))
    ∙ then_ok read_increment_file_header (lifted (parse_field 8) >>= from_size)
        (increment_file_header ++ s1) (signature s1)
    ∙ lifted_ok (parse_field 8) from_size s1 (parse_field-to_bytes 8 size s2 (omega (arith, hs)))
    ∙ lifted_ok (parse_field 4) (from_count size) s2
        (parse_field-to_bytes 4 n s3 (omega (arith, hb)))
    ∙ lifted_ok (read_full (n * 4 % 2 ^ 32)) (from_map size n) s3 (
        ap (λ k. read_full k s3) whole
        ∙ read_full-append (n * 4) numbers rest (length-block_numbers blocks))

numbers_at :
    (blocks : List ℕ) (i : ℕ) (b : ℕ)
    → get_elem? blocks i ≡ some b
    → take 4 (drop (i * 4) (block_numbers blocks)) ≡ to_bytes 4 b
unfolding block_numbers
numbers_at [] i b e = cc
numbers_at (x ∷ blocks) zero b e =
    take_prefix (to_bytes 4 x) (block_numbers blocks) (length-to_bytes 4 x)
    ∙ ap (to_bytes 4) (ground (arith, e))
numbers_at (x ∷ blocks) (suc i) b e =
    let l : length (to_bytes 4 x) ≡ 4 = length-to_bytes 4 x in
    let k : suc i * 4 - length (to_bytes 4 x) ≡ i * 4 = omega (arith, l) in
    ap (take 4) (
      drop_behind (suc i * 4) (to_bytes 4 x) (block_numbers blocks) (omega (arith, l))
      ∙ ap (λ n. drop n (block_numbers blocks)) k)
    ∙ numbers_at blocks i b e

elem_bound : (blocks : List ℕ) (i b : ℕ) → get_elem? blocks i ≡ some b → i < length blocks
elem_bound [] i b e = cc
elem_bound (x ∷ blocks) zero b e = omega arith
elem_bound (x ∷ blocks) (suc i) b e = omega (arith, elem_bound blocks i b e)

-- The number that is read at a place is the one that was written there.
pub diff_block-numbers :
    (blocks : List ℕ) (i b : ℕ)
    → length blocks * 4 < 2 ^ 32
    → b < 2 ^ 32
    → get_elem? blocks i ≡ some b
    → diff_block (block_numbers blocks) i ≡ some b
unfolding diff_block
diff_block-numbers blocks i b h hb e =
    let place : i < length blocks = elem_bound blocks i b e in
    let low : i * 4 % 2 ^ 32 ≡ i * 4 = omega (arith, place, h) in
    let n = length-block_numbers blocks in
    rw (low) (ground (arith, place, h, n, numbers_at blocks i b e, of_bytes-to_bytes 4 b))

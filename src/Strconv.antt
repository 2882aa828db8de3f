-- ===== src/Strconv.antt =====
-- What the program uses of Go's strconv and fmt: strconv.ParseUint and the verb %08X, on bytes.
pub mod Hex
use extract.Common.{
  ℕ, zero, suc, ◌+◌, ◌-◌, ◌*◌, ◌/◌, ◌%◌, ◌^◌, List, [], ◌∷◌, ◌++◌, ltb, leb, ◌==◌, if◌then◌else◌,
  length, replicate, Result, ok, err, ◌&&◌, Option, none, some,
}

pub data NumError : Type 0 where
  syntax_error range_error : NumError

-- The value of a digit of any base up to 36, in either case.
unfoldable pub digit_value : ℕ → Option ℕ
digit_value c =
    if leb b'0' c && leb c b'9'
    then some (c - b'0')
    else if leb b'a' c && leb c b'z'
    then some (c - b'a' + 10)
    else if leb b'A' c && leb c b'Z'
    then some (c - b'A' + 10)
    else none

-- One round of ParseUint's loop: the digit must belong to the base, and the number must fit.
unfoldable pub add_digit : ℕ → ℕ → ℕ → Option ℕ → Result NumError ℕ
add_digit base max n none = err syntax_error
add_digit base max n (some d) =
    if leb base d
    then err syntax_error
    else if ltb max (n * base + d)
    then err range_error
    else ok (n * base + d)

unfoldable pub parse_digits : ℕ → ℕ → ℕ → List ℕ → Result NumError ℕ
parse_digits base max n [] = ok n
parse_digits base max n (c ∷ s) = elim (add_digit base max n (digit_value c)) [
  | ok m ↦ parse_digits base max m s
  | err e ↦ err e
]

-- strconv.ParseUint(s, base, bits) for a base other than 0.
unfoldable pub parse_uint : ℕ → ℕ → List ℕ → Result NumError ℕ
parse_uint base bits [] = err syntax_error
parse_uint base bits (c ∷ s) = parse_digits base (2 ^ bits - 1) 0 (c ∷ s)

pub hex_digit : ℕ → ℕ
hex_digit d = if ltb d 10 then b'0' + d else b'A' + (d - 10)

-- The hexadecimal digits of a number with no leading zero; 16 rounds print any uint64.
pub hex_digits : ℕ → ℕ → List ℕ
hex_digits zero n = []
hex_digits (suc f) n =
    let rest = hex_digits f (n / 16) in
    if n / 16 == 0 then hex_digit (n % 16) ∷ [] else rest ++ hex_digit (n % 16) ∷ []

pub pad_zeros : ℕ → List ℕ → List ℕ
pad_zeros w s = replicate (w - length s) b'0' ++ s

-- The verb %08X at a uint64.
unfoldable pub format_08X : ℕ → List ℕ
unfolding pad_zeros hex_digits hex_digit
format_08X n = pad_zeros 8 (hex_digits 16 n)

-- ===== src/Walparser/Readers.antt =====
-- parsing_errors.go, util.go, aligned_reader.go, shrinkable_reader.go and parsingutil/parsing.go, with
-- what they use of Go's bytes.Reader, io.ReadFull and binary.Read. A byte slice is a list of numbers.
pub mod Laws
use extract.Common.{
  ℕ, zero, suc, ◌+◌, ◌-◌, ◌*◌, ◌/◌, ◌%◌, ◌^◌, List, [], ◌∷◌, ◌++◌, ltb, leb, ◌==◌, if◌then◌else◌,
  length, take, drop, Bool, true, false, ◌&&◌, Option, none, some, Result, ok, err,
}

-- `eof` and `unexpected_eof` are io.EOF and io.ErrUnexpectedEOF. `no_progress` is no error of the
-- program: it says that a loop of the model ran out of rounds.
pub data ParseError : Type 0 where
  eof unexpected_eof no_progress : ParseError
  zero_page partial_page zero_page_header invalid_page_header : ParseError
  zero_record_header continuation_not_found cant_save_partial_parser : ParseError
  inconsistent_total_length invalid_resource_manager_id : ParseError
  invalid_record_block_id out_of_order_block_id no_prev_rel_file_node : ParseError
  inconsistent_block_data_state inconsistent_block_image_hole_state : ParseError
  inconsistent_block_image_length not_enough_data_to_shrink : ParseError

-- io.Reader: what `Read` puts into a buffer of a given size, its error, and the reader afterwards.
pub record Reader (R : Type 0) : Type 0 where
  pub read : ℕ → R → List ℕ × Option ParseError × R

-- bytes.Reader, as the bytes that are left.
abbrev pub bytes_read : ℕ → List ℕ → List ℕ × Option ParseError × List ℕ
bytes_read n [] = ([], some eof, [])
bytes_read n (b ∷ s) = (take n (b ∷ s), none, drop n (b ∷ s))

instance abbrev pub bytes_reader : Reader (List ℕ)
bytes_reader = record { read = bytes_read }

pub record AlignedReader (R : Type 0) : Type 0 where
  pub inner_reader : R
  pub alignment : ℕ
  pub already_read : ℕ

pub record ShrinkableReader (R : Type 0) : Type 0 where
  pub inner_reader : R
  pub data_remained : ℕ

abbrev pub aligned_count :
    {R : Type 0}
    → AlignedReader R
    → List ℕ × Option ParseError × R
    → List ℕ × Option ParseError × AlignedReader R
aligned_count a (p, e, r) =
    (p, e, record a { inner_reader = r; already_read = a.already_read + length p })

abbrev pub aligned_read :
    {R : Type 0} ⦃i : Reader R⦄ → ℕ → AlignedReader R → List ℕ × Option ParseError × AlignedReader R
aligned_read ⦃i⦄ n a = aligned_count a (i.read n a.inner_reader)

instance abbrev pub aligned_reader : {R : Type 0} ⦃i : Reader R⦄ → Reader (AlignedReader R)
aligned_reader = record { read = aligned_read }

abbrev pub shrinkable_count :
    {R : Type 0}
    → ShrinkableReader R
    → List ℕ × Option ParseError × R
    → List ℕ × Option ParseError × ShrinkableReader R
shrinkable_count s (p, e, r) =
    (p, e, record { inner_reader = r; data_remained = s.data_remained - length p })

-- The buffer is cut to what remains.
abbrev pub shrinkable_read :
    {R : Type 0} ⦃i : Reader R⦄
    → ℕ
    → ShrinkableReader R
    → List ℕ × Option ParseError × ShrinkableReader R
shrinkable_read ⦃i⦄ n s =
    if s.data_remained == 0
    then ([], some eof, s)
    else if leb n s.data_remained
    then shrinkable_count s (i.read n s.inner_reader)
    else shrinkable_count s (i.read s.data_remained s.inner_reader)

instance abbrev pub shrinkable_reader : {R : Type 0} ⦃i : Reader R⦄ → Reader (ShrinkableReader R)
shrinkable_reader = record { read = shrinkable_read }

-- A parser reads from a reader that it changes, also where it fails.
abbrev pub M : Type 0 → Type 0 → Type 0
M R A = R → Result ParseError A × R

abbrev pub after :
    {R A B : Type 0} → Result ParseError A × R → (A → M R B) → Result ParseError B × R
after (ok a, s) f = f a s
after (err e, s) f = (err e, s)

infixl 5 ◌>>=◌ ◌>>◌
abbrev pub ◌>>=◌ : {R A B : Type 0} → M R A → (A → M R B) → M R B
◌>>=◌ m f s = after (m s) f

abbrev pub ◌>>◌ : {R B : Type 0} → M R (Unit {0}) → M R B → M R B
◌>>◌ m k = m >>= λ _. k

abbrev pub pure : {R A : Type 0} → A → M R A
pure a s = (ok a, s)

abbrev pub fail : {R A : Type 0} → ParseError → M R A
fail e s = (err e, s)

abbrev pub require : {R : Type 0} → Bool → ParseError → M R (Unit {0})
require true e s = (ok tt, s)
require false e s = (err e, s)

-- io.ReadFull's verdict on a short read.
abbrev pub short_read : List ℕ → ParseError → ParseError
short_read [] e = e
short_read (b ∷ got) eof = unexpected_eof
short_read (b ∷ got) e = e

module _ {R : Type 0} ⦃i : Reader R⦄ where
  -- The loop of io.ReadFull; `need` bytes are still to come, and each round brings one at least.
  unfoldable pub read_loop : ℕ → ℕ → List ℕ → M R (List ℕ)
  read_loop fuel zero got r = (ok got, r)
  read_loop zero (suc need) got r = (err no_progress, r)
  read_loop (suc fuel) (suc need) got r =
      let step = i.read (suc need) r in
      let got' = got ++ step.0 in
      elim step.1 [
        | none ↦ read_loop fuel (suc need - length step.0) got' step.2
        | some e ↦
            if suc need - length step.0 == 0
            then (ok got', step.2)
            else (err (short_read got' e), step.2)
      ]

  unfoldable pub read_full : ℕ → M R (List ℕ)
  unfolding read_loop
  read_full n r = read_loop n n [] r

-- The number that little-endian bytes stand for, and its bytes.
unfoldable pub of_bytes : List ℕ → ℕ
of_bytes [] = 0
of_bytes (b ∷ s) = b + 256 * of_bytes s

unfoldable pub to_bytes : ℕ → ℕ → List ℕ
to_bytes zero n = []
to_bytes (suc k) n = n % 256 ∷ to_bytes k (n / 256)

-- FieldToParse.ParseFrom at an unsigned field of `k` bytes.
unfoldable pub parse_field : {R : Type 0} ⦃i : Reader R⦄ → ℕ → M R ℕ
parse_field k = do s ← read_full k; pure (of_bytes s)

-- ReadToAlignment.
unfoldable pub read_to_alignment : {R : Type 0} ⦃i : Reader R⦄ → M (AlignedReader R) (Unit {0})
read_to_alignment a =
    let padding_length = a.alignment - a.already_read % a.alignment in
    if padding_length == a.alignment
    then (ok tt, a)
    else (let step = aligned_read padding_length a in
        (elim step.1 [ none ↦ ok tt | some e ↦ err e ], step.2))

unfoldable pub shrink : {R : Type 0} → ℕ → M (ShrinkableReader R) (Unit {0})
shrink n s =
    if ltb s.data_remained n
    then (err not_enough_data_to_shrink, s)
    else (ok tt, record s { data_remained = s.data_remained - n })

abbrev pub all_zero : List ℕ → Bool
all_zero [] = true
all_zero (b ∷ s) = b == 0 && all_zero s

abbrev pub min_uint32 : ℕ → ℕ → ℕ
min_uint32 a b = if ltb a b then a else b

-- ===== src/Files/Laws.antt =====
-- Local files byte by byte: a file is told by its length and by the byte at each offset.
use extract.Common.{
  ℕ, zero, suc, ◌+◌, ◌-◌, ◌≤◌, ◌<◌, ◌≡◌, refl, ap, ◌∙◌, List, [], ◌∷◌, ◌++◌, length, take, drop,
  replicate, length-append, length-drop, length-take, length-replicate, true, false, ◌&&◌, ltb, leb,
  if◌then◌else◌, arith, Bool-cases, inl, inr,
}
use extract.Files.{truncate, write_file_at}

-- 0 behind the end.
unfoldable pub byte_at : List ℕ → ℕ → ℕ
byte_at [] i = 0
byte_at (b ∷ s) zero = b
byte_at (b ∷ s) (suc i) = byte_at s i

pub file_ext :
    (xs ys : List ℕ)
    → length xs ≡ length ys
    → ((i : ℕ) → i < length xs → byte_at xs i ≡ byte_at ys i)
    → xs ≡ ys
unfolding byte_at
file_ext [] [] e h = refl
file_ext [] (y ∷ ys) e h = ground arith
file_ext (x ∷ xs) [] e h = ground arith
file_ext (x ∷ xs) (y ∷ ys) e h =
    let same : x ≡ y = h 0 (omega arith) in
    let rest : xs ≡ ys = file_ext xs ys (omega arith) (λ i l. h (suc i) (omega (arith, l))) in cc

pub byte_at-beyond : (xs : List ℕ) (i : ℕ) → length xs ≤ i → byte_at xs i ≡ 0
unfolding byte_at
byte_at-beyond [] i h = refl
byte_at-beyond (x ∷ xs) zero h = omega arith
byte_at-beyond (x ∷ xs) (suc i) h = byte_at-beyond xs i (omega (arith, h))

pub byte_at-append :
    (xs ys : List ℕ) (i : ℕ)
    → byte_at (xs ++ ys) i
      ≡ (if ltb i (length xs) then byte_at xs i else byte_at ys (i - length xs))
unfolding byte_at
byte_at-append [] ys i = ground arith
byte_at-append (x ∷ xs) ys zero = ground arith
byte_at-append (x ∷ xs) ys (suc i) = ground (arith, byte_at-append xs ys i)

pub byte_at-take :
    (n : ℕ) (xs : List ℕ) (i : ℕ) → byte_at (take n xs) i ≡ (if ltb i n then byte_at xs i else 0)
unfolding byte_at
byte_at-take zero xs i = ground arith
byte_at-take (suc n) [] i = ground arith
byte_at-take (suc n) (x ∷ xs) zero = ground arith
byte_at-take (suc n) (x ∷ xs) (suc i) = ground (arith, byte_at-take n xs i)

pub byte_at-drop : (n : ℕ) (xs : List ℕ) (i : ℕ) → byte_at (drop n xs) i ≡ byte_at xs (n + i)
unfolding byte_at
byte_at-drop zero xs i = ground arith
byte_at-drop (suc n) [] i = refl
byte_at-drop (suc n) (x ∷ xs) i = byte_at-drop n xs i ∙ ground arith

pub byte_at-section :
    (n offset : ℕ) (xs : List ℕ) (i : ℕ)
    → i < n
    → byte_at (take n (drop offset xs)) i ≡ byte_at xs (offset + i)
byte_at-section n offset xs i h =
    let within : ltb i n ≡ true = ground (arith, h) in
    byte_at-take n (drop offset xs) i
    ∙ ap (λ t. if t then byte_at (drop offset xs) i else 0) within
    ∙ byte_at-drop offset xs i

byte_at-replicate : (n i : ℕ) → byte_at (replicate n 0) i ≡ 0
unfolding byte_at
byte_at-replicate zero i = refl
byte_at-replicate (suc n) zero = refl
byte_at-replicate (suc n) (suc i) = byte_at-replicate n i

pub length-take_short : (n : ℕ) (xs : List ℕ) → length xs ≤ n → length (take n xs) ≡ length xs
length-take_short zero [] h = refl
length-take_short zero (x ∷ xs) h = omega arith
length-take_short (suc n) [] h = refl
length-take_short (suc n) (x ∷ xs) h = omega (arith, length-take_short n xs)

pub length-truncate : (n : ℕ) (xs : List ℕ) → length (truncate n xs) ≡ n
unfolding truncate
length-truncate n xs = elim (Bool-cases (ltb (length xs) n)) [
  | inl short ↦ ground (
    arith,
    short,
    length-append (take n xs) (replicate (n - length xs) 0),
    length-replicate {A = ℕ} (n - length xs) 0,
    length-take_short n xs,
  )
  | inr long ↦ ground (
    arith,
    long,
    length-append (take n xs) (replicate (n - length xs) 0),
    length-replicate {A = ℕ} (n - length xs) 0,
    length-take n xs,
  )
]

pub byte_at-truncate :
    (n : ℕ) (xs : List ℕ) (i : ℕ)
    → byte_at (truncate n xs) i ≡ (if ltb i n then byte_at xs i else 0)
unfolding truncate
byte_at-truncate n xs i = ground (
  arith,
  byte_at-append (take n xs) (replicate (n - length xs) 0) i,
  byte_at-take n xs i,
  byte_at-replicate (n - length xs) (i - length (take n xs)),
  byte_at-beyond (take n xs) i,
)

pub length-write_file_at :
    (file : List ℕ) (offset : ℕ) (bytes : List ℕ)
    → offset + length bytes ≤ length file
    → length (write_file_at file offset bytes) ≡ length file
unfolding write_file_at
length-write_file_at file offset bytes h = omega (
  arith,
  h,
  length-append (truncate offset file) (bytes ++ drop (offset + length bytes) file),
  length-append bytes (drop (offset + length bytes) file),
  length-truncate offset file,
  length-drop (offset + length bytes) file,
)

pub byte_at-write_file_at :
    (file : List ℕ) (offset : ℕ) (bytes : List ℕ) (i : ℕ)
    → byte_at (write_file_at file offset bytes) i ≡ (
        if leb offset i && ltb i (offset + length bytes)
        then byte_at bytes (i - offset)
        else byte_at file i)
unfolding write_file_at
byte_at-write_file_at file offset bytes i =
    let n = length bytes in
    let far : ltb i offset ≡ false
        → ltb (i - offset) n ≡ false
        → byte_at (drop (offset + n) file) (i - offset - n) ≡ byte_at file i =
      λ p q.
        byte_at-drop (offset + n) file (i - offset - n)
        ∙ ap (byte_at file) (ground (arith, p, q)) in
    elim (Bool-cases (ltb i offset)) [
      | inl before ↦ ground (
        arith,
        before,
        byte_at-append (truncate offset file) (bytes ++ drop (offset + n) file) i,
        length-truncate offset file,
        byte_at-truncate offset file i,
      )
      | inr after ↦ elim (Bool-cases (ltb (i - offset) n)) [
        | inl within ↦ ground (
          arith,
          after,
          within,
          byte_at-append (truncate offset file) (bytes ++ drop (offset + n) file) i,
          length-truncate offset file,
          byte_at-append bytes (drop (offset + n) file) (i - offset),
        )
        | inr behind ↦ ground (
          arith,
          after,
          behind,
          byte_at-append (truncate offset file) (bytes ++ drop (offset + n) file) i,
          length-truncate offset file,
          byte_at-append bytes (drop (offset + n) file) (i - offset),
          far after behind,
        )
      ]
    ]

-- A write at the end of the file makes it longer.
pub length-write_file_at_end :
    (file : List ℕ) (offset : ℕ) (bytes : List ℕ)
    → length file ≡ offset
    → length (write_file_at file offset bytes) ≡ offset + length bytes
unfolding write_file_at
length-write_file_at_end file offset bytes h = omega (
  arith,
  h,
  length-append (truncate offset file) (bytes ++ drop (offset + length bytes) file),
  length-append bytes (drop (offset + length bytes) file),
  length-truncate offset file,
  length-drop (offset + length bytes) file,
)

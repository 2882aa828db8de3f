-- ===== src/Walparser/Readers/Laws.antt =====
-- Reading from a byte slice, and little-endian numbers.
use extract.Common.{
  ℕ, zero, suc, ◌-◌, ◌/◌, ◌^◌, ◌<◌, ◌≡◌, refl, ap, ◌∙◌, List, [], ◌∷◌, ◌++◌, length, take, drop,
  take_prefix, drop_prefix, ok, err, arith,
}
use extract.Walparser.Readers.{
  ParseError, M, ◌>>=◌, after, pure, read_loop, read_full, of_bytes, to_bytes, parse_field,
  bytes_reader,
}

read_loop-zero : (fuel : ℕ) (got s : List ℕ) → read_loop fuel 0 got s ≡ (ok got, s)
unfolding read_loop
read_loop-zero zero got s = refl
read_loop-zero (suc fuel) got s = refl

one_round :
    (k x : ℕ) (s : List ℕ)
    → read_loop (suc k) (suc k) [] (x ∷ s)
      ≡ read_loop k (suc k - suc (length (take k s))) (x ∷ take k s) (drop k s)
unfolding read_loop
one_round k x s = refl

-- One round that brings all that is needed.
whole_round :
    (k x : ℕ) (xs ys : List ℕ)
    → length xs ≡ k
    → read_loop (suc k) (suc k) [] (x ∷ (xs ++ ys)) ≡ (ok (x ∷ xs), ys)
whole_round k x xs ys e =
    let z : suc k - suc (length xs) ≡ 0 = omega arith in
    one_round k x (xs ++ ys)
    ∙ rw (take_prefix xs ys e, drop_prefix xs ys e, z) (read_loop-zero k (x ∷ xs) ys)

-- io.ReadFull takes the bytes that are there from the front of the slice.
pub read_full-append :
    (n : ℕ) (xs ys : List ℕ) → length xs ≡ n → read_full n (xs ++ ys) ≡ (ok xs, ys)
unfolding read_full
read_full-append n [] ys e = rw (← e) (read_loop-zero 0 [] ys)
read_full-append n (x ∷ xs) ys e = rw (← e) (whole_round (length xs) x xs ys refl)

-- The first step of a parser succeeds: the rest goes on from there.
pub bind_ok :
    {R A B : Type 0} (m : M R A) (f : A → M R B) (s : R) {a : A} {s' : R}
    → m s ≡ (ok a, s')
    → (m >>= f) s ≡ f a s'
bind_ok m f s e = ap (λ p. after p f) e

pub bind_err :
    {R A B : Type 0} (m : M R A) (f : A → M R B) (s : R) {x : ParseError} {s' : R}
    → m s ≡ (err x, s')
    → (m >>= f) s ≡ (err x, s')
bind_err m f s e = ap (λ p. after p f) e

pub length-to_bytes : (k n : ℕ) → length (to_bytes k n) ≡ k
unfolding to_bytes
length-to_bytes zero n = refl
length-to_bytes (suc k) n = ap suc (length-to_bytes k (n / 256))

pub of_bytes-to_bytes : (k n : ℕ) → n < 256 ^ k → of_bytes (to_bytes k n) ≡ n
unfolding to_bytes of_bytes
of_bytes-to_bytes zero n h = omega arith
of_bytes-to_bytes (suc k) n h = omega (arith, of_bytes-to_bytes k (n / 256) (omega arith))

-- A field written in `k` little-endian bytes is read back, and what follows is left.
pub parse_field-to_bytes :
    (k n : ℕ) (ys : List ℕ) → n < 256 ^ k → parse_field k (to_bytes k n ++ ys) ≡ (ok n, ys)
unfolding parse_field
parse_field-to_bytes k n ys h =
    bind_ok (read_full k) (λ s. pure (of_bytes s)) _
      (read_full-append k (to_bytes k n) ys (length-to_bytes k n))
    ∙ ap (λ v. (ok v, ys)) (of_bytes-to_bytes k n h)

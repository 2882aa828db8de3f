-- ===== src/Strconv/Hex.antt =====
-- Eight hexadecimal digits written by %08X are read back by ParseUint.
use extract.Common.{
  ℕ, zero, suc, ◌-◌, ◌/◌, ◌%◌, ◌^◌, ◌<◌, ◌≤◌, ◌≡◌, refl, sym, ap, ◌∙◌, List, [], ◌∷◌, ◌++◌, ◌==◌,
  ==_iff, length, length-append, replicate, ok, Result-cases, append_assoc, arith, inl, inr,
  Bool-cases, some,
}
use extract.Strconv.{
  digit_value, add_digit, parse_digits, parse_uint, hex_digit, hex_digits, pad_zeros, format_08X,
}

-- A number below 16 ^ w in exactly w digits.
pub hex_fixed : ℕ → ℕ → List ℕ
hex_fixed zero n = []
hex_fixed (suc w) n = hex_fixed w (n / 16) ++ hex_digit (n % 16) ∷ []

pub length-hex_fixed : (w n : ℕ) → length (hex_fixed w n) ≡ w
unfolding hex_fixed
length-hex_fixed zero n = refl
length-hex_fixed (suc w) n = omega (
  arith,
  length-append (hex_fixed w (n / 16)) (hex_digit (n % 16) ∷ []),
  length-hex_fixed w (n / 16),
)

replicate_snoc : (w c : ℕ) → replicate w c ++ c ∷ [] ≡ replicate (suc w) c
replicate_snoc zero c = refl
replicate_snoc (suc w) c = ap (◌∷◌ c) (replicate_snoc w c)

hex_fixed-zero : (w : ℕ) → hex_fixed w 0 ≡ replicate w b'0'
unfolding hex_fixed hex_digit
hex_fixed-zero zero = refl
hex_fixed-zero (suc w) = rw (hex_fixed-zero w) (replicate_snoc w b'0')

pad_zeros_snoc :
    (w : ℕ) (s : List ℕ) (d : ℕ) → pad_zeros (suc w) (s ++ d ∷ []) ≡ pad_zeros w s ++ d ∷ []
unfolding pad_zeros
pad_zeros_snoc w s d =
    let e : suc w - length (s ++ d ∷ []) ≡ w - length s = omega (arith, length-append s (d ∷ [])) in
    rw e (sym (append_assoc (replicate (w - length s) b'0') s (d ∷ [])))

pad_zeros_one : (w n d : ℕ) → n ≡ 0 → pad_zeros (suc w) (d ∷ []) ≡ hex_fixed w n ++ d ∷ []
unfolding pad_zeros
pad_zeros_one w n d z = let e : suc w - 1 ≡ w = omega arith in rw (z, hex_fixed-zero w, e)

pad_zeros-hex_digits :
    (w f n : ℕ) → n < 16 ^ suc w → w < f → pad_zeros (suc w) (hex_digits f n) ≡ hex_fixed (suc w) n
unfolding hex_fixed hex_digits
pad_zeros-hex_digits w zero n h k = absurd (omega arith)
pad_zeros-hex_digits zero (suc f) n h k =
    let z : n / 16 ≡ 0 = omega arith in
    rw ((==_iff (n / 16) 0).1 z) (pad_zeros_one 0 (n / 16) (hex_digit (n % 16)) z)
pad_zeros-hex_digits (suc w) (suc f) n h k = elim (Bool-cases (n / 16 == 0)) [
  | inl small ↦
      rw small (pad_zeros_one (suc w) (n / 16) (hex_digit (n % 16)) ((==_iff (n / 16) 0).0 small))
  | inr large ↦
      rw (large, pad_zeros_snoc (suc w) (hex_digits f (n / 16)) (hex_digit (n % 16)))
        (ap (λ s. s ++ hex_digit (n % 16) ∷ [])
          (pad_zeros-hex_digits w f (n / 16) (omega arith) (omega arith)))
]

-- A number below 2 ^ 32 is printed in exactly eight digits.
pub format_08X-hex_fixed : (n : ℕ) → n < 2 ^ 32 → format_08X n ≡ hex_fixed 8 n
unfolding format_08X
format_08X-hex_fixed n h = pad_zeros-hex_digits 7 16 n (omega arith) (omega arith)

parse_digits-append :
    (base max n : ℕ) (s t : List ℕ) {m : ℕ}
    → parse_digits base max n s ≡ ok m
    → parse_digits base max n (s ++ t) ≡ parse_digits base max m t
unfolding parse_digits
parse_digits-append base max n [] t e = ground arith
parse_digits-append base max n (c ∷ s) t e =
    elim (Result-cases (add_digit base max n (digit_value c))) [
      | inl (x, r) ↦ ground arith
      | inr (a, r) ↦ rw (r, parse_digits) (parse_digits-append base max a s t (ground arith))
    ]

digit_value-hex_digit : (d : ℕ) → d < 16 → digit_value (hex_digit d) ≡ some d
unfolding digit_value hex_digit
digit_value-hex_digit d h = ground arith

last_digit : (max n : ℕ) → n ≤ max → parse_digits 16 max (n / 16) (hex_digit (n % 16) ∷ []) ≡ ok n
unfolding parse_digits add_digit
last_digit max n h = ground (arith, digit_value-hex_digit (n % 16))

parse_digits-hex_fixed :
    (max w n : ℕ) → n ≤ max → n < 16 ^ w → parse_digits 16 max 0 (hex_fixed w n) ≡ ok n
unfolding hex_fixed
parse_digits-hex_fixed max zero n h k = unfold parse_digits in ap ok (omega arith)
parse_digits-hex_fixed max (suc w) n h k =
    parse_digits-append 16 max 0 (hex_fixed w (n / 16)) (hex_digit (n % 16) ∷ [])
      (parse_digits-hex_fixed max w (n / 16) (omega arith) (omega arith))
    ∙ last_digit max n h

-- ParseUint reads back the number that eight hexadecimal digits stand for.
pub parse_uint-hex_fixed : (n : ℕ) → n < 2 ^ 32 → parse_uint 16 32 (hex_fixed 8 n) ≡ ok n
unfolding parse_uint hex_fixed
parse_uint-hex_fixed n h = parse_digits-hex_fixed (2 ^ 32 - 1) 8 n (omega arith) (omega arith)

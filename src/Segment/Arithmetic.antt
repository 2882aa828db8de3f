-- ===== src/Segment/Arithmetic.antt =====
-- Segment numbers, delta numbers and log positions.
use extract.Common.{
  ℕ, suc, ◌&&◌, ltb, leb, ◌==◌, ◌+◌, ◌*◌, ◌/◌, ◌%◌, ◌^◌, ◌≤◌, ◌<◌, ◌≡◌, sym, ap, ◌∙◌, arith,
}
use native.Mathlib.Nat.{
  div-mul-le_self, lt-div-mul-add, div-le_self, le_trans, mul-le-mul_right, le-mul_of_pos_right,
}
use Prim.Native.Nat.{suc-le-suc}
use extract.Segment.{WalSize}
use extract.Segment.WalSegmentNo
use extract.Segment.DeltaNo

-- A segment's delta number is the multiple of 16 within 15 below it, and its first segment.
pub of_wal_segment_no_bounds :
    (n : ℕ)
    → n < 2 ^ 64
    → (DeltaNo.of_wal_segment_no n ≤ n)
      × (n < DeltaNo.of_wal_segment_no n + 16)
      × (DeltaNo.of_wal_segment_no n % 16 ≡ 0)
unfolding DeltaNo.of_wal_segment_no
of_wal_segment_no_bounds n h = omega arith

within :
    (q n size lsn : ℕ)
    → q ≤ n
    → n < q + 16
    → n * size ≤ lsn
    → lsn < n * size + size
    → lsn < 2 ^ 64
    → (q * size % 2 ^ 64 ≤ lsn) × (lsn < q * size % 2 ^ 64 + 16 * size)
within q n size lsn a b c d h =
    let low : q * size ≤ n * size = grind arith in
    let high : (n + 1) * size ≤ (q + 16) * size = mul-le-mul_right size (omega arith) in omega arith

-- The delta number of a log position is a multiple of 16, and the position lies in the 16 segments
-- from it on, whose first position `first_lsn` gives.
pub of_lsn_bounds :
    (w : WalSize) (lsn : ℕ)
    → 0 < w.wal_segment_size
    → lsn < 2 ^ 64
    → (DeltaNo.of_lsn w lsn % 16 ≡ 0)
      × (DeltaNo.first_lsn w (DeltaNo.of_lsn w lsn) ≤ lsn)
      × (lsn < DeltaNo.first_lsn w (DeltaNo.of_lsn w lsn) + 16 * w.wal_segment_size)
unfolding DeltaNo.first_lsn DeltaNo.of_lsn DeltaNo.of_wal_segment_no
of_lsn_bounds w lsn hs h =
    let n = lsn / w.wal_segment_size in
    let fits : n < 2 ^ 64 = le_trans {m = suc lsn} (suc-le-suc (div-le_self lsn _)) h in
    let b = of_wal_segment_no_bounds n fits in
    let near =
      within (DeltaNo.of_wal_segment_no n) n w.wal_segment_size lsn b.0 b.1
        (div-mul-le_self lsn w.wal_segment_size) (lt-div-mul-add hs) h in
    (b.2, near.0, near.1)

-- A number is the quotient of the position exactly where the position lies between its products.
quotient_of_position :
    (n size lsn : ℕ)
    → 0 < size
    → (lsn / size == n) ≡ (leb (n * size) lsn && ltb lsn ((n + 1) * size))
quotient_of_position n size lsn hs =
    let q = lsn / size in
    let low : q * size ≤ lsn = div-mul-le_self lsn size in
    let high : lsn < q * size + size = lt-div-mul-add hs in
    let after : n < q → (n + 1) * size ≤ q * size = λ m. mul-le-mul_right size (omega (arith, m)) in
    let before : q < n → (q + 1) * size ≤ n * size =
      λ m. mul-le-mul_right size (omega (arith, m)) in
    ground (arith, low, high, after, before)

small_mod : (a : ℕ) → a < 2 ^ 64 → a % 2 ^ 64 ≡ a
small_mod a h = omega arith

-- A log position belongs to the segment `n` exactly where it lies between the first position of
-- `n` and that of the next segment, and the segment before the next one is `n`. The next segment starts
-- within uint64.
pub of_lsn-first_lsn :
    (w : WalSize) (n lsn : ℕ)
    → 0 < w.wal_segment_size
    → (n + 1) * w.wal_segment_size < 2 ^ 64
    → ((WalSegmentNo.of_lsn w lsn == n) ≡ (
        leb (WalSegmentNo.first_lsn w n) lsn
        && ltb lsn (WalSegmentNo.first_lsn w (WalSegmentNo.next n))))
      × (WalSegmentNo.previous (WalSegmentNo.next n) ≡ n)
unfolding WalSegmentNo.of_lsn WalSegmentNo.first_lsn WalSegmentNo.next WalSegmentNo.previous
of_lsn-first_lsn w n lsn hs h =
    let small : n + 1 ≤ (n + 1) * w.wal_segment_size = le-mul_of_pos_right (n + 1) hs in
    let here : n * w.wal_segment_size % 2 ^ 64 ≡ n * w.wal_segment_size =
      small_mod (n * w.wal_segment_size) (grind arith) in
    let there : (n + 1) * w.wal_segment_size % 2 ^ 64 ≡ (n + 1) * w.wal_segment_size =
      small_mod ((n + 1) * w.wal_segment_size) h in
    let next' : (n + 1) % 2 ^ 64 ≡ n + 1 = omega arith in
    (
      quotient_of_position n w.wal_segment_size lsn hs
          ∙ ap (λ a. leb a lsn && ltb lsn ((n + 1) * w.wal_segment_size)) (sym here)
          ∙ ap (λ b. leb (n * w.wal_segment_size % 2 ^ 64) lsn && ltb lsn b)
              (sym (ap (λ k. k * w.wal_segment_size % 2 ^ 64) next' ∙ there)),
      omega (arith, next'),
    )

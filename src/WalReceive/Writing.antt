-- ===== src/WalReceive/Writing.antt =====
-- What a copy into the buffer of a segment changes.
use Prim.Native.Nat.{min}
use extract.Common.{
  ℕ, ◌+◌, ◌-◌, ◌≤◌, ◌≡◌, sym, ap, ◌∙◌, List, ◌++◌, length, take, drop, length-append, length-take,
  take_all, take_within, length-drop, append_assoc, arith,
}
use extract.WalReceive.{copied, write_at}

pub copied_fits : (dst : List ℕ) (at : ℕ) (s : List ℕ) → copied dst at s ≤ length s
unfolding copied
copied_fits dst at s = omega arith

pub copied_within : (dst : List ℕ) (at : ℕ) (s : List ℕ) → copied dst at s ≤ length dst - at
unfolding copied
copied_within dst at s = omega arith

-- The bytes of the whole buffer keep their number.
pub length-write_at :
    (dst : List ℕ) (at : ℕ) (src : List ℕ)
    → at ≤ length dst
    → length (write_at dst at src) ≡ length dst
unfolding write_at copied
length-write_at dst at src h =
    let n = min (length dst - at) (length src) in
    omega (
      arith,
      h,
      length-append (take at dst) (take n src ++ drop (at + n) dst),
      length-append (take n src) (drop (at + n) dst),
      length-take at dst h,
      length-take n src (omega arith),
      length-drop (at + n) dst,
    )

-- Up to where it ends the copy has put the first bytes of the source behind those before it.
pub take-write_at :
    (dst : List ℕ) (at : ℕ) (src : List ℕ)
    → at ≤ length dst
    → take (at + copied dst at src) (write_at dst at src)
      ≡ take at dst ++ take (copied dst at src) src
unfolding write_at copied
take-write_at dst at src h =
    let n = min (length dst - at) (length src) in
    let l : length (take at dst ++ take n src) ≡ at + n = omega (
      arith,
      length-append (take at dst) (take n src),
      length-take at dst h,
      length-take n src (omega arith),
    ) in
    ap (take (at + n)) (sym (append_assoc (take at dst) (take n src) (drop (at + n) dst)))
    ∙ take_within (at + n) (take at dst ++ take n src) (drop (at + n) dst) (omega (arith, l))
    ∙ take_all (at + n) (take at dst ++ take n src) (omega (arith, l))

-- ===== src/DeltaMap/Bitmap.antt =====
-- The operations of roaring.Bitmap that the delta map uses, and their documented behaviour. A bitmap is
-- told by the numbers that its iterator gives; Clone is the value itself.
use extract.Common.{ℕ, ◌≡◌, List, length, any, Bool, false, ◌==◌, ◌&&◌, ◌||◌, ltb, leb}

pub record BitmapOps (B : Type 0) : Type 0 where
  pub new : B
  pub bitmap_of : ℕ → B
  pub add : ℕ → B → B
  pub add_range : ℕ → ℕ → B → B
  pub and : B → B → B
  pub iterate : B → List ℕ
  pub get_cardinality : B → ℕ

abbrev pub contains : {B : Type 0} → BitmapOps B → B → ℕ → Bool
contains o b x = any (λ y. y == x) (o.iterate b)

pub record IsBitmapOps {B : Type 0} (o : BitmapOps B) : Type 0 where
  pub contains_new : (x : ℕ) → contains o o.new x ≡ false
  pub contains_of : (n x : ℕ) → contains o (o.bitmap_of n) x ≡ (n == x)
  pub contains_add : (n : ℕ) (b : B) (x : ℕ) → contains o (o.add n b) x ≡ (n == x || contains o b x)
  pub contains_range :
      (low high : ℕ) (b : B) (x : ℕ)
      → contains o (o.add_range low high b) x ≡ (leb low x && ltb x high || contains o b x)
  pub contains_and :
      (a b : B) (x : ℕ) → contains o (o.and a b) x ≡ (contains o a x && contains o b x)
  pub cardinality : (b : B) → o.get_cardinality b ≡ length (o.iterate b)

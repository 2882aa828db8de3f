-- ===== src/Common/Sorting.antt =====
-- sort.Slice by a number that each element has, as an insertion sort.
use Prim.Native.Nat.{ℕ, ◌≤◌}
use mathlib.Core.Logic.{inl, inr}
use mathlib.Core.Path.{◌≡◌, refl, ap, ◌∙◌}
use mathlib.Core.Bool.{Bool, ◌||◌}
use mathlib.Core.List.{List, [], ◌∷◌, Perm}
use mathlib.Core.List.Perm
use native.Mathlib.Omega.{arith}
use extract.Common.Tests.{ltb, if◌then◌else◌, Bool-cases}
use extract.Common.Lists.{All, any}

module _ {A : Type 0} (key : A → ℕ) where
  unfoldable pub insert_by : A → List A → List A
  insert_by x [] = x ∷ []
  insert_by x (y ∷ ys) = if ltb (key x) (key y) then x ∷ y ∷ ys else y ∷ insert_by x ys

  unfoldable pub sort_by : List A → List A
  unfolding insert_by
  sort_by [] = []
  sort_by (x ∷ xs) = insert_by x (sort_by xs)

  -- No key is below `n`.
  abbrev pub IsAbove : ℕ → List A → Type 0
  IsAbove n xs = All (λ x. n ≤ key x) xs

  abbrev pub IsSortedBy : List A → Type 0
  IsSortedBy [] = Unit {0}
  IsSortedBy (x ∷ xs) = IsAbove (key x) xs × IsSortedBy xs

  pub IsAbove-zero : (xs : List A) → IsAbove 0 xs
  IsAbove-zero [] = tt
  IsAbove-zero (x ∷ xs) = (omega arith, IsAbove-zero xs)

  weaken-IsAbove : (a b : ℕ) (xs : List A) → a ≤ b → IsAbove b xs → IsAbove a xs
  weaken-IsAbove a b [] l h = tt
  weaken-IsAbove a b (x ∷ xs) l (h, k) = (omega (arith, l, h), weaken-IsAbove a b xs l k)

  insert_by-IsAbove :
      (n : ℕ) (x : A) (xs : List A) → n ≤ key x → IsAbove n xs → IsAbove n (insert_by x xs)
  unfolding insert_by
  insert_by-IsAbove n x [] l h = (l, tt)
  insert_by-IsAbove n x (y ∷ ys) l (h, k) = elim (Bool-cases (ltb (key x) (key y))) [
    | inl e ↦ rw e (l, (h, k))
    | inr e ↦ rw e (h, insert_by-IsAbove n x ys l k)
  ]

  insert_by-IsSortedBy : (x : A) (xs : List A) → IsSortedBy xs → IsSortedBy (insert_by x xs)
  unfolding insert_by
  insert_by-IsSortedBy x [] s = (tt, tt)
  insert_by-IsSortedBy x (y ∷ ys) (k, s) = elim (Bool-cases (ltb (key x) (key y))) [
    | inl e ↦
        let l : key x ≤ key y = ground (arith, e) in
        rw e ((l, weaken-IsAbove (key x) (key y) ys l k), (k, s))
    | inr e ↦
        rw e (insert_by-IsAbove (key y) x ys (ground (arith, e)) k, insert_by-IsSortedBy x ys s)
  ]

  pub sort_by-IsSortedBy : (xs : List A) → IsSortedBy (sort_by xs)
  unfolding sort_by
  sort_by-IsSortedBy [] = tt
  sort_by-IsSortedBy (x ∷ xs) = insert_by-IsSortedBy x (sort_by xs) (sort_by-IsSortedBy xs)

  insert_by-Perm : (x : A) (xs : List A) → Perm (insert_by x xs) (x ∷ xs)
  unfolding insert_by
  insert_by-Perm x [] = Perm.rfl
  insert_by-Perm x (y ∷ ys) = elim (Bool-cases (ltb (key x) (key y))) [
    | inl e ↦ rw e Perm.rfl
    | inr e ↦ rw e (Perm.trans (Perm.cons y (insert_by-Perm x ys)) (Perm.swap x y ys))
  ]

  pub sort_by-Perm : (xs : List A) → Perm (sort_by xs) xs
  unfolding sort_by
  sort_by-Perm [] = Perm.nil
  sort_by-Perm (x ∷ xs) = Perm.trans (insert_by-Perm x (sort_by xs)) (Perm.cons x (sort_by-Perm xs))

  any-insert_by : (p : A → Bool) (x : A) (xs : List A) → any p (insert_by x xs) ≡ (p x || any p xs)
  unfolding insert_by
  any-insert_by p x [] = refl
  any-insert_by p x (y ∷ ys) = elim (Bool-cases (ltb (key x) (key y))) [
    | inl e ↦ rw e refl
    | inr e ↦ rw (e, any-insert_by p x ys) (swap (p x) (p y) (any p ys))
  ]
    where
      swap : (a b c : Bool) → (b || (a || c)) ≡ (a || (b || c))
      swap a b c = ground arith

  pub any-sort_by : (p : A → Bool) (xs : List A) → any p (sort_by xs) ≡ any p xs
  unfolding sort_by
  any-sort_by p [] = refl
  any-sort_by p (x ∷ xs) = any-insert_by p x (sort_by xs) ∙ ap (λ t. p x || t) (any-sort_by p xs)

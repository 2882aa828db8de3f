-- ===== src/Backup/Delete/Sorting.antt =====
-- What findTarget relies on in sort.Slice: the order, and that no backup is lost.
use extract.Common.{
  ◌≡◌, refl, List, [], ◌∷◌, length, All, Bool, true, false, keep, any, Bool-cases, inl, inr, arith,
}
use extract.Backup.Delete.{BackupObject, insert, sort}

-- A strict weak order on the backups that `P` holds of: the Postgres handler's `less` is one on the
-- backups whose start times it knows.
pub record IsOrder (P : BackupObject → Type 0) (compare : BackupObject → BackupObject → Bool)
    : Type 0 where
  pub asymmetric : (a b : BackupObject) → P a → P b → compare a b ≡ true → compare b a ≡ false
  pub negative :
      (a b c : BackupObject)
      → P a
      → P b
      → P c
      → compare a b ≡ false
      → compare b c ≡ false
      → compare a c ≡ false

pub irreflexive :
    {P : BackupObject → Type 0} {compare : BackupObject → BackupObject → Bool}
    → IsOrder P compare
    → (a : BackupObject) → P a
    → compare a a ≡ false
irreflexive v a p = ground (arith, v.asymmetric a a p p)

module _ (compare : BackupObject → BackupObject → Bool) where
  -- No element goes before `x`.
  abbrev pub NotBefore : BackupObject → BackupObject → Type 0
  NotBefore x y = compare y x ≡ false

  abbrev pub IsSorted : List BackupObject → Type 0
  IsSorted [] = Unit {0}
  IsSorted (x ∷ xs) = All (NotBefore x) xs × IsSorted xs

  insert-All :
      (P : BackupObject → Type 0) (x : BackupObject) (xs : List BackupObject)
      → P x
      → All P xs
      → All P (insert compare x xs)
  unfolding insert
  insert-All P x [] p h = (p, tt)
  insert-All P x (y ∷ ys) p (q, h) = elim (Bool-cases (compare x y)) [
    | inl e ↦ rw e (p, (q, h))
    | inr e ↦ rw e (q, insert-All P x ys p h)
  ]

  pub sort-All :
      (P : BackupObject → Type 0) (xs : List BackupObject) → All P xs → All P (sort compare xs)
  unfolding sort
  sort-All P [] h = tt
  sort-All P (x ∷ xs) (p, h) = insert-All P x (sort compare xs) p (sort-All P xs h)

  module _ {P : BackupObject → Type 0} (v : IsOrder P compare) where
    NotBefore-trans :
        (x y : BackupObject) (ys : List BackupObject)
        → P x
        → P y
        → All P ys
        → compare y x ≡ false
        → All (NotBefore y) ys
        → All (NotBefore x) ys
    NotBefore-trans x y [] p q r h k = tt
    NotBefore-trans x y (z ∷ zs) p q (r, rs) h (k, ks) =
        (v.negative z y x r q p k h, NotBefore-trans x y zs p q rs h ks)

    insert-IsSorted :
        (x : BackupObject) (xs : List BackupObject)
        → P x
        → All P xs
        → IsSorted xs
        → IsSorted (insert compare x xs)
    unfolding insert
    insert-IsSorted x [] p r s = (tt, tt)
    insert-IsSorted x (y ∷ ys) p (q, r) (k, s) = elim (Bool-cases (compare x y)) [
      | inl e ↦
          rw e (let a = v.asymmetric x y p q e in ((a, NotBefore-trans x y ys p q r a k), (k, s)))
      | inr e ↦ rw e (insert-All (NotBefore y) x ys e k, insert-IsSorted x ys p r s)
    ]

    pub sort-IsSorted : (xs : List BackupObject) → All P xs → IsSorted (sort compare xs)
    unfolding sort
    sort-IsSorted [] h = tt
    sort-IsSorted (x ∷ xs) (p, h) =
        insert-IsSorted x (sort compare xs) p (sort-All P xs h) (sort-IsSorted xs h)

  -- Sorting keeps how many backups pass a test.
  length-keep-insert :
      (p : BackupObject → Bool) (x : BackupObject) (xs : List BackupObject)
      → length (keep p (insert compare x xs)) ≡ length (keep p (x ∷ xs))
  unfolding insert
  length-keep-insert p x [] = refl
  length-keep-insert p x (y ∷ ys) = elim (Bool-cases (compare x y)) [
    | inl e ↦ rw e refl
    | inr e ↦ rw e (ground (arith, length-keep-insert p x ys))
  ]

  pub length-keep-sort :
      (p : BackupObject → Bool) (xs : List BackupObject)
      → length (keep p (sort compare xs)) ≡ length (keep p xs)
  unfolding sort
  length-keep-sort p [] = refl
  length-keep-sort p (x ∷ xs) =
      ground (arith, length-keep-insert p x (sort compare xs), length-keep-sort p xs)

  any-insert :
      (p : BackupObject → Bool) (x : BackupObject) (xs : List BackupObject)
      → any p (insert compare x xs) ≡ any p (x ∷ xs)
  unfolding insert
  any-insert p x [] = refl
  any-insert p x (y ∷ ys) = elim (Bool-cases (compare x y)) [
    | inl e ↦ rw e refl
    | inr e ↦ rw e (ground (arith, any-insert p x ys))
  ]

  pub any-sort :
      (p : BackupObject → Bool) (xs : List BackupObject) → any p (sort compare xs) ≡ any p xs
  unfolding sort
  any-sort p [] = refl
  any-sort p (x ∷ xs) = ground (arith, any-insert p x (sort compare xs), any-sort p xs)

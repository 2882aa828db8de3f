-- ===== src/Backup/Mark/Laws.antt =====
-- What the handler of backup_mark.go relies on in a GenericMetaInteractor, and what follows for
-- stores in which backups are only marked as permanent.
use extract.Common.{
  ◌≡◌, refl, ap, ◌∙◌, List, Bool, true, if◌then◌else◌, any, bytes_eq, bytes_eq_refl, some, Result,
  ok, err, Result-cases, ◌⊎◌, inl, inr, arith,
}
use extract.Backup.Mark.{Name, GenericMetadata, MetaInteractor}

abbrev pub mark_as :
    {E : Type 0} → Bool → Result E (GenericMetadata E) → Result E (GenericMetadata E)
mark_as p (err e) = err e
mark_as p (ok m) = ok (record m { is_permanent = p })

-- SetIsPermanent changes the mark of one backup and nothing else, a backup is fetched under its own
-- name, and GetBackups lists every backup that can be fetched.
pub record IsMetaInteractor {S E : Type 0} (i : MetaInteractor S E) : Type 0 where
  pub fetch_set :
      (s s' : S) (n b : Name) (p : Bool)
      → i.set_is_permanent n p s ≡ ok s'
      → i.fetch s' b ≡ (if bytes_eq b n then mark_as p (i.fetch s b) else i.fetch s b)
  pub fetch_name :
      (s : S) (n : Name) (m : GenericMetadata E) → i.fetch s n ≡ ok m → m.backup_name ≡ n
  pub fetch_listed :
      (s : S) (n : Name) (m : GenericMetadata E) (names : List Name)
      → i.fetch s n ≡ ok m
      → i.get_backups s ≡ ok names
      → any (bytes_eq n) names ≡ true

module _ {S E : Type 0} (i : MetaInteractor S E) where
  -- Every backup that a permanent backup was made from is permanent.
  unfoldable pub IsClosed : S → Type 0
  IsClosed s =
      (b c : Name) (m m' : GenericMetadata E)
      → i.fetch s b ≡ ok m
      → m.is_permanent ≡ true
      → m.increment_details ≡ ok (some c)
      → i.fetch s c ≡ ok m'
      → m'.is_permanent ≡ true

  -- The same for one backup, whether it is permanent or not.
  unfoldable pub HasPermanentBase : S → Name → Type 0
  HasPermanentBase s b =
      (c : Name) (m m' : GenericMetadata E)
      → i.fetch s b ≡ ok m
      → m.increment_details ≡ ok (some c)
      → i.fetch s c ≡ ok m'
      → m'.is_permanent ≡ true

  -- `s'` is `s` with more permanent backups.
  unfoldable pub Grows : S → S → Type 0
  Grows s s' =
      (b : Name) → (i.fetch s' b ≡ i.fetch s b) ⊎ (i.fetch s' b ≡ mark_as true (i.fetch s b))

  pub Grows-refl : (s : S) → Grows s s
  unfolding Grows
  Grows-refl s b = inl refl

  mark_twice : (r : Result E (GenericMetadata E)) → mark_as true (mark_as true r) ≡ mark_as true r
  mark_twice (ok m) = refl
  mark_twice (err e) = refl

  pub Grows-trans : (s t u : S) → Grows s t → Grows t u → Grows s u
  unfolding Grows
  Grows-trans s t u f g b = elim (f b) [
    | inl x ↦ elim (g b) [ inl y ↦ inl (y ∙ x) | inr y ↦ inr (y ∙ ap (mark_as true) x) ]
    | inr x ↦ elim (g b) [
      | inl y ↦ inr (y ∙ x)
      | inr y ↦ inr (y ∙ ap (mark_as true) x ∙ mark_twice (i.fetch s b))
    ]
  ]

  pub stays_permanent :
      (s s' : S) (b : Name) (m m' : GenericMetadata E)
      → Grows s s'
      → i.fetch s b ≡ ok m
      → i.fetch s' b ≡ ok m'
      → m.is_permanent ≡ true
      → m'.is_permanent ≡ true
  unfolding Grows
  stays_permanent s s' b m m' g e e' h = ground (arith, g b)

  pub keeps_details :
      (s s' : S) (b : Name) (m m' : GenericMetadata E)
      → Grows s s'
      → i.fetch s b ≡ ok m
      → i.fetch s' b ≡ ok m'
      → m'.increment_details ≡ m.increment_details
  unfolding Grows
  keeps_details s s' b m m' g e e' = ground (arith, g b)

  module _ (v : IsMetaInteractor i) where
    pub set-Grows : (s s' : S) (n : Name) → i.set_is_permanent n true s ≡ ok s' → Grows s s'
    unfolding Grows
    set-Grows s s' n e b = ground (arith, v.fetch_set s s' n b true e)

    pub set-permanent :
        (s s' : S) (n : Name) (m : GenericMetadata E)
        → i.set_is_permanent n true s ≡ ok s'
        → i.fetch s' n ≡ ok m
        → m.is_permanent ≡ true
    set-permanent s s' n m e h =
        ground (arith, v.fetch_set s s' n n true e, bytes_eq_refl n, Result-cases (i.fetch s n))

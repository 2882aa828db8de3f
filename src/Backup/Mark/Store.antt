-- ===== src/Backup/Mark/Store.antt =====
-- A catalogue of backups in memory, which keeps the promises of a GenericMetaInteractor.
use extract.Common.{
  ◌≡◌, refl, sym, ap, ◌∙◌, List, [], ◌∷◌, Bool, true, if◌then◌else◌, any, bytes_eq, bytes_eq_refl,
  bytes_eq→eq, Bool-cases, Result, ok, err, inl, inr, arith,
}
use extract.Backup.Mark.{Name, GenericMetadata, MetaInteractor}
use extract.Backup.Mark.Laws.{mark_as, IsMetaInteractor}

-- The only error is that of a missing backup.
abbrev pub Missing : Type 0
Missing = Unit {0}

abbrev pub Catalogue : Type 0
Catalogue = List (Name × GenericMetadata Missing)

abbrev pub lookup : Catalogue → Name → Result Missing (GenericMetadata Missing)
lookup [] n = err tt
lookup ((k, m) ∷ c) n = if bytes_eq n k then ok (record m { backup_name = n }) else lookup c n

abbrev pub set_mark : Name → Bool → Catalogue → Catalogue
set_mark n p [] = []
set_mark n p ((k, m) ∷ c) =
    (k, if bytes_eq k n then record m { is_permanent = p } else m) ∷ set_mark n p c

abbrev pub names : Catalogue → List Name
names [] = []
names ((k, m) ∷ c) = k ∷ names c

unfoldable pub catalogue : MetaInteractor Catalogue Missing
catalogue = record {
  fetch = lookup;
  set_is_permanent = λ n p c. ok (set_mark n p c);
  get_backups = λ c. ok (names c);
}

lookup-set_mark :
    (c : Catalogue) (n b : Name) (p : Bool)
    → lookup (set_mark n p c) b ≡ (if bytes_eq b n then mark_as p (lookup c b) else lookup c b)
lookup-set_mark [] n b p = ground arith
lookup-set_mark ((k, m) ∷ c) n b p = elim (Bool-cases (bytes_eq b k)) [
  | inl e ↦
      rw (← bytes_eq→eq b k e, bytes_eq_refl b)
        (elim (Bool-cases (bytes_eq b n)) [ inl f ↦ rw f refl | inr f ↦ rw f refl ])
  | inr e ↦ rw e (lookup-set_mark c n b p)
]

lookup-name :
    (c : Catalogue) (n : Name) (m : GenericMetadata Missing) → lookup c n ≡ ok m → m.backup_name ≡ n
lookup-name [] n m e = cc
lookup-name ((k, x) ∷ c) n m e = ground (arith, lookup-name c n m)

lookup-listed :
    (c : Catalogue) (n : Name) (m : GenericMetadata Missing)
    → lookup c n ≡ ok m
    → any (bytes_eq n) (names c) ≡ true
lookup-listed [] n m e = cc
lookup-listed ((k, x) ∷ c) n m e = ground (arith, lookup-listed c n m)

unwrap : {A : Type 0} {x y : A} → Path (Result Missing A) (ok x) (ok y) → x ≡ y
unwrap e = cc

pub catalogue-IsMetaInteractor : IsMetaInteractor catalogue
unfolding catalogue
catalogue-IsMetaInteractor = record {
  fetch_set = λ s s' n b p e. ap (λ c. lookup c b) (sym (unwrap e)) ∙ lookup-set_mark s n b p;
  fetch_name = lookup-name;
  fetch_listed = λ s n m ns e f. ap (any (bytes_eq n)) (sym (unwrap f)) ∙ lookup-listed s n m e;
}

-- ===== src/Backup/Mark.antt =====
-- backup_mark.go: a backup is marked as permanent with all that it was made from, and as impermanent
-- only when no permanent backup was made from it. The interface is that of generic_metadata.go.
pub mod Laws
pub mod Permanent
pub mod Closed
pub mod Impermanent
pub mod Handler
pub mod Store
use extract.Common.{
  ℕ, zero, suc, ◌≡◌, List, [], ◌∷◌, ◌++◌, Bool, true, false, not, if◌then◌else◌, any, keep,
  bytes_eq, Option, none, some, Result, ok, err,
}

abbrev pub Name : Type 0
Name = List ℕ

-- GenericMetadata, with what IncrementDetails.Fetch returns for it: the backup that an increment was
-- made from.
pub record GenericMetadata (E : Type 0) : Type 0 where
  pub backup_name : Name
  pub is_permanent : Bool
  pub increment_details : Result E (Option Name)

-- GenericMetaInteractor and GetBackups, over the backups `S` of a folder.
pub record MetaInteractor (S E : Type 0) : Type 0 where
  pub fetch : S → Name → Result E (GenericMetadata E)
  pub set_is_permanent : Name → Bool → S → Result E S
  pub get_backups : S → Result E (List Name)

-- `endless_chain` is no error of the program: it says that the model's recursion ran out.
pub data MarkError (E : Type 0) : Type 0 where
  failed : E → MarkError E
  permanent_in_future : Name → MarkError E
  endless_chain : MarkError E

abbrev pub lift : {E A : Type 0} → Result E A → Result (MarkError E) A
lift (ok a) = ok a
lift (err e) = err (failed e)

abbrev pub then_ok : {E A B : Type 0} → Result E A → (A → Result E B) → Result E B
then_ok (ok a) f = f a
then_ok (err e) f = err e

-- The backup itself, where its mark is to change.
abbrev pub own_name : {E : Type 0} → Bool → GenericMetadata E → List Name
own_name to_permanent m =
    if to_permanent
    then (if m.is_permanent then [] else m.backup_name ∷ [])
    else (if m.is_permanent then m.backup_name ∷ [] else [])

module _ {S E : Type 0} (i : MetaInteractor S E) where
  -- The backups that `m` was made from, by `previous`, and then `m`.
  unfoldable pub with_previous :
      (Name → Result (MarkError E) (List Name))
      → GenericMetadata E
      → Option Name
      → Result (MarkError E) (List Name)
  with_previous previous m none = ok (own_name true m)
  with_previous previous m (some from) =
      then_ok (previous from) (λ names. ok (names ++ own_name true m))

  unfoldable pub permanent_of :
      (Name → Result (MarkError E) (List Name))
      → GenericMetadata E
      → Result (MarkError E) (List Name)
  unfolding with_previous
  permanent_of previous m =
      then_ok (lift m.increment_details) (λ from. with_previous previous m from)

  unfoldable pub get_backups_to_mark_permanent : ℕ → S → Name → Result (MarkError E) (List Name)
  unfolding permanent_of
  get_backups_to_mark_permanent zero s name = err endless_chain
  get_backups_to_mark_permanent (suc fuel) s name =
      then_ok (lift (i.fetch s name))
        (λ m. permanent_of (λ from. get_backups_to_mark_permanent fuel s from) m)

  -- GetPermanentBackups, which passes over the backups that it cannot fetch.
  unfoldable pub permanent_names : S → List Name → List Name
  permanent_names s [] = []
  permanent_names s (name ∷ names) = elim (i.fetch s name) [
    | err e ↦ permanent_names s names
    | ok m ↦ if m.is_permanent then name ∷ permanent_names s names else permanent_names s names
  ]

  unfoldable pub get_permanent_backups : S → List Name
  unfolding permanent_names
  get_permanent_backups s = elim (i.get_backups s) [
    | err e ↦ []
    | ok names ↦ permanent_names s names
  ]

  -- The links from a backup to the increments made from it, as pairs.
  unfoldable pub add_link : Name → Option Name → List (Name × Name) → List (Name × Name)
  add_link name none links = links
  add_link name (some from) links = (from, name) ∷ links

  unfoldable pub links_of : S → List Name → Result (MarkError E) (List (Name × Name))
  unfolding add_link
  links_of s [] = ok []
  links_of s (name ∷ names) = then_ok (lift (i.fetch s name)) (λ m.
      then_ok (lift m.increment_details)
        (λ from. then_ok (links_of s names) (λ links. ok (add_link name from links))))

  unfoldable pub get_graph_from_base_to_increment : S → Result (MarkError E) (List (Name × Name))
  unfolding links_of
  get_graph_from_base_to_increment s = then_ok (lift (i.get_backups s)) (λ names. links_of s names)

  abbrev pub other_than : Name → List Name → List Name
  other_than name [] = []
  other_than name (n ∷ names) =
      if bytes_eq n name then other_than name names else n ∷ other_than name names

  unfoldable pub backup_has_permanent_in_future : List (Name × Name) → Name → List Name → Bool
  backup_has_permanent_in_future [] name permanent = false
  backup_has_permanent_in_future ((from, next) ∷ links) name permanent =
      if bytes_eq from name
      then (if any (bytes_eq next) permanent
          then true
          else backup_has_permanent_in_future links name permanent)
      else backup_has_permanent_in_future links name permanent

  unfoldable pub impermanent_of :
      S → Name → GenericMetadata E → List (Name × Name) → Result (MarkError E) (List Name)
  unfolding backup_has_permanent_in_future get_permanent_backups
  impermanent_of s name m links =
      if backup_has_permanent_in_future links name (other_than name (get_permanent_backups s))
      then err (permanent_in_future name)
      else ok (own_name false m)

  unfoldable pub get_backups_to_mark_impermanent : S → Name → Result (MarkError E) (List Name)
  unfolding impermanent_of get_graph_from_base_to_increment
  get_backups_to_mark_impermanent s name =
      then_ok (lift (i.fetch s name))
        (λ m. then_ok (get_graph_from_base_to_increment s) (λ links. impermanent_of s name m links))

  -- The first Fetch only serves a warning.
  unfoldable pub get_backups_to_mark : ℕ → S → Name → Bool → Result (MarkError E) (List Name)
  unfolding get_backups_to_mark_permanent get_backups_to_mark_impermanent
  get_backups_to_mark fuel s name to_permanent = then_ok (lift (i.fetch s name)) (λ _.
      if to_permanent
      then get_backups_to_mark_permanent fuel s name
      else get_backups_to_mark_impermanent s name)

  abbrev pub after_set :
      S
      → Result E S
      → (S → Result (MarkError E) (Unit {0}) × S)
      → Result (MarkError E) (Unit {0}) × S
  after_set s (err e) more = (err (failed e), s)
  after_set s (ok s') more = more s'

  -- The loop of MarkBackup, which a failure ends with the backups marked so far.
  unfoldable pub mark_all : List Name → Bool → S → Result (MarkError E) (Unit {0}) × S
  mark_all [] to_permanent s = (ok tt, s)
  mark_all (name ∷ names) to_permanent s =
      after_set s (i.set_is_permanent name to_permanent s) (λ s'. mark_all names to_permanent s')

  unfoldable pub mark_those :
      Result (MarkError E) (List Name) → Bool → S → Result (MarkError E) (Unit {0}) × S
  unfolding mark_all
  mark_those (err e) to_permanent s = (err e, s)
  mark_those (ok names) to_permanent s = mark_all names to_permanent s

  unfoldable pub mark_backup : ℕ → S → Name → Bool → Result (MarkError E) (Unit {0}) × S
  unfolding get_backups_to_mark mark_those
  mark_backup fuel s name to_permanent =
      mark_those (get_backups_to_mark fuel s name to_permanent) to_permanent s

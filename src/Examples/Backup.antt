-- ===== src/Examples/Backup.antt =====
-- backup_mark.go and delete_handler.go on small catalogues.
use extract.Common.{
  not, ◌==◌, ◌&&◌, ℕ, ◌≤◌, ◌≡◌, refl, ap, List, [], ◌∷◌, length, keep, any, Bool, true, false, ltb,
  none, some, ok, err, ◌⊎◌, All, arith,
}
use extract.Backup.Mark.{
  Name, GenericMetadata, mark_backup, get_backups_to_mark_permanent,
  get_backups_to_mark_impermanent,
}
use extract.Backup.Mark.Laws.{IsClosed}
use extract.Backup.Mark.Permanent.{
  Chain, full, increment, impermanent_names, get_backups_to_mark_permanent-Chain,
}
use extract.Backup.Mark.Impermanent.{get_backups_to_mark_impermanent-refuses}
use extract.Backup.Mark.Handler.{mark_backup-IsClosed, mark_backup-permanent}
use extract.Backup.Mark.Store.{Missing, Catalogue, catalogue, catalogue-IsMetaInteractor}
use extract.Backup.Delete.{
  Object, BackupObject, find_target_retain, find_target_before_name, greater, no_delete_modifier,
  find_full_delete_modifier, full_delete_modifier, delete_before_target, forbidden_action,
}
use extract.Backup.Delete.Sorting.{IsOrder}
use extract.Backup.Delete.Retain.{
  spared, find_target_retain-keeps, find_target_retain-finds, find_target_retain_full-finds,
}
use extract.Backup.Delete.Before.{named_spared, find_target_before_name-spares}

abbrev base : Name
base = 1 ∷ []

abbrev delta : Name
delta = 2 ∷ []

abbrev base_meta : Bool → GenericMetadata Missing
base_meta p = record { backup_name = base; is_permanent = p; increment_details = ok none }

abbrev delta_meta : Bool → GenericMetadata Missing
delta_meta p = record { backup_name = delta; is_permanent = p; increment_details = ok (some base) }

abbrev two_backups : Bool → Catalogue
two_backups p = (base, base_meta p) ∷ (delta, delta_meta p) ∷ []

two_backups-IsClosed : IsClosed catalogue (two_backups false)
unfolding IsClosed catalogue
two_backups-IsClosed b c m m' e p d f = ground arith

mark_backup-IsClosed_example :
    IsClosed catalogue (mark_backup catalogue 2 (two_backups false) delta true).1
mark_backup-IsClosed_example =
    mark_backup-IsClosed catalogue catalogue-IsMetaInteractor 2 (two_backups false) delta true
      two_backups-IsClosed

marks_both : mark_backup catalogue 2 (two_backups false) delta true ≡ (ok tt, two_backups true)
unfolding mark_backup catalogue
marks_both = refl

marks_without_error : (mark_backup catalogue 2 (two_backups false) delta true).0 ≡ ok tt
marks_without_error = ap (λ r. r.0) marks_both

delta_is_marked :
    catalogue.fetch (mark_backup catalogue 2 (two_backups false) delta true).1 delta
    ≡ ok (delta_meta true)
unfolding mark_backup catalogue
delta_is_marked = refl

mark_backup-permanent_example : (delta_meta true).is_permanent ≡ true
mark_backup-permanent_example =
    mark_backup-permanent catalogue catalogue-IsMetaInteractor 2 (two_backups false) delta
      (delta_meta true) marks_without_error delta_is_marked

delta-Chain : Chain catalogue (two_backups false) delta (base_meta false ∷ delta_meta false ∷ [])
unfolding catalogue
delta-Chain =
    increment delta base (delta_meta false) (base_meta false ∷ []) refl refl
      (full base (base_meta false) refl refl)

get_backups_to_mark_permanent-Chain_example :
    get_backups_to_mark_permanent catalogue 2 (two_backups false) delta
    ≡ ok (impermanent_names catalogue (two_backups false) (base_meta false ∷ delta_meta false ∷ []))
get_backups_to_mark_permanent-Chain_example =
    get_backups_to_mark_permanent-Chain catalogue (two_backups false) 2 delta
      (base_meta false ∷ delta_meta false ∷ []) delta-Chain (omega arith)

fetch_delta : catalogue.fetch (two_backups true) delta ≡ ok (delta_meta true)
unfolding catalogue
fetch_delta = refl

get_backups_to_mark_impermanent-refuses_example :
    ¬ (get_backups_to_mark_impermanent catalogue (two_backups true) base ≡ ok (base ∷ []))
get_backups_to_mark_impermanent-refuses_example =
    get_backups_to_mark_impermanent-refuses catalogue catalogue-IsMetaInteractor (two_backups true)
      base delta (delta_meta true) (base ∷ []) refl fetch_delta refl refl

-- Like the order of the Postgres handler: nothing goes before or after an object that is not known.
abbrev is_known : Object → Bool
is_known o = not (length o.name == 0)

abbrev older : Object → Object → Bool
older a b = is_known a && (is_known b && ltb a.last_modified b.last_modified)

abbrev Known : BackupObject → Type 0
Known o = is_known o.object ≡ true

older-IsOrder : IsOrder Known (greater older)
older-IsOrder = record {
  asymmetric = λ a b p q h. ground arith;
  negative = λ a b c p q r h k. ground arith;
}

abbrev backup_at : ℕ → Bool → BackupObject
backup_at n is_full = record {
  object = record { name = n ∷ []; last_modified = n };
  backup_time = n;
  backup_name = n ∷ [];
  is_full_backup = is_full;
  base_backup_name = 1 ∷ [];
  increment_from_name = 1 ∷ [];
}

abbrev three_backups : List BackupObject
three_backups = backup_at 1 true ∷ backup_at 3 false ∷ backup_at 2 true ∷ []

abbrev newest_first : List BackupObject
newest_first = backup_at 3 false ∷ backup_at 2 true ∷ backup_at 1 true ∷ []

retains_two :
    find_target_retain older three_backups 2 no_delete_modifier
    ≡ (ok (some (backup_at 2 true)), newest_first)
unfolding find_target_retain
retains_two = refl

-- The first backup is permanent.
abbrev first_is_permanent : Object → Bool
first_is_permanent o = o.last_modified == 1

three_backups-Known : All Known three_backups
three_backups-Known = (refl, (refl, (refl, tt)))

find_target_retain-keeps_example :
    (((backup_at 2 true).is_full_backup ≡ false)
      × (delete_before_target older first_is_permanent (backup_at 2 true) ≡ err forbidden_action))
    ⊎ (((backup_at 2 true).is_full_backup ≡ true)
        × (deletes : Object → Bool) × (delete_before_target older first_is_permanent
              (backup_at 2 true)
            ≡ ok deletes)
        × (2 ≤ length (keep (spared no_delete_modifier deletes) three_backups)))
find_target_retain-keeps_example =
    find_target_retain-keeps older first_is_permanent Known three_backups newest_first 2
      no_delete_modifier (backup_at 2 true) older-IsOrder three_backups-Known retains_two

find_target_retain-finds_example :
    (t : BackupObject) × ((find_target_retain older three_backups 2 no_delete_modifier).0
      ≡ ok (some t))
find_target_retain-finds_example =
    find_target_retain-finds older three_backups 2 (omega arith) (omega arith)

full_target_of_three :
    (t : BackupObject) × ((find_target_retain older three_backups 2 full_delete_modifier).0
      ≡ ok (some t))
full_target_of_three =
    find_target_retain_full-finds older three_backups 2 (omega arith) (omega arith)

before_three :
    find_target_before_name older three_backups (3 ∷ []) find_full_delete_modifier
    ≡ (ok (some (backup_at 2 true)), newest_first)
unfolding find_target_before_name
before_three = refl

find_target_before_name-spares_example :
    ((((backup_at 2 true).is_full_backup ≡ false)
        × (delete_before_target older first_is_permanent (backup_at 2 true) ≡ err forbidden_action))
      ⊎ (((backup_at 2 true).is_full_backup ≡ true)
          × (deletes : Object → Bool) × (delete_before_target older first_is_permanent
                (backup_at 2 true)
              ≡ ok deletes)
          × (any (named_spared (3 ∷ []) deletes) three_backups ≡ true)))
    × ((find_full_delete_modifier == find_full_delete_modifier
          && not (backup_at 2 true).is_full_backup)
        ≡ false)
find_target_before_name-spares_example =
    find_target_before_name-spares older first_is_permanent Known three_backups newest_first
      (3 ∷ []) find_full_delete_modifier (backup_at 2 true) older-IsOrder three_backups-Known
      before_three

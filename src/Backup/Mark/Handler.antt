-- ===== src/Backup/Mark/Handler.antt =====
-- backup_mark.go: what MarkBackup does to the backups of a folder, whichever mark it sets.
use extract.Common.{ℕ, ◌≡◌, refl, List, Bool, true, false, Result, ok, err, Result-cases, arith}
use extract.Backup.Mark.{
  Name, GenericMetadata, MetaInteractor, MarkError, mark_those, mark_backup, get_backups_to_mark,
}
use extract.Backup.Mark.Laws.{IsMetaInteractor, IsClosed}
use extract.Backup.Mark.Closed.{permanent-Marked}
use extract.Backup.Mark.Impermanent.{mark_impermanent-IsClosed}

module _ {S E : Type 0} (i : MetaInteractor S E) (v : IsMetaInteractor i) where
  mark_those-IsClosed :
      (fuel : ℕ) (s : S) (n : Name) (to_permanent : Bool) (r : Result (MarkError E) (List Name))
      → IsClosed i s
      → get_backups_to_mark i fuel s n to_permanent ≡ r
      → IsClosed i (mark_those i r to_permanent s).1
  unfolding mark_those get_backups_to_mark
  mark_those-IsClosed fuel s n p (err e) c h = c
  mark_those-IsClosed fuel s n true (ok names) c h =
      (permanent-Marked i v fuel s n names (ground (arith, h, Result-cases (i.fetch s n)))).closed c
  mark_those-IsClosed fuel s n false (ok names) c h =
      mark_impermanent-IsClosed i v s n names c (ground (arith, h, Result-cases (i.fetch s n)))

  -- MarkBackup keeps every backup that a permanent backup was made from permanent, whichever mark it
  -- sets, also where it fails after some of the backups.
  pub mark_backup-IsClosed :
      (fuel : ℕ) (s : S) (n : Name) (to_permanent : Bool)
      → IsClosed i s
      → IsClosed i (mark_backup i fuel s n to_permanent).1
  unfolding mark_backup
  mark_backup-IsClosed fuel s n p c =
      mark_those-IsClosed fuel s n p (get_backups_to_mark i fuel s n p) c refl

  mark_those-permanent :
      (fuel : ℕ) (s : S) (n : Name) (m : GenericMetadata E) (r : Result (MarkError E) (List Name))
      → get_backups_to_mark i fuel s n true ≡ r
      → (mark_those i r true s).0 ≡ ok tt
      → i.fetch (mark_those i r true s).1 n ≡ ok m
      → m.is_permanent ≡ true
  unfolding mark_those get_backups_to_mark
  mark_those-permanent fuel s n m (err x) h e f = cc
  mark_those-permanent fuel s n m (ok names) h e f =
      (permanent-Marked i v fuel s n names
          (ground (arith, h, Result-cases (i.fetch s n)))).permanent
        e m f

  -- When MarkBackup is to mark a backup as permanent and ends without an error, the backup is permanent
  -- wherever it can be fetched afterwards, whatever the marks of the folder were before.
  pub mark_backup-permanent :
      (fuel : ℕ) (s : S) (n : Name) (m : GenericMetadata E)
      → (mark_backup i fuel s n true).0 ≡ ok tt
      → i.fetch (mark_backup i fuel s n true).1 n ≡ ok m
      → m.is_permanent ≡ true
  unfolding mark_backup
  mark_backup-permanent fuel s n m e f =
      mark_those-permanent fuel s n m (get_backups_to_mark i fuel s n true) refl e f

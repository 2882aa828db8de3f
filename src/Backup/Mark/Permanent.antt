-- ===== src/Backup/Mark/Permanent.antt =====
-- backup_mark.go: which backups getBackupsToMarkPermanent returns.
use extract.Common.{
  ℕ, zero, suc, ◌≤◌, ◌≡◌, refl, sym, ap, ◌∙◌, List, [], ◌∷◌, ◌++◌, length, length-append, true,
  if◌then◌else◌, none, some, ok, arith,
}
use extract.Backup.Mark.{
  Name, GenericMetadata, MetaInteractor, own_name, get_backups_to_mark_permanent, permanent_of,
  with_previous, then_ok, lift,
}

module _ {S E : Type 0} (i : MetaInteractor S E) (s : S) where
  -- The metadata of a backup and of all that it was made from, the full backup first.
  pub data Chain : Name → List (GenericMetadata E) → Type 0 where
    full :
        (n : Name) (m : GenericMetadata E)
        → i.fetch s n ≡ ok m
        → m.increment_details ≡ ok none
        → Chain n (m ∷ [])
    increment :
        (n from : Name) (m : GenericMetadata E) (ms : List (GenericMetadata E))
        → i.fetch s n ≡ ok m
        → m.increment_details ≡ ok (some from)
        → Chain from ms
        → Chain n (ms ++ m ∷ [])

  -- The names of the impermanent ones.
  unfoldable pub impermanent_names : List (GenericMetadata E) → List Name
  impermanent_names [] = []
  impermanent_names (m ∷ ms) =
      if m.is_permanent then impermanent_names ms else m.backup_name ∷ impermanent_names ms

  impermanent_names-append :
      (ms : List (GenericMetadata E)) (m : GenericMetadata E)
      → impermanent_names (ms ++ m ∷ []) ≡ impermanent_names ms ++ own_name true m
  unfolding impermanent_names
  impermanent_names-append [] m = ground arith
  impermanent_names-append (x ∷ ms) m = ground (arith, impermanent_names-append ms m)

  no_fuel : (ms : List (GenericMetadata E)) (m : GenericMetadata E) → ¬ (length (ms ++ m ∷ []) ≤ 0)
  no_fuel ms m h = omega (arith, length-append ms (m ∷ []))

  -- Where the backup stands at the end of a finite chain of increments, the backups to mark are the
  -- impermanent ones of the chain, the full backup first; the length of the chain is fuel enough.
  pub get_backups_to_mark_permanent-Chain :
      (fuel : ℕ) (n : Name) (ms : List (GenericMetadata E))
      → Chain n ms
      → length ms ≤ fuel
      → get_backups_to_mark_permanent i fuel s n ≡ ok (impermanent_names ms)
  unfolding get_backups_to_mark_permanent permanent_of with_previous impermanent_names
  get_backups_to_mark_permanent-Chain zero _ _ (full n m e d) h = elim (no_fuel [] m h) [ ]
  get_backups_to_mark_permanent-Chain (suc fuel) _ _ (full n m e d) h = rw (e, d) refl
  get_backups_to_mark_permanent-Chain zero _ _ (increment n from m ms e d c) h =
      elim (no_fuel ms m h) [ ]
  get_backups_to_mark_permanent-Chain (suc fuel) _ _ (increment n from m ms e d c) h =
      let previous = λ (from' : Name). get_backups_to_mark_permanent i fuel s from' in
      ap (λ r. then_ok (lift r) (λ x. permanent_of i previous x)) e
      ∙ ap (λ r. then_ok (lift r) (λ x. with_previous i previous m x)) d
      ∙ ap (λ r. then_ok r (λ names. ok (names ++ own_name true m)))
          (get_backups_to_mark_permanent-Chain fuel from ms c
            (omega (arith, h, length-append ms (m ∷ []))))
      ∙ ap ok (sym (impermanent_names-append ms m))

-- ===== src/Backup/Delete/Before.antt =====
-- delete_handler.go: what a `delete before` keeps, and what `delete target` deletes.
use extract.Common.{
  ℕ, zero, suc, ◌≡◌, List, [], ◌∷◌, Bool, true, false, ◌&&◌, ◌||◌, any, not, ◌==◌, Option-cases,
  some, ok, err, ◌⊎◌, inl, inr, All, arith,
}
use extract.Backup.Delete.{
  Name, Object, BackupObject, find_first, find_target, sort, has_prefix, before_no_modifier,
  before_find_full, get_before_choice_func, find_full_delete_modifier, find_target_before_name,
  greater, delete_before_target, forbidden_action,
}
use extract.Backup.Delete.Sorting.{
  irreflexive, IsOrder, NotBefore, IsSorted, sort-All, sort-IsSorted, any-sort,
}
use extract.Backup.Delete.Retain.{
  not_less, found-All, delete_before_target-Filter, refused, filtered,
}

-- A backup of the name that is asked for, which the deletion filter spares.
abbrev pub named_spared : Name → (Object → Bool) → BackupObject → Bool
named_spared name deletes o = has_prefix o.object.name name && not (deletes o.object)

any_mono :
    (p q : BackupObject → Bool) (xs : List BackupObject)
    → ((x : BackupObject) → p x ≡ true → q x ≡ true)
    → any p xs ≡ true
    → any q xs ≡ true
any_mono p q [] h e = e
any_mono p q (x ∷ xs) h e = ground (arith, h x, any_mono p q xs h)

module _ (less : Object → Object → Bool) where
  abbrev stays : Name → BackupObject → BackupObject → Bool
  stays name t o = has_prefix o.object.name name && not_less less t o

  module _ {P : BackupObject → Type 0} (v : IsOrder P (greater less)) (name : Name) where
    no_modifier_spares :
        (c : Bool) (xs : List BackupObject) (t : BackupObject)
        → All P xs
        → IsSorted (greater less) xs
        → find_first (before_no_modifier name) c xs ≡ some t
        → any (stays name t) xs ≡ true
    unfolding find_first before_no_modifier
    no_modifier_spares c [] t p s e = cc
    no_modifier_spares c (x ∷ xs) t (p, ps) (a, s) e =
        ground (arith, irreflexive v x p, no_modifier_spares c xs t ps s)

    find_full_spares :
        (c : Bool) (xs : List BackupObject) (t : BackupObject)
        → All P xs
        → IsSorted (greater less) xs
        → find_first (before_find_full name) c xs ≡ some t
        → (t.is_full_backup ≡ true) × ((c ≡ true) ⊎ (any (stays name t) xs ≡ true))
    unfolding find_first before_find_full
    find_full_spares c [] t p s e = ground arith
    find_full_spares c (x ∷ xs) t (p, ps) (a, s) e =
        let after = found-All (NotBefore (greater less) x) (before_find_full name) true xs t a in
        ground (
          arith,
          irreflexive v x p,
          after,
          find_full_spares (c || has_prefix x.object.name name) xs t ps s,
        )

  find_target_before_name-stays :
      {P : BackupObject → Type 0} (backups sorted : List BackupObject) (name : Name) (modifier : ℕ)
      (t : BackupObject)
      → IsOrder P (greater less)
      → All P backups
      → find_target_before_name less backups name modifier ≡ (ok (some t), sorted)
      → (any (stays name t) backups ≡ true)
        × ((modifier == find_full_delete_modifier && not t.is_full_backup) ≡ false)
  unfolding find_target_before_name get_before_choice_func find_target
  find_target_before_name-stays {P} backups sorted name zero t v h e = ground (
    arith,
    any-sort (greater less) (stays name t) backups,
    Option-cases (find_first (before_no_modifier name) false (sort (greater less) backups)),
    no_modifier_spares v name false (sort (greater less) backups) t
        (sort-All (greater less) P backups h) (sort-IsSorted (greater less) v backups h),
  )
  find_target_before_name-stays backups sorted name (suc zero) t v h e = ground arith
  find_target_before_name-stays {P} backups sorted name (suc (suc zero)) t v h e = ground (
    arith,
    any-sort (greater less) (stays name t) backups,
    Option-cases (find_first (before_find_full name) false (sort (greater less) backups)),
    find_full_spares v name false (sort (greater less) backups) t
        (sort-All (greater less) P backups h) (sort-IsSorted (greater less) v backups h),
  )
  find_target_before_name-stays backups sorted name (suc (suc (suc m))) t v h e = ground arith

  -- The target that FindTargetBeforeName finds leaves a backup of that name that the filter of
  -- DeleteBeforeTarget spares, whatever is permanent; if the target is an increment,
  -- DeleteBeforeTarget refuses it, and with the modifier FIND_FULL the target is a full backup. The
  -- order is a strict weak order on the backups.
  pub find_target_before_name-spares :
      (is_permanent : Object → Bool) (P : BackupObject → Type 0)
      (backups sorted : List BackupObject) (name : Name) (modifier : ℕ) (t : BackupObject)
      → IsOrder P (greater less)
      → All P backups
      → find_target_before_name less backups name modifier ≡ (ok (some t), sorted)
      → (((t.is_full_backup ≡ false)
            × (delete_before_target less is_permanent t ≡ err forbidden_action))
          ⊎ ((t.is_full_backup ≡ true)
              × (deletes : Object → Bool) × (delete_before_target less is_permanent t ≡ ok deletes)
              × (any (named_spared name deletes) backups ≡ true)))
        × ((modifier == find_full_delete_modifier && not t.is_full_backup) ≡ false)
  find_target_before_name-spares is_permanent P backups sorted name modifier t v h e =
      let s = find_target_before_name-stays backups sorted name modifier t v h e in
      (
        elim (delete_before_target-Filter less is_permanent t) [
          | refused full q ↦ inl (full, q)
          | filtered deletes full q spares ↦ inr (
            full,
            deletes,
            q,
            any_mono (stays name t) (named_spared name deletes) backups
                (λ o k. ground (arith, k, spares o)) s.0,
          )
        ],
        s.1,
      )

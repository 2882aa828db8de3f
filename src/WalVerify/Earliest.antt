-- ===== src/WalVerify/Earliest.antt =====
-- integrity_check_runner.go: findEarliestBackup finds the first segment from which wal-verify looks.
use mathlib.Core.Path.{subst}
use extract.Common.{
  ℕ, suc, ◌≤◌, ◌<◌, ◌≡◌, refl, sym, ap, List, [], ◌∷◌, All, get_elem?, true, false, ltb, Bool-cases,
  Option, none, some, Result, ok, err, Result-cases, ◌⊎◌, inl, inr, arith, ◌≢◌,
}
use extract.Segment.{WalSize, parse_wal_filename}
use extract.WalVerify.Integrity.{
  BackupDetail, VerifyError, check_backup_is_correct, find_earliest_loop, find_earliest_backup,
  no_correct_backup_found,
}

module _ (w : WalSize) (current_timeline : ℕ) (switches : List (ℕ × ℕ)) where
  -- A backup that may be the left border, and the segment that it starts with.
  pub record IsCorrect (b : BackupDetail) (n : ℕ) : Type 0 where
    pub timeline : ℕ
    pub parsed : parse_wal_filename w b.wal_file_name ≡ ok (timeline, n)
    pub correct : check_backup_is_correct current_timeline b timeline n switches ≡ true

  -- No correct backup of the list starts before `n`.
  abbrev pub NoneBefore : ℕ → List BackupDetail → Type 0
  NoneBefore n backups = All (λ b. (m : ℕ) → IsCorrect b m → n ≤ m) backups

  abbrev pub NoneCorrect : List BackupDetail → Type 0
  NoneCorrect backups = All (λ b. (m : ℕ) → ¬ (IsCorrect b m)) backups

  -- What the loop makes of the best backup so far and the backups that are left.
  Least : Option (BackupDetail × ℕ) → List BackupDetail → Option (BackupDetail × ℕ) → Type 0
  Least none backups none = NoneCorrect backups
  Least (some _) backups none = ⊥
  Least none backups (some (b, n)) =
      ((i : ℕ) × ((get_elem? backups i ≡ some b) × IsCorrect b n)) × NoneBefore n backups
  Least (some (x, m)) backups (some (b, n)) =
      (((b ≡ x) × (n ≡ m)) ⊎ ((i : ℕ) × ((get_elem? backups i ≡ some b) × IsCorrect b n)))
      × (n ≤ m)
      × NoneBefore n backups

  same_start :
      (b : BackupDetail) (t n m : ℕ)
      → parse_wal_filename w b.wal_file_name ≡ ok (t, n)
      → (c : IsCorrect b m) → (n ≡ m) × (t ≡ c.timeline)
  same_start b t n m e c = ground (arith, e, c.parsed)

  not-IsCorrect :
      (b : BackupDetail) (t n : ℕ)
      → parse_wal_filename w b.wal_file_name ≡ ok (t, n)
      → check_backup_is_correct current_timeline b t n switches ≡ false
      → (m : ℕ) → ¬ (IsCorrect b m)
  not-IsCorrect b t n e f m c = ground (arith, same_start b t n m e c, c.correct)

  -- The backup at hand is passed over.
  skip :
      (best : Option (BackupDetail × ℕ)) (b : BackupDetail) (backups : List BackupDetail)
      (r : Option (BackupDetail × ℕ))
      → ((m : ℕ) → ¬ (IsCorrect b m))
      → Least best backups r
      → Least best (b ∷ backups) r
  unfolding Least
  skip none b backups none h k = (h, k)
  skip (some x) b backups none h k = k
  skip none b backups (some (y, n)) h ((i, (e, c)), k) =
      ((suc i, (e, c)), ((λ m d. elim (h m d) [ ]), k))
  skip (some (x, m)) b backups (some (y, n)) h (inl e, l, k) =
      (inl e, l, ((λ j d. elim (h j d) [ ]), k))
  skip (some (x, m)) b backups (some (y, n)) h (inr (i, (e, c)), l, k) =
      (inr (suc i, (e, c)), l, ((λ j d. elim (h j d) [ ]), k))

  -- The backup at hand becomes the best one, after none or after a later one.
  first_of :
      (b : BackupDetail) (n : ℕ) (backups : List BackupDetail) (r : Option (BackupDetail × ℕ))
      → IsCorrect b n
      → Least (some (b, n)) backups r
      → Least none (b ∷ backups) r
  unfolding Least
  first_of b n backups none c k = elim k [ ]
  first_of b n backups (some (y, j)) c (inl (e, f), l, k) = (
    (
      0,
      (ap some (sym e), subst (λ v. IsCorrect y v) (sym f) (subst (λ v. IsCorrect v n) (sym e) c)),
    ),
    ((λ m d. omega (arith, l, (same_start b c.timeline n m c.parsed d).0)), k),
  )
  first_of b n backups (some (y, j)) c (inr (i, (e, d)), l, k) = (
    (suc i, (e, d)),
    ((λ m d'. omega (arith, l, (same_start b c.timeline n m c.parsed d').0)), k),
  )

  earlier :
      (x b : BackupDetail) (m n : ℕ) (backups : List BackupDetail) (r : Option (BackupDetail × ℕ))
      → IsCorrect b n
      → n < m
      → Least (some (b, n)) backups r
      → Least (some (x, m)) (b ∷ backups) r
  unfolding Least
  earlier x b m n backups none c h k = k
  earlier x b m n backups (some (y, j)) c h (inl (e, f), l, k) = (
    inr (
      0,
      (ap some (sym e), subst (λ v. IsCorrect y v) (sym f) (subst (λ v. IsCorrect v n) (sym e) c)),
    ),
    omega (arith, l, h),
    ((λ v d. omega (arith, l, (same_start b c.timeline n v c.parsed d).0)), k),
  )
  earlier x b m n backups (some (y, j)) c h (inr (i, (e, d)), l, k) = (
    inr (suc i, (e, d)),
    omega (arith, l, h),
    ((λ v d'. omega (arith, l, (same_start b c.timeline n v c.parsed d').0)), k),
  )

  not_earlier :
      (x b : BackupDetail) (m n : ℕ) (backups : List BackupDetail) (r : Option (BackupDetail × ℕ))
      → IsCorrect b n
      → m ≤ n
      → Least (some (x, m)) backups r
      → Least (some (x, m)) (b ∷ backups) r
  unfolding Least
  not_earlier x b m n backups none c h k = k
  not_earlier x b m n backups (some (y, j)) c h (inl e, l, k) =
      (inl e, l, ((λ v d. omega (arith, l, h, (same_start b c.timeline n v c.parsed d).0)), k))
  not_earlier x b m n backups (some (y, j)) c h (inr (i, (e, d)), l, k) = (
    inr (suc i, (e, d)),
    l,
    ((λ v d'. omega (arith, l, h, (same_start b c.timeline n v c.parsed d').0)), k),
  )

  ok-injective :
      {x y : Option (BackupDetail × ℕ)}
      → Path (Result VerifyError (Option (BackupDetail × ℕ))) (ok x) (ok y)
      → x ≡ y
  ok-injective e = cc

  pair-injective :
      {x y : BackupDetail × ℕ} → Path (Result VerifyError (BackupDetail × ℕ)) (ok x) (ok y) → x ≡ y
  pair-injective e = cc

  error-injective :
      {x y : VerifyError} → Path (Result VerifyError (BackupDetail × ℕ)) (err x) (err y) → x ≡ y
  error-injective e = cc

  -- The loop itself only fails at a name.
  loop_error :
      (backups : List BackupDetail) (best : Option (BackupDetail × ℕ))
      → find_earliest_loop w current_timeline switches best backups ≢ err no_correct_backup_found
  unfolding find_earliest_loop
  loop_error [] best = λ e. cc
  loop_error (b ∷ backups) best = elim (Result-cases (parse_wal_filename w b.wal_file_name)) [
    | inl (x, p) ↦ rw (find_earliest_loop, p) (λ e. cc)
    | inr ((t, n), p) ↦ rw (find_earliest_loop, p) (loop_error backups _)
  ]

  at_end : (best : Option (BackupDetail × ℕ)) → Least best [] best
  unfolding Least
  at_end none = tt
  at_end (some (x, m)) = (inl (refl, refl), omega arith, tt)

  find_earliest_loop-Least :
      (best : Option (BackupDetail × ℕ)) (backups : List BackupDetail)
      (r : Option (BackupDetail × ℕ))
      → find_earliest_loop w current_timeline switches best backups ≡ ok r
      → Least best backups r
  unfolding find_earliest_loop
  find_earliest_loop-Least best [] r e = subst (Least best []) (ok-injective e) (at_end best)
  find_earliest_loop-Least none (b ∷ backups) r e =
      elim (Result-cases (parse_wal_filename w b.wal_file_name)) [
        | inl (x, p) ↦ ground (arith, e, p)
        | inr ((t, n), p) ↦
            elim (Bool-cases (check_backup_is_correct current_timeline b t n switches)) [
              | inl c ↦
                  first_of b n backups r (record { timeline = t; parsed = p; correct = c })
                    (find_earliest_loop-Least (some (b, n)) backups r (ground (arith, e, p, c)))
              | inr c ↦
                  skip none b backups r (not-IsCorrect b t n p c)
                    (find_earliest_loop-Least none backups r (ground (arith, e, p, c)))
            ]
      ]
  find_earliest_loop-Least (some (x, m)) (b ∷ backups) r e =
      elim (Result-cases (parse_wal_filename w b.wal_file_name)) [
        | inl (z, p) ↦ ground (arith, e, p)
        | inr ((t, n), p) ↦
            elim (Bool-cases (check_backup_is_correct current_timeline b t n switches)) [
              | inr c ↦
                  skip (some (x, m)) b backups r (not-IsCorrect b t n p c)
                    (find_earliest_loop-Least (some (x, m)) backups r (ground (arith, e, p, c)))
              | inl c ↦ elim (Bool-cases (ltb n m)) [
                | inl l ↦
                    earlier x b m n backups r (record { timeline = t; parsed = p; correct = c })
                      (ground arith)
                      (find_earliest_loop-Least (some (b, n)) backups r
                        (ground (arith, e, p, c, l)))
                | inr l ↦
                    not_earlier x b m n backups r (record { timeline = t; parsed = p; correct = c })
                      (ground arith)
                      (find_earliest_loop-Least (some (x, m)) backups r
                        (ground (arith, e, p, c, l)))
              ]
            ]
      ]

  -- What findEarliestBackup returns says how its loop ended.
  found :
      (r : Result VerifyError (Option (BackupDetail × ℕ))) (b : BackupDetail) (n : ℕ)
      → Path
          (Result VerifyError (BackupDetail × ℕ))
          (elim r [
            | err e ↦ err e
            | ok none ↦ err no_correct_backup_found
            | ok (some best) ↦ ok best
          ])
          (ok (b, n))
      → r ≡ ok (some (b, n))
  found (err x) b n e = cc
  found (ok none) b n e = cc
  found (ok (some best)) b n e = ap (λ v. ok (some v)) (pair-injective e)

  not_found :
      (r : Result VerifyError (Option (BackupDetail × ℕ)))
      → r ≢ err no_correct_backup_found
      → Path
          (Result VerifyError (BackupDetail × ℕ))
          (elim r [
            | err e ↦ err e
            | ok none ↦ err no_correct_backup_found
            | ok (some best) ↦ ok best
          ])
          (err no_correct_backup_found)
      → r ≡ ok none
  not_found (err x) h e = elim (h (ap err (error-injective e))) [ ]
  not_found (ok none) h e = refl
  not_found (ok (some best)) h e = cc

  -- A result of findEarliestBackup is a correct backup of the list, with the segment that it starts
  -- with, and no correct backup of the list starts before it.
  pub find_earliest_backup-earliest :
      (backups : List BackupDetail) (b : BackupDetail) (n : ℕ)
      → find_earliest_backup w current_timeline backups switches ≡ ok (b, n)
      → ((i : ℕ) × ((get_elem? backups i ≡ some b) × IsCorrect b n)) × NoneBefore n backups
  unfolding find_earliest_backup Least
  find_earliest_backup-earliest backups b n e =
      find_earliest_loop-Least none backups (some (b, n))
        (found (find_earliest_loop w current_timeline switches none backups) b n e)

  -- Where findEarliestBackup says that there is no correct backup, none of the list is correct.
  pub find_earliest_backup-NoneCorrect :
      (backups : List BackupDetail)
      → find_earliest_backup w current_timeline backups switches ≡ err no_correct_backup_found
      → NoneCorrect backups
  unfolding find_earliest_backup Least
  find_earliest_backup-NoneCorrect backups e = find_earliest_loop-Least none backups none (
      not_found (find_earliest_loop w current_timeline switches none backups)
        (loop_error backups none) e)

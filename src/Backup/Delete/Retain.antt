-- ===== src/Backup/Delete/Retain.antt =====
-- delete_handler.go: what a `delete retain` keeps.
use mathlib.Core.Path.{subst}
use extract.Common.{
  ℕ, zero, suc, ◌+◌, ◌≤◌, ◌<◌, ◌≡◌, refl, ap, List, [], ◌∷◌, length, All, Bool, true, false, not,
  ◌&&◌, ◌==◌, if◌then◌else◌, keep, Option-cases, Bool-cases, Option, none, some, ok, err, ◌⊎◌, inl,
  inr, arith,
}
use extract.Backup.Delete.{
  Object, BackupObject, Choice, found_or, find_first, find_target, sort, retain_no_modifier,
  retain_full, retain_find_full, get_retain_choice_func, full_delete_modifier, no_delete_modifier,
  find_full_delete_modifier, find_target_retain, greater, delete_before_target, forbidden_action,
}
use extract.Backup.Delete.Sorting.{
  irreflexive, IsOrder, NotBefore, IsSorted, sort-All, sort-IsSorted, length-keep-sort,
}

some-injective : {A : Type 0} {x y : A} → Path (Option A) (some x) (some y) → x ≡ y
some-injective e = cc

found_here :
    {C : Type 0} (P : BackupObject → Type 0) (x t : BackupObject) (r : Bool × C)
    (more : C → Option BackupObject)
    → P x
    → ((d : C) → more d ≡ some t → P t)
    → found_or x r more ≡ some t
    → P t
found_here P x t (true, d) more p later e = subst P (some-injective e) p
found_here P x t (false, d) more p later e = later d e

-- A backup that a choice function finds has what all backups of the list have.
pub found-All :
    {C : Type 0} (P : BackupObject → Type 0) (choice : Choice C) (c : C) (xs : List BackupObject)
    (t : BackupObject)
    → All P xs
    → find_first choice c xs ≡ some t
    → P t
unfolding find_first
found-All P choice c [] t a e = cc
found-All P choice c (x ∷ xs) t (p, ps) e =
    found_here P x t (choice c x) (λ d. find_first choice d xs) p
      (λ d. found-All P choice d xs t ps) e

-- Whether a backup counts as one to retain, and as how many.
abbrev pub counted : ℕ → BackupObject → Bool
counted modifier o = if modifier == full_delete_modifier then o.is_full_backup else true

abbrev pub weight : Bool → ℕ
weight true = 1
weight false = 0

-- A choice function whose state counts the backups that it is shown, and that stops at `n` or later.
record Counts (n modifier : ℕ) (choice : Choice ℕ) : Type 0 where
  counts : (c : ℕ) (o : BackupObject) → (choice c o).1 ≤ c + weight (counted modifier o)
  enough : (c : ℕ) (o : BackupObject) → (choice c o).0 ≡ true → n ≤ (choice c o).1

-- A backup that counts as one to retain, and that the deletion filter spares.
abbrev pub spared : ℕ → (Object → Bool) → BackupObject → Bool
spared modifier deletes o = counted modifier o && not (deletes o.object)

-- A backup that does not go before the target of the deletion.
abbrev pub not_less : (Object → Object → Bool) → BackupObject → BackupObject → Bool
not_less less t o = not (less o.object t.object)

length-keep_mono :
    (p q : BackupObject → Bool) (xs : List BackupObject)
    → ((x : BackupObject) → p x ≡ true → q x ≡ true)
    → length (keep p xs) ≤ length (keep q xs)
length-keep_mono p q [] h = omega arith
length-keep_mono p q (x ∷ xs) h = ground (arith, h x, length-keep_mono p q xs h)

-- DeleteBeforeTarget refuses an increment, and its filter takes only what goes before a full backup.
pub data Filter (less : Object → Object → Bool) (is_permanent : Object → Bool) (t : BackupObject)
    : Type 0 where
  refused :
      t.is_full_backup ≡ false
      → delete_before_target less is_permanent t ≡ err forbidden_action
      → Filter less is_permanent t
  filtered :
      (deletes : Object → Bool)
      → t.is_full_backup ≡ true
      → delete_before_target less is_permanent t ≡ ok deletes
      → ((o : BackupObject) → not_less less t o ≡ true → not (deletes o.object) ≡ true)
      → Filter less is_permanent t

pub delete_before_target-Filter :
    (less : Object → Object → Bool) (is_permanent : Object → Bool) (t : BackupObject)
    → Filter less is_permanent t
unfolding delete_before_target
delete_before_target-Filter less is_permanent t = elim (Bool-cases t.is_full_backup) [
  | inl e ↦
      filtered (λ o. less o t.object && not (is_permanent o)) e (ground (arith, e))
        (λ o h. ground (arith, h))
  | inr e ↦ refused e (ground (arith, e))
]

module _ (less : Object → Object → Bool) where
  module _ {P : BackupObject → Type 0} (v : IsOrder P (greater less)) (n modifier : ℕ)
      (choice : Choice ℕ) (k : Counts n modifier choice) where
    abbrev stays : BackupObject → BackupObject → Bool
    stays t o = counted modifier o && not_less less t o

    spares_step :
        (c : ℕ) (x t : BackupObject) (xs : List BackupObject) (r : Bool × ℕ)
        → (less x.object t.object ≡ false)
        → ((d : ℕ) → find_first choice d xs ≡ some t → n ≤ d + length (keep (stays t) xs))
        → choice c x ≡ r
        → found_or x r (λ d. find_first choice d xs) ≡ some t
        → n ≤ c + length (keep (stays t) (x ∷ xs))
    spares_step c x t xs (true, d) a later q h =
        let near = k.counts c x in let far = k.enough c x in ground (arith, q, a, near, far)
    spares_step c x t xs (false, d) a later q h =
        let near = k.counts c x in ground (arith, q, a, near, later d h)

    find_first-spares :
        (c : ℕ) (xs : List BackupObject) (t : BackupObject)
        → All P xs
        → IsSorted (greater less) xs
        → find_first choice c xs ≡ some t
        → n ≤ c + length (keep (stays t) xs)
    unfolding find_first
    find_first-spares c [] t p s e = cc
    find_first-spares c (x ∷ xs) t (p, ps) (a, s) e =
        spares_step c x t xs (choice c x)
          (found_here (λ y. less x.object y.object ≡ false) x t (choice c x)
            (λ d. find_first choice d xs) (irreflexive v x p)
            (λ d. found-All (NotBefore (greater less) x) choice d xs t a) e)
          (λ d. find_first-spares d xs t ps s) refl e

no_modifier-Counts : (n : ℕ) → Counts n no_delete_modifier (retain_no_modifier n)
unfolding retain_no_modifier
no_modifier-Counts n = record { counts = λ c o. ground arith; enough = λ c o h. ground arith }

full-Counts : (n : ℕ) → Counts n full_delete_modifier (retain_full n)
unfolding retain_full
full-Counts n = record { counts = λ c o. ground arith; enough = λ c o h. ground arith }

find_full-Counts : (n : ℕ) → Counts n find_full_delete_modifier (retain_find_full n)
unfolding retain_find_full
find_full-Counts n = record { counts = λ c o. ground arith; enough = λ c o h. ground arith }

no_choice :
    (n modifier : ℕ) (choice : Choice ℕ)
    → ¬ (get_retain_choice_func n (suc (suc (suc modifier))) ≡ some choice)
unfolding get_retain_choice_func
no_choice n modifier choice e = ground arith

-- The three modifiers, by the choice function that each of them gives.
retain_choice :
    (n modifier : ℕ) (choice : Choice ℕ)
    → get_retain_choice_func n modifier ≡ some choice
    → Counts n modifier choice
unfolding get_retain_choice_func
retain_choice n zero choice e = subst (Counts n 0) (some-injective e) (no_modifier-Counts n)
retain_choice n (suc zero) choice e = subst (Counts n 1) (some-injective e) (full-Counts n)
retain_choice n (suc (suc zero)) choice e =
    subst (Counts n 2) (some-injective e) (find_full-Counts n)
retain_choice n (suc (suc (suc modifier))) choice e = elim (no_choice n modifier choice e) [ ]

module _ (less : Object → Object → Bool) where
  found_target :
      (backups sorted : List BackupObject) (n modifier : ℕ) (t : BackupObject)
      → find_target_retain less backups n modifier ≡ (ok (some t), sorted)
      → (choice : Choice ℕ) × ((get_retain_choice_func n modifier ≡ some choice)
          × (find_first choice 0 (sort (greater less) backups) ≡ some t))
  unfolding find_target_retain find_target
  found_target backups sorted n modifier t e =
      elim (Option-cases (get_retain_choice_func n modifier)) [
        | inl q ↦ ground (arith, q)
        | inr (choice, q) ↦ (
          choice,
          (
            q,
            elim (Option-cases (find_first choice 0 (sort (greater less) backups))) [
              | inl z ↦ ground (arith, q, z)
              | inr (u, z) ↦ ground (arith, q, z)
            ],
          ),
        )
      ]

  -- The target that FindTargetRetain finds for `n` leaves `n` backups at least, full ones for the
  -- modifier FULL, that the filter of DeleteBeforeTarget spares, whatever is permanent; if the target
  -- is an increment, DeleteBeforeTarget refuses it. The order is a strict weak order on the backups.
  pub find_target_retain-keeps :
      (is_permanent : Object → Bool) (P : BackupObject → Type 0)
      (backups sorted : List BackupObject) (n modifier : ℕ) (t : BackupObject)
      → IsOrder P (greater less)
      → All P backups
      → find_target_retain less backups n modifier ≡ (ok (some t), sorted)
      → ((t.is_full_backup ≡ false)
          × (delete_before_target less is_permanent t ≡ err forbidden_action))
        ⊎ ((t.is_full_backup ≡ true)
            × (deletes : Object → Bool) × (delete_before_target less is_permanent t ≡ ok deletes)
            × (n ≤ length (keep (spared modifier deletes) backups)))
  find_target_retain-keeps is_permanent P backups sorted n modifier t v a e =
      elim (delete_before_target-Filter less is_permanent t) [
        | refused full q ↦ inl (full, q)
        | filtered deletes full q spares ↦ inr (
          full,
          deletes,
          q,
          (let f = found_target backups sorted n modifier t e in
              omega (
                arith,
                length-keep-sort (greater less) (λ o. counted modifier o && not_less less t o)
                    backups,
                find_first-spares less v n modifier f.0 (retain_choice n modifier f.0 f.1.0) 0
                    (sort (greater less) backups) t (sort-All (greater less) P backups a)
                    (sort-IsSorted (greater less) v backups a) f.1.1,
                length-keep_mono (λ o. counted modifier o && not_less less t o)
                    (spared modifier deletes) backups (λ o h. ground (arith, h, spares o)),
              )),
        )
      ]

-- A choice function that passes over a backup only while fewer than `n` have been counted.
record Stops (n modifier : ℕ) (choice : Choice ℕ) : Type 0 where
  passes :
      (c : ℕ) (o : BackupObject)
      → c < n
      → (choice c o).0 ≡ false
      → ((choice c o).1 < n) × ((choice c o).1 ≡ c + weight (counted modifier o))

no_modifier-Stops : (n : ℕ) → Stops n no_delete_modifier (retain_no_modifier n)
unfolding retain_no_modifier
no_modifier-Stops n = record { passes = λ c o h e. ground arith }

full-Stops : (n : ℕ) → Stops n full_delete_modifier (retain_full n)
unfolding retain_full
full-Stops n = record { passes = λ c o h e. ground arith }

module _ (n modifier : ℕ) (choice : Choice ℕ) (k : Stops n modifier choice) where
  runs_out_step :
      (c : ℕ) (x : BackupObject) (xs : List BackupObject) (r : Bool × ℕ)
      → c < n
      → ((d : ℕ)
          → d < n
          → find_first choice d xs ≡ none
          → d + length (keep (counted modifier) xs) < n)
      → choice c x ≡ r
      → found_or x r (λ d. find_first choice d xs) ≡ none
      → c + length (keep (counted modifier) (x ∷ xs)) < n
  runs_out_step c x xs (true, d) h later q e = cc
  runs_out_step c x xs (false, d) h later q e =
      let p = k.passes c x h (ap (λ r. r.0) q) in
      let moved : (choice c x).1 ≡ d = ap (λ r. r.1) q in ground (arith, moved, p.0, p.1, later d)

  runs_out :
      (c : ℕ) (xs : List BackupObject)
      → c < n
      → find_first choice c xs ≡ none
      → c + length (keep (counted modifier) xs) < n
  unfolding find_first
  runs_out c [] h e = omega arith
  runs_out c (x ∷ xs) h e = runs_out_step c x xs (choice c x) h (λ d. runs_out d xs) refl e

module _ (less : Object → Object → Bool) where
  not_found_runs_out :
      (backups : List BackupObject) (n modifier : ℕ) (choice : Choice ℕ)
      → Stops n modifier choice
      → get_retain_choice_func n modifier ≡ some choice
      → 1 ≤ n
      → n ≤ length (keep (counted modifier) backups)
      → (t : BackupObject) × ((find_target_retain less backups n modifier).0 ≡ ok (some t))
  unfolding find_target_retain find_target
  not_found_runs_out backups n modifier choice k q h enough =
      elim (Option-cases (find_first choice 0 (sort (greater less) backups))) [
        | inr (t, z) ↦ (t, ground (arith, q, z))
        | inl z ↦
            elim (too_few (runs_out n modifier choice k 0 (sort (greater less) backups) h z)
              (length-keep-sort (greater less) (counted modifier) backups) enough) [ ]
      ]
    where
      too_few : {a b : ℕ} → 0 + a < n → a ≡ b → ¬ (n ≤ b)
      too_few x y z = omega arith

  -- Without a modifier FindTargetRetain finds a backup as soon as there are `n` of them.
  pub find_target_retain-finds :
      (backups : List BackupObject) (n : ℕ)
      → 1 ≤ n
      → n ≤ length (keep (counted no_delete_modifier) backups)
      → (t : BackupObject) × ((find_target_retain less backups n no_delete_modifier).0
          ≡ ok (some t))
  unfolding get_retain_choice_func
  find_target_retain-finds backups n =
      not_found_runs_out backups n no_delete_modifier (retain_no_modifier n) (no_modifier-Stops n)
        refl

  -- With the modifier FULL it finds one as soon as there are `n` full backups.
  pub find_target_retain_full-finds :
      (backups : List BackupObject) (n : ℕ)
      → 1 ≤ n
      → n ≤ length (keep (counted full_delete_modifier) backups)
      → (t : BackupObject) × ((find_target_retain less backups n full_delete_modifier).0
          ≡ ok (some t))
  unfolding get_retain_choice_func
  find_target_retain_full-finds backups n =
      not_found_runs_out backups n full_delete_modifier (retain_full n) (full-Stops n) refl

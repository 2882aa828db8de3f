-- ===== src/Backup/Delete.antt =====
-- delete_handler.go: which backup a delete command stops at, and which objects it deletes.
pub mod Sorting
pub mod Retain
pub mod Before
use extract.Common.{
  ℕ, zero, suc, ◌+◌, ◌≡◌, List, [], ◌∷◌, ◌++◌, length, get_elem?, take, Bool, true, false, not,
  ◌&&◌, ◌||◌, ltb, leb, ◌==◌, if◌then◌else◌, any, keep, bytes_eq, Option, none, some, Result, ok,
  err,
}

abbrev pub Name : Type 0
Name = List ℕ

-- storage.Object, and BackupObject: what its methods return. Times are numbers.
pub record Object : Type 0 where
  pub name : Name
  pub last_modified : ℕ

pub record BackupObject : Type 0 where
  pub object : Object
  pub backup_time : ℕ
  pub backup_name : Name
  pub is_full_backup : Bool
  pub base_backup_name : Name
  pub increment_from_name : Name

abbrev pub no_delete_modifier : ℕ
no_delete_modifier = 0

abbrev pub full_delete_modifier : ℕ
full_delete_modifier = 1

abbrev pub find_full_delete_modifier : ℕ
find_full_delete_modifier = 2

pub data DeleteError : Type 0 where
  not_found : DeleteError
  forbidden_action : DeleteError
  -- A method called on a nil backup.
  nil_dereference : DeleteError
  permanent_target : Name → DeleteError

-- strings.HasPrefix.
abbrev pub has_prefix : Name → Name → Bool
has_prefix s [] = true
has_prefix [] (b ∷ prefix) = false
has_prefix (a ∷ s) (b ∷ prefix) = a == b && has_prefix s prefix

-- A choice function keeps a state between its calls: the answer, and the next state.
abbrev pub Choice : Type 0 → Type 0
Choice C = C → BackupObject → Bool × C

-- sort.Slice, as an insertion sort.
unfoldable pub insert :
    (BackupObject → BackupObject → Bool) → BackupObject → List BackupObject → List BackupObject
insert compare x [] = x ∷ []
insert compare x (y ∷ ys) = if compare x y then x ∷ y ∷ ys else y ∷ insert compare x ys

unfoldable pub sort : (BackupObject → BackupObject → Bool) → List BackupObject → List BackupObject
unfolding insert
sort compare [] = []
sort compare (x ∷ xs) = insert compare x (sort compare xs)

abbrev pub found_or :
    {C : Type 0} → BackupObject → Bool × C → (C → Option BackupObject) → Option BackupObject
found_or o (true, c) more = some o
found_or o (false, c) more = more c

-- The loop of findTarget: none is errNotFound.
unfoldable pub find_first : {C : Type 0} → Choice C → C → List BackupObject → Option BackupObject
find_first is_target c [] = none
find_first is_target c (o ∷ objects) =
    found_or o (is_target c o) (λ d. find_first is_target d objects)

-- findTarget sorts the slice that it is given, and so the handler's backups.
unfoldable pub find_target :
    {C : Type 0}
    → List BackupObject
    → (BackupObject → BackupObject → Bool)
    → Choice C
    → C
    → Option BackupObject × List BackupObject
unfolding find_first sort
find_target objects compare is_target c =
    let sorted = sort compare objects in (find_first is_target c sorted, sorted)

-- getBeforeChoiceFunc: `meet_name` is the state.
unfoldable pub before_no_modifier : Name → Choice Bool
before_no_modifier name meet_name o = (has_prefix o.object.name name, meet_name)

unfoldable pub before_find_full : Name → Choice Bool
before_find_full name meet_name o =
    let meets = meet_name || has_prefix o.object.name name in (meets && o.is_full_backup, meets)

unfoldable pub get_before_choice_func : Name → ℕ → Option (Choice Bool)
get_before_choice_func name modifier =
    if modifier == no_delete_modifier
    then some (before_no_modifier name)
    else if modifier == find_full_delete_modifier
    then some (before_find_full name)
    else none

-- getRetainChoiceFunc: `count` is the state.
unfoldable pub retain_no_modifier : ℕ → Choice ℕ
retain_no_modifier retention_count count o = (suc count == retention_count, suc count)

unfoldable pub retain_full : ℕ → Choice ℕ
retain_full retention_count count o =
    let next = (if o.is_full_backup then suc count else count) in (next == retention_count, next)

unfoldable pub retain_find_full : ℕ → Choice ℕ
retain_find_full retention_count count o =
    (leb retention_count (suc count) && o.is_full_backup, suc count)

unfoldable pub get_retain_choice_func : ℕ → ℕ → Option (Choice ℕ)
get_retain_choice_func retention_count modifier =
    if modifier == no_delete_modifier
    then some (retain_no_modifier retention_count)
    else if modifier == full_delete_modifier
    then some (retain_full retention_count)
    else if modifier == find_full_delete_modifier
    then some (retain_find_full retention_count)
    else none

-- The choices of FindTargetRetainAfterName and FindTargetRetainAfterTime.
unfoldable pub after_name : ℕ → Name → Choice Bool
after_name modifier name meet_name o =
    let meets = meet_name || has_prefix o.object.name name in
    (if modifier == no_delete_modifier then meets else meets && o.is_full_backup, meets)

unfoldable pub not_before : ℕ → Choice (Unit {0})
not_before time_line c o = (leb time_line o.backup_time, c)

unfoldable pub after_time : ℕ → ℕ → Choice (Unit {0})
after_time modifier time_line c o =
    let time_check = leb time_line o.backup_time in
    (if modifier == no_delete_modifier then time_check else time_check && o.is_full_backup, c)

-- What a Find method returns, and the backups as it leaves them.
abbrev pub Found : Type 0
Found = Result DeleteError (Option BackupObject) × List BackupObject

abbrev pub or_not_found : Option BackupObject × List BackupObject → Found
or_not_found (none, backups) = (err not_found, backups)
or_not_found (some o, backups) = (ok (some o), backups)

module _ (less : Object → Object → Bool) where
  -- `less` and `greater` at backups.
  abbrev pub lesser : BackupObject → BackupObject → Bool
  lesser a b = less a.object b.object

  abbrev pub greater : BackupObject → BackupObject → Bool
  greater a b = less b.object a.object

  unfoldable pub find_target_before_name : List BackupObject → Name → ℕ → Found
  unfolding get_before_choice_func before_no_modifier before_find_full find_target
  find_target_before_name backups name modifier = elim (get_before_choice_func name modifier) [
    | none ↦ (err forbidden_action, backups)
    | some choice ↦ or_not_found (find_target backups greater choice false)
  ]

  unfoldable pub find_target_before_time : List BackupObject → ℕ → ℕ → Found
  unfolding find_target_before_name not_before
  find_target_before_time backups time_line modifier =
      let potential = find_target backups lesser (not_before time_line) tt in
      elim potential.0 [
        | none ↦ (ok none, potential.1)
        | some o ↦ find_target_before_name potential.1 o.object.name modifier
      ]

  unfoldable pub find_target_retain : List BackupObject → ℕ → ℕ → Found
  unfolding get_retain_choice_func retain_no_modifier retain_full retain_find_full find_target
  find_target_retain backups retention_count modifier =
      elim (get_retain_choice_func retention_count modifier) [
        | none ↦ (err forbidden_action, backups)
        | some choice ↦ or_not_found (find_target backups greater choice 0)
      ]

  unfoldable pub by_name : Name → Choice (Unit {0})
  by_name name c o = (has_prefix o.object.name name, c)

  unfoldable pub find_target_by_name : List BackupObject → Name → Found
  unfolding by_name find_target
  find_target_by_name backups name = or_not_found (find_target backups greater (by_name name) tt)

  -- `less` is called on a nil backup where only one of the targets is found.
  abbrev pub earlier_target :
      Option BackupObject → Option BackupObject → Result DeleteError (Option BackupObject)
  earlier_target (some t1) (some t2) = ok (some (if greater t2 t1 then t1 else t2))
  earlier_target t1 t2 = err nil_dereference

  unfoldable pub find_target_retain_after_name : List BackupObject → ℕ → Name → ℕ → Found
  unfolding get_retain_choice_func after_name find_target
  find_target_retain_after_name backups retention_count name modifier =
      elim (get_retain_choice_func retention_count modifier) [
        | none ↦ (err forbidden_action, backups)
        | some choice ↦
            let target1 = find_target backups greater choice 0 in
            let target2 = find_target target1.1 lesser (after_name modifier name) false in
            (earlier_target target1.0 target2.0, target2.1)
      ]

  abbrev pub earlier_target_or_nil : Option BackupObject → Option BackupObject → Option BackupObject
  earlier_target_or_nil none t2 = t2
  earlier_target_or_nil (some t1) none = some t1
  earlier_target_or_nil (some t1) (some t2) = some (if greater t2 t1 then t1 else t2)

  unfoldable pub find_target_retain_after_time : List BackupObject → ℕ → ℕ → ℕ → Found
  unfolding get_retain_choice_func after_time find_target
  find_target_retain_after_time backups retention_count time_line modifier =
      elim (get_retain_choice_func retention_count modifier) [
        | none ↦ (err forbidden_action, backups)
        | some choice ↦
            let target1 = find_target backups greater choice 0 in
            let target2 = find_target target1.1 lesser (after_time modifier time_line) tt in
            (ok (earlier_target_or_nil target1.0 target2.0), target2.1)
      ]

  module _ (is_permanent : Object → Bool) where
    -- The filter that DeleteBeforeTarget passes to storage.DeleteObjectsWhere.
    unfoldable pub delete_before_target : BackupObject → Result DeleteError (Object → Bool)
    delete_before_target target =
        if target.is_full_backup
        then ok (λ o. less o target.object && not (is_permanent o))
        else err forbidden_action

unfoldable pub names_to_delete :
    (Object → Bool) → List BackupObject → Result DeleteError (List Name)
names_to_delete is_permanent [] = ok []
names_to_delete is_permanent (target ∷ targets) =
    if is_permanent target.object
    then err (permanent_target target.object.name)
    else elim (names_to_delete is_permanent targets) [
      | err e ↦ err e
      | ok names ↦ ok (target.backup_name ∷ names)
    ]

-- strings.Trim(path, "/").
abbrev pub trim_leading : Name → Name
trim_leading [] = []
trim_leading (c ∷ s) = if c == 47 then trim_leading s else c ∷ s

abbrev pub keep_unless_slashes : ℕ → Name → Name
keep_unless_slashes c [] = if c == 47 then [] else c ∷ []
keep_unless_slashes c (d ∷ s) = c ∷ d ∷ s

abbrev pub trim_trailing : Name → Name
trim_trailing [] = []
trim_trailing (c ∷ s) = keep_unless_slashes c (trim_trailing s)

-- strings.Split(path, "/")[0].
abbrev pub before_slash : Name → Name
before_slash [] = []
before_slash (c ∷ s) = if c == 47 then [] else c ∷ before_slash s

-- The bytes of "_backup".
abbrev backup_suffix : Name
backup_suffix = 95 ∷ 98 ∷ 97 ∷ 99 ∷ 107 ∷ 117 ∷ 112 ∷ []

unfoldable pub strip_backup_suffix : Name → Name
strip_backup_suffix [] = []
strip_backup_suffix (c ∷ s) =
    if has_prefix (c ∷ s) backup_suffix then [] else c ∷ strip_backup_suffix s

unfoldable pub strip_leftmost_backup_name : Name → Name
unfolding strip_backup_suffix
strip_leftmost_backup_name path =
    strip_backup_suffix (before_slash (trim_leading (trim_trailing path)))

-- The filter that DeleteTargets passes to storage.DeleteObjectsWhere.
unfoldable pub delete_targets :
    (Object → Bool) → List BackupObject → Result DeleteError (Object → Bool)
unfolding names_to_delete strip_leftmost_backup_name
delete_targets is_permanent targets = elim (names_to_delete is_permanent targets) [
  | err e ↦ err e
  | ok names ↦
      ok (λ o. any (bytes_eq (strip_leftmost_backup_name o.name)) names && not (is_permanent o))
]

unfoldable pub related_to_full : BackupObject → BackupObject → Bool
related_to_full target other =
    bytes_eq target.backup_name other.backup_name
    || bytes_eq target.backup_name other.base_backup_name

unfoldable pub related_to_increment : BackupObject → BackupObject → Bool
related_to_increment target other =
    bytes_eq target.base_backup_name other.backup_name
    || bytes_eq target.base_backup_name other.base_backup_name

unfoldable pub is_related : BackupObject → BackupObject → Bool
unfolding related_to_full related_to_increment
is_related target other =
    if target.is_full_backup
    then related_to_full target other
    else related_to_increment target other

unfoldable pub find_related_backups : List BackupObject → BackupObject → List BackupObject
unfolding is_related
find_related_backups backups target = keep (is_related target) backups

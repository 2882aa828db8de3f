-- ===== src/WalVerify/Timeline/Highest.antt =====
-- timeline_check_runner.go: the verdict of the timeline check, and what the highest timeline is.
use extract.Common.{
  ℕ, ◌≤◌, ◌<◌, ◌≡◌, ◌↔◌, refl, sym, ap, ◌∙◌, List, [], ◌∷◌, any, Bool, true, false, ltb, ◌==◌, ◌||◌,
  Bool-cases, none, some, Option-cases, ◌⊎◌, inl, inr, arith,
}
use extract.Segment.{WalSize}
use extract.WalVerify.Integrity.{status_ok, status_warning}
use extract.WalVerify.Timeline.{
  try_parse_timeline_id, find_highest_loop, new_timeline_check_result, run_timeline_check,
}

verdict_of :
    (c m : ℕ) (told above positive : Bool)
    → ltb c m ≡ (ltb c 0 || above)
    → ltb 0 m ≡ (ltb 0 0 || positive)
    → (told ≡ true → c ≤ m)
    → (0 < c → m ≡ c → told ≡ true)
    → ((new_timeline_check_result c m).status ≡ status_ok
        ↔ ((0 < c) × ((told ≡ true) × (above ≡ false))))
      × ((new_timeline_check_result c m).status ≡ status_warning ↔ positive ≡ false)
unfolding new_timeline_check_result
verdict_of c m told above positive a p h k = (
  (ground (arith, a, p, h, k), ground (arith, a, p, h, k)),
  (ground (arith, p), ground (arith, p)),
)

module _ (w : WalSize) where
  -- Whether a file tells a timeline that satisfies a test.
  abbrev pub tells : (ℕ → Bool) → List ℕ → Bool
  tells test name = elim (try_parse_timeline_id w name) [ none ↦ false | some n ↦ test n ]

  -- The loop ends above a bound if it starts there or a file tells a timeline above it.
  find_highest_loop-above :
      (c h : ℕ) (names : List (List ℕ))
      → ltb c (find_highest_loop w h names) ≡ (ltb c h || any (tells (ltb c)) names)
  unfolding find_highest_loop
  find_highest_loop-above c h [] = ground arith
  find_highest_loop-above c h (name ∷ names) = elim (Option-cases (try_parse_timeline_id w name)) [
    | inl p ↦ ground (arith, p, find_highest_loop-above c h names)
    | inr (n, p) ↦
        ground (arith, p, find_highest_loop-above c n names, find_highest_loop-above c h names)
  ]

  -- What it ends with is what it starts with or a timeline that a file tells.
  find_highest_loop-told :
      (h : ℕ) (names : List (List ℕ))
      → (find_highest_loop w h names ≡ h)
        ⊎ (any (tells (λ n. n == find_highest_loop w h names)) names ≡ true)
  unfolding find_highest_loop
  find_highest_loop-told h [] = inl refl
  find_highest_loop-told h (name ∷ names) = elim (Option-cases (try_parse_timeline_id w name)) [
    | inl p ↦ ground (arith, p, find_highest_loop-told h names)
    | inr (n, p) ↦ ground (arith, p, find_highest_loop-told n names, find_highest_loop-told h names)
  ]

  -- No timeline that a file tells is above what the loop ends with.
  find_highest_loop-bound :
      (c h : ℕ) (names : List (List ℕ))
      → any (tells (λ n. n == c)) names ≡ true
      → c ≤ find_highest_loop w h names
  find_highest_loop-bound c h names t = elim (Bool-cases (ltb (find_highest_loop w h names) c)) [
    | inr l ↦ ground (arith, l)
    | inl l ↦ ground (
      arith,
      l,
      find_highest_loop-above (find_highest_loop w h names) h names,
      told_above (find_highest_loop w h names) c names l t,
    )
  ]
    where
      told_above :
          (b c : ℕ) (names : List (List ℕ))
          → ltb b c ≡ true
          → any (tells (λ n. n == c)) names ≡ true
          → any (tells (ltb b)) names ≡ true
      told_above b c [] l t = cc
      told_above b c (name ∷ names) l t = elim (Option-cases (try_parse_timeline_id w name)) [
        | inl p ↦ ground (arith, p, l, t, told_above b c names l)
        | inr (n, p) ↦ ground (arith, p, l, t, told_above b c names l)
      ]

  told_highest :
      (current : ℕ) (filenames : List (List ℕ))
      → 0 < current
      → find_highest_loop w 0 filenames ≡ current
      → any (tells (λ n. n == current)) filenames ≡ true
  told_highest current filenames h e = elim (find_highest_loop-told 0 filenames) [
    | inl z ↦ ground (arith, z, e, h)
    | inr t ↦ ap (λ c. any (tells (λ n. n == c)) filenames) (sym e) ∙ t
  ]

  -- The timeline check succeeds exactly if the current timeline is told by a file, is not 0, and no
  -- file tells a later one. It warns exactly if no file tells a timeline other than 0.
  pub run_timeline_check_verdict :
      (current : ℕ) (filenames : List (List ℕ))
      → ((run_timeline_check w current filenames).status ≡ status_ok ↔ (
          (0 < current)
          × ((any (tells (λ n. n == current)) filenames ≡ true)
              × (any (tells (ltb current)) filenames ≡ false))))
        × ((run_timeline_check w current filenames).status ≡ status_warning
            ↔ any (tells (ltb 0)) filenames ≡ false)
  unfolding run_timeline_check
  run_timeline_check_verdict current filenames =
      verdict_of current (find_highest_loop w 0 filenames) _ _ _
        (find_highest_loop-above current 0 filenames) (find_highest_loop-above 0 0 filenames)
        (find_highest_loop-bound current 0 filenames) (told_highest current filenames)

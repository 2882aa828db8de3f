-- ===== src/Compose/Packed.antt =====
-- rating_tar_ball_composer.go: what composeFiles puts into its collections.
use mathlib.Core.List.{Perm}
use mathlib.Core.Path.{subst}
use extract.Common.{
  ℕ, ◌+◌, ◌%◌, ◌^◌, ◌≤◌, ◌<◌, ◌≡◌, refl, sym, ap, ◌∙◌, List, [], ◌∷◌, ◌++◌, append_assoc, All,
  IsAbove, IsAbove-zero, IsSortedBy, sort_by-IsSortedBy, sort_by-Perm, true, false, ◌==◌,
  Bool-cases, ◌⊎◌, inl, inr, arith,
}
use extract.Compose.{
  RatedComposeFileInfo, TarFilesCollection, new_tar_files_collection, add_file_to, sort_files,
  starts_collection, compose_rounds, compose_files,
}

abbrev pub rating_of : RatedComposeFileInfo → ℕ
rating_of f = f.update_rating

-- The sum of the expected sizes, a uint64.
pub total : List RatedComposeFileInfo → ℕ
total [] = 0
total (f ∷ files) = (f.expected_size + total files) % 2 ^ 64

-- A collection has the size of its files; no file was put to files that were already larger than the
-- threshold; and its files are all rated zero, or none of them is.
pub record IsCollection (threshold : ℕ) (c : TarFilesCollection) : Type 0 where
  pub sized : c.expected_size ≡ total c.files
  pub filled :
      (c.files ≡ [])
      ⊎ ((before : List RatedComposeFileInfo) × (last : RatedComposeFileInfo) × (c.files
            ≡ before ++ last ∷ [])
          × (total before ≤ threshold))
  pub rated : All (λ f. f.update_rating ≡ 0) c.files ⊎ All (λ f. 0 < f.update_rating) c.files

abbrev pub files_of : List TarFilesCollection → List RatedComposeFileInfo
files_of [] = []
files_of (c ∷ cs) = c.files ++ files_of cs

-- The files of the current collection are rated as the last one is.
RatedAs : ℕ → List RatedComposeFileInfo → Type 0
RatedAs prev files =
    ((prev ≡ 0) × All (λ f. f.update_rating ≡ 0) files)
    ⊎ ((0 < prev) × All (λ f. 0 < f.update_rating) files)

RatedAs-rated :
    (prev : ℕ) (files : List RatedComposeFileInfo)
    → RatedAs prev files
    → All (λ f. f.update_rating ≡ 0) files ⊎ All (λ f. 0 < f.update_rating) files
unfolding RatedAs
RatedAs-rated prev files (inl (e, h)) = inl h
RatedAs-rated prev files (inr (l, h)) = inr h

total_end :
    (files : List RatedComposeFileInfo) (f : RatedComposeFileInfo)
    → total (files ++ f ∷ []) ≡ (total files + f.expected_size) % 2 ^ 64
unfolding total
total_end [] f = omega arith
total_end (g ∷ files) f = omega (arith, total_end files f)

All-end :
    (P : RatedComposeFileInfo → Type 0) (files : List RatedComposeFileInfo)
    (f : RatedComposeFileInfo)
    → All P files
    → P f
    → All P (files ++ f ∷ [])
All-end P [] f h p = (p, tt)
All-end P (g ∷ files) f (h, k) p = (h, All-end P files f k p)

-- The current collection while files are still to come.
record IsCurrent (threshold prev : ℕ) (c : TarFilesCollection) : Type 0 where
  collection : IsCollection threshold c
  as_last : RatedAs prev c.files

added :
    (threshold prev : ℕ) (f : RatedComposeFileInfo) (c : TarFilesCollection)
    → IsCurrent threshold prev c
    → c.expected_size ≤ threshold
    → RatedAs f.update_rating (c.files ++ f ∷ [])
    → IsCurrent threshold f.update_rating (add_file_to f c)
unfolding add_file_to
added threshold prev f c v fits r = record {
  collection = record {
    sized = ap (λ n. (n + f.expected_size) % 2 ^ 64) v.collection.sized ∙ sym (total_end c.files f);
    filled = inr (c.files, f, refl, subst (λ n. n ≤ threshold) v.collection.sized fits);
    rated = RatedAs-rated f.update_rating (c.files ++ f ∷ []) r;
  };
  as_last = r;
}

empty-IsCurrent : (threshold : ℕ) → IsCurrent threshold 0 new_tar_files_collection
unfolding new_tar_files_collection total RatedAs
empty-IsCurrent threshold = record {
  collection = record { sized = refl; filled = inl refl; rated = inl tt };
  as_last = inl (refl, tt);
}

alone :
    (threshold : ℕ) (f : RatedComposeFileInfo)
    → IsCurrent threshold f.update_rating (add_file_to f new_tar_files_collection)
unfolding new_tar_files_collection RatedAs
alone threshold f =
    added threshold 0 f new_tar_files_collection (empty-IsCurrent threshold) (omega arith)
      (by_rating (Bool-cases (f.update_rating == 0)))
  where
    by_rating :
        ((f.update_rating == 0) ≡ true) ⊎ ((f.update_rating == 0) ≡ false)
        → RatedAs f.update_rating (f ∷ [])
    by_rating (inl e) = inl (ground (arith, e), (ground (arith, e), tt))
    by_rating (inr e) = inr (ground (arith, e), (ground (arith, e), tt))

-- A file that does not start a collection is rated as the current one is.
continued_rating :
    (threshold prev : ℕ) (c : TarFilesCollection) (f : RatedComposeFileInfo)
    → starts_collection threshold c prev f ≡ false
    → prev ≤ f.update_rating
    → RatedAs prev c.files
    → RatedAs f.update_rating (c.files ++ f ∷ [])
unfolding RatedAs starts_collection
continued_rating threshold prev c f e l (inl (z, h)) =
    let zero : f.update_rating ≡ 0 = ground (arith, e, l, z) in
    inl (zero, All-end (λ g. g.update_rating ≡ 0) c.files f h zero)
continued_rating threshold prev c f e l (inr (p, h)) =
    let positive : 0 < f.update_rating = omega (arith, p, l) in
    inr (positive, All-end (λ g. 0 < g.update_rating) c.files f h positive)

continued_size :
    (threshold prev : ℕ) (c : TarFilesCollection) (f : RatedComposeFileInfo)
    → starts_collection threshold c prev f ≡ false
    → c.expected_size ≤ threshold
unfolding starts_collection
continued_size threshold prev c f e = ground (arith, e)

-- What the rounds make of the files.
pub record IsComposed (threshold : ℕ) (files : List RatedComposeFileInfo)
    (cs : List TarFilesCollection) : Type 0 where
  pub whole : files_of cs ≡ files
  pub each : All (IsCollection threshold) cs

compose_rounds-IsComposed :
    (threshold prev : ℕ) (current : TarFilesCollection) (files : List RatedComposeFileInfo)
    → IsCurrent threshold prev current
    → IsAbove rating_of prev files
    → IsSortedBy rating_of files
    → IsComposed threshold (current.files ++ files) (compose_rounds threshold current prev files)
unfolding compose_rounds
compose_rounds-IsComposed threshold prev current [] v h s = record {
  whole = refl;
  each = (v.collection, tt);
}
compose_rounds-IsComposed threshold prev current (f ∷ files) v (h, hs) (k, s) =
    elim (Bool-cases (starts_collection threshold current prev f)) [
      | inl e ↦
          let next =
            compose_rounds-IsComposed threshold f.update_rating
              (add_file_to f new_tar_files_collection) files (alone threshold f) k s in
          rw e record {
            whole = ap (λ fs. current.files ++ fs) next.whole;
            each = (v.collection, next.each);
          }
      | inr e ↦
          let next =
            compose_rounds-IsComposed threshold f.update_rating (add_file_to f current) files
              (added threshold prev f current v (continued_size threshold prev current f e)
                (continued_rating threshold prev current f e h v.as_last))
              k s in
          rw e record {
            whole = next.whole ∙ append_assoc current.files (f ∷ []) files;
            each = next.each;
          }
    ]

-- The collections of composeFiles have every file once and no other, in the order of the ratings, and
-- each is as IsCollection says: its size is that of its files, no file was put to files that were
-- larger than the threshold already, and files that are rated zero are not together with others.
pub compose_files-IsComposed :
    (threshold : ℕ) (files : List RatedComposeFileInfo)
    → Perm (files_of (compose_files threshold files)) files
      × IsSortedBy rating_of (files_of (compose_files threshold files))
      × All (IsCollection threshold) (compose_files threshold files)
unfolding compose_files new_tar_files_collection sort_files
compose_files-IsComposed threshold files =
    let r =
      compose_rounds-IsComposed threshold 0 new_tar_files_collection (sort_files files)
        (empty-IsCurrent threshold) (IsAbove-zero rating_of (sort_files files))
        (sort_by-IsSortedBy rating_of files) in
    (
      subst (λ l. Perm l files) (sym r.whole) (sort_by-Perm rating_of files),
      subst (IsSortedBy rating_of) (sym r.whole) (sort_by-IsSortedBy rating_of files),
      r.each,
    )

-- ===== src/Increment/Local/Restored.antt =====
-- pagefile_new.go: RestoreMissingPages puts the pages of the base where the target has none.
use mathlib.Core.Path.{subst}
use extract.Common.{
  ℕ, zero, suc, ◌+◌, ◌*◌, ◌/◌, ◌≤◌, ◌<◌, ◌≡◌, ◌≢◌, refl, sym, ap, ◌∙◌, List, [], length, drop, Bool,
  true, false, ltb, leb, ◌==◌, ◌&&◌, if◌then◌else◌, Bool-cases, Result, ok, err, inl, inr, arith,
}
use extract.Walparser.Readers.{eof}
use extract.Files.{write_file_at}
use extract.Files.Laws.{length-write_file_at}
use extract.Increment.PageHeader.{database_page_size, IncrementError, read_error}
use extract.Increment.Reader.Contents.{page_at, InFile, length-page_at}
use extract.Increment.Local.{put_page, put_read, write_page, restore_rounds, restore_missing_pages}
use extract.Increment.Local.Pages.{
  is_missing, page_at-write_same, page_at-write_other, read_full-page, read_full-end,
  check_if_missing_page-InFile,
}

-- The page that a target has afterwards.
abbrev pub restored : List ℕ → List ℕ → ℕ → ℕ → List ℕ
restored base file pages b =
    if is_missing (page_at file b) && ltb b pages then page_at base b else page_at file b

module _ (base : List ℕ) (pages : ℕ) (whole : length base ≡ pages * database_page_size) where
  -- One round inside the base.
  write_page-inside :
      (file : List ℕ) (i : ℕ)
      → i < pages
      → InFile file i
      → write_page file i (drop (i * database_page_size) base) false
        ≡ put_page file i
            (page_at base i)
            (drop ((i + 1) * database_page_size) base)
            (ok (is_missing (page_at file i)))
  unfolding write_page
  write_page-inside file i l h =
      ap (put_read file i false) (read_full-page base i (omega (arith, whole, l)))
      ∙ ap (put_page file i (page_at base i) (drop ((i + 1) * database_page_size) base))
          (check_if_missing_page-InFile file i h)

  write_page-behind :
      (file : List ℕ) (i : ℕ)
      → pages ≤ i
      → write_page file i (drop (i * database_page_size) base) false
        ≡ (err (read_error eof), file, [])
  unfolding write_page
  write_page-behind file i l =
      ap (put_read file i false) (read_full-end base i (omega (arith, whole, l)))

  -- What the rounds from page `i` on make of a target of `n` pages.
  pub record Rounds (n i : ℕ) (file : List ℕ) (call : Result IncrementError (Unit {0}) × List ℕ)
      : Type 0 where
    pub fine : call.0 ≡ ok tt
    pub kept : length call.1 ≡ length file
    pub page :
        (b : ℕ)
        → b < n
        → page_at call.1 b ≡ (if ltb b i then page_at file b else restored base file pages b)

  ended : (n i : ℕ) (file : List ℕ) → n ≤ i → Rounds n i file (ok tt, file)
  ended n i file h = record {
    fine = refl;
    kept = refl;
    page =
        λ b l. ap (λ t. if t then page_at file b else restored base file pages b) (sym (below b l));
  }
    where
      below : (b : ℕ) → b < n → ltb b i ≡ true
      below b l = ground (arith, l, h)

  behind : (n i : ℕ) (file : List ℕ) → pages ≤ i → Rounds n i file (ok tt, file)
  behind n i file h = record { fine = refl; kept = refl; page = λ b l. same b }
    where
      same :
          (b : ℕ)
          → page_at file b ≡ (if ltb b i then page_at file b else restored base file pages b)
      same b = elim (Bool-cases (ltb b i)) [
        | inl e ↦ rw e refl
        | inr e ↦ rw (e, far b e) (both (is_missing (page_at file b)))
      ]
        where
          far : (b : ℕ) → ltb b i ≡ false → ltb b pages ≡ false
          far b e = ground (arith, e, h)

          both :
              (m : Bool) → page_at file b ≡ (if m && false then page_at base b else page_at file b)
          both m = ground arith

  -- A round that has changed page `i` alone, in front of the others.
  first_round :
      (n i : ℕ) (file changed : List ℕ) (call : Result IncrementError (Unit {0}) × List ℕ)
      → length changed ≡ length file
      → page_at changed i ≡ restored base file pages i
      → ((b : ℕ) → b < n → b ≢ i → page_at changed b ≡ page_at file b)
      → Rounds n (suc i) changed call
      → Rounds n i file call
  first_round n i file changed call l here there r = record {
    fine = r.fine;
    kept = r.kept ∙ l;
    page = λ b lt. r.page b lt ∙ agree b lt;
  }
    where
      agree :
          (b : ℕ)
          → b < n
          → (if ltb b (suc i) then page_at changed b else restored base changed pages b)
            ≡ (if ltb b i then page_at file b else restored base file pages b)
      agree b lt = elim (Bool-cases (b == i)) [
        | inl e ↦
            let same : b ≡ i = ground (arith, e) in
            let up : ltb b (suc i) ≡ true = ground (arith, e) in
            let down : ltb b i ≡ false = ground (arith, e) in
            rw (up, down)
              (ap (page_at changed) same ∙ here ∙ ap (restored base file pages) (sym same))
        | inr e ↦
            let other = there b lt (λ q. ground (arith, e, q)) in
            let up : ltb b (suc i) ≡ ltb b i = ground (arith, e) in rw (up, other) refl
      ]

  -- The round inside the base, whether the page is missing or not.
  inside_round :
      (k n i : ℕ) (file : List ℕ)
      → i < pages
      → i < n
      → length file ≡ n * database_page_size
      → ((changed : List ℕ)
          → length changed ≡ length file
          → Rounds n
              (suc i)
              changed
              (restore_rounds k (i + 1) (drop ((i + 1) * database_page_size) base) changed))
      → Rounds n i file (restore_rounds (suc k) i (drop (i * database_page_size) base) file)
  unfolding restore_rounds
  inside_round k n i file lp ln l more =
      let in_base : InFile base i = omega (arith, whole, lp) in
      let in_file : InFile file i = omega (arith, l, ln) in
      let rest = drop ((i + 1) * database_page_size) base in
      let page = page_at base i in
      let size = length-page_at base i in_base in
      let changed = write_file_at file (i * database_page_size) page in
      let kept : length changed ≡ length file =
        length-write_file_at file (i * database_page_size) page (omega (arith, size, in_file)) in
      let inside : ltb i pages ≡ true = ground (arith, lp) in
      rw (write_page-inside file i lp in_file) (elim (Bool-cases (is_missing (page_at file i))) [
        | inl e ↦ rw e (
            first_round n i file changed (restore_rounds k (i + 1) rest changed) kept
              (page_at-write_same file i page size (omega (arith, kept, in_file))
                ∙ rw (e, inside) refl)
              (λ b lt q.
                page_at-write_other file i b page size q (omega (arith, l, lt))
                  (omega (arith, kept, l, lt)))
              (more changed kept))
        | inr e ↦ rw e (
            first_round n i file file (restore_rounds k (i + 1) rest file) refl (rw e refl)
              (λ b lt q. refl) (more file refl))
      ])

  pub restore_rounds-Rounds :
      (k n i : ℕ) (file : List ℕ)
      → i + k ≡ n
      → length file ≡ n * database_page_size
      → Rounds n i file (restore_rounds k i (drop (i * database_page_size) base) file)
  unfolding restore_rounds
  restore_rounds-Rounds zero n i file e l = ended n i file (omega (arith, e))
  restore_rounds-Rounds (suc k) n i file e l = elim (Bool-cases (ltb i pages)) [
    | inr f ↦
        rw (write_page-behind file i (ground (arith, f))) (behind n i file (ground (arith, f)))
    | inl f ↦
        let next : suc i ≡ i + 1 = omega arith in
        inside_round k n i file (ground (arith, f)) (omega (arith, e)) l (λ changed kept.
          ap_round next (restore_rounds-Rounds k n (suc i) changed (omega (arith, e)) (kept ∙ l)))
  ]
    where
      ap_round :
          {j : ℕ} {changed : List ℕ}
          → suc i ≡ j
          → Rounds n
              (suc i)
              changed
              (restore_rounds k (suc i) (drop (suc i * database_page_size) base) changed)
          → Rounds n
              (suc i)
              changed
              (restore_rounds k j (drop (j * database_page_size) base) changed)
      ap_round {j} {changed} q r =
          subst
            (λ t.
              Rounds n (suc i) changed
                (restore_rounds k t (drop (t * database_page_size) base) changed))
            q r

-- What RestoreMissingPages makes of a target.
pub record IsRestored (base file : List ℕ) (call : Result IncrementError (Unit {0}) × List ℕ)
    : Type 0 where
  pub fine : call.0 ≡ ok tt
  pub kept : length call.1 ≡ length file
  pub page :
      (b : ℕ)
      → (b + 1) * database_page_size ≤ length file
      → page_at call.1 b ≡ (
          if is_missing (page_at file b) && leb ((b + 1) * database_page_size) (length base)
          then page_at base b
          else page_at file b)

-- RestoreMissingPages on a target and a base of whole pages succeeds, keeps the target's length, puts the
-- base's page where the target's header is empty and the base has that page, and keeps every other page.
pub restore_missing_pages-IsRestored :
    (base file : List ℕ) (pages n : ℕ)
    → length base ≡ pages * database_page_size
    → length file ≡ n * database_page_size
    → IsRestored base file (restore_missing_pages base file (length file))
unfolding restore_missing_pages
restore_missing_pages-IsRestored base file pages n whole l =
    let count : length file / database_page_size ≡ n = omega (arith, l) in
    let r = restore_rounds-Rounds base pages whole n n 0 file (omega arith) l in
    rw count record {
      fine = r.fine;
      kept = r.kept;
      page = λ b h.
          r.page b (omega (arith, l, h))
          ∙ ap (λ t. if t then page_at file b else restored base file pages b) (first b)
          ∙ ap (λ t. if is_missing (page_at file b) && t then page_at base b else page_at file b)
              (size b);
    }
  where
    first : (b : ℕ) → ltb b 0 ≡ false
    first b = ground arith

    size : (b : ℕ) → ltb b pages ≡ leb ((b + 1) * database_page_size) (length base)
    size b = ground (arith, whole)

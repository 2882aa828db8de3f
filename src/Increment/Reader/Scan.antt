-- ===== src/Increment/Reader/Scan.antt =====
-- incremental_page_reader.go: which blocks the scan of a whole file lists.
use mathlib.Core.Path.{subst}
use extract.Common.{
  ℕ, zero, suc, ◌+◌, ◌-◌, ◌*◌, ◌/◌, ◌%◌, ◌^◌, ◌≤◌, ◌<◌, ◌≡◌, refl, sym, ap, ◌∙◌, List, [], ◌∷◌,
  ◌++◌, length, take, drop, length-drop, take_all, append_assoc, append-nil, keep, all, Bool, true,
  false, ◌||◌, ◌==◌, if◌then◌else◌, Bool-cases, Result, ok, err, ◌⊎◌, inl, inr, arith,
}
use extract.Walparser.Readers.{ParseError, eof, unexpected_eof, bytes_reader}
use extract.Increment.PageHeader.{
  database_page_size, IncrementError, invalid_block, PageHeader, is_valid, is_new,
  parse_postgres_page_header,
}
use extract.Increment.PageHeader.Whole.{header_ok}
use extract.Increment.Reader.{
  IncrementalPageReader, full_page, read_page_at, read_page, is_selected, select_by_header,
  select_new_valid_page, after_page, scan_rounds, full_scan_initialize,
}
use extract.Increment.Reader.Contents.{page_at, InFile, length-page_at, full_page-whole}

abbrev judged : (PageHeader → Bool) → Result ParseError PageHeader → Bool
judged test (ok h) = test h
judged test (err e) = false

-- Whether a page can be archived, and whether it has to be in an increment since a position.
unfoldable pub is_sound : List ℕ → Bool
is_sound page = judged (λ h. is_valid h || is_new h) (parse_postgres_page_header page).0

unfoldable pub has_changed : ℕ → List ℕ → Bool
has_changed start page = judged (is_selected start) (parse_postgres_page_header page).0

-- `k` blocks from block `b` on.
unfoldable pub block_range : ℕ → ℕ → List ℕ
block_range b zero = []
block_range b (suc k) = b ∷ block_range (suc b) k

-- What the scan of the `k` pages from block `b` on makes of the reader `r`.
unfoldable pub Scanned :
    ℕ → ℕ → IncrementalPageReader → Result IncrementError IncrementalPageReader → Type 0
unfolding is_sound has_changed block_range
Scanned b k r (ok s) =
    (all (λ i. is_sound (page_at r.paged_file i)) (block_range b k) ≡ true)
    × (s.blocks
        ≡ r.blocks
          ++ keep (λ i. has_changed r.start_lsn (page_at r.paged_file i)) (block_range b k))
    × (s.paged_file ≡ r.paged_file)
    × (s.file_size ≡ r.file_size)
Scanned b k r (err e) =
    (i : ℕ) × (b ≤ i)
    × (i < b + k)
    × (e ≡ invalid_block i)
    × (is_sound (page_at r.paged_file i) ≡ false)
    × (all (λ j. is_sound (page_at r.paged_file j)) (block_range b (i - b)) ≡ true)

-- A page in the file is read whole.
read_page-whole :
    (r : IncrementalPageReader) (b : ℕ)
    → r.position ≡ b * database_page_size
    → InFile r.paged_file b
    → read_page r
      ≡ (ok (page_at r.paged_file b), record r { position = (b + 1) * database_page_size })
unfolding read_page page_at
read_page-whole r b p h =
    let page = page_at r.paged_file b in
    let l = length-page_at r.paged_file b h in
    let next : b * database_page_size + database_page_size ≡ (b + 1) * database_page_size =
      omega arith in
    ap (λ q. read_page_at q r) p
    ∙ ap (λ t. (t, record r { position = b * database_page_size + length page }))
        (full_page-whole page l)
    ∙ ap (λ n. (ok page, record r { position = b * database_page_size + n })) l
    ∙ ap (λ n. (ok page, record r { position = n })) next

full_page-short :
    (page : List ℕ) → length page < database_page_size → (e : ParseError) × (full_page page ≡ err e)
full_page-short page l =
    let short : (length page == database_page_size) ≡ false = ground (arith, l) in
    let step =
      ap (λ t. if t then ok page else if length page == 0 then err eof else err unexpected_eof)
        short in
    elim (Bool-cases (length page == 0)) [
      | inl z ↦ (eof, step ∙ ap (λ t. if t then err eof else err unexpected_eof) z)
      | inr z ↦ (unexpected_eof, step ∙ ap (λ t. if t then err eof else err unexpected_eof) z)
    ]

length-take_less : (n : ℕ) (xs : List ℕ) → length xs < n → length (take n xs) < n
length-take_less n xs h = omega (arith, h, ap length (take_all n xs (omega (arith, h))))

-- A sound page in front of those that the rest of the scan has seen.
sound_first :
    (b k position : ℕ) (bs : List ℕ) (r : IncrementalPageReader)
    (result : Result IncrementError IncrementalPageReader)
    → is_sound (page_at r.paged_file b) ≡ true
    → bs
      ≡ (if has_changed r.start_lsn (page_at r.paged_file b) then r.blocks ++ b ∷ [] else r.blocks)
    → Scanned (suc b) k (record r { position = position; blocks = bs }) result
    → Scanned b (suc k) r result
unfolding Scanned block_range
sound_first b k position bs r (ok s) v e (a, l, f, g) = (
  ground (arith, v, a),
  l ∙ blocks (Bool-cases (has_changed r.start_lsn (page_at r.paged_file b))),
  f,
  g,
)
  where
    kept : List ℕ
    kept = keep (λ i. has_changed r.start_lsn (page_at r.paged_file i)) (block_range (suc b) k)

    blocks :
        (has_changed r.start_lsn (page_at r.paged_file b) ≡ true)
          ⊎ (has_changed r.start_lsn (page_at r.paged_file b) ≡ false)
        → bs ++ kept
          ≡ r.blocks
            ++ (if has_changed r.start_lsn (page_at r.paged_file b) then b ∷ kept else kept)
    blocks (inl c) = rw (e, c) (append_assoc r.blocks (b ∷ []) kept)
    blocks (inr c) = rw (e, c) refl
sound_first b k position bs r (err x) v e (i, l, m, is, bad, a) =
    let n : i - b ≡ suc (i - suc b) = omega (arith, l) in
    (
      i,
      omega (arith, l),
      omega (arith, m),
      is,
      bad,
      ap (λ j. all (λ t. is_sound (page_at r.paged_file t)) (block_range b j)) n
          ∙ ground (arith, v, a),
    )

-- A round at a page of the file.
round :
    (fuel b : ℕ) (r : IncrementalPageReader) (h : PageHeader)
    → r.position ≡ b * database_page_size
    → InFile r.paged_file b
    → (parse_postgres_page_header (page_at r.paged_file b)).0 ≡ ok h
    → scan_rounds (suc fuel) b r
      ≡ elim (select_by_header b (record r { position = (b + 1) * database_page_size }) (ok h)) [
        | err e ↦ err e
        | ok (true, s) ↦ scan_rounds fuel ((b + 1) % 2 ^ 32) s
        | ok (false, s) ↦ err (invalid_block b)
      ]
unfolding scan_rounds select_new_valid_page
round fuel b r h p i e =
    ap (after_page b (scan_rounds fuel ((b + 1) % 2 ^ 32))) (read_page-whole r b p i)
    ∙ ap
        (λ v. elim (select_by_header b (record r { position = (b + 1) * database_page_size }) v) [
          | err x ↦ err x
          | ok (true, s) ↦ scan_rounds fuel ((b + 1) % 2 ^ 32) s
          | ok (false, s) ↦ err (invalid_block b)
        ])
        e

-- Less than a page is left: the scan ends.
last_round :
    (fuel b : ℕ) (r : IncrementalPageReader)
    → length r.paged_file < r.position + database_page_size
    → (position : ℕ) × (scan_rounds (suc fuel) b r ≡ ok (record r { position = position }))
unfolding scan_rounds read_page
last_round fuel b r h =
    let page = take database_page_size (drop r.position r.paged_file) in
    let short : length (drop r.position r.paged_file) < database_page_size =
      omega (arith, h, length-drop r.position r.paged_file) in
    let (e, f) =
      full_page-short page
        (length-take_less database_page_size (drop r.position r.paged_file) short) in
    (
      r.position + length page,
      ap
          (λ v.
            after_page b (scan_rounds fuel ((b + 1) % 2 ^ 32))
              (v, record r { position = r.position + length page }))
          f,
    )

-- The three ends of a round at a page.
bad_page :
    (b k : ℕ) (r : IncrementalPageReader)
    → is_sound (page_at r.paged_file b) ≡ false
    → Scanned b (suc k) r (err (invalid_block b))
unfolding Scanned block_range
bad_page b k r f =
    let none : b - b ≡ 0 = omega arith in
    (
      b,
      omega arith,
      omega arith,
      refl,
      f,
      ap (λ j. all (λ t. is_sound (page_at r.paged_file t)) (block_range b j)) none,
    )

judged_by :
    (test : PageHeader → Bool) (page : List ℕ) (h : PageHeader)
    → (parse_postgres_page_header page).0 ≡ ok h
    → judged test (parse_postgres_page_header page).0 ≡ test h
judged_by test page h e = ap (judged test) e

page_round :
    (fuel b k : ℕ) (r : IncrementalPageReader) (h : PageHeader)
    → r.position ≡ b * database_page_size
    → InFile r.paged_file b
    → (parse_postgres_page_header (page_at r.paged_file b)).0 ≡ ok h
    → ((bs : List ℕ)
        → Scanned
            (suc b)
            k
            (record r { position = (b + 1) * database_page_size; blocks = bs })
            (scan_rounds fuel
              ((b + 1) % 2 ^ 32)
              (record r { position = (b + 1) * database_page_size; blocks = bs })))
    → Scanned b (suc k) r (scan_rounds (suc fuel) b r)
unfolding is_sound has_changed
page_round fuel b k r h p i e more =
    let page = page_at r.paged_file b in
    let sound = judged_by (λ g. is_valid g || is_new g) page h e in
    let changed = judged_by (is_selected r.start_lsn) page h e in
    let place = (b + 1) * database_page_size in
    rw (round fuel b r h p i e) (elim (Bool-cases (is_valid h || is_new h)) [
      | inr c ↦ rw c (bad_page b k r (sound ∙ c))
      | inl c ↦ elim (Bool-cases (is_selected r.start_lsn h)) [
        | inl d ↦
            rw (c, d)
              (sound_first b k place (r.blocks ++ b ∷ []) r _ (sound ∙ c)
                (ap (λ t. if t then r.blocks ++ b ∷ [] else r.blocks) (sym (changed ∙ d)))
                (more (r.blocks ++ b ∷ [])))
        | inr d ↦
            rw (c, d)
              (sound_first b k place r.blocks r _ (sound ∙ c)
                (ap (λ t. if t then r.blocks ++ b ∷ [] else r.blocks) (sym (changed ∙ d)))
                (more r.blocks))
      ]
    ])

end_Scanned :
    (b position : ℕ) (r : IncrementalPageReader)
    → Scanned b 0 r (ok (record r { position = position }))
unfolding Scanned block_range
end_Scanned b position r = (refl, sym (append-nil r.blocks), refl, refl)

scan_rounds-Scanned :
    (fuel b k : ℕ) (r : IncrementalPageReader)
    → r.position ≡ b * database_page_size
    → b + k ≡ length r.paged_file / database_page_size
    → b + k < 2 ^ 32
    → k < fuel
    → Scanned b k r (scan_rounds fuel b r)
scan_rounds-Scanned zero b k r p n u l = elim l [ ]
scan_rounds-Scanned (suc fuel) b zero r p n u l =
    let (position, e) = last_round fuel b r (omega (arith, p, n)) in rw e (end_Scanned b position r)
scan_rounds-Scanned (suc fuel) b (suc k) r p n u l =
    let held : InFile r.paged_file b = omega (arith, n) in
    let whole = length-page_at r.paged_file b held in
    let (h, e) = header_ok (page_at r.paged_file b) (omega (arith, whole)) in
    let next : suc b ≡ (b + 1) % 2 ^ 32 = omega (arith, u) in
    let place : (b + 1) * database_page_size ≡ suc b * database_page_size = omega arith in
    page_round fuel b k r h p held e (λ bs.
      let s = record r { position = (b + 1) * database_page_size; blocks = bs } in
      subst (λ c. Scanned (suc b) k s (scan_rounds fuel c s)) next
        (scan_rounds-Scanned fuel (suc b) k s place (omega (arith, n)) (omega (arith, u))
          (omega (arith, l))))

-- The scan of a file of less than 2 ^ 32 pages comes to an end. Either every page is valid or new, and
-- it lists exactly the blocks whose page is new or has changed since the start; or it fails at the
-- first page that is neither. A rest that is no whole page is passed over.
pub full_scan_initialize-Scanned :
    (r : IncrementalPageReader)
    → r.position ≡ 0
    → length r.paged_file / database_page_size < 2 ^ 32
    → Scanned 0 (length r.paged_file / database_page_size) r (full_scan_initialize r)
unfolding full_scan_initialize
full_scan_initialize-Scanned r p u =
    let n = length r.paged_file / database_page_size in
    scan_rounds-Scanned (suc (length r.paged_file)) 0 n r (omega (arith, p)) (omega arith)
      (omega (arith, u)) (omega arith)

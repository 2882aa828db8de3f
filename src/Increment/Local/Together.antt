-- ===== src/Increment/Local/Together.antt =====
-- pagefile_new.go: CreateFileFromIncrement on the newest increment and RestoreMissingPages from an older
-- backup put a file together.
use mathlib.Core.Path.{subst}
use extract.Common.{
  ℕ, suc, ◌+◌, ◌-◌, ◌*◌, ◌/◌, ◌%◌, ◌^◌, ◌≤◌, ◌<◌, ◌≡◌, refl, ap, ◌∙◌, List, [], ◌∷◌, ◌++◌, length,
  get_elem?, All, any, true, false, leb, ◌==◌, ◌&&◌, if◌then◌else◌, Bool-cases, Option, none, some,
  Result, ok, inl, inr, arith,
}
use extract.Walparser.Readers.{to_bytes}
use extract.Increment.PageHeader.{database_page_size, IncrementError}
use extract.Increment.Reader.{increment_file_header, block_numbers, write_diff_map_to_header}
use extract.Increment.Reader.Contents.{page_at, pages_of, InFile}
use extract.Increment.Format.Head.{get_increment_header_fields-write}
use extract.Increment.Apply.Pages.{From, From-next, first_block}
use extract.Increment.Local.{
  delta_block_numbers, empty_page, create_file_from_increment, restore_missing_pages,
}
use extract.Increment.Local.Pages.{is_missing, pages_ext}
use extract.Increment.Local.Created.{Ascending, created, IsAhead, Rounds, create_rounds-Rounds}
use extract.Increment.Local.Restored.{restore_missing_pages-IsRestored}

-- The increment of the listed blocks of a file.
abbrev pub increment_of : List ℕ → List ℕ → List ℕ
increment_of new blocks =
    write_diff_map_to_header blocks (increment_file_header ++ to_bytes 8 (length new))
    ++ pages_of new blocks

all-IsAhead : (blocks : List ℕ) → Ascending blocks → IsAhead blocks 0 blocks
all-IsAhead blocks h = record { from = above blocks; grow = h; same = λ x l. refl }
  where
    above : (bs : List ℕ) → All (λ c. 0 ≤ c) bs
    above [] = tt
    above (b ∷ bs) = (omega arith, above bs)

abbrev with_first : ℕ → Option (List ℕ) → Option (List ℕ)
with_first b rest = elim rest [ none ↦ none | some bs ↦ some (b ∷ bs) ]

module _ (new blocks : List ℕ) (few : length blocks * 4 < 2 ^ 32) where
  delta_block_numbers-From :
      (i : ℕ) (left : List ℕ)
      → i + length left ≡ length blocks
      → From blocks i left
      → All (λ b. b < 2 ^ 32) left
      → delta_block_numbers (length left) i (block_numbers blocks) ≡ some left
  unfolding delta_block_numbers
  delta_block_numbers-From i [] e h u = refl
  delta_block_numbers-From i (b ∷ left) e h (u, us) =
      let low : suc i ≡ (i + 1) % 2 ^ 32 = omega (arith, e, few) in
      let rest =
        delta_block_numbers-From (suc i) left (omega (arith, e)) (From-next blocks i b left h) us in
      let rest' : delta_block_numbers (length left) ((i + 1) % 2 ^ 32) (block_numbers blocks)
          ≡ some left =
        subst (λ j. delta_block_numbers (length left) j (block_numbers blocks) ≡ some left) low
          rest in
      ap
        (λ d. elim d [
          | none ↦ none
          | some c ↦
              with_first c
                (delta_block_numbers (length left) ((i + 1) % 2 ^ 32) (block_numbers blocks))
        ])
        (first_block new blocks few i b left h u)
      ∙ ap (with_first b) rest'

  -- CreateFileFromIncrement on an increment of whole pages.
  create_file-Rounds :
      (n : ℕ) (whole : length new ≡ n * database_page_size)
      → n < 2 ^ 32
      → Ascending blocks
      → All (InFile new) blocks
      → All (λ b. b < 2 ^ 32) blocks
      → Rounds new blocks n whole 0 n [] blocks
          (create_file_from_increment (increment_of new blocks) [])
  unfolding create_file_from_increment
  create_file-Rounds n whole u grow held small =
      let pages : length new / database_page_size ≡ n = omega (arith, whole) in
      let numbers =
        delta_block_numbers-From 0 blocks (omega arith) (λ j. ap (get_elem? blocks) (omega arith))
          small in
      let fields =
        get_increment_header_fields-write (length new) blocks (pages_of new blocks)
          (omega (arith, whole, u)) few in
      let rounds =
        create_rounds-Rounds new blocks n whole n 0 n [] blocks (omega arith) (omega arith)
          (all-IsAhead blocks grow) held in
      rw (fields, numbers, pages) rounds

empty_page-is_missing : is_missing empty_page ≡ true
unfolding is_missing empty_page
empty_page-is_missing = refl

-- An older file has each page that is not listed, and a listed page whose header is empty is the same
-- there, if it is there.
pub record IsOlder (old new blocks : List ℕ) : Type 0 where
  pub unlisted :
      (b : ℕ)
      → InFile new b
      → any (λ c. c == b) blocks ≡ false
      → InFile old b × (page_at old b ≡ page_at new b)
  pub listed :
      (b : ℕ)
      → InFile new b
      → any (λ c. c == b) blocks ≡ true
      → (is_missing (page_at new b) && leb ((b + 1) * database_page_size) (length old)) ≡ true
      → page_at old b ≡ page_at new b

-- The page of the older file in the place of an empty one.
page_of_both :
    (old new blocks : List ℕ) (b : ℕ)
    → IsOlder old new blocks
    → InFile new b
    → (if is_missing (created new blocks b) && leb ((b + 1) * database_page_size) (length old)
        then page_at old b
        else created new blocks b)
      ≡ page_at new b
page_of_both old new blocks b v h = elim (Bool-cases (any (λ c. c == b) blocks)) [
  | inr e ↦
      let (held, same) = v.unlisted b h e in
      let there : leb ((b + 1) * database_page_size) (length old) ≡ true = ground (arith, held) in
      rw (e, empty_page-is_missing, there) same
  | inl e ↦
      rw e
        (elim (Bool-cases
          (is_missing (page_at new b) && leb ((b + 1) * database_page_size) (length old))) [
            | inl f ↦ rw f (v.listed b h e f)
            | inr f ↦ rw f refl
          ])
]

-- CreateFileFromIncrement makes a new file of an increment and counts the pages that are not listed in
-- it; RestoreMissingPages from an older file then makes the file that the increment was taken of. Both
-- files have whole pages, the new one fewer than 2 ^ 32; its listed blocks grow, are in it, and are
-- fewer than 2 ^ 30. The older file is one as IsOlder says.
pub restore_missing_pages-create :
    (old new blocks : List ℕ) (m n : ℕ)
    → length old ≡ m * database_page_size
    → length new ≡ n * database_page_size
    → n < 2 ^ 32
    → Ascending blocks
    → All (InFile new) blocks
    → All (λ b. b < 2 ^ 32) blocks
    → length blocks * 4 < 2 ^ 32
    → IsOlder old new blocks
    → ((create_file_from_increment (increment_of new blocks) []).0 ≡ ok (n - length blocks))
      × (restore_missing_pages old
            (create_file_from_increment (increment_of new blocks) []).1
            (length (create_file_from_increment (increment_of new blocks) []).1)
          ≡ (ok tt, new))
restore_missing_pages-create old new blocks m n whole_old whole u grow held small few v =
    let made = create_file_from_increment (increment_of new blocks) [] in
    let c = create_file-Rounds new blocks few n whole u grow held small in
    let r = restore_missing_pages-IsRestored old made.1 m n whole_old c.sized in
    let done = restore_missing_pages old made.1 (length made.1) in
    (
      c.fine,
      pair_ext done r.fine (
          pages_ext done.1 new n (r.kept ∙ c.sized) whole (λ b lt.
            r.page b (omega (arith, lt, c.sized))
            ∙ ap
                (λ p.
                  if is_missing p && leb ((b + 1) * database_page_size) (length old)
                  then page_at old b
                  else p)
                (c.page b (omega arith) lt)
            ∙ page_of_both old new blocks b v (omega (arith, lt, whole)))),
    )
  where
    pair_ext :
        (p : Result IncrementError (Unit {0}) × List ℕ) {a : Result IncrementError (Unit {0})}
        {f : List ℕ}
        → p.0 ≡ a
        → p.1 ≡ f
        → p ≡ (a, f)
    pair_ext (x, y) {a} d e = ap (λ t. (t, y)) d ∙ ap (λ t. (a, t)) e

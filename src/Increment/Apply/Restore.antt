-- ===== src/Increment/Apply/Restore.antt =====
-- An increment that the page reader gives of a file changes an older copy of it into the file.
use mathlib.Core.Path.{subst}
use extract.Common.{
  ℕ, ◌+◌, ◌*◌, ◌/◌, ◌%◌, ◌^◌, ◌<◌, ◌≡◌, sym, ap, ◌∙◌, List, [], ◌∷◌, ◌++◌, length, take_all,
  append-nil, get_elem?, All, any, Bool, true, ◌==◌, ltb, leb, if◌then◌else◌, Option, none, some,
  Result, ok, ◌⊎◌, inl, inr, arith,
}
use extract.Walparser.Readers.{eof}
use extract.Files.{truncate}
use extract.Files.Laws.{byte_at, file_ext, length-truncate, byte_at-truncate}
use extract.Increment.PageHeader.{database_page_size, IncrementError}
use extract.Increment.Reader.{
  IncrementalPageReader, open_paged_file, initialize, read, block_numbers,
}
use extract.Increment.Reader.Contents.{contents, pages_of, page_at, InFile, read-Gives}
use extract.Increment.Reader.Initialize.{
  IsBlock, IsBitmap, IsInitialized, initialize-IsInitialized, IsInitialized-contents,
}
use extract.Increment.Format.{get_increment_header_fields}
use extract.Increment.Format.Head.{get_increment_header_fields-write}
use extract.Increment.Apply.{apply_pages, after_fields, expect_end, apply_file_increment}
use extract.Increment.Apply.Pages.{
  write_all, apply_pages-pages_of, byte_at-page_at, length-write_all, byte_at-write_all,
}

-- The old copy has each page of the file that is not listed.
abbrev pub Unlisted-same : List ℕ → List ℕ → List ℕ → Type 0
Unlisted-same old new blocks =
    (b : ℕ) → InFile new b → (any (λ c. c == b) blocks ≡ true) ⊎ (page_at old b ≡ page_at new b)

-- The listed pages make the file out of its old copy, cut or filled up to its length.
write_all-truncate :
    (old new blocks : List ℕ)
    → length new % database_page_size ≡ 0
    → All (InFile new) blocks
    → Unlisted-same old new blocks
    → write_all new blocks (truncate (length new) old) ≡ new
write_all-truncate old new blocks whole h same =
    let start = truncate (length new) old in
    let l = length-write_all new blocks start (length-truncate (length new) old) h in
    file_ext (write_all new blocks start) new l
      (λ i lt. byte_at-write_all new blocks start i h (agree i (omega (arith, lt, l))))
  where
    agree :
        (i : ℕ)
        → i < length new
        → (byte_at (truncate (length new) old) i ≡ byte_at new i)
          ⊎ (any (λ b. b == i / database_page_size) blocks ≡ true)
    agree i lt =
        let b = i / database_page_size in
        let j = i % database_page_size in
        let place : b * database_page_size + j ≡ i = omega arith in
        let within : ltb i (length new) ≡ true = ground (arith, lt) in
        elim (same b (omega (arith, lt, whole))) [
          | inl e ↦ inr e
          | inr e ↦ inl (
              byte_at-truncate (length new) old i
              ∙ ap (λ t. if t then byte_at old i else 0) within
              ∙ ap (byte_at old) (sym place)
              ∙ sym (byte_at-page_at old b j (omega arith))
              ∙ ap (λ p. byte_at p j) e
              ∙ byte_at-page_at new b j (omega arith)
              ∙ ap (byte_at new) place)
        ]

listed_blocks :
    (file blocks : List ℕ)
    → All (IsBlock file) blocks
    → All (InFile file) blocks × All (λ b. b < 2 ^ 32) blocks
listed_blocks file [] h = (tt, tt)
listed_blocks file (b ∷ blocks) ((i, u), h) =
    let (is, us) = listed_blocks file blocks h in ((i, is), (u, us))

-- What the reader gives, applied to a file.
apply-contents :
    (old new : List ℕ) (create : Bool) (size : ℕ) (r : IncrementalPageReader)
    → length new < 2 ^ 63
    → IsInitialized new size r
    → length r.blocks * 4 < 2 ^ 32
    → apply_file_increment (some old) (contents r) create
      ≡ (ok tt, some (write_all new r.blocks (truncate (length new) old)))
unfolding apply_file_increment contents
apply-contents old new create size r u v few =
    let (held, small) = listed_blocks new r.blocks v.listed in
    let pages = pages_of new r.blocks in
    let file = truncate (length new) old in
    let fits : ltb (length new) (2 ^ 63) ≡ true = ground (arith, u) in
    let done = expect_end (apply_pages (length r.blocks) 0 (block_numbers r.blocks) pages file) in
    let outcome : Result IncrementError (Unit {0}) × Option (List ℕ) = (done.0, some done.1) in
    let loop =
      apply_pages-pages_of new r.blocks few 0 r.blocks [] file (omega arith)
        (λ j. ap (get_elem? r.blocks) (omega arith)) small held in
    ap
      (λ f.
        after_fields (some old) create
          (get_increment_header_fields (r.next ++ pages_of f r.blocks)))
      v.paged
    ∙ ap (λ h. after_fields (some old) create (get_increment_header_fields (h ++ pages))) v.head
    ∙ ap (after_fields (some old) create)
        (get_increment_header_fields-write (length new) r.blocks pages (omega (arith, u)) few)
    ∙ rw fits (λ i. outcome)
    ∙ ap
        (λ s. (
          (expect_end (apply_pages (length r.blocks) 0 (block_numbers r.blocks) s file)).0,
          some (expect_end (apply_pages (length r.blocks) 0 (block_numbers r.blocks) s file)).1,
        ))
        (sym (append-nil pages))
    ∙ ap (λ p. ((expect_end p).0, some (expect_end p).1)) loop

-- One Read with a buffer of the increment's size gives the whole increment without an error, and
-- ApplyFileIncrement makes of it and an older copy the file that the increment was taken of. The file
-- has whole pages, fewer than 2 ^ 32; fewer than 2 ^ 30 blocks are listed, the bitmap has no block
-- 2 ^ 32 - 1, and the old copy has each page that is not listed.
pub apply_file_increment-read :
    (old new : List ℕ) (start size : ℕ) (bitmap : Option (List ℕ)) (create : Bool)
    (r : IncrementalPageReader)
    → length new % database_page_size ≡ 0
    → length new / database_page_size < 2 ^ 32
    → IsBitmap bitmap
    → initialize bitmap (open_paged_file new (length new) start) ≡ ok (size, r)
    → length r.blocks < 2 ^ 30
    → Unlisted-same old new r.blocks
    → ((read size r).1 ≡ none)
      × (apply_file_increment (some old) (read size r).0 create ≡ (ok tt, some new))
apply_file_increment-read old new start size bitmap create r whole u h e few same =
    let v = initialize-IsInitialized bitmap new start size r h u e in
    let (held, small) = listed_blocks new r.blocks v.listed in
    let held' : All (InFile r.paged_file) r.blocks =
      subst (λ f. All (InFile f) r.blocks) (sym v.paged) held in
    let total = IsInitialized-contents new size r v held' in
    let g = read-Gives size r held' in
    let enough : leb size (length (contents r)) ≡ true = ground (arith, total) in
    (
      g.error ∙ ap (λ t. if t then none else some eof) enough,
      ap (λ s. apply_file_increment (some old) s create)
            (g.bytes ∙ take_all size (contents r) (omega (arith, total)))
          ∙ apply-contents old new create size r (omega (arith, u)) v (omega (arith, few))
          ∙ ap (λ f. (ok tt, some f)) (write_all-truncate old new r.blocks whole held same),
    )

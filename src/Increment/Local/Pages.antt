-- ===== src/Increment/Local/Pages.antt =====
-- Files of whole pages: a file is told by its pages, and a write changes one of them.
use extract.Common.{
  ℕ, ◌+◌, ◌-◌, ◌*◌, ◌/◌, ◌%◌, ◌≤◌, ◌<◌, ◌≡◌, ◌≢◌, sym, ap, ◌∙◌, List, [], length, take, drop,
  length-take, length-drop, take-drop, take-take, drop-drop, drop_all, Bool, true, false, ltb, leb,
  ◌&&◌, if◌then◌else◌, none, some, ok, err, arith,
}
use extract.Walparser.Readers.{eof, read_full, bytes_reader, all_zero}
use extract.Walparser.Readers.Laws.{read_full-append}
use extract.Files.{write_file_at, read_file_at}
use extract.Files.Laws.{byte_at, file_ext, byte_at-write_file_at}
use extract.Increment.PageHeader.{database_page_size, header_size, read_error}
use extract.Increment.Reader.Contents.{page_at, InFile, length-page_at}
use extract.Increment.Apply.Pages.{byte_at-page_at}
use extract.Increment.Local.{check_if_missing_page}

page_ext :
    (p q : List ℕ)
    → length p ≡ database_page_size
    → length q ≡ database_page_size
    → ((j : ℕ) → j < database_page_size → byte_at p j ≡ byte_at q j)
    → p ≡ q
page_ext p q l m h = file_ext p q (l ∙ sym m) (λ j lt. h j (omega (arith, lt, l)))

pub page_at-write_same :
    (file : List ℕ) (i : ℕ) (page : List ℕ)
    → length page ≡ database_page_size
    → InFile (write_file_at file (i * database_page_size) page) i
    → page_at (write_file_at file (i * database_page_size) page) i ≡ page
page_at-write_same file i page l h =
    let written = write_file_at file (i * database_page_size) page in
    page_ext (page_at written i) page (length-page_at written i h) l (λ j lt.
      byte_at-page_at written i j lt
      ∙ byte_at-write_file_at file (i * database_page_size) page (i * database_page_size + j)
      ∙ own (byte_at file (i * database_page_size + j)) j lt)
  where
    own :
        (other j : ℕ)
        → j < database_page_size
        → (if leb (i * database_page_size) (i * database_page_size + j)
              && ltb (i * database_page_size + j) (i * database_page_size + length page)
            then byte_at page (i * database_page_size + j - i * database_page_size)
            else other)
          ≡ byte_at page j
    own other j lt =
        let inside : (leb (i * database_page_size) (i * database_page_size + j)
              && ltb (i * database_page_size + j) (i * database_page_size + length page))
            ≡ true =
          ground (arith, lt, l) in
        let place : i * database_page_size + j - i * database_page_size ≡ j = omega arith in
        ap
          (λ t.
            if t then byte_at page (i * database_page_size + j - i * database_page_size) else other)
          inside
        ∙ ap (byte_at page) place

pub page_at-write_other :
    (file : List ℕ) (i b : ℕ) (page : List ℕ)
    → length page ≡ database_page_size
    → b ≢ i
    → InFile file b
    → InFile (write_file_at file (i * database_page_size) page) b
    → page_at (write_file_at file (i * database_page_size) page) b ≡ page_at file b
page_at-write_other file i b page l n g h =
    let written = write_file_at file (i * database_page_size) page in
    page_ext (page_at written b) (page_at file b) (length-page_at written b h)
      (length-page_at file b g)
      (λ j lt.
        byte_at-page_at written b j lt
        ∙ byte_at-write_file_at file (i * database_page_size) page (b * database_page_size + j)
        ∙ outside (byte_at page (b * database_page_size + j - i * database_page_size)) j lt
        ∙ sym (byte_at-page_at file b j lt))
  where
    outside :
        (own j : ℕ)
        → j < database_page_size
        → (if leb (i * database_page_size) (b * database_page_size + j)
              && ltb (b * database_page_size + j) (i * database_page_size + length page)
            then own
            else byte_at file (b * database_page_size + j))
          ≡ byte_at file (b * database_page_size + j)
    outside own j lt = ground (arith, lt, l, n)

pub pages_ext :
    (f g : List ℕ) (n : ℕ)
    → length f ≡ n * database_page_size
    → length g ≡ n * database_page_size
    → ((b : ℕ) → b < n → page_at f b ≡ page_at g b)
    → f ≡ g
pages_ext f g n l m h = file_ext f g (l ∙ sym m) (λ i lt.
    let b = i / database_page_size in
    let j = i % database_page_size in
    let place : b * database_page_size + j ≡ i = omega arith in
    ap (byte_at f) (sym place)
    ∙ sym (byte_at-page_at f b j (omega arith))
    ∙ ap (λ p. byte_at p j) (h b (omega (arith, lt, l)))
    ∙ byte_at-page_at g b j (omega arith)
    ∙ ap (byte_at g) place)

-- The next page of a reader that stands at a page, or its end.
pub read_full-page :
    (file : List ℕ) (i : ℕ)
    → InFile file i
    → read_full database_page_size (drop (i * database_page_size) file)
      ≡ (ok (page_at file i), drop ((i + 1) * database_page_size) file)
unfolding page_at
read_full-page file i h =
    let next : i * database_page_size + database_page_size ≡ (i + 1) * database_page_size =
      omega arith in
    ap (read_full database_page_size)
      (sym (take-drop database_page_size (drop (i * database_page_size) file)))
    ∙ read_full-append database_page_size (page_at file i)
        (drop database_page_size (drop (i * database_page_size) file)) (length-page_at file i h)
    ∙ ap (λ s. (ok (page_at file i), s))
        (drop-drop database_page_size (i * database_page_size) file ∙ ap (λ k. drop k file) next)

pub read_full-end :
    (file : List ℕ) (i : ℕ)
    → length file ≤ i * database_page_size
    → read_full database_page_size (drop (i * database_page_size) file) ≡ (err eof, [])
unfolding read_full
read_full-end file i h =
    ap (read_full database_page_size) (drop_all (i * database_page_size) file h)

-- Whether a page counts as missing.
unfoldable pub is_missing : List ℕ → Bool
is_missing page = all_zero (take header_size page)

pub check_if_missing_page-InFile :
    (file : List ℕ) (i : ℕ)
    → InFile file i
    → check_if_missing_page file i ≡ ok (is_missing (page_at file i))
unfolding check_if_missing_page read_file_at is_missing page_at
check_if_missing_page-InFile file i h =
    let at = drop (i * database_page_size) file in
    let l : length (take header_size at) ≡ header_size =
      length-take header_size at (omega (arith, h, length-drop (i * database_page_size) file)) in
    let whole : ltb (length (take header_size at)) header_size ≡ false = ground (arith, l) in
    ap
      (λ t. elim (if t then none else some (take header_size at)) [
        | none ↦ err (read_error eof)
        | some page_header ↦ ok (all_zero page_header)
      ])
      whole
    ∙ ap (λ p. ok (all_zero p)) (sym (take-take header_size database_page_size at (omega arith)))

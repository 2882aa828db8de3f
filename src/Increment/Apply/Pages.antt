-- ===== src/Increment/Apply/Pages.antt =====
-- The loop of ApplyFileIncrement over an increment that was made of another file.
use extract.Common.{
  ℕ, suc, ◌+◌, ◌-◌, ◌*◌, ◌/◌, ◌%◌, ◌^◌, ◌<◌, ◌≡◌, refl, ap, ◌∙◌, List, [], ◌∷◌, ◌++◌, length,
  append_assoc, get_elem?, All, any, true, ◌==◌, Bool-cases, some, ok, ◌⊎◌, inl, inr, arith,
}
use extract.Walparser.Readers.{bytes_reader}
use extract.Walparser.Readers.Laws.{read_full-append}
use extract.Files.{write_file_at}
use extract.Files.Laws.{byte_at, byte_at-section, byte_at-write_file_at, length-write_file_at}
use extract.Increment.PageHeader.{database_page_size}
use extract.Increment.Reader.{block_numbers}
use extract.Increment.Reader.Contents.{page_at, pages_of, InFile, length-page_at}
use extract.Increment.Format.{diff_block}
use extract.Increment.Format.Head.{diff_block-numbers}
use extract.Increment.Apply.{apply_pages, write_block, write_read}

-- Every listed page of `new` written to its place.
unfoldable pub write_all : List ℕ → List ℕ → List ℕ → List ℕ
write_all new [] file = file
write_all new (b ∷ blocks) file =
    write_all new blocks (write_file_at file (b * database_page_size) (page_at new b))

-- The blocks that are left are those of the whole list from place `i` on.
abbrev pub From : List ℕ → ℕ → List ℕ → Type 0
From blocks i left = (j : ℕ) → get_elem? blocks (i + j) ≡ get_elem? left j

pub From-next :
    (blocks : List ℕ) (i b : ℕ) (left : List ℕ)
    → From blocks i (b ∷ left)
    → From blocks (suc i) left
From-next blocks i b left h j =
    let e : suc i + j ≡ i + suc j = omega arith in ap (get_elem? blocks) e ∙ h (suc j)

module _ (new blocks : List ℕ) (few : length blocks * 4 < 2 ^ 32) where
  pub first_block :
      (i b : ℕ) (left : List ℕ)
      → From blocks i (b ∷ left)
      → b < 2 ^ 32
      → diff_block (block_numbers blocks) i ≡ some b
  first_block i b left h u =
      let e : i ≡ i + 0 = omega arith in
      diff_block-numbers blocks i b few u (ap (get_elem? blocks) e ∙ h 0)

  -- The loop writes the pages to their places and leaves what is behind them.
  pub apply_pages-pages_of :
      (i : ℕ) (left rest file : List ℕ)
      → i + length left ≡ length blocks
      → From blocks i left
      → All (λ b. b < 2 ^ 32) left
      → All (InFile new) left
      → apply_pages (length left) i (block_numbers blocks) (pages_of new left ++ rest) file
        ≡ (ok rest, write_all new left file)
  unfolding apply_pages pages_of write_all
  apply_pages-pages_of i [] rest file l h u v = refl
  apply_pages-pages_of i (b ∷ left) rest file l h (ub, u) (vb, v) =
      let more = apply_pages (length left) ((i + 1) % 2 ^ 32) (block_numbers blocks) in
      let next : (i + 1) % 2 ^ 32 ≡ suc i = omega (arith, l, few) in
      ap (λ o. write_block more o ((page_at new b ++ pages_of new left) ++ rest) file)
        (first_block i b left h ub)
      ∙ ap (λ s. write_block more (some b) s file)
          (append_assoc (page_at new b) (pages_of new left) rest)
      ∙ ap (write_read more b file) (
          read_full-append database_page_size (page_at new b) (pages_of new left ++ rest)
            (length-page_at new b vb))
      ∙ ap
          (λ k.
            apply_pages (length left) k (block_numbers blocks) (pages_of new left ++ rest)
              (write_file_at file (b * database_page_size) (page_at new b)))
          next
      ∙ apply_pages-pages_of (suc i) left rest
          (write_file_at file (b * database_page_size) (page_at new b)) (omega (arith, l))
          (From-next blocks i b left h) u v

pub byte_at-page_at :
    (file : List ℕ) (b j : ℕ)
    → j < database_page_size
    → byte_at (page_at file b) j ≡ byte_at file (b * database_page_size + j)
unfolding page_at
byte_at-page_at file b j h = byte_at-section database_page_size (b * database_page_size) file j h

pub length-write_all :
    (new blocks file : List ℕ)
    → length file ≡ length new
    → All (InFile new) blocks
    → length (write_all new blocks file) ≡ length new
unfolding write_all
length-write_all new [] file e h = e
length-write_all new (b ∷ blocks) file e (h, k) =
    length-write_all new blocks (write_file_at file (b * database_page_size) (page_at new b))
      (length-write_file_at file (b * database_page_size) (page_at new b)
          (omega (arith, e, h, length-page_at new b h))
        ∙ e)
      k

-- A byte of the file is as in `new` afterwards if it is so before or its block is listed.
pub byte_at-write_all :
    (new blocks file : List ℕ) (i : ℕ)
    → All (InFile new) blocks
    → (byte_at file i ≡ byte_at new i) ⊎ (any (λ b. b == i / database_page_size) blocks ≡ true)
    → byte_at (write_all new blocks file) i ≡ byte_at new i
unfolding write_all
byte_at-write_all new [] file i h (inl e) = e
byte_at-write_all new [] file i h (inr e) = cc
byte_at-write_all new (b ∷ blocks) file i (h, k) a =
    let written = byte_at-write_file_at file (b * database_page_size) (page_at new b) i in
    let l = length-page_at new b h in
    byte_at-write_all new blocks (write_file_at file (b * database_page_size) (page_at new b)) i k
      (elim (Bool-cases (b == i / database_page_size)) [
        | inl here ↦
            let place : b * database_page_size + (i - b * database_page_size) ≡ i =
              ground (arith, here) in
            inl (
              ground (arith, written, l, here)
              ∙ byte_at-page_at new b (i - b * database_page_size) (ground (arith, here))
              ∙ ap (byte_at new) place)
        | inr there ↦ elim a [
          | inl e ↦ inl (ground (arith, written, l, there, e))
          | inr e ↦ inr (ground (arith, there, e))
        ]
      ])

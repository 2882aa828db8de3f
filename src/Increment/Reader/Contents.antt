-- ===== src/Increment/Reader/Contents.antt =====
-- incremental_page_reader.go: Read gives the header and the listed pages, however large its buffers.
use mathlib.Core.Path.{subst}
use extract.Common.{
  ℕ, zero, suc, ◌+◌, ◌-◌, ◌*◌, ◌≤◌, ◌<◌, ◌≡◌, refl, sym, ap, ◌∙◌, List, [], ◌∷◌, ◌++◌, length, take,
  drop, take_within, drop_within, take_behind, drop_behind, take_all, drop_all, length-take,
  length-append, length-drop, append_assoc, append-nil, All, true, false, leb, ◌==◌, if◌then◌else◌,
  Bool-cases, List-cases, inl, inr, none, some, ok, err, arith,
}
use extract.Walparser.Readers.{ParseError, eof}
use extract.Increment.PageHeader.{database_page_size}
use extract.Increment.Reader.{
  IncrementalPageReader, full_page, drain_more_data, Read, after_drain, drain_blocks, drained,
  set_next, read_rounds, read,
}

unfoldable pub page_at : List ℕ → ℕ → List ℕ
page_at file b = take database_page_size (drop (b * database_page_size) file)

unfoldable pub pages_of : List ℕ → List ℕ → List ℕ
unfolding page_at
pages_of file [] = []
pages_of file (b ∷ blocks) = page_at file b ++ pages_of file blocks

-- The file holds the whole block.
abbrev pub InFile : List ℕ → ℕ → Type 0
InFile file b = (b + 1) * database_page_size ≤ length file

-- What is still to come.
unfoldable pub contents : IncrementalPageReader → List ℕ
contents r = r.next ++ pages_of r.paged_file r.blocks

pub length-page_at :
    (file : List ℕ) (b : ℕ) → InFile file b → length (page_at file b) ≡ database_page_size
unfolding page_at
length-page_at file b h =
    length-take database_page_size (drop (b * database_page_size) file)
      (omega (arith, h, length-drop (b * database_page_size) file))

pub length-pages_of :
    (file blocks : List ℕ)
    → All (InFile file) blocks
    → length (pages_of file blocks) ≡ length blocks * database_page_size
unfolding pages_of
length-pages_of file [] h = refl
length-pages_of file (b ∷ blocks) (h, k) = omega (
  arith,
  length-append (page_at file b) (pages_of file blocks),
  length-page_at file b h,
  length-pages_of file blocks k,
)

pub full_page-whole : (page : List ℕ) → length page ≡ database_page_size → full_page page ≡ ok page
full_page-whole page l =
    let whole : (length page == database_page_size) ≡ true = ground (arith, l) in
    ap
      (λ t.
        if t then ok page else if length page == 0 then err eof else err ParseError.unexpected_eof)
      whole

-- Draining takes the next block's page.
drain_more_data-page :
    (r : IncrementalPageReader) (b : ℕ) (bs : List ℕ)
    → r.blocks ≡ b ∷ bs
    → InFile r.paged_file b
    → drain_more_data r ≡ (
      ok true,
      record r {
        blocks = bs;
        next = page_at r.paged_file b;
        position = b * database_page_size + length (page_at r.paged_file b);
      },
    )
unfolding drain_more_data page_at
drain_more_data-page r b bs e h =
    ap (λ l. drain_blocks l r) e
    ∙ ap
        (λ t. drained (
          set_next (
            t,
            record r {
              blocks = bs;
              position = b * database_page_size + length (page_at r.paged_file b);
            },
          )))
        (full_page-whole (page_at r.paged_file b) (length-page_at r.paged_file b h))

drain_more_data-none :
    (r : IncrementalPageReader) → r.blocks ≡ [] → drain_more_data r ≡ (ok false, r)
unfolding drain_more_data
drain_more_data-none r e = ap (λ l. drain_blocks l r) e

-- What a call of Read for `n` more bytes does, where `got` has been read before.
pub record Gives (n : ℕ) (got : List ℕ) (r : IncrementalPageReader) (call : Read) : Type 0 where
  pub bytes : call.0 ≡ got ++ take n (contents r)
  pub error : call.1 ≡ (if leb n (length (contents r)) then none else some eof)
  pub rest : contents call.2 ≡ drop n (contents r)
  pub held : All (InFile call.2.paged_file) call.2.blocks
  pub same : call.2.paged_file ≡ r.paged_file

-- What has been copied is taken off, and the rest of the buffer is filled in the next round.
abbrev copied : ℕ → IncrementalPageReader → IncrementalPageReader
copied n r = record r { next = drop (length (take n r.next)) r.next }

filled :
    (n : ℕ) (got : List ℕ) (r : IncrementalPageReader)
    → All (InFile r.paged_file) r.blocks
    → n ≤ length r.next
    → Gives n got r (got ++ take n r.next, none, copied n r)
unfolding contents
filled n got r h l = record {
  bytes = ap (λ s. got ++ s) (sym (take_within n r.next (pages_of r.paged_file r.blocks) l));
  error = ground (arith, length-append r.next (pages_of r.paged_file r.blocks));
  rest =
      ap (λ k. drop k r.next ++ pages_of r.paged_file r.blocks) (length-take n r.next l)
      ∙ sym (drop_within n r.next (pages_of r.paged_file r.blocks) l);
  held = h;
  same = refl;
}

ended :
    (n : ℕ) (got : List ℕ) (r : IncrementalPageReader)
    → r.blocks ≡ []
    → length r.next < n
    → Gives n got r (got ++ r.next, some eof, copied n r)
unfolding contents pages_of
ended n got r e l =
    let whole : contents r ≡ r.next =
      ap (λ bs. r.next ++ pages_of r.paged_file bs) e ∙ append-nil r.next in
    record {
      bytes =
          ap (λ s. got ++ s) (sym (take_all n r.next (omega (arith, l))) ∙ ap (take n) (sym whole));
      error = ground (arith, ap length whole, l);
      rest =
          ap (λ bs. drop (length (take n r.next)) r.next ++ pages_of r.paged_file bs) e
          ∙ append-nil (drop (length (take n r.next)) r.next)
          ∙ drop_all (length (take n r.next)) r.next
              (omega (arith, ap length (take_all n r.next (omega (arith, l)))))
          ∙ sym (drop_all n r.next (omega (arith, l)))
          ∙ ap (drop n) (sym whole);
      held = ap_All (sym e);
      same = refl;
    }
  where
    ap_All : {bs : List ℕ} → [] ≡ bs → All (InFile r.paged_file) bs
    ap_All {bs} p = rw (← p) tt

-- The next round goes on from the page of the first block.
continued :
    (n : ℕ) (got : List ℕ) (r s : IncrementalPageReader) (b : ℕ) (bs : List ℕ) (call : Read)
    → r.blocks ≡ b ∷ bs
    → s.blocks ≡ bs
    → s.paged_file ≡ r.paged_file
    → s.next ≡ page_at r.paged_file b
    → length r.next < n
    → Gives (n - length r.next) (got ++ r.next) s call
    → Gives n got r call
unfolding contents pages_of
continued n got r s b bs call e es ef en l g =
    let split : contents r ≡ r.next ++ contents s =
      ap (λ v. r.next ++ pages_of r.paged_file v) e
      ∙ ap (λ v. r.next ++ (v ++ pages_of r.paged_file bs)) (sym en)
      ∙ ap (λ v. r.next ++ (s.next ++ pages_of v bs)) (sym ef)
      ∙ ap (λ v. r.next ++ (s.next ++ pages_of s.paged_file v)) (sym es) in
    let all : length (contents r) ≡ length r.next + length (contents s) =
      ap length split ∙ length-append r.next (contents s) in
    record {
      bytes =
          g.bytes
          ∙ append_assoc got r.next (take (n - length r.next) (contents s))
          ∙ ap (λ v. got ++ v) (sym (take_behind n r.next (contents s) (omega (arith, l))))
          ∙ ap (λ v. got ++ take n v) (sym split);
      error = g.error ∙ ap (λ t. if t then none else some eof) (ground (arith, all, l));
      rest =
          g.rest
          ∙ sym (drop_behind n r.next (contents s) (omega (arith, l)))
          ∙ ap (drop n) (sym split);
      held = g.held;
      same = g.same ∙ ef;
    }

-- One round, where the buffer is larger than what is at hand.
larger :
    (fuel n : ℕ) (got : List ℕ) (r : IncrementalPageReader)
    → length r.next < n
    → read_rounds (suc fuel) n got r
      ≡ after_drain
          (got ++ r.next)
          (read_rounds fuel (n - length r.next) (got ++ r.next))
          (drain_more_data (copied n r))
unfolding read_rounds
larger fuel n got r l =
    let whole : take n r.next ≡ r.next = take_all n r.next (omega (arith, l)) in
    let more : (n - length (take n r.next) == 0) ≡ false = ground (arith, l, ap length whole) in
    rw (read_rounds, more)
      (ap
        (λ v.
          after_drain (got ++ v) (read_rounds fuel (n - length v) (got ++ v))
            (drain_more_data (copied n r)))
        whole)

smaller :
    (fuel n : ℕ) (got : List ℕ) (r : IncrementalPageReader)
    → n ≤ length r.next
    → read_rounds (suc fuel) n got r ≡ (got ++ take n r.next, none, copied n r)
unfolding read_rounds
smaller fuel n got r l =
    let done : (n - length (take n r.next) == 0) ≡ true = ground (arith, l, length-take n r.next) in
    rw (read_rounds, done) refl

read_rounds-Gives :
    (fuel n : ℕ) (got : List ℕ) (r : IncrementalPageReader)
    → All (InFile r.paged_file) r.blocks
    → length r.blocks < fuel
    → Gives n got r (read_rounds fuel n got r)
read_rounds-Gives zero n got r h l = elim l [ ]
read_rounds-Gives (suc fuel) n got r h l = elim (Bool-cases (leb n (length r.next))) [
  | inl few ↦
      rw (smaller fuel n got r (ground (arith, few))) (filled n got r h (ground (arith, few)))
  | inr many ↦
      let more : length r.next < n = ground (arith, many) in
      rw (larger fuel n got r more) (elim (List-cases r.blocks) [
        | inl e ↦ rw (drain_more_data-none (copied n r) e) (ended n got r e more)
        | inr (b, bs, e) ↦
            let held : All (InFile r.paged_file) (b ∷ bs) = subst (All (InFile r.paged_file)) e h in
            let s = record (copied n r) {
              blocks = bs;
              next = page_at r.paged_file b;
              position = b * database_page_size + length (page_at r.paged_file b);
            } in
            rw (drain_more_data-page (copied n r) b bs e held.0) (
              continued n got r s b bs (read_rounds fuel (n - length r.next) (got ++ r.next) s) e
                refl refl refl more
                (read_rounds-Gives fuel (n - length r.next) (got ++ r.next) s held.1
                  (omega (arith, l, ap length e))))
      ])
]

-- Where the file holds every listed block, Read refines a reader of the header and the listed pages in
-- memory: it gives as many of the bytes that are to come as the buffer takes, with io.EOF exactly if
-- they are fewer than that, and what is to come afterwards is the rest.
pub read-Gives :
    (n : ℕ) (r : IncrementalPageReader)
    → All (InFile r.paged_file) r.blocks
    → Gives n [] r (read n r)
unfolding read
read-Gives n r h = read_rounds-Gives (suc (length r.blocks)) n [] r h (omega arith)

-- ===== src/Increment/Local/Created.antt =====
-- pagefile_new.go: CreateFileFromIncrement makes a file of the increment's pages and of empty ones.
use mathlib.Core.Path.{subst}
use extract.Common.{
  ℕ, zero, suc, ◌+◌, ◌-◌, ◌*◌, ◌≤◌, ◌<◌, ◌≡◌, refl, sym, ap, ◌∙◌, List, [], ◌∷◌, length,
  length-replicate, All, any, true, false, ◌==◌, ◌||◌, if◌then◌else◌, Bool-cases, Result, ok, inl,
  inr, arith,
}
use extract.Walparser.Readers.{bytes_reader}
use extract.Walparser.Readers.Laws.{read_full-append}
use extract.Files.{write_file_at}
use extract.Files.Laws.{length-write_file_at_end}
use extract.Increment.PageHeader.{database_page_size, IncrementError}
use extract.Increment.Reader.Contents.{page_at, pages_of, InFile, length-page_at}
use extract.Increment.Local.{put_read, write_page, empty_page, create_rounds}
use extract.Increment.Local.Pages.{page_at-write_same, page_at-write_other}

length-empty_page : length empty_page ≡ database_page_size
unfolding empty_page
length-empty_page = length-replicate {A = ℕ} database_page_size 0

-- Numbers that grow.
unfoldable pub Ascending : List ℕ → Type 0
Ascending [] = Unit {0}
Ascending (b ∷ bs) = All (λ c. b < c) bs × Ascending bs

-- The page that the new file has afterwards.
abbrev pub created : List ℕ → List ℕ → ℕ → List ℕ
created new blocks b = if any (λ c. c == b) blocks then page_at new b else empty_page

absent : (i : ℕ) (bs : List ℕ) → All (λ c. i < c) bs → any (λ c. c == i) bs ≡ false
absent i [] h = refl
absent i (b ∷ bs) (h, k) = ground (arith, h, absent i bs k)

beyond :
    (i : ℕ) (bs : List ℕ)
    → All (λ c. i ≤ c) bs
    → any (λ c. c == i) bs ≡ false
    → All (λ c. suc i ≤ c) bs
beyond i [] h e = tt
beyond i (b ∷ bs) (h, k) e = (ground (arith, h, e), beyond i bs k (ground (arith, e)))

-- The blocks that are still to come in the increment, from page `i` on.
pub record IsAhead (blocks : List ℕ) (i : ℕ) (left : List ℕ) : Type 0 where
  pub from : All (λ c. i ≤ c) left
  pub grow : Ascending left
  pub same : (x : ℕ) → i ≤ x → any (λ c. c == x) blocks ≡ any (λ c. c == x) left

strictly_above : (i b : ℕ) (bs : List ℕ) → i ≤ b → All (λ c. b < c) bs → All (λ c. i < c) bs
strictly_above i b [] l h = tt
strictly_above i b (c ∷ bs) l (h, k) = (omega (arith, l, h), strictly_above i b bs l k)

-- The next block of the increment is the next page, where that is listed.
first-IsAhead :
    (blocks : List ℕ) (i : ℕ) (left : List ℕ)
    → IsAhead blocks i left
    → any (λ c. c == i) blocks ≡ true
    → (rest : List ℕ) × (left ≡ i ∷ rest) × IsAhead blocks (suc i) rest
unfolding Ascending
first-IsAhead blocks i [] a e = absurd (none (a.same i (omega arith)))
  where
    none : any (λ c. c == i) blocks ≡ false → ⊥
    none f = cc (e, f)
first-IsAhead blocks i (b ∷ rest) a e = elim (Bool-cases (b == i)) [
  | inl f ↦
      let here : b ≡ i = ground (arith, f) in
      (
        rest,
        ap (λ c. c ∷ rest) here,
        record {
          from = subst (λ c. All (λ x. c < x) rest) here a.grow.0;
          grow = a.grow.1;
          same = λ x l. a.same x (omega (arith, l)) ∙ other x f l;
        },
      )
  | inr f ↦ absurd (later f)
]
  where
    other :
        (x : ℕ)
        → (b == i) ≡ true
        → suc i ≤ x
        → (b == x || any (λ c. c == x) rest) ≡ any (λ c. c == x) rest
    other x f l = ground (arith, f, l)

    later : (b == i) ≡ false → ⊥
    later f =
        let none = absent i rest (strictly_above i b rest a.from.0 a.grow.0) in
        let found : (b == i || any (λ c. c == i) rest) ≡ true = sym (a.same i (omega arith)) ∙ e in
        ground (arith, f, none, found)

next-IsAhead :
    (blocks : List ℕ) (i : ℕ) (left : List ℕ)
    → IsAhead blocks i left
    → any (λ c. c == i) blocks ≡ false
    → IsAhead blocks (suc i) left
next-IsAhead blocks i left a e = record {
  from = beyond i left a.from (sym (a.same i (omega arith)) ∙ e);
  grow = a.grow;
  same = λ x l. a.same x (omega (arith, l));
}

module _ (new blocks : List ℕ) (n : ℕ) (whole : length new ≡ n * database_page_size) where
  -- What the rounds from page `i` on make of a file of `i` pages.
  pub record Rounds (i missing : ℕ) (file left : List ℕ) (call : Result IncrementError ℕ × List ℕ)
      : Type 0 where
    pub fine : call.0 ≡ ok (missing - length left)
    pub sized : length call.1 ≡ n * database_page_size
    pub before : (b : ℕ) → b < i → page_at call.1 b ≡ page_at file b
    pub page : (b : ℕ) → i ≤ b → b < n → page_at call.1 b ≡ created new blocks b

  ended :
      (i missing : ℕ) (file left : List ℕ)
      → i ≡ n
      → length file ≡ i * database_page_size
      → IsAhead blocks i left
      → All (InFile new) left
      → Rounds i missing file left (ok missing, file)
  ended i missing file [] e l a h = record {
    fine = ap ok (omega arith);
    sized = omega (arith, l, e);
    before = λ b lt. refl;
    page = λ b ge lt. absurd (omega (arith, ge, lt, e));
  }
  ended i missing file (b ∷ left) e l a (h, k) = absurd (omega (arith, a.from.0, h, whole, e))

  -- A round that puts page `i` behind the others, in front of the rest.
  first_round :
      (i missing more : ℕ) (file page left rest : List ℕ) (call : Result IncrementError ℕ × List ℕ)
      → length file ≡ i * database_page_size
      → i < n
      → length page ≡ database_page_size
      → page ≡ created new blocks i
      → more - length rest ≡ missing - length left
      → Rounds (suc i) more (write_file_at file (i * database_page_size) page) rest call
      → Rounds i missing file left call
  first_round i missing more file page left rest call l lt s here counted r = record {
    fine = r.fine ∙ ap ok counted;
    sized = r.sized;
    before = λ b below.
        r.before b (omega (arith, below))
        ∙ page_at-write_other file i b page s (λ q. omega (arith, q, below))
            (omega (arith, below, l)) (omega (arith, below, longer));
    page = λ b ge lt'. elim (Bool-cases (b == i)) [
      | inl e ↦
          let same : b ≡ i = ground (arith, e) in
          ap (page_at call.1) same
          ∙ r.before i (omega arith)
          ∙ page_at-write_same file i page s (omega (arith, longer))
          ∙ here
          ∙ ap (created new blocks) (sym same)
      | inr e ↦ r.page b (ground (arith, e, ge)) lt'
    ];
  }
    where
      longer :
          length (write_file_at file (i * database_page_size) page)
          ≡ i * database_page_size + length page
      longer = length-write_file_at_end file (i * database_page_size) page l

  listed_page :
      (file rest : List ℕ) (i : ℕ)
      → InFile new i
      → write_page file i (pages_of new (i ∷ rest)) true
        ≡ (ok true, write_file_at file (i * database_page_size) (page_at new i), pages_of new rest)
  unfolding write_page pages_of
  listed_page file rest i h = ap (put_read file i true) (
      read_full-append database_page_size (page_at new i) (pages_of new rest)
        (length-page_at new i h))

  at_next :
      (k i more : ℕ) (made rest : List ℕ)
      → Rounds (suc i) more made rest (create_rounds k (suc i) blocks more (pages_of new rest) made)
      → Rounds (suc i) more made rest (create_rounds k (i + 1) blocks more (pages_of new rest) made)
  at_next k i more made rest r =
      let next : suc i ≡ i + 1 = omega arith in
      subst
        (λ j.
          Rounds (suc i) more made rest (create_rounds k j blocks more (pages_of new rest) made))
        next r

  -- The round of a listed page, in front of the rest.
  listed_round :
      (k i missing : ℕ) (file left rest : List ℕ)
      → i < n
      → length file ≡ i * database_page_size
      → any (λ c. c == i) blocks ≡ true
      → left ≡ i ∷ rest
      → InFile new i
      → ((made : List ℕ)
          → length made ≡ suc i * database_page_size
          → Rounds
              (suc i)
              (missing - 1)
              made
              rest
              (create_rounds k (suc i) blocks (missing - 1) (pages_of new rest) made))
      → Rounds i missing file left (create_rounds (suc k) i blocks missing (pages_of new left) file)
  unfolding create_rounds
  listed_round k i missing file left rest lt l f first held more =
      let page = page_at new i in
      let size = length-page_at new i held in
      let made = write_file_at file (i * database_page_size) page in
      let longer = length-write_file_at_end file (i * database_page_size) page l in
      let round =
        first_round i missing (missing - 1) file page (i ∷ rest) rest
          (create_rounds k (i + 1) blocks (missing - 1) (pages_of new rest) made) l lt size
          (rw f refl) (omega arith)
          (at_next k i (missing - 1) made rest (more made (omega (arith, size, longer)))) in
      subst
        (λ v.
          Rounds i missing file v (create_rounds (suc k) i blocks missing (pages_of new v) file))
        (sym first) (rw (f, listed_page file rest i held) round)

  pub create_rounds-Rounds :
      (k i missing : ℕ) (file left : List ℕ)
      → i + k ≡ n
      → length file ≡ i * database_page_size
      → IsAhead blocks i left
      → All (InFile new) left
      → Rounds i missing file left (create_rounds k i blocks missing (pages_of new left) file)
  unfolding create_rounds
  create_rounds-Rounds zero i missing file left e l a h =
      ended i missing file left (omega (arith, e)) l a h
  create_rounds-Rounds (suc k) i missing file left e l a h =
      elim (Bool-cases (any (λ c. c == i) blocks)) [
        | inl f ↦
            let (rest, first, ahead) = first-IsAhead blocks i left a f in
            let held : All (InFile new) (i ∷ rest) = subst (All (InFile new)) first h in
            listed_round k i missing file left rest (omega (arith, e)) l f first held.0
              (λ made longer.
                create_rounds-Rounds k (suc i) (missing - 1) made rest (omega (arith, e)) longer
                  ahead held.1)
        | inr f ↦
            let made = write_file_at file (i * database_page_size) empty_page in
            rw f (
              first_round i missing missing file empty_page left left
                (create_rounds k (i + 1) blocks missing (pages_of new left) made) l
                (omega (arith, e)) length-empty_page (rw f refl) refl
                (at_next k i missing made left (
                  create_rounds-Rounds k (suc i) missing made left (omega (arith, e))
                    (omega (
                      arith,
                      length-empty_page,
                      length-write_file_at_end file (i * database_page_size) empty_page l,
                    ))
                    (next-IsAhead blocks i left a f) h)))
      ]

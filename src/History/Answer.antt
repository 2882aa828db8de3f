-- ===== src/History/Answer.antt =====
-- timeline_history.go: which timeline LSNToTimeLine finds.
use mathlib.Core.Path.{subst}
use extract.Common.{
  ℕ, ◌≡◌, refl, sym, ap, ◌∙◌, List, [], ◌∷◌, any, any-sort_by, sort_by, IsAbove, IsSortedBy,
  sort_by-IsSortedBy, Bool, true, false, ltb, ◌==◌, ◌&&◌, if◌then◌else◌, Bool-cases, Result, ok,
  ◌>>=◌, inl, inr, arith,
}
use extract.History.{TimeLineHistFileRow, TimeLineHistFile, rows, first_after, lsn_to_time_line}

-- Whether the part of the log that a row ends holds a position.
abbrev pub is_behind : ℕ → TimeLineHistFileRow → Bool
is_behind lsn row = ltb lsn row.start_lsn

-- A row of a timeline, and one of an earlier timeline, that ends behind a position.
abbrev pub ends_behind : ℕ → ℕ → TimeLineHistFileRow → Bool
ends_behind lsn t row = row.time_line_id == t && is_behind lsn row

abbrev pub earlier_behind : ℕ → ℕ → TimeLineHistFileRow → Bool
earlier_behind lsn t row = ltb row.time_line_id t && is_behind lsn row

-- What the answer `t` says of the rows.
pub record IsFirst (own lsn : ℕ) (rows : List TimeLineHistFileRow) (t : ℕ) : Type 0 where
  pub some_row : any (is_behind lsn) rows ≡ true → any (ends_behind lsn t) rows ≡ true
  pub no_row : any (is_behind lsn) rows ≡ false → t ≡ own
  pub first : any (is_behind lsn) rows ≡ true → any (earlier_behind lsn t) rows ≡ false

none_earlier :
    (lsn t : ℕ) (rows : List TimeLineHistFileRow)
    → IsAbove (λ row. row.time_line_id) t rows
    → any (earlier_behind lsn t) rows ≡ false
none_earlier lsn t [] h = refl
none_earlier lsn t (row ∷ rows) (h, k) = ground (arith, h, none_earlier lsn t rows k)

here :
    (own lsn : ℕ) (row : TimeLineHistFileRow) (rows : List TimeLineHistFileRow)
    → IsAbove (λ r. r.time_line_id) row.time_line_id rows
    → is_behind lsn row ≡ true
    → IsFirst own lsn (row ∷ rows) row.time_line_id
here own lsn row rows h e =
    let earlier = none_earlier lsn row.time_line_id rows h in
    record {
      some_row = λ f. ground (arith, e);
      no_row = λ f. ground (arith, e, f);
      first = λ f. ground (arith, earlier);
    }

later :
    (own lsn t : ℕ) (row : TimeLineHistFileRow) (rows : List TimeLineHistFileRow)
    → IsFirst own lsn rows t
    → is_behind lsn row ≡ false
    → IsFirst own lsn (row ∷ rows) t
later own lsn t row rows r e = record {
  some_row = λ f.
      let more : any (is_behind lsn) rows ≡ true = ground (arith, e, f) in
      ground (arith, e, r.some_row more);
  no_row = λ f. r.no_row (ground (arith, e, f));
  first = λ f.
      let more : any (is_behind lsn) rows ≡ true = ground (arith, e, f) in
      ground (arith, e, r.first more);
}

first_after-IsFirst :
    (own lsn : ℕ) (rows : List TimeLineHistFileRow)
    → IsSortedBy (λ row. row.time_line_id) rows
    → IsFirst own lsn rows (first_after own lsn rows)
unfolding first_after
first_after-IsFirst own lsn [] s = record {
  some_row = λ e. cc e;
  no_row = λ e. refl;
  first = λ e. refl;
}
first_after-IsFirst own lsn (row ∷ rows) (h, s) = elim (Bool-cases (is_behind lsn row)) [
  | inl e ↦
      subst
        (λ b.
          IsFirst own lsn (row ∷ rows) (if b then row.time_line_id else first_after own lsn rows))
        (sym e) (here own lsn row rows h e)
  | inr e ↦
      subst
        (λ b.
          IsFirst own lsn (row ∷ rows) (if b then row.time_line_id else first_after own lsn rows))
        (sym e)
        (later own lsn (first_after own lsn rows) row rows (first_after-IsFirst own lsn rows s) e)
]

module _ {E : Type 0} (parse_lsn : List ℕ → Result E ℕ) where
  -- Where the rows of a history file are read, LSNToTimeLine answers with the timeline of a row that
  -- ends behind the position, and no row of an earlier timeline does, if there is such a row; else with
  -- the timeline of the file. The order of the rows in the file is of no consequence.
  pub lsn_to_time_line-IsFirst :
      (tlh : TimeLineHistFile) (lsn : ℕ) (parsed : List TimeLineHistFileRow)
      → rows parse_lsn tlh ≡ ok parsed
      → (t : ℕ) × (lsn_to_time_line parse_lsn tlh lsn ≡ ok t)
        × IsFirst tlh.time_line_id lsn parsed t
  unfolding lsn_to_time_line
  lsn_to_time_line-IsFirst tlh lsn parsed e =
      let sorted = sort_by (λ row. row.time_line_id) parsed in
      let own = tlh.time_line_id in
      let t = first_after own lsn sorted in
      let r =
        first_after-IsFirst own lsn sorted (sort_by-IsSortedBy (λ row. row.time_line_id) parsed) in
      let same : (p : TimeLineHistFileRow → Bool) → any p sorted ≡ any p parsed =
        any_sorted parsed in
      (
        t,
        ap (λ q. q >>= λ rs. ok (first_after own lsn (sort_by (λ row. row.time_line_id) rs))) e,
        record {
          some_row = λ f. sym (same (ends_behind lsn t)) ∙ r.some_row (same (is_behind lsn) ∙ f);
          no_row = λ f. r.no_row (same (is_behind lsn) ∙ f);
          first = λ f. sym (same (earlier_behind lsn t)) ∙ r.first (same (is_behind lsn) ∙ f);
        },
      )
    where
      any_sorted :
          (xs : List TimeLineHistFileRow) (p : TimeLineHistFileRow → Bool)
          → any p (sort_by (λ row. row.time_line_id) xs) ≡ any p xs
      any_sorted xs p = any-sort_by (λ row. row.time_line_id) p xs

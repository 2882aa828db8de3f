-- ===== src/Walparser/Totality/Pages.antt =====
-- The parsers of a page and of a WAL file end.
use extract.Common.{
  ℕ, zero, suc, ◌+◌, ◌-◌, ◌%◌, ◌≤◌, ◌<◌, ◌≡◌, ◌≢◌, refl, ap, ◌∙◌, List, [], ◌∷◌, ◌++◌, length, ltb,
  ◌==◌, Bool, true, false, none, some, Result, ok, err, arith, Bool-cases, Option-cases,
  Result-cases, inl, inr, ◌&&◌,
}
use extract.Walparser.Readers.{
  ParseError, no_progress, zero_record_header, AlignedReader, bytes_reader, aligned_reader,
  aligned_read, after, pure, read_to_alignment, all_zero,
}
use extract.Walparser.Header.{XLogRecordHeader, xlog_record_header_size, read_xlog_record_header}
use extract.Walparser.Record.{XLogRecord, parse_xlog_record_from_bytes}
use extract.Walparser.Page.{
  XLogPageHeader, XLogPage, PageResult, no_page, with_records, eof_is_ok, read_some,
  read_record_content, read_record_from_header, try_read_xlog_record_data, check_partial_page,
  add_record, read_xlog_page,
}
use extract.Walparser.Totality.{Progress, bytes_progress, aligned_progress}
use extract.Walparser.Totality.Steps.{Ends, Ends-ok, Ends-err, Ends-if, Good, err-injective}
use extract.Walparser.Totality.Records.{read_xlog_record_header-Good}
use extract.Walparser.Totality.Files.{parse_xlog_record-ends}

abbrev pub page_progress : Progress (aligned_reader ⦃i = bytes_reader⦄)
page_progress = aligned_progress bytes_reader bytes_progress

abbrev pub size : AlignedReader (List ℕ) → ℕ
size a = length a.inner_reader

eof_is_ok-ends :
    {A : Type 0} (a : A) (e : ParseError) → e ≢ no_progress → eof_is_ok a e ≢ err no_progress
eof_is_ok-ends a e h = ground arith

eof_is_ok-same : {A : Type 0} (a b : A) (e : ParseError) → eof_is_ok a e ≡ ok b → a ≡ b
eof_is_ok-same a b e h = ground arith

-- A call of Read that ends gives what has gone from the reader.
pub record Some (n : ℕ) (r : Result ParseError (List ℕ) × AlignedReader (List ℕ)) : Type 0 where
  pub ends : r.0 ≢ err no_progress
  pub less : size r.1 ≤ n
  pub gone : (out : List ℕ) → r.0 ≡ ok out → size r.1 + length out ≤ n

pub read_some-Some : (n : ℕ) (a : AlignedReader (List ℕ)) → Some (size a) (read_some n a)
unfolding read_some aligned_progress bytes_progress
read_some-Some n a =
    let shrinks = page_progress.shrinks n a in
    elim (Option-cases (aligned_read n a).1) [
      | inl z ↦
          rw (read_some, z)
            (record {
              ends = λ e. cc;
              less = omega (arith, shrinks);
              gone = λ out e. ground (arith, shrinks);
            })
      | inr (x, z) ↦
          rw (read_some, z)
            (record {
              ends = eof_is_ok-ends _ x (λ e. page_progress.no_stall n a (z ∙ ap some e));
              less = omega (arith, shrinks);
              gone = λ out e.
                  omega (arith, shrinks, ap length (eof_is_ok-same (aligned_read n a).0 out x e));
            })
    ]

pub read_to_alignment-Ends :
    (a : AlignedReader (List ℕ)) → Ends page_progress (read_to_alignment a) (size a)
unfolding read_to_alignment aligned_progress bytes_progress
read_to_alignment-Ends a =
    Ends-if page_progress _ _ _ (Ends-ok page_progress tt a (size a) (omega arith))
      (padded (a.alignment - a.already_read % a.alignment))
  where
    padded :
        (n : ℕ)
        → Ends page_progress
            (elim (aligned_read n a).1 [ none ↦ ok tt | some e ↦ err e ], (aligned_read n a).2)
            (size a)
    padded n = elim (Option-cases (aligned_read n a).1) [
      | inl z ↦
          rw z (Ends-ok page_progress tt _ (size a) (omega (arith, page_progress.shrinks n a)))
      | inr (x, z) ↦ rw z (
          Ends-err page_progress x _ (size a) (λ e. page_progress.no_stall n a (z ∙ ap some e))
            (omega (arith, page_progress.shrinks n a)))
    ]

-- An attempt at a record ends, and a whole record costs a byte at least.
record Attempt (n : ℕ) (r : Result ParseError (List ℕ × Bool) × AlignedReader (List ℕ))
    : Type 0 where
  ends : r.0 ≢ err no_progress
  less : size r.1 ≤ n
  costs : (out : List ℕ) → r.0 ≡ ok (out, true) → size r.1 < n

Attempt-none :
    (s : List ℕ) (a : AlignedReader (List ℕ)) (n : ℕ) → size a ≤ n → Attempt n (ok (s, false), a)
Attempt-none s a n h = record { ends = λ e. cc; less = h; costs = λ out e. cc }

Attempt-err :
    (x : ParseError) (a : AlignedReader (List ℕ)) (n : ℕ)
    → x ≢ no_progress
    → size a ≤ n
    → Attempt n (err x, a)
Attempt-err x a n h k = record { ends = λ e. h (err-injective e); less = k; costs = λ out e. cc }

after_content :
    (header_bytes : List ℕ) (h : XLogRecordHeader) (n m : ℕ)
    (r : Result ParseError (List ℕ) × AlignedReader (List ℕ))
    → Some m r
    → m < n
    → Attempt n (
        after r (λ content. pure (
          header_bytes ++ content,
          length content == h.total_record_length - xlog_record_header_size,
        )))
after_content header_bytes h n m (err x, a) s l =
    Attempt-err x a n (λ e. s.ends (ap err e)) (omega (arith, s.less, l))
after_content header_bytes h n m (ok content, a) s l = record {
  ends = λ e. cc;
  less = omega (arith, s.less, l);
  costs = λ out e. omega (arith, s.less, l);
}

-- A complete header has been taken from the reader.
from_header :
    (header_bytes : List ℕ) (a : AlignedReader (List ℕ)) (n : ℕ)
    → size a + length header_bytes ≤ n
    → Attempt n (read_record_from_header header_bytes a)
unfolding read_record_from_header read_record_content Good bytes_progress
from_header header_bytes a n l =
    elim (Bool-cases (ltb (length header_bytes) xlog_record_header_size)) [
      | inl short ↦ elim (Bool-cases (ltb 0 (length header_bytes) && all_zero header_bytes)) [
        | inl z ↦
            rw (read_record_from_header, short, z)
              (Attempt-err zero_record_header a n (λ e. cc) (omega (arith, l)))
        | inr z ↦
            rw (read_record_from_header, short, z)
              (Attempt-none header_bytes a n (omega (arith, l)))
      ]
      | inr whole ↦
          let long : 24 ≤ length header_bytes = ground arith in
          elim (Result-cases (read_xlog_record_header header_bytes).0) [
            | inl (x, e) ↦
                rw (read_record_from_header, whole, e)
                  (Attempt-err x a n
                    (λ w.
                      (read_xlog_record_header-Good bytes_progress header_bytes).ended
                        (e ∙ ap err w))
                    (omega (arith, l)))
            | inr (h, e) ↦
                rw (read_record_from_header, whole, e)
                  (after_content header_bytes h n (size a) _ (read_some-Some _ a)
                    (omega (arith, l, long)))
          ]
    ]

after_header :
    (n m : ℕ) (r : Result ParseError (List ℕ) × AlignedReader (List ℕ))
    → Some m r
    → m ≤ n
    → Attempt n (after r read_record_from_header)
after_header n m (err x, a) s l =
    Attempt-err x a n (λ e. s.ends (ap err e)) (omega (arith, s.less, l))
after_header n m (ok header_bytes, a) s l =
    from_header header_bytes a n (omega (arith, s.gone header_bytes refl, l))

try_read-Attempt : (a : AlignedReader (List ℕ)) → Attempt (size a) (try_read_xlog_record_data a)
unfolding try_read_xlog_record_data aligned_progress bytes_progress
try_read-Attempt a =
    let aligned = read_to_alignment-Ends a in
    elim (Result-cases (read_to_alignment a).0) [
      | inl (x, e) ↦
          rw (try_read_xlog_record_data, e)
            (record {
              ends = eof_is_ok-ends _ x (λ w. aligned.ended (e ∙ ap err w));
              less = aligned.less;
              costs = λ out w. elim (not_whole x out w) [ ];
            })
      | inr (u, e) ↦
          rw (try_read_xlog_record_data, e)
            (after_header (size a) (size (read_to_alignment a).1)
              (read_some xlog_record_header_size (read_to_alignment a).1)
              (read_some-Some xlog_record_header_size (read_to_alignment a).1) aligned.less)
    ]
  where
    not_whole :
        (x : ParseError) (out : List ℕ)
        → ¬ (eof_is_ok {A = List ℕ × Bool} ([], false) x ≡ ok (out, true))
    not_whole x out w = ground arith

check_partial_page-ends :
    (rest : List ℕ) (page : XLogPage) (e : ParseError)
    → e ≢ no_progress
    → check_partial_page rest page e ≢ no_page no_progress
unfolding check_partial_page
check_partial_page-ends rest page e h = ground arith

add_record-ends :
    (h : XLogPageHeader) (remaining : List ℕ) (records : List XLogRecord)
    (more : List XLogRecord → PageResult) (r : XLogRecord)
    → more (records ++ r ∷ []) ≢ no_page no_progress
    → add_record h remaining records more r ≢ no_page no_progress
unfolding add_record
add_record-ends h remaining records more r k = ground arith

no_fuel : {n : ℕ} → ¬ (n < 0)
no_fuel h = omega arith

pub read_xlog_page-ends :
    (fuel : ℕ) (h : XLogPageHeader) (remaining : List ℕ) (records : List XLogRecord)
    (a : AlignedReader (List ℕ))
    → size a < fuel
    → read_xlog_page fuel h remaining records a ≢ no_page no_progress
unfolding read_xlog_page parse_xlog_record_from_bytes
read_xlog_page-ends zero h remaining records a l = elim (no_fuel l) [ ]
read_xlog_page-ends (suc fuel) h remaining records a l =
    let t = try_read-Attempt a in
    elim (Result-cases (try_read_xlog_record_data a).0) [
      | inl (x, e) ↦
          rw (read_xlog_page, e)
            (check_partial_page-ends (try_read_xlog_record_data a).1.inner_reader
              (with_records h remaining records []) x (λ w. t.ends (e ∙ ap err w)))
      | inr ((out, false), e) ↦ rw (read_xlog_page, e) (λ w. cc)
      | inr ((out, true), e) ↦ elim (Result-cases (parse_xlog_record_from_bytes out)) [
        | inl (x, f) ↦
            rw (read_xlog_page, e, f)
              (check_partial_page-ends (try_read_xlog_record_data a).1.inner_reader
                (with_records h remaining records []) x
                (λ w. parse_xlog_record-ends out (f ∙ ap err w)))
        | inr (r, f) ↦
            rw (read_xlog_page, e, f)
              (add_record-ends h remaining records
                (λ rs. read_xlog_page fuel h remaining rs (try_read_xlog_record_data a).1) r
                (read_xlog_page-ends fuel h remaining (records ++ r ∷ [])
                  (try_read_xlog_record_data a).1 (omega (arith, t.costs out e, l))))
      ]
    ]
